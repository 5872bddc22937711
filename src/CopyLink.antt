-- ===== src/CopyLink.antt =====
-- `CopyLinkButton` of web/packages/ui/src/components/copy-link-button.tsx: `handleCopy`, cut at its `await`, with
-- the timers that take the tick away. Delays are left out: any pending timer may fire.
use indica_ai.Prelude.{ℕ, suc, ◌<◌, ◌≡◌, Bool, true, false, Text, arith, if◌then◌else◌}

pub record World : Type 0 where
  pub copied : Bool
  pub writing : ℕ
  pub timers : ℕ
  pub clipboard : Text

unfoldable pub mounted : Text → World
mounted clipboard = record { copied = false; writing = 0; timers = 0; clipboard = clipboard }

unfoldable pub handle_copy : World → World
handle_copy w = record w { writing = suc w.writing }

-- Behind the `await`; `written` says whether the browser took the text, by `writeText` or, where that
-- is refused, by `execCommand`.
unfoldable pub copied : (url : Text) → (written : Bool) → World → World
copied url written w = record w {
  copied = true;
  timers = suc w.timers;
  clipboard = if written then url else w.clipboard;
}

unfoldable pub fire : World → World
fire w = record w { copied = false }

pub data Step (url : Text) (w : World) : World → Type 0 where
  clicked : Step url w (handle_copy w)
  wrote :
      (n : ℕ) (written : Bool)
      → w.writing ≡ suc n
      → Step url w (copied url written (record w { writing = n }))
  fired : (n : ℕ) → w.timers ≡ suc n → Step url w (fire (record w { timers = n }))

pub data Reach (url : Text) (w : World) : World → Type 0 where
  here : Reach url w w
  next : {u v : World} → Reach url w u → Step url u v → Reach url w v

module _ (url clipboard : Text) where
  Step-timers :
      {w u : World}
      → Step url w u
      → (w.copied ≡ true → 0 < w.timers)
      → (u.copied ≡ true → 0 < u.timers)
  unfolding handle_copy copied fire
  Step-timers clicked h = h
  Step-timers (wrote n b e) h = λ f. omega arith
  Step-timers (fired n e) h = λ f. cc

  -- While the button shows the tick, a timer that takes it away is pending.
  pub Reach-timers : {w : World} → Reach url (mounted clipboard) w → w.copied ≡ true → 0 < w.timers
  unfolding mounted
  Reach-timers here = λ f. cc
  Reach-timers (next r st) = Step-timers st (Reach-timers r)
