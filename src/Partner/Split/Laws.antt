-- ===== src/Partner/Split/Laws.antt =====
-- Lemmas about the flexible split of web/apps/partner/app/(app)/parceiro/indicacoes/nova/page.tsx.
use indica_ai.Prelude.{
  ◌≡◌, refl, ap, ◌∙◌, Bool, true, false, Option, none, some, List, [], ◌∷◌, arith,
}
use indica_ai.Prelude.Int.{ℤ, pos, ◌+ℤ◌, +ℤ_parts, eq_of_parts}
use indica_ai.Partner.Api.{SplitChoice}
use indica_ai.Partner.Split.{
  PresetKey, all_commission, half, all_discount, build, State, opened, sync, Event, loaded,
  clicked_preset, clicked_custom, typed_commission, typed_discount, step, is_over, split_invalid,
  choice_of, is_refused,
}

total_of_build :
    (k : PresetKey) (m : ℤ) → (build k m).commission_pct +ℤ (build k m).discount_pct ≡ m +ℤ m
unfolding build
total_of_build all_commission m =
    eq_of_parts (m +ℤ m +ℤ pos 0) (m +ℤ m) (omega (arith, +ℤ_parts (m +ℤ m) (pos 0)))
total_of_build half m = refl
total_of_build all_discount m =
    eq_of_parts (pos 0 +ℤ (m +ℤ m)) (m +ℤ m) (omega (arith, +ℤ_parts (pos 0) (m +ℤ m)))

-- The split of each preset, at any ceiling, is neither invalid on the page nor refused by the back
-- end's evaluator.
pub is_refused-build :
    (k : PresetKey) (m : ℤ) → (is_over m (build k m) ≡ false) × (is_refused m (build k m) ≡ false)
unfolding is_over is_refused
is_refused-build k m = rw (total_of_build k m) (ground (arith, +ℤ_parts (m +ℤ m) (pos 2)))

-- A split to which the page objects is one that the back end refuses.
pub is_refused-is_over : (m : ℤ) (c : SplitChoice) → is_over m c ≡ true → is_refused m c ≡ true
unfolding is_over is_refused
is_refused-is_over m c h = ground (arith, +ℤ_parts (m +ℤ m) (pos 2))

-- In the preset mode of a flexible split the shares are the preset's.
abbrev IsSyncedAt : Option ℤ → (custom : Bool) → PresetKey → SplitChoice → Type 0
IsSyncedAt none custom k c = Unit
IsSyncedAt (some m) true k c = Unit
IsSyncedAt (some m) false k c = c ≡ build k m

abbrev pub IsSynced : State → Type 0
IsSynced s = IsSyncedAt s.ceiling s.custom_mode s.preset_key (choice_of s)

abbrev state : Option ℤ → Bool → PresetKey → ℤ → ℤ → State
state o b k x y = record {
  ceiling = o;
  preset_key = k;
  custom_mode = b;
  commission_pct = x;
  discount_pct = y;
}

sync_at : (o : Option ℤ) (b : Bool) (k : PresetKey) (x y : ℤ) → IsSynced (sync (state o b k x y))
unfolding sync build
sync_at none b k x y = tt
sync_at (some m) true k x y = tt
sync_at (some m) false k x y = refl

commission_at :
    (n : Option ℤ) (o : Option ℤ) (b : Bool) (k : PresetKey) (x y : ℤ)
    → IsSynced (state o b k x y)
    → IsSynced (step (typed_commission n) (state o b k x y))
unfolding step build
commission_at n none b k x y h = tt
commission_at n (some m) true k x y h = tt
commission_at n (some m) false k x y h = h

discount_at :
    (n : Option ℤ) (o : Option ℤ) (b : Bool) (k : PresetKey) (x y : ℤ)
    → IsSynced (state o b k x y)
    → IsSynced (step (typed_discount n) (state o b k x y))
unfolding step build
discount_at n none b k x y h = tt
discount_at n (some m) true k x y h = tt
discount_at n (some m) false k x y h = h

-- Every event of the referral page, with the effect that follows it, keeps the shares those of the
-- chosen preset in the preset mode of a flexible split.
pub step-IsSynced : (e : Event) (s : State) → IsSynced s → IsSynced (step e s)
unfolding step
step-IsSynced (loaded c) s h = sync_at c s.custom_mode s.preset_key s.commission_pct s.discount_pct
step-IsSynced (clicked_preset k) s h = sync_at s.ceiling false k s.commission_pct s.discount_pct
step-IsSynced clicked_custom s h =
    sync_at s.ceiling true s.preset_key s.commission_pct s.discount_pct
step-IsSynced (typed_commission n) s h =
    commission_at n s.ceiling s.custom_mode s.preset_key s.commission_pct s.discount_pct h
step-IsSynced (typed_discount n) s h =
    discount_at n s.ceiling s.custom_mode s.preset_key s.commission_pct s.discount_pct h

unfoldable pub run : List Event → State
unfolding opened
run [] = opened
run (e ∷ es) = step e (run es)

run-IsSynced : (es : List Event) → IsSynced (run es)
unfolding run opened
run-IsSynced [] = tt
run-IsSynced (e ∷ es) = step-IsSynced e (run es) (run-IsSynced es)

valid_at :
    (o : Option ℤ) (b : Bool) (k : PresetKey) (x y : ℤ)
    → IsSynced (state o b k x y)
    → b ≡ false
    → split_invalid (state o b k x y) ≡ false
unfolding split_invalid
valid_at none b k x y h e = refl
valid_at (some m) true k x y h e = ground arith
valid_at (some m) false k x y h e = ap (is_over m) h ∙ (is_refused-build k m).0

-- After any events since the referral page opened, the split is not invalid outside the custom
-- mode.
pub split_invalid-run :
    (es : List Event) → (run es).custom_mode ≡ false → split_invalid (run es) ≡ false
split_invalid-run es e =
    let s = run es in
    valid_at s.ceiling s.custom_mode s.preset_key s.commission_pct s.discount_pct (run-IsSynced es)
      e
