-- ===== src/Tests/Toast.antt =====
-- One toast in an empty store.
use indica_ai.Prelude.{◌≡◌, none, some, [], ◌∷◌, map, refl, All}
use indica_ai.Toast.{
  dismiss_toast, clean_all, Hook, unsubscribe, Options, Store, initial, toast, unmount, mount,
  Reach, here, next, toasted, mounted,
}
use indica_ai.Toast.Laws.{IsValid}
use indica_ai.Toast.Traces.{Reach-IsValid, drain, drain-timers, dismiss_toast-toast}

abbrev saved : Options
saved = record { title = some "Salvo"; description = none; variant = none; duration = none }

abbrev shown : Store
shown = (toast saved (mount initial)).0

shown-Reach : Reach initial shown
shown-Reach = next (next here mounted) (toasted saved)

Reach-IsValid_example : IsValid shown
Reach-IsValid_example = Reach-IsValid shown-Reach

drain-timers_example : All (λ t. t.duration ≡ 0) (drain shown.timers shown).toasts
drain-timers_example = drain-timers shown (Reach-IsValid shown-Reach)

-- A toast that is shown, and dismissed with the id that `toast` returned.
dismiss_toast-toast_example :
    (dismiss_toast (toast saved shown).1 (toast saved shown).0).toasts ≡ shown.toasts
dismiss_toast-toast_example = dismiss_toast-toast saved shown (Reach-IsValid shown-Reach)

-- A hook that unmounts leaves its setter among the listeners.
abbrev first_hook : Hook
first_hook = record { number = 0; held = unsubscribe 0; effects = [] }

unmounted_listens : map (λ l. l.0) (unmount first_hook shown).listeners ≡ 0 ∷ []
unfolding unmount clean_all toast mount
unmounted_listens = refl
