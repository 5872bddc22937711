-- ===== src/Dashboard/Parceiros/Convidar/Traces.antt =====
-- The steps of the form of web/apps/dashboard/app/(app)/parceiros/convidar-sheet.tsx, up to a request.
use indica_ai.Prelude.{
  ◌≡◌, ◌≢◌, refl, Bool, true, false, some, List, [], ◌∷◌, String, str_eq, eq_iff, get_or,
  Bool-cases, inl, inr, ◌⊎◌,
}
use mathlib.Core.List.{Memᴰ}
use indica_ai.Http.{Call, Result, resolved, rejected}
use indica_ai.Dashboard.Api.Types.{Program, CreatePartnerRequest, Partner}
use indica_ai.Dashboard.Api.Endpoints.{partners_create}
use indica_ai.Dashboard.Parceiros.Convidar.{
  State, Input, mounted, first_id, listed, change, build_request, handle_submit,
}

-- The form, and whether its programs are still awaited.
pub record World (J : Type 0) : Type 0 where
  pub form : State J
  pub listing : Bool

module _ {J : Type 0} where
  unfoldable pub start : World J
  unfolding mounted
  start = record { form = mounted; listing = true }

  -- An answer, an entry, or a program that is picked from the list.
  pub data Step (w : World J) : World J → Type 0 where
    answered :
        (r : Result (List (Program J)))
        → w.listing ≡ true
        → Step w (record { form = listed r w.form; listing = false })
    named : (v : String) → Step w (record w { form = change (Input.nome v) w.form })
    mailed : (v : String) → Step w (record w { form = change (Input.email v) w.form })
    phoned : (v : String) → Step w (record w { form = change (Input.telefone v) w.form })
    picked :
        (p : Program J)
        → Memᴰ p w.form.programs
        → Step w (record w { form = change (Input.program_id p.id) w.form })
    submitted : Step w (record w { form = (handle_submit w.form).state })
    refused : Step w (record w { form = record (w.form) { submitting = false } })

  pub data Reach (w : World J) : World J → Type 0 where
    here : Reach w w
    next : {u v : World J} → Reach w u → Step u v → Reach w v

  -- The form's program is one of the list, or there is none.
  abbrev Chosen : List (Program J) → String → Type 0
  Chosen ps id = ((ps ≡ []) × (id ≡ "")) ⊎ ((p : Program J) × Memᴰ p ps × (p.id ≡ id))

  abbrev IsChosen : World J → Type 0
  IsChosen w =
      Chosen w.form.programs w.form.program_id
      × (w.listing ≡ true → (w.form.programs ≡ []) × (w.form.program_id ≡ ""))

  first : (ps : List (Program J)) (id : String) → id ≡ "" → Chosen ps (first_id ps id)
  first [] id e = inl (refl, e)
  first (p ∷ ps) id e = inr (p, Memᴰ.head refl, refl)

  listed-Chosen :
      (r : Result (List (Program J))) (s : State J)
      → s.program_id ≡ ""
      → Chosen (listed r s).programs (listed r s).program_id
  unfolding listed
  listed-Chosen (resolved v) s e = first (get_or v []) s.program_id e
  listed-Chosen (rejected x) s e = inl (refl, e)

  submit-fields :
      (s : State J)
      → ((handle_submit s).state.programs ≡ s.programs)
        × ((handle_submit s).state.program_id ≡ s.program_id)
  unfolding handle_submit
  submit-fields s = elim (Bool-cases (str_eq s.nome "")) [
    | inl e ↦ rw e (refl, refl)
    | inr e ↦ elim (Bool-cases (str_eq s.program_id "")) [
      | inl f ↦ rw (e, f) (refl, refl)
      | inr f ↦ rw (e, f) (refl, refl)
    ]
  ]

  not_mem : (p : Program J) (ps : List (Program J)) → Memᴰ p ps → ps ≡ [] → ⊥
  not_mem p [] m e = elim m [ ]
  not_mem p (q ∷ ps) m e = cc

  Step-IsChosen : {w u : World J} → Step w u → IsChosen w → IsChosen u
  unfolding change
  Step-IsChosen {w} (answered r e) (c, l) = (listed-Chosen r w.form (l e).1, λ f. cc)
  Step-IsChosen (named v) c = c
  Step-IsChosen (mailed v) c = c
  Step-IsChosen (phoned v) c = c
  Step-IsChosen {w} (picked p m) (c, l) =
      (inr (p, m, refl), λ f. absurd (not_mem p w.form.programs m (l f).0))
  Step-IsChosen {w} submitted c = let (a, b) = submit-fields w.form in rw (a, b) c
  Step-IsChosen refused c = c

  Reach-IsChosen : {w : World J} → Reach start w → IsChosen w
  unfolding start mounted
  Reach-IsChosen here = (inl (refl, refl), λ e. (refl, refl))
  Reach-IsChosen (next r st) = Step-IsChosen st (Reach-IsChosen r)

  -- A form that is sent has a name and a program.
  sent :
      (s : State J) (c : Call CreatePartnerRequest Partner)
      → (handle_submit s).call ≡ some c
      → (s.nome ≢ "") × (s.program_id ≢ "") × (c ≡ partners_create (build_request s))
  unfolding handle_submit
  sent s c h = elim (Bool-cases (str_eq s.nome "")) [
    | inl e ↦ let f = rw (e, handle_submit) at h in cc
    | inr e ↦ elim (Bool-cases (str_eq s.program_id "")) [
      | inl f ↦ let g = rw (e, f, handle_submit) at h in cc
      | inr f ↦ (
        λ x. let g = (eq_iff s.nome "").1 x in cc,
        λ x. let g = (eq_iff s.program_id "").1 x in cc,
        let g = rw (e, f, handle_submit) at h in cc,
      )
    ]
  ]

  chosen :
      (s : State J)
      → Chosen s.programs s.program_id
      → s.program_id ≢ ""
      → (p : Program J) × Memᴰ p s.programs × (p.id ≡ s.program_id)
  chosen s (inl (e, f)) n = absurd (n f)
  chosen s (inr h) n = h

  -- In every state that the form for a new partner reaches, a request that it sends is the creation
  -- of what the form holds, with a name that is not empty and the id of one of the programs that
  -- the form lists.
  pub Reach-program :
      {w : World J} {c : Call CreatePartnerRequest Partner}
      → Reach start w
      → (handle_submit w.form).call ≡ some c
      → (w.form.nome ≢ "")
        × (c ≡ partners_create (build_request w.form))
        × ((p : Program J) × Memᴰ p w.form.programs × (p.id ≡ (build_request w.form).program_id))
  unfolding build_request
  Reach-program {w} {c} r h =
      let (name, id, same) = sent w.form c h in (name, same, chosen w.form (Reach-IsChosen r).0 id)
