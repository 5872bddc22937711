-- ===== src/Dashboard/Auditoria/Rows.antt =====
-- The open row of the tables of web/apps/dashboard/app/(app)/auditoria/page.tsx.
use indica_ai.Prelude.{
  ℕ, ◌≤◌, ◌≡◌, ◌≢◌, ◌↔◌, refl, Bool, true, false, Option, none, some, List, [], ◌∷◌, map, String,
  eq_iff, arith, length, select, is_some, All, Bool-cases, inl, inr, str_eq,
}
use indica_ai.Dashboard.Api.Types.{AuditEntry}
use indica_ai.Dashboard.Auditoria.{State, toggled, toggle}
use indica_ai.Dashboard.Auditoria.View.{is_expanded, EventRow, event_row}

-- A row with its details.
abbrev pub is_open : EventRow → Bool
is_open r = is_some r.blocks

abbrev pub count_open : Option String → List AuditEntry → ℕ
count_open expanded es = length (select is_open (map (event_row expanded) es))

abbrev pub Distinct : List AuditEntry → Type 0
Distinct [] = Unit
Distinct (e ∷ es) = All (λ x. x.id ≢ e.id) es × Distinct es

closed_rows :
    (k : String) (es : List AuditEntry) → All (λ x. x.id ≢ k) es → count_open (some k) es ≡ 0
unfolding event_row
closed_rows k [] h = refl
closed_rows k (e ∷ es) (n, h) = ground (arith, eq_iff k e.id, closed_rows k es h)

no_rows : (es : List AuditEntry) → count_open none es ≡ 0
unfolding event_row
no_rows [] = refl
no_rows (e ∷ es) = ground (arith, no_rows es)

one_row : (k : String) (es : List AuditEntry) → Distinct es → count_open (some k) es ≤ 1
unfolding event_row
one_row k [] h = omega arith
one_row k (e ∷ es) (n, h) = elim (Bool-cases (str_eq k e.id)) [
  | inl same ↦
      let e' : k ≡ e.id = (eq_iff k e.id).0 same in ground (arith, closed_rows e.id es n, e')
  | inr other ↦ rw other (one_row k es h)
]

-- Of entries with distinct ids at most one row is open.
pub count_open-le :
    (expanded : Option String) (es : List AuditEntry) → Distinct es → count_open expanded es ≤ 1
count_open-le none es h = rw (no_rows es) (omega arith)
count_open-le (some k) es h = one_row k es h

toggled_iff :
    (o : Option String) (id : String) (e : AuditEntry)
    → (is_open (event_row (toggled o id) e) ≡ true) ↔ ((e.id ≡ id) × (is_expanded o id ≡ false))
unfolding event_row
toggled_iff none id e = ground (arith, eq_iff id e.id)
toggled_iff (some k) id e = ground (arith, eq_iff k id, eq_iff id e.id)

-- After a click on a row an entry is open exactly when it has that row's id and the row was closed.
pub is_open-toggle :
    (id : String) (s : State) (e : AuditEntry)
    → (is_open (event_row (toggle id s).expanded_id e) ≡ true)
      ↔ ((e.id ≡ id) × (is_expanded s.expanded_id id ≡ false))
unfolding toggle
is_open-toggle id s e = toggled_iff s.expanded_id id e
