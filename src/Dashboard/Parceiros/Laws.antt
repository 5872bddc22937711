-- ===== src/Dashboard/Parceiros/Laws.antt =====
-- Lemmas about what the table of web/apps/dashboard/app/(app)/parceiros/table.tsx shows.
use indica_ai.Prelude.{
  ◌≡◌, ◌≢◌, ◌↔◌, true, ◌++◌, String, Text, eq_iff, arith, &&_iff, mem-select, mem_of_select,
}
use mathlib.Core.List.{Memᴰ}
use indica_ai.Js.Strings.{lower}
use indica_ai.Js.Strings.Laws.{includes_iff}
use indica_ai.Dashboard.Api.Types.{Partner}
use indica_ai.Dashboard.Parceiros.{Table, haystack, matches_programa, matches, filtered}

abbrev pub Holds : Text → Text → Type 0
Holds t p = (pre : Text) × (post : Text) × (t ≡ pre ++ (p ++ post))

matches_programa_iff :
    (f : String) (p : Partner) → f ≢ "all" → (matches_programa f p ≡ true) ↔ (p.program_name ≡ f)
matches_programa_iff f p n = ground (arith, eq_iff f "all", eq_iff p.program_name f)

-- With a program selected the table shows a partner exactly when it is in the list, its texts hold what is
-- searched, and its program has the selected name.
pub mem-filtered_iff :
    (s : Table) (p : Partner)
    → s.programa_filter ≢ "all"
    → Memᴰ p (filtered s) ↔ (
        Memᴰ p s.partners
        × (Holds (haystack p) (lower s.search) × (p.program_name ≡ s.programa_filter)))
unfolding filtered matches
mem-filtered_iff s p n = (
  λ m.
      let (found, h) = mem_of_select (matches s.programa_filter s.search) p s.partners m in
      let (a, b) = (&&_iff _ (matches_programa s.programa_filter p)).0 h in
      (found, ((includes_iff _ _).0 a, (matches_programa_iff s.programa_filter p n).0 b)),
  λ h. mem-select (matches s.programa_filter s.search) p s.partners h.0 (
      (&&_iff _ (matches_programa s.programa_filter p)).1
        ((includes_iff _ _).1 h.1.0, (matches_programa_iff s.programa_filter p n).1 h.1.1)),
)
