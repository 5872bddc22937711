-- ===== src/Programs/Form/Laws.antt =====
-- Lemmas about `publish` and `buildBackendRules` of
-- web/apps/dashboard/app/(app)/programas/novo/page.tsx.
use indica_ai.Prelude.{
  ◌≡◌, ◌≢◌, ◌↔◌, refl, ap, Bool, true, false, inl, inr, if◌then◌else◌, Option-cases, ◌&&◌, none,
  some, List, [], ◌∷◌, String, is_some, arith, codes, all,
}
use indica_ai.Js.Strings.{is_space}
use indica_ai.Js.Strings.Laws.{trim-blank}
use indica_ai.Programs.Tiers.{Tier}
use indica_ai.Programs.Form.{
  Reward, Rules, window_days, or_zero, Preset, Destination, State, build_reward,
  build_backend_rules, is_tiered,
}
use indica_ai.Programs.Form.Submit.{is_blank, has_no_tier, is_whatsapp, is_site, complaint, publish}

-- A character that is no white space stands in the text.
abbrev pub IsFilled : String → Type 0
IsFilled v = all is_space (codes v) ≡ false

abbrev pub HasTiers : Preset → List Tier → Type 0
HasTiers Preset.flexible_split ts = Unit
HasTiers _ ts = ts ≢ []

abbrev pub HasTarget : Destination → (whatsapp : String) → (site : String) → Type 0
HasTarget Destination.whatsapp w u = IsFilled w
HasTarget Destination.site w u = IsFilled u
HasTarget Destination.landing w u = Unit

IsFilled-iff : (v : String) → (is_blank v ≡ false) ↔ IsFilled v
IsFilled-iff v = ground (arith, trim-blank (codes v))

tiers_iff :
    (p : Preset) (ts : List Tier) → ((is_tiered p && has_no_tier ts) ≡ false) ↔ HasTiers p ts
tiers_iff Preset.flexible_split ts = ground arith
tiers_iff Preset.commission [] = ground arith
tiers_iff Preset.commission (t ∷ ts) = ground arith
tiers_iff Preset.recurring [] = ground arith
tiers_iff Preset.recurring (t ∷ ts) = ground arith
tiers_iff Preset.goal [] = ground arith
tiers_iff Preset.goal (t ∷ ts) = ground arith

target_iff :
    (d : Destination) (w u : String)
    → (((is_whatsapp d && is_blank w) ≡ false) × ((is_site d && is_blank u) ≡ false))
      ↔ HasTarget d w u
target_iff Destination.whatsapp w u = ground (arith, IsFilled-iff w)
target_iff Destination.site w u = ground (arith, IsFilled-iff u)
target_iff Destination.landing w u = ground arith

chain_iff :
    (a b c d : Bool) (w x y z : String)
    → ((if a
          then some w
          else if b
          then some x
          else if c
          then some y
          else if d
          then some z
          else none)
        ≡ none)
      ↔ ((a ≡ false) × ((b ≡ false) × ((c ≡ false) × (d ≡ false))))
chain_iff a b c d w x y z = ground arith

complaint_iff :
    (s : State)
    → (complaint s ≡ none) ↔ (
        (is_blank s.nome ≡ false)
        × (((is_tiered s.preset && has_no_tier s.tiers) ≡ false)
            × (((is_whatsapp s.destino && is_blank s.whatsapp_numero) ≡ false)
                × ((is_site s.destino && is_blank s.site_url) ≡ false))))
unfolding complaint
complaint_iff s = chain_iff _ _ _ _ _ _ _ _

call_iff :
    (J : Type 0) (s : State) → (is_some (publish {J = J} s).call ≡ true) ↔ (complaint s ≡ none)
unfolding publish
call_iff J s = elim (Option-cases (complaint s)) [
  | inl e ↦ rw e (ground arith)
  | inr (m, e) ↦ rw e (ground arith)
]

-- `publish` calls the back end exactly when the name is not blank, there is a tier unless the
-- preset is the flexible split, and the text that the destination needs is not blank.
pub publish_iff :
    (J : Type 0) (s : State)
    → (is_some (publish {J = J} s).call ≡ true) ↔ (
        IsFilled s.nome
        × (HasTiers s.preset s.tiers × HasTarget s.destino s.whatsapp_numero s.site_url))
publish_iff J s = ground (
  arith,
  call_iff J s,
  complaint_iff s,
  IsFilled-iff s.nome,
  tiers_iff s.preset s.tiers,
  target_iff s.destino s.whatsapp_numero s.site_url,
)

build_reward-first :
    (p : Preset) (s : State) (t : Tier) (ts us : List Tier)
    → p ≢ Preset.goal
    → build_reward (record s { preset = p; tiers = t ∷ ts })
      ≡ build_reward (record s { preset = p; tiers = t ∷ us })
unfolding build_reward
build_reward-first Preset.commission s t ts us h = refl
build_reward-first Preset.recurring s t ts us h = refl
build_reward-first Preset.flexible_split s t ts us h = refl
build_reward-first Preset.goal s t ts us h = elim (h refl) [ ]

abbrev with_reward : State → Reward → Rules
with_reward s r = record {
  trigger = s.quando_pagar;
  attribution_window_days = window_days s.janela_atribuicao;
  reward = r;
  method = s.como_pagar;
  min_amount_brl = or_zero s.valor_minimo;
}

-- Two forms that differ in the tiers after the first only are sent as the same rules, unless the
-- preset is a goal.
pub build_backend_rules-first :
    (s : State) (t : Tier) (ts us : List Tier)
    → s.preset ≢ Preset.goal
    → build_backend_rules (record s { tiers = t ∷ ts })
      ≡ build_backend_rules (record s { tiers = t ∷ us })
unfolding build_backend_rules build_reward
build_backend_rules-first s t ts us h = ap (with_reward s) (build_reward-first s.preset s t ts us h)
