-- ===== src/Programs/Listing.antt =====
-- The list of programs, web/apps/dashboard/app/(app)/programas/page.tsx: its state, the sentence that sums up a
-- program's rules, and the link that it offers to copy. Money is left unformatted.
pub mod Laws
use indica_ai.Prelude.{
  ℕ, Bool, true, false, ◌&&◌, ◌||◌, not, Option, none, some, List, [], ◌∷◌, ◌++◌, map, String, Text,
  codes, str_eq, get_or, if◌then◌else◌, take,
}
use indica_ai.Js.Json.{Json, Members, end, member, is_truthy, length_items}
use indica_ai.Js.Json
use indica_ai.Http.{Call, Result, resolved, rejected, get_message}
use indica_ai.Dashboard.Words.{shows_error, truthy}
use indica_ai.Dashboard.Api.Types.{Program, ProgramStatus}
use indica_ai.Dashboard.Api.Endpoints.{programs_list}

-- `rules` is an object, and `settings` some value.
abbrev pub Listed : Type 0
Listed = Program Members

-- What `summarizeRule` says; the number in a sentence is the JSON value that it prints.
pub data Summary : Type 0 where
  custom : Summary
  levels : ℕ → Summary
  flexible_split : Option Json → Summary
  fixed_commission : Option Json → Summary
  percentage_commission : Option Json → Summary
  by_goal : Summary
  other : Json → Summary

-- A property of an object; the last member of a name counts.
unfoldable pub property : String → Members → Option Json
property k end = none
property k (member j v ms) = elim (property k ms) [
  | some w ↦ some w
  | none ↦ if str_eq j k then some v else none
]

-- `v?.k`, of a value that is no object `undefined`.
abbrev property_of : String → Option Json → Option Json
property_of k none = none
property_of k (some (Json.object ms)) = property k ms
property_of k (some _) = none

-- What is left of a value if it is truthy.
abbrev truthy_json : Option Json → Option Json
truthy_json none = none
truthy_json (some v) = if is_truthy v then some v else none

-- `a || b`, and `a ?? b`.
abbrev either : Option Json → Option Json → Option Json
either a b = elim (truthy_json a) [ some v ↦ some v | none ↦ b ]

abbrev given_or : Option Json → Option Json → Option Json
given_or none b = b
given_or (some Json.null) b = b
given_or (some v) b = some v

-- The number of tiers, which are an array if they are there.
abbrev count_tiers : Option Json → ℕ
count_tiers (some (Json.array xs)) = length_items xs
count_tiers _ = 0

abbrev is_text : String → Json → Bool
is_text s (Json.text t) = str_eq t s
is_text s _ = false

-- The cases of `summarizeRule` behind the type.
abbrev pub summary_of : Json → Members → Option Json → Summary
summary_of kind rules reward =
    if is_text "tiered" kind
    then Summary.levels (count_tiers (property_of "tiers" reward))
    else if is_text "flexible_split" kind
    then Summary.flexible_split (truthy_json (property_of "max_pct" reward))
    else if is_text "commission_fixed" kind || is_text "fixed" kind
    then Summary.fixed_commission
        (truthy_json (given_or (property_of "amount_brl" reward) (property "amount" rules)))
    else if is_text "commission_pct" kind || is_text "percentage" kind
    then Summary.percentage_commission
        (truthy_json (given_or (property_of "pct" reward) (property "pct" rules)))
    else if is_text "goal_based" kind || is_text "goal" kind
    then Summary.by_goal
    else Summary.other kind

unfoldable pub summarize_rule : Members → Summary
unfolding property
summarize_rule rules =
    let reward = property "reward" rules in
    elim (truthy_json (either (property_of "type" reward) (property "type" rules))) [
      | none ↦ Summary.custom
      | some kind ↦ summary_of kind rules reward
    ]

-- `programLink`, and the URL of the button.
unfoldable pub program_link : Listed → Text
program_link p = codes "indica.ai/r/" ++ take 8 (codes p.id)

unfoldable pub copied_url : Listed → Text
unfolding program_link
copied_url p = codes "https://" ++ program_link p

pub record State : Type 0 where
  pub programs : List Listed
  pub loading : Bool
  pub error : Option String

unfoldable pub opened : State
opened = record { programs = []; loading = true; error = none }

unfoldable pub list_call : Call (Unit {0}) (List Listed)
unfolding programs_list
list_call = programs_list

unfoldable pub loaded : Result (List Listed) → State → State
loaded (resolved v) s = record s { programs = get_or v []; loading = false }
loaded (rejected e) s = record s { error = some (get_message e); loading = false }

abbrev pub status_label : ProgramStatus → String
status_label ProgramStatus.active = "Ativo"
status_label ProgramStatus.paused = "Pausado"
status_label ProgramStatus.draft = "Rascunho"

pub record Card : Type 0 where
  pub name : String
  pub status : String
  pub redirect_type : String
  pub description : Option String
  pub rule : Summary
  pub copied : Text
  pub edit_path : Text

abbrev card : Listed → Card
card p = record {
  name = p.name;
  status = status_label p.status;
  redirect_type = p.redirect_type;
  description = truthy p.description;
  rule = summarize_rule p.rules;
  copied = copied_url p;
  edit_path = codes "/programas/" ++ codes p.id;
}

pub record View : Type 0 where
  pub loading : Bool
  pub error : Option String
  pub invites_first : Bool
  pub cards : List Card

abbrev is_none_listed : List Listed → Bool
is_none_listed [] = true
is_none_listed (p ∷ ps) = false

unfoldable pub view : State → View
unfolding summarize_rule copied_url
view s = record {
  loading = s.loading;
  error = truthy s.error;
  invites_first = not s.loading && (not (shows_error s.error) && is_none_listed s.programs);
  cards = map card s.programs;
}
