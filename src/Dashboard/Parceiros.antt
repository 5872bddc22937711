-- ===== src/Dashboard/Parceiros.antt =====
-- The page of partners, web/apps/dashboard/app/(app)/parceiros/page.tsx: its table, table.tsx, and the sheet of a
-- partner, sheet.tsx. The sheet that makes a partner is Convidar.
pub mod Convidar
pub mod Laws
use Prim.Native.String
use indica_ai.Prelude.{
  ℕ, suc, Bool, true, false, ◌&&◌, ◌||◌, Option, none, some, List, [], ◌∷◌, ◌++◌, map, String, Text,
  str_eq, get_or, ◌==◌, if◌then◌else◌, select, length,
}
use indica_ai.Js.Strings.{lower, includes}
use indica_ai.Http.{Call, Result, resolved, rejected, get_message, or_else}
use indica_ai.Toast.{Options, Variant}
use indica_ai.Dashboard.Words.{present, join_words, dashed, or_text, truthy, shows_error}
use indica_ai.Dashboard.Api.Types.{Partner, PartnerStatus}
use indica_ai.Dashboard.Api.Endpoints.{partners_list}

-- `programa_filter` is `"all"` or the name of a program.
pub record Table : Type 0 where
  pub partners : List Partner
  pub loading : Bool
  pub error : Option String
  pub selected : Option Partner
  pub search : Text
  pub programa_filter : String

unfoldable pub opened : Table
opened = record {
  partners = [];
  loading = true;
  error = none;
  selected = none;
  search = [];
  programa_filter = "all";
}

unfoldable pub list_call : Call (Unit {0}) (List Partner)
unfolding partners_list
list_call = partners_list

-- The answer that the effect waits for.
unfoldable pub loaded : Result (List Partner) → Table → Table
loaded (resolved v) s = record s { partners = get_or v []; loading = false }
loaded (rejected e) s = record s { error = some (get_message e); loading = false }

-- The inputs of the page, a click on a row or its "Ver detalhes", and the sheet's `onClose`.
unfoldable pub set_search : Text → Table → Table
set_search v s = record s { search = v }

unfoldable pub set_programa_filter : String → Table → Table
set_programa_filter v s = record s { programa_filter = v }

unfoldable pub select_partner : Partner → Table → Table
select_partner p s = record s { selected = some p }

unfoldable pub close : Table → Table
close s = record s { selected = none }

-- `Array.from(new Set(names))`: each name once, where it stands first.
abbrev pub has_name : String → List String → Bool
has_name n [] = false
has_name n (m ∷ ms) = str_eq m n || has_name n ms

unfoldable pub distinct_from : List String → List String → List String
distinct_from seen [] = []
distinct_from seen (n ∷ ns) =
    let rest = distinct_from (n ∷ seen) ns in
    let skipped = distinct_from seen ns in if has_name n seen then skipped else n ∷ rest

unfoldable pub programas : List Partner → List String
unfolding distinct_from
programas ps = distinct_from [] (map (λ p. p.program_name) ps)

-- The options of the select: the value and the text of each.
unfoldable pub select_options : List Partner → List (String × String)
unfolding programas
select_options ps = ("all", "Todos os programas") ∷ map (λ n. (n, n)) (programas ps)

unfoldable pub haystack : Partner → Text
unfolding join_words
haystack p = lower (join_words (present (some p.name) ++ (present p.email ++ present p.phone_e164)))

abbrev pub matches_programa : String → Partner → Bool
matches_programa f p = str_eq f "all" || str_eq p.program_name f

unfoldable pub matches : String → Text → Partner → Bool
unfolding haystack
matches f search p = includes (haystack p) (lower search) && matches_programa f p

unfoldable pub filtered : Table → List Partner
unfolding matches
filtered s = select (matches s.programa_filter s.search) s.partners

abbrev note : String → String → Variant → Options
note title description variant = record {
  title = some title;
  description = some description;
  variant = some variant;
  duration = none;
}

abbrev no_link : Option String × Options
no_link =
    (none, note "Sem link gerado" "Esse parceiro ainda não tem link de indicação." Variant.warning)

-- `copyLink`: what is written to the clipboard, and the toast.
unfoldable pub copy_link : Partner → Option String × Options
copy_link p = elim p.link_url [
  | none ↦ no_link
  | some url ↦
      if str_eq url "" then no_link else (some url, note "Link copiado!" url Variant.success)
]

pub data BadgeVariant : Type 0 where
  success warning destructive : BadgeVariant

abbrev pub badge : PartnerStatus → String × BadgeVariant
badge PartnerStatus.active = ("Ativo", BadgeVariant.success)
badge PartnerStatus.pending = ("Pendente", BadgeVariant.warning)
badge PartnerStatus.suspended = ("Suspenso", BadgeVariant.destructive)

pub record Row : Type 0 where
  pub id : String
  pub name : String
  pub contact : Option String
  pub program_name : String
  pub referrals : ℕ
  pub clicks : ℕ
  pub commission_cents : ℕ
  pub badge : String × BadgeVariant

abbrev row : Partner → Row
row p = record {
  id = p.id;
  name = p.name;
  contact = truthy (or_text p.email p.phone_e164);
  program_name = p.program_name;
  referrals = p.referrals;
  clicks = p.clicks;
  commission_cents = p.commission_cents;
  badge = badge p.status;
}

-- The sheet of a partner: its link, if it has one, and whether it can be suspended.
pub record SheetView : Type 0 where
  pub name : String
  pub program_name : String
  pub badge : String × BadgeVariant
  pub email : String
  pub phone : String
  pub created_at : String
  pub link_url : Option String
  pub referrals : ℕ
  pub clicks : ℕ
  pub commission_cents : ℕ
  pub can_suspend : Bool

abbrev not_suspended : PartnerStatus → Bool
not_suspended PartnerStatus.suspended = false
not_suspended _ = true

abbrev sheet_view : Partner → SheetView
sheet_view p = record {
  name = p.name;
  program_name = p.program_name;
  badge = badge p.status;
  email = dashed p.email;
  phone = dashed p.phone_e164;
  created_at = p.created_at;
  link_url = truthy p.link_url;
  referrals = p.referrals;
  clicks = p.clicks;
  commission_cents = p.commission_cents;
  can_suspend = not_suspended p.status;
}

-- The buttons of the sheet only say something.
unfoldable pub send_email : Partner → Options
send_email p =
    note "E-mail enviado" (String.◌++◌ "Notificação enviada para " (dashed p.email)) Variant.success

unfoldable pub suspend : Options
suspend = note "Em breve" "Suspensão de parceiro será implementada." Variant.warning

pub data Body : Type 0 where
  loading_text : Body
  error_box : Option String → Body
  table :
      (options : List (String × String))
      → (rows : List Row) → (empty_text : Option String) → (count : ℕ) → (noun : String)
      → (sheet : Option SheetView) → Body

abbrev empty_text : List Partner → List Partner → Option String
empty_text partners (r ∷ rs) = none
empty_text [] [] = some "Nenhum parceiro cadastrado ainda."
empty_text (r ∷ rs) [] = some "Nenhum parceiro encontrado com os filtros aplicados."

abbrev noun : ℕ → String
noun n = if n == 1 then "parceiro" else "parceiros"

abbrev shown_sheet : Option Partner → Option SheetView
shown_sheet none = none
shown_sheet (some p) = some (sheet_view p)

unfoldable pub view : Table → Body
unfolding select_options filtered
view s =
    if s.loading
    then Body.loading_text
    else if shows_error s.error
    then Body.error_box s.error
    else Body.table (select_options s.partners) (map row (filtered s))
        (empty_text s.partners (filtered s)) (length (filtered s)) (noun (length (filtered s)))
        (shown_sheet s.selected)
