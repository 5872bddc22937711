-- ===== src/Dashboard/Parceiros/Convidar.antt =====
-- The sheet that makes a partner, web/apps/dashboard/app/(app)/parceiros/convidar-sheet.tsx, and the page
-- around it, page.tsx. `handleSubmit` is cut at its `await`.
pub mod Traces
use Prim.Native.String
use indica_ai.Prelude.{
  ℕ, suc, Bool, true, false, Option, none, some, List, [], ◌∷◌, String, str_eq, get_or,
  if◌then◌else◌, ◌==◌,
}
use indica_ai.Http.{Call, Result, resolved, rejected, message_or}
use indica_ai.Toast.{Options, Variant}
use indica_ai.Dashboard.Api.Types.{Program, CreatePartnerRequest, Partner}
use indica_ai.Dashboard.Api.Endpoints.{programs_list, partners_create}
use indica_ai.Dashboard.Parceiros.{Table, opened, loaded}

-- `J` is the type of a program's `rules` and `settings`.
pub record State (J : Type 0) : Type 0 where
  pub nome : String
  pub email : String
  pub telefone : String
  pub programs : List (Program J)
  pub program_id : String
  pub submitting : Bool

-- `v || undefined`.
abbrev or_absent : String → Option String
or_absent v = if str_eq v "" then none else some v

abbrev note : String → String → Variant → Options
note title description variant = record {
  title = some title;
  description = some description;
  variant = some variant;
  duration = none;
}

-- The inputs of the form; of the select only a program of the list can be picked.
pub data Input : Type 0 where
  nome email telefone program_id : String → Input

-- Where `handleSubmit` is at its `await`, or where it returned.
pub record Progress (J : Type 0) : Type 0 where
  pub state : State J
  pub shown : List Options
  pub call : Option (Call CreatePartnerRequest Partner)

module _ {J : Type 0} where
  unfoldable pub mounted : State J
  mounted = record {
    nome = "";
    email = "";
    telefone = "";
    programs = [];
    program_id = "";
    submitting = false;
  }

  unfoldable pub programs_call : Call (Unit {0}) (List (Program J))
  unfolding programs_list
  programs_call = programs_list

  -- `if (list.length > 0) setProgramId(list[0].id)`.
  abbrev pub first_id : List (Program J) → String → String
  first_id [] id = id
  first_id (p ∷ ps) id = p.id

  -- The answer of `programsApi.list()`.
  unfoldable pub listed : Result (List (Program J)) → State J → State J
  listed (resolved v) s = record s {
    programs = get_or v [];
    program_id = first_id (get_or v []) s.program_id;
  }
  listed (rejected e) s = record s { programs = [] }

  unfoldable pub change : Input → State J → State J
  change (Input.nome v) s = record s { nome = v }
  change (Input.email v) s = record s { email = v }
  change (Input.telefone v) s = record s { telefone = v }
  change (Input.program_id v) s = record s { program_id = v }

  unfoldable pub build_request : State J → CreatePartnerRequest
  build_request s = record {
    name = s.nome;
    email = or_absent s.email;
    phone_e164 = or_absent s.telefone;
    program_id = s.program_id;
  }

  unfoldable pub handle_submit : State J → Progress J
  unfolding build_request partners_create
  handle_submit s =
      if str_eq s.nome ""
      then record { state = s; shown = []; call = none }
      else if str_eq s.program_id ""
      then record {
        state = s;
        shown =
            note "Programa obrigatório" "Crie um programa antes de cadastrar parceiros."
              Variant.destructive
            ∷ [];
        call = none;
      }
      else record {
        state = record s { submitting = true };
        shown = [];
        call = some (partners_create (build_request s));
      }

  -- Whether the button is disabled.
  unfoldable pub is_disabled : State J → Bool
  is_disabled s = if s.submitting then true else elim s.programs [ [] ↦ true | p ∷ ps ↦ false ]

-- The page: the open sheet with the number of its mount, how many were mounted, the key of the table,
-- and the table that has it.
pub record Page (J : Type 0) : Type 0 where
  pub sheet : Option (ℕ × State J)
  pub mounts : ℕ
  pub reload_key : ℕ
  pub table : Table

module _ {J : Type 0} where
  unfoldable pub opened_page : Page J
  unfolding opened
  opened_page = record { sheet = none; mounts = 0; reload_key = 0; table = opened }

  unfoldable pub show_convidar : Page J → Page J
  unfolding mounted
  show_convidar p = record p { sheet = some (p.mounts, mounted); mounts = suc p.mounts }

  unfoldable pub close : Page J → Page J
  close p = record p { sheet = none }

  -- A new key mounts a new table.
  unfoldable pub on_created : Page J → Page J
  unfolding opened
  on_created p = record p { reload_key = suc p.reload_key; table = opened }

  -- An answer reaches the table that asked, while that is mounted.
  unfoldable pub table_answered : ℕ → Result (List Partner) → Page J → Page J
  unfolding loaded
  table_answered key r p = if key == p.reload_key then record p { table = loaded r p.table } else p

  -- `setSubmitting(false)` reaches the sheet that sent the request, while that is mounted.
  abbrev resumed : ℕ → Option (ℕ × State J) → Option (ℕ × State J)
  resumed n none = none
  resumed n (some (m, s)) =
      if n == m then some (m, record s { submitting = false }) else some (m, s)

  -- The rest of `handleSubmit`, with the sheet that sent it and the name that it closed over: the page, and the toast.
  unfoldable pub created : (number : ℕ) (name : String) → Result Partner → Page J → Page J × Options
  unfolding on_created close
  created number name (resolved v) p = (
    close (on_created p),
    note "Parceiro cadastrado!" (String.◌++◌ name " foi adicionado ao programa.") Variant.success,
  )
  created number name (rejected e) p = (
    record p { sheet = resumed number p.sheet },
    note "Falha ao cadastrar" (message_or "Erro inesperado" e) Variant.destructive,
  )
