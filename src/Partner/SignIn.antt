-- ===== src/Partner/SignIn.antt =====
-- The login page of the partners, web/apps/partner/app/(auth)/login/page.tsx, which asks for a magic link. Its
-- handlers are cut at each `await`.
pub mod Traces
use Prim.Native.String
use indica_ai.Prelude.{
  Bool, true, false, Option, none, some, List, [], ◌∷◌, ◌++◌, String, str_eq, if◌then◌else◌,
}
use indica_ai.Http.{Call, Thrown, Result, resolved, rejected, message_or}
use indica_ai.Toast.{Options, Variant}
use indica_ai.Partner.Api.{Message, AccessToken, Field, request_magic_link, verify_magic_link}

-- `went` once `router.push("/parceiro")` was called.
pub record State : Type 0 where
  pub email : String
  pub sent : Bool
  pub is_loading : Bool
  pub dev_token : Option String
  pub went : Bool

unfoldable pub opened : State
opened = record { email = ""; sent = false; is_loading = false; dev_token = none; went = false }

-- A request in flight, with the address or the token that its handler closed over.
pub data Task : Type 0 where
  ask : (email : String) → Task
  confirm : (token : String) → Task

pub record World : Type 0 where
  pub page : State
  pub pending : List Task
  pub toasts : List Options

unfoldable pub mounted : World
unfolding opened
mounted = record { page = opened; pending = []; toasts = [] }

-- The call of each task.
pub data Sent : Type 0 where
  asks : Call Field Message → Sent
  confirms : Call Field AccessToken → Sent

unfoldable pub call_of : Task → Sent
unfolding request_magic_link verify_magic_link
call_of (ask email) = asks (request_magic_link email)
call_of (confirm token) = confirms (verify_magic_link token)

abbrev begin : Task → World → World
begin t w = record w { page = record (w.page) { is_loading = true }; pending = w.pending ++ t ∷ [] }

unfoldable pub handle_submit : World → World
handle_submit w = if str_eq w.page.email "" then w else begin (ask w.page.email) w

unfoldable pub handle_dev_confirm : World → World
handle_dev_confirm w = elim w.page.dev_token [
  | none ↦ w
  | some t ↦ if str_eq t "" then w else begin (confirm t) w
]

abbrev note : String → String → Variant → Options
note title description variant = record {
  title = some title;
  description = some description;
  variant = some variant;
  duration = none;
}

abbrev say : Options → World → World
say o w = record w { toasts = w.toasts ++ o ∷ [] }

abbrev stay : World → World
stay w = record w { page = record (w.page) { is_loading = false } }

abbrev mark_sent : Option String → World → World
mark_sent token w = record w { page = record (w.page) { sent = true; dev_token = token } }

abbrev told : String → World → World
told email w =
    say
      (note "Link enviado!" (String.◌++◌ "Enviamos um link de acesso para " email) Variant.success)
      w

-- A token that is empty counts as none, and leaves the one that was there.
abbrev with_token : String → Option String → World → World
with_token email none w = told email (mark_sent w.page.dev_token w)
with_token email (some t) w =
    if str_eq t "" then told email (mark_sent w.page.dev_token w) else mark_sent (some t) w

abbrev failed_to : String → Thrown → World → World
failed_to title e w = say (note title (message_or "Erro de rede" e) Variant.error) w

-- The rest of `handleSubmit`; to read `dev_token` of null throws, behind `setSent(true)`.
unfoldable pub asked : (null_message email : String) → Result Message → World → World
asked null_message email (resolved none) w = stay (
    failed_to "Falha ao solicitar" (Thrown.other_error null_message) (mark_sent w.page.dev_token w))
asked null_message email (resolved (some m)) w = stay (with_token email m.dev_token w)
asked null_message email (rejected e) w = stay (failed_to "Falha ao solicitar" e w)

-- The rest of `handleDevConfirm`.
unfoldable pub confirmed : Result AccessToken → World → World
confirmed (resolved v) w = record w { page = record (w.page) { went = true } }
confirmed (rejected e) w = stay (failed_to "Falha ao confirmar" e w)

unfoldable pub back : World → World
back w = record w { page = record (w.page) { sent = false; dev_token = none } }

unfoldable pub type_email : String → World → World
type_email v w = record w { page = record (w.page) { email = v } }
