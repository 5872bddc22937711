-- ===== src/Dashboard/SignIn.antt =====
-- The pages of web/apps/dashboard/app/(auth): login, register and forgot-password. `fetch` and the e-mail
-- test of zod are arguments. A page goes to its `target` 600 ms later.
pub mod Laws
use Prim.Native.String
use indica_ai.Prelude.{
  ℕ, Bool, true, false, not, ◌&&◌, Option, none, some, List, [], ◌∷◌, ◌++◌, String, Text, codes,
  str_eq, ltb, if◌then◌else◌, length,
}
use indica_ai.Http.{
  Method, Request, Json, unreadable, parsed, Response, Outcome, unreachable, responded, is_ok,
  or_else,
}
use indica_ai.Toast.{Options, Variant}

abbrev note : String → String → Variant → Options
note title description variant = record {
  title = some title;
  description = some description;
  variant = some variant;
  duration = none;
}

-- A form's texts; the login has no name.
pub record Login : Type 0 where
  pub email : Text
  pub senha : Text

pub record Register : Type 0 where
  pub nome : Text
  pub email : Text
  pub senha : Text

-- `errors` of the form, by field.
pub record Errors : Type 0 where
  pub nome : Option String
  pub email : Option String
  pub senha : Option String

abbrev pub no_errors : Errors
no_errors = record { nome = none; email = none; senha = none }

abbrev unless : Bool → String → Option String
unless b message = if b then none else some message

abbrev at_least : ℕ → Text → Bool
at_least n t = not (ltb (length t) n)

-- `router.push("/dashboard")` and `router.push("/login")`.
pub data Target : Type 0 where
  dashboard_page login_page : Target

pub record State : Type 0 where
  pub errors : Errors
  pub is_loading : Bool
  pub toasts : List Options
  pub target : Option Target

unfoldable pub opened : State
opened = record { errors = no_errors; is_loading = false; toasts = []; target = none }

abbrev pub is_none {ℓ} : {A : Type ℓ} → Option A → Bool
is_none none = true
is_none (some a) = false

abbrev pub is_clean : Errors → Bool
is_clean e = is_none e.nome && (is_none e.email && is_none e.senha)

abbrev say : Options → State → State
say o s = record s { toasts = s.toasts ++ o ∷ [] }

-- The body of a request.
pub record Body : Type 0 where
  pub email : Text
  pub password : Text
  pub name : Option Text

abbrev post : Text → Text → Body → Request Body
post api_url path body = record {
  url = api_url ++ path;
  method = Method.post;
  credentials = "include";
  headers = ("Content-Type", "application/json") ∷ [];
  body = some body;
}

abbrev post_login : Text → Text → Text → Request Body
post_login api_url email senha =
    post api_url (codes "/api/auth/login") (record { email = email; password = senha; name = none })

unfoldable pub login_request : Text → Login → Request Body
login_request api_url f = post_login api_url f.email f.senha

unfoldable pub register_request : Text → Register → Request Body
register_request api_url f =
    post api_url (codes "/api/auth/register")
      (record { email = f.email; password = f.senha; name = some f.nome })

-- The login behind a registration.
unfoldable pub first_login_request : Text → Register → Request Body
first_login_request api_url f = post_login api_url f.email f.senha

module _ (is_email : Text → Bool) where
  unfoldable pub login_errors : Login → Errors
  login_errors f = record {
    nome = none;
    email = unless (is_email f.email) "Informe um e-mail válido";
    senha = unless (at_least 8 f.senha) "A senha deve ter pelo menos 8 caracteres";
  }

  unfoldable pub register_errors : Register → Errors
  register_errors f = record {
    nome = unless (at_least 2 f.nome) "Informe seu nome completo";
    email = unless (is_email f.email) "Informe um e-mail válido";
    senha = unless (at_least 8 f.senha) "A senha deve ter pelo menos 8 caracteres";
  }

-- `handleSubmit` with the resolver, then `setIsLoading(true)`; `none` where the form has errors.
unfoldable pub submit : {B : Type 0} → Errors → B → State → State × Option B
submit e request s =
    if is_clean e
    then (record s { errors = no_errors; is_loading = true }, some request)
    else (record s { errors = e }, none)

abbrev stay : State → State
stay s = record s { is_loading = false }

abbrev go : Target → State → State
go t s = record s { target = some t }

unfoldable pub network_error : State → State
network_error s =
    stay (say (note "Erro de rede" "Não foi possível conectar ao servidor" Variant.destructive) s)

-- `err.error || fallback` of a refused answer; a body that is no JSON counts as `{ error: "Erro" }`,
-- and a null one throws into the outer catch.
unfoldable pub refused : String → String → Json (Option String) → State → State
unfolding network_error
refused title fallback (unreadable m) s = stay (say (note title "Erro" Variant.destructive) s)
refused title fallback (parsed none) s = network_error s
refused title fallback (parsed (some none)) s =
    stay (say (note title fallback Variant.destructive) s)
refused title fallback (parsed (some (some e))) s =
    stay (say (note title (or_else e fallback) Variant.destructive) s)

-- The rest of the login's `onSubmit`.
unfoldable pub logged_in : Outcome (Unit {0}) → State → State
unfolding network_error refused
logged_in (unreachable m) s = network_error s
logged_in (responded r) s =
    if is_ok r
    then go dashboard_page (say (note "Bem-vindo de volta!" "Redirecionando..." Variant.success) s)
    else refused "Erro ao entrar" "Credenciais inválidas" r.failure s

-- The rest of the registration's `onSubmit`: once the account is made, the answer to the login.
unfoldable pub first_login : Outcome (Unit {0}) → State → State
unfolding network_error
first_login (unreachable m) s = network_error s
first_login (responded r) s =
    if is_ok r
    then go dashboard_page
        (say (note "Conta criada!" "Bem-vindo ao Indica AÍ! Redirecionando..." Variant.success) s)
    else go login_page (say (note "Conta criada!" "Faça login pra entrar" Variant.success) s)

unfoldable pub registered : Outcome (Unit {0}) → Outcome (Unit {0}) → State → State
unfolding network_error refused first_login
registered (unreachable m) login s = network_error s
registered (responded r) login s =
    if is_ok r
    then first_login login s
    else refused "Erro ao criar conta" "Tente novamente" r.failure s

-- The forgotten password: nothing is sent.
pub record Forgot : Type 0 where
  pub email : String
  pub sent : Bool

unfoldable pub opened_forgot : Forgot
opened_forgot = record { email = ""; sent = false }

unfoldable pub set_email : String → Forgot → Forgot
set_email v s = record s { email = v }

unfoldable pub handle_forgot : Forgot → Forgot × List Options
handle_forgot s = if str_eq s.email "" then (s, []) else (
  record s { sent = true },
  note "E-mail enviado" (String.◌++◌ "Instruções de recuperação foram enviadas para " s.email)
        Variant.success
      ∷ [],
)

unfoldable pub back : Forgot → Forgot
back s = record { email = ""; sent = false }
