-- ===== src/Partner/Pix.antt =====
-- The Pix key of web/apps/partner/app/(app)/parceiro/configuracoes/page.tsx: `validatePixKey`, the state
-- and `handleUpdatePixKey`, cut at its `await`; and the back end's `ValidatePixKey`.
pub mod Laws
use Prim.Native.String
use indica_ai.Prelude.{
  ℕ, Bool, true, false, ◌&&◌, ◌||◌, not, Option, none, some, List, [], ◌∷◌, String, Text, leb, ◌==◌,
  if◌then◌else◌, codes,
}
use indica_ai.Js.Strings.{is_digit, is_space, is_empty, trim}
use indica_ai.Js.Regex.{Regex, class, seq, plus, times, between, test}
use indica_ai.Http.{Call, Result, resolved, rejected, message_or}
use indica_ai.Partner.Api.{
  PixKeyType, cpf, cnpj, email, phone, random, UpdatePixKey, Message, update_pix_key,
}

abbrev pub is_hex : ℕ → Bool
is_hex c = leb b'0' c && leb c b'9' || leb b'a' c && leb c b'f' || leb b'A' c && leb c b'F'

-- `[^\s@]`.
abbrev pub is_part : ℕ → Bool
is_part c = not (is_space c) && not (c == b'@')

abbrev pub char : ℕ → Regex
char c = class (λ d. d == c)

unfoldable pub pix_key_regex : PixKeyType → Regex
unfolding is_space
pix_key_regex cpf = times 11 (class is_digit)
pix_key_regex cnpj = times 14 (class is_digit)
pix_key_regex email =
    seq (plus (class is_part))
      (seq (char b'@') (seq (plus (class is_part)) (seq (char b'.') (plus (class is_part)))))
pix_key_regex phone = seq (char b'+') (between 10 5 (class is_digit))
pix_key_regex random = times 32 (class is_hex)

abbrev hint : PixKeyType → String
hint cpf = "11 dígitos numéricos"
hint cnpj = "14 dígitos numéricos"
hint email = "exemplo@email.com"
hint phone = "formato E.164, ex: +5511999990001"
hint random = "32 caracteres hexadecimais"

unfoldable pub validate_pix_key : Text → PixKeyType → Option String
unfolding trim test pix_key_regex
validate_pix_key key kind =
    if is_empty (trim key)
    then some "Informe a chave Pix."
    else if not (test (pix_key_regex kind) (trim key))
    then some (String.◌++◌ "Chave inválida. Esperado: " (hint kind))
    else none

pub record State : Type 0 where
  pub pix_key_type : PixKeyType
  pub pix_key_value : Text
  pub pix_saving : Bool
  pub pix_error : Option String

unfoldable pub opened : State
opened = record { pix_key_type = cpf; pix_key_value = []; pix_saving = false; pix_error = none }

-- The select and the input clear the error.
unfoldable pub select_type : PixKeyType → State → State
select_type k s = record s { pix_key_type = k; pix_error = none }

unfoldable pub type_value : Text → State → State
type_value v s = record s { pix_key_value = v; pix_error = none }

-- `handleUpdatePixKey` up to its `await`, with the call that it makes.
unfoldable pub handle_update_pix_key : State → State × Option (Call UpdatePixKey Message)
unfolding validate_pix_key trim
handle_update_pix_key s = elim (validate_pix_key s.pix_key_value s.pix_key_type) [
  | some message ↦ (record s { pix_error = some message }, none)
  | none ↦ (
    record s { pix_error = none; pix_saving = true },
    some
        (update_pix_key (record { pix_key = trim s.pix_key_value; pix_key_type = s.pix_key_type })),
  )
]

-- The rest of it; a success is told by a toast.
unfoldable pub updated : Result Message → State → State
updated (resolved v) s = record s { pix_key_value = []; pix_saving = false }
updated (rejected e) s = record s {
  pix_error = some (message_or "Erro ao atualizar chave Pix." e);
  pix_saving = false;
}

-- Whether the button is disabled.
abbrev pub is_disabled : State → Bool
is_disabled s = s.pix_saving || is_empty (trim s.pix_key_value)

-- `ValidatePixKey` of internal/api/handlers/payouts/handler.go.
abbrev is_letter : ℕ → Bool
is_letter c = leb b'a' c && leb c b'z' || leb b'A' c && leb c b'Z'

-- `[a-zA-Z0-9.\-]` and `[a-zA-Z0-9._%+\-]`.
abbrev is_domain : ℕ → Bool
is_domain c = is_letter c || is_digit c || c == b'.' || c == b'-'

abbrev is_local : ℕ → Bool
is_local c = is_domain c || c == b'_' || c == b'%' || c == b'+'

unfoldable pub server_regex : PixKeyType → Regex
server_regex cpf = times 11 (class is_digit)
server_regex cnpj = times 14 (class is_digit)
server_regex email = seq (plus (class is_local)) (
    seq (char b'@') (
      seq (plus (class is_domain))
        (seq (char b'.') (seq (class is_letter) (plus (class is_letter))))))
server_regex phone = seq (char b'+') (between 10 5 (class is_digit))
server_regex random = times 32 (class is_hex)
