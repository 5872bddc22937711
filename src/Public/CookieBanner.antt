-- ===== src/Public/CookieBanner.antt =====
-- `CookieBanner` of web/apps/public/app/components/cookie-banner.tsx: its state, and what it reads and writes under
-- its key of `localStorage`.
use indica_ai.Prelude.{Bool, true, false, Option, none, some, String, str_eq, if◌then◌else◌}

-- The object that is stored; the clock is an argument.
pub record Consent : Type 0 where
  pub essential : Bool
  pub analytics : Bool
  pub timestamp : String

-- What the key holds: the text of a consent, or a text of another origin.
pub data Stored : Type 0 where
  consent : Consent → Stored
  other : String → Stored

pub record State : Type 0 where
  pub visible : Bool
  pub analytics : Bool

unfoldable pub opened : State
opened = record { visible = false; analytics = false }

-- `!stored`; the text of an object is not empty.
abbrev is_missing : Option Stored → Bool
is_missing none = true
is_missing (some (consent c)) = false
is_missing (some (other v)) = if str_eq v "" then true else false

-- The effect.
unfoldable pub mounted : Option Stored → State → State
mounted stored s = if is_missing stored then record s { visible = true } else s

unfoldable pub set_analytics : Bool → State → State
set_analytics b s = record s { analytics = b }

pub data Choice : Type 0 where
  essential all_cookies : Choice

abbrev analytics_of : Choice → Bool → Bool
analytics_of all_cookies ticked = true
analytics_of essential ticked = ticked

-- `handleAccept`: what is stored, and the state.
unfoldable pub handle_accept : (now : String) → Choice → State → Option Stored × State
handle_accept now c s = (
  some (
      consent
        (record { essential = true; analytics = analytics_of c s.analytics; timestamp = now })),
  record s { visible = false },
)
