-- ===== src/Js.antt =====
-- What the sources use of the JavaScript and URL standards, over code units.
pub mod Strings
pub mod Decimal
pub mod Regex
pub mod Params
pub mod Uri
pub mod Json
pub mod Promises
