-- ===== src/Structs/Json.antt =====
-- `JsonString` (`AppendJsonString`): a text as a JSON string literal, in the module's escapes.
pub mod Escapes
pub mod Encoding
use openpak_client.Shared.{
  ℕ, ◌+◌, ◌-◌, ◌/◌, ◌%◌, [], ◌∷◌, ◌++◌, ltb, ◌==◌, if◌then◌else◌, Bytes, codes, nat_eq, text_eq,
}

-- `kHex`.
abbrev pub hex_digit : ℕ → ℕ
hex_digit n = if ltb n 10 then b'0' + n else b'A' + (n - 10)

-- What the loop appends for one byte.
pub escape : ℕ → Bytes
escape c =
    if c == b'"'
    then codes "\\\""
    else if c == b'\\'
    then codes "\\\\"
    else if c == 8
    then codes "\\b"
    else if c == 12
    then codes "\\f"
    else if c == b'\n'
    then codes "\\n"
    else if c == b'\r'
    then codes "\\r"
    else if c == b'\t'
    then codes "\\t"
    else if ltb c 0x20
    then codes "\\u00" ++ (hex_digit (c / 16) ∷ hex_digit (c % 16) ∷ [])
    else c ∷ []

escape_all : Bytes → Bytes
escape_all [] = []
escape_all (c ∷ s) = escape c ++ escape_all s

pub json_string : Bytes → Bytes
unfolding escape_all
json_string v = b'"' ∷ (escape_all v ++ b'"' ∷ [])
