-- ===== src/Structs/Json/Escapes.antt =====
-- A JSON reader gets the text back from its literal, whatever follows.
use openpak_client.Shared.{
  ◌∙◌, append_assoc, ◌%◌, ◌/◌, ℕ, zero, suc, ◌+◌, ◌-◌, ◌*◌, ◌<◌, ◌≡◌, refl, ◌&&◌, Option, none,
  some, [], ◌∷◌, ◌++◌, arith, ltb, leb, ◌==◌, if◌then◌else◌, Bytes, codes, nat_eq, text_eq,
}
use openpak_client.Structs.Json.{hex_digit, escape, escape_all, json_string}

-- The value of a hexadecimal digit, as JSON's grammar (RFC 8259) has it.
unhex : ℕ → Option ℕ
unhex c =
    if leb b'0' c && leb c b'9'
    then some (c - b'0')
    else if leb b'A' c && leb c b'F'
    then some (c - b'A' + 10)
    else if leb b'a' c && leb c b'f'
    then some (c - b'a' + 10)
    else none

-- The byte of a two-letter escape.
simple_escape : ℕ → Option ℕ
simple_escape c =
    if c == b'"'
    then some b'"'
    else if c == b'\\'
    then some b'\\'
    else if c == b'/'
    then some b'/'
    else if c == b'b'
    then some 8
    else if c == b'f'
    then some 12
    else if c == b'n'
    then some b'\n'
    else if c == b'r'
    then some b'\r'
    else if c == b't'
    then some b'\t'
    else none

push : ℕ → Option (Bytes × Bytes) → Option (Bytes × Bytes)
push c none = none
push c (some (v, rest)) = some (c ∷ v, rest)

-- Where the reader stands: in the text, behind a backslash, or among the digits of a `\u` escape,
-- with how many follow this one and what has been read of them.
data Mode : Type 0 where
  plain escaped : Mode
  unicode : ℕ → ℕ → Mode

-- The characters of a string literal up to its closing quote, and what follows it. A raw control
-- character is an error; of the `\u` escapes those below U+0080 are read.
read_chars : Mode → Bytes → Option (Bytes × Bytes)
read_chars m [] = none
read_chars plain (c ∷ s) =
    let escape = read_chars escaped s in
    let more = push c (read_chars plain s) in
    if c == b'"'
    then some ([], s)
    else if c == b'\\'
    then escape
    else if ltb c 0x20
    then none
    else more
read_chars escaped (c ∷ s) =
    let digits = read_chars (unicode 3 0) s in
    let more = read_chars plain s in
    if c == b'u' then digits else elim (simple_escape c) [ none ↦ none | some b ↦ push b more ]
read_chars (unicode zero v) (c ∷ s) =
    let more = read_chars plain s in
    elim (unhex c) [
      | none ↦ none
      | some d ↦ if ltb (v * 16 + d) 0x80 then push (v * 16 + d) more else none
    ]
read_chars (unicode (suc k) v) (c ∷ s) = elim (unhex c) [
  | none ↦ none
  | some d ↦ read_chars (unicode k (v * 16 + d)) s
]

-- A string literal, and what follows it.
pub read_string : Bytes → Option (Bytes × Bytes)
unfolding read_chars simple_escape unhex push
read_string [] = none
read_string (c ∷ s) = let chars = read_chars plain s in if c == b'"' then chars else none

unhex-hex_digit : (n : ℕ) → n < 16 → unhex (hex_digit n) ≡ some n
unfolding unhex
unhex-hex_digit n h = ground arith

read_control :
    (c : ℕ) (r : Bytes)
    → c < 0x20
    → read_chars plain (codes "\\u00" ++ (hex_digit (c / 16) ∷ hex_digit (c % 16) ∷ r))
      ≡ push c (read_chars plain r)
unfolding read_chars unhex
read_control c r h =
    rw (unhex-hex_digit (c / 16) (omega arith), read_chars)
      (rw (unhex-hex_digit (c % 16) (omega arith), read_chars) (ground arith))

read-escape : (c : ℕ) (r : Bytes) → read_chars plain (escape c ++ r) ≡ push c (read_chars plain r)
unfolding read_chars escape simple_escape
read-escape c r = ground (arith, read_control c r)

read-escape_all : (v r : Bytes) → read_chars plain (escape_all v ++ b'"' ∷ r) ≡ some (v, r)
unfolding escape_all read_chars push
read-escape_all [] r = refl
read-escape_all (c ∷ v) r =
    rw append_assoc (read-escape c (escape_all v ++ b'"' ∷ r) ∙ rw (read-escape_all v r))

-- Whatever the bytes, reading their literal byte by byte, by the rules of JSON for quotes and escapes, ends at
-- the quote that closes it and gives the bytes back. Whether the bytes are UTF-8 is not asked.
pub read_string-json_string : (v r : Bytes) → read_string (json_string v ++ r) ≡ some (v, r)
unfolding json_string read_string
read_string-json_string v r = rw append_assoc (read-escape_all v r)
