-- ===== src/Network/Base64.antt =====
-- Base64 text: `Base64` of session.cpp, and the strict `DecodeBase64` of network_ceiling.cpp. Bits that
-- are shifted together do not overlap, so the sums below are the source's `|`.
pub mod RoundTrip
use openpak_client.Shared.{
  ℕ, ◌+◌, ◌-◌, ◌*◌, ◌/◌, ◌%◌, Bool, not, ◌&&◌, ◌||◌, Option, none, some, [], ◌∷◌, ◌++◌, ltb, leb,
  ◌==◌, if◌then◌else◌, value_or, ◌>>=◌, length, get_elem?, is_nil, Bytes, codes,
}

abbrev pub alphabet : Bytes
alphabet = codes "ABCDEFGHIJKLMNOPQRSTUVWXYZabcdefghijklmnopqrstuvwxyz0123456789+/"

-- `table[n & 63]`.
pub letter : ℕ → ℕ
letter n = value_or (get_elem? alphabet (n % 64)) 0

-- `Base64`: three bytes at a time, and one or two at the end.
pub base64 : Bytes → Bytes
unfolding letter
base64 [] = []
base64 (a ∷ []) =
    let n = a * 0x10000 in letter (n / 0x40000) ∷ letter (n / 0x1000) ∷ b'=' ∷ b'=' ∷ []
base64 (a ∷ b ∷ []) =
    let n = a * 0x10000 + b * 0x100 in
    letter (n / 0x40000) ∷ letter (n / 0x1000) ∷ letter (n / 0x40) ∷ b'=' ∷ []
base64 (a ∷ b ∷ c ∷ s) =
    let n = a * 0x10000 + b * 0x100 + c in
    letter (n / 0x40000) ∷ letter (n / 0x1000) ∷ letter (n / 0x40) ∷ letter n ∷ base64 s

-- The lambda `value`; `none` is its -1.
pub value : ℕ → Option ℕ
value c =
    if leb b'A' c && leb c b'Z'
    then some (c - b'A')
    else if leb b'a' c && leb c b'z'
    then some (c - b'a' + 26)
    else if leb b'0' c && leb c b'9'
    then some (c - b'0' + 52)
    else if c == b'+'
    then some 62
    else if c == b'/'
    then some 63
    else none

-- One letter of a group of four, with the padding seen so far; `j` is its place.
place : Bool → ℕ → ℕ → ℕ → Option (ℕ × ℕ)
unfolding value
place last j pad c =
    if c == b'='
    then (if not last || ltb j 2 then none else some (0, pad + 1))
    else if not (pad == 0)
    then none
    else (do v ← value c; some (v, pad))

-- The bytes of one group.
group : Bool → ℕ → ℕ → ℕ → ℕ → Option Bytes
unfolding place
group last a b c d = do
  (v0, p0) ← place last 0 0 a
  (v1, p1) ← place last 1 p0 b
  (v2, p2) ← place last 2 p1 c
  (v3, pad) ← place last 3 p2 d
  let triple = v0 * 0x40000 + v1 * 0x1000 + v2 * 0x40 + v3
  let second : Bytes = if ltb pad 2 then triple / 0x100 % 0x100 ∷ [] else []
  let third : Bytes = if ltb pad 1 then triple % 0x100 ∷ [] else []
  some (triple / 0x10000 % 0x100 ∷ (second ++ third))

-- The loop; the text's length is a multiple of four.
decode_groups : Bytes → Option Bytes
unfolding group
decode_groups [] = some []
decode_groups (a ∷ b ∷ c ∷ d ∷ s) = do
  bytes ← group (is_nil s) a b c d
  rest ← decode_groups s
  some (bytes ++ rest)
decode_groups _ = none

-- `DecodeBase64`.
unfoldable pub decode_base64 : Bytes → Option Bytes
unfolding decode_groups
decode_base64 s = if is_nil s || not (length s % 4 == 0) then none else decode_groups s
