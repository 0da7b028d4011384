-- ===== src/Structs/Utf8.antt =====
-- UTF-8 as the builders read it: well-formed sequences, the lossy repair and the cut to a field.
-- A `string_view` from position `i` on is the rest of the list.
pub mod Repair
pub mod Scalars
pub mod Fields
use openpak_client.Shared.{
  is_nil, ℕ, zero, suc, ◌+◌, ◌-◌, ◌≡◌, refl, Bool, true, false, ◌&&◌, ◌||◌, Option, none, some, [],
  ◌∷◌, ◌++◌, ltb, leb, ◌==◌, if◌then◌else◌, length, get_elem?, take, drop, replicate, Bytes, nat_eq,
  text_eq, cut_at,
}

abbrev pub is_between : ℕ → ℕ → ℕ → Bool
is_between lo hi b = leb lo b && leb b hi

-- The loop over the trailing bytes: `none` if all fit, else how many bytes stood before the misfit.
-- Only the second byte has bounds of its own.
trail : ℕ → ℕ → ℕ → ℕ → Bytes → Option ℕ
trail zero k lo hi s = none
trail (suc rounds) k lo hi [] = some k
trail (suc rounds) k lo hi (b ∷ s) =
    let rest = trail rounds (k + 1) 0x80 0xBF s in if is_between lo hi b then rest else some k

-- The length of a sequence with its lead byte, and the bounds of its second byte.
lead_bounds : ℕ → Option (ℕ × ℕ × ℕ)
lead_bounds lead =
    if is_between 0xC2 0xDF lead
    then some (2, 0x80, 0xBF)
    else if is_between 0xE0 0xEF lead
    then some (3, (if lead == 0xE0 then 0xA0 else 0x80), (if lead == 0xED then 0x9F else 0xBF))
    else if is_between 0xF0 0xF4 lead
    then some (4, (if lead == 0xF0 then 0x90 else 0x80), (if lead == 0xF4 then 0x8F else 0xBF))
    else none

-- A well-formed sequence of some length, or an ill-formed part of some length.
pub data Sequence : Type 0 where
  good bad : ℕ → Sequence

sequence_tail : Option (ℕ × ℕ × ℕ) → Bytes → Sequence
unfolding trail
sequence_tail none s = bad 1
sequence_tail (some (n, lo, hi)) s = elim (trail (n - 1) 1 lo hi s) [
  | none ↦ good n
  | some k ↦ bad k
]

-- `Utf8Sequence` at a byte and what follows it.
unfoldable pub utf8_sequence : ℕ → Bytes → Sequence
unfolding sequence_tail lead_bounds
utf8_sequence lead s = if ltb lead 0x80 then good 1 else sequence_tail (lead_bounds lead) s

abbrev is_good : Sequence → Bool
is_good (good n) = true
is_good (bad n) = false

abbrev pub size_of : Sequence → ℕ
size_of (good n) = n
size_of (bad n) = n

-- The loop of `ValidUtf8`, one unit of fuel to a sequence.
unfoldable pub valid_from : ℕ → Bytes → Bool
valid_from zero s = is_nil s
valid_from (suc fuel) [] = true
valid_from (suc fuel) (b ∷ s) =
    let q = utf8_sequence b s in
    let rest = valid_from fuel (drop (size_of q) (b ∷ s)) in if is_good q then rest else false

unfoldable pub valid_utf8 : Bytes → Bool
unfolding valid_from utf8_sequence
valid_utf8 s = valid_from (length s) s

abbrev pub replacement : Bytes
replacement = 0xEF ∷ 0xBF ∷ 0xBD ∷ []

pub lossy_from : ℕ → Bytes → Bytes
lossy_from zero s = []
lossy_from (suc fuel) [] = []
lossy_from (suc fuel) (b ∷ s) =
    let q = utf8_sequence b s in
    let rest = lossy_from fuel (drop (size_of q) (b ∷ s)) in
    if is_good q then take (size_of q) (b ∷ s) ++ rest else replacement ++ rest

-- `Utf8Lossy`.
pub utf8_lossy : Bytes → Bytes
unfolding lossy_from utf8_sequence
utf8_lossy s = lossy_from (length s) s

-- The test `(byte & 0xC0) == 0x80`, by the byte's value.
abbrev pub is_continuation : ℕ → Bool
is_continuation b = is_between 0x80 0xBF b

abbrev continues_at : Bytes → ℕ → Bool
continues_at s n = elim (get_elem? s n) [ none ↦ false | some b ↦ is_continuation b ]

-- The loop of `Utf8Fits`: back to a byte that starts a sequence.
pub back_to_start : Bytes → ℕ → ℕ
back_to_start s zero = zero
back_to_start s (suc n) =
    let less = back_to_start s n in if continues_at s (suc n) then less else suc n

pub utf8_fits : Bytes → ℕ → ℕ
unfolding back_to_start
utf8_fits s limit = back_to_start s (if leb (length s) limit then length s else limit)

-- `FixedUtf8` into a field of so many bytes: the text, cut where a sequence starts, and zeros.
pub fixed_utf8 : ℕ → Bytes → Bytes
unfolding utf8_fits
fixed_utf8 size value =
    let n = utf8_fits value (size - 1) in
    if is_nil value || ltb size 2 then replicate size 0 else take n value ++ replicate (size - n) 0

-- `ToNickname`: 32 bytes of text in a zeroed field of 33.
pub to_nickname : Bytes → Bytes
unfolding utf8_fits
to_nickname name = let n = utf8_fits name 32 in take n name ++ replicate (33 - n) 0

-- `Text`: the field up to its first NUL, repaired.
pub text : Bytes → Bytes
unfolding utf8_lossy
text field = elim (cut_at 0 field) [ none ↦ utf8_lossy field | some (a, b) ↦ utf8_lossy a ]

lossy_runs :
    (utf8_lossy (0x41 ∷ 0xE2 ∷ 0x82 ∷ 0x42 ∷ []) ≡ 0x41 ∷ 0xEF ∷ 0xBF ∷ 0xBD ∷ 0x42 ∷ [])
    × (valid_utf8 (0xE2 ∷ 0x82 ∷ 0xAC ∷ []) ≡ true)
    × (valid_utf8 (0xED ∷ 0xA0 ∷ 0x80 ∷ []) ≡ false)
unfolding utf8_lossy valid_utf8
lossy_runs = (refl, refl, refl)
