-- ===== src/Network/Base64/RoundTrip.antt =====
-- What is encoded is decoded, byte for byte.
use openpak_client.Shared.{
  ℕ, zero, suc, ◌+◌, ◌*◌, ◌/◌, ◌%◌, ◌<◌, ◌≡◌, refl, ◌≢◌, Bool, true, false, not, ◌&&◌,
  if◌then◌else◌, Bool-cases, ==_iff, inl, inr, Option, none, some, [], ◌∷◌, arith, ◌==◌, value_or,
  length, is_nil, All, Bytes,
}
use openpak_client.Network.Base64.{
  letter, base64, value, place, group, decode_groups, decode_base64,
}

abbrev pub IsByte : ℕ → Type 0
IsByte c = c < 256

holds_upto : (ℕ → Bool) → ℕ → Bool
holds_upto test zero = true
holds_upto test (suc m) = let rest = holds_upto test m in if test m then rest else false

holds_upto-at : (test : ℕ → Bool) (m c : ℕ) → c < m → holds_upto test m ≡ true → test c ≡ true
unfolding holds_upto
holds_upto-at test (suc m) c lt every = elim (Bool-cases (c == m)) [
  | inl last ↦
      let same : c ≡ m = omega (arith, (==_iff c m).0 last) in rw same (ground (arith, every))
  | inr below ↦ holds_upto-at test m c (ground arith) (ground arith)
]
holds_upto-at test zero c lt every = absurd (omega arith)

-- Each letter stands for its number, and is no padding.
letter_table :
    holds_upto (λ x. (value_or (value (letter x)) 64 == x) && not (letter x == b'=')) 64 ≡ true
unfolding holds_upto letter value
letter_table = refl

value-some : (o : Option ℕ) (x : ℕ) → x < 64 → (value_or o 64 == x) ≡ true → o ≡ some x
value-some none x lt h = absurd (ground arith)
value-some (some y) x lt h = ground arith

letter_facts : (x : ℕ) → x < 64 → (value (letter x) ≡ some x) × ((letter x == b'=') ≡ false)
letter_facts x lt =
    let h =
      holds_upto-at (λ x. (value_or (value (letter x)) 64 == x) && not (letter x == b'=')) 64 x lt
        letter_table in
    (value-some (value (letter x)) x lt (ground arith), ground arith)

letter_mod : (n : ℕ) → letter n ≡ letter (n % 64)
unfolding letter
letter_mod n = let e : n % 64 % 64 ≡ n % 64 = omega arith in rw e

place-letter : (last : Bool) (j n : ℕ) → place last j 0 (letter n) ≡ some (n % 64, 0)
unfolding place
place-letter last j n =
    let (v, e) = letter_facts (n % 64) (omega arith) in rw (letter_mod n) (rw (e, v))

group-three :
    (last : Bool) (a b c : ℕ)
    → IsByte a
    → IsByte b
    → IsByte c
    → let n = a * 0x10000 + b * 0x100 + c in
      group last (letter (n / 0x40000)) (letter (n / 0x1000)) (letter (n / 0x40)) (letter n)
      ≡ some (a ∷ b ∷ c ∷ [])
unfolding group
group-three last a b c ha hb hc =
    let n = a * 0x10000 + b * 0x100 + c in
    rw (place-letter last 0 (n / 0x40000)) (
      rw (place-letter last 1 (n / 0x1000))
        (rw (place-letter last 2 (n / 0x40)) (rw (place-letter last 3 n) (ground arith))))

group-two :
    (a b : ℕ)
    → IsByte a
    → IsByte b
    → let n = a * 0x10000 + b * 0x100 in
      group true (letter (n / 0x40000)) (letter (n / 0x1000)) (letter (n / 0x40)) b'='
      ≡ some (a ∷ b ∷ [])
unfolding group
group-two a b ha hb =
    let n = a * 0x10000 + b * 0x100 in
    rw (place-letter true 0 (n / 0x40000))
      (rw (place-letter true 1 (n / 0x1000)) (rw (place-letter true 2 (n / 0x40)) (ground arith)))

group-one :
    (a : ℕ)
    → IsByte a
    → let n = a * 0x10000 in
      group true (letter (n / 0x40000)) (letter (n / 0x1000)) b'=' b'=' ≡ some (a ∷ [])
unfolding group
group-one a ha =
    let n = a * 0x10000 in
    rw (place-letter true 0 (n / 0x40000)) (rw (place-letter true 1 (n / 0x1000)) (ground arith))

decode_groups-base64 : (s : Bytes) → All IsByte s → decode_groups (base64 s) ≡ some s
unfolding decode_groups base64
decode_groups-base64 [] h = refl
decode_groups-base64 (a ∷ []) h = rw (group-one a h.0) refl
decode_groups-base64 (a ∷ b ∷ []) h = rw (group-two a b h.0 h.1.0) refl
decode_groups-base64 (a ∷ b ∷ c ∷ s) h =
    rw (group-three (is_nil (base64 s)) a b c h.0 h.1.0 h.1.1.0)
      (rw (decode_groups-base64 s h.1.1.1) refl)

length-base64 : (s : Bytes) → length (base64 s) % 4 ≡ 0
unfolding base64
length-base64 [] = refl
length-base64 (a ∷ []) = omega arith
length-base64 (a ∷ b ∷ []) = omega arith
length-base64 (a ∷ b ∷ c ∷ s) = omega (arith, length-base64 s)

base64-ne-nil : (s : Bytes) → s ≢ [] → is_nil (base64 s) ≡ false
unfolding base64
base64-ne-nil [] h = absurd (h refl)
base64-ne-nil (a ∷ []) h = refl
base64-ne-nil (a ∷ b ∷ []) h = refl
base64-ne-nil (a ∷ b ∷ c ∷ s) h = refl

-- Whatever bytes are encoded, at least one of them, the strict decoder takes the text and gives the
-- bytes back.
pub decode_base64-base64 : (s : Bytes) → All IsByte s → s ≢ [] → decode_base64 (base64 s) ≡ some s
unfolding decode_base64
decode_base64-base64 s h ne =
    rw (base64-ne-nil s ne) (rw (length-base64 s) (decode_groups-base64 s h))
