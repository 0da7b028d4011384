-- ===== src/Crash/Texts/Numbers.antt =====
-- Numbers and C strings that fit their buffers.
use native.Mathlib.Nat.{div-div-eq-div-mul}
use openpak_client.Shared.{
  ℕ, zero, suc, ◌+◌, ◌-◌, ◌/◌, ◌%◌, ◌^◌, ◌≤◌, ◌<◌, ◌≡◌, ◌≢◌, refl, sym, ap, ◌∙◌, inl, inr, Bool,
  true, false, not, ◌||◌, [], ◌∷◌, ◌++◌, arith, append_assoc, append-nil, ltb, ◌==◌, Bool-cases,
  length, length-append, take_all, replicate, all_of, Bytes,
}
use openpak_client.Crash.Texts.{
  digit, append_hex, digits_of, format_number, append, c_string, copy_into,
}

-- The digits of a number at a width, the last one split off.
fixed : ℕ → ℕ → Bytes
fixed zero value = []
fixed (suc n) value = fixed n (value / 16) ++ digit (value % 16) ∷ []

pub append_hex-last :
    (value n : ℕ) → append_hex value (suc n) ≡ append_hex (value / 16) n ++ digit (value % 16) ∷ []
unfolding append_hex
append_hex-last value zero = ap (λ d. digit d ∷ []) (omega arith)
append_hex-last value (suc n) =
    let shifted : value / 16 ^ suc n ≡ value / 16 / 16 ^ n =
      sym (div-div-eq-div-mul value 16 (16 ^ n) ∙ ap (λ m. value / m) (omega arith)) in
    ap (λ d. digit (d % 16) ∷ append_hex value (suc n)) shifted
    ∙ ap (λ t. digit (value / 16 / 16 ^ n % 16) ∷ t) (append_hex-last value n)

append_hex-fixed : (n value : ℕ) → append_hex value n ≡ fixed n value
unfolding append_hex fixed
append_hex-fixed zero value = refl
append_hex-fixed (suc n) value =
    append_hex-last value n
    ∙ ap (λ t. t ++ digit (value % 16) ∷ []) (append_hex-fixed n (value / 16))

length-fixed : (n value : ℕ) → length (fixed n value) ≡ n
unfolding fixed
length-fixed zero value = refl
length-fixed (suc n) value = omega (
  arith,
  length-append (fixed n (value / 16)) (digit (value % 16) ∷ []),
  length-fixed n (value / 16),
)

-- A row of noughts.
noughts : ℕ → Bytes
noughts n = replicate n b'0'

fixed-zero : (n : ℕ) → fixed n 0 ≡ noughts n
unfolding fixed digit noughts
fixed-zero zero = refl
fixed-zero (suc n) = ap (λ t. t ++ digit 0 ∷ []) (fixed-zero n) ∙ turned n
  where
    turned : (n : ℕ) → noughts n ++ b'0' ∷ [] ≡ noughts (suc n)
    turned zero = refl
    turned (suc n) = ap (λ t. b'0' ∷ t) (turned n)

-- Filled up in front, the digits of a number below 16 ^ n are its digits at that width.
digits_of-fixed :
    (n room value : ℕ) (digits : Bytes)
    → value < 16 ^ n
    → n ≤ room
    → 1 ≤ n
    → let r = digits_of room value 16 digits in
      (length r ≤ n + length digits)
      × (replicate (n + length digits - length r) b'0' ++ r ≡ fixed n value ++ digits)
unfolding digits_of fixed noughts
digits_of-fixed zero room value digits h le p = absurd (omega arith)
digits_of-fixed (suc n) zero value digits h le p = absurd (omega arith)
digits_of-fixed (suc n) (suc room) value digits h le p = elim (Bool-cases (value / 16 == 0)) [
  | inl e ↦
      let none_left : value / 16 ≡ 0 = ground (arith, e) in
      let k : suc n + length digits - suc (length digits) ≡ n = omega arith in
      rw e (
        omega arith,
        rw k (
            ap (λ t. t ++ digit (value % 16) ∷ digits)
              (sym (fixed-zero n) ∙ ap (fixed n) (sym none_left))
            ∙ sym (append_assoc (fixed n (value / 16)) (digit (value % 16) ∷ []) digits)),
      )
  | inr e ↦
      let d = digit (value % 16) ∷ digits in
      let more : value / 16 ≢ 0 = λ z. absurd (ground (arith, e, z)) in
      let (short, same) =
        digits_of-fixed n room (value / 16) d (smaller n value h) (omega arith)
          (positive n value h more) in
      let k : suc n + length digits ≡ n + length d = omega arith in
      rw e (
        omega (arith, short),
        rw k (same ∙ sym (append_assoc (fixed n (value / 16)) (digit (value % 16) ∷ []) digits)),
      )
]
  where
    smaller : (n value : ℕ) → value < 16 ^ suc n → value / 16 < 16 ^ n
    smaller n value h = omega arith

    positive : (n value : ℕ) → value < 16 ^ suc n → value / 16 ≢ 0 → 1 ≤ n
    positive zero value h m = absurd (m (omega arith))
    positive (suc n) value h m = omega arith

-- A 64-bit number in the report that a signal writes reads as in one that is written from ordinary code.
pub format_number-append_hex :
    (value : ℕ) → value < 2 ^ 64 → format_number value 16 16 ≡ append_hex value 16
unfolding format_number
format_number-append_hex value h =
    let (short, same) = digits_of-fixed 16 32 value [] h (omega arith) (omega arith) in
    same ∙ (append-nil (fixed 16 value) ∙ sym (append_hex-fixed 16 value))

-- A text without NUL.
abbrev pub has_no_nul : Bytes → Bool
has_no_nul text = all_of (λ c. not (c == 0)) text

pub append-fits :
    (cap : ℕ) (text source : Bytes)
    → has_no_nul source ≡ true
    → length text + length source + 1 ≤ cap
    → append cap text source ≡ text ++ source
unfolding append
append-fits cap text [] h le = sym (append-nil text)
append-fits cap text (c ∷ cs) h le =
    let test : ((c == 0) || not (ltb (length text + 1) cap)) ≡ false = ground (arith, h, le) in
    rw test (
      append-fits cap (text ++ c ∷ []) cs (ground (arith, h))
        (omega (arith, length-append text (c ∷ [])))
      ∙ append_assoc text (c ∷ []) cs)

c_string-whole : (text : Bytes) → has_no_nul text ≡ true → c_string text ≡ text
c_string-whole [] h = refl
c_string-whole (c ∷ cs) h =
    let test : (c == 0) ≡ false = ground (arith, h) in
    rw test (ap (λ t. c ∷ t) (c_string-whole cs (ground (arith, h))))

pub copy_into-fits :
    (cap : ℕ) (text : Bytes)
    → has_no_nul text ≡ true
    → length text + 1 ≤ cap
    → copy_into cap text ≡ text
unfolding copy_into
copy_into-fits cap text h le = rw (take_all (cap - 1) text (omega arith)) (c_string-whole text h)

-- Nothing that is appended leaves the buffer.
pub append-bounded :
    (cap : ℕ) (text source : Bytes)
    → length text + 1 ≤ cap
    → length (append cap text source) + 1 ≤ cap
unfolding append
append-bounded cap text [] h = h
append-bounded cap text (c ∷ cs) h =
    elim (Bool-cases ((c == 0) || not (ltb (length text + 1) cap))) [
      | inl e ↦ rw e h
      | inr e ↦
          rw e (
            append-bounded cap (text ++ c ∷ []) cs (ground (arith, e, length-append text (c ∷ []))))
    ]
