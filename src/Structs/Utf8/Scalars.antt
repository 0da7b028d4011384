-- ===== src/Structs/Utf8/Scalars.antt =====
-- What the lossy repair of the struct builders gives is UTF-8 by the table of the Unicode standard.
use openpak_client.Shared.{
  ℕ, zero, suc, ◌+◌, ◌-◌, ◌*◌, ◌≤◌, ◌<◌, ◌≡◌, ◌≢◌, refl, sym, ap, ◌⊎◌, inl, inr, Option, none, some,
  List, [], ◌∷◌, ◌++◌, arith, ltb, Bool-cases, length, length-append, take, drop,
  take-append_length, drop-append_length, All, Bytes, nat_eq, text_eq,
}
use openpak_client.Structs.Utf8.{
  trail, lead_bounds, good, bad, sequence_tail, utf8_sequence, replacement, lossy_from, utf8_lossy,
}
use openpak_client.Structs.Utf8.Repair.{Sequence-cases}

-- A trailing byte.
abbrev pub IsTrail : ℕ → Type 0
IsTrail b = (0x80 ≤ b) × (b < 0xC0)

-- The encoding of one scalar value in the least number of bytes: the bits of the bytes give a number that
-- needs that many, is no surrogate and is at most 0x10FFFF.
abbrev pub IsScalar : Bytes → Type 0
IsScalar [] = 1 ≤ 0
IsScalar (a ∷ []) = a < 0x80
IsScalar (a ∷ (b ∷ [])) =
    (0xC0 ≤ a) × (a < 0xE0) × IsTrail b × (0x80 ≤ 64 * (a - 0xC0) + (b - 0x80))
IsScalar (a ∷ (b ∷ (c ∷ []))) =
    let value = 4096 * (a - 0xE0) + 64 * (b - 0x80) + (c - 0x80) in
    (0xE0 ≤ a)
    × (a < 0xF0)
    × IsTrail b
    × IsTrail c
    × (0x800 ≤ value)
    × ((value < 0xD800) ⊎ (0xE000 ≤ value))
IsScalar (a ∷ (b ∷ (c ∷ (d ∷ [])))) =
    let value = 262144 * (a - 0xF0) + 4096 * (b - 0x80) + 64 * (c - 0x80) + (d - 0x80) in
    (0xF0 ≤ a)
    × (a < 0xF8)
    × IsTrail b
    × IsTrail c
    × IsTrail d
    × (0x10000 ≤ value)
    × (value ≤ 0x10FFFF)
IsScalar (a ∷ (b ∷ (c ∷ (d ∷ (e ∷ s))))) = 1 ≤ 0

abbrev pub text_of : List Bytes → Bytes
text_of [] = []
text_of (c ∷ cs) = c ++ text_of cs

-- The bounds that a lead byte has.
IsLead : ℕ → Option (ℕ × ℕ × ℕ) → Type 0
IsLead a none = Unit
IsLead a (some (n, lo, hi)) =
    ((n ≡ 2) × (0xC2 ≤ a) × (a < 0xE0) × (lo ≡ 0x80) × (hi ≡ 0xBF))
    ⊎ (((n ≡ 3)
          × (0xE0 ≤ a)
          × (a < 0xF0)
          × (0x80 ≤ lo)
          × (hi ≤ 0xBF)
          × ((a ≢ 0xE0) ⊎ (0xA0 ≤ lo))
          × ((a ≢ 0xED) ⊎ (hi ≤ 0x9F)))
        ⊎ ((n ≡ 4)
            × (0xF0 ≤ a)
            × (a ≤ 0xF4)
            × (0x80 ≤ lo)
            × (hi ≤ 0xBF)
            × ((a ≢ 0xF0) ⊎ (0x90 ≤ lo))
            × ((a ≢ 0xF4) ⊎ (hi ≤ 0x8F))))

lead_bounds-IsLead : (a : ℕ) (o : Option (ℕ × ℕ × ℕ)) → lead_bounds a ≡ o → IsLead a o
unfolding lead_bounds IsLead
lead_bounds-IsLead a none h = tt
lead_bounds-IsLead a (some (n, lo, hi)) h = ground arith

-- Trailing bytes in their bounds.
trail-two :
    (lo hi : ℕ) (s : Bytes)
    → trail 1 1 lo hi s ≡ none
    → (b : ℕ) × (r : Bytes) × (s ≡ b ∷ r) × (lo ≤ b) × (b ≤ hi)
unfolding trail
trail-two lo hi [] h = cc
trail-two lo hi (b ∷ r) h = (b, r, refl, ground arith, ground arith)

trail-three :
    (lo hi : ℕ) (s : Bytes)
    → trail 2 1 lo hi s ≡ none
    → (b c : ℕ) × (r : Bytes) × (s ≡ b ∷ c ∷ r) × (lo ≤ b) × (b ≤ hi) × IsTrail c
unfolding trail
trail-three lo hi [] h = cc
trail-three lo hi (b ∷ []) h = ground arith
trail-three lo hi (b ∷ c ∷ r) h = (b, c, r, refl, ground arith, ground arith, ground arith)

trail-four :
    (lo hi : ℕ) (s : Bytes)
    → trail 3 1 lo hi s ≡ none
    → (b c d : ℕ) × (r : Bytes) × (s ≡ b ∷ c ∷ d ∷ r) × (lo ≤ b) × (b ≤ hi) × IsTrail c × IsTrail d
unfolding trail
trail-four lo hi [] h = cc
trail-four lo hi (b ∷ []) h = ground arith
trail-four lo hi (b ∷ c ∷ []) h = ground arith
trail-four lo hi (b ∷ c ∷ d ∷ r) h =
    (b, c, d, r, refl, ground arith, ground arith, ground arith, ground arith)

tail-IsScalar :
    (a n : ℕ) (s : Bytes) (o : Option (ℕ × ℕ × ℕ))
    → IsLead a o
    → sequence_tail o s ≡ good n
    → IsScalar (take n (a ∷ s))
unfolding sequence_tail IsLead
tail-IsScalar a n s none l h = cc
tail-IsScalar a n s (some (k, lo, hi)) l h = go (trail (k - 1) 1 lo hi s) refl h
  where
    go :
        (t : Option ℕ)
        → trail (k - 1) 1 lo hi s ≡ t
        → elim t [ none ↦ good k | some j ↦ bad j ] ≡ good n
        → IsScalar (take n (a ∷ s))
    go (some j) e f = ground arith
    go none e f =
        let same : k ≡ n = ground arith in
        rw (sym same) (elim l [
          | inl (two, low, high, el, eh) ↦
              let (b, r, es, lb, bh) = trail-two lo hi s (rw two at e) in
              rw (two, es) (omega arith, omega arith, (omega arith, omega arith), omega arith)
          | inr (inl (three, low, high, al, ah, l1, l2)) ↦
              let (b, c, r, es, lb, bh, tc) = trail-three lo hi s (rw three at e) in
              rw (three, es)
                (omega arith, omega arith, (omega arith, omega arith), tc, omega arith, omega arith)
          | inr (inr (four, low, high, al, ah, l1, l2)) ↦
              let (b, c, d, r, es, lb, bh, tc, td) = trail-four lo hi s (rw four at e) in
              rw (four, es)
                (
                  omega arith,
                  omega arith,
                  (omega arith, omega arith),
                  tc,
                  td,
                  omega arith,
                  omega arith,
                )
        ])

good-IsScalar : (b n : ℕ) (s : Bytes) → utf8_sequence b s ≡ good n → IsScalar (take n (b ∷ s))
unfolding utf8_sequence
good-IsScalar b n s h = elim (Bool-cases (ltb b 0x80)) [
  | inl e ↦ let same : 1 ≡ n = ground arith in rw (sym same) (ground arith)
  | inr e ↦
      tail-IsScalar b n s (lead_bounds b) (lead_bounds-IsLead b (lead_bounds b) refl) (rw e at h)
]

-- A text that is encodings of scalar values, one behind the other.
pub record IsText (t : Bytes) : Type 0 where
  pub characters : List Bytes
  pub scalars : All IsScalar characters
  pub whole : t ≡ text_of characters

lossy_from-IsText : (g : ℕ) (s : Bytes) → IsText (lossy_from g s)
unfolding lossy_from
lossy_from-IsText zero s = record { characters = []; scalars = tt; whole = refl }
lossy_from-IsText (suc g) [] = record { characters = []; scalars = tt; whole = refl }
lossy_from-IsText (suc g) (b ∷ s) = elim (Sequence-cases (utf8_sequence b s)) [
  | inl (n, e) ↦
      let rest = lossy_from-IsText g (drop n (b ∷ s)) in
      rw (e, lossy_from)
        (record {
          characters = take n (b ∷ s) ∷ rest.characters;
          scalars = (good-IsScalar b n s e, rest.scalars);
          whole = ap (λ t. take n (b ∷ s) ++ t) rest.whole;
        })
  | inr (n, e) ↦
      let rest = lossy_from-IsText g (drop n (b ∷ s)) in
      rw (e, lossy_from)
        (record {
          characters = replacement ∷ rest.characters;
          scalars = (ground arith, rest.scalars);
          whole = ap (λ t. replacement ++ t) rest.whole;
        })
]

-- Whatever the bytes, the repaired text is encodings of scalar values, each in the least number of bytes, none a
-- surrogate and none past 0x10FFFF.
pub utf8_lossy-IsText : (s : Bytes) → IsText (utf8_lossy s)
unfolding utf8_lossy
utf8_lossy-IsText s = lossy_from-IsText (length s) s

-- The encoding of a scalar value is read as one sequence.
scalar-good :
    (b : ℕ) (cs r : Bytes) → IsScalar (b ∷ cs) → utf8_sequence b (cs ++ r) ≡ good (suc (length cs))
unfolding utf8_sequence sequence_tail lead_bounds trail
scalar-good b [] r h = ground arith
scalar-good b (c ∷ []) r h = ground arith
scalar-good b (c ∷ (d ∷ [])) r h = ground arith
scalar-good b (c ∷ (d ∷ (e ∷ []))) r h = ground arith
scalar-good b (c ∷ (d ∷ (e ∷ (f ∷ cs)))) r h = absurd (omega arith)

lossy_from-text_of :
    (cs : List Bytes) (g : ℕ)
    → All IsScalar cs
    → length (text_of cs) ≤ g
    → lossy_from g (text_of cs) ≡ text_of cs
unfolding lossy_from
lossy_from-text_of [] zero h le = refl
lossy_from-text_of [] (suc g) h le = refl
lossy_from-text_of ([] ∷ cs) g h le = absurd (omega arith)
lossy_from-text_of ((b ∷ c) ∷ cs) zero h le = absurd (omega arith)
lossy_from-text_of ((b ∷ c) ∷ cs) (suc g) h le =
    rw (scalar-good b c (text_of cs) h.0, lossy_from)
      (rw
        (
          take-append_length c (text_of cs) (length c) refl,
          drop-append_length c (text_of cs) (length c) refl,
        )
        (ap (λ t. b ∷ (c ++ t))
          (lossy_from-text_of cs g h.1 (omega (arith, le, length-append c (text_of cs))))))

-- A text that is encodings of scalar values, each in the least number of bytes, is repaired to itself.
pub utf8_lossy-text_of : (cs : List Bytes) → All IsScalar cs → utf8_lossy (text_of cs) ≡ text_of cs
unfolding utf8_lossy
utf8_lossy-text_of cs h = lossy_from-text_of cs (length (text_of cs)) h (omega arith)
