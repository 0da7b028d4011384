-- ===== src/Structs/Utf8/Repair.antt =====
-- The lossy repair always gives well-formed text, and leaves well-formed text as it is.
use openpak_client.Shared.{
  ℕ, zero, suc, ◌+◌, ◌-◌, ◌≤◌, ◌≡◌, refl, ap, ◌∙◌, ◌⊎◌, inl, inr, true, Option, none, some, [], ◌∷◌,
  ◌++◌, arith, ltb, Bool-cases, Option-cases, length, take, drop, length-append, take-append-drop,
  length-take, length-drop, drop-append_length, Bytes, nat_eq, text_eq,
}
use openpak_client.Structs.Utf8.{
  trail, lead_bounds, Sequence, good, bad, sequence_tail, utf8_sequence, size_of, valid_from,
  valid_utf8, replacement, lossy_from, utf8_lossy,
}

trail-length : (m k lo hi : ℕ) (s : Bytes) → trail m k lo hi s ≡ none → m ≤ length s
unfolding trail
trail-length zero k lo hi s h = omega arith
trail-length (suc m) k lo hi [] h = cc
trail-length (suc m) k lo hi (b ∷ s) h = ground (arith, trail-length m (k + 1) 0x80 0xBF s)

-- The bytes behind a sequence do not matter.
trail-append :
    (m k lo hi : ℕ) (s r : Bytes)
    → trail m k lo hi s ≡ none
    → trail m k lo hi (take m s ++ r) ≡ none
unfolding trail
trail-append zero k lo hi s r h = refl
trail-append (suc m) k lo hi [] r h = cc
trail-append (suc m) k lo hi (b ∷ s) r h = ground (arith, trail-append m (k + 1) 0x80 0xBF s r)

trail_bad :
    (m k lo hi j : ℕ) (s : Bytes) → trail m k lo hi s ≡ some j → (k ≤ j) × (j ≤ k + length s)
unfolding trail
trail_bad zero k lo hi j s h = cc
trail_bad (suc m) k lo hi j [] h = ground arith
trail_bad (suc m) k lo hi j (b ∷ s) h = ground (arith, trail_bad m (k + 1) 0x80 0xBF j s)

lead_bounds-pos : (lead n lo hi : ℕ) → lead_bounds lead ≡ some (n, lo, hi) → (2 ≤ n) × (n ≤ 4)
unfolding lead_bounds
lead_bounds-pos lead n lo hi h = ground arith

tail_good :
    (o : Option (ℕ × ℕ × ℕ)) (s r : Bytes) (n : ℕ)
    → ((k lo hi : ℕ) → o ≡ some (k, lo, hi) → 2 ≤ k)
    → sequence_tail o s ≡ good n
    → (m : ℕ) × (n ≡ suc m) × (m ≤ length s) × (sequence_tail o (take m s ++ r) ≡ good n)
unfolding sequence_tail
tail_good none s r n big h = cc
tail_good (some (k, lo, hi)) s r n big h = elim (Option-cases (trail (k - 1) 1 lo hi s)) [
  | inl e ↦
      let two : 2 ≤ k = big k lo hi refl in
      let same : k ≡ n = ground arith in
      (
        k - 1,
        omega arith,
        trail-length (k - 1) 1 lo hi s e,
        rw (trail-append (k - 1) 1 lo hi s r e, sequence_tail) (ap good same),
      )
  | inr (j, e) ↦ ground arith
]

pub good-append :
    (b : ℕ) (s r : Bytes) (n : ℕ)
    → utf8_sequence b s ≡ good n
    → (m : ℕ) × (n ≡ suc m) × (m ≤ length s) × (utf8_sequence b (take m s ++ r) ≡ good n)
unfolding utf8_sequence
good-append b s r n h = elim (Bool-cases (ltb b 0x80)) [
  | inl e ↦ (0, ground arith, ground arith, rw e (ground arith))
  | inr e ↦
      rw e
        (tail_good (lead_bounds b) s r n (λ k lo hi f. (lead_bounds-pos b k lo hi f).0) (rw e at h))
]

tail_size :
    (o : Option (ℕ × ℕ × ℕ)) (s : Bytes)
    → ((k lo hi : ℕ) → o ≡ some (k, lo, hi) → 2 ≤ k)
    → (1 ≤ size_of (sequence_tail o s)) × (size_of (sequence_tail o s) ≤ suc (length s))
unfolding sequence_tail
tail_size none s big = omega arith
tail_size (some (k, lo, hi)) s big = elim (Option-cases (trail (k - 1) 1 lo hi s)) [
  | inl e ↦
      let whole : sequence_tail (some (k, lo, hi)) s ≡ good k = rw (e, sequence_tail) in
      rw whole (ground (arith, big k lo hi refl, trail-length (k - 1) 1 lo hi s e))
  | inr (j, e) ↦
      let part : sequence_tail (some (k, lo, hi)) s ≡ bad j = rw (e, sequence_tail) in
      rw part (ground (arith, trail_bad (k - 1) 1 lo hi j s e))
]

-- A sequence takes at least one byte, and none past the end.
pub size_of-utf8_sequence :
    (b : ℕ) (s : Bytes)
    → (1 ≤ size_of (utf8_sequence b s)) × (size_of (utf8_sequence b s) ≤ suc (length s))
unfolding utf8_sequence
size_of-utf8_sequence b s = elim (Bool-cases (ltb b 0x80)) [
  | inl e ↦ rw e (omega arith)
  | inr e ↦ rw e (tail_size (lead_bounds b) s (λ k lo hi f. (lead_bounds-pos b k lo hi f).0))
]

-- Reading one sequence goes on behind it.
pub valid_from-append :
    (f b n : ℕ) (s r : Bytes)
    → utf8_sequence b s ≡ good n
    → valid_from (suc f) (take n (b ∷ s) ++ r) ≡ valid_from f r
unfolding valid_from
valid_from-append f b n s r h =
    let (m, e, fits, again) = good-append b s r n h in
    rw e (
      rw (again, valid_from)
        (rw e
          (ap (valid_from f) (drop-append_length (take m s) r m (omega (arith, length-take m s))))))

pub Sequence-cases : (q : Sequence) → ((n : ℕ) × (q ≡ good n)) ⊎ ((n : ℕ) × (q ≡ bad n))
Sequence-cases (good n) = inl (n, refl)
Sequence-cases (bad n) = inr (n, refl)

valid_from-good :
    (f b n : ℕ) (s r : Bytes)
    → utf8_sequence b s ≡ good n
    → ((k : ℕ) → length r ≤ k → valid_from k r ≡ true)
    → length (take n (b ∷ s) ++ r) ≤ f
    → valid_from f (take n (b ∷ s) ++ r) ≡ true
valid_from-good f b n s r h ih fits =
    let (m, e, _, _) = good-append b s r n h in
    let long : suc (length r) ≤ length (take n (b ∷ s) ++ r) =
      rw e (omega (arith, length-append (take m s) r)) in
    let more : f ≡ suc (f - 1) = omega arith in
    rw more (valid_from-append (f - 1) b n s r h ∙ ih (f - 1) (omega arith))

valid_from-replacement :
    (f : ℕ) (r : Bytes)
    → ((k : ℕ) → length r ≤ k → valid_from k r ≡ true)
    → length (replacement ++ r) ≤ f
    → valid_from f (replacement ++ r) ≡ true
unfolding valid_from utf8_sequence
valid_from-replacement zero r ih fits = absurd (omega arith)
valid_from-replacement (suc f) r ih fits = ih f (omega arith)

pub valid_from-nil : (f : ℕ) → valid_from f [] ≡ true
unfolding valid_from
valid_from-nil zero = refl
valid_from-nil (suc f) = refl

valid_from-lossy :
    (g f : ℕ) (s : Bytes) → length (lossy_from g s) ≤ f → valid_from f (lossy_from g s) ≡ true
unfolding lossy_from
valid_from-lossy zero f s h = valid_from-nil f
valid_from-lossy (suc g) f [] h = valid_from-nil f
valid_from-lossy (suc g) f (b ∷ s) h = elim (Sequence-cases (utf8_sequence b s)) [
  | inl (n, e) ↦
      rw (e, lossy_from)
        (valid_from-good f b n s _ e (λ k. valid_from-lossy g k (drop n (b ∷ s)))
          (rw (e, lossy_from) at h))
  | inr (n, e) ↦
      rw (e, lossy_from)
        (valid_from-replacement f _ (λ k. valid_from-lossy g k (drop n (b ∷ s)))
          (rw (e, lossy_from) at h))
]

-- Whatever the bytes, the repaired text is well-formed UTF-8.
pub valid_utf8-utf8_lossy : (s : Bytes) → valid_utf8 (utf8_lossy s) ≡ true
unfolding valid_utf8 utf8_lossy
valid_utf8-utf8_lossy s =
    valid_from-lossy (length s) (length (lossy_from (length s) s)) s (omega arith)

lossy_from-valid : (f g : ℕ) (s : Bytes) → length s ≤ g → valid_from f s ≡ true → lossy_from g s ≡ s
unfolding lossy_from valid_from
lossy_from-valid f zero [] h v = refl
lossy_from-valid f (suc g) [] h v = refl
lossy_from-valid f zero (b ∷ s) h v = absurd (omega arith)
lossy_from-valid zero (suc g) (b ∷ s) h v = cc
lossy_from-valid (suc f) (suc g) (b ∷ s) h v = elim (Sequence-cases (utf8_sequence b s)) [
  | inl (n, e) ↦
      let (m, k, _, _) = good-append b s [] n e in
      rw (e, lossy_from)
        (ap (λ t. take n (b ∷ s) ++ t)
            (lossy_from-valid f g (drop n (b ∷ s)) (rw k (omega (arith, length-drop m s)))
              (rw (e, valid_from) at v))
          ∙ take-append-drop n (b ∷ s))
  | inr (n, e) ↦ cc (rw (e, valid_from) at v)
]

-- Well-formed text is left as it is.
pub utf8_lossy-eq : (s : Bytes) → valid_utf8 s ≡ true → utf8_lossy s ≡ s
unfolding valid_utf8 utf8_lossy
utf8_lossy-eq s v = lossy_from-valid (length s) (length s) s (omega arith) v
