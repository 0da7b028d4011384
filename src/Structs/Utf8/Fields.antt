-- ===== src/Structs/Utf8/Fields.antt =====
-- A text that is cut to a field is cut between two sequences, and the field ends in a NUL.
use openpak_client.Shared.{
  ℕ, zero, suc, ◌+◌, ◌-◌, ◌≤◌, ◌<◌, ◌≡◌, refl, sym, ap, ◌∙◌, ◌⊎◌, inl, inr, true, false, none, some,
  [], ◌∷◌, ◌++◌, arith, ltb, leb, if◌then◌else◌, Bool-cases, Option-cases, length, get_elem?, take,
  drop, replicate, length-append, take-append-drop, length-take, length-drop, length-replicate,
  take_all, Bytes, nat_eq, text_eq, Lacks, cut_at-append,
}
use native.Mathlib.Decide.{dec_lt}
use openpak_client.Structs.Utf8.{
  is_continuation, continues_at, trail, lead_bounds, good, bad, sequence_tail, utf8_sequence,
  valid_from, valid_utf8, back_to_start, utf8_fits, fixed_utf8, text, utf8_lossy,
}
use openpak_client.Structs.Utf8.Repair.{
  good-append, valid_from-append, Sequence-cases, valid_from-nil, utf8_lossy-eq,
}

trail-continues :
    (m k lo hi i : ℕ) (s : Bytes)
    → trail m k lo hi s ≡ none
    → 0x80 ≤ lo
    → hi ≤ 0xBF
    → i < m
    → continues_at s i ≡ true
unfolding trail
trail-continues zero k lo hi i s h a b lt = absurd (omega arith)
trail-continues (suc m) k lo hi i [] h a b lt = cc
trail-continues (suc m) k lo hi zero (c ∷ s) h a b lt = ground arith
trail-continues (suc m) k lo hi (suc i) (c ∷ s) h a b lt =
    ground (arith, trail-continues m (k + 1) 0x80 0xBF i s)

-- What the bounds of a lead byte say.
lead_bounds-in :
    (lead n lo hi : ℕ)
    → lead_bounds lead ≡ some (n, lo, hi)
    → (0x80 ≤ lo) × (hi ≤ 0xBF) × (2 ≤ n) × (0xC0 ≤ lead)
unfolding lead_bounds
lead_bounds-in lead n lo hi h = ground arith

tail-continues :
    (lead m i : ℕ) (s : Bytes)
    → sequence_tail (lead_bounds lead) s ≡ good (suc m)
    → i < m
    → continues_at s i ≡ true
unfolding sequence_tail
tail-continues lead m i s h lt = elim (Option-cases (lead_bounds lead)) [
  | inl e ↦ cc (rw e at h)
  | inr ((n, lo, hi), e) ↦
      let (a, b, c, _) = lead_bounds-in lead n lo hi e in
      elim (Option-cases (trail (n - 1) 1 lo hi s)) [
        | inl f ↦
            let whole : sequence_tail (some (n, lo, hi)) s ≡ good n = rw (f, sequence_tail) in
            let same : n ≡ suc m = ground (arith, sym (ap (λ o. sequence_tail o s) e) ∙ h, whole) in
            trail-continues (n - 1) 1 lo hi i s f a b (omega arith)
        | inr (j, f) ↦
            let part : sequence_tail (some (n, lo, hi)) s ≡ bad j = rw (f, sequence_tail) in
            ground (arith, sym (ap (λ o. sequence_tail o s) e) ∙ h, part)
      ]
]

-- The bytes of a sequence behind its lead are continuation bytes, and the lead is none.
good-continues :
    (b m i : ℕ) (s : Bytes) → utf8_sequence b s ≡ good (suc m) → i < m → continues_at s i ≡ true
unfolding utf8_sequence
good-continues b m i s h lt = elim (Bool-cases (ltb b 0x80)) [
  | inl e ↦ absurd (ground (arith, rw e at h))
  | inr e ↦ tail-continues b m i s (rw e at h) lt
]

good-starts : (b n : ℕ) (s : Bytes) → utf8_sequence b s ≡ good n → is_continuation b ≡ false
unfolding utf8_sequence sequence_tail
good-starts b n s h = elim (Bool-cases (ltb b 0x80)) [
  | inl e ↦ ground arith
  | inr e ↦ elim (Option-cases (lead_bounds b)) [
    | inl f ↦ ground (arith, rw (e, f) at h)
    | inr ((k, lo, hi), f) ↦ ground (arith, lead_bounds-in b k lo hi f)
  ]
]

-- A well-formed text does not begin with a continuation byte.
valid_from-starts : (f : ℕ) (s : Bytes) → valid_from f s ≡ true → continues_at s 0 ≡ false
unfolding valid_from
valid_from-starts f [] v = refl
valid_from-starts zero (b ∷ s) v = cc
valid_from-starts (suc f) (b ∷ s) v = elim (Sequence-cases (utf8_sequence b s)) [
  | inl (n, e) ↦ good-starts b n s e
  | inr (n, e) ↦ cc (rw (e, valid_from) at v)
]

continues_at-append :
    (a r : Bytes) (j k : ℕ) → k ≡ length a + j → continues_at (a ++ r) k ≡ continues_at r j
continues_at-append [] r j k e = ap (continues_at r) (omega arith)
continues_at-append (x ∷ a) r j zero e = absurd (omega arith)
continues_at-append (x ∷ a) r j (suc k) e = continues_at-append a r j k (omega arith)

-- Going back never crosses a start.
back-append :
    (a r : Bytes) (n k : ℕ)
    → continues_at r 0 ≡ false
    → k ≡ length a + n
    → back_to_start (a ++ r) k ≡ length a + back_to_start r n
unfolding back_to_start
back-append a r zero zero h e = omega arith
back-append a r zero (suc k) h e = rw (continues_at-append a r 0 (suc k) e, h) (omega arith)
back-append a r (suc n) zero h e = absurd (omega arith)
back-append a r (suc n) (suc k) h e =
    ground (arith, continues_at-append a r (suc n) (suc k) e, back-append a r n k h)

back_in_sequence :
    (s : Bytes) (n : ℕ) → ((i : ℕ) → i < n → continues_at s (suc i) ≡ true) → back_to_start s n ≡ 0
unfolding back_to_start
back_in_sequence s zero h = refl
back_in_sequence s (suc n) h =
    rw (h n (omega arith)) (back_in_sequence s n (λ i lt. h i (omega arith)))

pub back_to_start-le : (s : Bytes) (n : ℕ) → back_to_start s n ≤ n
unfolding back_to_start
back_to_start-le s zero = omega arith
back_to_start-le s (suc n) = ground (arith, back_to_start-le s n)

take-append : (a r : Bytes) (n : ℕ) → take (length a + n) (a ++ r) ≡ a ++ take n r
take-append [] r n = ap (λ k. take k r) (omega arith)
take-append (x ∷ a) r n =
    let e : suc (length a) + n ≡ suc (length a + n) = omega arith in
    rw e (ap (◌∷◌ x) (take-append a r n))

-- A cut behind the first sequence is a cut of what follows it.
behind :
    (f n m b : ℕ) (s : Bytes)
    → utf8_sequence b s ≡ good (suc m)
    → m ≤ length s
    → valid_from f (drop m s) ≡ true
    → m ≤ n
    → (valid_from f (drop m s) ≡ true
        → n - m ≤ length (drop m s)
        → valid_from f (take (back_to_start (drop m s) (n - m)) (drop m s)) ≡ true)
    → n - m ≤ length (drop m s)
    → valid_from (suc f) (take (back_to_start (b ∷ s) (suc n)) (b ∷ s)) ≡ true
behind f n m b s e fits v le ih room =
    let a : Bytes = take (suc m) (b ∷ s) in
    let r : Bytes = drop m s in
    let size : length a ≡ suc m = omega (arith, length-take m s) in
    let j = back_to_start r (n - m) in
    let back : back_to_start (a ++ r) (suc n) ≡ length a + j =
      back-append a r (n - m) (suc n) (valid_from-starts f r v) (omega arith) in
    let whole : a ++ r ≡ b ∷ s = take-append-drop (suc m) (b ∷ s) in
    rw (← whole)
      (rw back (rw (take-append a r j) (valid_from-append f b (suc m) s (take j r) e ∙ ih v room)))

cut-valid :
    (f n : ℕ) (s : Bytes)
    → valid_from f s ≡ true
    → n ≤ length s
    → valid_from f (take (back_to_start s n) s) ≡ true
cut-valid f zero s v h = unfold back_to_start in valid_from-nil f
cut-valid f (suc n) [] v h = absurd (omega arith)
cut-valid zero (suc n) (b ∷ s) v h = unfold valid_from in cc
cut-valid (suc f) (suc n) (b ∷ s) v h = elim (Sequence-cases (utf8_sequence b s)) [
  | inr (k, e) ↦ unfold valid_from in cc (rw (e, valid_from) at v)
  | inl (k, e) ↦
      let (m, same, fits, _) = good-append b s [] k e in
      let e' : utf8_sequence b s ≡ good (suc m) = e ∙ ap good same in
      elim (dec_lt n m) [
        | yes inside ↦
            rw (back_in_sequence (b ∷ s) (suc n) (λ i lt. good-continues b m i s e' (omega arith)))
              (valid_from-nil (suc f))
        | no outside ↦
            behind f n m b s e' fits (unfold valid_from in ground (arith, rw (e', valid_from) at v))
              (omega arith) (cut-valid f (n - m) (drop m s)) (omega (arith, length-drop m s))
      ]
]

-- Any fuel that covers the text will do.
valid_from-fuel :
    (f g : ℕ) (s : Bytes) → length s ≤ g → valid_from f s ≡ true → valid_from g s ≡ true
unfolding valid_from
valid_from-fuel f g [] h v = valid_from-nil g
valid_from-fuel f zero (b ∷ s) h v = absurd (omega arith)
valid_from-fuel zero (suc g) (b ∷ s) h v = cc
valid_from-fuel (suc f) (suc g) (b ∷ s) h v = elim (Sequence-cases (utf8_sequence b s)) [
  | inr (k, e) ↦ cc (rw (e, valid_from) at v)
  | inl (k, e) ↦
      let (m, same, fits, _) = good-append b s [] k e in
      let e' : utf8_sequence b s ≡ good (suc m) = e ∙ ap good same in
      rw (e', valid_from)
        (valid_from-fuel f g (drop m s) (omega (arith, length-drop m s)) (rw (e', valid_from) at v))
]

-- Cutting changes no more than the end of a well-formed text: what is kept is well-formed.
pub valid_utf8-take_fits :
    (s : Bytes) (limit : ℕ) → valid_utf8 s ≡ true → valid_utf8 (take (utf8_fits s limit) s) ≡ true
unfolding valid_utf8 utf8_fits
valid_utf8-take_fits s limit v =
    let n = if leb (length s) limit then length s else limit in
    valid_from-fuel (length s) _ _ (omega arith) (cut-valid (length s) n s v (ground arith))

-- The cut is within the limit and within the text.
pub utf8_fits-le :
    (s : Bytes) (limit : ℕ) → (utf8_fits s limit ≤ limit) × (utf8_fits s limit ≤ length s)
unfolding utf8_fits
utf8_fits-le s limit =
    let n = if leb (length s) limit then length s else limit in ground (arith, back_to_start-le s n)

-- A field keeps its size, whatever the text.
pub length-fixed_utf8 : (size : ℕ) (v : Bytes) → length (fixed_utf8 size v) ≡ size
unfolding fixed_utf8
length-fixed_utf8 size v =
    let n = utf8_fits v (size - 1) in
    let zero_byte : ℕ = 0 in
    ground (
      arith,
      length-replicate size zero_byte,
      length-append (take n v) (replicate (size - n) zero_byte),
      length-replicate (size - n) zero_byte,
      length-take n v,
      utf8_fits-le v (size - 1),
    )

Lacks-take : (c n : ℕ) (s : Bytes) → Lacks c s → Lacks c (take n s)
Lacks-take c zero s h = tt
Lacks-take c (suc n) [] h = tt
Lacks-take c (suc n) (x ∷ s) h = (h.0, Lacks-take c n s h.1)

fixed_utf8-eq :
    (size : ℕ) (v : Bytes)
    → 2 ≤ size
    → let n = utf8_fits v (size - 1) in fixed_utf8 size v ≡ take n v ++ replicate (size - n) 0
unfolding fixed_utf8
fixed_utf8-eq size [] h =
    let none_kept : utf8_fits [] (size - 1) ≡ 0 = omega (arith, (utf8_fits-le [] (size - 1)).1) in
    rw none_kept (ap (λ k. replicate k 0) (omega arith))
fixed_utf8-eq size (c ∷ v) h = ground arith

text-terminated : (w : Bytes) (k : ℕ) → Lacks 0 w → 1 ≤ k → text (w ++ replicate k 0) ≡ utf8_lossy w
unfolding text
text-terminated w zero h positive = absurd (omega arith)
text-terminated w (suc k) h positive = rw (cut_at-append 0 w (replicate k 0) h, text)

get_elem?_end : (s : Bytes) → get_elem? s (length s) ≡ none
get_elem?_end [] = refl
get_elem?_end (c ∷ s) = get_elem?_end s

back_at_end : (s : Bytes) (n : ℕ) → get_elem? s n ≡ none → back_to_start s n ≡ n
unfolding back_to_start
back_at_end s zero h = refl
back_at_end s (suc n) h = ground arith

utf8_fits_whole : (s : Bytes) (limit : ℕ) → length s ≤ limit → utf8_fits s limit ≡ length s
unfolding utf8_fits
utf8_fits_whole s limit h = ground (arith, back_at_end s (length s) (get_elem?_end s))

-- Reading back a field of two bytes or more gives a well-formed text without zeros as far as it was
-- kept, which is all of it if it is shorter than the field.
pub text-fixed_utf8 :
    (size : ℕ) (v : Bytes)
    → 2 ≤ size
    → valid_utf8 v ≡ true
    → Lacks 0 v
    → (text (fixed_utf8 size v) ≡ take (utf8_fits v (size - 1)) v)
      × ((size ≤ length v) ⊎ (text (fixed_utf8 size v) ≡ v))
text-fixed_utf8 size v h valid no_nul =
    let n = utf8_fits v (size - 1) in
    let kept : text (fixed_utf8 size v) ≡ take n v =
      ap text (fixed_utf8-eq size v h)
      ∙ (text-terminated (take n v) (size - n) (Lacks-take 0 n v no_nul)
            (omega (arith, (utf8_fits-le v (size - 1)).0))
          ∙ utf8_lossy-eq (take n v) (valid_utf8-take_fits v (size - 1) valid)) in
    (
      kept,
      elim (Bool-cases (leb size (length v))) [
        | inl e ↦ inl (ground arith)
        | inr e ↦
            inr (kept ∙ take_all n v (omega (arith, utf8_fits_whole v (size - 1) (ground arith))))
      ],
    )
