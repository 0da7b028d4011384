-- ===== src/Crash/Texts/Tails.antt =====
-- What `TailLines` keeps.
use openpak_client.Shared.{
  ℕ, zero, suc, ◌+◌, ◌-◌, ◌≤◌, ◌<◌, ◌≡◌, refl, sym, ap, ◌∙◌, ◌⊎◌, inl, inr, true, false, [], ◌∷◌,
  ◌++◌, arith, ltb, ◌==◌, if◌then◌else◌, Bool-cases, length, length-drop, take, drop,
  take-append-drop, Bytes,
}
use openpak_client.Crash.Texts.{char_at, newline, scan, tail_lines}

-- The lines of a text; a newline at the end starts none.
abbrev pub line_count : Bytes → ℕ
line_count [] = 0
line_count (c ∷ []) = 1
line_count (c ∷ (d ∷ cs)) = (if c == newline then 1 else 0) + line_count (d ∷ cs)

-- The last lines of a text, so many if it has them: behind a newline, or all of it.
pub record IsTail (text : Bytes) (lines : ℕ) (tail : Bytes) : Type 0 where
  pub front : Bytes
  pub whole : text ≡ front ++ tail
  pub most : line_count tail ≤ lines
  pub cut : (front ≡ []) ⊎ ((p : Bytes) × (front ≡ p ++ newline ∷ []) × (line_count tail ≡ lines))

drop-step :
    (text : Bytes) (at : ℕ) → at < length text → drop at text ≡ char_at text at ∷ drop (suc at) text
drop-step [] at h = absurd (omega arith)
drop-step (c ∷ cs) zero h = refl
drop-step (c ∷ cs) (suc at) h = drop-step cs at (omega arith)

take-step :
    (text : Bytes) (at : ℕ)
    → at < length text
    → take (suc at) text ≡ take at text ++ char_at text at ∷ []
take-step [] at h = absurd (omega arith)
take-step (c ∷ cs) zero h = refl
take-step (c ∷ cs) (suc at) h = ap (λ t. c ∷ t) (take-step cs at (omega arith))

-- How many lines have been passed, at a place of the scan.
Seen : Bytes → ℕ → ℕ → Type 0
Seen text at seen =
    (at ≡ length text)
      × (seen ≡ 0)
      × ((n : ℕ) → length text ≡ suc n → (char_at text n == newline) ≡ false)
    ⊎ (at < length text) × (line_count (drop at text) ≡ seen + 1)

line_count-cons :
    (c : ℕ) (s : Bytes)
    → 0 < length s
    → line_count (c ∷ s) ≡ (if c == newline then 1 else 0) + line_count s
line_count-cons c [] h = absurd (omega arith)
line_count-cons c (d ∷ s) h = refl

single : (c : ℕ) (s : Bytes) → length s ≡ 0 → line_count (c ∷ s) ≡ 1
single c [] h = refl
single c (d ∷ s) h = absurd (omega arith)

line_count-step :
    (text : Bytes) (at seen : ℕ)
    → suc at ≤ length text
    → Seen text (suc at) seen
    → (line_count (drop at text) ≡ (if char_at text at == newline then 1 else 0) + seen + 1)
      × ((char_at text at == newline) ≡ true → line_count (drop (suc at) text) ≡ seen + 1)
unfolding Seen
line_count-step text at seen le (inl (ends, none_seen, plain)) =
    let p : (char_at text at == newline) ≡ false = plain at (sym ends) in
    let last : length (drop (suc at) text) ≡ 0 = omega (arith, length-drop (suc at) text) in
    (
      ap line_count (drop-step text at (omega arith))
          ∙ (single (char_at text at) (drop (suc at) text) last ∙ ground (arith, p, none_seen)),
      λ t. absurd (ground (arith, p, t)),
    )
line_count-step text at seen le (inr (lt, e)) = (
  ap line_count (drop-step text at (omega arith))
      ∙ (line_count-cons (char_at text at) (drop (suc at) text)
            (omega (arith, length-drop (suc at) text))
          ∙ ground (arith, e)),
  λ t. e,
)

scan-IsTail :
    (text : Bytes) (lines at seen : ℕ)
    → at ≤ length text
    → seen < lines
    → Seen text at seen
    → IsTail text lines (scan text lines at seen)
unfolding scan Seen
scan-IsTail text lines zero seen le lt s = record {
  front = [];
  whole = refl;
  most = most s;
  cut = inl refl;
}
  where
    most : Seen text zero seen → line_count text ≤ lines
    most (inl (e, z, p)) = empty text e
      where
        empty : (t : Bytes) → 0 ≡ length t → line_count t ≤ lines
        empty [] h = omega arith
        empty (c ∷ t) h = absurd (omega arith)
    most (inr (l, e)) = omega (arith, e, lt)
scan-IsTail text lines (suc at) seen le lt s =
    let (counted, behind) = line_count-step text at seen le s in
    elim (Bool-cases (char_at text at == newline)) [
      | inl e ↦ elim (Bool-cases (seen + 1 == lines)) [
        | inl f ↦
            let c : line_count (drop (suc at) text) ≡ lines = ground (arith, behind e, f) in
            rw (e, f)
              (record {
                front = take (suc at) text;
                whole = sym (take-append-drop (suc at) text);
                most = omega (arith, c);
                cut = inr (
                  take at text,
                  take-step text at (omega arith)
                      ∙ ap (λ k. take at text ++ k ∷ []) (ground (arith, e)),
                  c,
                );
              })
        | inr f ↦
            rw (e, f)
              (scan-IsTail text lines at (seen + 1) (omega arith) (ground (arith, f, lt))
                (inr (omega arith, ground (arith, counted, e))))
      ]
      | inr e ↦ rw e (
          scan-IsTail text lines at seen (omega arith) lt
            (inr (omega arith, ground (arith, counted, e))))
    ]

-- The tail of a text is its last lines: so many, from a line's start, or all of it where it has no more.
pub tail_lines-IsTail :
    (text : Bytes) (lines : ℕ) → 1 ≤ lines → IsTail text lines (tail_lines text lines)
unfolding tail_lines Seen
tail_lines-IsTail text lines h = rw positive (elim (Bool-cases (ltb 0 (length text))) [
  | inr e ↦ rw e (
      scan-IsTail text lines (length text) 0 (omega arith) h
        (inl (refl, refl, λ n k. absurd (ground (arith, e, k)))))
  | inl e ↦
      let last : length text - 1 < length text = ground arith in
      elim (Bool-cases (char_at text (length text - 1) == newline)) [
        | inl f ↦
            rw (e, f)
              (scan-IsTail text lines (length text - 1) 0 (omega arith) h (
                inr (
                  last,
                  ap line_count (drop-step text (length text - 1) last)
                      ∙ single (char_at text (length text - 1)) (drop (suc (length text - 1)) text)
                          (omega (arith, length-drop (suc (length text - 1)) text)),
                )))
        | inr f ↦
            rw (e, f)
              (scan-IsTail text lines (length text) 0 (omega arith) h (
                inl
                  (refl, refl, λ n k. ap (λ m. char_at text m == newline) (omega (arith, k)) ∙ f)))
      ]
])
  where
    positive : (lines == 0) ≡ false
    positive = ground (arith, h)
