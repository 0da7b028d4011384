-- ===== src/Structs/Blob/RoundTrip.antt =====
-- A blob holds whole pairs only, and the pairs that fit are read back.
use openpak_client.Shared.{
  starts_with, ends_with, Option-cases, codes, not, ◌||◌, append_assoc, length-append, ℕ, zero, suc,
  ◌+◌, ◌-◌, ◌≤◌, ◌≡◌, refl, sym, ap, ◌∙◌, inl, inr, Bool, true, false, some, List, [], ◌∷◌, ◌++◌,
  append-nil, arith, ltb, ◌==◌, Bool-cases, length, replicate, length-replicate, all_of, All, Bytes,
  nat_eq, text_eq, Lacks, cut_at-append,
}
use openpak_client.Structs.Utf8.{valid_utf8}
use openpak_client.Structs.Blob.{
  Pair, key_char, valid_app_field_key, has_key, read_pairs, pairs_of_blob, write_pairs, fill_blob,
  Event, collect, app_field_to_blob,
}

write_pairs-le :
    (size : ℕ) (ps : List Pair) (out : Bytes)
    → length out ≤ size
    → length (write_pairs size ps out) ≤ size
unfolding write_pairs
write_pairs-le size [] out h = h
write_pairs-le size ((key, value) ∷ ps) out h = elim (Bool-cases (valid_app_field_key key)) [
  | inr e ↦ rw e (write_pairs-le size ps out h)
  | inl e ↦ elim (Bool-cases (ltb size (length out + length key + length value + 2))) [
    | inl f ↦ rw (e, f) h
    | inr f ↦
        rw (e, f)
          (write_pairs-le size ps _ (
            ground (
              arith,
              length-append out (key ++ (0 ∷ (value ++ (0 ∷ [])))),
              length-append key (0 ∷ (value ++ (0 ∷ []))),
              length-append value (0 ∷ []),
            )))
  ]
]

length-fill_blob : (size : ℕ) (ps : List Pair) → length (fill_blob size ps) ≡ size
unfolding fill_blob
length-fill_blob size ps =
    let zero_byte : ℕ = 0 in
    omega (
      arith,
      write_pairs-le size ps [] (omega arith),
      length-append (write_pairs size ps []) (replicate (size - length (write_pairs size ps [])) 0),
      length-replicate (size - length (write_pairs size ps [])) zero_byte,
    )

-- Whatever the text and whatever the parser makes of it, the blob keeps its size.
pub length-app_field_to_blob :
    (sax : Bytes → List Event × Bool) (size : ℕ) (t : Bytes)
    → length (app_field_to_blob sax size t) ≡ size
unfolding app_field_to_blob
length-app_field_to_blob sax size t =
    let zero_byte : ℕ = 0 in
    elim (Bool-cases (not (starts_with (codes "{") t) || not (ends_with (codes "}") t))) [
      | inl e ↦ rw e (length-replicate size zero_byte)
      | inr e ↦ rw e (elim (Option-cases (collect sax t)) [
        | inl f ↦ rw f (length-replicate size zero_byte)
        | inr (ps, f) ↦ rw f (length-fill_blob size ps)
      ])
    ]

-- A pair that the console can read: a valid key, and a well-formed value with no NUL.
pub record IsPair (p : Pair) : Type 0 where
  pub key : valid_app_field_key p.0 ≡ true
  pub value : valid_utf8 p.1 ≡ true
  pub no_nul : Lacks 0 p.1

-- No key stands twice, nor in the pairs before.
abbrev pub FreshKeys : List Pair → List Pair → Type 0
FreshKeys before [] = Unit
FreshKeys before (p ∷ ps) = (has_key p.0 before ≡ false) × FreshKeys (before ++ p ∷ []) ps

unfoldable pub encode : List Pair → Bytes
encode [] = []
encode ((key, value) ∷ ps) = key ++ (0 ∷ (value ++ (0 ∷ encode ps)))

chars-Lacks : (key : Bytes) → all_of key_char key ≡ true → Lacks 0 key
chars-Lacks [] h = tt
chars-Lacks (c ∷ key) h = (ground arith, chars-Lacks key (ground arith))

key-Lacks : (key : Bytes) → valid_app_field_key key ≡ true → Lacks 0 key
unfolding valid_app_field_key
key-Lacks key h = chars-Lacks key (ground arith)

read_pairs-pair :
    (f : ℕ) (key value rest : Bytes) (ps : List Pair)
    → IsPair (key, value)
    → has_key key ps ≡ false
    → read_pairs (suc f) (key ++ (0 ∷ (value ++ (0 ∷ rest)))) ps
      ≡ read_pairs f rest (ps ++ (key, value) ∷ [])
unfolding read_pairs
read_pairs-pair f [] value rest ps h fresh = absurd (unfold valid_app_field_key in cc (h.key))
read_pairs-pair f (c ∷ key) value rest ps h fresh =
    let clean = key-Lacks (c ∷ key) h.key in
    let start : (c == 0) ≡ false = ground (arith, clean.0) in
    rw (start, read_pairs)
      (rw (cut_at-append 0 (c ∷ key) (value ++ (0 ∷ rest)) clean, read_pairs)
        (rw (cut_at-append 0 value rest h.no_nul, read_pairs) (rw (h.value, h.key, fresh))))

read_pairs-zeros : (f n : ℕ) (ps : List Pair) → read_pairs (suc f) (replicate n 0) ps ≡ some ps
unfolding read_pairs
read_pairs-zeros f zero ps = refl
read_pairs-zeros f (suc n) ps = refl

read_pairs-encode :
    (f n : ℕ) (ps before : List Pair)
    → length ps ≤ f
    → All IsPair ps
    → FreshKeys before ps
    → read_pairs (suc f) (encode ps ++ replicate n 0) before ≡ some (before ++ ps)
unfolding encode
read_pairs-encode f n [] before h good fresh =
    read_pairs-zeros f n before ∙ ap some (sym (append-nil before))
read_pairs-encode zero n (p ∷ ps) before h good fresh = absurd (omega arith)
read_pairs-encode (suc f) n ((key, value) ∷ ps) before h good fresh =
    ap (λ t. read_pairs (suc (suc f)) t before) (regroup key value (encode ps) (replicate n 0))
    ∙ (read_pairs-pair (suc f) key value (encode ps ++ replicate n 0) before good.0 fresh.0
        ∙ (read_pairs-encode f n ps (before ++ (key, value) ∷ []) (omega arith) good.1 fresh.1
            ∙ ap some (append_assoc before ((key, value) ∷ []) ps)))
  where
    regroup :
        (k v e z : Bytes) → (k ++ (0 ∷ (v ++ (0 ∷ e)))) ++ z ≡ k ++ (0 ∷ (v ++ (0 ∷ (e ++ z))))
    regroup k v e z = simp append_assoc

write_pairs-encode :
    (size : ℕ) (ps : List Pair) (out : Bytes)
    → All IsPair ps
    → length out + length (encode ps) ≤ size
    → write_pairs size ps out ≡ out ++ encode ps
unfolding write_pairs encode
write_pairs-encode size [] out good h = sym (append-nil out)
write_pairs-encode size ((key, value) ∷ ps) out good h =
    let one : Bytes = key ++ (0 ∷ (value ++ (0 ∷ []))) in
    let sizes : length key + length value + 2 ≡ length one =
      omega (arith, length-append key (0 ∷ (value ++ (0 ∷ []))), length-append value (0 ∷ [])) in
    let whole : key ++ (0 ∷ (value ++ (0 ∷ encode ps))) ≡ one ++ encode ps = simp append_assoc in
    let room : length out + length one + length (encode ps) ≤ size =
      omega (arith, ap length whole, length-append one (encode ps)) in
    let fits : ltb size (length out + length key + length value + 2) ≡ false = ground arith in
    rw (good.0.key, fits)
      (write_pairs-encode size ps (out ++ one) good.1 (omega (arith, length-append out one))
        ∙ (append_assoc out one (encode ps) ∙ ap (λ t. out ++ t) (sym whole)))

length-encode : (ps : List Pair) → length ps ≤ length (encode ps)
unfolding encode
length-encode [] = omega arith
length-encode ((key, value) ∷ ps) = omega (
  arith,
  length-encode ps,
  length-append key (0 ∷ (value ++ (0 ∷ encode ps))),
  length-append value (0 ∷ encode ps),
)

-- Pairs that the console can read, with no key twice, are read back from the blob if they fit it.
pub pairs_of_blob-fill_blob :
    (size : ℕ) (ps : List Pair)
    → All IsPair ps
    → FreshKeys [] ps
    → length (encode ps) ≤ size
    → pairs_of_blob (fill_blob size ps) ≡ some ps
unfolding pairs_of_blob
pairs_of_blob-fill_blob size ps good fresh h = rw length-fill_blob (
    unfold fill_blob in
    rw (write_pairs-encode size ps [] good (omega arith)) (
      read_pairs-encode size (size - length (encode ps)) ps [] (omega (arith, length-encode ps))
        good fresh))
