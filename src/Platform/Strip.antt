-- ===== src/Platform/Strip.antt =====
-- The laws of `StripSpaces`.
use openpak_client.Shared.{
  ◌≤◌, ◌≡◌, refl, ap, ◌∙◌, inl, inr, true, false, ◌&&◌, [], ◌∷◌, ◌++◌, arith, Bool-cases, length,
  is_nil, All, Bytes, nat_eq, text_eq,
}
use openpak_client.Shared.{◌∙◌, ◌≤◌, length, inl, inr}
use openpak_client.Platform.{is_blank, strip_front, strip_back, strip_spaces}

abbrev pub Blank : Bytes → Type 0
Blank s = All (λ c. is_blank c ≡ true) s

-- The text neither starts nor ends with a blank.
abbrev pub IsStripped : Bytes → Type 0
IsStripped s = strip_spaces s ≡ s

strip_front_split : (s : Bytes) → (a : Bytes) × (s ≡ a ++ strip_front s) × Blank a
unfolding strip_front
strip_front_split [] = ([], refl, tt)
strip_front_split (c ∷ s) = elim (Bool-cases (is_blank c)) [
  | inl e ↦ let (a, h, b) = strip_front_split s in (c ∷ a, rw e (ap (◌∷◌ c) h), (e, b))
  | inr e ↦ ([], rw e, tt)
]

strip_back_split : (s : Bytes) → (b : Bytes) × (s ≡ strip_back s ++ b) × Blank b
unfolding strip_back
strip_back_split [] = ([], refl, tt)
strip_back_split (c ∷ s) = elim (Bool-cases (is_nil (strip_back s) && is_blank c)) [
  | inl e ↦
      let (b, h, w) = strip_back_split s in
      (c ∷ s, rw e, (ground arith, all_blank (strip_back s) b (ground arith) h w))
  | inr e ↦ let (b, h, w) = strip_back_split s in (b, rw e (ap (◌∷◌ c) h), w)
]
  where
    all_blank : (t b : Bytes) → is_nil t ≡ true → s ≡ t ++ b → Blank b → Blank s
    all_blank [] b n h w = rw h w
    all_blank (x ∷ t) b n h w = cc

-- Stripping takes blanks off the two ends and nothing else.
pub strip_spaces_split :
    (s : Bytes) → (a : Bytes) × (b : Bytes) × (s ≡ a ++ (strip_spaces s ++ b)) × Blank a × Blank b
unfolding strip_spaces
strip_spaces_split s =
    let (a, h, wa) = strip_front_split s in
    let (b, k, wb) = strip_back_split (strip_front s) in (a, b, h ∙ ap (◌++◌ a) k, wa, wb)

strip_back_idem : (s : Bytes) → strip_back (strip_back s) ≡ strip_back s
unfolding strip_back
strip_back_idem [] = refl
strip_back_idem (c ∷ s) = ground (arith, strip_back_idem s)

-- A text that starts with no blank keeps its start.
front_kept : (s : Bytes) → strip_front s ≡ s → strip_front (strip_back s) ≡ strip_back s
unfolding strip_back strip_front
front_kept [] h = refl
front_kept (c ∷ s) h = elim (Bool-cases (is_blank c)) [
  | inl e ↦ ground (arith, front_shorter s)
  | inr e ↦ ground arith
]
  where
    front_shorter : (t : Bytes) → length (strip_front t) ≤ length t
    front_shorter [] = omega arith
    front_shorter (x ∷ t) = ground (arith, front_shorter t)

strip_front_idem : (s : Bytes) → strip_front (strip_front s) ≡ strip_front s
unfolding strip_front
strip_front_idem [] = refl
strip_front_idem (c ∷ s) = ground (arith, strip_front_idem s)

-- What has been stripped is stripped.
pub strip_spaces-IsStripped : (s : Bytes) → IsStripped (strip_spaces s)
unfolding strip_spaces
strip_spaces-IsStripped s =
    rw (front_kept (strip_front s) (strip_front_idem s)) (strip_back_idem (strip_front s))

strip_back-no_blank : (s : Bytes) → All (λ c. is_blank c ≡ false) s → strip_back s ≡ s
unfolding strip_back
strip_back-no_blank [] h = refl
strip_back-no_blank (c ∷ s) h = ground (arith, strip_back-no_blank s h.1)

-- A text with no blank in it is left alone.
pub strip_spaces-no_blank : (s : Bytes) → All (λ c. is_blank c ≡ false) s → IsStripped s
unfolding strip_spaces strip_front
strip_spaces-no_blank [] h = refl
strip_spaces-no_blank (c ∷ s) h = rw h.0 (strip_back-no_blank (c ∷ s) h)
