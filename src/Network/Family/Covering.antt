-- ===== src/Network/Family/Covering.antt =====
-- A pattern inside a family matches only names inside it.
use openpak_client.Shared.{
  ◌-◌, ◌≤◌, ◌≡◌, refl, sym, ap, ◌∙◌, inl, inr, true, false, List, [], ◌∷◌, ◌++◌, arith,
  append_assoc, ltb, Bool-cases, length, drop, take, take-append-drop, length-append,
  drop-append_length, all_of, Bytes, bytes_eq, bytes_eq_iff, ends_with, nat_eq, text_eq,
}
use openpak_client.Platform.{to_lower}
use openpak_client.Network.Family.{
  begins_with, family_well_formed, covers, name_in_families, matches,
}

-- A suffix, as the two halves of a text.
ends_with-split : (p s : Bytes) → ends_with p s ≡ true → (a : Bytes) × (s ≡ a ++ p)
unfolding ends_with
ends_with-split p s h =
    let n = length s - length p in
    let same : bytes_eq (drop n s) p ≡ true = ground arith in
    (
      take n s,
      sym (take-append-drop n s) ∙ ap (λ t. take n s ++ t) ((bytes_eq_iff (drop n s) p).0 same),
    )

ends_with-append : (a p : Bytes) → ends_with p (a ++ p) ≡ true
unfolding ends_with
ends_with-append a p =
    let n : length a ≡ length (a ++ p) - length p = omega (arith, length-append a p) in
    let e : drop (length (a ++ p) - length p) (a ++ p) ≡ p =
      drop-append_length a p (length (a ++ p) - length p) (sym n) in
    let fits : length p ≤ length (a ++ p) = omega (arith, length-append a p) in
    rw (e, (bytes_eq_iff p p).1 refl) (ground arith)

ends_with_trans :
    (f p h : Bytes) → ends_with f p ≡ true → ends_with p h ≡ true → ends_with f h ≡ true
ends_with_trans f p h e g =
    let (b, s) = ends_with-split f p e in
    let (a, t) = ends_with-split p h g in
    let whole : h ≡ (a ++ b) ++ f = t ∙ (ap (λ u. a ++ u) s ∙ sym (append_assoc a b f)) in
    rw whole (ends_with-append (a ++ b) f)

-- The first label of a well-formed family is not empty.
second_no_dot : (f : Bytes) → family_well_formed f ≡ true → begins_with b'.' (drop 1 f) ≡ false
unfolding family_well_formed begins_with
second_no_dot [] w = ground arith
second_no_dot (x ∷ []) w = ground arith
second_no_dot (x ∷ y ∷ t) w = ground arith

in_family :
    (f h p : Bytes)
    → family_well_formed f ≡ true
    → begins_with b'.' p ≡ true
    → covers p f ≡ true
    → ltb (length p) (length h) ≡ true
    → ends_with p h ≡ true
    → covers h f ≡ true
unfolding covers
in_family f h p w dot c lt e = elim (Bool-cases (bytes_eq p f)) [
  | inl same ↦
      let s : p ≡ f = (bytes_eq_iff p f).0 same in
      let lt' : ltb (length f) (length h) ≡ true = rw s at lt in
      let e' : ends_with f h ≡ true = rw s at e in ground arith
  | inr other ↦ elim (Bool-cases (bytes_eq p (drop 1 f))) [
    | inl apex ↦
        let s : p ≡ drop 1 f = (bytes_eq_iff p (drop 1 f)).0 apex in
        absurd (ground (arith, second_no_dot f w, ap (begins_with b'.') s))
    | inr neither ↦ ground (arith, ends_with_trans f p h)
  ]
]

-- A name that matches a pattern inside a well-formed family is inside that family.
covers-matches :
    (host pattern f : Bytes)
    → family_well_formed f ≡ true
    → covers (to_lower pattern) f ≡ true
    → matches host pattern ≡ true
    → covers (to_lower host) f ≡ true
unfolding matches
covers-matches host pattern f w c m = elim (Bool-cases (begins_with b'.' (to_lower pattern))) [
  | inl dot ↦ in_family f (to_lower host) (to_lower pattern) w dot c (ground arith) (ground arith)
  | inr plain ↦
      let same : to_lower host ≡ to_lower pattern =
        (bytes_eq_iff (to_lower host) (to_lower pattern)).0 (ground arith) in
      rw same c
]

-- A name that a pattern matches is in the families, if the pattern is and each family is well formed.
pub name_in_families-matches :
    (host pattern : Bytes) (families : List Bytes)
    → all_of family_well_formed families ≡ true
    → name_in_families pattern families ≡ true
    → matches host pattern ≡ true
    → name_in_families host families ≡ true
unfolding name_in_families
name_in_families-matches host pattern [] w c m = c
name_in_families-matches host pattern (f ∷ fs) w c m =
    ground (arith, covers-matches host pattern f, name_in_families-matches host pattern fs)
