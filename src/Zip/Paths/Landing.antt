-- ===== src/Zip/Paths/Landing.antt =====
-- Where the entries of an archive land.
use openpak_client.Shared.{
  ◌≡◌, ◌≢◌, refl, sym, ap, ◌∙◌, ◌⊎◌, inl, inr, Bool, true, false, not, ◌||◌, none, some, List, [],
  ◌∷◌, ◌++◌, arith, append_assoc, append-nil, if◌then◌else◌, Bool-cases, any_of, keep_if,
  starts_with, starts_with-append, Bytes,
}
use openpak_client.Zip.Paths.{
  parts, is_void, is_climb, normal_from, ends_open, print_directory, print_path, safe_path,
}

-- The parts of a name that name something.
abbrev pub named : List Bytes → List Bytes
named ps = keep_if (λ p. not (is_void p)) ps

-- A list laid on top of another, its last element uppermost.
abbrev pub onto : List Bytes → List Bytes → List Bytes
onto [] above = above
onto (p ∷ ps) above = onto ps (p ∷ above)

normal_from-named :
    (ps above : List Bytes)
    → any_of is_climb ps ≡ false
    → normal_from ps above ≡ onto (named ps) above
unfolding normal_from
normal_from-named [] above h = refl
normal_from-named (p ∷ ps) [] h =
    let hp : is_climb p ≡ false = ground arith in
    let hs : any_of is_climb ps ≡ false = ground arith in
    elim (Bool-cases (is_void p)) [
      | inl e ↦ rw (e, normal_from) (normal_from-named ps [] hs)
      | inr e ↦ rw (e, hp, normal_from) (normal_from-named ps (p ∷ []) hs)
    ]
normal_from-named (p ∷ ps) (q ∷ above) h =
    let hp : is_climb p ≡ false = ground arith in
    let hs : any_of is_climb ps ≡ false = ground arith in
    elim (Bool-cases (is_void p)) [
      | inl e ↦ rw (e, normal_from) (normal_from-named ps (q ∷ above) hs)
      | inr e ↦ rw (e, hp, normal_from) (normal_from-named ps (p ∷ q ∷ above) hs)
    ]

-- A name that ends in a part that names something has such a part.
ends_open-named :
    (ps : List Bytes) → any_of is_climb ps ≡ false → ends_open ps ≡ false → named ps ≢ []
unfolding ends_open
ends_open-named [] h e n = absurd (ground arith)
ends_open-named (p ∷ []) h e n =
    let v : is_void p ≡ false = ground arith in absurd (ground (arith, v, n))
ends_open-named (p ∷ q ∷ ps) h e n = elim (Bool-cases (is_void p)) [
  | inl v ↦ ends_open-named (q ∷ ps) (ground arith) e (rw v at n)
  | inr v ↦ absurd (ground (arith, v, n))
]

open_or_named :
    (ps : List Bytes) → any_of is_climb ps ≡ false → (ends_open ps ≡ true) ⊎ (named ps ≢ [])
open_or_named ps h = elim (Bool-cases (ends_open ps)) [
  | inl o ↦ inl o
  | inr o ↦ inr (ends_open-named ps h o)
]

Under : List Bytes → Bytes → Type 0
Under root path = (t : Bytes) × (path ≡ print_directory root ++ t)

print_path-Under :
    (vs root : List Bytes) (kept : Bool)
    → (kept ≡ true) ⊎ (vs ≢ [])
    → Under root (print_path (onto vs root) kept)
unfolding Under
print_path-Under [] [] kept h = ([], refl)
print_path-Under [] (q ∷ root) true h = ([], sym (append-nil _))
print_path-Under [] (q ∷ root) false (inl e) = absurd (ground arith)
print_path-Under [] (q ∷ root) false (inr n) = absurd (n refl)
print_path-Under (p ∷ []) root true h = (p ++ b'/' ∷ [], refl)
print_path-Under (p ∷ []) root false h = (p, refl)
print_path-Under (p ∷ v ∷ vs) root kept h =
    let (t, e) = print_path-Under (v ∷ vs) (p ∷ root) kept (inr (λ n. cc)) in
    ((p ++ b'/' ∷ []) ++ t, e ∙ append_assoc (print_directory root) (p ++ b'/' ∷ []) t)

-- A name that begins with a separator or climbs is refused; any other lands under the root, at the parts
-- of the name that name something.
pub safe_path-named :
    (root : List Bytes) (name : Bytes)
    → safe_path root name ≡ (
        if starts_with (b'/' ∷ []) name || any_of is_climb (parts name)
        then none
        else some
            (print_path (onto (named (parts name)) (normal_from root [])) (ends_open (parts name))))
unfolding safe_path Under
safe_path-named root name = elim (Bool-cases (starts_with (b'/' ∷ []) name)) [
  | inl e ↦ rw e refl
  | inr e ↦ elim (Bool-cases (any_of is_climb (parts name))) [
    | inl f ↦ rw (e, f) refl
    | inr f ↦
        let base = normal_from root [] in
        let here = normal_from-named (parts name) base f in
        let (t, u) =
          print_path-Under (named (parts name)) base (ends_open (parts name))
            (open_or_named (parts name) f) in
        let inside : starts_with (print_directory base)
              (print_path (onto (named (parts name)) base) (ends_open (parts name)))
            ≡ true =
          ap (starts_with (print_directory base)) u ∙ starts_with-append (print_directory base) t in
        rw (e, f, here, inside) refl
  ]
]
