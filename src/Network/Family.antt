-- ===== src/Network/Family.antt =====
-- Families of names: `FamilyWellFormed` and `NameInFamilies` of network_ceiling.cpp, and `Matches` of
-- network_profile_fetch.cpp.
pub mod Covering
use openpak_client.Shared.{
  ℕ, Bool, false, not, ◌&&◌, ◌||◌, List, [], ◌∷◌, ltb, leb, ◌==◌, if◌then◌else◌, length, drop,
  is_nil, any_of, all_of, Bytes, bytes_eq, ends_with,
}
use openpak_client.Platform.{to_lower, split_string}

abbrev label_char : ℕ → Bool
label_char c = (leb b'a' c && leb c b'z') || (leb b'0' c && leb c b'9') || (c == b'-')

-- `front()` and `back()` of a label that is not empty.
begins_with : ℕ → Bytes → Bool
begins_with d [] = false
begins_with d (c ∷ s) = c == d

ends_in : ℕ → Bytes → Bool
unfolding begins_with
ends_in d [] = false
ends_in d (c ∷ s) = let rest = ends_in d s in if is_nil s then c == d else rest

-- One round of the loop.
label_well_formed : Bytes → Bool
unfolding begins_with ends_in
label_well_formed label =
    not (is_nil label || ltb 63 (length label) || begins_with b'-' label || ends_in b'-' label)
    && all_of label_char label

-- `FamilyWellFormed`; the labels are what the dots cut the rest of the family into.
unfoldable pub family_well_formed : Bytes → Bool
unfolding begins_with label_well_formed split_string
family_well_formed family =
    let labels = split_string (drop 1 family) b'.' in
    if ltb (length family) 2 || not (begins_with b'.' family)
    then false
    else all_of label_well_formed labels && leb 2 (length labels)

-- One family of `NameInFamilies`, for the name in lower case.
pub covers : Bytes → Bytes → Bool
covers name family =
    if ltb (length family) 2
    then false
    else bytes_eq name family
      || bytes_eq name (drop 1 family)
      || (ltb (length family) (length name) && ends_with family name)

unfoldable pub name_in_families : Bytes → List Bytes → Bool
unfolding covers
name_in_families host families = any_of (covers (to_lower host)) families

-- `Matches`.
unfoldable pub matches : Bytes → Bytes → Bool
unfolding begins_with
matches host pattern =
    let h = to_lower host in
    let p = to_lower pattern in
    if is_nil p
    then false
    else if begins_with b'.' p
    then ltb (length p) (length h) && ends_with p h
    else bytes_eq h p
