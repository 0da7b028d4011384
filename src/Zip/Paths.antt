-- ===== src/Zip/Paths.antt =====
-- `SafePath` of zip_store.cpp and `SafeEntryPath` of safe_entry_path.h, with the paths of a system where `/`
-- separates. The root is absolute, and is its parts.
pub mod Landing
use openpak_client.Shared.{
  Bool, true, false, not, ◌||◌, Option, none, some, List, [], ◌∷◌, ◌++◌, ◌==◌, if◌then◌else◌,
  is_nil, any_of, starts_with, Bytes, bytes_eq, codes,
}

-- The parts of a path, the empty ones between two separators and at an end included.
unfoldable pub parts : Bytes → List Bytes
parts [] = [] ∷ []
parts (c ∷ cs) = elim (parts cs) [
  | [] ↦ (c ∷ []) ∷ []
  | p ∷ ps ↦ if c == b'/' then [] ∷ p ∷ ps else (c ∷ p) ∷ ps
]

-- A part that `lexically_normal` takes out.
abbrev pub is_void : Bytes → Bool
is_void part = is_nil part || bytes_eq part (codes ".")

abbrev pub is_climb : Bytes → Bool
is_climb part = bytes_eq part (codes "..")

-- `lexically_normal` of an absolute path: its parts, the last one first.
unfoldable pub normal_from : List Bytes → List Bytes → List Bytes
normal_from [] above = above
normal_from (p ∷ ps) [] =
    if is_void p || is_climb p then normal_from ps [] else normal_from ps (p ∷ [])
normal_from (p ∷ ps) (q ∷ above) =
    if is_void p
    then normal_from ps (q ∷ above)
    else if is_climb p
    then normal_from ps above
    else normal_from ps (p ∷ (q ∷ above))

-- Whether the normal path keeps a separator at its end: its last part names nothing.
unfoldable pub ends_open : List Bytes → Bool
ends_open [] = true
ends_open (p ∷ []) = is_void p || is_climb p
ends_open (p ∷ (q ∷ ps)) = ends_open (q ∷ ps)

-- The text of a directory, from its parts, the last one first.
abbrev pub print_directory : List Bytes → Bytes
print_directory [] = b'/' ∷ []
print_directory (p ∷ above) = print_directory above ++ (p ++ b'/' ∷ [])

abbrev pub print_path : List Bytes → Bool → Bytes
print_path [] kept = b'/' ∷ []
print_path (p ∷ above) true = print_directory (p ∷ above)
print_path (p ∷ above) false = print_directory above ++ p

-- `SafePath`.
unfoldable pub safe_path : List Bytes → Bytes → Option Bytes
unfolding parts normal_from ends_open starts_with
safe_path root name =
    let full =
      print_path (normal_from (parts name) (normal_from root [])) (ends_open (parts name)) in
    let base = print_directory (normal_from root []) in
    if starts_with (b'/' ∷ []) name
    then none
    else if any_of is_climb (parts name)
    then none
    else if not (starts_with base full)
    then none
    else some full

-- `SafeEntryPath`.
unfoldable pub safe_entry_path : List Bytes → Bytes → Option Bytes
unfolding safe_path
safe_entry_path root name = if is_nil name then none else safe_path root name
