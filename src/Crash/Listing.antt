-- ===== src/Crash/Listing.antt =====
-- The directory of crash_reports.cpp as it lists reports, and taking them out of it.
use openpak_client.Shared.{
  ◌-◌, Bool, true, false, not, ◌&&◌, List, [], ◌∷◌, ◌++◌, map, ltb, ◌==◌, if◌then◌else◌, length,
  take, drop, keep_if, is_some, cut_at, starts_with, ends_with, Bytes, codes, text_eq,
}
use openpak_client.Shared.Disk.{Disk, remove_file}

pub record Report : Type 0 where
  pub meta_path : Bytes
  pub attachment_path : Bytes
  pub message : Bytes

-- The paths of the directory whose extension is the one wanted.
abbrev pub has_extension : Bytes → Bytes → Bytes → Bool
has_extension dir extension path =
    let base = dir ++ b'/' ∷ [] in
    let name = drop (length base) path in
    starts_with base path
    && not (is_some (cut_at b'/' name))
    && ends_with extension name
    && ltb (length extension) (length name)

abbrev pub listed : Bytes → Bytes → Disk → List Bytes
listed dir extension disk = keep_if (has_extension dir extension) (map (λ f. f.0) disk.files)

-- `std::sort` of paths of one directory: by their names.
unfoldable pub path_less : Bytes → Bytes → Bool
path_less [] [] = false
path_less [] (d ∷ ds) = true
path_less (c ∷ cs) [] = false
path_less (c ∷ cs) (d ∷ ds) = if c == d then path_less cs ds else ltb c d

unfoldable pub insert_path : Bytes → List Bytes → List Bytes
unfolding path_less
insert_path p [] = p ∷ []
insert_path p (q ∷ qs) = if path_less p q then p ∷ (q ∷ qs) else q ∷ insert_path p qs

unfoldable pub sort_paths : List Bytes → List Bytes
unfolding insert_path
sort_paths [] = []
sort_paths (p ∷ ps) = insert_path p (sort_paths ps)

-- `replace_extension(".log")` of a path that ends in `.json`.
abbrev pub attachment_of : Bytes → Bytes
attachment_of meta = take (length meta - 5) meta ++ codes ".log"

abbrev pub report_of : Bytes → Bytes → Report
report_of meta message = record {
  meta_path = meta;
  attachment_path = attachment_of meta;
  message = message;
}

-- `remove` of a file; the system does not let go of those that are `stuck`.
abbrev pub remove_unless : (Bytes → Bool) → Bytes → Disk → Disk
remove_unless stuck p d = if stuck p then d else remove_file d p

-- `Discard`.
abbrev pub discard : (Bytes → Bool) → Report → Disk → Disk
discard stuck r d = remove_unless stuck r.attachment_path (remove_unless stuck r.meta_path d)

abbrev pub discard_each : (Bytes → Bool) → List Report → Disk → Disk
discard_each stuck [] d = d
discard_each stuck (r ∷ rs) d = discard_each stuck rs (discard stuck r d)

-- A `std::map` of texts: in the order of the keys, the first of two with one key.
unfoldable pub insert_field : Bytes × Bytes → List (Bytes × Bytes) → List (Bytes × Bytes)
unfolding path_less
insert_field f [] = f ∷ []
insert_field f (g ∷ gs) =
    let rest = insert_field f gs in
    if path_less f.0 g.0 then f ∷ g ∷ gs else if path_less g.0 f.0 then g ∷ rest else f ∷ gs

unfoldable pub field_map : List (Bytes × Bytes) → List (Bytes × Bytes)
unfolding insert_field
field_map [] = []
field_map (f ∷ fs) = insert_field f (field_map fs)
