-- ===== src/Shared/Disk.antt =====
-- The file system as the components see it: whole files by path, and the writes that fail.
-- A path is its POSIX text, and `path_append` is `operator/` of `std::filesystem::path`.
use mathlib.Core.Bool.{Bool, true, false, ◌||◌}
use mathlib.Core.List.{List, [], ◌∷◌, ◌++◌}
use mathlib.Core.Option.{Option, none, some}
use mathlib.Core.Path.{◌≡◌}
use mathlib.Core.Logic.{◌≢◌, inl, inr}
use native.Mathlib.Omega.{arith}
use openpak_client.Shared.Tests.{Bool-cases, Option-cases, if◌then◌else◌, value_or, is_some}
use openpak_client.Shared.Keys.{Bytes, bytes_eq, text_eq, bytes_eq_iff}
use openpak_client.Shared.Text.{starts_with, ends_with}
use openpak_client.Shared.Maps.{
  lookup, insert, remove, lookup-insert, lookup-remove, lookup-insert_self,
}

pub record Disk : Type 0 where
  pub files : List (Bytes × Bytes)
  -- The paths that cannot be opened for writing, or renamed to.
  pub refuses : Bytes → Bool

unfoldable pub path_append : Bytes → Bytes → Bytes
unfolding starts_with ends_with
path_append a b =
    if starts_with (b'/' ∷ []) b
    then b
    else if bytes_eq a [] || ends_with (b'/' ∷ []) a
    then a ++ b
    else a ++ (b'/' ∷ b)

abbrev pub file_at : Disk → Bytes → Option Bytes
file_at d p = lookup p d.files

unfoldable pub exists : Disk → Bytes → Bool
exists d p = is_some (file_at d p)

-- `Platform::ReadFile`: a missing file reads as the empty text.
unfoldable pub read_file : Disk → Bytes → Bytes
read_file d p = value_or (file_at d p) []

-- `Platform::WriteFile`, with whether it succeeded.
unfoldable pub write_file : Disk → Bytes → Bytes → Disk × Bool
write_file d p contents =
    if d.refuses p then (d, false) else (record d { files = insert p contents d.files }, true)

-- `std::filesystem::remove`.
unfoldable pub remove_file : Disk → Bytes → Disk
remove_file d p = record d { files = remove p d.files }

-- `std::filesystem::rename`, with whether it succeeded.
unfoldable pub rename_file : Disk → Bytes → Bytes → Disk × Bool
rename_file d a b = elim (file_at d a) [
  | none ↦ (d, false)
  | some c ↦
      if d.refuses b then (d, false) else (record d { files = insert b c (remove a d.files) }, true)
]

pub read-write :
    (d : Disk) (p q c : Bytes)
    → d.refuses p ≡ false
    → read_file (write_file d p c).0 q ≡ (if bytes_eq p q then c else read_file d q)
unfolding read_file write_file
read-write d p q c h = rw h (ground (arith, lookup-insert p q c d.files))

-- What an operation leaves alone: every other file, and which paths can be written.
pub ne_beq : (a b : Bytes) → a ≢ b → bytes_eq a b ≡ false
ne_beq a b h = elim (Bool-cases (bytes_eq a b)) [
  | inl e ↦ absurd (h ((bytes_eq_iff a b).0 e))
  | inr e ↦ e
]

pub file_at-write :
    (d : Disk) (p q c : Bytes) → p ≢ q → file_at (write_file d p c).0 q ≡ file_at d q
unfolding write_file
file_at-write d p q c h = ground (arith, lookup-insert p q c d.files, ne_beq p q h)

pub file_at-remove : (d : Disk) (p q : Bytes) → p ≢ q → file_at (remove_file d p) q ≡ file_at d q
unfolding remove_file
file_at-remove d p q h = ground (arith, lookup-remove p q d.files, ne_beq p q h)

pub file_at-rename :
    (d : Disk) (a b q : Bytes) → a ≢ q → b ≢ q → file_at (rename_file d a b).0 q ≡ file_at d q
unfolding rename_file
file_at-rename d a b q ha hb = elim (Option-cases (file_at d a)) [
  | inl e ↦ rw (e, rename_file)
  | inr (c, e) ↦
      rw (e, rename_file)
        (ground (
          arith,
          lookup-insert b q c (remove a d.files),
          lookup-remove a q d.files,
          ne_beq a q ha,
          ne_beq b q hb,
        ))
]

pub refuses-rename : (d : Disk) (a b : Bytes) → (rename_file d a b).0.refuses ≡ d.refuses
unfolding rename_file
refuses-rename d a b = elim (Option-cases (file_at d a)) [
  | inl e ↦ rw (e, rename_file)
  | inr (c, e) ↦ rw (e, rename_file) (ground arith)
]

pub refuses-write : (d : Disk) (p c : Bytes) → (write_file d p c).0.refuses ≡ d.refuses
unfolding write_file
refuses-write d p c = ground arith

pub file_at-write_self :
    (d : Disk) (p c : Bytes) → d.refuses p ≡ false → file_at (write_file d p c).0 p ≡ some c
unfolding write_file
file_at-write_self d p c h = rw h (lookup-insert_self p c d.files)
