-- ===== src/Zip/Examples.antt =====
-- The theorems about archives at a concrete directory.
use openpak_client.Shared.{
  ℕ, ◌<◌, ◌≡◌, refl, Bool, true, ◌||◌, Option, none, some, List, [], ◌∷◌, arith, if◌then◌else◌,
  length, any_of, All, starts_with, ends_with, Bytes, bytes_eq, codes,
}
use openpak_client.Zip.Headers.{inside}
use openpak_client.Zip.Paths.{parts, is_climb, normal_from, ends_open, print_path, safe_path}
use openpak_client.Zip.Paths.Landing.{named, onto, safe_path-named}
use openpak_client.Zip.{File, packed, sorted, zip_directory, unzip_to_directory}
use openpak_client.Zip.Bounds.{IsInside, unzip_to_directory-IsInside}
use openpak_client.Zip.Containment.{place, IsUnder, unzip_to_directory-IsUnder}
use openpak_client.Zip.RoundTrip.{IsPlain, placed, unzip_to_directory-zip_directory}

abbrev no_inflate : Bytes → ℕ → Option Bytes
no_inflate bytes size = none

abbrev writes : Bytes → Bool
writes path = true

abbrev root : List Bytes
root = codes "saves" ∷ codes "a" ∷ []

abbrev files : List File
files =
    record { name = codes "b"; contents = some (1 ∷ 2 ∷ []) }
    ∷ record { name = codes "a/c"; contents = some (3 ∷ []) }
    ∷ record { name = codes "d"; contents = none }
    ∷ []

abbrev packed_files : List (Bytes × Bytes)
packed_files = (codes "a/c", 3 ∷ []) ∷ (codes "b", 1 ∷ 2 ∷ []) ∷ []

packed_lem : packed (sorted files) ≡ packed_files
unfolding sorted parts
packed_lem = refl

plain : All IsPlain (packed (sorted files))
unfolding parts starts_with ends_with bytes_eq
plain =
    rw packed_lem
      ((omega arith, refl, refl, refl, refl), ((omega arith, refl, refl, refl, refl), tt))

few : length (packed (sorted files)) < 65536
few = rw packed_lem (omega arith)

total : length (zip_directory (some files)) < 4294967296
unfolding zip_directory sorted parts
total = omega arith

unzip_to_directory-zip_directory_example :
    unzip_to_directory no_inflate root writes true (zip_directory (some files))
    ≡ inside (placed root (packed (sorted files)), true)
unzip_to_directory-zip_directory_example =
    unzip_to_directory-zip_directory no_inflate root writes files (λ path. refl) plain few total

unzip_to_directory-IsInside_example :
    IsInside (unzip_to_directory no_inflate root writes true (80 ∷ 75 ∷ 3 ∷ []))
unzip_to_directory-IsInside_example =
    unzip_to_directory-IsInside no_inflate (80 ∷ 75 ∷ 3 ∷ []) root writes true

unzip_to_directory-IsUnder_example :
    All (λ e. IsUnder root (place e)) (placed root (packed (sorted files)))
unzip_to_directory-IsUnder_example =
    unzip_to_directory-IsUnder no_inflate root (zip_directory (some files)) writes true true
      (placed root (packed (sorted files))) unzip_to_directory-zip_directory_example

safe_path-named_example : safe_path root (codes "x/../../b") ≡ (
    if starts_with (codes "/") (codes "x/../../b") || any_of is_climb (parts (codes "x/../../b"))
    then none
    else some (
        print_path
          (onto (named (parts (codes "x/../../b"))) (normal_from root []))
          (ends_open (parts (codes "x/../../b")))))
safe_path-named_example = safe_path-named root (codes "x/../../b")

landing : safe_path root (codes "x//./b") ≡ some (codes "/saves/a/x/b")
unfolding safe_path bytes_eq
landing = refl
