-- ===== src/Bcat/Examples.antt =====
-- The theorems about the data of a title at a concrete manifest.
use openpak_client.Shared.{
  ◌≡◌, refl, true, false, Option, none, some, List, [], ◌∷◌, ◌++◌, is_nil, Bytes, bytes_eq, codes,
  text_eq, if◌then◌else◌,
}
use openpak_client.Shared.Int.{ℤ, pos}
use openpak_client.Shared.Disk.{Disk}
use openpak_client.Network.Json.{Json, object, array, text, member, end, cons, nil}
use openpak_client.Bcat.{File, dataset, valid_name, split, in_window, entries_of, gather, fetch}
use openpak_client.Bcat.Names.{split_iff}
use openpak_client.Bcat.Keeping.{fetch-offline}

split_iff_example :
    (split (codes "a/b") ≡ some (codes "a", codes "b")
      → (codes "a/b" ≡ codes "a" ++ b'/' ∷ codes "b")
        × (valid_name (codes "a") ≡ true)
        × (valid_name (codes "b") ≡ true))
    × ((codes "a/b" ≡ codes "a" ++ b'/' ∷ codes "b")
          × (valid_name (codes "a") ≡ true)
          × (valid_name (codes "b") ≡ true)
        → split (codes "a/b") ≡ some (codes "a", codes "b"))
split_iff_example = split_iff (codes "a/b") (codes "a") (codes "b")

abbrev manifest : Json
manifest = object (
    member (codes "files")
      (array (
        cons
          (object (
            member (codes "path") (text (codes "a/b")) (
              member (codes "url") (text (codes "u"))
                (member (codes "sha256") (text (codes "AB")) end))))
          nil))
      end)

abbrev parse : Bytes → Option Json
parse b = if is_nil b then none else some manifest

abbrev hash : Bytes → Bytes
hash b = codes "ab"

abbrev no_time : Bytes → Option ℤ
no_time t = none

abbrev serve : Bytes → Option Bytes
serve url = some (codes "news")

abbrev blank : Disk
blank = record { files = []; refuses = λ p. false }

abbrev news : List File
news = record { directory = codes "a"; name = codes "b"; contents = codes "news" } ∷ []

opened : (t : ℤ) → in_window parse hash no_time (codes "{}") t ≡ true
unfolding in_window openpak_client.Network.Json.member_of bytes_eq
opened t = refl

gathered : gather parse hash no_time serve (entries_of parse hash no_time (codes "{}")) ≡ some news
unfolding gather entries_of openpak_client.Network.Json.member_of bytes_eq
    openpak_client.Shared.cut_at openpak_client.Platform.to_lower
gathered = refl

fetch-offline_example :
    let first =
      fetch parse hash no_time serve (codes "cache") 7 (some (200, codes "{}")) (pos 1) blank in
    (first.1 ≡ dataset news)
    × (fetch parse hash no_time serve (codes "cache") 7 none (pos 2) first.0
        ≡ (first.0, dataset news))
fetch-offline_example =
    fetch-offline parse hash no_time serve (codes "cache") 7 (codes "{}") (pos 1) (pos 2) blank news
      (λ p. refl) refl (opened (pos 1)) (opened (pos 2)) gathered (tt, tt)
