-- ===== src/Zip/RoundTrip.antt =====
-- What is zipped is what comes out.
pub mod Reading
use openpak_client.Shared.{
  ℕ, zero, suc, ◌+◌, ◌-◌, ◌%◌, ◌^◌, ◌<◌, ◌≡◌, refl, sym, ap, ◌∙◌, Bool, true, false, Option, some,
  List, [], ◌∷◌, ◌++◌, arith, append_assoc, append-nil, leb, ltb, length, length-append, take,
  is_nil, any_of, All, starts_with, ends_with, Bytes,
}
use openpak_client.Zip.Headers.{
  EndOfCentral, central_bytes, eocd_bytes, eocd_of, inside, memcpy, eocd_signature, eocd_size,
  central_size,
}
use openpak_client.Zip.Paths.{parts, is_climb, normal_from, ends_open, print_path, safe_path}
use openpak_client.Zip.Paths.Landing.{named, onto, safe_path-named}
use openpak_client.Zip.{
  File, Entry, entry_for, central_for, sorted, packed, write_locals, write_central, zip_directory,
  ends_at, find_eocd, Effect, file, parents, read_entry, extract, unzip_to_directory,
}
use openpak_client.Zip.RoundTrip.Reading.{memcpy-behind, block, read_entry-block}

abbrev locals : List (Bytes × Bytes) → Bytes
locals [] = []
locals ((name, contents) ∷ files) = block name contents ++ locals files

abbrev entries_of : List (Bytes × Bytes) → ℕ → List Entry
entries_of [] offset = []
entries_of ((name, contents) ∷ files) offset =
    entry_for name contents offset ∷ entries_of files (offset + length (block name contents))

abbrev centrals : List Entry → Bytes
centrals [] = []
centrals (e ∷ es) = (central_bytes (central_for e) ++ e.name) ++ centrals es

write_locals_lem :
    (files : List (Bytes × Bytes)) (out : Bytes)
    → write_locals files out ≡ (out ++ locals files, entries_of files (length out))
unfolding write_locals
write_locals_lem [] out = ap (λ t. (t, [])) (sym (append-nil out))
write_locals_lem ((name, contents) ∷ files) out =
    let e = entry_for name contents (length out) in
    let b = block name contents in
    let rest = write_locals_lem files (out ++ b) in
    ap (λ t. (t.0, e ∷ t.1)) rest
    ∙ (ap (λ t. (t, e ∷ entries_of files (length (out ++ b)))) (append_assoc out b (locals files))
        ∙ ap (λ n. (out ++ (b ++ locals files), e ∷ entries_of files n)) (length-append out b))

write_central_lem : (es : List Entry) (out : Bytes) → write_central es out ≡ out ++ centrals es
unfolding write_central
write_central_lem [] out = sym (append-nil out)
write_central_lem (e ∷ es) out =
    let b = central_bytes (central_for e) ++ e.name in
    write_central_lem es (out ++ b) ∙ append_assoc out b (centrals es)

length-entries_of :
    (files : List (Bytes × Bytes)) (offset : ℕ) → length (entries_of files offset) ≡ length files
length-entries_of [] offset = refl
length-entries_of ((name, contents) ∷ files) offset =
    ap suc (length-entries_of files (offset + length (block name contents)))

-- Where a name lands.
abbrev pub place_of : List Bytes → Bytes → Bytes
place_of root name =
    print_path (onto (named (parts name)) (normal_from root [])) (ends_open (parts name))

-- A file's name: the path from the directory, whose length fits its field.
abbrev pub IsPlain : Bytes × Bytes → Type 0
IsPlain (name, contents) =
    (length name < 65536)
    × (is_nil name ≡ false)
    × (starts_with (b'/' ∷ []) name ≡ false)
    × (ends_with (b'/' ∷ []) name ≡ false)
    × (any_of is_climb (parts name) ≡ false)

abbrev pub placed : List Bytes → List (Bytes × Bytes) → List Effect
placed root [] = []
placed root ((name, contents) ∷ files) =
    parents (place_of root name) ∷ file (place_of root name) contents ∷ placed root files

module _ (inflate : Bytes → ℕ → Option Bytes) (root : List Bytes) (writes : Bytes → Bool)
    (zip : Bytes) where
  extract-step :
      (n at next : ℕ) (path contents : Bytes) (es : List Effect)
      → writes path ≡ true
      → read_entry inflate root zip at ≡ inside (some (file path contents, next))
      → extract inflate root writes zip n next ≡ inside (es, true)
      → extract inflate root writes zip (suc n) at
        ≡ inside (parents path ∷ file path contents ∷ es, true)
  unfolding extract
  extract-step n at next path contents es w h k = rw (h, w, k, extract) refl

  extract-locals :
      (files : List (Bytes × Bytes)) (pre rest front behind : Bytes)
      → ((path : Bytes) → writes path ≡ true)
      → length zip < 4294967296
      → All IsPlain files
      → zip ≡ pre ++ (locals files ++ rest)
      → zip ≡ front ++ (centrals (entries_of files (length pre)) ++ behind)
      → extract inflate root writes zip (length files) (length front)
        ≡ inside (placed root files, true)
  unfolding extract
  extract-locals [] pre rest front behind w total h e f = refl
  extract-locals ((name, contents) ∷ files) pre rest front behind w total
        ((small, hnil, habs, hend, hclimb), hs) e f =
      let b = block name contents in
      let c = central_bytes (central_for (entry_for name contents (length pre))) in
      let es = entries_of files (length pre + length b) in
      let lands : safe_path root name ≡ some (place_of root name) =
        safe_path-named root name ∙ rw (habs, hclimb) refl in
      let e1 : zip ≡ pre ++ (b ++ (locals files ++ rest)) =
        e ∙ ap (λ t. pre ++ t) (append_assoc b (locals files) rest) in
      let f1 : zip ≡ front ++ ((c ++ name) ++ (centrals es ++ behind)) =
        f ∙ ap (λ t. front ++ t) (append_assoc (c ++ name) (centrals es) behind) in
      let f2 : zip ≡ front ++ (c ++ (name ++ (centrals es ++ behind))) =
        f1 ∙ ap (λ t. front ++ t) (append_assoc c name (centrals es ++ behind)) in
      let next : length (front ++ (c ++ name)) ≡ length front + central_size + length name =
        omega (arith, length-append front (c ++ name), length-append c name) in
      extract-step (length files) (length front) (length front + central_size + length name)
        (place_of root name) contents (placed root files) (w (place_of root name))
        (read_entry-block inflate zip root name contents (place_of root name) pre
          (locals files ++ rest) front (centrals es ++ behind) e1 f2 total small hnil hend lands)
        (ap (extract inflate root writes zip (length files)) (sym next)
          ∙ extract-locals files (pre ++ b) rest (front ++ (c ++ name)) behind w total hs
              (e1 ∙ sym (append_assoc pre b (locals files ++ rest)))
              (f1
                ∙ (sym (append_assoc front (c ++ name) (centrals es ++ behind))
                    ∙ ap (λ n. (front ++ (c ++ name)) ++ (centrals (entries_of files n) ++ behind))
                        (sym (length-append pre b)))))

abbrev end_of : List (Bytes × Bytes) → EndOfCentral
end_of files = record {
  signature = eocd_signature;
  disk = 0;
  dir_disk = 0;
  entries_on_disk = length files % 2 ^ 16;
  entries = length files % 2 ^ 16;
  dir_size = length (centrals (entries_of files 0)) % 2 ^ 32;
  dir_offset = length (locals files) % 2 ^ 32;
  comment_length = 0;
}

zip_directory_lem :
    (files : List File)
    → let ps = packed (sorted files) in
      zip_directory (some files)
      ≡ (locals ps ++ centrals (entries_of ps 0)) ++ eocd_bytes (end_of ps)
unfolding zip_directory
zip_directory_lem files =
    let ps = packed (sorted files) in
    let l = locals ps in
    let c = centrals (entries_of ps 0) in
    let size : length (l ++ c) - length l ≡ length c = omega (arith, length-append l c) in
    rw (write_locals_lem ps [], write_central_lem (entries_of ps 0) l, length-entries_of ps 0, size)
      refl

find_eocd-ends :
    (zip : Bytes) (at : ℕ) → ends_at zip at ≡ inside true → find_eocd zip at ≡ inside (some at)
unfolding find_eocd
find_eocd-ends zip zero h = rw h refl
find_eocd-ends zip (suc at) h = rw (h, find_eocd) refl

ends_at-eocd :
    (zip pre : Bytes) (files : List (Bytes × Bytes))
    → zip ≡ pre ++ eocd_bytes (end_of files)
    → (ends_at zip (length pre) ≡ inside true)
      × (memcpy zip (length pre) eocd_size ≡ inside (eocd_bytes (end_of files)))
unfolding ends_at
ends_at-eocd zip pre files e =
    let b = eocd_bytes (end_of files) in
    let whole : leb (length pre + eocd_size + (eocd_of b).comment_length) (length zip) ≡ true =
      ground (arith, ap length e, length-append pre b) in
    let short : memcpy zip (length pre) 4 ≡ inside (take 4 b) =
      memcpy-behind zip pre b (length pre) 4 e refl (omega arith) in
    let full : memcpy zip (length pre) eocd_size ≡ inside b =
      memcpy-behind zip pre b (length pre) eocd_size e refl (omega arith) in
    (rw (short, full, whole) refl, full)

-- An archive of files that fit the format's fields, whose names are paths below the directory, is extracted
-- whole where every call succeeds: each file's bytes land at its name, in the order of the sort.
pub unzip_to_directory-zip_directory :
    (inflate : Bytes → ℕ → Option Bytes) (root : List Bytes) (writes : Bytes → Bool)
    (files : List File)
    → ((path : Bytes) → writes path ≡ true)
    → All IsPlain (packed (sorted files))
    → length (packed (sorted files)) < 65536
    → length (zip_directory (some files)) < 4294967296
    → unzip_to_directory inflate root writes true (zip_directory (some files))
      ≡ inside (placed root (packed (sorted files)), true)
unfolding unzip_to_directory
unzip_to_directory-zip_directory inflate root writes files w h few total =
    let ps = packed (sorted files) in
    let zip = zip_directory (some files) in
    let l = locals ps in
    let c = centrals (entries_of ps 0) in
    let b = eocd_bytes (end_of ps) in
    let e : zip ≡ (l ++ c) ++ b = zip_directory_lem files in
    let e2 : zip ≡ l ++ (c ++ b) = e ∙ append_assoc l c b in
    let lz : length zip ≡ length l + length c + 22 =
      omega (arith, ap length e, length-append (l ++ c) b, length-append l c) in
    let large : ltb (length zip) eocd_size ≡ false = ground (arith, lz) in
    let at : length zip - eocd_size ≡ length (l ++ c) = omega (arith, lz, length-append l c) in
    let (ends, copied) = ends_at-eocd zip (l ++ c) ps e in
    let found = find_eocd-ends zip (length (l ++ c)) ends in
    let few_entries : (eocd_of b).entries ≡ length ps = omega (arith, few) in
    let starts : (eocd_of b).dir_offset ≡ length l = omega (arith, lz, total) in
    let inside_it : ltb (length (l ++ c)) (((eocd_of b).dir_offset + (eocd_of b).dir_size) % 2 ^ 32)
        ≡ false =
      ground (arith, lz, total, length-append l c) in
    let files_come = extract-locals inflate root writes zip ps [] (c ++ b) l b w total h e2 e2 in
    rw (large, at, found, copied, inside_it, few_entries, starts) files_come
