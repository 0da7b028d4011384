-- ===== src/Zip.antt =====
-- client/openpak/zip_store.cpp and safe_entry_path.h: the archives that carry saves. The regular files of
-- a directory and the calls that fail are inputs; `Inflate` is an argument, since zlib does it. `size_t` has
-- 64 bits.
pub mod Words
pub mod Headers
pub mod Paths
pub mod Bounds
pub mod Containment
pub mod RoundTrip
mod Examples
use openpak_client.Shared.{
  ℕ, zero, suc, ◌+◌, ◌^◌, ◌%◌, ◌-◌, Bool, true, false, not, Option, none, some, List, [], ◌∷◌, ◌++◌,
  ltb, leb, ◌==◌, if◌then◌else◌, length, is_nil, ends_with, Bytes,
}
use openpak_client.Zip.Words.{get32, crc32}
use openpak_client.Zip.Headers.{
  LocalHeader, CentralEntry, local_bytes, central_bytes, eocd_bytes, local_of, central_of, eocd_of,
  Access, inside, ◌>>=◌, memcpy, local_signature, central_signature, eocd_signature, store_method,
  deflate_method, local_size, central_size, eocd_size,
}
use openpak_client.Zip.Paths.{parts, safe_path}

-- A regular file under the directory: its path from there, and its bytes if it can be read.
pub record File : Type 0 where
  pub name : Bytes
  pub contents : Option Bytes

-- `operator<` of two paths: of their parts, the first that differs.
bytes_less : Bytes → Bytes → Bool
bytes_less [] [] = false
bytes_less [] (d ∷ ds) = true
bytes_less (c ∷ cs) [] = false
bytes_less (c ∷ cs) (d ∷ ds) = if c == d then bytes_less cs ds else ltb c d

parts_less : List Bytes → List Bytes → Bool
unfolding bytes_less
parts_less [] [] = false
parts_less [] (d ∷ ds) = true
parts_less (c ∷ cs) [] = false
parts_less (c ∷ cs) (d ∷ ds) =
    if bytes_less c d then true else if bytes_less d c then false else parts_less cs ds

insert_file : File → List File → List File
unfolding parts_less
insert_file f [] = f ∷ []
insert_file f (g ∷ gs) =
    if parts_less (parts f.name) (parts g.name) then f ∷ (g ∷ gs) else g ∷ insert_file f gs

-- `std::sort`; no two files of a directory have one path.
pub sorted : List File → List File
unfolding insert_file
sorted [] = []
sorted (f ∷ fs) = insert_file f (sorted fs)

-- The files that the loop does not pass over.
abbrev pub packed : List File → List (Bytes × Bytes)
packed [] = []
packed (f ∷ fs) = elim f.contents [
  | none ↦ packed fs
  | some c ↦ if is_nil f.name then packed fs else (f.name, c) ∷ packed fs
]

pub record Entry : Type 0 where
  pub name : Bytes
  pub crc : ℕ
  pub size : ℕ
  pub local_offset : ℕ

abbrev pub entry_for : Bytes → Bytes → ℕ → Entry
entry_for name contents offset = record {
  name = name;
  crc = crc32 contents;
  size = length contents % 2 ^ 32;
  local_offset = offset;
}

abbrev pub local_for : Entry → LocalHeader
local_for e = record {
  signature = local_signature;
  version = 20;
  flags = 0;
  method = store_method;
  mod_time = 0;
  mod_date = 0;
  crc32 = e.crc;
  compressed_size = e.size;
  uncompressed_size = e.size;
  name_length = length e.name % 2 ^ 16;
  extra_length = 0;
}

abbrev pub central_for : Entry → CentralEntry
central_for e = record {
  signature = central_signature;
  version_made = 20;
  version_needed = 20;
  flags = 0;
  method = store_method;
  mod_time = 0;
  mod_date = 0;
  crc32 = e.crc;
  compressed_size = e.size;
  uncompressed_size = e.size;
  name_length = length e.name % 2 ^ 16;
  extra_length = 0;
  comment_length = 0;
  disk_start = 0;
  internal_attrs = 0;
  external_attrs = 0;
  local_offset = e.local_offset % 2 ^ 32;
}

-- The two loops of `ZipDirectory`, each with what it has written so far.
pub write_locals : List (Bytes × Bytes) → Bytes → Bytes × List Entry
write_locals [] out = (out, [])
write_locals ((name, contents) ∷ files) out =
    let e = entry_for name contents (length out) in
    let (written, entries) =
      write_locals files (out ++ (local_bytes (local_for e) ++ (name ++ contents))) in
    (written, e ∷ entries)

pub write_central : List Entry → Bytes → Bytes
write_central [] out = out
write_central (e ∷ es) out = write_central es (out ++ (central_bytes (central_for e) ++ e.name))

-- `ZipDirectory`; none is no directory.
unfoldable pub zip_directory : Option (List File) → Bytes
unfolding sorted write_locals write_central
zip_directory none = []
zip_directory (some files) =
    let (locals, entries) = write_locals (packed (sorted files)) [] in
    let out = write_central entries locals in
    out
    ++ eocd_bytes (record {
      signature = eocd_signature;
      disk = 0;
      dir_disk = 0;
      entries_on_disk = length entries % 2 ^ 16;
      entries = length entries % 2 ^ 16;
      dir_size = (length out - length locals) % 2 ^ 32;
      dir_offset = length locals % 2 ^ 32;
      comment_length = 0;
    })

-- Whether the record that ends the directory is at a place.
pub ends_at : Bytes → ℕ → Access Bool
ends_at zip at = memcpy zip at 4 >>= λ signature.
    if get32 signature == eocd_signature
    then memcpy zip at eocd_size
      >>= (λ b. inside (leb (at + eocd_size + (eocd_of b).comment_length) (length zip)))
    else inside false

-- The scan back for it.
pub find_eocd : Bytes → ℕ → Access (Option ℕ)
unfolding ends_at
find_eocd zip zero = ends_at zip zero >>= λ found. inside (if found then some zero else none)
find_eocd zip (suc at) = ends_at zip (suc at) >>= λ found.
    let rest = find_eocd zip at in if found then inside (some (suc at)) else rest

-- What is made of an answer that may not be there.
abbrev pub on_some {ℓ κ} : {A : Type ℓ} {B : Type κ} → B → (A → B) → Option A → B
on_some b f none = b
on_some b f (some a) = f a

-- What an entry asks for, and what else is done for a file: the folders above it are made, and where the
-- file cannot be opened or written whole, what stands at its path may be a part of it.
pub data Effect : Type 0 where
  directory : Bytes → Effect
  file : Bytes → Bytes → Effect
  parents partial : Bytes → Effect

module _ (inflate : Bytes → ℕ → Option Bytes) where
  -- The bytes of an entry.
  pub read_data : Bytes → CentralEntry → Access (Option Bytes)
  read_data zip c =
      if ltb (length zip) (c.local_offset + local_size)
      then inside none
      else memcpy zip c.local_offset local_size >>= (λ b.
        let h = local_of b in
        let at = c.local_offset + local_size + h.name_length + h.extra_length in
        if not (h.signature == local_signature)
        then inside none
        else if ltb (length zip) (at + c.compressed_size)
        then inside none
        else memcpy zip at c.compressed_size >>= (λ bytes.
          if c.method == deflate_method
          then inside (inflate bytes c.uncompressed_size)
          else if c.method == store_method
          then inside (some bytes)
          else inside none))

  module _ (root : List Bytes) where
    -- What an entry of the directory asks for, behind its fixed part, and where the next one stands.
    pub read_named : Bytes → CentralEntry → ℕ → Access (Option (Effect × ℕ))
    unfolding read_data
    read_named zip c at =
        let next = at + c.name_length + c.extra_length + c.comment_length in
        if not (c.signature == central_signature)
        then inside none
        else if ltb (length zip) next
        then inside none
        else memcpy zip at c.name_length >>= (λ name.
          if is_nil name
          then inside none
          else on_some (inside none)
              (λ path.
                if ends_with (b'/' ∷ []) name
                then inside (some (directory path, next))
                else read_data zip c
                  >>= on_some (inside none) (λ bytes. inside (some (file path bytes, next))))
              (safe_path root name))

    pub read_entry : Bytes → ℕ → Access (Option (Effect × ℕ))
    unfolding read_named
    read_entry zip at =
        if ltb (length zip) (at + central_size)
        then inside none
        else memcpy zip at central_size >>= (λ b. read_named zip (central_of b) (at + central_size))

    module _ (writes : Bytes → Bool) where
      -- Whether the loop goes on behind an entry: a folder that cannot be made does not end it.
      abbrev pub done : Effect → Bool
      done (directory path) = true
      done (file path contents) = writes path
      done (parents path) = true
      done (partial path) = false

      -- What the loop does for an entry.
      abbrev pub trace : Effect → List Effect
      trace (directory path) = directory path ∷ []
      trace (file path contents) =
          parents path ∷ (if writes path then file path contents else partial path) ∷ []
      trace (parents path) = parents path ∷ []
      trace (partial path) = partial path ∷ []

      -- The loop over the entries: what was done before it ended, and whether all of it was.
      pub extract : Bytes → ℕ → ℕ → Access (List Effect × Bool)
      unfolding read_entry
      extract zip zero at = inside ([], true)
      extract zip (suc n) at =
          read_entry zip at
          >>= on_some (inside ([], false)) (λ step.
            let rest = extract zip n step.1 in
            if done step.0
            then rest >>= (λ r. inside (trace step.0 ++ r.0, r.1))
            else inside (trace step.0, false))

      -- `UnzipToDirectory`, with whether its folder can be made.
      unfoldable pub unzip_to_directory : Bool → Bytes → Access (List Effect × Bool)
      unfolding extract find_eocd
      unzip_to_directory made zip =
          if ltb (length zip) eocd_size
          then inside ([], false)
          else find_eocd zip (length zip - eocd_size)
            >>= on_some (inside ([], false)) (λ at. memcpy zip at eocd_size >>= (λ b.
              let e = eocd_of b in
              if ltb at ((e.dir_offset + e.dir_size) % 2 ^ 32)
              then inside ([], false)
              else if not made
              then inside ([], false)
              else extract zip e.entries e.dir_offset))
