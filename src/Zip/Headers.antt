-- ===== src/Zip/Headers.antt =====
-- The packed structs of zip_store.cpp, as bytes and back, and the copies out of an archive. A copy that is
-- not inside the archive is an outcome of its own, where the code would read memory that is not the archive's.
use openpak_client.Shared.{ℕ, ◌+◌, ◌++◌, leb, if◌then◌else◌, length, take, drop, Bytes}
use openpak_client.Zip.Words.{get16, rest16, get32, rest32, put16, put32}

pub record LocalHeader : Type 0 where
  pub signature : ℕ
  pub version : ℕ
  pub flags : ℕ
  pub method : ℕ
  pub mod_time : ℕ
  pub mod_date : ℕ
  pub crc32 : ℕ
  pub compressed_size : ℕ
  pub uncompressed_size : ℕ
  pub name_length : ℕ
  pub extra_length : ℕ

pub record CentralEntry : Type 0 where
  pub signature : ℕ
  pub version_made : ℕ
  pub version_needed : ℕ
  pub flags : ℕ
  pub method : ℕ
  pub mod_time : ℕ
  pub mod_date : ℕ
  pub crc32 : ℕ
  pub compressed_size : ℕ
  pub uncompressed_size : ℕ
  pub name_length : ℕ
  pub extra_length : ℕ
  pub comment_length : ℕ
  pub disk_start : ℕ
  pub internal_attrs : ℕ
  pub external_attrs : ℕ
  pub local_offset : ℕ

pub record EndOfCentral : Type 0 where
  pub signature : ℕ
  pub disk : ℕ
  pub dir_disk : ℕ
  pub entries_on_disk : ℕ
  pub entries : ℕ
  pub dir_size : ℕ
  pub dir_offset : ℕ
  pub comment_length : ℕ

-- `AppendStruct` of each.
abbrev pub local_bytes : LocalHeader → Bytes
local_bytes h =
    put32 h.signature
    ++ put16 h.version
    ++ put16 h.flags
    ++ put16 h.method
    ++ put16 h.mod_time
    ++ put16 h.mod_date
    ++ put32 h.crc32
    ++ put32 h.compressed_size
    ++ put32 h.uncompressed_size
    ++ put16 h.name_length
    ++ put16 h.extra_length

abbrev pub central_bytes : CentralEntry → Bytes
central_bytes c =
    put32 c.signature
    ++ put16 c.version_made
    ++ put16 c.version_needed
    ++ put16 c.flags
    ++ put16 c.method
    ++ put16 c.mod_time
    ++ put16 c.mod_date
    ++ put32 c.crc32
    ++ put32 c.compressed_size
    ++ put32 c.uncompressed_size
    ++ put16 c.name_length
    ++ put16 c.extra_length
    ++ put16 c.comment_length
    ++ put16 c.disk_start
    ++ put16 c.internal_attrs
    ++ put32 c.external_attrs
    ++ put32 c.local_offset

abbrev pub eocd_bytes : EndOfCentral → Bytes
eocd_bytes e =
    put32 e.signature
    ++ put16 e.disk
    ++ put16 e.dir_disk
    ++ put16 e.entries_on_disk
    ++ put16 e.entries
    ++ put32 e.dir_size
    ++ put32 e.dir_offset
    ++ put16 e.comment_length

abbrev pub local_of : Bytes → LocalHeader
local_of s =
    let s1 = rest32 s in
    let s2 = rest16 s1 in
    let s3 = rest16 s2 in
    let s4 = rest16 s3 in
    let s5 = rest16 s4 in
    let s6 = rest16 s5 in
    let s7 = rest32 s6 in
    let s8 = rest32 s7 in
    let s9 = rest32 s8 in
    record {
      signature = get32 s;
      version = get16 s1;
      flags = get16 s2;
      method = get16 s3;
      mod_time = get16 s4;
      mod_date = get16 s5;
      crc32 = get32 s6;
      compressed_size = get32 s7;
      uncompressed_size = get32 s8;
      name_length = get16 s9;
      extra_length = get16 (rest16 s9);
    }

abbrev pub central_of : Bytes → CentralEntry
central_of s =
    let s1 = rest32 s in
    let s2 = rest16 s1 in
    let s3 = rest16 s2 in
    let s4 = rest16 s3 in
    let s5 = rest16 s4 in
    let s6 = rest16 s5 in
    let s7 = rest16 s6 in
    let s8 = rest32 s7 in
    let s9 = rest32 s8 in
    let s10 = rest32 s9 in
    let s11 = rest16 s10 in
    let s12 = rest16 s11 in
    let s13 = rest16 s12 in
    let s14 = rest16 s13 in
    let s15 = rest16 s14 in
    record {
      signature = get32 s;
      version_made = get16 s1;
      version_needed = get16 s2;
      flags = get16 s3;
      method = get16 s4;
      mod_time = get16 s5;
      mod_date = get16 s6;
      crc32 = get32 s7;
      compressed_size = get32 s8;
      uncompressed_size = get32 s9;
      name_length = get16 s10;
      extra_length = get16 s11;
      comment_length = get16 s12;
      disk_start = get16 s13;
      internal_attrs = get16 s14;
      external_attrs = get32 s15;
      local_offset = get32 (rest32 s15);
    }

abbrev pub eocd_of : Bytes → EndOfCentral
eocd_of s =
    let s1 = rest32 s in
    let s2 = rest16 s1 in
    let s3 = rest16 s2 in
    let s4 = rest16 s3 in
    let s5 = rest16 s4 in
    let s6 = rest32 s5 in
    record {
      signature = get32 s;
      disk = get16 s1;
      dir_disk = get16 s2;
      entries_on_disk = get16 s3;
      entries = get16 s4;
      dir_size = get32 s5;
      dir_offset = get32 s6;
      comment_length = get16 (rest32 s6);
    }

abbrev pub local_size : ℕ
local_size = 30

abbrev pub central_size : ℕ
central_size = 46

abbrev pub eocd_size : ℕ
eocd_size = 22

abbrev pub local_signature : ℕ
local_signature = 0x04034b50

abbrev pub central_signature : ℕ
central_signature = 0x02014b50

abbrev pub eocd_signature : ℕ
eocd_signature = 0x06054b50

abbrev pub store_method : ℕ
store_method = 0

abbrev pub deflate_method : ℕ
deflate_method = 8

-- What was read, or an access outside the archive.
pub data Access {ℓ} (A : Type ℓ) : Type ℓ where
  inside : A → Access A
  outside : Access A

infixl 5 ◌>>=◌
abbrev pub ◌>>=◌ {ℓ κ} : {A : Type ℓ} {B : Type κ} → Access A → (A → Access B) → Access B
inside a >>= f = f a
outside >>= f = outside

-- The bytes of a length at a place, as `memcpy` and the readers of `data` take them.
abbrev pub memcpy : Bytes → ℕ → ℕ → Access Bytes
memcpy zip at size =
    if leb (at + size) (length zip) then inside (take size (drop at zip)) else outside
