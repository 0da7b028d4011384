-- ===== src/Zip/RoundTrip/Reading.antt =====
-- The parts of an archive that was written here, as the reader finds them.
use openpak_client.Shared.{
  ℕ, ◌+◌, ◌≤◌, ◌<◌, ◌≡◌, refl, sym, ap, ◌∙◌, true, false, Option, some, List, [], ◌∷◌, ◌++◌, arith,
  append_assoc, leb, ltb, length, length-append, take, take-append_length, drop-append_length,
  is_nil, ends_with, Bytes,
}
use openpak_client.Zip.Headers.{
  CentralEntry, local_bytes, central_bytes, local_of, central_of, inside, memcpy, central_signature,
  store_method, local_size, central_size,
}
use openpak_client.Zip.Paths.{safe_path}
use openpak_client.Zip.{file, entry_for, local_for, central_for, read_data, read_named, read_entry}

pub memcpy-behind :
    (zip pre s : Bytes) (at size : ℕ)
    → zip ≡ pre ++ s
    → at ≡ length pre
    → size ≤ length s
    → memcpy zip at size ≡ inside (take size s)
memcpy-behind zip pre s at size e h fits =
    let whole : leb (at + size) (length zip) ≡ true =
      ground (arith, ap length e, length-append pre s) in
    rw (whole, e, drop-append_length pre s at h) refl

-- A file, and its part of the archive.
abbrev pub block : Bytes → Bytes → Bytes
block name contents = local_bytes (local_for (entry_for name contents 0)) ++ (name ++ contents)

module _ (inflate : Bytes → ℕ → Option Bytes) (zip : Bytes) where
  read_data-block :
      (c : CentralEntry) (name contents pre rest : Bytes)
      → zip ≡ pre ++ (block name contents ++ rest)
      → c.local_offset ≡ length pre
      → c.compressed_size ≡ length contents
      → c.method ≡ store_method
      → length name < 65536
      → read_data inflate zip c ≡ inside (some contents)
  unfolding read_data
  read_data-block c name contents pre rest e ho hs hm hn =
      let b = local_bytes (local_for (entry_for name contents 0)) in
      let lz : length zip ≡ length pre + (30 + (length name + (length contents + length rest))) =
        omega (
          arith,
          ap length e,
          length-append pre (block name contents ++ rest),
          length-append (block name contents) rest,
          length-append name contents,
        ) in
      let fits : ltb (length zip) (length pre + local_size) ≡ false = ground (arith, lz) in
      let head : memcpy zip (length pre) local_size ≡ inside b =
        memcpy-behind zip pre (block name contents ++ rest) (length pre) local_size e refl
          (omega (arith, ap length e, lz, length-append pre (block name contents ++ rest))) in
      let at = length pre + local_size + (local_of b).name_length + (local_of b).extra_length in
      let named : at ≡ length (pre ++ (b ++ name)) =
        omega (arith, length-append pre (b ++ name), length-append b name, hn) in
      let whole : ltb (length zip) (at + length contents) ≡ false =
        ground (arith, lz, named, length-append pre (b ++ name), length-append b name) in
      let split : zip ≡ (pre ++ (b ++ name)) ++ (contents ++ rest) =
        e
        ∙ (ap (λ t. pre ++ (b ++ t)) (append_assoc name contents rest)
            ∙ sym (append_assoc pre (b ++ name) (contents ++ rest))) in
      let body : memcpy zip at (length contents) ≡ inside contents =
        memcpy-behind zip (pre ++ (b ++ name)) (contents ++ rest) at (length contents) split named
          (omega (arith, length-append contents rest))
        ∙ ap inside (take-append_length contents rest (length contents) refl) in
      rw (ho, hs, hm, fits, head, whole, body) refl

  module _ (root : List Bytes) where
    read_named-block :
        (c : CentralEntry) (at : ℕ) (name contents path pre rest front behind : Bytes)
        → zip ≡ pre ++ (block name contents ++ rest)
        → zip ≡ front ++ (name ++ behind)
        → at ≡ length front
        → c.signature ≡ central_signature
        → c.name_length ≡ length name
        → c.extra_length ≡ 0
        → c.comment_length ≡ 0
        → c.local_offset ≡ length pre
        → c.compressed_size ≡ length contents
        → c.method ≡ store_method
        → length name < 65536
        → is_nil name ≡ false
        → ends_with (b'/' ∷ []) name ≡ false
        → safe_path root name ≡ some path
        → read_named inflate root zip c at ≡ inside (some (file path contents, at + length name))
    unfolding read_named
    read_named-block c at name contents path pre rest front behind e f ha hs hn hx hk ho hz hm small
          hnil hend hp =
        let fits : ltb (length zip) (at + length name) ≡ false = ground (
          arith,
          ha,
          ap length f,
          length-append front (name ++ behind),
          length-append name behind,
        ) in
        let copied : memcpy zip at (length name) ≡ inside name =
          memcpy-behind zip front (name ++ behind) at (length name) f ha
            (omega (arith, length-append name behind))
          ∙ ap inside (take-append_length name behind (length name) refl) in
        let found = read_data-block c name contents pre rest e ho hz hm small in
        let sum : at + length name + 0 + 0 ≡ at + length name = omega arith in
        rw (hs, hn, hx, hk, sum, fits, copied, hnil, hp, hend, found) refl

    -- The directory's entry of a file, and the file's part, are read as the file.
    pub read_entry-block :
        (name contents path pre rest front behind : Bytes)
        → zip ≡ pre ++ (block name contents ++ rest)
        → zip
          ≡ front
            ++ (central_bytes (central_for (entry_for name contents (length pre)))
                ++ (name ++ behind))
        → length zip < 4294967296
        → length name < 65536
        → is_nil name ≡ false
        → ends_with (b'/' ∷ []) name ≡ false
        → safe_path root name ≡ some path
        → read_entry inflate root zip (length front)
          ≡ inside (some (file path contents, length front + central_size + length name))
    unfolding read_entry
    read_entry-block name contents path pre rest front behind e f total small hnil hend hp =
        let b = central_bytes (central_for (entry_for name contents (length pre))) in
        let lz : length zip ≡ length pre + (30 + (length name + (length contents + length rest))) =
          omega (
            arith,
            ap length e,
            length-append pre (block name contents ++ rest),
            length-append (block name contents) rest,
            length-append name contents,
          ) in
        let lf : length zip ≡ length front + (46 + (length name + length behind)) = omega (
          arith,
          ap length f,
          length-append front (b ++ (name ++ behind)),
          length-append b (name ++ behind),
          length-append name behind,
        ) in
        let fits : ltb (length zip) (length front + central_size) ≡ false = ground (arith, lf) in
        let copied : memcpy zip (length front) central_size ≡ inside b =
          memcpy-behind zip front (b ++ (name ++ behind)) (length front) central_size f refl
            (omega (arith, length-append b (name ++ behind))) in
        let c = central_of b in
        rw (fits, copied)
          (read_named-block c (length front + central_size) name contents path pre rest (front ++ b)
            behind e (f ∙ sym (append_assoc front b (name ++ behind)))
            (omega (arith, length-append front b)) refl (omega arith) refl refl (omega arith)
            (omega arith) refl small hnil hend hp)
