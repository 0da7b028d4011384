-- ===== src/Network/Ceiling/Files.antt =====
-- The cache and the version file of the ceiling, and what a write of one leaves of the other.
use openpak_client.Shared.{
  ℕ, ◌+◌, ◌<◌, ◌^◌, ◌≡◌, refl, ap, ◌∙◌, ◌≢◌, inl, inr, true, false, ◌||◌, some, [], ◌∷◌, arith,
  Bool-cases, length, length-append, is_nil, Bytes, codes, bytes_eq, nat_eq, text_eq, starts_with,
  ends_with,
}
use openpak_client.Shared.Maps.{insert, remove, lookup-insert_self}
use openpak_client.Shared.Decimal.{to_string, int_to_string}
use openpak_client.Shared.Decimal.RoundTrip.{stoll-to_string, to_string-ne-nil}
use openpak_client.Shared.Disk.{
  Disk, path_append, file_at, write_file, remove_file, rename_file, file_at-write, file_at-remove,
  file_at-rename, refuses-write, refuses-rename,
}
use openpak_client.Network.Ceiling.{
  ceiling_path, highest_path, temporary, write_atomically, whole, highest_in, read_highest,
}

-- A write beside the file and a rename leave every other file alone.
pub file_at-write_atomically :
    (d : Disk) (p c q : Bytes)
    → p ≢ q
    → temporary p ≢ q
    → file_at (write_atomically d p c).0 q ≡ file_at d q
unfolding write_atomically
file_at-write_atomically d p c q hp ht =
    let written = (write_file d (temporary p) c).0 in
    let renamed = (rename_file written (temporary p) p).0 in
    let w : file_at written q ≡ file_at d q = file_at-write d (temporary p) q c ht in
    let r : file_at renamed q ≡ file_at written q =
      file_at-rename written (temporary p) p q ht hp in
    elim (Bool-cases (write_file d (temporary p) c).1) [
      | inr e ↦ rw e w
      | inl e ↦ elim (Bool-cases (rename_file written (temporary p) p).1) [
        | inl f ↦ rw (e, f) (r ∙ w)
        | inr f ↦ rw (e, f) (file_at-remove renamed (temporary p) q ht ∙ (r ∙ w))
      ]
    ]

refuses-remove : (d : Disk) (p : Bytes) → (remove_file d p).refuses ≡ d.refuses
unfolding remove_file
refuses-remove d p = refl

pub refuses-write_atomically :
    (d : Disk) (p c : Bytes) → (write_atomically d p c).0.refuses ≡ d.refuses
unfolding write_atomically
refuses-write_atomically d p c =
    let written = (write_file d (temporary p) c).0 in
    let renamed = (rename_file written (temporary p) p).0 in
    let both = refuses-rename written (temporary p) p ∙ refuses-write d (temporary p) c in
    elim (Bool-cases (write_file d (temporary p) c).1) [
      | inr e ↦ rw e (refuses-write d (temporary p) c)
      | inl e ↦ elim (Bool-cases (rename_file written (temporary p) p).1) [
        | inl f ↦ rw (e, f) both
        | inr f ↦ rw (e, f) (refuses-remove renamed (temporary p) ∙ both)
      ]
    ]

write_beside :
    (d : Disk) (t c : Bytes)
    → d.refuses t ≡ false
    → write_file d t c ≡ (record d { files = insert t c d.files }, true)
unfolding write_file
write_beside d t c h = rw h

rename_over :
    (d : Disk) (t p c : Bytes)
    → file_at d t ≡ some c
    → d.refuses p ≡ false
    → rename_file d t p ≡ (record d { files = insert p c (remove t d.files) }, true)
unfolding rename_file
rename_over d t p c h k = rw (h, rename_file) (rw k)

-- Where both names can be written, the file then holds the text.
file_at-write_atomically_self :
    (d : Disk) (p c : Bytes)
    → d.refuses (temporary p) ≡ false
    → d.refuses p ≡ false
    → file_at (write_atomically d p c).0 p ≡ some c
unfolding write_atomically
file_at-write_atomically_self d p c ht hp =
    let beside : Disk = record d { files = insert (temporary p) c d.files } in
    rw (write_beside d (temporary p) c ht) (
      rw (rename_over beside (temporary p) p c (lookup-insert_self (temporary p) c d.files) hp)
        (lookup-insert_self p c (remove (temporary p) beside.files)))

-- The four files have names of four lengths.
length-path_append :
    (config name : Bytes)
    → starts_with (b'/' ∷ []) name ≡ false
    → length (path_append config name) ≡ length (path_append config []) + length name
unfolding path_append starts_with
length-path_append config name h =
    elim (Bool-cases (bytes_eq config [] || ends_with (b'/' ∷ []) config)) [
      | inl e ↦ rw (h, e) (omega (arith, length-append config name, length-append config []))
      | inr e ↦
          rw (h, e)
            (omega (arith, length-append config (b'/' ∷ name), length-append config (b'/' ∷ [])))
    ]

abbrev ceiling_name : Bytes
ceiling_name = codes "openpak_network_ceiling.json"

abbrev highest_name : Bytes
highest_name = codes "openpak_network_ceiling.version"

pub paths_apart :
    (config : Bytes)
    → (ceiling_path config ≢ highest_path config)
      × (temporary (ceiling_path config) ≢ highest_path config)
unfolding ceiling_path highest_path starts_with
paths_apart config =
    let c = length-path_append config ceiling_name refl in
    let h = length-path_append config highest_name refl in
    let t = length-append (path_append config ceiling_name) (codes ".tmp") in
    ((λ e. omega (arith, c, h, ap length e)), (λ e. omega (arith, c, h, t, ap length e)))

-- The version file reads as the number that was written.
pub read_highest-write :
    (config : Bytes) (d : Disk) (n : ℕ)
    → n < 2 ^ 63
    → d.refuses (temporary (highest_path config)) ≡ false
    → d.refuses (highest_path config) ≡ false
    → read_highest config (write_atomically d (highest_path config) (to_string n)).0 ≡ n
unfolding read_highest whole highest_in int_to_string
read_highest-write config d n small ht hp =
    rw (file_at-write_atomically_self d (highest_path config) (to_string n) ht hp)
      (rw (is_nil_false (to_string n) (to_string-ne-nil n)) (rw (stoll-to_string n small) refl))
  where
    is_nil_false : (s : Bytes) → s ≢ [] → is_nil s ≡ false
    is_nil_false [] h = absurd (h refl)
    is_nil_false (c ∷ s) h = refl

pub read_highest-other :
    (config : Bytes) (d e : Disk)
    → file_at e (highest_path config) ≡ file_at d (highest_path config)
    → read_highest config e ≡ read_highest config d
unfolding read_highest
read_highest-other config d e h = ap (λ o. highest_in (whole o)) h
