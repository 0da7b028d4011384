-- ===== src/Account/Holder.antt =====
-- What `HolderOf` answers.
use openpak_client.Shared.{
  >>=-eq-some, guard-eq-some, ◌∙◌, ℕ, ◌≡◌, refl, ◌≢◌, inl, inr, true, not, some, List, [], ◌∷◌,
  arith, Option-cases, Bytes, codes, bytes_eq, bytes_eq_iff, nat_eq, text_eq,
}
use openpak_client.Shared.Decimal.{to_string}
use openpak_client.Account.{
  Store, directory, value_of, holds, find_holder, entry_name, profile_of, holder_of,
}

-- A file of the directory that signs the profile in as the pid.
pub data IsSignedIn (s : Store) (pid : ℕ) (profile : Bytes) : List (Bytes × Bytes) → Type 0 where
  this :
      {p contents name : Bytes} {files : List (Bytes × Bytes)}
      → entry_name (directory s.config) p ≡ some name
      → profile_of name ≡ some profile
      → value_of contents (codes "pid") ≡ to_string pid
      → IsSignedIn s pid profile ((p, contents) ∷ files)
  other :
      {f : Bytes × Bytes} {files : List (Bytes × Bytes)}
      → IsSignedIn s pid profile files
      → IsSignedIn s pid profile (f ∷ files)

ne_of_beq : (a b : Bytes) → not (bytes_eq a b) ≡ true → a ≢ b
ne_of_beq a b h e = ground (arith, bytes_eq_iff a b)

-- The parts of an answer for one file.
holds_parts :
    (s : Store) (pid : ℕ) (except p contents : Bytes) {profile : Bytes}
    → holds (directory s.config) pid except (p, contents) ≡ some profile
    → (profile ≢ except)
      × ((files : List (Bytes × Bytes)) → IsSignedIn s pid profile ((p, contents) ∷ files))
unfolding holds
holds_parts s pid except p contents {profile} h =
    let (name, found, h1) = >>=-eq-some (entry_name (directory s.config) p) _ h in
    let (owner, prof, h2) = >>=-eq-some (profile_of name) _ h1 in
    let (kept, h3) = guard-eq-some (not (bytes_eq owner except)) _ h2 in
    let (signed, h4) =
      guard-eq-some (bytes_eq (value_of contents (codes "pid")) (to_string pid)) _ h3 in
    let same : owner ≡ profile = cc h4 in
    (
      λ e. ne_of_beq owner except kept (same ∙ e),
      λ files. this found (prof ∙ h4) ((bytes_eq_iff _ _).0 signed),
    )

find_sound :
    (s : Store) (pid : ℕ) (except : Bytes) (files : List (Bytes × Bytes))
    → find_holder (directory s.config) pid except files ≢ []
    → let found = find_holder (directory s.config) pid except files in
      (found ≢ except) × IsSignedIn s pid found files
unfolding find_holder
find_sound s pid except [] h = absurd (h refl)
find_sound s pid except ((p, contents) ∷ files) h =
    elim (Option-cases (holds (directory s.config) pid except (p, contents))) [
      | inl e ↦
          let (ne, signed) = find_sound s pid except files (rw (e, find_holder) at h) in
          rw (e, find_holder) (ne, other signed)
      | inr (profile, e) ↦
          let (ne, signed) = holds_parts s pid except p contents e in
          rw (e, find_holder) (ne, signed files)
    ]

-- The answer, if it is not empty, is another profile than the excepted one, and a file of the
-- directory signs it in as the pid.
pub holder_of_sound :
    (pid : ℕ) (except : Bytes) (s : Store)
    → holder_of pid except s ≢ []
    → (holder_of pid except s ≢ except) × IsSignedIn s pid (holder_of pid except s) s.disk.files
unfolding holder_of
holder_of_sound pid except s h = find_sound s pid except s.disk.files h
