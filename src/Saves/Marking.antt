-- ===== src/Saves/Marking.antt =====
-- The marker: what was uploaded from here is not pulled back.
use openpak_client.Shared.{
  ◌≡◌, refl, sym, ap, ◌∙◌, inl, inr, Bool, true, false, not, ◌||◌, some, [], Bool-cases, is_nil,
  value_or, Bytes, bytes_eq, bytes_eq_iff, text_eq,
}
use openpak_client.Shared.Maps.{insert, lookup-insert_self}
use openpak_client.Shared.Disk.{read-write}
use openpak_client.Saves.{
  has_local_content, marker_for, trim_end, read_marker, write_marker, save_version,
  set_save_version, pull_save, push_save, push_captured, nothing, pull_before_launch,
}
use openpak_client.Saves.Folders.{Tree, World}

-- The marker reads as the version that was written.
read_marker-write :
    (dir version : Bytes) (w : World)
    → w.disk.refuses (marker_for dir) ≡ false
    → is_nil version ≡ false
    → trim_end version ≡ version
    → read_marker dir (write_marker dir version w) ≡ version
unfolding read_marker write_marker
read_marker-write dir version w free some_text trimmed = rw some_text (
    rw
      (
        read-write w.disk (marker_for dir) (marker_for dir) version free,
        (bytes_eq_iff (marker_for dir) (marker_for dir)).1 refl,
      )
      trimmed)

module _ (extract : Bytes → Tree → Tree × Bool) (archive : Tree → Bytes) (dir : Bytes) where
  save_version-set :
      (title version : Bytes) (w : World)
      → save_version title (set_save_version title version w) ≡ version
  unfolding save_version set_save_version
  save_version-set title version w =
      ap (λ o. value_or o []) (lookup-insert_self title version w.known)

  -- Neither the folders nor which of them can be read change.
  IsSame : World → World → Type 0
  IsSame v w = (v.folders ≡ w.folders) × (v.unread ≡ w.unread)

  folders-write_marker : (version : Bytes) (w : World) → IsSame (write_marker dir version w) w
  unfolding write_marker IsSame
  folders-write_marker version w = elim (Bool-cases (is_nil version)) [
    | inl e ↦ rw e (refl, refl)
    | inr e ↦ rw e (refl, refl)
  ]

  -- The marker as an upload leaves it.
  marked :
      (title version : Bytes) (w : World)
      → is_nil version ≡ false
      → trim_end version ≡ version
      → w.disk.refuses (marker_for dir) ≡ false
      → let u = set_save_version title version w in
        let v = write_marker dir (save_version title u) u in
        IsSame v w × (read_marker dir v ≡ version)
  unfolding set_save_version IsSame
  marked title version w some_text trimmed free =
      let u = set_save_version title version w in
      rw (save_version-set title version w)
        (folders-write_marker version u, read_marker-write dir version u free some_text trimmed)

  based_free :
      (title known : Bytes) (w : World)
      → w.disk.refuses (marker_for dir) ≡ false
      → (set_save_version title known w).disk.refuses (marker_for dir) ≡ false
  unfolding set_save_version
  based_free title known w free = free

  based_folders : (title known : Bytes) (w : World) → IsSame (set_save_version title known w) w
  unfolding set_save_version IsSame
  based_folders title known w = (refl, refl)

  -- An accepted upload changes no folder, and the marker then reads as the new version.
  push_captured-accepted :
      (title zip version : Bytes) (w : World)
      → is_nil zip ≡ false
      → is_nil version ≡ false
      → trim_end version ≡ version
      → w.disk.refuses (marker_for dir) ≡ false
      → let (v, error) =
          push_captured extract archive dir title zip (λ base. ([], some version)) w in
        IsSame v w × (error ≡ []) × (read_marker dir v ≡ version)
  unfolding push_captured push_save IsSame
  push_captured-accepted title zip version w packed some_text trimmed free =
      let known = read_marker dir w in
      elim (Bool-cases (is_nil known)) [
        | inl e ↦
            let (folders, reads) = marked title version w some_text trimmed free in
            rw (packed, e) (folders, refl, reads)
        | inr e ↦
            let (folders, reads) =
              marked title version (set_save_version title known w) some_text trimmed
                (based_free title known w free) in
            rw (packed, e)
              (
                (
                  folders.0 ∙ (based_folders title known w).0,
                  folders.1 ∙ (based_folders title known w).1,
                ),
                refl,
                reads,
              )
      ]

  has_local_content-other :
      (a b : World) → IsSame b a → has_local_content dir b ≡ has_local_content dir a
  unfolding has_local_content IsSame
  has_local_content-other a b h = rw (h.0, h.1) refl

  in_step :
      (title zip version : Bytes) (bearer wanted : Bool) (w : World)
      → has_local_content dir w ≡ true
      → read_marker dir w ≡ version
      → let (u, out) =
          pull_before_launch extract archive dir title bearer wanted (some (zip, version)) w in
        (out ≡ nothing) × (u.folders ≡ w.folders)
  unfolding pull_before_launch pull_save has_local_content read_marker set_save_version save_version
  in_step title zip version bearer wanted w local reads =
      let u : World = record w { known = insert title version w.known } in
      let cloud : save_version title u ≡ version =
        ap (λ o. value_or o []) (lookup-insert_self title version w.known) in
      let equal : bytes_eq (save_version title u) (read_marker dir u) ≡ true =
        rw cloud ((bytes_eq_iff version (read_marker dir u)).1 (sym reads)) in
      let here : has_local_content dir u ≡ true = local in
      elim (Bool-cases (is_nil dir || not bearer)) [
        | inl a ↦ rw a (refl, refl)
        | inr a ↦ elim (Bool-cases (is_nil zip)) [
          | inl b ↦ rw (a, b) (refl, refl)
          | inr b ↦ rw (a, b, here, equal) (refl, refl)
        ]
      ]

  -- What was uploaded from here and accepted is in step: where the archive is not empty, there is a local
  -- save that can be read, the marker can be written and the answer carries a new version, a text that is
  -- not empty and has no blank or line end at its end, no folder changes in the upload, nor at the next
  -- launch, where the site answers with that version, and nothing is pulled.
  pub pull_before_launch-push_captured :
      (title zip version cloud_zip : Bytes) (bearer wanted : Bool) (w : World)
      → is_nil zip ≡ false
      → is_nil version ≡ false
      → trim_end version ≡ version
      → w.disk.refuses (marker_for dir) ≡ false
      → has_local_content dir w ≡ true
      → let (v, error) =
          push_captured extract archive dir title zip (λ base. ([], some version)) w in
        let (u, out) =
          pull_before_launch extract archive dir title bearer wanted
            (some (cloud_zip, version))
            v in
        (error ≡ []) × (out ≡ nothing) × (u.folders ≡ w.folders)
  unfolding IsSame
  pull_before_launch-push_captured title zip version cloud_zip bearer wanted w packed some_text
        trimmed free local =
      let v = push_captured extract archive dir title zip (λ base. ([], some version)) w in
      let (folders, error, reads) =
        push_captured-accepted title zip version w packed some_text trimmed free in
      let still : has_local_content dir v.0 ≡ true =
        has_local_content-other w v.0 folders ∙ local in
      let (out, same) = in_step title cloud_zip version bearer wanted v.0 still reads in
      (error, out, same ∙ folders.0)
