-- ===== src/Saves/Syncing.antt =====
-- What taking a cloud save keeps of the local one.
use openpak_client.Shared.{
  ◌≡◌, refl, sym, ap, ◌∙◌, ◌≢◌, ◌⊎◌, inl, inr, Bool, true, false, not, ◌&&◌, ◌||◌, Option, none,
  some, [], ◌∷◌, ◌++◌, arith, Bool-cases, is_nil, value_or, Bytes, codes, bytes_eq, text_eq,
}
use openpak_client.Shared.Maps.{lookup, insert, lookup-insert_self}
use openpak_client.Saves.{
  previous_path, staging_path, swap_into_place, has_local_content, read_marker, write_marker,
  save_version, pull_save, unzip_save, put_cloud, apply_cloud, pulled, pull_before_launch,
}
use openpak_client.Saves.Folders.{
  Tree, World, folder_at, faulty, remove_all, beside, copy_folder, shares_name, create_folder,
}
use openpak_client.Saves.Swap.{AreApart, swap_into_place-IsKept, swap_into_place-other}
use openpak_client.Saves.Renaming.{folder_at-remove_all, lookup-insert_other}

abbrev pub backup_path : Bytes → Bytes
backup_path dir = beside (codes ".openpak-backup") dir

-- The paths around a save are different.
pub record AreBeside (dir : Bytes) : Type 0 where
  pub swapped : AreApart (staging_path dir) dir
  pub backup_dir : backup_path dir ≢ dir
  pub backup_staging : backup_path dir ≢ staging_path dir
  pub backup_previous : backup_path dir ≢ previous_path dir

-- A folder that has every file of the save as it was.
abbrev pub HoldsAll : Tree → Option Tree → Type 0
HoldsAll old folder =
    (t : Tree) × (folder ≡ some t)
    × ((name : Bytes) (c : Bytes) → lookup name old ≡ some c → lookup name t ≡ some c)

lookup-append :
    (old rest : Tree) (name c : Bytes)
    → lookup name old ≡ some c
    → lookup name (old ++ rest) ≡ some c
unfolding lookup
lookup-append [] rest name c h = cc
lookup-append ((j, v) ∷ old) rest name c h = ground (arith, lookup-append old rest name c)

copy_folder-cases :
    (a b : Bytes) (w : World) (old : Tree)
    → a ≢ b
    → folder_at w a ≡ some old
    → (folder_at (copy_folder a b w).0 a ≡ some old)
      × (((copy_folder a b w).1 ≡ true) → HoldsAll old (folder_at (copy_folder a b w).0 b))
unfolding copy_folder
copy_folder-cases a b w old ab is =
    let r = value_or (folder_at w b) [] in
    elim (Bool-cases (faulty w || shares_name old r)) [
      | inl e ↦
          rw (is, e, copy_folder)
            (lookup-insert_other b a (w.partly old r) w.folders (λ s. ab (sym s)) ∙ is, λ t. cc)
      | inr e ↦
          rw (is, e, copy_folder)
            (
              lookup-insert_other b a (old ++ r) w.folders (λ s. ab (sym s)) ∙ is,
              λ t. (old ++ r, lookup-insert_self b (old ++ r) w.folders, lookup-append old r),
            )
    ]

-- The cloud's save was taken and the local one is kept as the backup, or it was not taken and the local
-- save is whole, in its place or where the swap moved it.
abbrev pub Keeps : Bytes → Tree → World × Bool → Type 0
Keeps dir old (v, done) =
    ((done ≡ true) × HoldsAll old (folder_at v (backup_path dir)))
    ⊎ ((done ≡ false)
        × ((folder_at v dir ≡ some old) ⊎ (folder_at v (previous_path dir) ≡ some old)))

folders-pull_save :
    (title : Bytes) (answer : Option (Bytes × Bytes)) (w : World)
    → ((pull_save title answer w).0.folders ≡ w.folders)
      × ((pull_save title answer w).0.unread ≡ w.unread)
unfolding pull_save
folders-pull_save title none w = (refl, refl)
folders-pull_save title (some (zip, version)) w = (refl, refl)

module _ (extract : Bytes → Tree → Tree × Bool) (archive : Tree → Bytes) (dir : Bytes)
    (apart : AreBeside dir) (old : Tree) where
  unzip_save-Keeps :
      (zip : Bytes) (w : World)
      → folder_at w dir ≡ some old
      → HoldsAll old (folder_at w (backup_path dir))
      → Keeps dir old (unzip_save extract archive zip dir w)
  unfolding unzip_save
  unzip_save-Keeps zip w is (t, backed, all) =
      let staging = staging_path dir in
      let backup = backup_path dir in
      let cleared = remove_all staging w in
      let extracted = extract zip (value_or (folder_at cleared staging) []) in
      let filled : World = record cleared {
        folders = insert staging extracted.0 cleared.folders;
      } in
      let swapped = apart.swapped in
      let here : folder_at filled dir ≡ some old =
        lookup-insert_other staging dir extracted.0 cleared.folders swapped.staged_dest
        ∙ (folder_at-remove_all staging dir w swapped.staged_dest ∙ is) in
      let stays : folder_at filled backup ≡ some t =
        lookup-insert_other staging backup extracted.0 cleared.folders
          (λ e. apart.backup_staging (sym e))
        ∙ (folder_at-remove_all staging backup w (λ e. apart.backup_staging (sym e)) ∙ backed) in
      let after = swap_into_place staging dir filled in
      let keeps : folder_at after.0 backup ≡ some t =
        swap_into_place-other staging dir backup swapped (λ e. apart.backup_staging (sym e))
          (λ e. apart.backup_dir (sym e)) (λ e. apart.backup_previous (sym e)) filled
        ∙ stays in
      elim (Bool-cases extracted.1) [
        | inr e ↦
            rw e
              (inr (refl, inl (folder_at-remove_all staging dir filled swapped.staged_dest ∙ here)))
        | inl e ↦
            rw e
              (elim (swap_into_place-IsKept staging dir swapped old extracted.0 filled here
                (lookup-insert_self staging extracted.0 cleared.folders)) [
                  | inl (done, now) ↦ inl (done, (t, keeps, all))
                  | inr (failed, whole) ↦ inr (failed, whole)
                ])
      ]

  folders-write_marker :
      (version : Bytes) (w : World) → (write_marker dir version w).folders ≡ w.folders
  unfolding write_marker
  folders-write_marker version w = ground arith

  create_folder-there : (w : World) (t : Tree) → folder_at w dir ≡ some t → create_folder dir w ≡ w
  unfolding create_folder
  create_folder-there w t is = simp (is, create_folder)

  has_local_content-eq :
      (w : World) (t : Tree)
      → folder_at w dir ≡ some t
      → w.unread dir ≡ false
      → has_local_content dir w ≡ not (is_nil t)
  unfolding has_local_content
  has_local_content-eq w t is reads = rw (is, reads, has_local_content) refl

  put_cloud-Keeps :
      (zip cloud : Bytes) (w : World)
      → folder_at w dir ≡ some old
      → HoldsAll old (folder_at w (backup_path dir))
      → Keeps dir old (put_cloud extract archive dir zip cloud w)
  unfolding put_cloud
  put_cloud-Keeps zip cloud w is backed =
      let u = unzip_save extract archive zip dir w in
      rw (create_folder-there w old is) (elim (unzip_save-Keeps zip w is backed) [
        | inl (done, held) ↦ rw done (
            inl (
              refl,
              (
                held.0,
                ap (λ m. lookup (backup_path dir) m) (folders-write_marker cloud u.0) ∙ held.1,
                held.2,
              ),
            ))
        | inr (failed, whole) ↦ rw failed (inr (refl, whole))
      ])

  -- Whichever removals, copies and renames fail, taking a cloud save over a local one that can be read keeps the local one: as the backup where the
  -- cloud's is in place, and else in its place or under the name that the swap moved it to.
  pub apply_cloud-Keeps :
      (zip cloud : Bytes) (w : World)
      → folder_at w dir ≡ some old
      → w.unread dir ≡ false
      → is_nil old ≡ false
      → Keeps dir old (apply_cloud extract archive dir zip cloud w)
  unfolding apply_cloud
  apply_cloud-Keeps zip cloud w is reads full =
      let backup = backup_path dir in
      let cleared = remove_all backup w in
      let here : folder_at cleared dir ≡ some old =
        folder_at-remove_all backup dir w apart.backup_dir ∙ is in
      let (still, held) =
        copy_folder-cases dir backup cleared old (λ e. apart.backup_dir (sym e)) here in
      rw (has_local_content-eq w old is reads) (
        rw full (elim (Bool-cases (copy_folder dir backup cleared).1) [
          | inl e ↦
              rw e (put_cloud-Keeps zip cloud (copy_folder dir backup cleared).0 still (held e))
          | inr e ↦ rw e (inr (refl, inl still))
        ]))

  -- Before a launch, whatever the site answers, whether the host still waits, and whichever removals, copies
  -- and renames fail or are left by an exception of `exists`: a local save with files in it, whose folder
  -- the system lets be read, is kept, if the paths around it are different. If the answer is that a cloud save was taken, the backup holds each
  -- of its files; else the save is whole, in its place or under the name that the swap moved it to.
  pub pull_before_launch-Keeps :
      (title : Bytes) (bearer wanted : Bool) (answer : Option (Bytes × Bytes)) (w : World)
      → folder_at w dir ≡ some old
      → w.unread dir ≡ false
      → is_nil old ≡ false
      → let (v, out) = pull_before_launch extract archive dir title bearer wanted answer w in
        ((out ≡ pulled) × HoldsAll old (folder_at v (backup_path dir)))
        ⊎ ((out ≢ pulled)
            × ((folder_at v dir ≡ some old) ⊎ (folder_at v (previous_path dir) ≡ some old)))
  unfolding pull_before_launch
  pull_before_launch-Keeps title bearer wanted answer w is reads full =
      let p = pull_save title answer w in
      let here : folder_at p.0 dir ≡ some old =
        ap (λ m. lookup dir m) (folders-pull_save title answer w).0 ∙ is in
      let still : p.0.unread dir ≡ false =
        ap (λ r. r dir) (folders-pull_save title answer w).1 ∙ reads in
      let cloud = save_version title p.0 in
      let known = read_marker dir p.0 in
      let local = has_local_content dir p.0 in
      let u = apply_cloud extract archive dir (value_or p.1 []) cloud p.0 in
      elim (Bool-cases (is_nil dir || not bearer)) [
        | inl a ↦ rw a (inr ((λ e. cc), inl is))
        | inr a ↦ elim (Bool-cases (is_nil (value_or p.1 []))) [
          | inl b ↦ rw (a, b) (inr ((λ e. cc), inl here))
          | inr b ↦ elim (Bool-cases (local && bytes_eq cloud known)) [
            | inl c ↦ rw (a, b, c) (inr ((λ e. cc), inl here))
            | inr c ↦ elim (Bool-cases (local && is_nil known)) [
              | inl d ↦ rw (a, b, c, d) (inr ((λ e. cc), inl here))
              | inr d ↦ elim (Bool-cases wanted) [
                | inr f ↦ rw (a, b, c, d, f) (inr ((λ e. cc), inl here))
                | inl f ↦ elim (apply_cloud-Keeps (value_or p.1 []) cloud p.0 here still full) [
                  | inl (done, held) ↦ rw (a, b, c, d, f, done) (inl (refl, held))
                  | inr (failed, whole) ↦ rw (a, b, c, d, f, failed) (inr ((λ e. cc), whole))
                ]
              ]
            ]
          ]
        ]
      ]
