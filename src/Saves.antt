-- ===== src/Saves.antt =====
-- client/openpak/restore_swap.h and save_sync.cpp (the build with the library's own zip code): a cloud save
-- put in the place of the local one. What extracting an archive leaves in a folder, with whether it
-- succeeded, is an argument, and the site's answers are inputs.
pub mod Folders
mod Renaming
pub mod Swap
pub mod Syncing
pub mod Marking
mod Examples
use openpak_client.Saves.Folders.{
  Tree, World, beside, copy_folder, create_folder, folder_at, remove_all, rename_folder,
}
use openpak_client.Shared.{
  ℕ, Bool, true, false, not, ◌&&◌, ◌||◌, Option, none, some, [], ◌∷◌, ◌==◌, if◌then◌else◌, value_or,
  is_some, is_nil, Bytes, codes, bytes_eq, nat_eq, text_eq,
}
use openpak_client.Shared.Int.{ℤ, pos, lt_int}
use openpak_client.Shared.Decimal.{int_to_string}
use openpak_client.Shared.Maps.{lookup, insert}
use openpak_client.Shared.Disk.{read_file, write_file}

-- `StagingPathFor`.
abbrev pub staging_path : Bytes → Bytes
staging_path dest = beside (codes ".openpak-new") dest

-- `PreviousPathFor`.
abbrev pub previous_path : Bytes → Bytes
previous_path dest = beside (codes ".openpak-old") dest

-- The last part of `SwapIntoPlace`: the staged folder goes in place, or the old one goes back. Both calls
-- of `exists` can throw.
put_in_place : Bytes → Bytes → World → World × Bool
put_in_place staged dest w =
    let previous = previous_path dest in
    let (moved, done) = rename_folder staged dest w in
    let back : World =
      if is_some (folder_at moved previous) then (rename_folder previous dest moved).0 else moved in
    if done
    then (remove_all previous moved, true)
    else if w.unseen previous
    then (record moved { threw = true }, false)
    else (remove_all staged back, false)

-- `SwapIntoPlace`.
unfoldable pub swap_into_place : Bytes → Bytes → World → World × Bool
unfolding put_in_place
swap_into_place staged dest w =
    let cleared = remove_all (previous_path dest) w in
    let (kept, moved) = rename_folder dest (previous_path dest) cleared in
    if w.unseen dest
    then (record cleared { threw = true }, false)
    else if not (is_some (folder_at cleared dest))
    then put_in_place staged dest cleared
    else if moved
    then put_in_place staged dest kept
    else (remove_all staged kept, false)

-- `HasLocalContent`: a folder that cannot be looked at counts as one with nothing in it.
unfoldable pub has_local_content : Bytes → World → Bool
has_local_content dir w =
    if w.unread dir
    then false
    else elim (folder_at w dir) [ none ↦ false | some t ↦ not (is_nil t) ]

-- `MarkerFor`.
pub marker_for : Bytes → Bytes
marker_for dir = beside (codes ".openpak-version") dir

-- `ReadMarker` drops the line ends and blanks at the end.
ends_line : ℕ → Bool
ends_line c = (c == 10) || (c == 13) || (c == 32)

unfoldable pub trim_end : Bytes → Bytes
unfolding ends_line
trim_end [] = []
trim_end (c ∷ s) = let rest = trim_end s in if is_nil rest && ends_line c then [] else c ∷ rest

unfoldable pub read_marker : Bytes → World → Bytes
unfolding trim_end
read_marker dir w = trim_end (read_file w.disk (marker_for dir))

-- `WriteMarker`.
pub write_marker : Bytes → Bytes → World → World
write_marker dir version w =
    if is_nil version then w else record w { disk = (write_file w.disk (marker_for dir) version).0 }

-- The version of a title that the site's client remembers: `SaveVersion` and `SetSaveVersion`.
pub save_version : Bytes → World → Bytes
save_version title w = value_or (lookup title w.known) []

pub set_save_version : Bytes → Bytes → World → World
set_save_version title version w = record w { known = insert title version w.known }

-- `PullSave`: an archive and its version, or nothing.
pub pull_save : Bytes → Option (Bytes × Bytes) → World → World × Option Bytes
unfolding set_save_version
pull_save title none w = (w, none)
pull_save title (some (zip, version)) w = (set_save_version title version w, some zip)

pub data PullOutcome : Type 0 where
  nothing pulled both_exist : PullOutcome

module _ (extract : Bytes → Tree → Tree × Bool) (archive : Tree → Bytes) where
  -- `UnzipToDirectoryStore`, which `UnzipSave` is in this build.
  unfoldable pub unzip_save : Bytes → Bytes → World → World × Bool
  unzip_save zip dest w =
      let staging = staging_path dest in
      let cleared = remove_all staging w in
      let (tree, whole) = extract zip (value_or (folder_at cleared staging) []) in
      let filled : World = record cleared { folders = insert staging tree cleared.folders } in
      if whole then swap_into_place staging dest filled else (remove_all staging filled, false)

  -- The second half of `ApplyCloud`, once a local copy is kept.
  put_cloud : Bytes → Bytes → Bytes → World → World × Bool
  put_cloud dir zip cloud w =
      let (v, applied) = unzip_save zip dir (create_folder dir w) in
      if applied then (write_marker dir cloud v, true) else (v, false)

  -- `ApplyCloud`.
  unfoldable pub apply_cloud : Bytes → Bytes → Bytes → World → World × Bool
  unfolding put_cloud
  apply_cloud dir zip cloud w =
      let backup = beside (codes ".openpak-backup") dir in
      let (kept, copied) = copy_folder dir backup (remove_all backup w) in
      if has_local_content dir w
      then (if copied then put_cloud dir zip cloud kept else (kept, false))
      else put_cloud dir zip cloud w

  -- `PullBeforeLaunch`; `wanted` is the answer of `still_wanted`, or true without one.
  unfoldable pub pull_before_launch :
      Bytes → Bytes → Bool → Bool → Option (Bytes × Bytes) → World → World × PullOutcome
  pull_before_launch dir title bearer wanted answer w =
      let (v, zip) = pull_save title answer w in
      let cloud = save_version title v in
      let known = read_marker dir v in
      let local = has_local_content dir v in
      let (u, applied) = apply_cloud dir (value_or zip []) cloud v in
      if is_nil dir || not bearer
      then (w, nothing)
      else if is_nil (value_or zip [])
      then (v, nothing)
      else if local && bytes_eq cloud known
      then (v, nothing)
      else if local && is_nil known
      then (v, both_exist)
      else if not wanted
      then (v, nothing)
      else if applied
      then (u, pulled)
      else (u, nothing)

  -- `CaptureOnExit`.
  pub capture_on_exit : Bytes → Bool → World → Bytes
  capture_on_exit dir bearer w =
      if is_nil dir || not bearer || not (has_local_content dir w)
      then []
      else archive (value_or (folder_at w dir) [])

  -- `PushSave`: the answer to an upload on a base version, an error or the new version where it has one.
  pub push_save : Bytes → (Bytes → Bytes × Option Bytes) → World → World × Bytes
  push_save title answer w =
      let (error, version) = answer (save_version title w) in
      if not (is_nil error)
      then (w, error)
      else elim version [ none ↦ (w, []) | some n ↦ (set_save_version title n w, []) ]

  -- `PushCaptured`.
  pub push_captured : Bytes → Bytes → Bytes → (Bytes → Bytes × Option Bytes) → World → World × Bytes
  push_captured dir title zip answer w =
      let known = read_marker dir w in
      let based : World = if is_nil known then w else set_save_version title known w in
      let (v, error) = push_save title answer based in
      if is_nil zip
      then (w, [])
      else if not (is_nil error)
      then (v, error)
      else (write_marker dir (save_version title v) v, [])

  -- `Download`, with whether it succeeded.
  pub download : Bytes → Bytes → Option (Bytes × Bytes) → World → World × Bool
  download dir title answer w =
      let (v, zip) = pull_save title answer w in
      if is_nil dir
      then (w, false)
      else if is_nil (value_or zip [])
      then (v, false)
      else apply_cloud dir (value_or zip []) (save_version title v) v

  -- `Upload`, with its error, or with `none` where there is no local save.
  pub upload :
      Bytes → Bytes → Bool → ℤ → (Bytes → Bytes × Option Bytes) → World → World × Option Bytes
  upload dir title bearer newest_cloud answer w =
      let base : Bytes = if lt_int (pos 0) newest_cloud then int_to_string newest_cloud else [] in
      let (v, error) = push_save title answer (set_save_version title base w) in
      if is_nil (capture_on_exit dir bearer w)
      then (w, none)
      else if not (is_nil error)
      then (v, some error)
      else (write_marker dir (save_version title v) v, some [])

pub data LocalState : Type 0 where
  no_local in_step changed_here cloud_newer no_history : LocalState

-- `Compare`, with whether a file was written after the marker.
unfoldable pub compare : Bytes → ℤ → Bool → World → LocalState × Bytes
compare dir newest_cloud written_since w =
    let version = read_marker dir w in
    if is_nil dir || not (has_local_content dir w)
    then (no_local, [])
    else if is_nil version
    then ((if lt_int (pos 0) newest_cloud then no_history else changed_here), [])
    else if not (bytes_eq version (int_to_string newest_cloud))
    then (cloud_newer, version)
    else ((if written_since then changed_here else in_step), version)
