-- ===== src/Saves/Examples.antt =====
-- Witnesses of the theorems on the swap and on taking a cloud save.
use openpak_client.Shared.{
  ◌≡◌, refl, ◌≢◌, ◌⊎◌, Bool, true, false, none, some, [], ◌∷◌, Bytes, codes, bytes_eq, bytes_eq_iff,
  starts_with, ends_with,
}
use openpak_client.Shared.Maps.{lookup}
use openpak_client.Shared.Disk.{path_append}
use openpak_client.Saves.{
  swap_into_place, staging_path, previous_path, has_local_content, nothing, pulled, trim_end,
  push_captured, pull_before_launch,
}
use openpak_client.Saves.Folders.{Tree, World, folder_at, beside}
use openpak_client.Saves.Marking.{pull_before_launch-push_captured}
use openpak_client.Saves.Swap.{AreApart, IsKept, swap_into_place-IsKept}
use openpak_client.Saves.Syncing.{AreBeside, HoldsAll, backup_path, pull_before_launch-Keeps}

abbrev dir : Bytes
dir = codes "s/g"

abbrev old : Tree
old = (codes "slot", codes "A") ∷ []

abbrev new : Tree
new = (codes "slot", codes "B") ∷ []

-- The second rename of a swap fails, and the one that puts the old save back.
abbrev world : World
world = record {
  folders = (dir, old) ∷ (staging_path dir, new) ∷ [];
  disk = record { files = []; refuses = λ p. false };
  known = [];
  faults = false ∷ true ∷ true ∷ [];
  remains = λ t. none;
  partly = λ t r. r;
  unread = λ p. false;
  unseen = λ p. false;
  threw = false;
}

abbrev calm : World
calm = record world { faults = [] }

ne_of_beq : (a b : Bytes) → bytes_eq a b ≡ false → a ≢ b
ne_of_beq a b h e = let t : bytes_eq a b ≡ true = (bytes_eq_iff a b).1 e in cc

apart : AreApart (staging_path dir) dir
unfolding beside path_append bytes_eq starts_with ends_with
apart = record {
  staged_dest = ne_of_beq _ _ refl;
  staged_previous = ne_of_beq _ _ refl;
  dest_previous = ne_of_beq _ _ refl;
}

around : AreBeside dir
unfolding beside path_append bytes_eq starts_with ends_with
around = record {
  swapped = apart;
  backup_dir = ne_of_beq _ _ refl;
  backup_staging = ne_of_beq _ _ refl;
  backup_previous = ne_of_beq _ _ refl;
}

staged : folder_at world (staging_path dir) ≡ some new
unfolding lookup beside path_append
staged = refl

present : folder_at world dir ≡ some old
unfolding lookup bytes_eq
present = refl

swap_into_place-IsKept_example : IsKept dir old new (swap_into_place (staging_path dir) dir world)
swap_into_place-IsKept_example =
    swap_into_place-IsKept (staging_path dir) dir apart old new world present staged

abbrev extract : Bytes → Tree → Tree × Bool
extract zip t = ((codes "slot", zip) ∷ [], true)

abbrev archive : Tree → Bytes
archive t = codes "zip"

pull_before_launch-Keeps_example :
    let (v, out) =
      pull_before_launch extract archive dir
        (codes "1")
        true
        true
        (some (codes "B", codes "2"))
        world in
    ((out ≡ pulled) × HoldsAll old (folder_at v (backup_path dir)))
    ⊎ ((out ≢ pulled)
        × ((folder_at v dir ≡ some old) ⊎ (folder_at v (previous_path dir) ≡ some old)))
pull_before_launch-Keeps_example =
    pull_before_launch-Keeps extract archive dir around old (codes "1") true true
      (some (codes "B", codes "2")) world present refl refl

here : has_local_content dir world ≡ true
unfolding has_local_content lookup bytes_eq
here = refl

version_trimmed : trim_end (codes "7") ≡ codes "7"
unfolding trim_end
version_trimmed = refl

pull_before_launch-push_captured_example :
    let (v, error) =
      push_captured extract archive dir
        (codes "1")
        (codes "zip")
        (λ base. ([], some (codes "7")))
        world in
    let (u, out) =
      pull_before_launch extract archive dir
        (codes "1")
        true
        true
        (some (codes "B", codes "7"))
        v in
    (error ≡ []) × (out ≡ nothing) × (u.folders ≡ world.folders)
pull_before_launch-push_captured_example =
    pull_before_launch-push_captured extract archive dir (codes "1") (codes "zip") (codes "7")
      (codes "B") true true world refl refl version_trimmed refl here
