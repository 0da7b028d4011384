-- ===== src/Saves/Folders.antt =====
-- The folders that client/openpak/save_sync.cpp and restore_swap.h work on, and the calls of
-- `std::filesystem` on them. A folder is its files by relative name.
use openpak_client.Shared.{
  Bool, true, false, not, ◌||◌, Option, none, some, List, [], ◌∷◌, ◌++◌, ◌==◌, if◌then◌else◌,
  value_or, is_some, is_nil, any_of, Bytes, nat_eq, text_eq,
}
use openpak_client.Shared.Maps.{lookup, insert, remove}
use openpak_client.Shared.Disk.{Disk, path_append}

abbrev pub Tree : Type 0
Tree = List (Bytes × Bytes)

-- The folders, the files beside them, and the versions that the site's client remembers. Each call that
-- can fail takes the next of `faults` and fails if it is true; when the list is used up, no call fails.
-- `remains` and `partly` are what a removal or a copy that failed leaves behind. Of a folder that is
-- `unread` the system does not say whether it is one and what it holds; `exists` throws for a path that
-- is `unseen`, and `threw` then says that the calls were left by the exception. A listing that throws half way
-- is left out.
pub record World : Type 0 where
  pub folders : List (Bytes × Tree)
  pub disk : Disk
  pub known : List (Bytes × Bytes)
  pub faults : List Bool
  pub remains : Tree → Option Tree
  pub partly : Tree → Tree → Tree
  pub unread : Bytes → Bool
  pub unseen : Bytes → Bool
  pub threw : Bool

abbrev pub folder_at : World → Bytes → Option Tree
folder_at w p = lookup p w.folders

abbrev pub faulty : World → Bool
faulty w = elim w.faults [ [] ↦ false | b ∷ bs ↦ b ]

abbrev pub settled : World → World
settled w = record w { faults = elim w.faults [ [] ↦ [] | b ∷ bs ↦ bs ] }

-- `std::filesystem::remove_all`.
unfoldable pub remove_all : Bytes → World → World
remove_all p w = elim (folder_at w p) [
  | none ↦ w
  | some t ↦
      let v = settled w in
      if faulty w
      then elim (w.remains t) [
        | none ↦ record v { folders = remove p v.folders }
        | some r ↦ record v { folders = insert p r v.folders }
      ]
      else record v { folders = remove p v.folders }
]

-- `std::filesystem::rename` of a folder, with whether it succeeded: a folder that holds something is not
-- replaced.
unfoldable pub rename_folder : Bytes → Bytes → World → World × Bool
rename_folder a b w = elim (folder_at w a) [
  | none ↦ (w, false)
  | some t ↦
      let v = settled w in
      if faulty w || not (is_nil (value_or (folder_at w b) []))
      then (v, false)
      else (record v { folders = insert b t (remove a v.folders) }, true)
]

-- `std::filesystem::copy` of a folder, with whether it succeeded: a file that is there is not replaced.
unfoldable pub shares_name : Tree → Tree → Bool
shares_name a b = any_of (λ f. is_some (lookup f.0 b)) a

unfoldable pub copy_folder : Bytes → Bytes → World → World × Bool
unfolding shares_name
copy_folder a b w = elim (folder_at w a) [
  | none ↦ (w, false)
  | some t ↦
      let r = value_or (folder_at w b) [] in
      let v = settled w in
      if faulty w || shares_name t r
      then (record v { folders = insert b (w.partly t r) v.folders }, false)
      else (record v { folders = insert b (t ++ r) v.folders }, true)
]

-- `create_directories` of the folder itself, whose failure is passed over.
unfoldable pub create_folder : Bytes → World → World
create_folder p w = elim (folder_at w p) [
  | some t ↦ w
  | none ↦ let v = settled w in if faulty w then v else record v { folders = insert p [] v.folders }
]

-- What stands before and after the last slash.
last_slash : Bytes → Option (Bytes × Bytes)
last_slash [] = none
last_slash (c ∷ s) = elim (last_slash s) [
  | some (a, b) ↦ some (c ∷ a, b)
  | none ↦ if c == b'/' then some ([], s) else none
]

-- `parent_path` and `filename` of a path with no double slash.
parent_path : Bytes → Bytes
unfolding last_slash
parent_path p = elim (last_slash p) [ none ↦ [] | some (a, b) ↦ if is_nil a then b'/' ∷ [] else a ]

filename : Bytes → Bytes
unfolding last_slash
filename p = elim (last_slash p) [ none ↦ p | some (a, b) ↦ b ]

-- The path beside a folder whose name has the suffix.
unfoldable pub beside : Bytes → Bytes → Bytes
unfolding parent_path filename
beside suffix dest = path_append (parent_path dest) (filename dest ++ suffix)
