-- ===== src/Saves/Renaming.antt =====
-- What removing and renaming a folder does to every folder, and what it does where no call fails.
use openpak_client.Shared.{
  ◌≡◌, refl, sym, ap, ◌∙◌, ◌≢◌, ◌⊎◌, inl, inr, Bool, true, false, not, ◌||◌, none, some, List, [],
  arith, Bool-cases, Option-cases, is_nil, value_or, Bytes, bytes_eq_iff, text_eq,
}
use openpak_client.Shared.Maps.{
  lookup, insert, remove, lookup-insert, lookup-remove, lookup-insert_self,
}
use openpak_client.Shared.Disk.{ne_beq}
use openpak_client.Saves.Folders.{
  Tree, World, folder_at, faulty, settled, remove_all, rename_folder,
}

pub lookup-insert_other :
    (k j : Bytes) (v : Tree) (m : List (Bytes × Tree))
    → k ≢ j
    → lookup j (insert k v m) ≡ lookup j m
lookup-insert_other k j v m h = ground (arith, lookup-insert k j v m, ne_beq k j h)

lookup-remove_other :
    (k j : Bytes) (m : List (Bytes × Tree)) → k ≢ j → lookup j (remove k m) ≡ lookup j m
lookup-remove_other k j m h = ground (arith, lookup-remove k j m, ne_beq k j h)

lookup-remove_self : (k : Bytes) (m : List (Bytes × Tree)) → lookup k (remove k m) ≡ none
lookup-remove_self k m = ground (arith, lookup-remove k k m, (bytes_eq_iff k k).1 refl)

pub folder_at-remove_all :
    (p q : Bytes) (w : World) → p ≢ q → folder_at (remove_all p w) q ≡ folder_at w q
unfolding remove_all
folder_at-remove_all p q w h = elim (Option-cases (folder_at w p)) [
  | inl e ↦ rw (e, remove_all) refl
  | inr (t, e) ↦ elim (Bool-cases (faulty w)) [
    | inr f ↦ rw (e, f, remove_all) (lookup-remove_other p q w.folders h)
    | inl f ↦ elim (Option-cases (w.remains t)) [
      | inl g ↦ rw (e, f, g, remove_all) (lookup-remove_other p q w.folders h)
      | inr (r, g) ↦ rw (e, f, g, remove_all) (lookup-insert_other p q r w.folders h)
    ]
  ]
]

-- What a rename does: it moves the folder, or it leaves every folder as it is.
unfoldable pub Renamed : Bytes → Bytes → World → World × Bool → Type 0
Renamed a b w (v, done) =
    ((done ≡ true)
      × (folder_at v b ≡ folder_at w a)
      × (folder_at v a ≡ none)
      × ((q : Bytes) → a ≢ q → b ≢ q → folder_at v q ≡ folder_at w q))
    ⊎ ((done ≡ false) × (v.folders ≡ w.folders))

pub rename_folder-Renamed : (a b : Bytes) (w : World) → a ≢ b → Renamed a b w (rename_folder a b w)
unfolding rename_folder Renamed
rename_folder-Renamed a b w h = elim (Option-cases (folder_at w a)) [
  | inl e ↦ rw (e, rename_folder) (inr (refl, refl))
  | inr (t, e) ↦ elim (Bool-cases (faulty w || not (is_nil (value_or (folder_at w b) [])))) [
    | inl f ↦ rw (e, f, rename_folder) (inr (refl, refl))
    | inr f ↦
        rw (e, f, rename_folder)
          (inl (
            refl,
            lookup-insert_self b t (remove a w.folders),
            lookup-insert_other b a t (remove a w.folders) (λ s. h (sym s))
                ∙ lookup-remove_self a w.folders,
            λ q ha hb.
                lookup-insert_other b q t (remove a w.folders) hb
                ∙ lookup-remove_other a q w.folders ha,
          ))
  ]
]

-- Every other folder is left alone.
pub rename_folder-other :
    (a b q : Bytes) (w : World)
    → a ≢ b
    → a ≢ q
    → b ≢ q
    → folder_at (rename_folder a b w).0 q ≡ folder_at w q
unfolding Renamed
rename_folder-other a b q w ab aq bq = elim (rename_folder-Renamed a b w ab) [
  | inl (done, now, gone, others) ↦ others q aq bq
  | inr (failed, same) ↦ ap (λ m. lookup q m) same
]

-- Without failures.
faulty-nil : (w : World) → w.faults ≡ [] → faulty w ≡ false
faulty-nil w h = rw h refl

settled-nil : (w : World) → w.faults ≡ [] → (settled w).faults ≡ []
settled-nil w h = rw h refl

pub remove_all-clean :
    (p : Bytes) (w : World)
    → w.faults ≡ []
    → (folder_at (remove_all p w) p ≡ none) × ((remove_all p w).faults ≡ [])
unfolding remove_all
remove_all-clean p w h = elim (Option-cases (folder_at w p)) [
  | inl e ↦ rw (e, remove_all) (e, h)
  | inr (t, e) ↦
      rw (e, faulty-nil w h, remove_all) (lookup-remove_self p w.folders, settled-nil w h)
]

pub rename_folder-clean :
    (a b : Bytes) (w : World) (t : Tree)
    → w.faults ≡ []
    → folder_at w a ≡ some t
    → folder_at w b ≡ none
    → ((rename_folder a b w).1 ≡ true) × ((rename_folder a b w).0.faults ≡ [])
unfolding rename_folder
rename_folder-clean a b w t h ha hb =
    rw (ha, hb, faulty-nil w h, rename_folder) (refl, settled-nil w h)
