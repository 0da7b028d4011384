-- ===== src/Saves/Swap.antt =====
-- `SwapIntoPlace` never loses the old save, whichever of its calls fail.
use openpak_client.Saves.Renaming.{
  rename_folder-other, remove_all-clean, rename_folder-clean, Renamed, folder_at-remove_all,
  rename_folder-Renamed,
}
use openpak_client.Shared.{
  ◌≡◌, refl, sym, ap, ◌∙◌, ◌≢◌, ◌⊎◌, inl, inr, Bool, true, false, none, some, [], Bool-cases,
  Option-cases, is_some, Bytes, text_eq,
}
use openpak_client.Shared.Maps.{lookup}
use openpak_client.Saves.{previous_path, put_in_place, swap_into_place}
use openpak_client.Saves.Folders.{Tree, World, folder_at, remove_all, rename_folder}

-- The three paths of a swap are different.
pub record AreApart (staged dest : Bytes) : Type 0 where
  pub staged_dest : staged ≢ dest
  pub staged_previous : staged ≢ previous_path dest
  pub dest_previous : dest ≢ previous_path dest

-- Either the new save is in place and the answer is yes, or the old one is whole, in its place or under the
-- name it was moved to, and the answer is no.
abbrev pub IsKept : Bytes → Tree → Tree → World × Bool → Type 0
IsKept dest old new (v, done) =
    ((done ≡ true) × (folder_at v dest ≡ some new))
    ⊎ ((done ≡ false)
        × ((folder_at v dest ≡ some old) ⊎ (folder_at v (previous_path dest) ≡ some old)))

module _ (staged dest : Bytes) (apart : AreApart staged dest) (old new : Tree) where
  put_in_place-IsKept :
      (w : World)
      → folder_at w (previous_path dest) ≡ some old
      → folder_at w staged ≡ some new
      → IsKept dest old new (put_in_place staged dest w)
  unfolding put_in_place Renamed
  put_in_place-IsKept w was is =
      let previous = previous_path dest in
      let moved = rename_folder staged dest w in
      let back = rename_folder previous dest moved.0 in
      elim (rename_folder-Renamed staged dest w apart.staged_dest) [
        | inl (done, now, gone, others) ↦ rw done (
            inl (
              refl,
              folder_at-remove_all previous dest moved.0 (λ e. apart.dest_previous (sym e))
                  ∙ (now ∙ is),
            ))
        | inr (failed, same) ↦
            let still : folder_at moved.0 previous ≡ some old =
              ap (λ m. lookup previous m) same ∙ was in
            elim (Bool-cases (w.unseen previous)) [
              | inl u ↦ rw (failed, u) (inr (refl, inr still))
              | inr u ↦
                  rw (failed, u)
                    (rw (ap is_some still)
                      (elim (rename_folder-Renamed previous dest moved.0
                        (λ e. apart.dest_previous (sym e))) [
                          | inl (done, now, gone, others) ↦ inr (
                            refl,
                            inl (
                                folder_at-remove_all staged dest back.0 apart.staged_dest
                                ∙ (now ∙ still)),
                          )
                          | inr (failed2, same2) ↦ inr (
                            refl,
                            inr (
                                folder_at-remove_all staged previous back.0 apart.staged_previous
                                ∙ (ap (λ m. lookup previous m) same2 ∙ still)),
                          )
                        ]))
            ]
      ]

  -- Whichever of the calls fail, and whatever a failed removal leaves, a swap of a staged folder onto
  -- a save, where the three paths are different, either puts the new one in place and says so, or says no
  -- or throws and the old save is whole, in its place or beside it.
  pub swap_into_place-IsKept :
      (w : World)
      → folder_at w dest ≡ some old
      → folder_at w staged ≡ some new
      → IsKept dest old new (swap_into_place staged dest w)
  unfolding swap_into_place Renamed
  swap_into_place-IsKept w was is =
      let previous = previous_path dest in
      let cleared = remove_all previous w in
      let kept = rename_folder dest previous cleared in
      let here : folder_at cleared dest ≡ some old =
        folder_at-remove_all previous dest w (λ e. apart.dest_previous (sym e)) ∙ was in
      let there : folder_at cleared staged ≡ some new =
        folder_at-remove_all previous staged w (λ e. apart.staged_previous (sym e)) ∙ is in
      elim (Bool-cases (w.unseen dest)) [
        | inl u ↦ rw u (inr (refl, inl here))
        | inr u ↦
            rw (u, ap is_some here)
              (elim (rename_folder-Renamed dest previous cleared apart.dest_previous) [
                | inl (done, now, gone, others) ↦ rw done (
                    put_in_place-IsKept kept.0 (now ∙ here) (
                      others staged (λ e. apart.staged_dest (sym e))
                        (λ e. apart.staged_previous (sym e))
                      ∙ there))
                | inr (failed, same) ↦ rw failed (
                    inr (
                      refl,
                      inl (
                          folder_at-remove_all staged dest kept.0 apart.staged_dest
                          ∙ (ap (λ m. lookup dest m) same ∙ here)),
                    ))
              ])
      ]

module _ (staged dest q : Bytes) (apart : AreApart staged dest) (sq : staged ≢ q) (dq : dest ≢ q)
    (pq : previous_path dest ≢ q) where
  put_in_place-other : (w : World) → folder_at (put_in_place staged dest w).0 q ≡ folder_at w q
  unfolding put_in_place
  put_in_place-other w =
      let previous = previous_path dest in
      let moved = rename_folder staged dest w in
      let same = rename_folder-other staged dest q w apart.staged_dest sq dq in
      let back = rename_folder previous dest moved.0 in
      let again =
        rename_folder-other previous dest q moved.0 (λ e. apart.dest_previous (sym e)) pq dq in
      elim (Bool-cases moved.1) [
        | inl e ↦ rw e (folder_at-remove_all previous q moved.0 pq ∙ same)
        | inr e ↦ elim (Bool-cases (w.unseen previous)) [
          | inl u ↦ rw (e, u) same
          | inr u ↦ elim (Bool-cases (is_some (folder_at moved.0 previous))) [
            | inl f ↦ rw (e, u, f) (folder_at-remove_all staged q back.0 sq ∙ (again ∙ same))
            | inr f ↦ rw (e, u, f) (folder_at-remove_all staged q moved.0 sq ∙ same)
          ]
        ]
      ]

  pub swap_into_place-other :
      (w : World) → folder_at (swap_into_place staged dest w).0 q ≡ folder_at w q
  unfolding swap_into_place
  swap_into_place-other w =
      let previous = previous_path dest in
      let cleared = remove_all previous w in
      let kept = rename_folder dest previous cleared in
      let before = folder_at-remove_all previous q w pq in
      let same = rename_folder-other dest previous q cleared apart.dest_previous dq pq ∙ before in
      elim (Bool-cases (w.unseen dest)) [
        | inl u ↦ rw u before
        | inr u ↦ elim (Bool-cases (is_some (folder_at cleared dest))) [
          | inr e ↦ rw (u, e) (put_in_place-other cleared ∙ before)
          | inl e ↦ elim (Bool-cases kept.1) [
            | inl f ↦ rw (u, e, f) (put_in_place-other kept.0 ∙ same)
            | inr f ↦ rw (u, e, f) (folder_at-remove_all staged q kept.0 sq ∙ same)
          ]
        ]
      ]

-- The new save is in place, and neither the staged folder nor the old save is left beside it.
abbrev pub IsSwapped : Bytes → Bytes → Tree → World × Bool → Type 0
IsSwapped staged dest new (v, done) =
    (done ≡ true)
    × (folder_at v dest ≡ some new)
    × (folder_at v staged ≡ none)
    × (folder_at v (previous_path dest) ≡ none)

module _ (staged dest : Bytes) (apart : AreApart staged dest) (new : Tree) where
  put_in_place-IsSwapped :
      (w : World)
      → w.faults ≡ []
      → folder_at w dest ≡ none
      → folder_at w staged ≡ some new
      → IsSwapped staged dest new (put_in_place staged dest w)
  unfolding put_in_place Renamed
  put_in_place-IsSwapped w clean free is =
      let previous = previous_path dest in
      let moved = rename_folder staged dest w in
      let (did, still) = rename_folder-clean staged dest w new clean is free in
      elim (rename_folder-Renamed staged dest w apart.staged_dest) [
        | inr (failed, same) ↦ cc
        | inl (done, now, gone, others) ↦ rw done (
          refl,
          folder_at-remove_all previous dest moved.0 (λ e. apart.dest_previous (sym e))
              ∙ (now ∙ is),
          folder_at-remove_all previous staged moved.0 (λ e. apart.staged_previous (sym e)) ∙ gone,
          (remove_all-clean previous moved.0 still).0,
        )
      ]

  -- Where no call fails or throws and the three paths are different, a swap puts the staged save in place, says so,
  -- and leaves nothing beside it, whether there was a save before or not.
  pub swap_into_place_complete :
      (w : World)
      → w.faults ≡ []
      → w.unseen dest ≡ false
      → folder_at w staged ≡ some new
      → IsSwapped staged dest new (swap_into_place staged dest w)
  unfolding swap_into_place Renamed
  swap_into_place_complete w clean seen is =
      let previous = previous_path dest in
      let cleared = remove_all previous w in
      let kept = rename_folder dest previous cleared in
      let (empty, calm) = remove_all-clean previous w clean in
      let there : folder_at cleared staged ≡ some new =
        folder_at-remove_all previous staged w (λ e. apart.staged_previous (sym e)) ∙ is in
      elim (Option-cases (folder_at cleared dest)) [
        | inl e ↦ rw (seen, ap is_some e) (put_in_place-IsSwapped cleared calm e there)
        | inr (old, e) ↦
            let (did, still) = rename_folder-clean dest previous cleared old calm e empty in
            elim (rename_folder-Renamed dest previous cleared apart.dest_previous) [
              | inr (failed, same) ↦ cc
              | inl (done, now, gone, others) ↦
                  rw (seen, ap is_some e)
                    (rw done (
                      put_in_place-IsSwapped kept.0 still gone (
                        others staged (λ e. apart.staged_dest (sym e))
                          (λ e. apart.staged_previous (sym e))
                        ∙ there)))
            ]
      ]
