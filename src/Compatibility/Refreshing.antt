-- ===== src/Compatibility/Refreshing.antt =====
-- `Refresh` as a whole: its three halves do not disturb one another.
use openpak_client.Shared.{
  ℕ, ◌≡◌, ap, ◌∙◌, ◌⊎◌, inl, inr, Bool, true, false, List, [], arith, value_or, Bytes, nat_eq,
  text_eq,
}
use openpak_client.Shared.Maps.{lookup}
use openpak_client.Compatibility.{
  Shipped, ShippedPlay, State, Title, parse, non_empty, merge, find, find_shipped, apply,
  apply_names, catalogue_name, apply_playability, statuses_of, names_of, playability_of, refresh,
}
use openpak_client.Compatibility.Answers.{
  IsEntry, said, heard, find-apply, catalogue_name-apply_names,
}

find_live :
    (shipped : List Shipped) (id : ℕ) (s t : State)
    → s.live_statuses ≡ t.live_statuses
    → find shipped id s ≡ find shipped id t
unfolding find
find_live shipped id s t e = ap (λ l. merge shipped (find_shipped shipped id) (lookup id l)) e

named_live :
    (shipped : List Shipped) (id : ℕ) (s t : State)
    → s.names ≡ t.names
    → catalogue_name shipped id s ≡ catalogue_name shipped id t
unfolding catalogue_name
named_live shipped id s t e = ap (λ n. catalogue_name shipped id (record s { names = n })) e

apply_names-live :
    (rows : List (Bytes × Bytes)) (s : State) → (apply_names rows s).live_statuses ≡ s.live_statuses
unfolding apply_names
apply_names-live rows s = ground arith

apply-names :
    (shipped : List Shipped) (rows : List (Bytes × Bytes)) (s : State)
    → (apply shipped rows s).0.names ≡ s.names
unfolding apply
apply-names shipped rows s = ground arith

apply_playability-live :
    (shipped : List ShippedPlay) (client : Bytes) (rows : List (Bytes × List (Bytes × Bytes)))
    (s : State)
    → ((apply_playability shipped client rows s).0.live_statuses ≡ s.live_statuses)
      × ((apply_playability shipped client rows s).0.names ≡ s.names)
unfolding apply_playability
apply_playability-live shipped client rows s = ground arith

module _ (shipped : List Shipped) (plays : List ShippedPlay) (client : Bytes) (titles : List Title)
    (s : State) (id : ℕ) where
  -- After a refresh, if any row of the catalogue gives a status that can be used, a title's entry has the
  -- status of the last row that names it, the build's where none does (alpha if that cannot be read), and
  -- the build's name and server, and there is no entry where neither names the title; else it keeps the
  -- entry that it had. Its name in the catalogue is, if any row gives one that can be used, the last row's
  -- that names it, and else what the build says; else it keeps the name that it had.
  pub find-refresh :
      ((heard parse (statuses_of titles) ≡ true)
          × IsEntry
              (find_shipped shipped id)
              (said parse (statuses_of titles) id)
              (find shipped id (refresh shipped plays client titles s).0)
        ⊎ (heard parse (statuses_of titles) ≡ false)
          × (find shipped id (refresh shipped plays client titles s).0 ≡ find shipped id s))
      × ((heard non_empty (names_of titles) ≡ true)
            × (catalogue_name shipped id (refresh shipped plays client titles s).0
                ≡ value_or
                    (said non_empty (names_of titles) id)
                    (catalogue_name shipped id (record s { names = [] })))
          ⊎ (heard non_empty (names_of titles) ≡ false)
            × (catalogue_name shipped id (refresh shipped plays client titles s).0
                ≡ catalogue_name shipped id s))
  unfolding refresh
  find-refresh =
      let named = apply_names (names_of titles) s in
      let known = (apply shipped (statuses_of titles) named).0 in
      let played = (apply_playability plays client (playability_of titles) known).0 in
      let kept = apply_playability-live plays client (playability_of titles) known in
      let status : find shipped id played ≡ find shipped id known =
        find_live shipped id played known kept.0 in
      let name : catalogue_name shipped id played ≡ catalogue_name shipped id named =
        named_live shipped id played named
          (kept.1 ∙ apply-names shipped (statuses_of titles) named) in
      (
        elim (find-apply shipped (statuses_of titles) named id) [
          | inl (e, f) ↦ inl (e, rw status f)
          | inr (e, f) ↦ inr (
            e,
            status
                ∙ (ap (λ (r : State × Bool). find shipped id r.0) f
                    ∙ find_live shipped id named s (apply_names-live (names_of titles) s)),
          )
        ],
        elim (catalogue_name-apply_names shipped (names_of titles) s id) [
          | inl (e, f) ↦ inl (e, name ∙ f)
          | inr (e, f) ↦ inr (e, name ∙ ap (catalogue_name shipped id) f)
        ],
      )
