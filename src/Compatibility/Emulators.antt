-- ===== src/Compatibility/Emulators.antt =====
-- Whose verdicts are shown.
use openpak_client.Shared.{
  ℕ, ◌≡◌, refl, ap, ◌∙◌, ◌≢◌, ◌⊎◌, inl, inr, true, false, none, some, List, [], ◌∷◌, map, arith,
  Bool-cases, Option-cases, is_nil, keep_if, Bytes, bytes_eq, nat_eq, text_eq,
}
use openpak_client.Shared.Maps.{lookup}
use openpak_client.Platform.{to_lower}
use openpak_client.Compatibility.{
  Playability, ShippedPlay, State, parse_title_id, gather_clients, gather_play, find_shipped_play,
  find_playability, apply_playability,
}

-- The answer without what it says of other emulators.
abbrev pub only : Bytes → List (Bytes × List (Bytes × Bytes)) → List (Bytes × List (Bytes × Bytes))
only client rows = map (λ r. (r.0, keep_if (λ c. bytes_eq (to_lower c.0) client) r.1)) rows

gather_clients-only :
    (client : Bytes) (id : ℕ) (rows : List (Bytes × Bytes)) (m : List (ℕ × Playability))
    → gather_clients client id (keep_if (λ c. bytes_eq (to_lower c.0) client) rows) m
      ≡ gather_clients client id rows m
unfolding gather_clients
gather_clients-only client id [] m = refl
gather_clients-only client id ((name, word) ∷ rows) m =
    elim (Bool-cases (bytes_eq (to_lower name) client)) [
      | inl e ↦
          rw (e, gather_clients) (rw (e, gather_clients) (gather_clients-only client id rows _))
      | inr e ↦ rw (e, gather_clients) (gather_clients-only client id rows m)
    ]

gather_play-only :
    (client : Bytes) (rows : List (Bytes × List (Bytes × Bytes))) (m : List (ℕ × Playability))
    → gather_play client (only client rows) m ≡ gather_play client rows m
unfolding gather_play
gather_play-only client [] m = refl
gather_play-only client ((id, by_client) ∷ rows) m = elim (Option-cases (parse_title_id id)) [
  | inl e ↦ rw (e, gather_play) (gather_play-only client rows m)
  | inr (k, e) ↦
      rw (e, gather_play)
        (gather_play-only client rows _
          ∙ ap (λ t. gather_play client rows t) (gather_clients-only client k by_client m))
]

-- What an answer says of other emulators changes neither what is kept of it nor whether it is news.
pub apply_playability-only :
    (shipped : List ShippedPlay) (name : Bytes) (rows : List (Bytes × List (Bytes × Bytes)))
    (s : State)
    → apply_playability shipped name (only (to_lower name) rows) s
      ≡ apply_playability shipped name rows s
unfolding apply_playability
apply_playability-only shipped name rows s = rw (gather_play-only (to_lower name) rows [])

is_nil-eq : (s : Bytes) → is_nil s ≡ true → s ≡ []
is_nil-eq [] h = refl
is_nil-eq (c ∷ s) h = ground arith

is_nil-ne : (s : Bytes) → is_nil s ≡ false → s ≢ []
is_nil-ne [] h e = ground arith
is_nil-ne (c ∷ s) h e = ground arith

-- Before the host has named the client nothing has a verdict, whatever the site answered; after it
-- has, a title has the verdict that an answer with any for this client gave, or else the build's.
pub find_playability-apply :
    (shipped : List ShippedPlay) (name : Bytes) (rows : List (Bytes × List (Bytes × Bytes)))
    (s : State) (id : ℕ)
    → let client = to_lower name in
      let heard = gather_play client rows [] in
      let now = find_playability shipped name id (apply_playability shipped name rows s).0 in
      (client ≡ []) × (now ≡ none) × (apply_playability shipped name rows s ≡ (s, false))
      ⊎ ((client ≢ [])
            × (is_nil heard ≡ true)
            × (apply_playability shipped name rows s ≡ (s, false))
          ⊎ (client ≢ [])
            × (is_nil heard ≡ false)
            × (((v : Playability) × (lookup id heard ≡ some v) × (now ≡ some v))
                ⊎ (lookup id heard ≡ none) × (now ≡ find_shipped_play shipped id client)))
unfolding find_playability apply_playability
find_playability-apply shipped name rows s id =
    let client = to_lower name in
    let heard = gather_play client rows [] in
    elim (Bool-cases (is_nil client)) [
      | inl e ↦ inl (is_nil-eq client e, rw e, rw e)
      | inr e ↦ elim (Bool-cases (is_nil heard)) [
        | inl f ↦ inr (inl (is_nil-ne client e, f, rw (e, f)))
        | inr f ↦ inr (
            inr (
              is_nil-ne client e,
              f,
              elim (Option-cases (lookup id heard)) [
                | inl g ↦ inr (g, rw (e, f) (rw g))
                | inr (v, g) ↦ inl (v, g, rw (e, f) (rw g))
              ],
            ))
      ]
    ]
