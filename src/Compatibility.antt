-- ===== src/Compatibility.antt =====
-- client/openpak/compatibility.cpp: how far a title is supported, from the list that the build ships
-- and from the site's answers. The shipped tables are data that a tool writes, and are arguments here.
pub mod Words
pub mod Answers
pub mod Emulators
pub mod Refreshing
mod Examples
use openpak_client.Platform.{to_lower}
use openpak_client.Shared.{
  ℕ, ◌+◌, ◌-◌, ◌*◌, ◌%◌, ◌^◌, Bool, true, false, not, ◌&&◌, ◌||◌, Option, none, some, List, [], ◌∷◌,
  map, ltb, leb, ◌==◌, if◌then◌else◌, value_or, is_some, ◌>>=◌, ◌>>◌, length, is_nil, any_of,
  keep_if, find_if, Bytes, codes, bytes_eq, nat_eq, text_eq,
}
use openpak_client.Shared.Maps.{lookup, insert}

pub data Status : Type 0 where
  live beta alpha : Status

pub data Playability : Type 0 where
  playable in_game menus boots nothing : Playability

pub record Entry : Type 0 where
  pub status : Status
  pub name : Bytes
  pub backend : Bytes

pub record Shipped : Type 0 where
  pub title_id : ℕ
  pub name : Bytes
  pub backend : Bytes
  pub status : Bytes

pub record ShippedPlay : Type 0 where
  pub title_id : ℕ
  pub client : Bytes
  pub playability : Bytes

-- The statics of the file.
pub record State : Type 0 where
  pub live_statuses : List (ℕ × Status)
  pub live_play : List (ℕ × Playability)
  pub names : List (ℕ × Bytes)
  pub names_loaded : Bool

pub parse : Bytes → Option Status
parse status =
    let lower = to_lower status in
    if bytes_eq lower (codes "live")
    then some live
    else if bytes_eq lower (codes "beta")
    then some beta
    else if bytes_eq lower (codes "alpha")
    then some alpha
    else none

pub status_name : Status → Bytes
status_name live = codes "live"
status_name beta = codes "beta"
status_name alpha = codes "alpha"

pub parse_playability : Bytes → Option Playability
parse_playability word =
    let lower = to_lower word in
    if bytes_eq lower (codes "playable")
    then some playable
    else if bytes_eq lower (codes "ingame")
    then some in_game
    else if bytes_eq lower (codes "menus")
    then some menus
    else if bytes_eq lower (codes "boots")
    then some boots
    else if bytes_eq lower (codes "nothing")
    then some nothing
    else none

pub playability_name : Playability → Bytes
playability_name playable = codes "playable"
playability_name in_game = codes "ingame"
playability_name menus = codes "menus"
playability_name boots = codes "boots"
playability_name nothing = codes "nothing"

-- `std::stoull` in base 16: blanks, a sign, `0x`, and then the digits as far as they go.
abbrev is_space : ℕ → Bool
is_space c = (c == b' ') || (leb 9 c && leb c 13)

abbrev hex_value : ℕ → Option ℕ
hex_value c =
    if leb b'0' c && leb c b'9'
    then some (c - b'0')
    else if leb b'a' c && leb c b'f'
    then some (c - b'a' + 10)
    else if leb b'A' c && leb c b'F'
    then some (c - b'A' + 10)
    else none

hex_run : Bytes → ℕ → ℕ
hex_run [] v = v
hex_run (c ∷ s) v = elim (hex_value c) [ none ↦ v | some d ↦ hex_run s (v * 16 + d) ]

starts_hex : Bytes → Bool
starts_hex [] = false
starts_hex (c ∷ s) = is_some (hex_value c)

drop_prefix : Bytes → Bytes
unfolding starts_hex
drop_prefix (z ∷ x ∷ s) =
    if (z == b'0') && (((x == b'x') || (x == b'X')) && starts_hex s) then s else z ∷ x ∷ s
drop_prefix s = s

hex_number : Bool → Bytes → Option ℕ
unfolding hex_run starts_hex drop_prefix
hex_number negative s =
    let digits = drop_prefix s in
    let v = hex_run digits 0 in
    if starts_hex digits && ltb v (2 ^ 64)
    then some (if negative then (2 ^ 64 - v) % 2 ^ 64 else v)
    else none

after_sign : Bytes → Option ℕ
unfolding hex_number
after_sign [] = none
after_sign (c ∷ s) =
    if c == b'-'
    then hex_number true s
    else if c == b'+'
    then hex_number false s
    else hex_number false (c ∷ s)

stoull_hex : Bytes → Option ℕ
unfolding after_sign
stoull_hex [] = none
stoull_hex (c ∷ s) = let rest = stoull_hex s in if is_space c then rest else after_sign (c ∷ s)

-- `ParseTitleId`.
pub parse_title_id : Bytes → Option ℕ
unfolding stoull_hex
parse_title_id id = if length id == 16 then stoull_hex id else none

module _ {ℓ} {V : Type ℓ} (word : Bytes → Option V) where
  -- What one row of an answer gives, if it can be used.
  pub row : Bytes × Bytes → Option (ℕ × V)
  row (id, text) = do v ← word text; k ← parse_title_id id; some (k, v)

  -- The loop over an answer: a row that cannot be used is passed over, a later row replaces an
  -- earlier one.
  pub gather : List (Bytes × Bytes) → List (ℕ × V) → List (ℕ × V)
  gather [] m = m
  gather (r ∷ rows) m = gather rows (elim (row r) [ none ↦ m | some (k, v) ↦ insert k v m ])

abbrev pub non_empty : Bytes → Option Bytes
non_empty name = if is_nil name then none else some name

module _ (shipped : List Shipped) where
  pub find_shipped : ℕ → Option Shipped
  find_shipped title_id = find_if (λ s. s.title_id == title_id) shipped

  -- What the build says of a title.
  abbrev shipped_status : ℕ → Option Status
  shipped_status title_id = elim (find_shipped title_id) [ none ↦ none | some s ↦ parse s.status ]

  pub merge : Option Shipped → Option Status → Option Entry
  merge none none = none
  merge none (some now) = some (record { status = now; name = []; backend = [] })
  merge (some s) now = some (record {
    status = value_or now (value_or (parse s.status) alpha);
    name = s.name;
    backend = s.backend;
  })

  -- `Find`.
  pub find : ℕ → State → Option Entry
  unfolding merge
  find title_id s = merge (find_shipped title_id) (lookup title_id s.live_statuses)

  same_status : Status → Status → Bool
  same_status a b = bytes_eq (status_name a) (status_name b)

  status_differs : ℕ × Status → Bool
  unfolding same_status
  status_differs (id, status) = elim (shipped_status id) [
    | none ↦ true
    | some old ↦ not (same_status old status)
  ]

  -- `Apply`: whether at least one status is not the build's.
  pub apply : List (Bytes × Bytes) → State → State × Bool
  unfolding gather status_differs
  apply statuses s =
      let heard = gather parse statuses [] in
      if is_nil heard
      then (s, false)
      else (record s { live_statuses = heard }, any_of status_differs heard)

  -- `CatalogueName`.
  pub catalogue_name : ℕ → State → Bytes
  catalogue_name title_id s = elim (lookup title_id s.names) [
    | some name ↦ name
    | none ↦ elim (find_shipped title_id) [ none ↦ [] | some row ↦ row.name ]
  ]

-- `ApplyNames`.
pub apply_names : List (Bytes × Bytes) → State → State
unfolding gather
apply_names names s =
    let parsed = gather non_empty names [] in
    if is_nil parsed then s else record s { names = parsed; names_loaded = true }

-- `LoadNames`, with the names that the site would answer.
pub load_names : List (Bytes × Bytes) → State → State
load_names names s = if s.names_loaded then s else apply_names names s

-- One title's verdicts: only this emulator's, and only one of the five words.
gather_clients : Bytes → ℕ → List (Bytes × Bytes) → List (ℕ × Playability) → List (ℕ × Playability)
gather_clients client title_id [] m = m
gather_clients client title_id ((name, word) ∷ rows) m = gather_clients client title_id rows (
    if bytes_eq (to_lower name) client
    then (elim (parse_playability word) [ none ↦ m | some p ↦ insert title_id p m ])
    else m)

pub gather_play :
    Bytes → List (Bytes × List (Bytes × Bytes)) → List (ℕ × Playability) → List (ℕ × Playability)
unfolding gather_clients
gather_play client [] m = m
gather_play client ((id, by_client) ∷ rows) m = gather_play client rows (elim (parse_title_id id) [
  | none ↦ m
  | some title_id ↦ gather_clients client title_id by_client m
])

-- The tests of the tables compare the words of the verdicts.
same_verdict : Playability → Playability → Bool
same_verdict a b = bytes_eq (playability_name a) (playability_name b)

module _ (shipped_play : List ShippedPlay) where
  -- `FindShippedPlay`.
  pub find_shipped_play : ℕ → Bytes → Option Playability
  find_shipped_play title_id client =
      elim (find_if (λ r. (r.title_id == title_id) && bytes_eq (to_lower r.client) client)
        shipped_play) [ none ↦ none | some row ↦ parse_playability row.playability ]

  -- `FindPlayability`, for the client that the host named.
  pub find_playability : Bytes → ℕ → State → Option Playability
  find_playability client_name title_id s =
      let client = to_lower client_name in
      if is_nil client then none else elim (lookup title_id s.live_play) [
        | some p ↦ some p
        | none ↦ find_shipped_play title_id client
      ]

  verdict_differs : Bytes → ℕ × Playability → Bool
  unfolding same_verdict
  verdict_differs client (id, verdict) = elim (find_shipped_play id client) [
    | none ↦ true
    | some old ↦ not (same_verdict old verdict)
  ]

  -- `ApplyPlayability`.
  pub apply_playability : Bytes → List (Bytes × List (Bytes × Bytes)) → State → State × Bool
  unfolding gather_play verdict_differs
  apply_playability client_name playability s =
      let client = to_lower client_name in
      let heard : List (ℕ × Playability) =
        if is_nil client then [] else gather_play client playability [] in
      if is_nil heard
      then (s, false)
      else (record s { live_play = heard }, any_of (verdict_differs client) heard)

-- What the catalogue says of one title: its id, status, name and verdicts.
pub record Title : Type 0 where
  pub id : Bytes
  pub status : Bytes
  pub name : Bytes
  pub playability : List (Bytes × Bytes)

-- The three maps that `Refresh` makes of the catalogue.
pub statuses_of : List Title → List (Bytes × Bytes)
statuses_of titles = map (λ t. (t.id, t.status)) (keep_if (λ t. not (is_nil t.status)) titles)

pub names_of : List Title → List (Bytes × Bytes)
names_of titles = map (λ t. (t.id, t.name)) titles

pub playability_of : List Title → List (Bytes × List (Bytes × Bytes))
playability_of titles =
    map (λ t. (t.id, t.playability)) (keep_if (λ t. not (is_nil t.playability)) titles)

-- `Refresh`, with the catalogue that the site answers: both halves run, and either may be news.
pub refresh : List Shipped → List ShippedPlay → Bytes → List Title → State → State × Bool
unfolding statuses_of playability_of
refresh shipped shipped_play client titles s =
    let named = apply_names (names_of titles) s in
    let (known, status_news) = apply shipped (statuses_of titles) named in
    let (played, play_news) = apply_playability shipped_play client (playability_of titles) known in
    (played, status_news || play_news)
