-- ===== src/Presence/Publishing.antt =====
-- What the profile's presence reads as.
use openpak_client.Shared.{
  ℕ, ◌≡◌, ◌≢◌, ◌⊎◌, Bool, true, false, Option, none, some, List, [], ◌∷◌, if◌then◌else◌, bytes_eq,
  arith, ◌==◌, Bytes, codes, nat_eq, text_eq,
}
use openpak_client.Shared.Int.{ℤ}
use openpak_client.Presence.{
  State, DeclaredPresence, declared_for, update, set_running_application, clear, application,
  own_presence_group_id, current,
}
use openpak_client.Presence.Declared.{session_after}

-- With no title running the presence is inactive and empty; else it names the title and its group and
-- carries what is declared for the title, and says playing exactly while a session is declared open.
pub current_cases :
    (p : Bytes) (s : State)
    → let c = current p s in
      let d = declared_for p s.application_id s in
      (s.application_id ≡ 0)
        × (c.state ≡ codes "INACTIVE")
        × (c.application_id ≡ 0)
        × (c.app_field ≡ codes "{}")
      ⊎ (s.application_id ≢ 0)
        × (c.application_id ≡ s.application_id)
        × (c.presence_group_id ≢ 0)
        × (c.app_field ≡ d.app_field)
        × ((d.session_open ≡ true) × (c.state ≡ codes "PLAYING")
            ⊎ (d.session_open ≡ false) × (c.state ≡ codes "ONLINE"))
unfolding current own_presence_group_id application
current_cases p s = ground arith

-- What happens to the state: a title is launched, or none is (0); a profile declares for a title; the
-- declarations are cleared.
pub data Event : Type 0 where
  launches : ℕ → ℕ → Event
  declares : Bytes → ℕ → ℕ → Option Bytes → ℤ → Event
  clears : Event

unfoldable pub happen : Event → State → State
happen (launches title group) s = set_running_application title group s
happen (declares p title declaration field now) s = (update p title declaration field now s).0
happen clears s = clear s

abbrev pub at_start : State
at_start = record { application_id = 0; presence_group_id = 0; states = []; has_callback = false }

-- The state behind a history, the latest event first.
unfoldable pub behind : List Event → State
unfolding happen
behind [] = at_start
behind (e ∷ es) = happen e (behind es)

-- The title and the group that were launched last.
abbrev pub running : List Event → ℕ × ℕ
running [] = (0, 0)
running (launches title group ∷ es) = (title, group)
running (declares p title declaration field now ∷ es) = running es
running (clears ∷ es) = running es

-- What a profile has declared for a title since it last declared for another, the latest first.
abbrev pub recent : Bytes → ℕ → List Event → List (ℕ × Option Bytes)
recent p t [] = []
recent p t (launches title group ∷ es) = recent p t es
recent p t (declares q title declaration field now ∷ es) =
    let rest = recent p t es in
    if bytes_eq q p then (if title == t then (declaration, field) ∷ rest else []) else rest
recent p t (clears ∷ es) = []

-- Whether the latest declaration that opens or closes a session opens one.
abbrev pub last_session : List (ℕ × Option Bytes) → Bool
last_session [] = false
last_session ((declaration, field) ∷ ds) = session_after declaration (last_session ds)

-- The latest pairs.
abbrev pub last_field : List (ℕ × Option Bytes) → Bytes
last_field [] = codes "{}"
last_field ((declaration, none) ∷ ds) = last_field ds
last_field ((declaration, some field) ∷ ds) = field

-- A declaration as the history tells it.
IsTold : DeclaredPresence → List (ℕ × Option Bytes) → Type 0
IsTold d ds = (d.session_open ≡ last_session ds) × (d.app_field ≡ last_field ds)
