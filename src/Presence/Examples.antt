-- ===== src/Presence/Examples.antt =====
-- What presence publishes after a concrete history.
use openpak_client.Shared.{none, some, List, [], ◌∷◌, codes, nat_eq, text_eq}
use openpak_client.Shared.Int.{pos}
use openpak_client.Presence.Publishing.{Event, launches, declares}

-- The latest first: pairs came, then a session was opened, then a call came without pairs.
abbrev history : List Event
history =
    declares (codes "p") 7 0 none (pos 9)
    ∷ declares (codes "p") 7 1 none (pos 6)
    ∷ declares (codes "p") 7 0 (some (codes "{\"a\":\"1\"}")) (pos 5)
    ∷ launches 7 0
    ∷ []
