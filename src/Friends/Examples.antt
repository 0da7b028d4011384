-- ===== src/Friends/Examples.antt =====
-- The theorems about the shared presence at concrete caches.
use openpak_client.Shared.{◌≡◌, true, [], ◌∷◌, ◌++◌, codes, nat_eq, text_eq}
use openpak_client.Shared.Int.{pos}
use openpak_client.Friends.{Cache, PendingInvitation, peek_pending_invitations}
use openpak_client.Friends.Publishing.{
  at_start, IsCurrent, run, presence, status, poll, run-IsCurrent,
}
use openpak_client.Friends.Invitations.{arrive, pop, deliver, arrived, deliver-arrived}

abbrev start : Cache
start = record {
  entries = [];
  local_status = pos 0;
  local_app_field = codes "{}";
  local_dirty = true;
  local_last_push = 0;
  pending_invitations = [];
  outgoing_invitation_parameter = [];
  has_callback = true;
}

run-IsCurrent_example :
    IsCurrent
      (run (poll 5 ∷ presence (pos 1) (codes "{}") ∷ status (pos 1) ∷ poll 50 ∷ []) at_start)
run-IsCurrent_example =
    run-IsCurrent (poll 5 ∷ presence (pos 1) (codes "{}") ∷ status (pos 1) ∷ poll 50 ∷ [])

abbrev bob : PendingInvitation
bob = record { from_pid = 3; from_name = codes "bob"; app_param = codes "join" }

abbrev eve : PendingInvitation
eve = record { from_pid = 4; from_name = codes "eve"; app_param = codes "x" }

deliver-arrived_example :
    (deliver (arrive (bob ∷ eve ∷ []) ∷ pop ∷ arrive (bob ∷ []) ∷ []) start).1
      ++ peek_pending_invitations
          (deliver (arrive (bob ∷ eve ∷ []) ∷ pop ∷ arrive (bob ∷ []) ∷ []) start).0
    ≡ peek_pending_invitations start
      ++ arrived (arrive (bob ∷ eve ∷ []) ∷ pop ∷ arrive (bob ∷ []) ∷ [])
deliver-arrived_example =
    deliver-arrived (arrive (bob ∷ eve ∷ []) ∷ pop ∷ arrive (bob ∷ []) ∷ []) start
