-- ===== src/Friends/Publishing.antt =====
-- When the local presence is published, over any history of calls.
use openpak_client.Shared.{
  ℕ, ◌-◌, ◌≤◌, ◌<◌, ◌≡◌, refl, ◌⊎◌, inr, true, false, Option, none, some, List, [], ◌∷◌, arith,
  Bytes, bytes_eq_iff, nat_eq, text_eq,
}
use openpak_client.Shared.Int.{ℤ, pos, negsuc, int_eq}
use openpak_client.Friends.{
  Cache, presence_refresh_interval, set_local_presence, set_local_status, take_local_presence,
}

-- The calls on the local presence; a poll carries the clock's answer.
pub data Call : Type 0 where
  presence : ℤ → Bytes → Call
  status : ℤ → Call
  poll : ℕ → Call

abbrev pub call : Call → Cache → Cache
call (presence s f) c = set_local_presence s f c
call (status s) c = set_local_status s c
call (poll now) c = (take_local_presence now c).0

-- What the server was told last, if anything.
pub record Server : Type 0 where
  pub cache : Cache
  pub published : Option (ℤ × Bytes)

abbrev told : Option (ℤ × Bytes) → Option (ℤ × Bytes) → Option (ℤ × Bytes)
told none old = old
told (some p) old = some p

pub step : Call → Server → Server
step (poll now) s =
    let (c, out) = take_local_presence now s.cache in
    record { cache = c; published = told out s.published }
step (presence st f) s = record s { cache = set_local_presence st f s.cache }
step (status st) s = record s { cache = set_local_status st s.cache }

pub run : List Call → Server → Server
run [] s = s
run (c ∷ cs) s = run cs (step c s)

-- The program's start: the cache is empty and the server was told nothing.
abbrev pub at_start : Server
at_start = record {
  cache = record {
    entries = [];
    local_status = pos 0;
    local_app_field = [];
    local_dirty = false;
    local_last_push = 0;
    pending_invitations = [];
    outgoing_invitation_parameter = [];
    has_callback = false;
  };
  published = none;
}

-- Either a change is marked, or the server was told what the presence is, or it was told nothing and the
-- presence is the one of the start, offline with no pairs.
abbrev pub IsCurrent : Server → Type 0
IsCurrent s =
    (s.cache.local_dirty ≡ true)
    ⊎ ((s.published ≡ some (s.cache.local_status, s.cache.local_app_field))
        ⊎ (s.published ≡ none) × (s.cache.local_status ≡ pos 0) × (s.cache.local_app_field ≡ []))

int_eq_sound : (a b : ℤ) → int_eq a b ≡ true → a ≡ b
int_eq_sound (pos a) (pos b) h = ground arith
int_eq_sound (pos a) (negsuc b) h = ground arith
int_eq_sound (negsuc a) (pos b) h = ground arith
int_eq_sound (negsuc a) (negsuc b) h = ground arith

step-IsCurrent : (c : Call) (s : Server) → IsCurrent s → IsCurrent (step c s)
unfolding step set_local_presence set_local_status take_local_presence
step-IsCurrent (presence st f) s h =
    ground (arith, int_eq_sound s.cache.local_status st, bytes_eq_iff s.cache.local_app_field f)
step-IsCurrent (status st) s h = ground (arith, int_eq_sound s.cache.local_status st)
step-IsCurrent (poll now) s h = ground arith

run-step : (cs : List Call) (s : Server) → IsCurrent s → IsCurrent (run cs s)
unfolding run
run-step [] s h = h
run-step (c ∷ cs) s h = run-step cs (step c s) (step-IsCurrent c s h)

-- After any history of calls since the program's start, either a change is still marked for publishing, or the
-- local presence is the one that was published last, or nothing was published yet and it is the one of the
-- start, status 0 and no pairs.
pub run-IsCurrent : (cs : List Call) → IsCurrent (run cs at_start)
run-IsCurrent cs = run-step cs at_start (inr (inr (refl, refl, refl)))

-- A poll publishes exactly when the presence has changed or 45 seconds have gone by; then it gives
-- the presence as it stands and starts both anew, and else it changes nothing.
pub take_local_presence_lem :
    (now : ℕ) (c : Cache)
    → ((c.local_dirty ≡ true) ⊎ (presence_refresh_interval ≤ now - c.local_last_push))
        × (take_local_presence now c ≡ (
          record c { local_dirty = false; local_last_push = now },
          some (c.local_status, c.local_app_field),
        ))
      ⊎ (c.local_dirty ≡ false)
        × (now - c.local_last_push < presence_refresh_interval)
        × (take_local_presence now c ≡ (c, none))
unfolding take_local_presence
take_local_presence_lem now c = ground arith
