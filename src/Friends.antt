-- ===== src/Friends.antt =====
-- client/openpak/friends_cache.cpp: what the frontend's polling and the console's friend service
-- share. Each function holds its lock throughout; the steady clock is an argument, in milliseconds.
pub mod Publishing
pub mod Invitations
mod Examples
use openpak_client.Shared.{
  ℕ, ◌+◌, ◌-◌, Bool, true, false, not, ◌&&◌, ◌||◌, Option, none, some, List, [], ◌∷◌, ◌++◌, ltb,
  if◌then◌else◌, is_nil, Bytes, bytes_eq, nat_eq, text_eq,
}
use openpak_client.Shared.Int.{ℤ, int_eq}

-- A friend as the cache holds it; the status is 0 offline, 1 online, 2 in a game.
pub record Entry : Type 0 where
  pub pid : ℕ
  pub name : Bytes
  pub status : ℤ
  pub app_field : Bytes
  pub image : Bytes

pub record PendingInvitation : Type 0 where
  pub from_pid : ℕ
  pub from_name : Bytes
  pub app_param : Bytes

-- The statics of the file; `has_callback` says whether an invitation callback is set.
pub record Cache : Type 0 where
  pub entries : List Entry
  pub local_status : ℤ
  pub local_app_field : Bytes
  pub local_dirty : Bool
  pub local_last_push : ℕ
  pub pending_invitations : List PendingInvitation
  pub outgoing_invitation_parameter : Bytes
  pub has_callback : Bool

-- `kPresenceRefreshInterval`, 45 seconds.
abbrev pub presence_refresh_interval : ℕ
presence_refresh_interval = 45000

pub set : List Entry → Cache → Cache
set entries c = record c { entries = entries }

pub get : Cache → List Entry
get c = c.entries

-- The polling loop of `GetWarm`: each round sleeps 50 ms and reads the cache, which other threads
-- fill: `later` lists what each read finds, and `now` is the clock before the round.
warm_rounds : ℕ → ℕ → List (List Entry) → List Entry → List Entry
warm_rounds now deadline [] entries = entries
warm_rounds now deadline (read ∷ later) entries =
    let more = warm_rounds (now + 50) deadline later read in
    if ltb now deadline then (if is_nil read then more else read) else entries

-- `GetWarm`, with the reads that its rounds make.
pub get_warm : Bool → ℕ → ℕ → List (List Entry) → Cache → List Entry
unfolding warm_rounds
get_warm linked now timeout later c =
    if not (is_nil c.entries) || not linked
    then c.entries
    else warm_rounds now (now + timeout) later c.entries

pub set_local_presence : ℤ → Bytes → Cache → Cache
set_local_presence status app_field c = record c {
  local_dirty =
      if not (int_eq c.local_status status) || not (bytes_eq c.local_app_field app_field)
      then true
      else c.local_dirty;
  local_status = status;
  local_app_field = app_field;
}

pub set_local_status : ℤ → Cache → Cache
set_local_status status c =
    if not (int_eq c.local_status status)
    then record c { local_status = status; local_dirty = true }
    else c

-- `TakeLocalPresenceForPublish`: the presence to publish, if it is time to.
pub take_local_presence : ℕ → Cache → Cache × Option (ℤ × Bytes)
take_local_presence now c =
    if not c.local_dirty && ltb (now - c.local_last_push) presence_refresh_interval
    then (c, none)
    else (
      record c { local_dirty = false; local_last_push = now },
      some (c.local_status, c.local_app_field),
    )

-- `SetPendingInvitations`, with whether the callback is made, which happens after the lock.
pub set_pending_invitations : List PendingInvitation → Cache → Cache × Bool
set_pending_invitations invitations c =
    if is_nil invitations
    then (c, false)
    else (record c { pending_invitations = c.pending_invitations ++ invitations }, c.has_callback)

pub set_invitation_signal_callback : Bool → Cache → Cache
set_invitation_signal_callback callback c = record c { has_callback = callback }

pub peek_pending_invitations : Cache → List PendingInvitation
peek_pending_invitations c = c.pending_invitations

pop_front : Cache → List PendingInvitation → Cache × Option PendingInvitation
pop_front c [] = (c, none)
pop_front c (front ∷ rest) = (record c { pending_invitations = rest }, some front)

pub pop_pending_invitation : Cache → Cache × Option PendingInvitation
unfolding pop_front
pop_pending_invitation c = pop_front c c.pending_invitations

pub set_outgoing_invitation_parameter : Bytes → Cache → Cache
set_outgoing_invitation_parameter app_param c = record c {
  outgoing_invitation_parameter = app_param;
}

pub take_outgoing_invitation_parameter : Cache → Cache × Bytes
take_outgoing_invitation_parameter c =
    (record c { outgoing_invitation_parameter = [] }, c.outgoing_invitation_parameter)
