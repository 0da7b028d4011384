-- ===== src/Presence.antt =====
-- client/openpak/presence_state.cpp: what the running game declared, per profile, and what presence
-- publishes of it. Each call holds the lock, so it is a function of the state; the clock is an
-- argument. The blob's conversions are those of Structs/Blob.antt.
pub mod Declared
pub mod Publishing
mod Examples
use openpak_client.Shared.{
  ℕ, zero, suc, ◌+◌, ◌-◌, ◌/◌, ◌%◌, Bool, true, false, not, ◌&&◌, ◌||◌, Option, none, some, List,
  [], ◌∷◌, ◌++◌, ltb, ◌==◌, if◌then◌else◌, value_or, Bytes, codes, bytes_eq, nat_eq, text_eq,
}
use openpak_client.Shared.Maps.{lookup, insert}
use openpak_client.Shared.Int.{ℤ, pos}
use openpak_client.Structs.Json.{json_string}
use openpak_client.Structs.Blob.{Event, blob_to_app_field}
use openpak_client.Structs.Filter.{FriendPresence, to_user_presence_view}

pub record DeclaredPresence : Type 0 where
  pub title_id : ℕ
  pub session_open : Bool
  pub app_field : Bytes
  pub updated_at : ℤ

pub record PresencePublication : Type 0 where
  pub state : Bytes
  pub application_id : ℕ
  pub presence_group_id : ℕ
  pub app_field : Bytes

abbrev pub declaration_open : ℕ
declaration_open = 1

abbrev pub declaration_close : ℕ
declaration_close = 2

-- `PresenceState`; `has_callback` says whether a changed callback is set.
pub record State : Type 0 where
  pub application_id : ℕ
  pub presence_group_id : ℕ
  pub states : List (Bytes × DeclaredPresence)
  pub has_callback : Bool

pub set_running_application : ℕ → ℕ → State → State
set_running_application application_id presence_group_id s = record s {
  application_id = application_id;
  presence_group_id = presence_group_id;
}

-- `Application`: a title with no group is its own group.
unfoldable pub application : State → ℕ × ℕ
application s = (
  s.application_id,
  (if not (s.presence_group_id == 0) then s.presence_group_id else s.application_id),
)

pub own_presence_group_id : State → ℕ
unfolding application
own_presence_group_id s = (application s).1

abbrev pub fresh : ℕ → DeclaredPresence
fresh title_id = record {
  title_id = title_id;
  session_open = false;
  app_field = codes "{}";
  updated_at = pos 0;
}

-- What was found, if it is for this title.
for_title : Option DeclaredPresence → ℕ → DeclaredPresence
for_title none title_id = fresh title_id
for_title (some d) title_id = if d.title_id == title_id then d else fresh title_id

-- `ForLocked`.
pub declared_for : Bytes → ℕ → State → DeclaredPresence
unfolding for_title
declared_for profile_id title_id s = for_title (lookup profile_id s.states) title_id

abbrev pub same_bool : Bool → Bool → Bool
same_bool true b = b
same_bool false b = not b

-- The declaration that an update leaves, before it is stamped.
pub declare : DeclaredPresence → ℕ → ℕ → Option Bytes → DeclaredPresence
declare previous title_id declaration app_field = record previous {
  title_id = title_id;
  session_open =
      if declaration == declaration_open
      then true
      else if declaration == declaration_close
      then false
      else previous.session_open;
  app_field = value_or app_field previous.app_field;
}

pub differs : DeclaredPresence → DeclaredPresence → Bool
differs next previous =
    not (same_bool next.session_open previous.session_open)
    || (not (bytes_eq next.app_field previous.app_field)
        || not (next.title_id == previous.title_id))

-- `Update`: the state, whether anything changed, and whether the callback is called for it.
pub update : Bytes → ℕ → ℕ → Option Bytes → ℤ → State → State × Bool × Bool
unfolding declare differs
update profile_id title_id declaration app_field now s =
    let previous = declared_for profile_id title_id s in
    let next = declare previous title_id declaration app_field in
    let changed = differs next previous in
    let stored = record next { updated_at = if changed then now else next.updated_at } in
    (record s { states = insert profile_id stored s.states }, changed, changed && s.has_callback)

-- `DeclareOpenOnlinePlaySession` and `DeclareCloseOnlinePlaySession`.
pub declare_open : Bytes → ℤ → State → State × Bool × Bool
declare_open profile_id now s = update profile_id s.application_id declaration_open none now s

pub declare_close : Bytes → ℤ → State → State × Bool × Bool
declare_close profile_id now s = update profile_id s.application_id declaration_close none now s

-- `UpdateUserPresence` with a struct's declaration byte and storage.
pub update_user_presence : Bytes → ℕ → Bytes → ℤ → State → State × Bool × Bool
update_user_presence profile_id declaration storage now s =
    update profile_id s.application_id declaration (some (blob_to_app_field storage)) now s

-- `Current`.
pub current : Bytes → State → PresencePublication
current profile_id s =
    let declared = declared_for profile_id s.application_id s in
    if s.application_id == 0
    then record {
      state = codes "INACTIVE";
      application_id = 0;
      presence_group_id = 0;
      app_field = codes "{}";
    }
    else record {
      state = if declared.session_open then codes "PLAYING" else codes "ONLINE";
      application_id = s.application_id;
      presence_group_id = own_presence_group_id s;
      app_field = declared.app_field;
    }

-- `OwnPresenceView`.
pub own_presence_view : (Bytes → List Event × Bool) → Bytes → State → FriendPresence
own_presence_view sax profile_id s =
    let declared = declared_for profile_id s.application_id s in
    to_user_presence_view sax s.application_id (own_presence_group_id s) declared.updated_at
      declared.session_open declared.app_field

pub set_changed_callback : Bool → State → State
set_changed_callback callback s = record s { has_callback = callback }

pub clear : State → State
clear s = record s { states = [] }

-- The low digits of a number in lowercase hexadecimal, `{:016x}` for sixteen.
pub hex : ℕ → ℕ → Bytes → Bytes
hex zero n out = out
hex (suc k) n out =
    let d = n % 16 in hex k (n / 16) ((if ltb d 10 then b'0' + d else b'a' + (d - 10)) ∷ out)

-- `PresencePatch`.
pub presence_patch : PresencePublication → Bytes
unfolding hex
presence_patch p =
    codes "[{\"op\":\"replace\",\"path\":\"/presence/state\",\"value\":\""
    ++ (p.state
        ++ (codes "\"},{\"op\":\"add\",\"path\":\"/presence/extras/friends/appField\",\"value\":"
            ++ (json_string p.app_field
                ++ (codes
                      "},{\"op\":\"add\",\"path\":\"/presence/extras/friends/appInfo:appId\",\"value\":\""
                    ++ (hex 16 p.application_id []
                        ++ (codes
                              "\"},{\"op\":\"add\",\"path\":\"/presence/extras/friends/appInfo:acdIndex\",\"value\":0},{\"op\":\"add\",\"path\":\"/presence/extras/friends/appInfo:presenceGroupId\",\"value\":\""
                            ++ (hex 16 p.presence_group_id [] ++ codes "\"}]")))))))
