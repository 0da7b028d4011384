-- ===== src/Structs/Filter.antt =====
-- The friend list as a title asks for it: the filters, and the structs that it is given. A blob is
-- built by `AppFieldToBlob`, whose JSON parser is the parameter `sax`.
pub mod Privacy
use openpak_client.Shared.{
  ℕ, Bool, true, false, not, ◌&&◌, ◌||◌, List, ltb, ◌==◌, if◌then◌else◌, drop, replicate, any_of,
  keep_if, Bytes, nat_eq, text_eq,
}
use openpak_client.Shared.Int.{ℤ, pos, negsuc, pos_part, lt_int, int_eq}
use openpak_client.Structs.Utf8.{to_nickname}
use openpak_client.Structs.Blob.{Event, app_field_to_blob}

abbrev pub app_key_value_size : ℕ
app_key_value_size = 0xC0

-- The parts of `baas::Friend` that these functions read; the play log is its presence groups.
pub record Friend : Type 0 where
  pub id : ℕ
  pub nickname : Bytes
  pub state : ℤ
  pub updated_at : ℤ
  pub application_id : ℕ
  pub presence_group_id : ℕ
  pub app_field : Bytes
  pub is_favorite : Bool
  pub is_newly : Bool
  pub play_log : List ℕ

pub data PresenceStatusFilter : Type 0 where
  any_status online online_play online_or_online_play : PresenceStatusFilter

pub record SizedFriendFilter : Type 0 where
  pub presence_status : PresenceStatusFilter
  pub is_favorite_only : Bool
  pub is_same_app_presence_only : Bool
  pub is_same_app_played_only : Bool
  pub is_arbitrary_app_played_only : Bool
  pub presence_group_id : ℕ

pub played : Friend → ℕ → Bool
played f group = not (group == 0) && any_of (λ g. g == group) f.play_log

abbrev status_matches : PresenceStatusFilter → ℤ → Bool
status_matches any_status state = true
status_matches online state = int_eq state (pos 1)
status_matches online_play state = int_eq state (pos 2)
status_matches online_or_online_play state = not (int_eq state (pos 0))

-- Whether the friend runs a title of the presence group.
abbrev pub in_group : Friend → ℕ → Bool
in_group f group = not (f.application_id == 0) && (f.presence_group_id == group)

pub matches : Friend → SizedFriendFilter → ℕ → Bool
unfolding played
matches f filter own =
    if not (status_matches filter.presence_status f.state)
    then false
    else if filter.is_favorite_only && not f.is_favorite
    then false
    else if filter.is_same_app_presence_only && not (in_group f own)
    then false
    else if filter.is_same_app_played_only && (not (in_group f own) && not (played f own))
    then false
    else if filter.is_arbitrary_app_played_only
        && (not (in_group f filter.presence_group_id) && not (played f filter.presence_group_id))
    then false
    else true

-- `Filtered`: the matches, less as many as the offset says; a negative offset takes none away.
-- `offset` is an `int`, of which the code only asks whether it is above 0 before it takes it for a `size_t`.
pub filtered : List Friend → SizedFriendFilter → ℤ → ℕ → List Friend
filtered friends filter offset own =
    drop (pos_part offset) (keep_if (λ f. matches f filter own) friends)

-- `FriendPresenceImpl`.
pub record FriendPresence : Type 0 where
  pub application_id : ℕ
  pub presence_group_id : ℕ
  pub last_update_timestamp : ℤ
  pub status : ℕ
  pub same_presence_group_application : Bool
  pub app_key_value_storage : Bytes

-- `FriendImpl`, with the id of the profile that asks.
pub record FriendImpl : Type 0 where
  pub user_id : ℕ
  pub network_user_id : ℕ
  pub nickname : Bytes
  pub presence : FriendPresence
  pub is_favourite : Bool
  pub is_new : Bool
  pub is_valid : Bool

-- `std::clamp(state, 0, 2)`.
abbrev clamp_status : ℤ → ℕ
clamp_status (pos n) = if ltb 2 n then 2 else n
clamp_status (negsuc n) = 0

module _ (sax : Bytes → List Event × Bool) where
  pub to_friend_impl : Friend → ℕ → ℕ → Bool → FriendImpl
  to_friend_impl f user_id own viewer =
      let playing = not (int_eq f.state (pos 0)) in
      let known = playing || lt_int (pos 0) f.updated_at in
      let application_id : ℕ = if known then f.application_id else 0 in
      let presence_group_id : ℕ = if known then f.presence_group_id else 0 in
      let same_group = not (application_id == 0) && (presence_group_id == own) in
      record {
        user_id = user_id;
        network_user_id = f.id;
        nickname = to_nickname f.nickname;
        presence = record {
          application_id = application_id;
          presence_group_id = presence_group_id;
          last_update_timestamp = f.updated_at;
          status = clamp_status f.state;
          same_presence_group_application = same_group;
          app_key_value_storage =
              if playing && (same_group || viewer)
              then app_field_to_blob sax app_key_value_size f.app_field
              else replicate app_key_value_size 0;
        };
        is_favourite = f.is_favorite;
        is_new = f.is_newly;
        is_valid = true;
      }

  -- `UserPresenceViewImpl`, as `ToUserPresenceViewImpl` builds it.
  pub to_user_presence_view : ℕ → ℕ → ℤ → Bool → Bytes → FriendPresence
  to_user_presence_view application_id presence_group_id updated_at session_open app_field =
      record {
        application_id = application_id;
        presence_group_id = presence_group_id;
        last_update_timestamp = updated_at;
        status = if application_id == 0 then 0 else if session_open then 2 else 1;
        same_presence_group_application = false;
        app_key_value_storage =
            if application_id == 0
            then replicate app_key_value_size 0
            else app_field_to_blob sax app_key_value_size app_field;
      }
