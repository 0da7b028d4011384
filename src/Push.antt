-- ===== src/Push.antt =====
-- client/openpak/push.cpp and push.h: the connection on which the server says that something has changed.
-- The answers of the servers, the clock and the jobs of the worker are inputs; JSON is an argument. A call
-- of the worker's queue, `RunInBackground`, adds a job behind those that wait.
pub mod Flat
pub mod Frames
pub mod Queue
pub mod Backoff
mod Examples
use openpak_client.Shared.{
  ℕ, ◌*◌, Bool, true, false, not, ◌&&◌, ◌||◌, Option, none, some, ◌>>=◌, List, [], ◌∷◌, ◌++◌, ltb,
  ◌==◌, if◌then◌else◌, value_or, is_some, is_nil, length, Bytes, codes, bytes_eq, nat_eq, text_eq,
  starts_with, ends_with,
}
use openpak_client.Shared.Int.{ℤ, lt_int}
use openpak_client.Shared.Maps.{lookup, insert}
use openpak_client.Shared.Disk.{Disk, path_append, read_file, write_file, remove_file}
use openpak_client.Network.Json.{Json, object, text, member, end, integer, real, member_of, as_text}
use openpak_client.Push.Flat.{
  value, missing, outside, Message, envelope_type, read_message, type_handover_result, type_reset,
}
use openpak_client.Push.Frames.{feed, drain}

pub record Registration : Type 0 where
  pub id : Bytes
  pub password : Bytes

-- What a queued refresh does.
pub data Work : Type 0 where
  friend_list friend_requests invitations invitations_and_sync : Work

pub record Job : Type 0 where
  pub kind : Bytes
  pub work : Work

-- `State`, with the jobs of the friends module's worker, the disk and the settings that the host gives.
pub record State : Type 0 where
  pub running : Bool
  pub connected : Bool
  pub forget : Bool
  pub registration : Option Registration
  pub ticket : Bytes
  pub frontline : Bytes
  pub ticket_expiry : ℤ
  pub queued : List (Bytes × Bool)
  pub jobs : List Job
  pub disk : Disk
  pub config : Bytes
  pub profile : Bytes

-- An answer to a request.
pub record Response : Type 0 where
  pub status : ℕ
  pub body : Bytes

-- `RegistrationPath`.
registration_path : Bytes → Bytes → Bytes → Bytes
registration_path config server_key profile =
    path_append (path_append config (codes "openpak"))
      (codes "penne-" ++ (server_key ++ (b'-' ∷ (profile ++ codes ".json"))))

-- `queued[kind]`.
unfoldable pub is_queued : Bytes → State → Bool
is_queued kind s = value_or (lookup kind s.queued) false

-- `Refresh`.
unfoldable pub refresh : Bytes → Work → State → State
unfolding is_queued
refresh kind work s = if is_queued kind s then s else record s {
  queued = insert kind true s.queued;
  jobs = s.jobs ++ (record { kind = kind; work = work } ∷ []);
}

-- The worker runs the next job; the flag is taken back before the work.
unfoldable pub run_job : State → State × Option Work
run_job s = elim s.jobs [
  | [] ↦ (s, none)
  | j ∷ js ↦ (record s { queued = insert j.kind false s.queued; jobs = js }, some j.work)
]

-- `Connected`, `Stop` and `Drop`, and `Start` where nothing turns the connection off.
pub connected_now : State → Bool
connected_now s = s.connected

pub start : State → State
start s = record s { running = true }

pub stop : State → State
stop s = record s { running = false }

pub drop_account : State → State
drop_account s = record s { forget = true }

-- A round of the thread begins by forgetting what `Drop` asked it to forget.
pub forget_account : State → State
forget_account s =
    if s.forget
    then record s { forget = false; registration = none; ticket = []; frontline = [] }
    else s

-- The wait behind a round, in seconds: nobody is signed in, a connection lived, or it is tried again.
unfoldable pub next_backoff : Bool → Bool → ℕ → ℕ
next_backoff signed_out held backoff =
    if signed_out then 5 else if held then 2 else if ltb (backoff * 2) 300 then backoff * 2 else 300

module _ (parse_json : Bytes → Option Json) (dump : Json → Option Bytes)
    (truncated : Bytes → ℤ) where
  -- The two texts of a registration; `at` throws where one is not there.
  registration_of : Json → Option Registration
  registration_of json = do
    id ← as_text (member_of (codes "id") json)
    password ← as_text (member_of (codes "password") json)
    some (record { id = id; password = password })

  -- `LoadRegistration`.
  pub load_registration : Bytes → State → Option Registration
  unfolding registration_path registration_of
  load_registration server_key s =
      let contents = read_file s.disk (registration_path s.config server_key s.profile) in
      if is_nil contents then none else parse_json contents >>= registration_of

  -- `Register`, with the answer; one that cannot be printed is none.
  pub register : Bytes → Response → State → State × Option Registration
  unfolding registration_path registration_of
  register server_key reply s =
      if not (reply.status == 200)
      then (s, none)
      else elim (parse_json reply.body >>= registration_of) [
        | none ↦ (s, none)
        | some r ↦
            elim (dump (
              object (
                member (codes "id") (text r.id)
                  (member (codes "password") (text r.password) end)))) [
                    | none ↦ (s, none)
                    | some body ↦ (
                      record s {
                        disk =
                            (write_file s.disk (registration_path s.config server_key s.profile)
                              body).0;
                      },
                      some r,
                    )
                  ]
      ]

  -- `value("expires_at", …)`; a value that is no number throws.
  expiry_of : Json → ℤ → Option ℤ
  expiry_of json default = elim (member_of (codes "expires_at") json) [
    | none ↦ some default
    | some (integer n) ↦ some n
    | some (real x) ↦ some (truncated x)
    | _ ↦ none
  ]

  -- `LoginTicket`, with the answer and the time a day from now. A registration that the server refuses is
  -- taken off the disk.
  pub login_ticket : Bytes → Response → ℤ → State → State × Bool
  unfolding registration_path expiry_of
  login_ticket server_key reply tomorrow s =
      let kept : State × Bool = elim (parse_json reply.body) [
        | none ↦ (s, false)
        | some json ↦ elim (as_text (member_of (codes "ticket") json)) [
          | none ↦ (s, false)
          | some ticket ↦ elim (as_text (member_of (codes "frontline_fqdn") json)) [
            | none ↦ (record s { ticket = ticket }, false)
            | some frontline ↦ elim (expiry_of json tomorrow) [
              | none ↦ (record s { ticket = ticket; frontline = frontline }, false)
              | some expiry ↦ (
                record s { ticket = ticket; frontline = frontline; ticket_expiry = expiry },
                true,
              )
            ]
          ]
        ]
      ] in
      if (reply.status == 401) || (reply.status == 403)
      then (
        record s {
          disk = remove_file s.disk (registration_path s.config server_key s.profile);
          registration = none;
        },
        false,
      )
      else if not (reply.status == 200)
      then (s, false)
      else kept

  -- The first half of `Hold`: a registration and a ticket, with the answers to the two requests, the time
  -- an hour from now and a day from now.
  pub prepare : Bytes → Response → Response → ℤ → ℤ → State → State × Bool
  prepare server_key registered logged_in in_an_hour tomorrow s =
      let loaded : Option Registration = elim s.registration [
        | some r ↦ some r
        | none ↦ load_registration server_key s
      ] in
      let (known, given) : State × Option Registration = elim loaded [
        | some r ↦ (s, some r)
        | none ↦ register server_key registered s
      ] in
      let ready : State = record known { registration = given } in
      let asked = login_ticket server_key logged_in tomorrow ready in
      if is_nil server_key
      then (s, false)
      else if not (is_some given)
      then (ready, false)
      else if is_nil ready.ticket || lt_int ready.ticket_expiry in_an_hour
      then asked
      else (ready, true)

  -- `Kind`.
  pub kind_of : Message → Bytes
  kind_of m =
      value_or (parse_json m.body >>= (λ json. as_text (member_of (codes "type") json))) m.name

  -- `OnMessage`.
  unfoldable pub on_message : Message → State → State
  unfolding kind_of
  on_message m s =
      let kind = kind_of m in
      let relation =
        bytes_eq kind (codes "friend_request_authorized")
        || bytes_eq kind (codes "friend_deleted") in
      let a =
        if bytes_eq kind (codes "presence_updated") || relation
        then refresh (codes "friends") friend_list s
        else s in
      let b =
        if bytes_eq kind (codes "friend_request_received") || relation
        then refresh (codes "requests") friend_requests a
        else a in
      if bytes_eq kind (codes "friend_invitation_received")
      then refresh (codes "invitations") invitations_and_sync b
      else b

  -- Whatever happened while no connection was up is only in the lists.
  abbrev pub open_connection : State → State
  open_connection s = refresh (codes "invitations") invitations (
      refresh (codes "requests") friend_requests
        (refresh (codes "friends") friend_list (record s { connected = true })))

  -- One frame of the loop in `Hold`, and whether it goes on.
  unfoldable pub on_frame : Bytes → State → State × Bool
  unfolding on_message
  on_frame frame s =
      let told : State = elim (read_message frame) [ value m ↦ on_message m s | _ ↦ s ] in
      elim (envelope_type frame) [
        | value type ↦
            if type == type_handover_result
            then (open_connection s, true)
            else if type == type_reset
            then (s, false)
            else (told, true)
        | missing ↦ (told, true)
        | outside ↦ (told, true)
      ]

  unfoldable pub on_frames : List Bytes → State → State × Bool
  unfolding on_frame
  on_frames [] s = (s, true)
  on_frames (f ∷ fs) s =
      let (t, goes_on) = on_frame f s in
      let rest = on_frames fs t in if goes_on then rest else (t, false)

  -- `content_receiver`: the bytes that arrived, for the account that the connection was opened for.
  unfoldable pub receive : Bool → Bytes → Bytes × State → (Bytes × State) × Bool
  unfolding on_frames
  receive same_user bytes (buffer, s) =
      let (fed, holds) = feed bytes buffer in
      let (frames, left) = drain (length fed) fed in
      let (t, goes_on) = on_frames frames s in
      if not s.running || not same_user
      then ((buffer, s), false)
      else if not holds
      then ((fed, s), false)
      else ((left, t), goes_on)

  -- The end of `Hold`: the status of the connection, if it had an answer.
  pub end_connection : Option ℕ → State → State
  end_connection status s =
      let expired : Bool = elim status [ none ↦ false | some n ↦ n == 401 ] in
      if expired
      then record s { connected = false; ticket = [] }
      else record s { connected = false }

-- `ForgetProfile`, for the names that the directory lists.
unfoldable pub forget_profile : Bytes → List Bytes → State → State
forget_profile profile [] s = s
forget_profile profile (name ∷ names) s =
    let rest = forget_profile profile names in
    if starts_with (codes "penne-") name && ends_with (b'-' ∷ (profile ++ codes ".json")) name
    then rest (record s {
      disk = remove_file s.disk (path_append (path_append s.config (codes "openpak")) name);
    })
    else rest s
