-- ===== src/Push/Examples.antt =====
-- The theorems about the connection at concrete frames.
use openpak_client.Shared.{
  ◌≡◌, refl, true, false, Option, none, some, [], ◌∷◌, arith, Bytes, codes, bytes_eq, text_eq,
  if◌then◌else◌,
}
use openpak_client.Shared.Int.{ℤ, pos}
use openpak_client.Network.Json.{Json, text, object, member, end}
use openpak_client.Push.{State, is_queued}
use openpak_client.Push.Flat.{value, missing, Message, envelope_type, read_message}
use openpak_client.Push.Flat.Inside.{Safe, Any, read_message-Safe}
use openpak_client.Push.Frames.{frames_of}
use openpak_client.Push.Frames.Chunks.{frames_of-encode_all}
use openpak_client.Push.Queue.{IsQueue, arrives, works, run, run-IsQueue}

-- The frame with which the server hands the connection over.
abbrev handover : Bytes
handover =
    12 ∷ 0 ∷ 0 ∷ 0 ∷ 8 ∷ 0 ∷ 12 ∷ 0 ∷ 7 ∷ 0 ∷ 8 ∷ 0 ∷ 8 ∷ 0 ∷ 0 ∷ 0 ∷ 0 ∷ 0 ∷ 0 ∷ 12 ∷ 12 ∷ 0 ∷ 0
    ∷ 0 ∷ 0 ∷ 0 ∷ 6 ∷ 0 ∷ 8 ∷ 0 ∷ 7 ∷ 0 ∷ 6 ∷ 0 ∷ 0 ∷ 0 ∷ 0 ∷ 0 ∷ 0 ∷ 0 ∷ []

handover_type : envelope_type handover ≡ value 12
unfolding envelope_type
handover_type = refl

handover_message : read_message handover ≡ missing
unfolding read_message
handover_message = refl

read_message-Safe_example : Safe (envelope_type handover) Any × Safe (read_message handover) Any
read_message-Safe_example = read_message-Safe handover

frames_of-encode_all_example :
    frames_of ((3 ∷ 0 ∷ []) ∷ (0 ∷ 0 ∷ 7 ∷ 8 ∷ 9 ∷ 1 ∷ []) ∷ [] ∷ (0 ∷ 0 ∷ 0 ∷ 5 ∷ []) ∷ []) []
    ≡ ((7 ∷ 8 ∷ 9 ∷ []) ∷ (5 ∷ []) ∷ [], [], true)
frames_of-encode_all_example =
    frames_of-encode_all ((7 ∷ 8 ∷ 9 ∷ []) ∷ (5 ∷ []) ∷ [])
      ((3 ∷ 0 ∷ []) ∷ (0 ∷ 0 ∷ 7 ∷ 8 ∷ 9 ∷ 1 ∷ []) ∷ [] ∷ (0 ∷ 0 ∷ 0 ∷ 5 ∷ []) ∷ [])
      ((omega arith, omega arith), ((omega arith, omega arith), tt)) refl

-- A parser that knows one text.
abbrev read_json : Bytes → Option Json
read_json b =
    if bytes_eq b (codes "{}")
    then some (object (member (codes "type") (text (codes "friend_deleted")) end))
    else none

abbrev print_json : Json → Option Bytes
print_json j = none

abbrev whole : Bytes → ℤ
whole b = pos 0

abbrev quiet : State
quiet = record {
  running = true;
  connected = false;
  forget = false;
  registration = none;
  ticket = [];
  frontline = [];
  ticket_expiry = pos 0;
  queued = [];
  jobs = [];
  disk = record { files = []; refuses = λ p. false };
  config = codes "c";
  profile = codes "p";
}

quiet-IsQueue : IsQueue quiet
unfolding is_queued openpak_client.Shared.Maps.lookup
quiet-IsQueue = record { distinct = tt; flags = λ kind. refl }

run-IsQueue_example :
    IsQueue
      (run read_json print_json whole (arrives handover ∷ works ∷ arrives handover ∷ []) quiet)
run-IsQueue_example =
    run-IsQueue read_json print_json whole (arrives handover ∷ works ∷ arrives handover ∷ []) quiet
      quiet-IsQueue

abbrev deleted : Message
deleted = record { name = codes "x"; body = codes "{}" }
