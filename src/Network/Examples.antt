-- ===== src/Network/Examples.antt =====
-- Witnesses of the theorems on the ceiling and the profile, on small inputs.
use openpak_client.Shared.{
  sym, ◌∙◌, ◌≢◌, ends_with, ◌≡◌, refl, ◌⊎◌, Bool, true, false, Option, none, some, List, [], ◌∷◌,
  Bytes, codes, bytes_eq, if◌then◌else◌,
}
use openpak_client.Shared.Int.{ℤ, pos}
use openpak_client.Network.Json.{
  Json, text, array, object, integer, member, end, cons, nil, as_text, as_items, as_fields,
  as_positive, member_of, find_member,
}
use openpak_client.Network.Ceiling.{
  CeilingSource, built_in, fetched, PinnedKey, State, name_allowed, current_ceiling, load_ceiling,
  read_highest, decide_ceiling, verify_ceiling, write_atomically, ceiling_path, highest_path,
}
use openpak_client.Network.Ceiling.Payload.{families_for, check_payload}
use openpak_client.Network.Profile.{
  Profile, Result, no_error, empty_profile, redirect_for, validate, is_literal_address,
  is_loopback_or_link_local, filter_to_ceiling,
}
use openpak_client.Network.Profile.Document.{parse_profile}
use openpak_client.Network.Base64.{decode_base64}
use openpak_client.Network.Family.{name_in_families, matches, family_well_formed}
use openpak_client.Shared.Maps.{lookup, insert, remove}
use openpak_client.Shared.Disk.{write_file, rename_file, path_append}
use openpak_client.Platform.{to_lower}
use openpak_client.Network.Profile.Routing.{IsUsable, routes, first_route, redirect_for-first_route}
use openpak_client.Network.Profile.Fetching.{
  load_stored, stored_profile, Response, Client, fetch_with_ceiling, apply, finish, accept, parse,
  valid_profile, profile_path,
}
use openpak_client.Network.Profile.Rejecting.{finish-disk}
use openpak_client.Network.Profile.Bounded.{fetch_with_ceiling-redirect_for}
use openpak_client.Network.Watch.{Watch}
use openpak_client.Network.Ceiling.Rollback.{
  Decided, decide_ceiling-Decided, Ascends, Event, loads, restarts, run, run-Ascends,
}

-- An envelope, the payload it signs, and a profile.
abbrev envelope_json : Json
envelope_json = object (
    member (codes "payload") (text (codes "UA==")) (
      member (codes "signatures")
        (array (
          cons
            (object (
              member (codes "keyid") (text (codes "K")) (
                member (codes "sig")
                  (text (
                    codes
                      "AAAAAAAAAAAAAAAAAAAAAAAAAAAAAAAAAAAAAAAAAAAAAAAAAAAAAAAAAAAAAAAAAAAAAAAAAAAAAAAAAAAAAA=="))
                  end)))
            nil))
        end))

abbrev payload_json : Json
payload_json = object (
    member (codes "platforms")
      (object (member (codes "switch") (array (cons (text (codes ".nintendo.net")) nil)) end))
      (member (codes "type") (text (codes "openpak-ceiling"))
        (member (codes "version") (integer (pos 3)) end)))

abbrev profile_document : Json
profile_document = object (
    member (codes "redirect")
      (object (
        member (codes "suffixes")
          (array (cons (text (codes ".evil.example")) (cons (text (codes ".nintendo.net")) nil)))
          end))
      (member (codes "server") (object (member (codes "address") (text (codes "9.9.9.9")) end))
        end))

abbrev parse_json : Bytes → Option Json
parse_json s =
    if bytes_eq s (codes "E")
    then some envelope_json
    else if bytes_eq s (codes "P")
    then some payload_json
    else if bytes_eq s (codes "B")
    then some profile_document
    else none

abbrev dump : Json → Option Bytes
dump doc = some (codes "B")

abbrev truncated : Bytes → ℤ
truncated x = pos 0

abbrev pton4 : Bytes → Option Bytes
pton4 s = if bytes_eq s (codes "9.9.9.9") then some (9 ∷ 9 ∷ 9 ∷ 9 ∷ []) else none

abbrev pton6 : Bytes → Option Bytes
pton6 s = none

abbrev verifies : Bytes → Bytes → Bytes → Bool
verifies key message sig = bytes_eq message (codes "P")

abbrev keys : List PinnedKey
keys = record { key = codes "key"; keyid = codes "k" } ∷ []

abbrev start : State
start = record {
  disk = record { files = []; refuses = λ p. false };
  config = codes "c";
  current = none;
}

abbrev client : Client
client = record {
  ceiling = start;
  applied = none;
  watch = record { recheck = false; started = false; platform = []; in_use = []; announced = [] };
}

abbrev answer : Option Response
answer = some (record { status = 200; body = codes "B"; etag = codes "t" })

abbrev after : Client
after =
    (fetch_with_ceiling parse_json dump truncated pton4 pton6 (λ s. s) verifies keys
      (codes "switch") (some (codes "E")) answer none client).0

redirected :
    redirect_for after.applied (codes "a.nintendo.net") (codes "1.2.3.4") ≡ some (codes "9.9.9.9")
unfolding fetch_with_ceiling apply finish accept parse valid_profile redirect_for bytes_eq
    parse_profile validate is_literal_address is_loopback_or_link_local filter_to_ceiling
    name_in_families matches families_for lookup current_ceiling load_ceiling read_highest
    decide_ceiling verify_ceiling check_payload decode_base64 as_text as_items as_fields as_positive
    member_of find_member family_well_formed to_lower write_atomically write_file rename_file insert
    ceiling_path path_append remove highest_path profile_path
redirected = refl

fetch_with_ceiling-redirect_for_example :
    (name_allowed parse_json verifies keys (codes "a.nintendo.net") (codes "switch") after.ceiling
      ≡ true)
    × (IsUsable pton4 pton6 (codes "9.9.9.9") ⊎ (codes "9.9.9.9" ≡ codes "1.2.3.4"))
fetch_with_ceiling-redirect_for_example =
    fetch_with_ceiling-redirect_for parse_json dump truncated pton4 pton6 (λ s. s) verifies keys
      (codes "switch") (some (codes "E")) answer none client (codes "a.nintendo.net")
      (codes "1.2.3.4") redirected

decide_ceiling-Decided_example :
    let d = decide_ceiling parse_json verifies none (some (codes "E")) 2 keys in
    Decided parse_json verifies keys 2 d.result d.highest_accepted
decide_ceiling-Decided_example =
    decide_ceiling-Decided parse_json verifies keys none (some (codes "E")) 2

abbrev history : List Event
history = loads (some (codes "E")) ∷ restarts ∷ loads none ∷ []

run-Ascends_example :
    Ascends (read_highest start.config start.disk) (run parse_json verifies keys history start).1
run-Ascends_example = run-Ascends parse_json verifies keys history start (refl, refl)

inside : name_in_families (codes ".b.nintendo.net") (codes ".nintendo.net" ∷ []) ≡ true
unfolding name_in_families bytes_eq to_lower ends_with
inside = refl

abbrev profile : Profile
profile = record empty_profile {
  suffixes = codes ".evil.example" ∷ codes ".nintendo.net" ∷ [];
  never = codes "ctest.nintendo.net" ∷ [];
}

abbrev applied : Result
applied = record { ok = false; source = fetched; profile = profile; error = no_error }

redirect_for-first_route_example :
    redirect_for (some applied) (codes "ctest.nintendo.net") (codes "1.2.3.4")
    ≡ first_route (codes "ctest.nintendo.net") (routes profile (codes "1.2.3.4"))
redirect_for-first_route_example =
    redirect_for-first_route (codes "ctest.nintendo.net") applied (codes "1.2.3.4")

abbrev watch : Watch
watch = record {
  recheck = false;
  started = true;
  platform = codes "wii";
  in_use = codes "0";
  announced = [];
}

abbrev found : List Bytes
found = codes "0" ∷ codes "1" ∷ codes "1" ∷ codes "2" ∷ []

abbrev failing : Option Response
failing = some (record { status = 500; body = []; etag = [] })

apart_from_fetched : (source : CeilingSource) → source ≡ built_in → source ≢ fetched
apart_from_fetched source b e = let same : built_in ≡ fetched = sym b ∙ e in cc

falls_back :
    (finish parse_json dump truncated pton4 pton6
      (λ s. s)
      verifies
      keys
      (codes "switch")
      failing
      none
      []
      start).1.source
    ≡ built_in
unfolding finish load_stored stored_profile lookup current_ceiling
falls_back = refl

finish-disk_example :
    (finish parse_json dump truncated pton4 pton6
      (λ s. s)
      verifies
      keys
      (codes "switch")
      failing
      none
      []
      start).0.disk
    ≡ start.disk
finish-disk_example =
    finish-disk parse_json dump truncated pton4 pton6 (λ s. s) verifies keys (codes "switch")
      failing none [] start (apart_from_fetched _ falls_back)
