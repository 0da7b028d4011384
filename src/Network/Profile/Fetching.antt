-- ===== src/Network/Profile/Fetching.antt =====
-- `Fetch` and `Refresh` of network_profile_fetch.cpp: the answers of the server, the stored copy and the
-- built-in list. The HTTP client, JSON, SHA-256 and the parsing of addresses are third-party code and are
-- arguments; the answers that arrive are inputs of the step.
use openpak_client.Shared.{
  ℕ, Bool, true, false, not, ◌&&◌, Option, none, some, ◌>>=◌, List, ◌==◌, if◌then◌else◌, is_nil,
  is_some, value_or, Bytes, codes, bytes_eq,
}
use openpak_client.Shared.Int.{ℤ}
use openpak_client.Shared.Disk.{Disk, path_append, file_at, read_file, write_file}
use openpak_client.Network.Json.{Json}
use openpak_client.Network.Ceiling.{
  PinnedKey, fetched, cached, built_in, State, load_ceiling, current_ceiling,
}
use openpak_client.Network.Ceiling.Payload.{families_for}
use openpak_client.Network.Profile.{
  Profile, Result, Fallback, no_error, no_answer, nothing_stored, unparsed, ca_mismatch,
  http_status, invalid, filter_to_ceiling, built_in_profile, validate,
}
use openpak_client.Network.Watch.{
  Watch, effective_digest, set_digest_in_use, start_watching, should_announce,
}
use openpak_client.Network.Profile.Document.{parse_profile, profile_json}

-- An answer to the request for the profile, as far as it is read.
pub record Response : Type 0 where
  pub status : ℕ
  pub body : Bytes
  pub etag : Bytes

-- The client: the ceiling with the disk, `g_applied` and the watch.
pub record Client : Type 0 where
  pub ceiling : State
  pub applied : Option Result
  pub watch : Watch

unfoldable pub profile_path : Bytes → Bytes
profile_path config = path_append config (codes "openpak_network_profile.json")

unfoldable pub etag_path : Bytes → Bytes
etag_path config = path_append config (codes "openpak_network_profile.etag")

unfoldable pub ca_path : Bytes → Bytes
ca_path config = path_append (path_append config (codes "openpak")) (codes "ca.pem")

-- `WriteStored`; neither write is looked at.
write_stored : Bytes → Bytes → Bytes → Disk → Disk
write_stored config body etag d =
    (write_file (write_file d (profile_path config) body).0 (etag_path config) etag).0

unfoldable pub on_disk : State → Disk → State
on_disk s d = record s { disk = d }

module _ (parse_json : Bytes → Option Json) (dump : Json → Option Bytes) (truncated : Bytes → ℤ)
    (pton4 pton6 : Bytes → Option Bytes) (sha256_hex : Bytes → Bytes)
    (verifies : Bytes → Bytes → Bytes → Bool) (keys : List PinnedKey) where
  -- `Parse`.
  unfoldable pub parse : Bytes → Option Profile
  parse json = parse_json json >>= parse_profile truncated

  -- A text that parses to a valid profile.
  unfoldable pub valid_profile : Bytes → Bytes → Option Profile
  unfolding parse
  valid_profile platform body = elim (parse body) [
    | none ↦ none
    | some p ↦ elim (validate pton4 pton6 p platform) [ none ↦ some p | some e ↦ none ]
  ]

  -- What is stored, where it is not empty and is valid.
  unfoldable pub stored_profile : Bytes → State → Option Profile
  unfolding valid_profile
  stored_profile platform s = elim (file_at s.disk (profile_path s.config)) [
    | none ↦ none
    | some body ↦ if is_nil body then none else valid_profile platform body
  ]

  -- `LoadStored`; the logged lines are left out here and below.
  unfoldable pub load_stored : Bytes → State → State × Option Profile
  unfolding stored_profile
  load_stored platform s = elim (stored_profile platform s) [
    | none ↦ (s, none)
    | some p ↦
        let (t, c) = current_ceiling parse_json verifies keys s in
        (t, some (filter_to_ceiling p (families_for c platform)).0)
  ]

  -- `Store`, with whether it succeeded: a profile that cannot be printed is not stored.
  unfoldable pub store : Profile → Bytes → State → State × Bool
  unfolding write_stored on_disk
  store p etag s = elim (dump (profile_json p)) [
    | none ↦ (s, false)
    | some body ↦ (on_disk s (write_stored s.config body etag s.disk), true)
  ]

  -- `EnsureCA`, with the answer to its download.
  unfoldable pub ensure_ca : Profile → Option Response → State → State × Bool
  unfolding on_disk
  ensure_ca p download s = if is_nil p.ca_url then (s, true) else elim download [
    | none ↦ (s, false)
    | some r ↦
        if not (r.status == 200)
        then (s, false)
        else if not (bytes_eq (sha256_hex r.body) p.ca_sha256)
        then (s, false)
        else (on_disk s (write_file s.disk (ca_path s.config) r.body).0, true)
  ]

  -- A result that falls back on what was there.
  abbrev fall_back : Result → Fallback → Result
  fall_back out e = record out { error = e }

  -- The end of `Finish`, for an answer with status 200.
  unfoldable pub accept :
      Bytes → Response → Option Response → Bytes → Result → State → State × Result
  unfolding parse ensure_ca store
  accept platform r download etag_sent out s = elim (parse r.body) [
    | none ↦ (s, fall_back out unparsed)
    | some p ↦ elim (validate pton4 pton6 p platform) [
      | some e ↦ (s, fall_back out (invalid e))
      | none ↦
          let (pinned, matching) = ensure_ca p download s in
          let (kept, stored) = store p (if is_nil r.etag then etag_sent else r.etag) pinned in
          let (t, c) = current_ceiling parse_json verifies keys kept in
          if not matching then (pinned, fall_back out ca_mismatch) else (
            t,
            record out {
              source = fetched;
              profile = (filter_to_ceiling p (families_for c platform)).0;
            },
          )
    ]
  ]

  -- `Finish`: the built-in list, or what is stored, or what the server answered.
  unfoldable pub finish : Bytes → Option Response → Option Response → Bytes → State → State × Result
  unfolding accept load_stored
  finish platform fetch download etag_sent s =
      let (t, c) = current_ceiling parse_json verifies keys s in
      let (u, stored) = load_stored platform t in
      let out : Result = record {
        ok = false;
        source = if is_some stored then cached else built_in;
        profile = value_or stored (built_in_profile platform c);
        error = no_error;
      } in
      elim fetch [
        | none ↦ (u, fall_back out no_answer)
        | some r ↦
            let accepted = accept platform r download etag_sent out u in
            if r.status == 304
            then (u, if is_some stored then out else fall_back out nothing_stored)
            else if not (r.status == 200)
            then (u, fall_back out (http_status r.status))
            else accepted
      ]

  -- `StoredUsable`.
  unfoldable pub stored_usable : Bytes → State → Bool
  unfolding valid_profile
  stored_usable platform s = elim (file_at s.disk (profile_path s.config)) [
    | none ↦ false
    | some body ↦ is_some (valid_profile platform body)
  ]

  -- The tag that a conditional request sends, if it sends one.
  unfoldable pub if_none_match : Bytes → Bool → State → Option Bytes
  unfolding stored_usable
  if_none_match platform conditional s =
      let etag = read_file s.disk (etag_path s.config) in
      if conditional && not (is_nil etag) && stored_usable platform s then some etag else none

  -- `Apply`.
  unfoldable pub apply : Result → Client → Client
  apply out c = record c {
    applied = some out;
    watch = set_digest_in_use (effective_digest sha256_hex out.profile) c.watch;
  }

  -- `FetchWithCeiling`, with the three answers: of the ceiling, of the profile and of the certificate.
  unfoldable pub fetch_with_ceiling :
      Bytes → Option Bytes → Option Response → Option Response → Client → Client × Result
  unfolding finish apply
  fetch_with_ceiling platform envelope answer download c =
      let etag = read_file c.ceiling.disk (etag_path c.ceiling.config) in
      let settled = (load_ceiling parse_json verifies envelope keys c.ceiling).0 in
      let (t, out) = finish platform answer download etag settled in
      let applied = apply out (record c { ceiling = t }) in
      (record applied { watch = start_watching platform applied.watch }, out)

  -- `FreshDigest`: what a fetch would redirect now, which is not applied.
  unfoldable pub fresh_digest :
      Bytes → Option Bytes → Option Response → State → State × Option Bytes
  unfolding valid_profile
  fresh_digest platform envelope answer s =
      let refreshed = (load_ceiling parse_json verifies envelope keys s).0 in
      let (t, c) = current_ceiling parse_json verifies keys refreshed in
      elim answer [
        | none ↦ (refreshed, none)
        | some r ↦ elim (valid_profile platform r.body) [
          | none ↦ (refreshed, none)
          | some p ↦
              let digest =
                effective_digest sha256_hex (filter_to_ceiling p (families_for c platform)).0 in
              if r.status == 200 then (t, some digest) else (refreshed, none)
        ]
      ]

  -- One round of `WatchLoop` behind its wait, with whether the notifier is called.
  unfoldable pub watch_round : Option Bytes → Option Response → Client → Client × Bool
  unfolding fresh_digest
  watch_round envelope answer c =
      let woken : Watch = record c.watch { recheck = false } in
      let (t, digest) = fresh_digest woken.platform envelope answer c.ceiling in
      elim digest [
        | none ↦ (record c { ceiling = t; watch = woken }, false)
        | some d ↦
            let (w, announced) = should_announce d woken in
            (record c { ceiling = t; watch = w }, announced)
      ]
