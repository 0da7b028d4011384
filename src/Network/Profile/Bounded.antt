-- ===== src/Network/Profile/Bounded.antt =====
-- The whole fetch: whatever the server answers, the ceiling bounds what is redirected.
use openpak_client.Shared.{
  ◌≡◌, refl, ◌∙◌, ◌⊎◌, inl, inr, Bool, true, Option, none, some, List, ◌==◌, Bool-cases,
  Option-cases, if◌then◌else◌, is_nil, is_some, value_or, Bytes, nat_eq, text_eq,
}
use openpak_client.Shared.Int.{ℤ}
use openpak_client.Shared.Disk.{file_at, read_file}
use openpak_client.Network.Json.{Json}
use openpak_client.Network.Ceiling.{PinnedKey, State, load_ceiling, name_allowed}
use openpak_client.Network.Ceiling.Payload.{Ceiling, families_for}
use openpak_client.Network.Profile.{
  Profile, Result, filter_to_ceiling, built_in_profile, redirect_for, validate,
}
use openpak_client.Network.Profile.Filtering.{
  IsInside, filter_to_ceiling-IsInside, built_in_profile-IsInside, redirect_for-inside,
}
use openpak_client.Network.Profile.Routing.{
  IsUsable, HasUsable, validate-HasUsable, filter_to_ceiling-HasUsable, built_in_profile-HasUsable,
  redirect_for-IsUsable,
}
use openpak_client.Network.Profile.Fetching.{
  Response, Client, profile_path, etag_path, parse, valid_profile, stored_profile, load_stored,
  store, ensure_ca, accept, finish, apply, fetch_with_ceiling,
}
use openpak_client.Network.Profile.Holding.{
  families_for-AreFamilies, load_ceiling-current, current_ceiling-held, ensure_ca-current,
  store-current,
}

module _ (parse_json : Bytes → Option Json) (dump : Json → Option Bytes) (truncated : Bytes → ℤ)
    (pton4 pton6 : Bytes → Option Bytes) (sha256_hex : Bytes → Bytes)
    (verifies : Bytes → Bytes → Bytes → Bool) (keys : List PinnedKey) where
  -- The same ceiling is held, and the profile keeps to it.
  abbrev IsBounded : Bytes → Ceiling → State → Profile → Type 0
  IsBounded platform c s p =
      (s.current ≡ some c) × IsInside (families_for c platform) p × HasUsable pton4 pton6 p

  valid_profile-HasUsable :
      (platform body : Bytes) {p : Profile}
      → valid_profile parse_json dump truncated pton4 pton6 sha256_hex verifies keys platform body
        ≡ some p
      → HasUsable pton4 pton6 p
  unfolding valid_profile
  valid_profile-HasUsable platform body {p} h =
      elim (Option-cases
        (parse parse_json dump truncated pton4 pton6 sha256_hex verifies keys body)) [
          | inl e ↦ cc (rw (e, valid_profile) at h)
          | inr (q, e) ↦ elim (Option-cases (validate pton4 pton6 q platform)) [
            | inl f ↦
                let same : q ≡ p = cc (rw (e, f, valid_profile) at h) in
                rw (← same) (validate-HasUsable pton4 pton6 q platform f)
            | inr (i, f) ↦ cc (rw (e, f, valid_profile) at h)
          ]
        ]

  stored_profile-HasUsable :
      (platform : Bytes) (s : State) {p : Profile}
      → stored_profile parse_json dump truncated pton4 pton6 sha256_hex verifies keys platform s
        ≡ some p
      → HasUsable pton4 pton6 p
  unfolding stored_profile
  stored_profile-HasUsable platform s {p} h =
      elim (Option-cases (file_at s.disk (profile_path s.config))) [
        | inl e ↦ cc (rw (e, stored_profile) at h)
        | inr (body, e) ↦ elim (Bool-cases (is_nil body)) [
          | inl f ↦ cc (rw (e, f, stored_profile) at h)
          | inr f ↦ valid_profile-HasUsable platform body (rw (e, f, stored_profile) at h)
        ]
      ]

  load_stored-IsBounded :
      (platform : Bytes) (c : Ceiling) (s : State)
      → s.current ≡ some c
      → let (t, stored) =
          load_stored parse_json dump truncated pton4 pton6 sha256_hex verifies keys platform s in
        (t.current ≡ some c) × ((p : Profile) → stored ≡ some p → IsBounded platform c t p)
  unfolding load_stored
  load_stored-IsBounded platform c s h =
      elim (Option-cases (
        stored_profile parse_json dump truncated pton4 pton6 sha256_hex verifies keys platform s)) [
          | inl e ↦ rw (e, load_stored) (h, λ p k. cc)
          | inr (q, e) ↦
              rw (e, load_stored)
                (rw
                  (current_ceiling-held parse_json dump truncated pton4 pton6 sha256_hex verifies
                    keys s c h)
                  (
                    h,
                    λ p k.
                        let same : (filter_to_ceiling q (families_for c platform)).0 ≡ p = cc in
                        rw (← same) (
                          h,
                          filter_to_ceiling-IsInside q (families_for c platform),
                          filter_to_ceiling-HasUsable pton4 pton6 q (families_for c platform)
                              (stored_profile-HasUsable platform s e),
                        ),
                  ))
        ]

  accept-IsBounded :
      (platform : Bytes) (r : Response) (download : Option Response) (etag : Bytes) (out : Result)
      (c : Ceiling) (s : State)
      → IsBounded platform c s out.profile
      → let (t, result) =
          accept parse_json dump truncated pton4 pton6 sha256_hex verifies keys platform r download
            etag out s in
        IsBounded platform c t result.profile
  unfolding accept
  accept-IsBounded platform r download etag out c s (h, inside, usable) =
      elim (Option-cases
        (parse parse_json dump truncated pton4 pton6 sha256_hex verifies keys r.body)) [
          | inl e ↦ rw (e, accept) (h, inside, usable)
          | inr (p, e) ↦ elim (Option-cases (validate pton4 pton6 p platform)) [
            | inr (i, f) ↦ rw (e, f, accept) (h, inside, usable)
            | inl f ↦
                let pinned =
                  ensure_ca parse_json dump truncated pton4 pton6 sha256_hex verifies keys p
                    download s in
                let tag = if is_nil r.etag then etag else r.etag in
                let kept =
                  store parse_json dump truncated pton4 pton6 sha256_hex verifies keys p tag
                    pinned.0 in
                let same =
                  ensure_ca-current parse_json dump truncated pton4 pton6 sha256_hex verifies keys p
                    download s
                  ∙ h in
                let held =
                  current_ceiling-held parse_json dump truncated pton4 pton6 sha256_hex verifies
                    keys kept.0 c
                    (store-current parse_json dump truncated pton4 pton6 sha256_hex verifies keys p
                        tag pinned.0
                      ∙ same) in
                elim (Bool-cases pinned.1) [
                  | inr g ↦ rw (e, f, g, accept) (same, inside, usable)
                  | inl g ↦
                      rw (e, f, g, accept)
                        (rw held (
                          store-current parse_json dump truncated pton4 pton6 sha256_hex verifies
                                keys p tag pinned.0
                              ∙ same,
                          filter_to_ceiling-IsInside p (families_for c platform),
                          filter_to_ceiling-HasUsable pton4 pton6 p (families_for c platform)
                              (validate-HasUsable pton4 pton6 p platform f),
                        ))
                ]
          ]
        ]

  -- What a fetch starts from: the stored profile, or the built-in one.
  fallen-IsBounded :
      (platform : Bytes) (c : Ceiling) (t : State) (stored : Option Profile)
      → t.current ≡ some c
      → ((p : Profile) → stored ≡ some p → IsBounded platform c t p)
      → IsBounded platform c t (value_or stored (built_in_profile platform c))
  fallen-IsBounded platform c t none h k =
      (h, built_in_profile-IsInside platform c, built_in_profile-HasUsable pton4 pton6 platform c)
  fallen-IsBounded platform c t (some p) h k = k p refl

  finish-IsBounded :
      (platform : Bytes) (fetch download : Option Response) (etag : Bytes) (c : Ceiling) (s : State)
      → s.current ≡ some c
      → let (t, out) =
          finish parse_json dump truncated pton4 pton6 sha256_hex verifies keys platform fetch
            download etag s in
        IsBounded platform c t out.profile
  unfolding finish
  finish-IsBounded platform fetch download etag c s h =
      let u =
        load_stored parse_json dump truncated pton4 pton6 sha256_hex verifies keys platform s in
      let (held, inside) = load_stored-IsBounded platform c s h in
      let fallen = fallen-IsBounded platform c u.0 u.1 held inside in
      elim (Option-cases fetch) [
        | inl e ↦
            rw (e, finish)
              (rw
                (current_ceiling-held parse_json dump truncated pton4 pton6 sha256_hex verifies keys
                  s c h)
                fallen)
        | inr (r, e) ↦ elim (Bool-cases (r.status == 304)) [
          | inl f ↦ elim (Bool-cases (is_some u.1)) [
            | inl g ↦
                rw (e, f, finish)
                  (rw
                    (current_ceiling-held parse_json dump truncated pton4 pton6 sha256_hex verifies
                      keys s c h)
                    (rw g fallen))
            | inr g ↦
                rw (e, f, finish)
                  (rw
                    (current_ceiling-held parse_json dump truncated pton4 pton6 sha256_hex verifies
                      keys s c h)
                    (rw g fallen))
          ]
          | inr f ↦ elim (Bool-cases (r.status == 200)) [
            | inl g ↦
                rw (e, f, g, finish)
                  (rw
                    (current_ceiling-held parse_json dump truncated pton4 pton6 sha256_hex verifies
                      keys s c h)
                    (accept-IsBounded platform r download etag _ c u.0 fallen))
            | inr g ↦
                rw (e, f, g, finish)
                  (rw
                    (current_ceiling-held parse_json dump truncated pton4 pton6 sha256_hex verifies
                      keys s c h)
                    fallen)
          ]
        ]
      ]

  -- Whatever the three answers are and whatever is stored, after a fetch a host that is redirected is in a
  -- family that the ceiling in use names for the platform, and it goes to a literal address that is neither
  -- the machine's own nor the link's, or to the address that the host application carries.
  pub fetch_with_ceiling-redirect_for :
      (platform : Bytes) (envelope : Option Bytes) (answer download : Option Response) (c : Client)
      (host server_address : Bytes) {a : Bytes}
      → let (d, out) =
          fetch_with_ceiling parse_json dump truncated pton4 pton6 sha256_hex verifies keys platform
            envelope answer download c in
        redirect_for d.applied host server_address ≡ some a
        → (name_allowed parse_json verifies keys host platform d.ceiling ≡ true)
          × (IsUsable pton4 pton6 a ⊎ (a ≡ server_address))
  unfolding fetch_with_ceiling apply name_allowed
  fetch_with_ceiling-redirect_for platform envelope answer download c host server_address r =
      let etag = read_file c.ceiling.disk (etag_path c.ceiling.config) in
      let settled = (load_ceiling parse_json verifies envelope keys c.ceiling).0 in
      let (ceiling, held, sane) =
        load_ceiling-current parse_json dump truncated pton4 pton6 sha256_hex verifies keys envelope
          c.ceiling in
      let done =
        finish parse_json dump truncated pton4 pton6 sha256_hex verifies keys platform answer
          download etag settled in
      let (now, inside, usable) =
        finish-IsBounded platform answer download etag ceiling settled held in
      (
        rw
            (current_ceiling-held parse_json dump truncated pton4 pton6 sha256_hex verifies keys
              done.0 ceiling now)
            (redirect_for-inside (families_for ceiling platform) host
              (families_for-AreFamilies ceiling platform sane) done.1 server_address inside r),
        redirect_for-IsUsable pton4 pton6 done.1 host server_address usable r,
      )
