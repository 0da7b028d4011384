-- ===== src/Network/Profile/Rejecting.antt =====
-- An answer that is not applied is not stored.
use openpak_client.Shared.{
  ◌≡◌, refl, ◌∙◌, ◌≢◌, inl, inr, Bool, false, Option, List, arith, ◌==◌, Bool-cases, Option-cases,
  Bytes, nat_eq,
}
use openpak_client.Shared.Int.{ℤ}
use openpak_client.Network.Json.{Json}
use openpak_client.Network.Ceiling.{PinnedKey, fetched, State, current_ceiling}
use openpak_client.Network.Profile.{Profile, Result, validate}
use openpak_client.Network.Profile.Fetching.{
  Response, on_disk, parse, stored_profile, load_stored, ensure_ca, accept, finish,
}

module _ (parse_json : Bytes → Option Json) (dump : Json → Option Bytes) (truncated : Bytes → ℤ)
    (pton4 pton6 : Bytes → Option Bytes) (sha256_hex : Bytes → Bytes)
    (verifies : Bytes → Bytes → Bytes → Bool) (keys : List PinnedKey) where
  current_ceiling-disk : (s : State) → (current_ceiling parse_json verifies keys s).0.disk ≡ s.disk
  unfolding current_ceiling
  current_ceiling-disk s = elim (Option-cases s.current) [
    | inl e ↦ rw (e, current_ceiling) refl
    | inr (c, e) ↦ rw (e, current_ceiling) refl
  ]

  load_stored-disk :
      (platform : Bytes) (s : State)
      → (load_stored parse_json dump truncated pton4 pton6 sha256_hex verifies keys platform
          s).0.disk
        ≡ s.disk
  unfolding load_stored
  load_stored-disk platform s =
      elim (Option-cases (
        stored_profile parse_json dump truncated pton4 pton6 sha256_hex verifies keys platform s)) [
          | inl e ↦ rw (e, load_stored) refl
          | inr (p, e) ↦ rw (e, load_stored) (current_ceiling-disk s)
        ]

  -- A certificate that does not match is not written.
  ensure_ca-disk :
      (p : Profile) (download : Option Response) (s : State)
      → let (t, matching) =
          ensure_ca parse_json dump truncated pton4 pton6 sha256_hex verifies keys p download s in
        matching ≡ false → t.disk ≡ s.disk
  unfolding ensure_ca on_disk
  ensure_ca-disk p download s = elim (Option-cases download) [
    | inl e ↦ rw e (ground arith)
    | inr (r, e) ↦ rw e (ground arith)
  ]

  accept-disk :
      (platform : Bytes) (r : Response) (download : Option Response) (etag : Bytes) (out : Result)
      (s : State)
      → let (t, result) =
          accept parse_json dump truncated pton4 pton6 sha256_hex verifies keys platform r download
            etag out s in
        result.source ≢ fetched → t.disk ≡ s.disk
  unfolding accept
  accept-disk platform r download etag out s =
      elim (Option-cases
        (parse parse_json dump truncated pton4 pton6 sha256_hex verifies keys r.body)) [
          | inl e ↦ rw (e, accept) (λ n. refl)
          | inr (p, e) ↦ elim (Option-cases (validate pton4 pton6 p platform)) [
            | inr (i, f) ↦ rw (e, f, accept) (λ n. refl)
            | inl f ↦
                let pinned =
                  ensure_ca parse_json dump truncated pton4 pton6 sha256_hex verifies keys p
                    download s in
                elim (Bool-cases pinned.1) [
                  | inl g ↦ rw (e, f, g, accept) (λ n. absurd (n refl))
                  | inr g ↦ rw (e, f, g, accept) (λ n. ensure_ca-disk p download s g)
                ]
          ]
        ]

  -- An answer that is not applied, whether there is none, it is an error or unchanged, it does not parse or
  -- is not valid, or its certificate does not match, leaves the stored profile, its tag and the certificate
  -- as they were.
  pub finish-disk :
      (platform : Bytes) (fetch download : Option Response) (etag : Bytes) (s : State)
      → let (t, out) =
          finish parse_json dump truncated pton4 pton6 sha256_hex verifies keys platform fetch
            download etag s in
        out.source ≢ fetched → t.disk ≡ s.disk
  unfolding finish
  finish-disk platform fetch download etag s =
      let settled = (current_ceiling parse_json verifies keys s).0 in
      let u =
        load_stored parse_json dump truncated pton4 pton6 sha256_hex verifies keys platform
          settled in
      let same : u.0.disk ≡ s.disk = load_stored-disk platform settled ∙ current_ceiling-disk s in
      elim (Option-cases fetch) [
        | inl e ↦ rw (e, finish) (λ n. same)
        | inr (r, e) ↦ elim (Bool-cases (r.status == 304)) [
          | inl f ↦ rw (e, f, finish) (λ n. same)
          | inr f ↦ elim (Bool-cases (r.status == 200)) [
            | inr g ↦ rw (e, f, g, finish) (λ n. same)
            | inl g ↦
                rw (e, f, g, finish) (λ n. accept-disk platform r download etag _ u.0 n ∙ same)
          ]
        ]
      ]
