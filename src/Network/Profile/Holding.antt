-- ===== src/Network/Profile/Holding.antt =====
-- The ceiling that a load settles is the one that every later call of the fetch finds.
use openpak_client.Shared.{
  ℕ, ◌≡◌, refl, inl, inr, Bool, true, Option, some, List, [], ◌∷◌, arith, Option-cases, value_or,
  all_of, All, Bytes, nat_eq, text_eq,
}
use openpak_client.Shared.Int.{ℤ}
use openpak_client.Shared.Maps.{lookup}
use openpak_client.Network.Json.{Json}
use openpak_client.Network.Family.{family_well_formed}
use openpak_client.Network.Ceiling.{
  PinnedKey, State, load_ceiling, current_ceiling, compiled_ceiling, decide_ceiling, read_whole,
  ceiling_path, read_highest, CeilingResult,
}
use openpak_client.Network.Ceiling.Payload.{Ceiling, families_for}
use openpak_client.Network.Ceiling.Sound.{AreFamilies}
use openpak_client.Network.Ceiling.Rollback.{Decided, decide_ceiling-Decided}
use openpak_client.Network.Profile.{Profile}
use openpak_client.Network.Profile.Document.{profile_json}
use openpak_client.Network.Profile.Fetching.{Response, on_disk, store, ensure_ca}

lookup-AreFamilies :
    (platform : Bytes) (m : List (Bytes × List Bytes))
    → All AreFamilies m
    → all_of family_well_formed (value_or (lookup platform m) []) ≡ true
unfolding lookup
lookup-AreFamilies platform [] h = refl
lookup-AreFamilies platform ((p, fs) ∷ m) h = ground (arith, lookup-AreFamilies platform m h.1)

pub families_for-AreFamilies :
    (c : Ceiling) (platform : Bytes)
    → All AreFamilies c.platforms
    → all_of family_well_formed (families_for c platform) ≡ true
unfolding families_for
families_for-AreFamilies c platform h = lookup-AreFamilies platform c.platforms h

compiled-AreFamilies : All AreFamilies compiled_ceiling.platforms
unfolding family_well_formed
compiled-AreFamilies = (refl, (refl, (refl, (refl, (refl, tt)))))

module _ (parse_json : Bytes → Option Json) (dump : Json → Option Bytes) (truncated : Bytes → ℤ)
    (pton4 pton6 : Bytes → Option Bytes) (sha256_hex : Bytes → Bytes)
    (verifies : Bytes → Bytes → Bytes → Bool) (keys : List PinnedKey) where
  -- The ceiling that a load settles holds well-formed families.
  Decided-AreFamilies :
      (highest noted : ℕ) (r : CeilingResult)
      → Decided parse_json verifies keys highest r noted
      → All AreFamilies r.ceiling.platforms
  Decided-AreFamilies highest noted r (inl (_, same, _)) = rw same compiled-AreFamilies
  Decided-AreFamilies highest noted r (inr (_, _, sane, _, _)) = sane.families

  pub load_ceiling-current :
      (envelope : Option Bytes) (s : State)
      → (c : Ceiling) × ((load_ceiling parse_json verifies envelope keys s).0.current ≡ some c)
        × All AreFamilies c.platforms
  unfolding load_ceiling
  load_ceiling-current envelope s =
      let cache = read_whole s.disk (ceiling_path s.config) in
      let highest = read_highest s.config s.disk in
      let d = decide_ceiling parse_json verifies cache envelope highest keys in
      (
        d.result.ceiling,
        refl,
        Decided-AreFamilies highest d.highest_accepted d.result
            (decide_ceiling-Decided parse_json verifies keys cache envelope highest),
      )

  pub current_ceiling-held :
      (s : State) (c : Ceiling)
      → s.current ≡ some c
      → current_ceiling parse_json verifies keys s ≡ (s, c)
  unfolding current_ceiling
  current_ceiling-held s c h = simp (h, current_ceiling)

  pub ensure_ca-current :
      (p : Profile) (download : Option Response) (s : State)
      → (ensure_ca parse_json dump truncated pton4 pton6 sha256_hex verifies keys p download
          s).0.current
        ≡ s.current
  unfolding ensure_ca on_disk
  ensure_ca-current p download s = elim (Option-cases download) [
    | inl e ↦ rw e (ground arith)
    | inr (r, e) ↦ rw e (ground arith)
  ]

  pub store-current :
      (p : Profile) (etag : Bytes) (s : State)
      → (store parse_json dump truncated pton4 pton6 sha256_hex verifies keys p etag s).0.current
        ≡ s.current
  unfolding store on_disk
  store-current p etag s = elim (Option-cases (dump (profile_json p))) [
    | inl e ↦ rw (e, store) refl
    | inr (body, e) ↦ rw (e, store) refl
  ]
