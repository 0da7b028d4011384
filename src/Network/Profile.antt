-- ===== src/Network/Profile.antt =====
-- client/openpak/network_profile.h and network_profile_fetch.cpp, `ServiceHost` and `FilterToCeiling` of
-- network_ceiling.cpp: a profile, its cut to a ceiling, its validation and what it redirects. `inet_pton`
-- is the platform's and is two arguments, one for each family of addresses.
pub mod Document
pub mod Fetching
pub mod Routing
pub mod Filtering
mod Holding
pub mod Bounded
pub mod Rejecting
use openpak_client.Shared.{
  ℕ, ◌/◌, ◌%◌, Bool, true, false, not, ◌&&◌, ◌||◌, Option, none, some, List, [], ◌∷◌, ◌++◌, map,
  ◌==◌, if◌then◌else◌, value_or, is_some, is_nil, get_elem?, take, drop, any_of, all_of, keep_if,
  Bytes, codes, bytes_eq, cut_at, starts_with,
}
use openpak_client.Shared.Int.{ℤ, pos}
use openpak_client.Platform.{to_lower}
use openpak_client.Network.Family.{name_in_families, matches}
use openpak_client.Network.Ceiling.{CeilingSource, built_in}
use openpak_client.Network.Ceiling.Payload.{Ceiling, families_for}

pub record Service : Type 0 where
  pub id : Bytes
  pub url : Bytes

pub record Profile : Type 0 where
  pub version : ℤ
  pub generated_at : ℤ
  pub platform : Bytes
  pub server_address : Bytes
  pub https_port : ℤ
  pub http_port : ℤ
  pub ca_url : Bytes
  pub ca_sha256 : Bytes
  pub ca_not_after : ℤ
  pub suffixes : List Bytes
  pub exact : List Bytes
  pub never : List Bytes
  pub overrides : List (Bytes × Bytes)
  pub services : List Service
  pub recheck_after : ℤ

-- A profile with the values the declarations of its fields give.
abbrev pub empty_profile : Profile
empty_profile = record {
  version = pos 0;
  generated_at = pos 0;
  platform = [];
  server_address = [];
  https_port = pos 443;
  http_port = pos 80;
  ca_url = [];
  ca_sha256 = [];
  ca_not_after = pos 0;
  suffixes = [];
  exact = [];
  never = [];
  overrides = [];
  services = [];
  recheck_after = pos 21600;
}

-- `Result`; its `Source` has the three values of `CeilingSource`.
pub data Invalid : Type 0 where
  wrong_platform not_literal not_usable : Invalid
  bad_override : Bytes → Invalid

pub data Fallback : Type 0 where
  no_error no_answer nothing_stored unparsed ca_mismatch : Fallback
  http_status : ℕ → Fallback
  invalid : Invalid → Fallback

pub record Result : Type 0 where
  pub ok : Bool
  pub source : CeilingSource
  pub profile : Profile
  pub error : Fallback

-- What stands before and after the first "://".
cut_scheme : Bytes → Option (Bytes × Bytes)
unfolding starts_with
cut_scheme [] = none
cut_scheme (c ∷ s) =
    let later = cut_scheme s in
    if starts_with (codes "://") (c ∷ s)
    then some ([], drop 3 (c ∷ s))
    else elim later [ none ↦ none | some (a, b) ↦ some (c ∷ a, b) ]

-- `find_first_of("/?#")` ends the authority.
authority : Bytes → Bytes
authority [] = []
authority (c ∷ s) =
    let rest = authority s in if (c == b'/') || (c == b'?') || (c == b'#') then [] else c ∷ rest

-- What stands before the last `d`.
before_last : ℕ → Bytes → Option Bytes
before_last d [] = none
before_last d (c ∷ s) = elim (before_last d s) [
  | some a ↦ some (c ∷ a)
  | none ↦ if c == d then some [] else none
]

host_of : Bytes → Bytes
unfolding before_last
host_of [] = []
host_of (c ∷ s) =
    if is_some (cut_at b'@' (c ∷ s))
    then []
    else if c == b'['
    then elim (cut_at b']' s) [ none ↦ [] | some (a, b) ↦ to_lower a ]
    else to_lower (value_or (before_last b':' (c ∷ s)) (c ∷ s))

-- `ServiceHost`.
unfoldable pub service_host : Bytes → Bytes
unfolding cut_scheme authority host_of
service_host url = elim (cut_scheme url) [
  | none ↦ []
  | some (scheme, rest) ↦ if is_nil scheme then [] else host_of (authority rest)
]

-- `FilterToCeiling`, with the names it drops in their order.
unfoldable pub filter_to_ceiling : Profile → List Bytes → Profile × List Bytes
filter_to_ceiling p families =
    let inside : Bytes → Bool = λ n. name_in_families n families in
    let outside : Bytes → Bool = λ n. not (name_in_families n families) in
    (
      record p {
        suffixes = keep_if inside p.suffixes;
        exact = keep_if inside p.exact;
        overrides = keep_if (λ o. inside o.0) p.overrides;
        services = keep_if (λ s. inside (service_host s.url)) p.services;
      },
      keep_if outside p.suffixes
          ++ (keep_if outside p.exact
              ++ (keep_if outside (map (λ o. o.0) p.overrides)
                  ++ keep_if outside (map (λ s. service_host s.url) p.services))),
    )

-- `BuiltIn`, under the ceiling that is current.
unfoldable pub built_in_profile : Bytes → Ceiling → Profile
built_in_profile platform ceiling =
    let carried : List Bytes =
      if bytes_eq platform (codes "switch")
      then codes ".nintendo.net"
        ∷ codes ".nintendo.com"
        ∷ codes ".nintendo.co.jp"
        ∷ codes ".nintendowifi.net"
        ∷ codes ".nintendo-europe.com"
        ∷ []
      else codes ".nintendowifi.net"
        ∷ codes ".gamespy.com"
        ∷ codes ".nintendo.net"
        ∷ codes ".openpak.org"
        ∷ [] in
    record empty_profile {
      platform = platform;
      suffixes = keep_if (λ s. name_in_families s (families_for ceiling platform)) carried;
    }

module _ (pton4 pton6 : Bytes → Option Bytes) where
  byte_at : Bytes → ℕ → ℕ
  byte_at v n = value_or (get_elem? v n) 0

  -- `IsLiteralAddress`.
  unfoldable pub is_literal_address : Bytes → Bool
  is_literal_address address = is_some (pton4 address) || is_some (pton6 address)

  -- `IsLoopbackOrLinkLocal`.
  unfoldable pub is_loopback_or_link_local : Bytes → Bool
  unfolding byte_at
  is_loopback_or_link_local address = elim (pton4 address) [
    | some v ↦
        (byte_at v 0 == 127)
        || ((byte_at v 0 == 169) && (byte_at v 1 == 254))
        || (byte_at v 0 == 0)
        || ((byte_at v 0 == 255)
            && (byte_at v 1 == 255)
            && (byte_at v 2 == 255)
            && (byte_at v 3 == 255))
    | none ↦ elim (pton6 address) [
      | some v ↦
          (all_of (λ b. b == 0) (take 15 v) && ((byte_at v 15 == 0) || (byte_at v 15 == 1)))
          || ((byte_at v 0 == 254) && (byte_at v 1 / 64 % 4 == 2))
      | none ↦ true
    ]
  ]

  -- The first override whose address cannot be used.
  unusable : List (Bytes × Bytes) → Option Bytes
  unusable [] = none
  unusable ((name, address) ∷ rest) =
      let later = unusable rest in
      if not (is_literal_address address) || is_loopback_or_link_local address
      then some name
      else later

  -- `Validate`: what is wrong with the profile, or none.
  unfoldable pub validate : Profile → Bytes → Option Invalid
  unfolding unusable
  validate p expected =
      if not (is_nil expected) && not (is_nil p.platform) && not (bytes_eq p.platform expected)
      then some wrong_platform
      else if not (is_literal_address p.server_address)
      then some not_literal
      else if is_loopback_or_link_local p.server_address
      then some not_usable
      else elim (unusable p.overrides) [ none ↦ none | some name ↦ some (bad_override name) ]

-- The first override that the host matches.
override_for : Bytes → List (Bytes × Bytes) → Option Bytes
override_for host [] = none
override_for host ((name, address) ∷ rest) =
    let later = override_for host rest in if matches host name then some address else later

-- `RedirectFor`, under what is applied.
unfoldable pub redirect_for : Option Result → Bytes → Bytes → Option Bytes
unfolding override_for
redirect_for none host server_address = none
redirect_for (some applied) host server_address =
    let p = applied.profile in
    let server = if is_nil p.server_address then server_address else p.server_address in
    if any_of (matches host) p.never then none else elim (override_for host p.overrides) [
      | some address ↦ some address
      | none ↦
          if any_of (matches host) p.exact
          then some server
          else if any_of (matches host) p.suffixes
          then some server
          else none
    ]

-- `Loaded`.
unfoldable pub loaded : Option Result → Bool
loaded none = false
loaded (some applied) = elim applied.source [ built_in ↦ false | _ ↦ true ]
