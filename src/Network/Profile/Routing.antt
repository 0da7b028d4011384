-- ===== src/Network/Profile/Routing.antt =====
-- Which rule of a profile answers for a host, and that an answer is an address that can be used.
use openpak_client.Shared.{
  ◌≡◌, refl, ap, ◌∙◌, ◌⊎◌, inl, inr, true, false, Option, none, some, List, [], ◌∷◌, ◌++◌, map,
  arith, Bool-cases, Option-cases, if◌then◌else◌, is_nil, any_of, All, All-keep_if, Bytes,
}
use openpak_client.Network.Family.{matches, name_in_families}
use openpak_client.Network.Ceiling.Payload.{Ceiling}
use openpak_client.Network.Profile.{
  Profile, Result, filter_to_ceiling, built_in_profile, override_for, redirect_for,
  is_literal_address, is_loopback_or_link_local, unusable, validate,
}

-- The rules of a profile, the strongest first: a name, and where it goes, if it is answered at all.
abbrev pub routes : Profile → Bytes → List (Bytes × Option Bytes)
routes p server_address =
    let server = if is_nil p.server_address then server_address else p.server_address in
    map (λ n. (n, none)) p.never
    ++ (map (λ o. (o.0, some o.1)) p.overrides
        ++ (map (λ n. (n, some server)) p.exact ++ map (λ n. (n, some server)) p.suffixes))

-- Where the first rule that the host matches sends it.
abbrev pub first_route : Bytes → List (Bytes × Option Bytes) → Option Bytes
first_route host [] = none
first_route host ((name, target) ∷ rest) =
    let later = first_route host rest in if matches host name then target else later

module _ (host : Bytes) where
  first_route-names :
      (names : List Bytes) (target : Option Bytes) (rest : List (Bytes × Option Bytes))
      → first_route host (map (λ n. (n, target)) names ++ rest)
        ≡ (if any_of (matches host) names then target else first_route host rest)
  first_route-names [] target rest = refl
  first_route-names (n ∷ names) target rest = ground (arith, first_route-names names target rest)

  first_route-last :
      (names : List Bytes) (target : Option Bytes)
      → first_route host (map (λ n. (n, target)) names)
        ≡ (if any_of (matches host) names then target else none)
  first_route-last [] target = refl
  first_route-last (n ∷ names) target = ground (arith, first_route-last names target)

  first_route-overrides :
      (overrides : List (Bytes × Bytes)) (rest : List (Bytes × Option Bytes))
      → first_route host (map (λ o. (o.0, some o.1)) overrides ++ rest)
        ≡ elim (override_for host overrides) [ some a ↦ some a | none ↦ first_route host rest ]
  unfolding override_for
  first_route-overrides [] rest = refl
  first_route-overrides ((name, address) ∷ overrides) rest = elim (Bool-cases (matches host name)) [
    | inl e ↦ rw e refl
    | inr e ↦ rw e (first_route-overrides overrides rest)
  ]

  -- What a host resolves to is what the first rule it matches says, the names to leave alone before the
  -- overrides, those before the exact names, and those before the suffixes.
  pub redirect_for-first_route :
      (applied : Result) (server_address : Bytes)
      → redirect_for (some applied) host server_address
        ≡ first_route host (routes applied.profile server_address)
  unfolding redirect_for
  redirect_for-first_route applied server_address =
      let p = applied.profile in
      let server = if is_nil p.server_address then server_address else p.server_address in
      let last : first_route host
            (map (λ n. (n, some server)) p.exact ++ map (λ n. (n, some server)) p.suffixes)
          ≡ (if any_of (matches host) p.exact
              then some server
              else if any_of (matches host) p.suffixes
              then some server
              else none) =
        first_route-names p.exact (some server) _
        ∙ ap (λ t. if any_of (matches host) p.exact then some server else t)
            (first_route-last p.suffixes (some server)) in
      rw (first_route-names p.never none _, first_route-overrides p.overrides _)
        (elim (Option-cases (override_for host p.overrides)) [
          | inl e ↦ rw e (rw last refl)
          | inr (address, e) ↦ rw e refl
        ])

module _ (pton4 pton6 : Bytes → Option Bytes) where
  -- An address that parses and is none of the machine itself or of the link.
  abbrev pub IsUsable : Bytes → Type 0
  IsUsable a =
      (is_literal_address pton4 pton6 a ≡ true) × (is_loopback_or_link_local pton4 pton6 a ≡ false)

  -- The addresses of a profile can be used; it may leave the server's out.
  pub record HasUsable (p : Profile) : Type 0 where
    pub server : (p.server_address ≡ []) ⊎ IsUsable p.server_address
    pub overrides : All (λ o. IsUsable o.1) p.overrides

  unusable-none :
      (overrides : List (Bytes × Bytes))
      → unusable pton4 pton6 overrides ≡ none
      → All (λ o. IsUsable o.1) overrides
  unfolding unusable
  unusable-none [] h = tt
  unusable-none ((name, address) ∷ rest) h = ground (arith, unusable-none rest)

  pub validate-HasUsable :
      (p : Profile) (platform : Bytes) → validate pton4 pton6 p platform ≡ none → HasUsable p
  unfolding validate
  validate-HasUsable p platform h = elim (Option-cases (unusable pton4 pton6 p.overrides)) [
    | inl e ↦ record { server = inr (ground arith); overrides = unusable-none p.overrides e }
    | inr (name, e) ↦ absurd (ground arith)
  ]

  pub filter_to_ceiling-HasUsable :
      (p : Profile) (families : List Bytes)
      → HasUsable p
      → HasUsable (filter_to_ceiling p families).0
  unfolding filter_to_ceiling
  filter_to_ceiling-HasUsable p families h = record {
    server = h.server;
    overrides =
        All-keep_if (λ o. IsUsable o.1) (λ o. name_in_families o.0 families) p.overrides
          h.overrides;
  }

  pub built_in_profile-HasUsable :
      (platform : Bytes) (c : Ceiling) → HasUsable (built_in_profile platform c)
  unfolding built_in_profile
  built_in_profile-HasUsable platform c = record { server = inl refl; overrides = tt }

  override_for-IsUsable :
      (host : Bytes) (overrides : List (Bytes × Bytes)) {a : Bytes}
      → All (λ o. IsUsable o.1) overrides
      → override_for host overrides ≡ some a
      → IsUsable a
  unfolding override_for
  override_for-IsUsable host [] h m = cc
  override_for-IsUsable host ((name, address) ∷ rest) {a} h m =
      elim (Bool-cases (matches host name)) [
        | inl e ↦ let same : address ≡ a = cc (rw (e, override_for) at m) in rw (← same) h.0
        | inr e ↦ override_for-IsUsable host rest h.1 (rw (e, override_for) at m)
      ]

  -- A host goes to an address that can be used, or to the one the host application carries.
  pub redirect_for-IsUsable :
      (applied : Result) (host server_address : Bytes) {a : Bytes}
      → HasUsable applied.profile
      → redirect_for (some applied) host server_address ≡ some a
      → IsUsable a ⊎ (a ≡ server_address)
  unfolding redirect_for
  redirect_for-IsUsable applied host server_address {a} h r =
      let p = applied.profile in
      elim (Option-cases (override_for host p.overrides)) [
        | inr (address, e) ↦
            let same : address ≡ a = ground (arith, r, e) in
            inl (override_for-IsUsable host p.overrides h.overrides (rw same at e))
        | inl e ↦
            let same : (if is_nil p.server_address then server_address else p.server_address) ≡ a =
              ground (arith, r, e) in
            elim h.server [
              | inl nil_server ↦ inr (cc (rw nil_server at same))
              | inr usable ↦ elim (Bool-cases (is_nil p.server_address)) [
                | inl f ↦ inr (cc (rw f at same))
                | inr f ↦
                    let sent : p.server_address ≡ a = cc (rw f at same) in inl (rw (← sent) usable)
              ]
            ]
      ]
