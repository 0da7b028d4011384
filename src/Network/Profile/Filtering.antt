-- ===== src/Network/Profile/Filtering.antt =====
-- `FilterToCeiling` leaves a profile that redirects nothing outside the families.
use openpak_client.Shared.{
  ◌≡◌, refl, inl, inr, Bool, true, not, some, List, [], ◌∷◌, map, arith, Bool-cases, Option-cases,
  any_of, all_of, keep_if, keep_if_idem, All, Bytes,
}
use openpak_client.Network.Family.{family_well_formed, name_in_families, matches}
use openpak_client.Network.Family.Covering.{name_in_families-matches}
use openpak_client.Network.Ceiling.Payload.{Ceiling, families_for}
use openpak_client.Network.Profile.{
  Profile, Result, service_host, filter_to_ceiling, built_in_profile, override_for, redirect_for,
}

-- Every name the profile redirects, and the host of every service, is in one of the families.
pub record IsInside (families : List Bytes) (p : Profile) : Type 0 where
  pub suffixes : All (λ n. name_in_families n families ≡ true) p.suffixes
  pub exact : All (λ n. name_in_families n families ≡ true) p.exact
  pub overrides : All (λ o. name_in_families o.0 families ≡ true) p.overrides
  pub services : All (λ s. name_in_families (service_host s.url) families ≡ true) p.services

All-keep_if_self {ℓ} :
    {A : Type ℓ} (p : A → Bool) (xs : List A) → All (λ x. p x ≡ true) (keep_if p xs)
All-keep_if_self p [] = tt
All-keep_if_self p (x ∷ xs) = ground (arith, All-keep_if_self p xs)

drops_none : (p : Bytes → Bool) (xs : List Bytes) → keep_if (λ x. not (p x)) (keep_if p xs) ≡ []
drops_none p [] = refl
drops_none p (x ∷ xs) = ground (arith, drops_none p xs)

drops_none-map {ℓ} :
    {A : Type ℓ} (p : Bytes → Bool) (f : A → Bytes) (xs : List A)
    → keep_if (λ x. not (p x)) (map f (keep_if (λ a. p (f a)) xs)) ≡ []
drops_none-map p f [] = refl
drops_none-map p f (x ∷ xs) = ground (arith, drops_none-map p f xs)

pub filter_to_ceiling-IsInside :
    (p : Profile) (families : List Bytes) → IsInside families (filter_to_ceiling p families).0
unfolding filter_to_ceiling
filter_to_ceiling-IsInside p families = record {
  suffixes = All-keep_if_self (λ n. name_in_families n families) p.suffixes;
  exact = All-keep_if_self (λ n. name_in_families n families) p.exact;
  overrides = All-keep_if_self (λ o. name_in_families o.0 families) p.overrides;
  services = All-keep_if_self (λ s. name_in_families (service_host s.url) families) p.services;
}

-- What is left after the filter is inside the families, and a second run of the filter changes nothing
-- and drops nothing.
pub filter_to_ceiling_idem :
    (p : Profile) (families : List Bytes)
    → let q = (filter_to_ceiling p families).0 in
      IsInside families q × (filter_to_ceiling q families ≡ (q, []))
unfolding filter_to_ceiling
filter_to_ceiling_idem p families =
    let inside : Bytes → Bool = λ n. name_in_families n families in
    (
      filter_to_ceiling-IsInside p families,
      rw
          (
            keep_if_idem inside p.suffixes,
            keep_if_idem inside p.exact,
            keep_if_idem (λ o. inside o.0) p.overrides,
            keep_if_idem (λ s. inside (service_host s.url)) p.services,
            drops_none inside p.suffixes,
            drops_none inside p.exact,
            drops_none-map inside (λ o. o.0) p.overrides,
            drops_none-map inside (λ s. service_host s.url) p.services,
          )
          refl,
    )

pub built_in_profile-IsInside :
    (platform : Bytes) (c : Ceiling)
    → IsInside (families_for c platform) (built_in_profile platform c)
unfolding built_in_profile
built_in_profile-IsInside platform c = record {
  suffixes = All-keep_if_self (λ n. name_in_families n (families_for c platform)) _;
  exact = tt;
  overrides = tt;
  services = tt;
}

module _ (families : List Bytes) (host : Bytes)
    (w : all_of family_well_formed families ≡ true) where
  any_of-inside :
      (names : List Bytes)
      → All (λ n. name_in_families n families ≡ true) names
      → any_of (matches host) names ≡ true
      → name_in_families host families ≡ true
  any_of-inside [] h m = cc
  any_of-inside (n ∷ names) h m = elim (Bool-cases (matches host n)) [
    | inl e ↦ name_in_families-matches host n families w h.0 e
    | inr e ↦ any_of-inside names h.1 (ground arith)
  ]

  override_for-inside :
      (overrides : List (Bytes × Bytes)) {a : Bytes}
      → All (λ o. name_in_families o.0 families ≡ true) overrides
      → override_for host overrides ≡ some a
      → name_in_families host families ≡ true
  unfolding override_for
  override_for-inside [] h m = cc
  override_for-inside ((name, address) ∷ rest) h m = elim (Bool-cases (matches host name)) [
    | inl e ↦ name_in_families-matches host name families w h.0 e
    | inr e ↦ override_for-inside rest h.1 (rw (e, override_for) at m)
  ]

  pub redirect_for-inside :
      (applied : Result) (server_address : Bytes) {a : Bytes}
      → IsInside families applied.profile
      → redirect_for (some applied) host server_address ≡ some a
      → name_in_families host families ≡ true
  unfolding redirect_for
  redirect_for-inside applied server_address h r =
      let p = applied.profile in
      elim (Option-cases (override_for host p.overrides)) [
        | inr (address, e) ↦ override_for-inside p.overrides h.overrides e
        | inl none_over ↦ elim (Bool-cases (any_of (matches host) p.exact)) [
          | inl e ↦ any_of-inside p.exact h.exact e
          | inr e ↦ elim (Bool-cases (any_of (matches host) p.suffixes)) [
            | inl f ↦ any_of-inside p.suffixes h.suffixes f
            | inr f ↦ elim (Bool-cases (any_of (matches host) p.never)) [
              | inl g ↦ cc (rw (none_over, e, f, g, redirect_for) at r)
              | inr g ↦ cc (rw (none_over, e, f, g, redirect_for) at r)
            ]
          ]
        ]
      ]
