-- ===== src/Nat/Verdict.antt =====
-- What the test says of a NAT.
use openpak_client.Shared.{
  ℕ, ◌≡◌, refl, ◌≢◌, ◌⊎◌, inl, inr, Bool, true, false, Option, none, some, List, [], ◌∷◌, arith,
  Option-cases, All, Bytes, nat_eq, text_eq,
}
use openpak_client.Shared.Maps.{lookup}
use openpak_client.Nat.{
  Endpoint, Seen, Datagram, Mapping, Filtering, unknown, no_nat, endpoint_independent,
  address_dependent, address_and_port_dependent, untested, open_to_all, open_to_address,
  open_to_port, endpoint_eq, exchange, type_of, mapping_of, filtering_of, is_local, run,
}

-- How a NAT that sends from a port for each destination behaves, as RFC 4787 names it.
abbrev pub Behaves : Mapping → (Endpoint → ℕ) → Type 0
Behaves unknown f = Unit
Behaves no_nat f = Unit
Behaves endpoint_independent f = (a b : Endpoint) → f a ≡ f b
Behaves address_dependent f =
    ((a b : Endpoint) → a.address ≡ b.address → f a ≡ f b)
    × ((a b : Endpoint) → a.address ≢ b.address → f a ≢ f b)
Behaves address_and_port_dependent f =
    ((a b : Endpoint) → a.address ≢ b.address → f a ≢ f b)
    × ((a b : Endpoint) → a.port ≢ b.port → f a ≢ f b)

abbrev pub IsBehaviour : Mapping → Type 0
IsBehaviour m = (m ≢ unknown) × (m ≢ no_nat)

mapping_of-Behaves :
    (m : Mapping) (f : Endpoint → ℕ) (address : ℕ) (first same other : Endpoint)
    → IsBehaviour m
    → Behaves m f
    → first.address ≡ same.address
    → first.port ≢ same.port
    → first.address ≢ other.address
    → mapping_of
        (record { port = f first; address = address })
        false
        (some (record { port = f same; address = address }))
        (some (record { port = f other; address = address }))
      ≡ m
unfolding mapping_of
mapping_of-Behaves unknown f address first same other known b e ne away = absurd (known.0 refl)
mapping_of-Behaves no_nat f address first same other known b e ne away = absurd (known.1 refl)
mapping_of-Behaves endpoint_independent f address first same other known b e ne away =
    ground (arith, b other first)
mapping_of-Behaves address_dependent f address first same other known b e ne away =
    ground (arith, b.1 first other away, b.0 first same e)
mapping_of-Behaves address_and_port_dependent f address first same other known b e ne away =
    ground (arith, b.0 first other away, b.1 first same ne)

mapping_of-ne :
    (first : Seen) (l : Bool) (same other : Option Seen) → mapping_of first l same other ≢ unknown
unfolding mapping_of
mapping_of-ne first true same other e = ground arith
mapping_of-ne first false none none e = ground arith
mapping_of-ne first false (some same) none e = ground arith
mapping_of-ne first false none (some other) e = ground arith
mapping_of-ne first false (some same) (some other) e = ground arith

filtering_of-ne : (two three : List (Endpoint × Seen)) → filtering_of two three ≢ untested
unfolding filtering_of
filtering_of-ne two three e = ground arith

type_of-ne :
    (m : Mapping) (f : Filtering) (x : Bytes)
    → m ≢ unknown
    → type_of (record { mapping = m; filtering = f; external = x }) ≢ b'F'
unfolding type_of
type_of-ne unknown f x h e = h refl
type_of-ne no_nat f x h e = ground arith
type_of-ne endpoint_independent untested x h e = ground arith
type_of-ne endpoint_independent open_to_all x h e = ground arith
type_of-ne endpoint_independent open_to_address x h e = ground arith
type_of-ne endpoint_independent open_to_port x h e = ground arith
type_of-ne address_dependent untested x h e = ground arith
type_of-ne address_dependent open_to_all x h e = ground arith
type_of-ne address_dependent open_to_address x h e = ground arith
type_of-ne address_dependent open_to_port x h e = ground arith
type_of-ne address_and_port_dependent untested x h e = ground arith
type_of-ne address_and_port_dependent open_to_all x h e = ground arith
type_of-ne address_and_port_dependent open_to_address x h e = ground arith
type_of-ne address_and_port_dependent open_to_port x h e = ground arith

module _ (parse_address : Bytes → Option ℕ) (dotted : ℕ → Bytes) (interfaces : List ℕ)
    (primary secondary : Bytes) (primary_port secondary_port : ℕ)
    (one two three : List (List Datagram)) where
  abbrev pub targets : ℕ → ℕ → List Endpoint
  targets p s =
      record { address = p; port = primary_port }
      ∷ record { address = p; port = secondary_port }
      ∷ record { address = s; port = primary_port }
      ∷ []

  -- Behind a NAT of one of the three behaviours, where the two servers have two addresses and are
  -- asked on two ports and all three probes are answered with the port that the NAT used, the test
  -- names the behaviour.
  pub run-Behaves :
      (m : Mapping) (f : Endpoint → ℕ) (p s address : ℕ)
      → IsBehaviour m
      → Behaves m f
      → parse_address primary ≡ some p
      → parse_address secondary ≡ some s
      → p ≢ s
      → primary_port ≢ secondary_port
      → is_local interfaces address ≡ false
      → All
          (λ e.
            lookup e (exchange 1 (targets p s) (targets p s) one).1
            ≡ some (record { port = f e; address = address }))
          (targets p s)
      → (run parse_address dotted interfaces primary secondary primary_port secondary_port one two
          three).mapping
        ≡ m
  unfolding run
  run-Behaves m f p s address known b ep es ne ports remote answered =
      let first : Endpoint = record { address = p; port = primary_port } in
      let same : Endpoint = record { address = p; port = secondary_port } in
      let other : Endpoint = record { address = s; port = primary_port } in
      rw (ep, es, answered.0, answered.1.0, answered.1.1.0, remote, run)
        (mapping_of-Behaves m f address first same other known b refl ports ne)

  -- Either the test says nothing at all, and its letter is F, or it says both how the NAT maps and how
  -- it filters, and its letter is another.
  pub run_complete :
      let r =
        run parse_address dotted interfaces primary secondary primary_port secondary_port one two
          three in
      (r ≡ record { mapping = unknown; filtering = untested; external = [] }) × (type_of r ≡ b'F')
      ⊎ (r.mapping ≢ unknown) × (r.filtering ≢ untested) × (type_of r ≢ b'F')
  unfolding run type_of
  run_complete = elim (Option-cases (parse_address primary)) [
    | inl e ↦ inl (rw (e, run), rw (e, run))
    | inr (p, e) ↦ elim (Option-cases (parse_address secondary)) [
      | inl g ↦ inl (rw (e, g, run), rw (e, g, run))
      | inr (s, g) ↦
          let seen = (exchange 1 (targets p s) (targets p s) one).1 in
          let same : Option Seen = lookup (record { address = p; port = secondary_port }) seen in
          let other : Option Seen = lookup (record { address = s; port = primary_port }) seen in
          let tried = record { address = p; port = primary_port } ∷ [] in
          let filters = filtering_of (exchange 2 tried [] two).1 (exchange 3 tried [] three).1 in
          elim (Option-cases (lookup (record { address = p; port = primary_port }) seen)) [
            | inl h ↦ inl (rw (e, g, h, run), rw (e, g, h, run))
            | inr (reply, h) ↦
                let maps = mapping_of reply (is_local interfaces reply.address) same other in
                let named : maps ≢ unknown =
                  mapping_of-ne reply (is_local interfaces reply.address) same other in
                inr (
                  rw (e, g, h, run) named,
                  rw (e, g, h, run)
                      (filtering_of-ne (exchange 2 tried [] two).1 (exchange 3 tried [] three).1),
                  rw (e, g, h, run) (type_of-ne maps filters (dotted reply.address) named),
                )
          ]
    ]
  ]
