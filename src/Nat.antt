-- ===== src/Nat.antt =====
-- client/openpak/nat_check.cpp: the NAT test. An address is its number in host order. What arrives is
-- an argument: the datagrams of each 400 ms round, in their order, with the end of a round where
-- `select` gives up; `seen` is an association list. The sockets, `inet_pton`, `inet_ntop` and the list of
-- the interfaces' addresses are the system's.
pub mod Replies
pub mod Verdict
mod Examples
use openpak_client.Shared.{
  ℕ, ◌+◌, ◌*◌, ◌/◌, ◌%◌, ◌≡◌, Bool, true, false, not, ◌&&◌, ◌||◌, Option, none, some, List, [], ◌∷◌,
  map, arith, ltb, ◌==◌, if◌then◌else◌, value_or, is_some, length, get_elem?, take, replicate,
  is_nil, any_of, keep_if, Bytes, codes, bytes_eq, nat_eq, text_eq,
}
use openpak_client.Shared.Maps.{lookup, insert}
use openpak_client.Shared.{Eq}

pub record Endpoint : Type 0 where
  pub address : ℕ
  pub port : ℕ

pub record Seen : Type 0 where
  pub port : ℕ
  pub address : ℕ

pub data Mapping : Type 0 where
  unknown no_nat endpoint_independent address_dependent address_and_port_dependent : Mapping

pub data Filtering : Type 0 where
  untested open_to_all open_to_address open_to_port : Filtering

pub record Result : Type 0 where
  pub mapping : Mapping
  pub filtering : Filtering
  pub external : Bytes

abbrev pub same_endpoint : Endpoint → Endpoint → Bool
same_endpoint a b = (a.address == b.address) && (a.port == b.port)

pub same_endpoint_sound : (a b : Endpoint) → same_endpoint a b ≡ true → a ≡ b
same_endpoint_sound a b h =
    let e : a.address ≡ b.address = ground arith in
    let f : a.port ≡ b.port = ground arith in λ i. record { address = e i; port = f i }

pub same_endpoint_refl : (a b : Endpoint) → a ≡ b → same_endpoint a b ≡ true
same_endpoint_refl a b e = rw e (ground arith)

instance abbrev pub endpoint_eq : Eq Endpoint
endpoint_eq = record {
  beq = same_endpoint;
  beq_iff = λ a b. (same_endpoint_sound a b, same_endpoint_refl a b);
}

-- `Be32` at an offset; the buffer is zero where nothing was received.
pub be32 : Bytes → ℕ → ℕ
be32 packet at =
    let byte : ℕ → ℕ = λ i. value_or (get_elem? packet (at + i)) 0 in
    byte 0 * 0x1000000 + byte 1 * 0x10000 + byte 2 * 0x100 + byte 3

-- The 16 bytes of a probe.
probe : ℕ → Bytes
probe type =
    type / 0x1000000 % 0x100
    ∷ type / 0x10000 % 0x100
    ∷ type / 0x100 % 0x100
    ∷ type % 0x100
    ∷ replicate 12 0

-- A datagram and where it came from; the buffer takes 64 bytes of it.
abbrev pub Datagram : Type 0
Datagram = Endpoint × Bytes

-- One pass of the receiving loop: what has been seen, and whether the exchange is over.
pub receive : ℕ → List Endpoint → Datagram → List (Endpoint × Seen) → List (Endpoint × Seen) × Bool
unfolding be32
receive type from (sender, datagram) seen =
    let buffer = take 64 datagram in
    let now = insert sender (record { port = be32 buffer 4; address = be32 buffer 8 }) seen in
    if ltb (length buffer) 16 || not (be32 buffer 0 == type)
    then (seen, false)
    else if not (is_nil from) && not (any_of (same_endpoint sender) from)
    then (seen, false)
    else (now, is_nil from || (length now == length from))

-- The receiving loop of one round.
receive_all :
    ℕ → List Endpoint → List Datagram → List (Endpoint × Seen) → List (Endpoint × Seen) × Bool
receive_all type from [] seen = (seen, false)
receive_all type from (d ∷ ds) seen =
    let (now, over) = receive type from d seen in
    let rest = receive_all type from ds now in if over then (now, true) else rest

-- Where a round sends its probe.
pub probed : List Endpoint → List Endpoint → List (Endpoint × Seen) → List Endpoint
probed targets from seen =
    keep_if (λ target. is_nil from || not (is_some (lookup target seen))) targets

-- The rounds of `Exchange`: what was sent, a list to a round, and what was seen.
exchange_rounds :
    ℕ
    → List Endpoint
    → List Endpoint
    → List (List Datagram)
    → List (Endpoint × Seen)
    → List (List (Endpoint × Bytes)) × List (Endpoint × Seen)
unfolding receive_all probe
exchange_rounds type targets from [] seen = ([], seen)
exchange_rounds type targets from (arriving ∷ rounds) seen =
    let sent = map (λ target. (target, probe type)) (probed targets from seen) in
    let (now, over) = receive_all type from arriving seen in
    let (more, last) = exchange_rounds type targets from rounds now in
    if over then (sent ∷ [], now) else (sent ∷ more, last)

-- `Exchange` on a socket that opened: three rounds.
pub exchange :
    ℕ
    → List Endpoint
    → List Endpoint
    → List (List Datagram)
    → List (List (Endpoint × Bytes)) × List (Endpoint × Seen)
unfolding exchange_rounds
exchange type targets from rounds = exchange_rounds type targets from (take 3 rounds) []

-- `Result::Type`.
pub type_of : Result → ℕ
type_of r = elim r.mapping [
  | unknown ↦ b'F'
  | no_nat ↦ b'A'
  | endpoint_independent ↦ elim r.filtering [
    | open_to_port ↦ b'B'
    | untested ↦ b'B'
    | open_to_all ↦ b'A'
    | open_to_address ↦ b'A'
  ]
  | address_dependent ↦ elim r.filtering [
    | open_to_all ↦ b'C'
    | open_to_address ↦ b'C'
    | open_to_port ↦ b'D'
    | untested ↦ b'D'
  ]
  | address_and_port_dependent ↦ elim r.filtering [
    | open_to_all ↦ b'C'
    | open_to_address ↦ b'C'
    | open_to_port ↦ b'D'
    | untested ↦ b'D'
  ]
]

-- The mapping that the replies show: the first server's reply, whether its address is local, and
-- what the same server's other port and the other server saw.
pub mapping_of : Seen → Bool → Option Seen → Option Seen → Mapping
mapping_of first is_local same_host other_host = if is_local then no_nat else elim other_host [
  | none ↦ elim same_host [
    | none ↦ endpoint_independent
    | some same ↦
        if same.port == first.port then endpoint_independent else address_and_port_dependent
  ]
  | some other ↦ if other.port == first.port then endpoint_independent else elim same_host [
    | none ↦ address_and_port_dependent
    | some same ↦ if same.port == first.port then address_dependent else address_and_port_dependent
  ]
]

filtering_of : List (Endpoint × Seen) → List (Endpoint × Seen) → Filtering
filtering_of two three =
    if not (is_nil two)
    then open_to_all
    else if not (is_nil three)
    then open_to_address
    else open_to_port

-- `IsLocal`: a loopback address, or one of the system's interfaces; none where the list fails.
pub is_local : List ℕ → ℕ → Bool
is_local interfaces address = (address / 0x1000000 == 127) || any_of (◌==◌ address) interfaces

module _ (parse_address : Bytes → Option ℕ) (dotted : ℕ → Bytes) (interfaces : List ℕ) where
  -- `Run`, with what arrives in the rounds of its three exchanges. The third takes place only after
  -- the second saw nothing.
  pub run :
      Bytes
      → Bytes
      → ℕ
      → ℕ
      → List (List Datagram)
      → List (List Datagram)
      → List (List Datagram)
      → Result
  unfolding filtering_of
  run primary secondary primary_port secondary_port one two three =
      let nothing : Result = record { mapping = unknown; filtering = untested; external = [] } in
      elim (parse_address primary) [
        | none ↦ nothing
        | some p ↦ elim (parse_address secondary) [
          | none ↦ nothing
          | some s ↦
              let first : Endpoint = record { address = p; port = primary_port } in
              let same : Endpoint = record { address = p; port = secondary_port } in
              let other : Endpoint = record { address = s; port = primary_port } in
              let targets = first ∷ same ∷ other ∷ [] in
              let seen = (exchange 1 targets targets one).1 in
              elim (lookup first seen) [
                | none ↦ nothing
                | some reply ↦ record {
                  mapping =
                      mapping_of reply (is_local interfaces reply.address) (lookup same seen)
                        (lookup other seen);
                  filtering =
                      filtering_of (exchange 2 (first ∷ []) [] two).1
                        (exchange 3 (first ∷ []) [] three).1;
                  external = dotted reply.address;
                }
              ]
        ]
      ]

-- `Targets`, where the network profile redirects a host to.
pub targets : (Bytes → Bytes → Option Bytes) → Bytes → Option (Bytes × Bytes)
targets redirect_for server_address =
    let primary =
      value_or (redirect_for (codes "nncs1-lp1.n.n.srv.nintendo.net") server_address)
        server_address in
    let secondary =
      value_or (redirect_for (codes "nncs2-lp1.n.n.srv.nintendo.net") server_address)
        server_address in
    if is_nil primary || (is_nil secondary || bytes_eq primary secondary)
    then none
    else some (primary, secondary)

pub mapping_name : Mapping → Bytes
mapping_name no_nat = codes "no NAT"
mapping_name endpoint_independent = codes "endpoint-independent"
mapping_name address_dependent = codes "address-dependent"
mapping_name address_and_port_dependent = codes "address-and-port-dependent"
mapping_name unknown = codes "unknown"

pub filtering_name : Filtering → Bytes
filtering_name open_to_all = codes "endpoint-independent"
filtering_name open_to_address = codes "address-dependent"
filtering_name open_to_port = codes "address-and-port-dependent"
filtering_name untested = codes "unknown"
