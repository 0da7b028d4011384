-- ===== src/Nat/Replies.antt =====
-- Which replies an exchange counts.
use openpak_client.Shared.{
  ℕ, ◌≤◌, ◌≡◌, sym, ap, ◌⊎◌, inl, inr, true, false, not, ◌&&◌, ◌||◌, some, List, [], ◌∷◌, arith,
  ltb, ◌==◌, Bool-cases, value_or, length, take, is_nil, length-take, any_of, Bytes, nat_eq,
  text_eq,
}
use openpak_client.Shared.Maps.{lookup, insert, lookup-insert}
use openpak_client.Nat.{
  Endpoint, Seen, Datagram, same_endpoint, same_endpoint_sound, endpoint_eq, be32, receive,
  receive_all, exchange_rounds, exchange,
}

-- A datagram of a round that came from the endpoint, is of the type and of full length, and reports
-- what is said to be seen.
pub data IsReply (type : ℕ) (e : Endpoint) (s : Seen) : List Datagram → Type 0 where
  here :
      {d : Bytes} {ds : List Datagram}
      → 16 ≤ length d
      → be32 (take 64 d) 0 ≡ type
      → s ≡ record { port = be32 (take 64 d) 4; address = be32 (take 64 d) 8 }
      → IsReply type e s ((e, d) ∷ ds)
  there : {d : Datagram} {ds : List Datagram} → IsReply type e s ds → IsReply type e s (d ∷ ds)

-- One of the rounds holds such a reply.
pub data WasSeen (type : ℕ) (e : Endpoint) (s : Seen) : List (List Datagram) → Type 0 where
  now :
      {r : List Datagram} {rs : List (List Datagram)}
      → IsReply type e s r
      → WasSeen type e s (r ∷ rs)
  later :
      {r : List Datagram} {rs : List (List Datagram)}
      → WasSeen type e s rs
      → WasSeen type e s (r ∷ rs)

length-take_64 : (d : Bytes) → 16 ≤ length (take 64 d) → 16 ≤ length d
length-take_64 d h = omega (arith, h, length-take 64 d)

some_injective : (a b : Seen) → some a ≡ some b → a ≡ b
some_injective a b e = ap (λ o. value_or o a) e

-- Whether an endpoint may answer.
abbrev pub MayAnswer : List Endpoint → Endpoint → Type 0
MayAnswer from k = (is_nil from ≡ true) ⊎ (any_of (same_endpoint k) from ≡ true)

may_answer :
    (from : List Endpoint) (e : Endpoint)
    → not (is_nil from) && not (any_of (same_endpoint e) from) ≡ false
    → MayAnswer from e
may_answer from e h = ground arith

receive_new :
    (type : ℕ) (from : List Endpoint) (e : Endpoint) (d : Bytes) (ds : List Datagram)
    (seen : List (Endpoint × Seen)) (k : Endpoint) (s : Seen)
    → lookup k (receive type from (e, d) seen).0 ≡ some s
    → (lookup k seen ≡ some s) ⊎ MayAnswer from k × IsReply type k s ((e, d) ∷ ds)
unfolding receive
receive_new type from e d ds seen k s h =
    let buffer = take 64 d in
    let reply : Seen = record { port = be32 buffer 4; address = be32 buffer 8 } in
    elim (Bool-cases (ltb (length buffer) 16 || not (be32 buffer 0 == type))) [
      | inl a ↦ inl (rw (a, receive) at h)
      | inr a ↦ elim (Bool-cases (not (is_nil from) && not (any_of (same_endpoint e) from))) [
        | inl b ↦ inl (rw (a, b, receive) at h)
        | inr b ↦
            let h' : lookup k (insert e reply seen) ≡ some s = rw (a, b, receive) at h in
            elim (Bool-cases (same_endpoint e k)) [
              | inr c ↦ inl (rw (lookup-insert e k reply seen, c) at h')
              | inl c ↦
                  let same : k ≡ e = sym (same_endpoint_sound e k c) in
                  let it : some reply ≡ some s = rw (lookup-insert e k reply seen, c) at h' in
                  inr (
                    rw same (may_answer from e b),
                    rw same (
                        here (length-take_64 d (ground (arith, a))) (ground (arith, a))
                          (sym (some_injective reply s it))),
                  )
            ]
      ]
    ]

receive_all_new :
    (type : ℕ) (from : List Endpoint) (ds : List Datagram) (seen : List (Endpoint × Seen))
    (k : Endpoint) (s : Seen)
    → lookup k (receive_all type from ds seen).0 ≡ some s
    → (lookup k seen ≡ some s) ⊎ MayAnswer from k × IsReply type k s ds
unfolding receive_all
receive_all_new type from [] seen k s h = inl h
receive_all_new type from ((e, d) ∷ ds) seen k s h =
    let now = (receive type from (e, d) seen).0 in
    elim (Bool-cases (receive type from (e, d) seen).1) [
      | inl over ↦ receive_new type from e d ds seen k s (rw (over, receive_all) at h)
      | inr over ↦ elim (receive_all_new type from ds now k s (rw (over, receive_all) at h)) [
        | inr (may, reply) ↦ inr (may, there reply)
        | inl old ↦ receive_new type from e d ds seen k s old
      ]
    ]

exchange_rounds_new :
    (type : ℕ) (targets from : List Endpoint) (rounds : List (List Datagram))
    (seen : List (Endpoint × Seen)) (k : Endpoint) (s : Seen)
    → lookup k (exchange_rounds type targets from rounds seen).1 ≡ some s
    → (lookup k seen ≡ some s) ⊎ MayAnswer from k × WasSeen type k s rounds
unfolding exchange_rounds
exchange_rounds_new type targets from [] seen k s h = inl h
exchange_rounds_new type targets from (r ∷ rs) seen k s h =
    let got = receive_all type from r seen in
    let this : lookup k got.0 ≡ some s
        → (lookup k seen ≡ some s) ⊎ MayAnswer from k × WasSeen type k s (r ∷ rs) =
      λ e. elim (receive_all_new type from r seen k s e) [
        | inl old ↦ inl old
        | inr (may, reply) ↦ inr (may, now reply)
      ] in
    elim (Bool-cases got.1) [
      | inl over ↦ this (rw (over, exchange_rounds) at h)
      | inr over ↦
          elim (exchange_rounds_new type targets from rs got.0 k s
            (rw (over, exchange_rounds) at h)) [
              | inr (may, reply) ↦ inr (may, later reply)
              | inl old ↦ this old
            ]
    ]

-- What an exchange says that an endpoint saw stands in a datagram of one of the first three rounds
-- that came from that endpoint, has the probe's type and at least 16 bytes; and the endpoint is one
-- of those that may answer, if there are any.
pub exchange_sound :
    (type : ℕ) (targets from : List Endpoint) (rounds : List (List Datagram)) (k : Endpoint)
    (s : Seen)
    → lookup k (exchange type targets from rounds).1 ≡ some s
    → MayAnswer from k × WasSeen type k s (take 3 rounds)
unfolding exchange lookup
exchange_sound type targets from rounds k s h =
    elim (exchange_rounds_new type targets from (take 3 rounds) [] k s h) [
      | inl none_yet ↦ absurd (ground arith)
      | inr found ↦ found
    ]
