-- ===== src/Nat/Examples.antt =====
-- The theorems about the NAT test at a router with one port for every destination.
use openpak_client.Shared.{
  ℕ, ◌≡◌, refl, ◌≢◌, ◌⊎◌, Option, some, List, [], ◌∷◌, arith, Bytes, codes, bytes_eq, nat_eq,
  text_eq, if◌then◌else◌,
}
use openpak_client.Shared.Maps.{lookup, insert}
use openpak_client.Nat.{
  Endpoint, Seen, Datagram, unknown, endpoint_independent, untested, endpoint_eq, receive, exchange,
  type_of, is_local, run,
}
use openpak_client.Nat.Replies.{MayAnswer, WasSeen, exchange_sound}
use openpak_client.Nat.Verdict.{targets, run-Behaves, run_complete}

abbrev at : ℕ → ℕ → Endpoint
at a p = record { address = a; port = p }

-- The servers 1 and 2, asked from port 5000 of 10.0.0.9.
abbrev resolve : Bytes → Option ℕ
resolve t = if bytes_eq t (codes "a") then some 1 else some 2

abbrev reply : Bytes
reply = 0 ∷ 0 ∷ 0 ∷ 1 ∷ 0 ∷ 0 ∷ 0x13 ∷ 0x88 ∷ 10 ∷ 0 ∷ 0 ∷ 9 ∷ 0 ∷ 0 ∷ 0 ∷ 0 ∷ []

abbrev router : Seen
router = record { port = 5000; address = 0x0A000009 }

abbrev answers : List (List Datagram)
answers = ((at 1 10, reply) ∷ (at 7 10, reply) ∷ (at 1 20, reply) ∷ (at 2 10, reply) ∷ []) ∷ []

seen_first :
    lookup
      (at 1 10)
      (exchange 1
        (targets resolve (λ _. []) [] (codes "a") (codes "b") 10 20 answers [] [] 1 2)
        (targets resolve (λ _. []) [] (codes "a") (codes "b") 10 20 answers [] [] 1 2)
        answers).1
    ≡ some router
unfolding receive exchange lookup insert
seen_first = refl

exchange_sound_example :
    MayAnswer (at 1 10 ∷ at 1 20 ∷ at 2 10 ∷ []) (at 1 10) × WasSeen 1 (at 1 10) router answers
exchange_sound_example =
    exchange_sound 1 (at 1 10 ∷ at 1 20 ∷ at 2 10 ∷ []) (at 1 10 ∷ at 1 20 ∷ at 2 10 ∷ []) answers
      (at 1 10) router seen_first

run-Behaves_example :
    (run resolve (λ _. []) [] (codes "a") (codes "b") 10 20 answers [] []).mapping
    ≡ endpoint_independent
unfolding receive exchange lookup insert bytes_eq is_local
run-Behaves_example =
    run-Behaves resolve (λ _. []) [] (codes "a") (codes "b") 10 20 answers [] []
      endpoint_independent (λ _. 5000) 1 2 0x0A000009 ((λ e. cc), (λ e. cc)) (λ a b. refl) refl refl
      (omega arith) (omega arith) refl (refl, (refl, (refl, tt)))

run_complete_example :
    let r = run resolve (λ _. []) [] (codes "a") (codes "b") 10 20 answers [] [] in
    (r ≡ record { mapping = unknown; filtering = untested; external = [] }) × (type_of r ≡ b'F')
    ⊎ (r.mapping ≢ unknown) × (r.filtering ≢ untested) × (type_of r ≢ b'F')
run_complete_example = run_complete resolve (λ _. []) [] (codes "a") (codes "b") 10 20 answers [] []
