-- ===== src/Push/Backoff.antt =====
-- The waits between two connections.
use openpak_client.Shared.{ℕ, ◌≤◌, Bool, List, [], ◌∷◌, arith, All}
use openpak_client.Push.{next_backoff}

-- The waits over the rounds of the thread: for each, whether nobody was signed in and whether its
-- connection lived.
pub waits : List (Bool × Bool) → ℕ → List ℕ
waits [] backoff = []
waits ((signed_out, held) ∷ rounds) backoff =
    let b = next_backoff signed_out held backoff in b ∷ waits rounds b

abbrev pub IsWait : ℕ → Type 0
IsWait b = (2 ≤ b) × (b ≤ 300)

next_backoff-IsWait :
    (signed_out held : Bool) (backoff : ℕ)
    → IsWait backoff
    → IsWait (next_backoff signed_out held backoff)
unfolding next_backoff
next_backoff-IsWait signed_out held backoff h = ground (arith, h.0, h.1)

waits-from : (rounds : List (Bool × Bool)) (b : ℕ) → IsWait b → All IsWait (waits rounds b)
unfolding waits
waits-from [] b h = tt
waits-from ((signed_out, held) ∷ rounds) b h =
    let n = next_backoff-IsWait signed_out held b h in
    (n, waits-from rounds (next_backoff signed_out held b) n)

-- Over any rounds the thread waits between two seconds and five minutes before the next one.
pub waits-IsWait : (rounds : List (Bool × Bool)) → All IsWait (waits rounds 5)
waits-IsWait rounds = waits-from rounds 5 (omega arith, omega arith)
