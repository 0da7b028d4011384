-- ===== src/Shared/Decimal.antt =====
-- Decimal text as `std::to_string` and `fmt` print it, and `std::stoull` and `std::stoll`.
pub mod RoundTrip
use Prim.Native.Nat.{ℕ, zero, suc, ◌+◌, ◌-◌, ◌*◌, ◌/◌, ◌%◌, ◌^◌}
use mathlib.Core.Bool.{Bool, true, false, ◌&&◌, ◌||◌}
use mathlib.Core.List.{[], ◌∷◌}
use mathlib.Core.Option.{Option, none, some}
use mathlib.Core.Path.{◌≡◌, refl}
use openpak_client.Shared.Tests.{ltb, leb, ◌==◌, if◌then◌else◌}
use openpak_client.Shared.Keys.{Bytes, codes}
use openpak_client.Shared.Int.{ℤ, pos, negsuc}

-- The last digits of `n` before `out`, one for each unit of fuel.
print_digits : ℕ → ℕ → Bytes → Bytes
print_digits zero n out = out
print_digits (suc f) n out =
    let rest = print_digits f (n / 10) ((b'0' + n % 10) ∷ out) in
    if ltb n 10 then (b'0' + n) ∷ out else rest

-- Twenty digits hold every `u64`.
unfoldable pub to_string : ℕ → Bytes
unfolding print_digits
to_string n = print_digits 20 n []

unfoldable pub int_to_string : ℤ → Bytes
unfolding to_string
int_to_string (pos n) = to_string n
int_to_string (negsuc n) = b'-' ∷ to_string (n + 1)

-- `isspace` in the C locale.
abbrev is_space : ℕ → Bool
is_space c = (c == 32) || (leb 9 c && leb c 13)

abbrev pub is_digit : ℕ → Bool
is_digit c = leb b'0' c && leb c b'9'

skip_space : Bytes → Bytes
skip_space [] = []
skip_space (c ∷ s) = let rest = skip_space s in if is_space c then rest else c ∷ s

-- The number that the leading digits spell behind `n`.
scan_digits : Bytes → ℕ → ℕ
scan_digits [] n = n
scan_digits (c ∷ s) n =
    let rest = scan_digits s (n * 10 + (c - b'0')) in if is_digit c then rest else n

-- No digit at all is the `invalid_argument` of the standard conversions.
unsigned_at : Bytes → Option ℕ
unfolding scan_digits
unsigned_at [] = none
unsigned_at (c ∷ s) = if is_digit c then some (scan_digits (c ∷ s) 0) else none

-- The sign, and the magnitude behind it.
sign_at : Bytes → Bool × Bytes
sign_at [] = (false, [])
sign_at (c ∷ s) = if c == b'-' then (true, s) else if c == b'+' then (false, s) else (false, c ∷ s)

in_u64 : Bool → Option ℕ → Option ℕ
in_u64 negative none = none
in_u64 negative (some v) =
    if leb (2 ^ 64) v then none else some (if negative then (2 ^ 64 - v) % 2 ^ 64 else v)

-- `std::stoull(s)`, `none` for either exception; a minus sign wraps round, as `strtoull` has it.
unfoldable pub stoull : Bytes → Option ℕ
unfolding skip_space unsigned_at sign_at in_u64
stoull s = let (negative, digits) = sign_at (skip_space s) in in_u64 negative (unsigned_at digits)

in_s64 : Bool → Option ℕ → Option ℤ
in_s64 negative none = none
in_s64 true (some zero) = some (pos 0)
in_s64 true (some (suc v)) = if leb (2 ^ 63) v then none else some (negsuc v)
in_s64 false (some v) = if leb (2 ^ 63) v then none else some (pos v)

-- `std::stoll(s)`, `none` for either exception.
unfoldable pub stoll : Bytes → Option ℤ
unfolding skip_space unsigned_at sign_at in_s64
stoll s = let (negative, digits) = sign_at (skip_space s) in in_s64 negative (unsigned_at digits)

stoull_runs :
    (stoull (codes " 42x") ≡ some 42)
    × (stoull (codes "-1") ≡ some (2 ^ 64 - 1))
    × (stoull (codes "18446744073709551616") ≡ none)
    × (stoull (codes "x1") ≡ none)
unfolding stoull
stoull_runs = (refl, refl, refl, refl)

stoll_runs : (stoll (codes "-7") ≡ some (negsuc 6)) × (stoll (codes "") ≡ none)
unfolding stoll
stoll_runs = (refl, refl)
