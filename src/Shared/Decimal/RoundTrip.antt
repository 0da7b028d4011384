-- ===== src/Shared/Decimal/RoundTrip.antt =====
-- Printed numbers are digits only, and are read back.
use Prim.Native.Nat.{ℕ, zero, suc, ◌+◌, ◌*◌, ◌/◌, ◌%◌, ◌^◌, ◌≤◌, ◌<◌}
use mathlib.Core.Bool.{false}
use mathlib.Core.Logic.{◌≢◌}
use mathlib.Core.List.{[], ◌∷◌}
use mathlib.Core.Option.{some}
use mathlib.Core.Path.{◌≡◌, refl}
use native.Mathlib.Omega.{arith}
use openpak_client.Shared.Lists.{All}
use openpak_client.Shared.Keys.{Bytes}
use openpak_client.Shared.Int.{pos}
use openpak_client.Shared.Decimal.{
  print_digits, to_string, int_to_string, skip_space, scan_digits, unsigned_at, sign_at, in_u64,
  in_s64, stoull, stoll,
}

abbrev pub IsDigit : ℕ → Type 0
IsDigit c = (b'0' ≤ c) × (c ≤ b'9')

-- What so many digits can hold.
pow_ten : ℕ → ℕ
pow_ten zero = 1
pow_ten (suc f) = 10 * pow_ten f

print_digits-IsDigit :
    (f n : ℕ) (out : Bytes) → All IsDigit out → All IsDigit (print_digits f n out)
unfolding print_digits
print_digits-IsDigit zero n out h = h
print_digits-IsDigit (suc f) n out h =
    ground (arith, print_digits-IsDigit f (n / 10) ((b'0' + n % 10) ∷ out))

pub to_string-IsDigit : (n : ℕ) → All IsDigit (to_string n)
unfolding to_string
to_string-IsDigit n = print_digits-IsDigit 20 n [] tt

scan-print :
    (f n : ℕ) (out : Bytes)
    → n < pow_ten f
    → 0 < f
    → scan_digits (print_digits f n out) 0 ≡ scan_digits out n
unfolding print_digits scan_digits pow_ten
scan-print zero n out h p = absurd (omega arith)
scan-print (suc zero) n out h p = ground arith
scan-print (suc (suc f)) n out h p =
    ground (arith, scan-print (suc f) (n / 10) ((b'0' + n % 10) ∷ out))

print_digits-ne-nil : (f n : ℕ) (out : Bytes) → out ≢ [] → print_digits f n out ≢ []
unfolding print_digits
print_digits-ne-nil zero n out h = h
print_digits-ne-nil (suc f) n out h =
    ground (arith, print_digits-ne-nil f (n / 10) ((b'0' + n % 10) ∷ out))

pub to_string-ne-nil : (n : ℕ) → to_string n ≢ []
unfolding to_string print_digits
to_string-ne-nil n = ground (arith, print_digits-ne-nil 19 (n / 10) ((b'0' + n % 10) ∷ []))

scan-to_string : (n : ℕ) → n < 2 ^ 64 → scan_digits (to_string n) 0 ≡ n
unfolding to_string scan_digits pow_ten
scan-to_string n h = scan-print 20 n [] (omega arith) (omega arith)

-- Digits are neither skipped nor taken for a sign.
unsigned_digits :
    (s : Bytes)
    → All IsDigit s
    → s ≢ []
    → (sign_at (skip_space s) ≡ (false, s)) × (unsigned_at s ≡ some (scan_digits s 0))
unfolding sign_at skip_space unsigned_at
unsigned_digits [] h ne = absurd (ne refl)
unsigned_digits (c ∷ s) h ne = ground arith

pub stoull-to_string : (n : ℕ) → n < 2 ^ 64 → stoull (to_string n) ≡ some n
unfolding stoull in_u64
stoull-to_string n h =
    let (plain, digits) =
      unsigned_digits (to_string n) (to_string-IsDigit n) (to_string-ne-nil n) in
    rw plain (rw digits (rw (scan-to_string n h) (ground arith)))

-- Every `s64` that is no less than -(2^63) + 1 is read back from its print.
pub stoll-to_string : (n : ℕ) → n < 2 ^ 63 → stoll (int_to_string (pos n)) ≡ some (pos n)
unfolding stoll in_s64 int_to_string
stoll-to_string n h =
    let (plain, digits) =
      unsigned_digits (to_string n) (to_string-IsDigit n) (to_string-ne-nil n) in
    rw plain (rw digits (rw (scan-to_string n (omega arith)) (ground arith)))
