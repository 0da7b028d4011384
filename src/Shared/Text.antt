-- ===== src/Shared/Text.antt =====
-- What the components ask of `std::string`: searching, cutting, comparing at either end.
use Prim.Native.Nat.{ℕ, ◌-◌}
use mathlib.Core.Path.{◌≡◌, refl}
use mathlib.Core.Logic.{◌≢◌}
use mathlib.Core.Bool.{Bool, true, false, ◌&&◌}
use mathlib.Core.List.{[], ◌∷◌, ◌++◌}
use mathlib.Core.Option.{Option, none, some}
use native.Mathlib.Omega.{arith}
use openpak_client.Shared.Tests.{◌==◌, leb, if◌then◌else◌}
use openpak_client.Shared.Lists.{length, drop, All}
use openpak_client.Shared.Keys.{Bytes, bytes_eq}

-- `find(c)` with the two `substr` calls that use it: what stands before the first `c` and behind it.
unfoldable pub cut_at : ℕ → Bytes → Option (Bytes × Bytes)
cut_at c [] = none
cut_at c (x ∷ s) =
    let rest = cut_at c s in
    if x == c then some ([], s) else elim rest [ none ↦ none | some (a, b) ↦ some (x ∷ a, b) ]

abbrev pub Lacks : ℕ → Bytes → Type 0
Lacks c = All (λ x. x ≢ c)

pub cut_at-append : (c : ℕ) (a b : Bytes) → Lacks c a → cut_at c (a ++ c ∷ b) ≡ some (a, b)
unfolding cut_at
cut_at-append c [] b h = ground arith
cut_at-append c (x ∷ a) b h = ground (arith, cut_at-append c a b h.1)

-- A cut gives the text back.
pub append-cut_at : (c : ℕ) (s : Bytes) {a b : Bytes} → cut_at c s ≡ some (a, b) → s ≡ a ++ c ∷ b
unfolding cut_at
append-cut_at c [] h = cc
append-cut_at c (x ∷ s) {a} {b} h = grind (arith, append-cut_at c s)

-- `string::starts_with`.
unfoldable pub starts_with : Bytes → Bytes → Bool
starts_with [] s = true
starts_with (p ∷ ps) [] = false
starts_with (p ∷ ps) (c ∷ s) = (p == c) && starts_with ps s

-- `string::ends_with`, and `compare(size() - n, n, suffix) == 0` with its length test.
unfoldable pub ends_with : Bytes → Bytes → Bool
unfolding bytes_eq
ends_with suffix s =
    leb (length suffix) (length s) && bytes_eq (drop (length s - length suffix) s) suffix

pub starts_with-append : (p s : Bytes) → starts_with p (p ++ s) ≡ true
unfolding starts_with
starts_with-append [] s = refl
starts_with-append (c ∷ p) s = ground (arith, starts_with-append p s)
