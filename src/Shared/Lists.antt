-- ===== src/Shared/Lists.antt =====
-- Lists measured and cut by native numbers, under the library's names, and `std::erase_if`.
use Prim.Native.Nat.{ℕ, zero, suc, ◌+◌, ◌-◌, ◌≤◌, min}
use mathlib.Core.Path.{◌≡◌, refl, ap, sym, ◌∙◌}
use mathlib.Core.Bool.{Bool, true, false, ◌&&◌, ◌||◌}
use mathlib.Core.List.{List, [], ◌∷◌, ◌++◌}
use mathlib.Core.Option.{Option, none, some}
use native.Mathlib.Omega.{arith}
use openpak_client.Shared.Tests.{if◌then◌else◌}

module _ {ℓ} {A : Type ℓ} where
  abbrev pub length : List A → ℕ
  length [] = 0
  length (x ∷ xs) = suc (length xs)

  abbrev pub get_elem? : List A → ℕ → Option A
  get_elem? [] i = none
  get_elem? (x ∷ xs) zero = some x
  get_elem? (x ∷ xs) (suc i) = get_elem? xs i

  abbrev pub take : ℕ → List A → List A
  take zero xs = []
  take (suc n) [] = []
  take (suc n) (x ∷ xs) = x ∷ take n xs

  abbrev pub drop : ℕ → List A → List A
  drop zero xs = xs
  drop (suc n) [] = []
  drop (suc n) (x ∷ xs) = drop n xs

  abbrev pub replicate : ℕ → A → List A
  replicate zero a = []
  replicate (suc n) a = a ∷ replicate n a

  -- `vector::empty`.
  abbrev pub is_nil : List A → Bool
  is_nil [] = true
  is_nil (x ∷ xs) = false

  pub length-append : (xs ys : List A) → length (xs ++ ys) ≡ length xs + length ys
  length-append [] ys = omega arith
  length-append (x ∷ xs) ys = omega (arith, length-append xs ys)

  pub take-append-drop : (n : ℕ) (xs : List A) → take n xs ++ drop n xs ≡ xs
  take-append-drop zero xs = refl
  take-append-drop (suc n) [] = refl
  take-append-drop (suc n) (x ∷ xs) = rw (take-append-drop n xs)

  pub length-take : (n : ℕ) (xs : List A) → length (take n xs) ≡ min n (length xs)
  length-take zero xs = omega arith
  length-take (suc n) [] = omega arith
  length-take (suc n) (x ∷ xs) = omega (arith, length-take n xs)

  pub length-drop : (n : ℕ) (xs : List A) → length (drop n xs) ≡ length xs - n
  length-drop zero xs = omega arith
  length-drop (suc n) [] = omega arith
  length-drop (suc n) (x ∷ xs) = omega (arith, length-drop n xs)

  pub length-replicate : (n : ℕ) (a : A) → length (replicate n a) ≡ n
  length-replicate zero a = refl
  length-replicate (suc n) a = ap suc (length-replicate n a)

  pub take-append_length : (xs ys : List A) (n : ℕ) → n ≡ length xs → take n (xs ++ ys) ≡ xs
  take-append_length [] ys zero h = refl
  take-append_length [] ys (suc n) h = absurd (omega arith)
  take-append_length (x ∷ xs) ys zero h = absurd (omega arith)
  take-append_length (x ∷ xs) ys (suc n) h = ap (◌∷◌ x) (take-append_length xs ys n (omega arith))

  pub drop-append_length : (xs ys : List A) (n : ℕ) → n ≡ length xs → drop n (xs ++ ys) ≡ ys
  drop-append_length [] ys zero h = refl
  drop-append_length [] ys (suc n) h = absurd (omega arith)
  drop-append_length (x ∷ xs) ys zero h = absurd (omega arith)
  drop-append_length (x ∷ xs) ys (suc n) h = drop-append_length xs ys n (omega arith)

  pub take_all : (n : ℕ) (xs : List A) → length xs ≤ n → take n xs ≡ xs
  take_all zero [] h = refl
  take_all zero (x ∷ xs) h = absurd (omega arith)
  take_all (suc n) [] h = refl
  take_all (suc n) (x ∷ xs) h = ap (◌∷◌ x) (take_all n xs (omega arith))

module _ {ℓ} {A : Type ℓ} where
  pub append-cancel_left : (a : List A) {b c : List A} → a ++ b ≡ a ++ c → b ≡ c
  append-cancel_left [] h = h
  append-cancel_left (x ∷ a) {b} {c} h = append-cancel_left a (cc)

  pub append-cancel_right : (a b c : List A) → a ++ c ≡ b ++ c → a ≡ b
  append-cancel_right a b c h =
      let same : length a ≡ length b =
        omega (arith, ap length h, length-append a c, length-append b c) in
      sym (take-append_length a c (length a) refl)
      ∙ (ap (take (length a)) h ∙ take-append_length b c (length a) same)

-- Tests over all elements and over some, `std::all_of` and `std::any_of`.
module _ {ℓ} {A : Type ℓ} (p : A → Bool) where
  abbrev pub all_of : List A → Bool
  all_of [] = true
  all_of (x ∷ xs) = p x && all_of xs

  abbrev pub any_of : List A → Bool
  any_of [] = false
  any_of (x ∷ xs) = p x || any_of xs

  -- What `std::erase_if` by the negation of `p` leaves, in order.
  abbrev pub keep_if : List A → List A
  keep_if [] = []
  keep_if (x ∷ xs) = let rest = keep_if xs in if p x then x ∷ rest else rest

  -- `std::find_if`.
  abbrev pub find_if : List A → Option A
  find_if [] = none
  find_if (x ∷ xs) = let rest = find_if xs in if p x then some x else rest

  pub length-keep_if-le : (xs : List A) → length (keep_if xs) ≤ length xs
  length-keep_if-le [] = omega arith
  length-keep_if-le (x ∷ xs) = ground (arith, length-keep_if-le xs)

  pub all_of-keep_if : (xs : List A) → all_of (keep_if xs) ≡ true
  all_of-keep_if [] = refl
  all_of-keep_if (x ∷ xs) = ground (arith, all_of-keep_if xs)

  pub keep_if-eq_of_all : (xs : List A) → all_of xs ≡ true → keep_if xs ≡ xs
  keep_if-eq_of_all [] h = refl
  keep_if-eq_of_all (x ∷ xs) h = ground (arith, keep_if-eq_of_all xs)

  pub keep_if_idem : (xs : List A) → keep_if (keep_if xs) ≡ keep_if xs
  keep_if_idem xs = keep_if-eq_of_all (keep_if xs) (all_of-keep_if xs)

  pub keep_if-eq_of_length : (xs : List A) → length (keep_if xs) ≡ length xs → keep_if xs ≡ xs
  keep_if-eq_of_length [] h = refl
  keep_if-eq_of_length (x ∷ xs) h = ground (arith, keep_if-eq_of_length xs, length-keep_if-le xs)

module _ {ℓ κ} {A : Type ℓ} (P : A → Type κ) where
  abbrev pub All : List A → Type κ
  All [] = Unit
  All (x ∷ xs) = P x × All xs

  pub All-append : (xs ys : List A) → All xs → All ys → All (xs ++ ys)
  All-append [] ys _ hy = hy
  All-append (x ∷ xs) ys (px, hx) hy = (px, All-append xs ys hx hy)

  pub All-keep_if : (p : A → Bool) (xs : List A) → All xs → All (keep_if p xs)
  All-keep_if p [] h = tt
  All-keep_if p (x ∷ xs) h = ground (arith, All-keep_if p xs h.1)
