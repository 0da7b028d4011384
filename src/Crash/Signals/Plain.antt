-- ===== src/Crash/Signals/Plain.antt =====
-- Texts that a JSON string holds as they are, and texts one behind another in a buffer.
use openpak_client.Shared.{
  ℕ, zero, suc, ◌+◌, ◌-◌, ◌/◌, ◌%◌, ◌^◌, ◌≤◌, ◌<◌, ◌≡◌, refl, sym, ap, ◌∙◌, inl, inr, Bool, true,
  false, not, ◌&&◌, List, [], ◌∷◌, ◌++◌, arith, append_assoc, append-nil, ltb, leb, ◌==◌,
  Bool-cases, length, length-append, replicate, is_nil, All, all_of, Bytes,
}
use openpak_client.Crash.Texts.{digit, append_hex, digits_of, format_number}
use openpak_client.Crash.Texts.Numbers.{has_no_nul, append-fits}
use openpak_client.Crash.Signals.{Signal, segv, bus, ill, fpe, abrt, other, signal_name, append_all}

-- The characters that a string holds as they are.
abbrev pub is_plain : Bytes → Bool
is_plain t = all_of (λ c. leb 32 c && ltb c 127 && not (c == b'"') && not (c == b'\\')) t

abbrev pub concat : List Bytes → Bytes
concat [] = []
concat (t ∷ ts) = t ++ concat ts

pub append_all-fits :
    (cap : ℕ) (buffer : Bytes) (ts : List Bytes)
    → All (λ t. has_no_nul t ≡ true) ts
    → length buffer + length (concat ts) + 1 ≤ cap
    → append_all cap buffer ts ≡ buffer ++ concat ts
append_all-fits cap buffer [] h le = sym (append-nil buffer)
append_all-fits cap buffer (t ∷ ts) h le =
    ap (λ b. append_all cap b ts)
      (append-fits cap buffer t h.0 (omega (arith, le, length-append t (concat ts))))
    ∙ (append_all-fits cap (buffer ++ t) ts h.1
          (omega (arith, le, length-append t (concat ts), length-append buffer t))
        ∙ append_assoc buffer t (concat ts))

pub plain-no_nul : (t : Bytes) → is_plain t ≡ true → has_no_nul t ≡ true
plain-no_nul [] h = refl
plain-no_nul (c ∷ t) h = ground (arith, h, plain-no_nul t)

digit-plain : (n : ℕ) → n < 16 → is_plain (digit n ∷ []) ≡ true
unfolding digit
digit-plain n h = ground (arith, h)

digits_of-plain :
    (room value : ℕ) (digits : Bytes)
    → is_plain digits ≡ true
    → (is_plain (digits_of room value 16 digits) ≡ true)
      × (length (digits_of room value 16 digits) ≤ room + length digits)
unfolding digits_of
digits_of-plain zero value digits h = (h, omega arith)
digits_of-plain (suc room) value digits h =
    let d = digit-plain (value % 16) (omega arith) in
    let p : is_plain (digit (value % 16) ∷ digits) ≡ true = ground (arith, d, h) in
    let (q, le) = digits_of-plain room (value / 16) (digit (value % 16) ∷ digits) p in
    elim (Bool-cases (value / 16 == 0)) [
      | inl e ↦ rw e (p, omega arith)
      | inr e ↦ rw e (q, omega (arith, le))
    ]

unpadded : (digits : Bytes) → replicate (0 - length digits) b'0' ++ digits ≡ digits
unpadded digits = let none : 0 - length digits ≡ 0 = omega arith in rw none refl

format_number-unpadded : (n : ℕ) → format_number n 16 0 ≡ digits_of 32 n 16 []
unfolding format_number
format_number-unpadded n = unpadded (digits_of 32 n 16 [])

pub address-plain :
    (n : ℕ) → (is_plain (format_number n 16 0) ≡ true) × (length (format_number n 16 0) ≤ 32)
address-plain n =
    let (p, le) = digits_of-plain 32 n [] refl in
    let e = format_number-unpadded n in (ap is_plain e ∙ p, omega (arith, le, ap length e))

pub append_hex-plain :
    (v n : ℕ) → (is_plain (append_hex v n) ≡ true) × (length (append_hex v n) ≡ n)
unfolding append_hex
append_hex-plain v zero = (refl, refl)
append_hex-plain v (suc n) =
    let (p, l) = append_hex-plain v n in
    let d = digit-plain (v / 16 ^ n % 16) (omega arith) in (ground (arith, d, p), ap suc l)

pub signal_name-plain :
    (s : Signal)
    → (is_plain (signal_name s) ≡ true)
      × (length (signal_name s) ≤ 7)
      × (is_nil (signal_name s) ≡ false)
unfolding signal_name
signal_name-plain segv = (refl, omega arith, refl)
signal_name-plain bus = (refl, omega arith, refl)
signal_name-plain ill = (refl, omega arith, refl)
signal_name-plain fpe = (refl, omega arith, refl)
signal_name-plain abrt = (refl, omega arith, refl)
signal_name-plain other = (refl, omega arith, refl)
