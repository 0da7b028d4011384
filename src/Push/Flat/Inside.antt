-- ===== src/Push/Flat/Inside.antt =====
-- No read leaves the frame.
use openpak_client.Shared.{
  ℕ, ◌+◌, ◌*◌, ◌≤◌, Bool, true, false, [], ◌∷◌, arith, leb, ltb, ◌==◌, Bool-cases, inl, inr, length,
  drop, length-drop, Bytes,
}
use openpak_client.Shared.Int.{ℤ, pos, negsuc}
use openpak_client.Push.Flat.{
  Read, value, missing, outside, ◌>>=◌, ◌>>◌, require, or_value, u32_of, u32, u16_of, u16, byte_of,
  byte_at, slice, checked, root, vtable_at, field, u8, indirect, table_at, string, vector_table,
  type_put_record, envelope_type, read_message,
}

-- What is read is inside the span, and a value that comes of it has the property.
unfoldable pub Safe {ℓ} : {A : Type ℓ} → Read A → (A → Type 0) → Type 0
Safe (value a) P = P a
Safe missing P = Unit
Safe outside P = ⊥

-- Nothing is known of the value.
abbrev pub Any {ℓ} : {A : Type ℓ} → A → Type 0
Any a = Unit

module _ {ℓ κ} {A : Type ℓ} {B : Type κ} where
  Safe->>= :
      (m : Read A) (f : A → Read B) {P : A → Type 0} (Q : B → Type 0)
      → Safe m P
      → ((a : A) → P a → Safe (f a) Q)
      → Safe (m >>= f) Q
  unfolding Safe
  Safe->>= (value a) f Q h k = k a h
  Safe->>= missing f Q h k = tt
  Safe->>= outside f Q h k = h

Safe-require {ℓ} :
    {B : Type ℓ} (c : Bool) (k : Read B) (Q : B → Type 0) → Safe k Q → Safe (require c >> k) Q
unfolding Safe
Safe-require true k Q h = h
Safe-require false k Q h = tt

Safe-or_value {ℓ} : {A : Type ℓ} (m : Read A) (d : A) → Safe m Any → Safe (or_value m d) Any
unfolding Safe
Safe-or_value (value a) d h = tt
Safe-or_value missing d h = tt
Safe-or_value outside d h = h

u32-Safe : (b : Bytes) (at : ℕ) → at + 4 ≤ length b → Safe (u32 b at) Any
unfolding u32 Safe
u32-Safe b at h = four (drop at b) (omega (arith, length-drop at b))
  where
    four : (s : Bytes) → 4 ≤ length s → Safe (u32_of s) Any
    four (w ∷ x ∷ y ∷ z ∷ rest) h = tt
    four [] h = absurd (omega arith)
    four (w ∷ []) h = absurd (omega arith)
    four (w ∷ x ∷ []) h = absurd (omega arith)
    four (w ∷ x ∷ y ∷ []) h = absurd (omega arith)

u16-Safe : (b : Bytes) (at : ℕ) → at + 2 ≤ length b → Safe (u16 b at) Any
unfolding u16 u16_of Safe
u16-Safe b at h = two (drop at b) (omega (arith, length-drop at b))
  where
    two : (s : Bytes) → 2 ≤ length s → Safe (u16_of s) Any
    two (w ∷ x ∷ rest) h = tt
    two [] h = absurd (omega arith)
    two (w ∷ []) h = absurd (omega arith)

byte_at-Safe : (b : Bytes) (at : ℕ) → at + 1 ≤ length b → Safe (byte_at b at) Any
unfolding byte_at byte_of Safe
byte_at-Safe b at h = one (drop at b) (omega (arith, length-drop at b))
  where
    one : (s : Bytes) → 1 ≤ length s → Safe (byte_of s) Any
    one (w ∷ rest) h = tt
    one [] h = absurd (omega arith)

slice-Safe : (b : Bytes) (start n : ℕ) → start + n ≤ length b → Safe (slice b start n) Any
unfolding slice Safe
slice-Safe b start n h = elim (Bool-cases (leb (start + n) (length b))) [
  | inl e ↦ rw e tt
  | inr e ↦ absurd (ground arith)
]

checked-Safe : (b : Bytes) (p : ℤ) (size : ℕ) → Safe (checked b p size) (λ q. q + size ≤ length b)
unfolding checked Safe
checked-Safe b (negsuc p) size = tt
checked-Safe b (pos p) size = elim (Bool-cases (leb (p + size) (length b))) [
  | inl e ↦ rw e (ground arith)
  | inr e ↦ rw e tt
]

module _ (b : Bytes) where
  -- A place where four bytes can be read, and one where a byte can.
  abbrev Fits : ℕ → ℕ → Type 0
  Fits size at = at + size ≤ length b

  root-Safe : Safe (root b) (Fits 4)
  unfolding root Safe
  root-Safe = elim (Bool-cases (leb 4 (length b))) [
    | inl e ↦
        rw e
          (Safe->>= (u32 b 0) _ _ (u32-Safe b 0 (ground arith)) (λ at _. checked-Safe b (pos at) 4))
    | inr e ↦ rw e tt
  ]

  field-Safe : (table slot : ℕ) → Fits 4 table → Safe (field b table slot) (Fits 1)
  unfolding field
  field-Safe table slot h = Safe->>= (u32 b table) _ _ (u32-Safe b table h) (λ offset _.
      Safe->>= (checked b (vtable_at table offset) 4) _ _
        (checked-Safe b (vtable_at table offset) 4)
        (λ start hs. Safe->>= (u16 b start) _ _ (u16-Safe b start (omega arith)) (λ size _.
          Safe-require (leb (4 + 2 * slot + 2) size) _ _ (
            Safe->>= (checked b (pos (start + (4 + 2 * slot))) 2) _ _
              (checked-Safe b (pos (start + (4 + 2 * slot))) 2)
              (λ at ha. Safe->>= (u16 b at) _ _ (u16-Safe b at ha) (λ place _.
                Safe-require (ltb 0 place) _ _ (checked-Safe b (pos (table + place)) 1)))))))

  u8-Safe : (table slot : ℕ) → Fits 4 table → Safe (u8 b table slot) Any
  unfolding u8
  u8-Safe table slot h =
      Safe->>= (field b table slot) _ _ (field-Safe table slot h) (λ at ha. byte_at-Safe b at ha)

  indirect-Safe : (at : ℕ) → Safe (indirect b at) (Fits 4)
  unfolding indirect
  indirect-Safe at = Safe->>= (checked b (pos at) 4) _ _ (checked-Safe b (pos at) 4) (λ position hp.
      Safe->>= (u32 b position) _ _ (u32-Safe b position hp)
        (λ offset _. checked-Safe b (pos (position + offset)) 4))

  table_at-Safe : (table slot : ℕ) → Fits 4 table → Safe (table_at b table slot) (Fits 4)
  unfolding table_at
  table_at-Safe table slot h =
      Safe->>= (field b table slot) _ _ (field-Safe table slot h) (λ at ha. indirect-Safe at)

  string-Safe : (table slot : ℕ) → Fits 4 table → Safe (string b table slot) Any
  unfolding string
  string-Safe table slot h = Safe->>= (field b table slot) _ _ (field-Safe table slot h) (λ at ha.
      Safe->>= (indirect b at) _ _ (indirect-Safe at) (λ position hp.
        Safe->>= (u32 b position) _ _ (u32-Safe b position hp) (λ n _.
          Safe->>= (checked b (pos (position + 4)) n) _ _ (checked-Safe b (pos (position + 4)) n)
            (λ start hs. slice-Safe b start n hs))))

  vector_table-Safe :
      (table slot index : ℕ) → Fits 4 table → Safe (vector_table b table slot index) (Fits 4)
  unfolding vector_table
  vector_table-Safe table slot index h =
      Safe->>= (field b table slot) _ _ (field-Safe table slot h) (λ at ha.
        Safe->>= (indirect b at) _ _ (indirect-Safe at) (λ vector hv.
          Safe->>= (u32 b vector) _ _ (u32-Safe b vector hv)
            (λ size _. Safe-require (ltb index size) _ _ (indirect-Safe (vector + 4 + 4 * index)))))

  -- Whatever the bytes of a frame, neither its type nor its message is read outside it.
  pub read_message-Safe : Safe (envelope_type b) Any × Safe (read_message b) Any
  unfolding envelope_type read_message Safe
  read_message-Safe = (
    Safe->>= (root b) _ _ root-Safe (λ at ha. u8-Safe at 0 ha),
    Safe->>= (root b) _ _ root-Safe (λ at ha. Safe->>= (u8 b at 0) _ _ (u8-Safe at 0 ha) (λ type _.
        Safe-require (type == type_put_record) _ _ (
          Safe->>= (table_at b at 1) _ _ (table_at-Safe at 1 ha) (λ payload hp.
            Safe->>= (vector_table b payload 0 0) _ _ (vector_table-Safe payload 0 0 hp)
              (λ entry he. Safe->>= (u8 b entry 0) _ _ (u8-Safe entry 0 he) (λ kind _.
                Safe-require (kind == 1) _ _ (
                  Safe->>= (table_at b entry 1) _ _ (table_at-Safe entry 1 he) (λ message hm.
                    Safe->>= (string b message 4) _ _ (string-Safe message 4 hm) (λ body _.
                      Safe->>= (or_value (string b message 0) []) _ _
                        (Safe-or_value (string b message 0) [] (string-Safe message 0 hm))
                        (λ name _. tt)))))))))),
  )
