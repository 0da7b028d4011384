-- ===== src/Push/Flat.antt =====
-- The FlatBuffers reader of client/openpak/push.cpp. A read that is not inside the bytes is an outcome of
-- its own, where the code would read memory that is not the frame's.
pub mod Inside
use openpak_client.Shared.{
  ℕ, ◌+◌, ◌-◌, ◌*◌, ◌^◌, Bool, true, false, [], ◌∷◌, ltb, leb, ◌==◌, if◌then◌else◌, length, take,
  drop, Bytes,
}
use openpak_client.Shared.Int.{ℤ, pos, negsuc}

-- A value; `std::nullopt`; an access outside the span.
pub data Read {ℓ} (A : Type ℓ) : Type ℓ where
  value : A → Read A
  missing outside : Read A

infixl 5 ◌>>=◌ ◌>>◌
abbrev pub ◌>>=◌ {ℓ κ} : {A : Type ℓ} {B : Type κ} → Read A → (A → Read B) → Read B
value a >>= f = f a
missing >>= f = missing
outside >>= f = outside

abbrev pub ◌>>◌ {ℓ} : {B : Type ℓ} → Read (Unit {0}) → Read B → Read B
m >> k = m >>= λ _. k

abbrev pub require : Bool → Read (Unit {0})
require true = value tt
require false = missing

-- `value_or` of an optional that was read.
abbrev pub or_value {ℓ} : {A : Type ℓ} → Read A → A → Read A
or_value (value a) d = value a
or_value missing d = value d
or_value outside d = outside

-- `U32`, `U16` and `b[at]`; the bytes that are put together share no bit.
u32_of : Bytes → Read ℕ
u32_of (w ∷ x ∷ y ∷ z ∷ rest) = value (w + 256 * x + 65536 * y + 16777216 * z)
u32_of _ = outside

pub u32 : Bytes → ℕ → Read ℕ
unfolding u32_of
u32 b at = u32_of (drop at b)

u16_of : Bytes → Read ℕ
u16_of (w ∷ x ∷ rest) = value (w + 256 * x)
u16_of _ = outside

pub u16 : Bytes → ℕ → Read ℕ
unfolding u16_of
u16 b at = u16_of (drop at b)

byte_of : Bytes → Read ℕ
byte_of (w ∷ rest) = value w
byte_of _ = outside

pub byte_at : Bytes → ℕ → Read ℕ
unfolding byte_of
byte_at b at = byte_of (drop at b)

-- The text of a length at a place.
pub slice : Bytes → ℕ → ℕ → Read Bytes
slice b start n = if leb (start + n) (length b) then value (take n (drop start b)) else outside

-- `Checked`; no size is negative.
pub checked : Bytes → ℤ → ℕ → Read ℕ
checked b (negsuc p) size = missing
checked b (pos p) size = if leb (p + size) (length b) then value p else missing

-- `Root`.
pub root : Bytes → Read ℕ
unfolding u32 checked
root b = do require (leb 4 (length b)); at ← u32 b 0; checked b (pos at) 4

-- `table - int32_t(offset)`.
vtable_at : ℕ → ℕ → ℤ
vtable_at table offset =
    if leb (2 ^ 31) offset
    then pos (table + (2 ^ 32 - offset))
    else if leb offset table
    then pos (table - offset)
    else negsuc (offset - table - 1)

-- `Field`.
pub field : Bytes → ℕ → ℕ → Read ℕ
unfolding u32 u16 checked vtable_at
field b table slot = do
  offset ← u32 b table
  start ← checked b (vtable_at table offset) 4
  size ← u16 b start
  require (leb (4 + 2 * slot + 2) size)
  at ← checked b (pos (start + (4 + 2 * slot))) 2
  place ← u16 b at
  require (ltb 0 place)
  checked b (pos (table + place)) 1

-- `U8`.
pub u8 : Bytes → ℕ → ℕ → Read ℕ
unfolding field byte_at
u8 b table slot = do at ← field b table slot; byte_at b at

-- `Indirect`.
pub indirect : Bytes → ℕ → Read ℕ
unfolding u32 checked
indirect b at = do
  position ← checked b (pos at) 4
  offset ← u32 b position
  checked b (pos (position + offset)) 4

-- `Table`.
pub table_at : Bytes → ℕ → ℕ → Read ℕ
unfolding field indirect
table_at b table slot = do at ← field b table slot; indirect b at

-- `String`.
pub string : Bytes → ℕ → ℕ → Read Bytes
unfolding field indirect u32 checked slice
string b table slot = do
  at ← field b table slot
  position ← indirect b at
  n ← u32 b position
  start ← checked b (pos (position + 4)) n
  slice b start n

-- `VectorTable`.
pub vector_table : Bytes → ℕ → ℕ → ℕ → Read ℕ
unfolding field indirect u32
vector_table b table slot index = do
  at ← field b table slot
  vector ← indirect b at
  size ← u32 b vector
  require (ltb index size)
  indirect b (vector + 4 + 4 * index)

abbrev pub type_put_record : ℕ
type_put_record = 4

abbrev pub type_handover_result : ℕ
type_handover_result = 12

abbrev pub type_reset : ℕ
type_reset = 13

-- `EnvelopeType`.
unfoldable pub envelope_type : Bytes → Read ℕ
unfolding root u8
envelope_type frame = do at ← root frame; u8 frame at 0

pub record Message : Type 0 where
  pub name : Bytes
  pub body : Bytes

-- `ReadMessage`.
unfoldable pub read_message : Bytes → Read Message
unfolding root u8 table_at vector_table string
read_message frame = do
  at ← root frame
  type ← u8 frame at 0
  require (type == type_put_record)
  payload ← table_at frame at 1
  entry ← vector_table frame payload 0 0
  kind ← u8 frame entry 0
  require (kind == 1)
  message ← table_at frame entry 1
  body ← string frame message 4
  name ← or_value (string frame message 0) []
  value (record { name = name; body = body })
