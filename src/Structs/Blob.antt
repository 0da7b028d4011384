-- ===== src/Structs/Blob.antt =====
-- The appField of a presence: a JSON object of strings on the web side, and on the console's a blob
-- of NUL-terminated keys and values. `nlohmann::json::sax_parse` is the parameter `sax`.
pub mod RoundTrip
use openpak_client.Shared.{
  ℕ, zero, suc, ◌+◌, ◌-◌, Bool, true, false, not, ◌&&◌, ◌||◌, Option, none, some, List, [], ◌∷◌,
  ◌++◌, ltb, leb, ◌==◌, if◌then◌else◌, ◌>>=◌, ◌>>◌, guard, length, replicate, is_nil, all_of,
  any_of, Bytes, codes, bytes_eq, nat_eq, text_eq, cut_at, starts_with, ends_with,
}
use openpak_client.Structs.Utf8.{valid_utf8}
use openpak_client.Structs.Json.{json_string}

abbrev pub Pair : Type 0
Pair = Bytes × Bytes

abbrev pub key_char : ℕ → Bool
key_char c =
    (leb b'a' c && leb c b'z')
    || (leb b'A' c && leb c b'Z')
    || (leb b'0' c && leb c b'9')
    || (c == b'_')

-- `ValidAppFieldKey`.
unfoldable pub valid_app_field_key : Bytes → Bool
valid_app_field_key key = not (is_nil key) && all_of key_char key

abbrev pub has_key : Bytes → List Pair → Bool
has_key key = any_of (λ p. bytes_eq p.0 key)

-- The loop of `BlobToAppField`, one unit of fuel to a pair; `none` is the early return of "{}".
read_pairs : ℕ → Bytes → List Pair → Option (List Pair)
read_pairs zero rest pairs = none
read_pairs (suc fuel) [] pairs = some pairs
read_pairs (suc fuel) (c ∷ rest) pairs = elim (c == 0) [
  | true ↦ some pairs
  | false ↦ do
    (key, after_key) ← cut_at 0 (c ∷ rest)
    (value, after_value) ← cut_at 0 after_key
    guard (valid_utf8 value && (valid_app_field_key key && not (has_key key pairs)))
    read_pairs fuel after_value (pairs ++ (key, value) ∷ [])
]

-- The pairs that a blob holds; no pair is shorter than the fuel's unit.
pub pairs_of_blob : Bytes → Option (List Pair)
unfolding read_pairs
pairs_of_blob blob = read_pairs (suc (length blob)) blob []

members : List Pair → Bytes
members [] = []
members ((key, value) ∷ []) = json_string key ++ (b':' ∷ json_string value)
members ((key, value) ∷ p ∷ ps) =
    json_string key ++ (b':' ∷ (json_string value ++ (b',' ∷ members (p ∷ ps))))

pub blob_to_app_field : Bytes → Bytes
unfolding members
blob_to_app_field blob = elim (pairs_of_blob blob) [
  | none ↦ codes "{}"
  | some pairs ↦ b'{' ∷ (members pairs ++ b'}' ∷ [])
]

-- What the JSON parser reports; every scalar but a string is handled alike.
pub data Event : Type 0 where
  scalar start_object start_array finish : Event
  text_value key_name : Bytes → Event

-- `TopLevelStrings`.
pub record Collected : Type 0 where
  pub depth : ℕ
  pub in_object_top : Bool
  pub key : Bytes
  pub pairs : List Pair

-- `Open`: false beyond 64 levels, which ends the parse.
open_level : Bool → Collected → Option Collected
open_level is_object s =
    if leb (s.depth + 1) 64
    then some (record s {
      depth = s.depth + 1;
      in_object_top = if s.depth == 0 then is_object else s.in_object_top;
    })
    else none

pub handle : Event → Collected → Option Collected
unfolding open_level
handle scalar s = some s
handle start_object s = open_level true s
handle start_array s = open_level false s
handle finish s = some (record s { depth = s.depth - 1 })
handle (text_value v) s = some (
    if (s.depth == 1) && s.in_object_top
    then record s { pairs = s.pairs ++ (s.key, v) ∷ [] }
    else s)
handle (key_name k) s = some (if s.depth == 1 then record s { key = k } else s)

handle_all : List Event → Collected → Option Collected
unfolding handle
handle_all [] s = some s
handle_all (e ∷ es) s = do t ← handle e s; handle_all es t

-- The top-level string members of a text that parses.
pub collect : (Bytes → List Event × Bool) → Bytes → Option (List Pair)
unfolding handle_all
collect sax text = do
  s ← handle_all (sax text).0 (record { depth = 0; in_object_top = false; key = []; pairs = [] })
  guard (sax text).1
  some s.pairs

-- The loop of `AppFieldToBlob`: a key that is not valid is passed over, and the first pair that
-- does not fit ends it.
pub write_pairs : ℕ → List Pair → Bytes → Bytes
write_pairs size [] out = out
write_pairs size ((key, value) ∷ ps) out =
    let next =
      write_pairs size ps
        (if valid_app_field_key key then out ++ (key ++ (0 ∷ (value ++ (0 ∷ [])))) else out) in
    if valid_app_field_key key && ltb size (length out + length key + length value + 2)
    then out
    else next

pub fill_blob : ℕ → List Pair → Bytes
unfolding write_pairs
fill_blob size pairs = let out = write_pairs size pairs [] in out ++ replicate (size - length out) 0

pub app_field_to_blob : (Bytes → List Event × Bool) → ℕ → Bytes → Bytes
unfolding collect
app_field_to_blob sax size app_field =
    if not (starts_with (codes "{") app_field) || not (ends_with (codes "}") app_field)
    then replicate size 0
    else elim (collect sax app_field) [
      | none ↦ replicate size 0
      | some pairs ↦ fill_blob size pairs
    ]
