-- ===== src/Network/Json.antt =====
-- A parsed JSON document, as nlohmann::json presents it: an object's members are in the order of their
-- keys, each once, and a string is well-formed UTF-8. The parser itself is third-party code.
use openpak_client.Shared.{
  ℕ, Bool, true, false, Option, none, some, Bytes, if◌then◌else◌, bytes_eq, ltb, ◌^◌,
}
use openpak_client.Shared.Int.{ℤ, pos}

mutual
  pub data Json : Type 0 where
    null : Json
    flag : Bool → Json
    integer : ℤ → Json
    real : Bytes → Json
    text : Bytes → Json
    array : Items → Json
    object : Fields → Json

  pub data Items : Type 0 where
    nil : Items
    cons : Json → Items → Items

  pub data Fields : Type 0 where
    end : Fields
    member : Bytes → Json → Fields → Fields

-- `find`, `contains` and `at` of an object's members.
unfoldable pub find_member : Bytes → Fields → Option Json
find_member key end = none
find_member key (member k v rest) =
    let later = find_member key rest in if bytes_eq k key then some v else later

-- A member of a value; a value that is no object has none.
unfoldable pub member_of : Bytes → Json → Option Json
unfolding find_member
member_of key (object fields) = find_member key fields
member_of key _ = none

unfoldable pub as_text : Option Json → Option Bytes
as_text (some (text t)) = some t
as_text _ = none

unfoldable pub as_items : Option Json → Option Items
as_items (some (array xs)) = some xs
as_items _ = none

unfoldable pub as_fields : Option Json → Option Fields
as_fields (some (object fs)) = some fs
as_fields _ = none

-- `get<long long>()` of an integer that is positive as a `long long`; an unsigned one of 2^63 or more
-- wraps to a negative.
unfoldable pub as_positive : Option Json → Option ℕ
as_positive (some (integer (pos n))) =
    if ltb 0 n then (if ltb n (2 ^ 63) then some n else none) else none
as_positive _ = none

-- `empty` of an array.
abbrev pub no_items : Items → Bool
no_items nil = true
no_items (cons x xs) = false
