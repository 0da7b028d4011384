-- ===== src/Structs/Examples.antt =====
-- The theorems about the friend service's structs at concrete friends and texts.
use openpak_client.Shared.{
  ◌≡◌, refl, ◌⊎◌, Bool, true, false, some, List, [], ◌∷◌, ◌++◌, arith, length, replicate, All,
  Bytes, codes, bytes_eq, nat_eq, text_eq,
}
use openpak_client.Shared.Int.{pos, int_eq}
use openpak_client.Structs.Utf8.{valid_utf8, utf8_lossy, utf8_sequence}
use openpak_client.Structs.Utf8.Scalars.{IsText, text_of, utf8_lossy-text_of, utf8_lossy-IsText}
use openpak_client.Structs.Json.{json_string}
use openpak_client.Structs.Json.Escapes.{read_string, read_string-json_string}
use openpak_client.Structs.Blob.{
  Event, Pair, start_object, key_name, text_value, finish, app_field_to_blob, valid_app_field_key,
  pairs_of_blob, fill_blob,
}
use openpak_client.Structs.Blob.RoundTrip.{IsPair, encode, pairs_of_blob-fill_blob}
use openpak_client.Structs.Filter.{Friend, in_group, to_friend_impl, app_key_value_size}
use openpak_client.Structs.Filter.Privacy.{to_friend_impl_blob}

-- An `é` between two letters, and a lone lead byte.
abbrev cafe : Bytes
cafe = 97 ∷ 0xC3 ∷ 0xA9 ∷ 98 ∷ []

abbrev torn : Bytes
torn = 97 ∷ 0xC3 ∷ []

cafe-valid : valid_utf8 cafe ≡ true
unfolding valid_utf8 utf8_sequence
cafe-valid = refl

utf8_lossy-IsText_example : IsText (utf8_lossy torn)
utf8_lossy-IsText_example = utf8_lossy-IsText torn

utf8_lossy-text_of_example :
    utf8_lossy (text_of ((97 ∷ []) ∷ (0xC3 ∷ 0xA9 ∷ []) ∷ []))
    ≡ text_of ((97 ∷ []) ∷ (0xC3 ∷ 0xA9 ∷ []) ∷ [])
utf8_lossy-text_of_example = utf8_lossy-text_of ((97 ∷ []) ∷ (0xC3 ∷ 0xA9 ∷ []) ∷ []) (omega arith)

read_string-json_string_example :
    read_string (json_string (codes "a\"b") ++ codes "}") ≡ some (codes "a\"b", codes "}")
read_string-json_string_example = read_string-json_string (codes "a\"b") (codes "}")

-- A parser that reads one object with one member, whatever the text.
abbrev one_member : Bytes → List Event × Bool
one_member t = (start_object ∷ key_name (codes "k") ∷ text_value (codes "v") ∷ finish ∷ [], true)

abbrev two_pairs : List Pair
two_pairs = (codes "a", codes "1") ∷ (codes "b", []) ∷ []

two_pairs-good : All IsPair two_pairs
unfolding valid_app_field_key valid_utf8 utf8_sequence
two_pairs-good = (
  record { key = refl; value = refl; no_nul = omega arith },
  (record { key = refl; value = refl; no_nul = tt }, tt),
)

pairs_of_blob-fill_blob_example : pairs_of_blob (fill_blob 16 two_pairs) ≡ some two_pairs
unfolding bytes_eq
pairs_of_blob-fill_blob_example =
    pairs_of_blob-fill_blob 16 two_pairs two_pairs-good (refl, (refl, tt))
      (unfold encode in omega arith)

abbrev ana : Friend
ana = record {
  id = 1;
  nickname = codes "ana";
  state = pos 2;
  updated_at = pos 0;
  application_id = 7;
  presence_group_id = 7;
  app_field = codes "{\"k\":\"v\"}";
  is_favorite = true;
  is_newly = false;
  play_log = [];
}

abbrev bob : Friend
bob = record ana { id = 2; state = pos 0; is_favorite = false }

to_friend_impl_blob_example :
    let storage = (to_friend_impl one_member ana 5 7 false).presence.app_key_value_storage in
    ((int_eq ana.state (pos 0) ≡ false)
        × (in_group ana 7 ≡ true)
        × (storage ≡ app_field_to_blob one_member app_key_value_size ana.app_field)
      ⊎ ((int_eq ana.state (pos 0) ≡ true) ⊎ (in_group ana 7 ≡ false))
        × (storage ≡ replicate app_key_value_size 0))
    × (length storage ≡ app_key_value_size)
to_friend_impl_blob_example = to_friend_impl_blob one_member ana 5 7
