-- ===== src/Structs/Filter/Privacy.antt =====
-- Who may see a friend's blob.
use openpak_client.Shared.{
  ℕ, ◌≡◌, refl, ◌⊎◌, inl, inr, Bool, true, false, List, Bool-cases, length, replicate,
  length-replicate, Bytes, nat_eq, text_eq,
}
use openpak_client.Shared.Int.{pos, int_eq}
use openpak_client.Structs.Blob.{Event, app_field_to_blob}
use openpak_client.Structs.Blob.RoundTrip.{length-app_field_to_blob}
use openpak_client.Structs.Filter.{Friend, app_key_value_size, in_group, to_friend_impl}

-- For a title, which is no viewer, the blob is all zeros unless the friend is online and runs a
-- title of the caller's own group; then it is the published one. It always has the struct's size.
pub to_friend_impl_blob :
    (sax : Bytes → List Event × Bool) (f : Friend) (user_id own : ℕ)
    → let storage = (to_friend_impl sax f user_id own false).presence.app_key_value_storage in
      ((int_eq f.state (pos 0) ≡ false)
          × (in_group f own ≡ true)
          × (storage ≡ app_field_to_blob sax app_key_value_size f.app_field)
        ⊎ ((int_eq f.state (pos 0) ≡ true) ⊎ (in_group f own ≡ false))
          × (storage ≡ replicate app_key_value_size 0))
      × (length storage ≡ app_key_value_size)
unfolding to_friend_impl
to_friend_impl_blob sax f user_id own =
    let zero_byte : ℕ = 0 in
    elim (Bool-cases (int_eq f.state (pos 0))) [
      | inl e ↦ rw e (inr (inl refl, refl), length-replicate app_key_value_size zero_byte)
      | inr e ↦ elim (Bool-cases (in_group f own)) [
        | inl g ↦ rw (e, g) (inl (refl, refl, refl), length-app_field_to_blob sax _ f.app_field)
        | inr g ↦ rw (e, g) (inr (inr refl, refl), length-replicate app_key_value_size zero_byte)
      ]
    ]
