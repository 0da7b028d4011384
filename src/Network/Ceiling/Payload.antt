-- ===== src/Network/Ceiling/Payload.antt =====
-- `Ceiling` of client/openpak/network_profile.h, and the second half of `VerifyCeiling` in
-- network_ceiling.cpp: what the signed bytes have to say.
use openpak_client.Shared.{
  ℕ, Bool, true, false, Option, none, some, List, [], ◌∷◌, ◌++◌, if◌then◌else◌, value_or, Bytes,
  codes, bytes_eq, nat_eq, text_eq,
}
use openpak_client.Shared.Maps.{lookup, insert}
use openpak_client.Network.Json.{
  Json, Items, nil, cons, Fields, end, member, text, member_of, as_text, as_items, as_fields,
  as_positive,
}
use openpak_client.Network.Base64.{}
use openpak_client.Network.Family.{family_well_formed}

pub record Ceiling : Type 0 where
  pub version : ℕ
  pub issued : Bytes
  pub platforms : List (Bytes × List Bytes)

-- `Ceiling::FamiliesFor`.
unfoldable pub families_for : Ceiling → Bytes → List Bytes
families_for c platform = value_or (lookup platform c.platforms) []

pub data Refusal : Type 0 where
  no_payload not_base64 no_signatures bad_signature no_pinned_key envelope_unparsed : Refusal
  wrong_type bad_version no_platforms payload_unparsed : Refusal
  not_a_list : Bytes → Refusal
  malformed_family : Bytes → Json → Refusal

pub data Checked {ℓ} (A : Type ℓ) : Type ℓ where
  ok : A → Checked A
  refused : Refusal → Checked A

infixl 5 ◌>>=◌ ◌>>◌
abbrev pub ◌>>=◌ {ℓ κ} : {A : Type ℓ} {B : Type κ} → Checked A → (A → Checked B) → Checked B
ok a >>= f = f a
refused e >>= f = refused e

abbrev pub ◌>>◌ {ℓ} : {B : Type ℓ} → Checked (Unit {0}) → Checked B → Checked B
m >> k = m >>= λ _. k

-- The value of a step that may have none, or the refusal that its branch returns.
abbrev pub require {ℓ} : {A : Type ℓ} → Option A → Refusal → Checked A
require none e = refused e
require (some a) e = ok a

abbrev pub ensure : Bool → Refusal → Checked (Unit {0})
ensure true e = ok tt
ensure false e = refused e

-- One platform's list: an entry that is no well-formed family refuses the whole payload.
unfoldable pub families_in : Bytes → Items → List Bytes → Checked (List Bytes)
families_in platform nil out = ok out
families_in platform (cons (text f) rest) out =
    let more = families_in platform rest (out ++ f ∷ []) in
    if family_well_formed f then more else refused (malformed_family platform (text f))
families_in platform (cons entry rest) out = refused (malformed_family platform entry)

-- The loop over the platforms.
unfoldable pub platforms_in :
    Fields → List (Bytes × List Bytes) → Checked (List (Bytes × List Bytes))
unfolding families_in
platforms_in end out = ok out
platforms_in (member platform list rest) out = do
  entries ← require (as_items (some list)) (not_a_list platform)
  families ← families_in platform entries []
  platforms_in rest (insert platform families out)

-- The second half of `VerifyCeiling`: what the signed bytes have to say.
unfoldable pub check_payload : Json → Checked Ceiling
unfolding platforms_in
check_payload doc = do
  type ← require (as_text (member_of (codes "type") doc)) wrong_type
  ensure (bytes_eq type (codes "openpak-ceiling")) wrong_type
  version ← require (as_positive (member_of (codes "version") doc)) bad_version
  platforms ← require (as_fields (member_of (codes "platforms") doc)) no_platforms
  list ← platforms_in platforms []
  ok (record {
    version = version;
    issued = value_or (as_text (member_of (codes "issued") doc)) [];
    platforms = list;
  })
