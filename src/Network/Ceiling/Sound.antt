-- ===== src/Network/Ceiling/Sound.antt =====
-- What is accepted was signed under a pinned key, and holds only well-formed families.
use openpak_client.Shared.{
  ℕ, ◌<◌, ◌^◌, ◌≡◌, refl, ◌⊎◌, inl, inr, Bool, true, false, not, ◌&&◌, Option, none, some, List, [],
  ◌∷◌, ◌++◌, arith, ◌==◌, Bool-cases, Option-cases, value_or, length, all_of, All, Bytes, codes,
  bytes_eq, nat_eq, text_eq,
}
use openpak_client.Shared.Maps.{insert}
use openpak_client.Platform.{to_lower}
use openpak_client.Network.Json.{
  Json, Items, nil, cons, Fields, end, member, text, null, flag, integer, real, array, object,
  as_text, as_positive, as_fields, as_items, member_of, no_items,
}
use openpak_client.Network.Base64.{decode_base64}
use openpak_client.Network.Family.{family_well_formed}
use openpak_client.Network.Ceiling.{PinnedKey, try_keys, try_entry, try_signatures, verify_ceiling}
use openpak_client.Network.Ceiling.Payload.{
  Ceiling, Refusal, not_a_list, Checked, ok, refused, ◌>>=◌, ◌>>◌, require, ensure, families_in,
  platforms_in, check_payload,
}

module _ {ℓ κ} {A : Type ℓ} {B : Type κ} where
  pub >>=-eq-ok :
      (step : Checked A) (next : A → Checked B) {out : B}
      → (step >>= next) ≡ ok out
      → (mid : A) × (step ≡ ok mid) × (next mid ≡ ok out)
  >>=-eq-ok (refused e) next h = cc
  >>=-eq-ok (ok mid) next h = (mid, refl, h)

  require-eq-ok :
      (o : Option A) (e : Refusal) (f : A → Checked B) {b : B}
      → (require o e >>= f) ≡ ok b
      → (a : A) × (o ≡ some a) × (f a ≡ ok b)
  require-eq-ok none e f h = cc
  require-eq-ok (some a) e f h = (a, refl, h)

ensure-eq-ok {ℓ} :
    {B : Type ℓ} (c : Bool) (e : Refusal) (k : Checked B) {b : B}
    → (ensure c e >> k) ≡ ok b
    → (c ≡ true) × (k ≡ ok b)
ensure-eq-ok true e k h = (refl, h)
ensure-eq-ok false e k h = cc

-- Families that the contract's rule admits, for one platform.
abbrev pub AreFamilies : Bytes × List Bytes → Type 0
AreFamilies p = all_of family_well_formed p.1 ≡ true

all_of-concat :
    (out : List Bytes) (f : Bytes)
    → all_of family_well_formed out ≡ true
    → family_well_formed f ≡ true
    → all_of family_well_formed (out ++ f ∷ []) ≡ true
all_of-concat [] f h w = ground arith
all_of-concat (x ∷ out) f h w = ground (arith, all_of-concat out f)

families_in-AreFamilies :
    (platform : Bytes) (entries : Items) (out : List Bytes) {fs : List Bytes}
    → all_of family_well_formed out ≡ true
    → families_in platform entries out ≡ ok fs
    → all_of family_well_formed fs ≡ true
unfolding families_in
families_in-AreFamilies platform nil out h e = ground arith
families_in-AreFamilies platform (cons (text f) rest) out h e =
    elim (Bool-cases (family_well_formed f)) [
      | inl w ↦
          families_in-AreFamilies platform rest (out ++ f ∷ []) (all_of-concat out f h w)
            (rw (w, families_in) at e)
      | inr b ↦ cc (rw (b, families_in) at e)
    ]
families_in-AreFamilies platform (cons null rest) out h e = cc
families_in-AreFamilies platform (cons (flag b) rest) out h e = cc
families_in-AreFamilies platform (cons (integer n) rest) out h e = cc
families_in-AreFamilies platform (cons (real x) rest) out h e = cc
families_in-AreFamilies platform (cons (array xs) rest) out h e = cc
families_in-AreFamilies platform (cons (object fs) rest) out h e = cc

insert-AreFamilies :
    (platform : Bytes) (fs : List Bytes) (m : List (Bytes × List Bytes))
    → all_of family_well_formed fs ≡ true
    → All AreFamilies m
    → All AreFamilies (insert platform fs m)
unfolding insert
insert-AreFamilies platform fs [] w h = (w, tt)
insert-AreFamilies platform fs ((p, gs) ∷ m) w h =
    ground (arith, insert-AreFamilies platform fs m w h.1)

platforms_in-AreFamilies :
    (fields : Fields) (out : List (Bytes × List Bytes)) {m : List (Bytes × List Bytes)}
    → All AreFamilies out
    → platforms_in fields out ≡ ok m
    → All AreFamilies m
unfolding platforms_in
platforms_in-AreFamilies end out {m} h e = let same : out ≡ m = cc in rw (← same) h
platforms_in-AreFamilies (member platform list rest) out h e =
    let (entries, _, e1) = require-eq-ok (as_items (some list)) (not_a_list platform) _ e in
    let (families, found, e2) = >>=-eq-ok (families_in platform entries []) _ e1 in
    platforms_in-AreFamilies rest (insert platform families out)
      (insert-AreFamilies platform families out
        (families_in-AreFamilies platform entries [] refl found) h)
      e2

-- An accepted ceiling as the rest of the client relies on it.
pub record IsSane (c : Ceiling) : Type 0 where
  pub positive : 0 < c.version
  pub small : c.version < 2 ^ 63
  pub families : All AreFamilies c.platforms

positive-bounds : (o : Option Json) {n : ℕ} → as_positive o ≡ some n → (0 < n) × (n < 2 ^ 63)
unfolding as_positive
positive-bounds o h = ground arith

check_payload-IsSane : (doc : Json) {c : Ceiling} → check_payload doc ≡ ok c → IsSane c
unfolding check_payload
check_payload-IsSane doc {c} h =
    let (type, _, h1) = require-eq-ok (as_text (member_of (codes "type") doc)) _ _ h in
    let (_, h2) = ensure-eq-ok (bytes_eq type (codes "openpak-ceiling")) _ _ h1 in
    let (version, positive, h3) =
      require-eq-ok (as_positive (member_of (codes "version") doc)) _ _ h2 in
    let (platforms, _, h4) = require-eq-ok (as_fields (member_of (codes "platforms") doc)) _ _ h3 in
    let (list, found, h5) = >>=-eq-ok (platforms_in platforms []) _ h4 in
    let built : Ceiling = record {
      version = version;
      issued = value_or (as_text (member_of (codes "issued") doc)) [];
      platforms = list;
    } in
    let same : built ≡ c = cc in
    let bounds = positive-bounds (member_of (codes "version") doc) positive in
    rw (← same) (record {
      positive = bounds.0;
      small = bounds.1;
      families = platforms_in-AreFamilies platforms [] tt found;
    })

-- One of the keys has the property.
abbrev pub Some : (PinnedKey → Type 0) → List PinnedKey → Type 0
Some P [] = ⊥
Some P (k ∷ keys) = P k ⊎ Some P keys

module _ (parse_json : Bytes → Option Json) (verifies : Bytes → Bytes → Bytes → Bool) where
  -- A signature of 64 bytes over these bytes that is valid under the key.
  abbrev pub Signs : Bytes → PinnedKey → Type 0
  Signs payload k = (sig : Bytes) × (length sig ≡ 64) × (verifies k.key payload sig ≡ true)

  try_keys-Signs :
      (payload keyid : Bytes) (sig : Option Bytes) (keys : List PinnedKey)
      → (try_keys parse_json verifies payload keyid sig keys).1 ≡ true
      → Some (Signs payload) keys
  unfolding try_keys
  try_keys-Signs payload keyid sig [] h = cc
  try_keys-Signs payload keyid none (k ∷ keys) h =
      inr (try_keys-Signs payload keyid none keys (ground arith))
  try_keys-Signs payload keyid (some sig) (k ∷ keys) h =
      elim (Bool-cases ((length sig == 64) && verifies k.key payload sig)) [
        | inl good ↦ inl (sig, ground arith, ground arith)
        | inr bad ↦ inr (try_keys-Signs payload keyid (some sig) keys (ground arith))
      ]

  try_entry-Signs :
      (payload : Bytes) (keys : List PinnedKey) (entry : Json)
      → (try_entry parse_json verifies payload keys entry).1 ≡ true
      → Some (Signs payload) keys
  unfolding try_entry
  try_entry-Signs payload keys entry h =
      elim (Option-cases (as_text (member_of (codes "keyid") entry))) [
        | inl e ↦ cc (rw (e, try_entry) at h)
        | inr (keyid, e) ↦ elim (Option-cases (as_text (member_of (codes "sig") entry))) [
          | inl g ↦ cc (rw (e, g, try_entry) at h)
          | inr (sig, g) ↦
              try_keys-Signs payload (to_lower keyid) (decode_base64 sig) keys
                (rw (e, g, try_entry) at h)
        ]
      ]

  try_signatures-Signs :
      (payload : Bytes) (keys : List PinnedKey) (entries : Items)
      → (try_signatures parse_json verifies payload keys entries).1 ≡ true
      → Some (Signs payload) keys
  unfolding try_signatures
  try_signatures-Signs payload keys nil h = cc
  try_signatures-Signs payload keys (cons entry rest) h =
      elim (Bool-cases (try_entry parse_json verifies payload keys entry).1) [
        | inl e ↦ try_entry-Signs payload keys entry e
        | inr e ↦ try_signatures-Signs payload keys rest (ground arith)
      ]

  -- What it means that a ceiling was accepted: the same bytes were signed under one of the keys and
  -- parse to it.
  pub record IsSigned (keys : List PinnedKey) (c : Ceiling) : Type 0 where
    pub payload : Bytes
    pub signed : Some (Signs payload) keys
    pub document : Json
    pub parsed : parse_json payload ≡ some document
    pub says : check_payload document ≡ ok c

  -- An accepted ceiling was signed under one of the keys, and has a positive version and well-formed
  -- families only.
  pub verify_ceiling_sound :
      (envelope : Bytes) (keys : List PinnedKey) (c : Ceiling)
      → verify_ceiling parse_json verifies envelope keys ≡ ok c
      → IsSigned keys c × IsSane c
  unfolding verify_ceiling
  verify_ceiling_sound envelope keys c h =
      let (env, _, h1) = require-eq-ok (parse_json envelope) _ _ h in
      let (encoded, _, h2) = require-eq-ok (as_text (member_of (codes "payload") env)) _ _ h1 in
      let (payload, _, h3) = require-eq-ok (decode_base64 encoded) _ _ h2 in
      let (signatures, _, h4) =
        require-eq-ok (as_items (member_of (codes "signatures") env)) _ _ h3 in
      let (_, h5) = ensure-eq-ok (not (no_items signatures)) _ _ h4 in
      let (good, h6) =
        ensure-eq-ok (try_signatures parse_json verifies payload keys signatures).1 _ _ h5 in
      let (doc, parsed, says) = require-eq-ok (parse_json payload) _ _ h6 in
      (
        record {
          payload = payload;
          signed = try_signatures-Signs payload keys signatures good;
          document = doc;
          parsed = parsed;
          says = says;
        },
        check_payload-IsSane doc says,
      )
