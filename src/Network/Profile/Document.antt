-- ===== src/Network/Profile/Document.antt =====
-- `Parse` and the document that `Store` writes, in network_profile_fetch.cpp. A value that is absent where
-- the code would throw makes `Parse` answer with nothing.
use openpak_client.Shared.{
  ℕ, ◌-◌, ◌%◌, ◌^◌, Bool, true, false, ◌||◌, ◌&&◌, Option, none, some, ◌>>=◌, List, [], ◌∷◌, ltb,
  ◌==◌, if◌then◌else◌, is_nil, Bytes, codes, bytes_eq,
}
use openpak_client.Shared.Int.{ℤ, pos, negsuc}
use openpak_client.Platform.{to_lower}
use openpak_client.Network.Json.{
  Json, Items, Fields, flag, integer, real, text, array, object, nil, cons, end, member,
  find_member,
}
use openpak_client.Network.Profile.{Service, Profile}

-- A two's complement integer of `w` bits, as `static_cast` makes one.
unsigned_of : ℕ → ℤ → ℕ
unsigned_of w (pos n) = n % 2 ^ w
unsigned_of w (negsuc n) = 2 ^ w - 1 - n % 2 ^ w

wrap_signed : ℕ → ℤ → ℤ
unfolding unsigned_of
wrap_signed w n =
    let u = unsigned_of w n in if ltb u (2 ^ (w - 1)) then pos u else negsuc (2 ^ w - 1 - u)

-- The members of an object that is there and is one; none in every other case.
object_at : Bytes → Fields → Fields
unfolding find_member
object_at key fields = elim (find_member key fields) [ some (object inner) ↦ inner | _ ↦ end ]

-- `value(key, std::string{})`.
text_at : Bytes → Fields → Option Bytes
unfolding find_member
text_at key fields = elim (find_member key fields) [
  | none ↦ some []
  | some (text t) ↦ some t
  | _ ↦ none
]

texts_of : Items → Option (List Bytes)
texts_of nil = some []
texts_of (cons (text t) rest) = elim (texts_of rest) [ none ↦ none | some ts ↦ some (t ∷ ts) ]
texts_of (cons entry rest) = none

-- `value(key, std::vector<std::string>{})`.
texts_at : Bytes → Fields → Option (List Bytes)
unfolding find_member texts_of
texts_at key fields = elim (find_member key fields) [
  | none ↦ some []
  | some (array xs) ↦ texts_of xs
  | _ ↦ none
]

-- The overrides: an address that is no text is passed over.
overrides_of : Fields → List (Bytes × Bytes)
overrides_of end = []
overrides_of (member name (text address) rest) = (name, address) ∷ overrides_of rest
overrides_of (member name address rest) = overrides_of rest

services_of : Items → Option (List Service)
unfolding text_at
services_of nil = some []
services_of (cons (object s) rest) = do
  id ← text_at (codes "id") s
  url ← text_at (codes "url") s
  services ← services_of rest
  some (record { id = id; url = url } ∷ services)
services_of (cons entry rest) = none

services_at : Fields → Option (List Service)
unfolding find_member services_of
services_at fields = elim (find_member (codes "services") fields) [
  | some (array xs) ↦ services_of xs
  | _ ↦ some []
]

module _ (truncated : Bytes → ℤ) where
  -- `value(key, default)` of a number of `w` bits; the conversion of a fraction is the compiler's.
  number_at : ℕ → Bytes → ℤ → Fields → Option ℤ
  unfolding find_member wrap_signed
  number_at w key default fields = elim (find_member key fields) [
    | none ↦ some default
    | some (integer n) ↦ some (wrap_signed w n)
    | some (real x) ↦ some (truncated x)
    | some (flag b) ↦ some (pos (if b then 1 else 0))
    | _ ↦ none
  ]

  -- `Parse`, on the document that the text parses to.
  unfoldable pub parse_profile : Json → Option Profile
  unfolding object_at text_at texts_at overrides_of services_at number_at
  parse_profile (object doc) =
      let server = object_at (codes "server") doc in
      let ca = object_at (codes "ca") doc in
      let redirect = object_at (codes "redirect") doc in
      do
        version ← number_at 64 (codes "version") (pos 0) doc
        generated_at ← number_at 64 (codes "generated_at") (pos 0) doc
        platform ← text_at (codes "platform") doc
        address ← text_at (codes "address") server
        https_port ← number_at 32 (codes "https_port") (pos 443) server
        http_port ← number_at 32 (codes "http_port") (pos 80) server
        ca_url ← text_at (codes "url") ca
        ca_sha256 ← text_at (codes "sha256") ca
        ca_not_after ← number_at 64 (codes "not_after") (pos 0) ca
        suffixes ← texts_at (codes "suffixes") redirect
        exact ← texts_at (codes "exact") redirect
        never ← texts_at (codes "never") redirect
        services ← services_at doc
        recheck_after ← number_at 64 (codes "recheck_after") (pos 21600) doc
        some (record {
          version = version;
          generated_at = generated_at;
          platform = platform;
          server_address = address;
          https_port = https_port;
          http_port = http_port;
          ca_url = ca_url;
          ca_sha256 = to_lower ca_sha256;
          ca_not_after = ca_not_after;
          suffixes = suffixes;
          exact = exact;
          never = never;
          overrides = overrides_of (object_at (codes "overrides") redirect);
          services = services;
          recheck_after = recheck_after;
        })
  parse_profile doc = none

-- `operator<` of `std::string`, which compares bytes.
unfoldable pub bytes_lt : Bytes → Bytes → Bool
bytes_lt a [] = false
bytes_lt [] (d ∷ t) = true
bytes_lt (c ∷ s) (d ∷ t) = let rest = bytes_lt s t in ltb c d || ((c == d) && rest)

-- `overrides[name] = address`: the members stay in the order of their keys.
put_member : Bytes → Json → Fields → Fields
unfolding bytes_lt
put_member key v end = member key v end
put_member key v (member k w rest) =
    let later = member k w (put_member key v rest) in
    if bytes_eq key k
    then member key v rest
    else if bytes_lt key k
    then member key v (member k w rest)
    else later

put_all : List (Bytes × Bytes) → Fields → Fields
unfolding put_member
put_all [] fields = fields
put_all ((name, address) ∷ rest) fields = put_all rest (put_member name (text address) fields)

texts : List Bytes → Items
texts [] = nil
texts (t ∷ ts) = cons (text t) (texts ts)

services_json : List Service → Items
services_json [] = nil
services_json (s ∷ rest) =
    cons (object (member (codes "id") (text s.id) (member (codes "url") (text s.url) end)))
      (services_json rest)

redirect_json : Profile → Fields
unfolding texts put_all
redirect_json p =
    let lists : Fields = member (codes "suffixes") (array (texts p.suffixes)) end in
    let both : Fields =
      if is_nil p.overrides
      then lists
      else member (codes "overrides") (object (put_all p.overrides end)) lists in
    member (codes "exact") (array (texts p.exact))
      (member (codes "never") (array (texts p.never)) both)

-- The document of `Store`, its members in the order of their keys.
unfoldable pub profile_json : Profile → Json
unfolding redirect_json services_json
profile_json p =
    let rest : Fields = member (codes "generated_at") (integer p.generated_at) (
      member (codes "platform") (text p.platform) (
        member (codes "recheck_after") (integer p.recheck_after) (
          member (codes "redirect") (object (redirect_json p)) (
            member (codes "server")
              (object (
                member (codes "address") (text p.server_address) (
                  member (codes "http_port") (integer p.http_port)
                    (member (codes "https_port") (integer p.https_port) end))))
              (member (codes "services") (array (services_json p.services))
                (member (codes "version") (integer p.version) end)))))) in
    let ca : Fields =
      member (codes "not_after") (integer p.ca_not_after)
        (member (codes "sha256") (text p.ca_sha256) (member (codes "url") (text p.ca_url) end)) in
    if is_nil p.ca_url then object rest else object (member (codes "ca") (object ca) rest)
