-- ===== src/Network/Ceiling.antt =====
-- client/openpak/network_ceiling.cpp: the signed ceiling. JSON, Ed25519 and SHA-256 are third-party code
-- and are arguments; a refusal is the branch that wrote the error, with what its text names.
pub mod Sound
pub mod Payload
mod Files
pub mod Rollback
use openpak_client.Network.Ceiling.Payload.{
  Ceiling, Checked, Refusal, bad_signature, check_payload, ensure, envelope_unparsed, families_for,
  no_payload, no_pinned_key, no_signatures, not_base64, ok, payload_unparsed, refused, require,
  ◌>>=◌, ◌>>◌,
}
use Prim.Native.Nat.{max}
use openpak_client.Shared.{
  ℕ, Bool, true, false, not, ◌&&◌, ◌||◌, Option, none, some, List, [], ◌∷◌, ◌++◌, map, ltb, ◌==◌,
  if◌then◌else◌, value_or, length, is_nil, Bytes, codes, bytes_eq, nat_eq, text_eq,
}
use openpak_client.Shared.Int.{ℤ, pos}
use openpak_client.Shared.Decimal.{to_string, stoll}
use openpak_client.Shared.Disk.{Disk, path_append, file_at, write_file, remove_file, rename_file}
use openpak_client.Platform.{to_lower}
use openpak_client.Network.Json.{Json, Items, nil, cons, member_of, as_text, as_items, no_items}
use openpak_client.Network.Base64.{decode_base64}
use openpak_client.Network.Family.{name_in_families}

pub record PinnedKey : Type 0 where
  pub key : Bytes
  pub keyid : Bytes

pub data CeilingSource : Type 0 where
  fetched cached built_in : CeilingSource

abbrev pub compiled_families : List Bytes
compiled_families =
    codes ".nintendo.net"
    ∷ codes ".nintendo.com"
    ∷ codes ".nintendo.co.jp"
    ∷ codes ".nintendowifi.net"
    ∷ codes ".nintendo-europe.com"
    ∷ codes ".gamespy.com"
    ∷ codes ".openpak.org"
    ∷ codes ".among.us"
    ∷ codes ".photonengine.io"
    ∷ []

-- `CompiledCeiling`.
abbrev pub compiled_ceiling : Ceiling
compiled_ceiling = record {
  version = 0;
  issued = [];
  platforms =
      map (λ p. (p, compiled_families))
        (codes "switch" ∷ codes "wiiu" ∷ codes "3ds" ∷ codes "wii" ∷ codes "ds" ∷ []);
}

-- `CeilingResult`; the error is the refusal of the fetched envelope or of the cached one.
pub data Error : Type 0 where
  no_error no_answer fetched_older cached_older : Error
  fetched_rejected cached_rejected : Refusal → Error

pub record CeilingResult : Type 0 where
  pub source : CeilingSource
  pub ceiling : Ceiling
  pub error : Error

pub record CeilingDecision : Type 0 where
  pub result : CeilingResult
  pub store : Bool
  pub highest_accepted : ℕ

-- Where the settings are kept.
unfoldable pub ceiling_path : Bytes → Bytes
ceiling_path config = path_append config (codes "openpak_network_ceiling.json")

unfoldable pub highest_path : Bytes → Bytes
highest_path config = path_append config (codes "openpak_network_ceiling.version")

abbrev pub temporary : Bytes → Bytes
temporary path = path ++ codes ".tmp"

-- `WriteAtomically`, with whether it succeeded.
unfoldable pub write_atomically : Disk → Bytes → Bytes → Disk × Bool
write_atomically d path contents =
    let (written, opened) = write_file d (temporary path) contents in
    let (renamed, moved) = rename_file written (temporary path) path in
    if not opened
    then (written, false)
    else if moved
    then (renamed, true)
    else (remove_file renamed (temporary path), false)

-- `ReadWhole`: an empty file is none.
whole : Option Bytes → Option Bytes
whole none = none
whole (some body) = if is_nil body then none else some body

unfoldable pub read_whole : Disk → Bytes → Option Bytes
unfolding whole
read_whole d path = whole (file_at d path)

-- `ReadHighest`: a number that does not parse, or is negative, is 0.
number_or_zero : Option ℤ → ℕ
number_or_zero (some (pos n)) = n
number_or_zero _ = 0

highest_in : Option Bytes → ℕ
unfolding number_or_zero
highest_in none = 0
highest_in (some body) = number_or_zero (stoll body)

unfoldable pub read_highest : Bytes → Disk → ℕ
unfolding highest_in read_whole
read_highest config d = highest_in (read_whole d (highest_path config))

-- What the process holds: the disk, `Platform::ConfigDir()` and `g_ceiling`.
pub record State : Type 0 where
  pub disk : Disk
  pub config : Bytes
  pub current : Option Ceiling

module _ (parse_json : Bytes → Option Json) (verifies : Bytes → Bytes → Bytes → Bool) where
  -- `VerifyEd25519`, over the library's check of a key, a message and a signature.
  verify_ed25519 : PinnedKey → Bytes → Bytes → Bool
  verify_ed25519 k message sig = (length sig == 64) && verifies k.key message sig

  -- The keys against one signature: whether one has its keyid, and whether one verifies it.
  try_keys : Bytes → Bytes → Option Bytes → List PinnedKey → Bool × Bool
  unfolding verify_ed25519
  try_keys payload keyid sig [] = (false, false)
  try_keys payload keyid sig (k ∷ keys) =
      let rest = try_keys payload keyid sig keys in
      let good : Bool = elim sig [ none ↦ false | some s ↦ verify_ed25519 k payload s ] in
      if bytes_eq k.keyid keyid then (true, good || rest.1) else rest

  -- One entry of the signatures; one without both texts is passed over.
  try_entry : Bytes → List PinnedKey → Json → Bool × Bool
  unfolding try_keys
  try_entry payload keys entry = elim (as_text (member_of (codes "keyid") entry)) [
    | none ↦ (false, false)
    | some keyid ↦ elim (as_text (member_of (codes "sig") entry)) [
      | none ↦ (false, false)
      | some sig ↦ try_keys payload (to_lower keyid) (decode_base64 sig) keys
    ]
  ]

  try_signatures : Bytes → List PinnedKey → Items → Bool × Bool
  unfolding try_entry
  try_signatures payload keys nil = (false, false)
  try_signatures payload keys (cons entry rest) =
      let here = try_entry payload keys entry in
      let later = try_signatures payload keys rest in (here.0 || later.0, here.1 || later.1)

  -- `VerifyCeiling`: the payload is parsed only after one of its signatures verified.
  unfoldable pub verify_ceiling : Bytes → List PinnedKey → Checked Ceiling
  unfolding try_signatures
  verify_ceiling envelope keys = do
    env ← require (parse_json envelope) envelope_unparsed
    encoded ← require (as_text (member_of (codes "payload") env)) no_payload
    payload ← require (decode_base64 encoded) not_base64
    signatures ← require (as_items (member_of (codes "signatures") env)) no_signatures
    ensure (not (no_items signatures)) no_signatures
    let tried = try_signatures payload keys signatures
    ensure tried.1 (if tried.0 then bad_signature else no_pinned_key)
    doc ← require (parse_json payload) payload_unparsed
    check_payload doc

  -- The cached half of `DecideCeiling`.
  from_cache : Option Bytes → ℕ → List PinnedKey → CeilingResult × ℕ
  from_cache none highest keys =
      (record { source = built_in; ceiling = compiled_ceiling; error = no_error }, highest)
  from_cache (some envelope) highest keys = elim (verify_ceiling envelope keys) [
    | refused e ↦ (
      record { source = built_in; ceiling = compiled_ceiling; error = cached_rejected e },
      highest,
    )
    | ok c ↦
        if ltb c.version highest
        then (
          record { source = built_in; ceiling = compiled_ceiling; error = cached_older },
          highest,
        )
        else (record { source = cached; ceiling = c; error = no_error }, max highest c.version)
  ]

  -- The fetched half, on what the cached half left.
  from_fetch : Option Bytes → List PinnedKey → CeilingResult × ℕ → CeilingDecision
  from_fetch none keys (r, highest) = record {
    result = record r { error = elim r.error [ no_error ↦ no_answer | e ↦ e ] };
    store = false;
    highest_accepted = highest;
  }
  from_fetch (some envelope) keys (r, highest) = elim (verify_ceiling envelope keys) [
    | refused e ↦ record {
      result = record r { error = fetched_rejected e };
      store = false;
      highest_accepted = highest;
    }
    | ok c ↦
        if ltb c.version highest
        then record {
          result = record r { error = fetched_older };
          store = false;
          highest_accepted = highest;
        }
        else record {
          result = record { source = fetched; ceiling = c; error = r.error };
          store = true;
          highest_accepted = c.version;
        }
  ]

  -- `DecideCeiling`.
  unfoldable pub decide_ceiling : Option Bytes → Option Bytes → ℕ → List PinnedKey → CeilingDecision
  unfolding from_cache from_fetch
  decide_ceiling cache fetch highest keys = from_fetch fetch keys (from_cache cache highest keys)

  -- `LoadCeiling`; the logged lines are left out.
  unfoldable pub load_ceiling : Option Bytes → List PinnedKey → State → State × CeilingResult
  load_ceiling fetch keys s =
      let cache = read_whole s.disk (ceiling_path s.config) in
      let decision = decide_ceiling cache fetch (read_highest s.config s.disk) keys in
      let kept : Disk =
        if decision.store
        then (write_atomically s.disk (ceiling_path s.config) (value_or fetch [])).0
        else s.disk in
      let noted : Disk =
        if ltb (read_highest s.config kept) decision.highest_accepted
        then (write_atomically kept (highest_path s.config) (to_string decision.highest_accepted)).0
        else kept in
      (record s { disk = noted; current = some decision.result.ceiling }, decision.result)

  -- `CurrentCeiling`: the one that is held, or else the cache as it verifies, which is then held.
  unfoldable pub current_ceiling : List PinnedKey → State → State × Ceiling
  current_ceiling keys s = elim s.current [
    | some c ↦ (s, c)
    | none ↦
        let c =
          (decide_ceiling (read_whole s.disk (ceiling_path s.config)) none
            (read_highest s.config s.disk) keys).result.ceiling in
        (record s { current = some c }, c)
  ]

  -- `NameAllowed`.
  unfoldable pub name_allowed : List PinnedKey → Bytes → Bytes → State → Bool
  unfolding current_ceiling
  name_allowed keys host platform s =
      name_in_families host (families_for (current_ceiling keys s).1 platform)
