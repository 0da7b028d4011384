-- ===== src/Platform.antt =====
-- client/openpak/platform.cpp: the string helpers that the text files of the client rest on, and
-- the client header that every request carries.
pub mod Split
pub mod Strip
use openpak_client.Shared.{
  ◌⊎◌, inl, inr, cut_at, cut_at-append, Lacks, append_assoc, ℕ, ◌+◌, ◌≡◌, refl, Bool, ◌&&◌, ◌||◌,
  some, List, [], ◌∷◌, ◌++◌, map, arith, leb, ◌==◌, if◌then◌else◌, is_nil, Bytes, codes, nat_eq,
  text_eq,
}

-- The loop of `SplitString`: `cur` is the piece being read.
split_from : ℕ → Bytes → Bytes → List Bytes
split_from delim [] cur = cur ∷ []
split_from delim (c ∷ s) cur =
    let cut = split_from delim s [] in
    let more = split_from delim s (cur ++ c ∷ []) in if c == delim then cur ∷ cut else more

unfoldable pub split_string : Bytes → ℕ → List Bytes
unfolding split_from
split_string str delim = split_from delim str []

-- The four characters that `StripSpaces` strips.
abbrev pub is_blank : ℕ → Bool
is_blank c = (c == b' ') || (c == b'\t') || (c == b'\r') || (c == b'\n')

-- `substr(find_first_not_of(…))`.
strip_front : Bytes → Bytes
strip_front [] = []
strip_front (c ∷ s) = let rest = strip_front s in if is_blank c then rest else c ∷ s

-- `substr(0, find_last_not_of(…) + 1)`.
strip_back : Bytes → Bytes
strip_back [] = []
strip_back (c ∷ s) = let rest = strip_back s in if is_nil rest && is_blank c then [] else c ∷ rest

unfoldable pub strip_spaces : Bytes → Bytes
unfolding strip_front strip_back
strip_spaces s = strip_back (strip_front s)

-- `std::tolower` in the C locale.
unfoldable pub lower : ℕ → ℕ
lower c = if leb b'A' c && leb c b'Z' then c + 32 else c

unfoldable pub to_lower : Bytes → Bytes
unfolding lower
to_lower s = map lower s

pub to_lower_idem : (s : Bytes) → to_lower (to_lower s) ≡ to_lower s
unfolding to_lower
to_lower_idem [] = refl
to_lower_idem (c ∷ s) = ground (arith, to_lower_idem s)

-- `g_client` and `g_client_name`.
pub record Client : Type 0 where
  pub header : Bytes
  pub name : Bytes

-- `os` is `OsName()`, which the build's target fixes; empty on an unknown one.
pub set_client : Bytes → Bytes → Bytes → Client
set_client os name version =
    let base = name ++ b'/' ∷ (if is_nil version then codes "unknown" else version) in
    if is_nil name then record { header = []; name = [] } else record {
      header = if is_nil os then base else base ++ (codes " (" ++ (os ++ codes ")"));
      name = name;
    }

header_rest :
    (os name version : Bytes)
    → Lacks b'/' name
    → let base = name ++ b'/' ∷ (if is_nil version then codes "unknown" else version) in
      (rest : Bytes) × (cut_at b'/'
          (if is_nil os then base else base ++ (codes " (" ++ (os ++ codes ")")))
        ≡ some (name, rest))
header_rest [] name version h =
    (if is_nil version then codes "unknown" else version, cut_at-append b'/' name _ h)
header_rest (o ∷ os) name version h = (
  (if is_nil version then codes "unknown" else version) ++ (codes " (" ++ ((o ∷ os) ++ codes ")")),
  rw append_assoc (cut_at-append b'/' name _ h),
)

-- A named client sends a header, which up to its first slash is the name, if that holds no slash;
-- a client with no name sends none.
pub set_client-header :
    (os name version : Bytes)
    → Lacks b'/' name
    → ((name ≡ []) × ((set_client os name version).header ≡ []))
      ⊎ ((rest : Bytes) × (cut_at b'/' (set_client os name version).header ≡ some (name, rest)))
unfolding set_client
set_client-header os [] version h = inl (refl, refl)
set_client-header os (c ∷ name) version h = inr (header_rest os (c ∷ name) version h)
