-- ===== src/Compatibility/Words.antt =====
-- The words of the catalogue.
use openpak_client.Shared.{
  ◌≡◌, ◌↔◌, some, arith, Bytes, codes, bytes_eq, bytes_eq_iff, nat_eq, text_eq,
}
use openpak_client.Platform.{to_lower}
use openpak_client.Compatibility.{
  Status, live, beta, alpha, Playability, playable, in_game, menus, boots, nothing, parse,
  status_name, parse_playability, playability_name,
}

-- A word is a status exactly when, in lower case, it is the name of that status.
pub parse_iff : (w : Bytes) (s : Status) → (parse w ≡ some s) ↔ (to_lower w ≡ status_name s)
unfolding parse status_name bytes_eq
parse_iff w live = (
  λ h. ground (
    arith,
    h,
    bytes_eq_iff (to_lower w) (codes "live"),
    bytes_eq_iff (to_lower w) (codes "beta"),
    bytes_eq_iff (to_lower w) (codes "alpha"),
  ),
  λ e. rw e,
)
parse_iff w beta = (
  λ h. ground (
    arith,
    h,
    bytes_eq_iff (to_lower w) (codes "live"),
    bytes_eq_iff (to_lower w) (codes "beta"),
    bytes_eq_iff (to_lower w) (codes "alpha"),
  ),
  λ e. rw e,
)
parse_iff w alpha = (
  λ h. ground (
    arith,
    h,
    bytes_eq_iff (to_lower w) (codes "live"),
    bytes_eq_iff (to_lower w) (codes "beta"),
    bytes_eq_iff (to_lower w) (codes "alpha"),
  ),
  λ e. rw e,
)

-- A word is a verdict exactly when, in lower case, it is the name of that verdict.
pub parse_playability_iff :
    (w : Bytes) (p : Playability)
    → (parse_playability w ≡ some p) ↔ (to_lower w ≡ playability_name p)
unfolding parse_playability playability_name bytes_eq
parse_playability_iff w playable = (
  λ h. ground (
    arith,
    h,
    bytes_eq_iff (to_lower w) (codes "playable"),
    bytes_eq_iff (to_lower w) (codes "ingame"),
    bytes_eq_iff (to_lower w) (codes "menus"),
    bytes_eq_iff (to_lower w) (codes "boots"),
    bytes_eq_iff (to_lower w) (codes "nothing"),
  ),
  λ e. rw e,
)
parse_playability_iff w in_game = (
  λ h. ground (
    arith,
    h,
    bytes_eq_iff (to_lower w) (codes "playable"),
    bytes_eq_iff (to_lower w) (codes "ingame"),
    bytes_eq_iff (to_lower w) (codes "menus"),
    bytes_eq_iff (to_lower w) (codes "boots"),
    bytes_eq_iff (to_lower w) (codes "nothing"),
  ),
  λ e. rw e,
)
parse_playability_iff w menus = (
  λ h. ground (
    arith,
    h,
    bytes_eq_iff (to_lower w) (codes "playable"),
    bytes_eq_iff (to_lower w) (codes "ingame"),
    bytes_eq_iff (to_lower w) (codes "menus"),
    bytes_eq_iff (to_lower w) (codes "boots"),
    bytes_eq_iff (to_lower w) (codes "nothing"),
  ),
  λ e. rw e,
)
parse_playability_iff w boots = (
  λ h. ground (
    arith,
    h,
    bytes_eq_iff (to_lower w) (codes "playable"),
    bytes_eq_iff (to_lower w) (codes "ingame"),
    bytes_eq_iff (to_lower w) (codes "menus"),
    bytes_eq_iff (to_lower w) (codes "boots"),
    bytes_eq_iff (to_lower w) (codes "nothing"),
  ),
  λ e. rw e,
)
parse_playability_iff w nothing = (
  λ h. ground (
    arith,
    h,
    bytes_eq_iff (to_lower w) (codes "playable"),
    bytes_eq_iff (to_lower w) (codes "ingame"),
    bytes_eq_iff (to_lower w) (codes "menus"),
    bytes_eq_iff (to_lower w) (codes "boots"),
    bytes_eq_iff (to_lower w) (codes "nothing"),
  ),
  λ e. rw e,
)
