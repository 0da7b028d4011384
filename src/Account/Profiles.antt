-- ===== src/Account/Profiles.antt =====
-- Whose account a call changes.
use openpak_client.Shared.{
  ◌≡◌, refl, sym, ap, ◌∙◌, ◌≢◌, inl, inr, Bool, false, not, ◌&&◌, Option, none, some, [], ◌∷◌,
  arith, if◌then◌else◌, Bool-cases, Option-cases, value_or, is_some, Bytes, bytes_eq, bytes_eq_iff,
  nat_eq, text_eq,
}
use openpak_client.Shared.Maps.{remove, lookup-insert_self}
use openpak_client.Shared.Disk.{
  file_at-write, file_at-remove, file_at-rename, refuses-rename, refuses-write, file_at-write_self,
  Disk, file_at, exists, read_file, write_file, rename_file,
}
use openpak_client.Account.{
  Account, Store, shared_file_path, file_path, parse_account, print_account, migrate, ensure_loaded,
  current, write_account, save_bearer_only, save, clear, forget, Call, saves, clears, forgets, step,
  restart,
}
use openpak_client.Account.RoundTrip.{IsClean, parse_account-print}
use openpak_client.Account.Paths.{file_path-ne, file_path-ne-shared}

-- Opening a profile leaves every other profile's file as it was.
file_at-migrate :
    (config p q : Bytes) (d : Disk)
    → q ≢ []
    → p ≢ q
    → file_at (migrate config p d) (file_path config q) ≡ file_at d (file_path config q)
unfolding migrate
file_at-migrate config [] q d hq h = refl
file_at-migrate config (c ∷ p) q d hq h =
    elim (Bool-cases
      (not (exists d (file_path config (c ∷ p))) && exists d (shared_file_path config))) [
        | inl e ↦ rw e (
            file_at-rename d (shared_file_path config) (file_path config (c ∷ p))
              (file_path config q) (λ s. file_path-ne-shared config q hq (sym s))
              (file_path-ne config (c ∷ p) q (λ n. cc) hq h))
        | inr e ↦ rw e
      ]

refuses-migrate : (config p : Bytes) (d : Disk) → (migrate config p d).refuses ≡ d.refuses
unfolding migrate
refuses-migrate config p d =
    ground (arith, refuses-rename d (shared_file_path config) (file_path config p))

-- What opening a profile leaves: the profile is the one that is asked for.
pub ensure_loaded-profile : (p : Bytes) (s : Store) → (ensure_loaded p s).profile ≡ p
unfolding ensure_loaded
ensure_loaded-profile p s = ground (arith, bytes_eq_iff p s.profile)

ensure_loaded-config : (p : Bytes) (s : Store) → (ensure_loaded p s).config ≡ s.config
unfolding ensure_loaded
ensure_loaded-config p s = ground arith

ensure_loaded-refuses : (p : Bytes) (s : Store) → (ensure_loaded p s).disk.refuses ≡ s.disk.refuses
unfolding ensure_loaded
ensure_loaded-refuses p s = ground (arith, refuses-migrate s.config p s.disk)

file_at-ensure_loaded :
    (p q : Bytes) (s : Store)
    → q ≢ []
    → p ≢ q
    → file_at (ensure_loaded p s).disk (file_path s.config q)
      ≡ file_at s.disk (file_path s.config q)
unfolding ensure_loaded
file_at-ensure_loaded p q s hq h = ground (arith, file_at-migrate s.config p q s.disk hq h)

path_ne : (config p q : Bytes) → q ≢ [] → p ≢ q → file_path config p ≢ file_path config q
path_ne config [] q hq h = λ e. file_path-ne-shared config q hq (unfold file_path in sym e)
path_ne config (c ∷ p) q hq h = file_path-ne config (c ∷ p) q (λ n. cc) hq h

-- A call that one profile makes, whether it saves, clears or forgets, leaves the file of every other profile
-- that has a name as it was.
pub file_at-step :
    (p q : Bytes) (c : Call) (s : Store)
    → q ≢ []
    → p ≢ q
    → file_at (step p c s).disk (file_path s.config q) ≡ file_at s.disk (file_path s.config q)
unfolding step save clear forget write_account
file_at-step p q (saves a) s hq h =
    rw (ensure_loaded-config, ensure_loaded-profile)
      (file_at-write (ensure_loaded p s).disk (file_path s.config p) (file_path s.config q)
          (print_account a) (path_ne s.config p q hq h)
        ∙ file_at-ensure_loaded p q s hq h)
file_at-step p q clears s hq h =
    rw (ensure_loaded-config, ensure_loaded-profile)
      (file_at-remove (ensure_loaded p s).disk (file_path s.config p) (file_path s.config q)
          (path_ne s.config p q hq h)
        ∙ file_at-ensure_loaded p q s hq h)
file_at-step p q forgets s hq h =
    let same =
      file_at-remove s.disk (file_path s.config p) (file_path s.config q)
        (path_ne s.config p q hq h) in
    elim (Bool-cases (bytes_eq p s.profile)) [ inl e ↦ rw e same | inr e ↦ rw e same ]

-- The file that a named profile opens: its own, else the shared one, moved there.
opened : Option Bytes → Bool → Option Bytes → Option Bytes
opened (some c) refused shared = some c
opened none refused shared = if refused then none else shared

rename_opened :
    (d : Disk) (a b : Bytes)
    → file_at d b ≡ none
    → file_at (rename_file d a b).0 b ≡ (if d.refuses b then none else file_at d a)
unfolding rename_file
rename_opened d a b h = elim (Option-cases (file_at d a)) [
  | inl e ↦ rw (e, rename_file) (ground arith)
  | inr (c, e) ↦ rw (e, rename_file) (ground (arith, lookup-insert_self b c (remove a d.files)))
]

file_at-opened :
    (config q : Bytes) (d : Disk)
    → q ≢ []
    → file_at (migrate config q d) (file_path config q)
      ≡ opened
          (file_at d (file_path config q))
          (d.refuses (file_path config q))
          (file_at d (shared_file_path config))
unfolding migrate opened exists
file_at-opened config [] d h = absurd (h refl)
file_at-opened config (x ∷ q) d h = elim (Option-cases (file_at d (file_path config (x ∷ q)))) [
  | inr (c, e) ↦ rw (e, opened) e
  | inl e ↦
      rw (e, opened)
        (elim (Option-cases (file_at d (shared_file_path config))) [
          | inl f ↦ rw f (ground arith)
          | inr (c, f) ↦
              rw (f, is_some)
                (rename_opened d (shared_file_path config) (file_path config (x ∷ q)) e ∙ rw f)
        ])
]

read-migrate :
    (config p c : Bytes) (d : Disk)
    → file_at d (file_path config p) ≡ some c
    → read_file (migrate config p d) (file_path config p) ≡ c
unfolding migrate read_file exists
read-migrate config p c d h = ground arith

-- What `Save` stores for a profile is what a new process loads for it, if its values are lines with no
-- blanks at their ends, the pid is a `u64` and the file can be written.
pub current-restart-save :
    (p : Bytes) (a : Account) (s : Store)
    → IsClean a
    → s.disk.refuses (file_path s.config p) ≡ false
    → current p (restart (save p a s)) ≡ a
unfolding current ensure_loaded save write_account
current-restart-save p a s c w =
    rw (ensure_loaded-config, ensure_loaded-profile)
      (ap parse_account (
          read-migrate s.config p (print_account a)
            (write_file (ensure_loaded p s).disk (file_path s.config p) (print_account a)).0
            (file_at-write_self (ensure_loaded p s).disk (file_path s.config p) (print_account a)
              (rw ensure_loaded-refuses w)))
        ∙ parse_account-print a c)

current-other :
    (q : Bytes) (s : Store)
    → q ≢ s.profile
    → current q s ≡ parse_account (read_file (migrate s.config q s.disk) (file_path s.config q))
unfolding current ensure_loaded
current-other q s h = ground (arith, bytes_eq_iff q s.profile)

current-opened :
    (q : Bytes) (s : Store)
    → q ≢ []
    → q ≢ s.profile
    → current q s
      ≡ parse_account (
          value_or
            (opened
              (file_at s.disk (file_path s.config q))
              (s.disk.refuses (file_path s.config q))
              (file_at s.disk (shared_file_path s.config)))
            [])
unfolding read_file
current-opened q s hq h =
    current-other q s h
    ∙ ap (λ (f : Option Bytes). parse_account (value_or f [])) (file_at-opened s.config q s.disk hq)

same_opened :
    (config p q c : Bytes) (d : Disk)
    → q ≢ []
    → p ≢ []
    → p ≢ q
    → let e = (write_file d (file_path config p) c).0 in
      opened
        (file_at e (file_path config q))
        (e.refuses (file_path config q))
        (file_at e (shared_file_path config))
      ≡ opened
          (file_at d (file_path config q))
          (d.refuses (file_path config q))
          (file_at d (shared_file_path config))
same_opened config p q c d hq hp h = rw (
  file_at-write d (file_path config p) (file_path config q) c (path_ne config p q hq h),
  file_at-write d (file_path config p) (shared_file_path config) c
      (file_path-ne-shared config p hp),
  refuses-write,
)

-- `SaveBearerOnly` signs in the profile that is loaded, where its file can be written: the file then holds
-- the new name and bearer with no pid. It leaves the active profile's account as it was, where both profiles
-- have a name and the host has switched from the one to the other since the store was loaded.
pub save_bearer_only-other :
    (q username bearer : Bytes) (s : Store)
    → q ≢ []
    → s.profile ≢ []
    → q ≢ s.profile
    → s.disk.refuses (file_path s.config s.profile) ≡ false
    → (file_at (save_bearer_only username bearer s).disk (file_path s.config s.profile)
        ≡ some (
            print_account (record {
              pid = 0;
              username = username;
              friend_code = [];
              token = [];
              bearer = bearer;
            })))
      × (current q (save_bearer_only username bearer s) ≡ current q s)
unfolding save_bearer_only write_account
save_bearer_only-other q username bearer s hq hp h free = (
  file_at-write_self s.disk (file_path s.config s.profile) _ free,
  current-opened q (save_bearer_only username bearer s) hq h
      ∙ (ap (λ (f : Option Bytes). parse_account (value_or f []))
            (same_opened s.config s.profile q _ s.disk hq hp (λ e. h (sym e)))
          ∙ sym (current-opened q s hq h)),
)
