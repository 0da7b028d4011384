-- ===== src/Account.antt =====
-- client/openpak/account.cpp: the signed-in account of the active profile, kept in a file of
-- key=value lines. Each call holds the lock throughout, so a call is a function of the store;
-- `active` is what `Platform::ProfileId()` answers during the call.
pub mod RoundTrip
pub mod Paths
pub mod Profiles
pub mod Generation
pub mod Holder
mod Examples
use openpak_client.Shared.{
  ℕ, ◌+◌, ◌-◌, ◌%◌, ◌^◌, Bool, true, false, not, ◌&&◌, Option, none, some, List, [], ◌∷◌, ◌++◌,
  ◌==◌, if◌then◌else◌, value_or, is_some, ◌>>=◌, ◌>>◌, guard, length, take, drop, is_nil, Bytes,
  codes, bytes_eq, nat_eq, text_eq, cut_at, starts_with, ends_with,
}
use openpak_client.Shared.Decimal.{to_string, stoull}
use openpak_client.Shared.Disk.{
  Disk, path_append, exists, read_file, write_file, remove_file, rename_file,
}
use openpak_client.Platform.{split_string, strip_spaces}

-- `g_pid`, `g_username`, `g_friend_code`, `g_token` and `g_bearer`.
pub record Account : Type 0 where
  pub pid : ℕ
  pub username : Bytes
  pub friend_code : Bytes
  pub token : Bytes
  pub bearer : Bytes

abbrev pub signed_out : Account
signed_out = record { pid = 0; username = []; friend_code = []; token = []; bearer = [] }

-- The file's state, with the disk and `Platform::ConfigDir()`.
pub record Store : Type 0 where
  pub loaded : Bool
  pub profile : Bytes
  pub account : Account
  pub generation : ℕ
  pub disk : Disk
  pub config : Bytes

pub shared_file_path : Bytes → Bytes
shared_file_path config = path_append config (codes "openpak_account.txt")

pub directory : Bytes → Bytes
directory config = path_append config (codes "openpak")

abbrev pub file_name : Bytes → Bytes
file_name profile = codes "account-" ++ (profile ++ codes ".txt")

pub file_path : Bytes → Bytes → Bytes
unfolding shared_file_path directory
file_path config profile =
    if is_nil profile
    then shared_file_path config
    else path_append (directory config) (file_name profile)

-- `ValueOf`: the value of the first line with the wanted key.
value_in : List Bytes → Bytes → Bytes
value_in [] wanted = []
value_in (line ∷ lines) wanted =
    let rest = value_in lines wanted in
    elim (cut_at b'=' line) [
      | none ↦ rest
      | some (key, value) ↦ if bytes_eq (strip_spaces key) wanted then strip_spaces value else rest
    ]

pub value_of : Bytes → Bytes → Bytes
unfolding value_in
value_of contents wanted = value_in (split_string contents b'\n') wanted

-- One `key=value` of the file; an unknown key is passed over, and a pid that does not parse is 0.
set_field : Account → Bytes → Bytes → Account
set_field a key value =
    if bytes_eq key (codes "pid")
    then record a { pid = value_or (stoull value) 0 }
    else if bytes_eq key (codes "username")
    then record a { username = value }
    else if bytes_eq key (codes "friend_code")
    then record a { friend_code = value }
    else if bytes_eq key (codes "token")
    then record a { token = value }
    else if bytes_eq key (codes "bearer")
    then record a { bearer = value }
    else a

-- A line with no `=`, or with nothing before it, is passed over.
read_line : Account → Bytes → Account
unfolding set_field
read_line a line = elim (cut_at b'=' line) [
  | none ↦ a
  | some (key, value) ↦
      if is_nil key then a else set_field a (strip_spaces key) (strip_spaces value)
]

read_lines : Account → List Bytes → Account
unfolding read_line
read_lines a [] = a
read_lines a (line ∷ lines) = read_lines (read_line a line) lines

pub parse_account : Bytes → Account
unfolding read_lines
parse_account contents = read_lines signed_out (split_string contents b'\n')

print_field : Bytes → Bytes → Bytes
print_field key value = key ++ (b'=' ∷ (value ++ (b'\n' ∷ [])))

pub print_account : Account → Bytes
unfolding print_field
print_account a =
    print_field (codes "pid") (to_string a.pid)
    ++ (print_field (codes "username") a.username
        ++ (print_field (codes "friend_code") a.friend_code
            ++ (print_field (codes "token") a.token ++ print_field (codes "bearer") a.bearer)))

-- `++g_generation` on a `u64`.
abbrev pub bump : ℕ → ℕ
bump g = (g + 1) % 2 ^ 64

-- The account from before profiles goes to the profile that is open at the first launch since.
pub migrate : Bytes → Bytes → Disk → Disk
migrate config active d =
    if not (is_nil active)
      && (not (exists d (file_path config active)) && exists d (shared_file_path config))
    then (rename_file d (shared_file_path config) (file_path config active)).0
    else d

-- `EnsureLoaded`: what is loaded is dropped when it is another profile's.
load : Bytes → Store → Store
load active s =
    let d = migrate s.config active s.disk in
    record s {
      loaded = true;
      profile = active;
      account = parse_account (read_file d (file_path s.config active));
      generation = if s.loaded then bump s.generation else s.generation;
      disk = d;
    }

pub ensure_loaded : Bytes → Store → Store
unfolding load
ensure_loaded active s = if s.loaded && bytes_eq active s.profile then s else load active s

-- `IsLinked`, `GetPid`, `GetUsername`, … and `GetGeneration` read the store that this returns.
pub current : Bytes → Store → Account
current active s = (ensure_loaded active s).account

pub is_linked : Bytes → Store → Bool
is_linked active s = not ((current active s).pid == 0)

pub has_bearer : Bytes → Store → Bool
has_bearer active s = not (is_nil (current active s).bearer)

pub get_generation : Bytes → Store → ℕ
get_generation active s = (ensure_loaded active s).generation

pub write_account : Store → Store
write_account s = record s {
  disk = (write_file s.disk (file_path s.config s.profile) (print_account s.account)).0;
}

-- `SaveBearerOnly`, which asks for no profile.
pub save_bearer_only : Bytes → Bytes → Store → Store
save_bearer_only username bearer s = write_account (record s {
  loaded = true;
  account = record { pid = 0; username = username; friend_code = []; token = []; bearer = bearer };
  generation = bump s.generation;
})

-- `Save`.
pub save : Bytes → Account → Store → Store
save active a s =
    let t = ensure_loaded active s in
    write_account (record t { account = a; generation = bump t.generation })

-- `Clear`.
pub clear : Bytes → Store → Store
clear active s =
    let t = ensure_loaded active s in
    record t {
      account = signed_out;
      generation = bump t.generation;
      disk = remove_file t.disk (file_path t.config t.profile);
    }

-- `Forget`.
pub forget : Bytes → Store → Store
forget p s =
    let t = record s { disk = remove_file s.disk (file_path s.config p) } in
    if bytes_eq p s.profile then record t { loaded = false; generation = bump s.generation } else t

-- `UsernameOf` and `BearerOf`.
pub username_of : Bytes → Store → Bytes
username_of p s = value_of (read_file s.disk (file_path s.config p)) (codes "username")

pub bearer_of : Bytes → Store → Bytes
bearer_of p s = value_of (read_file s.disk (file_path s.config p)) (codes "bearer")

-- The name of a file of the directory, for a path of the disk that is one.
pub entry_name : Bytes → Bytes → Option Bytes
entry_name dir p =
    let base = dir ++ (b'/' ∷ []) in
    let name = drop (length base) p in
    if starts_with base p && not (is_some (cut_at b'/' name)) then some name else none

-- `name.substr(8, name.size() - 12)` of a name with the prefix and the suffix of an account file.
pub profile_of : Bytes → Option Bytes
profile_of name =
    if starts_with (codes "account-") name && ends_with (codes ".txt") name
    then some (take (length name - 12) (drop 8 name))
    else none

-- Whether a file of the directory makes its profile the holder.
pub holds : Bytes → ℕ → Bytes → Bytes × Bytes → Option Bytes
unfolding entry_name profile_of
holds dir pid except (p, contents) = do
  name ← entry_name dir p
  profile ← profile_of name
  guard (not (bytes_eq profile except))
  guard (bytes_eq (value_of contents (codes "pid")) (to_string pid))
  some profile

pub find_holder : Bytes → ℕ → Bytes → List (Bytes × Bytes) → Bytes
find_holder dir pid except [] = []
find_holder dir pid except (f ∷ files) =
    let rest = find_holder dir pid except files in
    elim (holds dir pid except f) [ none ↦ rest | some profile ↦ profile ]

-- `HolderOf`; the files come in the order in which the directory lists them.
pub holder_of : ℕ → Bytes → Store → Bytes
unfolding find_holder
holder_of pid except s = find_holder (directory s.config) pid except s.disk.files

-- The calls that one profile makes, by name or as the active one.
pub data Call : Type 0 where
  saves : Account → Call
  clears forgets : Call

pub step : Bytes → Call → Store → Store
step p (saves a) s = save p a s
step p clears s = clear p s
step p forgets s = forget p s

-- A new process over the same files.
abbrev pub restart : Store → Store
restart s = record s { loaded = false; profile = []; account = signed_out; generation = 0 }
