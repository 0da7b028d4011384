-- ===== src/Outgoing.antt =====
-- client/openpak/outgoing_requests.cpp: the local record of friend requests that were sent. The
-- lock is held over each whole operation, so an operation is a function of the store; the clock's
-- answer is an argument.
pub mod RoundTrip
pub mod Sync
pub mod Entries
mod Examples
use openpak_client.Shared.{
  Bool, true, false, not, Option, none, some, List, [], ◌∷◌, ◌++◌, ◌==◌, if◌then◌else◌, value_or,
  ◌>>=◌, ◌>>◌, guard, length, is_nil, any_of, keep_if, Bytes, codes, bytes_eq, nat_eq, text_eq,
  cut_at,
}
use openpak_client.Shared.Decimal.{int_to_string, stoll}
use openpak_client.Shared.Int.{ℤ, pos}
use openpak_client.Shared.Disk.{Disk, path_append, read_file, write_file}
use openpak_client.Platform.{split_string, strip_spaces}

pub record Entry : Type 0 where
  pub friend_code : Bytes
  pub sent_unix_time : ℤ

-- `g_loaded` and `g_entries`, with the disk and `Platform::ConfigDir()`.
pub record Store : Type 0 where
  pub loaded : Bool
  pub entries : List Entry
  pub disk : Disk
  pub config : Bytes

pub file_path : Bytes → Bytes
file_path config = path_append config (codes "outgoing_requests.txt")

-- One line of the file, `{}|{}\n`.
print_entry : Entry → Bytes
print_entry e = e.friend_code ++ (b'|' ∷ (int_to_string e.sent_unix_time ++ (b'\n' ∷ [])))

pub print_entries : List Entry → Bytes
unfolding print_entry
print_entries [] = []
print_entries (e ∷ es) = print_entry e ++ print_entries es

pub write_entries : Store → Store
unfolding print_entries file_path
write_entries s = record s {
  disk = (write_file s.disk (file_path s.config) (print_entries s.entries)).0;
}

-- A line without a bar, or with none before it, is no entry; a time that does not parse is 0.
parse_parts : Bytes → Bytes → Option Entry
parse_parts code time = do
  guard (not (is_nil code))
  guard (not (is_nil (strip_spaces code)))
  some (record { friend_code = strip_spaces code; sent_unix_time = value_or (stoll time) (pos 0) })

parse_line : Bytes → Option Entry
unfolding parse_parts
parse_line line = do (code, time) ← cut_at b'|' line; parse_parts code time

parse_lines : List Bytes → List Entry
unfolding parse_line
parse_lines [] = []
parse_lines (line ∷ lines) =
    let rest = parse_lines lines in elim (parse_line line) [ none ↦ rest | some e ↦ e ∷ rest ]

pub parse_file : Bytes → List Entry
unfolding parse_lines
parse_file contents = parse_lines (split_string contents b'\n')

pub ensure_loaded : Store → Store
unfolding parse_file file_path
ensure_loaded s = if s.loaded then s else record s {
  loaded = true;
  entries = s.entries ++ parse_file (read_file s.disk (file_path s.config));
}

-- `Get`.
pub get : Store → Store × List Entry
get s = let t = ensure_loaded s in (t, t.entries)

-- The entry of a code gets the new time, and a code with no entry gets one at the end.
pub touch : Bytes → ℤ → List Entry → List Entry
touch code now [] = record { friend_code = code; sent_unix_time = now } ∷ []
touch code now (e ∷ es) =
    let rest = touch code now es in
    if bytes_eq e.friend_code code then record e { sent_unix_time = now } ∷ es else e ∷ rest

-- `Add`.
pub add : Bytes → ℤ → Store → Store
add code now s =
    let t = ensure_loaded s in write_entries (record t { entries = touch code now t.entries })

abbrev pub other_code : Bytes → Entry → Bool
other_code code e = not (bytes_eq e.friend_code code)

-- `Remove`.
pub remove_code : Bytes → Store → Store
remove_code code s =
    let t = ensure_loaded s in
    write_entries (record t { entries = keep_if (other_code code) t.entries })

abbrev pub is_pending : List Bytes → Entry → Bool
is_pending accepted e = not (any_of (λ c. bytes_eq c e.friend_code) accepted)

-- `PruneAccepted`: the file is written only when an entry went.
pub prune_accepted : List Bytes → Store → Store
prune_accepted accepted s =
    let t = ensure_loaded s in
    let u = record t { entries = keep_if (is_pending accepted) t.entries } in
    if length u.entries == length t.entries then u else write_entries u

-- The calls that change the store, with the clock's answer for the one that reads the clock.
pub data Call : Type 0 where
  adds : Bytes → ℤ → Call
  removes : Bytes → Call
  prunes : List Bytes → Call

pub step : Call → Store → Store
step (adds code now) s = add code now s
step (removes code) s = remove_code code s
step (prunes accepted) s = prune_accepted accepted s

pub run : List Call → Store → Store
run [] s = s
run (c ∷ cs) s = run cs (step c s)

-- A new process over the same files.
abbrev pub restart : Store → Store
restart s = record s { loaded = false; entries = [] }
