-- ===== src/Outgoing/Sync.antt =====
-- The file and the entries in memory agree after every call, so that a restart loses nothing.
use openpak_client.Shared.{
  ◌≡◌, refl, sym, ◌∙◌, inl, inr, true, false, List, [], ◌∷◌, arith, ◌==◌, if◌then◌else◌, Bool-cases,
  length, keep_if-eq_of_length, All-keep_if, All, Bytes, bytes_eq, bytes_eq_iff, nat_eq, text_eq,
}
use openpak_client.Shared.Int.{ℤ}
use openpak_client.Shared.Disk.{Disk, read_file, write_file, read-write}
use openpak_client.Outgoing.{
  Entry, Store, file_path, print_entries, write_entries, parse_file, ensure_loaded, get, touch, add,
  other_code, remove_code, is_pending, prune_accepted, Call, adds, removes, prunes, step, run,
  restart,
}
use openpak_client.Outgoing.RoundTrip.{IsClean, parse_file-print}

pub record IsSynced (s : Store) : Type 0 where
  pub is_loaded : s.loaded ≡ true
  pub writable : s.disk.refuses (file_path s.config) ≡ false
  pub clean : All IsClean s.entries
  pub agree : parse_file (read_file s.disk (file_path s.config)) ≡ s.entries

-- What a caller has to give: a code that the file's lines can carry.
abbrev pub IsCleanCall : Call → Type 0
IsCleanCall (adds code now) = IsClean (record { friend_code = code; sent_unix_time = now })
IsCleanCall (removes code) = Unit
IsCleanCall (prunes accepted) = Unit

refuses-write : (d : Disk) (p c : Bytes) → (write_file d p c).0.refuses ≡ d.refuses
unfolding write_file
refuses-write d p c = ground arith

write_entries-IsSynced :
    (s : Store)
    → s.loaded ≡ true
    → s.disk.refuses (file_path s.config) ≡ false
    → All IsClean s.entries
    → IsSynced (write_entries s)
unfolding write_entries
write_entries-IsSynced s l w c = record {
  is_loaded = l;
  writable = rw refuses-write w;
  clean = c;
  agree =
      rw (read-write s.disk (file_path s.config) (file_path s.config) (print_entries s.entries) w) (
        rw ((bytes_eq_iff (file_path s.config) (file_path s.config)).1 refl)
          (parse_file-print s.entries c));
}

touch-IsClean :
    (code : Bytes) (now : ℤ) (es : List Entry)
    → IsClean (record { friend_code = code; sent_unix_time = now })
    → All IsClean es
    → All IsClean (touch code now es)
unfolding touch
touch-IsClean code now [] k h = (k, tt)
touch-IsClean code now (e ∷ es) k h = elim (Bool-cases (bytes_eq e.friend_code code)) [
  | inl hit ↦ rw hit (
    record {
      present = h.0.present;
      one_line = h.0.one_line;
      no_bar = h.0.no_bar;
      stripped = h.0.stripped;
      dated = k.dated;
      small = k.small;
    },
    h.1,
  )
  | inr miss ↦ rw miss (h.0, touch-IsClean code now es k h.1)
]

ensure_loaded-eq : (s : Store) → s.loaded ≡ true → ensure_loaded s ≡ s
unfolding ensure_loaded
ensure_loaded-eq s h = ground arith

rewrite_entries :
    (s : Store) (es : List Entry)
    → IsSynced s
    → All IsClean es
    → IsSynced (write_entries (record s { entries = es }))
rewrite_entries s es v c =
    write_entries-IsSynced (record s { entries = es }) v.is_loaded v.writable c

prune-IsSynced :
    (s : Store) (es : List Entry)
    → IsSynced s
    → All IsClean es
    → (length es ≡ length s.entries → es ≡ s.entries)
    → IsSynced (
        let u = record s { entries = es } in
        if length es == length s.entries then u else write_entries u)
prune-IsSynced s es v c same = elim (Bool-cases (length es == length s.entries)) [
  | inl e ↦ rw e (record {
    is_loaded = v.is_loaded;
    writable = v.writable;
    clean = c;
    agree = v.agree ∙ sym (same (ground arith));
  })
  | inr e ↦ rw e (rewrite_entries s es v c)
]

pub step-IsSynced : (c : Call) (s : Store) → IsCleanCall c → IsSynced s → IsSynced (step c s)
unfolding step add remove_code prune_accepted
step-IsSynced (adds code now) s k v =
    rw (ensure_loaded-eq s v.is_loaded)
      (rewrite_entries s _ v (touch-IsClean code now s.entries k v.clean))
step-IsSynced (removes code) s k v =
    rw (ensure_loaded-eq s v.is_loaded)
      (rewrite_entries s _ v (All-keep_if IsClean (other_code code) s.entries v.clean))
step-IsSynced (prunes accepted) s k v = rw (ensure_loaded-eq s v.is_loaded) (
    prune-IsSynced s _ v (All-keep_if IsClean (is_pending accepted) s.entries v.clean)
      (keep_if-eq_of_length (is_pending accepted) s.entries))

run-IsSynced : (cs : List Call) (s : Store) → All IsCleanCall cs → IsSynced s → IsSynced (run cs s)
unfolding run
run-IsSynced [] s k v = v
run-IsSynced (c ∷ cs) s k v = run-IsSynced cs (step c s) k.1 (step-IsSynced c s k.0 v)

get-restart : (s : Store) → IsSynced s → (get (restart s)).1 ≡ (get s).1
unfolding get ensure_loaded
get-restart s v = rw (v.is_loaded, v.agree)

-- After any history of calls a restarted client lists the same requests, in the same order, if the list
-- and the file agreed at first, the file can be written and the codes that are added fit its lines.
pub get-restart-run :
    (cs : List Call) (s : Store)
    → IsSynced s
    → All IsCleanCall cs
    → (get (restart (run cs s))).1 ≡ (get (run cs s)).1
get-restart-run cs s v k = get-restart (run cs s) (run-IsSynced cs s k v)
