-- ===== src/Outgoing/Examples.antt =====
-- The theorems about sent requests at concrete stores.
use openpak_client.Shared.{
  ℕ, ◌≡◌, refl, true, false, List, [], ◌∷◌, arith, Bytes, codes, nat_eq, text_eq, cut_at,
}
use openpak_client.Shared.Maps.{lookup}
use openpak_client.Shared.Decimal.{int_to_string}
use openpak_client.Shared.Int.{pos}
use openpak_client.Shared.Disk.{read_file}
use openpak_client.Platform.{strip_spaces, split_string}
use openpak_client.Outgoing.{
  Entry, Store, get, print_entries, parse_file, Call, adds, removes, prunes, run, restart,
}
use openpak_client.Outgoing.RoundTrip.{IsClean}
use openpak_client.Outgoing.Sync.{IsSynced, get-restart-run}

abbrev blank_store : Store
blank_store = record {
  loaded = true;
  entries = [];
  disk = record { files = []; refuses = λ _. false };
  config = codes "cfg";
}

blank_store-IsSynced : IsSynced blank_store
unfolding parse_file read_file lookup split_string cut_at
blank_store-IsSynced = record { is_loaded = refl; writable = refl; clean = tt; agree = refl }

abbrev sent : Bytes → ℕ → Entry
sent code now = record { friend_code = code; sent_unix_time = pos now }

sent-IsClean : IsClean (sent (codes "SW-1") 7)
unfolding strip_spaces
sent-IsClean = record {
  present = λ e. cc;
  one_line = omega arith;
  no_bar = omega arith;
  stripped = refl;
  dated = refl;
  small = omega arith;
}

abbrev history : List Call
history = adds (codes "SW-1") (pos 7) ∷ removes (codes "SW-2") ∷ prunes (codes "SW-3" ∷ []) ∷ []

get-restart-run_example :
    (get (restart (run history blank_store))).1 ≡ (get (run history blank_store)).1
get-restart-run_example =
    get-restart-run history blank_store blank_store-IsSynced (sent-IsClean, (tt, (tt, tt)))

-- The file of one request, byte by byte.
printed : print_entries (sent (codes "SW-1") 7 ∷ []) ≡ codes "SW-1|7\n"
unfolding print_entries int_to_string
printed = refl
