-- ===== src/Account/Examples.antt =====
-- The theorems about the account at a concrete store.
use openpak_client.Shared.{
  some, ◌≡◌, refl, sym, ◌≢◌, true, false, [], ◌∷◌, arith, codes, bytes_eq, bytes_eq_iff, nat_eq,
  text_eq, cut_at, starts_with, ends_with,
}
use openpak_client.Shared.Decimal.{to_string}
use openpak_client.Shared.Disk.{path_append, file_at}
use openpak_client.Platform.{strip_spaces, split_string}
use openpak_client.Account.{
  Account, Store, print_account, file_path, directory, current, get_generation, save_bearer_only,
  save, forget, holds, clears, forgets, step, restart, holder_of, value_of, entry_name, profile_of,
  ensure_loaded,
}
use openpak_client.Account.RoundTrip.{IsClean}
use openpak_client.Account.Profiles.{file_at-step, current-restart-save, save_bearer_only-other}
use openpak_client.Account.Generation.{IsOpen, calls, reads, act, run, current-run_generation}
use openpak_client.Account.Holder.{IsSignedIn, holder_of_sound}

abbrev ana : Account
ana = record {
  pid = 7;
  username = codes "ana";
  friend_code = codes "SW-1";
  token = codes "t";
  bearer = codes "b";
}

ana-IsClean : IsClean ana
unfolding strip_spaces
ana-IsClean = record {
  pid = omega arith;
  username = record { one_line = omega arith; stripped = refl };
  friend_code = record { one_line = omega arith; stripped = refl };
  token = record { one_line = omega arith; stripped = refl };
  bearer = record { one_line = omega arith; stripped = refl };
}

-- Two profiles; the first is open and signed in.
abbrev home : Store
home = record {
  loaded = true;
  profile = codes "p";
  account = ana;
  generation = 3;
  disk = record {
    files = (codes "c/openpak/account-p.txt", codes "pid=7\nusername=ana\n") ∷ [];
    refuses = λ _. false;
  };
  config = codes "c";
}

home-IsOpen : IsOpen (codes "p") home
home-IsOpen = record { is_loaded = refl; is_active = refl; in_u64 = omega arith }

current-restart-save_example : current (codes "q") (restart (save (codes "q") ana home)) ≡ ana
current-restart-save_example = current-restart-save (codes "q") ana home ana-IsClean refl

p-ne-q : codes "p" ≢ codes "q"
p-ne-q e = ground (arith, bytes_eq_iff (codes "p") (codes "q"))

file_at-step_example :
    file_at (step (codes "p") clears home).disk (file_path (codes "c") (codes "q"))
    ≡ file_at home.disk (file_path (codes "c") (codes "q"))
file_at-step_example = file_at-step (codes "p") (codes "q") clears home (λ e. cc) p-ne-q

save_bearer_only-other_example :
    (file_at
        (save_bearer_only (codes "ben") (codes "x") home).disk
        (file_path (codes "c") (codes "p"))
      ≡ some (
          print_account (record {
            pid = 0;
            username = codes "ben";
            friend_code = [];
            token = [];
            bearer = codes "x";
          })))
    × (current (codes "q") (save_bearer_only (codes "ben") (codes "x") home)
        ≡ current (codes "q") home)
save_bearer_only-other_example =
    save_bearer_only-other (codes "q") (codes "ben") (codes "x") home (λ e. cc) (λ e. cc)
      (λ e. p-ne-q (sym e)) refl

current-run_generation_example :
    current (codes "p") (run (calls (codes "q") forgets ∷ reads (codes "p") ∷ []) home)
    ≡ current (codes "p") home
unfolding run act step forget get_generation ensure_loaded bytes_eq
current-run_generation_example =
    current-run_generation (codes "p") (codes "p")
      (calls (codes "q") forgets ∷ reads (codes "p") ∷ []) home home-IsOpen (omega arith) refl

holder : holder_of 7 (codes "q") home ≡ codes "p"
unfolding holder_of directory path_append bytes_eq entry_name starts_with cut_at profile_of holds
    ends_with value_of split_string strip_spaces to_string
holder = refl

holder_of_sound_example :
    (holder_of 7 (codes "q") home ≢ codes "q")
    × IsSignedIn home 7 (holder_of 7 (codes "q") home) home.disk.files
holder_of_sound_example = holder_of_sound 7 (codes "q") home (rw holder (λ e. cc))
