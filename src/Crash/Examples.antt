-- ===== src/Crash/Examples.antt =====
-- The theorems about crash reports at concrete ones.
use openpak_client.Shared.{
  ◌≤◌, ◌≡◌, refl, true, false, Option, none, some, List, [], ◌∷◌, ◌++◌, arith, length, Bytes, codes,
  is_nil, if◌then◌else◌,
}
use openpak_client.Network.Json.{Json, object, end}
use openpak_client.Crash.{
  Options, State, Value, build_meta, install, set_title_id, record_report, pending, directory_of,
  max_pending,
}
use openpak_client.Crash.Texts.{tail_lines}
use openpak_client.Crash.Texts.Tails.{IsTail, tail_lines-IsTail}
use openpak_client.Crash.Texts.Numbers.{has_no_nul}
use openpak_client.Crash.Pending.{record_report-pending}
use openpak_client.Crash.Signals.{segv, signal_name, signal_meta}
use openpak_client.Crash.Signals.Finishing.{
  print_object, signal_fields, map_fields, report_members, signal_meta-build_meta,
}

abbrev log : Bytes
log = codes "one\ntwo\nthree\n"

tail_lines-IsTail_example : IsTail log 2 (tail_lines log 2)
tail_lines-IsTail_example = tail_lines-IsTail log 2 (omega arith)

two_lines : tail_lines log 2 ≡ codes "two\nthree\n"
unfolding tail_lines
two_lines = refl

abbrev quote : Bytes → Bytes
quote t = b'"' ∷ (t ++ b'"' ∷ [])

abbrev dump : List (Bytes × Value) → Bytes
dump ms = print_object quote ms

abbrev parse : Bytes → Option Json
parse b = if is_nil b then none else some (object end)

abbrev options : Options
options = record { source = codes "eden"; version = codes "1"; log_file = [] }

abbrev blank : State
blank = record {
  options = options;
  dir = [];
  title = 0;
  installed = false;
  never = false;
  recorded = false;
  sequence = 0;
  dir_c = [];
  log_c = [];
  meta_prefix = [];
  config = codes "c";
  disk = record { files = []; refuses = λ p. false };
  stuck = λ p. false;
  blind = false;
}

clean :
    has_no_nul (build_meta parse dump (codes "eden") (codes "1") (codes "Linux") 0 [] [] []) ≡ true
unfolding build_meta
clean = refl

short : length (build_meta parse dump (codes "eden") (codes "1") (codes "Linux") 0 [] [] []) ≤ 2048
unfolding build_meta
short = omega arith

signal_meta-build_meta_example :
    (signal_meta segv 4096 (set_title_id 7 (install parse dump options (codes "Linux") blank))
      ≡ print_object quote
          (report_members (codes "eden") (codes "1") (codes "Linux") 7 segv (signal_fields 4096)))
    × (build_meta parse dump
          (codes "eden")
          (codes "1")
          (codes "Linux")
          7
          (signal_name segv)
          (codes "Fatal signal " ++ signal_name segv)
          (signal_fields 4096)
        ≡ print_object quote
            (report_members (codes "eden") (codes "1") (codes "Linux") 7 segv (map_fields 4096)))
signal_meta-build_meta_example =
    signal_meta-build_meta parse dump quote (λ t h. refl) (λ ms. refl) options (codes "Linux") blank
      segv 4096 7 (omega arith) clean short

abbrev ready : State
ready = record blank {
  installed = true;
  disk = record {
    files =
        (codes "c/crash-reports/1.json", codes "{}")
        ∷ (codes "c/crash-reports/2.json", codes "{}")
        ∷ (codes "c/crash-reports/3.json", codes "{}")
        ∷ (codes "c/crash-reports/4.json", codes "{}")
        ∷ (codes "c/crash-reports/5.json", codes "{}")
        ∷ [];
    refuses = λ p. false;
  };
}

record_report-pending_example :
    length
      (pending parse dump ready.stuck ready.blind
        (directory_of ready)
        (record_report parse dump
          (codes "e")
          (codes "m")
          (codes "d")
          []
          0
          (codes "Linux")
          9
          1
          ready).disk).0
    ≤ max_pending
record_report-pending_example =
    record_report-pending parse dump (codes "e") (codes "m") (codes "d") [] 0 (codes "Linux") 9 1
      ready refl refl refl (λ p. refl) refl
