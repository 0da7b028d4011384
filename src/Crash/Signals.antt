-- ===== src/Crash/Signals.antt =====
-- The report that a fatal signal leaves: `OnSignal` and `WriteSignalReport` of crash_reports.cpp, up to the handler
-- that had the signal before.
pub mod Plain
pub mod Finishing
use openpak_client.Shared.{
  ℕ, ◌-◌, true, not, ◌&&◌, List, [], ◌∷◌, ◌++◌, ◌==◌, if◌then◌else◌, is_nil, Bytes, codes,
}
use openpak_client.Shared.Disk.{read_file, write_file, rename_file}
use openpak_client.Crash.{State, log_marker, log_copy_bytes}
use openpak_client.Crash.Texts.{read_tail, format_number, append}

-- `kSignals`.
pub data Signal : Type 0 where
  segv bus ill fpe abrt other : Signal

-- `SignalName`.
pub signal_name : Signal → Bytes
signal_name segv = codes "SIGSEGV"
signal_name bus = codes "SIGBUS"
signal_name ill = codes "SIGILL"
signal_name fpe = codes "SIGFPE"
signal_name abrt = codes "SIGABRT"
signal_name other = codes "signal"

-- `Append` of one text after another.
abbrev pub append_all : ℕ → Bytes → List Bytes → Bytes
append_all cap buffer [] = buffer
append_all cap buffer (t ∷ ts) = append_all cap (append cap buffer t) ts

-- The texts that finish the meta.
abbrev pub meta_texts : Signal → ℕ → ℕ → List Bytes
meta_texts signal address title =
    let fault = codes "0x" ++ format_number address 16 0 in
    let rest =
      codes ",\"error_code\":\""
      ∷ signal_name signal
      ∷ codes "\",\"message\":\"Fatal signal "
      ∷ signal_name signal
      ∷ codes "\",\"fields\":{\"kind\":\"signal\",\"address\":\""
      ∷ fault
      ∷ codes "\"}}"
      ∷ [] in
    if title == 0
    then rest
    else codes ",\"title_id\":\"" ∷ format_number title 16 16 ∷ codes "\"" ∷ rest

-- `meta`, a buffer of 4096 bytes.
unfoldable pub signal_meta : Signal → ℕ → State → Bytes
signal_meta signal address s =
    append_all 4096 (append 4096 [] s.meta_prefix) (meta_texts signal address s.title)

-- The attachment.
unfoldable pub signal_log : Signal → ℕ → Bytes → State → Bytes
signal_log signal address backtrace s =
    codes "Fatal signal "
    ++ signal_name signal
    ++ codes " at address 0x"
    ++ format_number address 16 0
    ++ codes "\n"
    ++ codes "\nBacktrace:\n"
    ++ backtrace
    ++ log_marker
    ++ (if is_nil s.log_c then [] else read_tail (read_file s.disk s.log_c) log_copy_bytes)

-- `base`, a buffer of 1200 bytes, and the paths, of 1300.
unfoldable pub signal_base : ℕ → ℕ → State → Bytes
signal_base ms pid s =
    append_all 1200 []
      (s.dir_c ∷ codes "/" ∷ format_number ms 10 13 ∷ codes "-" ∷ format_number pid 10 0 ∷ [])

-- `WriteSignalReport`.
unfoldable pub write_signal_report : Signal → ℕ → Bytes → ℕ → ℕ → State → State
unfolding signal_meta signal_log signal_base
write_signal_report signal address backtrace ms pid s =
    let base = signal_base ms pid s in
    let path = λ (extension : Bytes). append_all 1300 [] (base ∷ extension ∷ []) in
    let logged =
      (write_file s.disk (path (codes ".log")) (signal_log signal address backtrace s)).0 in
    let (aside, opened) =
      write_file logged (path (codes ".json.tmp")) (signal_meta signal address s) in
    record s {
      disk =
          if opened
          then (rename_file aside (path (codes ".json.tmp")) (path (codes ".json"))).0
          else aside;
    }

-- `OnSignal`.
unfoldable pub on_signal : Signal → ℕ → Bytes → ℕ → ℕ → State → State
unfolding write_signal_report
on_signal signal address backtrace ms pid s =
    let reported = write_signal_report signal address backtrace ms pid s in
    let writes = not s.recorded && not s.never && not (is_nil s.dir_c) in
    record (if writes then reported else s) { recorded = true }
