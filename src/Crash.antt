-- ===== src/Crash.antt =====
-- client/openpak/crash_reports.cpp and crash_reports.h: reports of crashes, kept in a directory until the
-- person has answered. The clock, the process id, the random numbers, the text of the backtrace, the name of the
-- system and the answer of the site are inputs; JSON is an argument. Every member of the directory's listing
-- is a file, and directories are there when they are written to.
pub mod Texts
mod Listing
pub mod Pending
pub mod Signals
mod Examples
unfoldable pub use Listing.*
use openpak_client.Shared.{
  ℕ, ◌+◌, ◌-◌, ◌%◌, ◌^◌, Bool, true, false, not, ◌&&◌, ◌||◌, Option, none, some, List, [], ◌∷◌,
  ◌++◌, ltb, leb, ◌==◌, if◌then◌else◌, length, take, drop, replicate, is_nil, is_some, value_or,
  cut_at, starts_with, Bytes, bytes_eq, codes, text_eq,
}
use openpak_client.Shared.Decimal.{to_string}
use openpak_client.Shared.Disk.{Disk, path_append, read_file, write_file, rename_file}
use openpak_client.Platform.{strip_spaces}
use openpak_client.Network.Json.{Json, object, text, member_of}
use openpak_client.Crash.Texts.{tail_lines, read_tail, append_hex, copy_into, build_multipart}

pub record Options : Type 0 where
  pub source : Bytes
  pub version : Bytes
  pub log_file : Bytes

-- The statics of the file, and the disk, with the files that the system does not remove and whether it does
-- not list the directory; `dir` is empty before `Install`.
pub record State : Type 0 where
  pub options : Options
  pub dir : Bytes
  pub title : ℕ
  pub installed : Bool
  pub never : Bool
  pub recorded : Bool
  pub sequence : ℕ
  pub dir_c : Bytes
  pub log_c : Bytes
  pub meta_prefix : Bytes
  pub config : Bytes
  pub disk : Disk
  pub stuck : Bytes → Bool
  pub blind : Bool

-- A member of the report's object, which keeps the order in which they are added.
pub data Value : Type 0 where
  word : Bytes → Value
  words : List (Bytes × Bytes) → Value

abbrev pub log_marker : Bytes
log_marker = codes "\n---- log ----\n"

abbrev pub log_copy_bytes : ℕ
log_copy_bytes = 262144

abbrev pub max_attachment_bytes : ℕ
max_attachment_bytes = 20971520

abbrev pub kept_lines : ℕ
kept_lines = 500

abbrev pub max_pending : ℕ
max_pending = 5

-- `Dir`.
unfoldable pub directory_of : State → Bytes
directory_of s = if is_nil s.dir then path_append s.config (codes "crash-reports") else s.dir

-- `Policy`.
unfoldable pub policy : State → Bytes
unfolding directory_of
policy s =
    let stored = strip_spaces (read_file s.disk (path_append (directory_of s) (codes "policy"))) in
    if bytes_eq stored (codes "always") || bytes_eq stored (codes "never")
    then stored
    else codes "ask"

-- `SetPolicy`.
unfoldable pub set_policy : Bytes → State → State
unfolding directory_of
set_policy wanted s =
    let value =
      if bytes_eq wanted (codes "always") || bytes_eq wanted (codes "never")
      then wanted
      else codes "ask" in
    record s {
      disk =
          (write_file s.disk (path_append (directory_of s) (codes "policy"))
            (value ++ codes "\n")).0;
      never = bytes_eq value (codes "never");
    }

-- `SetTitleId`.
pub set_title_id : ℕ → State → State
set_title_id id s = record s { title = id }

-- The members of `BuildMeta`, whose fields are a map.
unfoldable pub meta_members :
    Bytes → Bytes → Bytes → ℕ → Bytes → Bytes → List (Bytes × Bytes) → List (Bytes × Value)
unfolding field_map
meta_members source version os title code message fields =
    ((codes "source", word source) ∷ (codes "version", word version) ∷ (codes "os", word os) ∷ [])
    ++ ((if title == 0 then [] else (codes "title_id", word (append_hex title 16)) ∷ [])
        ++ ((if is_nil code then [] else (codes "error_code", word code) ∷ [])
            ++ ((if is_nil message then [] else (codes "message", word (take 2000 message)) ∷ [])
                ++ (if is_nil fields
                    then []
                    else (codes "fields", words (field_map fields)) ∷ []))))

-- `NewName`.
abbrev padded : ℕ → ℕ → Bytes
padded width n = let t = to_string n in replicate (width - length t) b'0' ++ t

pub new_name : ℕ → ℕ → ℕ → Bytes
new_name ms pid n = padded 13 ms ++ (b'-' ∷ (to_string pid ++ (b'-' ∷ padded 4 (n % 10000))))

-- `value("message", "")`: a document that is no object, or a message that is no text, throws.
abbrev pub message_of : Json → Option Bytes
message_of json = elim json [
  | object fields ↦ elim (member_of (codes "message") (object fields)) [
    | none ↦ some []
    | some v ↦ elim v [ text t ↦ some t | _ ↦ none ]
  ]
  | _ ↦ none
]

-- `find` of the marker: what stands before it, and behind it.
pub marker_at : Bytes → Option (Bytes × Bytes)
marker_at [] = none
marker_at (c ∷ cs) =
    let later = marker_at cs in
    if starts_with log_marker (c ∷ cs)
    then some ([], drop (length log_marker) (c ∷ cs))
    else elim later [ none ↦ none | some found ↦ some (c ∷ found.0, found.1) ]

-- The attachment as it is sent.
pub trimmed : Bytes → Bytes
unfolding marker_at
trimmed attachment =
    let lined : Bytes = elim (marker_at attachment) [
      | none ↦ attachment
      | some found ↦ found.0 ++ (log_marker ++ tail_lines found.1 kept_lines)
    ] in
    drop (length lined - max_attachment_bytes) lined

-- `filename()`.
pub attachment_name : Bytes → Bytes
attachment_name [] = []
attachment_name (c ∷ cs) =
    let later = attachment_name cs in if is_some (cut_at b'/' (c ∷ cs)) then later else c ∷ cs

module _ (parse_json : Bytes → Option Json) (dump : List (Bytes × Value) → Bytes) where
  abbrev pub message_in : Bytes → Option Bytes
  message_in contents = elim (parse_json contents) [ none ↦ none | some json ↦ message_of json ]

  abbrev pub message_at : Bytes → Disk → Option Bytes
  message_at meta d = message_in (read_file d meta)

  -- The loop of `Pending`: what cannot be read is discarded.
  pub pending_from : (Bytes → Bool) → List Bytes → Disk → List Report × Disk
  pending_from stuck [] d = ([], d)
  pending_from stuck (meta ∷ metas) d = elim (message_at meta d) [
    | none ↦ pending_from stuck metas (discard stuck (report_of meta []) d)
    | some message ↦
        let (reports, left) = pending_from stuck metas d in (report_of meta message ∷ reports, left)
  ]

  -- `Pending`; of a directory that is not listed there is nothing.
  pub pending : (Bytes → Bool) → Bool → Bytes → Disk → List Report × Disk
  unfolding pending_from sort_paths
  pending stuck blind dir d =
      if blind then ([], d) else pending_from stuck (sort_paths (listed dir (codes ".json") d)) d

  -- `Prune`.
  pub prune : (Bytes → Bool) → Bool → Bytes → Disk → Disk
  unfolding pending
  prune stuck blind dir d =
      let (reports, left) = pending stuck blind dir d in
      discard_each stuck (take (length reports - max_pending) reports) left

  -- `DiscardAll`.
  pub discard_all : State → State
  unfolding directory_of pending
  discard_all s =
      let dir = directory_of s in
      let (reports, left) = pending s.stuck s.blind dir s.disk in
      let d = discard_each s.stuck reports left in
      record s { disk = go (if s.blind then [] else listed dir (codes ".tmp") d) d }
    where
      go : List Bytes → Disk → Disk
      go [] d = d
      go (p ∷ ps) d = go ps (remove_unless s.stuck p d)

  -- `BuildMeta`.
  unfoldable pub build_meta :
      Bytes → Bytes → Bytes → ℕ → Bytes → Bytes → List (Bytes × Bytes) → Bytes
  unfolding meta_members
  build_meta source version os title code message fields =
      dump (meta_members source version os title code message fields)

  -- `Install`, without the handlers that the system keeps.
  pub install : Options → Bytes → State → State
  unfolding build_meta policy
  install options os s =
      let dir = path_append s.config (codes "crash-reports") in
      let named = record s { options = options; dir = dir } in
      let prefix = build_meta options.source options.version os 0 [] [] [] in
      record named {
        never = bytes_eq (policy named) (codes "never");
        dir_c = copy_into 1024 dir;
        log_c = copy_into 1024 options.log_file;
        meta_prefix = copy_into 2048 (take (length prefix - 1) prefix);
        installed = true;
      }

  -- The files of a report: the attachment, then the meta, which is renamed in.
  pub save_report : Bytes → Bytes → Bytes → List (Bytes × Bytes) → ℕ → Bytes → ℕ → ℕ → State → Disk
  unfolding directory_of build_meta new_name
  save_report code message details fields title_id os ms pid s =
      let name = path_append (directory_of s) (new_name ms pid s.sequence) in
      let log = s.options.log_file in
      let tail =
        if is_nil log
        then []
        else tail_lines (read_tail (read_file s.disk log) log_copy_bytes) kept_lines in
      let source = if is_nil s.options.source then codes "unknown" else s.options.source in
      let version = if is_nil s.options.version then codes "unknown" else s.options.version in
      let meta =
        build_meta source version os (if title_id == 0 then s.title else title_id) code message
          fields in
      let logged = (write_file s.disk (name ++ codes ".log") (details ++ (log_marker ++ tail))).0 in
      let aside = (write_file logged (name ++ codes ".json.tmp") meta).0 in
      (rename_file aside (name ++ codes ".json.tmp") (name ++ codes ".json")).0

  -- `Record`, with the name of the system, the time and the process.
  unfoldable pub record_report :
      Bytes → Bytes → Bytes → List (Bytes × Bytes) → ℕ → Bytes → ℕ → ℕ → State → State
  unfolding directory_of prune save_report
  record_report code message details fields title_id os ms pid s =
      if not s.installed || s.never then s else record s {
        sequence = (s.sequence + 1) % 2 ^ 32;
        disk =
            prune s.stuck s.blind (directory_of s)
              (save_report code message details fields title_id os ms pid s);
      }

  -- `Send`: the body and its type, if there is a report, and whether the site took it; a request that failed
  -- has status 0 here.
  pub send_report : Report → ℕ → ℕ → ℕ → Disk → Option (Bytes × Bytes) × Bool
  unfolding trimmed attachment_name
  send_report r first second status d =
      let meta = read_file d r.meta_path in
      let boundary = codes "openpak-" ++ (append_hex first 16 ++ append_hex second 16) in
      let body =
        build_multipart boundary meta (attachment_name r.attachment_path)
          (trimmed (read_file d r.attachment_path)) in
      if is_nil meta then (none, false) else (
        some (body, codes "multipart/form-data; boundary=" ++ boundary),
        leb 200 status && ltb status 300,
      )

  -- `OnTerminate`, up to the handler before it: what the exception says, if it says anything, or that there is none.
  pub on_terminate : Option (Option Bytes) → Bytes → ℕ → ℕ → State → State
  unfolding record_report
  on_terminate exception os ms pid s =
      let what : Bytes = elim exception [
        | none ↦ codes "std::terminate without an exception"
        | some e ↦ value_or e (codes "unknown exception")
      ] in
      let kind = codes "unhandled_exception" in
      let reported =
        record_report kind what (codes "std::terminate: " ++ what) ((codes "kind", kind) ∷ []) 0 os
          ms pid s in
      record (if s.recorded then s else reported) { recorded = true }
