-- ===== src/Bcat.antt =====
-- client/openpak/bcat.cpp and bcat.h: the data that a title takes from the news service, checked file by file and
-- kept on disk for when the service cannot be reached. The answers to the requests, the clock, SHA-256 in
-- hexadecimal, `timegm` and JSON are arguments. A value that JSON cannot give throws, which is an outcome.
pub mod Names
pub mod Keeping
mod Examples
use openpak_client.Shared.{
  ℕ, Bool, true, false, not, ◌&&◌, ◌||◌, Option, none, some, ◌>>=◌, List, [], ◌∷◌, ◌++◌, ltb, leb,
  ◌==◌, if◌then◌else◌, length, keep_if, all_of, is_nil, is_some, cut_at, starts_with, Bytes,
  bytes_eq, codes, text_eq,
}
use openpak_client.Shared.Int.{ℤ, lt_int}
use openpak_client.Shared.Disk.{Disk, path_append, read_file, write_file, file_at}
use openpak_client.Platform.{to_lower}
use openpak_client.Network.Json.{
  Json, Items, Fields, null, array, object, text, nil, cons, end, member, member_of,
}
use openpak_client.Crash.Texts.{append_hex}

pub record File : Type 0 where
  pub directory : Bytes
  pub name : Bytes
  pub contents : Bytes

-- `Result`; `throws` is an exception that leaves `Fetch`.
pub data Outcome : Type 0 where
  dataset : List File → Outcome
  nothing unreachable throws : Outcome

abbrev pub max_name_length : ℕ
max_name_length = 31

-- `isalnum` in the C locale, and the three other characters.
abbrev pub is_name_char : ℕ → Bool
is_name_char c =
    (leb b'0' c && leb c b'9')
    || (leb b'A' c && leb c b'Z')
    || (leb b'a' c && leb c b'z')
    || (c == b'_')
    || (c == b'-')
    || (c == b'.')

-- `ValidName`.
unfoldable pub valid_name : Bytes → Bool
valid_name name =
    not (
      is_nil name
      || ltb max_name_length (length name)
      || bytes_eq name (codes ".")
      || bytes_eq name (codes ".."))
    && all_of is_name_char name

-- `Split`.
unfoldable pub split : Bytes → Option (Bytes × Bytes)
unfolding valid_name
split path = elim (cut_at b'/' path) [
  | none ↦ none
  | some cut ↦
      if is_some (cut_at b'/' cut.1)
      then none
      else if not (valid_name cut.0) || not (valid_name cut.1)
      then none
      else some cut
]

-- `CacheDirectory`, and where a file and the manifest lie below it.
abbrev pub cache_directory : Bytes → Bytes → Bytes
cache_directory cache title =
    path_append (path_append (path_append cache (codes "openpak")) (codes "bcat")) title

abbrev pub manifest_path : Bytes → Bytes
manifest_path root = path_append root (codes "manifest.json")

abbrev pub stored_path : Bytes → File → Bytes
stored_path root f = path_append (path_append (path_append root (codes "files")) f.directory) f.name

-- `remove_all` of a directory.
abbrev pub remove_below : Bytes → Disk → Disk
remove_below root d = record d {
  files = keep_if (λ f. not (starts_with (root ++ b'/' ∷ []) f.0)) d.files;
}

-- `Forget`.
unfoldable pub forget : Bytes → Disk → Disk
forget root d = remove_below root d

-- The loop of `Store`.
pub write_each : Bytes → List File → Disk → Disk
write_each root [] d = d
write_each root (f ∷ fs) d = write_each root fs (write_file d (stored_path root f) f.contents).0

-- `Store`.
unfoldable pub store : Bytes → Bytes → List File → Disk → Disk
unfolding forget write_each
store root manifest files d =
    (write_file (write_each root files (forget root d)) (manifest_path root) manifest).0

-- What a loop over a value goes through.
abbrev pub items_of : Json → List Json
items_of json = elim json [
  | array xs ↦ each xs
  | object fields ↦ values fields
  | null ↦ []
  | other ↦ other ∷ []
]
  where
    each : Items → List Json
    each nil = []
    each (cons x xs) = x ∷ each xs

    values : Fields → List Json
    values end = []
    values (member k v rest) = v ∷ values rest

-- `entry.value(key, "")`; none throws.
unfoldable pub text_of : Bytes → Json → Option Bytes
text_of key json = elim json [
  | object fields ↦ elim (member_of key (object fields)) [
    | none ↦ some []
    | some v ↦ elim v [ text t ↦ some t | _ ↦ none ]
  ]
  | _ ↦ none
]

module _ (parse_json : Bytes → Option Json) (sha256_hex : Bytes → Bytes)
    (scan_time : Bytes → Option ℤ) where
  -- `ParseTime`: `scan_time` is `sscanf` with the format and `timegm`.
  abbrev parse_time : Option Json → Option ℤ
  parse_time none = none
  parse_time (some json) = elim json [ text t ↦ scan_time t | _ ↦ none ]

  abbrev is_object : Json → Bool
  is_object json = elim json [ object fields ↦ true | _ ↦ false ]

  -- `InWindow`.
  unfoldable pub in_window : Bytes → ℤ → Bool
  in_window manifest now = elim (parse_json manifest) [
    | none ↦ false
    | some json ↦
        let early : Bool = elim (parse_time (member_of (codes "valid_from") json)) [
          | none ↦ false
          | some from ↦ lt_int now from
        ] in
        let late : Bool = elim (parse_time (member_of (codes "valid_until") json)) [
          | none ↦ false
          | some until ↦ not (lt_int now until)
        ] in
        is_object json && not early && not late
  ]

  -- The entries of `value("files", array())`.
  unfoldable pub entries_of : Bytes → List Json
  entries_of manifest = elim (parse_json manifest >>= member_of (codes "files")) [
    | none ↦ []
    | some files ↦ items_of files
  ]

  -- The loop of `Cached`: the files, nothing where one is missing, or an exception.
  unfoldable pub cached_from : Bytes → List Json → Disk → Outcome
  unfolding split text_of
  cached_from root [] d = dataset []
  cached_from root (entry ∷ entries) d = elim (text_of (codes "path") entry) [
    | none ↦ throws
    | some path ↦ elim (split path) [
      | none ↦ cached_from root entries d
      | some cut ↦
          let at = stored_path root (record { directory = cut.0; name = cut.1; contents = [] }) in
          elim (file_at d at) [
            | none ↦ unreachable
            | some contents ↦ elim (cached_from root entries d) [
              | dataset files ↦
                  dataset (record { directory = cut.0; name = cut.1; contents = contents } ∷ files)
              | nothing ↦ nothing
              | unreachable ↦ unreachable
              | throws ↦ throws
            ]
          ]
    ]
  ]

  -- `FromCache`.
  unfoldable pub from_cache : Bytes → ℤ → Disk → Outcome
  unfolding cached_from
  from_cache root now d =
      let manifest = read_file d (manifest_path root) in
      if is_nil manifest || not (in_window manifest now)
      then unreachable
      else cached_from root (entries_of manifest) d

  module _ (download : Bytes → Option Bytes) where
    -- The loop of `Fetch`; none goes to the cache.
    unfoldable pub gather : List Json → Option (List File)
    unfolding split text_of
    gather [] = some []
    gather (entry ∷ entries) = elim (text_of (codes "path") entry) [
      | none ↦ none
      | some path ↦ elim (split path) [
        | none ↦ gather entries
        | some cut ↦ elim (text_of (codes "url") entry >>= download) [
          | none ↦ none
          | some contents ↦ elim (text_of (codes "sha256") entry) [
            | none ↦ none
            | some wanted ↦
                if bytes_eq (sha256_hex contents) (to_lower wanted)
                then gather entries >>= (λ files.
                  some (record { directory = cut.0; name = cut.1; contents = contents } ∷ files))
                else none
          ]
        ]
      ]
    ]

    -- `Fetch`, with the answer, if there is one: its status and its body.
    unfoldable pub fetch : Bytes → ℕ → Option (ℕ × Bytes) → ℤ → Disk → Disk × Outcome
    unfolding gather from_cache store forget
    fetch cache title_id reply now d =
        let root = cache_directory cache (append_hex title_id 16) in
        elim reply [
          | none ↦ (d, from_cache root now d)
          | some answer ↦
              if answer.0 == 404
              then (forget root d, nothing)
              else if not (answer.0 == 200)
              then (d, from_cache root now d)
              else if not (in_window answer.1 now)
              then (forget root d, nothing)
              else elim (gather (entries_of answer.1)) [
                | none ↦ (d, from_cache root now d)
                | some files ↦ (store root answer.1 files d, dataset files)
              ]
        ]
