-- ===== src/Crash/Pending.antt =====
-- How many reports wait.
use openpak_client.Shared.{
  ℕ, suc, ◌-◌, ◌≤◌, ◌≡◌, ◌≢◌, refl, sym, ap, ◌∙◌, inl, inr, Bool, true, false, not, Option, none,
  List, [], ◌∷◌, ◌++◌, map, arith, if◌then◌else◌, Bool-cases, Option-cases, length, length-append,
  take, drop, length-drop, take-append-drop, keep_if, length-keep_if-le, is_some, value_or, Bytes,
  bytes_eq, bytes_eq_iff, codes, text_eq,
}
use openpak_client.Shared.Maps.{remove, lookup-remove}
use openpak_client.Shared.Disk.{Disk, read_file, remove_file, file_at-remove}
use openpak_client.Network.Json.{Json}
use openpak_client.Crash.{
  State, Report, Value, report_of, has_extension, listed, insert_path, sort_paths, discard,
  discard_each, message_in, message_at, pending_from, pending, prune, max_pending, directory_of,
  save_report, record_report,
}

module _ {ℓ} {A : Type ℓ} where
  keep_if_swap :
      (p q : A → Bool) (xs : List A) → keep_if p (keep_if q xs) ≡ keep_if q (keep_if p xs)
  keep_if_swap p q [] = refl
  keep_if_swap p q (x ∷ xs) = ground (arith, keep_if_swap p q xs)

  keep_if-append :
      (p : A → Bool) (xs ys : List A) → keep_if p (xs ++ ys) ≡ keep_if p xs ++ keep_if p ys
  keep_if-append p [] ys = refl
  keep_if-append p (x ∷ xs) ys = ground (arith, keep_if-append p xs ys)

-- Sorting neither adds nor loses.
length-insert :
    (p : Bytes → Bool) (x : Bytes) (xs : List Bytes)
    → length (keep_if p (insert_path x xs)) ≡ length (keep_if p (x ∷ xs))
unfolding insert_path
length-insert p x [] = refl
length-insert p x (y ∷ xs) = ground (arith, length-insert p x xs)

length-sort :
    (p : Bytes → Bool) (xs : List Bytes)
    → length (keep_if p (sort_paths xs)) ≡ length (keep_if p xs)
unfolding sort_paths
length-sort p [] = refl
length-sort p (x ∷ xs) = ground (arith, length-insert p x (sort_paths xs), length-sort p xs)

keys-remove :
    (k : Bytes) (m : List (Bytes × Bytes))
    → map (λ f. f.0) (remove k m) ≡ keep_if (λ j. not (bytes_eq j k)) (map (λ f. f.0) m)
unfolding remove
keys-remove k [] = refl
keys-remove k ((j, v) ∷ m) = ground (arith, keys-remove k m)

-- No file is stuck.
abbrev free : Bytes → Bool
free p = false

module _ (parse_json : Bytes → Option Json) (dump : List (Bytes × Value) → Bytes)
    (none_empty : parse_json [] ≡ none) (dir : Bytes) where
  readable : Bytes → Disk → Bool
  readable m d = is_some (message_at parse_json dump m d)

  absent : (k : Bytes) (d : Disk) → read_file (remove_file d k) k ≡ []
  unfolding remove_file read_file
  absent k d =
      let same : bytes_eq k k ≡ true = (bytes_eq_iff k k).1 refl in
      ap (λ o. value_or o []) (lookup-remove k k d.files ∙ chosen (bytes_eq k k) _ same)
    where
      chosen : (b : Bool) (o : Option Bytes) → b ≡ true → (if b then none else o) ≡ none
      chosen b o h = rw h refl

  message_at-gone : (k : Bytes) (d : Disk) → message_at parse_json dump k (remove_file d k) ≡ none
  message_at-gone k d = ap (message_in parse_json dump) (absent k d) ∙ empty
    where
      empty : message_in parse_json dump [] ≡ none
      empty = rw (none_empty, message_in) refl

  message_at-other :
      (k m : Bytes) (d : Disk)
      → k ≢ m
      → message_at parse_json dump m (remove_file d k) ≡ message_at parse_json dump m d
  unfolding read_file
  message_at-other k m d h =
      ap (λ o. message_in parse_json dump (value_or o [])) (file_at-remove d k m h)

  -- What a removal leaves: nothing that was not there, and no more of any kind.
  record Shrinks (d e : Disk) : Type 0 where
    known : (m : Bytes) → readable m e ≡ true → readable m d ≡ true
    fewer :
        (p : Bytes → Bool)
        → length (keep_if p (listed dir (codes ".json") e))
          ≤ length (keep_if p (listed dir (codes ".json") d))

  Shrinks-refl : (d : Disk) → Shrinks d d
  Shrinks-refl d = record { known = λ m h. h; fewer = λ p. omega arith }

  Shrinks-trans : (d e f : Disk) → Shrinks d e → Shrinks e f → Shrinks d f
  Shrinks-trans d e f a b = record {
    known = λ m h. a.known m (b.known m h);
    fewer = λ p. omega (arith, a.fewer p, b.fewer p);
  }

  remove-Shrinks : (k : Bytes) (d : Disk) → Shrinks d (remove_file d k)
  unfolding readable remove_file
  remove-Shrinks k d = record { known = known; fewer = fewer }
    where
      known : (m : Bytes) → readable m (remove_file d k) ≡ true → readable m d ≡ true
      known m h = elim (Bool-cases (bytes_eq k m)) [
        | inl e ↦
            let gone : readable m (remove_file d k) ≡ false =
              ap (λ j. readable j (remove_file d k)) (sym ((bytes_eq_iff k m).0 e))
              ∙ ap is_some (message_at-gone k d) in
            absurd (ground (arith, h, gone))
        | inr e ↦
            ap is_some (
              sym
                (message_at-other k m d (λ s. absurd (ground (arith, e, (bytes_eq_iff k m).1 s)))))
            ∙ h
      ]

      fewer :
          (p : Bytes → Bool)
          → length (keep_if p (listed dir (codes ".json") (remove_file d k)))
            ≤ length (keep_if p (listed dir (codes ".json") d))
      fewer p =
          let hx = has_extension dir (codes ".json") in
          let keys = map (λ f. f.0) d.files in
          let other = λ (j : Bytes). not (bytes_eq j k) in
          let here : keep_if p (keep_if hx (map (λ f. f.0) (remove k d.files)))
              ≡ keep_if other (keep_if p (keep_if hx keys)) =
            ap (λ t. keep_if p (keep_if hx t)) (keys-remove k d.files)
            ∙ (ap (keep_if p) (keep_if_swap hx other keys)
                ∙ keep_if_swap p other (keep_if hx keys)) in
          omega (arith, ap length here, length-keep_if-le other (keep_if p (keep_if hx keys)))

  discard-Shrinks : (r : Report) (d : Disk) → Shrinks d (discard free r d)
  discard-Shrinks r d =
      Shrinks-trans d (remove_file d r.meta_path) (discard free r d) (remove-Shrinks r.meta_path d)
        (remove-Shrinks r.attachment_path (remove_file d r.meta_path))

  discard_each-Shrinks : (rs : List Report) (d : Disk) → Shrinks d (discard_each free rs d)
  discard_each-Shrinks [] d = Shrinks-refl d
  discard_each-Shrinks (r ∷ rs) d =
      Shrinks-trans d (discard free r d) _ (discard-Shrinks r d)
        (discard_each-Shrinks rs (discard free r d))

  unreadable :
      (m : Bytes) (d e : Disk)
      → Shrinks d e
      → message_at parse_json dump m d ≡ none
      → readable m e ≡ false
  unfolding readable
  unreadable m d e s h = elim (Bool-cases (readable m e)) [
    | inr f ↦ f
    | inl t ↦ absurd (ground (arith, s.known m t, ap is_some h))
  ]

  discard-unreadable :
      (r : Report) (d e : Disk) → Shrinks (discard free r d) e → readable r.meta_path e ≡ false
  discard-unreadable r d e s =
      unreadable r.meta_path (remove_file d r.meta_path) e
        (Shrinks-trans (remove_file d r.meta_path) (discard free r d) e
          (remove-Shrinks r.attachment_path (remove_file d r.meta_path)) s)
        (message_at-gone r.meta_path d)

  -- What is discarded cannot be read again.
  discarded :
      (p : Bytes → Bool) (rs : List Report) (d e : Disk)
      → Shrinks (discard_each free rs d) e
      → ((m : Bytes) → p m ≡ true → readable m e ≡ true)
      → keep_if p (map (λ r. r.meta_path) rs) ≡ []
  discarded p [] d e s h = refl
  discarded p (r ∷ rs) d e s h =
      let gone = discard-unreadable r d e (
        Shrinks-trans (discard free r d) (discard_each free rs (discard free r d)) e
          (discard_each-Shrinks rs (discard free r d)) s) in
      let no : p r.meta_path ≡ false = ground (arith, h r.meta_path, gone) in
      rw no (discarded p rs (discard free r d) e s h)

  pending_from-Shrinks :
      (ms : List Bytes) (d : Disk) → Shrinks d (pending_from parse_json dump free ms d).1
  unfolding pending_from
  pending_from-Shrinks [] d = Shrinks-refl d
  pending_from-Shrinks (m ∷ ms) d = elim (Option-cases (message_at parse_json dump m d)) [
    | inl e ↦
        rw (e, pending_from)
          (Shrinks-trans d (discard free (report_of m []) d) _ (discard-Shrinks (report_of m []) d)
            (pending_from-Shrinks ms (discard free (report_of m []) d)))
    | inr (t, e) ↦ rw (e, pending_from) (pending_from-Shrinks ms d)
  ]

  -- Every meta that can be read at the end is among the reports.
  pending_from-readable :
      (p : Bytes → Bool) (ms : List Bytes) (d e : Disk)
      → Shrinks (pending_from parse_json dump free ms d).1 e
      → ((m : Bytes) → p m ≡ true → readable m e ≡ true)
      → keep_if p ms ≡ keep_if p (map (λ r. r.meta_path) (pending_from parse_json dump free ms d).0)
  unfolding pending_from
  pending_from-readable p [] d e s h = refl
  pending_from-readable p (m ∷ ms) d e s h = elim (Option-cases (message_at parse_json dump m d)) [
    | inl f ↦
        let after = discard free (report_of m []) d in
        let t : Shrinks (pending_from parse_json dump free ms after).1 e =
          rw (f, pending_from) at s in
        let no : p m ≡ false = ground (
          arith,
          h m,
          unreadable m d e
              (Shrinks-trans d after e (discard-Shrinks (report_of m []) d)
                (Shrinks-trans after _ e (pending_from-Shrinks ms after) t))
              f,
        ) in
        rw (f, no, pending_from) (pending_from-readable p ms after e t h)
    | inr (k, f) ↦
        let t : Shrinks (pending_from parse_json dump free ms d).1 e = rw (f, pending_from) at s in
        let rest = pending_from-readable p ms d e t h in
        elim (Bool-cases (p m)) [
          | inl y ↦ rw (f, y, pending_from) (ap (λ l. m ∷ l) rest)
          | inr n ↦ rw (f, n, pending_from) rest
        ]
  ]

  length-pending_from :
      (ms : List Bytes) (d e : Disk)
      → Shrinks e d
      → length (pending_from parse_json dump free ms d).0 ≤ length (keep_if (λ m. readable m e) ms)
  unfolding pending_from readable
  length-pending_from [] d e s = omega arith
  length-pending_from (m ∷ ms) d e s = elim (Option-cases (message_at parse_json dump m d)) [
    | inl f ↦
        let after = discard free (report_of m []) d in
        let rest =
          length-pending_from ms after e
            (Shrinks-trans e d after s (discard-Shrinks (report_of m []) d)) in
        elim (Bool-cases (readable m e)) [
          | inl y ↦ rw (f, y, pending_from) (omega (arith, rest))
          | inr n ↦ rw (f, n, pending_from) rest
        ]
    | inr (k, f) ↦
        let rest = length-pending_from ms d e s in
        let y : readable m e ≡ true = s.known m (ap is_some f) in
        rw (f, y, pending_from) (omega (arith, rest))
  ]

  length-map : (rs : List Report) → length (map (λ r. r.meta_path) rs) ≡ length rs
  length-map [] = refl
  length-map (r ∷ rs) = ap suc (length-map rs)

  map-append :
      (rs ts : List Report)
      → map (λ r. r.meta_path) (rs ++ ts) ≡ map (λ r. r.meta_path) rs ++ map (λ r. r.meta_path) ts
  map-append [] ts = refl
  map-append (r ∷ rs) ts = ap (λ l. r.meta_path ∷ l) (map-append rs ts)

  prune-pending :
      (d : Disk)
      → length (pending parse_json dump free false dir (prune parse_json dump free false dir d)).0
        ≤ max_pending
  unfolding pending prune
  prune-pending d =
      let all = listed dir (codes ".json") in
      let found = pending_from parse_json dump free (sort_paths (all d)) d in
      let rs = found.0 in
      let k = length rs - max_pending in
      let old = take k rs in
      let young = drop k rs in
      let e = discard_each free old found.1 in
      let p = λ (m : Bytes). readable m e in
      let metas = λ (ts : List Report). map (λ r. r.meta_path) ts in
      let here : Shrinks found.1 e = discard_each-Shrinks old found.1 in
      let shrinks : Shrinks d e =
        Shrinks-trans d found.1 e (pending_from-Shrinks (sort_paths (all d)) d) here in
      let reports = length-pending_from (sort_paths (all e)) e e (Shrinks-refl e) in
      let kept : keep_if p (sort_paths (all d)) ≡ keep_if p (metas rs) =
        pending_from-readable p (sort_paths (all d)) d e here (λ m h. h) in
      let split : keep_if p (metas rs) ≡ keep_if p (metas old) ++ keep_if p (metas young) =
        ap (λ ts. keep_if p (metas ts)) (sym (take-append-drop k rs))
        ∙ (ap (keep_if p) (map-append old young) ∙ keep_if-append p (metas old) (metas young)) in
      let gone : keep_if p (metas old) ≡ [] =
        discarded p old found.1 e (Shrinks-refl e) (λ m h. h) in
      let few : length (keep_if p (metas rs)) ≤ max_pending = omega (
        arith,
        ap length split,
        ap length gone,
        length-append (keep_if p (metas old)) (keep_if p (metas young)),
        length-keep_if-le p (metas young),
        length-map young,
        length-drop k rs,
      ) in
      omega (
        arith,
        reports,
        length-sort p (all e),
        shrinks.fewer p,
        length-sort p (all d),
        ap length kept,
        few,
      )

-- Behind a report that was recorded no more than five wait, where the system lists the directory and removes
-- what it is told to and an empty text is no JSON, whatever the directory held, which writes and renames fail
-- and what the metas hold.
pub record_report-pending :
    (parse_json : Bytes → Option Json) (dump : List (Bytes × Value) → Bytes)
    (code message details : Bytes) (fields : List (Bytes × Bytes)) (title : ℕ) (os : Bytes)
    (ms pid : ℕ) (s : State)
    → parse_json [] ≡ none
    → s.installed ≡ true
    → s.never ≡ false
    → ((path : Bytes) → s.stuck path ≡ false)
    → s.blind ≡ false
    → length
        (pending parse_json dump s.stuck s.blind
          (directory_of s)
          (record_report parse_json dump code message details fields title os ms pid s).disk).0
      ≤ max_pending
unfolding record_report
record_report-pending parse_json dump code message details fields title os ms pid s empty on off
      loose sees =
    let e : s.stuck ≡ free = λ i p. loose p i in
    rw (on, off, e, sees)
      (prune-pending parse_json dump empty (directory_of s)
        (save_report parse_json dump code message details fields title os ms pid s))
