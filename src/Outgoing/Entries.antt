-- ===== src/Outgoing/Entries.antt =====
-- What the calls do to the entries, as a map from friend codes to times.
use openpak_client.Shared.{
  ◌∙◌, ap, not, ◌≡◌, refl, inl, inr, Bool, true, false, Option, none, some, List, [], ◌∷◌, arith,
  if◌then◌else◌, Bool-cases, any_of, keep_if, Bytes, bytes_eq, bytes_eq_iff, nat_eq, text_eq,
}
use openpak_client.Shared.Int.{ℤ}
use openpak_client.Outgoing.{
  Entry, Store, write_entries, ensure_loaded, get, touch, add, other_code, remove_code, is_pending,
  prune_accepted, Call, adds, removes, prunes, step,
}

unfoldable pub time_of : Bytes → List Entry → Option ℤ
time_of code [] = none
time_of code (e ∷ es) =
    let rest = time_of code es in
    if bytes_eq e.friend_code code then some e.sent_unix_time else rest

-- What a call does to the time of one code.
abbrev pub effect : Call → Bytes → Option ℤ → Option ℤ
effect (adds code now) j t = if bytes_eq code j then some now else t
effect (removes code) j t = if bytes_eq code j then none else t
effect (prunes accepted) j t = if any_of (λ c. bytes_eq c j) accepted then none else t

time_of-touch :
    (code j : Bytes) (now : ℤ) (es : List Entry)
    → time_of j (touch code now es) ≡ (if bytes_eq code j then some now else time_of j es)
unfolding time_of touch
time_of-touch code j now [] = refl
time_of-touch code j now (e ∷ es) = ground (
  arith,
  bytes_eq_iff code j,
  bytes_eq_iff e.friend_code code,
  bytes_eq_iff e.friend_code j,
  time_of-touch code j now es,
)

time_of-keep_if :
    (p : Bytes → Bool) (j : Bytes) (es : List Entry)
    → time_of j (keep_if (λ e. p e.friend_code) es) ≡ (if p j then time_of j es else none)
unfolding time_of
time_of-keep_if p j [] = ground arith
time_of-keep_if p j (e ∷ es) = elim (Bool-cases (bytes_eq e.friend_code j)) [
  | inl hit ↦
      let same : e.friend_code ≡ j = (bytes_eq_iff e.friend_code j).0 hit in
      ground (arith, ap p same, time_of-keep_if p j es)
  | inr miss ↦ ground (arith, time_of-keep_if p j es)
]

ensure_loaded-loaded : (s : Store) → (ensure_loaded s).loaded ≡ true
unfolding ensure_loaded
ensure_loaded-loaded s = ground arith

get_loaded : (s : Store) → s.loaded ≡ true → (get s).1 ≡ s.entries
unfolding get ensure_loaded
get_loaded s h = ground arith

get-write :
    (t : Store) (es : List Entry)
    → t.loaded ≡ true
    → (get (write_entries (record t { entries = es }))).1 ≡ es
unfolding write_entries
get-write t es h = get_loaded _ h

get-prune :
    (t : Store) (es : List Entry) (same : Bool)
    → t.loaded ≡ true
    → (get (let u = record t { entries = es } in if same then u else write_entries u)).1 ≡ es
get-prune t es true h = get_loaded (record t { entries = es }) h
get-prune t es false h = get-write t es h

time_of-pending :
    (accepted : List Bytes) (j : Bytes) (es : List Entry)
    → time_of j (keep_if (is_pending accepted) es)
      ≡ (if any_of (λ c. bytes_eq c j) accepted then none else time_of j es)
time_of-pending accepted j es =
    time_of-keep_if (λ code. not (any_of (λ c. bytes_eq c code) accepted)) j es ∙ ground arith

time_of-other :
    (code j : Bytes) (es : List Entry)
    → time_of j (keep_if (other_code code) es) ≡ (if bytes_eq code j then none else time_of j es)
time_of-other code j es =
    time_of-keep_if (λ c. not (bytes_eq c code)) j es
    ∙ ground (arith, bytes_eq_iff code j, bytes_eq_iff j code)

-- Each call changes the time of the codes that it names and of no other: a sent request gets the
-- new time, a removed or accepted one is gone.
pub time_of-step :
    (c : Call) (s : Store) (j : Bytes)
    → time_of j (get (step c s)).1 ≡ effect c j (time_of j (get s).1)
unfolding step add remove_code prune_accepted
time_of-step (adds code now) s j =
    ap (time_of j) (get-write (ensure_loaded s) _ (ensure_loaded-loaded s))
    ∙ unfold get in time_of-touch code j now (ensure_loaded s).entries
time_of-step (removes code) s j =
    ap (time_of j) (get-write (ensure_loaded s) _ (ensure_loaded-loaded s))
    ∙ unfold get in time_of-other code j (ensure_loaded s).entries
time_of-step (prunes accepted) s j =
    ap (time_of j) (get-prune (ensure_loaded s) _ _ (ensure_loaded-loaded s))
    ∙ unfold get in time_of-pending accepted j (ensure_loaded s).entries
