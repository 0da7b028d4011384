-- ===== src/Network/Ceiling/Rollback.antt =====
-- An older ceiling never follows a newer one, over any history of starts and of answers.
use openpak_client.Shared.{
  ℕ, ◌≤◌, ◌<◌, ◌^◌, ◌≡◌, refl, ◌≢◌, ◌⊎◌, inl, inr, Bool, true, false, Option, none, some, List, [],
  ◌∷◌, arith, ltb, if◌then◌else◌, Bool-cases, value_or, Bytes, nat_eq, text_eq,
}
use openpak_client.Shared.Decimal.{to_string}
use openpak_client.Shared.Disk.{Disk}
use openpak_client.Network.Json.{Json}
use openpak_client.Network.Ceiling.{
  PinnedKey, CeilingSource, fetched, cached, built_in, CeilingResult, State, compiled_ceiling,
  ceiling_path, highest_path, temporary, write_atomically, read_whole, read_highest, verify_ceiling,
  from_cache, from_fetch, decide_ceiling, load_ceiling,
}
use openpak_client.Network.Ceiling.Payload.{Ceiling, Checked, ok, Refusal, refused}
use openpak_client.Network.Ceiling.Sound.{IsSigned, IsSane, verify_ceiling_sound}
use openpak_client.Network.Ceiling.Files.{
  file_at-write_atomically, refuses-write_atomically, paths_apart, read_highest-write,
  read_highest-other,
}

-- The versions in their order, none below the one before it.
abbrev pub Ascends : ℕ → List ℕ → Type 0
Ascends n [] = Unit
Ascends n (v ∷ vs) = (n ≤ v) × Ascends v vs

-- What a process does with ceilings: it loads one with an answer or without, or it starts anew.
pub data Event : Type 0 where
  loads : Option Bytes → Event
  restarts : Event

module _ (parse_json : Bytes → Option Json) (verifies : Bytes → Bytes → Bytes → Bool)
    (keys : List PinnedKey) where
  -- The fallback, with nothing new to remember.
  abbrev FellBack : ℕ → CeilingResult → ℕ → Type 0
  FellBack highest r noted =
      (r.source ≡ built_in) × (r.ceiling ≡ compiled_ceiling) × (noted ≡ highest)

  -- A ceiling that was signed and is no older than what was accepted before.
  abbrev IsAccepted : ℕ → CeilingResult → ℕ → Type 0
  IsAccepted highest r noted =
      (r.source ≢ built_in)
      × IsSigned parse_json verifies keys r.ceiling
      × IsSane r.ceiling
      × (highest ≤ r.ceiling.version)
      × (noted ≡ r.ceiling.version)

  abbrev pub Decided : ℕ → CeilingResult → ℕ → Type 0
  Decided highest r noted = FellBack highest r noted ⊎ IsAccepted highest r noted

  verify-cases :
      (envelope : Bytes)
      → ((e : Refusal) × (verify_ceiling parse_json verifies envelope keys ≡ refused e))
        ⊎ ((c : Ceiling) × (verify_ceiling parse_json verifies envelope keys ≡ ok c))
  verify-cases envelope = go (verify_ceiling parse_json verifies envelope keys) refl
    where
      go :
          (v : Checked Ceiling)
          → verify_ceiling parse_json verifies envelope keys ≡ v
          → ((e : Refusal) × (verify_ceiling parse_json verifies envelope keys ≡ refused e))
            ⊎ ((c : Ceiling) × (verify_ceiling parse_json verifies envelope keys ≡ ok c))
      go (ok c) e = inr (c, e)
      go (refused r) e = inl (r, e)

  from_cache-Decided :
      (cache : Option Bytes) (highest : ℕ)
      → Decided highest
          (from_cache parse_json verifies cache highest keys).0
          (from_cache parse_json verifies cache highest keys).1
  unfolding from_cache
  from_cache-Decided none highest = inl (refl, refl, refl)
  from_cache-Decided (some envelope) highest = elim (verify-cases envelope) [
    | inl (e, v) ↦ inl (rw (v, from_cache), rw (v, from_cache), rw (v, from_cache))
    | inr (c, v) ↦ elim (Bool-cases (ltb c.version highest)) [
      | inl old ↦
          inl
            (rw (v, from_cache) (rw old), rw (v, from_cache) (rw old), rw (v, from_cache) (rw old))
      | inr new ↦
          let (signed, sane) = verify_ceiling_sound parse_json verifies envelope keys c v in
          rw (v, from_cache) (rw new (inr ((λ e. cc), signed, sane, ground arith, ground arith)))
    ]
  ]

  noted-le :
      (highest : ℕ) (r : CeilingResult × ℕ)
      → Decided highest r.0 r.1
      → (v : ℕ) → r.1 ≤ v
      → highest ≤ v
  noted-le highest r (inl h) v le = omega arith
  noted-le highest r (inr h) v le = omega arith

  from_fetch-Decided :
      (fetch : Option Bytes) (highest : ℕ) (r : CeilingResult × ℕ)
      → Decided highest r.0 r.1
      → let d = from_fetch parse_json verifies fetch keys r in
        Decided highest d.result d.highest_accepted
  unfolding from_fetch
  from_fetch-Decided none highest r h = h
  from_fetch-Decided (some envelope) highest r h = elim (verify-cases envelope) [
    | inl (e, v) ↦ rw (v, from_fetch) h
    | inr (c, v) ↦ elim (Bool-cases (ltb c.version r.1)) [
      | inl old ↦ rw (v, from_fetch) (rw old h)
      | inr new ↦
          let (signed, sane) = verify_ceiling_sound parse_json verifies envelope keys c v in
          let no_older : highest ≤ c.version = noted-le highest r h c.version (ground arith) in
          rw (v, from_fetch) (rw new (inr ((λ e. cc), signed, sane, no_older, refl)))
    ]
  ]

  -- Whatever the two envelopes are, the ceiling that is used was signed under a pinned key, holds only
  -- well-formed families and is no older than the highest version accepted before, or it is the one that
  -- is compiled in; and the highest version goes on to be that of the ceiling, or stays.
  pub decide_ceiling-Decided :
      (cache fetch : Option Bytes) (highest : ℕ)
      → let d = decide_ceiling parse_json verifies cache fetch highest keys in
        Decided highest d.result d.highest_accepted
  unfolding decide_ceiling
  decide_ceiling-Decided cache fetch highest =
      from_fetch-Decided fetch highest (from_cache parse_json verifies cache highest keys)
        (from_cache-Decided cache highest)

  -- The version file and the one beside it can be written.
  abbrev pub IsWritable : State → Type 0
  IsWritable s =
      (s.disk.refuses (temporary (highest_path s.config)) ≡ false)
      × (s.disk.refuses (highest_path s.config) ≡ false)

  kept_highest :
      (config contents : Bytes) (d : Disk) (store : Bool)
      → let k : Disk = if store then (write_atomically d (ceiling_path config) contents).0 else d in
        (read_highest config k ≡ read_highest config d) × (k.refuses ≡ d.refuses)
  kept_highest config contents d false = (refl, refl)
  kept_highest config contents d true =
      let apart = paths_apart config in
      (
        read_highest-other config d (write_atomically d (ceiling_path config) contents).0 (
            file_at-write_atomically d (ceiling_path config) contents (highest_path config) apart.0
              apart.1),
        refuses-write_atomically d (ceiling_path config) contents,
      )

  noted_highest :
      (config : Bytes) (k : Disk) (n : ℕ)
      → read_highest config k ≤ n
      → (read_highest config k < n → n < 2 ^ 63)
      → k.refuses (temporary (highest_path config)) ≡ false
      → k.refuses (highest_path config) ≡ false
      → let e : Disk =
          if ltb (read_highest config k) n
          then (write_atomically k (highest_path config) (to_string n)).0
          else k in
        (read_highest config e ≡ n) × (e.refuses ≡ k.refuses)
  noted_highest config k n le small ht hp = elim (Bool-cases (ltb (read_highest config k) n)) [
    | inl e ↦ rw e (
      read_highest-write config k n (small (ground arith)) ht hp,
      refuses-write_atomically k (highest_path config) (to_string n),
    )
    | inr e ↦ rw e (ground arith, refl)
  ]

  load_ceiling-Decided :
      (fetch : Option Bytes) (s : State)
      → IsWritable s
      → let t = load_ceiling parse_json verifies fetch keys s in
        Decided (read_highest s.config s.disk) t.1 (read_highest t.0.config t.0.disk)
        × IsWritable t.0
  unfolding load_ceiling
  load_ceiling-Decided fetch s (ht, hp) =
      let highest = read_highest s.config s.disk in
      let d =
        decide_ceiling parse_json verifies (read_whole s.disk (ceiling_path s.config)) fetch highest
          keys in
      let decided : Decided highest d.result d.highest_accepted =
        decide_ceiling-Decided (read_whole s.disk (ceiling_path s.config)) fetch highest in
      let (same, refuses) = kept_highest s.config (value_or fetch []) s.disk d.store in
      let kept : Disk =
        if d.store
        then (write_atomically s.disk (ceiling_path s.config) (value_or fetch [])).0
        else s.disk in
      let le : read_highest s.config kept ≤ d.highest_accepted = rw same (
        noted-le highest (d.result, d.highest_accepted) decided d.highest_accepted (omega arith)) in
      let small : read_highest s.config kept < d.highest_accepted → d.highest_accepted < 2 ^ 63 =
        λ lt. small_accepted highest d.result d.highest_accepted decided (rw same at lt) in
      let (now, kept_refuses) =
        noted_highest s.config kept d.highest_accepted le small (rw refuses ht) (rw refuses hp) in
      (rw now decided, (rw (kept_refuses, refuses) ht, rw (kept_refuses, refuses) hp))
    where
      small_accepted :
          (highest : ℕ) (r : CeilingResult) (n : ℕ) → Decided highest r n → highest < n → n < 2 ^ 63
      small_accepted highest r n (inl h) lt = absurd (omega arith)
      small_accepted highest r n (inr (_, signed, sane, le, e)) lt = omega (arith, sane.small)

  -- The version in use, if the ceiling is not the one that is compiled in.
  in_use : CeilingResult → List ℕ → List ℕ
  in_use r vs = elim r.source [ built_in ↦ vs | _ ↦ r.ceiling.version ∷ vs ]

  pub run : List Event → State → State × List ℕ
  run [] s = (s, [])
  run (loads fetch ∷ es) s =
      let (t, r) = load_ceiling parse_json verifies fetch keys s in
      let (u, vs) = run es t in (u, in_use r vs)
  run (restarts ∷ es) s = run es (record s { current = none })

  Ascends-weaken : (n m : ℕ) (vs : List ℕ) → n ≤ m → Ascends m vs → Ascends n vs
  Ascends-weaken n m [] le h = tt
  Ascends-weaken n m (v ∷ vs) le h = (omega arith, h.1)

  in_use-Ascends :
      (highest noted : ℕ) (r : CeilingResult) (vs : List ℕ)
      → Decided highest r noted
      → Ascends noted vs
      → Ascends highest (in_use r vs)
  unfolding in_use
  in_use-Ascends highest noted r vs (inl (source, _, same)) h =
      rw (source, in_use) (Ascends-weaken highest noted vs (omega arith) h)
  in_use-Ascends highest noted r vs (inr (source, _, _, le, same)) h =
      rw (in_use-accepted r.source source) (le, rw (← same) h)
    where
      in_use-accepted :
          (source : CeilingSource)
          → source ≢ built_in
          → elim source [ built_in ↦ vs | _ ↦ r.ceiling.version ∷ vs ] ≡ r.ceiling.version ∷ vs
      in_use-accepted fetched h = refl
      in_use-accepted cached h = refl
      in_use-accepted built_in h = absurd (h refl)

  -- Where the version file can be written, the versions of the signed ceilings in use never go down, over any
  -- history of loads, with whatever answers, and of restarts, and none is below the highest remembered before.
  -- A load that falls back on the compiled ceiling, which has no signature, does not count.
  pub run-Ascends :
      (es : List Event) (s : State)
      → IsWritable s
      → Ascends (read_highest s.config s.disk) (run es s).1
  unfolding run
  run-Ascends [] s w = tt
  run-Ascends (loads fetch ∷ es) s w =
      let t = load_ceiling parse_json verifies fetch keys s in
      let (decided, kept) = load_ceiling-Decided fetch s w in
      in_use-Ascends (read_highest s.config s.disk) (read_highest t.0.config t.0.disk) t.1
        (run es t.0).1 decided (run-Ascends es t.0 kept)
  run-Ascends (restarts ∷ es) s w = run-Ascends es (record s { current = none }) w
