-- ===== src/Account/Generation.antt =====
-- The generation tells a caller that caches what it derived from the account when to drop it.
use openpak_client.Shared.{
  ℕ, ◌+◌, ◌-◌, ◌*◌, ◌%◌, ◌^◌, ◌<◌, ◌≤◌, ◌≡◌, refl, sym, ap, ◌∙◌, ◌⊎◌, inl, inr, true, List, [], ◌∷◌,
  length, arith, Bool-cases, Bytes, bytes_eq, bytes_eq_iff, nat_eq, text_eq,
}
use openpak_client.Account.{
  Store, ensure_loaded, current, get_generation, write_account, save_bearer_only, save, clear,
  forget, Call, saves, clears, forgets, step, bump,
}

-- The account of the active profile `p` is loaded.
pub record IsOpen (p : Bytes) (s : Store) : Type 0 where
  pub is_loaded : s.loaded ≡ true
  pub is_active : s.profile ≡ p
  pub in_u64 : s.generation < 2 ^ 64

open_current : (p : Bytes) (s : Store) → IsOpen p s → current p s ≡ s.account
unfolding current ensure_loaded
open_current p s v = ground (arith, bytes_eq_iff p s.profile)

open_generation : (p : Bytes) (s : Store) → IsOpen p s → get_generation p s ≡ s.generation
unfolding get_generation ensure_loaded
open_generation p s v = ground (arith, bytes_eq_iff p s.profile)

-- Opening a profile bumps the generation of a loaded store unless it is the loaded one.
opened_or_bumped :
    (q : Bytes) (s : Store)
    → s.loaded ≡ true
    → (ensure_loaded q s ≡ s) ⊎ ((ensure_loaded q s).generation ≡ bump s.generation)
unfolding ensure_loaded
opened_or_bumped q s h = elim (Bool-cases (bytes_eq q s.profile)) [
  | inl e ↦ inl (rw (h, e))
  | inr e ↦ inr (rw (h, e))
]

-- What callers do: a profile's call, a read of the active profile's account, or `SaveBearerOnly`.
pub data Act : Type 0 where
  calls : Bytes → Call → Act
  reads : Bytes → Act
  signs : Bytes → Bytes → Act

unfoldable pub act : Act → Store → Store
act (calls r c) s = step r c s
act (reads r) s = ensure_loaded r s
act (signs username bearer) s = save_bearer_only username bearer s

unfoldable pub run : List Act → Store → Store
unfolding act
run [] s = s
run (a ∷ acts) s = run acts (act a s)

-- The generation after one or two bumps.
Moved : ℕ → ℕ → Type 0
Moved g h = (h ≡ bump g) ⊎ (h ≡ bump (bump g))

Same : Store → Store → Type 0
Same s t =
    (t.loaded ≡ true)
    × (t.profile ≡ s.profile)
    × (t.account ≡ s.account)
    × (t.generation ≡ s.generation)

opened_near :
    (q : Bytes) (s : Store)
    → ((ensure_loaded q s).generation ≡ s.generation)
      ⊎ ((ensure_loaded q s).generation ≡ bump s.generation)
unfolding ensure_loaded
opened_near q s = ground arith

-- Opening a profile and one bump.
acting : (r : Bytes) (s : Store) → Moved s.generation (bump (ensure_loaded r s).generation)
unfolding Moved
acting r s = elim (opened_near r s) [
  | inl same ↦ inl (ap bump same)
  | inr more ↦ inr (ap bump more)
]

-- What is done moves the generation by two bumps at most.
act-near :
    (a : Act) (s : Store)
    → ((act a s).generation ≡ s.generation) ⊎ Moved s.generation (act a s).generation
unfolding act step save clear forget write_account save_bearer_only Moved
act-near (calls r (saves a)) s = inr (acting r s)
act-near (calls r clears) s = inr (acting r s)
act-near (calls r forgets) s = ground arith
act-near (reads r) s = elim (opened_near r s) [ inl e ↦ inl e | inr e ↦ inr (inl e) ]
act-near (signs username bearer) s = inr (inl refl)

-- Where an account is loaded, it stays or the generation moves.
act-Same :
    (a : Act) (s : Store)
    → s.loaded ≡ true
    → Same s (act a s) ⊎ Moved s.generation (act a s).generation
unfolding act step save clear forget write_account save_bearer_only Moved Same
act-Same (calls r (saves a)) s h = inr (acting r s)
act-Same (calls r clears) s h = inr (acting r s)
act-Same (calls r forgets) s h = elim (Bool-cases (bytes_eq r s.profile)) [
  | inl e ↦ inr (inl (rw e refl))
  | inr e ↦ inl (rw e (h, refl, refl, refl))
]
act-Same (reads r) s h = elim (opened_or_bumped r s h) [
  | inl e ↦ inl (rw e (h, refl, refl, refl))
  | inr e ↦ inr (inl e)
]
act-Same (signs username bearer) s h = inr (inl refl)

-- So many bumps away, but not none.
record Far (n g h : ℕ) : Type 0 where
  bumps : ℕ
  some_bump : 1 ≤ bumps
  few : bumps ≤ n
  away : h ≡ (g + bumps) % 2 ^ 64

Moved-Far : (g h : ℕ) → Moved g h → Far 2 g h
unfolding Moved
Moved-Far g h (inl e) = record {
  bumps = 1;
  some_bump = omega arith;
  few = omega arith;
  away = omega arith;
}
Moved-Far g h (inr e) = record {
  bumps = 2;
  some_bump = omega arith;
  few = omega arith;
  away = omega arith;
}

Far-more : (n g h k : ℕ) → Far n g h → (k ≡ h) ⊎ Moved h k → Far (n + 2) g k
unfolding Moved
Far-more n g h k f (inl e) = record {
  bumps = f.bumps;
  some_bump = f.some_bump;
  few = omega (arith, f.few);
  away = e ∙ f.away;
}
Far-more n g h k f (inr (inl e)) = record {
  bumps = f.bumps + 1;
  some_bump = omega arith;
  few = omega (arith, f.few);
  away = omega (arith, f.away);
}
Far-more n g h k f (inr (inr e)) = record {
  bumps = f.bumps + 2;
  some_bump = omega arith;
  few = omega (arith, f.few);
  away = omega (arith, f.away);
}

Track : ℕ → Store → Store → Type 0
Track n s t = Same s t ⊎ Far n s.generation t.generation

act-Track : (n : ℕ) (a : Act) (s t : Store) → Track n s t → Track (n + 2) s (act a t)
unfolding Track Same
act-Track n a s t (inl (on, profile, account, same)) = elim (act-Same a t on) [
  | inl (on2, profile2, account2, same2) ↦
      inl (on2, profile2 ∙ profile, account2 ∙ account, same2 ∙ same)
  | inr moved ↦
      let f = Moved-Far t.generation (act a t).generation moved in
      inr (record {
        bumps = f.bumps;
        some_bump = f.some_bump;
        few = omega (arith, f.few);
        away = f.away ∙ ap (λ g. (g + f.bumps) % 2 ^ 64) same;
      })
]
act-Track n a s t (inr f) =
    inr (Far-more n s.generation t.generation (act a t).generation f (act-near a t))

run-Track :
    (acts : List Act) (n : ℕ) (s t : Store)
    → Track n s t
    → Track (n + 2 * length acts) s (run acts t)
unfolding run
run-Track [] n s t h = rw (zero_more n) h
  where
    zero_more : (n : ℕ) → n + 2 * 0 ≡ n
    zero_more n = omega arith
run-Track (a ∷ acts) n s t h =
    let e : n + 2 * length (a ∷ acts) ≡ n + 2 + 2 * length acts = omega arith in
    rw e (run-Track acts (n + 2) s (act a t) (act-Track n a s t h))

-- Where a profile's account is loaded, that profile is the active one and the generation is a 64-bit number:
-- after any history of fewer than 2 ^ 63 - 1 calls, reads and uses of `SaveBearerOnly`, by whichever profiles, a
-- caller that sees the generation from before sees the account from before, whichever profile is active then.
pub current-run_generation :
    (p q : Bytes) (acts : List Act) (s : Store)
    → IsOpen p s
    → length acts < 2 ^ 63 - 1
    → get_generation p s ≡ get_generation q (run acts s)
    → current q (run acts s) ≡ current p s
unfolding current get_generation act Track Same
current-run_generation p q acts s v few e =
    elim (act-Track (0 + 2 * length acts) (reads q) s (run acts s)
      (run-Track acts 0 s s (inl (v.is_loaded, refl, refl, refl)))) [
        | inl (on, profile, account, same) ↦ account ∙ sym (open_current p s v)
        | inr f ↦
            let same : s.generation ≡ (s.generation + f.bumps) % 2 ^ 64 =
              sym (open_generation p s v) ∙ (e ∙ f.away) in
            absurd (omega (arith, same, f.some_bump, f.few, few, v.in_u64))
      ]
