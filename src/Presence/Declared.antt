-- ===== src/Presence/Declared.antt =====
-- What an update does to the declarations.
use openpak_client.Shared.{
  ℕ, ◌≡◌, refl, sym, ap, ◌∙◌, ◌≢◌, ◌⊎◌, inl, inr, Bool, true, false, Option, arith, ◌==◌,
  if◌then◌else◌, ==_iff, Bool-cases, Option-cases, value_or, Bytes, bytes_eq, bytes_eq_iff, nat_eq,
  text_eq,
}
use openpak_client.Shared.Maps.{lookup, lookup-insert, lookup-insert_self}
use openpak_client.Shared.Int.{ℤ}
use openpak_client.Presence.{
  same_bool, DeclaredPresence, State, declaration_open, declaration_close, fresh, for_title,
  declared_for, declare, differs, update,
}

same_bool_iff : (a b : Bool) → same_bool a b ≡ true → a ≡ b
same_bool_iff true b h = sym h
same_bool_iff false true h = cc
same_bool_iff false false h = refl

declared_for-title : (p : Bytes) (t : ℕ) (s : State) → (declared_for p t s).title_id ≡ t
unfolding declared_for
declared_for-title p t s = elim (Option-cases (lookup p s.states)) [
  | inl e ↦ rw e
  | inr (d, e) ↦ rw e (ground arith)
]

-- The session that a declaration leaves: open, closed, or as it was.
abbrev pub session_after : ℕ → Bool → Bool
session_after declaration before =
    if declaration == declaration_open
    then true
    else if declaration == declaration_close
    then false
    else before

pub declared_for-update_same :
    (p : Bytes) (t u declaration : ℕ) (field : Option Bytes) (now : ℤ) (s : State)
    → let old = declared_for p t s in
      let next = declare old t declaration field in
      declared_for p u (update p t declaration field now s).0 ≡ (
        if t == u
        then record next { updated_at = if differs next old then now else next.updated_at }
        else fresh u)
unfolding update declared_for declare
declared_for-update_same p t u declaration field now s =
    rw (lookup-insert_self p _ s.states, for_title)

declared_for-update_other :
    (p q : Bytes) (t u declaration : ℕ) (field : Option Bytes) (now : ℤ) (s : State)
    → bytes_eq p q ≡ false
    → declared_for q u (update p t declaration field now s).0 ≡ declared_for q u s
unfolding update declared_for
declared_for-update_other p q t u declaration field now s h = rw (lookup-insert p q, h)

ne_false : (a b : Bool) → same_bool a b ≡ false → a ≢ b
ne_false true true h e = absurd (cc)
ne_false true false h e = absurd (cc)
ne_false false true h e = absurd (cc)
ne_false false false h e = absurd (cc)

-- What is declared after an update, for any profile and title: for the profile that declared, the
-- session as the byte says, or else as it was, and the pairs that came, or else those there were; for
-- another title of that profile nothing; for another profile what it was.
pub declared_for-update :
    (p q : Bytes) (t u declaration : ℕ) (field : Option Bytes) (now : ℤ) (s : State)
    → let d = declared_for q u (update p t declaration field now s).0 in
      let old = declared_for p t s in
      (p ≡ q)
        × (t ≡ u)
        × (d.session_open ≡ session_after declaration old.session_open)
        × (d.app_field ≡ value_or field old.app_field)
      ⊎ ((p ≡ q) × (t ≢ u) × (d ≡ fresh u) ⊎ (p ≢ q) × (d ≡ declared_for q u s))
unfolding declare
declared_for-update p q t u declaration field now s = elim (Bool-cases (bytes_eq p q)) [
  | inl e ↦
      let same : p ≡ q = (bytes_eq_iff p q).0 e in
      let old = declared_for p t s in
      let next = declare old t declaration field in
      let after : declared_for q u (update p t declaration field now s).0 ≡ (
          if t == u
          then record next { updated_at = if differs next old then now else next.updated_at }
          else fresh u) =
        ap (λ k. declared_for k u (update p t declaration field now s).0) (sym same)
        ∙ declared_for-update_same p t u declaration field now s in
      elim (Bool-cases (t == u)) [
        | inl f ↦ inl (same, (==_iff t u).0 f, rw (after, f), rw (after, f))
        | inr f ↦ inr (inl (same, ground (arith, f), after ∙ rw f))
      ]
  | inr e ↦ inr (
      inr (
        ground (arith, e, bytes_eq_iff p q),
        declared_for-update_other p q t u declaration field now s e,
      ))
]

differs-title :
    (next previous : DeclaredPresence)
    → next.title_id ≡ previous.title_id
    → (differs next previous ≡ true)
        × ((next.session_open ≢ previous.session_open) ⊎ (next.app_field ≢ previous.app_field))
      ⊎ (differs next previous ≡ false)
        × (next.session_open ≡ previous.session_open)
        × (next.app_field ≡ previous.app_field)
unfolding differs
differs-title next previous same = ground (
  arith,
  ne_false next.session_open previous.session_open,
  same_bool_iff next.session_open previous.session_open,
  bytes_eq_iff next.app_field previous.app_field,
)

same_fields :
    (a b : DeclaredPresence)
    → a.title_id ≡ b.title_id
    → a.session_open ≡ b.session_open
    → a.app_field ≡ b.app_field
    → a.updated_at ≡ b.updated_at
    → a ≡ b
same_fields a b e f g h =
    λ i. record { title_id = e i; session_open = f i; app_field = g i; updated_at = h i }

-- An update reports a change exactly when the session or the pairs differ from what was declared for
-- the title; it then stamps the time and calls back if a callback is set, and otherwise leaves the
-- declaration as it was and does not call.
pub update_changed :
    (p : Bytes) (t declaration : ℕ) (field : Option Bytes) (now : ℤ) (s : State)
    → let old = declared_for p t s in
      let r = update p t declaration field now s in
      let new = declared_for p t r.0 in
      (r.1 ≡ true)
        × ((new.session_open ≢ old.session_open) ⊎ (new.app_field ≢ old.app_field))
        × (new.updated_at ≡ now)
        × (r.2 ≡ s.has_callback)
      ⊎ (r.1 ≡ false) × (new ≡ old) × (r.2 ≡ false)
unfolding update
update_changed p t declaration field now s =
    let old = declared_for p t s in
    let next = declare old t declaration field in
    let r = update p t declaration field now s in
    let title : t ≡ old.title_id = sym (declared_for-title p t s) in
    let after : declared_for p t r.0
        ≡ record next { updated_at = if differs next old then now else next.updated_at } =
      declared_for-update_same p t t declaration field now s ∙ rw ((==_iff t t).1 refl) in
    elim (differs-title next old (unfold declare in title)) [
      | inl (d, ne) ↦ inl (d, rw after (unfold declare in ne), rw (after, d), rw d)
      | inr (d, opened, field') ↦
          inr (d, after ∙ rw d (unfold declare in same_fields _ _ title opened field' refl), rw d)
    ]
