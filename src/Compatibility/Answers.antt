-- ===== src/Compatibility/Answers.antt =====
-- What a title's status and name are after an answer of the site.
use openpak_client.Shared.{
  ℕ, ◌≡◌, refl, sym, ap, ◌∙◌, ◌⊎◌, inl, inr, Bool, true, false, not, ◌&&◌, Option, none, some, List,
  [], ◌∷◌, arith, ◌==◌, if◌then◌else◌, Bool-cases, value_or, is_some, is_nil, any_of, Bytes, nat_eq,
  text_eq,
}
use openpak_client.Shared.Maps.{lookup, insert, lookup-insert}
use openpak_client.Compatibility.{
  Shipped, Status, alpha, Entry, State, parse, row, gather, non_empty, find_shipped, merge, find,
  apply, apply_names, catalogue_name,
}

module _ {ℓ} {V : Type ℓ} where
  abbrev pub or_else : Option V → Option V → Option V
  or_else none old = old
  or_else (some v) old = some v

  or_else_assoc : (a b c : Option V) → or_else (or_else a b) c ≡ or_else a (or_else b c)
  or_else_assoc none b c = refl
  or_else_assoc (some v) b c = refl

  -- What a row says of a title.
  abbrev pub of_row : Option (ℕ × V) → ℕ → Option V
  of_row none k = none
  of_row (some (j, v)) k = if j == k then some v else none

  put : Option (ℕ × V) → List (ℕ × V) → List (ℕ × V)
  put o m = elim o [ none ↦ m | some (k, v) ↦ insert k v m ]

  lookup-put :
      (o : Option (ℕ × V)) (m : List (ℕ × V)) (k : ℕ)
      → lookup k (put o m) ≡ or_else (of_row o k) (lookup k m)
  unfolding put
  lookup-put none m k = refl
  lookup-put (some (j, v)) m k = ground (arith, lookup-insert j k v m)

  is_nil-put :
      (o : Option (ℕ × V)) (m : List (ℕ × V)) → is_nil (put o m) ≡ not (is_some o) && is_nil m
  unfolding put insert
  is_nil-put none m = refl
  is_nil-put (some (j, v)) [] = refl
  is_nil-put (some (j, v)) (e ∷ m) = ground arith

module _ {ℓ} {V : Type ℓ} (word : Bytes → Option V) where
  -- What the answer says of a title: the last row that can be used and names it.
  abbrev pub said : List (Bytes × Bytes) → ℕ → Option V
  said [] k = none
  said (r ∷ rows) k = or_else (said rows k) (of_row (row word r) k)

  -- Whether a row of the answer can be used.
  abbrev pub heard : List (Bytes × Bytes) → Bool
  heard rows = any_of (λ r. is_some (row word r)) rows

  pub lookup-gather :
      (rows : List (Bytes × Bytes)) (m : List (ℕ × V)) (k : ℕ)
      → lookup k (gather word rows m) ≡ or_else (said rows k) (lookup k m)
  unfolding gather put
  lookup-gather [] m k = refl
  lookup-gather (r ∷ rows) m k =
      lookup-gather rows (put (row word r) m) k
      ∙ (ap (λ t. or_else (said rows k) t) (lookup-put (row word r) m k)
          ∙ sym (or_else_assoc (said rows k) (of_row (row word r) k) (lookup k m)))

  pub is_nil-gather :
      (rows : List (Bytes × Bytes)) (m : List (ℕ × V))
      → is_nil (gather word rows m) ≡ not (heard rows) && is_nil m
  unfolding gather put
  is_nil-gather [] m = refl
  is_nil-gather (r ∷ rows) m =
      is_nil-gather rows (put (row word r) m) ∙ ground (arith, is_nil-put (row word r) m)

or_else-none {ℓ} : {V : Type ℓ} → (a : Option V) → or_else a none ≡ a
or_else-none none = refl
or_else-none (some v) = refl

-- One member of what may be there.
abbrev pub shown {ℓ κ} : {A : Type ℓ} {B : Type κ} → (A → B) → Option A → Option B
shown f none = none
shown f (some a) = some (f a)

-- An entry has the site's status if it gives one, else the build's, alpha where the build's cannot be read;
-- its name and its server are the build's, or empty; there is none if neither names the title.
abbrev pub IsEntry : Option Shipped → Option Status → Option Entry → Type 0
IsEntry built site e =
    (shown (λ e. e.status) e
      ≡ or_else site (shown (λ (s : Shipped). value_or (parse s.status) alpha) built))
    × (value_or (shown (λ e. e.name) e) [] ≡ value_or (shown (λ (s : Shipped). s.name) built) [])
    × (value_or (shown (λ e. e.backend) e) []
        ≡ value_or (shown (λ (s : Shipped). s.backend) built) [])

merge-IsEntry :
    (shipped : List Shipped) (built : Option Shipped) (site : Option Status)
    → IsEntry built site (merge shipped built site)
unfolding merge
merge-IsEntry shipped none none = (refl, refl, refl)
merge-IsEntry shipped none (some now) = (refl, refl, refl)
merge-IsEntry shipped (some s) none = (refl, refl, refl)
merge-IsEntry shipped (some s) (some now) = (refl, refl, refl)

-- After an answer of which some row can be used, a title has the build's name and server and the
-- status of the last row that names it, or the build's where none does; an answer of which no row can
-- be used changes nothing and is no news.
pub find-apply :
    (shipped : List Shipped) (rows : List (Bytes × Bytes)) (s : State) (id : ℕ)
    → (heard parse rows ≡ true)
        × IsEntry
            (find_shipped shipped id)
            (said parse rows id)
            (find shipped id (apply shipped rows s).0)
      ⊎ (heard parse rows ≡ false) × (apply shipped rows s ≡ (s, false))
unfolding find apply lookup
find-apply shipped rows s id =
    let empty = is_nil-gather parse rows [] in
    elim (Bool-cases (heard parse rows)) [
      | inl e ↦ inl (
        e,
        rw (empty, e)
            (rw (lookup-gather parse rows [] id ∙ or_else-none (said parse rows id))
              (merge-IsEntry shipped (find_shipped shipped id) (said parse rows id))),
      )
      | inr e ↦ inr (e, rw (empty, e))
    ]

named :
    (shipped : List Shipped) (a : Option Bytes) (s : State) (id : ℕ)
    → lookup id s.names ≡ a
    → catalogue_name shipped id s ≡ value_or a (catalogue_name shipped id (record s { names = [] }))
unfolding catalogue_name lookup
named shipped none s id e = rw (e, catalogue_name)
named shipped (some v) s id e = rw (e, catalogue_name)

-- After an answer of names of which some row can be used, a title's name is the one of the last row
-- that names it, or the build's, or empty; another answer leaves every name as it was.
pub catalogue_name-apply_names :
    (shipped : List Shipped) (rows : List (Bytes × Bytes)) (s : State) (id : ℕ)
    → (heard non_empty rows ≡ true)
        × (catalogue_name shipped id (apply_names rows s)
            ≡ value_or
                (said non_empty rows id)
                (catalogue_name shipped id (record s { names = [] })))
      ⊎ (heard non_empty rows ≡ false) × (apply_names rows s ≡ s)
unfolding catalogue_name apply_names lookup
catalogue_name-apply_names shipped rows s id =
    let empty = is_nil-gather non_empty rows [] in
    let now = lookup-gather non_empty rows [] id ∙ or_else-none (said non_empty rows id) in
    elim (Bool-cases (heard non_empty rows)) [
      | inl e ↦ inl (
        e,
        rw (empty, e)
            (named shipped (said non_empty rows id)
              (record s { names = gather non_empty rows []; names_loaded = true }) id now),
      )
      | inr e ↦ inr (e, rw (empty, e))
    ]
