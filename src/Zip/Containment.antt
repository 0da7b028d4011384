-- ===== src/Zip/Containment.antt =====
-- What extracting an archive makes is under the folder that it is extracted to.
use openpak_client.Shared.{
  ℕ, zero, suc, ◌+◌, ◌-◌, ◌%◌, ◌^◌, ◌≡◌, refl, sym, ap, ◌∙◌, inl, inr, Bool, true, false, not, ◌||◌,
  Option, none, some, List, [], ◌∷◌, arith, ltb, ◌==◌, if◌then◌else◌, Bool-cases, length, is_nil,
  any_of, ◌++◌, All, starts_with, ends_with, Bytes,
}
use openpak_client.Zip.Headers.{
  CentralEntry, central_of, eocd_of, Access, inside, outside, ◌>>=◌, memcpy, central_signature,
  central_size, eocd_size,
}
use openpak_client.Zip.Paths.{
  parts, is_void, is_climb, normal_from, ends_open, print_path, safe_path,
}
use openpak_client.Zip.Paths.Landing.{named, onto, safe_path-named}
use openpak_client.Zip.{
  on_some, Effect, directory, file, parents, partial, find_eocd, read_data, read_named, read_entry,
  done, trace, extract, unzip_to_directory,
}

abbrev pub place : Effect → Bytes
place (directory path) = path
place (file path contents) = path
place (parents path) = path
place (partial path) = path

-- A part of a path that names nothing of its own: it is empty, a dot or two, or holds a separator.
abbrev pub is_stray : Bytes → Bool
is_stray p = is_void p || is_climb p || any_of (λ c. c == b'/') p

-- The path is the root's, with parts under it that each name one member of the folder above it.
pub record IsUnder (root : List Bytes) (path : Bytes) : Type 0 where
  pub below : List Bytes
  pub kept : Bool
  pub plain : any_of is_stray below ≡ false
  pub here : path ≡ print_path (onto below (normal_from root [])) kept

parts-full : (name : Bytes) → is_nil (parts name) ≡ false
unfolding parts
parts-full [] = refl
parts-full (c ∷ cs) = go (parts cs) refl
  where
    go : (ps : List Bytes) → parts cs ≡ ps → is_nil (parts (c ∷ cs)) ≡ false
    go [] e = rw (e, parts) refl
    go (p ∷ ps) e = elim (Bool-cases (c == b'/')) [
      | inl f ↦ rw (e, f, parts) refl
      | inr f ↦ rw (e, f, parts) refl
    ]

-- A part of a path has no separator.
parts-plain : (name : Bytes) → any_of (λ p. any_of (λ c. c == b'/') p) (parts name) ≡ false
unfolding parts
parts-plain [] = refl
parts-plain (c ∷ cs) = go (parts cs) refl (parts-plain cs)
  where
    go :
        (ps : List Bytes)
        → parts cs ≡ ps
        → any_of (λ p. any_of (λ c. c == b'/') p) ps ≡ false
        → any_of (λ p. any_of (λ c. c == b'/') p) (parts (c ∷ cs)) ≡ false
    go [] e h = absurd (ground (arith, parts-full cs, ap is_nil e))
    go (p ∷ ps) e h = elim (Bool-cases (c == b'/')) [
      | inl f ↦ rw (e, f, parts) h
      | inr f ↦ rw (e, f, parts) (ground (arith, f, h))
    ]

named-plain :
    (ps : List Bytes)
    → any_of is_climb ps ≡ false
    → any_of (λ p. any_of (λ c. c == b'/') p) ps ≡ false
    → any_of is_stray (named ps) ≡ false
named-plain [] h k = refl
named-plain (p ∷ ps) h k = elim (Bool-cases (is_void p)) [
  | inl e ↦ rw e (named-plain ps (ground arith) (ground arith))
  | inr e ↦
      let hp : is_climb p ≡ false = ground arith in
      let hs : any_of is_climb ps ≡ false = ground arith in
      let kp : any_of (λ c. c == b'/') p ≡ false = ground arith in
      let ks : any_of (λ p. any_of (λ c. c == b'/') p) ps ≡ false = ground arith in
      rw (e, e, hp, kp) (named-plain ps hs ks)
]

safe_path-IsUnder :
    (root : List Bytes) (name path : Bytes) → safe_path root name ≡ some path → IsUnder root path
safe_path-IsUnder root name path h =
    go (starts_with (b'/' ∷ []) name) (any_of is_climb (parts name)) refl
      (sym (safe_path-named root name) ∙ h)
  where
    go :
        (a c : Bool)
        → any_of is_climb (parts name) ≡ c
        → (if a || c
            then none
            else some (
                print_path
                  (onto (named (parts name)) (normal_from root []))
                  (ends_open (parts name))))
          ≡ some path
        → IsUnder root path
    go true c e k = cc
    go false true e k = cc
    go false false e k = record {
      below = named (parts name);
      kept = ends_open (parts name);
      plain = named-plain (parts name) e (parts-plain name);
      here = cc;
    }

-- What is read, if it is, has the property.
Holds {ℓ} : {A : Type ℓ} → (A → Type 0) → Access A → Type 0
Holds P (inside a) = P a
Holds P outside = Unit

module _ {ℓ κ} {A : Type ℓ} {B : Type κ} (P : B → Type 0) where
  Holds->>= : (m : Access A) (f : A → Access B) → ((a : A) → Holds P (f a)) → Holds P (m >>= f)
  unfolding Holds
  Holds->>= (inside a) f k = k a
  Holds->>= outside f k = tt

  Holds-on_some :
      (b : Access B) (f : A → Access B) (o : Option A)
      → Holds P b
      → ((a : A) → o ≡ some a → Holds P (f a))
      → Holds P (on_some b f o)
  Holds-on_some b f none h k = h
  Holds-on_some b f (some a) h k = k a refl

Holds-if {ℓ} :
    {A : Type ℓ} (P : A → Type 0) (c : Bool) (a b : Access A)
    → Holds P a
    → Holds P b
    → Holds P (if c then a else b)
Holds-if P true a b h k = h
Holds-if P false a b h k = k

module _ (inflate : Bytes → ℕ → Option Bytes) (root : List Bytes) (zip : Bytes) where
  -- A step that an entry asks for.
  Step : Option (Effect × ℕ) → Type 0
  Step none = Unit
  Step (some (e, next)) = IsUnder root (place e)

  read_named-Holds : (c : CentralEntry) (at : ℕ) → Holds Step (read_named inflate root zip c at)
  unfolding read_named Holds Step
  read_named-Holds c at = Holds-if Step (not (c.signature == central_signature)) _ _ tt (
      Holds-if Step (ltb (length zip) (at + c.name_length + c.extra_length + c.comment_length)) _ _
        tt
        (Holds->>= Step (memcpy zip at c.name_length) _ (λ name.
          Holds-if Step (is_nil name) _ _ tt (
            Holds-on_some Step _ _ (safe_path root name) tt (λ path e.
              let u = safe_path-IsUnder root name path e in
              Holds-if Step (ends_with (b'/' ∷ []) name) _ _ u (
                Holds->>= Step (read_data inflate zip c) _
                  (λ found. Holds-on_some Step _ _ found tt (λ bytes _. u))))))))

  read_entry-Holds : (at : ℕ) → Holds Step (read_entry inflate root zip at)
  unfolding read_entry Holds Step
  read_entry-Holds at = Holds-if Step (ltb (length zip) (at + central_size)) _ _ tt (
      Holds->>= Step (memcpy zip at central_size) _
        (λ b. read_named-Holds (central_of b) (at + central_size)))

  module _ (writes : Bytes → Bool) where
    AreUnder : List Effect × Bool → Type 0
    AreUnder (es, whole) = All (λ e. IsUnder root (place e)) es

    extract-Holds : (n at : ℕ) → Holds AreUnder (extract inflate root writes zip n at)
    unfolding extract Holds AreUnder Step
    extract-Holds zero at = tt
    extract-Holds (suc n) at =
        from (read_entry inflate root zip at) (read_entry-Holds at) (extract-Holds n)
      where
        goes :
            ℕ
            → Effect
            → (b : Bool) (rest : Access (List Effect × Bool)) → Access (List Effect × Bool)
        goes at e b rest =
            if b
            then rest >>= (λ r. inside (trace inflate root writes e ++ r.0, r.1))
            else inside (trace inflate root writes e, false)

        traced :
            (e : Effect) (es : List Effect)
            → IsUnder root (place e)
            → All (λ e. IsUnder root (place e)) es
            → All (λ e. IsUnder root (place e)) (trace inflate root writes e ++ es)
        traced (directory path) es u h = (u, h)
        traced (file path contents) es u h = elim (Bool-cases (writes path)) [
          | inl f ↦ rw f (u, (u, h))
          | inr f ↦ rw f (u, (u, h))
        ]
        traced (parents path) es u h = (u, h)
        traced (partial path) es u h = (u, h)

        alone :
            (e : Effect)
            → IsUnder root (place e)
            → All (λ e. IsUnder root (place e)) (trace inflate root writes e)
        alone (directory path) u = (u, tt)
        alone (file path contents) u = elim (Bool-cases (writes path)) [
          | inl f ↦ rw f (u, (u, tt))
          | inr f ↦ rw f (u, (u, tt))
        ]
        alone (parents path) u = (u, tt)
        alone (partial path) u = (u, tt)

        goes-Holds :
            (at : ℕ) (e : Effect) (b : Bool) (rest : Access (List Effect × Bool))
            → IsUnder root (place e)
            → Holds AreUnder rest
            → Holds AreUnder (goes at e b rest)
        goes-Holds at e false rest u h = alone e u
        goes-Holds at e true (inside (es, whole)) u h = traced e es u h
        goes-Holds at e true outside u h = tt

        from :
            (r : Access (Option (Effect × ℕ)))
            → Holds Step r
            → ((at : ℕ) → Holds AreUnder (extract inflate root writes zip n at))
            → Holds AreUnder (
                r
                >>= on_some (inside ([], false)) (λ step.
                  goes step.1 step.0
                    (done inflate root writes step.0)
                    (extract inflate root writes zip n step.1)))
        from outside h k = tt
        from (inside none) h k = tt
        from (inside (some (e, next))) h k =
            goes-Holds next e (done inflate root writes e) (extract inflate root writes zip n next)
              h (k next)

    unzip-Holds : (made : Bool) → Holds AreUnder (unzip_to_directory inflate root writes made zip)
    unfolding unzip_to_directory Holds AreUnder
    unzip-Holds made = Holds-if AreUnder (ltb (length zip) eocd_size) _ _ tt (
        Holds->>= AreUnder (find_eocd zip (length zip - eocd_size)) _ (λ found.
          Holds-on_some AreUnder _ _ found tt (λ at _.
            Holds->>= AreUnder (memcpy zip at eocd_size) _ (λ b.
              let e = eocd_of b in
              Holds-if AreUnder (ltb at ((e.dir_offset + e.dir_size) % 2 ^ 32)) _ _ tt
                (Holds-if AreUnder (not made) _ _ tt (extract-Holds e.entries e.dir_offset))))))

    -- Whatever an archive names, each path at which extracting it makes a file, a part of one or a folder, or
    -- makes the folders above, is the root's with parts under it that are neither empty nor a dot nor two
    -- and hold no separator, whether all of the archive was extracted or not.
    pub unzip_to_directory-IsUnder :
        (made whole : Bool) (es : List Effect)
        → unzip_to_directory inflate root writes made zip ≡ inside (es, whole)
        → All (λ e. IsUnder root (place e)) es
    unfolding Holds AreUnder
    unzip_to_directory-IsUnder made whole es h = rw h at (unzip-Holds made)
