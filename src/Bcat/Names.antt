-- ===== src/Bcat/Names.antt =====
-- The names of a manifest, and the paths that they give.
use openpak_client.Shared.{
  ℕ, ◌-◌, ◌/◌, ◌%◌, ◌≤◌, ◌≡◌, ◌≢◌, refl, sym, ap, ◌∙◌, inl, inr, true, false, not, ◌||◌, none, some,
  [], ◌∷◌, ◌++◌, arith, append_assoc, Bool-cases, Option-cases, length, length-append,
  drop-append_length, append-cancel_left, all_of, is_nil, is_some, cut_at, cut_at-append,
  append-cut_at, Lacks, starts_with, ends_with, Bytes, bytes_eq, bytes_eq_iff, codes,
}
use openpak_client.Shared.Disk.{path_append}
use openpak_client.Crash.Texts.{append_hex, digit}
use openpak_client.Crash.Texts.Numbers.{append_hex-last}
use openpak_client.Bcat.{
  File, is_name_char, valid_name, split, cache_directory, manifest_path, stored_path,
  max_name_length,
}

valid_name-Lacks : (name : Bytes) → all_of is_name_char name ≡ true → Lacks b'/' name
valid_name-Lacks [] h = tt
valid_name-Lacks (c ∷ cs) h =
    (λ e. absurd (ground (arith, h, e)), valid_name-Lacks cs (ground (arith, h)))

cut_at-none : (c : ℕ) (s : Bytes) → Lacks c s → cut_at c s ≡ none
unfolding cut_at
cut_at-none c [] h = refl
cut_at-none c (x ∷ s) h = ground (arith, h.0, cut_at-none c s h.1)

valid_name-parts :
    (name : Bytes)
    → valid_name name ≡ true
    → (is_nil name ≡ false) × (length name ≤ max_name_length) × (all_of is_name_char name ≡ true)
unfolding valid_name
valid_name-parts name h = (ground (arith, h), ground (arith, h), ground (arith, h))

-- A path is delivered exactly when it is a directory and a file with a separator between, both of whose names
-- are valid; it is then cut there.
pub split_iff :
    (path directory name : Bytes)
    → (split path ≡ some (directory, name)
        → (path ≡ directory ++ b'/' ∷ name)
          × (valid_name directory ≡ true)
          × (valid_name name ≡ true))
      × ((path ≡ directory ++ b'/' ∷ name)
            × (valid_name directory ≡ true)
            × (valid_name name ≡ true)
          → split path ≡ some (directory, name))
unfolding split
split_iff path directory name = (sound, complete)
  where
    sound :
        split path ≡ some (directory, name)
        → (path ≡ directory ++ b'/' ∷ name)
          × (valid_name directory ≡ true)
          × (valid_name name ≡ true)
    sound h = elim (Option-cases (cut_at b'/' path)) [
      | inl e ↦ absurd (ground (arith, rw (e, split) at h))
      | inr (cut, e) ↦ elim (Bool-cases (is_some (cut_at b'/' cut.1))) [
        | inl f ↦ absurd (ground (arith, rw (e, f, split) at h))
        | inr f ↦ elim (Bool-cases (not (valid_name cut.0) || not (valid_name cut.1))) [
          | inl g ↦ absurd (ground (arith, rw (e, f, g, split) at h))
          | inr g ↦
              let same : some cut ≡ some (directory, name) = rw (e, f, g, split) at h in
              let e2 : cut_at b'/' path ≡ some (directory, name) = e ∙ same in
              let c0 : cut.0 ≡ directory = cc in
              let c1 : cut.1 ≡ name = cc in
              (
                append-cut_at b'/' path e2,
                ap valid_name (sym c0) ∙ ground (arith, g),
                ap valid_name (sym c1) ∙ ground (arith, g),
              )
        ]
      ]
    ]

    complete :
        (path ≡ directory ++ b'/' ∷ name) × (valid_name directory ≡ true) × (valid_name name ≡ true)
        → split path ≡ some (directory, name)
    complete (e, d, n) =
        let (d1, d2, d3) = valid_name-parts directory d in
        let (n1, n2, n3) = valid_name-parts name n in
        let cut : cut_at b'/' path ≡ some (directory, name) =
          ap (cut_at b'/') e ∙ cut_at-append b'/' directory name (valid_name-Lacks directory d3) in
        rw (cut, cut_at-none b'/' name (valid_name-Lacks name n3), d, n, split) refl

-- A directory's text that another name can be appended to.
abbrev pub Open : Bytes → Type 0
Open a = (a ≢ []) × (ends_with (b'/' ∷ []) a ≡ false)

path_append-Open :
    (a b : Bytes) → Open a → starts_with (b'/' ∷ []) b ≡ false → path_append a b ≡ a ++ b'/' ∷ b
unfolding path_append
path_append-Open a b (full, h) k =
    let there : bytes_eq a [] ≡ false = absent in rw (k, there, h, path_append) refl
  where
    absent : bytes_eq a [] ≡ false
    absent = elim (Bool-cases (bytes_eq a [])) [
      | inl e ↦ absurd (full ((bytes_eq_iff a []).0 e))
      | inr e ↦ e
    ]

ends_with-last : (a : Bytes) (c : ℕ) → c ≢ b'/' → ends_with (b'/' ∷ []) (a ++ c ∷ []) ≡ false
unfolding ends_with bytes_eq
ends_with-last a c h =
    let n : length (a ++ c ∷ []) - 1 ≡ length a = omega (arith, length-append a (c ∷ [])) in
    rw (n, drop-append_length a (c ∷ []) (length a) refl) (ground (arith, h))

snoc-full : (a : Bytes) (c : ℕ) → a ++ c ∷ [] ≢ []
snoc-full [] c e = cc
snoc-full (d ∷ a) c e = cc

-- The last character of a name that is there.
last_split : (t : Bytes) → is_nil t ≡ false → (u : Bytes) × (c : ℕ) × (t ≡ u ++ c ∷ [])
last_split [] h = absurd (ground arith)
last_split (c ∷ []) h = ([], c, refl)
last_split (c ∷ (d ∷ t)) h =
    let (u, e, s) = last_split (d ∷ t) refl in (c ∷ u, e, ap (λ l. c ∷ l) s)

Lacks-last : (u : Bytes) (c : ℕ) → Lacks b'/' (u ++ c ∷ []) → c ≢ b'/'
Lacks-last [] c h = h.0
Lacks-last (d ∷ u) c h = Lacks-last u c h.1

Lacks-starts : (t : Bytes) → Lacks b'/' t → starts_with (b'/' ∷ []) t ≡ false
unfolding starts_with
Lacks-starts [] h = refl
Lacks-starts (c ∷ t) h = ground (arith, h.0)

Open-append : (a t : Bytes) → is_nil t ≡ false → Lacks b'/' t → Open (a ++ b'/' ∷ t)
Open-append a t n h =
    let (u, c, e) = last_split t n in
    let whole : a ++ b'/' ∷ t ≡ (a ++ b'/' ∷ u) ++ c ∷ [] =
      ap (λ l. a ++ b'/' ∷ l) e ∙ sym (append_assoc a (b'/' ∷ u) (c ∷ [])) in
    (
      λ z. snoc-full (a ++ b'/' ∷ u) c (sym whole ∙ z),
      ap (ends_with (b'/' ∷ [])) whole
          ∙ ends_with-last (a ++ b'/' ∷ u) c (Lacks-last u c (rw e at h)),
    )

-- A file's name and directory are valid.
abbrev pub HasNames : File → Type 0
HasNames f = (valid_name f.directory ≡ true) × (valid_name f.name ≡ true)

stored_path-text :
    (root : Bytes) (f : File)
    → Open root
    → HasNames f
    → stored_path root f ≡ root ++ (codes "/files/" ++ (f.directory ++ b'/' ∷ f.name))
unfolding starts_with
stored_path-text root f o (d, n) =
    let (d1, d2, d3) = valid_name-parts f.directory d in
    let (n1, n2, n3) = valid_name-parts f.name n in
    let dl = valid_name-Lacks f.directory d3 in
    let files : path_append root (codes "files") ≡ root ++ codes "/files" =
      path_append-Open root (codes "files") o refl in
    let base = root ++ codes "/files" in
    let o1 : Open base = Open-append root (codes "files") refl (
      (λ e. absurd (omega arith)),
      (
        (λ e. absurd (omega arith)),
        (
          (λ e. absurd (omega arith)),
          ((λ e. absurd (omega arith)), ((λ e. absurd (omega arith)), tt)),
        ),
      ),
    ) in
    let inner : path_append base f.directory ≡ base ++ b'/' ∷ f.directory =
      path_append-Open base f.directory o1 (Lacks-starts f.directory dl) in
    let o2 : Open (base ++ b'/' ∷ f.directory) = Open-append base f.directory d1 dl in
    let outer =
      path_append-Open (base ++ b'/' ∷ f.directory) f.name o2
        (Lacks-starts f.name (valid_name-Lacks f.name n3)) in
    ap (λ p. path_append (path_append p f.directory) f.name) files
    ∙ (ap (λ p. path_append p f.name) inner
        ∙ (outer
            ∙ (append_assoc base (b'/' ∷ f.directory) (b'/' ∷ f.name)
                ∙ append_assoc root (codes "/files") (b'/' ∷ (f.directory ++ b'/' ∷ f.name)))))

-- Two files at one path have one name in one directory.
pub stored_path-eq :
    (root : Bytes) (f g : File)
    → Open root
    → HasNames f
    → HasNames g
    → stored_path root f ≡ stored_path root g
    → (f.directory ≡ g.directory) × (f.name ≡ g.name)
stored_path-eq root f g o hf hg e =
    let same : f.directory ++ b'/' ∷ f.name ≡ g.directory ++ b'/' ∷ g.name =
      append-cancel_left (codes "/files/") (
        append-cancel_left root
          (sym (stored_path-text root f o hf) ∙ (e ∙ stored_path-text root g o hg))) in
    let (f1, f2, f3) = valid_name-parts f.directory hf.0 in
    let (g1, g2, g3) = valid_name-parts g.directory hg.0 in
    both (
      sym (cut_at-append b'/' f.directory f.name (valid_name-Lacks f.directory f3))
      ∙ (ap (cut_at b'/') same
          ∙ cut_at-append b'/' g.directory g.name (valid_name-Lacks g.directory g3)))
  where
    both : {p q : Bytes × Bytes} → some p ≡ some q → (p.0 ≡ q.0) × (p.1 ≡ q.1)
    both {p} {q} h = let e : p ≡ q = cc in (ap (λ t. t.0) e, ap (λ t. t.1) e)

abbrev second : Bytes → ℕ
second (c ∷ (d ∷ cs)) = d
second _ = 0

-- No file lies at the manifest's path.
pub stored_path-manifest :
    (root : Bytes) (f : File) → Open root → HasNames f → stored_path root f ≢ manifest_path root
unfolding starts_with
stored_path-manifest root f o h e =
    let m : manifest_path root ≡ root ++ codes "/manifest.json" =
      path_append-Open root (codes "manifest.json") o refl in
    let same : codes "/files/" ++ (f.directory ++ b'/' ∷ f.name) ≡ codes "/manifest.json" =
      append-cancel_left root (sym (stored_path-text root f o h) ∙ (e ∙ m)) in
    let letter : 102 ≡ 109 = ap second same in absurd (omega (arith, letter))

digit-no_slash : (n : ℕ) → digit n ≢ b'/'
unfolding digit
digit-no_slash n e = absurd (ground (arith, e))

-- The directory of a title can be appended to, whatever the cache's is.
pub cache_directory-Open :
    (cache : Bytes) (title : ℕ) → Open (cache_directory cache (append_hex title 16))
unfolding path_append
cache_directory-Open cache title =
    let base = path_append (path_append cache (codes "openpak")) (codes "bcat") in
    let t = append_hex title 16 in
    let e : t ≡ append_hex (title / 16) 15 ++ digit (title % 16) ∷ [] = append_hex-last title 15 in
    go base (append_hex (title / 16) 15) (digit (title % 16)) t e (digit-no_slash (title % 16))
  where
    ended : (a u t : Bytes) (c : ℕ) → t ≡ u ++ c ∷ [] → c ≢ b'/' → Open (a ++ t)
    ended a u t c e h =
        let whole : a ++ t ≡ (a ++ u) ++ c ∷ [] =
          ap (λ l. a ++ l) e ∙ sym (append_assoc a u (c ∷ [])) in
        (
          λ z. snoc-full (a ++ u) c (sym whole ∙ z),
          ap (ends_with (b'/' ∷ [])) whole ∙ ends_with-last (a ++ u) c h,
        )

    go :
        (base u : Bytes) (c : ℕ) (t : Bytes)
        → t ≡ u ++ c ∷ []
        → c ≢ b'/'
        → Open (path_append base t)
    go base u c t e h = elim (Bool-cases (starts_with (b'/' ∷ []) t)) [
      | inl s ↦ rw s (ended [] u t c e h)
      | inr s ↦ elim (Bool-cases (bytes_eq base [] || ends_with (b'/' ∷ []) base)) [
        | inl b ↦ rw (s, b) (ended base u t c e h)
        | inr b ↦ rw (s, b) (ended base (b'/' ∷ u) (b'/' ∷ t) c (ap (λ l. b'/' ∷ l) e) h)
      ]
    ]
