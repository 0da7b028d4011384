-- ===== src/Account/Paths.antt =====
-- Different profiles have different files.
use openpak_client.Shared.{
  ℕ, ◌≡◌, refl, sym, ap, ◌∙◌, ◌≢◌, inl, inr, Bool, true, false, ◌||◌, [], ◌∷◌, ◌++◌, append_assoc,
  arith, if◌then◌else◌, Bool-cases, is_nil, append-cancel_left, append-cancel_right, Bytes, codes,
  bytes_eq, nat_eq, text_eq, starts_with, ends_with,
}
use openpak_client.Shared.Disk.{path_append}
use openpak_client.Account.{shared_file_path, directory, file_name, file_path}

-- What `operator/` puts before a relative name.
prefix : Bytes → Bytes
unfolding bytes_eq ends_with
prefix a = if bytes_eq a [] || ends_with (b'/' ∷ []) a then a else a ++ b'/' ∷ []

path_append-relative :
    (a b : Bytes) → starts_with (b'/' ∷ []) b ≡ false → path_append a b ≡ prefix a ++ b
unfolding path_append prefix
path_append-relative a b h = elim (Bool-cases (bytes_eq a [] || ends_with (b'/' ∷ []) a)) [
  | inl e ↦ rw h (rw e)
  | inr e ↦ rw h (rw e (sym (append_assoc a (b'/' ∷ []) b)))
]

is_nil_iff : (p : Bytes) → p ≢ [] → is_nil p ≡ false
is_nil_iff [] h = absurd (h refl)
is_nil_iff (c ∷ p) h = refl

file_path-eq :
    (config p : Bytes) → p ≢ [] → file_path config p ≡ prefix (directory config) ++ file_name p
unfolding file_path starts_with
file_path-eq config p h =
    rw (is_nil_iff p h) (path_append-relative (directory config) (file_name p) refl)

-- Two named profiles never share a file.
pub file_path-ne :
    (config p q : Bytes) → p ≢ [] → q ≢ [] → p ≢ q → file_path config p ≢ file_path config q
file_path-ne config p q hp hq ne e = ne (
    append-cancel_right p q (codes ".txt") (
      append-cancel_left (codes "account-") (
        append-cancel_left (prefix (directory config))
          (sym (file_path-eq config p hp) ∙ (e ∙ file_path-eq config q hq)))))

directory-eq : (config : Bytes) → directory config ≡ prefix config ++ codes "openpak"
unfolding directory starts_with
directory-eq config = path_append-relative config (codes "openpak") refl

shared-eq :
    (config : Bytes) → shared_file_path config ≡ prefix config ++ codes "openpak_account.txt"
unfolding shared_file_path starts_with
shared-eq config = path_append-relative config (codes "openpak_account.txt") refl

-- Behind `openpak` the shared file goes on with an underscore, and a profile's with `/` or `a`.
named_tail :
    (d p : Bytes) (b : Bool)
    → (if b then d else d ++ b'/' ∷ []) ++ file_name p
      ≡ d ++ (if b then file_name p else b'/' ∷ file_name p)
named_tail d p true = refl
named_tail d p false = append_assoc d (b'/' ∷ []) (file_name p)

abbrev first : Bytes → ℕ
first [] = 0
first (c ∷ s) = c

tail_ne :
    (p : Bytes) (b : Bool) → (if b then file_name p else b'/' ∷ file_name p) ≢ codes "_account.txt"
tail_ne p true = λ e. omega (arith, ap first e)
tail_ne p false = λ e. omega (arith, ap first e)

-- A named profile never shares the file from before profiles.
pub file_path-ne-shared : (config p : Bytes) → p ≢ [] → file_path config p ≢ shared_file_path config
unfolding prefix
file_path-ne-shared config p hp e =
    let d = directory config in
    let b = bytes_eq d [] || ends_with (b'/' ∷ []) d in
    let rest : Bytes = if b then file_name p else b'/' ∷ file_name p in
    tail_ne p b (
      append-cancel_left (codes "openpak") (
        append-cancel_left (prefix config) (
          sym (append_assoc (prefix config) (codes "openpak") rest)
          ∙ (ap (λ t. t ++ rest) (sym (directory-eq config))
              ∙ (sym (named_tail d p b)
                  ∙ (sym (file_path-eq config p hp) ∙ (e ∙ shared-eq config)))))))
