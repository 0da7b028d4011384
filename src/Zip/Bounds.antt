-- ===== src/Zip/Bounds.antt =====
-- No copy out of an archive leaves it.
use openpak_client.Shared.{
  ℕ, zero, suc, ◌+◌, ◌-◌, ◌%◌, ◌^◌, ◌≤◌, ◌≡◌, refl, inl, inr, Bool, true, false, not, Option, none,
  some, List, [], ◌∷◌, arith, leb, ltb, ◌==◌, if◌then◌else◌, Bool-cases, length, is_nil, ends_with,
  Bytes,
}
use openpak_client.Zip.Words.{get32}
use openpak_client.Zip.Headers.{
  CentralEntry, local_of, central_of, eocd_of, Access, inside, outside, ◌>>=◌, memcpy,
  local_signature, central_signature, eocd_signature, store_method, deflate_method, local_size,
  central_size, eocd_size,
}
use openpak_client.Zip.Paths.{safe_path}
use openpak_client.Zip.{
  on_some, Effect, ends_at, find_eocd, read_data, read_named, read_entry, done, extract,
  unzip_to_directory,
}

-- Nothing outside the archive was read.
unfoldable pub IsInside {ℓ} : {A : Type ℓ} → Access A → Type 0
IsInside (inside a) = Unit
IsInside outside = ⊥

IsInside->>= {ℓ κ} :
    {A : Type ℓ} {B : Type κ} (m : Access A) (f : A → Access B)
    → IsInside m
    → ((a : A) → IsInside (f a))
    → IsInside (m >>= f)
unfolding IsInside
IsInside->>= (inside a) f h k = k a
IsInside->>= outside f h k = h

IsInside-if {ℓ} :
    {A : Type ℓ} (c : Bool) (a b : Access A)
    → (c ≡ true → IsInside a)
    → (c ≡ false → IsInside b)
    → IsInside (if c then a else b)
IsInside-if true a b h k = h refl
IsInside-if false a b h k = k refl

IsInside-on_some {ℓ κ} :
    {A : Type ℓ} {B : Type κ} (b : Access B) (f : A → Access B) (o : Option A)
    → IsInside b
    → ((a : A) → IsInside (f a))
    → IsInside (on_some b f o)
IsInside-on_some b f none h k = h
IsInside-on_some b f (some a) h k = k a

memcpy-IsInside :
    (zip : Bytes) (at size : ℕ) → at + size ≤ length zip → IsInside (memcpy zip at size)
unfolding IsInside
memcpy-IsInside zip at size h = elim (Bool-cases (leb (at + size) (length zip))) [
  | inl e ↦ rw e tt
  | inr e ↦ absurd (ground arith)
]

ends_at-IsInside : (zip : Bytes) (at : ℕ) → at + eocd_size ≤ length zip → IsInside (ends_at zip at)
unfolding ends_at IsInside
ends_at-IsInside zip at h =
    IsInside->>= (memcpy zip at 4) _ (memcpy-IsInside zip at 4 (omega arith)) (λ signature.
      IsInside-if (get32 signature == eocd_signature) _ _
        (λ _.
          IsInside->>= (memcpy zip at eocd_size) _ (memcpy-IsInside zip at eocd_size h) (λ b. tt))
        (λ _. tt))

-- A place that the scan finds holds a whole record.
Found : Bytes → Access (Option ℕ) → Type 0
Found zip (inside none) = Unit
Found zip (inside (some at)) = at + eocd_size ≤ length zip
Found zip outside = ⊥

find_eocd-Found :
    (zip : Bytes) (at : ℕ) → at + eocd_size ≤ length zip → Found zip (find_eocd zip at)
unfolding find_eocd Found IsInside
find_eocd-Found zip zero h = go (ends_at zip zero) (ends_at-IsInside zip zero h)
  where
    go :
        (r : Access Bool)
        → IsInside r
        → Found zip (r >>= λ found. inside (if found then some zero else none))
    go (inside true) k = h
    go (inside false) k = tt
    go outside k = k
find_eocd-Found zip (suc at) h =
    go (find_eocd zip at) (find_eocd-Found zip at (omega arith)) (ends_at zip (suc at))
      (ends_at-IsInside zip (suc at) h)
  where
    go :
        (rest : Access (Option ℕ))
        → Found zip rest
        → (r : Access Bool) → IsInside r
        → Found zip (r >>= λ found. if found then inside (some (suc at)) else rest)
    go rest f (inside true) k = h
    go rest f (inside false) k = f
    go rest f outside k = k

module _ (inflate : Bytes → ℕ → Option Bytes) (zip : Bytes) where
  read_data-IsInside : (c : CentralEntry) → IsInside (read_data inflate zip c)
  unfolding read_data IsInside
  read_data-IsInside c =
      IsInside-if (ltb (length zip) (c.local_offset + local_size)) _ _ (λ _. tt)
        (λ fits.
          IsInside->>= (memcpy zip c.local_offset local_size) _
            (memcpy-IsInside zip c.local_offset local_size (ground arith))
            (λ b.
              let h = local_of b in
              let at = c.local_offset + local_size + h.name_length + h.extra_length in
              IsInside-if (not (h.signature == local_signature)) _ _ (λ _. tt)
                (λ _.
                  IsInside-if (ltb (length zip) (at + c.compressed_size)) _ _ (λ _. tt)
                    (λ whole.
                      IsInside->>= (memcpy zip at c.compressed_size) _
                        (memcpy-IsInside zip at c.compressed_size (ground arith))
                        (λ bytes.
                          IsInside-if (c.method == deflate_method) _ _ (λ _. tt)
                            (λ _.
                              IsInside-if (c.method == store_method) _ _ (λ _. tt) (λ _. tt)))))))

  module _ (root : List Bytes) where
    read_named-IsInside : (c : CentralEntry) (at : ℕ) → IsInside (read_named inflate root zip c at)
    unfolding read_named IsInside
    read_named-IsInside c at =
        let next = at + c.name_length + c.extra_length + c.comment_length in
        IsInside-if (not (c.signature == central_signature)) _ _ (λ _. tt)
          (λ _.
            IsInside-if (ltb (length zip) next) _ _ (λ _. tt)
              (λ fits.
                IsInside->>= (memcpy zip at c.name_length) _
                  (memcpy-IsInside zip at c.name_length (ground arith))
                  (λ name.
                    IsInside-if (is_nil name) _ _ (λ _. tt)
                      (λ _. IsInside-on_some _ _ (safe_path root name) tt (λ path.
                        IsInside-if (ends_with (b'/' ∷ []) name) _ _ (λ _. tt)
                          (λ _.
                            IsInside->>= (read_data inflate zip c) _ (read_data-IsInside c)
                              (λ found. IsInside-on_some _ _ found tt (λ bytes. tt))))))))

    read_entry-IsInside : (at : ℕ) → IsInside (read_entry inflate root zip at)
    unfolding read_entry IsInside
    read_entry-IsInside at =
        IsInside-if (ltb (length zip) (at + central_size)) _ _ (λ _. tt)
          (λ fits.
            IsInside->>= (memcpy zip at central_size) _
              (memcpy-IsInside zip at central_size (ground arith))
              (λ b. read_named-IsInside (central_of b) (at + central_size)))

    module _ (writes : Bytes → Bool) where
      extract-IsInside : (n at : ℕ) → IsInside (extract inflate root writes zip n at)
      unfolding extract IsInside
      extract-IsInside zero at = tt
      extract-IsInside (suc n) at =
          IsInside->>= (read_entry inflate root zip at) _ (read_entry-IsInside at) (λ r.
            IsInside-on_some _ _ r tt (λ step.
              IsInside-if (done inflate root writes step.0) _ _
                (λ _.
                  IsInside->>= (extract inflate root writes zip n step.1) _
                    (extract-IsInside n step.1) (λ rest. tt))
                (λ _. tt)))

      -- Whatever the bytes of an archive, and whatever the system and the inflater answer, no copy that
      -- extracting makes is outside the archive.
      pub unzip_to_directory-IsInside :
          (made : Bool) → IsInside (unzip_to_directory inflate root writes made zip)
      unfolding unzip_to_directory IsInside Found
      unzip_to_directory-IsInside made =
          IsInside-if (ltb (length zip) eocd_size) _ _ (λ _. tt)
            (λ fits.
              go (find_eocd zip (length zip - eocd_size))
                (find_eocd-Found zip (length zip - eocd_size) (ground arith)))
        where
          behind : ℕ → Bytes → Access (List Effect × Bool)
          behind at b =
              let e = eocd_of b in
              if ltb at ((e.dir_offset + e.dir_size) % 2 ^ 32)
              then inside ([], false)
              else if not made
              then inside ([], false)
              else extract inflate root writes zip e.entries e.dir_offset

          behind-IsInside : (at : ℕ) (b : Bytes) → IsInside (behind at b)
          behind-IsInside at b =
              let e = eocd_of b in
              IsInside-if (ltb at ((e.dir_offset + e.dir_size) % 2 ^ 32)) _ _ (λ _. tt)
                (λ _.
                  IsInside-if (not made) _ _ (λ _. tt)
                    (λ _. extract-IsInside e.entries e.dir_offset))

          go :
              (r : Access (Option ℕ))
              → Found zip r
              → IsInside
                  (r >>= on_some (inside ([], false)) (λ at. memcpy zip at eocd_size >>= behind at))
          go (inside none) h = tt
          go (inside (some at)) h =
              IsInside->>= (memcpy zip at eocd_size) (behind at)
                (memcpy-IsInside zip at eocd_size h) (behind-IsInside at)
          go outside h = h
