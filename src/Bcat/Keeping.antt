-- ===== src/Bcat/Keeping.antt =====
-- What was fetched is there when the service cannot be reached.
use openpak_client.Shared.{
  ℕ, ◌≡◌, ◌≢◌, refl, sym, ap, ◌∙◌, inl, inr, true, false, Option, none, some, ◌>>=◌, List, [], ◌∷◌,
  arith, Bool-cases, Option-cases, All, is_nil, value_or, Bytes, bytes_eq, codes, text_eq,
}
use openpak_client.Shared.Int.{ℤ}
use openpak_client.Shared.Disk.{
  Disk, file_at, read_file, write_file, file_at-write, file_at-write_self, refuses-write,
}
use openpak_client.Platform.{to_lower}
use openpak_client.Network.Json.{Json}
use openpak_client.Crash.Texts.{append_hex}
use openpak_client.Bcat.{
  File, dataset, split, cache_directory, manifest_path, stored_path, remove_below, forget,
  write_each, store, text_of, in_window, entries_of, cached_from, from_cache, gather, fetch,
}
use openpak_client.Bcat.Names.{
  Open, HasNames, split_iff, stored_path-eq, stored_path-manifest, cache_directory-Open,
}

-- No two files have one name in one directory.
abbrev pub AreApart : List File → Type 0
AreApart [] = Unit
AreApart (f ∷ fs) = All (λ g. f.directory ≡ g.directory → f.name ≢ g.name) fs × AreApart fs

module _ (root : Bytes) (o : Open root) where
  write_each-refuses : (fs : List File) (d : Disk) → (write_each root fs d).refuses ≡ d.refuses
  unfolding write_each
  write_each-refuses [] d = refl
  write_each-refuses (f ∷ fs) d =
      write_each-refuses fs (write_file d (stored_path root f) f.contents).0
      ∙ refuses-write d (stored_path root f) f.contents

  write_each-other :
      (p : Bytes) (fs : List File) (d : Disk)
      → All (λ f. stored_path root f ≢ p) fs
      → file_at (write_each root fs d) p ≡ file_at d p
  unfolding write_each
  write_each-other p [] d h = refl
  write_each-other p (f ∷ fs) d h =
      write_each-other p fs (write_file d (stored_path root f) f.contents).0 h.1
      ∙ file_at-write d (stored_path root f) p f.contents h.0

  apart-paths :
      (f : File) (fs : List File)
      → HasNames f
      → All HasNames fs
      → All (λ g. f.directory ≡ g.directory → f.name ≢ g.name) fs
      → All (λ g. stored_path root g ≢ stored_path root f) fs
  apart-paths f [] hf hs a = tt
  apart-paths f (g ∷ fs) hf hs a = (
    λ e. let (d, n) = stored_path-eq root f g o hf hs.0 (sym e) in a.0 d n,
    apart-paths f fs hf hs.1 a.1,
  )

  write_each-All :
      (fs : List File) (d : Disk)
      → ((p : Bytes) → d.refuses p ≡ false)
      → All HasNames fs
      → AreApart fs
      → All (λ f. file_at (write_each root fs d) (stored_path root f) ≡ some f.contents) fs
  unfolding write_each
  write_each-All [] d w h a = tt
  write_each-All (f ∷ fs) d w h a =
      let e = (write_file d (stored_path root f) f.contents).0 in
      (
        write_each-other (stored_path root f) fs e (apart-paths f fs h.0 h.1 a.0)
            ∙ file_at-write_self d (stored_path root f) f.contents (w (stored_path root f)),
        write_each-All fs e
            (λ p. ap (λ r. r p) (refuses-write d (stored_path root f) f.contents) ∙ w p) h.1 a.1,
      )

  manifest-All :
      (fs : List File) (d : Disk) (m : Bytes)
      → All HasNames fs
      → All (λ f. file_at d (stored_path root f) ≡ some f.contents) fs
      → All
          (λ f.
            file_at (write_file d (manifest_path root) m).0 (stored_path root f) ≡ some f.contents)
          fs
  manifest-All [] d m h k = tt
  manifest-All (f ∷ fs) d m h k = (
    file_at-write d (manifest_path root) (stored_path root f) m
          (λ e. stored_path-manifest root f o h.0 (sym e))
        ∙ k.0,
    manifest-All fs d m h.1 k.1,
  )

  store-All :
      (m : Bytes) (fs : List File) (d : Disk)
      → ((p : Bytes) → d.refuses p ≡ false)
      → All HasNames fs
      → AreApart fs
      → All (λ f. file_at (store root m fs d) (stored_path root f) ≡ some f.contents) fs
        × (read_file (store root m fs d) (manifest_path root) ≡ m)
  unfolding store forget read_file
  store-All m fs d w h a =
      let clear = remove_below root d in
      let e = write_each root fs clear in
      let r : e.refuses (manifest_path root) ≡ false =
        ap (λ k. k (manifest_path root)) (write_each-refuses fs clear) ∙ w (manifest_path root) in
      (
        manifest-All fs e m h (write_each-All fs clear w h a),
        ap (λ k. value_or k []) (file_at-write_self e (manifest_path root) m r),
      )

module _ (parse_json : Bytes → Option Json) (sha256_hex : Bytes → Bytes)
    (scan_time : Bytes → Option ℤ) where
  module _ (download : Bytes → Option Bytes) (root : Bytes) where
    -- What the loop gathers comes from entries whose names are valid, and a disk that holds it is read as it.
    Gathered : List Json → List File → Type 0
    Gathered entries files =
        All HasNames files
        × ((d : Disk)
            → All (λ f. file_at d (stored_path root f) ≡ some f.contents) files
            → cached_from parse_json sha256_hex scan_time root entries d ≡ dataset files)

    gather-Gathered :
        (entries : List Json) (files : List File)
        → gather parse_json sha256_hex scan_time download entries ≡ some files
        → Gathered entries files
    unfolding gather cached_from Gathered
    gather-Gathered [] files h = let e : [] ≡ files = cc in (rw (sym e) tt, λ d k. rw (sym e) refl)
    gather-Gathered (entry ∷ entries) files h = elim (Option-cases (text_of (codes "path") entry)) [
      | inl e ↦ absurd (ground (arith, rw (e, gather) at h))
      | inr (path, e) ↦ elim (Option-cases (split path)) [
        | inl f ↦
            let (names, reads) = gather-Gathered entries files (rw (e, f, gather) at h) in
            (names, λ d k. rw (e, f, cached_from) (reads d k))
        | inr (cut, f) ↦ elim (Option-cases (text_of (codes "url") entry >>= download)) [
          | inl g ↦ absurd (ground (arith, rw (e, f, g, gather) at h))
          | inr (contents, g) ↦ elim (Option-cases (text_of (codes "sha256") entry)) [
            | inl s ↦ absurd (ground (arith, rw (e, f, g, s, gather) at h))
            | inr (wanted, s) ↦
                elim (Bool-cases (bytes_eq (sha256_hex contents) (to_lower wanted))) [
                  | inr b ↦ absurd (ground (arith, rw (e, f, g, s, b, gather) at h))
                  | inl b ↦
                      elim (Option-cases
                        (gather parse_json sha256_hex scan_time download entries)) [
                          | inl z ↦ absurd (ground (arith, rw (e, f, g, s, b, z, gather) at h))
                          | inr (rest, z) ↦
                              let here : File = record {
                                directory = cut.0;
                                name = cut.1;
                                contents = contents;
                              } in
                              let same : some (here ∷ rest) ≡ some files =
                                rw (e, f, g, s, b, z, gather) at h in
                              let listed : here ∷ rest ≡ files = cc in
                              let (names, reads) = gather-Gathered entries rest z in
                              let valid = (split_iff path cut.0 cut.1).0 f in
                              rw (sym listed) (
                                ((valid.1, valid.2), names),
                                λ d k. rw (e, f, k.0, reads d k.1, cached_from) refl,
                              )
                        ]
                ]
          ]
        ]
      ]
    ]

  -- A dataset that was fetched, if no two of its files have one name in one directory and every file could be
  -- written, is what the next call gives when the service does not answer, inside the manifest's window.
  pub fetch-offline :
      (download : Bytes → Option Bytes) (cache : Bytes) (title_id : ℕ) (body : Bytes)
      (now later : ℤ) (d : Disk) (files : List File)
      → ((p : Bytes) → d.refuses p ≡ false)
      → is_nil body ≡ false
      → in_window parse_json sha256_hex scan_time body now ≡ true
      → in_window parse_json sha256_hex scan_time body later ≡ true
      → gather parse_json sha256_hex scan_time download
          (entries_of parse_json sha256_hex scan_time body)
        ≡ some files
      → AreApart files
      → let first =
          fetch parse_json sha256_hex scan_time download cache title_id (some (200, body)) now d in
        (first.1 ≡ dataset files)
        × (fetch parse_json sha256_hex scan_time download cache title_id none later first.0
            ≡ (first.0, dataset files))
  unfolding fetch from_cache Gathered
  fetch-offline download cache title_id body now later d files w full open_now open_later gathered
        apart =
      let root = cache_directory cache (append_hex title_id 16) in
      let (names, reads) =
        gather-Gathered download root (entries_of parse_json sha256_hex scan_time body) files
          gathered in
      let (kept, manifest) =
        store-All root (cache_directory-Open cache title_id) body files d w names apart in
      rw (open_now, gathered)
        (
          refl,
          rw (manifest, full, open_later)
              (ap (λ r. (store root body files d, r)) (reads (store root body files d) kept)),
        )
