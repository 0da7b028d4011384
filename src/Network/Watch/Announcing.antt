-- ===== src/Network/Watch/Announcing.antt =====
-- What a run of looks announces.
use openpak_client.Shared.{
  ◌≡◌, refl, ap, inl, inr, false, not, List, [], ◌∷◌, Bool-cases, if◌then◌else◌, is_nil, keep_if,
  Bytes, bytes_eq,
}
use openpak_client.Network.Watch.{Watch, should_announce}

-- What is announced over a run of looks, each with the digest it found.
pub announcements : List Bytes → Watch → List Bytes
announcements [] w = []
announcements (d ∷ ds) w =
    let (after, announced) = should_announce d w in
    let later = announcements ds after in if announced then d ∷ later else later

-- The elements that differ from the one before them, the first from `last`.
abbrev pub changes : Bytes → List Bytes → List Bytes
changes last [] = []
changes last (d ∷ ds) =
    let later = changes d ds in if bytes_eq d last then changes last ds else d ∷ later

-- While one digest is in use, the digests that are announced are the ones found that differ from it, each
-- only when it also differs from the one announced before it.
pub announcements-changes :
    (ds : List Bytes) (w : Watch)
    → is_nil w.in_use ≡ false
    → announcements ds w ≡ changes w.announced (keep_if (λ d. not (bytes_eq d w.in_use)) ds)
unfolding announcements should_announce
announcements-changes [] w h = refl
announcements-changes (d ∷ ds) w h = elim (Bool-cases (bytes_eq d w.in_use)) [
  | inl e ↦ rw (h, e) (announcements-changes ds w h)
  | inr e ↦ elim (Bool-cases (bytes_eq d w.announced)) [
    | inl f ↦ rw (h, e, f) (announcements-changes ds w h)
    | inr f ↦
        rw (h, e, f) (ap (λ t. d ∷ t) (announcements-changes ds (record w { announced = d }) h))
  ]
]
