-- ===== src/Platform/Split.antt =====
-- The laws of `SplitString`: nothing is lost, and a line that was written is read back.
use openpak_client.Shared.{
  ℕ, ◌≡◌, refl, ◌≢◌, inl, inr, List, [], ◌∷◌, ◌++◌, append_assoc, append-nil, arith, ◌==◌,
  Bool-cases, All, All-append, Bytes, nat_eq, text_eq, Lacks,
}
use openpak_client.Platform.{split_from, split_string}

-- The pieces with the delimiter between them.
pub join : ℕ → List Bytes → Bytes
join delim [] = []
join delim (p ∷ []) = p
join delim (p ∷ q ∷ ps) = p ++ delim ∷ join delim (q ∷ ps)

join-cons : (d : ℕ) (p : Bytes) (ps : List Bytes) → ps ≢ [] → join d (p ∷ ps) ≡ p ++ d ∷ join d ps
unfolding join
join-cons d p [] h = absurd (h refl)
join-cons d p (q ∷ ps) h = refl

split_from-ne-nil : (d : ℕ) (s cur : Bytes) → split_from d s cur ≢ []
unfolding split_from
split_from-ne-nil d [] cur = λ h. cc
split_from-ne-nil d (c ∷ s) cur = ground (arith, split_from-ne-nil d s (cur ++ c ∷ []))

join-split_from : (d : ℕ) (s cur : Bytes) → join d (split_from d s cur) ≡ cur ++ s
unfolding split_from join
join-split_from d [] cur = rw append-nil
join-split_from d (c ∷ s) cur = ground (
  arith,
  join-cons d cur (split_from d s []),
  split_from-ne-nil d s [],
  join-split_from d s [],
  join-split_from d s (cur ++ c ∷ []),
  append_assoc cur (c ∷ []) s,
)

split_from-Lacks : (d : ℕ) (s cur : Bytes) → Lacks d cur → All (Lacks d) (split_from d s cur)
unfolding split_from
split_from-Lacks d [] cur h = (h, tt)
split_from-Lacks d (c ∷ s) cur h = elim (Bool-cases (c == d)) [
  | inl e ↦ rw e (h, split_from-Lacks d s [] tt)
  | inr e ↦ rw e (
      split_from-Lacks d s (cur ++ c ∷ [])
        (All-append (λ x. x ≢ d) cur (c ∷ []) h (ground arith, tt)))
]

-- Joining the pieces of a text with the delimiter gives the text back, and no piece holds the
-- delimiter.
pub join-split_string :
    (s : Bytes) (delim : ℕ)
    → (join delim (split_string s delim) ≡ s) × All (Lacks delim) (split_string s delim)
unfolding split_string
join-split_string s delim = (join-split_from delim s [], split_from-Lacks delim s [] tt)

split_from-append :
    (d : ℕ) (a b cur : Bytes)
    → Lacks d a
    → split_from d (a ++ d ∷ b) cur ≡ (cur ++ a) ∷ split_from d b []
unfolding split_from
split_from-append d [] b cur h = rw append-nil (ground arith)
split_from-append d (c ∷ a) b cur h =
    ground (arith, split_from-append d a b (cur ++ c ∷ []) h.1, append_assoc cur (c ∷ []) a)

-- A line behind which the delimiter stands is the first piece.
pub split_string-append :
    (d : ℕ) (a b : Bytes) → Lacks d a → split_string (a ++ d ∷ b) d ≡ a ∷ split_string b d
unfolding split_string
split_string-append d a b h = split_from-append d a b [] h
