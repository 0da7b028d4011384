-- ===== src/Push/Frames/Chunks.antt =====
-- However a stream is cut into chunks, its frames arrive whole and in order.
use openpak_client.Shared.{
  ℕ, zero, suc, ◌+◌, ◌/◌, ◌%◌, ◌≤◌, ◌<◌, ◌≡◌, refl, sym, ap, ◌∙◌, inl, inr, true, false, ◌||◌, none,
  some, List, [], ◌∷◌, ◌++◌, arith, append_assoc, ltb, ◌==◌, Bool-cases, length, length-append,
  take, drop, take-append-drop, take-append_length, drop-append_length, All, append-cancel_left,
  Bytes,
}
use openpak_client.Push.Frames.{max_frame, little_endian, sound, feed, next, drain, frames_of}

-- A frame as the server sends it.
abbrev header : ℕ → Bytes
header n = (n % 256) ∷ (n / 256 % 256) ∷ (n / 65536 % 256) ∷ (n / 16777216 % 256) ∷ []

abbrev pub encode : Bytes → Bytes
encode f = header (length f) ++ f

abbrev pub encode_all : List Bytes → Bytes
encode_all [] = []
encode_all (f ∷ fs) = encode f ++ encode_all fs

abbrev pub joined : List Bytes → Bytes
joined [] = []
joined (c ∷ cs) = c ++ joined cs

abbrev pub IsFrame : Bytes → Type 0
IsFrame f = (1 ≤ length f) × (length f ≤ max_frame)

header-value :
    (n : ℕ)
    → n ≤ max_frame
    → little_endian (n % 256) (n / 256 % 256) (n / 65536 % 256) (n / 16777216 % 256) ≡ n
header-value n h = omega arith

next-encode : (f rest : Bytes) → IsFrame f → next (encode f ++ rest) ≡ (rest, some f)
unfolding next
next-encode f rest (some_byte, small) = rw (header-value (length f) small) (
    rw (fits, drop-append_length f rest (length f) refl, take-append_length f rest (length f) refl)
      refl)
  where
    fits :
        ((length f == 0) || ltb max_frame (length f) || ltb (length (f ++ rest)) (length f)) ≡ false
    fits = ground (arith, length-append f rest)

-- The front of what is left of the stream, as far as it has arrived.
front :
    (w x y z : ℕ) (p r f rest : Bytes)
    → IsFrame f
    → (w ∷ x ∷ y ∷ z ∷ p) ++ r ≡ encode f ++ rest
    → (little_endian w x y z ≡ length f) × (p ++ r ≡ f ++ rest)
front w x y z p r f rest (some_byte, small) h =
    let hw : w ≡ length f % 256 = cc in
    let hx : x ≡ length f / 256 % 256 = cc in
    let hy : y ≡ length f / 65536 % 256 = cc in
    let hz : z ≡ length f / 16777216 % 256 = cc in
    let tail : p ++ r ≡ f ++ rest = cc in
    (rw (hw, hx, hy, hz) (header-value (length f) small), tail)

sound-front : (p r f rest : Bytes) → IsFrame f → p ++ r ≡ encode f ++ rest → sound p ≡ true
unfolding sound
sound-front [] r f rest h e = refl
sound-front (w ∷ []) r f rest h e = refl
sound-front (w ∷ x ∷ []) r f rest h e = refl
sound-front (w ∷ x ∷ y ∷ []) r f rest h e = refl
sound-front (w ∷ x ∷ y ∷ z ∷ p) r f rest h e =
    let (n, _) = front w x y z p r f rest h e in ground (arith, n, h.0, h.1)

next-short :
    (p r f rest : Bytes)
    → IsFrame f
    → p ++ r ≡ encode f ++ rest
    → length p < 4 + length f
    → next p ≡ (p, none)
unfolding next
next-short [] r f rest h e lt = refl
next-short (w ∷ []) r f rest h e lt = refl
next-short (w ∷ x ∷ []) r f rest h e lt = refl
next-short (w ∷ x ∷ y ∷ []) r f rest h e lt = refl
next-short (w ∷ x ∷ y ∷ z ∷ p) r f rest h e lt =
    let (n, _) = front w x y z p r f rest h e in
    let short : ((little_endian w x y z == 0)
          || ltb max_frame (little_endian w x y z)
          || ltb (length p) (little_endian w x y z))
        ≡ true =
      ground (arith, n) in
    rw short refl

-- A whole frame at the front.
whole_front :
    (p r f rest : Bytes)
    → p ++ r ≡ encode f ++ rest
    → 4 + length f ≤ length p
    → (q : Bytes) × (p ≡ encode f ++ q) × (q ++ r ≡ rest)
whole_front p r f rest e le =
    let n = length (encode f) in
    let k : n ≡ 4 + length f = omega (arith, length-append (header (length f)) f) in
    let split : p ≡ take n p ++ drop n p = sym (take-append-drop n p) in
    let here : take n p ≡ encode f =
      sym (take_prefix n p r (omega arith))
      ∙ (ap (take n) e ∙ take-append_length (encode f) rest n refl) in
    let same : p ≡ encode f ++ drop n p = split ∙ ap (λ t. t ++ drop n p) here in
    (
      drop n p,
      same,
      append-cancel_left (encode f)
          (sym (append_assoc (encode f) (drop n p) r) ∙ (ap (λ t. t ++ r) (sym same) ∙ e)),
    )
  where
    take_prefix : (n : ℕ) (p r : Bytes) → n ≤ length p → take n (p ++ r) ≡ take n p
    take_prefix zero p r h = refl
    take_prefix (suc n) [] r h = absurd (omega arith)
    take_prefix (suc n) (x ∷ p) r h = ap (λ t. x ∷ t) (take_prefix n p r (omega arith))

next-nil : next [] ≡ ([], none)
unfolding next
next-nil = refl

-- What draining the part that has arrived leaves of the frames.
Drained : List Bytes → Bytes → List Bytes × Bytes → Type 0
Drained fs r (got, left) =
    (more : List Bytes) × (fs ≡ got ++ more) × (left ++ r ≡ encode_all more) × (r ≡ [] → more ≡ [])

append-nil_left : (p r : Bytes) → p ++ r ≡ [] → (p ≡ []) × (r ≡ [])
append-nil_left [] r h = (refl, h)
append-nil_left (x ∷ p) r h = cc

drain-none : (fuel : ℕ) (p : Bytes) → next p ≡ (p, none) → drain fuel p ≡ ([], p)
unfolding drain
drain-none zero p h = refl
drain-none (suc fuel) p h = rw (ap (λ t. t.1) h, ap (λ t. t.0) h, drain) refl

drain-some :
    (fuel : ℕ) (p q f : Bytes)
    → next p ≡ (q, some f)
    → drain (suc fuel) p ≡ (f ∷ (drain fuel q).0, (drain fuel q).1)
unfolding drain
drain-some fuel p q f h = rw (ap (λ t. t.1) h, ap (λ t. t.0) h, drain) refl

-- Less than a frame has arrived.
short-Drained :
    (f : Bytes) (fs : List Bytes) (fuel : ℕ) (p r : Bytes)
    → IsFrame f
    → p ++ r ≡ encode_all (f ∷ fs)
    → length p < 4 + length f
    → Drained (f ∷ fs) r (drain fuel p)
unfolding Drained
short-Drained f fs fuel p r h e lt =
    rw (drain-none fuel p (next-short p r f (encode_all fs) h e lt))
      (f ∷ fs, refl, e, λ nr. absurd (too_short (ap (λ t. p ++ t) (sym nr) ∙ e)))
  where
    too_short : p ++ [] ≡ encode f ++ encode_all fs → ⊥
    too_short k = omega (
      arith,
      ap length k,
      length-append p [],
      length-append (encode f) (encode_all fs),
      length-append (header (length f)) f,
    )

drain-Drained :
    (fs : List Bytes) (fuel : ℕ) (p r : Bytes)
    → All IsFrame fs
    → length p ≤ fuel
    → p ++ r ≡ encode_all fs
    → Drained fs r (drain fuel p)
unfolding Drained
drain-Drained [] fuel p r h le e =
    let (np, nr) = append-nil_left p r e in
    rw (drain-none fuel p (ap next np ∙ (next-nil ∙ ap (λ t. (t, none)) (sym np))))
      ([], refl, e, λ _. refl)
drain-Drained (f ∷ fs) zero p r h le e = short-Drained f fs zero p r h.0 e (omega arith)
drain-Drained (f ∷ fs) (suc fuel) p r h le e = elim (Bool-cases (ltb (length p) (4 + length f))) [
  | inl short ↦ short-Drained f fs (suc fuel) p r h.0 e (ground arith)
  | inr long ↦
      let (q, same, rest) = whole_front p r f (encode_all fs) e (ground arith) in
      let taken : next p ≡ (q, some f) = ap next same ∙ next-encode f q h.0 in
      let smaller : length q ≤ fuel =
        omega (
          arith,
          ap length same,
          length-append (encode f) q,
          length-append (header (length f)) f,
        ) in
      let (more, gots, lefts, done) = drain-Drained fs fuel q r h.1 smaller rest in
      rw (drain-some fuel p q f taken) (more, ap (λ t. f ∷ t) gots, lefts, done)
]

All-behind : (got more : List Bytes) → All IsFrame (got ++ more) → All IsFrame more
All-behind [] more h = h
All-behind (g ∷ got) more h = All-behind got more h.1

sound-fed :
    (fs : List Bytes) (p r : Bytes) → All IsFrame fs → p ++ r ≡ encode_all fs → sound p ≡ true
unfolding sound
sound-fed [] p r h e = ap sound (append-nil_left p r e).0
sound-fed (f ∷ fs) p r h e = sound-front p r f (encode_all fs) h.0 e

frames_of-step :
    (chunk buffer : Bytes) (chunks more : List Bytes) (rest : Bytes)
    → sound (buffer ++ chunk) ≡ true
    → let d = drain (length (buffer ++ chunk)) (buffer ++ chunk) in
      frames_of chunks d.1 ≡ (more, rest, true)
      → frames_of (chunk ∷ chunks) buffer ≡ (d.0 ++ more, rest, true)
unfolding frames_of feed
frames_of-step chunk buffer chunks more rest holds later = rw (holds, later, frames_of) refl

chunked :
    (chunks fs : List Bytes) (buffer : Bytes)
    → All IsFrame fs
    → buffer ++ joined chunks ≡ encode_all fs
    → (joined chunks ≡ [] → fs ≡ [])
    → frames_of chunks buffer ≡ (fs, [], true)
unfolding frames_of Drained
chunked [] fs buffer h e n =
    let none_left : fs ≡ [] = n refl in
    let empty : buffer ≡ [] = (append-nil_left buffer [] (e ∙ ap encode_all none_left)).0 in
    rw (none_left, empty) refl
chunked (chunk ∷ chunks) fs buffer h e n =
    let fed = buffer ++ chunk in
    let whole : fed ++ joined chunks ≡ encode_all fs =
      append_assoc buffer chunk (joined chunks) ∙ e in
    let (more, gots, lefts, done) =
      drain-Drained fs (length fed) fed (joined chunks) h (omega arith) whole in
    let d = drain (length fed) fed in
    let sound_more : All IsFrame more = All-behind d.0 more (rw gots at h) in
    frames_of-step chunk buffer chunks more [] (sound-fed fs fed (joined chunks) h whole)
      (chunked chunks more d.1 sound_more lefts done)
    ∙ ap (λ t. (t, [], true)) (sym gots)

-- However the bytes of frames that are neither empty nor too long are cut into chunks, the reader takes
-- every chunk, hands out those frames, whole and in order, and has nothing left.
pub frames_of-encode_all :
    (fs chunks : List Bytes)
    → All IsFrame fs
    → joined chunks ≡ encode_all fs
    → frames_of chunks [] ≡ (fs, [], true)
frames_of-encode_all fs chunks h e = chunked chunks fs [] h e (quiet fs e)
  where
    quiet : (fs : List Bytes) → joined chunks ≡ encode_all fs → joined chunks ≡ [] → fs ≡ []
    quiet [] e n = refl
    quiet (f ∷ fs) e n = cc
