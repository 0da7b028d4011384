-- ===== src/Push/Frames.antt =====
-- `FrameReader` of client/openpak/push.cpp: a stream of bytes cut into frames.
pub mod Chunks
use openpak_client.Shared.{
  ℕ, zero, suc, ◌+◌, ◌*◌, Bool, true, false, ◌||◌, Option, none, some, List, [], ◌∷◌, ◌++◌, ltb,
  ◌==◌, if◌then◌else◌, length, take, drop, Bytes,
}

-- `MaxFrame`.
abbrev pub max_frame : ℕ
max_frame = 65536

-- `U32` of the first four bytes; they share no bit.
abbrev pub little_endian : ℕ → ℕ → ℕ → ℕ → ℕ
little_endian w x y z = w + 256 * x + 65536 * y + 16777216 * z

-- Whether the length at the front of the buffer, if it has arrived, is one that a frame can have.
pub sound : Bytes → Bool
sound (w ∷ x ∷ y ∷ z ∷ rest) =
    let n = little_endian w x y z in if (n == 0) || ltb max_frame n then false else true
sound _ = true

-- `Feed`: the buffer, and whether the stream still holds.
pub feed : Bytes → Bytes → Bytes × Bool
unfolding sound
feed bytes buffer = (buffer ++ bytes, sound (buffer ++ bytes))

-- `Next`: the buffer behind the frame, and the frame.
unfoldable pub next : Bytes → Bytes × Option Bytes
next (w ∷ x ∷ y ∷ z ∷ rest) =
    let n = little_endian w x y z in
    if (n == 0) || ltb max_frame n || ltb (length rest) n
    then (w ∷ x ∷ y ∷ z ∷ rest, none)
    else (drop n rest, some (take n rest))
next buffer = (buffer, none)

-- `while (auto frame = reader.Next())`: the frames that have arrived. A frame takes five bytes or more, so
-- the length of the buffer is fuel enough.
unfoldable pub drain : ℕ → Bytes → List Bytes × Bytes
unfolding next
drain zero buffer = ([], buffer)
drain (suc fuel) buffer =
    let (rest, taken) = next buffer in
    let (frames, left) = drain fuel rest in
    elim taken [ none ↦ ([], rest) | some frame ↦ (frame ∷ frames, left) ]

-- The chunks of a stream as they arrive, each fed and drained until the stream is broken: the frames,
-- what is left in the buffer, and whether the stream held.
unfoldable pub frames_of : List Bytes → Bytes → List Bytes × Bytes × Bool
unfolding feed drain
frames_of [] buffer = ([], buffer, true)
frames_of (chunk ∷ chunks) buffer =
    let (fed, holds) = feed chunk buffer in
    let (frames, left) = drain (length fed) fed in
    let (later, rest, held) = frames_of chunks left in
    if holds then (frames ++ later, rest, held) else ([], fed, false)
