-- ===== src/Packets/Buffer.antt =====
-- src/packets/buffer.rs: reading integers and hashes at an offset of a byte slice. Offsets are added
-- as `usize`. An integer written at an offset is read back by the lemmas at the end.
use bitlens_rs.Prelude.{
  ℕ, ◌+◌, ◌-◌, ◌^◌, ◌≤◌, ◌<◌, ◌≡◌, ap, ◌&&◌, Option, none, some, List, [], ◌∷◌, ◌++◌, arith, leb,
  le→leb, if◌then◌else◌, length, take, drop, length-append, take-length-append, drop-length-append,
  Result, ok, not_enough_bytes, ok_or, ◌>>=◌, add_usize, to_le_bytes, from_le_bytes, to_be_bytes,
  from_be_bytes, length-to_le_bytes, length-to_be_bytes, from_le_bytes-to_le_bytes,
  from_be_bytes-to_be_bytes,
}

abbrev pub Bytes : Type 0
Bytes = List ℕ

abbrev pub empty_hash : Bytes
empty_hash =
    0 ∷ 0 ∷ 0 ∷ 0 ∷ 0 ∷ 0 ∷ 0 ∷ 0 ∷ 0 ∷ 0 ∷ 0 ∷ 0 ∷ 0 ∷ 0 ∷ 0 ∷ 0 ∷ 0 ∷ 0 ∷ 0 ∷ 0 ∷ 0 ∷ 0 ∷ 0 ∷ 0
    ∷ 0 ∷ 0 ∷ 0 ∷ 0 ∷ 0 ∷ 0 ∷ 0 ∷ 0 ∷ []

-- `slice.get(from..to)`: nothing if the range is out of order or out of bounds.
unfoldable pub get_range : Bytes → ℕ → ℕ → Option Bytes
get_range buffer from to =
    if leb from to && leb to (length buffer)
    then some (take (to - from) (drop from buffer))
    else none

-- `slice.get(from..)`.
unfoldable pub get_from : Bytes → ℕ → Option Bytes
get_from buffer from = if leb from (length buffer) then some (drop from buffer) else none

unfoldable pub get_hash : Bytes → ℕ → Result Bytes
get_hash buffer offset = ok_or (get_range buffer offset (add_usize offset 32)) not_enough_bytes

unfoldable pub with_offset : Bytes → ℕ → Result Bytes
with_offset buffer offset = ok_or (get_from buffer offset) not_enough_bytes

unfoldable pub get_u32_le : Bytes → ℕ → Result ℕ
get_u32_le buffer offset = do
  b ← ok_or (get_range buffer offset (add_usize offset 4)) not_enough_bytes
  ok (from_le_bytes b)

unfoldable pub get_u64 : Bytes → ℕ → Result ℕ
get_u64 buffer offset = do
  b ← ok_or (get_range buffer offset (add_usize offset 8)) not_enough_bytes
  ok (from_be_bytes b)

unfoldable pub get_u64_le : Bytes → ℕ → Result ℕ
get_u64_le buffer offset = do
  b ← ok_or (get_range buffer offset (add_usize offset 8)) not_enough_bytes
  ok (from_le_bytes b)

unfoldable pub get_u32 : Bytes → ℕ → Result ℕ
get_u32 buffer offset = do
  b ← ok_or (get_range buffer offset (add_usize offset 4)) not_enough_bytes
  ok (from_be_bytes b)

unfoldable pub get_u16 : Bytes → ℕ → Result ℕ
get_u16 buffer offset = do
  b ← ok_or (get_range buffer offset (add_usize offset 2)) not_enough_bytes
  ok (from_be_bytes b)

unfoldable pub get_u16_le : Bytes → ℕ → Result ℕ
get_u16_le buffer offset = do
  b ← ok_or (get_range buffer offset (add_usize offset 2)) not_enough_bytes
  ok (from_le_bytes b)

-- No slice is longer than this (`isize::MAX`).
abbrev pub IsSlice : Bytes → Type 0
IsSlice buffer = length buffer < 2 ^ 63

-- A range that stands between two parts of the buffer is that part.
pub get_range-append :
    (pre mid post : Bytes) (from to : ℕ)
    → from ≡ length pre
    → to ≡ from + length mid
    → get_range (pre ++ (mid ++ post)) from to ≡ some mid
unfolding get_range
get_range-append pre mid post from to p q =
    rw
      (
        le→leb from to (omega arith),
        le→leb to (length (pre ++ (mid ++ post)))
            (omega (arith, length-append pre (mid ++ post), length-append mid post)),
      )
      (let e : to - from ≡ length mid = omega arith in
        rw (e, p, drop-length-append pre (mid ++ post)) (ap some (take-length-append mid post)))

pub get_from-append :
    (pre post : Bytes) (from : ℕ) → from ≡ length pre → get_from (pre ++ post) from ≡ some post
unfolding get_from
get_from-append pre post from p =
    rw (le→leb from (length (pre ++ post)) (omega (arith, length-append pre post)))
      (rw (p, drop-length-append pre post))

module _ (pre post : Bytes) (offset : ℕ) (at : offset ≡ length pre) where
  pub with_offset-append : with_offset (pre ++ post) offset ≡ ok post
  unfolding with_offset
  with_offset-append = rw (get_from-append pre post offset at)

module _ (pre post : Bytes) (offset v : ℕ) (at : offset ≡ length pre)
    (small : offset + 8 < 2 ^ 64) where
  pub get_u32_le-append : v < 2 ^ 32 → get_u32_le (pre ++ (to_le_bytes 4 v ++ post)) offset ≡ ok v
  unfolding get_u32_le
  get_u32_le-append h =
      rw
        (get_range-append pre (to_le_bytes 4 v) post offset (add_usize offset 4) at
          (omega (arith, length-to_le_bytes 4 v)))
        (ap ok (from_le_bytes-to_le_bytes 4 v h))

  pub get_u64_le-append : v < 2 ^ 64 → get_u64_le (pre ++ (to_le_bytes 8 v ++ post)) offset ≡ ok v
  unfolding get_u64_le
  get_u64_le-append h =
      rw
        (get_range-append pre (to_le_bytes 8 v) post offset (add_usize offset 8) at
          (omega (arith, length-to_le_bytes 8 v)))
        (ap ok (from_le_bytes-to_le_bytes 8 v h))

  pub get_u16_le-append : v < 2 ^ 16 → get_u16_le (pre ++ (to_le_bytes 2 v ++ post)) offset ≡ ok v
  unfolding get_u16_le
  get_u16_le-append h =
      rw
        (get_range-append pre (to_le_bytes 2 v) post offset (add_usize offset 2) at
          (omega (arith, length-to_le_bytes 2 v)))
        (ap ok (from_le_bytes-to_le_bytes 2 v h))

  pub get_u16-append : v < 2 ^ 16 → get_u16 (pre ++ (to_be_bytes 2 v ++ post)) offset ≡ ok v
  unfolding get_u16
  get_u16-append h =
      rw
        (get_range-append pre (to_be_bytes 2 v) post offset (add_usize offset 2) at
          (omega (arith, length-to_be_bytes 2 v)))
        (ap ok (from_be_bytes-to_be_bytes 2 v h))

pub get_hash-append :
    (pre hash post : Bytes) (offset : ℕ)
    → offset ≡ length pre
    → offset + 32 < 2 ^ 64
    → length hash ≡ 32
    → get_hash (pre ++ (hash ++ post)) offset ≡ ok hash
unfolding get_hash
get_hash-append pre hash post offset at small h =
    rw (get_range-append pre hash post offset (add_usize offset 32) at (omega arith))

-- The same, at a buffer that is known to fall into parts.
module _ {buffer : Bytes} (pre : Bytes) (mid post : Bytes)
    (parts : buffer ≡ pre ++ (mid ++ post)) where
  pub get_range_at :
      (from to : ℕ)
      → from ≡ length pre
      → to ≡ from + length mid
      → get_range buffer from to ≡ some mid
  get_range_at from to p q = rw parts (get_range-append pre mid post from to p q)

pub with_offset_at :
    {buffer : Bytes} (pre post : Bytes) (offset : ℕ)
    → buffer ≡ pre ++ post
    → offset ≡ length pre
    → with_offset buffer offset ≡ ok post
with_offset_at pre post offset parts p = rw parts (with_offset-append pre post offset p)

pub get_u32_le_at :
    {buffer : Bytes} (pre post : Bytes) (offset v : ℕ)
    → buffer ≡ pre ++ (to_le_bytes 4 v ++ post)
    → offset ≡ length pre
    → offset + 8 < 2 ^ 64
    → v < 2 ^ 32
    → get_u32_le buffer offset ≡ ok v
get_u32_le_at pre post offset v parts p small h =
    rw parts (get_u32_le-append pre post offset v p small h)

pub get_u64_le_at :
    {buffer : Bytes} (pre post : Bytes) (offset v : ℕ)
    → buffer ≡ pre ++ (to_le_bytes 8 v ++ post)
    → offset ≡ length pre
    → offset + 8 < 2 ^ 64
    → v < 2 ^ 64
    → get_u64_le buffer offset ≡ ok v
get_u64_le_at pre post offset v parts p small h =
    rw parts (get_u64_le-append pre post offset v p small h)

pub get_u16_at :
    {buffer : Bytes} (pre post : Bytes) (offset v : ℕ)
    → buffer ≡ pre ++ (to_be_bytes 2 v ++ post)
    → offset ≡ length pre
    → offset + 8 < 2 ^ 64
    → v < 2 ^ 16
    → get_u16 buffer offset ≡ ok v
get_u16_at pre post offset v parts p small h = rw parts (get_u16-append pre post offset v p small h)

pub get_hash_at :
    {buffer : Bytes} (pre hash post : Bytes) (offset : ℕ)
    → buffer ≡ pre ++ (hash ++ post)
    → offset ≡ length pre
    → offset + 32 < 2 ^ 64
    → length hash ≡ 32
    → get_hash buffer offset ≡ ok hash
get_hash_at pre hash post offset parts p small n =
    rw parts (get_hash-append pre hash post offset p small n)

-- A range behind a prefix, where the rest is long enough.
pub get_range-take :
    (pre post : Bytes) (from to : ℕ)
    → from ≡ length pre
    → from ≤ to
    → to ≤ from + length post
    → get_range (pre ++ post) from to ≡ some (take (to - from) post)
unfolding get_range
get_range-take pre post from to p q r = rw (
  le→leb from to q,
  le→leb to (length (pre ++ post)) (omega (arith, length-append pre post)),
  p,
  drop-length-append pre post,
)
