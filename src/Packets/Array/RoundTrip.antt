-- ===== src/Packets/Array/RoundTrip.antt =====
-- An array is read back if its items are. `room` is what an item allocates in the arena when it is
-- read, and `read` the value that the reader builds from the one that was written.
use bitlens_rs.Prelude.{
  ℕ, ◌+◌, ◌^◌, ◌<◌, ◌≡◌, sym, ◌∙◌, List, [], ◌∷◌, ◌++◌, map, append_assoc, arith, length,
  length-append, All, Result, ok, ◌>>=◌, >>=-eq-ok, add_usize,
}
use bitlens_rs.Util.Arena.{Arena, Layout, try_alloc_array}
use bitlens_rs.Packets.Buffer.{Bytes, IsSlice, with_offset-append}
use bitlens_rs.Packets.Varint.{length_varint, serialize_varint}
use bitlens_rs.Packets.Varint.RoundTrip.{
  deserialize_varint-serialize_varint, length-serialize_varint,
}
use bitlens_rs.Packets.Array.{
  Borrowed, deserialize_items, deserialize_array, serialize_items, serialize_array,
}

-- The arena after all items have been read.
unfoldable pub room_items {ℓ} :
    {T : Type ℓ} → (T → Arena → Result Arena) → List T → Arena → Result Arena
room_items room [] arena = ok arena
room_items room (x ∷ xs) arena = room x arena >>= room_items room xs

unfoldable pub room_array {ℓ} :
    {T : Type ℓ} → Layout → (T → Arena → Result Arena) → List T → Arena → Result Arena
room_array layout room xs arena =
    try_alloc_array layout (length xs) arena >>= (λ (_, a). room_items room xs a)

-- The reader takes back what the writer wrote, whatever follows it.
abbrev pub Reads {ℓ κ} :
    {T : Type ℓ} {U : Type κ}
    → (T → Arena → Result Arena)
    → Borrowed U
    → (T → Bytes)
    → (T → U)
    → T
    → Type κ
Reads room item write read x =
    (arena arena' : Arena) (rest : Bytes)
    → IsSlice (write x ++ rest)
    → room x arena ≡ ok arena'
    → item arena (write x ++ rest) ≡ ok (read x, length (write x), arena')

module _ {ℓ κ} {T : Type ℓ} {U : Type κ} (room : T → Arena → Result Arena) (item : Borrowed U)
    (write : T → Bytes) (read : T → U) where
  pub deserialize_items-serialize_items :
      (xs : List T) (pre rest : Bytes) (offset : ℕ) (arena arena' : Arena)
      → All (Reads room item write read) xs
      → offset ≡ length pre
      → IsSlice (pre ++ (serialize_items write xs ++ rest))
      → room_items room xs arena ≡ ok arena'
      → deserialize_items item (length xs) arena (pre ++ (serialize_items write xs ++ rest)) offset
        ≡ ok (map read xs, offset + length (serialize_items write xs), arena')
  unfolding deserialize_items serialize_items room_items
  deserialize_items-serialize_items [] pre rest offset arena arena' h at fits r = ground arith
  deserialize_items-serialize_items (x ∷ xs) pre rest offset arena arena' (hx, hxs) at fits r =
      let (mid, e, r') = >>=-eq-ok (room x arena) (room_items room xs) r in
      let tail : Bytes = serialize_items write xs ++ rest in
      let regroup : (write x ++ serialize_items write xs) ++ rest ≡ write x ++ tail =
        append_assoc (write x) (serialize_items write xs) rest in
      let sizes = length-append pre (write x ++ tail) in
      let sizes' = length-append (write x) tail in
      let fits' : length (pre ++ (write x ++ tail)) < 2 ^ 63 = rw regroup at fits in
      let end : add_usize offset (length (write x)) ≡ offset + length (write x) = omega arith in
      let ih =
        deserialize_items-serialize_items xs (pre ++ write x) rest (offset + length (write x)) mid
          arena' hxs (omega (arith, length-append pre (write x)))
          (rw (append_assoc pre (write x) tail) fits') r' in
      rw
        (
          regroup,
          with_offset-append pre (write x ++ tail) offset at,
          hx arena mid tail (omega arith) e,
          end,
          ← append_assoc pre (write x) tail,
          ih,
        )
        (rw (length-append (write x) (serialize_items write xs)) (ground arith))

  -- An array is read back off the front of any slice, if its items are, there are fewer than 2^64 of
  -- them, and the arena has room for the array and for its items; the reader consumes the serialized
  -- bytes.
  pub deserialize_array-serialize_array :
      (layout : Layout) (xs : List T) (rest : Bytes) (arena arena' : Arena)
      → length xs < 2 ^ 64
      → All (Reads room item write read) xs
      → IsSlice (serialize_array write xs ++ rest)
      → room_array layout room xs arena ≡ ok arena'
      → deserialize_array layout item arena (serialize_array write xs ++ rest)
        ≡ ok (map read xs, length (serialize_array write xs), arena')
  unfolding deserialize_array serialize_array room_array
  deserialize_array-serialize_array layout xs rest arena arena' count h fits r =
      let n = length xs in
      let head = (serialize_varint n).0 in
      let body = serialize_items write xs in
      let wide = length-serialize_varint n in
      let ((at, mid), e, r') =
        >>=-eq-ok (try_alloc_array layout n arena) (λ (_, a). room_items room xs a) r in
      let fits' : length (head ++ (body ++ rest)) < 2 ^ 63 =
        rw (append_assoc head body rest) at fits in
      rw
        (append_assoc head body rest, deserialize_varint-serialize_varint n (body ++ rest) count, e)
        (deserialize_items-serialize_items xs head rest (length_varint n) mid arena' h (sym wide)
            fits' r'
          ∙ rw (length-append head body, wide))
