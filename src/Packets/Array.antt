-- ===== src/Packets/Array.antt =====
-- src/packets/mod.rs: arrays behind their count. An item's reader takes the arena and the bytes at the
-- item, and returns it with the bytes that it consumed and the arena.
pub mod RoundTrip
use bitlens_rs.Prelude.{
  ℕ, zero, suc, ◌+◌, ◌*◌, ◌^◌, List, [], ◌∷◌, ◌++◌, ltb, if◌then◌else◌, length, Result, ok, panic,
  ◌>>=◌, ◌>>◌, add_usize,
}
use bitlens_rs.Util.Arena.{Arena, Layout, try_alloc_array}
use bitlens_rs.Packets.Buffer.{Bytes, with_offset, get_u64_le}
use bitlens_rs.Packets.Varint.{serialize_varint, deserialize_varint}

abbrev pub Borrowed {ℓ} : Type ℓ → Type ℓ
Borrowed T = Arena → Bytes → Result (T × ℕ × Arena)

abbrev pub Owned {ℓ} : Type ℓ → Type ℓ
Owned T = Bytes → Result (T × ℕ)

-- `Vec::with_capacity(count)` of items of `size` bytes panics beyond `isize::MAX` bytes.
unfoldable pub with_capacity : ℕ → ℕ → Result (Unit {0})
with_capacity size count = if ltb (size * count) (2 ^ 63) then ok tt else panic

module _ {ℓ} {T : Type ℓ} where
  unfoldable pub deserialize_items :
      Borrowed T → ℕ → Arena → Bytes → ℕ → Result (List T × ℕ × Arena)
  deserialize_items item zero arena buffer offset = ok ([], offset, arena)
  deserialize_items item (suc n) arena buffer offset = do
    rest ← with_offset buffer offset
    (x, consumed, arena') ← item arena rest
    (xs, end, arena'') ← deserialize_items item n arena' buffer (add_usize offset consumed)
    ok (x ∷ xs, end, arena'')

  unfoldable pub deserialize_array : Layout → Borrowed T → Borrowed (List T)
  deserialize_array layout item arena buffer = do
    (count, offset) ← deserialize_varint buffer
    (_, arena') ← try_alloc_array layout count arena
    deserialize_items item count arena' buffer offset

  unfoldable pub deserialize_items_owned : Owned T → ℕ → Bytes → ℕ → Result (List T × ℕ)
  deserialize_items_owned item zero buffer offset = ok ([], offset)
  deserialize_items_owned item (suc n) buffer offset = do
    rest ← with_offset buffer offset
    (x, consumed) ← item rest
    (xs, end) ← deserialize_items_owned item n buffer (add_usize offset consumed)
    ok (x ∷ xs, end)

  unfoldable pub deserialize_array_owned : ℕ → Owned T → Owned (List T)
  deserialize_array_owned size item buffer = do
    (count, offset) ← deserialize_varint buffer
    with_capacity size count
    deserialize_items_owned item count buffer offset

  unfoldable pub serialize_items : (T → Bytes) → List T → Bytes
  serialize_items item [] = []
  serialize_items item (x ∷ xs) = item x ++ serialize_items item xs

  unfoldable pub serialize_array : (T → Bytes) → List T → Bytes
  serialize_array item array = (serialize_varint (length array)).0 ++ serialize_items item array

unfoldable pub deserialize_u64_owned : Owned ℕ
deserialize_u64_owned buffer = do v ← get_u64_le buffer 0; ok (v, 8)
