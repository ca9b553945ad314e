-- ===== src/Packets/GetHeaders.antt =====
-- src/packets/getheaders.rs: the request for the headers behind a block locator.
pub mod RoundTrip
use bitlens_rs.Prelude.{
  ℕ, zero, suc, ◌+◌, ◌^◌, List, [], ◌∷◌, ◌++◌, length, Result, ok, ◌>>=◌, add_usize, to_le_bytes,
}
use bitlens_rs.Util.Arena.{Arena, Layout, try_alloc_array}
use bitlens_rs.Packets.Buffer.{Bytes, get_hash, get_u32_le, with_offset}
use bitlens_rs.Packets.Varint.{serialize_varint, deserialize_varint}
use bitlens_rs.Packets.Array.{Borrowed}

pub record GetHeaders : Type 0 where
  pub version : ℕ
  pub block_locator : List Bytes
  pub hash_stop : Bytes

-- `n` hashes from the offset on.
unfoldable pub deserialize_locator : ℕ → Bytes → ℕ → Result (List Bytes × ℕ)
deserialize_locator zero buffer offset = ok ([], offset)
deserialize_locator (suc n) buffer offset = do
  hash ← get_hash buffer offset
  (hashes, end) ← deserialize_locator n buffer (add_usize offset 32)
  ok (hash ∷ hashes, end)

-- `pointer` is the layout of a reference.
unfoldable pub deserialize : Layout → Borrowed GetHeaders
deserialize pointer arena buffer = do
  version ← get_u32_le buffer 0
  rest ← with_offset buffer 4
  (count, offset) ← deserialize_varint rest
  (_, arena') ← try_alloc_array pointer count arena
  (block_locator, end) ← deserialize_locator count buffer (add_usize offset 4)
  hash_stop ← get_hash buffer end
  ok (
    record { version = version; block_locator = block_locator; hash_stop = hash_stop },
    add_usize end 32,
    arena',
  )

unfoldable pub put_hashes : List Bytes → Bytes
put_hashes [] = []
put_hashes (hash ∷ hashes) = hash ++ put_hashes hashes

unfoldable pub serialize : GetHeaders → Bytes
serialize packet =
    to_le_bytes 4 packet.version
    ++ ((serialize_varint (length packet.block_locator)).0
        ++ (put_hashes packet.block_locator ++ packet.hash_stop))
