-- ===== src/Packets/InvVector.antt =====
-- src/packets/invvector.rs: inventory vectors.
use bitlens_rs.Prelude.{
  ℕ, ◌^◌, ◌<◌, ◌≡◌, refl, sym, arith, Option, none, some, [], ◌++◌, append_assoc, ◌==◌,
  if◌then◌else◌, length, length-append, ok, ok_or, ◌>>=◌, unknown_inventory_type, to_le_bytes,
  length-to_le_bytes,
}
use bitlens_rs.Util.Merkle.Reference.{IsHash}
use bitlens_rs.Packets.Buffer.{Bytes, get_hash, get_u32_le, get_u32_le_at, get_hash_at}
use bitlens_rs.Packets.Array.{Borrowed}
use bitlens_rs.Packets.Array.RoundTrip.{Reads}
use bitlens_rs.Packets.Tx.Fields.{no_room}

pub data InventoryVectorType : Type 0 where
  error tx block filtered_block cmpct_block : InventoryVectorType
  witness_tx witness_block filtered_witness_block : InventoryVectorType

unfoldable pub to_u32 : InventoryVectorType → ℕ
to_u32 error = 0
to_u32 tx = 1
to_u32 block = 2
to_u32 filtered_block = 3
to_u32 cmpct_block = 4
to_u32 witness_tx = 0x40000001
to_u32 witness_block = 0x40000002
to_u32 filtered_witness_block = 0x40000003

unfoldable pub from_u32 : ℕ → Option InventoryVectorType
from_u32 n =
    if n == 0
    then some error
    else if n == 1
    then some tx
    else if n == 2
    then some block
    else if n == 3
    then some filtered_block
    else if n == 4
    then some cmpct_block
    else if n == 0x40000001
    then some witness_tx
    else if n == 0x40000002
    then some witness_block
    else if n == 0x40000003
    then some filtered_witness_block
    else none

pub record InventoryVector : Type 0 where
  pub inv_type : InventoryVectorType
  pub hash : Bytes

unfoldable pub deserialize : Borrowed InventoryVector
deserialize arena buffer = do
  raw_type ← get_u32_le buffer 0
  inv_type ← ok_or (from_u32 raw_type) unknown_inventory_type
  hash ← get_hash buffer 4
  ok (record { inv_type = inv_type; hash = hash }, 36, arena)

unfoldable pub serialize : InventoryVector → Bytes
serialize v = to_le_bytes 4 (to_u32 v.inv_type) ++ v.hash

to_u32_lem : (t : InventoryVectorType) → (to_u32 t < 2 ^ 32) × (from_u32 (to_u32 t) ≡ some t)
unfolding to_u32 from_u32
to_u32_lem error = (omega arith, refl)
to_u32_lem tx = (omega arith, refl)
to_u32_lem block = (omega arith, refl)
to_u32_lem filtered_block = (omega arith, refl)
to_u32_lem cmpct_block = (omega arith, refl)
to_u32_lem witness_tx = (omega arith, refl)
to_u32_lem witness_block = (omega arith, refl)
to_u32_lem filtered_witness_block = (omega arith, refl)

-- An inventory vector with a hash of 32 bytes is read back.
pub inv-Reads :
    (v : InventoryVector) → IsHash v.hash → Reads no_room deserialize serialize (λ x. x) v
unfolding deserialize serialize no_room
inv-Reads v h arena arena' rest fits room =
    let t = to_le_bytes 4 (to_u32 v.inv_type) in
    let (small, back) = to_u32_lem v.inv_type in
    let wide = length-to_le_bytes 4 (to_u32 v.inv_type) in
    let buffer : Bytes = (t ++ v.hash) ++ rest in
    let parts : buffer ≡ t ++ (v.hash ++ rest) = append_assoc t v.hash rest in
    let size : length (t ++ v.hash) ≡ 36 = omega (arith, length-append t v.hash) in
    rw
      (
        get_u32_le_at {buffer = buffer} [] (v.hash ++ rest) 0 (to_u32 v.inv_type) parts refl
            (omega arith) small,
        back,
        get_hash_at {buffer = buffer} t v.hash rest 4 parts (sym wide) (omega arith) h,
        size,
      )
      (ground arith)
