-- ===== src/Packets/Varint.antt =====
-- src/packets/varint.rs: Bitcoin's variable-length integers. A serializer returns the bytes that it
-- puts on the stream, with the count that it returns.
pub mod RoundTrip
use bitlens_rs.Prelude.{
  ℕ, ◌+◌, ◌%◌, ◌^◌, ◌≡◌, [], ◌∷◌, ◌++◌, ltb, leb, ◌==◌, if◌then◌else◌, length, drop, Result, ok,
  err, panic, not_enough_bytes, ◌>>=◌, to_le_bytes,
}
use bitlens_rs.Packets.Buffer.{Bytes, get_u16_le, get_u32_le, get_u64_le}

unfoldable pub length_varint : ℕ → ℕ
length_varint v =
    if ltb v 0xFD then 1 else if ltb v 0xFFFF then 3 else if ltb v 0xFFFFFFFF then 5 else 9

-- `v as u16` and `v as u32` keep the low bits.
unfoldable pub serialize_varint : ℕ → Bytes × ℕ
serialize_varint v =
    if ltb v 0xFD
    then ((v % 2 ^ 8) ∷ [], 1)
    else if ltb v 0xFFFF
    then (0xFD ∷ to_le_bytes 2 (v % 2 ^ 16), 3)
    else if ltb v 0xFFFFFFFF
    then (0xFE ∷ to_le_bytes 4 (v % 2 ^ 32), 5)
    else (0xFF ∷ to_le_bytes 8 v, 9)

unfoldable pub deserialize_varint : Bytes → Result (ℕ × ℕ)
deserialize_varint [] = err not_enough_bytes
deserialize_varint (leader ∷ rest) =
    let buffer : Bytes = leader ∷ rest in
    if ltb leader 0xFD
    then ok (leader, 1)
    else if leader == 0xFD
    then get_u16_le buffer 1 >>= (λ v. ok (v, 3))
    else if leader == 0xFE
    then get_u32_le buffer 1 >>= (λ v. ok (v, 5))
    else get_u64_le buffer 1 >>= (λ v. ok (v, 9))

-- Writing `bytes` over the front of `into`: a panic if they do not fit.
unfoldable pub copy_front : Bytes → Bytes → Result Bytes
copy_front bytes into =
    if leb (length bytes) (length into) then ok (bytes ++ drop (length bytes) into) else panic

-- In a slice that is too short an index or a range is out of bounds.
unfoldable pub serialize_varint_into_slice : ℕ → Bytes → Result (Bytes × ℕ)
serialize_varint_into_slice v into =
    if ltb v 0xFD
    then copy_front ((v % 2 ^ 8) ∷ []) into >>= (λ s. ok (s, 1))
    else if ltb v 0xFFFF
    then copy_front (0xFD ∷ to_le_bytes 2 (v % 2 ^ 16)) into >>= (λ s. ok (s, 3))
    else if ltb v 0xFFFFFFFF
    then copy_front (0xFE ∷ to_le_bytes 4 (v % 2 ^ 32)) into >>= (λ s. ok (s, 5))
    else copy_front (0xFF ∷ to_le_bytes 8 v) into >>= (λ s. ok (s, 9))
