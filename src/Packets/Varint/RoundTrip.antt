-- ===== src/Packets/Varint/RoundTrip.antt =====
-- What src/packets/varint.rs writes is read back, and its three writers agree.
use bitlens_rs.Prelude.{
  ℕ, ◌%◌, ◌^◌, ◌≤◌, ◌<◌, ◌≡◌, refl, false, [], ◌∷◌, ◌++◌, arith, leb, if◌then◌else◌, length, take,
  bytes_eq, drop, All, ok, panic, IsByte, length-to_le_bytes, to_le_bytes-IsByte,
}
use bitlens_rs.Packets.Buffer.{Bytes, get_u16_le-append, get_u32_le-append, get_u64_le-append}
use bitlens_rs.Packets.Varint.{
  length_varint, serialize_varint, deserialize_varint, copy_front, serialize_varint_into_slice,
}

-- Every `u64` that is serialized is read back off the front of any input, whatever follows it,
-- and the reader consumes as many bytes as `length_varint` says.
pub deserialize_varint-serialize_varint :
    (v : ℕ) (rest : Bytes)
    → v < 2 ^ 64
    → deserialize_varint ((serialize_varint v).0 ++ rest) ≡ ok (v, length_varint v)
unfolding deserialize_varint serialize_varint length_varint
deserialize_varint-serialize_varint v rest h = ground (
  arith,
  get_u16_le-append (0xFD ∷ []) rest 1 (v % 2 ^ 16) refl (omega arith),
  get_u32_le-append (0xFE ∷ []) rest 1 (v % 2 ^ 32) refl (omega arith),
  get_u64_le-append (0xFF ∷ []) rest 1 v refl (omega arith),
)

-- The serializer puts exactly the bytes that `length_varint` announces, returns that count, and each
-- is a byte.
pub serialize_varint_shape :
    (v : ℕ)
    → (length (serialize_varint v).0 ≡ length_varint v)
      × ((serialize_varint v).1 ≡ length_varint v)
      × All IsByte (serialize_varint v).0
unfolding serialize_varint length_varint
serialize_varint_shape v = ground (
  arith,
  length-to_le_bytes 2 (v % 2 ^ 16),
  length-to_le_bytes 4 (v % 2 ^ 32),
  length-to_le_bytes 8 v,
  to_le_bytes-IsByte 2 (v % 2 ^ 16),
  to_le_bytes-IsByte 4 (v % 2 ^ 32),
  to_le_bytes-IsByte 8 v,
)

pub length-serialize_varint : (v : ℕ) → length (serialize_varint v).0 ≡ length_varint v
length-serialize_varint v = (serialize_varint_shape v).0

pub length_varint_bounds : (v : ℕ) → (1 ≤ length_varint v) × (length_varint v ≤ 9)
unfolding length_varint
length_varint_bounds v = ground arith

-- Writing into a slice overwrites its front with the bytes of the stream serializer and keeps the
-- rest; where the slice is too short for them it panics, for every value and every slice.
pub serialize_varint_into_slice_lem :
    (v : ℕ) (into : Bytes)
    → serialize_varint_into_slice v into ≡ (
        if leb (length_varint v) (length into)
        then ok ((serialize_varint v).0 ++ drop (length_varint v) into, length_varint v)
        else panic)
unfolding serialize_varint_into_slice copy_front serialize_varint length_varint
serialize_varint_into_slice_lem v into = ground (
  arith,
  length-to_le_bytes 2 (v % 2 ^ 16),
  length-to_le_bytes 4 (v % 2 ^ 32),
  length-to_le_bytes 8 v,
)

-- A count that is not zero does not begin with a zero byte, so it is no witness marker.
pub serialize_varint-ne-marker :
    (n : ℕ) (rest : Bytes)
    → 0 < n
    → bytes_eq (take 2 ((serialize_varint n).0 ++ rest)) (0 ∷ 1 ∷ []) ≡ false
unfolding serialize_varint
serialize_varint-ne-marker n rest h = ground arith
