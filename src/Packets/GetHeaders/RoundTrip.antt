-- ===== src/Packets/GetHeaders/RoundTrip.antt =====
-- A request for headers is read back.
use bitlens_rs.Prelude.{
  ℕ, ◌+◌, ◌^◌, ◌<◌, ◌≡◌, refl, sym, subst, ◌∙◌, arith, List, [], ◌∷◌, ◌++◌, append_assoc, length,
  length-append, All, ok, add_usize, to_le_bytes, length-to_le_bytes,
}
use bitlens_rs.Util.Arena.{Arena, Layout, try_alloc_array}
use bitlens_rs.Packets.Buffer.{
  Bytes, IsSlice, get_hash-append, get_hash_at, get_u32_le_at, with_offset_at,
}
use bitlens_rs.Packets.Varint.{serialize_varint, length_varint}
use bitlens_rs.Packets.Varint.RoundTrip.{
  deserialize_varint-serialize_varint, length-serialize_varint, length_varint_bounds,
}
use bitlens_rs.Util.Merkle.Reference.{IsHash}
use bitlens_rs.Packets.GetHeaders.{
  GetHeaders, deserialize_locator, deserialize, put_hashes, serialize,
}

deserialize_locator-put_hashes :
    (hashes : List Bytes) (pre rest : Bytes) (offset : ℕ)
    → All IsHash hashes
    → offset ≡ length pre
    → IsSlice (pre ++ (put_hashes hashes ++ rest))
    → deserialize_locator (length hashes) (pre ++ (put_hashes hashes ++ rest)) offset
      ≡ ok (hashes, offset + length (put_hashes hashes))
unfolding deserialize_locator put_hashes
deserialize_locator-put_hashes [] pre rest offset h at fits = ground arith
deserialize_locator-put_hashes (x ∷ xs) pre rest offset (hx, h) at fits =
    let tail : Bytes = put_hashes xs ++ rest in
    let regroup : (x ++ put_hashes xs) ++ rest ≡ x ++ tail = append_assoc x (put_hashes xs) rest in
    let sizes = length-append pre (x ++ tail) in
    let sizes' = length-append x tail in
    let fits' : IsSlice (pre ++ (x ++ tail)) = rw regroup at fits in
    let next : add_usize offset 32 ≡ offset + 32 = omega arith in
    let ih =
      deserialize_locator-put_hashes xs (pre ++ x) rest (offset + 32) h
        (omega (arith, length-append pre x)) (rw (append_assoc pre x tail) fits') in
    rw
      (
        regroup,
        get_hash-append pre x tail offset at (omega arith) hx,
        next,
        ← append_assoc pre x tail,
        ih,
      )
      (rw (length-append x (put_hashes xs), hx) (ground arith))

-- What the fields of a request hold.
pub record IsGetHeaders (packet : GetHeaders) : Type 0 where
  pub version_range : packet.version < 2 ^ 32
  pub locator_hashes : All IsHash packet.block_locator
  pub locator_count : length packet.block_locator < 2 ^ 64
  pub hash_stop_width : IsHash packet.hash_stop

-- A request for headers that is serialized is read back off the front of any slice, if its version is
-- in range, its hashes have 32 bytes, and the arena has room for the references to the locator's; the
-- reader consumes the serialized bytes.
pub deserialize-serialize_getheaders :
    (pointer : Layout) (packet : GetHeaders) (rest : Bytes) (address : ℕ) (arena arena' : Arena)
    → IsGetHeaders packet
    → IsSlice (serialize packet ++ rest)
    → try_alloc_array pointer (length packet.block_locator) arena ≡ ok (address, arena')
    → deserialize pointer arena (serialize packet ++ rest)
      ≡ ok (packet, length (serialize packet), arena')
unfolding deserialize serialize
deserialize-serialize_getheaders pointer packet rest address arena arena' h fits room =
    let v = to_le_bytes 4 packet.version in
    let n = length packet.block_locator in
    let c = (serialize_varint n).0 in
    let l = put_hashes packet.block_locator in
    let s = packet.hash_stop in
    let buffer : Bytes = (v ++ (c ++ (l ++ s))) ++ rest in
    let parts : buffer ≡ v ++ (c ++ (l ++ (s ++ rest))) = simp append_assoc in
    let wide = length-to_le_bytes 4 packet.version in
    let wide' = length-serialize_varint n in
    let bounds = length_varint_bounds n in
    let total = length-append (v ++ (c ++ (l ++ s))) rest in
    let size₁ = length-append v (c ++ (l ++ s)) in
    let size₂ = length-append c (l ++ s) in
    let size₃ = length-append l s in
    let size₄ = h.hash_stop_width in
    let front = length-append v c in
    let front' = length-append v (c ++ l) in
    let front'' = length-append c l in
    let start : add_usize (length_varint n) 4 ≡ length (v ++ c) = omega arith in
    let end : add_usize (length (v ++ c) + length l) 32 ≡ length (v ++ (c ++ (l ++ s))) =
      omega arith in
    let parts' : buffer ≡ (v ++ c) ++ (l ++ (s ++ rest)) = parts ∙ simp append_assoc in
    let located : deserialize_locator n buffer (length (v ++ c))
        ≡ ok (packet.block_locator, length (v ++ c) + length l) =
      rw parts' (
        deserialize_locator-put_hashes packet.block_locator (v ++ c) (s ++ rest) (length (v ++ c))
          h.locator_hashes refl (subst IsSlice parts' fits)) in
    rw
      (
        get_u32_le_at [] (c ++ (l ++ (s ++ rest))) 0 packet.version parts refl (omega arith)
            h.version_range,
        with_offset_at v (c ++ (l ++ (s ++ rest))) 4 parts (sym wide),
        deserialize_varint-serialize_varint n (l ++ (s ++ rest)) h.locator_count,
        room,
        start,
        located,
        get_hash_at {buffer = buffer} (v ++ (c ++ l)) s rest (length (v ++ c) + length l)
            (parts ∙ simp append_assoc) (omega arith) (omega arith) size₄,
        end,
      )
      refl
