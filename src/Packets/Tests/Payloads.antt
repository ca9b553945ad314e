-- ===== src/Packets/Tests/Payloads.antt =====
-- An announcement of a block with its checksum.
use bitlens_rs.Prelude.{
  ℕ, ◌≡◌, ◌≢◌, refl, [], ◌∷◌, arith, ok, err, invalid_checksum, to_le_bytes, from_le_bytes,
  length-to_le_bytes,
}
use bitlens_rs.Util.Arena.{Layout, try_alloc, try_alloc_array, padding}
use bitlens_rs.Util.U256.Reference.{reference}
use bitlens_rs.Packets.Buffer.{IsSlice, get_range}
use bitlens_rs.Packets.Varint.{serialize_varint}
use bitlens_rs.Packets.Array.{serialize_items, serialize_array}
use bitlens_rs.Packets.Array.RoundTrip.{room_items, room_array}
use bitlens_rs.Packets.InvVector.{witness_block, to_u32}
use bitlens_rs.Packets.InvVector
use bitlens_rs.Packets.Payload.{
  Payload, inv, kind_of, command, PayloadLayouts, serialize_payload, checksum_of,
  deserialize_payload,
}
use bitlens_rs.Packets.Payload.Valid.{IsPayload, room_payload}
use bitlens_rs.Packets.Payload.Dispatch.{read_back, seen_as, deserialize_payload-serialize_payload}
use bitlens_rs.Packets.Tests.{arena, layouts}
use bitlens_rs.Packets.Tests.Blocks.{digest, digest-IsHash}

abbrev word : Layout
word = record { size = 8; alignment = 8 }

abbrev payload_layouts : PayloadLayouts
payload_layouts = record {
  payload = λ _. word;
  parts = layouts;
  tx_layout = word;
  inv_layout = word;
  addr_layout = word;
  addr_v2_layout = word;
  header_layout = word;
  pointer = word;
}

abbrev announcement : Payload
announcement = inv (record { inv_type = witness_block; hash = to_le_bytes 32 77 } ∷ [])

announcement-IsPayload : IsPayload digest reference announcement
announcement-IsPayload = ((length-to_le_bytes 32 77, tt), omega arith)

announcement_fits : IsSlice (serialize_payload announcement)
unfolding serialize_payload serialize_array serialize_items InvVector.serialize to_u32
    serialize_varint to_le_bytes
announcement_fits = omega arith

announcement_sum :
    checksum_of digest reference payload_layouts (serialize_payload announcement) ≡ ok 32
unfolding checksum_of get_range from_le_bytes to_le_bytes serialize_payload serialize_array
    serialize_items InvVector.serialize to_u32 serialize_varint
announcement_sum = refl

announcement_alloc :
    try_alloc (payload_layouts.payload (kind_of announcement)) arena
    ≡ ok (67, record arena { consumed = 16 })
unfolding try_alloc padding
announcement_alloc = refl

announcement_room :
    room_payload payload_layouts announcement (record arena { consumed = 16 })
    ≡ ok (record arena { consumed = 24 })
unfolding room_payload room_array room_items try_alloc_array padding
announcement_room = refl

deserialize_payload-serialize_payload_example :
    (deserialize_payload digest reference payload_layouts arena
        (serialize_payload announcement)
        32
        (command announcement)
      ≡ ok (
          seen_as digest digest-IsHash reference payload_layouts
            (read_back (kind_of announcement))
            announcement))
    × ((other : ℕ)
        → 32 ≢ other
        → deserialize_payload digest reference payload_layouts arena
            (serialize_payload announcement)
            other
            (command announcement)
          ≡ err invalid_checksum)
deserialize_payload-serialize_payload_example =
    deserialize_payload-serialize_payload digest digest-IsHash reference payload_layouts
      announcement 32 67 arena (record arena { consumed = 16 }) (record arena { consumed = 24 })
      announcement-IsPayload announcement_fits announcement_sum announcement_alloc announcement_room
