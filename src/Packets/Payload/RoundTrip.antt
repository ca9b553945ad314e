-- ===== src/Packets/Payload/RoundTrip.antt =====
-- Every payload that is sent is read back by its reader, and by what its command names.
use bitlens_rs.Prelude.{
  ℕ, ◌^◌, ◌<◌, ◌≡◌, refl, ap, ◌∙◌, arith, List, [], ◌∷◌, map, length, All, ok, >>=-eq-ok,
  to_le_bytes, length-to_le_bytes,
}
use bitlens_rs.Util.U256.{U256}
use bitlens_rs.Util.Arena.{Layout, try_alloc_array}
use bitlens_rs.Util.Merkle.Reference.{IsHash}
use bitlens_rs.Packets.Buffer.{Bytes, get_u64_le_at}
use bitlens_rs.Packets.Array.{Borrowed, deserialize_array, serialize_array}
use bitlens_rs.Packets.Array.RoundTrip.{Reads, room_array, deserialize_array-serialize_array}
use bitlens_rs.Packets.Tx.Fields.{no_room}
use bitlens_rs.Packets.Tx.RoundTrip.{deserialize-serialize}
use bitlens_rs.Packets.BlockHeader.{BlockHeader}
use bitlens_rs.Packets.BlockHeader
use bitlens_rs.Packets.BlockHeader.RoundTrip.{deserialize-serialize_header}
use bitlens_rs.Packets.Block.RoundTrip.{deserialize-serialize_block}
use bitlens_rs.Packets.GetHeaders.RoundTrip.{deserialize-serialize_getheaders}
use bitlens_rs.Packets.InvVector.{InventoryVector, inv-Reads}
use bitlens_rs.Packets.InvVector
use bitlens_rs.Packets.NetAddr.{NetAddr}
use bitlens_rs.Packets.NetAddr
use bitlens_rs.Packets.NetAddr.RoundTrip.{IsNetAddr, IsNetAddrV2, netaddr-Reads, v2-Reads}
use bitlens_rs.Packets.Version.RoundTrip.{version-Reads}
use bitlens_rs.Packets.Payload.Valid.{
  Elements, read_header, IsMined, IsPayload, received, room_payload,
}
use bitlens_rs.Packets.Payload.{
  Payload, ping, pong, inv, get_data, not_found, version, addr, addr_v2, ver_ack, get_addr,
  send_headers, send_addr_v2, tx, block, headers, get_headers, kind_of, PayloadLayouts,
  deserialize_ping, serialize_payload, read_payload,
}

All-map {ℓ κ μ} :
    {T : Type ℓ} (P : T → Type κ) (Q : T → Type μ)
    → ((x : T) → P x → Q x)
    → (xs : List T) → All P xs
    → All Q xs
All-map P Q f [] h = tt
All-map P Q f (x ∷ xs) (hx, h) = (f x hx, All-map P Q f xs h)

map_same {ℓ} : {T : Type ℓ} (xs : List T) → map (λ x. x) xs ≡ xs
map_same [] = refl
map_same (x ∷ xs) = ap (λ t. x ∷ t) (map_same xs)

ping-Reads :
    (nonce : ℕ)
    → nonce < 2 ^ 64
    → Reads no_room deserialize_ping (λ n. to_le_bytes 8 n) (λ x. x) nonce
unfolding deserialize_ping
ping-Reads nonce h arena arena' rest fits room =
    let size = length-to_le_bytes 8 nonce in
    rw (get_u64_le_at [] rest 0 nonce refl refl (omega arith) h, size) (ground arith)

abbrev HasHash : InventoryVector → Type 0
HasHash v = IsHash v.hash

array-Reads {ℓ κ μ} :
    {T : Type ℓ} {U : Type μ} (P : T → Type κ) (item : Borrowed U) (write : T → Bytes)
    (read : T → U) (layout : Layout)
    → ((x : T) → P x → Reads no_room item write read x)
    → (xs : List T) → Elements P xs
    → Reads
        (room_array layout no_room)
        (deserialize_array layout item)
        (serialize_array write)
        (map read)
        xs
array-Reads P item write read layout reads xs (h, count) arena arena' rest fits room =
    deserialize_array-serialize_array no_room item write read layout xs rest arena arena' count
      (All-map P (Reads no_room item write read) reads xs h) fits room

module _ (sha256 : Bytes → Bytes) (digest : (block : Bytes) → IsHash (sha256 block)) (u : U256)
    (l : PayloadLayouts) where
  header-Reads :
      (h : BlockHeader)
      → IsMined sha256 u h
      → Reads no_room
          (BlockHeader.deserialize sha256 u)
          BlockHeader.serialize
          (read_header sha256 u)
          h
  header-Reads h (valid, work) arena arena' rest fits room =
      deserialize-serialize_header sha256 u h arena rest valid work ∙ cc (room)

  -- A payload is read back by the reader of its kind.
  pub read_payload-serialize_payload :
      (payload : Payload)
      → IsPayload sha256 u payload
      → Reads
          (room_payload l)
          (read_payload sha256 u l (kind_of payload))
          serialize_payload
          (received sha256 u)
          payload
  unfolding read_payload serialize_payload room_payload received kind_of
  read_payload-serialize_payload (ping nonce) h arena arena' rest fits room =
      rw (ping-Reads nonce h arena arena' rest fits room) refl
  read_payload-serialize_payload (pong nonce) h arena arena' rest fits room =
      rw (ping-Reads nonce h arena arena' rest fits room) refl
  read_payload-serialize_payload (inv inner) h arena arena' rest fits room =
      rw
        (
          array-Reads HasHash InvVector.deserialize InvVector.serialize (λ x. x) l.inv_layout
              inv-Reads inner h arena arena' rest fits room,
          map_same inner,
        )
        refl
  read_payload-serialize_payload (get_data inner) h arena arena' rest fits room =
      rw
        (
          array-Reads HasHash InvVector.deserialize InvVector.serialize (λ x. x) l.inv_layout
              inv-Reads inner h arena arena' rest fits room,
          map_same inner,
        )
        refl
  read_payload-serialize_payload (not_found inner) h arena arena' rest fits room =
      rw
        (
          array-Reads HasHash InvVector.deserialize InvVector.serialize (λ x. x) l.inv_layout
              inv-Reads inner h arena arena' rest fits room,
          map_same inner,
        )
        refl
  read_payload-serialize_payload (version v) h arena arena' rest fits room =
      rw (version-Reads v h arena arena' rest fits room) refl
  read_payload-serialize_payload (addr inner) h arena arena' rest fits room =
      rw
        (
          array-Reads IsNetAddr NetAddr.deserialize NetAddr.serialize (λ x. x) l.addr_layout
              netaddr-Reads inner h arena arena' rest fits room,
          map_same inner,
        )
        refl
  read_payload-serialize_payload (addr_v2 inner) h arena arena' rest fits room =
      rw
        (
          array-Reads IsNetAddrV2 NetAddr.deserialize_v2 NetAddr.serialize_v2 (λ x. x)
              l.addr_v2_layout v2-Reads inner h arena arena' rest fits room,
          map_same inner,
        )
        refl
  read_payload-serialize_payload ver_ack h arena arena' rest fits room = cc (room)
  read_payload-serialize_payload get_addr h arena arena' rest fits room = cc (room)
  read_payload-serialize_payload send_headers h arena arena' rest fits room = cc (room)
  read_payload-serialize_payload send_addr_v2 h arena arena' rest fits room = cc (room)
  read_payload-serialize_payload (tx t) h arena arena' rest fits room =
      rw (deserialize-serialize sha256 l.parts t rest arena arena' h fits room) refl
  read_payload-serialize_payload (block b) h arena arena' rest fits room =
      rw
        (deserialize-serialize_block sha256 digest u l.parts l.tx_layout b rest arena arena'
          h.mined.0 h.mined.1 h.count h.txs_valid h.txs_some h.is_root fits room)
        refl
  read_payload-serialize_payload (headers inner) h arena arena' rest fits room =
      rw
        (array-Reads (IsMined sha256 u) (BlockHeader.deserialize sha256 u) BlockHeader.serialize
          (read_header sha256 u) l.header_layout header-Reads inner h arena arena' rest fits room)
        refl
  read_payload-serialize_payload (get_headers g) h arena arena' rest fits room =
      let n = length g.block_locator in
      let ((address, after), e, same) =
        >>=-eq-ok (try_alloc_array l.pointer n arena) (λ (_, a). ok a) room in
      rw
        (deserialize-serialize_getheaders l.pointer g rest address arena arena' h fits
          (e ∙ cc (same)))
        refl
