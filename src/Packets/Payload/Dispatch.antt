-- ===== src/Packets/Payload/Dispatch.antt =====
-- A packet's payload is read by what its command names, after the checksum.
use bitlens_rs.Prelude.{
  ℕ, ◌≡◌, ◌≢◌, refl, ◌⊎◌, inl, inr, arith, Option, none, some, [], ◌++◌, append-nil, ◌==◌, length,
  ok, err, invalid_checksum, true, false,
}
use bitlens_rs.Util.U256.{U256}
use bitlens_rs.Util.Arena.{Arena, try_alloc}
use bitlens_rs.Util.Merkle.Reference.{IsHash}
use bitlens_rs.Packets.Buffer.{Bytes, IsSlice}
use bitlens_rs.Packets.Payload.Valid.{IsPayload, received, room_payload}
use bitlens_rs.Packets.Payload.RoundTrip.{read_payload-serialize_payload}
use bitlens_rs.Packets.Payload.{
  Payload, Kind, a_ping, a_pong, an_inv, a_get_data, a_not_found, a_version, an_addr, an_addr_v2,
  a_ver_ack, a_get_addr, a_send_headers, a_send_addr_v2, a_tx, a_block, a_headers, a_get_headers,
  kind_of, command_of, command, handled, find_kind, PayloadLayouts, serialize_payload, read_payload,
  checksum_of, read_kind, deserialize_payload,
}

-- Requests for data and for addresses are sent, but not read.
unfoldable pub read_back : Kind → Option Kind
read_back a_get_data = none
read_back a_get_addr = none
read_back a_ping = some a_ping
read_back a_pong = some a_pong
read_back an_inv = some an_inv
read_back a_not_found = some a_not_found
read_back a_version = some a_version
read_back an_addr = some an_addr
read_back an_addr_v2 = some an_addr_v2
read_back a_ver_ack = some a_ver_ack
read_back a_send_headers = some a_send_headers
read_back a_send_addr_v2 = some a_send_addr_v2
read_back a_tx = some a_tx
read_back a_block = some a_block
read_back a_headers = some a_headers
read_back a_get_headers = some a_get_headers

find_kind-command_of : (kind : Kind) → find_kind (command_of kind) handled ≡ read_back kind
unfolding find_kind command_of read_back
find_kind-command_of a_get_data = refl
find_kind-command_of a_get_addr = refl
find_kind-command_of a_ping = refl
find_kind-command_of a_pong = refl
find_kind-command_of an_inv = refl
find_kind-command_of a_not_found = refl
find_kind-command_of a_version = refl
find_kind-command_of an_addr = refl
find_kind-command_of an_addr_v2 = refl
find_kind-command_of a_ver_ack = refl
find_kind-command_of a_send_headers = refl
find_kind-command_of a_send_addr_v2 = refl
find_kind-command_of a_tx = refl
find_kind-command_of a_block = refl
find_kind-command_of a_headers = refl
find_kind-command_of a_get_headers = refl

-- It is the kind itself, if any.
read_back-cases : (kind : Kind) → (read_back kind ≡ none) ⊎ (read_back kind ≡ some kind)
unfolding read_back
read_back-cases a_get_data = inl refl
read_back-cases a_get_addr = inl refl
read_back-cases a_ping = inr refl
read_back-cases a_pong = inr refl
read_back-cases an_inv = inr refl
read_back-cases a_not_found = inr refl
read_back-cases a_version = inr refl
read_back-cases an_addr = inr refl
read_back-cases an_addr_v2 = inr refl
read_back-cases a_ver_ack = inr refl
read_back-cases a_send_headers = inr refl
read_back-cases a_send_addr_v2 = inr refl
read_back-cases a_tx = inr refl
read_back-cases a_block = inr refl
read_back-cases a_headers = inr refl
read_back-cases a_get_headers = inr refl

module _ (sha256 : Bytes → Bytes) (digest : (block : Bytes) → IsHash (sha256 block)) (u : U256)
    (l : PayloadLayouts) where
  -- What the receiver of a payload has of it.
  abbrev pub seen_as : Option Kind → Payload → Option Payload
  seen_as none payload = none
  seen_as (some _) payload = some (received sha256 u payload)

  read_kind_lem :
      (payload : Payload) (address : ℕ) (arena arena₁ arena₂ : Arena)
      → IsPayload sha256 u payload
      → IsSlice (serialize_payload payload)
      → try_alloc (l.payload (kind_of payload)) arena ≡ ok (address, arena₁)
      → room_payload l payload arena₁ ≡ ok arena₂
      → read_kind sha256 u l (read_back (kind_of payload)) arena (serialize_payload payload)
        ≡ ok (seen_as (read_back (kind_of payload)) payload)
  unfolding read_kind
  read_kind_lem payload address arena arena₁ arena₂ h fits alloc room =
      let bytes = serialize_payload payload in
      let none_behind : bytes ++ [] ≡ bytes = append-nil bytes in
      let read : read_payload sha256 u l (kind_of payload) arena₁ bytes
          ≡ ok (received sha256 u payload, length bytes, arena₂) =
        rw none_behind at (
          read_payload-serialize_payload sha256 digest u l payload h arena₁ arena₂ []
            (rw none_behind fits) room) in
      elim (read_back-cases (kind_of payload)) [
        | inl unread ↦ rw (unread) refl
        | inr is_read ↦ rw (is_read, alloc, read) refl
      ]

  -- A payload whose fields are in range, written out by its serializer, is read back under its command
  -- and its checksum, if the arena has room: transactions, blocks and headers with their hashes, all
  -- else as it was; only a `getdata` or a `getaddr` is not read. Under another checksum it is refused
  -- with an error. A block must be committed to by its header, and headers must have work; a digest
  -- has 32 bytes.
  pub deserialize_payload-serialize_payload :
      (payload : Payload) (checksum address : ℕ) (arena arena₁ arena₂ : Arena)
      → IsPayload sha256 u payload
      → IsSlice (serialize_payload payload)
      → checksum_of sha256 u l (serialize_payload payload) ≡ ok checksum
      → try_alloc (l.payload (kind_of payload)) arena ≡ ok (address, arena₁)
      → room_payload l payload arena₁ ≡ ok arena₂
      → (deserialize_payload sha256 u l arena (serialize_payload payload) checksum (command payload)
          ≡ ok (seen_as (read_back (kind_of payload)) payload))
        × ((other : ℕ)
            → checksum ≢ other
            → deserialize_payload sha256 u l arena
                (serialize_payload payload)
                other
                (command payload)
              ≡ err invalid_checksum)
  unfolding deserialize_payload command
  deserialize_payload-serialize_payload payload checksum address arena arena₁ arena₂ h fits sum
        alloc room =
      (
        let same : (checksum == checksum) ≡ true = ground arith in
            rw (sum, same, find_kind-command_of (kind_of payload))
              (read_kind_lem payload address arena arena₁ arena₂ h fits alloc room),
        λ other differs.
            let apart : (checksum == other) ≡ false = ground arith in rw (sum, apart) refl,
      )
