-- ===== src/Packets/Payload.antt =====
-- src/packets/packetpayload.rs, and the payloads that only wrap an array or a number or are empty:
-- ping.rs, pong.rs, inv.rs, getdata.rs, notfound.rs, addr.rs, addrv2.rs, headers.rs, verack.rs,
-- getaddr.rs, sendheaders.rs, sendaddrv2.rs. A payload received and one to send are one type.
pub mod Valid
pub mod RoundTrip
pub mod Dispatch
use bitlens_rs.Prelude.{
  ℕ, ◌+◌, Option, none, some, List, [], ◌∷◌, ◌++◌, ◌==◌, if◌then◌else◌, bytes_eq, Result, ok, guard,
  unwrap, ◌>>=◌, ◌>>◌, invalid_checksum, to_le_bytes, from_le_bytes,
}
use bitlens_rs.Util.U256.{U256}
use bitlens_rs.Util.Arena.{Arena, Layout, try_alloc}
use bitlens_rs.Packets.Buffer.{Bytes, get_range, get_u64_le}
use bitlens_rs.Packets.Array.{Borrowed, deserialize_array, serialize_array}
use bitlens_rs.Packets.Tx.{Tx, Layouts}
use bitlens_rs.Packets.Tx
use bitlens_rs.Packets.BlockHeader.{BlockHeader}
use bitlens_rs.Packets.BlockHeader
use bitlens_rs.Packets.Block.{Block}
use bitlens_rs.Packets.Block
use bitlens_rs.Packets.GetHeaders.{GetHeaders}
use bitlens_rs.Packets.GetHeaders
use bitlens_rs.Packets.InvVector.{InventoryVector}
use bitlens_rs.Packets.InvVector
use bitlens_rs.Packets.NetAddr.{NetAddr, NetAddrV2}
use bitlens_rs.Packets.NetAddr
use bitlens_rs.Packets.Version.{Version}
use bitlens_rs.Packets.Version

pub data Payload : Type 0 where
  ping pong : ℕ → Payload
  inv get_data not_found : List InventoryVector → Payload
  version : Version → Payload
  addr : List NetAddr → Payload
  addr_v2 : List NetAddrV2 → Payload
  ver_ack get_addr send_headers send_addr_v2 : Payload
  tx : Tx → Payload
  block : Block → Payload
  headers : List BlockHeader → Payload
  get_headers : GetHeaders → Payload

-- Which of them it is.
pub data Kind : Type 0 where
  a_ping a_pong an_inv a_get_data a_not_found a_version an_addr an_addr_v2 : Kind
  a_ver_ack a_get_addr a_send_headers a_send_addr_v2 a_tx a_block a_headers a_get_headers : Kind

unfoldable pub kind_of : Payload → Kind
kind_of (ping _) = a_ping
kind_of (pong _) = a_pong
kind_of (inv _) = an_inv
kind_of (get_data _) = a_get_data
kind_of (not_found _) = a_not_found
kind_of (version _) = a_version
kind_of (addr _) = an_addr
kind_of (addr_v2 _) = an_addr_v2
kind_of ver_ack = a_ver_ack
kind_of get_addr = a_get_addr
kind_of send_headers = a_send_headers
kind_of send_addr_v2 = a_send_addr_v2
kind_of (tx _) = a_tx
kind_of (block _) = a_block
kind_of (headers _) = a_headers
kind_of (get_headers _) = a_get_headers

-- The twelve bytes that name a payload: a text and zeros.
unfoldable pub command_of : Kind → Bytes
command_of a_ping = b'p' ∷ b'i' ∷ b'n' ∷ b'g' ∷ 0 ∷ 0 ∷ 0 ∷ 0 ∷ 0 ∷ 0 ∷ 0 ∷ 0 ∷ []
command_of a_pong = b'p' ∷ b'o' ∷ b'n' ∷ b'g' ∷ 0 ∷ 0 ∷ 0 ∷ 0 ∷ 0 ∷ 0 ∷ 0 ∷ 0 ∷ []
command_of an_inv = b'i' ∷ b'n' ∷ b'v' ∷ 0 ∷ 0 ∷ 0 ∷ 0 ∷ 0 ∷ 0 ∷ 0 ∷ 0 ∷ 0 ∷ []
command_of a_get_data = b'g' ∷ b'e' ∷ b't' ∷ b'd' ∷ b'a' ∷ b't' ∷ b'a' ∷ 0 ∷ 0 ∷ 0 ∷ 0 ∷ 0 ∷ []
command_of a_not_found = b'n' ∷ b'o' ∷ b't' ∷ b'f' ∷ b'o' ∷ b'u' ∷ b'n' ∷ b'd' ∷ 0 ∷ 0 ∷ 0 ∷ 0 ∷ []
command_of a_version = b'v' ∷ b'e' ∷ b'r' ∷ b's' ∷ b'i' ∷ b'o' ∷ b'n' ∷ 0 ∷ 0 ∷ 0 ∷ 0 ∷ 0 ∷ []
command_of an_addr = b'a' ∷ b'd' ∷ b'd' ∷ b'r' ∷ 0 ∷ 0 ∷ 0 ∷ 0 ∷ 0 ∷ 0 ∷ 0 ∷ 0 ∷ []
command_of an_addr_v2 = b'a' ∷ b'd' ∷ b'd' ∷ b'r' ∷ b'v' ∷ b'2' ∷ 0 ∷ 0 ∷ 0 ∷ 0 ∷ 0 ∷ 0 ∷ []
command_of a_ver_ack = b'v' ∷ b'e' ∷ b'r' ∷ b'a' ∷ b'c' ∷ b'k' ∷ 0 ∷ 0 ∷ 0 ∷ 0 ∷ 0 ∷ 0 ∷ []
command_of a_get_addr = b'g' ∷ b'e' ∷ b't' ∷ b'a' ∷ b'd' ∷ b'd' ∷ b'r' ∷ 0 ∷ 0 ∷ 0 ∷ 0 ∷ 0 ∷ []
command_of a_send_headers =
    b's' ∷ b'e' ∷ b'n' ∷ b'd' ∷ b'h' ∷ b'e' ∷ b'a' ∷ b'd' ∷ b'e' ∷ b'r' ∷ b's' ∷ 0 ∷ []
command_of a_send_addr_v2 =
    b's' ∷ b'e' ∷ b'n' ∷ b'd' ∷ b'a' ∷ b'd' ∷ b'd' ∷ b'r' ∷ b'v' ∷ b'2' ∷ 0 ∷ 0 ∷ []
command_of a_tx = b't' ∷ b'x' ∷ 0 ∷ 0 ∷ 0 ∷ 0 ∷ 0 ∷ 0 ∷ 0 ∷ 0 ∷ 0 ∷ 0 ∷ []
command_of a_block = b'b' ∷ b'l' ∷ b'o' ∷ b'c' ∷ b'k' ∷ 0 ∷ 0 ∷ 0 ∷ 0 ∷ 0 ∷ 0 ∷ 0 ∷ []
command_of a_headers = b'h' ∷ b'e' ∷ b'a' ∷ b'd' ∷ b'e' ∷ b'r' ∷ b's' ∷ 0 ∷ 0 ∷ 0 ∷ 0 ∷ 0 ∷ []
command_of a_get_headers =
    b'g' ∷ b'e' ∷ b't' ∷ b'h' ∷ b'e' ∷ b'a' ∷ b'd' ∷ b'e' ∷ b'r' ∷ b's' ∷ 0 ∷ 0 ∷ []

unfoldable pub command : Payload → Bytes
command payload = command_of (kind_of payload)

-- The cases of the match, in its order.
abbrev pub handled : List Kind
handled =
    a_version ∷ a_ver_ack ∷ a_ping ∷ a_pong ∷ a_send_addr_v2 ∷ a_send_headers ∷ a_tx ∷ a_block
    ∷ an_addr ∷ an_addr_v2 ∷ an_inv ∷ a_headers ∷ a_get_headers ∷ a_not_found ∷ []

unfoldable pub find_kind : Bytes → List Kind → Option Kind
find_kind name [] = none
find_kind name (kind ∷ kinds) =
    if bytes_eq name (command_of kind) then some kind else find_kind name kinds

-- The layouts of what is allocated: the payloads themselves, and the elements of arrays.
pub record PayloadLayouts : Type 0 where
  pub payload : Kind → Layout
  pub parts : Layouts
  pub tx_layout : Layout
  pub inv_layout : Layout
  pub addr_layout : Layout
  pub addr_v2_layout : Layout
  pub header_layout : Layout
  pub pointer : Layout

unfoldable pub deserialize_ping : Borrowed ℕ
deserialize_ping arena buffer = do nonce ← get_u64_le buffer 0; ok (nonce, 8, arena)

unfoldable pub serialize_payload : Payload → Bytes
serialize_payload (ping nonce) = to_le_bytes 8 nonce
serialize_payload (pong nonce) = to_le_bytes 8 nonce
serialize_payload (inv inner) = serialize_array InvVector.serialize inner
serialize_payload (get_data inner) = serialize_array InvVector.serialize inner
serialize_payload (not_found inner) = serialize_array InvVector.serialize inner
serialize_payload (version v) = Version.serialize v
serialize_payload (addr inner) = serialize_array NetAddr.serialize inner
serialize_payload (addr_v2 inner) = serialize_array NetAddr.serialize_v2 inner
serialize_payload ver_ack = []
serialize_payload get_addr = []
serialize_payload send_headers = []
serialize_payload send_addr_v2 = []
serialize_payload (tx t) = Tx.serialize t
serialize_payload (block b) = Block.serialize b
serialize_payload (headers inner) = serialize_array BlockHeader.serialize inner
serialize_payload (get_headers g) = GetHeaders.serialize g

abbrev as_payload {ℓ} : {T : Type ℓ} → (T → Payload) → Borrowed T → Borrowed Payload
as_payload wrap reader arena buffer =
    reader arena buffer >>= λ (value, consumed, arena'). ok (wrap value, consumed, arena')

abbrev nothing_to_read : Payload → Borrowed Payload
nothing_to_read payload arena buffer = ok (payload, 0, arena)

module _ (sha256 : Bytes → Bytes) (u : U256) (l : PayloadLayouts) where
  unfoldable pub read_payload : Kind → Borrowed Payload
  read_payload a_ping = as_payload ping deserialize_ping
  read_payload a_pong = as_payload pong deserialize_ping
  read_payload an_inv = as_payload inv (deserialize_array l.inv_layout InvVector.deserialize)
  read_payload a_get_data =
      as_payload get_data (deserialize_array l.inv_layout InvVector.deserialize)
  read_payload a_not_found =
      as_payload not_found (deserialize_array l.inv_layout InvVector.deserialize)
  read_payload a_version = as_payload version Version.deserialize
  read_payload an_addr = as_payload addr (deserialize_array l.addr_layout NetAddr.deserialize)
  read_payload an_addr_v2 =
      as_payload addr_v2 (deserialize_array l.addr_v2_layout NetAddr.deserialize_v2)
  read_payload a_ver_ack = nothing_to_read ver_ack
  read_payload a_get_addr = nothing_to_read get_addr
  read_payload a_send_headers = nothing_to_read send_headers
  read_payload a_send_addr_v2 = nothing_to_read send_addr_v2
  read_payload a_tx = as_payload tx (Tx.deserialize sha256 l.parts)
  read_payload a_block = as_payload block (Block.deserialize sha256 u l.parts l.tx_layout)
  read_payload a_headers =
      as_payload headers (deserialize_array l.header_layout (BlockHeader.deserialize sha256 u))
  read_payload a_get_headers = as_payload get_headers (GetHeaders.deserialize l.pointer)

  -- The first four bytes of the double hash.
  unfoldable pub checksum_of : Bytes → Result ℕ
  checksum_of buffer = do
    shorthash ← unwrap (get_range (sha256 (sha256 buffer)) 0 4)
    ok (from_le_bytes shorthash)

  -- What the match does with the value that the command names.
  unfoldable pub read_kind : Option Kind → Arena → Bytes → Result (Option Payload)
  read_kind none arena buffer = ok none
  read_kind (some kind) arena buffer = do
    (_, arena') ← try_alloc (l.payload kind) arena
    (payload, _, _) ← read_payload kind arena' buffer
    ok (some payload)

  unfoldable pub deserialize_payload : Arena → Bytes → ℕ → Bytes → Result (Option Payload)
  deserialize_payload arena buffer checksum name = do
    shorthash ← checksum_of buffer
    guard (shorthash == checksum) invalid_checksum
    read_kind (find_kind name handled) arena buffer
