-- ===== src/Packets/Payload/Valid.antt =====
-- What a payload holds when it is sent, what the receiver allocates for it, and what it receives.
use bitlens_rs.Prelude.{◌^◌, ◌<◌, ◌≡◌, true, false, List, map, length, All, Result, ok, ◌>>=◌}
use bitlens_rs.Util.U256.{U256}
use bitlens_rs.Util.Arena.{Arena, try_alloc_array}
use bitlens_rs.Util.Merkle.Reference.{IsHash, IsRoot}
use bitlens_rs.Packets.Buffer.{Bytes}
use bitlens_rs.Packets.Array.RoundTrip.{room_array}
use bitlens_rs.Packets.Tx.Fields.{no_room}
use bitlens_rs.Packets.Tx.Valid.{IsTx, room_tx, txid}
use bitlens_rs.Packets.BlockHeader.{BlockHeader, is_valid}
use bitlens_rs.Packets.BlockHeader.RoundTrip.{IsHeader, block_hash}
use bitlens_rs.Packets.Block.{Block}
use bitlens_rs.Packets.Block.RoundTrip.{hashed}
use bitlens_rs.Packets.GetHeaders.RoundTrip.{IsGetHeaders}
use bitlens_rs.Packets.NetAddr.RoundTrip.{IsNetAddr, IsNetAddrV2}
use bitlens_rs.Packets.Version.RoundTrip.{IsVersion}
use bitlens_rs.Packets.Payload.{
  Payload, ping, pong, inv, get_data, not_found, version, addr, addr_v2, ver_ack, get_addr,
  send_headers, send_addr_v2, tx, block, headers, get_headers, PayloadLayouts,
}

-- Fewer than 2^64 elements, each of them valid.
abbrev pub Elements {ℓ κ} : {T : Type ℓ} → (T → Type κ) → List T → Type κ
Elements P xs = All P xs × (length xs < 2 ^ 64)

module _ (sha256 : Bytes → Bytes) (u : U256) where
  abbrev pub read_header : BlockHeader → BlockHeader
  read_header h = record h { hash = block_hash sha256 h }

  -- A header in range that has work.
  abbrev pub IsMined : BlockHeader → Type 0
  IsMined h = IsHeader h × (is_valid u (read_header h) ≡ true)

  -- A block whose header commits to its transactions.
  pub record IsBlock (b : Block) : Type 0 where
    pub mined : IsMined b.header
    pub count : b.header.txs_count ≡ length b.txs
    pub txs_valid : All IsTx b.txs
    pub txs_some : 0 < length b.txs
    pub is_root : IsRoot sha256 (map (txid sha256) b.txs) b.header.merkle_root false

  abbrev pub IsPayload : Payload → Type 0
  IsPayload (ping nonce) = nonce < 2 ^ 64
  IsPayload (pong nonce) = nonce < 2 ^ 64
  IsPayload (inv inner) = Elements (λ v. IsHash v.hash) inner
  IsPayload (get_data inner) = Elements (λ v. IsHash v.hash) inner
  IsPayload (not_found inner) = Elements (λ v. IsHash v.hash) inner
  IsPayload (version v) = IsVersion v
  IsPayload (addr inner) = Elements IsNetAddr inner
  IsPayload (addr_v2 inner) = Elements IsNetAddrV2 inner
  IsPayload ver_ack = Unit {0}
  IsPayload get_addr = Unit {0}
  IsPayload send_headers = Unit {0}
  IsPayload send_addr_v2 = Unit {0}
  IsPayload (tx t) = IsTx t
  IsPayload (block b) = IsBlock b
  IsPayload (headers inner) = Elements IsMined inner
  IsPayload (get_headers g) = IsGetHeaders g

  -- Transactions and headers are received with their hashes.
  unfoldable pub received : Payload → Payload
  received (tx t) = tx (hashed sha256 t)
  received (block b) =
      block (record { header = read_header b.header; txs = map (hashed sha256) b.txs })
  received (headers inner) = headers (map read_header inner)
  received (ping nonce) = ping nonce
  received (pong nonce) = pong nonce
  received (inv inner) = inv inner
  received (get_data inner) = get_data inner
  received (not_found inner) = not_found inner
  received (version v) = version v
  received (addr inner) = addr inner
  received (addr_v2 inner) = addr_v2 inner
  received ver_ack = ver_ack
  received get_addr = get_addr
  received send_headers = send_headers
  received send_addr_v2 = send_addr_v2
  received (get_headers g) = get_headers g

-- The arena after what is allocated for the parts of a payload.
unfoldable pub room_payload : PayloadLayouts → Payload → Arena → Result Arena
room_payload l (inv inner) = room_array l.inv_layout no_room inner
room_payload l (get_data inner) = room_array l.inv_layout no_room inner
room_payload l (not_found inner) = room_array l.inv_layout no_room inner
room_payload l (addr inner) = room_array l.addr_layout no_room inner
room_payload l (addr_v2 inner) = room_array l.addr_v2_layout no_room inner
room_payload l (tx t) = room_tx l.parts t
room_payload l (block b) = room_array l.tx_layout (room_tx l.parts) b.txs
room_payload l (headers inner) = room_array l.header_layout no_room inner
room_payload l (get_headers g) =
    λ arena. try_alloc_array l.pointer (length g.block_locator) arena >>= λ (_, arena'). ok arena'
room_payload l (ping _) = ok
room_payload l (pong _) = ok
room_payload l (version _) = ok
room_payload l ver_ack = ok
room_payload l get_addr = ok
room_payload l send_headers = ok
room_payload l send_addr_v2 = ok
