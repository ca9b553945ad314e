-- ===== src/Packets/BlockHeader.antt =====
-- src/packets/blockheader.rs: block headers, their hash and their work. A borrowed and an owned header
-- hold the same data, and are one type here.
pub mod RoundTrip
use bitlens_rs.Prelude.{
  ℕ, ◌+◌, ◌-◌, ◌^◌, Bool, [], ◌∷◌, ◌++◌, ltb, Result, ok, invalid_header, guard, unwrap, ◌>>=◌,
  ◌>>◌, to_le_bytes, from_le_bytes, add_usize,
}
use bitlens_rs.Util.U256.{U256}
use bitlens_rs.Util.Arena.{Arena}
use bitlens_rs.Util.Compact.{u256_from_compact}
use bitlens_rs.Packets.Buffer.{Bytes, empty_hash, get_range, get_hash, get_u32_le, with_offset}
use bitlens_rs.Packets.Varint.{serialize_varint, deserialize_varint}
use bitlens_rs.Packets.Array.{Borrowed}

pub record BlockHeader : Type 0 where
  pub version : ℕ
  pub parent : Bytes
  pub merkle_root : Bytes
  pub timestamp : ℕ
  pub bits : ℕ
  pub nonce : ℕ
  pub txs_count : ℕ
  pub hash : Bytes

unfoldable pub serialize : BlockHeader → Bytes
serialize h =
    to_le_bytes 4 h.version
    ++ (h.parent
        ++ (h.merkle_root
            ++ (to_le_bytes 4 h.timestamp
                ++ (to_le_bytes 4 h.bits
                    ++ (to_le_bytes 4 h.nonce ++ (serialize_varint h.txs_count).0)))))

-- The complement of the four limbs of a target is `2 ^ 256 - 1` less the target.
unfoldable pub get_work : U256 → ℕ → Result ℕ
get_work u bits = do
  let uncompacted = u256_from_compact u bits
  divisor ← unwrap (u.add uncompacted 1)
  result ← unwrap (u.div (2 ^ 256 - 1 - uncompacted) divisor)
  unwrap (u.add result 1)

-- The hash, read as a little-endian number, is below the target.
unfoldable pub is_valid : U256 → BlockHeader → Bool
is_valid u h = ltb (from_le_bytes h.hash) (u256_from_compact u h.bits)

module _ (sha256 : Bytes → Bytes) where
  unfoldable pub deserialize : U256 → Borrowed BlockHeader
  deserialize u arena buffer = do
    version ← get_u32_le buffer 0
    parent ← get_hash buffer 4
    merkle_root ← get_hash buffer 36
    timestamp ← get_u32_le buffer 68
    bits ← get_u32_le buffer 72
    nonce ← get_u32_le buffer 76
    rest ← with_offset buffer 80
    (txs_count, offset) ← deserialize_varint rest
    head ← unwrap (get_range buffer 0 80)
    let header : BlockHeader = record {
      version = version;
      parent = parent;
      merkle_root = merkle_root;
      timestamp = timestamp;
      bits = bits;
      nonce = nonce;
      txs_count = txs_count;
      hash = sha256 (sha256 head);
    }
    guard (is_valid u header) invalid_header
    ok (header, add_usize 80 offset, arena)

  unfoldable pub construct : ℕ → Bytes → Bytes → ℕ → ℕ → ℕ → ℕ → Result BlockHeader
  construct version parent merkle_root timestamp bits nonce txs_count = do
    let s : BlockHeader = record {
      version = version;
      parent = parent;
      merkle_root = merkle_root;
      timestamp = timestamp;
      bits = bits;
      nonce = nonce;
      txs_count = txs_count;
      hash = empty_hash;
    }
    head ← unwrap (get_range (serialize s) 0 80)
    ok (record s { hash = sha256 (sha256 head) })
