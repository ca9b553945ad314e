-- ===== src/Packets/BlockHeader/RoundTrip.antt =====
-- A block header is read back, under the double hash of its first 80 bytes.
use bitlens_rs.Prelude.{
  ◌+◌, ◌^◌, ◌<◌, ◌≡◌, refl, sym, ap, ◌∙◌, true, [], ◌++◌, append_assoc, arith, length,
  length-append, ok, add_usize, to_le_bytes, length-to_le_bytes,
}
use bitlens_rs.Util.U256.{U256}
use bitlens_rs.Util.Arena.{Arena}
use bitlens_rs.Packets.Buffer.{
  Bytes, empty_hash, get_range_at, get_hash_at, get_u32_le_at, with_offset_at,
}
use bitlens_rs.Packets.Varint.{serialize_varint, length_varint}
use bitlens_rs.Packets.Varint.RoundTrip.{
  deserialize_varint-serialize_varint, length-serialize_varint, length_varint_bounds,
}
use bitlens_rs.Packets.BlockHeader.{BlockHeader, serialize, is_valid, deserialize, construct}

-- What the fields of a header hold.
pub record IsHeader (h : BlockHeader) : Type 0 where
  pub version_range : h.version < 2 ^ 32
  pub parent_width : length h.parent ≡ 32
  pub merkle_root_width : length h.merkle_root ≡ 32
  pub timestamp_range : h.timestamp < 2 ^ 32
  pub bits_range : h.bits < 2 ^ 32
  pub nonce_range : h.nonce < 2 ^ 32
  pub txs_count_range : h.txs_count < 2 ^ 64

-- The first 80 bytes: all fields but the number of transactions.
unfoldable pub fields : BlockHeader → Bytes
fields h =
    to_le_bytes 4 h.version
    ++ (h.parent
        ++ (h.merkle_root
            ++ (to_le_bytes 4 h.timestamp ++ (to_le_bytes 4 h.bits ++ to_le_bytes 4 h.nonce))))

module _ (h : BlockHeader) (valid : IsHeader h) where
  pub length-fields : length (fields h) ≡ 80
  unfolding fields
  length-fields =
      let v = to_le_bytes 4 h.version in
      let t = to_le_bytes 4 h.timestamp in
      let b = to_le_bytes 4 h.bits in
      let n = to_le_bytes 4 h.nonce in
      omega (
        arith,
        length-append v (h.parent ++ (h.merkle_root ++ (t ++ (b ++ n)))),
        length-append h.parent (h.merkle_root ++ (t ++ (b ++ n))),
        length-append h.merkle_root (t ++ (b ++ n)),
        length-append t (b ++ n),
        length-append b n,
        valid.parent_width,
        valid.merkle_root_width,
        length-to_le_bytes 4 h.version,
        length-to_le_bytes 4 h.timestamp,
        length-to_le_bytes 4 h.bits,
        length-to_le_bytes 4 h.nonce,
      )

  pub serialize-fields :
      (rest : Bytes) → serialize h ++ rest ≡ fields h ++ ((serialize_varint h.txs_count).0 ++ rest)
  unfolding fields serialize
  serialize-fields rest = simp append_assoc

  pub length-serialize : length (serialize h) ≡ 80 + length_varint h.txs_count
  length-serialize =
      let count = (serialize_varint h.txs_count).0 in
      let nothing = ap length (serialize-fields []) in
      omega (
        arith,
        length-append (serialize h) [],
        length-append (fields h) (count ++ []),
        length-append count [],
        length-fields,
        length-serialize_varint h.txs_count,
      )

-- The hash of a block.
unfoldable pub block_hash : (Bytes → Bytes) → BlockHeader → Bytes
block_hash sha256 h = sha256 (sha256 (fields h))

deserialize_parts :
    (sha256 : Bytes → Bytes) (u : U256) (h : BlockHeader) (arena : Arena) (rest buffer : Bytes)
    → IsHeader h
    → is_valid u (record h { hash = block_hash sha256 h }) ≡ true
    → buffer
      ≡ to_le_bytes 4 h.version
        ++ (h.parent
            ++ (h.merkle_root
                ++ (to_le_bytes 4 h.timestamp
                    ++ (to_le_bytes 4 h.bits
                        ++ (to_le_bytes 4 h.nonce ++ ((serialize_varint h.txs_count).0 ++ rest))))))
    → deserialize sha256 u arena buffer
      ≡ ok (record h { hash = block_hash sha256 h }, 80 + length_varint h.txs_count, arena)
unfolding deserialize block_hash
deserialize_parts sha256 u h arena rest buffer valid work parts =
    let v = to_le_bytes 4 h.version in
    let p = h.parent in
    let r = h.merkle_root in
    let t = to_le_bytes 4 h.timestamp in
    let b = to_le_bytes 4 h.bits in
    let n = to_le_bytes 4 h.nonce in
    let tail : Bytes = (serialize_varint h.txs_count).0 ++ rest in
    let wide_v = length-to_le_bytes 4 h.version in
    let wide_t = length-to_le_bytes 4 h.timestamp in
    let wide_b = length-to_le_bytes 4 h.bits in
    let wide_n = length-to_le_bytes 4 h.nonce in
    let wide_p = valid.parent_width in
    let wide_r = valid.merkle_root_width in
    let at₂ = length-append v p in
    let at₃ = length-append v (p ++ r) in
    let at₃' = length-append p r in
    let at₄ = length-append v (p ++ (r ++ t)) in
    let at₄' = length-append p (r ++ t) in
    let at₄'' = length-append r t in
    let at₅ = length-append v (p ++ (r ++ (t ++ b))) in
    let at₅' = length-append p (r ++ (t ++ b)) in
    let at₅'' = length-append r (t ++ b) in
    let at₅''' = length-append t b in
    let whole : buffer ≡ fields h ++ tail = unfold fields in parts ∙ simp append_assoc in
    let count = length_varint_bounds h.txs_count in
    let end : add_usize 80 (length_varint h.txs_count) ≡ 80 + length_varint h.txs_count =
      omega arith in
    rw (
      get_u32_le_at [] (p ++ (r ++ (t ++ (b ++ (n ++ tail))))) 0 h.version parts refl (omega arith)
          valid.version_range,
      get_hash_at v p (r ++ (t ++ (b ++ (n ++ tail)))) 4 parts (omega arith) (omega arith) wide_p,
      get_hash_at (v ++ p) r (t ++ (b ++ (n ++ tail))) 36 (parts ∙ simp append_assoc) (omega arith)
          (omega arith) wide_r,
      get_u32_le_at (v ++ (p ++ r)) (b ++ (n ++ tail)) 68 h.timestamp (parts ∙ simp append_assoc)
          (omega arith) (omega arith) valid.timestamp_range,
      get_u32_le_at (v ++ (p ++ (r ++ t))) (n ++ tail) 72 h.bits (parts ∙ simp append_assoc)
          (omega arith) (omega arith) valid.bits_range,
      get_u32_le_at (v ++ (p ++ (r ++ (t ++ b)))) tail 76 h.nonce (parts ∙ simp append_assoc)
          (omega arith) (omega arith) valid.nonce_range,
      with_offset_at (fields h) tail 80 whole (sym (length-fields h valid)),
      deserialize_varint-serialize_varint h.txs_count rest valid.txs_count_range,
      get_range_at [] (fields h) tail whole 0 80 refl (omega (arith, length-fields h valid)),
      work,
      end,
    )

-- A block header that is serialized is read back off the front of any input, if its fields are in range
-- and its hash is below its target: all fields are the same, the hash is the double hash of the first
-- 80 bytes, and the reader consumes the serialized bytes.
pub deserialize-serialize_header :
    (sha256 : Bytes → Bytes) (u : U256) (h : BlockHeader) (arena : Arena) (rest : Bytes)
    → IsHeader h
    → is_valid u (record h { hash = block_hash sha256 h }) ≡ true
    → deserialize sha256 u arena (serialize h ++ rest)
      ≡ ok (record h { hash = block_hash sha256 h }, length (serialize h), arena)
deserialize-serialize_header sha256 u h arena rest valid work =
    deserialize_parts sha256 u h arena rest (serialize h ++ rest) valid work
      (unfold serialize in simp append_assoc)
    ∙ rw (length-serialize h valid) refl

-- A header that is constructed from fields in range has the double hash of its first 80 bytes.
pub construct_lem :
    (sha256 : Bytes → Bytes) (h : BlockHeader)
    → IsHeader h
    → construct sha256 h.version h.parent h.merkle_root h.timestamp h.bits h.nonce h.txs_count
      ≡ ok (record h { hash = block_hash sha256 h })
unfolding construct block_hash
construct_lem sha256 h valid =
    let bare : BlockHeader = record h { hash = empty_hash } in
    let same : fields bare ≡ fields h = unfold fields in refl in
    let parts : serialize bare ≡ fields h ++ (serialize_varint h.txs_count).0 =
      unfold fields serialize in simp append_assoc in
    rw (
      get_range_at [] (fields h) (serialize_varint h.txs_count).0 parts 0 80 refl
        (omega (arith, length-fields h valid)))
