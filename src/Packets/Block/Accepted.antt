-- ===== src/Packets/Block/Accepted.antt =====
-- What a block that was read satisfies.
use bitlens_rs.Prelude.{
  ℕ, zero, suc, ◌≡◌, refl, sym, subst, ◌∙◌, arith, Bool, true, false, not, List, [], ◌∷◌, ◌++◌, map,
  append_assoc, append-nil, length, All, bytes_eq, bytes_eq→eq, ok, guard, Yields, Yields-guard,
  invalid_header, Yields-ok, Yields->>=, Yields-next, Yields-eq-ok, ok_or, unwrap, not_enough_bytes,
  zero_txins, merkle_root_mutated, merkle_root_mismatch, add_usize, if◌then◌else◌,
}
use bitlens_rs.Util.U256.{U256}
use bitlens_rs.Util.Arena.{Arena, Layout, try_alloc_array}
use bitlens_rs.Packets.Varint.{deserialize_varint}
use bitlens_rs.Packets.BlockHeader
use bitlens_rs.Util.Merkle.{MerkleTree, append_hash, len, finish, levels, into_root}
use bitlens_rs.Util.Merkle.Reference.{IsHash, IsRoot}
use bitlens_rs.Util.Merkle.Refine.{into_root-IsRoot}
use bitlens_rs.Packets.Buffer.{Bytes, empty_hash, get_hash, get_range, get_u32_le, with_offset}
use bitlens_rs.Packets.Array.{deserialize_items, deserialize_array}
use bitlens_rs.Packets.Tx.{Tx, Layouts, concat, hash_of}
use bitlens_rs.Packets.Tx
use bitlens_rs.Packets.Block.{Block, append_hashes, deserialize}

pub append_hashes-concat :
    (hash : Tx → Bytes) (txs : List Tx) (tree : MerkleTree)
    → append_hashes hash txs tree ≡ tree ++ concat (map hash txs)
unfolding append_hashes concat
append_hashes-concat hash [] tree = sym (append-nil tree)
append_hashes-concat hash (tx ∷ txs) tree =
    append_hashes-concat hash txs (append_hash tree (hash tx)) ∙ append_assoc tree (hash tx) _

abbrev pub HasHash : Tx × ℕ × Arena → Type 0
HasHash (tx, consumed, arena) = IsHash tx.hash

abbrev HaveHashes : List Tx × ℕ × Arena → Type 0
HaveHashes (txs, consumed, arena) = All IsHash (map (λ tx. tx.hash) txs)

module _ (sha256 : Bytes → Bytes) (digest : (block : Bytes) → IsHash (sha256 block)) where
  hash_of-IsHash :
      (buffer : Bytes) (has_witness_data : Bool) (from to : ℕ)
      → Yields IsHash (hash_of sha256 buffer has_witness_data from to)
  unfolding hash_of
  hash_of-IsHash buffer true from to =
      Yields-next IsHash (unwrap (get_range buffer 0 4)) _ λ version.
        Yields-next IsHash (unwrap (get_range buffer 6 from)) _ λ body.
          Yields-next IsHash (unwrap (get_range buffer to (add_usize to 4))) _
            λ locktime. Yields-ok IsHash _ (digest _)
  hash_of-IsHash buffer false from to =
      Yields-next IsHash (unwrap (get_range buffer 0 (add_usize to 4))) _
        λ all. Yields-ok IsHash _ (digest _)

  pub tx-IsHash :
      (layouts : Layouts) (arena : Arena) (buffer : Bytes)
      → Yields HasHash (Tx.deserialize sha256 layouts arena buffer)
  unfolding Tx.deserialize
  tx-IsHash layouts arena buffer = Yields-next HasHash (get_u32_le buffer 0) _ λ version.
      Yields-next HasHash (ok_or (get_range buffer 4 6) not_enough_bytes) _ λ flag.
        let witnessed = bytes_eq flag (0 ∷ 1 ∷ []) in
        let start : ℕ = if witnessed then 6 else 4 in
        Yields-next HasHash (with_offset buffer start) _ λ at_txins.
          Yields-next HasHash (deserialize_array layouts.txin Tx.deserialize_txin arena at_txins) _
            λ (txins, txins_delta, arena₁).
              Yields-next HasHash (guard (Tx.non_empty txins) zero_txins) _ λ _.
                let txouts_start = add_usize start txins_delta in
                Yields-next HasHash (with_offset buffer txouts_start) _ λ at_txouts.
                  Yields-next HasHash
                    (deserialize_array layouts.txout Tx.deserialize_txout arena₁ at_txouts) _
                    λ (txouts, txouts_delta, arena₂).
                      let witnesses_start = add_usize txouts_start txouts_delta in
                      Yields-next HasHash
                        (Tx.deserialize_witness_part layouts witnessed (length txins) arena₂ buffer
                          witnesses_start)
                        _
                        λ (witnesses, offset, arena₃).
                          Yields-next HasHash (get_u32_le buffer offset) _ λ locktime.
                            Yields->>= HasHash
                              (hash_of sha256 buffer witnessed witnesses_start offset) _ IsHash
                              (hash_of-IsHash buffer witnessed witnesses_start offset)
                              λ hash h.
                                Yields-next HasHash
                                  (Tx.witness_hash_of sha256 buffer witnesses hash offset) _
                                  λ witness_hash. Yields-ok HasHash _ h

  txs-IsHash :
      (layouts : Layouts) (n : ℕ) (arena : Arena) (buffer : Bytes) (offset : ℕ)
      → Yields HaveHashes (deserialize_items (Tx.deserialize sha256 layouts) n arena buffer offset)
  unfolding deserialize_items
  txs-IsHash layouts zero arena buffer offset = Yields-ok HaveHashes _ tt
  txs-IsHash layouts (suc n) arena buffer offset =
      Yields-next HaveHashes (with_offset buffer offset) _ λ rest.
        Yields->>= HaveHashes (Tx.deserialize sha256 layouts arena rest) _ HasHash
          (tx-IsHash layouts arena rest)
          λ (tx, consumed, arena') h.
            Yields->>= HaveHashes
              (deserialize_items (Tx.deserialize sha256 layouts) n arena' buffer
                (add_usize offset consumed))
              _ HaveHashes (txs-IsHash layouts n arena' buffer (add_usize offset consumed))
              λ (txs, end, arena'') hs. Yields-ok HaveHashes _ (h, hs)

  array-IsHash :
      (layouts : Layouts) (layout : Layout) (arena : Arena) (buffer : Bytes)
      → Yields HaveHashes (deserialize_array layout (Tx.deserialize sha256 layouts) arena buffer)
  unfolding deserialize_array
  array-IsHash layouts layout arena buffer =
      Yields-next HaveHashes (deserialize_varint buffer) _ λ (count, offset).
        Yields-next HaveHashes (try_alloc_array layout count arena) _
          λ (_, arena'). txs-IsHash layouts count arena' buffer offset

  -- The root of the transactions; without any it is zeros.
  abbrev pub RootOf : List Tx → Bytes × Bool → Type 0
  RootOf [] (root, mutated) = (root ≡ empty_hash) × (mutated ≡ false)
  RootOf (tx ∷ txs) (root, mutated) = IsRoot sha256 (map (λ tx. tx.hash) (tx ∷ txs)) root mutated

  merkle-RootOf :
      (txs : List Tx)
      → All IsHash (map (λ tx. tx.hash) txs)
      → Yields (RootOf txs) (into_root sha256 (append_hashes (λ tx. tx.hash) txs []))
  unfolding into_root
  merkle-RootOf [] hashes =
      unfold append_hashes in
      unfold len in
      unfold levels in unfold finish in Yields-ok (RootOf []) (empty_hash, false) (refl, refl)
  merkle-RootOf (tx ∷ txs) hashes =
      let (root, mutation, is_root, e) =
        into_root-IsRoot sha256 digest (map (λ tx. tx.hash) (tx ∷ txs)) (omega arith) hashes in
      rw (append_hashes-concat (λ tx. tx.hash) (tx ∷ txs) [], e)
        (Yields-ok (RootOf (tx ∷ txs)) (root, mutation) is_root)

  module _ (u : U256) where
    -- A block with work, whose header commits to the transactions.
    abbrev pub IsAccepted : Block → Type 0
    IsAccepted block =
        (BlockHeader.is_valid u block.header ≡ true)
        × RootOf block.txs (block.header.merkle_root, false)

    abbrev Valid : BlockHeader.BlockHeader × ℕ × Arena → Type 0
    Valid (header, consumed, arena) = BlockHeader.is_valid u header ≡ true

    header-Valid :
        (arena : Arena) (buffer : Bytes)
        → Yields Valid (BlockHeader.deserialize sha256 u arena buffer)
    unfolding BlockHeader.deserialize
    header-Valid arena buffer = Yields-next Valid (get_u32_le buffer 0) _ λ version.
        Yields-next Valid (get_hash buffer 4) _ λ parent.
          Yields-next Valid (get_hash buffer 36) _ λ merkle_root.
            Yields-next Valid (get_u32_le buffer 68) _ λ timestamp.
              Yields-next Valid (get_u32_le buffer 72) _ λ bits.
                Yields-next Valid (get_u32_le buffer 76) _ λ nonce.
                  Yields-next Valid (with_offset buffer 80) _ λ rest.
                    Yields-next Valid (deserialize_varint rest) _ λ (txs_count, offset).
                      Yields-next Valid (unwrap (get_range buffer 0 80)) _ λ head.
                        let header : BlockHeader.BlockHeader = record {
                          version = version;
                          parent = parent;
                          merkle_root = merkle_root;
                          timestamp = timestamp;
                          bits = bits;
                          nonce = nonce;
                          txs_count = txs_count;
                          hash = sha256 (sha256 head);
                        } in
                        Yields->>= Valid (guard (BlockHeader.is_valid u header) invalid_header) _
                          (λ _. BlockHeader.is_valid u header ≡ true)
                          (Yields-guard (BlockHeader.is_valid u header) invalid_header)
                          λ _ valid. Yields-ok Valid _ valid

    abbrev Accepted : Block × ℕ × Arena → Type 0
    Accepted (block, consumed, arena) = IsAccepted block

    deserialize-Accepted :
        (layouts : Layouts) (layout : Layout) (arena : Arena) (buffer : Bytes)
        → Yields Accepted (deserialize sha256 u layouts layout arena buffer)
    unfolding deserialize
    deserialize-Accepted layouts layout arena buffer =
        Yields->>= Accepted (BlockHeader.deserialize sha256 u arena buffer) _ Valid
          (header-Valid arena buffer)
          λ (header, _, arena₁) valid. Yields-next Accepted (with_offset buffer 80) _ λ rest.
            Yields->>= Accepted
              (deserialize_array layout (Tx.deserialize sha256 layouts) arena₁ rest) _ HaveHashes
              (array-IsHash layouts layout arena₁ rest)
              λ (txs, offset, arena₂) hashes.
                Yields->>= Accepted (into_root sha256 (append_hashes (λ tx. tx.hash) txs [])) _
                  (RootOf txs) (merkle-RootOf txs hashes)
                  λ (root, mutated) is_root.
                    Yields->>= Accepted (guard (not mutated) merkle_root_mutated) _
                      (λ _. not mutated ≡ true) (Yields-guard (not mutated) merkle_root_mutated)
                      λ _ intact.
                        Yields->>= Accepted
                          (guard (bytes_eq root header.merkle_root) merkle_root_mismatch) _
                          (λ _. bytes_eq root header.merkle_root ≡ true)
                          (Yields-guard (bytes_eq root header.merkle_root) merkle_root_mismatch)
                          λ _ equal.
                            let same = bytes_eq→eq root header.merkle_root equal in
                            let unmutated : mutated ≡ false = ground arith in
                            Yields-ok Accepted _ (
                              valid,
                              subst (λ r. RootOf txs (r, false)) same
                                  (subst (λ m. RootOf txs (root, m)) unmutated is_root),
                            )

    -- In a block that is read, the hash of the header is below its target, and the header holds the
    -- root of the hashes of the transactions, no level of which has equal neighbours (without
    -- transactions, zeros); a digest has 32 bytes.
    pub deserialize-IsAccepted :
        (layouts : Layouts) (layout : Layout) (arena arena' : Arena) (buffer : Bytes)
        (block : Block) (consumed : ℕ)
        → deserialize sha256 u layouts layout arena buffer ≡ ok (block, consumed, arena')
        → IsAccepted block
    deserialize-IsAccepted layouts layout arena arena' buffer block consumed e =
        Yields-eq-ok Accepted (deserialize sha256 u layouts layout arena buffer)
          (deserialize-Accepted layouts layout arena buffer) e
