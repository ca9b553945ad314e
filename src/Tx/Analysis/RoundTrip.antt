-- ===== src/Tx/Analysis/RoundTrip.antt =====
-- The record of an analysed transaction is read back.
use bitlens_rs.Prelude.{
  ℕ, suc, ◌+◌, ◌*◌, ◌^◌, ◌<◌, ◌≡◌, refl, ap, ◌∙◌, List, [], ◌∷◌, ◌++◌, map, append_assoc, arith,
  length, length-append, All, ok, to_le_bytes, length-to_le_bytes,
}
use bitlens_rs.Util.Arena.{Arena, try_alloc_array}
use bitlens_rs.Packets.Buffer.{
  Bytes, IsSlice, empty_hash, get_u64_le_at, get_u32_le_at, get_hash_at, with_offset_at,
}
use bitlens_rs.Packets.Varint.{serialize_varint, length_varint}
use bitlens_rs.Packets.Varint.RoundTrip.{length-serialize_varint}
use bitlens_rs.Packets.Array.{deserialize_u64_owned, serialize_array, serialize_items}
use bitlens_rs.Packets.Tx.{Tx, TxOut}
use bitlens_rs.Packets.Tx.Valid.{IsTx}
use bitlens_rs.Packets.Tx.Stored.{serialized_without_txouts_size, serialize_without_txouts}
use bitlens_rs.Packets.Tx.Stored.Reading.{ReadsOwned, deserialize_array_owned-serialize_array}
use bitlens_rs.Packets.Tx.Stored.RoundTrip.{
  serialized_without_txouts_size_lem, deserialize_without_txouts-serialize_without_txouts,
}
use bitlens_rs.Tx.Sigops.{get_transaction_sigop_cost}
use bitlens_rs.Tx.Size.{calculate_tx_size_wus}
use bitlens_rs.Tx.Analysis.{
  sum_values, calculate_fee, verify_flags, zeros, analyzed_size, fee_of, analyzed_tx,
  deserialize_analyzed_tx,
}
use bitlens_rs.Tx.Analysis.Writing.{
  write_at-zeros, write_count-zeros, value_bytes, write_values-zeros,
}

-- The parts of the record in their order; 8 zeros end it.
abbrev pub record_of : Bytes → Tx → List TxOut → ℕ → Bytes
record_of block_hash tx deps sigops =
    to_le_bytes 8 (fee_of tx deps)
    ++ (to_le_bytes 8 (sum_values tx.txouts)
        ++ (to_le_bytes 4 (calculate_tx_size_wus tx)
            ++ (to_le_bytes 4 sigops
                ++ (block_hash
                    ++ (serialize_without_txouts tx
                        ++ (serialize_array value_bytes deps ++ zeros 8))))))

length-values : (deps : List TxOut) → length (serialize_items value_bytes deps) ≡ 8 * length deps
unfolding serialize_items
length-values [] = refl
length-values (dep ∷ deps) = omega (
  arith,
  length-append (value_bytes dep) (serialize_items value_bytes deps),
  length-to_le_bytes 8 dep.value,
  length-values deps,
)

analyzed_tx_lem :
    (block_hash : Bytes) (tx : Tx) (deps : List TxOut) (arena arena' : Arena) (sigops at : ℕ)
    → IsTx tx
    → length block_hash ≡ 32
    → get_transaction_sigop_cost tx deps (verify_flags tx) ≡ ok sigops
    → try_alloc_array (record { size = 1; alignment = 1 }) (analyzed_size tx deps) arena
      ≡ ok (at, arena')
    → analyzed_tx block_hash tx deps arena ≡ ok (record_of block_hash tx deps sigops, arena')
unfolding analyzed_tx
analyzed_tx_lem block_hash tx deps arena arena' sigops at h hash_width cost room =
    let size = analyzed_size tx deps in
    let s : ℕ = serialized_without_txouts_size tx in
    let v : ℕ = length_varint (length deps) in
    let n : ℕ = length deps in
    let total : size ≡ s + 64 + v + 8 * n = unfold analyzed_size in omega arith in
    let stored = serialized_without_txouts_size_lem tx h.txins_valid in
    let b₁ = to_le_bytes 8 (fee_of tx deps) in
    let b₂ = to_le_bytes 8 (sum_values tx.txouts) in
    let b₃ = to_le_bytes 4 (calculate_tx_size_wus tx) in
    let b₄ = to_le_bytes 4 sigops in
    let b₆ = serialize_without_txouts tx in
    let b₇ = (serialize_varint n).0 in
    let w₁ = length-to_le_bytes 8 (fee_of tx deps) in
    let w₂ = length-to_le_bytes 8 (sum_values tx.txouts) in
    let w₃ = length-to_le_bytes 4 (calculate_tx_size_wus tx) in
    let w₄ = length-to_le_bytes 4 sigops in
    let d₂ = b₁ ++ b₂ in
    let d₃ = d₂ ++ b₃ in
    let d₄ = d₃ ++ b₄ in
    let d₅ = d₄ ++ block_hash in
    let d₆ = d₅ ++ b₆ in
    let d₇ = d₆ ++ b₇ in
    let l₂ = length-append b₁ b₂ in
    let l₃ = length-append d₂ b₃ in
    let l₄ = length-append d₃ b₄ in
    let l₅ = length-append d₄ block_hash in
    let l₆ = length-append d₅ b₆ in
    let l₇ = length-append d₆ b₇ in
    let w₇ = length-serialize_varint n in
    rw
      (
        cost,
        room,
        write_at-zeros 0 [] b₁ size (s + 56 + v + 8 * n) refl (omega arith),
        write_at-zeros 8 b₁ b₂ (s + 56 + v + 8 * n) (s + 48 + v + 8 * n) (omega arith)
            (omega arith),
        write_at-zeros 16 d₂ b₃ (s + 48 + v + 8 * n) (s + 44 + v + 8 * n) (omega arith)
            (omega arith),
        write_at-zeros 20 d₃ b₄ (s + 44 + v + 8 * n) (s + 40 + v + 8 * n) (omega arith)
            (omega arith),
        write_at-zeros 24 d₄ block_hash (s + 40 + v + 8 * n) (s + 8 + v + 8 * n) (omega arith)
            (omega arith),
        write_at-zeros 56 d₅ b₆ (s + 8 + v + 8 * n) (8 + v + 8 * n) (omega arith) (omega arith),
        write_count-zeros (56 + s) n d₆ (8 + v + 8 * n) (8 + 8 * n) (omega arith) (omega arith),
        write_values-zeros (56 + s + v) 0 deps d₇ (8 + 8 * n) 8 (omega arith) (omega arith),
      )
      (unfold serialize_array in simp append_assoc)

value-ReadsOwned : (v : ℕ) → v < 2 ^ 64 → ReadsOwned deserialize_u64_owned (to_le_bytes 8) v
unfolding deserialize_u64_owned
value-ReadsOwned v h rest fits =
    rw (get_u64_le_at [] rest 0 v refl refl (omega arith) h, length-to_le_bytes 8 v) refl

abbrev pub IsValue : TxOut → Type 0
IsValue txout = txout.value < 2 ^ 64

All-ReadsOwned :
    (deps : List TxOut)
    → All IsValue deps
    → All (ReadsOwned deserialize_u64_owned (to_le_bytes 8)) (map (λ txout. txout.value) deps)
All-ReadsOwned [] h = tt
All-ReadsOwned (dep ∷ deps) (h, hs) = (value-ReadsOwned dep.value h, All-ReadsOwned deps hs)

length-txin_values : (deps : List TxOut) → length (map (λ txout. txout.value) deps) ≡ length deps
length-txin_values [] = refl
length-txin_values (dep ∷ deps) = ap suc (length-txin_values deps)

serialize_items-txin_values :
    (deps : List TxOut)
    → serialize_items value_bytes deps
      ≡ serialize_items (to_le_bytes 8) (map (λ txout. txout.value) deps)
unfolding serialize_items
serialize_items-txin_values [] = refl
serialize_items-txin_values (dep ∷ deps) =
    ap (λ r. value_bytes dep ++ r) (serialize_items-txin_values deps)

serialize_array-txin_values :
    (deps : List TxOut)
    → serialize_array value_bytes deps
      ≡ serialize_array (to_le_bytes 8) (map (λ txout. txout.value) deps)
unfolding serialize_array
serialize_array-txin_values deps =
    rw (serialize_items-txin_values deps, length-txin_values deps) refl

fee_range : (tx : Tx) (deps : List TxOut) → fee_of tx deps < 2 ^ 64
unfolding fee_of calculate_fee
fee_range tx deps = ground arith

sum_range : (txouts : List TxOut) → sum_values txouts < 2 ^ 64
unfolding sum_values
sum_range [] = omega arith
sum_range (txout ∷ txouts) = omega arith

size_range : (tx : Tx) → calculate_tx_size_wus tx < 2 ^ 32
unfolding calculate_tx_size_wus
size_range tx = omega arith

record_of_lem :
    (size : ℕ) (block_hash hash : Bytes) (tx : Tx) (deps : List TxOut) (sigops : ℕ)
    → IsTx tx
    → length block_hash ≡ 32
    → All IsValue deps
    → 8 * length deps < 2 ^ 63
    → size * length tx.txins < 2 ^ 63
    → sigops < 2 ^ 32
    → IsSlice (record_of block_hash tx deps sigops)
    → deserialize_analyzed_tx size (record_of block_hash tx deps sigops) hash
      ≡ ok (record {
        fee = fee_of tx deps;
        txouts_sum = sum_values tx.txouts;
        size_wus = calculate_tx_size_wus tx;
        sigops = sigops;
        block_hash = block_hash;
        tx = record tx { txouts = []; hash = hash; witness_hash = empty_hash };
        txin_values = map (λ txout. txout.value) deps;
      })
unfolding deserialize_analyzed_tx
record_of_lem size block_hash hash tx deps sigops h hash_width hv few_deps few cost_range fits =
    let buffer = record_of block_hash tx deps sigops in
    let vs = map (λ txout. txout.value) deps in
    let b₁ = to_le_bytes 8 (fee_of tx deps) in
    let b₂ = to_le_bytes 8 (sum_values tx.txouts) in
    let b₃ = to_le_bytes 4 (calculate_tx_size_wus tx) in
    let b₄ = to_le_bytes 4 sigops in
    let b₆ = serialize_without_txouts tx in
    let w₁ = length-to_le_bytes 8 (fee_of tx deps) in
    let w₂ = length-to_le_bytes 8 (sum_values tx.txouts) in
    let w₃ = length-to_le_bytes 4 (calculate_tx_size_wus tx) in
    let w₄ = length-to_le_bytes 4 sigops in
    let t₇ = serialize_array (to_le_bytes 8) vs ++ zeros 8 in
    let t₆ = b₆ ++ t₇ in
    let t₅ = block_hash ++ t₆ in
    let t₄ = b₄ ++ t₅ in
    let t₃ = b₃ ++ t₄ in
    let t₂ = b₂ ++ t₃ in
    let parts : buffer ≡ b₁ ++ t₂ = rw (serialize_array-txin_values deps) refl in
    let l₂ = length-append b₁ b₂ in
    let l₃ = length-append (b₁ ++ b₂) b₃ in
    let l₄ = length-append ((b₁ ++ b₂) ++ b₃) b₄ in
    let l₅ = length-append (((b₁ ++ b₂) ++ b₃) ++ b₄) block_hash in
    let l₆ = length-append ((((b₁ ++ b₂) ++ b₃) ++ b₄) ++ block_hash) b₆ in
    let n = ap length parts in
    let k₁ = length-append b₁ t₂ in
    let k₂ = length-append b₂ t₃ in
    let k₃ = length-append b₃ t₄ in
    let k₄ = length-append b₄ t₅ in
    let k₅ = length-append block_hash t₆ in
    let k₆ = length-append b₆ t₇ in
    let k = length-txin_values deps in
    rw
      (
        get_u64_le_at [] t₂ 0 (fee_of tx deps) parts refl (omega arith) (fee_range tx deps),
        get_u64_le_at b₁ t₃ 8 (sum_values tx.txouts) parts (omega arith) (omega arith)
            (sum_range tx.txouts),
        get_u32_le_at (b₁ ++ b₂) t₄ 16 (calculate_tx_size_wus tx) (parts ∙ simp append_assoc)
            (omega arith) (omega arith) (size_range tx),
        get_u32_le_at ((b₁ ++ b₂) ++ b₃) t₅ 20 sigops (parts ∙ simp append_assoc) (omega arith)
            (omega arith) cost_range,
        get_hash_at (((b₁ ++ b₂) ++ b₃) ++ b₄) block_hash t₆ 24 (parts ∙ simp append_assoc)
            (omega arith) (omega arith) hash_width,
        with_offset_at ((((b₁ ++ b₂) ++ b₃) ++ b₄) ++ block_hash) t₆ 56 (parts ∙ simp append_assoc)
            (omega arith),
        deserialize_without_txouts-serialize_without_txouts size tx t₇ hash h few (omega arith),
        with_offset_at (((((b₁ ++ b₂) ++ b₃) ++ b₄) ++ block_hash) ++ b₆) t₇ (56 + length b₆)
            (parts ∙ simp append_assoc) (omega arith),
        deserialize_array_owned-serialize_array deserialize_u64_owned (to_le_bytes 8) 8 vs (zeros 8)
            (omega arith) (omega arith) (All-ReadsOwned deps hv) (omega arith),
      )
      refl

-- The record that is stored for a transaction is made, and its reader takes back all of it: the fee
-- (none for a coinbase transaction), the sum of the outputs, the weight, the cost of its signature
-- operations, the block's hash, the transaction without its outputs under the given hash, and the
-- values of the outputs that it spends. The conditions: the transaction's fields are in range, the
-- hash of the block has 32 bytes, the values spent are in the range of `u64`, its inputs and the
-- values fit in memory, the cost of its signature operations is counted without a panic and in the
-- range of `u32`, there is room in the arena, and the record is a slice.
pub deserialize_analyzed_tx-analyzed_tx :
    (size : ℕ) (block_hash hash : Bytes) (tx : Tx) (deps : List TxOut) (arena arena' : Arena)
    (sigops at : ℕ)
    → IsTx tx
    → length block_hash ≡ 32
    → All IsValue deps
    → 8 * length deps < 2 ^ 63
    → size * length tx.txins < 2 ^ 63
    → sigops < 2 ^ 32
    → get_transaction_sigop_cost tx deps (verify_flags tx) ≡ ok sigops
    → try_alloc_array (record { size = 1; alignment = 1 }) (analyzed_size tx deps) arena
      ≡ ok (at, arena')
    → IsSlice (record_of block_hash tx deps sigops)
    → (analyzed_tx block_hash tx deps arena ≡ ok (record_of block_hash tx deps sigops, arena'))
      × (deserialize_analyzed_tx size (record_of block_hash tx deps sigops) hash
          ≡ ok (record {
            fee = fee_of tx deps;
            txouts_sum = sum_values tx.txouts;
            size_wus = calculate_tx_size_wus tx;
            sigops = sigops;
            block_hash = block_hash;
            tx = record tx { txouts = []; hash = hash; witness_hash = empty_hash };
            txin_values = map (λ txout. txout.value) deps;
          }))
deserialize_analyzed_tx-analyzed_tx size block_hash hash tx deps arena arena' sigops at h wide hv
      few_deps few range cost room fits =
    (
      analyzed_tx_lem block_hash tx deps arena arena' sigops at h wide cost room,
      record_of_lem size block_hash hash tx deps sigops h wide hv few_deps few range fits,
    )
