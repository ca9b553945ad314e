-- ===== src/Packets/Tx.antt =====
-- src/packets/tx.rs: transactions. A borrowed and an owned value hold the same data, and are one type
-- here. SHA-256 is the parameter `sha256`; the arena's element sizes are `layouts`.
pub mod Fields
pub mod Hashes
pub mod Valid
pub mod RoundTrip
pub mod Stored
use bitlens_rs.Prelude.{
  ℕ, zero, suc, ◌+◌, ◌%◌, ◌^◌, Bool, true, false, ◌&&◌, Option, none, some, List, [], ◌∷◌, ◌++◌,
  ◌==◌, if◌then◌else◌, length, bytes_eq, Result, ok, panic, not_enough_bytes, zero_txins, ok_or,
  unwrap, guard, ◌>>=◌, ◌>>◌, add_usize, to_le_bytes,
}
use bitlens_rs.Util.Arena.{Arena, Layout, try_alloc_array}
use bitlens_rs.Packets.Buffer.{
  Bytes, empty_hash, get_range, get_hash, get_u32_le, get_u64_le, with_offset,
}
use bitlens_rs.Packets.Varint.{length_varint}
use bitlens_rs.Packets.Varstr.{
  serialize_varstr, deserialize_varstr, deserialize_array_of_varstr_as_varstr,
}
use bitlens_rs.Packets.Array.{Borrowed, Owned, deserialize_array, serialize_array}

pub record TxIn : Type 0 where
  pub prevout_hash : Bytes
  pub prevout_index : ℕ
  pub sequence : ℕ
  pub sig_script : Bytes

pub record TxOut : Type 0 where
  pub value : ℕ
  pub script : Bytes

-- The witness data of an input is its serialized array of components.
pub record Tx : Type 0 where
  pub version : ℕ
  pub locktime : ℕ
  pub txins : List TxIn
  pub txouts : List TxOut
  pub witness_data : Option (List Bytes)
  pub hash : Bytes
  pub witness_hash : Bytes

unfoldable pub deserialize_txin : Borrowed TxIn
deserialize_txin arena buffer = do
  prevout_hash ← get_hash buffer 0
  prevout_index ← get_u32_le buffer 32
  rest ← with_offset buffer 36
  (script, offset) ← deserialize_varstr rest
  sequence ← get_u32_le buffer (add_usize offset 36)
  ok (
    record {
      prevout_hash = prevout_hash;
      prevout_index = prevout_index;
      sequence = sequence;
      sig_script = script;
    },
    add_usize offset 40,
    arena,
  )

unfoldable pub deserialize_txin_owned : Owned TxIn
deserialize_txin_owned buffer = do
  hash ← get_hash buffer 0
  index ← get_u32_le buffer 32
  rest ← with_offset buffer 36
  (script, offset) ← deserialize_varstr rest
  sequence ← get_u32_le buffer (add_usize offset 36)
  ok (
    record { prevout_hash = hash; prevout_index = index; sequence = sequence; sig_script = script },
    add_usize offset 40,
  )

unfoldable pub serialize_txin : TxIn → Bytes
serialize_txin txin =
    txin.prevout_hash
    ++ (to_le_bytes 4 txin.prevout_index
        ++ ((serialize_varstr txin.sig_script).0 ++ to_le_bytes 4 txin.sequence))

-- An input that spends nothing: that of a coinbase transaction.
unfoldable pub is_empty : TxIn → Bool
is_empty txin = bytes_eq txin.prevout_hash empty_hash && txin.prevout_index == 0xFFFFFFFF

unfoldable pub deserialize_txout : Borrowed TxOut
deserialize_txout arena buffer = do
  value ← get_u64_le buffer 0
  rest ← with_offset buffer 8
  (script, offset) ← deserialize_varstr rest
  ok (record { value = value; script = script }, add_usize offset 8, arena)

unfoldable pub deserialize_txout_owned : Owned TxOut
deserialize_txout_owned buffer = do
  value ← get_u64_le buffer 0
  rest ← with_offset buffer 8
  (script, offset) ← deserialize_varstr rest
  ok (record { value = value; script = script }, add_usize offset 8)

unfoldable pub serialize_txout : TxOut → Bytes
serialize_txout txout = to_le_bytes 8 txout.value ++ (serialize_varstr txout.script).0

unfoldable pub serialized_length : TxOut → ℕ
serialized_length txout = 8 + length_varint (length txout.script) + length txout.script

unfoldable pub concat : List Bytes → Bytes
concat [] = []
concat (b ∷ bs) = b ++ concat bs

-- The marker 0x0001 is put in big-endian order.
abbrev pub marker : Option (List Bytes) → Bytes
marker none = []
marker (some _) = 0 ∷ 1 ∷ []

abbrev pub witness_part : Option (List Bytes) → Bytes
witness_part none = []
witness_part (some witnesses) = concat witnesses

unfoldable pub serialize : Tx → Bytes
serialize tx =
    to_le_bytes 4 tx.version
    ++ (marker tx.witness_data
        ++ (serialize_array serialize_txin tx.txins
            ++ (serialize_array serialize_txout tx.txouts
                ++ (witness_part tx.witness_data ++ to_le_bytes 4 tx.locktime))))

unfoldable pub sole_is_empty : List TxIn → Bool
sole_is_empty [] = false
sole_is_empty (txin ∷ []) = is_empty txin
sole_is_empty (txin ∷ second ∷ more) = false

unfoldable pub is_coinbase : Tx → Bool
is_coinbase tx = sole_is_empty tx.txins

-- The witness data of `n` inputs.
unfoldable pub deserialize_witnesses : ℕ → Bytes → ℕ → Result (List Bytes × ℕ)
deserialize_witnesses zero buffer offset = ok ([], offset)
deserialize_witnesses (suc n) buffer offset = do
  rest ← with_offset buffer offset
  (components, offset_delta) ← deserialize_array_of_varstr_as_varstr rest
  (wits, end) ← deserialize_witnesses n buffer (add_usize offset offset_delta)
  ok (components ∷ wits, end)

-- A witness of one byte is that of an input without components.
unfoldable pub all_single : List Bytes → Bool
all_single [] = true
all_single (w ∷ ws) = length w == 1 && all_single ws

-- `reduce(…).unwrap()` panics on no element.
unfoldable pub all_txins_empty : List Bytes → Result Bool
all_txins_empty [] = panic
all_txins_empty (w ∷ ws) = ok (all_single (w ∷ ws))

pub record Layouts : Type 0 where
  pub txin : Layout
  pub txout : Layout
  pub witness : Layout

-- The witness data of all inputs, where the marker announced it.
unfoldable pub deserialize_witness_part :
    Layouts → Bool → ℕ → Arena → Bytes → ℕ → Result (Option (List Bytes) × ℕ × Arena)
deserialize_witness_part layouts false n arena buffer offset = ok (none, offset, arena)
deserialize_witness_part layouts true n arena buffer offset = do
  (_, arena') ← try_alloc_array layouts.witness n arena
  (wits, end) ← deserialize_witnesses n buffer offset
  ok (some wits, end, arena')

abbrev pub non_empty : List TxIn → Bool
non_empty [] = false
non_empty (x ∷ xs) = true

module _ (sha256 : Bytes → Bytes) where
  -- The hash leaves the marker and the witness data out.
  unfoldable pub hash_of : Bytes → Bool → ℕ → ℕ → Result Bytes
  hash_of buffer true witnesses_start witnesses_end = do
    version ← unwrap (get_range buffer 0 4)
    body ← unwrap (get_range buffer 6 witnesses_start)
    locktime ← unwrap (get_range buffer witnesses_end (add_usize witnesses_end 4))
    ok (sha256 (sha256 (version ++ (body ++ locktime))))
  hash_of buffer false witnesses_start witnesses_end = do
    all ← unwrap (get_range buffer 0 (add_usize witnesses_end 4))
    ok (sha256 (sha256 all))

  unfoldable pub witness_hash_of : Bytes → Option (List Bytes) → Bytes → ℕ → Result Bytes
  witness_hash_of buffer none hash offset = ok hash
  witness_hash_of buffer (some witnesses) hash offset = do
    empty ← all_txins_empty witnesses
    if empty
        then ok hash
        else (unwrap (get_range buffer 0 (add_usize offset 4))
            >>= (λ all. ok (sha256 (sha256 all))))

  unfoldable pub deserialize : Layouts → Borrowed Tx
  deserialize layouts arena buffer = do
    version ← get_u32_le buffer 0
    flag ← ok_or (get_range buffer 4 6) not_enough_bytes
    let has_witness_data = bytes_eq flag (0 ∷ 1 ∷ [])
    let start = if has_witness_data then 6 else 4
    at_txins ← with_offset buffer start
    (txins, txins_delta, arena₁) ← deserialize_array layouts.txin deserialize_txin arena at_txins
    guard (non_empty txins) zero_txins
    let txouts_start = add_usize start txins_delta
    at_txouts ← with_offset buffer txouts_start
    (txouts, txouts_delta, arena₂) ←
        deserialize_array layouts.txout deserialize_txout arena₁ at_txouts
    let witnesses_start = add_usize txouts_start txouts_delta
    (witnesses, offset, arena₃) ←
        deserialize_witness_part layouts has_witness_data (length txins) arena₂ buffer
          witnesses_start
    locktime ← get_u32_le buffer offset
    hash ← hash_of buffer has_witness_data witnesses_start offset
    witness_hash ← witness_hash_of buffer witnesses hash offset
    ok (
      record {
        version = version;
        locktime = locktime;
        txins = txins;
        txouts = txouts;
        witness_data = witnesses;
        hash = hash;
        witness_hash = witness_hash;
      },
      add_usize offset 4,
      arena₃,
    )
