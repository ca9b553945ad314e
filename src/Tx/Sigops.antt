-- ===== src/Tx/Sigops.antt =====
-- src/tx/script.rs: the signature operations of a whole transaction. `dependencies` holds the output
-- that each input spends, in the order of the inputs.
use bitlens_rs.Prelude.{
  ℕ, ◌*◌, ◌%◌, ◌^◌, false, Option, none, some, List, [], ◌∷◌, if◌then◌else◌, Result, ok, panic,
  ◌>>=◌,
}
use bitlens_rs.Packets.Buffer.{Bytes}
use bitlens_rs.Packets.Tx.{TxIn, TxOut, Tx, is_coinbase}
use bitlens_rs.Tx.Script.{
  add_u32, get_sigop_count, get_sigop_count2, is_pay_to_script_hash, count_witness_sigops, has_flag,
  script_verify_p2sh, script_verify_witness,
}

unfoldable pub sum_sigops : List Bytes → Result ℕ
sum_sigops [] = ok 0
sum_sigops (script ∷ scripts) = do
  count ← get_sigop_count script false
  rest ← sum_sigops scripts
  ok (add_u32 count rest)

unfoldable pub sig_scripts : List TxIn → List Bytes
sig_scripts [] = []
sig_scripts (txin ∷ txins) = txin.sig_script ∷ sig_scripts txins

unfoldable pub out_scripts : List TxOut → List Bytes
out_scripts [] = []
out_scripts (txout ∷ txouts) = txout.script ∷ out_scripts txouts

unfoldable pub get_legacy_sigops : Tx → Result ℕ
get_legacy_sigops tx = do
  txins_sigops ← sum_sigops (sig_scripts tx.txins)
  txouts_sigops ← sum_sigops (out_scripts tx.txouts)
  ok (add_u32 txins_sigops txouts_sigops)

-- `dependencies[i]` panics where there is none.
unfoldable pub p2sh_loop : List TxIn → List TxOut → ℕ → Result ℕ
p2sh_loop [] dependencies total = ok total
p2sh_loop (txin ∷ txins) [] total = panic
p2sh_loop (txin ∷ txins) (txout ∷ dependencies) total =
    (if is_pay_to_script_hash txout.script
      then get_sigop_count2 txout.script txin.sig_script
      else ok 0)
    >>= (λ count. p2sh_loop txins dependencies (add_u32 total count))

unfoldable pub get_p2sh_sigop_count : Tx → List TxOut → Result ℕ
get_p2sh_sigop_count tx dependencies =
    if is_coinbase tx then ok 0 else p2sh_loop tx.txins dependencies 0

unfoldable pub witness_loop : List TxIn → List TxOut → List Bytes → ℕ → ℕ → Result ℕ
witness_loop [] dependencies witnesses flags sigops = ok sigops
witness_loop (txin ∷ txins) (txout ∷ dependencies) (w ∷ witnesses) flags sigops = do
  count ← count_witness_sigops txin.sig_script txout.script w flags
  witness_loop txins dependencies witnesses flags (add_u32 sigops count)
witness_loop (txin ∷ txins) _ _ flags sigops = panic

-- The release build leaves the `debug_assert` out; without witness data the `unwrap` panics, if there
-- is an input.
abbrev witness_cost : List TxIn → List TxOut → Option (List Bytes) → ℕ → ℕ → Result ℕ
witness_cost [] dependencies witness_data flags sigops = ok sigops
witness_cost (txin ∷ txins) dependencies none flags sigops = panic
witness_cost (txin ∷ txins) dependencies (some witnesses) flags sigops =
    witness_loop (txin ∷ txins) dependencies witnesses flags sigops

unfoldable pub spend_sigops : Tx → List TxOut → ℕ → ℕ → Result ℕ
spend_sigops tx dependencies flags legacy = do
  p2sh ← if has_flag flags script_verify_p2sh then get_p2sh_sigop_count tx dependencies else ok 0
  let sigops = add_u32 legacy (4 * p2sh % 2 ^ 32)
  if has_flag flags script_verify_witness
      then witness_cost tx.txins dependencies tx.witness_data flags sigops
      else ok sigops

unfoldable pub get_transaction_sigop_cost : Tx → List TxOut → ℕ → Result ℕ
get_transaction_sigop_cost tx dependencies flags = do
  legacy ← get_legacy_sigops tx
  let sigops = 4 * legacy % 2 ^ 32
  if is_coinbase tx then ok sigops else spend_sigops tx dependencies flags sigops
