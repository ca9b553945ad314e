-- ===== src/Chainman/BlockSync/Worker.antt =====
-- src/chainman/blocksync.rs: what a worker asks a peer for, and which of the peer's packets it delivers.
-- A received packet holds a payload, if it could be read.
use bitlens_rs.Prelude.{
  ℕ, Bool, false, Option, some, [], ◌∷◌, leb, if◌then◌else◌, bytes_eq, Result, panic, stuck, ok,
  err,
}
use bitlens_rs.Packets.Buffer.{Bytes}
use bitlens_rs.Packets.InvVector.{witness_block}
use bitlens_rs.Packets.Block.{Block, verify_witness_commitment}
use bitlens_rs.Packets.Payload.{Payload, get_data, block}

abbrev pub segwit_height : ℕ
segwit_height = 481824

unfoldable pub job_to_getdata : Bytes → Payload
job_to_getdata hash = get_data (record { inv_type = witness_block; hash = hash } ∷ [])

-- `if let Err(e) = …` with the test that comes after it.
abbrev pub unless_err : Result (Unit {0}) → Bool → Result Bool
unless_err panic test = panic
unless_err stuck test = stuck
unless_err (err message) test = ok false
unless_err (ok _) test = ok test

module _ (sha256 : Bytes → Bytes) where
  unfoldable pub block_fits : Bytes → ℕ → Block → Result Bool
  block_fits job job_number b =
      let same = bytes_eq b.header.hash job in
      if leb segwit_height job_number
      then unless_err (verify_witness_commitment sha256 b) same
      else ok same

  unfoldable pub should_send : Bytes → ℕ → Option Payload → Result Bool
  should_send job job_number (some (block b)) = block_fits job job_number b
  should_send job job_number _ = ok false
