-- ===== src/Lib.antt =====
-- bitlens-rs is a Bitcoin node that indexes the chain: it downloads headers and blocks from peers,
-- checks them, analyses the transactions, and stores them for an HTTP API. This library models the parts
-- that decide what is read, written, counted and believed:
--   Prelude    what the modules share: lists and tests on native numbers, the outcome of a call
--              (`ok`, `err` for a returned error, `panic`, and `stuck` for a loop without fuel), bytes of
--              integers and sums of `usize`
--   Util       src/util: Arena (arena.rs), Compact (compact.rs), Pow (pow.rs), TimeTracker
--              (timetracker.rs), Merkle (merkle.rs: the tree
--              of hashes in one vector of bytes), and U256, the operations of the crate
--              `primitive-types` with their laws, which are a parameter of all that uses them; U256/Reference
--              shows that the laws can hold
--   Packets    src/packets, the wire format: Buffer (buffer.rs), Varint (varint.rs), Varstr (varstr.rs),
--              Array (mod.rs), Tx (tx.rs: TxBorrowed, TxOwned, TxRef and their inputs and outputs) with
--              Tx/Stored (the form without outputs that the database holds), BlockHeader (blockheader.rs),
--              Block (block.rs: the comparison with the Merkle root, and the commitment to the witness
--              data), GetHeaders (getheaders.rs), InvVector (invvector.rs), NetAddr (netaddr.rs and
--              network_id.rs), Version (version.rs), Payload (packetpayload.rs and the files of the payloads:
--              the reader that the command names, and the checksum)
--   Tx         src/tx: Opcodes (opcodes.rs), Script and Sigops (script.rs: reading scripts, signature
--              operations), Building (script.rs: append_item, get_script_for_destination), Size (size.rs),
--              Address (mod.rs: the address of a script and its key in the index), Analysis (mod.rs, fee.rs:
--              the record of an analysed transaction and its reader)
--   Chainman   src/chainman: Chain (chain.rs: Chain, get_ancestor, get_next_bits_required,
--              update_most_work_chain), Headers (mod.rs: validate_and_apply_header_inner), Walks (mod.rs:
--              the loops from the top header down), Downloads (mod.rs: mark_as_downloaded), Locator (mod.rs
--              and chain.rs: build_get_headers and respond_to_getheaders), Runs (any sequence of the
--              operations that change the chain, as a step relation), Queries (mod.rs: what the HTTP
--              handlers ask of the chain), BlockSync (blocksync.rs: Jobs for find_next_best_job, Master
--              for MasterState and handle_worker_message, Worker for the test of a packet, Runs for the
--              master with any number of workers), Dependencies (blocksync.rs: the outputs that a block
--              spends, from three places), KeepUp (keepup.rs: handle_new_header, with KeepUp/Apply for
--              handle_new_block and apply_block, and KeepUp/Runs for the watcher's loop)
-- A child module named for what it proves (RoundTrip, Invariant, Weight) holds the theorems of its
-- parent, and Tests the runs at concrete inputs.
--
-- How they interact: a packet's reader takes the bytes from its start and the arena, and returns the
-- value, the bytes consumed and the arena, so that an array's reader threads both through its items.
-- Chainman takes the headers that Packets reads, and their work from Util; Tx takes the transactions.
-- The master of the block download hands the missing blocks out to workers and passes them on in order;
-- after it, the watcher applies headers to the same chain, queues their blocks, analyses a block with Tx
-- when its body comes, and marks it in the chain.
--
-- Conventions. A borrowed and an owned value of the source hold the same data and are one type here. An
-- integer is a native number in the range of its type, a property says where it needs the range, and an
-- operation that may wrap is written with `% 2 ^ w`. A writer returns the bytes that it appends. A hash
-- map is the function of its lookups, and a hash set that of its test. SHA-256 and HASH160 are parameters.
-- An arena's allocation is a run without other threads. The lock of the chain is held during a whole
-- operation, which is one function on the state. A reading of the clock is an argument. A channel is what
-- it was sent; the one to the writer of blocks takes a number of them before its receiver is gone. The
-- outputs of the database are a function of the hash that may have no result.
--
-- Fuel. A loop over a script has the script's length as fuel, since an opcode takes a byte at least. A
-- walk down the chain has one more than the number of the header that it starts from, since a parent
-- has the number below; the walk over a fork has two more on the old branch, whose last round finds no
-- header. The loop of a block locator has one more than the number of the top, since each round goes down
-- by one at least. The loop of a Merkle tree has one more round than there are hashes, since a level is
-- shorter than the one below it.
--
-- Not modelled: the database, the HTTP handlers, the crawler, connections, metrics and logs, which are
-- calls of other systems; the header sync, the connections and timeouts of the block download and the
-- batches of its writer, the choice of a worker after the sync, and averages and rates in floating
-- point; the framing of packets on a connection; the headers that are loaded from the database; the
-- statistics of the front page; the outputs, spends and address amends that are stored beside an
-- analysed transaction.
pub mod Prelude
pub mod Util
pub mod Packets
pub mod Tx
pub mod Chainman
