-- ===== src/Packets/Block/Commitment.antt =====
-- A block's commitment to its witness data, as BIP 141 has it, is what src/packets/block.rs verifies.
use bitlens_rs.Prelude.{
  ℕ, ◌≤◌, ◌≡◌, refl, sym, ap, subst, ◌∙◌, ◌↔◌, inl, inr, arith, Bool, true, false, ◌&&◌, not, some,
  List, [], ◌∷◌, ◌++◌, map, reverse, leb, ◌==◌, ==_iff, leb→le, le→leb, Bool-cases, length,
  length-append, length-take, length-drop, get_elem?, take, drop, take-append-drop,
  take-length-append, append-nil, append_assoc, All-reverse, All, bytes_eq, bytes_eq_refl,
  bytes_eq→eq, ok, ok_or, unwrap, guard, Yields, Yields->>=, Yields-mono, Yields-ok, Yields-guard,
  Yields-ok_or, Yields-unwrap, Yields-eq-ok, missing_coinbase_witness, invalid_coinbase_witness,
  witness_root_mutated, invalid_witness_commitment,
}
use mathlib.Core.List.{reverse-append}
use bitlens_rs.Util.Merkle.{into_root}
use bitlens_rs.Util.Merkle.Reference.{IsHash, IsRoot}
use bitlens_rs.Util.Merkle.Refine.{into_root-IsRoot, IsRoot-unique}
use bitlens_rs.Packets.Buffer.{Bytes, empty_hash, get_range, get_range-append}
use bitlens_rs.Packets.Tx.{Tx, TxOut, concat}
use bitlens_rs.Packets.Block.{
  Block, witness_tree, commitment_prefix, has_commitment, verify_output, verify_outputs,
  verify_witness_commitment,
}
use bitlens_rs.Packets.Block.Accepted.{append_hashes-concat}

-- The output's script carries a commitment: the prefix, 32 bytes, and anything behind them.
pub record Commits (txout : TxOut) : Type 0 where
  pub hash : Bytes
  pub more : Bytes
  pub width : length hash ≡ 32
  pub form : txout.script ≡ commitment_prefix ++ (hash ++ more)

module _ (sha256 : Bytes → Bytes) where
  -- The coinbase transaction's witness has one component, of 32 bytes, which with the Merkle root of
  -- the witness hashes, the coinbase transaction's as zeros, hashes to the commitment.
  pub record Holds (coinbase : Tx) (txs : List Tx) (commitment : Bytes) : Type 0 where
    pub reserve : Bytes
    pub witnesses : List Bytes
    pub root : Bytes
    pub width : length reserve ≡ 32
    pub form : coinbase.witness_data ≡ some ((1 ∷ 32 ∷ reserve) ∷ witnesses)
    pub is_root : IsRoot sha256 (empty_hash ∷ map (λ tx. tx.witness_hash) txs) root false
    pub hashes : commitment ≡ sha256 (sha256 (root ++ reserve))

commits_lem : (txout : TxOut) → Commits txout → has_commitment txout ≡ true
unfolding has_commitment
commits_lem txout h =
    let long = length-append h.hash h.more in
    let wide = h.width in
    let size : 38 ≤ length (commitment_prefix ++ (h.hash ++ h.more)) = omega arith in
    rw (h.form, le→leb 38 _ size) refl

has_commitment_lem : (txout : TxOut) → has_commitment txout ≡ true → Commits txout
unfolding has_commitment
has_commitment_lem txout e =
    let s = txout.script in
    let long : leb 38 (length s) ≡ true = ground arith in
    let prefix : bytes_eq (take 6 s) commitment_prefix ≡ true = ground arith in
    let wide = leb→le 38 (length s) long in
    record {
      hash = take 32 (drop 6 s);
      more = drop 32 (drop 6 s);
      width = length-take 32 (drop 6 s) (omega (arith, length-drop 6 s));
      form =
          sym (take-append-drop 6 s)
          ∙ rw (bytes_eq→eq (take 6 s) commitment_prefix prefix, take-append-drop 32 (drop 6 s))
              refl;
    }

unmutated : (mutated : Bool) → not mutated ≡ true → mutated ≡ false
unmutated true e = cc
unmutated false e = refl

all_of_take : (xs : Bytes) (n : ℕ) → length xs ≡ n → take n xs ≡ xs
all_of_take xs n e =
    subst (λ k. take k xs ≡ xs) e (rw (append-nil xs) at (take-length-append xs []))

first_lem :
    (witnesses : List Bytes) {witness : Bytes}
    → get_elem? witnesses 0 ≡ some witness
    → witnesses ≡ witness ∷ drop 1 witnesses
first_lem [] e = cc
first_lem (w ∷ ws) e = cc

shape_lem :
    (witness : Bytes)
    → (length witness == 34 && bytes_eq (take 2 witness) (1 ∷ 32 ∷ [])) ≡ true
    → (witness ≡ 1 ∷ 32 ∷ take 32 (drop 2 witness)) × (length (take 32 (drop 2 witness)) ≡ 32)
shape_lem witness e =
    let size : (length witness == 34) ≡ true = ground arith in
    let front : bytes_eq (take 2 witness) (1 ∷ 32 ∷ []) ≡ true = ground arith in
    let wide = (==_iff (length witness) 34).0 size in
    let short : length (drop 2 witness) ≡ 32 = omega (arith, length-drop 2 witness) in
    let whole = all_of_take (drop 2 witness) 32 short in
    (
      sym (take-append-drop 2 witness)
          ∙ rw (bytes_eq→eq (take 2 witness) (1 ∷ 32 ∷ []) front, whole) refl,
      ap length whole ∙ short,
    )

module _ (sha256 : Bytes → Bytes) (digest : (block : Bytes) → IsHash (sha256 block)) (coinbase : Tx)
    (txs : List Tx) (wide : All IsHash (map (λ tx. tx.witness_hash) txs)) where
  witness_tree_lem :
      witness_tree (coinbase ∷ txs) ≡ concat (empty_hash ∷ map (λ tx. tx.witness_hash) txs)
  unfolding witness_tree concat
  witness_tree_lem = append_hashes-concat (λ tx. tx.witness_hash) txs empty_hash

  abbrev Root : Bytes × Bool → Type 0
  Root (root, mutated) = IsRoot sha256 (empty_hash ∷ map (λ tx. tx.witness_hash) txs) root mutated

  tree-Root : Yields Root (into_root sha256 (witness_tree (coinbase ∷ txs)))
  tree-Root =
      let (root, mutation, is_root, e) =
        into_root-IsRoot sha256 digest (empty_hash ∷ map (λ tx. tx.witness_hash) txs) (omega arith)
          (refl, wide) in
      rw (witness_tree_lem, e) (Yields-ok Root (root, mutation) is_root)

  verify_output-Holds :
      (txout : TxOut) (h : Commits txout)
      → Yields
          (λ _. Holds sha256 coinbase txs h.hash)
          (verify_output sha256 (coinbase ∷ txs) coinbase txout)
  unfolding verify_output
  verify_output-Holds txout h =
      Yields->>= Goal (ok_or coinbase.witness_data missing_coinbase_witness) _
        (λ witnesses. coinbase.witness_data ≡ some witnesses)
        (Yields-ok_or coinbase.witness_data missing_coinbase_witness)
        λ witnesses present.
          Yields->>= Goal (unwrap (get_elem? witnesses 0)) _ (λ w. get_elem? witnesses 0 ≡ some w)
            (Yields-unwrap (get_elem? witnesses 0))
            λ witness first.
              let shape = length witness == 34 && bytes_eq (take 2 witness) (1 ∷ 32 ∷ []) in
              Yields->>= Goal (guard shape invalid_coinbase_witness) _ (λ _. shape ≡ true)
                (Yields-guard shape invalid_coinbase_witness)
                λ _ shaped.
                  Yields->>= Goal (unwrap (get_range txout.script 6 38)) _
                    (λ c. get_range txout.script 6 38 ≡ some c)
                    (Yields-unwrap (get_range txout.script 6 38))
                    λ commitment read.
                      Yields->>= Goal (into_root sha256 (witness_tree (coinbase ∷ txs))) _ Root
                        tree-Root
                        λ (root, mutated) is_root.
                          Yields->>= Goal (guard (not mutated) witness_root_mutated) _
                            (λ _. not mutated ≡ true)
                            (Yields-guard (not mutated) witness_root_mutated)
                            λ _ intact.
                              let reserve = take 32 (drop 2 witness) in
                              let equal = bytes_eq commitment (sha256 (sha256 (root ++ reserve))) in
                              Yields-mono (λ _. equal ≡ true) Goal
                                (guard equal invalid_witness_commitment)
                                (Yields-guard equal invalid_witness_commitment)
                                λ _ e.
                                  let read' : get_range txout.script 6 38 ≡ some h.hash =
                                    rw h.form (
                                      get_range-append commitment_prefix h.hash h.more 6 38 refl
                                        (omega (arith, h.width))) in
                                  let here : h.hash ≡ commitment = cc in
                                  let (form, width) = shape_lem witness shaped in
                                  record {
                                    reserve = reserve;
                                    witnesses = drop 1 witnesses;
                                    root = root;
                                    width = width;
                                    form =
                                        present
                                        ∙ ap some (
                                            first_lem witnesses first
                                            ∙ ap (λ w. w ∷ drop 1 witnesses) form);
                                    is_root =
                                        subst (λ m. Root (root, m)) (unmutated mutated intact)
                                          is_root;
                                    hashes = here ∙ bytes_eq→eq commitment _ e;
                                  }
    where
      Goal : Unit {0} → Type 0
      Goal _ = Holds sha256 coinbase txs h.hash

  Holds-verify_output :
      (txout : TxOut) (h : Commits txout)
      → Holds sha256 coinbase txs h.hash
      → verify_output sha256 (coinbase ∷ txs) coinbase txout ≡ ok tt
  unfolding verify_output
  Holds-verify_output txout h holds =
      let (root, mutation, is_root, e) =
        into_root-IsRoot sha256 digest (empty_hash ∷ map (λ tx. tx.witness_hash) txs) (omega arith)
          (refl, wide) in
      let (same, clean) = IsRoot-unique sha256 digest is_root holds.is_root in
      let computed : into_root sha256 (witness_tree (coinbase ∷ txs)) ≡ ok (root, mutation) =
        rw witness_tree_lem e in
      let size : (length (1 ∷ 32 ∷ holds.reserve) == 34) ≡ true = rw holds.width refl in
      let whole : take 32 holds.reserve ≡ holds.reserve =
        all_of_take holds.reserve 32 holds.width in
      rw
        (
          computed,
          holds.form,
          size,
          h.form,
          get_range-append commitment_prefix h.hash h.more 6 38 refl (omega (arith, h.width)),
          clean,
          same,
          whole,
          holds.hashes,
          bytes_eq_refl (sha256 (sha256 (holds.root ++ holds.reserve))),
        )
        refl

  verify_outputs_lem :
      (skipped more : List TxOut) (txout : TxOut)
      → All (λ o. ¬ Commits o) skipped
      → Commits txout
      → verify_outputs sha256 (coinbase ∷ txs) coinbase (skipped ++ (txout ∷ more))
        ≡ verify_output sha256 (coinbase ∷ txs) coinbase txout
  unfolding verify_outputs
  verify_outputs_lem [] more txout none_commits h = rw (commits_lem txout h) refl
  verify_outputs_lem (o ∷ skipped) more txout (differs, none_commits) h =
      let not_here : has_commitment o ≡ false = elim (Bool-cases (has_commitment o)) [
        | inl yes_here ↦ absurd (differs (has_commitment_lem o yes_here))
        | inr e ↦ e
      ] in
      rw not_here (verify_outputs_lem skipped more txout none_commits h)

  -- In a block with a coinbase transaction, an output of which carries a commitment and no later one
  -- does, the commitment is accepted exactly if it holds for that output: the witness of the coinbase
  -- transaction is one component of 32 bytes, the witness hashes, with zeros for the coinbase
  -- transaction's, have a Merkle root, no level of it with equal neighbours, and both together hash
  -- to the 32 bytes of the commitment. The witness hashes of the other transactions and digests have
  -- 32 bytes.
  pub verify_witness_commitment_iff :
      (block : Block) (earlier later : List TxOut) (txout : TxOut)
      → block.txs ≡ coinbase ∷ txs
      → coinbase.txouts ≡ earlier ++ (txout ∷ later)
      → All (λ o. ¬ Commits o) later
      → (h : Commits txout)
      → (verify_witness_commitment sha256 block ≡ ok tt) ↔ Holds sha256 coinbase txs h.hash
  unfolding verify_witness_commitment
  verify_witness_commitment_iff block earlier later txout is_block is_txouts none_later h =
      let turned : reverse coinbase.txouts ≡ reverse later ++ (txout ∷ reverse earlier) =
        ap reverse is_txouts
        ∙ reverse-append earlier (txout ∷ later)
        ∙ ap (λ t. t ++ reverse earlier) (reverse-append (txout ∷ []) later)
        ∙ append_assoc (reverse later) (txout ∷ []) (reverse earlier) in
      let same =
        verify_outputs_lem (reverse later) (reverse earlier) txout
          (All-reverse (λ o. ¬ Commits o) later none_later) h in
      rw (is_block, turned, same)
        (
          λ e.
              Yields-eq-ok (λ _. Holds sha256 coinbase txs h.hash)
                (verify_output sha256 (coinbase ∷ txs) coinbase txout) (verify_output-Holds txout h)
                e,
          Holds-verify_output txout h,
        )
