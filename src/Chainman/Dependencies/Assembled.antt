-- ===== src/Chainman/Dependencies/Assembled.antt =====
-- Each input gets the output that it spends, though some were fetched ahead.
use bitlens_rs.Prelude.{
  ℕ, ◌+◌, ◌≡◌, refl, subst, inl, inr, true, false, some, List, [], ◌∷◌, ◌++◌, append_assoc,
  append-nil, arith, bytes_eq, Bool-cases, Option-cases, get_elem?, length, length-append, All, ok,
}
use bitlens_rs.Packets.Buffer.{empty_hash}
use bitlens_rs.Packets.Tx.{TxIn, TxOut, Tx}
use bitlens_rs.Chainman.Dependencies.{
  TxOuts, is_fetched, missing_of_txins, missing_of_txs, fetch_dependency, fetch_all,
  fetch_missing_dependencies, assemble_txin, assemble_txins, assemble_txs,
}
use bitlens_rs.Chainman.Dependencies.Resolved.{
  spent_by_txin, spent_by_txins, spent_by_txs, Agree, fetch_all-cons, fetch_all-append,
}

get_elem?-at :
    (done : List TxOut) (t : TxOut) (post : List TxOut)
    → get_elem? (done ++ (t ∷ post)) (length done) ≡ some t
get_elem?-at [] t post = refl
get_elem?-at (x ∷ done) t post = get_elem?-at done t post

module _ (current previous stored later : TxOuts) where
  -- The current batch still says the same of what an input spends.
  abbrev pub Unchanged : TxIn → Type 0
  Unchanged txin = later txin.prevout_hash ≡ current txin.prevout_hash

  -- What an input that is not fetched gets.
  assemble_txin_lem :
      (txin : TxIn) (disk : List TxOut) (index : ℕ)
      → Unchanged txin
      → is_fetched current previous txin ≡ false
      → Agree
          (assemble_txin later previous disk txin index)
          (spent_by_txin current previous stored txin)
          index
  unfolding is_fetched assemble_txin spent_by_txin
  assemble_txin_lem txin disk index same not_fetched =
      elim (Bool-cases (bytes_eq txin.prevout_hash empty_hash)) [
        | inl empty ↦ inl ([], rw empty refl, rw empty refl)
        | inr spends ↦ elim (Option-cases (current txin.prevout_hash)) [
          | inr (txouts, c) ↦ elim (Option-cases (get_elem? txouts txin.prevout_index)) [
            | inl out ↦ inr (rw (spends, same, c, out) refl, rw (spends, c, out) refl)
            | inr (p, at) ↦ inl (p ∷ [], rw (spends, same, c, at) refl, rw (spends, c, at) refl)
          ]
          | inl c ↦ elim (Option-cases (previous txin.prevout_hash)) [
            | inr (txouts, b) ↦ elim (Option-cases (get_elem? txouts txin.prevout_index)) [
              | inl out ↦ inr (rw (spends, same, c, b, out) refl, rw (spends, c, b, out) refl)
              | inr (p, at) ↦
                  inl (p ∷ [], rw (spends, same, c, b, at) refl, rw (spends, c, b, at) refl)
            ]
            | inl b ↦ let f = rw (spends, c, b) at not_fetched in cc
          ]
        ]
      ]

  -- What an input that is fetched gets.
  assemble_txin-fetched :
      (txin : TxIn) (done post : List TxOut) (t : TxOut)
      → Unchanged txin
      → is_fetched current previous txin ≡ true
      → fetch_dependency stored txin ≡ some t
      → (assemble_txin later previous (done ++ (t ∷ post)) txin (length done)
          ≡ ok (t ∷ [], length done + 1))
        × (spent_by_txin current previous stored txin ≡ some (t ∷ []))
  unfolding is_fetched assemble_txin spent_by_txin fetch_dependency
  assemble_txin-fetched txin done post t same fetched found =
      elim (Bool-cases (bytes_eq txin.prevout_hash empty_hash)) [
        | inl empty ↦ let f = rw empty at fetched in cc
        | inr spends ↦ elim (Option-cases (current txin.prevout_hash)) [
          | inr (txouts, c) ↦ let f = rw (spends, c) at fetched in cc
          | inl c ↦ elim (Option-cases (previous txin.prevout_hash)) [
            | inr (txouts, b) ↦ let f = rw (spends, c, b) at fetched in cc
            | inl b ↦ (
              rw (spends, same, c, b, get_elem?-at done t post) refl,
              rw (spends, c, b, found) refl,
            )
          ]
        ]
      ]

  -- One input, and then the inputs after it.
  txins-Agree :
      (txin : TxIn) (txins : List TxIn) (disk : List TxOut) (index next end : ℕ)
      → Agree
          (assemble_txin later previous disk txin index)
          (spent_by_txin current previous stored txin)
          next
      → Agree
          (assemble_txins later previous disk txins next)
          (spent_by_txins current previous stored txins)
          end
      → Agree
          (assemble_txins later previous disk (txin ∷ txins) index)
          (spent_by_txins current previous stored (txin ∷ txins))
          end
  unfolding assemble_txins spent_by_txins
  txins-Agree txin txins disk index next end (inr (r, f)) rest = inr (rw r refl, rw f refl)
  txins-Agree txin txins disk index next end (inl (x, r, f)) (inl (xs, rs, fs)) =
      inl (x ++ xs, rw (r, rs) refl, rw (f, fs) refl)
  txins-Agree txin txins disk index next end (inl (x, r, f)) (inr (rs, fs)) =
      inr (rw (r, rs) refl, rw (f, fs) refl)

  -- A fetched input, and what the inputs after it get.
  fetched_lem :
      (txin : TxIn) (txins : List TxIn) (done post : List TxOut) (t : TxOut) (ts : List TxOut)
      → Unchanged txin
      → is_fetched current previous txin ≡ true
      → fetch_dependency stored txin ≡ some t
      → Agree
          (assemble_txins later previous
            ((done ++ (t ∷ [])) ++ (ts ++ post))
            txins
            (length (done ++ (t ∷ []))))
          (spent_by_txins current previous stored txins)
          (length (done ++ (t ∷ [])) + length ts)
      → Agree
          (assemble_txins later previous (done ++ ((t ∷ ts) ++ post)) (txin ∷ txins) (length done))
          (spent_by_txins current previous stored (txin ∷ txins))
          (length done + length (t ∷ ts))
  fetched_lem txin txins done post t ts same fetched found rest =
      let wide : length (done ++ (t ∷ [])) ≡ length done + 1 =
        omega (arith, length-append done (t ∷ [])) in
      let (run, spent) = assemble_txin-fetched txin done (ts ++ post) t same fetched found in
      let rest' = rw (append_assoc done (t ∷ []) (ts ++ post), wide) at rest in
      let end : length done + 1 + length ts ≡ length done + length (t ∷ ts) = omega arith in
      txins-Agree txin txins (done ++ (t ∷ (ts ++ post))) (length done) (length done + 1)
        (length done + length (t ∷ ts)) (inl (t ∷ [], run, spent))
        (subst
          (λ n.
            Agree
              (assemble_txins later previous (done ++ (t ∷ (ts ++ post))) txins (length done + 1))
              (spent_by_txins current previous stored txins) n)
          end rest')

  assemble_txins_lem :
      (txins : List TxIn) (done a post : List TxOut)
      → All Unchanged txins
      → fetch_all stored (missing_of_txins current previous txins) ≡ some a
      → Agree
          (assemble_txins later previous (done ++ (a ++ post)) txins (length done))
          (spent_by_txins current previous stored txins)
          (length done + length a)
  unfolding missing_of_txins
  assemble_txins_lem [] done a post same e =
      unfold fetch_all assemble_txins spent_by_txins in
      let none_fetched : [] ≡ a = cc in
      let end : length done ≡ length done + length a = rw (← none_fetched) (omega arith) in
      inl ([], rw (← end) refl, refl)
  assemble_txins_lem (txin ∷ txins) done a post (same, sames) e =
      elim (Bool-cases (is_fetched current previous txin)) [
        | inr skipped ↦
            txins-Agree txin txins (done ++ (a ++ post)) (length done) (length done)
              (length done + length a)
              (assemble_txin_lem txin (done ++ (a ++ post)) (length done) same skipped)
              (assemble_txins_lem txins done a post sames (rw skipped at e))
        | inl fetched ↦
            let (t, ts, found, rest, is) =
              fetch_all-cons stored txin (missing_of_txins current previous txins) a
                (rw fetched at e) in
            rw is (
              fetched_lem txin txins done post t ts same fetched found
                (assemble_txins_lem txins (done ++ (t ∷ [])) ts post sames rest))
      ]

  txs-Agree :
      (tx : Tx) (txs : List Tx) (disk : List TxOut) (index next end : ℕ)
      → Agree
          (assemble_txins later previous disk tx.txins index)
          (spent_by_txins current previous stored tx.txins)
          next
      → Agree
          (assemble_txs later previous disk txs next)
          (spent_by_txs current previous stored txs)
          end
      → Agree
          (assemble_txs later previous disk (tx ∷ txs) index)
          (spent_by_txs current previous stored (tx ∷ txs))
          end
  unfolding assemble_txs spent_by_txs
  txs-Agree tx txs disk index next end (inr (r, f)) rest = inr (rw r refl, rw f refl)
  txs-Agree tx txs disk index next end (inl (x, r, f)) (inl (xs, rs, fs)) =
      inl (x ∷ xs, rw (r, rs) refl, rw (f, fs) refl)
  txs-Agree tx txs disk index next end (inl (x, r, f)) (inr (rs, fs)) =
      inr (rw (r, rs) refl, rw (f, fs) refl)

  assemble_txs_lem :
      (txs : List Tx) (done a post : List TxOut)
      → All (λ tx. All Unchanged tx.txins) txs
      → fetch_all stored (missing_of_txs current previous txs) ≡ some a
      → Agree
          (assemble_txs later previous (done ++ (a ++ post)) txs (length done))
          (spent_by_txs current previous stored txs)
          (length done + length a)
  unfolding missing_of_txs
  assemble_txs_lem [] done a post same e =
      unfold fetch_all assemble_txs spent_by_txs in
      let none_fetched : [] ≡ a = cc in
      let end : length done ≡ length done + length a = rw (← none_fetched) (omega arith) in
      inl ([], rw (← end) refl, refl)
  assemble_txs_lem (tx ∷ txs) done a post (same, sames) e =
      let (b, c, eb, ec, is) =
        fetch_all-append stored (missing_of_txins current previous tx.txins)
          (missing_of_txs current previous txs) a e in
      let wide = length-append done b in
      let whole = length-append b c in
      let n : length (done ++ b) + length c ≡ length done + length (b ++ c) = omega arith in
      let first' = assemble_txins_lem tx.txins done b (c ++ post) same eb in
      let rest' = assemble_txs_lem txs (done ++ b) c post sames ec in
      let left' : done ++ (b ++ (c ++ post)) ≡ done ++ ((b ++ c) ++ post) = simp append_assoc in
      let right' : (done ++ b) ++ (c ++ post) ≡ done ++ ((b ++ c) ++ post) = simp append_assoc in
      let first'' = rw (left', ← wide) at first' in
      let rest'' = rw (right', n) at rest' in
      rw is (
        txs-Agree tx txs (done ++ ((b ++ c) ++ post)) (length done) (length (done ++ b))
          (length done + length (b ++ c)) first'' rest'')

  -- The outputs that a block's transactions spend, put together from the current batch, the one before
  -- and the outputs that were fetched for it, are for each input those of the transaction that it names
  -- (in the current batch, else in the one before, else in the database), in the order of the inputs,
  -- and all that was fetched is used up; where such a transaction has no output with that index, the
  -- code panics. The conditions: all fetches succeed, and the blocks that joined the current batch since
  -- then have no transaction that an input of this block names.
  pub assemble_txs-spent :
      (txs : List Tx) (deps_from_disk : List TxOut)
      → fetch_missing_dependencies stored current previous txs ≡ some deps_from_disk
      → All (λ tx. All Unchanged tx.txins) txs
      → Agree
          (assemble_txs later previous deps_from_disk txs 0)
          (spent_by_txs current previous stored txs)
          (length deps_from_disk)
  unfolding fetch_missing_dependencies
  assemble_txs-spent txs deps_from_disk e same =
      let all = assemble_txs_lem txs [] deps_from_disk [] same e in
      let all' = rw (append-nil deps_from_disk) at all in
      let end : 0 + length deps_from_disk ≡ length deps_from_disk = omega arith in
      subst
        (λ n.
          Agree (assemble_txs later previous deps_from_disk txs 0)
            (spent_by_txs current previous stored txs) n)
        end all'
