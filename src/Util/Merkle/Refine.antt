-- ===== src/Util/Merkle/Refine.antt =====
-- The vector of bytes implements the relation: each round of the loop is one level of the tree.
use bitlens_rs.Prelude.{
  ℕ, zero, suc, ◌+◌, ◌-◌, ◌*◌, ◌/◌, ◌%◌, ◌<◌, ◌≤◌, ◌≡◌, refl, sym, ap, arith, Bool, true, false,
  ◌||◌, List, [], ◌∷◌, ◌++◌, append_assoc, append-nil, length, length-append, drop, ltb, lt→ltb,
  leb, le→leb, ◌==◌, take-length-append, drop-append, drop-append_add, length-drop, All, bytes_eq,
  ok,
}
use bitlens_rs.Packets.Buffer.{Bytes, get_range_at}
use bitlens_rs.Packets.Tx.{concat}
use bitlens_rs.Util.Merkle.{
  len, get_hash_at, get_block, set_hash, find_equal, collapse_blocks, collapse, next_level, finish,
  levels, into_root,
}
use bitlens_rs.Util.Merkle.Concat.{length-concat, len-concat}
use bitlens_rs.Util.Merkle.Evened.{
  evened, evened-IsHash, pair_up-evened, length-evened, length-pair_up, repeat_last-concat,
}
use bitlens_rs.Util.Merkle.Reference.{
  IsHash, has_equal_neighbours, node, pair_up, IsRoot, single, level, pair_up-IsHash,
}

-- A hash is read where it stands.
get_hash_at_lem :
    (pre a post : Bytes) (index : ℕ)
    → length pre ≡ index * 32
    → IsHash a
    → get_hash_at (pre ++ (a ++ post)) index ≡ ok a
unfolding get_hash_at
get_hash_at_lem pre a post index at h =
    rw (get_range_at pre a post refl (index * 32) (index * 32 + 32) (sym at) (omega arith)) refl

find_equal_lem :
    (a : Bytes) (rest : List Bytes) (pre : Bytes) (index : ℕ) (mutation : Bool)
    → All IsHash (a ∷ rest)
    → length pre ≡ index * 32
    → find_equal (length rest) index (pre ++ concat (a ∷ rest)) mutation
      ≡ ok (mutation || has_equal_neighbours (a ∷ rest))
unfolding find_equal has_equal_neighbours concat
find_equal_lem a [] pre index mutation h at = ground arith
find_equal_lem a (b ∷ rest) pre index mutation (ha, (hb, h)) at =
    let regroup : pre ++ (a ++ (b ++ concat rest)) ≡ (pre ++ a) ++ (b ++ concat rest) =
      sym (append_assoc pre a (b ++ concat rest)) in
    let sizes = length-append pre a in
    rw
      (
        get_hash_at_lem pre a (b ++ concat rest) index at ha,
        regroup,
        get_hash_at_lem (pre ++ a) b (concat rest) (index + 1) (omega arith) hb,
        find_equal_lem b rest (pre ++ a) (index + 1) (mutation || bytes_eq a b) (hb, h)
            (omega arith),
      )
      (ground arith)

-- A block is read where it stands, and its hash is put behind the hashes of the blocks before it.
get_block_lem :
    (pre a b post : Bytes) (index : ℕ)
    → length pre ≡ index * 64
    → IsHash a
    → IsHash b
    → get_block (pre ++ (a ++ (b ++ post))) index ≡ ok (a ++ b)
unfolding get_block
get_block_lem pre a b post index at ha hb =
    let sizes = length-append a b in
    rw
      (get_range_at {buffer = pre ++ (a ++ (b ++ post))} pre (a ++ b) post (simp append_assoc)
        (index * 2 * 32) (index * 2 * 32 + 64) (omega arith) (omega arith))
      refl

set_hash_lem :
    (pre post hash : Bytes) (index : ℕ)
    → length pre ≡ index * 32
    → 32 ≤ length post
    → IsHash hash
    → set_hash (pre ++ post) index hash ≡ ok ((pre ++ hash) ++ drop 32 post)
unfolding set_hash
set_hash_lem pre post hash index at room h =
    let sizes = length-append pre post in
    let inside : leb ((index + 1) * 32) (length (pre ++ post)) ≡ true = le→leb _ _ (omega arith) in
    let next : (index + 1) * 32 ≡ length pre + 32 = omega arith in
    rw (inside, h, next, ← at, take-length-append pre post, drop-append_add pre post 32)
      (ap ok (sym (append_assoc pre hash (drop 32 post))))

finish_single :
    (a : Bytes) (mutation : Bool)
    → All IsHash (a ∷ [])
    → finish (concat (a ∷ [])) mutation ≡ ok (a, mutation || false)
unfolding finish concat
finish_single a mutation (ha, h) =
    let read : get_hash_at (a ++ []) 0 ≡ ok a = get_hash_at_lem [] a [] 0 refl ha in
    let plain : (mutation || false) ≡ mutation = ground arith in
    rw (plain, read, append-nil a, ha) refl

module _ (sha256 : Bytes → Bytes) (digest : (block : Bytes) → IsHash (sha256 block)) where
  -- The hashes so far, the bytes that are done with, and the blocks to come.
  collapse_blocks_lem :
      (n : ℕ) (todo : List Bytes) (done junk : Bytes) (index : ℕ)
      → length todo ≡ 2 * n
      → All IsHash todo
      → length done ≡ index * 32
      → length junk ≡ index * 32
      → (junk' : Bytes) × (length junk' ≡ (index + n) * 32)
        × (collapse_blocks sha256 n index (done ++ (junk ++ concat todo))
            ≡ ok (done ++ (concat (pair_up sha256 todo) ++ junk')))
  unfolding collapse_blocks pair_up concat
  collapse_blocks_lem zero [] done junk index n h at at' =
      (junk, omega arith, rw (append-nil junk) refl)
  collapse_blocks_lem zero (a ∷ rest) done junk index n h at at' = absurd (omega arith)
  collapse_blocks_lem (suc n) [] done junk index e h at at' = absurd (omega arith)
  collapse_blocks_lem (suc n) (a ∷ []) done junk index e h at at' = absurd (omega arith)
  collapse_blocks_lem (suc n) (a ∷ b ∷ rest) done junk index e (ha, (hb, h)) at at' =
      let hash = node sha256 a b in
      let post : Bytes = junk ++ (a ++ (b ++ concat rest)) in
      let junk' : Bytes = drop 32 (junk ++ (a ++ b)) in
      let regroup : post ≡ (junk ++ (a ++ b)) ++ concat rest = simp append_assoc in
      let sizes = length-append junk (a ++ b) in
      let sizes' = length-append a b in
      let moved : drop 32 post ≡ junk' ++ concat rest =
        rw regroup (drop-append 32 (junk ++ (a ++ b)) (concat rest) (omega arith)) in
      let wide : length junk' ≡ (index + 1) * 32 =
        omega (arith, length-drop 32 (junk ++ (a ++ b))) in
      let wide_hash = digest (sha256 (a ++ b)) in
      let (last, wide', ih) =
        collapse_blocks_lem n rest (done ++ hash) junk' (index + 1) (omega arith) h
          (omega (arith, length-append done hash)) wide in
      let block : get_block (done ++ post) index ≡ ok (a ++ b) =
        rw (sym (append_assoc done junk (a ++ (b ++ concat rest)))) (
          get_block_lem (done ++ junk) a b (concat rest) index
            (omega (arith, length-append done junk)) ha hb) in
      (
        last,
        omega arith,
        rw
            (
              block,
              set_hash_lem done post hash index at
                  (omega (arith, ap length regroup, length-append (junk ++ (a ++ b)) (concat rest)))
                  wide_hash,
              moved,
              ih,
            )
            (simp append_assoc),
      )

  -- One round of the loop computes the level above, and looks for equal neighbours.
  next_level_lem :
      (a b : Bytes) (rest : List Bytes) (mutation : Bool)
      → All IsHash (a ∷ b ∷ rest)
      → next_level sha256 (concat (a ∷ b ∷ rest)) mutation
        ≡ ok (
          concat (pair_up sha256 (a ∷ b ∷ rest)),
          mutation || has_equal_neighbours (a ∷ b ∷ rest),
        )
  unfolding next_level collapse
  next_level_lem a b rest mutation h =
      let hashes : List Bytes = a ∷ b ∷ rest in
      let even = evened-IsHash hashes h in
      let count = length-evened hashes in
      let n : ℕ = length (evened hashes) / 2 in
      let size : length (evened hashes) ≡ 2 * n = omega arith in
      let (junk, wide, e) = collapse_blocks_lem n (evened hashes) [] [] 0 size even refl refl in
      let above = pair_up sha256 (evened hashes) in
      let wide' : length (concat above) ≡ n * 32 = omega (
        arith,
        length-concat above (pair_up-IsHash sha256 digest (evened hashes)),
        length-pair_up sha256 (evened hashes),
      ) in
      let half : length (concat above ++ junk) / 2 ≡ length (concat above) =
        omega (arith, length-append (concat above) junk) in
      let count' : length hashes - 1 ≡ length (b ∷ rest) = omega arith in
      let parity : length (evened hashes) % 2 ≡ 0 = omega arith in
      let not_odd : (length (evened hashes) % 2 == 1) ≡ false = rw parity refl in
      rw
        (
          len-concat hashes h,
          count',
          find_equal_lem a (b ∷ rest) [] 0 mutation h refl,
          repeat_last-concat hashes h,
          len-concat (evened hashes) even,
          not_odd,
          e,
          half,
          take-length-append (concat above) junk,
          pair_up-evened sha256 hashes,
        )
        refl

  levels_lem :
      (fuel : ℕ) (hashes : List Bytes) (mutation : Bool)
      → 0 < length hashes
      → length hashes < fuel
      → All IsHash hashes
      → (root : Bytes) × (above : Bool) × IsRoot sha256 hashes root above
        × (levels sha256 fuel (concat hashes) mutation ≡ ok (root, mutation || above))
  unfolding levels
  levels_lem zero hashes mutation some enough h = absurd (omega arith)
  levels_lem (suc fuel) [] mutation some enough h = absurd (omega arith)
  levels_lem (suc fuel) (a ∷ []) mutation some enough h =
      (a, false, single, rw (levels, len-concat (a ∷ []) h) (finish_single a mutation h))
  levels_lem (suc fuel) (a ∷ b ∷ rest) mutation some enough h =
      let up = pair_up sha256 (a ∷ b ∷ rest) in
      let found = has_equal_neighbours (a ∷ b ∷ rest) in
      let many : ltb 1 (length (a ∷ b ∷ rest)) ≡ true = lt→ltb 1 _ (omega arith) in
      let (root, above, is_root, e) =
        levels_lem fuel up (mutation || found) (omega (arith, length-pair_up sha256 (a ∷ b ∷ rest)))
          (omega (arith, length-pair_up sha256 (a ∷ b ∷ rest)))
          (pair_up-IsHash sha256 digest (a ∷ b ∷ rest)) in
      (
        root,
        found || above,
        level is_root,
        rw (levels, len-concat (a ∷ b ∷ rest) h, many, next_level_lem a b rest mutation h, e)
            (ground arith),
      )

  -- On the concatenation of a list of 32-byte hashes that is not empty, the loop ends without a panic,
  -- and what it returns is the root of the list, and whether some level has equal neighbours; a
  -- digest has 32 bytes.
  pub into_root-IsRoot :
      (hashes : List Bytes)
      → 0 < length hashes
      → All IsHash hashes
      → (root : Bytes) × (mutation : Bool) × IsRoot sha256 hashes root mutation
        × (into_root sha256 (concat hashes) ≡ ok (root, mutation))
  unfolding into_root
  into_root-IsRoot hashes some h =
      levels_lem (len (concat hashes) + 1) hashes false some (omega (arith, len-concat hashes h)) h

  -- The relation has one root for each list.
  pub IsRoot-unique :
      {hashes : List Bytes} {root root' : Bytes} {mutation mutation' : Bool}
      → IsRoot sha256 hashes root mutation
      → IsRoot sha256 hashes root' mutation'
      → (root ≡ root') × (mutation ≡ mutation')
  IsRoot-unique single single = (refl, refl)
  IsRoot-unique (level r) (level r') = let (e, e') = IsRoot-unique r r' in (e, rw e' refl)
