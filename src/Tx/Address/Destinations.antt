-- ===== src/Tx/Address/Destinations.antt =====
-- The script of a destination has the address of the destination.
use bitlens_rs.Prelude.{
  ℕ, zero, suc, ◌+◌, ◌-◌, ◌%◌, ◌^◌, ◌<◌, ◌≡◌, refl, sym, ◌⊎◌, inl, inr, true, false, none, some, [],
  ◌∷◌, ◌++◌, append_assoc, arith, lt→ltb, ◌==◌, length, length-append, take, take-length-append,
}
use Prim.{⊥}
use bitlens_rs.Util.Arena.{Arena}
use bitlens_rs.Packets.Buffer.{Bytes}
use bitlens_rs.Tx.Script.{byte_at}
use bitlens_rs.Tx.Building.{
  append_size, append_bytes, Destination, no_destination, witness_unknown, pub_key, pub_key_hash,
  script_hash, witness_v0_key_hash, witness_v0_script_hash, witness_v1_taproot,
  get_script_for_destination,
}
use bitlens_rs.Tx.Address.{
  get_p2pk_address, get_p2sh_address, get_p2pkh_address, get_bech32_address, script_has_address,
  address_key, get_address_from_script_copy_into_arena_with_txhash,
}

byte_at-append : (pre post : Bytes) (b i : ℕ) → i ≡ length pre → byte_at (pre ++ (b ∷ post)) i ≡ b
unfolding byte_at
byte_at-append [] post b i e = rw e refl
byte_at-append (x ∷ pre) post b zero e = absurd (omega arith)
byte_at-append (x ∷ pre) post b (suc i) e = byte_at-append pre post b i (omega arith)

append_bytes_short : (b : Bytes) → length b < 76 → append_bytes b ≡ length b ∷ b
unfolding append_bytes append_size
append_bytes_short b h =
    let e : length b % 2 ^ 32 ≡ length b = omega arith in
    let e' : length b % 2 ^ 8 ≡ length b = omega arith in rw (e, lt→ltb (length b) 76 h, e') refl

-- A front that is as long as the number of bytes taken.
take_front : (b post : Bytes) (n : ℕ) → n ≡ length b → take n (b ++ post) ≡ b
take_front b post n e = rw e (take-length-append b post)

-- The tests of a script's form look at its length first.
module _ (s : Bytes) where
  p2pk-none : (length s == 67) ≡ false → (length s == 35) ≡ false → get_p2pk_address s ≡ none
  unfolding get_p2pk_address
  p2pk-none a b = rw (a, b) refl

  p2sh-none : (length s == 23) ≡ false → get_p2sh_address s ≡ none
  unfolding get_p2sh_address
  p2sh-none a = rw a refl

  p2pkh-none : (length s == 25) ≡ false → get_p2pkh_address s ≡ none
  unfolding get_p2pkh_address
  p2pkh-none a = rw a refl

p2pk_lem :
    (b : Bytes)
    → (length b ≡ 33) ⊎ (length b ≡ 65)
    → get_p2pk_address (append_bytes b ++ (0xac ∷ [])) ≡ some b
unfolding get_p2pk_address byte_at
p2pk_lem b (inl h) = rw (append_bytes_short b (omega arith)) (
    let n : length (b ++ (0xac ∷ [])) ≡ 34 = omega (arith, length-append b (0xac ∷ [])) in
    rw (n, h, byte_at-append b [] 0xac 33 (sym h), take_front b (0xac ∷ []) 33 (sym h)) refl)
p2pk_lem b (inr h) = rw (append_bytes_short b (omega arith)) (
    let n : length (b ++ (0xac ∷ [])) ≡ 66 = omega (arith, length-append b (0xac ∷ [])) in
    rw (n, h, byte_at-append b [] 0xac 65 (sym h), take_front b (0xac ∷ []) 65 (sym h)) refl)

p2sh_lem :
    (b : Bytes) → length b ≡ 20 → get_p2sh_address (0xa9 ∷ (append_bytes b ++ (0x87 ∷ []))) ≡ some b
unfolding get_p2sh_address byte_at
p2sh_lem b h = rw (append_bytes_short b (omega arith)) (
    let n : length (b ++ (0x87 ∷ [])) ≡ 21 = omega (arith, length-append b (0x87 ∷ [])) in
    rw (n, h, byte_at-append b [] 0x87 20 (sym h), take_front b (0x87 ∷ []) 20 (sym h)) refl)

p2pkh_lem :
    (b : Bytes)
    → length b ≡ 20
    → get_p2pkh_address (0x76 ∷ 0xa9 ∷ (append_bytes b ++ (0x88 ∷ 0xac ∷ []))) ≡ some b
unfolding get_p2pkh_address byte_at
p2pkh_lem b h = rw (append_bytes_short b (omega arith)) (
    let tail : Bytes = 0x88 ∷ 0xac ∷ [] in
    let n : length (b ++ tail) ≡ 22 = omega (arith, length-append b tail) in
    let last =
      byte_at-append (b ++ (0x88 ∷ [])) [] 0xac 21 (omega (arith, length-append b (0x88 ∷ []))) in
    let last' = rw (append_assoc b (0x88 ∷ []) (0xac ∷ [])) at last in
    rw (n, h, byte_at-append b (0xac ∷ []) 0x88 20 (sym h), last', take_front b tail 20 (sym h))
      refl)

v0_key_lem : (b : Bytes) → length b ≡ 20 → get_bech32_address (0 ∷ append_bytes b) ≡ some b
unfolding get_bech32_address byte_at
v0_key_lem b h = rw (append_bytes_short b (omega arith), h) refl

v0_script_lem : (b : Bytes) → length b ≡ 32 → get_bech32_address (0 ∷ append_bytes b) ≡ some b
unfolding get_bech32_address byte_at
v0_script_lem b h = rw (append_bytes_short b (omega arith), h) refl

v1_lem : (b : Bytes) → length b ≡ 32 → get_bech32_address (0x51 ∷ append_bytes b) ≡ some b
unfolding get_bech32_address byte_at
v1_lem b h = rw (append_bytes_short b (omega arith), h) refl

size_lem :
    (front b tail : Bytes)
    → length b < 76
    → length (front ++ (append_bytes b ++ tail)) ≡ length front + 1 + length b + length tail
size_lem front b tail h =
    rw (append_bytes_short b h) (
      omega
        (arith, length-append front ((length b ∷ b) ++ tail), length-append (length b ∷ b) tail))

-- The script has an address, and its key in the index is that of `a`.
abbrev pub PaysTo : Bytes → Bytes → Type 0
PaysTo s a =
    (script_has_address s ≡ true)
    × ((txhash : Bytes) (timestamp : ℕ) (arena : Arena)
        → get_address_from_script_copy_into_arena_with_txhash s txhash timestamp arena
          ≡ address_key a txhash (2 ^ 64 - 1 - timestamp) arena)

module _ (s a : Bytes) where
  PaysTo-p2pk : get_p2pk_address s ≡ some a → PaysTo s a
  unfolding script_has_address get_address_from_script_copy_into_arena_with_txhash
  PaysTo-p2pk e = (
    rw e refl,
    λ txhash timestamp arena. rw (e, get_address_from_script_copy_into_arena_with_txhash) refl,
  )

  PaysTo-p2sh : get_p2pk_address s ≡ none → get_p2sh_address s ≡ some a → PaysTo s a
  unfolding script_has_address get_address_from_script_copy_into_arena_with_txhash
  PaysTo-p2sh n e = (
    rw (n, e) refl,
    λ txhash timestamp arena. rw (n, get_address_from_script_copy_into_arena_with_txhash, e) refl,
  )

  PaysTo-p2pkh :
      get_p2pk_address s ≡ none
      → get_p2sh_address s ≡ none
      → get_p2pkh_address s ≡ some a
      → PaysTo s a
  unfolding script_has_address get_address_from_script_copy_into_arena_with_txhash
  PaysTo-p2pkh n n' e = (
    rw (n, n', e) refl,
    λ txhash timestamp arena.
        rw (n, get_address_from_script_copy_into_arena_with_txhash, n', e) refl,
  )

  PaysTo-bech32 : (length s ≡ 22) ⊎ (length s ≡ 34) → get_bech32_address s ≡ some a → PaysTo s a
  unfolding script_has_address get_address_from_script_copy_into_arena_with_txhash
  PaysTo-bech32 size e =
      let n = p2pk-none s (ground arith) (ground arith) in
      let n' = p2sh-none s (ground arith) in
      let n'' = p2pkh-none s (ground arith) in
      (
        rw (n, n', n'', e) refl,
        λ txhash timestamp arena.
            rw (n, get_address_from_script_copy_into_arena_with_txhash, n', n'', e) refl,
      )

module _ (sha256 hash160 : Bytes → Bytes) where
  -- The key, program or hash that a destination holds.
  unfoldable pub payload : Destination → Bytes
  payload (script_hash items) = hash160 items
  payload (witness_v0_key_hash items) = hash160 items
  payload (witness_v0_script_hash items) = sha256 items
  payload (pub_key items) = items
  payload (pub_key_hash items) = items
  payload (witness_v1_taproot items) = items
  payload (no_destination items) = items
  payload (witness_unknown version program) = program

  -- The destinations that have an address, with a payload of the right size.
  unfoldable pub HasAddress : Destination → Type 0
  HasAddress (pub_key items) = (length items ≡ 33) ⊎ (length items ≡ 65)
  HasAddress (pub_key_hash items) = length items ≡ 20
  HasAddress (script_hash items) = length (hash160 items) ≡ 20
  HasAddress (witness_v0_key_hash items) = length (hash160 items) ≡ 20
  HasAddress (witness_v0_script_hash items) = length (sha256 items) ≡ 32
  HasAddress (witness_v1_taproot items) = length items ≡ 32
  HasAddress (no_destination items) = ⊥
  HasAddress (witness_unknown version program) = ⊥

  -- The script that is built for a destination with an address is found to have one, and its key in the
  -- index of addresses is made of the destination's key, program or hash. The destinations are public
  -- keys of 33 or 65 bytes, hashes of 20 bytes, and witness programs of 20 or 32 bytes.
  pub PaysTo-get_script_for_destination :
      (d : Destination)
      → HasAddress d
      → PaysTo (get_script_for_destination sha256 hash160 d) (payload d)
  unfolding payload HasAddress get_script_for_destination
  PaysTo-get_script_for_destination (no_destination items) h = absurd h
  PaysTo-get_script_for_destination (pub_key items) h = PaysTo-p2pk _ items (p2pk_lem items h)
  PaysTo-get_script_for_destination (pub_key_hash items) h =
      let tail : Bytes = 0x88 ∷ 0xac ∷ [] in
      let size = size_lem (0x76 ∷ 0xa9 ∷ []) items tail (omega arith) in
      PaysTo-p2pkh _ items (p2pk-none _ (ground arith) (ground arith)) (p2sh-none _ (ground arith))
        (p2pkh_lem items h)
  PaysTo-get_script_for_destination (script_hash items) h =
      let size = size_lem (0xa9 ∷ []) (hash160 items) (0x87 ∷ []) (omega arith) in
      PaysTo-p2sh _ (hash160 items) (p2pk-none _ (ground arith) (ground arith))
        (p2sh_lem (hash160 items) h)
  PaysTo-get_script_for_destination (witness_v0_key_hash items) h =
      PaysTo-bech32 _ (hash160 items)
        (inl (rw (append_bytes_short (hash160 items) (omega arith)) (omega arith)))
        (v0_key_lem (hash160 items) h)
  PaysTo-get_script_for_destination (witness_v0_script_hash items) h =
      PaysTo-bech32 _ (sha256 items)
        (inr (rw (append_bytes_short (sha256 items) (omega arith)) (omega arith)))
        (v0_script_lem (sha256 items) h)
  PaysTo-get_script_for_destination (witness_v1_taproot items) h =
      PaysTo-bech32 _ items (inr (rw (append_bytes_short items (omega arith)) (omega arith)))
        (v1_lem items h)
  PaysTo-get_script_for_destination (witness_unknown version program) h = absurd h
