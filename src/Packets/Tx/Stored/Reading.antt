-- ===== src/Packets/Tx/Stored/Reading.antt =====
-- The readers of owned values read what the readers of borrowed values do.
use bitlens_rs.Prelude.{
  ℕ, ◌+◌, ◌*◌, ◌^◌, ◌<◌, ◌≡◌, refl, sym, ◌∙◌, List, [], ◌∷◌, ◌++◌, append_assoc, arith, lt→ltb,
  length, length-append, All, ok, >>=-eq-ok, add_usize,
}
use bitlens_rs.Util.Arena.{Arena}
use bitlens_rs.Packets.Buffer.{
  Bytes, IsSlice, get_hash, get_u32_le, with_offset, with_offset-append,
}
use bitlens_rs.Packets.Varint.{length_varint, serialize_varint}
use bitlens_rs.Packets.Varint.RoundTrip.{
  deserialize_varint-serialize_varint, length-serialize_varint,
}
use bitlens_rs.Packets.Varstr.{deserialize_varstr}
use bitlens_rs.Packets.Array.{
  Owned, with_capacity, deserialize_items_owned, deserialize_array_owned, serialize_items,
  serialize_array,
}
use bitlens_rs.Packets.Tx.{TxIn, deserialize_txin, deserialize_txin_owned, serialize_txin}
use bitlens_rs.Packets.Tx.Fields.{IsTxIn, txin-Reads}

-- The owned reader takes back what the writer wrote, whatever follows it.
abbrev pub ReadsOwned {ℓ} : {T : Type ℓ} → Owned T → (T → Bytes) → T → Type ℓ
ReadsOwned item write x =
    (rest : Bytes) → IsSlice (write x ++ rest) → item (write x ++ rest) ≡ ok (x, length (write x))

deserialize_txin_owned_lem :
    (arena arena' : Arena) (buffer : Bytes) (txin : TxIn) (n : ℕ)
    → deserialize_txin arena buffer ≡ ok (txin, n, arena')
    → deserialize_txin_owned buffer ≡ ok (txin, n)
unfolding deserialize_txin deserialize_txin_owned
deserialize_txin_owned_lem arena arena' buffer txin n r =
    let (hash, e₁, r₁) = >>=-eq-ok (get_hash buffer 0) _ r in
    let (index, e₂, r₂) = >>=-eq-ok (get_u32_le buffer 32) _ r₁ in
    let (rest, e₃, r₃) = >>=-eq-ok (with_offset buffer 36) _ r₂ in
    let ((script, offset), e₄, r₄) = >>=-eq-ok (deserialize_varstr rest) _ r₃ in
    let (sequence, e₅, r₅) = >>=-eq-ok (get_u32_le buffer (add_usize offset 36)) _ r₄ in
    rw (e₁, e₂, e₃, e₄, e₅) (ground arith)

pub txin-ReadsOwned :
    (txin : TxIn) → IsTxIn txin → ReadsOwned deserialize_txin_owned serialize_txin txin
txin-ReadsOwned txin h rest fits =
    let arena : Arena = record { address = 0; consumed = 0; capacity = 0 } in
    deserialize_txin_owned_lem arena arena (serialize_txin txin ++ rest) txin
      (length (serialize_txin txin)) (txin-Reads txin h arena arena rest fits refl)

module _ {ℓ} {T : Type ℓ} (item : Owned T) (write : T → Bytes) where
  items_owned_lem :
      (xs : List T) (pre rest : Bytes) (offset : ℕ)
      → All (ReadsOwned item write) xs
      → offset ≡ length pre
      → IsSlice (pre ++ (serialize_items write xs ++ rest))
      → deserialize_items_owned item (length xs) (pre ++ (serialize_items write xs ++ rest)) offset
        ≡ ok (xs, offset + length (serialize_items write xs))
  unfolding deserialize_items_owned serialize_items
  items_owned_lem [] pre rest offset h at fits = ground arith
  items_owned_lem (x ∷ xs) pre rest offset (hx, hxs) at fits =
      let tail : Bytes = serialize_items write xs ++ rest in
      let regroup : (write x ++ serialize_items write xs) ++ rest ≡ write x ++ tail =
        append_assoc (write x) (serialize_items write xs) rest in
      let sizes = length-append pre (write x ++ tail) in
      let sizes' = length-append (write x) tail in
      let fits' : length (pre ++ (write x ++ tail)) < 2 ^ 63 = rw regroup at fits in
      let end : add_usize offset (length (write x)) ≡ offset + length (write x) = omega arith in
      let ih =
        items_owned_lem xs (pre ++ write x) rest (offset + length (write x)) hxs
          (omega (arith, length-append pre (write x)))
          (rw (append_assoc pre (write x) tail) fits') in
      rw
        (
          regroup,
          with_offset-append pre (write x ++ tail) offset at,
          hx tail (omega arith),
          end,
          ← append_assoc pre (write x) tail,
          ih,
        )
        (rw (length-append (write x) (serialize_items write xs)) (ground arith))

  pub deserialize_array_owned-serialize_array :
      (size : ℕ) (xs : List T) (rest : Bytes)
      → length xs < 2 ^ 64
      → size * length xs < 2 ^ 63
      → All (ReadsOwned item write) xs
      → IsSlice (serialize_array write xs ++ rest)
      → deserialize_array_owned size item (serialize_array write xs ++ rest)
        ≡ ok (xs, length (serialize_array write xs))
  unfolding deserialize_array_owned serialize_array with_capacity
  deserialize_array_owned-serialize_array size xs rest count room h fits =
      let n = length xs in
      let head = (serialize_varint n).0 in
      let body = serialize_items write xs in
      let wide = length-serialize_varint n in
      let fits' : length (head ++ (body ++ rest)) < 2 ^ 63 =
        rw (append_assoc head body rest) at fits in
      rw
        (
          append_assoc head body rest,
          deserialize_varint-serialize_varint n (body ++ rest) count,
          lt→ltb (size * n) (2 ^ 63) room,
        )
        (items_owned_lem xs head rest (length_varint n) h (sym wide) fits'
          ∙ rw (length-append head body, wide))
