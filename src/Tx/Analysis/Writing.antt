-- ===== src/Tx/Analysis/Writing.antt =====
-- Writing one part after another into a record of zeros.
use bitlens_rs.Prelude.{
  ℕ, zero, suc, ◌+◌, ◌*◌, ◌≡◌, refl, ap, true, List, [], ◌∷◌, ◌++◌, append_assoc, append-nil, arith,
  leb, length, length-append, drop, take-length-append, drop-length-append, drop-append_add, ok,
  to_le_bytes, length-to_le_bytes,
}
use bitlens_rs.Packets.Buffer.{Bytes}
use bitlens_rs.Packets.Varint.{serialize_varint, length_varint}
use bitlens_rs.Packets.Varint.RoundTrip.{serialize_varint_into_slice_lem}
use bitlens_rs.Packets.Array.{serialize_items}
use bitlens_rs.Packets.Tx.{TxOut}
use bitlens_rs.Tx.Analysis.{zeros, write_at, write_count, write_values}

pub length-zeros : (n : ℕ) → length (zeros n) ≡ n
length-zeros zero = refl
length-zeros (suc n) = ap suc (length-zeros n)

pub drop-zeros : (n k : ℕ) → drop n (zeros (n + k)) ≡ zeros k
drop-zeros zero k = ap zeros (omega arith)
drop-zeros (suc n) k = let e : suc n + k ≡ suc (n + k) = omega arith in rw e (drop-zeros n k)

-- After what is written already, `new` takes the place of as many zeros.
pub write_at-zeros :
    (offset : ℕ) (done new : Bytes) (n k : ℕ)
    → offset ≡ length done
    → n ≡ length new + k
    → write_at offset new (done ++ zeros n) ≡ ok ((done ++ new) ++ zeros k)
unfolding write_at
write_at-zeros offset done new n k at wide =
    let fits : leb (offset + length new) (length (done ++ zeros n)) ≡ true =
      ground (arith, length-append done (zeros n), length-zeros n) in
    rw (
      fits,
      wide,
      at,
      take-length-append done (zeros (length new + k)),
      drop-append_add done (zeros (length new + k)) (length new),
      drop-zeros (length new) k,
      append_assoc done new (zeros k),
    )

pub write_count-zeros :
    (offset count : ℕ) (done : Bytes) (n k : ℕ)
    → offset ≡ length done
    → n ≡ length_varint count + k
    → write_count offset count (done ++ zeros n)
      ≡ ok ((done ++ (serialize_varint count).0) ++ zeros k, length_varint count)
unfolding write_count
write_count-zeros offset count done n k at wide =
    let fits : leb offset (length (done ++ zeros n)) ≡ true =
      ground (arith, length-append done (zeros n)) in
    let room : leb (length_varint count) (length (zeros (length_varint count + k))) ≡ true =
      ground (arith, length-zeros (length_varint count + k)) in
    rw (
      fits,
      wide,
      at,
      take-length-append done (zeros (length_varint count + k)),
      drop-length-append done (zeros (length_varint count + k)),
      serialize_varint_into_slice_lem count (zeros (length_varint count + k)),
      room,
      drop-zeros (length_varint count) k,
      append_assoc done (serialize_varint count).0 (zeros k),
    )

abbrev pub value_bytes : TxOut → Bytes
value_bytes txout = to_le_bytes 8 txout.value

pub write_values-zeros :
    (start index : ℕ) (deps : List TxOut) (done : Bytes) (n k : ℕ)
    → start + 8 * index ≡ length done
    → n ≡ 8 * length deps + k
    → write_values start index deps (done ++ zeros n)
      ≡ ok ((done ++ serialize_items value_bytes deps) ++ zeros k)
unfolding write_values serialize_items
write_values-zeros start index [] done n k at wide =
    let e : n ≡ k = omega arith in rw (e, append-nil done)
write_values-zeros start index (dep ∷ deps) done n k at wide =
    let w = length-to_le_bytes 8 dep.value in
    rw
      (
        write_at-zeros (start + 8 * index) done (value_bytes dep) n (8 * length deps + k) at
            (omega arith),
        ← append_assoc done (value_bytes dep) (serialize_items value_bytes deps),
      )
      (write_values-zeros start (index + 1) deps (done ++ value_bytes dep) (8 * length deps + k) k
        (omega (arith, length-append done (value_bytes dep))) refl)
