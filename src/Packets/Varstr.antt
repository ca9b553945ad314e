-- ===== src/Packets/Varstr.antt =====
-- src/packets/varstr.rs: byte strings behind their length, arrays of them left in serialized form, and
-- the iterator over such an array.
pub mod RoundTrip
use bitlens_rs.Prelude.{
  ℕ, zero, suc, ◌+◌, ◌-◌, Option, none, some, [], ◌∷◌, ◌++◌, ◌==◌, if◌then◌else◌, length, Result,
  ok, err, panic, stuck, not_enough_bytes, ok_or, unwrap, guard, ◌>>=◌, ◌>>◌, leb, add_usize,
}
use bitlens_rs.Packets.Buffer.{Bytes, get_range, get_from, with_offset}
use bitlens_rs.Packets.Varint.{length_varint, serialize_varint, deserialize_varint}

unfoldable pub length_varstr : Bytes → ℕ
length_varstr v = length_varint (length v) + length v

unfoldable pub serialize_varstr : Bytes → Bytes × ℕ
serialize_varstr v =
    ((serialize_varint (length v)).0 ++ v, (serialize_varint (length v)).1 + length v)

-- The sum of the length and the offset wraps, and the slice `buffer[offset..end]` is taken with a panic.
unfoldable pub deserialize_varstr : Bytes → Result (Bytes × ℕ)
deserialize_varstr buffer = do
  (len, offset) ← deserialize_varint buffer
  guard (leb (add_usize len offset) (length buffer)) not_enough_bytes
  v ← unwrap (get_range buffer offset (add_usize offset len))
  ok (v, add_usize offset len)

-- The loop of the two functions below: `n` strings are skipped.
unfoldable pub skip_varstrs : ℕ → Bytes → ℕ → Result ℕ
skip_varstrs zero buffer offset = ok offset
skip_varstrs (suc n) buffer offset = do
  rest ← with_offset buffer offset
  (varstr_length, consumed) ← deserialize_varint rest
  skip_varstrs n buffer (add_usize (add_usize offset consumed) varstr_length)

unfoldable pub deserialize_array_of_varstr_as_varstr : Bytes → Result (Bytes × ℕ)
deserialize_array_of_varstr_as_varstr buffer = do
  (remaining_varstrs, start) ← deserialize_varint buffer
  offset ← skip_varstrs remaining_varstrs buffer start
  r ← ok_or (get_range buffer 0 offset) not_enough_bytes
  ok (r, offset)

pub record VarStrIter : Type 0 where
  pub offset : ℕ
  pub buffer : Bytes
  pub remaining : ℕ

unfoldable pub deserialize_array_of_varsrs_iter : Bytes → Result VarStrIter
deserialize_array_of_varsrs_iter buffer = do
  (count, consumed) ← deserialize_varint buffer
  ok (record { offset = consumed; buffer = buffer; remaining = count })

-- The item that `deserialize_varstr` found, if it found one: an error ends the iteration.
abbrev item_of : VarStrIter → Result (Bytes × ℕ) → Result (Option (Bytes × VarStrIter))
item_of it (ok (result, consumed)) = ok (
    some
      (result, record it { offset = add_usize it.offset consumed; remaining = it.remaining - 1 }))
item_of it (err e) = ok none
item_of it panic = panic
item_of it stuck = stuck

unfoldable pub next : VarStrIter → Result (Option (Bytes × VarStrIter))
next it = if it.remaining == 0 then ok none else elim (get_from it.buffer it.offset) [
  | none ↦ ok none
  | some v ↦ item_of it (deserialize_varstr v)
]
