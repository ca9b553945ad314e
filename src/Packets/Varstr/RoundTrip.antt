-- ===== src/Packets/Varstr/RoundTrip.antt =====
-- Byte strings and arrays of them are read back off the front of any input.
use bitlens_rs.Prelude.{
  ℕ, ◌+◌, ◌^◌, ◌<◌, ◌≡◌, refl, sym, ap, ◌∙◌, List, [], ◌∷◌, ◌++◌, append_assoc, arith, le→leb,
  length, length-append, ok, add_usize,
}
use bitlens_rs.Packets.Buffer.{Bytes, IsSlice, get_range-append, with_offset-append}
use bitlens_rs.Packets.Varint.{length_varint, serialize_varint, deserialize_varint}
use bitlens_rs.Packets.Varint.RoundTrip.{
  deserialize_varint-serialize_varint, length-serialize_varint, length_varint_bounds,
}
use bitlens_rs.Packets.Array.{serialize_items, serialize_array}
use bitlens_rs.Packets.Varstr.{
  length_varstr, serialize_varstr, deserialize_varstr, skip_varstrs,
  deserialize_array_of_varstr_as_varstr,
}

pub length-serialize_varstr : (v : Bytes) → length (serialize_varstr v).0 ≡ length_varstr v
unfolding serialize_varstr length_varstr
length-serialize_varstr v =
    length-append (serialize_varint (length v)).0 v
    ∙ omega (arith, length-serialize_varint (length v))

-- A byte string of fewer than 2^63 bytes is read back off the front of any input, and the reader
-- consumes its length and the length of its prefix.
pub deserialize_varstr-serialize_varstr :
    (v rest : Bytes)
    → length v < 2 ^ 63
    → deserialize_varstr ((serialize_varstr v).0 ++ rest) ≡ ok (v, length_varstr v)
unfolding deserialize_varstr serialize_varstr length_varstr
deserialize_varstr-serialize_varstr v rest h =
    let n = length v in
    let head = (serialize_varint n).0 in
    let wide : length head ≡ length_varint n = length-serialize_varint n in
    let total : add_usize n (length_varint n) ≡ length_varint n + n =
      omega (arith, length_varint_bounds n) in
    let total' : add_usize (length_varint n) n ≡ length_varint n + n =
      omega (arith, length_varint_bounds n) in
    rw (
      append_assoc head v rest,
      deserialize_varint-serialize_varint n (v ++ rest) (omega arith),
      total,
      total',
      le→leb (length_varint n + n) (length (head ++ (v ++ rest)))
          (omega (arith, length-append head (v ++ rest), length-append v rest)),
      get_range-append head v rest (length_varint n) (length_varint n + n) (omega arith)
          (omega arith),
    )

-- `impl Serializable for Vec<u8>`.
abbrev pub put_varstr : Bytes → Bytes
put_varstr v = (serialize_varstr v).0

skip_varstrs-serialize_items :
    (cs : List Bytes) (pre rest : Bytes) (offset : ℕ)
    → offset ≡ length pre
    → IsSlice (pre ++ (serialize_items put_varstr cs ++ rest))
    → skip_varstrs (length cs) (pre ++ (serialize_items put_varstr cs ++ rest)) offset
      ≡ ok (offset + length (serialize_items put_varstr cs))
unfolding skip_varstrs serialize_items
skip_varstrs-serialize_items [] pre rest offset at fits = ap ok (omega arith)
skip_varstrs-serialize_items (c ∷ cs) pre rest offset at fits =
    let n = length c in
    let head = (serialize_varint n).0 in
    let body = serialize_items put_varstr cs in
    let tail : Bytes = body ++ rest in
    let regroup : (put_varstr c ++ body) ++ rest ≡ put_varstr c ++ tail =
      append_assoc (put_varstr c) body rest in
    let inner : put_varstr c ++ tail ≡ head ++ (c ++ tail) =
      unfold serialize_varstr in append_assoc head c tail in
    let sizes = length-append pre (put_varstr c ++ tail) in
    let sizes' = length-append (put_varstr c) tail in
    let wide : length (put_varstr c) ≡ length_varint n + n =
      unfold length_varstr in length-serialize_varstr c in
    let fits' : length (pre ++ (put_varstr c ++ tail)) < 2 ^ 63 = rw regroup at fits in
    let bound = length_varint_bounds n in
    let end : add_usize (add_usize offset (length_varint n)) n ≡ offset + length (put_varstr c) =
      omega arith in
    let ih =
      skip_varstrs-serialize_items cs (pre ++ put_varstr c) rest (offset + length (put_varstr c))
        (omega (arith, length-append pre (put_varstr c)))
        (rw (append_assoc pre (put_varstr c) tail) fits') in
    let read : deserialize_varint (put_varstr c ++ tail) ≡ ok (n, length_varint n) =
      rw inner (deserialize_varint-serialize_varint n (c ++ tail) (omega arith)) in
    rw
      (
        regroup,
        with_offset-append pre (put_varstr c ++ tail) offset at,
        read,
        end,
        ← append_assoc pre (put_varstr c) tail,
        ih,
      )
      (ap ok (omega (arith, length-append (put_varstr c) body)))

-- An array of fewer than 2^64 byte strings is cut off the front of any slice, in its serialized form.
pub deserialize_array_of_varstr-serialize_array :
    (cs : List Bytes) (rest : Bytes)
    → length cs < 2 ^ 64
    → IsSlice (serialize_array put_varstr cs ++ rest)
    → deserialize_array_of_varstr_as_varstr (serialize_array put_varstr cs ++ rest)
      ≡ ok (serialize_array put_varstr cs, length (serialize_array put_varstr cs))
unfolding deserialize_array_of_varstr_as_varstr serialize_array
deserialize_array_of_varstr-serialize_array cs rest count fits =
    let n = length cs in
    let head = (serialize_varint n).0 in
    let body = serialize_items put_varstr cs in
    let whole : Bytes = head ++ body in
    let regroup = append_assoc head body rest in
    let read : deserialize_varint (whole ++ rest) ≡ ok (n, length_varint n) =
      rw regroup (deserialize_varint-serialize_varint n (body ++ rest) count) in
    let skip : skip_varstrs n (whole ++ rest) (length_varint n) ≡ ok (length whole) = rw regroup (
      skip_varstrs-serialize_items cs head rest (length_varint n) (sym (length-serialize_varint n))
        (rw regroup at fits)
      ∙ ap ok (omega (arith, length-append head body, length-serialize_varint n))) in
    rw (read, skip, get_range-append [] whole rest 0 (length whole) refl (omega arith))
