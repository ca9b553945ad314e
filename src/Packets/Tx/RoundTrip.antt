-- ===== src/Packets/Tx/RoundTrip.antt =====
-- A transaction that is serialized is read back by the reader of packets, and its two hashes are those
-- of its serialized forms without and with the witness data.
use bitlens_rs.Prelude.{
  false, ◌==◌, ℕ, ◌+◌, ◌≤◌, ◌<◌, ◌≡◌, refl, sym, ◌∙◌, true, Option, none, some, List, [], ◌∷◌, ◌++◌,
  append_assoc, arith, if◌then◌else◌, length, length-append, take, bytes_eq, All, ok, >>=-eq-ok,
  add_usize, Bool-cases, inl, inr, to_le_bytes, length-to_le_bytes,
}
use bitlens_rs.Util.Arena.{Arena, try_alloc_array}
use bitlens_rs.Packets.Buffer.{
  Bytes, IsSlice, get_range, get_range_at, get_range-take, with_offset_at, get_u32_le_at,
}
use bitlens_rs.Packets.Varint.RoundTrip.{
  serialize_varint-ne-marker, length-serialize_varint, length_varint_bounds,
}
use bitlens_rs.Packets.Varint.{serialize_varint}
use bitlens_rs.Packets.Array.{serialize_array, serialize_items}
use bitlens_rs.Packets.Array.RoundTrip.{Reads, room_array, deserialize_array-serialize_array}
use bitlens_rs.Packets.Tx.{
  TxIn, TxOut, Tx, Layouts, deserialize_txin, serialize_txin, deserialize_txout, serialize_txout,
  marker, witness_part, serialize, deserialize_witness_part, all_single, all_txins_empty, non_empty,
  witness_hash_of, deserialize,
}
use bitlens_rs.Packets.Tx.Fields.{
  IsTxIn, IsTxOut, no_room, txin-Reads, txout-Reads, deserialize_witnesses-concat,
}
use bitlens_rs.Packets.Tx.Valid.{
  IsWitnessData, IsTx, no_components, room_witness, room_tx, txid, witness_txid_of, witness_txid,
}
use bitlens_rs.Packets.Tx.Hashes.{is_some, map_id, sizes, whole_range, hash_of_lem}

All-Reads-txins :
    (xs : List TxIn)
    → All IsTxIn xs
    → All (Reads no_room deserialize_txin serialize_txin (λ x. x)) xs
All-Reads-txins [] h = tt
All-Reads-txins (x ∷ xs) (hx, hxs) = (txin-Reads x hx, All-Reads-txins xs hxs)

All-Reads-txouts :
    (xs : List TxOut)
    → All IsTxOut xs
    → All (Reads no_room deserialize_txout serialize_txout (λ x. x)) xs
All-Reads-txouts [] h = tt
All-Reads-txouts (x ∷ xs) (hx, hxs) = (txout-Reads x hx, All-Reads-txouts xs hxs)

pub non_empty_of_length : (xs : List TxIn) → 0 < length xs → non_empty xs ≡ true
non_empty_of_length [] h = absurd (omega arith)
non_empty_of_length (x ∷ xs) h = refl

deserialize_witness_part_lem :
    (layouts : Layouts) (n : ℕ) (wd : Option (List Bytes)) (pre rest buffer : Bytes) (offset : ℕ)
    (arena arena' : Arena)
    → buffer ≡ pre ++ (witness_part wd ++ rest)
    → IsWitnessData n wd
    → offset ≡ length pre
    → IsSlice buffer
    → room_witness layouts n wd arena ≡ ok arena'
    → deserialize_witness_part layouts (is_some wd) n arena buffer offset
      ≡ ok (wd, offset + length (witness_part wd), arena')
unfolding deserialize_witness_part room_witness
deserialize_witness_part_lem layouts n none pre rest buffer offset arena arena' e h at fits r =
    ground arith
deserialize_witness_part_lem layouts n (some ws) pre rest buffer offset arena arena' e (hs, count)
      at fits r =
    let ((x, a), s, t) = >>=-eq-ok (try_alloc_array layouts.witness n arena) (λ (_, a). ok a) r in
    rw (s, ← count, e, deserialize_witnesses-concat ws pre rest offset hs at (rw e at fits))
      (ground arith)

all_single_lem : (ws : List Bytes) → all_single ws ≡ no_components ws
unfolding all_single no_components
all_single_lem [] = refl
all_single_lem ([] ∷ ws) = refl
all_single_lem ((count ∷ []) ∷ ws) = all_single_lem ws
all_single_lem ((b ∷ c ∷ bs) ∷ ws) =
    let far : (length (b ∷ c ∷ bs) == 1) ≡ false = ground arith in rw far refl

witness_hash_of_lem :
    (sha256 : Bytes → Bytes) (wd : Option (List Bytes)) (n : ℕ) (id all buffer : Bytes) (end : ℕ)
    → 0 < n
    → IsWitnessData n wd
    → get_range buffer 0 (add_usize end 4) ≡ some all
    → witness_hash_of sha256 buffer wd id end ≡ ok (witness_txid_of sha256 wd id all)
unfolding witness_hash_of witness_txid_of all_txins_empty
witness_hash_of_lem sha256 none n id all buffer end hn h r = refl
witness_hash_of_lem sha256 (some []) n id all buffer end hn (h, count) r = absurd (omega arith)
witness_hash_of_lem sha256 (some (w ∷ ws)) n id all buffer end hn h r =
    let same = all_single_lem (w ∷ ws) in
    elim (Bool-cases (no_components (w ∷ ws))) [
      | inl single ↦ rw (same, single) refl
      | inr several ↦ rw (same, several, r) refl
    ]

pub flag_lem :
    (wd : Option (List Bytes)) (xs : List TxIn) (v post buffer : Bytes)
    → buffer ≡ v ++ (marker wd ++ (serialize_array serialize_txin xs ++ post))
    → length v ≡ 4
    → 0 < length xs
    → 1 ≤ length post
    → (flag : Bytes) × (get_range buffer 4 6 ≡ some flag)
      × (bytes_eq flag (0 ∷ 1 ∷ []) ≡ is_some wd)
unfolding serialize_array
flag_lem none xs v post buffer parts hv hn some_post =
    let n = length xs in
    let head = (serialize_varint n).0 in
    let body = serialize_items serialize_txin xs in
    (
      take 2 ((head ++ body) ++ post),
      rw parts (
          get_range-take v ((head ++ body) ++ post) 4 6 (sym hv) (omega arith) (
            omega (
              arith,
              length-append (head ++ body) post,
              length-append head body,
              length-serialize_varint n,
              length_varint_bounds n,
            ))),
      rw (append_assoc head body post) (serialize_varint-ne-marker n (body ++ post) hn),
    )
flag_lem (some ws) xs v post buffer parts hv hn some_post = (
  0 ∷ 1 ∷ [],
  get_range_at v (0 ∷ 1 ∷ []) (serialize_array serialize_txin xs ++ post) parts 4 6 (sym hv) refl,
  refl,
)

pub start_lem : (wd : Option (List Bytes)) → (if is_some wd then 6 else 4) ≡ 4 + length (marker wd)
start_lem none = refl
start_lem (some ws) = refl

deserialize_parts :
    (sha256 : Bytes → Bytes) (layouts : Layouts) (tx : Tx) (rest buffer : Bytes)
    (arena arena' : Arena)
    → IsTx tx
    → buffer
      ≡ to_le_bytes 4 tx.version
        ++ (marker tx.witness_data
            ++ (serialize_array serialize_txin tx.txins
                ++ (serialize_array serialize_txout tx.txouts
                    ++ (witness_part tx.witness_data ++ (to_le_bytes 4 tx.locktime ++ rest)))))
    → IsSlice buffer
    → room_tx layouts tx arena ≡ ok arena'
    → deserialize sha256 layouts arena buffer
      ≡ ok (
        record tx { hash = txid sha256 tx; witness_hash = witness_txid sha256 tx },
        length (serialize tx),
        arena',
      )
unfolding deserialize room_tx
deserialize_parts sha256 layouts tx rest buffer arena arena' h parts fits room =
    let v = to_le_bytes 4 tx.version in
    let l = to_le_bytes 4 tx.locktime in
    let wd = tx.witness_data in
    let m = marker wd in
    let a = serialize_array serialize_txin tx.txins in
    let b = serialize_array serialize_txout tx.txouts in
    let w = witness_part wd in
    let wide_v = length-to_le_bytes 4 tx.version in
    let wide_l = length-to_le_bytes 4 tx.locktime in
    let total = sizes wd v a b l rest buffer parts wide_v wide_l fits in
    let tail₃ : Bytes = l ++ rest in
    let tail₂ : Bytes = w ++ tail₃ in
    let tail₁ : Bytes = b ++ tail₂ in
    let n₁ = length-append a tail₁ in
    let n₂ = length-append b tail₂ in
    let n₃ = length-append w tail₃ in
    let n₄ = length-append l rest in
    let (arena₁, room₁, more) = >>=-eq-ok (room_array layouts.txin no_room tx.txins arena) _ room in
    let (arena₂, room₂, room₃) =
      >>=-eq-ok (room_array layouts.txout no_room tx.txouts arena₁) _ more in
    let (flag, is_flag, tells) =
      flag_lem wd tx.txins v tail₁ buffer parts wide_v h.txins_some (omega arith) in
    let read₁ =
      deserialize_array-serialize_array no_room deserialize_txin serialize_txin (λ x. x)
        layouts.txin tx.txins tail₁ arena arena₁ h.txins_count
        (All-Reads-txins tx.txins h.txins_valid) (omega arith) room₁ in
    let read₂ =
      deserialize_array-serialize_array no_room deserialize_txout serialize_txout (λ x. x)
        layouts.txout tx.txouts tail₂ arena₁ arena₂ h.txouts_count
        (All-Reads-txouts tx.txouts h.txouts_valid) (omega arith) room₂ in
    let s₁ : add_usize (4 + length m) (length a) ≡ 4 + length m + length a = omega arith in
    let s₂ : add_usize (4 + length m + length a) (length b) ≡ 4 + length m + length a + length b =
      omega arith in
    let at₂ : ℕ = 4 + length m + length a in
    let at₃ : ℕ = at₂ + length b in
    let at₄ : ℕ = at₃ + length w in
    let all : get_range buffer 0 (add_usize at₄ 4) ≡ some (serialize tx) =
      unfold serialize in whole_range wd v a b l rest buffer parts wide_v wide_l fits in
    let id : sha256 (sha256 (v ++ (a ++ (b ++ l)))) ≡ txid sha256 tx =
      unfold txid serialize in refl in
    let wid : witness_txid_of sha256 wd (txid sha256 tx) (serialize tx) ≡ witness_txid sha256 tx =
      unfold witness_txid in refl in
    let wide : length (serialize tx) ≡ at₄ + 4 =
      unfold serialize in
      omega (
        arith,
        length-append v (m ++ (a ++ (b ++ (w ++ l)))),
        length-append m (a ++ (b ++ (w ++ l))),
        length-append a (b ++ (w ++ l)),
        length-append b (w ++ l),
        length-append w l,
      ) in
    let end : add_usize at₄ 4 ≡ length (serialize tx) = omega arith in
    rw (
      get_u32_le_at [] (m ++ (a ++ tail₁)) 0 tx.version parts refl (omega arith) h.version_range,
      is_flag,
      tells,
      start_lem wd,
      with_offset_at (v ++ m) (a ++ tail₁) (4 + length m) (parts ∙ simp append_assoc)
          (omega (arith, length-append v m)),
      read₁,
      map_id,
      non_empty_of_length tx.txins h.txins_some,
      s₁,
      with_offset_at (v ++ (m ++ a)) (b ++ tail₂) at₂ (parts ∙ simp append_assoc)
          (omega (arith, length-append v (m ++ a), length-append m a)),
      read₂,
      map_id,
      s₂,
      deserialize_witness_part_lem layouts (length tx.txins) wd (v ++ (m ++ (a ++ b))) tail₃ buffer
          at₃ arena₂ arena' (parts ∙ simp append_assoc) h.witnesses_valid
          (omega
            (arith, length-append v (m ++ (a ++ b)), length-append m (a ++ b), length-append a b))
          fits room₃,
      get_u32_le_at (v ++ (m ++ (a ++ (b ++ w)))) rest at₄ tx.locktime (parts ∙ simp append_assoc)
          (omega (
            arith,
            length-append v (m ++ (a ++ (b ++ w))),
            length-append m (a ++ (b ++ w)),
            length-append a (b ++ w),
            length-append b w,
          ))
          (omega arith) h.locktime_range,
      hash_of_lem sha256 wd v a b l rest buffer parts wide_v wide_l fits,
      id,
      witness_hash_of_lem sha256 wd (length tx.txins) (txid sha256 tx) (serialize tx) buffer at₄
          h.txins_some h.witnesses_valid all,
      wid,
      end,
    )

-- A transaction that is serialized is read back by the reader of packets off the front of any slice, if
-- its fields are in range, it has an input, and the arena has room for it: all fields are the same, the
-- reader consumes the serialized bytes, `hash` is the double hash of the form without witness data, and
-- `witness_hash` is that of the whole form, or `hash` where no input has witness components.
pub deserialize-serialize :
    (sha256 : Bytes → Bytes) (layouts : Layouts) (tx : Tx) (rest : Bytes) (arena arena' : Arena)
    → IsTx tx
    → IsSlice (serialize tx ++ rest)
    → room_tx layouts tx arena ≡ ok arena'
    → deserialize sha256 layouts arena (serialize tx ++ rest)
      ≡ ok (
        record tx { hash = txid sha256 tx; witness_hash = witness_txid sha256 tx },
        length (serialize tx),
        arena',
      )
unfolding serialize
deserialize-serialize sha256 layouts tx rest arena arena' h fits room =
    deserialize_parts sha256 layouts tx rest (serialize tx ++ rest) arena arena' h
      (simp append_assoc) fits room
