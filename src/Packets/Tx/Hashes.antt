-- ===== src/Packets/Tx/Hashes.antt =====
-- The byte ranges that the reader of a transaction hashes.
use bitlens_rs.Prelude.{
  ℕ, ◌+◌, ◌≡◌, refl, ap, ◌∙◌, Bool, true, false, Option, none, some, List, [], ◌∷◌, ◌++◌, map,
  append_assoc, arith, length, length-append, ok, add_usize,
}
use bitlens_rs.Packets.Buffer.{Bytes, IsSlice, get_range, get_range_at}
use bitlens_rs.Packets.Tx.{marker, witness_part, concat, hash_of}

pub map_id {ℓ} : {A : Type ℓ} (xs : List A) → map (λ x. x) xs ≡ xs
map_id [] = refl
map_id (x ∷ xs) = ap (λ t. x ∷ t) (map_id xs)

abbrev pub is_some {ℓ} : {A : Type ℓ} → Option A → Bool
is_some none = false
is_some (some x) = true

module _ (wd : Option (List Bytes)) (v a b l rest buffer : Bytes)
    (parts : buffer ≡ v ++ (marker wd ++ (a ++ (b ++ (witness_part wd ++ (l ++ rest))))))
    (wide_v : length v ≡ 4) (wide_l : length l ≡ 4) (fits : IsSlice buffer) where
  abbrev start : ℕ
  start = 4 + length (marker wd)

  abbrev witnesses_start : ℕ
  witnesses_start = start + length a + length b

  abbrev end : ℕ
  end = witnesses_start + length (witness_part wd)

  pub sizes : length buffer ≡ end + 4 + length rest
  sizes =
      let w = witness_part wd in
      rw parts (
        omega (
          arith,
          length-append v (marker wd ++ (a ++ (b ++ (w ++ (l ++ rest))))),
          length-append (marker wd) (a ++ (b ++ (w ++ (l ++ rest)))),
          length-append a (b ++ (w ++ (l ++ rest))),
          length-append b (w ++ (l ++ rest)),
          length-append w (l ++ rest),
          length-append l rest,
        ))

  -- Everything up to the lock time's end.
  pub whole_range :
      get_range buffer 0 (add_usize end 4)
      ≡ some (v ++ (marker wd ++ (a ++ (b ++ (witness_part wd ++ l)))))
  whole_range =
      let w = witness_part wd in
      get_range_at [] (v ++ (marker wd ++ (a ++ (b ++ (w ++ l))))) rest (parts ∙ simp append_assoc)
        0 (add_usize end 4) refl
        (omega (
          arith,
          sizes,
          length-append v (marker wd ++ (a ++ (b ++ (w ++ l)))),
          length-append (marker wd) (a ++ (b ++ (w ++ l))),
          length-append a (b ++ (w ++ l)),
          length-append b (w ++ l),
          length-append w l,
        ))

-- The hash is that of the same parts without marker and witness data.
pub hash_of_lem :
    (sha256 : Bytes → Bytes) (wd : Option (List Bytes)) (v a b l rest buffer : Bytes)
    → buffer ≡ v ++ (marker wd ++ (a ++ (b ++ (witness_part wd ++ (l ++ rest)))))
    → length v ≡ 4
    → length l ≡ 4
    → IsSlice buffer
    → let ws = 4 + length (marker wd) + length a + length b in
      hash_of sha256 buffer (is_some wd) ws (ws + length (witness_part wd))
      ≡ ok (sha256 (sha256 (v ++ (a ++ (b ++ l)))))
unfolding hash_of
hash_of_lem sha256 none v a b l rest buffer parts hv hl fits =
    rw (whole_range none v a b l rest buffer parts hv hl fits)
hash_of_lem sha256 (some ws) v a b l rest buffer parts hv hl fits =
    let w = concat ws in
    let m : Bytes = 0 ∷ 1 ∷ [] in
    let total = sizes (some ws) v a b l rest buffer parts hv hl fits in
    let tail : Bytes = w ++ (l ++ rest) in
    let front = length-append v m in
    let body = length-append a b in
    let front' = length-append (v ++ m) (a ++ b) in
    let front'' = length-append ((v ++ m) ++ (a ++ b)) w in
    rw
      (
        get_range_at [] v (m ++ (a ++ (b ++ tail))) parts 0 4 refl (omega arith),
        get_range_at (v ++ m) (a ++ b) tail (parts ∙ simp append_assoc) 6
            (4 + 2 + length a + length b) (omega arith) (omega arith),
        get_range_at ((v ++ m) ++ (a ++ b) ++ w) l rest (parts ∙ simp append_assoc)
            (4 + 2 + length a + length b + length w)
            (add_usize (4 + 2 + length a + length b + length w) 4) (omega arith) (omega arith),
      )
      (ap (λ t. ok (sha256 (sha256 (v ++ t)))) (append_assoc a b l))
