-- ===== src/Util/Merkle/Evened.antt =====
-- The hashes of a level with the last one repeated if their number is odd.
use bitlens_rs.Prelude.{
  ℕ, ◌+◌, ◌-◌, ◌*◌, ◌/◌, ◌%◌, ◌≡◌, refl, sym, ap, ◌⊎◌, inl, inr, arith, List, [], ◌∷◌, ◌++◌,
  append_assoc, length, length-append, drop, drop-append_add, All,
}
use bitlens_rs.Packets.Buffer.{Bytes}
use bitlens_rs.Packets.Tx.{concat}
use bitlens_rs.Util.Merkle.{repeat_last}
use bitlens_rs.Util.Merkle.Reference.{IsHash, node, pair_up}
use bitlens_rs.Util.Merkle.Concat.{len-concat}

unfoldable pub evened : List Bytes → List Bytes
evened [] = []
evened (a ∷ []) = a ∷ a ∷ []
evened (a ∷ b ∷ rest) = a ∷ b ∷ evened rest

pub evened-IsHash : (hashes : List Bytes) → All IsHash hashes → All IsHash (evened hashes)
unfolding evened
evened-IsHash [] h = tt
evened-IsHash (a ∷ []) (ha, h) = (ha, (ha, tt))
evened-IsHash (a ∷ b ∷ rest) (ha, (hb, h)) = (ha, (hb, evened-IsHash rest h))

pub pair_up-evened :
    (sha256 : Bytes → Bytes) (hashes : List Bytes)
    → pair_up sha256 (evened hashes) ≡ pair_up sha256 hashes
unfolding evened pair_up
pair_up-evened sha256 [] = refl
pair_up-evened sha256 (a ∷ []) = refl
pair_up-evened sha256 (a ∷ b ∷ rest) = ap (λ t. node sha256 a b ∷ t) (pair_up-evened sha256 rest)

pub length-evened :
    (hashes : List Bytes) → length (evened hashes) ≡ length hashes + length hashes % 2
unfolding evened
length-evened [] = omega arith
length-evened (a ∷ []) = omega arith
length-evened (a ∷ b ∷ rest) = omega (arith, length-evened rest)

pub length-pair_up :
    (sha256 : Bytes → Bytes) (hashes : List Bytes)
    → length (pair_up sha256 hashes) ≡ (length hashes + 1) / 2
unfolding pair_up
length-pair_up sha256 [] = omega arith
length-pair_up sha256 (a ∷ []) = omega arith
length-pair_up sha256 (a ∷ b ∷ rest) = omega (arith, length-pair_up sha256 rest)

evened_even : (hashes : List Bytes) → length hashes % 2 ≡ 0 → evened hashes ≡ hashes
unfolding evened
evened_even [] e = refl
evened_even (a ∷ []) e = absurd (omega arith)
evened_even (a ∷ b ∷ rest) e = ap (λ t. a ∷ b ∷ t) (evened_even rest (omega arith))

evened_odd :
    (hashes : List Bytes)
    → All IsHash hashes
    → length hashes % 2 ≡ 1
    → concat hashes ++ drop ((length hashes - 1) * 32) (concat hashes) ≡ concat (evened hashes)
unfolding evened concat
evened_odd [] h e = absurd (omega arith)
evened_odd (a ∷ []) h e = simp append_assoc
evened_odd (a ∷ b ∷ rest) (ha, (hb, h)) e =
    let ih = evened_odd rest h (omega arith) in
    let skip : (length (a ∷ b ∷ rest) - 1) * 32 ≡ length (a ++ b) + (length rest - 1) * 32 =
      omega (arith, length-append a b) in
    let regroup : a ++ (b ++ concat rest) ≡ (a ++ b) ++ concat rest = sym (append_assoc a b _) in
    let dropped : drop ((length (a ∷ b ∷ rest) - 1) * 32) (a ++ (b ++ concat rest))
        ≡ drop ((length rest - 1) * 32) (concat rest) =
      rw (skip, regroup, drop-append_add (a ++ b) (concat rest) _) refl in
    rw (dropped, ← ih) (simp append_assoc)

-- What the code does to the vector is that.
pub repeat_last-concat :
    (hashes : List Bytes) → All IsHash hashes → repeat_last (concat hashes) ≡ concat (evened hashes)
unfolding repeat_last
repeat_last-concat hashes h = rw (len-concat hashes h) (elim (parity (length hashes)) [
  | inl odd ↦ rw odd (evened_odd hashes h odd)
  | inr even ↦ rw even (ap concat (sym (evened_even hashes even)))
])
  where
    parity : (n : ℕ) → (n % 2 ≡ 1) ⊎ (n % 2 ≡ 0)
    parity n = omega arith
