-- ===== src/Util/Compact.antt =====
-- src/util/compact.rs: the compact form of a proof-of-work target, a mantissa of 23 bits and a size in
-- bytes. Masks and shifts by fixed amounts are written with `%`, `/` and `*`.
use bitlens_rs.Prelude.{
  ℕ, ◌+◌, ◌-◌, ◌*◌, ◌/◌, ◌%◌, ◌^◌, bit_or, leb, ◌==◌, if◌then◌else◌, Result, ok, unwrap, ◌>>=◌,
}
use bitlens_rs.Util.U256.{U256}

unfoldable pub u256_from_compact : U256 → ℕ → ℕ
u256_from_compact u compact =
    let size = compact / 2 ^ 24 in
    let word = compact % 2 ^ 23 in
    if leb size 3 then u.shr word (8 * (3 - size)) else u.shl word (8 * (size - 3))

-- The size and the first digits of a value, before they are joined. `<<` on a `u32` drops high bits.
unfoldable pub compact_digits : U256 → ℕ → ℕ → Result ℕ
compact_digits u value size =
    if leb size 3
    then (unwrap (u.as_u32 value) >>= (λ v. ok (v * 2 ^ (8 * (3 - size)) % 2 ^ 32)))
    else unwrap (u.as_u32 (u.shr value (8 * (size - 3))))

-- A set sign bit is avoided by one more byte.
unfoldable pub join_compact : ℕ → ℕ → ℕ
join_compact compact size =
    if compact / 2 ^ 23 % 2 == 1
    then bit_or (compact / 2 ^ 8) ((size + 1) * 2 ^ 24 % 2 ^ 32)
    else bit_or compact (size * 2 ^ 24 % 2 ^ 32)

unfoldable pub compact_from_u256 : U256 → ℕ → Result ℕ
compact_from_u256 u value = do
  let size = (u.bits value + 7) / 8
  compact ← compact_digits u value size
  ok (join_compact compact size)
