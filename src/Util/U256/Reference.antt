-- ===== src/Util/U256/Reference.antt =====
-- The operations on native numbers: the laws of `U256` hold of them.
use bitlens_rs.Prelude.{
  ℕ, zero, suc, ◌+◌, ◌-◌, ◌*◌, ◌/◌, ◌%◌, ◌^◌, ◌≤◌, ◌<◌, ◌≡◌, refl, ap, ◌∙◌, inl, inr, false, Option,
  none, some, arith, ltb, ◌==◌, if◌then◌else◌, lt→ltb, Bool-cases,
}
use native.Mathlib.Omega.{pow_step}
use bitlens_rs.Util.U256.{U256}

-- A value in range, or a panic.
unfoldable pub in_range : ℕ → ℕ → Option ℕ
in_range bound a = if ltb a bound then some a else none

pub in_range_lem : (bound a : ℕ) → a < bound → in_range bound a ≡ some a
unfolding in_range
in_range_lem bound a h = rw (lt→ltb a bound h)

unfoldable pub checked_div : ℕ → ℕ → Option ℕ
checked_div a b = if b == 0 then none else some (a / b)

pub checked_div_lem : (a b : ℕ) → 0 < b → checked_div a b ≡ some (a / b)
unfolding checked_div
checked_div_lem a b h = ground arith

-- The number of bits, `width` at most.
unfoldable pub count_bits : ℕ → ℕ → ℕ
count_bits zero a = 0
count_bits (suc width) a = let rest = count_bits width (a / 2) in if a == 0 then 0 else suc rest

pub lt-count_bits : (width a : ℕ) → a < 2 ^ width → a < 2 ^ count_bits width a
unfolding count_bits
lt-count_bits zero a h = h
lt-count_bits (suc width) a h =
    let half : 2 ^ suc width ≡ 2 * 2 ^ width = pow_step 2 width in
    let ih = lt-count_bits width (a / 2) (omega arith) in
    let double = pow_step 2 (count_bits width (a / 2)) in
    elim (Bool-cases (a == 0)) [ inl z ↦ rw z (ground arith) | inr s ↦ rw s (omega arith) ]

pub count_bits-zero : (width : ℕ) → count_bits width 0 ≡ 0
unfolding count_bits
count_bits-zero zero = refl
count_bits-zero (suc width) = refl

suc-less : (r : ℕ) → suc r - 1 ≡ r
suc-less r = omega arith

power-le-double :
    (r a : ℕ) → 0 < a → (0 < a / 2 → 2 ^ (r - 1) ≤ a / 2) → (a / 2 ≡ 0 → r ≡ 0) → 2 ^ r ≤ a
power-le-double zero a h le z = h
power-le-double (suc r) a h le z =
    let double = pow_step 2 r in
    elim (Bool-cases (a / 2 == 0)) [
      | inl e ↦ absurd (omega (arith, z (ground arith)))
      | inr e ↦ let half : 2 ^ r ≤ a / 2 = rw (suc-less r) at (le (ground arith)) in omega arith
    ]

pub count_bits-le : (width a : ℕ) → 0 < a → 2 ^ (count_bits width a - 1) ≤ a
unfolding count_bits
count_bits-le zero a h = h
count_bits-le (suc width) a h =
    let some_bit : (a == 0) ≡ false = ground arith in
    rw (some_bit, suc-less (count_bits width (a / 2)))
      (power-le-double (count_bits width (a / 2)) a h (count_bits-le width (a / 2))
        (λ e. ap (count_bits width) e ∙ count_bits-zero width))

unfoldable pub reference : U256
reference = record {
  shl = λ a n. a * 2 ^ n % 2 ^ 256;
  shr = λ a n. a / 2 ^ n;
  add = λ a b. in_range (2 ^ 256) (a + b);
  mul = λ a b. in_range (2 ^ 256) (a * b);
  div = checked_div;
  bits = count_bits 256;
  as_u32 = in_range (2 ^ 32);
  shl_lem = λ a n. refl;
  shr_lem = λ a n. refl;
  add_lem = λ a b. in_range_lem (2 ^ 256) (a + b);
  mul_lem = λ a b. in_range_lem (2 ^ 256) (a * b);
  div_lem = checked_div_lem;
  lt-bits = lt-count_bits 256;
  bits-le = count_bits-le 256;
  bits-zero = count_bits-zero 256;
  as_u32_lem = in_range_lem (2 ^ 32);
}
