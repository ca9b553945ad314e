-- ===== src/Util/U256.antt =====
-- The operations of the crate `primitive-types` on 256-bit integers that the source calls. A value is
-- the number that it stands for; `none` is a panic of the crate. The laws are the documented behaviour.
pub mod Reference
use bitlens_rs.Prelude.{
  ℕ, ◌+◌, ◌-◌, ◌*◌, ◌/◌, ◌%◌, ◌^◌, ◌≤◌, ◌<◌, ◌≡◌, Option, none, some, if◌then◌else◌,
}

pub record U256 : Type 0 where
  pub shl : ℕ → ℕ → ℕ
  pub shr : ℕ → ℕ → ℕ
  pub add : ℕ → ℕ → Option ℕ
  pub mul : ℕ → ℕ → Option ℕ
  pub div : ℕ → ℕ → Option ℕ
  pub bits : ℕ → ℕ
  pub as_u32 : ℕ → Option ℕ
  pub shl_lem : (a n : ℕ) → shl a n ≡ a * 2 ^ n % 2 ^ 256
  pub shr_lem : (a n : ℕ) → shr a n ≡ a / 2 ^ n
  pub add_lem : (a b : ℕ) → a + b < 2 ^ 256 → add a b ≡ some (a + b)
  pub mul_lem : (a b : ℕ) → a * b < 2 ^ 256 → mul a b ≡ some (a * b)
  pub div_lem : (a b : ℕ) → 0 < b → div a b ≡ some (a / b)
  pub lt-bits : (a : ℕ) → a < 2 ^ 256 → a < 2 ^ bits a
  pub bits-le : (a : ℕ) → 0 < a → 2 ^ (bits a - 1) ≤ a
  pub bits-zero : bits 0 ≡ 0
  pub as_u32_lem : (a : ℕ) → a < 2 ^ 32 → as_u32 a ≡ some a
