-- ===== src/Util/Pow.antt =====
-- src/util/pow.rs: the difficulty adjustment.
use bitlens_rs.Prelude.{ℕ, ◌+◌, ◌-◌, ◌*◌, ◌/◌, ◌%◌, ◌^◌, ltb, if◌then◌else◌, Result, unwrap, ◌>>=◌}
use bitlens_rs.Util.U256.{U256}
use bitlens_rs.Util.Compact.{u256_from_compact, compact_from_u256}

abbrev pub pow_target_timespan : ℕ
pow_target_timespan = 14 * 24 * 60 * 60

abbrev pub pow_target_spacing : ℕ
pow_target_spacing = 10 * 60

abbrev pub pow_limit : ℕ
pow_limit = 0x00000000ffffffffffffffffffffffffffffffffffffffffffffffffffffffff

abbrev pub difficulty_adjustment_interval : ℕ
difficulty_adjustment_interval = pow_target_timespan / pow_target_spacing

-- The difference of the two `u32` timestamps wraps in the release build.
unfoldable pub clamped_timespan : ℕ → ℕ → ℕ
clamped_timespan last_timestamp first_block_time =
    let actual = (last_timestamp + 2 ^ 32 - first_block_time) % 2 ^ 32 in
    if ltb actual (pow_target_timespan / 4)
    then pow_target_timespan / 4
    else if ltb (pow_target_timespan * 4) actual
    then pow_target_timespan * 4
    else actual

unfoldable pub calculate_next_work_required : U256 → ℕ → ℕ → ℕ → Result ℕ
calculate_next_work_required u last_timestamp first_block_time last_bits = do
  product ←
      unwrap
        (u.mul (u256_from_compact u last_bits) (clamped_timespan last_timestamp first_block_time))
  difficulty ← unwrap (u.div product pow_target_timespan)
  compact_from_u256 u (if ltb pow_limit difficulty then pow_limit else difficulty)
