-- ===== src/Util/TimeTracker.antt =====
-- src/util/timetracker.rs: how long something was waited for. Each call that looks at the clock takes the
-- time, in microseconds, as an argument.
use bitlens_rs.Prelude.{ℕ, ◌+◌, ◌-◌, ◌%◌, ◌^◌, ◌==◌, if◌then◌else◌, Result, ok, panic, add_usize}

pub record TimeTracker : Type 0 where
  pub total_waited_micros : ℕ
  pub last_wait_start : ℕ

abbrev pub new : TimeTracker
new = record { total_waited_micros = 0; last_wait_start = 0 }

unfoldable pub start : ℕ → TimeTracker → Result TimeTracker
start current_micros t =
    if t.last_wait_start == 0 then ok (record t { last_wait_start = current_micros }) else panic

unfoldable pub stop : ℕ → TimeTracker → Result TimeTracker
stop rn t =
    if t.last_wait_start == 0
    then panic
    else ok (record {
      total_waited_micros =
          add_usize t.total_waited_micros ((rn + (2 ^ 64 - t.last_wait_start)) % 2 ^ 64);
      last_wait_start = 0;
    })

abbrev pub wait_time_micros : TimeTracker → ℕ
wait_time_micros t = t.total_waited_micros

unfoldable pub reset : TimeTracker → Result TimeTracker
reset t = if t.last_wait_start == 0 then ok (record t { total_waited_micros = 0 }) else panic
