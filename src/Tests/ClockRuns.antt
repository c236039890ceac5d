-- ===== src/Tests/ClockRuns.antt =====
-- The clock's theorems on two times.
use savepoint_signer.Prelude.{◌+◌, ◌≡◌, arith}
use savepoint_signer.Rtc.{Registers, advance_by_seconds}
use savepoint_signer.Rtc.Clock.{IsRunning, elapsed, advance_by_seconds-elapsed}

abbrev before_midnight : Registers
before_midnight = record { seconds = 59; minutes = 59; hours = 23; days = 255; status = 0 }

before_midnight-IsRunning : IsRunning before_midnight
before_midnight-IsRunning = record {
  seconds_ok = omega arith;
  minutes_ok = omega arith;
  hours_ok = omega arith;
  days_ok = omega arith;
  status_ok = omega arith;
}

advance_by_seconds-elapsed_example :
    IsRunning (advance_by_seconds 100 before_midnight)
    × (elapsed (advance_by_seconds 100 before_midnight) ≡ elapsed before_midnight + 100)
advance_by_seconds-elapsed_example =
    advance_by_seconds-elapsed 100 before_midnight before_midnight-IsRunning (omega arith)

abbrev last_second : Registers
last_second = record before_midnight { status = 1 }

last_second-IsRunning : IsRunning last_second
last_second-IsRunning = record {
  seconds_ok = omega arith;
  minutes_ok = omega arith;
  hours_ok = omega arith;
  days_ok = omega arith;
  status_ok = omega arith;
}
