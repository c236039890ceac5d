-- ===== src/Rtc/Clock.antt =====
-- The registers count seconds.
use savepoint_signer.Prelude.{ℕ, zero, suc, ◌+◌, ◌*◌, ◌%◌, ◌<◌, ◌≡◌, refl, true, false, arith, ◌∙◌}
use savepoint_signer.Rtc.{
  Registers, is_halted, has_carry, process_tick, ticks, mask_registers, advance_by_seconds,
}

-- Registers in their ranges, running and without carry.
pub record IsRunning (r : Registers) : Type 0 where
  pub seconds_ok : r.seconds < 60
  pub minutes_ok : r.minutes < 60
  pub hours_ok : r.hours < 24
  pub days_ok : r.days < 256
  pub status_ok : r.status < 64

abbrev pub elapsed : Registers → ℕ
elapsed r = ((((r.status % 2) * 256 + r.days) * 24 + r.hours) * 60 + r.minutes) * 60 + r.seconds

tick-elapsed :
    (r : Registers)
    → IsRunning r
    → elapsed r + 1 < 512 * 86400
    → IsRunning (process_tick r) × (elapsed (process_tick r) ≡ elapsed r + 1)
unfolding process_tick
tick-elapsed r v h = ground arith

ticks-elapsed :
    (n : ℕ) (r : Registers)
    → IsRunning r
    → elapsed r + n < 512 * 86400
    → IsRunning (ticks n r) × (elapsed (ticks n r) ≡ elapsed r + n)
unfolding ticks
ticks-elapsed zero r v h = (v, omega arith)
ticks-elapsed (suc n) r v h =
    let (w, e) = tick-elapsed r v (omega arith) in
    let (x, f) = ticks-elapsed n (process_tick r) w (omega arith) in
    let no_carry : has_carry (process_tick r).status ≡ false = ground (arith, w.status_ok) in
    rw no_carry (x, omega arith)

mask-elapsed :
    (r : Registers)
    → IsRunning r
    → IsRunning (mask_registers r) × (elapsed (mask_registers r) ≡ elapsed r)
unfolding mask_registers
mask-elapsed r v = ground arith

advance-running :
    (n : ℕ) (r : Registers) → IsRunning r → advance_by_seconds n r ≡ mask_registers (ticks n r)
unfolding advance_by_seconds
advance-running n r v =
    let going : is_halted r.status ≡ false = ground (arith, v.status_ok) in rw going refl

-- A running clock without carry that is advanced by n seconds, and stays below 512 days, shows
-- exactly n seconds more, with every register in its range.
pub advance_by_seconds-elapsed :
    (n : ℕ) (r : Registers)
    → IsRunning r
    → elapsed r + n < 512 * 86400
    → IsRunning (advance_by_seconds n r) × (elapsed (advance_by_seconds n r) ≡ elapsed r + n)
advance_by_seconds-elapsed n r v h =
    let (x, f) = ticks-elapsed n r v h in
    let (y, g) = mask-elapsed (ticks n r) x in rw (advance-running n r v) (y, g ∙ f)

-- The second that ends day 511 brings the count back to zero and sets the day carry; the halt bit
-- stays clear.
pub process_tick_wraps :
    (r : Registers)
    → IsRunning r
    → elapsed r + 1 ≡ 512 * 86400
    → (elapsed (process_tick r) ≡ 0)
      × (has_carry (process_tick r).status ≡ true)
      × (is_halted (process_tick r).status ≡ false)
unfolding process_tick
process_tick_wraps r v h = ground arith
