-- ===== src/Rtc.antt =====
-- The RTC registers of MBC3: `cartridge-core/src/rtc.rs`. Status bits: 0 is the ninth day bit, 6 the
-- halt, 7 the day carry. Masks are written as remainders.
use savepoint_signer.Prelude.{
  ℕ, zero, suc, ◌+◌, ◌-◌, ◌*◌, ◌/◌, ◌%◌, Bool, true, false, ◌==◌, if◌then◌else◌, List, [], ◌∷◌,
}
pub mod Clock

pub record Registers : Type 0 where
  pub seconds : ℕ
  pub minutes : ℕ
  pub hours : ℕ
  pub days : ℕ
  pub status : ℕ

abbrev pub is_halted : ℕ → Bool
is_halted status = status / 64 % 2 == 1

abbrev pub has_carry : ℕ → Bool
has_carry status = status / 128 % 2 == 1

-- `if st & 1 == 1 { st |= 0x80 }; st ^= 1`
abbrev pub day_overflow : ℕ → ℕ
day_overflow status =
    if status % 2 == 1
    then (if has_carry status then status - 1 else status + 128 - 1)
    else status + 1

unfoldable pub process_tick : Registers → Registers
process_tick r =
    let s = (r.seconds + 1) % 256 in
    let m = (r.minutes + 1) % 256 in
    let h = (r.hours + 1) % 256 in
    let d = (r.days + 1) % 256 in
    if s == 60
    then (if m == 60
        then (if h == 24
            then record r {
              seconds = 0;
              minutes = 0;
              hours = 0;
              days = d;
              status = if d == 0 then day_overflow r.status else r.status;
            }
            else record r { seconds = 0; minutes = 0; hours = h })
        else record r { seconds = 0; minutes = m })
    else record r { seconds = s }

-- The loop ends when the day carry is set.
unfoldable pub ticks : ℕ → Registers → Registers
ticks zero r = r
ticks (suc n) r =
    let t = process_tick r in let rest = ticks n t in if has_carry t.status then t else rest

-- `&= REGISTER_MASKS`: 0x3f, 0x3f, 0x1f, 0xff and 0xc1
unfoldable pub mask_registers : Registers → Registers
mask_registers r = record {
  seconds = r.seconds % 64;
  minutes = r.minutes % 64;
  hours = r.hours % 32;
  days = r.days % 256;
  status = r.status / 64 % 4 * 64 + r.status % 2;
}

unfoldable pub advance_by_seconds : ℕ → Registers → Registers
advance_by_seconds n r = if is_halted r.status then r else mask_registers (ticks n r)
