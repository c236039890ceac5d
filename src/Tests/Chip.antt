-- ===== src/Tests/Chip.antt =====
-- A chip whose registers are a list, as a concrete instance of the bus of src/mcp795xx.rs, with a run.
use savepoint_signer.Prelude.{
  ℕ, zero, suc, ◌+◌, ◌-◌, ◌%◌, ◌≤◌, ◌<◌, ◌≡◌, refl, ap, Bool, true, false, Option, none, some, List,
  [], ◌∷◌, arith, length, get_or, ◌⊎◌, ltb, leb, ◌==◌, ◌&&◌, ◌||◌, if◌then◌else◌,
}
use savepoint_signer.RtcChip.{
  Spi, Calendar, DateTime, done, failed, spi, bin2bcd, read_registers, write_registers,
  read_register, enable_oscillator, disable_oscillator, time_bytes, date_bytes, store_datetime,
  set_datetime, datetime,
}
use savepoint_signer.RtcChip.Kept.{stored_bits, ChipLaws}
use savepoint_signer.RtcChip.Stored.{set_datetime-datetime}

-- Bit 5 of the weekday and of the month cannot be written: it stays 1.
abbrev held_byte : ℕ → ℕ → ℕ
held_byte a x = if (a == 4) || (a == 6) then x % 32 + 32 else x % 256

abbrev store_bytes : (ℕ → ℕ) → ℕ → List ℕ → ℕ → ℕ
store_bytes r addr payload a =
    if leb addr a && ltb a (addr + length payload)
    then held_byte a (get_or payload (a - addr) 0)
    else r a % 256

-- The n registers from address addr on.
abbrev slice : (ℕ → ℕ) → ℕ → ℕ → List ℕ
slice r addr zero = []
slice r addr (suc n) = r addr % 256 ∷ slice r (addr + 1) n

abbrev chip_write : (ℕ → ℕ) → List ℕ → (ℕ → ℕ) × Bool
chip_write r (instruction ∷ addr ∷ payload) = (store_bytes r addr payload, true)
chip_write r _ = (r, false)

abbrev chip_read : (ℕ → ℕ) → List ℕ → ℕ → (ℕ → ℕ) × Option (List ℕ)
chip_read r (instruction ∷ addr ∷ rest) n = (r, some (slice r addr n))
chip_read r _ n = (r, none)

abbrev chip : Spi
chip = record { Bus = ℕ → ℕ; write = chip_write; write_read = chip_read }

abbrev registers : (ℕ → ℕ) → ℕ → ℕ
registers r a = r a % 256

chip_read_keeps : (r : ℕ → ℕ) (bytes : List ℕ) (n : ℕ) → (chip_read r bytes n).0 ≡ r
chip_read_keeps r [] n = refl
chip_read_keeps r (x ∷ []) n = refl
chip_read_keeps r (x ∷ a ∷ rest) n = refl

get_or-slice : (n i addr : ℕ) (r : ℕ → ℕ) → i < n → get_or (slice r addr n) i 0 ≡ r (addr + i) % 256
get_or-slice zero i addr r h = absurd (omega arith)
get_or-slice (suc n) zero addr r h = let e : addr + 0 ≡ addr = omega arith in rw e refl
get_or-slice (suc n) (suc i) addr r h =
    let e : addr + suc i ≡ addr + 1 + i = omega arith in
    rw e (get_or-slice n i (addr + 1) r (omega arith))

-- A register keeps the bits that the laws ask for.
held_byte-kept : (a x : ℕ) → held_byte a x % 256 % stored_bits a ≡ x % stored_bits a
held_byte-kept zero x = omega arith
held_byte-kept (suc zero) x = omega arith
held_byte-kept (suc (suc zero)) x = omega arith
held_byte-kept (suc (suc (suc zero))) x = omega arith
held_byte-kept (suc (suc (suc (suc zero)))) x = omega arith
held_byte-kept (suc (suc (suc (suc (suc zero))))) x = omega arith
held_byte-kept (suc (suc (suc (suc (suc (suc zero)))))) x = omega arith
held_byte-kept (suc (suc (suc (suc (suc (suc (suc zero))))))) x = omega arith
held_byte-kept (suc (suc (suc (suc (suc (suc (suc (suc n)))))))) x = omega arith

chip_written :
    (r : ℕ → ℕ) (addr : ℕ) (payload : List ℕ) (i : ℕ)
    → i < length payload
    → store_bytes r addr payload (addr + i) % 256 % stored_bits (addr + i)
      ≡ get_or payload i 0 % stored_bits (addr + i)
chip_written r addr payload i lt =
    let inside : (leb addr (addr + i) && ltb (addr + i) (addr + length payload)) ≡ true =
      ground arith in
    let at : addr + i - addr ≡ i = omega arith in
    rw (inside, at) (held_byte-kept (addr + i) (get_or payload i 0))

chip_written_other :
    (r : ℕ → ℕ) (addr : ℕ) (payload : List ℕ) (a : ℕ)
    → (a < addr) ⊎ (addr + length payload ≤ a)
    → store_bytes r addr payload a % 256 % stored_bits a ≡ r a % 256 % stored_bits a
chip_written_other r addr payload a out =
    let outside : (leb addr a && ltb a (addr + length payload)) ≡ false = ground arith in
    let e : r a % 256 % 256 ≡ r a % 256 = omega arith in rw (outside, e) refl

chip-ChipLaws : ChipLaws chip
chip-ChipLaws = record {
  registers = registers;
  is_byte = λ r a. omega arith;
  read_keeps =
      λ r bytes n a. ap (λ (x : ℕ → ℕ). x a % 256 % stored_bits a) (chip_read_keeps r bytes n);
  read_back = λ r addr n i bytes h lt in_chip.
      let e : bytes ≡ slice r addr n = cc h in rw e (get_or-slice n i addr r lt);
  written = λ r addr payload i le h lt. chip_written r addr payload i lt;
  written_other = λ r addr payload a le h out. chip_written_other r addr payload a out;
}

abbrev any_date : Calendar
any_date = record { make = λ t. some t; weekday = λ t. 4 }

abbrev leap_day : DateTime
leap_day = record { year = 2024; month = 2; day = 29; hour = 12; minute = 34; second = 56 }

-- Its oscillator runs by the test of the code: bit 2 of the weekday is set.
abbrev started : ℕ → ℕ
started a = if a == 1 then 0x80 else if a == 4 then 0x2c else 0

abbrev stored : ℕ → ℕ
unfolding set_datetime store_datetime time_bytes date_bytes read_registers write_registers
    read_register enable_oscillator disable_oscillator bin2bcd
stored = (set_datetime chip any_date leap_day started).0

set_datetime-datetime_example :
    ((datetime chip any_date stored).1 ≡ done leap_day)
    ⊎ ((datetime chip any_date stored).1 ≡ failed spi)
unfolding set_datetime store_datetime time_bytes date_bytes read_registers write_registers
    read_register enable_oscillator disable_oscillator bin2bcd
set_datetime-datetime_example =
    set_datetime-datetime chip chip-ChipLaws any_date leap_day started stored tt
      (record {
        exists = refl;
        month = omega arith;
        day = omega arith;
        hour = omega arith;
        minute = omega arith;
        second = omega arith;
      })
      refl
