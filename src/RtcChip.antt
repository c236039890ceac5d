-- ===== src/RtcChip.antt =====
-- src/mcp795xx.rs: the driver of the RTC chip on SPI. A date and a time are six numbers with a weekday;
-- the calendar of the crate chrono, which decides which dates exist, is a parameter.
use savepoint_signer.Prelude.{
  ℕ, zero, suc, ◌+◌, ◌-◌, ◌*◌, ◌/◌, ◌%◌, Bool, true, false, not, ◌&&◌, ◌||◌, Option, none, some,
  List, [], ◌∷◌, ◌++◌, ltb, leb, ◌==◌, if◌then◌else◌, length, get_or, set, ◌≡◌, refl, ◌⊎◌, inl, inr,
}
pub mod Kept
pub mod Stored

-- A chip select: bytes are written, or written and then read. None and false are errors of the bus.
pub record Spi : Type 1 where
  pub Bus : Type 0
  pub write : Bus → List ℕ → Bus × Bool
  pub write_read : Bus → List ℕ → ℕ → Bus × Option (List ℕ)

pub data ChipError : Type 0 where
  spi invalid_input_data calendar_error addr_out_of_range unaligned_access : ChipError

pub data Outcome (A : Type 0) : Type 0 where
  done : A → Outcome A
  failed : ChipError → Outcome A

pub Outcome-cases :
    {A : Type 0} (r : Outcome A) → ((a : A) × (r ≡ done a)) ⊎ ((e : ChipError) × (r ≡ failed e))
Outcome-cases (done a) = inl (a, refl)
Outcome-cases (failed e) = inr (e, refl)

pub record DateTime : Type 0 where
  pub year : ℕ
  pub month : ℕ
  pub day : ℕ
  pub hour : ℕ
  pub minute : ℕ
  pub second : ℕ

abbrev pub read_instruction : ℕ
read_instruction = 0x13

abbrev pub write_instruction : ℕ
write_instruction = 0x12

abbrev pub rtcsec : ℕ
rtcsec = 1

abbrev pub rtcwkday : ℕ
rtcwkday = 4

abbrev pub rtcmth : ℕ
rtcmth = 6

-- `(dec / 10) << 4 | dec % 10` on a u8
unfoldable pub bin2bcd : ℕ → ℕ
bin2bcd dec = dec / 10 * 16 % 256 + dec % 10

-- `(bcd >> 4) * 10 + (bcd & 0xF)`; at most 165
unfoldable pub bcd2bin : ℕ → ℕ
bcd2bin bcd = bcd / 16 * 10 + bcd % 16

-- What the code uses of chrono: the date and time with these fields, if it exists, and the number of
-- its weekday, Monday first.
pub record Calendar : Type 0 where
  pub make : DateTime → Option DateTime
  pub weekday : DateTime → ℕ

module _ (S : Spi) where
  abbrev pub Driver : Type 0 → Type 0
  Driver A = S.Bus → S.Bus × Outcome A

  -- The `?` of the source.
  infixl 5 ◌>>=◌
  abbrev pub ◌>>=◌ : {A B : Type 0} → Driver A → (A → Driver B) → Driver B
  ◌>>=◌ m f b = let (b', r) = m b in elim r [ failed e ↦ (b', failed e) | done a ↦ f a b' ]

  unfoldable pub read_registers : ℕ → ℕ → Driver (List ℕ)
  read_registers addr n b =
      let (b', r) = S.write_read b (read_instruction ∷ addr ∷ []) n in
      (b', elim r [ none ↦ failed spi | some bytes ↦ done bytes ])

  unfoldable pub read_register : ℕ → Driver ℕ
  unfolding read_registers
  read_register addr = read_registers addr 1 >>= λ bytes b. (b, done (get_or bytes 0 0))

  -- One transaction of two writes, or one write: the bytes on the wire are the same.
  unfoldable pub write_registers : ℕ → List ℕ → Driver (Unit {0})
  write_registers addr payload b =
      let (b', sent) = S.write b (write_instruction ∷ addr ∷ payload) in
      (b', if sent then done tt else failed spi)

  abbrev pub write_register : ℕ → ℕ → Driver (Unit {0})
  write_register addr reg_data = write_registers addr (reg_data ∷ [])

  -- `data & 0x20 != 0`
  unfoldable pub is_oscillator_running : Driver Bool
  unfolding read_register
  is_oscillator_running = read_register rtcwkday >>= λ d b. (b, done (d / 32 % 2 == 1))

  -- `sec | 0x80`
  unfoldable pub enable_oscillator : Driver (Unit {0})
  unfolding read_register write_registers
  enable_oscillator = read_register rtcsec >>= λ sec. write_register rtcsec (sec % 128 + 128)

  -- `sec & 0x80`
  unfoldable pub disable_oscillator : Driver (Unit {0})
  unfolding read_register write_registers
  disable_oscillator = read_register rtcsec >>= λ sec. write_register rtcsec (sec / 128 % 2 * 128)

  module _ (K : Calendar) where
    unfoldable pub decode : List ℕ → Outcome DateTime
    unfolding bcd2bin
    decode bytes =
        elim (K.make (record {
          year = bcd2bin (get_or bytes 6 0) + 2000;
          month = bcd2bin (get_or bytes 5 0 % 32);
          day = bcd2bin (get_or bytes 4 0 % 64);
          hour = bcd2bin (get_or bytes 2 0 % 64);
          minute = bcd2bin (get_or bytes 1 0 % 128);
          second = bcd2bin (get_or bytes 0 0 % 128);
        })) [ none ↦ failed calendar_error | some t ↦ done t ]

    unfoldable pub datetime : Driver DateTime
    unfolding read_registers decode
    datetime = read_registers rtcsec 7 >>= λ bytes b. (b, decode bytes)

    -- The bytes of the first write. The bits that are kept, 7 of the minutes and 3 of the weekday, are
    -- not set in the numbers that are added, of a minute below 60 and a weekday up to 7.
    unfoldable pub time_bytes : List ℕ → DateTime → List ℕ
    unfolding bin2bcd
    time_bytes old t =
        bin2bcd t.second
        ∷ (get_or old 1 0 / 128 % 2 * 128 + bin2bcd t.minute)
        ∷ bin2bcd t.hour
        ∷ (get_or old 3 0 / 8 % 2 * 8 + K.weekday t)
        ∷ bin2bcd t.day
        ∷ []

    unfoldable pub date_bytes : DateTime → List ℕ
    unfolding bin2bcd
    date_bytes t = bin2bcd t.month ∷ bin2bcd (t.year - 2000) ∷ []

    -- `data[3] & 20u8 != 0`: bit 4 or bit 2
    abbrev pub seems_running : List ℕ → Bool
    seems_running old = (get_or old 3 0 / 16 % 2 == 1) || (get_or old 3 0 / 4 % 2 == 1)

    abbrev pub if_running : Bool → Driver (Unit {0}) → Driver (Unit {0})
    if_running true act = act
    if_running false act = λ b. (b, done tt)

    unfoldable pub store_datetime : DateTime → List ℕ → Driver (Unit {0})
    unfolding time_bytes date_bytes enable_oscillator disable_oscillator write_registers
    store_datetime t old = if_running (seems_running old) disable_oscillator >>= λ stopped.
        write_registers rtcsec (time_bytes old t) >>= λ time.
        write_registers rtcmth (date_bytes t) >>= λ date.
        if_running (seems_running old) enable_oscillator

    unfoldable pub set_datetime : DateTime → Driver (Unit {0})
    unfolding read_registers store_datetime
    set_datetime t =
        if ltb t.year 2000 || ltb 2099 t.year
        then (λ b. (b, failed invalid_input_data))
        else (read_registers rtcsec 7 >>= store_datetime t)
