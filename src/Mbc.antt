-- ===== src/Mbc.antt =====
-- The memory bank controllers of `src/gb_mbc.rs`: MBC1, MBC3 (whose state machine is also
-- `cartridge-core/src/mbc3.rs`) and MBC5. A bus write is an address and a byte; the controllers
-- answer with the offsets of the ROM and SRAM banks for the DMA machine, with calls of the traits
-- `MbcRamControl` and `MbcRtcControl`, kept in order in a log, and with the SRAM state they publish.
-- `addr & 0xE000` is read as `addr / 0x2000 % 8`, `x & 0x7F` as `x % 128`, and so on.
use savepoint_signer.Prelude.{
  ℕ, zero, suc, ◌+◌, ◌*◌, ◌/◌, ◌%◌, Bool, true, false, not, ◌&&◌, Option, none, some, List, [], ◌∷◌,
  ◌++◌, arith, ltb, leb, ◌==◌, if◌then◌else◌,
}
use savepoint_signer.SaveCoordinator.{Atomics, publish_sram_transition}
pub mod Banks
pub mod Edges

-- The calls of `MbcRamControl` and `MbcRtcControl`.
pub data Call : Type 0 where
  enable_ram_access disable_ram_access enable_rtc_access trigger_latch : Call
  activate_register : ℕ → Call

-- The pointers that the DMA machine reads, as byte offsets, and the calls made, the last one first.
pub record Cartridge : Type 0 where
  pub rom_pointer : ℕ
  pub ram_pointer : Option ℕ
  pub calls : List Call
  pub atomics : Atomics

abbrev pub rom_bank_size : ℕ
rom_bank_size = 0x4000

abbrev pub ram_bank_size : ℕ
ram_bank_size = 0x2000

abbrev pub sram_size : ℕ
sram_size = 0x8000

abbrev pub call : Call → Cartridge → Cartridge
call k c = record c { calls = k ∷ c.calls }

abbrev pub is_enable : ℕ → Bool
is_enable data_byte = data_byte % 16 == 10

-- `match addr & 0xE000`
pub data Region : Type 0 where
  ram_enable bank_select ram_select latch elsewhere : Region

abbrev pub region_of : ℕ → Region
region_of zero = ram_enable
region_of (suc zero) = bank_select
region_of (suc (suc zero)) = ram_select
region_of (suc (suc (suc zero))) = latch
region_of (suc (suc (suc (suc n)))) = elsewhere

abbrev pub region : ℕ → Region
region addr = region_of (addr / 0x2000 % 8)

pub record Mbc3State : Type 0 where
  pub rom_bank : ℕ
  pub ram_bank : ℕ
  pub ram_enabled : Bool
  pub rtc_latch : Bool
  pub rom_bank_pending : ℕ

abbrev pub new_mbc3 : Mbc3State
new_mbc3 = record {
  rom_bank = 1;
  ram_bank = 1;
  ram_enabled = false;
  rtc_latch = false;
  rom_bank_pending = 1;
}

-- `self.ram_bank & 0x08 == 0x08`
abbrev pub is_rtc_bank : ℕ → Bool
is_rtc_bank bank = bank / 8 % 2 == 1

-- The arms of the match.
unfoldable pub route : Region → ℕ → Mbc3State × Cartridge → Mbc3State × Cartridge
route ram_enable d (s, c) =
    let s₁ = record s { ram_enabled = is_enable d } in
    (
      s₁,
      call
          (if s₁.ram_enabled
            then (if is_rtc_bank s.ram_bank then enable_rtc_access else enable_ram_access)
            else disable_ram_access)
          c,
    )
route bank_select d (s, c) =
    (record s { rom_bank_pending = if d % 128 == 0 then 1 else d % 128 }, c)
route ram_select d (s, c) =
    let s₁ = record s { ram_bank = d } in
    if is_rtc_bank d
    then (
      s₁,
      let c₁ = call (activate_register (d % 8)) c in
          if s.ram_enabled then call enable_rtc_access c₁ else c₁,
    )
    else (
      s₁,
      let c₁ = record c { ram_pointer = some (d % 8 * ram_bank_size) } in
          if s.ram_enabled then call enable_ram_access c₁ else c₁,
    )
route latch d (s, c) =
    if d == 0
    then (record s { rtc_latch = false }, c)
    else if s.rtc_latch
    then (s, c)
    else (record s { rtc_latch = true }, call trigger_latch c)
route elsewhere d m = m

-- What follows the match: the pending bank becomes the bank.
unfoldable pub commit : Mbc3State × Cartridge → Mbc3State × Cartridge
commit (s, c) =
    let pending = s.rom_bank_pending % 128 in
    if s.rom_bank == pending then (record s { rom_bank_pending = pending }, c) else (
      record s { rom_bank_pending = pending; rom_bank = pending },
      record c { rom_pointer = pending * rom_bank_size },
    )

unfoldable pub mbc3_step : ℕ → ℕ → Mbc3State × Cartridge → Mbc3State × Cartridge
mbc3_step addr d m = commit (route (region addr) d m)

-- `Mbc3::run` without the feature crystal-seed.
unfoldable pub mbc3_write : ℕ → ℕ → Mbc3State × Cartridge → Mbc3State × Cartridge
mbc3_write addr d m =
    let r = mbc3_step addr d m in
    (
      r.0,
      record r.1 { atomics = publish_sram_transition m.0.ram_enabled r.0.ram_enabled r.1.atomics },
    )

-- The bank select of the feature crystal-seed, which goes ahead of everything else.
unfoldable pub fast_bank_select : ℕ → Mbc3State × Cartridge → Mbc3State × Cartridge
fast_bank_select d (s, c) =
    let bank = if d % 128 == 0 then 1 else d % 128 in
    (
      record s { rom_bank_pending = bank; rom_bank = bank },
      record c { rom_pointer = bank * rom_bank_size },
    )

pub record Mbc1State : Type 0 where
  pub rom_bank : ℕ
  pub rom_bank_high : ℕ
  pub rom_bank_low : ℕ
  pub mode : ℕ
  pub ram_enabled : Bool

abbrev pub new_mbc1 : Mbc1State
new_mbc1 = record {
  rom_bank = 1;
  rom_bank_high = 0;
  rom_bank_low = 1;
  mode = 0;
  ram_enabled = false;
}

-- The SRAM enable of MBC1 and MBC5: the call, then the publication.
abbrev pub enable_sram : Bool → Bool → Cartridge → Cartridge
enable_sram was now c = record (call (if now then enable_ram_access else disable_ram_access) c) {
  atomics = publish_sram_transition was now c.atomics;
}

unfoldable pub mbc1_route : Region → ℕ → Mbc1State × Cartridge → Mbc1State × Cartridge
mbc1_route ram_enable d (s, c) =
    (record s { ram_enabled = is_enable d }, enable_sram s.ram_enabled (is_enable d) c)
mbc1_route bank_select d (s, c) = (record s { rom_bank_low = if d % 32 == 0 then 1 else d % 32 }, c)
mbc1_route ram_select d (s, c) =
    if s.mode == 0
    then (record s { rom_bank_high = d % 4 }, c)
    else (s, record c { ram_pointer = some (d % 4 * ram_bank_size) })
mbc1_route latch d (s, c) = (record s { mode = d % 2 }, c)
mbc1_route elsewhere d m = m

-- `(high << 5) | low` of a two-bit and a five-bit number is their sum.
unfoldable pub mbc1_bank : Mbc1State → ℕ
mbc1_bank s = (if s.mode == 0 then s.rom_bank_high * 32 + s.rom_bank_low else s.rom_bank_low) % 64

unfoldable pub mbc1_write : ℕ → ℕ → Mbc1State × Cartridge → Mbc1State × Cartridge
mbc1_write addr d m =
    let (s, c) = mbc1_route (region addr) d m in
    if s.rom_bank == mbc1_bank s then (s, c) else (
      record s { rom_bank = mbc1_bank s },
      record c { rom_pointer = mbc1_bank s * rom_bank_size },
    )

pub record Mbc5State : Type 0 where
  pub rom_bank : ℕ
  pub rom_bank_new : ℕ
  pub ram_bank : ℕ
  pub ram_bank_new : ℕ
  pub ram_enabled : Bool

abbrev pub new_mbc5 : Mbc5State
new_mbc5 = record {
  rom_bank = 1;
  rom_bank_new = 1;
  ram_bank = 1;
  ram_bank_new = 1;
  ram_enabled = false;
}

-- `match addr & 0xF000`, by its number 0 to 15
unfoldable pub mbc5_route : ℕ → ℕ → Mbc5State × Cartridge → Mbc5State × Cartridge
mbc5_route n d (s, c) =
    if leb n 1
    then (record s { ram_enabled = is_enable d }, enable_sram s.ram_enabled (is_enable d) c)
    else if n == 2
    then (record s { rom_bank_new = s.rom_bank / 256 % 2 * 256 + d }, c)
    else if n == 3
    then (record s { rom_bank_new = s.rom_bank % 256 + d % 2 * 256 }, c)
    else if n == 4
    then (record s { ram_bank_new = d % 16 }, c)
    else (s, c)

unfoldable pub mbc5_commit_rom : Mbc5State × Cartridge → Mbc5State × Cartridge
mbc5_commit_rom (s, c) =
    let bank = s.rom_bank_new % 512 in
    if s.rom_bank == bank then (record s { rom_bank_new = bank }, c) else (
      record s { rom_bank_new = bank; rom_bank = bank },
      record c { rom_pointer = bank * rom_bank_size },
    )

unfoldable pub mbc5_commit_ram : Mbc5State × Cartridge → Mbc5State × Cartridge
mbc5_commit_ram (s, c) =
    let bank = s.ram_bank_new % 16 in
    if s.ram_bank == bank then (record s { ram_bank_new = bank }, c) else (
      record s { ram_bank_new = bank; ram_bank = bank },
      record c { ram_pointer = some (bank % 4 * ram_bank_size) },
    )

unfoldable pub mbc5_write : ℕ → ℕ → Mbc5State × Cartridge → Mbc5State × Cartridge
mbc5_write addr d m = mbc5_commit_ram (mbc5_commit_rom (mbc5_route (addr / 0x1000 % 16) d m))
