-- ===== src/Mbc/Banks.antt =====
-- Which banks the pointers select.
use savepoint_signer.Prelude.{ℕ, ◌+◌, ◌*◌, ◌/◌, ◌%◌, ◌≤◌, ◌<◌, ◌≡◌, ◌↔◌, Option, none, some, arith}
use savepoint_signer.Mbc.{
  Cartridge, rom_bank_size, ram_bank_size, sram_size, Mbc3State, Mbc1State, Mbc5State, region,
  Region, ram_enable, bank_select, ram_select, latch, elsewhere, route, commit, mbc3_step,
  fast_bank_select, mbc1_route, mbc1_bank, mbc1_write, mbc5_route, mbc5_commit_rom, mbc5_commit_ram,
  mbc5_write,
}

-- A bank of 1 to 127, which is the pending one and the one the pointer selects.
pub record IsValid3 (m : Mbc3State × Cartridge) : Type 0 where
  pub not_zero : 0 < m.0.rom_bank
  pub fits : m.0.rom_bank < 128
  pub pending : m.0.rom_bank_pending ≡ m.0.rom_bank
  pub pointer : m.1.rom_pointer ≡ m.0.rom_bank * rom_bank_size

route-IsValid3 :
    (r : Region) (d : ℕ) (m : Mbc3State × Cartridge) → IsValid3 m → IsValid3 (commit (route r d m))
unfolding route commit
route-IsValid3 ram_enable d m v = ground arith
route-IsValid3 bank_select d m v = ground arith
route-IsValid3 ram_select d m v = ground arith
route-IsValid3 latch d m v = ground arith
route-IsValid3 elsewhere d m v = ground arith

-- Every write leaves MBC3 on a ROM bank of 1 to 127 with the pointer at that bank's offset, which is
-- inside a ROM of 2 MiB.
pub mbc3_step-IsValid :
    (addr d : ℕ) (m : Mbc3State × Cartridge)
    → IsValid3 m
    → IsValid3 (mbc3_step addr d m)
      × ((mbc3_step addr d m).1.rom_pointer + rom_bank_size ≤ 2 * 1024 * 1024)
unfolding mbc3_step
mbc3_step-IsValid addr d m v = let w = route-IsValid3 (region addr) d m v in (w, ground arith)

-- The short cut of the feature crystal-seed does what the state machine does on the same write.
pub fast_bank_select-eq-step :
    (addr d : ℕ) (m : Mbc3State × Cartridge)
    → addr / 0x2000 % 8 ≡ 1
    → IsValid3 m
    → fast_bank_select d m ≡ mbc3_step addr d m
unfolding fast_bank_select mbc3_step route commit
fast_bank_select-eq-step addr d m h v = rw h (ground arith)

-- After a write to 0x4000-0x5FFF that selects no RTC register, the exposed 8 KiB lie inside the
-- 32 KiB of SRAM exactly when bit 2 of the byte is clear.
pub mbc3_select-inside :
    (addr d : ℕ) (m : Mbc3State × Cartridge)
    → addr / 0x2000 % 8 ≡ 2
    → d / 8 % 2 ≡ 0
    → (p : ℕ) × ((mbc3_step addr d m).1.ram_pointer ≡ some p)
      × ((p + ram_bank_size ≤ sram_size) ↔ (d / 4 % 2 ≡ 0))
unfolding mbc3_step route commit
mbc3_select-inside addr d m h z = rw h (d % 8 * ram_bank_size, ground arith, ground arith)

-- A ROM bank of 1 to 63, made of its two parts, and an SRAM bank of the four.
pub record IsValid1 (m : Mbc1State × Cartridge) : Type 0 where
  pub low : (0 < m.0.rom_bank_low) × (m.0.rom_bank_low < 32)
  pub high : m.0.rom_bank_high < 4
  pub bank : (0 < m.0.rom_bank) × (m.0.rom_bank < 64)
  pub current : m.0.rom_bank ≡ mbc1_bank m.0
  pub pointer : m.1.rom_pointer ≡ m.0.rom_bank * rom_bank_size

mbc1_route-parts :
    (r : Region) (d : ℕ) (m : Mbc1State × Cartridge)
    → IsValid1 m
    → ((0 < (mbc1_route r d m).0.rom_bank_low) × ((mbc1_route r d m).0.rom_bank_low < 32))
      × ((mbc1_route r d m).0.rom_bank_high < 4)
      × ((mbc1_route r d m).0.rom_bank ≡ m.0.rom_bank)
      × ((mbc1_route r d m).1.rom_pointer ≡ m.1.rom_pointer)
unfolding mbc1_route
mbc1_route-parts ram_enable d m v = ground arith
mbc1_route-parts bank_select d m v = ground arith
mbc1_route-parts ram_select d m v = ground arith
mbc1_route-parts latch d m v = ground arith
mbc1_route-parts elsewhere d m v = ground arith

-- Every write leaves MBC1 on a ROM bank of 1 to 63 made of its two parts in the current mode, with
-- the pointer at that bank's offset.
pub mbc1_write-IsValid :
    (addr d : ℕ) (m : Mbc1State × Cartridge) → IsValid1 m → IsValid1 (mbc1_write addr d m)
unfolding mbc1_write mbc1_bank
mbc1_write-IsValid addr d m v = let parts = mbc1_route-parts (region addr) d m v in ground arith

-- ROM bank 0 to 511, SRAM bank 0 to 15, and an SRAM pointer inside the 32 KiB.
abbrev pub InsideSram : Option ℕ → Type 0
InsideSram none = Unit {0}
InsideSram (some p) = p + ram_bank_size ≤ sram_size

pub record IsValid5 (m : Mbc5State × Cartridge) : Type 0 where
  pub bank : m.0.rom_bank < 512
  pub bank_new : m.0.rom_bank_new ≡ m.0.rom_bank
  pub ram_bank : m.0.ram_bank < 16
  pub ram_bank_new : m.0.ram_bank_new ≡ m.0.ram_bank
  pub pointer : m.1.rom_pointer ≡ m.0.rom_bank * rom_bank_size
  pub inside : InsideSram m.1.ram_pointer

-- Every write of a byte leaves MBC5 on the ROM bank of its pointer, below 512, and its SRAM window
-- inside the 32 KiB; a bank 0 stays bank 0.
pub mbc5_write-IsValid :
    (addr d : ℕ) (m : Mbc5State × Cartridge) → d < 256 → IsValid5 m → IsValid5 (mbc5_write addr d m)
unfolding mbc5_write mbc5_route mbc5_commit_rom mbc5_commit_ram
mbc5_write-IsValid addr d m lt v = ground arith
