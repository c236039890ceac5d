-- ===== src/Tests/HeaderRuns.antt =====
-- The header of a cartridge with MBC3, a clock, 2 MiB of ROM and 32 KiB of RAM.
use savepoint_signer.Prelude.{
  ℕ, ◌≡◌, refl, true, some, get_elem?, List, [], ◌∷◌, ◌++◌, arith, zeros, length-append,
  length-zeros,
}
use savepoint_signer.Signer.Result.{ok}
use savepoint_signer.RomHeader.{
  mbc3, rom_banks, file_name, mbc_type, describe, from_rom_bytes, host_from_rom_bytes,
}
use savepoint_signer.RomHeader.Copies.{Agree, from_rom_bytes-eq-host}

abbrev image : List ℕ
image = zeros 0x147 ++ (0x10 ∷ 6 ∷ 3 ∷ zeros 6)

abbrev save_name : List ℕ
save_name = 0x58 ∷ 0x2e ∷ 0x53 ∷ 0x41 ∷ 0x56 ∷ []

image_read :
    from_rom_bytes image save_name
    ≡ ok (record {
      ram_bank_count = 4;
      rom_bank_count = 128;
      has_rtc = true;
      mbc = mbc3;
      savefile = save_name;
    })
unfolding zeros from_rom_bytes mbc_type describe rom_banks file_name
image_read = refl

image_ram : get_elem? image 0x149 ≡ some 3
unfolding zeros
image_ram = refl

from_rom_bytes-eq-host_example :
    Agree 3 (from_rom_bytes image save_name) (host_from_rom_bytes image save_name)
from_rom_bytes-eq-host_example =
    from_rom_bytes-eq-host image save_name 3
      (omega (
        arith,
        length-append (zeros 0x147) (0x10 ∷ 6 ∷ 3 ∷ zeros 6),
        length-zeros 0x147,
        length-zeros 6,
      ))
      image_ram
