-- ===== src/RomHeader.antt =====
-- src/rom_info.rs and cartridge-core/src/rom_info.rs: the two readers of a cartridge header, which
-- start with the same table. `err tt` stands for the None of the source.
use savepoint_signer.Prelude.{
  ℕ, ◌+◌, ◌%◌, ◌^◌, Bool, true, false, ◌&&◌, Option, none, some, List, [], ◌∷◌, ltb, leb, ◌==◌,
  if◌then◌else◌, length, get_elem?,
}
use savepoint_signer.Signer.Result.{Result, ok, err, panic, ◌>>=◌, ◌>>◌, require, index, ok_or}
pub mod Copies

pub data MbcType : Type 0 where
  no_mbc mbc1 mbc2 mbc3 mbc5 : MbcType

pub record RomInfo : Type 0 where
  pub ram_bank_count : ℕ
  pub rom_bank_count : ℕ
  pub has_rtc : Bool
  pub mbc : MbcType
  pub savefile : List ℕ

abbrev within : ℕ → ℕ → ℕ → Bool
within a b n = leb a n && leb n b

-- The match on the type byte: the controller and whether there is a clock.
unfoldable pub mbc_type : ℕ → Option (MbcType × Bool)
mbc_type n =
    if n == 0
    then some (no_mbc, false)
    else if within 0x01 0x03 n
    then some (mbc1, false)
    else if within 0x05 0x07 n
    then some (mbc2, false)
    else if within 0x0f 0x10 n
    then some (mbc3, true)
    else if within 0x11 0x13 n
    then some (mbc3, false)
    else if within 0x19 0x1e n
    then some (mbc5, false)
    else none

abbrev pub lookup : List ℕ
lookup = 0 ∷ 0 ∷ 1 ∷ 4 ∷ 16 ∷ 8 ∷ []

-- `1u16 << (code as u16 + 1)`, with the checks for overflow: a shift by 16 or more is a panic.
unfoldable pub rom_banks : ℕ → Result (Unit {0}) ℕ
rom_banks code = if ltb (code + 1) 16 then ok (2 ^ (code + 1)) else panic

-- `push_str` on an empty ArrayString<16>.
unfoldable pub file_name : List ℕ → Result (Unit {0}) (List ℕ)
file_name name = if leb (length name) 16 then ok name else panic

unfoldable pub describe : List ℕ → List ℕ → MbcType × Bool → ℕ → Result (Unit {0}) RomInfo
unfolding rom_banks file_name
describe bank name kind ram = index bank 0x148 >>= λ code. rom_banks code >>= λ rom.
    file_name name >>= λ savefile. ok (record {
      ram_bank_count = ram;
      rom_bank_count = rom;
      has_rtc = kind.1;
      mbc = kind.0;
      savefile = savefile;
    })

-- The firmware's: a short image or an unknown size of RAM is an index out of bounds.
unfoldable pub from_rom_bytes : List ℕ → List ℕ → Result (Unit {0}) RomInfo
unfolding mbc_type describe
from_rom_bytes bank name = index bank 0x147 >>= λ dat. ok_or (mbc_type dat) tt >>= λ kind.
    index bank 0x149 >>= λ size. index lookup size >>= describe bank name kind

-- The tables of the copy in cartridge-core, which has its own.
unfoldable pub host_mbc_type : ℕ → Option (MbcType × Bool)
host_mbc_type n =
    if n == 0
    then some (no_mbc, false)
    else if within 0x01 0x03 n
    then some (mbc1, false)
    else if within 0x05 0x07 n
    then some (mbc2, false)
    else if within 0x0f 0x10 n
    then some (mbc3, true)
    else if within 0x11 0x13 n
    then some (mbc3, false)
    else if within 0x19 0x1e n
    then some (mbc5, false)
    else none

abbrev pub host_lookup : List ℕ
host_lookup = 0 ∷ 0 ∷ 1 ∷ 4 ∷ 16 ∷ 8 ∷ []

unfoldable pub host_rom_banks : ℕ → Result (Unit {0}) ℕ
host_rom_banks code = if ltb (code + 1) 16 then ok (2 ^ (code + 1)) else panic

unfoldable pub host_file_name : List ℕ → Result (Unit {0}) (List ℕ)
host_file_name name = if leb (length name) 16 then ok name else panic

unfoldable pub host_describe : List ℕ → List ℕ → MbcType × Bool → ℕ → Result (Unit {0}) RomInfo
unfolding host_rom_banks host_file_name
host_describe bank name kind ram = index bank 0x148 >>= λ code. host_rom_banks code >>= λ rom.
    host_file_name name >>= λ savefile. ok (record {
      ram_bank_count = ram;
      rom_bank_count = rom;
      has_rtc = kind.1;
      mbc = kind.0;
      savefile = savefile;
    })

-- The one of cartridge-core, for tests on a host: a short image and an unknown size of RAM are None.
unfoldable pub host_from_rom_bytes : List ℕ → List ℕ → Result (Unit {0}) RomInfo
unfolding host_mbc_type host_describe
host_from_rom_bytes bank name =
    require (leb 0x150 (length bank)) tt
    >> (index bank 0x147 >>= λ dat. ok_or (host_mbc_type dat) tt >>= λ kind.
        index bank 0x149 >>= λ size.
        ok_or (get_elem? host_lookup size) tt >>= host_describe bank name kind)
