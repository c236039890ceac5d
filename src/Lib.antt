-- ===== src/Lib.antt =====
-- Verification of Savepoint Signer, the firmware of an RP2350 Game Boy cartridge with a Bitcoin
-- signer. Paths are from the repository's root.
--
-- Two cores run. Core 0 answers the Game Boy's bus: the memory bank controllers of src/gb_mbc.rs
-- and, in the build with the feature crystal-seed, the mailbox of the seed link
-- (cartridge-core/src/seed_link.rs). Core 1 is a worker: it polls the link, runs the terminal
-- (signer-probe/src/terminal.rs), which recovers a seed, reviews a PSBT and signs it
-- (signer-probe/src/seed.rs), and it saves cartridge SRAM to the card
-- (cartridge-core/src/save_coordinator.rs, cartridge-core/src/savefile.rs, src/main.rs).
--
-- Files, and what they model:
--   Prelude: the shared names; Prelude/Tests Boolean tests; Prelude/Lists lists and slices;
--     Prelude/Text text as bytes.
--   SeedLink: seed_link.rs, `Link::submit`, `take`, `finish`, `page`, `marker_offset`.
--     SeedLink/Protocol: game and worker as events over the link; SeedLink/Pages: the pages.
--   CrystalSeed: `Bus` of src/crystal_seed.rs, with every volatile write of a page as a step;
--     CrystalSeed/Publication: what the game can see of it. CrystalSeed/Worker: `Worker::poll`;
--     Worker/Files: it and the files of the card; Worker/Picker, Worker/Shown, Worker/Opened: the
--     file picker; Worker/Saved: from the approval to the file.
--   Signer/Result: the result type, with panics as a third outcome. Signer/Bitcoin: the data of the
--     crates bitcoin and bip39, and their operations as the record `Bitcoin`.
--   Signer/Seed: `SeedSession`, its recovery, derivation and lock; Signer/Seed/Lock,
--     Signer/Seed/Receive: theorems on them.
--   Signer/Review: `SeedSession::review_psbt`, split at its stages; Signer/Review/Policy: what an
--     accepted PSBT satisfies; Signer/Review/Total: index bounds.
--   Signer/Sign: `SeedSession::sign_psbt`; Signer/Sign/Binding: what it signs.
--   Signer/Probe: `review`, `validate` and `sign` of signer-probe/src/lib.rs; Probe/Accepted: what
--     `validate` has checked; Probe/Signing: that `sign` signs it.
--   Signer/Terminal: the state; Terminal/Command: `Terminal::command`, one function per group of
--     arms; Terminal/Flow: the operations that the worker calls. Terminal/Gate, Terminal/Custody,
--     Terminal/Signing: theorems; Terminal/Matches: lemmas on candidate words; Terminal/Invariant,
--     Terminal/Words, Terminal/Total: the well-formed terminal. Terminal/Report: `report`;
--     Report/Fields, Report/Display, Report/Bounds: theorems on its bytes.
--   SdPsbt: the calls of the FAT library as the record `Volume`, and the names of src/sd_psbt.rs;
--     SdPsbt/Volumes: what is assumed of the library. SdPsbt/Import: `read_short`, `read_named`;
--     Import/Exact: they end; Import/Whole: what they return. SdPsbt/Export: `write_signed`;
--     Export/Ending, Export/Fresh, Export/Cause: theorems. SdPsbt/LongName: src/sd_lfn.rs; LongName/Slots,
--     LongName/Assembled: theorems on complete runs of slots. SdPsbt/Listing: `list`;
--     Listing/Order, Listing/Picked: theorems.
--   SaveCoordinator: `AutoSaveEngine` and `publish_sram_transition`; SaveCoordinator/Protocol: the
--     worker loop of src/main.rs against core 0, one atomic access a step; SaveCoordinator/Poll.
--   Mbc: MBC1, MBC3 and MBC5 of src/gb_mbc.rs and cartridge-core/src/mbc3.rs; Mbc/Banks, Mbc/Edges.
--   Savefile: savefile.rs over its trait `SaveIo`; Savefile/Rtc: the tail; Savefile/Restore: power
--     losses.
--   Rtc: the running clock of cartridge-core/src/rtc.rs; Rtc/Clock: it counts seconds.
--   RtcChip: the driver of src/mcp795xx.rs; RtcChip/Kept, RtcChip/Stored: what it stores and reads.
--   RomHeader: src/rom_info.rs and its copy in cartridge-core/src/rom_info.rs; RomHeader/Copies:
--     the two compared.
--   Tests: concrete instances and runs.
--
-- Parameters: the crates bitcoin, secp256k1 and bip39 (`Bitcoin`), the word list, the QR encoder,
-- the storage behind `SaveIo`, the FAT library embedded-sdmmc behind `Volume`, the RTC behind
-- `RtcSaveStateProvider`, the SPI bus behind `Spi` and the crate chrono behind `Calendar`. Keys,
-- scripts, hashes and signatures are opaque numbers. What is asked of the parameters stands in `SigningLaws`,
-- `PublicDerivation`, `SaveIoLaws`, `VolumeLaws` and `ChipLaws`.
--
-- Numbers are unbounded; where the code wraps (the u32 epoch and generation) the wrap is written
-- out, and theorems that need it ask for fewer than 2^32 events. The two `while` loops of
-- src/sd_psbt.rs run on fuel, as much as the file or the PSBT has bytes: each turn that goes on
-- moves by a byte at least, and theorems show that the loops end. Every other loop is a recursion
-- on a list or on a counter. A panic is `none` or `panic` and is never a result.
--
-- Not modelled: the vendored libraries, the hardware drivers, the start-up code and the boot menu,
-- the Game Boy side, the checksum of the save worker (a value it is given), the protected EEPROM of the RTC
-- chip, the latched registers, the FAT adapter of the save files, the self-test `run` of the diagnostic build.
pub mod Prelude
pub mod SeedLink
pub mod Signer
pub mod Savefile
pub mod SdPsbt
pub mod Mbc
pub mod Rtc
pub mod RtcChip
pub mod CrystalSeed
pub mod SaveCoordinator
pub mod Tests
pub mod RomHeader
