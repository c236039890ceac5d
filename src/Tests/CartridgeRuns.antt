-- ===== src/Tests/CartridgeRuns.antt =====
-- The cartridge's theorems on short runs.
use savepoint_signer.Prelude.{
  ℕ, ◌+◌, ◌%◌, ◌/◌, ◌≤◌, ◌<◌, ◌≡◌, ◌≢◌, ◌↔◌, refl, true, false, none, some, List, [], ◌∷◌, arith,
  zeros,
}
use savepoint_signer.SaveCoordinator.{needs_save, on_success}
use savepoint_signer.SaveCoordinator.Protocol.{
  sessions, step, System, settled, to_swap, storing, sram, bump, flag, swap, load, tick, check,
  stored, step, run, IsValid, run-KeepsActivity, quiet_turn_saves,
}
use savepoint_signer.SaveCoordinator.Poll.{MovesDisk, durable_only_when_stored}
use savepoint_signer.Mbc.{
  Cartridge, new_mbc3, new_mbc1, new_mbc5, mbc3_step, fast_bank_select, mbc1_bank, rom_bank_size,
  ram_bank_size, sram_size,
}
use savepoint_signer.Mbc.Banks.{
  IsValid3, fast_bank_select-eq-step, mbc3_select-inside, IsValid1, IsValid5,
}
use savepoint_signer.Mbc.Edges.{mbc3_writes, count_ends, generation-eq-ends}
use savepoint_signer.Savefile.{expected_len, rtc_tail_len, pack_rtc, unpack_rtc}
use savepoint_signer.Savefile.Rtc.{unpack_rtc-pack_rtc}
use savepoint_signer.Tests.Card.{Card}

abbrev quiet_system : System
quiet_system = record {
  atomics = record { dirty = false; generation = 2; enabled = false };
  publisher = settled;
  engine = record {
    pending_generation = 2;
    disk_generation = 1;
    last_activity = 1000;
    last_crc = some 5;
    in_flight = false;
    quiet = 500;
  };
  worker = to_swap;
}

quiet_system-IsValid : IsValid quiet_system
quiet_system-IsValid = record {
  known = refl;
  pending_ok = omega arith;
  disk_ok = omega arith;
  read_ok = refl;
}

run-KeepsActivity_example :
    IsValid (run quiet_system (sram true ∷ sram false ∷ bump ∷ swap ∷ flag ∷ []))
unfolding sessions step
run-KeepsActivity_example =
    run-KeepsActivity quiet_system (sram true ∷ sram false ∷ bump ∷ swap ∷ flag ∷ []) (omega arith)
      quiet_system-IsValid

quiet_turn_saves_example :
    let t = run quiet_system (swap ∷ load ∷ tick 1500 ∷ check 6 ∷ stored true ∷ []) in
    (t.engine.disk_generation ≡ 2)
    × (t.atomics ≡ quiet_system.atomics)
    × (t.worker ≡ to_swap)
    × (needs_save t.engine ≡ false)
quiet_turn_saves_example =
    quiet_turn_saves quiet_system 1500 6 quiet_system-IsValid refl refl refl refl (omega arith)

abbrev storing_system : System
storing_system = record quiet_system {
  engine = record quiet_system.engine { in_flight = true };
  worker = storing 2 6;
}

moved :
    (step storing_system (stored true)).engine.disk_generation
    ≢ storing_system.engine.disk_generation
unfolding step on_success
moved = omega arith

durable_only_when_stored_example : MovesDisk storing_system (stored true)
durable_only_when_stored_example = durable_only_when_stored storing_system (stored true) moved

abbrev cartridge : Cartridge
cartridge = record {
  rom_pointer = rom_bank_size;
  ram_pointer = none;
  calls = [];
  atomics = record { dirty = false; generation = 0; enabled = false };
}

start3-IsValid : IsValid3 (new_mbc3, cartridge)
start3-IsValid = record {
  not_zero = omega arith;
  fits = omega arith;
  pending = refl;
  pointer = refl;
}

fast_bank_select-eq-step_example :
    fast_bank_select 5 (new_mbc3, cartridge) ≡ mbc3_step 0x2abc 5 (new_mbc3, cartridge)
fast_bank_select-eq-step_example =
    fast_bank_select-eq-step 0x2abc 5 (new_mbc3, cartridge) refl start3-IsValid

mbc3_select-inside_example :
    (p : ℕ) × ((mbc3_step 0x4000 6 (new_mbc3, cartridge)).1.ram_pointer ≡ some p)
    × ((p + ram_bank_size ≤ sram_size) ↔ (6 / 4 % 2 ≡ 0))
mbc3_select-inside_example = mbc3_select-inside 0x4000 6 (new_mbc3, cartridge) refl refl

start1-IsValid : IsValid1 (new_mbc1, cartridge)
unfolding mbc1_bank
start1-IsValid = record {
  low = (omega arith, omega arith);
  high = omega arith;
  bank = (omega arith, omega arith);
  current = refl;
  pointer = refl;
}

start5-IsValid : IsValid5 (new_mbc5, cartridge)
start5-IsValid = record {
  bank = omega arith;
  bank_new = refl;
  ram_bank = omega arith;
  ram_bank_new = refl;
  pointer = refl;
  inside = tt;
}

one_session : 0 + count_ends false ((0, 10) ∷ (0, 0) ∷ []) < 100
unfolding count_ends
one_session = omega arith

generation-eq-ends_example :
    ((mbc3_writes ((0, 10) ∷ (0, 0) ∷ []) (new_mbc3, cartridge)).1.atomics.generation
      ≡ 0 + count_ends false ((0, 10) ∷ (0, 0) ∷ []))
    × ((mbc3_writes ((0, 10) ∷ (0, 0) ∷ []) (new_mbc3, cartridge)).1.atomics.enabled
        ≡ (mbc3_writes ((0, 10) ∷ (0, 0) ∷ []) (new_mbc3, cartridge)).0.ram_enabled)
generation-eq-ends_example =
    generation-eq-ends ((0, 10) ∷ (0, 0) ∷ []) (new_mbc3, cartridge) refl
      (omega (arith, one_session))

abbrev five_bytes : List ℕ
five_bytes = 59 ∷ 58 ∷ 23 ∷ 255 ∷ 1 ∷ []

unpack_rtc-pack_rtc_example :
    unpack_rtc (pack_rtc five_bytes five_bytes 1700000000 (zeros rtc_tail_len))
    ≡ (five_bytes, five_bytes, 1700000000)
unpack_rtc-pack_rtc_example =
    unpack_rtc-pack_rtc five_bytes five_bytes 1700000000 refl refl
      (omega arith, (omega arith, (omega arith, (omega arith, (omega arith, tt)))))
      (omega arith, (omega arith, (omega arith, (omega arith, (omega arith, tt))))) (omega arith)

abbrev old_card : Card
old_card = record { sav = some (1 ∷ 2 ∷ []); tmp = none }

abbrev cut_card : Card
cut_card = record { sav = some []; tmp = some (3 ∷ 4 ∷ []) }

fits : expected_len 2 false ≤ 2
unfolding expected_len
fits = omega arith
