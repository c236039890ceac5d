-- ===== src/SaveCoordinator.antt =====
-- Automatic saving: `cartridge-core/src/save_coordinator.rs` and the worker loop of `src/main.rs`
-- that drives it. The MBC handler on core 0 and the worker on core 1 share three atomics; each
-- atomic access of theirs is one step here, so that any interleaving is a list of steps.
use savepoint_signer.Prelude.{
  ℕ, ◌+◌, ◌-◌, ◌%◌, ◌^◌, Bool, true, false, not, ◌&&◌, Option, none, some, List, [], ◌∷◌, arith,
  ltb, leb, ◌==◌, if◌then◌else◌,
}
pub mod Protocol
pub mod Poll

-- `SAVE_DIRTY`, `SAVE_GENERATION` (u32), `SRAM_ENABLED`
pub record Atomics : Type 0 where
  pub dirty : Bool
  pub generation : ℕ
  pub enabled : Bool

abbrev pub quiet_period : ℕ
quiet_period = 500

unfoldable pub publish_sram_transition : Bool → Bool → Atomics → Atomics
publish_sram_transition was_enabled now_enabled a =
    let b = record a { enabled = now_enabled } in
    if was_enabled && not now_enabled
    then record b { generation = (b.generation + 1) % 2 ^ 32; dirty = true }
    else b

pub data PersistDecision : Type 0 where
  idle wait_for_disable wait_for_quiet : PersistDecision
  persist : ℕ → PersistDecision

pub record Engine : Type 0 where
  pub pending_generation : ℕ
  pub disk_generation : ℕ
  pub last_activity : ℕ
  pub last_crc : Option ℕ
  pub in_flight : Bool
  pub quiet : ℕ

abbrev pub new_engine : ℕ → Engine
new_engine quiet_ms = record {
  pending_generation = 0;
  disk_generation = 0;
  last_activity = 0;
  last_crc = none;
  in_flight = false;
  quiet = quiet_ms;
}

unfoldable pub ingest_dirty : ℕ → ℕ → Engine → Engine
ingest_dirty generation now e = record e {
  pending_generation =
      if ltb e.pending_generation generation then generation else e.pending_generation;
  last_activity = now;
}

-- `now - last_activity` stops at 0, as `saturating_sub` does.
unfoldable pub decide : Engine → Bool → ℕ → PersistDecision
decide e sram_disabled now =
    if e.in_flight
    then idle
    else if leb e.pending_generation e.disk_generation
    then idle
    else if not sram_disabled
    then wait_for_disable
    else if ltb (now - e.last_activity) e.quiet
    then wait_for_quiet
    else persist e.pending_generation

unfoldable pub poll : Engine → Bool → ℕ → Bool → ℕ → Engine × PersistDecision
poll e dirty generation sram_disabled now =
    let e₁ = if dirty then ingest_dirty generation now e else e in (e₁, decide e₁ sram_disabled now)

unfoldable pub begin_persist : Engine → Engine
begin_persist e = record e { in_flight = true }

abbrev pub is_crc : Option ℕ → ℕ → Bool
is_crc none crc = false
is_crc (some last) crc = last == crc

unfoldable pub should_skip_identical : Engine → ℕ → Bool
should_skip_identical e crc = is_crc e.last_crc crc

unfoldable pub on_success : ℕ → ℕ → Engine → Engine
on_success generation crc e = record e {
  disk_generation = if ltb e.disk_generation generation then generation else e.disk_generation;
  last_crc = some crc;
  in_flight = false;
}

unfoldable pub on_failure : Engine → Engine
on_failure e = record e { in_flight = false }

unfoldable pub on_restored : ℕ → Engine → Engine
on_restored crc e = record e { last_crc = some crc; disk_generation = e.pending_generation }

unfoldable pub needs_save : Engine → Bool
needs_save e = ltb e.disk_generation e.pending_generation
