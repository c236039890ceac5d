-- ===== src/SaveCoordinator/Poll.antt =====
-- When the worker writes the card, and what it then calls durable.
use savepoint_signer.Prelude.{
  ℕ, ◌-◌, ◌≤◌, ◌<◌, ◌≡◌, ◌≢◌, ◌↔◌, refl, Bool, true, false, ◌&&◌, some, [], ◌∷◌, arith, ltb,
  if◌then◌else◌,
}
use savepoint_signer.SaveCoordinator.{
  persist, Engine, publish_sram_transition, ingest_dirty, decide, poll, begin_persist,
  should_skip_identical, on_success, on_failure,
}
use savepoint_signer.SaveCoordinator.Protocol.{
  Publisher, settled, to_bump, to_flag, Worker, to_swap, to_load, to_poll, to_check, storing,
  to_redirty, redirty, worker_redirty, System, Step, sram, bump, flag, swap, load, tick, check,
  stored, worker_swap, worker_load, worker_poll, worker_check, worker_stored, publish_start,
  publish_bump, publish_flag, step, run,
}

-- A poll asks for a write of generation k exactly when no write is in flight, SRAM is disabled, k is
-- the pending generation (after the news of this poll), newer than the one on the card, and the
-- quiet period has passed since the last activity, which a poll with news moves to now.
pub poll-persist :
    (e : Engine) (dirty : Bool) (generation : ℕ) (sram_disabled : Bool) (now k : ℕ)
    → let r = poll e dirty generation sram_disabled now in
      (r.1 ≡ persist k) ↔ (
        (e.in_flight ≡ false)
        × (sram_disabled ≡ true)
        × (k ≡ (
            if dirty && ltb e.pending_generation generation
            then generation
            else e.pending_generation))
        × (e.disk_generation < k)
        × (e.quiet ≤ now - (if dirty then now else e.last_activity)))
unfolding poll ingest_dirty decide
poll-persist e true generation sram_disabled now k = ground arith
poll-persist e false generation sram_disabled now k = ground arith

-- The three atomic writes of core 0, when nothing comes between them, are `publish_sram_transition`.
pub publish_steps :
    (s : System) (now : Bool)
    → s.publisher ≡ settled
    → run s (sram now ∷ bump ∷ flag ∷ [])
      ≡ record s { atomics = publish_sram_transition s.atomics.enabled now s.atomics }
unfolding run step publish_sram_transition
publish_steps s now h = ground arith

-- What makes a step move the durable generation.
abbrev pub MovesDisk : System → Step → Type 0
MovesDisk s (stored success) = (success ≡ true) × (s.atomics.enabled ≡ false)
MovesDisk s (check crc) = (s.engine.last_crc ≡ some crc) × (s.atomics.enabled ≡ false)
MovesDisk s x = ⊥

check-MovesDisk :
    (s : System) (w : Worker) (crc : ℕ)
    → (worker_check crc w s).engine.disk_generation ≢ s.engine.disk_generation
    → MovesDisk s (check crc)
unfolding should_skip_identical begin_persist on_success
check-MovesDisk s (to_check k) crc h = ground arith
check-MovesDisk s _ crc h = absurd (h refl)

stored-MovesDisk :
    (s : System) (w : Worker) (success : Bool)
    → (worker_stored success w s).engine.disk_generation ≢ s.engine.disk_generation
    → MovesDisk s (stored success)
unfolding on_success on_failure
stored-MovesDisk s (storing k crc) success h = ground arith
stored-MovesDisk s _ success h = absurd (h refl)

core0-engine :
    (s : System) (p : Publisher) (now : Bool)
    → ((publish_start now p s).engine ≡ s.engine)
      × ((publish_bump p s).engine ≡ s.engine)
      × ((publish_flag p s).engine ≡ s.engine)
core0-engine s settled now = (refl, refl, refl)
core0-engine s to_bump now = (refl, refl, refl)
core0-engine s to_flag now = (refl, refl, refl)

reading-disk :
    (s : System) (w : Worker) (now : ℕ)
    → ((worker_swap w s).engine ≡ s.engine)
      × ((worker_load w s).engine ≡ s.engine)
      × ((worker_poll now w s).engine.disk_generation ≡ s.engine.disk_generation)
      × ((worker_redirty w s).engine ≡ s.engine)
unfolding poll ingest_dirty
reading-disk s to_swap now = (refl, refl, refl, refl)
reading-disk s (to_load d) now = (refl, refl, refl, refl)
reading-disk s (to_poll true k) now = (refl, refl, refl, refl)
reading-disk s (to_poll false k) now = (refl, refl, refl, refl)
reading-disk s (to_check k) now = (refl, refl, refl, refl)
reading-disk s (storing k crc) now = (refl, refl, refl, refl)
reading-disk s to_redirty now = (refl, refl, refl, refl)

-- The durable generation moves only in two ways, both with SRAM disabled: a store that succeeded,
-- or a checksum equal to that of the last durable image.
pub durable_only_when_stored :
    (s : System) (x : Step)
    → (step s x).engine.disk_generation ≢ s.engine.disk_generation
    → MovesDisk s x
unfolding step
durable_only_when_stored s (check crc) h = check-MovesDisk s s.worker crc h
durable_only_when_stored s (stored success) h = stored-MovesDisk s s.worker success h
durable_only_when_stored s (tick now) h = absurd (h (reading-disk s s.worker now).2)
durable_only_when_stored s (sram now) h =
    let o = core0-engine s s.publisher now in absurd (ground arith)
durable_only_when_stored s bump h = let o = core0-engine s s.publisher true in absurd (ground arith)
durable_only_when_stored s flag h = let o = core0-engine s s.publisher true in absurd (ground arith)
durable_only_when_stored s swap h = let o = reading-disk s s.worker 0 in absurd (ground arith)
durable_only_when_stored s redirty h = let o = reading-disk s s.worker 0 in absurd (ground arith)
durable_only_when_stored s load h = let o = reading-disk s s.worker 0 in absurd (ground arith)
