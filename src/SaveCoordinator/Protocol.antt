-- ===== src/SaveCoordinator/Protocol.antt =====
-- The two cores as steps: `publish_sram_transition` is three atomic writes of core 0, and one turn
-- of the worker loop of `src/main.rs` is the swap of the flag, the two loads, the poll, the second
-- look at SRAM_ENABLED and the end of the write.
use savepoint_signer.Prelude.{
  ℕ, ◌+◌, ◌%◌, ◌^◌, ◌≤◌, ◌<◌, ◌≡◌, refl, Bool, true, false, not, ◌&&◌, ◌||◌, List, [], ◌∷◌, arith,
  ◌==◌, if◌then◌else◌,
}
use savepoint_signer.SaveCoordinator.{
  Atomics, PersistDecision, persist, Engine, ingest_dirty, decide, poll, begin_persist,
  should_skip_identical, on_success, on_failure, needs_save,
}

-- Where core 0 stands in a publication: between the store of SRAM_ENABLED and the increment, or
-- between the increment and the flag.
pub data Publisher : Type 0 where
  settled to_bump to_flag : Publisher

-- Where the worker stands in its turn, with what it has read.
pub data Worker : Type 0 where
  to_swap : Worker
  to_load : Bool → Worker
  to_poll : Bool → ℕ → Worker
  to_check : ℕ → Worker
  storing : ℕ → ℕ → Worker
  to_redirty : Worker

pub record System : Type 0 where
  pub atomics : Atomics
  pub publisher : Publisher
  pub engine : Engine
  pub worker : Worker

-- The checksum of the SRAM at the second look, the time of a poll and the outcome of a store
-- come from outside.
pub data Step : Type 0 where
  sram : Bool → Step
  bump flag swap load : Step
  tick : ℕ → Step
  check : ℕ → Step
  stored : Bool → Step
  redirty : Step

-- Core 0 stores the new SRAM state; only an enabled-to-disabled edge goes on.
abbrev pub publish_start : Bool → Publisher → System → System
publish_start now settled s = record s {
  atomics = record s.atomics { enabled = now };
  publisher = if s.atomics.enabled && not now then to_bump else settled;
}
publish_start now p s = s

abbrev pub publish_bump : Publisher → System → System
publish_bump to_bump s = record s {
  atomics = record s.atomics { generation = (s.atomics.generation + 1) % 2 ^ 32 };
  publisher = to_flag;
}
publish_bump p s = s

abbrev pub publish_flag : Publisher → System → System
publish_flag to_flag s = record s {
  atomics = record s.atomics { dirty = true };
  publisher = settled;
}
publish_flag p s = s

abbrev pub worker_swap : Worker → System → System
worker_swap to_swap s = record s {
  atomics = record s.atomics { dirty = false };
  worker = to_load s.atomics.dirty;
}
worker_swap w s = s

abbrev pub worker_load : Worker → System → System
worker_load (to_load d) s = record s { worker = to_poll d s.atomics.generation }
worker_load w s = s

abbrev pub after_poll : PersistDecision → Worker
after_poll (persist generation) = to_check generation
after_poll d = to_swap

abbrev pub worker_poll : ℕ → Worker → System → System
worker_poll now (to_poll d generation) s =
    let r = poll s.engine d generation (not s.atomics.enabled) now in
    record s { engine = r.0; worker = after_poll r.1 }
worker_poll now w s = s

abbrev pub worker_check : ℕ → Worker → System → System
worker_check crc (to_check generation) s =
    if s.atomics.enabled
    then record s { worker = to_swap }
    else if should_skip_identical (begin_persist s.engine) crc
    then record s { engine = on_success generation crc (begin_persist s.engine); worker = to_swap }
    else record s { engine = begin_persist s.engine; worker = storing generation crc }
worker_check crc w s = s

abbrev pub worker_stored : Bool → Worker → System → System
worker_stored success (storing generation crc) s =
    if success && not s.atomics.enabled
    then record s { engine = on_success generation crc s.engine; worker = to_swap }
    else record s { engine = on_failure s.engine; worker = to_redirty }
worker_stored success w s = s

-- `SAVE_DIRTY.store(true)` after a failure.
abbrev pub worker_redirty : Worker → System → System
worker_redirty to_redirty s = record s {
  atomics = record s.atomics { dirty = true };
  worker = to_swap;
}
worker_redirty w s = s

unfoldable pub step : System → Step → System
step s (sram now) = publish_start now s.publisher s
step s bump = publish_bump s.publisher s
step s flag = publish_flag s.publisher s
step s swap = worker_swap s.worker s
step s load = worker_load s.worker s
step s (tick now) = worker_poll now s.worker s
step s (check crc) = worker_check crc s.worker s
step s (stored success) = worker_stored success s.worker s
step s redirty = worker_redirty s.worker s

unfoldable pub run : System → List Step → System
run s [] = s
run s (x ∷ xs) = run (step s x) xs

-- A read generation is one that was published.
abbrev pub ReadOk : Worker → Engine → ℕ → Type 0
ReadOk to_swap e g = e.in_flight ≡ false
ReadOk (to_load d) e g = e.in_flight ≡ false
ReadOk (to_poll d k) e g = (e.in_flight ≡ false) × (k ≤ g)
ReadOk (to_check k) e g = (e.in_flight ≡ false) × (k ≡ e.pending_generation)
ReadOk to_redirty e g = e.in_flight ≡ false
ReadOk (storing k crc) e g = (e.in_flight ≡ true) × (k ≡ e.pending_generation)

-- Someone still carries the news of the latest generation to the engine.
abbrev pub carries : Worker → ℕ → Bool
carries (to_load d) g = d
carries (to_poll d k) g = d && k == g
carries w g = false

abbrev pub is_flagging : Publisher → Bool
is_flagging to_flag = true
is_flagging p = false

abbrev pub Known : System → Type 0
Known s =
    (s.engine.pending_generation == s.atomics.generation
      || s.atomics.dirty
      || is_flagging s.publisher
      || carries s.worker s.atomics.generation)
    ≡ true

pub record IsValid (s : System) : Type 0 where
  pub known : Known s
  pub pending_ok : s.engine.pending_generation ≤ s.atomics.generation
  pub disk_ok : s.engine.disk_generation ≤ s.engine.pending_generation
  pub read_ok : ReadOk s.worker s.engine s.atomics.generation

poll-IsValid :
    (now : ℕ) (w : Worker) (s : System) → s.worker ≡ w → IsValid s → IsValid (worker_poll now w s)
unfolding poll ingest_dirty decide
poll-IsValid now (to_poll true k) s h v = ground arith
poll-IsValid now (to_poll false k) s h v = ground arith
poll-IsValid now _ s h v = v

check-IsValid :
    (crc : ℕ) (w : Worker) (s : System) → s.worker ≡ w → IsValid s → IsValid (worker_check crc w s)
unfolding begin_persist on_success should_skip_identical
check-IsValid crc (to_check k) s h v = ground arith
check-IsValid crc _ s h v = v

stored-IsValid :
    (success : Bool) (w : Worker) (s : System)
    → s.worker ≡ w
    → IsValid s
    → IsValid (worker_stored success w s)
unfolding on_success on_failure
stored-IsValid success (storing k crc) s h v = ground arith
stored-IsValid success _ s h v = v

redirty-IsValid :
    (w : Worker) (s : System) → s.worker ≡ w → IsValid s → IsValid (worker_redirty w s)
redirty-IsValid to_redirty s h v = ground arith
redirty-IsValid _ s h v = v

core0-IsValid :
    (now : Bool) (p : Publisher) (s : System)
    → s.publisher ≡ p
    → IsValid s
    → IsValid (publish_start now p s) × IsValid (publish_flag p s)
core0-IsValid now settled s h v = ground arith
core0-IsValid now to_bump s h v = ground arith
core0-IsValid now to_flag s h v = ground arith

-- 1 for the step that increments the generation.
abbrev pub publishes : Publisher → Step → ℕ
publishes to_bump bump = 1
publishes _ _ = 0

-- How many sessions the steps publish.
unfoldable pub sessions : System → List Step → ℕ
unfolding step
sessions s [] = 0
sessions s (x ∷ xs) = publishes s.publisher x + sessions (step s x) xs

bump-IsValid :
    (p : Publisher) (s : System)
    → s.publisher ≡ p
    → s.atomics.generation + publishes p bump < 2 ^ 32
    → IsValid s
    → IsValid (publish_bump p s)
bump-IsValid to_bump s h b v = ground arith
bump-IsValid _ s h b v = v

read-IsValid :
    (w : Worker) (s : System)
    → s.worker ≡ w
    → IsValid s
    → IsValid (worker_swap w s) × IsValid (worker_load w s)
read-IsValid to_swap s h v = ground arith
read-IsValid (to_load true) s h v = ground arith
read-IsValid (to_load false) s h v = ground arith
read-IsValid _ s h v = (v, v)

step-IsValid :
    (s : System) (x : Step)
    → s.atomics.generation + publishes s.publisher x < 2 ^ 32
    → IsValid s
    → IsValid (step s x)
unfolding step
step-IsValid s (sram now) b v = (core0-IsValid now s.publisher s refl v).0
step-IsValid s bump b v = bump-IsValid s.publisher s refl b v
step-IsValid s flag b v = (core0-IsValid true s.publisher s refl v).1
step-IsValid s swap b v = (read-IsValid s.worker s refl v).0
step-IsValid s load b v = (read-IsValid s.worker s refl v).1
step-IsValid s (tick now) b v = poll-IsValid now s.worker s refl v
step-IsValid s (check crc) b v = check-IsValid crc s.worker s refl v
step-IsValid s (stored success) b v = stored-IsValid success s.worker s refl v
step-IsValid s redirty b v = redirty-IsValid s.worker s refl v

core0-generation :
    (now : Bool) (p : Publisher) (s : System)
    → ((publish_start now p s).atomics.generation ≤ s.atomics.generation)
      × ((publish_bump p s).atomics.generation ≤ s.atomics.generation + publishes p bump)
      × ((publish_flag p s).atomics.generation ≤ s.atomics.generation)
core0-generation now settled s = ground arith
core0-generation now to_bump s = ground arith
core0-generation now to_flag s = ground arith

worker-generation :
    (w : Worker) (s : System) (now crc : ℕ) (success : Bool)
    → ((worker_swap w s).atomics.generation ≡ s.atomics.generation)
      × ((worker_load w s).atomics.generation ≡ s.atomics.generation)
      × ((worker_poll now w s).atomics.generation ≡ s.atomics.generation)
      × ((worker_check crc w s).atomics.generation ≡ s.atomics.generation)
      × ((worker_stored success w s).atomics.generation ≡ s.atomics.generation)
      × ((worker_redirty w s).atomics.generation ≡ s.atomics.generation)
worker-generation to_swap s now crc success = ground arith
worker-generation (to_load d) s now crc success = ground arith
worker-generation (to_poll d k) s now crc success = ground arith
worker-generation (to_check k) s now crc success = ground arith
worker-generation to_redirty s now crc success = ground arith
worker-generation (storing k last) s now crc success = ground arith

step-generation :
    (s : System) (x : Step)
    → (step s x).atomics.generation ≤ s.atomics.generation + publishes s.publisher x
unfolding step
step-generation s (sram now) = let g = core0-generation now s.publisher s in omega arith
step-generation s bump = (core0-generation true s.publisher s).1
step-generation s flag = let g = core0-generation true s.publisher s in omega arith
step-generation s swap = let g = worker-generation s.worker s 0 0 true in omega arith
step-generation s load = let g = worker-generation s.worker s 0 0 true in omega arith
step-generation s (tick now) = let g = worker-generation s.worker s now 0 true in omega arith
step-generation s (check crc) = let g = worker-generation s.worker s 0 crc true in omega arith
step-generation s (stored success) = let g = worker-generation s.worker s 0 0 success in omega arith
step-generation s redirty = let g = worker-generation s.worker s 0 0 true in omega arith

-- Whatever the two cores do in turn, as long as the generation at the start and the number of
-- sessions published together stay below 2^32, from a well-formed state on, the
-- news of the latest session is with the engine or on its way there, no generation is called
-- durable that the engine has not seen, and a write is in flight exactly while one is being stored.
pub run-KeepsActivity :
    (s : System) (xs : List Step)
    → s.atomics.generation + sessions s xs < 2 ^ 32
    → IsValid s
    → IsValid (run s xs)
unfolding run sessions
run-KeepsActivity s [] b v = v
run-KeepsActivity s (x ∷ xs) b v =
    let g = step-generation s x in
    run-KeepsActivity (step s x) xs (omega arith) (step-IsValid s x (omega arith) v)

-- When both cores are between turns and the flag is clear, the engine knows the latest
-- session. If then SRAM is disabled and the quiet period is over, one turn of the worker with a
-- store that succeeds leaves that session durable and nothing to save.
pub quiet_turn_saves :
    (s : System) (now crc : ℕ)
    → IsValid s
    → s.worker ≡ to_swap
    → s.publisher ≡ settled
    → s.atomics.dirty ≡ false
    → s.atomics.enabled ≡ false
    → s.engine.last_activity + s.engine.quiet ≤ now
    → let t = run s (swap ∷ load ∷ tick now ∷ check crc ∷ stored true ∷ []) in
      (t.engine.disk_generation ≡ s.atomics.generation)
      × (t.atomics ≡ s.atomics)
      × (t.worker ≡ to_swap)
      × (needs_save t.engine ≡ false)
unfolding run step poll decide begin_persist should_skip_identical on_success needs_save
    ingest_dirty
quiet_turn_saves s now crc v w p d e q = ground arith
