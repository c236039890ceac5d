-- ===== src/Tests/LinkRuns.antt =====
-- The link's theorems on short runs.
use savepoint_signer.Prelude.{
  ℕ, ◌≤◌, ◌≡◌, refl, none, some, List, [], ◌∷◌, arith, zeros, length-zeros,
}
use savepoint_signer.SeedLink.{new, frame_bytes, lock_command}
use savepoint_signer.SeedLink.Pages.{reassemble, reassemble-eq-frame}
use savepoint_signer.SeedLink.Protocol.{
  System, Event, start, write, begin, end, handle, run, executions, IsValid, IsResend, run-IsValid,
  lock_shields, executes_once,
}

abbrev report : List ℕ
report = zeros 128

abbrev one_poll : List Event
one_poll = write 5 3 ∷ begin ∷ end report [] ∷ []

start-IsValid : IsValid start
start-IsValid = record {
  frame_length = length-zeros 640;
  queued_active = tt;
  active_current = tt;
  held_older = tt;
}

run-IsValid_example : IsValid (run start one_poll)
run-IsValid_example =
    run-IsValid start one_poll (tt, (tt, (length-zeros 128, tt))) (omega arith) start-IsValid

abbrev busy_with_lock : System
busy_with_lock = record {
  link = record {
    frame = zeros 640;
    queued = none;
    active = some (record { epoch = 1; ticket = 4; command = lock_command });
    epoch = 1;
    ack = 3;
  };
  held = some (record { epoch = 1; ticket = 4; command = lock_command });
}

busy_with_lock-IsValid : IsValid busy_with_lock
busy_with_lock-IsValid = record {
  frame_length = length-zeros 640;
  queued_active = tt;
  active_current = (refl, omega arith, omega arith);
  held_older = omega arith;
}

lock_shields_example :
    (run
      (handle busy_with_lock (write 5 lock_command))
      (end (zeros 128) (7 ∷ []) ∷ write 6 3 ∷ [])).link.frame
    ≡ zeros frame_bytes
lock_shields_example =
    lock_shields busy_with_lock 5 (end (zeros 128) (7 ∷ []) ∷ write 6 3 ∷ []) busy_with_lock-IsValid
      (omega arith) (omega arith) (omega arith) (tt, (tt, tt))

resend : IsResend 5 (write 5 3)
resend = (refl, omega arith)

executes_once_example : executions start (write 5 3 ∷ begin ∷ write 5 3 ∷ begin ∷ []) ≤ 1
executes_once_example =
    executes_once 5 start (write 5 3 ∷ begin ∷ write 5 3 ∷ begin ∷ []) refl refl refl
      (resend, (tt, (resend, (tt, tt))))

reassemble-eq-frame_example : reassemble new 0 20 ≡ new.frame
reassemble-eq-frame_example = reassemble-eq-frame new (length-zeros 640)
