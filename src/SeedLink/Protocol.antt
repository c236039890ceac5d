-- ===== src/SeedLink/Protocol.antt =====
-- Interleavings of the calls that the two cores make on `Link`: invariant, at most one execution
-- of a ticket, precedence of LOCK.
use savepoint_signer.Prelude.{
  ℕ, ◌+◌, ◌%◌, ◌^◌, ◌≤◌, ◌<◌, ◌≡◌, ◌≢◌, refl, sym, ap, ◌∙◌, Option, none, some, List, [], ◌∷◌,
  arith, length, take, drop, zeros, All, length-copy_at, length-take, min, length-zeros, copy_at,
  take_all, take-copy_at_head, slice-copy_at, if◌then◌else◌, is_some, ◌==◌,
}
use savepoint_signer.SeedLink.{
  Request, Link, new, lock_command, frame_bytes, submit, take_request, finish, published,
}

-- The link, and the request that the worker on core 1 has taken and not yet finished.
pub record System : Type 0 where
  pub link : Link
  pub held : Option Request

abbrev pub start : System
start = record { link = new; held = none }

-- A write of the game to 0x7001; the two ends of `Worker::poll`.
pub data Event : Type 0 where
  write : ℕ → ℕ → Event
  begin : Event
  end : List ℕ → List ℕ → Event

begin_poll : Option Request → System → System
begin_poll none s = let (l, r) = take_request s.link in record { link = l; held = r }
begin_poll (some r) s = s

end_poll : Option Request → System → List ℕ → List ℕ → System
end_poll none s report qr = s
end_poll (some r) s report qr = record { link = (finish s.link r report qr).0; held = none }

unfoldable pub handle : System → Event → System
unfolding begin_poll end_poll
handle s (write ticket command) = record s { link = (submit s.link ticket command).0 }
handle s begin = begin_poll s.held s
handle s (end report qr) = end_poll s.held s report qr

unfoldable pub run : System → List Event → System
run s [] = s
run s (e ∷ es) = run (handle s e) es

-- The reports of the terminal have 128 bytes.
abbrev pub FitsReport : Event → Type 0
FitsReport (end report qr) = length report ≡ 128
FitsReport (write t c) = Unit {0}
FitsReport begin = Unit {0}

abbrev pub QueuedIsActive : Option Request → Option Request → Type 0
QueuedIsActive none a = Unit {0}
QueuedIsActive (some r) a = a ≡ some r

abbrev pub ActiveIsCurrent : Option Request → ℕ → Type 0
ActiveIsCurrent none e = Unit {0}
ActiveIsCurrent (some r) e = (r.epoch ≡ e) × (r.ticket ≢ 0) × (r.command ≢ 0)

-- The request in hand is no later than the link's epoch, and older than a queued one.
abbrev pub HeldIsOlder : Option Request → Option Request → ℕ → Type 0
HeldIsOlder none queued e = Unit {0}
HeldIsOlder (some h) none e = h.epoch ≤ e
HeldIsOlder (some h) (some r) e = h.epoch < e

pub record IsValid (s : System) : Type 0 where
  pub frame_length : length s.link.frame ≡ 640
  pub queued_active : QueuedIsActive s.link.queued s.link.active
  pub active_current : ActiveIsCurrent s.link.active s.link.epoch
  pub held_older : HeldIsOlder s.held s.link.queued s.link.epoch

pub length-published :
    (report qr : List ℕ) → length report ≡ 128 → length (published report qr) ≡ 640
unfolding published
length-published report qr h = omega (
  arith,
  length-zeros 640,
  length-take (min (length qr) 512) qr,
  length-copy_at (zeros 640) 0 report (omega (arith, length-zeros 640)),
  length-copy_at (copy_at (zeros 640) 0 report) 128 (take (min (length qr) 512) qr) (
      omega (
        arith,
        length-zeros 640,
        length-take (min (length qr) 512) qr,
        length-copy_at (zeros 640) 0 report (omega (arith, length-zeros 640)),
      )),
)

handle-IsValid :
    (s : System) (e : Event)
    → FitsReport e
    → s.link.epoch + 1 < 2 ^ 32
    → IsValid s
    → IsValid (handle s e) × ((handle s e).link.epoch ≤ s.link.epoch + 1)
unfolding handle submit take_request finish
handle-IsValid s (write t c) f b v = ground (arith, length-zeros 640)
handle-IsValid s begin f b v = ground arith
handle-IsValid s (end report qr) f b v = ground (arith, length-published report qr)

-- While fewer than 2^32 calls are made, every interleaving of game and worker keeps the link
-- well formed: a 640-byte frame, the queued request also the active one, the active one of the
-- current epoch, and the request in hand older than a queued one.
pub run-IsValid :
    (s : System) (es : List Event)
    → All FitsReport es
    → s.link.epoch + length es < 2 ^ 32
    → IsValid s
    → IsValid (run s es)
unfolding run
run-IsValid s [] f b v = v
run-IsValid s (e ∷ es) f b v =
    let h = handle-IsValid s e f.0 (omega arith) v in
    run-IsValid (handle s e) es f.1 (omega arith) h.0

abbrev pub LockRequest : Option Request → Type 0
LockRequest none = ⊥
LockRequest (some r) = r.command ≡ lock_command

abbrev pub OtherTicket : Option Request → ℕ → Type 0
OtherTicket none ticket = Unit {0}
OtherTicket (some r) ticket = r.ticket ≢ ticket

-- The request in hand is of an earlier epoch than the active one.
abbrev pub HeldIsBefore : Option Request → Option Request → Type 0
HeldIsBefore none active = Unit {0}
HeldIsBefore (some h) none = ⊥
HeldIsBefore (some h) (some a) = h.epoch < a.epoch

abbrev pub IsWithin : Option Request → ℕ → Type 0
IsWithin none e = Unit {0}
IsWithin (some a) e = a.epoch ≤ e

-- A LOCK that is accepted and that the worker has not taken.
pub record IsLocking (s : System) : Type 0 where
  pub blank : s.link.frame ≡ zeros frame_bytes
  pub active_lock : LockRequest s.link.active
  pub held_before : HeldIsBefore s.held s.link.active
  pub within : IsWithin s.link.active s.link.epoch

abbrev pub IsNotBegin : Event → Type 0
IsNotBegin begin = ⊥
IsNotBegin (write t c) = Unit {0}
IsNotBegin (end report qr) = Unit {0}

handle-IsLocking :
    (s : System) (e : Event)
    → IsNotBegin e
    → s.link.epoch + 1 < 2 ^ 32
    → IsLocking s
    → IsLocking (handle s e) × ((handle s e).link.epoch ≤ s.link.epoch + 1)
unfolding handle submit finish
handle-IsLocking s (write t c) n b v = ground arith
handle-IsLocking s begin n b v = absurd n
handle-IsLocking s (end report qr) n b v = ground arith

run-IsLocking :
    (s : System) (es : List Event)
    → All IsNotBegin es
    → s.link.epoch + length es < 2 ^ 32
    → IsLocking s
    → IsLocking (run s es)
unfolding run
run-IsLocking s [] n b v = v
run-IsLocking s (e ∷ es) n b v =
    let h = handle-IsLocking s e n.0 (omega arith) v in
    run-IsLocking (handle s e) es n.1 (omega arith) h.0

write-IsLocking :
    (s : System) (ticket : ℕ)
    → IsValid s
    → ticket ≢ 0
    → s.link.epoch + 1 < 2 ^ 32
    → OtherTicket s.link.active ticket
    → IsLocking (handle s (write ticket lock_command))
      × ((handle s (write ticket lock_command)).link.epoch ≤ s.link.epoch + 1)
unfolding handle submit
write-IsLocking s ticket v nz b o = ground arith

-- In every state that the invariant allows, whatever the worker has in hand (another LOCK included),
-- LOCK under a ticket that is not 0 and not that of the active request supersedes it: until the
-- worker next takes a request, no sequence of writes and of late completions, of fewer events than
-- are left before the u32 epoch wraps, puts a byte of an old result in the frame.
pub lock_shields :
    (s : System) (ticket : ℕ) (es : List Event)
    → IsValid s
    → ticket ≢ 0
    → s.link.epoch + 1 + length es < 2 ^ 32
    → OtherTicket s.link.active ticket
    → All IsNotBegin es
    → (run (handle s (write ticket lock_command)) es).link.frame ≡ zeros frame_bytes
lock_shields s ticket es v nz b o n =
    let (w, le) = write-IsLocking s ticket v nz (omega arith) o in
    (run-IsLocking (handle s (write ticket lock_command)) es n (omega arith) w).blank

-- 1 where the event makes the worker start a request.
abbrev starts_one : Option Request → Option Request → ℕ
starts_one none (some r) = 1
starts_one none none = 0
starts_one (some h) q = 0

unfoldable pub starts_request : System → Event → ℕ
starts_request s begin = starts_one s.held s.link.queued
starts_request s (write t c) = 0
starts_request s (end report qr) = 0

-- How many requests the worker starts in a sequence of events.
unfoldable pub executions : System → List Event → ℕ
unfolding starts_request
executions s [] = 0
executions s (e ∷ es) = starts_request s e + executions (handle s e) es

-- The game sends (again) only this ticket, and not for LOCK.
abbrev pub IsResend : ℕ → Event → Type 0
IsResend ticket (write t c) = (t ≡ ticket) × (c ≢ lock_command)
IsResend ticket begin = Unit {0}
IsResend ticket (end report qr) = Unit {0}

-- The request in hand or queued is the active one; only one of the two is there.
abbrev InOnePlace : Option Request → Option Request → Request → Type 0
InOnePlace none none a = ⊥
InOnePlace none (some q) a = q ≡ a
InOnePlace (some h) none a = h ≡ a
InOnePlace (some h) (some q) a = ⊥

-- All the requests of the system are for one ticket.
abbrev IsResending : ℕ → Option Request → Option Request → Option Request → Type 0
IsResending ticket held queued none = (held ≡ none) × (queued ≡ none)
IsResending ticket held queued (some a) = (a.ticket ≡ ticket) × InOnePlace held queued a

-- How many executions are still possible.
abbrev budget : ℕ → Option Request → Option Request → ℕ → ℕ
budget ticket queued (some a) ack = if is_some queued then 1 else 0
budget ticket queued none ack = if ack == ticket then 0 else 1

abbrev system_budget : ℕ → System → ℕ
system_budget ticket s = budget ticket s.link.queued s.link.active s.link.ack

resend_step :
    (ticket : ℕ) (s : System) (e : Event)
    → IsResend ticket e
    → IsResending ticket s.held s.link.queued s.link.active
    → let s' = handle s e in
      IsResending ticket s'.held s'.link.queued s'.link.active
      × (starts_request s e + system_budget ticket s' ≤ system_budget ticket s)
unfolding handle submit take_request finish starts_request
resend_step ticket s (write t c) n v = ground arith
resend_step ticket s begin n v = ground arith
resend_step ticket s (end report qr) n v = ground arith

executions-le-budget :
    (ticket : ℕ) (s : System) (es : List Event)
    → All (IsResend ticket) es
    → IsResending ticket s.held s.link.queued s.link.active
    → executions s es ≤ system_budget ticket s
unfolding executions
executions-le-budget ticket s [] n v = omega arith
executions-le-budget ticket s (e ∷ es) n v =
    let (v', le) = resend_step ticket s e n.0 v in
    let rest = executions-le-budget ticket (handle s e) es n.1 v' in omega arith

idle_budget :
    (ticket : ℕ) (s : System)
    → s.link.active ≡ none
    → system_budget ticket s ≡ (if s.link.ack == ticket then 0 else 1)
idle_budget ticket s a = rw a

published_parts :
    (report qr : List ℕ)
    → length report ≡ 128
    → length qr ≤ 512
    → (take 128 (published report qr) ≡ report)
      × (take (length qr) (drop 128 (published report qr)) ≡ qr)
unfolding published
published_parts report qr r q =
    let first = copy_at (zeros 640) 0 report in
    let len : length first ≡ 640 = omega (
      arith,
      length-zeros 640,
      length-copy_at (zeros 640) 0 report (omega (arith, length-zeros 640)),
    ) in
    let m : min (length qr) 512 ≡ length qr = omega arith in
    rw (m, take_all qr (length qr) (omega arith))
      (
        take-copy_at_head first qr 128 (omega arith)
            ∙ ap (λ k. take k first) (sym r)
            ∙ slice-copy_at (zeros 640) report 0 (omega (arith, length-zeros 640)),
        slice-copy_at first qr 128 (omega arith),
      )

round_trip_link :
    (s : System) (ticket command : ℕ) (report qr : List ℕ)
    → s.held ≡ none
    → s.link.active ≡ none
    → ticket ≢ 0
    → command ≢ 0
    → s.link.ack ≢ ticket
    → (run s (write ticket command ∷ begin ∷ end report qr ∷ [])).link ≡ record {
      frame = published report qr;
      queued = none;
      active = none;
      epoch = (s.link.epoch + 1) % 2 ^ 32;
      ack = ticket;
    }
unfolding run handle submit take_request finish
round_trip_link s ticket command report qr h a t c k = ground arith

-- From a link with no request queued, active or in hand: if the game sends only one ticket, however
-- often, and never the command LOCK, then, whatever the worker does in between, the worker starts at
-- most one request; none, if the ticket is the acknowledged one.
pub executes_once :
    (ticket : ℕ) (s : System) (es : List Event)
    → s.held ≡ none
    → s.link.queued ≡ none
    → s.link.active ≡ none
    → All (IsResend ticket) es
    → executions s es ≤ (if s.link.ack == ticket then 0 else 1)
executes_once ticket s es h q a n =
    let v : IsResending ticket s.held s.link.queued s.link.active = rw a (h, q) in
    let b = executions-le-budget ticket s es n v in rw (sym (idle_budget ticket s a)) b

-- A fresh command on an idle link is delivered: after one poll of the worker the game finds the
-- ticket acknowledged, no request active, and in the frame the report and the QR bytes.
pub request_round_trip :
    (s : System) (ticket command : ℕ) (report qr : List ℕ)
    → s.held ≡ none
    → s.link.active ≡ none
    → ticket ≢ 0
    → command ≢ 0
    → s.link.ack ≢ ticket
    → length report ≡ 128
    → length qr ≤ 512
    → let l = (run s (write ticket command ∷ begin ∷ end report qr ∷ [])).link in
      (l.ack ≡ ticket)
      × (l.active ≡ none)
      × (l.queued ≡ none)
      × (take 128 l.frame ≡ report)
      × (take (length qr) (drop 128 l.frame) ≡ qr)
request_round_trip s ticket command report qr h a t c k r q =
    let l = round_trip_link s ticket command report qr h a t c k in
    let p = published_parts report qr r q in rw l (refl, refl, refl, p.0, p.1)
