-- ===== src/SeedLink.antt =====
-- cartridge-core/src/seed_link.rs: the mailbox between the game (core 0) and the signer (core 1).
pub mod Pages
pub mod Protocol
use savepoint_signer.Prelude.{
  ℕ, ◌+◌, ◌*◌, ◌%◌, ◌^◌, Bool, true, false, ◌&&◌, ◌||◌, not, Option, none, some, List, [], ◌∷◌,
  ◌++◌, min, ◌==◌, leb, if◌then◌else◌, is_some, length, take, drop, zeros, copy_at,
}

abbrev pub payload : ℕ
payload = 32

abbrev pub page_bytes : ℕ
page_bytes = 38

abbrev pub frame_bytes : ℕ
frame_bytes = 640

abbrev pub lock_command : ℕ
lock_command = 10

pub record Request : Type 0 where
  pub epoch : ℕ  -- u32
  pub ticket : ℕ  -- u8
  pub command : ℕ  -- u8

pub record Link : Type 0 where
  pub frame : List ℕ
  pub queued : Option Request
  pub active : Option Request
  pub epoch : ℕ
  pub ack : ℕ

abbrev pub new : Link
new = record { frame = zeros frame_bytes; queued = none; active = none; epoch = 0; ack = 0 }

-- derived `PartialEq`
abbrev pub request_eq : Request → Request → Bool
request_eq a b = a.epoch == b.epoch && a.ticket == b.ticket && a.command == b.command

abbrev pub has_ticket : Option Request → ℕ → Bool
has_ticket none ticket = false
has_ticket (some r) ticket = r.ticket == ticket

abbrev pub is_request : Option Request → Request → Bool
is_request none r = false
is_request (some a) r = request_eq a r

-- `submit` after its early returns: the request is accepted under the next epoch.
abbrev pub enqueue : Link → ℕ → ℕ → Link
enqueue l ticket command =
    let e = (l.epoch + 1) % 2 ^ 32 in
    let r : Request = record { epoch = e; ticket = ticket; command = command } in
    record {
      frame = if command == lock_command then zeros frame_bytes else l.frame;
      queued = some r;
      active = some r;
      epoch = e;
      ack = l.ack;
    }

unfoldable pub submit : Link → ℕ → ℕ → Link × Bool
submit l ticket command =
    if ticket == 0 || command == 0
    then (l, false)
    else if has_ticket l.active ticket || (l.ack == ticket && not (command == lock_command))
    then (l, true)
    else if is_some l.active && not (command == lock_command)
    then (l, false)
    else (enqueue l ticket command, true)

unfoldable pub take_request : Link → Link × Option Request
take_request l = (record l { queued = none }, l.queued)

-- The frame that `finish` publishes: the report, then at most 512 bytes of the QR buffer.
unfoldable pub published : List ℕ → List ℕ → List ℕ
published report qr =
    copy_at (copy_at (zeros frame_bytes) 0 report) 128 (take (min (length qr) 512) qr)

unfoldable pub finish : Link → Request → List ℕ → List ℕ → Link × Bool
finish l r report qr =
    if is_request l.active r
    then (record l { frame = published report qr; ack = r.ticket; active = none }, true)
    else (l, false)

-- The 38 bytes of a page: two sequence bytes that the bus fills in, acknowledged ticket, status,
-- index, 32 payload bytes, protocol version.
unfoldable pub page : Link → ℕ → List ℕ
page l index =
    let start = index * payload in
    let busy : ℕ = if is_some l.active then 1 else 0 in
    if leb (start + payload) frame_bytes
    then 0 ∷ l.ack ∷ busy ∷ index ∷ (take payload (drop start l.frame) ++ 1 ∷ 0 ∷ [])
    else 0 ∷ l.ack ∷ 2 ∷ index ∷ (zeros payload ++ 1 ∷ 0 ∷ [])

-- b"CSD2\x01"
abbrev pub marker : List ℕ
marker = 67 ∷ 83 ∷ 68 ∷ 50 ∷ 1 ∷ []

abbrev pub starts_with : List ℕ → List ℕ → Bool
starts_with bytes [] = true
starts_with [] (p ∷ ps) = false
starts_with (b ∷ bytes) (p ∷ ps) = b == p && starts_with bytes ps

-- `windows(MARKER.len() + PAGE_BYTES).position(..)`, with the index of the first byte in `i`
marker_search : ℕ → List ℕ → Option ℕ
marker_search i [] = none
marker_search i (b ∷ bytes) =
    let rest = marker_search (i + 1) bytes in
    if leb (length marker + page_bytes) (length (b ∷ bytes))
    then (if starts_with (b ∷ bytes) marker then some i else rest)
    else none

unfoldable pub marker_offset : List ℕ → Option ℕ
unfolding marker_search
marker_offset bank = elim (marker_search 0 bank) [ none ↦ none | some i ↦ some (i + length marker) ]
