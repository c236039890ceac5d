-- ===== src/CrystalSeed.antt =====
-- src/crystal_seed.rs on core 0: `Bus`, the mailbox at 0x7000 to 0x7002. A page is published into ROM
-- bank 0, which the game reads, by single volatile writes between two writes of the sequence byte.
use savepoint_signer.Prelude.{
  ℕ, zero, suc, ◌+◌, ◌*◌, ◌/◌, ◌%◌, Bool, true, false, Option, none, some, List, [], ◌∷◌, ◌++◌,
  ◌==◌, if◌then◌else◌, drop, set,
}
use savepoint_signer.SeedLink.{Link, submit, page, marker_offset}
pub mod Publication
pub mod Worker

pub record Bus : Type 0 where
  pub offset : Option ℕ
  pub command : ℕ
  pub seq : ℕ

-- What core 0 writes to: the adapter, the link that it shares with core 1, ROM bank 0.
pub record Mailbox : Type 0 where
  pub bus : Bus
  pub link : Link
  pub rom : List ℕ

unfoldable pub new_bus : List ℕ → Bus
new_bus rom = record { offset = marker_offset rom; command = 0; seq = 0 }

-- A volatile write: an index and a byte.
unfoldable pub store_all : List (ℕ × ℕ) → List ℕ → List ℕ
store_all [] rom = rom
store_all ((i, b) ∷ ws) rom = store_all ws (set rom i b)

-- The writes of bytes from index i on.
unfoldable pub writes_from : ℕ → List ℕ → List (ℕ × ℕ)
writes_from i [] = []
writes_from i (b ∷ bs) = (i, b) ∷ writes_from (i + 1) bs

-- `page[0] = seq; page[37] = seq`
abbrev pub stamp : List ℕ → ℕ → List ℕ
stamp p seq = set (set p 0 seq) 37 seq

-- `seq | 1` first, then bytes 1 to 37, then `seq`.
unfoldable pub publication : ℕ → ℕ → List ℕ → List (ℕ × ℕ)
publication off seq p =
    (off, seq / 2 * 2 + 1) ∷ (writes_from (off + 1) (drop 1 p) ++ (off, seq) ∷ [])

unfoldable pub read_page : ℕ → ℕ → Mailbox → Mailbox
read_page off d m =
    let seq = (m.bus.seq + 2) % 256 in
    record m {
      bus = record m.bus { seq = seq };
      rom = store_all (publication off seq (stamp (page m.link d) seq)) m.rom;
    }

unfoldable pub mailbox : ℕ → ℕ → ℕ → Mailbox → Mailbox × Bool
mailbox off addr d m =
    if addr == 0x7000
    then (record m { bus = record m.bus { command = d } }, true)
    else if addr == 0x7001
    then (record m { link = (submit m.link d m.bus.command).0 }, true)
    else if addr == 0x7002
    then (read_page off d m, true)
    else (m, false)

unfoldable pub bus_write : ℕ → ℕ → Mailbox → Mailbox × Bool
bus_write addr d m = elim m.bus.offset [ none ↦ (m, false) | some off ↦ mailbox off addr d m ]
