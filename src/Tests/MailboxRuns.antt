-- ===== src/Tests/MailboxRuns.antt =====
-- The mailbox's theorems on one page.
use savepoint_signer.Prelude.{
  if◌then◌else◌, ◌==◌, ◌+◌, ℕ, ◌%◌, ◌≡◌, ◌≢◌, refl, true, some, arith, length, get_elem?, take,
  zeros, length-zeros, ◌≤◌,
}
use savepoint_signer.SeedLink.{new, page}
use savepoint_signer.CrystalSeed.{Mailbox, bus_write, store_all, publication}
use savepoint_signer.CrystalSeed.Publication.{publication_odd, bus_write-page}

abbrev idle_mailbox : Mailbox
idle_mailbox = record {
  bus = record { offset = some 2; command = 3; seq = 254 };
  link = new;
  rom = zeros 64;
}

rom_fits : 2 + 38 ≤ length (zeros 64)
rom_fits = omega (arith, length-zeros 64)

publication_odd_example :
    (b : ℕ) × (get_elem? (store_all (take 20 (publication 2 4 (zeros 38))) (zeros 64)) 2 ≡ some b)
    × (b % 2 ≡ 1)
publication_odd_example =
    publication_odd 2 4 20 (zeros 38) (zeros 64) (length-zeros 38) rom_fits (omega arith)
      (omega arith)

bus_write-page_example :
    let r = bus_write 0x7002 7 idle_mailbox in
    let seq = r.0.bus.seq in
    (r.1 ≡ true)
    × (seq ≡ (if (idle_mailbox.bus.seq == 254) then 0 else idle_mailbox.bus.seq + 2))
    × (seq % 2 ≡ 0)
    × (seq ≢ 254)
    × (get_elem? r.0.rom 2 ≡ some seq)
    × (get_elem? r.0.rom (2 + 1 + 36) ≡ some seq)
    × (get_elem? r.0.rom (2 + 1 + 5) ≡ get_elem? (page new 7) 6)
    × (r.0.link ≡ new)
    × (r.0.bus.command ≡ 3)
bus_write-page_example =
    bus_write-page idle_mailbox 2 7 5 refl rom_fits (length-zeros 640) (omega arith) refl
      (omega arith)
