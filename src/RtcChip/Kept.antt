-- ===== src/RtcChip/Kept.antt =====
-- What `set_datetime` of src/mcp795xx.rs writes, `datetime` reads.
use savepoint_signer.Prelude.{
  ℕ, ◌+◌, ◌-◌, ◌%◌, ◌≤◌, ◌<◌, ◌≡◌, ◌⊎◌, refl, true, some, List, [], ◌∷◌, arith, ap, ◌∙◌, get_or,
  length,
}
use savepoint_signer.RtcChip.{
  Spi, Calendar, DateTime, done, read_instruction, write_instruction, bin2bcd, bcd2bin, decode,
}

bcd2bin-bin2bcd : (n : ℕ) → n < 100 → bcd2bin (bin2bcd n) ≡ n
unfolding bcd2bin bin2bcd
bcd2bin-bin2bcd n h = omega arith

-- How much of a register of the date and time comes back as it was written: its low bits, below this
-- power of two. The others are not there, are read-only (OSCRUN, LPYR) or are not asked of the chip.
abbrev pub stored_bits : ℕ → ℕ
stored_bits a = get_or (1 ∷ 256 ∷ 128 ∷ 64 ∷ 8 ∷ 64 ∷ 32 ∷ 256 ∷ []) a 1

-- The chip holds registers of a byte. A read gives those from its address on; a write stores the bits
-- above, and leaves those bits of the other registers. No second passes between the calls.
pub record ChipLaws (S : Spi) : Type 0 where
  pub registers : S.Bus → ℕ → ℕ
  pub is_byte : (b : S.Bus) (a : ℕ) → registers b a < 256
  pub read_keeps :
      (b : S.Bus) (bytes : List ℕ) (n a : ℕ)
      → registers (S.write_read b bytes n).0 a % stored_bits a ≡ registers b a % stored_bits a
  pub read_back :
      (b : S.Bus) (addr n i : ℕ) (bytes : List ℕ)
      → (S.write_read b (read_instruction ∷ addr ∷ []) n).1 ≡ some bytes
      → i < n
      → addr + i < 32
      → get_or bytes i 0 ≡ registers b (addr + i)
  pub written :
      (b : S.Bus) (addr : ℕ) (payload : List ℕ) (i : ℕ)
      → addr + length payload ≤ 32
      → (S.write b (write_instruction ∷ addr ∷ payload)).1 ≡ true
      → i < length payload
      → registers (S.write b (write_instruction ∷ addr ∷ payload)).0 (addr + i)
          % stored_bits (addr + i)
        ≡ get_or payload i 0 % stored_bits (addr + i)
  pub written_other :
      (b : S.Bus) (addr : ℕ) (payload : List ℕ) (a : ℕ)
      → addr + length payload ≤ 32
      → (S.write b (write_instruction ∷ addr ∷ payload)).1 ≡ true
      → (a < addr) ⊎ (addr + length payload ≤ a)
      → registers (S.write b (write_instruction ∷ addr ∷ payload)).0 a % stored_bits a
        ≡ registers b a % stored_bits a

-- A date and a time that the chip can hold.
pub record IsHeld (K : Calendar) (t : DateTime) : Type 0 where
  pub exists : K.make t ≡ some t
  pub month : t.month ≤ 12
  pub day : t.day ≤ 31
  pub hour : t.hour < 24
  pub minute : t.minute < 60
  pub second : t.second < 60

-- The registers hold the date and time, with any other bits.
pub record Holds (t : DateTime) (r : ℕ → ℕ) : Type 0 where
  pub second : r 1 % 128 ≡ bin2bcd t.second
  pub minute : r 2 % 128 ≡ bin2bcd t.minute
  pub hour : r 3 % 64 ≡ bin2bcd t.hour
  pub day : r 5 % 64 ≡ bin2bcd t.day
  pub month : r 6 % 32 ≡ bin2bcd t.month
  pub year : r 7 ≡ bin2bcd (t.year - 2000)

pub decode_stored :
    (S : Spi) (K : Calendar) (t : DateTime) (r : ℕ → ℕ) (bytes : List ℕ)
    → IsHeld K t
    → 2000 ≤ t.year
    → t.year ≤ 2099
    → Holds t r
    → ((i : ℕ) → i < 7 → get_or bytes i 0 ≡ r (1 + i))
    → decode S K bytes ≡ done t
unfolding decode
decode_stored S K t r bytes v low high e read =
    let second : bcd2bin (get_or bytes 0 0 % 128) ≡ t.second =
      ap (λ n. bcd2bin (n % 128)) (read 0 (omega arith))
      ∙ ap bcd2bin e.second
      ∙ bcd2bin-bin2bcd t.second (omega (arith, v.second)) in
    let minute : bcd2bin (get_or bytes 1 0 % 128) ≡ t.minute =
      ap (λ n. bcd2bin (n % 128)) (read 1 (omega arith))
      ∙ ap bcd2bin e.minute
      ∙ bcd2bin-bin2bcd t.minute (omega (arith, v.minute)) in
    let hour : bcd2bin (get_or bytes 2 0 % 64) ≡ t.hour =
      ap (λ n. bcd2bin (n % 64)) (read 2 (omega arith))
      ∙ ap bcd2bin e.hour
      ∙ bcd2bin-bin2bcd t.hour (omega (arith, v.hour)) in
    let day : bcd2bin (get_or bytes 4 0 % 64) ≡ t.day =
      ap (λ n. bcd2bin (n % 64)) (read 4 (omega arith))
      ∙ ap bcd2bin e.day
      ∙ bcd2bin-bin2bcd t.day (omega (arith, v.day)) in
    let month : bcd2bin (get_or bytes 5 0 % 32) ≡ t.month =
      ap (λ n. bcd2bin (n % 32)) (read 5 (omega arith))
      ∙ ap bcd2bin e.month
      ∙ bcd2bin-bin2bcd t.month (omega (arith, v.month)) in
    let since : bcd2bin (get_or bytes 6 0) ≡ t.year - 2000 =
      ap bcd2bin (read 6 (omega arith) ∙ e.year)
      ∙ bcd2bin-bin2bcd (t.year - 2000) (omega (arith, high)) in
    let year : bcd2bin (get_or bytes 6 0) + 2000 ≡ t.year = omega (arith, since, low) in
    rw (decode, year, month, day, hour, minute, second, v.exists) refl
