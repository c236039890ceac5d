-- ===== src/RtcChip/Stored.antt =====
-- The date that `set_datetime` of src/mcp795xx.rs has stored is the one that `datetime` reads.
use mathlib.Core.Path.{subst}
use savepoint_signer.Prelude.{
  ℕ, ◌+◌, ◌-◌, ◌*◌, ◌/◌, ◌%◌, ◌≤◌, ◌<◌, ◌≡◌, refl, ap, sym, ◌∙◌, List, [], ◌∷◌, arith, length,
  get_or, ltb, ◌||◌, Bool-cases, Option-cases, ◌⊎◌, inl, inr,
}
use savepoint_signer.RtcChip.{
  Spi, Calendar, DateTime, Outcome, Outcome-cases, done, failed, spi, read_instruction,
  write_instruction, rtcsec, rtcmth, bin2bcd, ◌>>=◌, Driver, read_registers, read_register,
  write_registers, write_register, enable_oscillator, disable_oscillator, datetime, time_bytes,
  date_bytes, seems_running, if_running, store_datetime, set_datetime,
}
use savepoint_signer.RtcChip.Kept.{ChipLaws, stored_bits, Holds, IsHeld, decode_stored}

module _ (S : Spi) (L : ChipLaws S) where
  >>=-done :
      {A B : Type 0} (m : Driver S A) (f : A → Driver S B) (b b' : S.Bus) (x : B)
      → ◌>>=◌ S m f b ≡ (b', done x)
      → (a : A) × (m b ≡ ((m b).0, done a)) × (f a (m b).0 ≡ (b', done x))
  >>=-done m f b b' x h = elim (Outcome-cases (m b).1) [
    | inl (a, e) ↦ (a, ap (λ r. ((m b).0, r)) e, cc (h, e))
    | inr (w, e) ↦ absurd (cc (h, e))
  ]

  -- The registers of the date and time as far as the chip keeps them.
  abbrev Same : S.Bus → S.Bus → Type 0
  Same b b' = (a : ℕ) → L.registers b' a % stored_bits a ≡ L.registers b a % stored_bits a

  write_registers-done :
      (b b' : S.Bus) (addr : ℕ) (payload : List ℕ) (u : Unit {0})
      → addr + length payload ≤ 32
      → write_registers S addr payload b ≡ (b', done u)
      → ((i : ℕ)
          → i < length payload
          → L.registers b' (addr + i) % stored_bits (addr + i)
            ≡ get_or payload i 0 % stored_bits (addr + i))
        × ((a : ℕ)
            → (a < addr) ⊎ (addr + length payload ≤ a)
            → L.registers b' a % stored_bits a ≡ L.registers b a % stored_bits a)
  unfolding write_registers
  write_registers-done b b' addr payload u le h =
      elim (Bool-cases (S.write b (write_instruction ∷ addr ∷ payload)).1) [
        | inr e ↦ absurd (cc (h, e))
        | inl e ↦
            let k : b' ≡ (S.write b (write_instruction ∷ addr ∷ payload)).0 = cc h in
            rw k (
              λ i lt. L.written b addr payload i le e lt,
              λ a out. L.written_other b addr payload a le e out,
            )
      ]

  read_registers-done :
      (b b' : S.Bus) (addr n : ℕ) (bytes : List ℕ)
      → read_registers S addr n b ≡ (b', done bytes)
      → ((i : ℕ) → i < n → addr + i < 32 → get_or bytes i 0 ≡ L.registers b (addr + i)) × Same b b'
  unfolding read_registers
  read_registers-done b b' addr n bytes h =
      elim (Option-cases (S.write_read b (read_instruction ∷ addr ∷ []) n).1) [
        | inl e ↦ absurd (cc (h, e))
        | inr (xs, e) ↦
            let k : b' ≡ (S.write_read b (read_instruction ∷ addr ∷ []) n).0 = cc h in
            let same : bytes ≡ xs = cc (h, e) in
            rw (k, same)
              (
                λ i lt in_chip. L.read_back b addr n i xs e lt in_chip,
                λ a. L.read_keeps b (read_instruction ∷ addr ∷ []) n a,
              )
      ]

  -- Registers that agree, but for the start bit in the first.
  kept-Holds :
      (t : DateTime) (b b' : S.Bus)
      → L.registers b' 1 % 128 ≡ L.registers b 1 % 128
      → ((a : ℕ) → 1 < a → L.registers b' a % stored_bits a ≡ L.registers b a % stored_bits a)
      → Holds t (L.registers b)
      → Holds t (L.registers b')
  kept-Holds t b b' first others v = record {
    second = first ∙ v.second;
    minute = others 2 (omega arith) ∙ v.minute;
    hour = others 3 (omega arith) ∙ v.hour;
    day = others 5 (omega arith) ∙ v.day;
    month = others 6 (omega arith) ∙ v.month;
    year =
        let e : L.registers b' 7 % 256 ≡ L.registers b 7 % 256 = others 7 (omega arith) in
        omega (arith, e, L.is_byte b 7, L.is_byte b' 7, v.year);
  }

  enable-Holds :
      (t : DateTime) (b b' : S.Bus) (u : Unit {0})
      → Holds t (L.registers b)
      → enable_oscillator S b ≡ (b', done u)
      → Holds t (L.registers b')
  unfolding enable_oscillator read_register
  enable-Holds t b b' u v h =
      let get : List ℕ → S.Bus → S.Bus × Outcome ℕ = λ bytes b1. (b1, done (get_or bytes 0 0)) in
      let put = λ (sec : ℕ). write_register S rtcsec (sec % 128 + 128) in
      let (sec, e1, h1) = >>=-done (read_register S rtcsec) put b b' u h in
      let b1 = (read_register S rtcsec b).0 in
      let (bytes, e2, h2) = >>=-done (read_registers S rtcsec 1) get b b1 sec e1 in
      let (read, kept) = read_registers-done b (read_registers S rtcsec 1 b).0 rtcsec 1 bytes e2 in
      let value : get_or bytes 0 0 ≡ sec = cc h2 in
      let same : (read_registers S rtcsec 1 b).0 ≡ b1 = ap (λ r. r.0) h2 in
      let kept' : Same b b1 = subst (Same b) same kept in
      let seen : sec ≡ L.registers b 1 = sym value ∙ read 0 (omega arith) (omega arith) in
      let (stored, others) =
        write_registers-done b1 b' rtcsec ((sec % 128 + 128) ∷ []) u (omega arith) h1 in
      let now : L.registers b' 1 % 256 ≡ (sec % 128 + 128) % 256 = stored 0 (omega arith) in
      let first : L.registers b' 1 % 128 ≡ L.registers b 1 % 128 = omega (arith, now, seen) in
      kept-Holds t b b' first (λ a lt. others a (inr (omega arith)) ∙ kept' a) v

  module _ (K : Calendar) where
    -- What the two writes leave.
    written-Holds :
        (t : DateTime) (old : List ℕ) (b1 b2 b3 : S.Bus) (u v : Unit {0})
        → IsHeld K t
        → t.year ≤ 2099
        → write_registers S rtcsec (time_bytes S K old t) b1 ≡ (b2, done u)
        → write_registers S rtcmth (date_bytes S K t) b2 ≡ (b3, done v)
        → Holds t (L.registers b3)
    unfolding time_bytes date_bytes bin2bcd
    written-Holds t old b1 b2 b3 u v held high e2 e3 =
        let (time, o2) =
          write_registers-done b1 b2 rtcsec (time_bytes S K old t) u (omega arith) e2 in
        let (date, o3) = write_registers-done b2 b3 rtcmth (date_bytes S K t) v (omega arith) e3 in
        let r1 : L.registers b3 1 % 256 ≡ bin2bcd t.second % 256 =
          o3 1 (inl (omega arith)) ∙ time 0 (omega arith) in
        let r2 : L.registers b3 2 % 128
            ≡ (get_or old 1 0 / 128 % 2 * 128 + bin2bcd t.minute) % 128 =
          o3 2 (inl (omega arith)) ∙ time 1 (omega arith) in
        let r3 : L.registers b3 3 % 64 ≡ bin2bcd t.hour % 64 =
          o3 3 (inl (omega arith)) ∙ time 2 (omega arith) in
        let r5 : L.registers b3 5 % 64 ≡ bin2bcd t.day % 64 =
          o3 5 (inl (omega arith)) ∙ time 4 (omega arith) in
        let r6 : L.registers b3 6 % 32 ≡ bin2bcd t.month % 32 = date 0 (omega arith) in
        let r7 : L.registers b3 7 % 256 ≡ bin2bcd (t.year - 2000) % 256 = date 1 (omega arith) in
        record {
          second = omega (arith, r1, held.second);
          minute = omega (arith, r2, held.minute);
          hour = omega (arith, r3, held.hour);
          day = omega (arith, r5, held.day);
          month = omega (arith, r6, held.month);
          year = omega (arith, r7, high, L.is_byte b3 7);
        }

    store_datetime-Holds :
        (t : DateTime) (old : List ℕ) (b b' : S.Bus) (u : Unit {0})
        → IsHeld K t
        → t.year ≤ 2099
        → store_datetime S K t old b ≡ (b', done u)
        → Holds t (L.registers b')
    unfolding store_datetime
    store_datetime-Holds t old b b' u held high h =
        let running = seems_running S K old in
        let time = time_bytes S K old t in
        let date = date_bytes S K t in
        let last = λ (x : Unit {0}). if_running S K running (enable_oscillator S) in
        let rest = λ (x : Unit {0}). ◌>>=◌ S (write_registers S rtcmth date) last in
        let all = λ (x : Unit {0}). ◌>>=◌ S (write_registers S rtcsec time) rest in
        let (u1, e1, h1) = >>=-done (if_running S K running (disable_oscillator S)) all b b' u h in
        let b1 = (if_running S K running (disable_oscillator S) b).0 in
        let (u2, e2, h2) = >>=-done (write_registers S rtcsec time) rest b1 b' u h1 in
        let b2 = (write_registers S rtcsec time b1).0 in
        let (u3, e3, h3) = >>=-done (write_registers S rtcmth date) last b2 b' u h2 in
        let b3 = (write_registers S rtcmth date b2).0 in
        let v = written-Holds t old b1 b2 b3 u2 u3 held high e2 e3 in
        elim (Bool-cases running) [
          | inr off ↦ let k : b3 ≡ b' = cc (h3, off) in subst (λ x. Holds t (L.registers x)) k v
          | inl on ↦
              let k : enable_oscillator S b3 ≡ (b', done u) = cc (h3, on) in
              enable-Holds t b3 b' u v k
        ]

    -- On a chip that keeps the bits of its date and time, whatever it shows in its other bits, a date and
    -- time that it can hold and that set_datetime has stored without an error is the one that datetime
    -- returns then, or the read fails on the bus; no other date is returned and the calendar does not
    -- refuse it.
    pub set_datetime-datetime :
        (t : DateTime) (b b' : S.Bus) (u : Unit {0})
        → IsHeld K t
        → set_datetime S K t b ≡ (b', done u)
        → ((datetime S K b').1 ≡ done t) ⊎ ((datetime S K b').1 ≡ failed spi)
    unfolding set_datetime datetime read_registers bin2bcd
    set_datetime-datetime t b b' u held h = elim (Bool-cases (ltb t.year 2000 || ltb 2099 t.year)) [
      | inl e ↦ absurd (cc (h, e))
      | inr e ↦ elim (Option-cases (S.write_read b' (read_instruction ∷ rtcsec ∷ []) 7).1) [
        | inl none_read ↦ inr (rw (none_read) refl)
        | inr (bytes, read) ↦
            let go : ◌>>=◌ S (read_registers S rtcsec 7) (store_datetime S K t) b ≡ (b', done u) =
              cc (h, e) in
            let (old, e1, h1) =
              >>=-done (read_registers S rtcsec 7) (store_datetime S K t) b b' u go in
            let low : 2000 ≤ t.year = ground (arith, e) in
            let high : t.year ≤ 2099 = ground (arith, e) in
            let v = store_datetime-Holds t old (read_registers S rtcsec 7 b).0 b' u held high h1 in
            let seen =
              λ (i : ℕ) (lt : i < 7). L.read_back b' rtcsec 7 i bytes read lt (omega arith) in
            inl (rw read (decode_stored S K t (L.registers b') bytes held low high v seen))
      ]
    ]
