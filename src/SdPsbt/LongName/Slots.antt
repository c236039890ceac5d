-- ===== src/SdPsbt/LongName/Slots.antt =====
-- The slots of src/sd_lfn.rs put the pieces of a name in their places.
use savepoint_signer.Prelude.{
  ℕ, zero, suc, ◌+◌, ◌-◌, ◌*◌, ◌/◌, ◌%◌, ◌≤◌, ◌<◌, ◌≡◌, refl, ap, sym, ◌∙◌, Bool, true, false, List,
  [], ◌∷◌, ◌++◌, map, arith, ◌==◌, length, take-append-drop, length-set, set, take, drop, replicate,
  copy_at, drop-copy_at, length-copy_at, length-replicate,
}
use savepoint_signer.SdPsbt.LongName.{
  LongName, offsets, byte, is_malformed, put_units, begin, accept, slot,
}

-- Two bytes, the low one first.
abbrev pub unit : List ℕ → ℕ → ℕ
unit raw o = byte raw o + 256 * byte raw (o + 1)

-- The 13 units of a slot as FAT lays them out: 5 from byte 1 on, 6 from byte 14 on, 2 from byte 28 on.
abbrev pub units_of : List ℕ → List ℕ
units_of raw =
    unit raw 1
    ∷ unit raw 3
    ∷ unit raw 5
    ∷ unit raw 7
    ∷ unit raw 9
    ∷ unit raw 14
    ∷ unit raw 16
    ∷ unit raw 18
    ∷ unit raw 20
    ∷ unit raw 22
    ∷ unit raw 24
    ∷ unit raw 28
    ∷ unit raw 30
    ∷ []

-- A slot of a long name as FAT lays it out: attributes 0x0f, a type and a cluster of 0, and an order
-- of a number from 1 to 20 with no flag but bit 6.
pub record IsLongSlot (raw : List ℕ) : Type 0 where
  pub attributes : byte raw 11 ≡ 0x0f
  pub kind : byte raw 12 ≡ 0
  pub cluster : (byte raw 26 ≡ 0) × (byte raw 27 ≡ 0)
  pub no_bit7 : byte raw 0 / 128 % 2 ≡ 0
  pub no_bit5 : byte raw 0 / 32 % 2 ≡ 0
  pub numbered : (1 ≤ byte raw 0 % 32) × (byte raw 0 % 32 ≤ 20)

IsLongSlot-formed : (raw : List ℕ) → IsLongSlot raw → is_malformed raw ≡ false
unfolding is_malformed
IsLongSlot-formed raw v =
    ground (arith, v.attributes, v.kind, v.cluster, v.no_bit7, v.no_bit5, v.numbered)

pub formed-IsLongSlot : (raw : List ℕ) → is_malformed raw ≡ false → IsLongSlot raw
unfolding is_malformed
formed-IsLongSlot raw h = record {
  attributes = ground arith;
  kind = ground arith;
  cluster = ground arith;
  no_bit7 = ground arith;
  no_bit5 = ground arith;
  numbered = ground arith;
}

copy_at_cons :
    (units : List ℕ) (i v : ℕ) (xs : List ℕ)
    → i < length units
    → copy_at (set units i v) (i + 1) xs ≡ copy_at units i (v ∷ xs)
unfolding copy_at
copy_at_cons [] i v xs h = absurd (omega arith)
copy_at_cons (u ∷ us) zero v xs h =
    let e : 0 + 1 + length xs ≡ suc (length xs) = omega arith in
    let e' : 0 + suc (length xs) ≡ suc (length xs) = omega arith in rw (e, e') refl
copy_at_cons (u ∷ us) (suc i) v xs h =
    let e : suc i + 1 + length xs ≡ suc (i + 1 + length xs) = omega arith in
    let e' : suc i + suc (length xs) ≡ suc (i + suc (length xs)) = omega arith in
    let e'' : suc i + 1 ≡ suc (i + 1) = omega arith in
    rw (e, e', e'') (ap (λ l. u ∷ l) (copy_at_cons us i v xs (omega arith)))

copy_at_nil : (units : List ℕ) (i : ℕ) → copy_at units i [] ≡ units
unfolding copy_at
copy_at_nil units i = let e : i + 0 ≡ i = omega arith in rw e (take-append-drop i units)

put_units-eq-copy :
    (raw os : List ℕ) (i : ℕ) (units : List ℕ)
    → i + length os ≤ length units
    → put_units raw os i units ≡ copy_at units i (map (λ o. byte raw o + 256 * byte raw (o + 1)) os)
unfolding put_units
put_units-eq-copy raw [] i units h = sym (copy_at_nil units i)
put_units-eq-copy raw (o ∷ os) i units h =
    let v = byte raw o + 256 * byte raw (o + 1) in
    put_units-eq-copy raw os (i + 1) (set units i v) (omega (arith, length-set units i v))
    ∙ copy_at_cons units i v (map (λ o. byte raw o + 256 * byte raw (o + 1)) os) (omega arith)

-- A slot of the name with checksum `chk`: its number, and whether it is the first that is stored.
pub record IsSlot (raw : List ℕ) (index : ℕ) (first : Bool) (chk : ℕ) : Type 0 where
  pub formed : IsLongSlot raw
  pub number : byte raw 0 % 32 ≡ index
  pub flag : (byte raw 0 / 64 % 2 == 1) ≡ first
  pub sum : byte raw 13 ≡ chk

-- The name of `k` slots where those above `j` have been seen, with the units `tail`.
pub record IsAssembling (l : LongName) (k j chk : ℕ) (tail : List ℕ) : Type 0 where
  pub size : length l.units ≡ 260
  pub count : l.count ≡ k * 13
  pub next : l.next ≡ j
  pub sum : l.checksum ≡ chk
  pub order : (j ≤ k) × (k ≤ 20)
  pub seen : take ((k - j) * 13) (drop (j * 13) l.units) ≡ tail

take_append : (xs ys : List ℕ) (n : ℕ) → take (length xs + n) (xs ++ ys) ≡ xs ++ take n ys
take_append [] ys n = let e : 0 + n ≡ n = omega arith in ap (λ m. take m ys) e
take_append (x ∷ xs) ys n =
    let e : suc (length xs) + n ≡ suc (length xs + n) = omega arith in
    rw e (ap (λ l. x ∷ l) (take_append xs ys n))

-- What a copy of the next 13 units leaves.
copied-IsAssembling :
    (l : LongName) (units xs : List ℕ) (k j chk : ℕ) (tail : List ℕ)
    → IsAssembling l k (suc j) chk tail
    → length xs ≡ 13
    → units ≡ copy_at l.units (j * 13) xs
    → IsAssembling (record l { units = units; next = l.next - 1 }) k j chk (xs ++ tail)
copied-IsAssembling l units xs k j chk tail a len placed =
    let start : j * 13 ≤ length l.units = omega (arith, a.size, a.order) in
    let fits : j * 13 + length xs ≤ length l.units = omega (arith, a.size, a.order) in
    let m : (k - j) * 13 ≡ length xs + (k - suc j) * 13 = omega (arith, a.order) in
    let next : j * 13 + length xs ≡ suc j * 13 = omega arith in
    record {
      size = ap length placed ∙ length-copy_at l.units (j * 13) xs fits ∙ a.size;
      count = a.count;
      next = omega (arith, a.next);
      sum = a.sum;
      order = (omega (arith, a.order), a.order.1);
      seen =
          ap (λ u. take ((k - j) * 13) (drop (j * 13) u)) placed
          ∙ ap (take ((k - j) * 13)) (drop-copy_at l.units xs (j * 13) start)
          ∙ ap (λ n. take n (xs ++ drop (j * 13 + length xs) l.units)) m
          ∙ take_append xs _ ((k - suc j) * 13)
          ∙ ap (λ n. xs ++ take ((k - suc j) * 13) (drop n l.units)) next
          ∙ ap (λ t. xs ++ t) a.seen;
    }

accept-IsAssembling :
    (l : LongName) (raw : List ℕ) (k j chk : ℕ) (tail : List ℕ) (first : Bool)
    → IsAssembling l k (suc j) chk tail
    → IsSlot raw (suc j) first chk
    → IsAssembling (accept l raw) k j chk (units_of raw ++ tail)
unfolding accept
accept-IsAssembling l raw k j chk tail first a s =
    let c1 : (l.count == 0) ≡ false = ground (arith, a.count, a.order) in
    let c2 : (byte raw 0 % 32 == l.next) ≡ true = ground (arith, a.next, s.number) in
    let c3 : (byte raw 13 == l.checksum) ≡ true = ground (arith, a.sum, s.sum) in
    let at : (byte raw 0 % 32 - 1) * 13 ≡ j * 13 = omega (arith, s.number) in
    let here =
      copied-IsAssembling l (put_units raw offsets (j * 13) l.units) (units_of raw) k j chk tail a
        refl (put_units-eq-copy raw offsets (j * 13) l.units (omega (arith, a.size, a.order))) in
    rw (accept, c1, c2, c3, at) here

-- A slot in the middle of a name.
pub slot-IsAssembling :
    (l : LongName) (raw : List ℕ) (k j chk : ℕ) (tail : List ℕ)
    → IsAssembling l k (suc j) chk tail
    → IsSlot raw (suc j) false chk
    → IsAssembling (slot l raw) k j chk (units_of raw ++ tail)
unfolding slot begin
slot-IsAssembling l raw k j chk tail a s =
    rw (slot, IsLongSlot-formed raw s.formed, s.flag)
      (accept-IsAssembling l raw k j chk tail false a s)

-- The first slot of a name begins it, whatever went before.
pub first-IsAssembling :
    (l : LongName) (raw : List ℕ) (j chk : ℕ)
    → length l.units ≡ 260
    → suc j ≤ 20
    → IsSlot raw (suc j) true chk
    → IsAssembling (slot l raw) (suc j) j chk (units_of raw ++ [])
unfolding slot begin
first-IsAssembling l raw j chk size le s =
    let fresh : LongName = record {
      units = replicate (length l.units) 0xffff;
      next = byte raw 0 % 32;
      checksum = byte raw 13;
      count = byte raw 0 % 32 * 13;
    } in
    let started : IsAssembling fresh (suc j) (suc j) chk [] = record {
      size = length-replicate (length l.units) 0xffff ∙ size;
      count = ap (λ n. n * 13) s.number;
      next = s.number;
      sum = s.sum;
      order = (omega arith, le);
      seen = let e : (suc j - suc j) * 13 ≡ 0 = omega arith in rw e refl;
    } in
    rw (slot, IsLongSlot-formed raw s.formed, s.flag)
      (accept-IsAssembling fresh raw (suc j) j chk [] true started s)
