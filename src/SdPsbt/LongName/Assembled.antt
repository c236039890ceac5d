-- ===== src/SdPsbt/LongName/Assembled.antt =====
-- The name that src/sd_lfn.rs gives for a complete run of slots.
use savepoint_signer.Prelude.{
  ℕ, zero, suc, ◌+◌, ◌-◌, ◌*◌, ◌≤◌, ◌<◌, ◌≡◌, ◌≢◌, refl, ap, sym, ◌∙◌, true, false, none, List, [],
  ◌∷◌, ◌++◌, arith, min, ltb, ◌==◌, length, take, drop, All, take-length-append, drop-length-append,
  drop_all, drop-drop, ◌⊎◌, inl, inr, Bool-cases, ◌/◌, ◌%◌, if◌then◌else◌, length-append,
  length-take,
}
use mathlib.Core.Path.{subst}
use mathlib.Core.List.{append-nil, append_assoc}
use savepoint_signer.SdPsbt.LongName.{
  LongName, is_malformed, reset, slot, finish, name_of, until_zero, contains, all_equal, from_utf16,
  checksum_from,
}
use savepoint_signer.SdPsbt.LongName.Slots.{
  units_of, IsSlot, IsLongSlot, formed-IsLongSlot, IsAssembling, slot-IsAssembling,
  first-IsAssembling,
}

-- The slots one after another.
unfoldable pub feed : LongName → List (List ℕ) → LongName
feed l [] = l
feed l (raw ∷ raws) = feed (slot l raw) raws

-- The slots with numbers `j` down to 1.
abbrev pub IsRun : ℕ → ℕ → List (List ℕ) → Type 0
IsRun chk zero [] = Unit
IsRun chk (suc j) (raw ∷ raws) = IsSlot raw (suc j) false chk × IsRun chk j raws
IsRun chk _ _ = ⊥

-- The units of a run in the order of the name.
abbrev pub run_units : List (List ℕ) → List ℕ
run_units [] = []
run_units (raw ∷ raws) = run_units raws ++ units_of raw

feed-IsAssembling :
    (l : LongName) (raws : List (List ℕ)) (k j chk : ℕ) (tail : List ℕ)
    → IsAssembling l k j chk tail
    → IsRun chk j raws
    → IsAssembling (feed l raws) k 0 chk (run_units raws ++ tail)
unfolding feed
feed-IsAssembling l [] k zero chk tail a run = a
feed-IsAssembling l [] k (suc j) chk tail a run = absurd run
feed-IsAssembling l (raw ∷ raws) k zero chk tail a run = absurd run
feed-IsAssembling l (raw ∷ raws) k (suc j) chk tail a (s, run) =
    rw (append_assoc (run_units raws) (units_of raw) tail) (
      feed-IsAssembling (slot l raw) raws k j chk (units_of raw ++ tail)
        (slot-IsAssembling l raw k j chk tail a s) run)

-- What may stand in a name, and what follows it: nothing, or a zero and then only 0xffff.
abbrev pub IsUnit : ℕ → Type 0
IsUnit u = (u ≢ 0) × (u ≢ 0xffff)

abbrev pub IsPadding : List ℕ → Type 0
IsPadding [] = Unit
IsPadding (c ∷ cs) = (c ≡ 0) × All (λ u. u ≡ 0xffff) cs

until_zero-append :
    (name pad : List ℕ) → All IsUnit name → IsPadding pad → until_zero (name ++ pad) ≡ length name
unfolding until_zero
until_zero-append [] [] h p = refl
until_zero-append [] (c ∷ cs) h (z, p) = ground (arith, z)
until_zero-append (u ∷ us) pad (h, hs) p = ground (arith, h.0, until_zero-append us pad hs p)

contains_name : (name : List ℕ) → All IsUnit name → contains name 0xffff ≡ false
unfolding contains
contains_name [] h = refl
contains_name (u ∷ us) (h, hs) = ground (arith, h.1, contains_name us hs)

all_equal_padding : (cs : List ℕ) → All (λ u. u ≡ 0xffff) cs → all_equal cs 0xffff ≡ true
unfolding all_equal
all_equal_padding [] h = refl
all_equal_padding (c ∷ cs) (h, hs) = ground (arith, h, all_equal_padding cs hs)

-- What follows the zero.
rest_of_padding :
    (name pad : List ℕ) (count : ℕ)
    → length (name ++ pad) ≡ count
    → IsPadding pad
    → all_equal (drop (min (length name + 1) count) (name ++ pad)) 0xffff ≡ true
unfolding all_equal
rest_of_padding name [] count h p =
    let len = length-append name [] in
    rw (drop_all (name ++ []) (min (length name + 1) count) (omega (arith, len))) refl
rest_of_padding name (c ∷ cs) count h (z, p) =
    let m : min (length name + 1) count ≡ length name + 1 =
      omega (arith, length-append name (c ∷ cs)) in
    let rest = drop-drop 1 (length name) (name ++ c ∷ cs) in
    rw (m, ← rest, drop-length-append name (c ∷ cs)) (all_equal_padding cs p)

take-take : (n m : ℕ) (xs : List ℕ) → n ≤ m → take n (take m xs) ≡ take n xs
take-take zero m xs h = refl
take-take (suc n) zero xs h = absurd (omega arith)
take-take (suc n) (suc m) [] h = refl
take-take (suc n) (suc m) (x ∷ xs) h = ap (λ l. x ∷ l) (take-take n m xs (omega arith))

name_of-padded :
    (units name pad : List ℕ) (count : ℕ)
    → take count units ≡ name ++ pad
    → length (name ++ pad) ≡ count
    → All IsUnit name
    → IsPadding pad
    → 0 < length name
    → length name ≤ 255
    → name_of units count ≡ from_utf16 none name
unfolding name_of
name_of-padded units name pad count e len hn hp low high =
    let z = until_zero-append name pad hn hp in
    let le : length name ≤ count = omega (arith, length-append name pad) in
    let whole : take (length name) units ≡ name =
      sym (take-take (length name) count units le)
      ∙ ap (take (length name)) e
      ∙ take-length-append name pad in
    let c1 : (length name == 0) ≡ false = ground arith in
    let c2 : ltb 255 (length name) ≡ false = ground arith in
    rw (e, z, whole, c1, c2, contains_name name hn, rest_of_padding name pad count len hp) refl

finish_assembled :
    (f : LongName) (j : ℕ) (short name pad : List ℕ)
    → IsAssembling f (suc j) 0 (checksum_from 0 (take 11 short)) (name ++ pad)
    → All IsUnit name
    → IsPadding pad
    → 0 < length name
    → length name ≤ 255
    → (finish f short).1 ≡ from_utf16 none name
unfolding finish
finish_assembled f j short name pad a hn hp low high =
    let c1 : (f.count == 0) ≡ false = ground (arith, a.count) in
    let c2 : (f.next == 0) ≡ true = ground (arith, a.next) in
    let c3 : (checksum_from 0 (take 11 short) == f.checksum) ≡ true = ground (arith, a.sum) in
    let m : f.count ≡ (suc j - 0) * 13 = omega (arith, a.count) in
    let zero_times : 0 ≡ 0 * 13 = omega arith in
    let text : take f.count f.units ≡ name ++ pad =
      ap (λ n. take n f.units) m
      ∙ ap (λ n. take ((suc j - 0) * 13) (drop n f.units)) zero_times
      ∙ a.seen in
    let len : length (name ++ pad) ≡ f.count =
      ap length (sym text) ∙ omega (arith, length-take f.count f.units, a.size, a.count, a.order) in
    rw (finish, c1, c2, c3) (name_of-padded f.units name pad f.count text len hn hp low high)

-- The checksum of a short name as FAT defines it: for each of its 11 bytes the sum so far is halved, its
-- low bit becomes bit 7, and the byte is added modulo 256.
abbrev pub fat_sum : ℕ → List ℕ → ℕ
fat_sum sum [] = sum
fat_sum sum (b ∷ bs) = fat_sum (((if sum % 2 == 1 then 0x80 else 0) + sum / 2 + b) % 256) bs

abbrev pub short_checksum : List ℕ → ℕ
short_checksum short = fat_sum 0 (take 11 short)

checksum_from-eq : (bs : List ℕ) (sum : ℕ) → checksum_from sum bs ≡ fat_sum sum bs
unfolding checksum_from
checksum_from-eq [] sum = refl
checksum_from-eq (b ∷ bs) sum =
    let e : (sum / 2 + sum % 2 * 128 + b) % 256
        ≡ ((if sum % 2 == 1 then 0x80 else 0) + sum / 2 + b) % 256 =
      ground arith in
    rw e (checksum_from-eq bs _)

-- Out of a malformed slot comes no name.
finish-malformed :
    (l : LongName) (raw short : List ℕ) → IsLongSlot raw ⊎ ((finish (slot l raw) short).1 ≡ none)
unfolding finish slot reset
finish-malformed l raw short = elim (Bool-cases (is_malformed raw)) [
  | inr e ↦ inl (formed-IsLongSlot raw e)
  | inl e ↦ inr (rw (slot, e) refl)
]

-- A name whose slots, from the last to the first, are met in order, and whose short entry
-- has their FAT checksum, is read back from its units in FAT's places, whatever was assembled before; a
-- further slot that is malformed discards it. The name has
-- at most 255 units, none of them 0 or 0xffff; after it come nothing, or a zero and then only 0xffff.
pub finish-slot :
    (l : LongName) (first : List ℕ) (raws : List (List ℕ)) (j : ℕ) (short name pad extra : List ℕ)
    → length l.units ≡ 260
    → suc j ≤ 20
    → IsSlot first (suc j) true (short_checksum short)
    → IsRun (short_checksum short) j raws
    → run_units raws ++ units_of first ≡ name ++ pad
    → All IsUnit name
    → IsPadding pad
    → 0 < length name
    → length name ≤ 255
    → let assembled = feed (slot l first) raws in
      ((finish assembled short).1 ≡ from_utf16 none name)
      × (IsLongSlot extra ⊎ ((finish (slot assembled extra) short).1 ≡ none))
unfolding finish
finish-slot l first raws j short name pad extra size le s run e hn hp low high =
    let chk = short_checksum short in
    let sum : chk ≡ checksum_from 0 (take 11 short) = sym (checksum_from-eq (take 11 short) 0) in
    let a =
      feed-IsAssembling (slot l first) raws (suc j) j chk (units_of first ++ [])
        (first-IsAssembling l first j chk size le s) run in
    let text = ap (λ t. run_units raws ++ t) (append-nil (units_of first)) ∙ e in
    (
      finish_assembled (feed (slot l first) raws) j short name pad
          (subst (λ x. IsAssembling (feed (slot l first) raws) (suc j) 0 x (name ++ pad)) sum
            (rw (← text) a))
          hn hp low high,
      finish-malformed (feed (slot l first) raws) extra short,
    )
