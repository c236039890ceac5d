-- ===== src/SdPsbt/LongName.antt =====
-- src/sd_lfn.rs: the assembly of a FAT long name from directory slots of 32 bytes. A test of bits is
-- written as a quotient and a remainder.
use savepoint_signer.Prelude.{
  ℕ, ◌+◌, ◌-◌, ◌*◌, ◌/◌, ◌%◌, Bool, true, false, not, ◌&&◌, ◌||◌, Option, none, some, List, [], ◌∷◌,
  ltb, leb, ◌==◌, length, get_or, set, take, drop, replicate, min, if◌then◌else◌,
}
pub mod Slots
pub mod Assembled

pub record LongName : Type 0 where
  pub units : List ℕ  -- 260 of 16 bits
  pub next : ℕ
  pub checksum : ℕ
  pub count : ℕ

abbrev pub new : LongName
new = record { units = replicate 260 0xffff; next = 0; checksum = 0; count = 0 }

unfoldable pub reset : LongName → LongName
reset l = record l { next = 0; count = 0 }

abbrev pub offsets : List ℕ
offsets = 1 ∷ 3 ∷ 5 ∷ 7 ∷ 9 ∷ 14 ∷ 16 ∷ 18 ∷ 20 ∷ 22 ∷ 24 ∷ 28 ∷ 30 ∷ []

-- A byte of a slot; every slot has 32.
abbrev pub byte : List ℕ → ℕ → ℕ
byte raw i = get_or raw i 0

-- The first `if` of `slot`: `order & 0xa0 != 0` is a set bit 7 or 5.
unfoldable pub is_malformed : List ℕ → Bool
is_malformed raw =
    let order = byte raw 0 in
    not (byte raw 11 == 0x0f)
    || (not (byte raw 12 == 0)
        || (not (byte raw 26 == 0)
            || (not (byte raw 27 == 0)
                || ((order / 128 % 2 == 1)
                    || ((order / 32 % 2 == 1) || ((order % 32 == 0) || ltb 20 (order % 32)))))))

-- The loop over the offsets, from unit `i` on.
unfoldable pub put_units : List ℕ → List ℕ → ℕ → List ℕ → List ℕ
put_units raw [] i units = units
put_units raw (o ∷ os) i units =
    put_units raw os (i + 1) (set units i (byte raw o + 256 * byte raw (o + 1)))

-- A slot with bit 6 of its order begins a name.
unfoldable pub begin : LongName → List ℕ → LongName
begin l raw =
    let index = byte raw 0 % 32 in
    if byte raw 0 / 64 % 2 == 1
    then record {
      units = replicate (length l.units) 0xffff;
      next = index;
      checksum = byte raw 13;
      count = index * 13;
    }
    else l

-- The slot that is due is copied.
unfoldable pub accept : LongName → List ℕ → LongName
unfolding reset put_units
accept l raw =
    let index = byte raw 0 % 32 in
    if (l.count == 0) || (not (index == l.next) || not (byte raw 13 == l.checksum))
    then reset l
    else record l { units = put_units raw offsets ((index - 1) * 13) l.units; next = l.next - 1 }

unfoldable pub slot : LongName → List ℕ → LongName
unfolding is_malformed begin accept
slot l raw = if is_malformed raw then reset l else accept (begin l raw) raw

-- `sum.rotate_right(1).wrapping_add(b)` over the bytes of the short name
unfoldable pub checksum_from : ℕ → List ℕ → ℕ
checksum_from sum [] = sum
checksum_from sum (b ∷ bs) = checksum_from ((sum / 2 + sum % 2 * 128 + b) % 256) bs

-- `position(|c| *c == 0).unwrap_or(count)`
unfoldable pub until_zero : List ℕ → ℕ
until_zero [] = 0
until_zero (c ∷ cs) = let rest = until_zero cs in if c == 0 then 0 else rest + 1

unfoldable pub contains : List ℕ → ℕ → Bool
contains [] x = false
contains (c ∷ cs) x = (c == x) || contains cs x

unfoldable pub all_equal : List ℕ → ℕ → Bool
all_equal [] x = true
all_equal (c ∷ cs) x = (c == x) && all_equal cs x

abbrev pub is_high : ℕ → Bool
is_high c = leb 0xd800 c && ltb c 0xdc00

abbrev pub is_low : ℕ → Bool
is_low c = leb 0xdc00 c && ltb c 0xe000

-- `String::from_utf16`: the characters, or none at a surrogate without its pair. The first argument
-- is a high surrogate that waits for its low one.
unfoldable pub from_utf16 : Option ℕ → List ℕ → Option (List ℕ)
from_utf16 none [] = some []
from_utf16 (some h) [] = none
from_utf16 (some h) (c ∷ cs) = elim (from_utf16 none cs) [
  | none ↦ none
  | some rest ↦
      if is_low c then some ((0x10000 + (h - 0xd800) * 1024 + (c - 0xdc00)) ∷ rest) else none
]
from_utf16 none (c ∷ cs) =
    let paired = from_utf16 (some c) cs in
    let rest = from_utf16 none cs in
    if is_high c
    then paired
    else if is_low c
    then none
    else (elim rest [ none ↦ none | some r ↦ some (c ∷ r) ])

-- The name in the first `count` units: it ends at a zero, and only 0xffff follows.
unfoldable pub name_of : List ℕ → ℕ → Option (List ℕ)
unfolding until_zero contains all_equal from_utf16
name_of units count =
    let len = until_zero (take count units) in
    let rest = drop (min (len + 1) count) (take count units) in
    if (len == 0)
      || (ltb 255 len || (contains (take len units) 0xffff || not (all_equal rest 0xffff)))
    then none
    else from_utf16 none (take len units)

unfoldable pub finish : LongName → List ℕ → LongName × Option (List ℕ)
unfolding reset checksum_from name_of
finish l short =
    let valid =
      not (l.count == 0) && ((l.next == 0) && (checksum_from 0 (take 11 short) == l.checksum)) in
    (reset l, if valid then name_of l.units l.count else none)
