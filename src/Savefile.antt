-- ===== src/Savefile.antt =====
-- Save files: `cartridge-core/src/savefile.rs`. An image is SRAM followed by an optional tail of 48
-- bytes with the RTC registers and the time; it goes to `<name>.TMP` first and then to the save file.
use savepoint_signer.Prelude.{
  ℕ, zero, suc, ◌+◌, ◌-◌, ◌*◌, ◌/◌, ◌%◌, ◌≤◌, ◌<◌, ◌≡◌, Bool, true, false, not, ◌&&◌, Option, none,
  some, List, [], ◌∷◌, ◌++◌, arith, length, get_or, take, drop, zeros, copy_at, ltb, leb, ◌==◌,
  if◌then◌else◌,
}
pub mod Rtc
pub mod Restore

abbrev pub rtc_tail_len : ℕ
rtc_tail_len = 48

-- The name of a file on the card: the save file itself or its sibling with the extension TMP.
pub data RestoreSource : Type 0 where
  primary temp : RestoreSource

-- `trait SaveIo`, on a state `S` of the card. A write reports success; a read reports a failure
-- (none), a missing file (some none) or the length, with the SRAM buffer and the tail buffer filled.
pub record SaveIo (S : Type 0) : Type 0 where
  pub write_save : S → RestoreSource → List ℕ → Option (List ℕ) → S × Bool
  pub read_save : S → RestoreSource → List ℕ → List ℕ → Option (Option ℕ) × List ℕ × List ℕ

-- `trait RtcSaveStateProvider`
pub record RtcProvider (R : Type 0) : Type 0 where
  pub retrieve : R → List ℕ × List ℕ
  pub restore : List ℕ → List ℕ → R → R
  pub advance_by_seconds : ℕ → R → R

-- `to_le_bytes` of a number of n bytes and `from_le_bytes`
unfoldable pub le_bytes : ℕ → ℕ → List ℕ
le_bytes zero x = []
le_bytes (suc n) x = x % 256 ∷ le_bytes n (x / 256)

unfoldable pub from_le : List ℕ → ℕ
from_le [] = 0
from_le (b ∷ bs) = b + 256 * from_le bs

unfoldable pub expected_len : ℕ → Bool → ℕ
expected_len sram_len has_rtc = sram_len + (if has_rtc then rtc_tail_len else 0)

unfoldable pub is_full_save : ℕ → ℕ → Bool → Bool
is_full_save file_len sram_len has_rtc = leb (expected_len sram_len has_rtc) file_len

unfoldable pub is_sram_complete : ℕ → ℕ → Bool
is_sram_complete file_len sram_len = leb sram_len file_len

-- The loop over the five registers, from register i on.
unfoldable pub pack_regs : ℕ → List ℕ → List ℕ → List ℕ → List ℕ
pack_regs i (r ∷ rs) (l ∷ ls) out =
    pack_regs (i + 1) rs ls
      (copy_at (copy_at out (i * 4) (le_bytes 4 r)) (20 + i * 4) (le_bytes 4 l))
pack_regs i rs ls out = out

unfoldable pub pack_rtc : List ℕ → List ℕ → ℕ → List ℕ → List ℕ
pack_rtc real latch unix out = copy_at (pack_regs 0 real latch out) 40 (le_bytes 8 unix)

abbrev pub word_at : List ℕ → ℕ → ℕ
word_at buf i = from_le (take 4 (drop i buf)) % 256

-- n registers from byte i on
unfoldable pub unpack_regs : List ℕ → ℕ → ℕ → List ℕ
unpack_regs buf i zero = []
unpack_regs buf i (suc n) = word_at buf i ∷ unpack_regs buf (i + 4) n

unfoldable pub unpack_rtc : List ℕ → List ℕ × List ℕ × ℕ
unpack_rtc buf = (unpack_regs buf 0 5, unpack_regs buf 20 5, from_le (take 8 (drop 40 buf)))

abbrev pub full : Option ℕ → ℕ → Bool → Bool
full none sram_len has_rtc = false
full (some n) sram_len has_rtc = is_full_save n sram_len has_rtc

abbrev pub complete : Option ℕ → ℕ → Bool
complete none sram_len = false
complete (some n) sram_len = is_sram_complete n sram_len

unfoldable pub pick_restore_slot : Option ℕ → Option ℕ → ℕ → Bool → Option RestoreSource
pick_restore_slot primary_len tmp_len sram_len has_rtc =
    if full primary_len sram_len has_rtc
    then some primary
    else if full tmp_len sram_len has_rtc
    then some temp
    else if complete primary_len sram_len
    then some primary
    else if complete tmp_len sram_len
    then some temp
    else none

module _ {S R : Type 0} (io : SaveIo S) (rtc : RtcProvider R) where
  unfoldable pub apply_rtc_tail : List ℕ → ℕ → R → R
  apply_rtc_tail tail now r =
      let (real, latch, saved) = unpack_rtc tail in
      let r₁ = rtc.restore real latch r in
      if leb saved now
      then (if ltb 0 (now - saved) then rtc.advance_by_seconds (now - saved) r₁ else r₁)
      else r₁

  unfoldable pub rtc_tail_from_provider : R → ℕ → List ℕ
  rtc_tail_from_provider r now =
      let regs = rtc.retrieve r in pack_rtc regs.0 regs.1 now (zeros rtc_tail_len)

  abbrev pub tail_of : Bool → R → ℕ → Option (List ℕ)
  tail_of has_rtc r now = if has_rtc then some (rtc_tail_from_provider r now) else none

  unfoldable pub persist_atomic : S → Bool → List ℕ → R → ℕ → S × Bool
  persist_atomic s has_rtc sram r now =
      let w = io.write_save s temp sram (tail_of has_rtc r now) in
      if w.1 then io.write_save w.0 primary sram (tail_of has_rtc r now) else w

  -- A probe that fails counts as a missing file.
  unfoldable pub probe : S → RestoreSource → Option ℕ
  probe s name = elim (io.read_save s name [] (zeros rtc_tail_len)).0 [
    | none ↦ none
    | some found ↦ found
  ]

  pub record Restored : Type 0 where
    pub source : Option (Option RestoreSource)  -- none: the read failed
    pub sram : List ℕ
    pub clock : R

  -- What follows the read of the chosen file.
  unfoldable pub finish_restore :
      RestoreSource → Bool → ℕ → ℕ → R → Option (Option ℕ) × List ℕ × List ℕ → Restored
  finish_restore source has_rtc sram_len now r (none, sram, tail) = record {
    source = none;
    sram = sram;
    clock = r;
  }
  finish_restore source has_rtc sram_len now r (some none, sram, tail) = record {
    source = some none;
    sram = sram;
    clock = r;
  }
  finish_restore source has_rtc sram_len now r (some (some len), sram, tail) =
      if is_sram_complete len sram_len
      then record {
        source = some (some source);
        sram = sram;
        clock =
            if has_rtc && leb (expected_len sram_len true) len
            then apply_rtc_tail tail now r
            else r;
      }
      else record { source = some none; sram = sram; clock = r }

  unfoldable pub restore_best_in_place : S → Bool → List ℕ → R → ℕ → Restored
  restore_best_in_place s has_rtc sram r now =
      elim (pick_restore_slot (probe s primary) (probe s temp) (length sram) has_rtc) [
        | none ↦ record { source = some none; sram = sram; clock = r }
        | some name ↦
            finish_restore name has_rtc (length sram) now r
              (io.read_save s name sram (zeros rtc_tail_len))
      ]
