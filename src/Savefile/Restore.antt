-- ===== src/Savefile/Restore.antt =====
-- Power losses: whatever an interrupted save leaves on the card, the next start restores the old
-- image or the new one, whole.
use savepoint_signer.Prelude.{
  ℕ, ◌+◌, ◌<◌, ◌≡◌, ◌≢◌, ◌⊎◌, Bool, true, false, Option, none, some, List, [], ◌++◌, length, take,
  drop, leb, ◌∷◌, if◌then◌else◌,
}
use savepoint_signer.Savefile.{
  rtc_tail_len, RestoreSource, primary, temp, SaveIo, RtcProvider, apply_rtc_tail, tail_of,
  Restored, persist_atomic,
}

abbrev pub image : List ℕ → Option (List ℕ) → List ℕ
image sram none = sram
image sram (some tail) = sram ++ tail

-- A buffer read from the start of a file.
abbrev pub fill : List ℕ → List ℕ → List ℕ
fill file buf =
    if leb (length buf) (length file)
    then take (length buf) file
    else file ++ drop (length file) buf

-- What a read of a file that the card holds, or not, answers.
abbrev pub read_of : Option (List ℕ) → List ℕ → List ℕ → Option (Option ℕ) × List ℕ × List ℕ
read_of none buf tail = (some none, buf, tail)
read_of (some file) buf tail = (
  some (some (length file)),
  fill file buf,
  (if leb (length buf + rtc_tail_len) (length file)
      then take rtc_tail_len (drop (length buf) file)
      else tail),
)

abbrev pub IsShort : Option (List ℕ) → ℕ → Type 0
IsShort none n = Unit {0}
IsShort (some file) n = length file < n

abbrev pub found : Option (List ℕ) → Option ℕ
found none = none
found (some file) = some (length file)

-- What `trait SaveIo` documents: a write that reports success has stored the whole image; one that
-- fails leaves a file that is missing, too short or whole; one that is cut off (`Torn`) leaves a file
-- that is missing or too short; none touches the other file; a read answers from what the card holds.
pub record SaveIoLaws (S : Type 0) (io : SaveIo S) : Type 1 where
  pub contents : S → RestoreSource → Option (List ℕ)
  pub Torn : S → RestoreSource → List ℕ → Option (List ℕ) → S → Type 0
  pub write_ok :
      (s : S) (name : RestoreSource) (sram : List ℕ) (tail : Option (List ℕ))
      → (io.write_save s name sram tail).1 ≡ true
      → contents (io.write_save s name sram tail).0 name ≡ some (image sram tail)
  pub write_failed :
      (s : S) (name : RestoreSource) (sram : List ℕ) (tail : Option (List ℕ))
      → (io.write_save s name sram tail).1 ≡ false
      → IsShort (contents (io.write_save s name sram tail).0 name) (length (image sram tail))
        ⊎ (contents (io.write_save s name sram tail).0 name ≡ some (image sram tail))
  pub write_other :
      (s : S) (name other : RestoreSource) (sram : List ℕ) (tail : Option (List ℕ))
      → other ≢ name
      → contents (io.write_save s name sram tail).0 other ≡ contents s other
  pub torn_short :
      (s s' : S) (name : RestoreSource) (sram : List ℕ) (tail : Option (List ℕ))
      → Torn s name sram tail s'
      → IsShort (contents s' name) (length (image sram tail))
  pub torn_other :
      (s s' : S) (name other : RestoreSource) (sram : List ℕ) (tail : Option (List ℕ))
      → Torn s name sram tail s'
      → other ≢ name
      → contents s' other ≡ contents s other
  pub read_back :
      (s : S) (name : RestoreSource) (buf tail : List ℕ)
      → io.read_save s name buf tail ≡ read_of (contents s name) buf tail

module _ {S R : Type 0} (io : SaveIo S) (rtc : RtcProvider R) (laws : SaveIoLaws S io) where
  open laws use {
    contents, Torn, write_failed, write_ok, write_other, torn_short, torn_other, read_back,
  }

  -- A write that was asked of the card, with the state before it.
  pub record Call : Type 0 where
    pub before : S
    pub name : RestoreSource
    pub sram : List ℕ
    pub tail : Option (List ℕ)

  -- The card with a record of the writes.
  abbrev pub traced : SaveIo (S × List Call)
  traced = record {
    write_save = λ s name sram tail.
        let w = io.write_save s.0 name sram tail in
        ((w.0, s.1 ++ record { before = s.0; name = name; sram = sram; tail = tail } ∷ []), w.1);
    read_save = λ s. io.read_save s.0;
  }

  -- The state of the card just before one of the writes, or one of them cut off.
  abbrev pub IsCut : List Call → S → Type 0
  IsCut [] s' = ⊥
  IsCut (k ∷ ks) s' = (s' ≡ k.before) ⊎ Torn k.before k.name k.sram k.tail s' ⊎ IsCut ks s'

  -- What `persist_atomic` has left on the card when it was cut off at any of the writes it makes, or
  -- has ended, with an error or without.
  unfoldable pub Interrupted : S → Bool → List ℕ → R → ℕ → S → Type 0
  Interrupted s has_rtc sram r now s' =
      let p = persist_atomic traced rtc (s, []) has_rtc sram r now in IsCut p.0.1 s' ⊎ (s' ≡ p.0.0)

  -- The restore that a whole image calls for.
  abbrev pub from_image : RestoreSource → List ℕ → Bool → ℕ → R → ℕ → Restored io rtc
  from_image name file has_rtc n r now = record {
    source = some (some name);
    sram = take n file;
    clock = if has_rtc then apply_rtc_tail io rtc (take rtc_tail_len (drop n file)) now r else r;
  }

  -- The writes of `persist_atomic`: to TMP and, after a success, to the save file.
  abbrev after_temp : S → Bool → List ℕ → R → ℕ → S × Bool
  after_temp s has_rtc sram r now = io.write_save s temp sram (tail_of io rtc has_rtc r now)

  abbrev after_primary : S → Bool → List ℕ → R → ℕ → S × Bool
  after_primary s has_rtc sram r now =
      io.write_save (after_temp s has_rtc sram r now).0 primary sram (tail_of io rtc has_rtc r now)

  abbrev IsInterruption : S → Bool → List ℕ → R → ℕ → S → Type 0
  IsInterruption s has_rtc sram r now s' =
      let tail = tail_of io rtc has_rtc r now in
      let s₁ = (after_temp s has_rtc sram r now).0 in
      (s' ≡ s)
      ⊎ Torn s temp sram tail s'
      ⊎ (s' ≡ s₁)
      ⊎ (((after_temp s has_rtc sram r now).1 ≡ true)
          × (Torn s₁ primary sram tail s' ⊎ (s' ≡ (after_primary s has_rtc sram r now).0)))
