-- ===== src/Tests/Card.antt =====
-- A card of two files, as a concrete instance of the storage interface, and a clock.
use savepoint_signer.Prelude.{ℕ, ◌≡◌, ◌≢◌, refl, true, false, ◌⊎◌, Option, some, List, length}
use savepoint_signer.Savefile.{RestoreSource, primary, temp, SaveIo, RtcProvider}
use savepoint_signer.Savefile.Restore.{image, read_of, IsShort, SaveIoLaws}

pub record Card : Type 0 where
  pub sav : Option (List ℕ)
  pub tmp : Option (List ℕ)

abbrev pub held : Card → RestoreSource → Option (List ℕ)
held c primary = c.sav
held c temp = c.tmp

abbrev pub put : Card → RestoreSource → Option (List ℕ) → Card
put c primary file = record c { sav = file }
put c temp file = record c { tmp = file }

abbrev pub card_io : SaveIo Card
card_io = record {
  write_save = λ c name sram tail. (put c name (some (image sram tail)), true);
  read_save = λ c name buf tail. read_of (held c name) buf tail;
}

-- A write that is cut off leaves some file that is missing or too short.
abbrev pub CutOff : Card → RestoreSource → List ℕ → Option (List ℕ) → Card → Type 0
CutOff c name sram tail c' =
    (file : Option (List ℕ)) × (c' ≡ put c name file) × IsShort file (length (image sram tail))

pub write_never_fails :
    (c : Card) (name : RestoreSource) (sram : List ℕ) (tail : Option (List ℕ))
    → true ≡ false
    → IsShort (held (put c name (some (image sram tail))) name) (length (image sram tail))
      ⊎ (held (put c name (some (image sram tail))) name ≡ some (image sram tail))
write_never_fails c name sram tail h = absurd (cc h)

pub held-put :
    (c : Card) (name : RestoreSource) (file : Option (List ℕ)) → held (put c name file) name ≡ file
held-put c primary file = refl
held-put c temp file = refl

pub held-put_other :
    (c : Card) (name other : RestoreSource) (file : Option (List ℕ))
    → other ≢ name
    → held (put c name file) other ≡ held c other
held-put_other c primary primary file n = absurd (n refl)
held-put_other c primary temp file n = refl
held-put_other c temp primary file n = refl
held-put_other c temp temp file n = absurd (n refl)

pub cut-IsShort :
    (c c' : Card) (name : RestoreSource) (sram : List ℕ) (tail : Option (List ℕ))
    → CutOff c name sram tail c'
    → IsShort (held c' name) (length (image sram tail))
cut-IsShort c c' name sram tail (file, e, h) = rw (e, held-put c name file) h

pub cut_other :
    (c c' : Card) (name other : RestoreSource) (sram : List ℕ) (tail : Option (List ℕ))
    → CutOff c name sram tail c'
    → other ≢ name
    → held c' other ≡ held c other
cut_other c c' name other sram tail (file, e, h) n = rw e (held-put_other c name other file n)

abbrev pub card_laws : SaveIoLaws Card card_io
card_laws = record {
  contents = held;
  Torn = CutOff;
  write_ok = λ c name sram tail h. held-put c name (some (image sram tail));
  write_failed = write_never_fails;
  write_other = λ c name other sram tail n. held-put_other c name other (some (image sram tail)) n;
  torn_short = cut-IsShort;
  torn_other = cut_other;
  read_back = λ c name buf tail. refl;
}

abbrev pub clock : RtcProvider (List ℕ × List ℕ)
clock = record {
  retrieve = λ r. r;
  restore = λ real latch r. (real, latch);
  advance_by_seconds = λ n r. r;
}
