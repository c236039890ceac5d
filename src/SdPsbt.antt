-- ===== src/SdPsbt.antt =====
-- src/sd_psbt.rs: PSBT files on the SD card. The FAT library `embedded-sdmmc` is the record `Volume`
-- of the calls that the code makes of it.
use savepoint_signer.Prelude.{
  ℕ, ◌+◌, Bool, not, Option, none, some, List, [], ◌∷◌, ◌++◌, ◌==◌, codes, decimal, if◌then◌else◌,
  ◌≡◌, refl, ◌⊎◌, inl, inr,
}
pub mod Volumes
pub mod Import
pub mod Export
pub mod LongName
pub mod Listing

-- A Rust `Result` of code that does not panic.
pub data Reply {ℓ κ} (E : Type ℓ) (A : Type κ) : Type (ℓ ⊔ κ) where
  good : A → Reply E A
  fault : E → Reply E A

pub Reply-cases {ℓ κ} :
    {E : Type ℓ} {A : Type κ} (r : Reply E A) → ((a : A) × (r ≡ good a)) ⊎ ((e : E) × (r ≡ fault e))
Reply-cases (good a) = inl (a, refl)
Reply-cases (fault e) = inr (e, refl)

pub data Mode : Type 0 where
  read_only create_or_truncate : Mode

pub data Opened (F : Type 0) : Type 0 where
  opened : F → Opened F
  not_found failed : Opened F

pub Opened-cases :
    {F : Type 0} (o : Opened F) → ((f : F) × (o ≡ opened f)) ⊎ ((o ≡ not_found) ⊎ (o ≡ failed))
Opened-cases (opened f) = inl (f, refl)
Opened-cases not_found = inr (inl refl)
Opened-cases failed = inr (inr refl)

-- A directory entry as the library decodes it.
pub record Entry (Name : Type 0) : Type 0 where
  pub name : Name
  pub size : ℕ
  pub directory : Bool
  pub volume : Bool
  pub hidden : Bool
  pub system : Bool

-- A `Disk` is the state of the volume manager, a `File` an open file with its position, a `Name` a
-- `ShortFileName`. The `drop` calls are those that Rust makes at the end of a scope.
pub record Volume : Type 1 where
  pub Disk : Type 0
  pub File : Type 0
  pub Name : Type 0
  pub create_from_str : List ℕ → Option Name
  pub name_text : Name → List ℕ
  pub open_volume : Disk → Disk × Bool
  pub open_root_dir : Disk → Disk × Bool
  pub open_file_in_dir : Disk → Name → Mode → Disk × Opened File
  pub file_length : File → ℕ
  -- At most the given number of bytes; none on an error.
  pub read : Disk → File → ℕ → Disk × File × Option (List ℕ)
  pub write : Disk → File → List ℕ → Disk × File × Bool
  pub flush : Disk → File → Disk × Bool
  pub close : Disk → File → Disk × Bool
  pub drop_file : Disk → File → Disk
  pub drop_root : Disk → Disk
  pub drop_volume : Disk → Disk
  -- The slots that `iterate_dir_raw` visits, and whether it then ends without an error.
  pub root_slots : Disk → Disk × List (List ℕ × Option (Entry Name)) × Bool

pub data ReadError : Type 0 where
  listing_limit volume directory missing open_error empty too_large : ReadError
  read_error unexpected_eof close_error : ReadError

pub data WriteError : Type 0 where
  volume directory open_error short_name too_many_exports empty : WriteError
  write_error flush_error close_error : WriteError

abbrev pub import_filename : List ℕ
import_filename = codes "UNSIGNED.PSB"

abbrev pub export_first : List ℕ
export_first = codes "SIGNED.PSB"

abbrev pub export_max_index : ℕ
export_max_index = 9

-- `format!("SIGNED{}.PSB", i)`
abbrev pub export_name : ℕ → List ℕ
export_name i = codes "SIGNED" ++ (decimal i ++ codes ".PSB")

module _ (V : Volume) where
  -- The root directory of volume 0, open while `body` runs, on its failures too.
  abbrev pub with_root :
      {E A : Type 0}
      → E
      → E
      → (V.Disk → Option (V.Disk × Reply E A))
      → V.Disk
      → Option (V.Disk × Reply E A)
  with_root e_volume e_directory body d =
      let (d1, mounted) = V.open_volume d in
      let (d2, rooted) = V.open_root_dir d1 in
      if not mounted
      then some (d1, fault e_volume)
      else if not rooted
      then some (V.drop_volume d2, fault e_directory)
      else (elim (body d2) [ none ↦ none | some r ↦ some (V.drop_volume (V.drop_root r.0), r.1) ])
