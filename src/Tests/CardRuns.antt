-- ===== src/Tests/CardRuns.antt =====
-- The theorems on the card and its worker on the card in memory.
use savepoint_signer.Prelude.{ℕ, ◌≡◌, refl, some, List, [], ◌∷◌, digits, decimal, zeros, copy_at}
use savepoint_signer.SdPsbt.{good, import_filename, export_first, export_name}
use savepoint_signer.SdPsbt.Volumes.{Ends}
use savepoint_signer.SdPsbt.Import.{
  read_short, read_named, read_file, read_open, read_loop, close_read,
}
use savepoint_signer.SdPsbt.Import.Exact.{read_named-Ends}
use savepoint_signer.SdPsbt.Import.Whole.{IsWhole, read_short_exact}
use savepoint_signer.SdPsbt.Export.{
  is_free, pick, choose, write_loop, finish_write, write_file, write_chosen, write_signed,
}
use savepoint_signer.SdPsbt.Export.Fresh.{IsSaved, write_signed-IsSaved}
use savepoint_signer.SdPsbt.Listing.{
  FoundFile, list, list_root, visit_all, visit, visit_entry, add_file, sort_by, insert,
  has_psbt_extension, extension, after_dot, text_eq, text_le, starts_with_dot,
}
use savepoint_signer.SdPsbt.Listing.Picked.{IsListing, slots_of, list-IsListing}
use savepoint_signer.SdPsbt.LongName.{finish}
use savepoint_signer.Tests.Memory.{memory, memory_laws}
use savepoint_signer.Tests.Toy.{sample_bytes}

abbrev pub card : List (List ℕ × List ℕ)
card = (import_filename, sample_bytes) ∷ (export_first, 9 ∷ []) ∷ []

abbrev card_after : List (List ℕ × List ℕ)
card_after =
    (import_filename, sample_bytes) ∷ (export_first, 9 ∷ []) ∷ (export_name 1, 1 ∷ 2 ∷ []) ∷ []

imported : read_short memory card import_filename 4096 ≡ some (card, good sample_bytes)
unfolding read_short read_file read_open read_loop close_read copy_at zeros
imported = refl

exported : write_signed memory card (1 ∷ 2 ∷ []) ≡ some (card_after, good (export_name 1))
unfolding write_signed write_chosen choose pick is_free write_file write_loop finish_write decimal
    digits
exported = refl

abbrev found : List (FoundFile (List ℕ))
found =
    record { name = export_first; short_name = export_first; size = 1 }
    ∷ record { name = import_filename; short_name = import_filename; size = 1 }
    ∷ []

listed : list memory card ≡ some (card, good found)
unfolding list list_root visit_all visit visit_entry add_file sort_by insert has_psbt_extension
    extension after_dot text_eq starts_with_dot finish zeros text_le
listed = refl

read_named-Ends_example : Ends (read_named memory card import_filename 4096)
read_named-Ends_example = read_named-Ends memory card import_filename 4096

read_short_exact_example :
    IsWhole memory memory_laws (memory_laws.contents card) import_filename 4096 sample_bytes
    × (memory_laws.contents card ≡ memory_laws.contents card)
read_short_exact_example =
    read_short_exact memory memory_laws card card import_filename 4096 sample_bytes imported

write_signed-IsSaved_example :
    IsSaved memory memory_laws
      (memory_laws.contents card)
      (1 ∷ 2 ∷ [])
      (memory_laws.contents card_after)
      (good (export_name 1))
write_signed-IsSaved_example =
    write_signed-IsSaved memory memory_laws card card_after (1 ∷ 2 ∷ []) (good (export_name 1))
      exported

list-IsListing_example : IsListing memory (slots_of memory card) found
list-IsListing_example = list-IsListing memory card card found listed
