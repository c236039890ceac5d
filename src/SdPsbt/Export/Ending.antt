-- ===== src/SdPsbt/Export/Ending.antt =====
-- `write_signed` of src/sd_psbt.rs ends.
use savepoint_signer.Prelude.{
  ℕ, zero, suc, ◌+◌, ◌-◌, ◌≤◌, refl, List, arith, min, ltb, ◌==◌, inl, inr, length, take, drop,
  Bool-cases, Option-cases,
}
use savepoint_signer.SdPsbt.{Reply-cases, Volume, Opened-cases, create_or_truncate}
use savepoint_signer.SdPsbt.Volumes.{Ends, with_root-Ends}
use savepoint_signer.SdPsbt.Export.{choose, write_loop, write_file, write_chosen, write_signed}

module _ (V : Volume) where
  write_loop-Ends :
      (n : ℕ) (d : V.Disk) (f : V.File) (bytes : List ℕ) (offset : ℕ)
      → length bytes ≤ offset + n
      → Ends (write_loop V n d f bytes offset)
  unfolding write_loop
  write_loop-Ends zero d f bytes offset h = elim (Bool-cases (ltb offset (length bytes))) [
    | inl e ↦ absurd (ground arith)
    | inr e ↦ rw e (_, refl)
  ]
  write_loop-Ends (suc n) d f bytes offset h =
      let end = min (offset + 256) (length bytes) in
      elim (Bool-cases (ltb offset (length bytes))) [
        | inr e ↦ rw e (_, refl)
        | inl e ↦ elim (Bool-cases (V.write d f (take (end - offset) (drop offset bytes))).2) [
          | inr w ↦ rw (e, w) (_, refl)
          | inl w ↦ rw (e, w) (write_loop-Ends n _ _ bytes end (ground arith))
        ]
      ]

  write_file-Ends : (d : V.Disk) (name bytes : List ℕ) → Ends (write_file V d name bytes)
  unfolding write_file
  write_file-Ends d name bytes = elim (Option-cases (V.create_from_str name)) [
    | inl c ↦ rw (write_file, c) (_, refl)
    | inr (sfn, c) ↦ elim (Opened-cases (V.open_file_in_dir d sfn create_or_truncate).1) [
      | inr (inl e) ↦ rw (write_file, c, e) (_, refl)
      | inr (inr e) ↦ rw (write_file, c, e) (_, refl)
      | inl (f, e) ↦
          let (r, w) =
            write_loop-Ends (length bytes) (V.open_file_in_dir d sfn create_or_truncate).0 f bytes 0
              (omega arith) in
          rw (write_file, c, e, w) (_, refl)
    ]
  ]

  write_chosen-Ends : (bytes : List ℕ) (d : V.Disk) → Ends (write_chosen V bytes d)
  unfolding write_chosen
  write_chosen-Ends bytes d = elim (Reply-cases (choose V d).1) [
    | inl (name, e) ↦ rw (write_chosen, e) (write_file-Ends _ name bytes)
    | inr (w, e) ↦ rw (write_chosen, e) (_, refl)
  ]

  -- Saving a signed PSBT, whatever the card answers, ends with a name or an error.
  pub write_signed-Ends : (d : V.Disk) (bytes : List ℕ) → Ends (write_signed V d bytes)
  unfolding write_signed
  write_signed-Ends d bytes = elim (Bool-cases (length bytes == 0)) [
    | inl e ↦ rw e (_, refl)
    | inr e ↦ rw e (with_root-Ends V _ _ _ d (write_chosen-Ends bytes))
  ]
