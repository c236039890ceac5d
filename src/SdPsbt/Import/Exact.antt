-- ===== src/SdPsbt/Import/Exact.antt =====
-- The read loop of src/sd_psbt.rs: it ends, and what it returns is the file.
use savepoint_signer.Prelude.{
  ℕ, zero, suc, ◌+◌, ◌-◌, ◌≤◌, refl, List, [], ◌∷◌, arith, min, ltb, ◌==◌, inl, inr, zeros,
  Bool-cases, Option-cases,
}
use savepoint_signer.SdPsbt.{Reply, good, fault, Volume, Opened-cases, read_only, ReadError}
use savepoint_signer.SdPsbt.Volumes.{Ends, with_root-Ends}
use savepoint_signer.SdPsbt.Import.{
  read_loop, close_read, read_open, read_file, read_short, read_named,
}

module _ (V : Volume) where
  read_loop-Ends :
      (n size : ℕ) (d : V.Disk) (f : V.File) (offset : ℕ) (bytes : List ℕ)
      → size ≤ offset + n
      → Ends (read_loop V n size d f offset bytes)
  unfolding read_loop
  read_loop-Ends zero size d f offset bytes h = elim (Bool-cases (ltb offset size)) [
    | inl e ↦ absurd (ground arith)
    | inr e ↦ rw e (_, refl)
  ]
  read_loop-Ends (suc n) size d f offset bytes h = elim (Bool-cases (ltb offset size)) [
    | inr e ↦ rw e (_, refl)
    | inl e ↦ elim (Option-cases (V.read d f (min (offset + 256) size - offset)).2) [
      | inl c ↦ rw (e, c) (_, refl)
      | inr ([], c) ↦ rw (e, c) (_, refl)
      | inr (b ∷ bs, c) ↦ rw (e, c) (read_loop-Ends n size _ _ _ _ (omega arith))
    ]
  ]

  close_read-Ends :
      (d : V.Disk) (f : V.File) (r : Reply ReadError (List ℕ)) → Ends (close_read V d f r)
  unfolding close_read
  close_read-Ends d f (good bytes) = (_, refl)
  close_read-Ends d f (fault e) = (_, refl)

  read_open-Ends :
      (max_bytes : ℕ) (d : V.Disk) (f : V.File) → Ends (read_open V (V.file_length f) max_bytes d f)
  unfolding read_open
  read_open-Ends max_bytes d f = elim (Bool-cases (V.file_length f == 0)) [
    | inl z ↦ rw z (_, refl)
    | inr z ↦ elim (Bool-cases (ltb max_bytes (V.file_length f))) [
      | inl l ↦ rw (z, l) (_, refl)
      | inr l ↦
          let (r, e) =
            read_loop-Ends (V.file_length f) (V.file_length f) d f 0 (zeros (V.file_length f))
              (omega arith) in
          rw (z, l, e) (close_read-Ends r.0 r.1 r.2)
    ]
  ]

  read_file-Ends : (sfn : V.Name) (max_bytes : ℕ) (d : V.Disk) → Ends (read_file V sfn max_bytes d)
  unfolding read_file
  read_file-Ends sfn max_bytes d = elim (Opened-cases (V.open_file_in_dir d sfn read_only).1) [
    | inl (f, e) ↦ rw (read_file, e) (read_open-Ends max_bytes _ f)
    | inr (inl e) ↦ rw (read_file, e) (_, refl)
    | inr (inr e) ↦ rw (read_file, e) (_, refl)
  ]

  pub read_short-Ends :
      (d : V.Disk) (sfn : V.Name) (max_bytes : ℕ) → Ends (read_short V d sfn max_bytes)
  unfolding read_short
  read_short-Ends d sfn max_bytes = with_root-Ends V _ _ _ d (read_file-Ends sfn max_bytes)

  -- Reading a file, whatever the card answers, ends: every turn of the loop that goes on has read at
  -- least one byte, so that the length of the file bounds the turns.
  pub read_named-Ends :
      (d : V.Disk) (alias : List ℕ) (max_bytes : ℕ) → Ends (read_named V d alias max_bytes)
  unfolding read_named
  read_named-Ends d alias max_bytes = elim (Option-cases (V.create_from_str alias)) [
    | inl e ↦ rw (read_named, e) (_, refl)
    | inr (sfn, e) ↦ rw (read_named, e) (read_short-Ends d sfn max_bytes)
  ]
