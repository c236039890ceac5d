-- ===== src/SdPsbt/Export/Cause.antt =====
-- Why `write_signed` of src/sd_psbt.rs fails: an operation of the card that failed, a name that the
-- FAT library refuses, names that are all taken, or nothing to write.
use mathlib.Core.Path.{subst}
use savepoint_signer.Prelude.{
  ℕ, zero, suc, ◌+◌, ◌-◌, ◌≡◌, ◌≢◌, refl, ◌⊎◌, none, some, List, arith, min, ltb, ◌==◌, inl, inr,
  length, take, drop, Bool, Bool-cases, Option-cases, true, false,
}
use savepoint_signer.SdPsbt.{
  Reply, good, fault, Reply-cases, Volume, Opened-cases, not_found, failed, read_only,
  create_or_truncate, WriteError, export_name, export_first, export_max_index,
}
use savepoint_signer.SdPsbt.WriteError.{
  volume, directory, open_error, short_name, too_many_exports, empty, write_error, flush_error,
  close_error,
}
use savepoint_signer.SdPsbt.Volumes.{Returns}
use savepoint_signer.SdPsbt.Export.{
  is_free, pick, choose, write_loop, finish_write, write_file, write_chosen, write_signed,
}

module _ (V : Volume) where
  -- The name is refused, or to open it for reading does not say that there is no such file.
  abbrev pub IsTaken : List ℕ → Type 0
  IsTaken name =
      (V.create_from_str name ≡ none)
      ⊎ ((sfn : V.Name) × (d : V.Disk) × (V.create_from_str name ≡ some sfn)
          × ((V.open_file_in_dir d sfn read_only).1 ≢ not_found))

  -- The next `n` names for an export, from index `i` on.
  abbrev pub AreTaken : ℕ → ℕ → Type 0
  AreTaken zero i = Unit
  AreTaken (suc n) i = IsTaken (export_name i) × AreTaken n (i + 1)

  abbrev pub HasFailedWrite : Type 0
  HasFailedWrite = (d : V.Disk) × (f : V.File) × (xs : List ℕ) × ((V.write d f xs).2 ≡ false)

  -- What an error of `write_signed` tells.
  abbrev pub Cause : List ℕ → WriteError → Type 0
  Cause bytes volume = (d : V.Disk) × ((V.open_volume d).1 ≡ false)
  Cause bytes directory = (d : V.Disk) × ((V.open_root_dir d).1 ≡ false)
  Cause bytes open_error =
      (d : V.Disk) × (sfn : V.Name) × (((V.open_file_in_dir d sfn create_or_truncate).1 ≡ not_found)
        ⊎ ((V.open_file_in_dir d sfn create_or_truncate).1 ≡ failed))
  Cause bytes short_name = (name : List ℕ) × (V.create_from_str name ≡ none)
  Cause bytes too_many_exports = IsTaken export_first × AreTaken 9 1
  Cause bytes empty = length bytes ≡ 0
  Cause bytes write_error = HasFailedWrite
  Cause bytes flush_error = (d : V.Disk) × (f : V.File) × ((V.flush d f).1 ≡ false)
  Cause bytes close_error = (d : V.Disk) × (f : V.File) × ((V.close d f).1 ≡ false)

  -- A failure has its cause.
  abbrev pub Blames : List ℕ → Reply WriteError (List ℕ) → Type 0
  Blames bytes (good name) = Unit
  Blames bytes (fault e) = Cause bytes e

  is_free-taken :
      (d : V.Disk) (sfn : V.Name)
      → (is_free V d sfn).1 ≡ false
      → (V.open_file_in_dir d sfn read_only).1 ≢ not_found
  unfolding is_free
  is_free-taken d sfn h e = absurd (cc (h, e))

  pick-AreTaken : (n i : ℕ) (d : V.Disk) → (pick V n i d).1 ≡ none → AreTaken n i
  unfolding pick
  pick-AreTaken zero i d h = tt
  pick-AreTaken (suc n) i d h = elim (Option-cases (V.create_from_str (export_name i))) [
    | inl c ↦ (inl c, pick-AreTaken n (i + 1) d (rw (pick, c) at h))
    | inr (sfn, c) ↦ elim (Bool-cases (is_free V d sfn).1) [
      | inl f ↦ absurd (cc (rw (pick, c, f) at h))
      | inr f ↦ (
        inr (sfn, d, c, is_free-taken d sfn f),
        pick-AreTaken n (i + 1) (is_free V d sfn).0 (rw (pick, c, f) at h),
      )
    ]
  ]

  choose-Blames : (bytes : List ℕ) (d : V.Disk) → Blames bytes (choose V d).1
  unfolding choose
  choose-Blames bytes d = elim (Option-cases (V.create_from_str export_first)) [
    | inl c ↦ rw (choose, c) (export_first, c)
    | inr (sfn, c) ↦ elim (Bool-cases (is_free V d sfn).1) [
      | inl f ↦ rw (choose, c, f) tt
      | inr f ↦
          let d' = (is_free V d sfn).0 in
          elim (Option-cases (pick V export_max_index 1 d').1) [
            | inr (name, p) ↦ rw (choose, c, f, p) tt
            | inl p ↦
                rw (choose, c, f, p)
                  (inr (sfn, d, c, is_free-taken d sfn f), pick-AreTaken 9 1 d' p)
          ]
    ]
  ]

  -- Either the loop has written all, or a write has failed.
  LoopBlames : V.Disk × V.File × Bool → Type 0
  LoopBlames r = (r.2 ≡ true) ⊎ HasFailedWrite

  write_loop-Blames :
      (n : ℕ) (d : V.Disk) (f : V.File) (bytes : List ℕ) (offset : ℕ)
      → Returns LoopBlames (write_loop V n d f bytes offset)
  unfolding write_loop LoopBlames
  write_loop-Blames zero d f bytes offset = elim (Bool-cases (ltb offset (length bytes))) [
    | inl e ↦ rw e tt
    | inr e ↦ rw e (inl refl)
  ]
  write_loop-Blames (suc n) d f bytes offset =
      let end = min (offset + 256) (length bytes) in
      let chunk = take (end - offset) (drop offset bytes) in
      elim (Bool-cases (ltb offset (length bytes))) [
        | inr e ↦ rw e (inl refl)
        | inl e ↦ elim (Bool-cases (V.write d f chunk).2) [
          | inr w ↦ rw (e, w) (inr (d, f, chunk, w))
          | inl w ↦ rw (e, w) (write_loop-Blames n _ _ bytes end)
        ]
      ]

  finish_write-Blames :
      (d : V.Disk) (f : V.File) (written : Bool) (name bytes : List ℕ)
      → (written ≡ true) ⊎ HasFailedWrite
      → Blames bytes (finish_write V d f written name).1
  unfolding finish_write
  finish_write-Blames d f false name bytes (inl h) = absurd (cc h)
  finish_write-Blames d f false name bytes (inr h) = h
  finish_write-Blames d f true name bytes h = elim (Bool-cases (V.flush d f).1) [
    | inr e ↦ rw (finish_write, e) (d, f, e)
    | inl e ↦ elim (Bool-cases (V.close (V.flush d f).0 f).1) [
      | inl k ↦ rw (finish_write, e, k) tt
      | inr k ↦ rw (finish_write, e, k) ((V.flush d f).0, f, k)
    ]
  ]

  write_file-Blames :
      (d : V.Disk) (name bytes : List ℕ)
      → Returns (λ a. Blames bytes a.1) (write_file V d name bytes)
  unfolding write_file LoopBlames
  write_file-Blames d name bytes = elim (Option-cases (V.create_from_str name)) [
    | inl c ↦ rw (write_file, c) (name, c)
    | inr (sfn, c) ↦ elim (Opened-cases (V.open_file_in_dir d sfn create_or_truncate).1) [
      | inr (inl e) ↦ rw (write_file, c, e) (d, sfn, inl e)
      | inr (inr e) ↦ rw (write_file, c, e) (d, sfn, inr e)
      | inl (f, e) ↦
          let d' = (V.open_file_in_dir d sfn create_or_truncate).0 in
          elim (Option-cases (write_loop V (length bytes) d' f bytes 0)) [
            | inl w ↦ rw (write_file, c, e, w) tt
            | inr (r, w) ↦
                rw (write_file, c, e, w)
                  (finish_write-Blames r.0 r.1 r.2 name bytes
                    (subst (Returns LoopBlames) w (write_loop-Blames (length bytes) d' f bytes 0)))
          ]
    ]
  ]

  write_chosen-Blames :
      (bytes : List ℕ) (d : V.Disk) → Returns (λ a. Blames bytes a.1) (write_chosen V bytes d)
  unfolding write_chosen
  write_chosen-Blames bytes d = elim (Reply-cases (choose V d).1) [
    | inl (name, e) ↦ rw (write_chosen, e) (write_file-Blames (choose V d).0 name bytes)
    | inr (w, e) ↦ rw (write_chosen, e) (subst (Blames bytes) e (choose-Blames bytes d))
  ]

  -- Every failure of `write_signed` has its cause.
  write_signed_lem-Blames :
      (d : V.Disk) (bytes : List ℕ) → Returns (λ a. Blames bytes a.1) (write_signed V d bytes)
  unfolding write_signed
  write_signed_lem-Blames d bytes = elim (Bool-cases (length bytes == 0)) [
    | inl e ↦ rw e (ground (arith, e))
    | inr e ↦ elim (Bool-cases (V.open_volume d).1) [
      | inr m ↦ rw (e, m) (d, m)
      | inl m ↦ elim (Bool-cases (V.open_root_dir (V.open_volume d).0).1) [
        | inr r ↦ rw (e, m, r) ((V.open_volume d).0, r)
        | inl r ↦
            let d2 = (V.open_root_dir (V.open_volume d).0).0 in
            elim (Option-cases (write_chosen V bytes d2)) [
              | inl b ↦ rw (e, m, r, b) tt
              | inr (a, b) ↦
                  rw (e, m, r, b)
                    (subst (Returns (λ x. Blames bytes x.1)) b (write_chosen-Blames bytes d2))
            ]
      ]
    ]
  ]

  pub write_signed-Blames :
      (d d' : V.Disk) (bytes : List ℕ) (r : Reply WriteError (List ℕ))
      → write_signed V d bytes ≡ some (d', r)
      → Blames bytes r
  write_signed-Blames d d' bytes r h =
      subst (Returns (λ a. Blames bytes a.1)) h (write_signed_lem-Blames d bytes)
