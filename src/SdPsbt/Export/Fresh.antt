-- ===== src/SdPsbt/Export/Fresh.antt =====
-- `write_signed` of src/sd_psbt.rs leaves every file that was there, and its own file is the PSBT.
use mathlib.Core.Path.{subst}
use savepoint_signer.Prelude.{
  ℕ, zero, suc, ◌+◌, ◌-◌, ◌≤◌, ◌≡◌, ◌≢◌, refl, ap, sym, ◌∙◌, Option, none, some, List, ◌++◌, arith,
  min, ltb, ◌==◌, inl, inr, length, take, drop, Bool, Bool-cases, Option-cases, true, false,
  take-add, length-take, take_all,
}
use savepoint_signer.SdPsbt.{
  Reply, Reply-cases, Volume, Opened-cases, read_only, create_or_truncate, WriteError, export_name,
  export_first, export_max_index,
}
use savepoint_signer.SdPsbt.Volumes.{
  VolumeLaws, Returns, Gives, Returns-map, Gives-map, with_root_lem,
}
use savepoint_signer.SdPsbt.Export.{
  is_free, pick, choose, write_loop, finish_write, write_file, write_chosen, write_signed,
}

-- The part of `bytes` up to `j` is the part up to `i` and a slice.
take-slice :
    (bytes : List ℕ) (i j : ℕ) → i ≤ j → take i bytes ++ take (j - i) (drop i bytes) ≡ take j bytes
take-slice bytes i j h =
    let e : i + (j - i) ≡ j = omega arith in
    sym (take-add i (j - i) bytes) ∙ ap (λ k. take k bytes) e

module _ (V : Volume) (L : VolumeLaws V) where
  -- A name that no file has.
  abbrev pub IsFresh : (V.Name → Option (List ℕ)) → List ℕ → Type 0
  IsFresh files name = (sfn : V.Name) × (V.create_from_str name ≡ some sfn) × (files sfn ≡ none)

  is_free-keeps : (d : V.Disk) (sfn : V.Name) → L.contents (is_free V d sfn).0 ≡ L.contents d
  unfolding is_free
  is_free-keeps d sfn = elim (Opened-cases (V.open_file_in_dir d sfn read_only).1) [
    | inl (f, e) ↦ rw (is_free, e) (L.drop_file_keeps _ f ∙ L.open_keeps d sfn)
    | inr (inl e) ↦ rw (is_free, e) (L.open_keeps d sfn)
    | inr (inr e) ↦ rw (is_free, e) (L.open_keeps d sfn)
  ]

  is_free-lem : (d : V.Disk) (sfn : V.Name) → (is_free V d sfn).1 ≡ true → L.contents d sfn ≡ none
  unfolding is_free
  is_free-lem d sfn h = elim (Opened-cases (V.open_file_in_dir d sfn read_only).1) [
    | inl (f, e) ↦ absurd (cc (e, h))
    | inr (inl e) ↦ L.open_missing d sfn e
    | inr (inr e) ↦ absurd (cc (e, h))
  ]

  pick-keeps : (n i : ℕ) (d : V.Disk) → L.contents (pick V n i d).0 ≡ L.contents d
  unfolding pick
  pick-keeps zero i d = refl
  pick-keeps (suc n) i d = elim (Option-cases (V.create_from_str (export_name i))) [
    | inl c ↦ rw (pick, c) (pick-keeps n (i + 1) d)
    | inr (sfn, c) ↦ elim (Bool-cases (is_free V d sfn).1) [
      | inl f ↦ rw (pick, c, f) (is_free-keeps d sfn)
      | inr f ↦ rw (pick, c, f) (pick-keeps n (i + 1) _ ∙ is_free-keeps d sfn)
    ]
  ]

  pick-IsFresh : (n i : ℕ) (d : V.Disk) → Returns (IsFresh (L.contents d)) (pick V n i d).1
  unfolding pick
  pick-IsFresh zero i d = tt
  pick-IsFresh (suc n) i d = elim (Option-cases (V.create_from_str (export_name i))) [
    | inl c ↦ rw (pick, c) (pick-IsFresh n (i + 1) d)
    | inr (sfn, c) ↦ elim (Bool-cases (is_free V d sfn).1) [
      | inl f ↦ rw (pick, c, f) (sfn, c, is_free-lem d sfn f)
      | inr f ↦ rw (pick, c, f, ← is_free-keeps d sfn) (pick-IsFresh n (i + 1) _)
    ]
  ]

  choose_lem :
      (d : V.Disk)
      → (L.contents (choose V d).0 ≡ L.contents d) × Gives (IsFresh (L.contents d)) (choose V d).1
  unfolding choose
  choose_lem d = elim (Option-cases (V.create_from_str export_first)) [
    | inl c ↦ rw (choose, c) (refl, tt)
    | inr (sfn, c) ↦ elim (Bool-cases (is_free V d sfn).1) [
      | inl f ↦ rw (choose, c, f) (is_free-keeps d sfn, (sfn, c, is_free-lem d sfn f))
      | inr f ↦
          let d' = (is_free V d sfn).0 in
          let kept = pick-keeps export_max_index 1 d' ∙ is_free-keeps d sfn in
          let fresh = pick-IsFresh export_max_index 1 d' in
          elim (Option-cases (pick V export_max_index 1 d').1) [
            | inl p ↦ rw (choose, c, f, p) (kept, tt)
            | inr (name, p) ↦
                rw (choose, c, f, p)
                  (
                    kept,
                    rw (← is_free-keeps d sfn) (subst (Returns (IsFresh (L.contents d'))) p fresh),
                  )
          ]
    ]
  ]

  -- The files after the loop: the others as they were, its own the whole of the bytes.
  IsWritten : V.Disk → V.Name → List ℕ → V.Disk × V.File × Bool → Type 0
  IsWritten d sfn bytes r =
      ((m : V.Name) → m ≢ sfn → L.contents r.0 m ≡ L.contents d m)
      × (r.2 ≡ true → L.contents r.0 sfn ≡ some bytes)

  write_loop_lem :
      (n : ℕ) (d : V.Disk) (f : V.File) (bytes : List ℕ) (offset : ℕ) (sfn : V.Name)
      → L.target f ≡ sfn
      → L.contents d sfn ≡ some (take offset bytes)
      → L.position f ≡ offset
      → offset ≤ length bytes
      → Returns (IsWritten d sfn bytes) (write_loop V n d f bytes offset)
  unfolding write_loop IsWritten
  write_loop_lem zero d f bytes offset sfn t c pos le =
      elim (Bool-cases (ltb offset (length bytes))) [
        | inl e ↦ rw e tt
        | inr e ↦ rw e (λ m h. refl, λ w. c ∙ ap some (take_all bytes offset (ground arith)))
      ]
  write_loop_lem (suc n) d f bytes offset sfn t c pos le =
      let end = min (offset + 256) (length bytes) in
      let chunk = take (end - offset) (drop offset bytes) in
      let others : (m : V.Name) → m ≢ sfn → L.contents (V.write d f chunk).0 m ≡ L.contents d m =
        λ m h. L.write_other d f chunk m (rw t h) in
      elim (Bool-cases (ltb offset (length bytes))) [
        | inr e ↦ rw e (λ m h. refl, λ w. c ∙ ap some (take_all bytes offset (ground arith)))
        | inl e ↦ elim (Bool-cases (V.write d f chunk).2) [
          | inr w ↦ rw (e, w) (others, λ k. absurd (cc k))
          | inl w ↦
              let (appended, moved) =
                L.write_append d f (take offset bytes) chunk (rw t c)
                  (pos ∙ omega (arith, length-take offset bytes)) w in
              let whole = take-slice bytes offset end (ground arith) in
              rw (e, w)
                (Returns-map {Q = IsWritten d sfn bytes} (λ r h. (λ m n. h.0 m n ∙ others m n, h.1))
                  _
                  (write_loop_lem n _ _ bytes end sfn (L.write_target d f chunk ∙ t)
                    (rw (t, whole) at appended)
                    (moved ∙ ap length whole ∙ omega (arith, length-take end bytes)) (omega arith)))
        ]
      ]

  finish_write-keeps :
      (d : V.Disk) (f : V.File) (written : Bool) (name : List ℕ)
      → L.contents (finish_write V d f written name).0 ≡ L.contents d
  unfolding finish_write
  finish_write-keeps d f false name = L.drop_file_keeps d f
  finish_write-keeps d f true name = elim (Bool-cases (V.flush d f).1) [
    | inl e ↦ rw (finish_write, e) (L.close_keeps _ f ∙ L.flush_keeps d f)
    | inr e ↦ rw (finish_write, e) (L.drop_file_keeps _ f ∙ L.flush_keeps d f)
  ]

  finish_write-good :
      (d : V.Disk) (f : V.File) (written : Bool) (name : List ℕ)
      → Gives (λ out. (out ≡ name) × (written ≡ true)) (finish_write V d f written name).1
  unfolding finish_write
  finish_write-good d f false name = tt
  finish_write-good d f true name = elim (Bool-cases (V.flush d f).1) [
    | inr e ↦ rw (finish_write, e) tt
    | inl e ↦ elim (Bool-cases (V.close (V.flush d f).0 f).1) [
      | inl k ↦ rw (finish_write, e, k) (refl, refl)
      | inr k ↦ rw (finish_write, e, k) tt
    ]
  ]

  -- The name is of a new file that holds the bytes.
  abbrev pub IsOwn :
      (V.Name → Option (List ℕ)) → List ℕ → (V.Name → Option (List ℕ)) → List ℕ → Type 0
  IsOwn before bytes after name =
      (sfn : V.Name) × (V.create_from_str name ≡ some sfn)
      × (before sfn ≡ none)
      × (after sfn ≡ some bytes)

  -- What a write leaves: every file that was there, and, with a name, a new file of these bytes.
  abbrev pub IsSaved :
      (V.Name → Option (List ℕ))
      → List ℕ
      → (V.Name → Option (List ℕ))
      → Reply WriteError (List ℕ)
      → Type 0
  IsSaved before bytes after r =
      ((m : V.Name) (b : List ℕ) → before m ≡ some b → after m ≡ some b)
      × Gives (IsOwn before bytes after) r

  write_file_lem :
      (d : V.Disk) (name bytes : List ℕ)
      → IsFresh (L.contents d) name
      → Returns (λ a. IsSaved (L.contents d) bytes (L.contents a.0) a.1) (write_file V d name bytes)
  unfolding write_file IsWritten
  write_file_lem d name bytes (sfn, c, none_before) =
      let apart : (m : V.Name) (b : List ℕ) → L.contents d m ≡ some b → m ≢ sfn =
        λ m b h eq. absurd (cc (ap (L.contents d) eq, h, none_before)) in
      let opened_keeps : (m : V.Name) (b : List ℕ)
          → L.contents d m ≡ some b
          → L.contents (V.open_file_in_dir d sfn create_or_truncate).0 m ≡ some b =
        λ m b h. L.create_other d sfn m (apart m b h) ∙ h in
      elim (Opened-cases (V.open_file_in_dir d sfn create_or_truncate).1) [
        | inr (inl e) ↦ rw (write_file, c, e) (opened_keeps, tt)
        | inr (inr e) ↦ rw (write_file, c, e) (opened_keeps, tt)
        | inl (f, e) ↦
            let d' = (V.open_file_in_dir d sfn create_or_truncate).0 in
            let (empty, t, pos) = L.create_empty d sfn f e in
            let done = write_loop_lem (length bytes) d' f bytes 0 sfn t empty pos (omega arith) in
            elim (Option-cases (write_loop V (length bytes) d' f bytes 0)) [
              | inl w ↦ rw (write_file, c, e, w) tt
              | inr (r, w) ↦
                  let (others, own) = subst (Returns (IsWritten d' sfn bytes)) w done in
                  rw (write_file, c, e, w, finish_write-keeps r.0 r.1 r.2 name)
                    (
                      (λ m b h. others m (apart m b h) ∙ opened_keeps m b h),
                      Gives-map {Q = λ out. IsOwn (L.contents d) bytes (L.contents r.0) out}
                          (λ out g. (sfn, ap V.create_from_str g.0 ∙ c, none_before, own g.1)) _
                          (finish_write-good r.0 r.1 r.2 name),
                    )
            ]
      ]

  write_chosen_lem :
      (d0 : V.Disk) (bytes : List ℕ) (d : V.Disk)
      → L.contents d ≡ L.contents d0
      → Returns (λ a. IsSaved (L.contents d0) bytes (L.contents a.0) a.1) (write_chosen V bytes d)
  unfolding write_chosen
  write_chosen_lem d0 bytes d h =
      let (kept, fresh) = choose_lem d in
      let kept' = kept ∙ h in
      elim (Reply-cases (choose V d).1) [
        | inr (w, e) ↦ rw (write_chosen, e, kept') (λ m b k. k, tt)
        | inl (name, e) ↦
            let fresh' : IsFresh (L.contents (choose V d).0) name =
              rw kept (subst (Gives (IsFresh (L.contents d))) e fresh) in
            rw (write_chosen, e, ← kept') (write_file_lem (choose V d).0 name bytes fresh')
      ]

  write_signed_lem :
      (d : V.Disk) (bytes : List ℕ)
      → Returns (λ a. IsSaved (L.contents d) bytes (L.contents a.0) a.1) (write_signed V d bytes)
  unfolding write_signed
  write_signed_lem d bytes = elim (Bool-cases (length bytes == 0)) [
    | inl e ↦ rw e (λ m b k. k, tt)
    | inr e ↦ rw e (
        with_root_lem V L (IsSaved (L.contents d) bytes) _ _ _ d (λ w. (λ m b k. k, tt))
          (write_chosen_lem d bytes))
  ]

  -- Saving a signed PSBT keeps the content of every file of the card, whether it succeeds or fails;
  -- a name that it returns is of a file that did not exist, whose content is now the PSBT.
  pub write_signed-IsSaved :
      (d d' : V.Disk) (bytes : List ℕ) (r : Reply WriteError (List ℕ))
      → write_signed V d bytes ≡ some (d', r)
      → IsSaved (L.contents d) bytes (L.contents d') r
  write_signed-IsSaved d d' bytes r h =
      subst (Returns (λ a. IsSaved (L.contents d) bytes (L.contents a.0) a.1)) h
        (write_signed_lem d bytes)
