-- ===== src/SdPsbt/Import/Whole.antt =====
-- What the read loop of src/sd_psbt.rs returns is the content of the file.
use savepoint_signer.Prelude.{
  ℕ, zero, suc, ◌+◌, ◌-◌, ◌≤◌, ◌<◌, ◌≡◌, refl, ap, sym, ◌∙◌, Option, some, List, [], ◌∷◌, arith,
  min, ltb, ◌==◌, inl, inr, length, take, drop, zeros, copy_at, Bool-cases, Option-cases, take-add,
  take-copy_at_head, slice-copy_at, take_all, length-copy_at, length-zeros,
}
use savepoint_signer.SdPsbt.{Reply, good, fault, Volume, Opened-cases, read_only, ReadError}
use mathlib.Core.Path.{subst}
use savepoint_signer.SdPsbt.Volumes.{
  VolumeLaws, Returns, Gives, Returns-map, Gives-map, with_root_lem,
}
use savepoint_signer.SdPsbt.Import.{read_loop, close_read, read_open, read_file, read_short}

-- A copy at `i` extends the part of `bytes` that agrees with `file`.
agree-copy_at :
    (bytes file xs : List ℕ) (i : ℕ)
    → i + length xs ≤ length bytes
    → take i bytes ≡ take i file
    → xs ≡ take (length xs) (drop i file)
    → take (i + length xs) (copy_at bytes i xs) ≡ take (i + length xs) file
agree-copy_at bytes file xs i h same here =
    take-add i (length xs) (copy_at bytes i xs)
    ∙ cc (
      take-copy_at_head bytes xs i (omega arith),
      slice-copy_at bytes xs i (omega arith),
      same,
      here,
    )
    ∙ sym (take-add i (length xs) file)

all_read :
    (bytes file : List ℕ) (offset : ℕ)
    → take offset bytes ≡ take offset file
    → length bytes ≤ offset
    → length file ≤ offset
    → bytes ≡ file
all_read bytes file offset same h h' =
    sym (take_all bytes offset h) ∙ same ∙ take_all file offset h'

module _ (V : Volume) (L : VolumeLaws V) where
  read_loop_exact :
      (n size : ℕ) (d : V.Disk) (f : V.File) (offset : ℕ) (bytes file : List ℕ)
      → L.contents d (L.target f) ≡ some file
      → length file ≡ size
      → length bytes ≡ size
      → L.position f ≡ offset
      → offset ≤ size
      → take offset bytes ≡ take offset file
      → Returns (λ r. Gives (λ out. out ≡ file) r.2) (read_loop V n size d f offset bytes)
  unfolding read_loop
  read_loop_exact zero size d f offset bytes file h len len' pos le same =
      elim (Bool-cases (ltb offset size)) [
        | inl e ↦ rw e tt
        | inr e ↦ rw e (all_read bytes file offset same (ground arith) (ground arith))
      ]
  read_loop_exact (suc n) size d f offset bytes file h len len' pos le same =
      elim (Bool-cases (ltb offset size)) [
        | inr e ↦ rw e (all_read bytes file offset same (ground arith) (ground arith))
        | inl e ↦ elim (Option-cases (V.read d f (min (offset + 256) size - offset)).2) [
          | inl c ↦ rw (e, c) tt
          | inr ([], c) ↦ rw (e, c) tt
          | inr (b ∷ bs, c) ↦
              let (fits, eq, moved) = L.read_bytes d f _ file (b ∷ bs) h c in
              let e' : offset + length (b ∷ bs) ≤ size = ground arith in
              rw (e, c)
                (read_loop_exact n size _ _ _ _ file
                  (rw (L.read_keeps d f _, L.read_target d f _) h) len
                  (length-copy_at bytes offset (b ∷ bs) (omega arith) ∙ len')
                  (moved ∙ ap (λ k. k + length (b ∷ bs)) pos) e'
                  (agree-copy_at bytes file (b ∷ bs) offset (omega arith) same (rw (sym pos) eq)))
        ]
      ]

  read_loop-keeps :
      (n size : ℕ) (d : V.Disk) (f : V.File) (offset : ℕ) (bytes : List ℕ)
      → Returns (λ r. L.contents r.0 ≡ L.contents d) (read_loop V n size d f offset bytes)
  unfolding read_loop
  read_loop-keeps zero size d f offset bytes = elim (Bool-cases (ltb offset size)) [
    | inl e ↦ rw e tt
    | inr e ↦ rw e refl
  ]
  read_loop-keeps (suc n) size d f offset bytes = elim (Bool-cases (ltb offset size)) [
    | inr e ↦ rw e refl
    | inl e ↦ elim (Option-cases (V.read d f (min (offset + 256) size - offset)).2) [
      | inl c ↦ rw (e, c) (L.read_keeps d f _)
      | inr ([], c) ↦ rw (e, c) (L.read_keeps d f _)
      | inr (b ∷ bs, c) ↦
          rw (e, c)
            (Returns-map (λ r h. h ∙ L.read_keeps d f _)
              (read_loop V n size _ _ (offset + length (b ∷ bs)) (copy_at bytes offset (b ∷ bs)))
              (read_loop-keeps n size _ _ _ _))
    ]
  ]

  close_read_lem :
      (P : List ℕ → Type 0) (d d0 : V.Disk) (f : V.File) (r : Reply ReadError (List ℕ))
      → L.contents d ≡ L.contents d0
      → Gives P r
      → Returns (λ a. (L.contents a.0 ≡ L.contents d0) × Gives P a.1) (close_read V d f r)
  unfolding close_read
  close_read_lem P d d0 f (fault e) h p = (L.drop_file_keeps d f ∙ h, tt)
  close_read_lem P d d0 f (good bytes) h p = elim (Bool-cases (V.close d f).1) [
    | inl e ↦ rw e (L.close_keeps d f ∙ h, p)
    | inr e ↦ rw e (L.close_keeps d f ∙ h, tt)
  ]

  -- What `read_short` promises of its result, told by the files before it.
  abbrev pub IsWhole : (V.Name → Option (List ℕ)) → V.Name → ℕ → List ℕ → Type 0
  IsWhole files sfn max_bytes out =
      (files sfn ≡ some out) × (0 < length out) × (length out ≤ max_bytes)

  abbrev IsReply :
      (V.Name → Option (List ℕ))
      → V.Name
      → ℕ
      → (V.Name → Option (List ℕ))
      → Reply ReadError (List ℕ)
      → Type 0
  IsReply before sfn max_bytes after r = (after ≡ before) × Gives (IsWhole before sfn max_bytes) r

  read_open_lem :
      (d0 d : V.Disk) (sfn : V.Name) (max_bytes : ℕ) (f : V.File) (file : List ℕ)
      → L.contents d ≡ L.contents d0
      → L.contents d0 sfn ≡ some file
      → L.target f ≡ sfn
      → L.position f ≡ 0
      → V.file_length f ≡ length file
      → Returns
          (λ a. IsReply (L.contents d0) sfn max_bytes (L.contents a.0) a.1)
          (read_open V (V.file_length f) max_bytes d f)
  unfolding read_open
  read_open_lem d0 d sfn max_bytes f file h c t pos len =
      let size = V.file_length f in
      let k = L.drop_file_keeps d f ∙ h in
      elim (Bool-cases (size == 0)) [
        | inl z ↦ rw z (k, tt)
        | inr z ↦ elim (Bool-cases (ltb max_bytes size)) [
          | inl l ↦ rw (z, l) (k, tt)
          | inr l ↦
              let at_start : L.contents d (L.target f) ≡ some file = rw (h, t) c in
              let exact =
                read_loop_exact size size d f 0 (zeros size) file at_start (sym len)
                  (length-zeros size) pos (omega arith) refl in
              let kept = read_loop-keeps size size d f 0 (zeros size) in
              elim (Option-cases (read_loop V size size d f 0 (zeros size))) [
                | inl e ↦ rw (z, l, e) tt
                | inr (r, e) ↦
                    rw (z, l, e)
                      (close_read_lem (IsWhole (L.contents d0) sfn max_bytes) r.0 d0 r.1 r.2
                        (subst (Returns (λ r. L.contents r.0 ≡ L.contents d)) e kept ∙ h)
                        (Gives-map
                          (λ out eq.
                            (rw eq c, ground (arith, ap length eq), ground (arith, ap length eq)))
                          r.2 (subst (Returns (λ r. Gives (λ out. out ≡ file) r.2)) e exact)))
              ]
        ]
      ]

  read_file_lem :
      (d0 : V.Disk) (sfn : V.Name) (max_bytes : ℕ) (d : V.Disk)
      → L.contents d ≡ L.contents d0
      → Returns
          (λ a. IsReply (L.contents d0) sfn max_bytes (L.contents a.0) a.1)
          (read_file V sfn max_bytes d)
  unfolding read_file
  read_file_lem d0 sfn max_bytes d h = elim (Opened-cases (V.open_file_in_dir d sfn read_only).1) [
    | inl (f, e) ↦
        let (file, c, t, pos, len) = L.open_found d sfn f e in
        rw (read_file, e)
          (read_open_lem d0 _ sfn max_bytes f file (L.open_keeps d sfn ∙ h)
            (ap (λ g. g sfn) (sym h) ∙ c) t pos len)
    | inr (inl e) ↦ rw (read_file, e) (L.open_keeps d sfn ∙ h, tt)
    | inr (inr e) ↦ rw (read_file, e) (L.open_keeps d sfn ∙ h, tt)
  ]

  read_short_lem :
      (d : V.Disk) (sfn : V.Name) (max_bytes : ℕ)
      → Returns
          (λ a. IsReply (L.contents d) sfn max_bytes (L.contents a.0) a.1)
          (read_short V d sfn max_bytes)
  unfolding read_short
  read_short_lem d sfn max_bytes =
      with_root_lem V L (IsReply (L.contents d) sfn max_bytes) _ _ _ d (λ e. (refl, tt))
        (read_file_lem d sfn max_bytes)

  -- Bytes that `read_short` returns are the whole content of the file with that alias; they are not
  -- empty and not more than the limit. No file is changed.
  pub read_short_exact :
      (d d' : V.Disk) (sfn : V.Name) (max_bytes : ℕ) (bytes : List ℕ)
      → read_short V d sfn max_bytes ≡ some (d', good bytes)
      → IsWhole (L.contents d) sfn max_bytes bytes × (L.contents d' ≡ L.contents d)
  read_short_exact d d' sfn max_bytes bytes h =
      let (k, w) =
        subst (Returns (λ a. IsReply (L.contents d) sfn max_bytes (L.contents a.0) a.1)) h
          (read_short_lem d sfn max_bytes) in
      (w, k)

  pub read_short-keeps :
      (d d' : V.Disk) (sfn : V.Name) (max_bytes : ℕ) (r : Reply ReadError (List ℕ))
      → read_short V d sfn max_bytes ≡ some (d', r)
      → L.contents d' ≡ L.contents d
  read_short-keeps d d' sfn max_bytes r h =
      (subst (Returns (λ a. IsReply (L.contents d) sfn max_bytes (L.contents a.0) a.1)) h
        (read_short_lem d sfn max_bytes)).0
