-- ===== src/SdPsbt/Import.antt =====
-- `read_short`, `read_named` and `read` of src/sd_psbt.rs. The `while` loop takes fuel; `none` stands
-- for a loop that has not ended.
use savepoint_signer.Prelude.{
  ℕ, zero, suc, ◌+◌, ◌-◌, Option, none, some, List, [], ◌∷◌, min, ltb, ◌==◌, length, zeros, copy_at,
  if◌then◌else◌,
}
use savepoint_signer.SdPsbt.{
  Reply, good, fault, Volume, read_only, opened, not_found, failed, ReadError, import_filename,
  with_root,
}
use savepoint_signer.SdPsbt.ReadError.{
  volume, directory, missing, open_error, empty, too_large, read_error, unexpected_eof, close_error,
}
pub mod Exact
pub mod Whole

module _ (V : Volume) where
  -- One turn reads at most 256 bytes at `offset`.
  unfoldable pub read_loop :
      ℕ → ℕ → V.Disk → V.File → ℕ → List ℕ → Option (V.Disk × V.File × Reply ReadError (List ℕ))
  read_loop zero size d f offset bytes = if ltb offset size then none else some (d, f, good bytes)
  read_loop (suc n) size d f offset bytes =
      let (d', f', chunk) = V.read d f (min (offset + 256) size - offset) in
      if ltb offset size
      then (elim chunk [
        | none ↦ some (d', f', fault read_error)
        | some [] ↦ some (d', f', fault unexpected_eof)
        | some (b ∷ bs) ↦
            read_loop n size d' f' (offset + length (b ∷ bs)) (copy_at bytes offset (b ∷ bs))
      ])
      else some (d, f, good bytes)

  -- An error drops the file; the whole of it read, it is closed.
  unfoldable pub close_read :
      V.Disk → V.File → Reply ReadError (List ℕ) → Option (V.Disk × Reply ReadError (List ℕ))
  close_read d f (fault e) = some (V.drop_file d f, fault e)
  close_read d f (good bytes) =
      let (d', closed) = V.close d f in some (d', if closed then good bytes else fault close_error)

  -- The open file, from the test of its length on.
  unfoldable pub read_open : ℕ → ℕ → V.Disk → V.File → Option (V.Disk × Reply ReadError (List ℕ))
  unfolding read_loop close_read
  read_open fuel max_bytes d f =
      let size = V.file_length f in
      if size == 0
      then some (V.drop_file d f, fault empty)
      else if ltb max_bytes size
      then some (V.drop_file d f, fault too_large)
      else (elim (read_loop fuel size d f 0 (zeros size)) [
        | none ↦ none
        | some r ↦ close_read r.0 r.1 r.2
      ])

  -- Fuel as much as the file is long.
  unfoldable pub read_file : V.Name → ℕ → V.Disk → Option (V.Disk × Reply ReadError (List ℕ))
  unfolding read_open
  read_file sfn max_bytes d =
      let (d', handle) = V.open_file_in_dir d sfn read_only in
      elim handle [
        | opened f ↦ read_open (V.file_length f) max_bytes d' f
        | not_found ↦ some (d', fault missing)
        | failed ↦ some (d', fault open_error)
      ]

  unfoldable pub read_short : V.Disk → V.Name → ℕ → Option (V.Disk × Reply ReadError (List ℕ))
  unfolding read_file
  read_short d sfn max_bytes = with_root V volume directory (read_file sfn max_bytes) d

  unfoldable pub read_named : V.Disk → List ℕ → ℕ → Option (V.Disk × Reply ReadError (List ℕ))
  unfolding read_short
  read_named d alias max_bytes = elim (V.create_from_str alias) [
    | none ↦ some (d, fault open_error)
    | some sfn ↦ read_short d sfn max_bytes
  ]
