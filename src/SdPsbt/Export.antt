-- ===== src/SdPsbt/Export.antt =====
-- `write_signed` of src/sd_psbt.rs: the choice of a free name, and the loop that writes. `none` stands
-- for a loop that has not ended.
use savepoint_signer.Prelude.{
  ℕ, zero, suc, ◌+◌, ◌-◌, Bool, true, false, Option, none, some, List, min, ltb, ◌==◌, length, take,
  drop, if◌then◌else◌,
}
use savepoint_signer.SdPsbt.{
  Reply, good, fault, Volume, opened, not_found, failed, read_only, create_or_truncate, WriteError,
  export_first, export_max_index, export_name, with_root,
}
use savepoint_signer.SdPsbt.WriteError.{
  volume, directory, open_error, short_name, too_many_exports, empty, write_error, flush_error,
  close_error,
}
pub mod Cause
pub mod Ending
pub mod Fresh

module _ (V : Volume) where
  -- `matches!(root.open_file_in_dir(…), Err(NotFound))`; a file that was opened is dropped.
  unfoldable pub is_free : V.Disk → V.Name → V.Disk × Bool
  is_free d sfn =
      let (d', handle) = V.open_file_in_dir d sfn read_only in
      elim handle [
        | opened f ↦ (V.drop_file d' f, false)
        | not_found ↦ (d', true)
        | failed ↦ (d', false)
      ]

  -- `for i in 1..=EXPORT_MAX_INDEX`: `n` names are left, the next has index `i`.
  unfoldable pub pick : ℕ → ℕ → V.Disk → V.Disk × Option (List ℕ)
  unfolding is_free
  pick zero i d = (d, none)
  pick (suc n) i d = elim (V.create_from_str (export_name i)) [
    | none ↦ pick n (i + 1) d
    | some sfn ↦
        let (d', free) = is_free d sfn in
        let rest = pick n (i + 1) d' in if free then (d', some (export_name i)) else rest
  ]

  unfoldable pub choose : V.Disk → V.Disk × Reply WriteError (List ℕ)
  unfolding pick
  choose d = elim (V.create_from_str export_first) [
    | none ↦ (d, fault short_name)
    | some sfn ↦
        let (d', free) = is_free d sfn in
        let (d'', picked) = pick export_max_index 1 d' in
        if free
        then (d', good export_first)
        else (d'', elim picked [ none ↦ fault too_many_exports | some name ↦ good name ])
  ]

  -- One turn writes at most 256 bytes from `offset` on; false on an error.
  unfoldable pub write_loop : ℕ → V.Disk → V.File → List ℕ → ℕ → Option (V.Disk × V.File × Bool)
  write_loop zero d f bytes offset = if ltb offset (length bytes) then none else some (d, f, true)
  write_loop (suc n) d f bytes offset =
      let end = min (offset + 256) (length bytes) in
      let (d', f', written) = V.write d f (take (end - offset) (drop offset bytes)) in
      let rest = write_loop n d' f' bytes end in
      if ltb offset (length bytes)
      then (if written then rest else some (d', f', false))
      else some (d, f, true)

  -- An error drops the file; the whole of it written, it is flushed and closed.
  unfoldable pub finish_write : V.Disk → V.File → Bool → List ℕ → V.Disk × Reply WriteError (List ℕ)
  finish_write d f false name = (V.drop_file d f, fault write_error)
  finish_write d f true name =
      let (d', flushed) = V.flush d f in
      let (d'', closed) = V.close d' f in
      if flushed
      then (d'', if closed then good name else fault close_error)
      else (V.drop_file d' f, fault flush_error)

  unfoldable pub write_file : V.Disk → List ℕ → List ℕ → Option (V.Disk × Reply WriteError (List ℕ))
  unfolding write_loop finish_write
  write_file d name bytes = elim (V.create_from_str name) [
    | none ↦ some (d, fault short_name)
    | some sfn ↦
        let (d', handle) = V.open_file_in_dir d sfn create_or_truncate in
        elim handle [
          | not_found ↦ some (d', fault open_error)
          | failed ↦ some (d', fault open_error)
          | opened f ↦ elim (write_loop (length bytes) d' f bytes 0) [
            | none ↦ none
            | some r ↦ some (finish_write r.0 r.1 r.2 name)
          ]
        ]
  ]

  unfoldable pub write_chosen : List ℕ → V.Disk → Option (V.Disk × Reply WriteError (List ℕ))
  unfolding choose write_file
  write_chosen bytes d =
      let (d', chosen) = choose d in
      elim chosen [ fault e ↦ some (d', fault e) | good name ↦ write_file d' name bytes ]

  unfoldable pub write_signed : V.Disk → List ℕ → Option (V.Disk × Reply WriteError (List ℕ))
  unfolding write_chosen
  write_signed d bytes =
      if length bytes == 0
      then some (d, fault empty)
      else with_root V volume directory (write_chosen bytes) d
