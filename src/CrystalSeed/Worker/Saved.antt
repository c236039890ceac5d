-- ===== src/CrystalSeed/Worker/Saved.antt =====
-- From the approval of a review to the signed file on the card: src/crystal_seed.rs over
-- signer-probe/src/terminal.rs and src/sd_psbt.rs.
use savepoint_signer.Prelude.{
  ℕ, ◌+◌, ◌≡◌, refl, ◌⊎◌, inl, inr, Option, none, some, List, length, arith,
}
use savepoint_signer.Signer.Result.{ok}
use savepoint_signer.Signer.Bitcoin.{Bitcoin}
use savepoint_signer.Signer.Seed.{SeedSession, Review, SignedBinding}
use savepoint_signer.Signer.Sign.{binding, sign_psbt}
use savepoint_signer.Signer.Terminal.{
  reviewing, signing, saving, saved, error, Terminal, QrCode, psbt_error,
}
use savepoint_signer.Signer.Terminal.Command.{command, dispatch, decode, review_command}
use savepoint_signer.Signer.Terminal.Flow.{finish_signing, sign_review, psbt_saved}
use savepoint_signer.SdPsbt.{Reply, good, fault, Volume, WriteError}
use savepoint_signer.SdPsbt.Volumes.{VolumeLaws}
use savepoint_signer.SdPsbt.Export.{write_signed}
use savepoint_signer.SdPsbt.Export.Cause.{Cause, Blames, write_signed-Blames}
use savepoint_signer.SdPsbt.Export.Ending.{write_signed-Ends}
use savepoint_signer.SdPsbt.Export.Fresh.{IsOwn, IsSaved, write_signed-IsSaved}
use savepoint_signer.CrystalSeed.Worker.{
  Worker, stored, serve_signing, serve_state, recover_if_busy, serve,
}

module _ (V : Volume) (L : VolumeLaws V) (c : Bitcoin) (word_list : List (List ℕ))
    (encode_qr : List ℕ → Option QrCode) where
  -- The terminal names a new file that holds the bytes, or it shows an error, the write has failed, and
  -- the failure has its cause.
  abbrev pub IsStored : V.Disk → List ℕ → Worker V × V.Disk → Type 0
  IsStored d bytes r =
      ((r.0.terminal.state ≡ saved)
        × IsOwn V L (L.contents d) bytes (L.contents r.1) r.0.terminal.psbt_message)
      ⊎ ((r.0.terminal.state ≡ error)
          × ((e : WriteError) × (write_signed V d bytes ≡ some (r.1, fault e)) × Cause V bytes e))

  stored-IsStored :
      (w : Worker V) (t : Terminal) (d d' : V.Disk) (bytes : List ℕ) (r : Reply WriteError (List ℕ))
      → t.state ≡ saving
      → write_signed V d bytes ≡ some (d', r)
      → IsSaved V L (L.contents d) bytes (L.contents d') r
      → Blames V bytes r
      → IsStored d bytes (record w { terminal = stored V c t r }, d')
  unfolding stored psbt_saved psbt_error
  stored-IsStored w t d d' bytes (good name) s w_ok (kept, own) cause = inl (rw s (refl, own))
  stored-IsStored w t d d' bytes (fault e) s failed h cause = inr (refl, (e, failed, cause))

  approve :
      (t : Terminal) (r : Review)
      → t.state ≡ reviewing
      → t.review ≡ some r
      → t.review_page ≡ length r.outputs + 1
      → command c word_list encode_qr t 20 ≡ some (record t { state = signing })
  unfolding command dispatch decode review_command
  approve t r s e p = ground arith

  -- APPROVE_PSBT on the last page of a review whose signing succeeds: the request is served to its end,
  -- and then either the terminal names a file that was not on the card before and that
  -- now holds the signed PSBT, or it shows an error, and then `write_signed` has failed because an
  -- operation of the card fails, the FAT library refuses a name, no export name is found free or there is
  -- nothing to write.
  pub approved-IsStored :
      (w : Worker V) (d : V.Disk) (s : SeedSession) (r : Review) (signed : SignedBinding)
      → w.terminal.state ≡ reviewing
      → w.terminal.review ≡ some r
      → w.terminal.review_page ≡ length r.outputs + 1
      → w.terminal.seed ≡ some s
      → sign_psbt c s (binding c r) ≡ ok signed
      → (after : Worker V × V.Disk) × (serve V c word_list encode_qr w d 20 ≡ some after)
        × IsStored d signed.signed_psbt after
  unfolding serve finish_signing sign_review
  approved-IsStored w d s r signed st rv pg sd sg =
      let t = record w.terminal { state = signing } in
      let t' = record w.terminal { review = none; state = saving } in
      let e1 = approve w.terminal r st rv pg in
      let e2 : finish_signing c t ≡ some (t', some signed.signed_psbt) = cc (rv, sd, sg) in
      let (after, e3) = write_signed-Ends V d signed.signed_psbt in
      let served = record w { terminal = stored V c t' after.1 } in
      (
        (served, after.0),
        rw (serve, e1, recover_if_busy, serve_state, serve_signing, e2, e3) refl,
        stored-IsStored w t' d after.0 signed.signed_psbt after.1 refl e3
            (write_signed-IsSaved V L d after.0 signed.signed_psbt after.1 e3)
            (write_signed-Blames V d after.0 signed.signed_psbt after.1 e3),
      )
