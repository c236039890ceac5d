-- ===== src/CrystalSeed/Worker.antt =====
-- src/crystal_seed.rs on core 1: `Worker::poll` serves one request of the link with the terminal and
-- the SD card. `none` stands for a panic.
use savepoint_signer.Prelude.{ℕ, Bool, true, false, Option, none, some, List, [], map, get_elem?}
use savepoint_signer.SeedLink.{Link, Request, take_request, finish}
use savepoint_signer.Signer.Bitcoin.{Bitcoin}
use savepoint_signer.Signer.Seed.{max_psbt_bytes}
use savepoint_signer.Signer.Terminal.{
  State, busy, listing, loading, signing, Terminal, PsbtFile, QrCode, default, psbt_error,
}
use savepoint_signer.Signer.Terminal.Command.{command}
use savepoint_signer.Signer.Terminal.Flow.{
  finish_recovery, load_psbt, finish_signing, set_files, psbt_saved,
}
use savepoint_signer.Signer.Terminal.Report.{report}
use savepoint_signer.SdPsbt.{Reply, good, fault, Volume, ReadError, WriteError}
use savepoint_signer.SdPsbt.Import.{read_short}
use savepoint_signer.SdPsbt.Export.{write_signed}
use savepoint_signer.SdPsbt.Listing.{FoundFile, list}
pub mod Files
pub mod Picker
pub mod Shown
pub mod Opened
pub mod Saved

module _ (V : Volume) where
  pub record Worker : Type 0 where
    pub terminal : Terminal
    pub aliases : List V.Name

  abbrev pub new_worker : Worker
  new_worker = record { terminal = default; aliases = [] }

  -- What core 1 reads and writes: the link that it shares with core 0, the flag `COMPUTING`, the
  -- worker and the card.
  pub record Core : Type 0 where
    pub link : Link
    pub computing : Bool
    pub worker : Worker
    pub disk : V.Disk

  abbrev pub psbt_file : FoundFile V.Name → PsbtFile
  psbt_file f = record { name = f.name; alias = V.name_text f.short_name; size = f.size }

  -- The branch of PSBT_LISTING.
  unfoldable pub scanned : Terminal → Reply ReadError (List (FoundFile V.Name)) → Worker
  scanned t (good files) = record {
    terminal = set_files t (map psbt_file files);
    aliases = map (λ f. f.short_name) files;
  }
  scanned t (fault e) = record { terminal = psbt_error t "SD listing failed"; aliases = [] }

  unfoldable pub serve_listing : Terminal → V.Disk → Option (Worker × V.Disk)
  unfolding scanned
  serve_listing t d = elim (list V d) [ none ↦ none | some r ↦ some (scanned t r.1, r.0) ]

  module _ (c : Bitcoin) where
    -- The branch of PSBT_LOADING.
    unfoldable pub loaded : Terminal → Reply ReadError (List ℕ) → Option Terminal
    unfolding load_psbt psbt_error
    loaded t (good bytes) = load_psbt c t bytes
    loaded t (fault e) = some (psbt_error t "SD read failed")

    unfoldable pub with_aliases : List V.Name → V.Disk → Option Terminal → Option (Worker × V.Disk)
    with_aliases aliases d none = none
    with_aliases aliases d (some t) = some (record { terminal = t; aliases = aliases }, d)

    unfoldable pub serve_loading : Worker → V.Disk → Option (Worker × V.Disk)
    unfolding loaded with_aliases
    serve_loading w d = elim (get_elem? w.aliases w.terminal.file_index) [
      | none ↦ some (record w { terminal = psbt_error w.terminal "Rescan SD" }, d)
      | some alias ↦ elim (read_short V d alias max_psbt_bytes) [
        | none ↦ none
        | some r ↦ with_aliases w.aliases r.0 (loaded w.terminal r.1)
      ]
    ]

    -- The branch of PSBT_SIGNING.
    unfoldable pub stored : Terminal → Reply WriteError (List ℕ) → Terminal
    unfolding psbt_saved psbt_error
    stored t (good name) = psbt_saved t name
    stored t (fault e) = psbt_error t "SD write failed"

    unfoldable pub serve_signing : Worker → V.Disk → Option (Worker × V.Disk)
    unfolding stored
    serve_signing w d = elim (finish_signing c w.terminal) [
      | none ↦ none
      | some (t, none) ↦ some (record w { terminal = t }, d)
      | some (t, some bytes) ↦ elim (write_signed V d bytes) [
        | none ↦ none
        | some r ↦ some (record w { terminal = stored t r.1 }, r.0)
      ]
    ]

    -- The three branches on the state.
    unfoldable pub serve_state : State → Worker → V.Disk → Option (Worker × V.Disk)
    unfolding serve_listing serve_loading serve_signing
    serve_state listing w d = serve_listing w.terminal d
    serve_state loading w d = serve_loading w d
    serve_state signing w d = serve_signing w d
    serve_state _ w d = some (w, d)

    module _ (word_list : List (List ℕ)) (encode_qr : List ℕ → Option QrCode) where
      unfoldable pub recover_if_busy : State → Terminal → Option Terminal
      unfolding finish_recovery
      recover_if_busy busy t = finish_recovery c word_list t
      recover_if_busy _ t = some t

      -- From the command to the report: what `poll` does between its two accesses of the link.
      unfoldable pub serve : Worker → V.Disk → ℕ → Option (Worker × V.Disk)
      unfolding serve_state recover_if_busy
      serve w d b = elim (command c word_list encode_qr w.terminal b) [
        | none ↦ none
        | some t ↦ elim (recover_if_busy t.state t) [
          | none ↦ none
          | some t' ↦ serve_state t'.state (record w { terminal = t' }) d
        ]
      ]

      -- The report of the terminal is published for the request.
      unfoldable pub publish : Link → Request → Worker → V.Disk → Option Core
      unfolding report finish
      publish link request w d = elim (report word_list w.terminal) [
        | none ↦ none
        | some r ↦ some (record {
          link = (finish link request r w.terminal.qr_buffer).0;
          computing = false;
          worker = w;
          disk = d;
        })
      ]

      -- One call of `poll` that core 0 does not interrupt; `SeedLink.Protocol` has the interleavings.
      unfoldable pub poll : Core → Option Core
      unfolding serve publish
      poll core =
          let (link, taken) = take_request core.link in
          elim taken [
            | none ↦ some (record core { link = link })
            | some request ↦ elim (serve core.worker core.disk request.command) [
              | none ↦ none
              | some r ↦ publish link request r.0 r.1
            ]
          ]
