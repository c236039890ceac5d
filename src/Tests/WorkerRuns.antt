-- ===== src/Tests/WorkerRuns.antt =====
-- The theorems on the worker and its report on the small instance.
use savepoint_signer.Prelude.{
  ℕ, ◌≡◌, refl, false, some, List, [], ◌∷◌, arith, zeros, length-zeros, copy_at,
}
use savepoint_signer.Signer.Result.{ok}
use savepoint_signer.Signer.Seed.{
  SeedSession, Review, derive_all, master, fingerprint, public_at, in_account, coin_type,
}
use savepoint_signer.Signer.Review.{
  review_psbt, parse_bounded, review_parsed, check_origin, check_key, check_utxo, previous_matches,
  finish_review, check_outputs, check_output, check_change, build_review, check_fee,
}
use savepoint_signer.Signer.Terminal.{choosing, reviewing, default}
use savepoint_signer.Signer.Terminal.Command.{command, decode, dispatch, files_command, choose_file}
use savepoint_signer.Signer.Terminal.Flow.{load_psbt}
use savepoint_signer.Signer.Terminal.Report.{report, report_view}
use savepoint_signer.Signer.Terminal.Report.Display.{IsShown, report-IsShown, report-public}
use savepoint_signer.Signer.Terminal.Report.Bounds.{IsReport, report-IsReport}
use savepoint_signer.SdPsbt.{import_filename}
use savepoint_signer.SdPsbt.Import.{read_short, read_file, read_open, read_loop, close_read}
use savepoint_signer.SeedLink.{Link, new, take_request}
use savepoint_signer.CrystalSeed.Worker.{
  Worker, Core, new_worker, serve, serve_state, serve_loading, loaded, with_aliases,
  recover_if_busy, publish, poll,
}
use savepoint_signer.CrystalSeed.Worker.Files.{Keeps, poll-Keeps}
use savepoint_signer.CrystalSeed.Worker.Shown.{Agrees, serve-Agrees}
use savepoint_signer.CrystalSeed.Worker.Opened.{opened_is_shown}
use savepoint_signer.CrystalSeed.Worker.Saved.{IsStored, approved-IsStored}
use savepoint_signer.Tests.Memory.{memory, memory_laws}
use savepoint_signer.Tests.CardRuns.{card}
use savepoint_signer.Tests.Toy.{toy, session, sample_review}
use savepoint_signer.Tests.WalletRuns.{
  two_words, no_qr, on_screen, on_last_page, default-IsValid, sample_signed, signed_ok,
}

report-public_example :
    report two_words (record default {
      words = zeros 24;
      pass = zeros 100;
      seed = some session;
      address_index = 3;
      qr_buffer = [];
    })
    ≡ report two_words default
report-public_example = report-public two_words default (zeros 24) (zeros 100) (some session) 3 []

report-IsShown_example :
    (bytes : List ℕ) × (report two_words on_screen ≡ some bytes)
    × IsShown (record { address = 5 ∷ []; amount_sat = 900; is_change = false }) bytes
report-IsShown_example =
    report-IsShown two_words on_screen sample_review
      (record { address = 5 ∷ []; amount_sat = 900; is_change = false }) refl refl refl
      (length-zeros 4) (omega arith) (omega arith)

report-IsReport_example : IsReport (report two_words default)
report-IsReport_example =
    report-IsReport two_words default default-IsValid (length-zeros 52)
      (omega arith, (omega arith, tt))

abbrev picking : Worker memory
picking = record {
  terminal = record default {
    state = choosing;
    seed = some session;
    files = record { name = import_filename; alias = import_filename; size = 1 } ∷ [];
  };
  aliases = import_filename ∷ [];
}

abbrev opened_worker : Worker memory
opened_worker = record picking {
  terminal = record default { state = reviewing; seed = some session; review = some sample_review };
}

agreed : Agrees memory picking
agreed h = refl

file_opened : serve memory toy two_words no_qr picking card 24 ≡ some (opened_worker, card)
unfolding serve command decode dispatch files_command choose_file recover_if_busy serve_state
    serve_loading loaded with_aliases load_psbt read_short read_file read_open read_loop close_read
    copy_at zeros review_psbt parse_bounded fingerprint master review_parsed check_origin check_key
    public_at in_account coin_type derive_all check_utxo previous_matches finish_review
    check_outputs check_output check_change build_review check_fee
file_opened = refl

opened_is_shown_example :
    (sfn bytes : List ℕ) × (s : SeedSession) × (r : Review) × (sfn ≡ import_filename)
    × (memory_laws.contents card sfn ≡ some bytes)
    × (some session ≡ some s)
    × (review_psbt toy s bytes ≡ ok r)
    × (some sample_review ≡ some r)
opened_is_shown_example =
    opened_is_shown memory memory_laws toy two_words no_qr picking opened_worker card card
      (record { name = import_filename; alias = import_filename; size = 1 }) refl agreed refl
      file_opened refl

serve-Agrees_example : Agrees memory opened_worker
serve-Agrees_example =
    serve-Agrees memory toy two_words no_qr picking opened_worker card card 24 agreed file_opened

abbrev reviewed_worker : Worker memory
reviewed_worker = record { terminal = on_last_page; aliases = [] }

approved-IsStored_example :
    (after : Worker memory × List (List ℕ × List ℕ)) × (serve memory toy two_words no_qr
        reviewed_worker card 20
      ≡ some after)
    × IsStored memory memory_laws toy two_words no_qr card sample_signed.signed_psbt after
approved-IsStored_example =
    approved-IsStored memory memory_laws toy two_words no_qr reviewed_worker card session
      sample_review sample_signed refl refl refl refl signed_ok

abbrev requested : Link
requested = record new {
  queued = some (record { epoch = 1; ticket = 5; command = 3 });
  active = some (record { epoch = 1; ticket = 5; command = 3 });
  epoch = 1;
}

abbrev idle : Core memory
idle = record { link = requested; computing = false; worker = new_worker memory; disk = card }

polled : (core : Core memory) × (poll memory toy two_words no_qr idle ≡ some core)
unfolding poll take_request serve publish command decode dispatch recover_if_busy serve_state report
    report_view
polled = (_, refl)

poll-Keeps_example : Keeps memory memory_laws card polled.0.disk
poll-Keeps_example = poll-Keeps memory memory_laws toy two_words no_qr idle polled.0 polled.1
