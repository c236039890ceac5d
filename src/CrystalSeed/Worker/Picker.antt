-- ===== src/CrystalSeed/Worker/Picker.antt =====
-- When the terminal of signer-probe/src/terminal.rs is in the file picker.
use savepoint_signer.Prelude.{
  ℕ, ◌≡◌, ◌≢◌, inl, inr, Bool, true, false, Option, some, List, arith, Option-cases,
}
use savepoint_signer.Signer.Bitcoin.{Bitcoin}
use savepoint_signer.Signer.Seed.{SeedSession}
use savepoint_signer.Signer.Seed.{Review}
use savepoint_signer.Signer.Review.{review_psbt}
use savepoint_signer.Signer.Result.{ok, Result-cases}
use savepoint_signer.Signer.Terminal.Flow.{
  finish_recovery, recovered, show_identity, load_psbt, finish_signing, sign_review,
}
use savepoint_signer.Signer.Terminal.{
  busy, psbt_error, State, choosing, entering_words, entering_passphrase, reviewing, loading,
  signing, Terminal, QrCode,
}
use savepoint_signer.Signer.Terminal.Command.{
  Command, begin12, begin24, delete, lock, begin_main12, begin_main24, cancel_psbt, file_next,
  reset, begin_words, cancel, files_command, review_command, words_command, pass_command, export_qr,
  next_address, dispatch,
}

-- The terminal can only come to the picker with the same files.
abbrev pub Stays : Terminal → Terminal → Type 0
Stays t t' = t'.state ≡ choosing → (t.state ≡ choosing) × (t'.files ≡ t.files)

files_command-Stays :
    (k : Command) (t t' : Terminal) → t.state ≡ choosing → files_command k t ≡ some t' → Stays t t'
unfolding files_command
files_command-Stays file_next t t' s h = ground arith
files_command-Stays _ t t' s h = ground arith

words_command-Stays :
    (word_list : List (List ℕ)) (k : Command) (t t' : Terminal)
    → t.state ≡ entering_words
    → words_command word_list k t ≡ some t'
    → t'.state ≢ choosing
unfolding words_command
words_command-Stays word_list delete t t' s h = ground arith
words_command-Stays word_list _ t t' s h = ground arith

pass_command-Stays :
    (k : Command) (t t' : Terminal)
    → t.state ≡ entering_passphrase
    → pass_command k t ≡ some t'
    → t'.state ≢ choosing
unfolding pass_command
pass_command-Stays delete t t' s h = ground arith
pass_command-Stays _ t t' s h = ground arith

review_command-Stays :
    (k : Command) (t : Terminal) → t.state ≡ reviewing → (review_command k t).state ≢ choosing
unfolding review_command
review_command-Stays _ t s = ground arith

module _ (c : Bitcoin) (word_list : List (List ℕ)) (encode_qr : List ℕ → Option QrCode) where
  export_qr-Stays :
      (segwit : Bool) (t : Terminal) → (export_qr c word_list encode_qr segwit t).state ≢ choosing
  unfolding export_qr
  export_qr-Stays segwit t = ground arith

  next_address-Stays :
      (s : Option SeedSession) (t : Terminal)
      → (next_address c word_list encode_qr s t).state ≡ t.state
  unfolding next_address
  next_address-Stays s t = ground arith

  pub dispatch-Stays :
      (k : Command) (st : State) (t t' : Terminal)
      → t.state ≡ st
      → dispatch c word_list encode_qr k st t ≡ some t'
      → Stays t t'
  unfolding dispatch reset begin_words cancel
  dispatch-Stays lock st t t' s h = ground arith
  dispatch-Stays begin12 st t t' s h = ground arith
  dispatch-Stays begin24 st t t' s h = ground arith
  dispatch-Stays begin_main12 st t t' s h = ground arith
  dispatch-Stays begin_main24 st t t' s h = ground arith
  dispatch-Stays cancel_psbt choosing t t' s h = ground arith
  dispatch-Stays k choosing t t' s h = files_command-Stays k t t' s h
  dispatch-Stays cancel_psbt reviewing t t' s h = ground arith
  dispatch-Stays k reviewing t t' s h = λ e. absurd (review_command-Stays k t s (cc (h, e)))
  dispatch-Stays k entering_words t t' s h =
      λ e. absurd (words_command-Stays word_list k t t' s h e)
  dispatch-Stays k entering_passphrase t t' s h = λ e. absurd (pass_command-Stays k t t' s h e)
  dispatch-Stays k st t t' s h =
      ground (arith, export_qr-Stays true t, export_qr-Stays false t, next_address-Stays t.seed t)

-- What `finish_recovery` and `load_psbt` leave.
module _ (c : Bitcoin) where
  pub finish_recovery-state :
      (word_list : List (List ℕ)) (t t' : Terminal)
      → t.state ≡ busy
      → finish_recovery c word_list t ≡ some t'
      → t'.state ≢ choosing
  unfolding finish_recovery recovered show_identity
  finish_recovery-state word_list t t' s h = ground arith

  pub load_psbt-state :
      (t t' : Terminal) (bytes : List ℕ)
      → t.state ≡ loading
      → load_psbt c t bytes ≡ some t'
      → t'.state ≢ choosing
  unfolding load_psbt psbt_error
  load_psbt-state t t' bytes s h = ground arith

  pub load_psbt-reviewing :
      (t t' : Terminal) (bytes : List ℕ)
      → t.state ≡ loading
      → load_psbt c t bytes ≡ some t'
      → t'.state ≡ reviewing
      → (s : SeedSession) × (r : Review) × (t.seed ≡ some s)
        × (review_psbt c s bytes ≡ ok r)
        × (t'.review ≡ some r)
  unfolding load_psbt psbt_error
  load_psbt-reviewing t t' bytes s h k = elim (Option-cases t.seed) [
    | inl e ↦ absurd (ground arith)
    | inr (seed, e) ↦ elim (Result-cases (review_psbt c seed bytes)) [
      | inl (r, f) ↦ (seed, r, e, f, ground arith)
      | inr n ↦ absurd (ground (arith, n))
    ]
  ]

  pub finish_signing-state :
      (t t' : Terminal) (out : Option (List ℕ))
      → t.state ≡ signing
      → finish_signing c t ≡ some (t', out)
      → t'.state ≢ choosing
  unfolding finish_signing sign_review psbt_error
  finish_signing-state t t' out s h = ground arith
