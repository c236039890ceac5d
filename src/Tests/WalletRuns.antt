-- ===== src/Tests/WalletRuns.antt =====
-- The wallet's theorems on the small instance.
use savepoint_signer.Prelude.{
  ℕ, ◌+◌, ◌≤◌, ◌≡◌, ◌≢◌, inl, refl, Option, none, some, List, [], ◌∷◌, ◌++◌, arith, length,
  replicate,
}
use savepoint_signer.Signer.Result.{ok, panic}
use savepoint_signer.Signer.Bitcoin.{PsbtInput}
use savepoint_signer.Signer.Seed.{
  SeedSession, Review, SignedBinding, account_xpub, receive_address, public_at, max_address_index,
  derive_all, master, coin_type,
}
use savepoint_signer.Signer.Seed.Receive.{receive_path, receive_address-public_at}
use savepoint_signer.Signer.Review.{review_psbt}
use savepoint_signer.Signer.Review.Policy.{IsReviewed, review_psbt-IsReviewed}
use savepoint_signer.Signer.Review.Total.{review_psbt-ne-panic}
use savepoint_signer.Signer.Sign.{binding, sign_psbt, sign_hash, with_signature}
use savepoint_signer.Signer.Sign.Binding.{IsSound, sign_psbt-IsSound}
use savepoint_signer.Signer.Terminal.{
  locked, loading, reviewing, signing, saving, Terminal, QrCode, default,
}
use savepoint_signer.Signer.Terminal.Command.{command, decode, dispatch, review_command}
use savepoint_signer.Signer.Terminal.Custody.{
  KeepsCustody, IsErased, command-KeepsCustody, lock_erases,
}
use savepoint_signer.Signer.Terminal.Flow.{load_psbt, finish_signing, sign_review}
use savepoint_signer.Signer.Terminal.Gate.{run, count_turns, signing_needs_review}
use savepoint_signer.Signer.Terminal.Signing.{approved_is_signed}
use savepoint_signer.Signer.Terminal.Invariant.{IsValid}
use savepoint_signer.Signer.Terminal.Total.{command-IsValid}
use savepoint_signer.Signer.Terminal.{matches, matches_from}
use savepoint_signer.Prelude.{length-zeros, All-zeros}
use savepoint_signer.Tests.Toy.{
  toy, toy_signing, toy_derivation, session, sample_bytes, sample_review, sample_reviewed, own_key,
}

abbrev pub two_words : List (List ℕ)
two_words = (97 ∷ []) ∷ (98 ∷ []) ∷ []

abbrev pub no_qr : List ℕ → Option QrCode
no_qr text = none

abbrev pub waiting : Terminal
waiting = record default { state = loading; seed = some session }

abbrev pub on_screen : Terminal
on_screen = record waiting { review = some sample_review; state = reviewing }

abbrev pub on_last_page : Terminal
on_last_page = record on_screen { review_page = 2 }

abbrev approved : Terminal
approved = record on_last_page { state = signing }

abbrev pub signed_bytes : List ℕ
signed_bytes = 1 ∷ 2 ∷ []

review_psbt-IsReviewed_example : IsReviewed toy session sample_bytes sample_review
review_psbt-IsReviewed_example =
    review_psbt-IsReviewed toy session sample_bytes sample_review sample_reviewed

review_psbt-ne-panic_example : review_psbt toy session [] ≢ panic
review_psbt-ne-panic_example = review_psbt-ne-panic toy session []

shown : receive_address toy session 0 ≡ ok (own_key ∷ [])
unfolding receive_address account_xpub master derive_all coin_type
shown = refl

receive_address-public_at_example :
    (key : ℕ) × (0 ≤ max_address_index)
    × (public_at toy session (receive_path session 0) ≡ ok key)
    × (own_key ∷ [] ≡ toy.p2wpkh_text key session.network)
receive_address-public_at_example =
    receive_address-public_at toy session 0 (own_key ∷ []) toy_derivation shown

abbrev pub sample_signed : SignedBinding
sample_signed = record { signed_psbt = signed_bytes; txid = 4 }

pub signed_ok : sign_psbt toy session (binding toy sample_review) ≡ ok sample_signed
unfolding sign_psbt binding sign_hash with_signature master derive_all
signed_ok = refl

sign_psbt-IsSound_example : IsSound toy session (binding toy sample_review) sample_signed
sign_psbt-IsSound_example =
    sign_psbt-IsSound toy session (binding toy sample_review) sample_signed signed_ok

lock_erases_example :
    (t' : Terminal) × (command toy two_words no_qr approved 10 ≡ some t')
    × IsErased t'
    × (t'.state ≡ locked)
    × (t'.count ≡ 0)
lock_erases_example = lock_erases toy two_words no_qr approved 10 (inl refl)

turn : command toy two_words no_qr on_screen 18 ≡ some (record on_screen { review_page = 1 })
unfolding command decode dispatch review_command
turn = refl

command-KeepsCustody_example : KeepsCustody on_screen (record on_screen { review_page = 1 })
command-KeepsCustody_example =
    command-KeepsCustody toy two_words no_qr on_screen (record on_screen { review_page = 1 }) 18
      turn

two_turns : run toy two_words no_qr on_screen (18 ∷ 18 ∷ 20 ∷ []) ≡ some approved
unfolding run command decode dispatch review_command
two_turns = refl

signing_needs_review_example : 2 ≤ count_turns (18 ∷ 18 ∷ 20 ∷ [])
signing_needs_review_example =
    signing_needs_review toy two_words no_qr on_screen approved sample_review (18 ∷ 18 ∷ 20 ∷ [])
      refl refl refl two_turns refl

ignored : run toy two_words no_qr waiting (20 ∷ []) ≡ some waiting
unfolding run command decode dispatch
ignored = refl

handed_out :
    finish_signing toy approved
    ≡ some (record approved { review = none; state = saving }, some signed_bytes)
unfolding finish_signing sign_review sign_psbt binding sign_hash with_signature master derive_all
handed_out = refl

loaded : load_psbt toy waiting sample_bytes ≡ some on_screen
unfolding load_psbt
loaded = rw sample_reviewed refl

approved_is_signed_example :
    (s : SeedSession) × (r : Review) × (t₂ : Terminal) × (t₃ : Terminal) × (input : PsbtInput)
    × (n : ℕ) × (waiting.seed ≡ some s)
    × (review_psbt toy s sample_bytes ≡ ok r)
    × (r.psbt.inputs ≡ input ∷ [])
    × (run toy two_words no_qr on_screen (replicate (length r.outputs + 1) 18 ++ 20 ∷ []) ≡ some t₂)
    × (toy.public_key n ≡ r.change_public_key)
    × (finish_signing toy t₂
        ≡ some (
          t₃,
          some (
              toy.serialize (record r.psbt {
                inputs =
                    record input {
                      partial_sigs = (r.change_public_key, toy.sign_ecdsa r.sighash n) ∷ [];
                    }
                    ∷ [];
              })),
        ))
    × (t₃.state ≡ saving)
approved_is_signed_example =
    approved_is_signed toy two_words no_qr toy_signing waiting on_screen sample_bytes refl loaded
      refl

pub default-IsValid : IsValid two_words default
unfolding matches matches_from
default-IsValid = record {
  words_length = length-zeros 24;
  words_known = All-zeros 2 24 (omega arith);
  prefix_length = length-zeros 4;
  prefix_short = omega arith;
  candidate_ok = omega arith;
  pass_length = length-zeros 100;
  pass_short = omega arith;
  count_ok = omega arith;
  slot_ok = tt;
  pick_ok = tt;
}

command-IsValid_example :
    (t' : Terminal) × (command toy two_words no_qr default 3 ≡ some t') × IsValid two_words t'
command-IsValid_example =
    command-IsValid toy two_words no_qr default 3 (omega arith) default-IsValid
