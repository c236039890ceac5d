-- ===== src/Tests/ProbeRuns.antt =====
-- The theorems on the diagnostic build and on long names on small instances.
use savepoint_signer.Prelude.{
  ℕ, ◌⊎◌, ◌≡◌, refl, true, false, Option, none, some, List, [], ◌∷◌, arith, codes, replicate,
  length-replicate,
}
use savepoint_signer.Signer.Result.{ok}
use savepoint_signer.Signer.Bitcoin.{PsbtInput, Psbt, sighash_all}
use savepoint_signer.Signer.Seed.{Review, derive_all}
use savepoint_signer.Signer.Sign.{insert_sig}
use savepoint_signer.Signer.Probe.{
  ValidationContext, for_diagnostic, parse_psbt, check_spent, check_source, check_input, check_item,
  check_items, conclude, within_account, validate, review, sign, receive_path,
}
use savepoint_signer.Signer.Probe.Accepted.{IsAccepted, validate-IsAccepted}
use savepoint_signer.Signer.Probe.Signing.{sign-review}
use savepoint_signer.Signer.Sign.Binding.{SigningLaws}
use savepoint_signer.SdPsbt.LongName.{new, slot, finish, from_utf16}
use savepoint_signer.SdPsbt.LongName.Slots.{IsSlot, IsLongSlot}
use savepoint_signer.SdPsbt.LongName.Assembled.{feed, short_checksum, finish-slot}
use savepoint_signer.Signer.Bitcoin.{Bitcoin, testnet}
use savepoint_signer.Tests.Toy.{toy, toy_signing, sample, sample_bytes, own_key, own_path}

abbrev long_slot : List ℕ
long_slot =
    65 ∷ 97 ∷ 0 ∷ 46 ∷ 0 ∷ 112 ∷ 0 ∷ 115 ∷ 0 ∷ 98 ∷ 0 ∷ 15 ∷ 0 ∷ 7 ∷ 116 ∷ 0 ∷ 0 ∷ 0 ∷ 255 ∷ 255
    ∷ 255 ∷ 255 ∷ 255 ∷ 255 ∷ 255 ∷ 255 ∷ 0 ∷ 0 ∷ 255 ∷ 255 ∷ 255 ∷ 255 ∷ []

abbrev short_entry : List ℕ
short_entry = 65 ∷ 126 ∷ 49 ∷ 32 ∷ 32 ∷ 32 ∷ 32 ∷ 32 ∷ 80 ∷ 83 ∷ 66 ∷ []

abbrev long_name : List ℕ
long_name = codes "a.psbt"

long_slot-IsSlot : IsSlot long_slot 1 true (short_checksum short_entry)
long_slot-IsSlot = record {
  formed = record {
    attributes = refl;
    kind = refl;
    cluster = (refl, refl);
    no_bit7 = refl;
    no_bit5 = refl;
    numbered = (omega arith, omega arith);
  };
  number = refl;
  flag = refl;
  sum = refl;
}

finish-slot_example :
    ((finish (feed (slot new long_slot) []) short_entry).1 ≡ from_utf16 none long_name)
    × (IsLongSlot (65 ∷ [])
        ⊎ ((finish (slot (feed (slot new long_slot) []) (65 ∷ [])) short_entry).1 ≡ none))
finish-slot_example =
    finish-slot new long_slot [] 0 short_entry long_name (0 ∷ replicate 6 0xffff) (65 ∷ [])
      (length-replicate {A = ℕ} 260 0xffff) (omega arith) long_slot-IsSlot tt refl
      (
        (omega arith, omega arith),
        (
          (omega arith, omega arith),
          (
            (omega arith, omega arith),
            (
              (omega arith, omega arith),
              ((omega arith, omega arith), ((omega arith, omega arith), tt)),
            ),
          ),
        ),
      )
      (refl, (refl, (refl, (refl, (refl, (refl, (refl, tt))))))) (omega arith) (omega arith)

abbrev probe_input : PsbtInput
probe_input = record {
  sighash_type = some sighash_all;
  witness_utxo = some (record { value = 1000; script_pubkey = own_key });
  non_witness_utxo = none;
  final_script_sig = none;
  final_script_witness = none;
  partial_sigs = [];
  bip32_derivation = (own_key, record { fingerprint = 7; path = own_path }) ∷ [];
  input_rest = 0;
}

abbrev probe_sample : Psbt
probe_sample = record sample { inputs = probe_input ∷ [] }

abbrev probe_parse : List ℕ → Option Psbt
probe_parse [] = none
probe_parse (b ∷ bs) = some probe_sample

abbrev probe_toy : Bitcoin
probe_toy = record toy { deserialize = probe_parse }

probe_reparse :
    (bytes : List ℕ) (p : Psbt) → probe_parse bytes ≡ some p → probe_parse (1 ∷ 2 ∷ []) ≡ some p
probe_reparse [] p h = absurd (cc h)
probe_reparse (b ∷ bs) p h = h

probe_laws : SigningLaws probe_toy
probe_laws = record { reparse = probe_reparse; verify_own = toy_signing.verify_own }

abbrev version_of : ℕ → Option ℕ
version_of script = some 0

abbrev mnemonic_of : List ℕ → Option ℕ
mnemonic_of bytes = some 6

abbrev context : ValidationContext
context = record {
  network = testnet;
  master_fingerprint = 7;
  change_path = receive_path;
  change_public_key = own_key;
}

abbrev probe_review : Review
probe_review = record {
  psbt = probe_sample;
  outputs = record { address = 5 ∷ []; amount_sat = 900; is_change = false } ∷ [];
  fee_sat = 100;
  sighash = 1000;
  change_path = receive_path;
  change_public_key = own_key;
}

validated : validate probe_toy version_of mnemonic_of sample_bytes context ≡ ok probe_review
unfolding validate parse_psbt check_input check_spent check_source check_items check_item conclude
    within_account
validated = refl

reviewed : review probe_toy version_of mnemonic_of sample_bytes ≡ ok probe_review
unfolding review for_diagnostic derive_all validate parse_psbt check_input check_spent check_source
    check_items check_item conclude within_account
reviewed = refl

validate-IsAccepted_example :
    IsAccepted probe_toy version_of mnemonic_of context sample_bytes probe_review
validate-IsAccepted_example =
    validate-IsAccepted probe_toy version_of mnemonic_of context sample_bytes probe_review validated

sign-review_example :
    (key : ℕ) × (input : PsbtInput) × (probe_toy.public_key key ≡ own_key)
    × (probe_sample.inputs ≡ input ∷ [])
    × (sign probe_toy version_of mnemonic_of probe_review
        ≡ ok (record {
          signed_psbt = probe_toy.serialize (record probe_sample {
            inputs =
                record input {
                  partial_sigs =
                      insert_sig own_key (probe_toy.sign_ecdsa 1000 key) input.partial_sigs;
                }
                ∷ [];
          });
          sighash = 1000;
          txid = probe_toy.compute_txid probe_sample.unsigned_tx;
        }))
sign-review_example =
    sign-review probe_toy version_of mnemonic_of probe_laws sample_bytes probe_review reviewed
