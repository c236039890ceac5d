-- ===== src/Tests/Toy.antt =====
-- A small concrete instance of the third-party operations and the PSBT that the examples use.
use savepoint_signer.Prelude.{
  ℕ, ◌+◌, ◌≡◌, refl, true, false, Option, none, some, List, [], ◌∷◌, ◌==◌, ==_refl,
}
use savepoint_signer.Signer.Bitcoin.{Bitcoin, testnet, Psbt, parsed}
use savepoint_signer.Signer.Seed.{
  SeedSession, Review, hardened, derive_all, fingerprint, master, public_at, in_account, coin_type,
}
use savepoint_signer.Signer.Result.{ok}
use savepoint_signer.Signer.Review.{
  review_psbt, parse_bounded, review_parsed, check_origin, check_key, check_utxo, previous_matches,
  finish_review, check_outputs, check_output, check_change, build_review, check_fee,
}
use savepoint_signer.Signer.Sign.Binding.{SigningLaws}
use savepoint_signer.Signer.Seed.Receive.{PublicDerivation}

abbrev pub session : SeedSession
session = record { seed = 3 ∷ []; network = testnet; is_locked = false }

abbrev pub own_path : List ℕ
own_path = (hardened + 84) ∷ (hardened + 1) ∷ hardened ∷ 0 ∷ 0 ∷ []

abbrev pub own_key : ℕ
own_key = 7 + (hardened + 84) + (hardened + 1) + hardened

abbrev pub sample : Psbt
sample = record {
  version = 0;
  unsigned_tx = record {
    input = record { txid = 9; vout = 0 } ∷ [];
    output = record { value = 900; script_pubkey = 5 } ∷ [];
    tx_rest = 4;
  };
  inputs =
      record {
        sighash_type = none;
        witness_utxo = some (record { value = 1000; script_pubkey = own_key });
        non_witness_utxo = none;
        final_script_sig = none;
        final_script_witness = none;
        partial_sigs = [];
        bip32_derivation = (own_key, record { fingerprint = 7; path = own_path }) ∷ [];
        input_rest = 0;
      }
      ∷ [];
  outputs = record { bip32_derivation = []; output_rest = 0 } ∷ [];
  psbt_rest = 0;
}

abbrev pub sample_bytes : List ℕ
sample_bytes = 1 ∷ []

abbrev toy_deserialize : List ℕ → Option Psbt
toy_deserialize [] = none
toy_deserialize (b ∷ bs) = some sample

abbrev toy_derive : ℕ → List ℕ → Option ℕ
toy_derive k [] = some k
toy_derive k (i ∷ path) = toy_derive (k + i) path

abbrev pub toy : Bitcoin
toy = record {
  deserialize = toy_deserialize;
  serialize = λ p. 1 ∷ 2 ∷ [];
  new_master = λ network seed. some 7;
  derive_priv = λ k i. some (k + i);
  public_key = λ k. k;
  key_fingerprint = λ k. k;
  xpub_of = λ k. k;
  derive_pub = toy_derive;
  encode_xpub = λ k. k ∷ [];
  format_xpub = λ k. k ∷ [];
  encode_check = λ bytes. bytes;
  fingerprint_text = λ f. f ∷ [];
  p2wpkh_text = λ k network. k ∷ [];
  p2wpkh_script = λ k network. k;
  is_p2wpkh = λ script. true;
  address_text = λ script network. some (script ∷ []);
  compute_txid = λ tx. tx.tx_rest;
  signature_hash = λ tx script value. some value;
  sign_ecdsa = λ hash key. hash + key;
  verify_ecdsa = λ hash signature key. signature == hash + key;
  parse_mnemonic = λ text. parsed 6;
  to_seed = λ m passphrase. m ∷ [];
}

toy_reparse :
    (bytes : List ℕ) (p : Psbt)
    → toy_deserialize bytes ≡ some p
    → toy_deserialize (1 ∷ 2 ∷ []) ≡ some p
toy_reparse [] p h = absurd (cc h)
toy_reparse (b ∷ bs) p h = h

pub toy_signing : SigningLaws toy
toy_signing = record { reparse = toy_reparse; verify_own = λ hash key. ==_refl (hash + key) }

pub toy_derivation : PublicDerivation toy
unfolding derive_all
toy_derivation account a b l m = refl

abbrev pub sample_review : Review
sample_review = record {
  psbt = sample;
  outputs = record { address = 5 ∷ []; amount_sat = 900; is_change = false } ∷ [];
  fee_sat = 100;
  sighash = 1000;
  change_path = own_path;
  change_public_key = own_key;
}

pub sample_reviewed : review_psbt toy session sample_bytes ≡ ok sample_review
unfolding review_psbt parse_bounded fingerprint master review_parsed check_origin check_key
    public_at in_account coin_type derive_all check_utxo previous_matches finish_review
    check_outputs check_output check_change build_review check_fee
sample_reviewed = refl
