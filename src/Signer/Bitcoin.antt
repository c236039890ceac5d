-- ===== src/Signer/Bitcoin.antt =====
-- The third-party crates (`bitcoin`, `secp256k1`, `bip39`) as the signer uses them: their public
-- structures, and a record of their operations that the model takes as a parameter.
--
-- A byte string of which the signer only tests equality (key, script, txid, fingerprint,
-- signature, extended key) is read as a number by an injective coding. Amounts are u64, child
-- numbers u32 with the hardened bit 2^31. Fields that the signer does not touch are in `*_rest`.
use savepoint_signer.Prelude.{ℕ, Bool, Option, List}

pub data Network : Type 0 where
  bitcoin testnet testnet4 signet regtest : Network

abbrev pub is_bitcoin : Network → Bool
is_bitcoin bitcoin = savepoint_signer.Prelude.true
is_bitcoin _ = savepoint_signer.Prelude.false

pub record OutPoint : Type 0 where
  pub txid : ℕ
  pub vout : ℕ

pub record TxOut : Type 0 where
  pub value : ℕ
  pub script_pubkey : ℕ

pub record Transaction : Type 0 where
  pub input : List OutPoint
  pub output : List TxOut
  pub tx_rest : ℕ

pub record KeySource : Type 0 where
  pub fingerprint : ℕ
  pub path : List ℕ

pub record PsbtInput : Type 0 where
  pub sighash_type : Option ℕ
  pub witness_utxo : Option TxOut
  pub non_witness_utxo : Option Transaction
  pub final_script_sig : Option ℕ
  pub final_script_witness : Option ℕ
  pub partial_sigs : List (ℕ × ℕ)
  pub bip32_derivation : List (ℕ × KeySource)
  pub input_rest : ℕ

pub record PsbtOutput : Type 0 where
  pub bip32_derivation : List (ℕ × KeySource)
  pub output_rest : ℕ

pub record Psbt : Type 0 where
  pub version : ℕ
  pub unsigned_tx : Transaction
  pub inputs : List PsbtInput
  pub outputs : List PsbtOutput
  pub psbt_rest : ℕ

-- `EcdsaSighashType::All` as a PSBT sighash type
abbrev pub sighash_all : ℕ
sighash_all = 1

pub data MnemonicResult : Type 0 where
  parsed : ℕ → MnemonicResult
  unknown_word : ℕ → MnemonicResult
  bad_word_count : MnemonicResult
  other_error : MnemonicResult

pub record Bitcoin : Type 0 where
  -- `Psbt::deserialize`, `Psbt::serialize`
  pub deserialize : List ℕ → Option Psbt
  pub serialize : Psbt → List ℕ
  -- `Xpriv::new_master`, `derive_priv` by one child, `private_key.public_key`, `fingerprint`
  pub new_master : Network → List ℕ → Option ℕ
  pub derive_priv : ℕ → ℕ → Option ℕ
  pub public_key : ℕ → ℕ
  pub key_fingerprint : ℕ → ℕ
  -- `Xpub::from_priv`, `Xpub::derive_pub(..).public_key`, `encode`, `Display`, `encode_check`
  pub xpub_of : ℕ → ℕ
  pub derive_pub : ℕ → List ℕ → Option ℕ
  pub encode_xpub : ℕ → List ℕ
  pub format_xpub : ℕ → List ℕ
  pub encode_check : List ℕ → List ℕ
  pub fingerprint_text : ℕ → List ℕ
  -- `Address::p2wpkh(..)` in text and its `script_pubkey()`, `is_p2wpkh`, `Address::from_script`
  -- in text
  pub p2wpkh_text : ℕ → Network → List ℕ
  pub p2wpkh_script : ℕ → Network → ℕ
  pub is_p2wpkh : ℕ → Bool
  pub address_text : ℕ → Network → Option (List ℕ)
  pub compute_txid : Transaction → ℕ
  -- `p2wpkh_signature_hash(0, script, value, All)`, `sign_ecdsa`, `verify_ecdsa`
  pub signature_hash : Transaction → ℕ → ℕ → Option ℕ
  pub sign_ecdsa : ℕ → ℕ → ℕ
  pub verify_ecdsa : ℕ → ℕ → ℕ → Bool
  -- `Mnemonic::parse_in_normalized`, `to_seed_normalized`
  pub parse_mnemonic : List ℕ → MnemonicResult
  pub to_seed : ℕ → List ℕ → List ℕ
