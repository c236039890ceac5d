-- ===== src/Signer/Seed.antt =====
-- signer-probe/src/seed.rs: recovery, derivation, and the policy for reviewed signing.
use mathlib.Core.Option
pub mod Lock
pub mod Receive
use savepoint_signer.Prelude.{
  ℕ, zero, suc, ◌+◌, ◌-◌, ◌*◌, ◌^◌, ◌≤◌, Bool, true, false, not, ◌&&◌, ◌||◌, Option, none, some,
  List, [], ◌∷◌, ◌++◌, ltb, leb, ◌==◌, if◌then◌else◌, is_some, length, drop, zeros, map,
}
use savepoint_signer.Signer.Result.{
  Result, ok, err, panic, ◌>>=◌, ◌>>◌, require, ok_or, map_err, index,
}
use savepoint_signer.Signer.Bitcoin.{
  Network, bitcoin, testnet, testnet4, signet, regtest, is_bitcoin, OutPoint, TxOut, Transaction,
  KeySource, PsbtInput, PsbtOutput, Psbt, sighash_all, MnemonicResult, parsed, unknown_word,
  bad_word_count, other_error, Bitcoin,
}
use Prim.Native.String.{String}

abbrev pub max_mnemonic_bytes : ℕ
max_mnemonic_bytes = 216

abbrev pub max_passphrase_bytes : ℕ
max_passphrase_bytes = 100

abbrev pub max_address_index : ℕ
max_address_index = 1000

abbrev pub max_psbt_bytes : ℕ
max_psbt_bytes = 4096

abbrev pub max_fee_sat : ℕ
max_fee_sat = 1000000

abbrev pub max_money : ℕ
max_money = 2100000000000000

abbrev pub hardened : ℕ
hardened = 0x80000000

pub data RecoverError : Type 0 where
  mnemonic_too_long word_count : RecoverError
  unknown : ℕ → RecoverError
  checksum passphrase_too_long unsupported_character unsupported_network : RecoverError
  invalid_path locked_seed : RecoverError

pub data SignError : Type 0 where
  locked bad_psbt bad_path missing_witness_utxo drifted unverified : SignError

pub record SeedSession : Type 0 where
  pub seed : List ℕ
  pub network : Network
  pub is_locked : Bool

pub record DisplayItem : Type 0 where
  pub address : List ℕ
  pub amount_sat : ℕ
  pub is_change : Bool

pub record Review : Type 0 where
  pub psbt : Psbt
  pub outputs : List DisplayItem
  pub fee_sat : ℕ
  pub sighash : ℕ
  pub change_path : List ℕ
  pub change_public_key : ℕ

pub record ReviewBinding : Type 0 where
  pub psbt_bytes : List ℕ
  pub sighash : ℕ
  pub change_public_key : ℕ
  pub change_path : List ℕ

pub record SignedBinding : Type 0 where
  pub signed_psbt : List ℕ
  pub txid : ℕ

-- Bytes of `is_ascii_lowercase`, `is_ascii_whitespace`, and of printable ASCII.
abbrev pub is_lowercase : ℕ → Bool
is_lowercase b = leb 97 b && leb b 122

abbrev pub is_whitespace : ℕ → Bool
is_whitespace b = b == 32 || b == 9 || b == 10 || b == 12 || b == 13

abbrev pub is_printable : ℕ → Bool
is_printable b = leb 0x20 b && leb b 0x7e

unfoldable pub all : (ℕ → Bool) → List ℕ → Bool
all p [] = true
all p (b ∷ bs) = p b && all p bs

-- `split_ascii_whitespace().count()`; `inside` says whether the last byte belonged to a word
unfoldable pub count_words : Bool → List ℕ → ℕ
count_words inside [] = 0
count_words inside (b ∷ bs) =
    let rest = count_words (not (is_whitespace b)) bs in
    if not (is_whitespace b) && not inside then suc rest else rest

abbrev pub is_supported : Network → Bool
is_supported testnet4 = false
is_supported _ = true

abbrev pub recover_error : MnemonicResult → Result RecoverError ℕ
recover_error (parsed m) = ok m
recover_error (unknown_word i) = err (unknown i)
recover_error bad_word_count = err word_count
recover_error other_error = err checksum

unfoldable pub lock : SeedSession → SeedSession
lock s = record s { seed = zeros 64; is_locked = true }

unfoldable pub coin_type : SeedSession → ℕ
coin_type s = if is_bitcoin s.network then 0 else 1

-- The five child numbers of an own path: purpose, coin, account, branch, index.
unfoldable pub in_account : SeedSession → List ℕ → Bool
in_account s (p ∷ q ∷ a ∷ branch ∷ i ∷ []) =
    p == hardened + 84
    && q == hardened + coin_type s
    && a == hardened
    && leb branch 1
    && leb i max_address_index
in_account s _ = false

module _ (c : Bitcoin) where
  open c use {
    deserialize, serialize, new_master, derive_priv, public_key, key_fingerprint, xpub_of,
    derive_pub, encode_xpub, format_xpub, encode_check, p2wpkh_script, p2wpkh_text, is_p2wpkh,
    address_text, compute_txid, signature_hash, sign_ecdsa, verify_ecdsa, parse_mnemonic, to_seed,
  }

  unfoldable pub recover : List ℕ → List ℕ → Network → Result RecoverError SeedSession
  recover mnemonic passphrase network = do
    require (is_supported network) unsupported_network
    require (leb (length mnemonic) max_mnemonic_bytes) mnemonic_too_long
    require (all (λ b. is_lowercase b || is_whitespace b) mnemonic) unsupported_character
    require (let n = count_words false mnemonic in n == 12 || n == 24) word_count
    require (leb (length passphrase) max_passphrase_bytes) passphrase_too_long
    require (all is_printable passphrase) unsupported_character
    m ← recover_error (parse_mnemonic mnemonic)
    ok (record { seed = to_seed m passphrase; network = network; is_locked = false })

  unfoldable pub master : SeedSession → Result RecoverError ℕ
  master s = do
    require (not s.is_locked) locked_seed
    ok_or (new_master s.network s.seed) invalid_path

  unfoldable pub fingerprint : SeedSession → Result RecoverError ℕ
  fingerprint s = do node ← master s; ok (key_fingerprint node)

  -- The loops that derive one child after the other from an owned node.
  unfoldable pub derive_all : ℕ → List ℕ → Option ℕ
  derive_all node [] = some node
  derive_all node (child ∷ path) = elim (derive_priv node child) [
    | none ↦ none
    | some next ↦ derive_all next path
  ]

  abbrev account_path : SeedSession → List ℕ
  account_path s = (hardened + 84) ∷ (hardened + coin_type s) ∷ hardened ∷ []

  unfoldable pub account_xpub : SeedSession → Result RecoverError ℕ
  account_xpub s = do
    node ← master s
    account ← ok_or (derive_all node (account_path s)) invalid_path
    ok (xpub_of account)

  -- Version bytes 0x04b24746 or 0x045f1cf6 in place of those of `encode`.
  abbrev export_version : SeedSession → List ℕ
  export_version s =
      if is_bitcoin s.network
      then 0x04 ∷ 0xb2 ∷ 0x47 ∷ 0x46 ∷ []
      else 0x04 ∷ 0x5f ∷ 0x1c ∷ 0xf6 ∷ []

  unfoldable pub account_export : SeedSession → Bool → Result RecoverError (List ℕ)
  account_export s segwit = do
    key ← account_xpub s
    ok (
        if not segwit
        then format_xpub key
        else encode_check (export_version s ++ drop 4 (encode_xpub key)))

  unfoldable pub change_public_key : SeedSession → Result RecoverError ℕ
  change_public_key s = do
    node ← master s
    account ← ok_or (derive_all node (account_path s)) invalid_path
    key ← ok_or (derive_all account (0 ∷ 0 ∷ [])) invalid_path
    ok (public_key key)

  unfoldable pub public_at : SeedSession → List ℕ → Result String ℕ
  public_at s path = do
    require (in_account s path) "Wrong account/path"
    node ← map_err (master s) "Seed locked"
    key ← ok_or (derive_all node path) "Key derivation failed"
    ok (public_key key)

  unfoldable pub receive_address : SeedSession → ℕ → Result RecoverError (List ℕ)
  receive_address s i = do
    require (not s.is_locked) locked_seed
    require (leb i max_address_index) invalid_path
    account ← account_xpub s
    public ← ok_or (derive_pub account (0 ∷ i ∷ [])) invalid_path
    ok (p2wpkh_text public s.network)
