-- ===== src/Signer/Probe.antt =====
-- signer-probe/src/lib.rs: the diagnostic `review` and `sign` with the seed of a public test vector.
-- The field `seed_generation` of `Review`, always 0, is left out, and the id of a transaction is not
-- written out in hex.
use savepoint_signer.Prelude.{
  ℕ, ◌+◌, ◌-◌, ◌*◌, ◌%◌, ◌^◌, Bool, true, false, not, ◌&&◌, ◌||◌, Option, none, some, List, [], ◌∷◌,
  ◌++◌, ltb, leb, ◌==◌, if◌then◌else◌, length, zeros,
}
use savepoint_signer.Signer.Result.{
  Result, ok, err, panic, ◌>>=◌, ◌>>◌, require, ok_or, map_err, index,
}
use savepoint_signer.Signer.Bitcoin.{
  Bitcoin, Network, testnet, TxOut, Transaction, KeySource, PsbtInput, PsbtOutput, Psbt,
  sighash_all,
}
use savepoint_signer.Signer.Seed.{
  DisplayItem, Review, max_psbt_bytes, max_fee_sat, hardened, derive_all,
}
use savepoint_signer.Signer.Sign.{with_signature}
pub mod Accepted
pub mod Signing

pub data Reject : Type 0 where
  empty_psbt psbt_too_large wrong_input_count wrong_output_count wrong_network : Reject
  non_segwit non_p2wpkh multisig missing_witness_utxo missing_derivation : Reject
  derivation_mismatch path_outside_account duplicate_change negative_fee fee_too_large : Reject
  wrong_sighash : Reject

pub data ProbeError : Type 0 where
  reject : Reject → ProbeError
  parse sighash verify : ProbeError

pub record ValidationContext : Type 0 where
  pub network : Network
  pub master_fingerprint : ℕ
  pub change_path : List ℕ
  pub change_public_key : ℕ

pub record Signed : Type 0 where
  pub signed_psbt : List ℕ
  pub sighash : ℕ
  pub txid : ℕ

abbrev pub entropy : List ℕ
entropy = zeros 16

abbrev pub max_inputs : ℕ
max_inputs = 1

abbrev pub max_outputs : ℕ
max_outputs = 2

abbrev pub max_path_index : ℕ
max_path_index = 1000

-- "m/84'/1'/0'/0/0"
abbrev pub receive_path : List ℕ
receive_path = (hardened + 84) ∷ (hardened + 1) ∷ hardened ∷ 0 ∷ 0 ∷ []

-- The account is m/84'/1'/0'; the fourth child is not looked at.
unfoldable pub within_account : List ℕ → Bool
within_account (p ∷ q ∷ a ∷ branch ∷ last ∷ []) =
    (p == hardened + 84)
    && ((q == hardened + 1) && ((a == hardened) && (ltb last hardened && leb last max_path_index)))
within_account _ = false

abbrev pub is_sighash_all : Option ℕ → Bool
is_sighash_all none = false
is_sighash_all (some t) = t == sighash_all

-- `Some(WitnessVersion::V0)`
abbrev pub is_v0 : Option ℕ → Bool
is_v0 none = false
is_v0 (some v) = v == 0

-- `witness_version` of a script and `Mnemonic::from_entropy` are of the same crates as `Bitcoin`.
module _ (c : Bitcoin) (witness_version : ℕ → Option ℕ) (from_entropy : List ℕ → Option ℕ) where
  open c use {
    deserialize, serialize, new_master, public_key, key_fingerprint, p2wpkh_script, is_p2wpkh,
    address_text, compute_txid, signature_hash, sign_ecdsa, verify_ecdsa, to_seed,
  }

  -- Each `expect` panics.
  unfoldable pub for_diagnostic : Result ProbeError ValidationContext
  for_diagnostic = elim (from_entropy entropy) [
    | none ↦ panic
    | some mnemonic ↦ elim (new_master testnet (to_seed mnemonic [])) [
      | none ↦ panic
      | some master ↦ elim (derive_all c master receive_path) [
        | none ↦ panic
        | some key ↦ ok (record {
          network = testnet;
          master_fingerprint = key_fingerprint master;
          change_path = receive_path;
          change_public_key = public_key key;
        })
      ]
    ]
  ]

  unfoldable pub parse_psbt : List ℕ → Result ProbeError Psbt
  parse_psbt bytes = do
    require (not (length bytes == 0)) (reject empty_psbt)
    require (leb (length bytes) max_psbt_bytes) (reject psbt_too_large)
    psbt ← ok_or (deserialize bytes) parse
    require (length psbt.inputs == max_inputs) (reject wrong_input_count)
    require (ltb 0 (length psbt.outputs) && leb (length psbt.outputs) max_outputs)
        (reject wrong_output_count)
    require
        ((length psbt.unsigned_tx.input == max_inputs)
          && (length psbt.unsigned_tx.output == length psbt.outputs))
        (reject wrong_input_count)
    ok psbt

  -- The output that is spent.
  unfoldable pub check_spent : PsbtInput → Result ProbeError TxOut
  check_spent input = do
    require (is_sighash_all input.sighash_type) (reject wrong_sighash)
    utxo ← ok_or input.witness_utxo (reject missing_witness_utxo)
    require (is_v0 (witness_version utxo.script_pubkey)) (reject non_segwit)
    require (is_p2wpkh utxo.script_pubkey) (reject non_p2wpkh)
    ok utxo

  -- The one key origin of the input.
  unfoldable pub check_source : ValidationContext → ℕ × KeySource → Result ProbeError (Unit {0})
  unfolding within_account
  check_source ctx entry = do
    require (entry.1.fingerprint == ctx.master_fingerprint) (reject derivation_mismatch)
    require (within_account entry.1.path) (reject path_outside_account)
    require (entry.0 == ctx.change_public_key) (reject derivation_mismatch)

  unfoldable pub check_input : ValidationContext → PsbtInput → Result ProbeError TxOut
  unfolding check_spent check_source
  check_input ctx input = do
    utxo ← check_spent input
    require (length input.bip32_derivation == 1) (reject multisig)
    entry ← index input.bip32_derivation 0
    done ← check_source ctx entry
    ok utxo

  -- One round of the loop: the count of change outputs, the running total and the item.
  unfoldable pub check_item :
      ValidationContext → ℕ → ℕ → PsbtOutput → TxOut → Result ProbeError (ℕ × ℕ × DisplayItem)
  check_item ctx count total meta out = do
    require (is_p2wpkh out.script_pubkey) (reject non_p2wpkh)
    require (length meta.bip32_derivation == 0) (reject multisig)
    address ← ok_or (address_text out.script_pubkey ctx.network) (reject non_p2wpkh)
    require (ltb (total + out.value) (2 ^ 64)) (reject negative_fee)
    let is_change = out.script_pubkey == p2wpkh_script ctx.change_public_key ctx.network
    ok (
      if is_change then count + 1 else count,
      total + out.value,
      record { address = address; amount_sat = out.value; is_change = is_change },
    )

  unfoldable pub check_items :
      ValidationContext
      → List TxOut
      → ℕ
      → ℕ
      → ℕ
      → List DisplayItem
      → List PsbtOutput
      → Result ProbeError (ℕ × ℕ × List DisplayItem)
  unfolding check_item
  check_items ctx txouts i count total items [] = ok (count, total, items)
  check_items ctx txouts i count total items (meta ∷ metas) = do
    out ← index txouts i
    entry ← check_item ctx count total meta out
    check_items ctx txouts (i + 1) entry.0 entry.1 (items ++ entry.2 ∷ []) metas

  -- From the count of change outputs to the end.
  unfoldable pub conclude :
      ValidationContext → Psbt → TxOut → ℕ × ℕ × List DisplayItem → Result ProbeError Review
  conclude ctx psbt utxo shown = do
    require (leb shown.0 1) (reject duplicate_change)
    require (leb shown.1 utxo.value) (reject negative_fee)
    require (leb (utxo.value - shown.1) max_fee_sat) (reject fee_too_large)
    hash ← ok_or (signature_hash psbt.unsigned_tx utxo.script_pubkey utxo.value) sighash
    ok (record {
      psbt = psbt;
      outputs = shown.2;
      fee_sat = utxo.value - shown.1;
      sighash = hash;
      change_path = ctx.change_path;
      change_public_key = ctx.change_public_key;
    })

  unfoldable pub validate : List ℕ → ValidationContext → Result ProbeError Review
  unfolding parse_psbt check_input check_items conclude
  validate bytes ctx = do
    psbt ← parse_psbt bytes
    input ← index psbt.inputs 0
    utxo ← check_input ctx input
    shown ← check_items ctx psbt.unsigned_tx.output 0 0 0 [] psbt.outputs
    conclude ctx psbt utxo shown

  unfoldable pub review : List ℕ → Result ProbeError Review
  unfolding for_diagnostic validate
  review bytes = do ctx ← for_diagnostic; validate bytes ctx

  -- The key of the path of the review, from the fixed seed.
  unfoldable pub signing_key : List ℕ → Result ProbeError ℕ
  signing_key path = do
    mnemonic ← ok_or (from_entropy entropy) parse
    master ← ok_or (new_master testnet (to_seed mnemonic [])) parse
    ok_or (derive_all c master path) parse

  unfoldable pub sign : Review → Result ProbeError Signed
  unfolding signing_key with_signature
  sign r = do
    key ← signing_key r.change_path
    input ← index r.psbt.inputs 0
    utxo ← ok_or input.witness_utxo (reject missing_witness_utxo)
    hash ← ok_or (signature_hash r.psbt.unsigned_tx utxo.script_pubkey utxo.value) sighash
    require (hash == r.sighash) sighash
    require (verify_ecdsa hash (sign_ecdsa hash key) r.change_public_key) verify
    signed ← map_err (with_signature r.psbt r.change_public_key (sign_ecdsa hash key)) verify
    ok (record {
      signed_psbt = serialize signed;
      sighash = r.sighash;
      txid = compute_txid signed.unsigned_tx;
    })
