-- ===== src/Signer/Review.antt =====
-- `SeedSession::review_psbt` of signer-probe/src/seed.rs: the policy that a PSBT must meet before
-- it is shown for approval. The checks stand in the order of the source.
pub mod Policy
pub mod Total
use Prim.Native.String.{String}
use savepoint_signer.Prelude.{
  ℕ, ◌+◌, ◌-◌, ◌*◌, ◌^◌, Bool, true, false, not, ◌&&◌, ◌||◌, Option, none, some, List, [], ◌∷◌,
  ◌++◌, ltb, leb, ◌==◌, if◌then◌else◌, is_some, length, get_elem?,
}
use savepoint_signer.Signer.Result.{
  Result, ok, err, panic, ◌>>=◌, ◌>>◌, require, ok_or, map_err, index,
}
use savepoint_signer.Signer.Bitcoin.{
  Bitcoin, OutPoint, TxOut, Transaction, KeySource, PsbtInput, PsbtOutput, Psbt, sighash_all,
}
use savepoint_signer.Signer.Seed.{
  SeedSession, DisplayItem, Review, max_psbt_bytes, max_fee_sat, max_money, hardened, coin_type,
  fingerprint, public_at,
}

-- `Option::is_some_and(|t| t != All)`, negated
abbrev pub only_sighash_all : Option ℕ → Bool
only_sighash_all none = true
only_sighash_all (some t) = t == sighash_all

abbrev pub is_unsigned : PsbtInput → Bool
is_unsigned i =
    not (
      is_some i.final_script_sig || is_some i.final_script_witness || ltb 0 (length i.partial_sigs))

-- A path of five children that is this account but for the coin of the other network.
abbrev pub is_other_network : SeedSession → List ℕ → Bool
is_other_network s (p ∷ q ∷ a ∷ b ∷ i ∷ []) =
    p == hardened + 84 && (q == hardened || q == hardened + 1) && not (q == hardened + coin_type s)
is_other_network s _ = false

abbrev pub txout_eq : TxOut → TxOut → Bool
txout_eq a b = a.value == b.value && a.script_pubkey == b.script_pubkey

abbrev pub is_txout : Option TxOut → TxOut → Bool
is_txout none u = false
is_txout (some o) u = txout_eq o u

unfoldable pub check_fee : ℕ → ℕ → Result String ℕ
check_fee value total = do
  require (leb total value) "Negative fee"
  require (leb (value - total) max_fee_sat) "Fee exceeds limit"
  ok (value - total)

module _ (c : Bitcoin) where
  open c use {deserialize, p2wpkh_script, is_p2wpkh, address_text, compute_txid, signature_hash}

  -- Size, parsing, version and counts.
  unfoldable pub parse_bounded : List ℕ → Result String Psbt
  parse_bounded bytes = do
    require (ltb 0 (length bytes) && leb (length bytes) max_psbt_bytes) "PSBT size: 1-4096"
    psbt ← ok_or (deserialize bytes) "Invalid binary PSBT"
    require (psbt.version == 0) "Only PSBT version 0"
    require (length psbt.inputs == 1 && length psbt.unsigned_tx.input == 1) "Need exactly 1 input"
    require
        (ltb 0 (length psbt.outputs)
          && leb (length psbt.outputs) 2
          && length psbt.outputs == length psbt.unsigned_tx.output)
        "Need 1 or 2 outputs"
    ok psbt

  -- The key origin names this network, this seed and the key that its path leads to.
  unfoldable pub check_key : SeedSession → ℕ → ℕ × KeySource → Result String (ℕ × List ℕ)
  check_key s fp entry = do
    require (not (is_other_network s entry.1.path)) "Network mismatch    Check main/testnet"
    require (entry.1.fingerprint == fp) "Fingerprint mismatchCheck Sparrow origin"
    key ← public_at c s entry.1.path
    require (key == entry.0) "Input key mismatch  Check seed + pass"
    ok (entry.0, entry.1.path)

  -- The input is unsigned and its one key origin is ours; returns the key with its path.
  unfoldable pub check_origin : SeedSession → ℕ → PsbtInput → Result String (ℕ × List ℕ)
  check_origin s fp input = do
    require (only_sighash_all input.sighash_type) "Only SIGHASH_ALL"
    require (is_unsigned input) "PSBT already signed"
    require (length input.bip32_derivation == 1) "Need input key origin"
    entry ← index input.bip32_derivation 0
    check_key s fp entry

  -- `if let Some(prev) = &input.non_witness_utxo`
  unfoldable pub previous_matches : Option Transaction → OutPoint → TxOut → Bool
  previous_matches none outpoint utxo = true
  previous_matches (some prev) outpoint utxo =
      compute_txid prev == outpoint.txid && is_txout (get_elem? prev.output outpoint.vout) utxo

  -- The output that is spent: known, of a possible amount, and paid to the given key.
  unfoldable pub check_utxo : SeedSession → ℕ → Transaction → PsbtInput → Result String TxOut
  check_utxo s key tx input = do
    utxo ← ok_or input.witness_utxo "Missing witness UTXO"
    require (leb utxo.value max_money) "Invalid input amount"
    require (utxo.script_pubkey == p2wpkh_script key s.network) "Input script mismatch"
    outpoint ← index tx.input 0
    require (previous_matches input.non_witness_utxo outpoint utxo) "Previous TX mismatch"
    ok utxo

  -- An origin with our fingerprint must be a key of this account that the output pays to; the
  -- output is change where its branch is 1.
  unfoldable pub check_own : SeedSession → ℕ → ℕ → KeySource → Result String Bool
  check_own s script key source = do
    derived ← public_at c s source.path
    require (derived == key && p2wpkh_script key s.network == script) "Change key mismatch"
    branch ← index source.path 3
    ok (branch == 1)

  -- The loop over the key origins of an output. An origin with another fingerprint is skipped.
  unfoldable pub check_change :
      SeedSession → ℕ → ℕ → Bool → List (ℕ × KeySource) → Result String Bool
  check_change s fp script is_change [] = ok is_change
  check_change s fp script is_change ((key, source) ∷ rest) = do
    change ← if source.fingerprint == fp then check_own s script key source else ok is_change
    check_change s fp script change rest

  -- One round of the loop over the outputs: the running total and the item to display.
  unfoldable pub check_output :
      SeedSession → ℕ → ℕ → PsbtOutput → TxOut → Result String (ℕ × DisplayItem)
  check_output s fp total meta out = do
    require (leb out.value max_money) "Invalid output amount"
    require (is_p2wpkh out.script_pubkey) "Only Native SegWit"
    require (leb (length meta.bip32_derivation) 1) "No multisig support"
    is_change ← check_change s fp out.script_pubkey false meta.bip32_derivation
    require (ltb (total + out.value) (2 ^ 64)) "Invalid amounts"
    address ← ok_or (address_text out.script_pubkey s.network) "Invalid address"
    ok (
      total + out.value,
      record { address = address; amount_sat = out.value; is_change = is_change },
    )

  -- The loop over `psbt.outputs`, with the index `i` into the outputs of the transaction.
  unfoldable pub check_outputs :
      SeedSession
      → ℕ
      → List TxOut
      → ℕ
      → ℕ
      → List DisplayItem
      → List PsbtOutput
      → Result String (ℕ × List DisplayItem)
  check_outputs s fp txouts i total items [] = ok (total, items)
  check_outputs s fp txouts i total items (meta ∷ metas) = do
    out ← index txouts i
    entry ← check_output s fp total meta out
    check_outputs s fp txouts (i + 1) entry.0 (items ++ entry.1 ∷ []) metas

  -- The fee and the hash that the signer will commit to.
  unfoldable pub build_review :
      Psbt → ℕ × List ℕ → TxOut → ℕ × List DisplayItem → Result String Review
  build_review psbt origin utxo shown = do
    fee ← check_fee utxo.value shown.0
    hash ← ok_or (signature_hash psbt.unsigned_tx utxo.script_pubkey utxo.value) "Invalid sighash"
    ok (record {
      psbt = psbt;
      outputs = shown.1;
      fee_sat = fee;
      sighash = hash;
      change_path = origin.1;
      change_public_key = origin.0;
    })

  unfoldable pub finish_review : SeedSession → Psbt → ℕ → ℕ × List ℕ → TxOut → Result String Review
  finish_review s psbt fp origin utxo = do
    shown ← check_outputs s fp psbt.unsigned_tx.output 0 0 [] psbt.outputs
    build_review psbt origin utxo shown

  unfoldable pub review_parsed : SeedSession → Psbt → ℕ → Result String Review
  review_parsed s psbt fp = do
    input ← index psbt.inputs 0
    origin ← check_origin s fp input
    utxo ← check_utxo s origin.0 psbt.unsigned_tx input
    finish_review s psbt fp origin utxo

  unfoldable pub review_psbt : SeedSession → List ℕ → Result String Review
  review_psbt s bytes = do
    psbt ← parse_bounded bytes
    fp ← map_err (fingerprint c s) "Seed locked"
    review_parsed s psbt fp
