-- ===== src/Signer/Sign.antt =====
-- `SeedSession::sign_psbt` of signer-probe/src/seed.rs.
pub mod Binding
use savepoint_signer.Prelude.{
  ℕ, ◌≡◌, Bool, true, false, not, ◌&&◌, ◌||◌, Option, none, some, List, [], ◌∷◌, ◌==◌, ltb, length,
  map, if◌then◌else◌,
}
use savepoint_signer.Signer.Result.{
  Result, ok, err, panic, ◌>>=◌, ◌>>◌, require, ok_or, map_err, index,
}
use savepoint_signer.Signer.Bitcoin.{Bitcoin, PsbtInput, Psbt}
use savepoint_signer.Signer.Seed.{
  SeedSession, Review, ReviewBinding, SignedBinding, SignError, locked, bad_psbt, bad_path,
  missing_witness_utxo, drifted, unverified, master, derive_all,
}

-- `BTreeMap::insert`: the entry of the key is replaced. The order of the map is not modelled.
abbrev pub insert_sig : ℕ → ℕ → List (ℕ × ℕ) → List (ℕ × ℕ)
insert_sig key sig [] = (key, sig) ∷ []
insert_sig key sig ((k, v) ∷ sigs) =
    if k == key then (key, sig) ∷ sigs else (k, v) ∷ insert_sig key sig sigs

-- `signed.inputs[0].partial_sigs.insert(..)`
unfoldable pub with_signature : Psbt → ℕ → ℕ → Result SignError Psbt
with_signature psbt key sig = elim psbt.inputs [
  | [] ↦ panic
  | i ∷ is ↦
      ok (record psbt {
        inputs = record i { partial_sigs = insert_sig key sig i.partial_sigs } ∷ is;
      })
]

-- What the terminal stores of a review for signing.
module _ (c : Bitcoin) where
  open c use {deserialize, serialize, compute_txid, signature_hash, sign_ecdsa, verify_ecdsa}

  unfoldable pub binding : Review → ReviewBinding
  binding r = record {
    psbt_bytes = serialize r.psbt;
    sighash = r.sighash;
    change_public_key = r.change_public_key;
    change_path = r.change_path;
  }

  -- From the comparison of the hash to the verification of the signature.
  unfoldable pub sign_hash : SeedSession → ReviewBinding → ℕ → Result SignError ℕ
  sign_hash s review hash = do
    require (hash == review.sighash) drifted
    node ← map_err (master c s) bad_path
    key ← ok_or (derive_all c node review.change_path) bad_path
    require (verify_ecdsa hash (sign_ecdsa hash key) review.change_public_key) unverified
    ok (sign_ecdsa hash key)

  unfoldable pub sign_psbt : SeedSession → ReviewBinding → Result SignError SignedBinding
  sign_psbt s review = do
    require (not s.is_locked) locked
    psbt ← ok_or (deserialize review.psbt_bytes) bad_psbt
    require (ltb 0 (length psbt.inputs) && ltb 0 (length psbt.outputs)) bad_psbt
    input ← index psbt.inputs 0
    utxo ← ok_or input.witness_utxo missing_witness_utxo
    hash ← ok_or (signature_hash psbt.unsigned_tx utxo.script_pubkey utxo.value) drifted
    signature ← sign_hash s review hash
    signed ← with_signature psbt review.change_public_key signature
    ok (record { signed_psbt = serialize signed; txid = compute_txid signed.unsigned_tx })
