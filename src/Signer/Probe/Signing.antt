-- ===== src/Signer/Probe/Signing.antt =====
-- `sign` of signer-probe/src/lib.rs signs what `review` has accepted.
use mathlib.Core.Path.{subst}
use savepoint_signer.Prelude.{
  ℕ, ◌≡◌, ap, ◌∙◌, sym, true, Option, some, List, [], ◌∷◌, arith, Option-cases, inl, inr,
}
use savepoint_signer.Signer.Result.{ok, >>=-eq-ok}
use savepoint_signer.Signer.Bitcoin.{Bitcoin, testnet, TxOut, PsbtInput}
use savepoint_signer.Signer.Seed.{Review, derive_all}
use savepoint_signer.Signer.Sign.{with_signature, insert_sig}
use savepoint_signer.Signer.Sign.Binding.{SigningLaws}
use savepoint_signer.Signer.Probe.{
  ValidationContext, entropy, receive_path, for_diagnostic, review, signing_key, sign,
}
use savepoint_signer.Signer.Probe.Accepted.{validate-IsAccepted}

module _ (c : Bitcoin) (witness_version : ℕ → Option ℕ) (from_entropy : List ℕ → Option ℕ) where
  for_diagnostic-ok :
      (ctx : ValidationContext)
      → for_diagnostic c witness_version from_entropy ≡ ok ctx
      → (key : ℕ) × (signing_key c witness_version from_entropy ctx.change_path ≡ ok key)
        × (c.public_key key ≡ ctx.change_public_key)
  unfolding for_diagnostic signing_key
  for_diagnostic-ok ctx h = elim (Option-cases (from_entropy entropy)) [
    | inl e ↦ absurd (ground arith)
    | inr (mnemonic, e) ↦ elim (Option-cases (c.new_master testnet (c.to_seed mnemonic []))) [
      | inl f ↦ absurd (ground arith)
      | inr (master, f) ↦ elim (Option-cases (derive_all c master receive_path)) [
        | inl g ↦ absurd (ground arith)
        | inr (key, g) ↦ (key, ground arith, ground arith)
      ]
    ]
  ]

  sign-eq :
      (r : Review) (input : PsbtInput) (utxo : TxOut) (key : ℕ)
      → signing_key c witness_version from_entropy r.change_path ≡ ok key
      → r.psbt.inputs ≡ input ∷ []
      → input.witness_utxo ≡ some utxo
      → c.signature_hash r.psbt.unsigned_tx utxo.script_pubkey utxo.value ≡ some r.sighash
      → c.verify_ecdsa r.sighash (c.sign_ecdsa r.sighash key) r.change_public_key ≡ true
      → sign c witness_version from_entropy r
        ≡ ok (record {
          signed_psbt = c.serialize (record r.psbt {
            inputs =
                record input {
                  partial_sigs =
                      insert_sig r.change_public_key
                        (c.sign_ecdsa r.sighash key)
                        input.partial_sigs;
                }
                ∷ [];
          });
          sighash = r.sighash;
          txid = c.compute_txid r.psbt.unsigned_tx;
        })
  unfolding sign with_signature
  sign-eq r input utxo key k i w h v = ground arith

  -- Every PSBT that `review` accepts is signed by `sign`: the result is the reviewed PSBT with one
  -- signature added, over the reviewed hash, by the private key of the reviewed public key.
  pub sign-review :
      (laws : SigningLaws c) (bytes : List ℕ) (r : Review)
      → review c witness_version from_entropy bytes ≡ ok r
      → (key : ℕ) × (input : PsbtInput) × (c.public_key key ≡ r.change_public_key)
        × (r.psbt.inputs ≡ input ∷ [])
        × (sign c witness_version from_entropy r
            ≡ ok (record {
              signed_psbt = c.serialize (record r.psbt {
                inputs =
                    record input {
                      partial_sigs =
                          insert_sig r.change_public_key
                            (c.sign_ecdsa r.sighash key)
                            input.partial_sigs;
                    }
                    ∷ [];
              });
              sighash = r.sighash;
              txid = c.compute_txid r.psbt.unsigned_tx;
            }))
  unfolding review
  sign-review laws bytes r h =
      let (ctx, d, v) = >>=-eq-ok (for_diagnostic c witness_version from_entropy) _ h in
      let a = validate-IsAccepted c witness_version from_entropy ctx bytes r v in
      let (key, k, p) = for_diagnostic-ok ctx d in
      let own : c.public_key key ≡ r.change_public_key = p ∙ sym a.key.0 in
      (
        key,
        a.input,
        own,
        a.only_input,
        sign-eq r a.input a.utxo key (ap (signing_key c witness_version from_entropy) a.key.1 ∙ k)
            a.only_input a.spent a.hash
            (subst (λ q. c.verify_ecdsa r.sighash (c.sign_ecdsa r.sighash key) q ≡ true) own
              (laws.verify_own r.sighash key)),
      )
