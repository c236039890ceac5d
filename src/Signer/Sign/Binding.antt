-- ===== src/Signer/Sign/Binding.antt =====
-- What `sign_psbt` signs, and that a reviewed PSBT can be signed.
use savepoint_signer.Prelude.{
  ℕ, ◌<◌, ◌≡◌, ap, ◌∙◌, sym, true, false, some, List, [], ◌∷◌, arith, length, get_elem?,
  Option-cases, inl, inr,
}
use savepoint_signer.Signer.Result.{ok, Result-cases}
use savepoint_signer.Signer.Bitcoin.{Bitcoin, TxOut, PsbtInput, Psbt}
use savepoint_signer.Signer.Seed.{
  SeedSession, Review, ReviewBinding, SignedBinding, master, derive_all, public_at,
}
use savepoint_signer.Signer.Review.{review_psbt}
use savepoint_signer.Signer.Review.Policy.{review_psbt-IsReviewed}
use savepoint_signer.Signer.Sign.{with_signature, insert_sig, sign_hash, binding, sign_psbt}

-- What the crates document: a parsed PSBT survives serialisation, and a signature made with a
-- private key verifies under its public key.
pub record SigningLaws (c : Bitcoin) : Type 0 where
  pub reparse :
      (bytes : List ℕ) (p : Psbt)
      → c.deserialize bytes ≡ some p
      → c.deserialize (c.serialize p) ≡ some p
  pub verify_own :
      (hash key : ℕ) → c.verify_ecdsa hash (c.sign_ecdsa hash key) (c.public_key key) ≡ true

module _ (c : Bitcoin) (s : SeedSession) where
  open c use {
    deserialize, serialize, public_key, compute_txid, signature_hash, sign_ecdsa, verify_ecdsa,
  }

  public_at-ok :
      (path : List ℕ) (key : ℕ)
      → public_at c s path ≡ ok key
      → (node : ℕ) × (n : ℕ) × (s.is_locked ≡ false)
        × (master c s ≡ ok node)
        × (derive_all c node path ≡ some n)
        × (public_key n ≡ key)
  unfolding public_at master
  public_at-ok path key h = elim (Option-cases (c.new_master s.network s.seed)) [
    | inl e ↦ absurd (ground arith)
    | inr (node, e) ↦ elim (Option-cases (derive_all c node path)) [
      | inl f ↦ absurd (ground arith)
      | inr (n, f) ↦ (node, n, ground arith, ground arith, f, ground arith)
    ]
  ]

  -- The computation of `sign_psbt` where every test passes.
  sign_psbt-eq :
      (b : ReviewBinding) (psbt : Psbt) (input : PsbtInput) (utxo : TxOut) (node n : ℕ)
      → s.is_locked ≡ false
      → deserialize b.psbt_bytes ≡ some psbt
      → psbt.inputs ≡ input ∷ []
      → 0 < length psbt.outputs
      → input.witness_utxo ≡ some utxo
      → signature_hash psbt.unsigned_tx utxo.script_pubkey utxo.value ≡ some b.sighash
      → master c s ≡ ok node
      → derive_all c node b.change_path ≡ some n
      → verify_ecdsa b.sighash (sign_ecdsa b.sighash n) b.change_public_key ≡ true
      → sign_psbt c s b
        ≡ ok (record {
          signed_psbt = serialize (record psbt {
            inputs =
                record input {
                  partial_sigs =
                      insert_sig b.change_public_key (sign_ecdsa b.sighash n) input.partial_sigs;
                }
                ∷ [];
          });
          txid = compute_txid psbt.unsigned_tx;
        })
  unfolding sign_psbt sign_hash with_signature
  sign_psbt-eq b psbt input utxo node n u d i o w h m k v = ground arith

  -- A review that was accepted can be signed by the same session: `sign_psbt` succeeds on what the
  -- terminal stores of it, and the bytes it returns are the reviewed PSBT with one signature
  -- added, made over the reviewed hash with the private key of the reviewed public key.
  pub sign_psbt-review_psbt :
      (laws : SigningLaws c) (bytes : List ℕ) (r : Review)
      → review_psbt c s bytes ≡ ok r
      → (n : ℕ) × (input : PsbtInput) × (r.psbt.inputs ≡ input ∷ [])
        × (public_key n ≡ r.change_public_key)
        × (sign_psbt c s (binding c r)
            ≡ ok (record {
              signed_psbt = serialize (record r.psbt {
                inputs =
                    record input {
                      partial_sigs = (r.change_public_key, sign_ecdsa r.sighash n) ∷ [];
                    }
                    ∷ [];
              });
              txid = compute_txid r.psbt.unsigned_tx;
            }))
  unfolding binding
  sign_psbt-review_psbt laws bytes r h =
      let v = review_psbt-IsReviewed c s bytes r h in
      let (node, n, unlocked, m, k, p) = public_at-ok r.change_path r.change_public_key v.own_key in
      let verified : verify_ecdsa r.sighash (sign_ecdsa r.sighash n) r.change_public_key ≡ true =
        ap (verify_ecdsa r.sighash (sign_ecdsa r.sighash n)) (sym p)
        ∙ laws.verify_own r.sighash n in
      let signed =
        sign_psbt-eq (binding c r) r.psbt v.input v.spent node n unlocked
          (laws.reparse bytes r.psbt v.parsed) v.only_input v.paying v.known_utxo v.hash m k
          verified in
      (n, v.input, v.only_input, p, rw v.unsigned at signed)

  -- What a successful call of `sign_psbt` has checked, for any stored binding.
  pub record IsSound (b : ReviewBinding) (signed : SignedBinding) : Type 0 where
    pub unlocked : s.is_locked ≡ false
    pub psbt : Psbt
    pub input : PsbtInput
    pub others : List PsbtInput
    pub utxo : TxOut
    pub signature : ℕ
    pub parsed : deserialize b.psbt_bytes ≡ some psbt
    pub first_input : psbt.inputs ≡ input ∷ others
    pub spent : input.witness_utxo ≡ some utxo
    pub undrifted : signature_hash psbt.unsigned_tx utxo.script_pubkey utxo.value ≡ some b.sighash
    pub verified : verify_ecdsa b.sighash signature b.change_public_key ≡ true
    pub written :
        signed.signed_psbt
        ≡ serialize (record psbt {
          inputs =
              record input {
                partial_sigs = insert_sig b.change_public_key signature input.partial_sigs;
              }
              ∷ others;
        })
    pub named : signed.txid ≡ compute_txid psbt.unsigned_tx

  head_tail :
      (xs : List PsbtInput) (x : PsbtInput)
      → get_elem? xs 0 ≡ some x
      → (rest : List PsbtInput) × (xs ≡ x ∷ rest)
  head_tail [] x h = absurd (cc h)
  head_tail (y ∷ ys) x h = (ys, cc h)

  with_signature-ok :
      (psbt exported : Psbt) (key sig : ℕ) (input : PsbtInput)
      → get_elem? psbt.inputs 0 ≡ some input
      → with_signature psbt key sig ≡ ok exported
      → (others : List PsbtInput) × (psbt.inputs ≡ input ∷ others)
        × (exported ≡ record psbt {
          inputs = record input { partial_sigs = insert_sig key sig input.partial_sigs } ∷ others;
        })
  unfolding with_signature
  with_signature-ok psbt exported key sig input f h =
      let (others, e) = head_tail psbt.inputs input f in (others, e, cc (h, e))

  sign_hash-ok :
      (b : ReviewBinding) (hash signature : ℕ)
      → sign_hash c s b hash ≡ ok signature
      → (hash ≡ b.sighash) × (verify_ecdsa hash signature b.change_public_key ≡ true)
  unfolding sign_hash
  sign_hash-ok b hash signature h = ground arith

  -- `sign_psbt` signs only for an unlocked session, only a PSBT whose hash, computed again from its
  -- transaction and from amount and script of its first input's witness UTXO, is the reviewed one, and
  -- only where the signature verifies under the reviewed key; what it returns is that PSBT with the
  -- signature stored under that key in the first input, and nothing else changed.
  pub sign_psbt-IsSound :
      (b : ReviewBinding) (signed : SignedBinding) → sign_psbt c s b ≡ ok signed → IsSound b signed
  unfolding sign_psbt
  sign_psbt-IsSound b signed h = elim (Option-cases (deserialize b.psbt_bytes)) [
    | inl e ↦ absurd (ground arith)
    | inr (psbt, e) ↦ elim (Option-cases (get_elem? psbt.inputs 0)) [
      | inl f ↦ absurd (ground arith)
      | inr (input, f) ↦ elim (Option-cases input.witness_utxo) [
        | inl g ↦ absurd (ground arith)
        | inr (utxo, g) ↦
            elim (Option-cases (signature_hash psbt.unsigned_tx utxo.script_pubkey utxo.value)) [
              | inl i ↦ absurd (ground arith)
              | inr (hash, i) ↦ elim (Result-cases (sign_hash c s b hash)) [
                | inr bad ↦ absurd (ground arith)
                | inl (signature, j) ↦
                    elim (Result-cases (with_signature psbt b.change_public_key signature)) [
                      | inr bad ↦ absurd (ground arith)
                      | inl (exported, k) ↦
                          let checked = sign_hash-ok b hash signature j in
                          let (others, only, made) =
                            with_signature-ok psbt exported b.change_public_key signature input f
                              k in
                          record {
                            unlocked = ground arith;
                            psbt = psbt;
                            input = input;
                            others = others;
                            utxo = utxo;
                            signature = signature;
                            parsed = e;
                            first_input = only;
                            spent = g;
                            undrifted = i ∙ ap some checked.0;
                            verified = rw (← checked.0) checked.1;
                            written = ground arith ∙ ap serialize made;
                            named =
                                ground arith ∙ ap (λ (p : Psbt). compute_txid p.unsigned_tx) made;
                          }
                    ]
              ]
            ]
      ]
    ]
  ]
