-- ===== src/Signer/Review/Total.antt =====
-- The review never panics: every index that it takes is guarded.
use Prim.Native.String.{String}
use savepoint_signer.Prelude.{
  ℕ, zero, suc, ◌+◌, ◌≤◌, ◌<◌, ◌≡◌, ◌≢◌, refl, Bool, true, false, List, [], ◌∷◌, ◌++◌, arith,
  length, Bool-cases, inl, inr, if◌then◌else◌, ◌==◌,
}
use savepoint_signer.Signer.Result.{ok, panic, map_err, index, ◌>>=◌, >>=-ne-panic}
use savepoint_signer.Signer.Bitcoin.{
  Bitcoin, TxOut, Transaction, KeySource, PsbtInput, PsbtOutput, Psbt,
}
use savepoint_signer.Signer.Seed.{
  SeedSession, DisplayItem, master, fingerprint, in_account, public_at,
}
use savepoint_signer.Signer.Review.{
  parse_bounded, check_key, check_origin, check_utxo, check_own, check_change, check_output,
  check_outputs, check_fee, build_review, finish_review, review_parsed, review_psbt,
}
use savepoint_signer.Signer.Review.Policy.{parse_bounded-ok}

index-ne-panic :
    {A : Type 0} (xs : List A) (i : ℕ) → i < length xs → index {E = String} xs i ≢ panic
index-ne-panic [] i h = absurd (omega arith)
index-ne-panic (x ∷ xs) zero h = cc
index-ne-panic (x ∷ xs) (suc i) h = index-ne-panic xs i (omega arith)

check_fee-ne-panic : (value total : ℕ) → check_fee value total ≢ panic
unfolding check_fee
check_fee-ne-panic value total = ground arith

in_account-length : (s : SeedSession) (path : List ℕ) → in_account s path ≡ true → length path ≡ 5
unfolding in_account
in_account-length s [] h = cc
in_account-length s (p ∷ []) h = cc
in_account-length s (p ∷ q ∷ []) h = cc
in_account-length s (p ∷ q ∷ a ∷ []) h = cc
in_account-length s (p ∷ q ∷ a ∷ b ∷ []) h = cc
in_account-length s (p ∷ q ∷ a ∷ b ∷ i ∷ []) h = refl
in_account-length s (p ∷ q ∷ a ∷ b ∷ i ∷ j ∷ path) h = cc

module _ (c : Bitcoin) (s : SeedSession) where
  master-ne-panic : master c s ≢ panic
  unfolding master
  master-ne-panic = ground arith

  fingerprint-ne-panic : map_err {F = String} (fingerprint c s) "Seed locked" ≢ panic
  unfolding fingerprint
  fingerprint-ne-panic = ground (arith, master-ne-panic)

  public_at-ne-panic : (path : List ℕ) → public_at c s path ≢ panic
  unfolding public_at
  public_at-ne-panic path = ground (arith, master-ne-panic)

  public_at-length : (path : List ℕ) (key : ℕ) → public_at c s path ≡ ok key → length path ≡ 5
  unfolding public_at
  public_at-length path key h = in_account-length s path (ground arith)

  check_own-ne-panic :
      (script key : ℕ) (source : KeySource) → check_own c s script key source ≢ panic
  unfolding check_own
  check_own-ne-panic script key source =
      >>=-ne-panic (public_at c s source.path) _ (public_at-ne-panic source.path) λ derived e.
        let i =
          index-ne-panic source.path 3 (omega (arith, public_at-length source.path derived e)) in
        ground arith

  check_change-ne-panic :
      (fp script : ℕ) (b : Bool) (metas : List (ℕ × KeySource))
      → check_change c s fp script b metas ≢ panic
  unfolding check_change
  check_change-ne-panic fp script b [] = cc
  check_change-ne-panic fp script b ((key, source) ∷ rest) =
      >>=-ne-panic (if source.fingerprint == fp then check_own c s script key source else ok b)
        (λ (x : Bool). check_change c s fp script x rest)
        (ground (arith, check_own-ne-panic script key source))
        (λ x e. check_change-ne-panic fp script x rest)

  check_output-ne-panic :
      (fp total : ℕ) (meta : PsbtOutput) (out : TxOut) → check_output c s fp total meta out ≢ panic
  unfolding check_output
  check_output-ne-panic fp total meta out =
      ground (arith, check_change-ne-panic fp out.script_pubkey false meta.bip32_derivation)

  check_outputs-ne-panic :
      (fp : ℕ) (txouts : List TxOut) (i total : ℕ) (items : List DisplayItem)
      (metas : List PsbtOutput)
      → i + length metas ≤ length txouts
      → check_outputs c s fp txouts i total items metas ≢ panic
  unfolding check_outputs
  check_outputs-ne-panic fp txouts i total items [] h = cc
  check_outputs-ne-panic fp txouts i total items (meta ∷ metas) h =
      let last = λ (entry : ℕ × DisplayItem).
        check_outputs c s fp txouts (i + 1) entry.0 (items ++ entry.1 ∷ []) metas in
      >>=-ne-panic (index txouts i) (λ (out : TxOut). check_output c s fp total meta out >>= last)
        (index-ne-panic txouts i (omega arith))
        λ out e.
          >>=-ne-panic (check_output c s fp total meta out) last
            (check_output-ne-panic fp total meta out)
            λ entry f.
              check_outputs-ne-panic fp txouts (i + 1) entry.0 (items ++ entry.1 ∷ []) metas
                (omega arith)

  check_key-ne-panic : (fp : ℕ) (entry : ℕ × KeySource) → check_key c s fp entry ≢ panic
  unfolding check_key
  check_key-ne-panic fp entry = ground (arith, public_at-ne-panic entry.1.path)

  check_origin-ne-panic : (fp : ℕ) (input : PsbtInput) → check_origin c s fp input ≢ panic
  unfolding check_origin
  check_origin-ne-panic fp input = elim (Bool-cases (length input.bip32_derivation == 1)) [
    | inl e ↦
        let i = index-ne-panic input.bip32_derivation 0 (ground arith) in
        let k =
          >>=-ne-panic (index input.bip32_derivation 0) (check_key c s fp) i
            (λ entry f. check_key-ne-panic fp entry) in
        ground arith
    | inr e ↦ ground arith
  ]

  check_utxo-ne-panic :
      (key : ℕ) (tx : Transaction) (input : PsbtInput)
      → length tx.input ≡ 1
      → check_utxo c s key tx input ≢ panic
  unfolding check_utxo
  check_utxo-ne-panic key tx input h =
      let i = index-ne-panic tx.input 0 (omega arith) in ground arith

  parse_bounded-ne-panic : (bytes : List ℕ) → parse_bounded c bytes ≢ panic
  unfolding parse_bounded
  parse_bounded-ne-panic bytes = ground arith

  build_review-ne-panic :
      (psbt : Psbt) (origin : ℕ × List ℕ) (utxo : TxOut) (shown : ℕ × List DisplayItem)
      → build_review c psbt origin utxo shown ≢ panic
  unfolding build_review
  build_review-ne-panic psbt origin utxo shown =
      ground (arith, check_fee-ne-panic utxo.value shown.0)

  finish_review-ne-panic :
      (psbt : Psbt) (fp : ℕ) (origin : ℕ × List ℕ) (utxo : TxOut)
      → length psbt.outputs ≡ length psbt.unsigned_tx.output
      → finish_review c s psbt fp origin utxo ≢ panic
  unfolding finish_review
  finish_review-ne-panic psbt fp origin utxo h =
      let outs = psbt.unsigned_tx.output in
      >>=-ne-panic (check_outputs c s fp outs 0 0 [] psbt.outputs) (build_review c psbt origin utxo)
        (check_outputs-ne-panic fp outs 0 0 [] psbt.outputs (omega arith))
        λ shown e. build_review-ne-panic psbt origin utxo shown

  review_parsed-ne-panic :
      (psbt : Psbt) (fp : ℕ)
      → length psbt.inputs ≡ 1
      → length psbt.unsigned_tx.input ≡ 1
      → length psbt.outputs ≡ length psbt.unsigned_tx.output
      → review_parsed c s psbt fp ≢ panic
  unfolding review_parsed
  review_parsed-ne-panic psbt fp i t o =
      let last = λ (input : PsbtInput) (origin : ℕ × List ℕ).
        check_utxo c s origin.0 psbt.unsigned_tx input >>= finish_review c s psbt fp origin in
      >>=-ne-panic (index psbt.inputs 0)
        (λ (input : PsbtInput). check_origin c s fp input >>= last input)
        (index-ne-panic psbt.inputs 0 (omega arith))
        λ input e.
          >>=-ne-panic (check_origin c s fp input) (last input) (check_origin-ne-panic fp input)
            λ origin f.
              >>=-ne-panic (check_utxo c s origin.0 psbt.unsigned_tx input)
                (finish_review c s psbt fp origin)
                (check_utxo-ne-panic origin.0 psbt.unsigned_tx input t)
                λ utxo g. finish_review-ne-panic psbt fp origin utxo o

  -- No bytes make the review panic: every index it takes and every `unwrap` is guarded.
  pub review_psbt-ne-panic : (bytes : List ℕ) → review_psbt c s bytes ≢ panic
  unfolding review_psbt
  review_psbt-ne-panic bytes =
      let next =
        λ (psbt : Psbt). map_err (fingerprint c s) "Seed locked" >>= review_parsed c s psbt in
      >>=-ne-panic (parse_bounded c bytes) next (parse_bounded-ne-panic bytes) λ psbt e.
        let b = parse_bounded-ok c s bytes psbt e in
        >>=-ne-panic (map_err (fingerprint c s) "Seed locked") (review_parsed c s psbt)
          fingerprint-ne-panic λ fp f. review_parsed-ne-panic psbt fp b.3 b.4 b.6
