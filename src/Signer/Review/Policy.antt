-- ===== src/Signer/Review/Policy.antt =====
-- What an accepted review guarantees, and that no input makes the review panic.
use Prim.Native.String.{String}
use savepoint_signer.Prelude.{
  ℕ, suc, ◌+◌, ◌≤◌, ◌<◌, ◌≡◌, ◌⊎◌, inl, inr, ap, ◌∙◌, if◌then◌else◌, Bool, true, false, none, some,
  Option-cases, List, [], ◌∷◌, ◌++◌, arith, length, get_elem?, take, drop, drop-eq-cons, take_all,
  eq-single, sym, ◌==◌, Bool-cases,
}
use mathlib.Core.List.{append-nil, append_assoc}
use savepoint_signer.Signer.Result.{Result, ok, map_err, index, ◌>>=◌, >>=-eq-ok}
use savepoint_signer.Signer.Bitcoin.{
  Bitcoin, TxOut, Transaction, KeySource, PsbtInput, PsbtOutput, Psbt, sighash_all,
}
use savepoint_signer.Signer.Seed.{
  SeedSession, DisplayItem, Review, max_psbt_bytes, max_fee_sat, max_money, fingerprint, public_at,
}
use savepoint_signer.Signer.Review.{
  check_own, check_key, build_review, finish_review, review_parsed, parse_bounded, check_origin,
  check_utxo, check_change, check_output, check_outputs, check_fee, review_psbt,
}

unfoldable pub sum_amounts : List DisplayItem → ℕ
sum_amounts [] = 0
sum_amounts (d ∷ ds) = d.amount_sat + sum_amounts ds

check_fee-ok :
    (value total fee : ℕ)
    → check_fee value total ≡ ok fee
    → (total + fee ≡ value) × (fee ≤ max_fee_sat)
unfolding check_fee
check_fee-ok value total fee h = ground arith

module _ (c : Bitcoin) (s : SeedSession) where
  open c use {p2wpkh_script, is_p2wpkh, address_text, signature_hash, deserialize}

  -- The script pays a key of the change branch (1) of this seed's account.
  abbrev pub OwnChange : ℕ → Type 0
  OwnChange script =
      (key : ℕ) × (path : List ℕ) × (public_at c s path ≡ ok key)
      × (p2wpkh_script key s.network ≡ script)
      × (get_elem? path 3 ≡ some 1)

  -- The item tells the truth about the output.
  pub record IsShown (out : TxOut) (item : DisplayItem) : Type 0 where
    pub amount : item.amount_sat ≡ out.value
    pub possible : out.value ≤ max_money
    pub address : address_text out.script_pubkey s.network ≡ some item.address
    pub native : is_p2wpkh out.script_pubkey ≡ true
    pub change : item.is_change ≡ true → OwnChange out.script_pubkey

  abbrev pub AllShown : List TxOut → List DisplayItem → Type 0
  AllShown [] [] = Unit {0}
  AllShown (o ∷ os) (d ∷ ds) = IsShown o d × AllShown os ds
  AllShown [] (d ∷ ds) = ⊥
  AllShown (o ∷ os) [] = ⊥

  check_own-ok :
      (script key : ℕ) (source : KeySource)
      → check_own c s script key source ≡ ok true
      → OwnChange script
  unfolding check_own
  check_own-ok script key source h = (key, source.path, ground arith, ground arith, ground arith)

  check_change-ok :
      (fp script : ℕ) (b : Bool) (metas : List (ℕ × KeySource))
      → check_change c s fp script b metas ≡ ok true
      → (b ≡ true) ⊎ OwnChange script
  unfolding check_change
  check_change-ok fp script b [] h = inl (ground arith)
  check_change-ok fp script b ((key, source) ∷ rest) h =
      let step = if source.fingerprint == fp then check_own c s script key source else ok b in
      let (change, first, last) =
        >>=-eq-ok step (λ (x : Bool). check_change c s fp script x rest) h in
      elim (check_change-ok fp script change rest last) [
        | inr own ↦ inr own
        | inl e ↦ elim (Bool-cases (source.fingerprint == fp)) [
          | inl f ↦ inr (check_own-ok script key source (rw (f, e) at first))
          | inr f ↦ inl (ground arith)
        ]
      ]

  check_output-ok :
      (fp total : ℕ) (meta : PsbtOutput) (out : TxOut) (t : ℕ) (d : DisplayItem)
      → check_output c s fp total meta out ≡ ok (t, d)
      → (t ≡ total + out.value)
        × (d.amount_sat ≡ out.value)
        × (out.value ≤ max_money)
        × (address_text out.script_pubkey s.network ≡ some d.address)
        × (is_p2wpkh out.script_pubkey ≡ true)
        × (check_change c s fp out.script_pubkey false meta.bip32_derivation ≡ ok d.is_change)
  unfolding check_output
  check_output-ok fp total meta out t d h = ground arith

  check_output-IsShown :
      (fp total : ℕ) (meta : PsbtOutput) (out : TxOut) (t : ℕ) (d : DisplayItem)
      → check_output c s fp total meta out ≡ ok (t, d)
      → IsShown out d
  check_output-IsShown fp total meta out t d h =
      let o = check_output-ok fp total meta out t d h in
      record {
        amount = o.1;
        possible = o.2;
        address = o.3;
        native = o.4;
        change = λ e.
            elim (check_change-ok fp out.script_pubkey false meta.bip32_derivation
              (o.5 ∙ ap ok e)) [ inl f ↦ absurd (cc f) | inr own ↦ own ];
      }

  check_outputs_cons :
      (fp : ℕ) (txouts : List TxOut) (i total n : ℕ) (items new : List DisplayItem)
      (meta : PsbtOutput) (out : TxOut) (entry : ℕ × DisplayItem) (t : ℕ) (shown : List DisplayItem)
      → index {E = String} txouts i ≡ ok out
      → check_output c s fp total meta out ≡ ok entry
      → shown ≡ (items ++ entry.1 ∷ []) ++ new
      → t ≡ entry.0 + sum_amounts new
      → AllShown (take n (drop (i + 1) txouts)) new
      → (shown ≡ items ++ (entry.1 ∷ new))
        × (t ≡ total + sum_amounts (entry.1 ∷ new))
        × AllShown (take (suc n) (drop i txouts)) (entry.1 ∷ new)
  unfolding sum_amounts
  check_outputs_cons fp txouts i total n items new meta out (t', d) t shown at one e sum all =
      let o = check_output-ok fp total meta out t' d one in
      (
        e ∙ append_assoc items (d ∷ []) new,
        omega arith,
        rw (drop-eq-cons txouts i out (ground arith))
            (check_output-IsShown fp total meta out t' d one, all),
      )

  check_outputs-ok :
      (fp : ℕ) (txouts : List TxOut) (i total : ℕ) (items : List DisplayItem)
      (metas : List PsbtOutput) (t : ℕ) (shown : List DisplayItem)
      → check_outputs c s fp txouts i total items metas ≡ ok (t, shown)
      → (new : List DisplayItem) × (shown ≡ items ++ new)
        × (t ≡ total + sum_amounts new)
        × AllShown (take (length metas) (drop i txouts)) new
  unfolding check_outputs sum_amounts
  check_outputs-ok fp txouts i total items [] t shown h =
      let e : shown ≡ items = ground arith in ([], e ∙ sym (append-nil items), ground arith, tt)
  check_outputs-ok fp txouts i total items (meta ∷ metas) t shown h =
      let last = λ (entry : ℕ × DisplayItem).
        check_outputs c s fp txouts (i + 1) entry.0 (items ++ entry.1 ∷ []) metas in
      let first : Result String TxOut = index txouts i in
      let (out, at, h₁) =
        >>=-eq-ok first (λ (out : TxOut). check_output c s fp total meta out >>= last) h in
      let (entry, one, h₂) = >>=-eq-ok (check_output c s fp total meta out) last h₁ in
      let (new, e, sum, all) =
        check_outputs-ok fp txouts (i + 1) entry.0 (items ++ entry.1 ∷ []) metas t shown h₂ in
      let parts =
        check_outputs_cons fp txouts i total (length metas) items new meta out entry t shown at one
          e sum all in
      (entry.1 ∷ new, parts.0, parts.1, parts.2)

  -- Everything that an accepted review establishes about the bytes it was made from.
  pub record IsReviewed (bytes : List ℕ) (r : Review) : Type 0 where
    pub nonempty : 0 < length bytes
    pub bounded : length bytes ≤ max_psbt_bytes
    pub parsed : deserialize bytes ≡ some r.psbt
    pub one_input : length r.psbt.unsigned_tx.input ≡ 1
    pub spent : TxOut
    pub input : PsbtInput
    pub only_input : r.psbt.inputs ≡ input ∷ []
    pub known_utxo : input.witness_utxo ≡ some spent
    pub unsigned : input.partial_sigs ≡ []
    pub final_sig : input.final_script_sig ≡ none
    pub final_witness : input.final_script_witness ≡ none
    pub sighash_type : (input.sighash_type ≡ none) ⊎ (input.sighash_type ≡ some sighash_all)
    pub own_key : public_at c s r.change_path ≡ ok r.change_public_key
    pub own_script : spent.script_pubkey ≡ p2wpkh_script r.change_public_key s.network
    pub shown : AllShown r.psbt.unsigned_tx.output r.outputs
    pub paying : 0 < length r.psbt.outputs
    pub few : length r.psbt.unsigned_tx.output ≤ 2
    pub balance : sum_amounts r.outputs + r.fee_sat ≡ spent.value
    pub fee : r.fee_sat ≤ max_fee_sat
    pub hash : signature_hash r.psbt.unsigned_tx spent.script_pubkey spent.value ≡ some r.sighash

  pub parse_bounded-ok :
      (bytes : List ℕ) (psbt : Psbt)
      → parse_bounded c bytes ≡ ok psbt
      → (0 < length bytes)
        × (length bytes ≤ max_psbt_bytes)
        × (deserialize bytes ≡ some psbt)
        × (length psbt.inputs ≡ 1)
        × (length psbt.unsigned_tx.input ≡ 1)
        × (length psbt.outputs ≤ 2)
        × (length psbt.outputs ≡ length psbt.unsigned_tx.output)
        × (0 < length psbt.outputs)
  unfolding parse_bounded
  parse_bounded-ok bytes psbt h = ground arith

  check_origin-ok :
      (fp key : ℕ) (path : List ℕ) (input : PsbtInput)
      → check_origin c s fp input ≡ ok (key, path)
      → (input.partial_sigs ≡ [])
        × (public_at c s path ≡ ok key)
        × (input.final_script_sig ≡ none)
        × (input.final_script_witness ≡ none)
        × ((input.sighash_type ≡ none) ⊎ (input.sighash_type ≡ some sighash_all))
  unfolding check_origin check_key
  check_origin-ok fp key path input h = elim (Option-cases input.final_script_sig) [
    | inr (a, e) ↦ absurd (ground arith)
    | inl e ↦ elim (Option-cases input.final_script_witness) [
      | inr (a, f) ↦ absurd (ground arith)
      | inl f ↦ elim (Option-cases input.sighash_type) [
        | inl g ↦ (ground arith, ground arith, e, f, inl g)
        | inr (a, g) ↦ (ground arith, ground arith, e, f, inr (ground arith))
      ]
    ]
  ]

  check_utxo-ok :
      (key : ℕ) (tx : Transaction) (input : PsbtInput) (utxo : TxOut)
      → check_utxo c s key tx input ≡ ok utxo
      → (input.witness_utxo ≡ some utxo) × (utxo.script_pubkey ≡ p2wpkh_script key s.network)
  unfolding check_utxo
  check_utxo-ok key tx input utxo h = ground arith

  build_review-ok :
      (psbt : Psbt) (origin : ℕ × List ℕ) (utxo : TxOut) (total : ℕ) (items : List DisplayItem)
      (r : Review)
      → build_review c psbt origin utxo (total, items) ≡ ok r
      → (r.psbt ≡ psbt)
        × (r.change_public_key ≡ origin.0)
        × (r.change_path ≡ origin.1)
        × (signature_hash psbt.unsigned_tx utxo.script_pubkey utxo.value ≡ some r.sighash)
        × (r.outputs ≡ items)
        × (check_fee utxo.value total ≡ ok r.fee_sat)
  unfolding build_review
  build_review-ok psbt origin utxo total items r h = ground arith

  finish_review-ok :
      (psbt : Psbt) (fp : ℕ) (origin : ℕ × List ℕ) (utxo : TxOut) (r : Review)
      → length psbt.outputs ≡ length psbt.unsigned_tx.output
      → finish_review c s psbt fp origin utxo ≡ ok r
      → (r.psbt ≡ psbt)
        × (r.change_public_key ≡ origin.0)
        × (r.change_path ≡ origin.1)
        × (signature_hash psbt.unsigned_tx utxo.script_pubkey utxo.value ≡ some r.sighash)
        × (sum_amounts r.outputs + r.fee_sat ≡ utxo.value)
        × (r.fee_sat ≤ max_fee_sat)
        × AllShown psbt.unsigned_tx.output r.outputs
  unfolding finish_review
  finish_review-ok psbt fp origin utxo r len h =
      let outs = psbt.unsigned_tx.output in
      let ((total, items), o, rest) =
        >>=-eq-ok (check_outputs c s fp outs 0 0 [] psbt.outputs) (build_review c psbt origin utxo)
          h in
      let b = build_review-ok psbt origin utxo total items r rest in
      let fee = check_fee-ok utxo.value total r.fee_sat b.5 in
      let (new, e, sum, all) = check_outputs-ok fp outs 0 0 [] psbt.outputs total items o in
      let same : r.outputs ≡ new = b.4 ∙ e in
      (
        b.0,
        b.1,
        b.2,
        b.3,
        rw same (omega arith),
        fee.1,
        rw same (rw (len, take_all outs (length outs) (omega arith)) at all),
      )

  review_parsed-ok :
      (psbt : Psbt) (fp : ℕ) (r : Review)
      → review_parsed c s psbt fp ≡ ok r
      → (input : PsbtInput) × (key : ℕ) × (path : List ℕ) × (utxo : TxOut) × (index {E = String}
            psbt.inputs 0
          ≡ ok input)
        × (check_origin c s fp input ≡ ok (key, path))
        × (check_utxo c s key psbt.unsigned_tx input ≡ ok utxo)
        × (finish_review c s psbt fp (key, path) utxo ≡ ok r)
  unfolding review_parsed
  review_parsed-ok psbt fp r h =
      let last = λ (input : PsbtInput) (origin : ℕ × List ℕ).
        check_utxo c s origin.0 psbt.unsigned_tx input >>= finish_review c s psbt fp origin in
      let first : Result String PsbtInput = index psbt.inputs 0 in
      let (input, at, h₁) =
        >>=-eq-ok first (λ (input : PsbtInput). check_origin c s fp input >>= last input) h in
      let (origin, o, h₂) = >>=-eq-ok (check_origin c s fp input) (last input) h₁ in
      let (utxo, u, h₃) =
        >>=-eq-ok (check_utxo c s origin.0 psbt.unsigned_tx input)
          (finish_review c s psbt fp origin) h₂ in
      (input, origin.0, origin.1, utxo, at, o, u, h₃)

  -- The facts of the parts, put together.
  assemble :
      (bytes : List ℕ) (psbt : Psbt) (r : Review) (input : PsbtInput) (utxo : TxOut) (key : ℕ)
      (path : List ℕ)
      → (0 < length bytes)
        × (length bytes ≤ max_psbt_bytes)
        × (deserialize bytes ≡ some psbt)
        × (length psbt.inputs ≡ 1)
        × (length psbt.unsigned_tx.input ≡ 1)
        × (length psbt.outputs ≤ 2)
        × (length psbt.outputs ≡ length psbt.unsigned_tx.output)
        × (0 < length psbt.outputs)
      → psbt.inputs ≡ input ∷ []
      → (input.partial_sigs ≡ [])
        × (public_at c s path ≡ ok key)
        × (input.final_script_sig ≡ none)
        × (input.final_script_witness ≡ none)
        × ((input.sighash_type ≡ none) ⊎ (input.sighash_type ≡ some sighash_all))
      → (input.witness_utxo ≡ some utxo) × (utxo.script_pubkey ≡ p2wpkh_script key s.network)
      → r.psbt ≡ psbt
      → r.change_public_key ≡ key
      → r.change_path ≡ path
      → signature_hash psbt.unsigned_tx utxo.script_pubkey utxo.value ≡ some r.sighash
      → sum_amounts r.outputs + r.fee_sat ≡ utxo.value
      → r.fee_sat ≤ max_fee_sat
      → AllShown psbt.unsigned_tx.output r.outputs
      → IsReviewed bytes r
  assemble bytes psbt r input utxo key path b one o u p k w hash sum fee all = record {
    nonempty = b.0;
    bounded = b.1;
    parsed = rw p b.2;
    one_input = rw p b.4;
    spent = utxo;
    input = input;
    only_input = rw p one;
    known_utxo = u.0;
    unsigned = o.0;
    final_sig = o.2;
    final_witness = o.3;
    sighash_type = o.4;
    own_key = rw (k, w) o.1;
    own_script = rw k u.1;
    shown = rw p all;
    paying = rw p b.7;
    few = rw p (omega arith);
    balance = sum;
    fee = fee;
    hash = rw p hash;
  }

  review_parts :
      (bytes : List ℕ) (psbt : Psbt) (fp : ℕ) (r : Review)
      → parse_bounded c bytes ≡ ok psbt
      → review_parsed c s psbt fp ≡ ok r
      → IsReviewed bytes r
  review_parts bytes psbt fp r p h =
      let b = parse_bounded-ok bytes psbt p in
      let (input, key, path, utxo, at, o, u, last) = review_parsed-ok psbt fp r h in
      let o' = check_origin-ok fp key path input o in
      let u' = check_utxo-ok key psbt.unsigned_tx input utxo u in
      let f = finish_review-ok psbt fp (key, path) utxo r b.6 last in
      assemble bytes psbt r input utxo key path b (eq-single psbt.inputs input b.3 (ground arith))
        o' u' f.0 f.1 f.2 f.3 f.4 f.5 f.6

  -- A PSBT that the review accepts is within the size limit and parses to the PSBT held; it has
  -- one input, with no signature, final script or final witness and no sighash type but All, which
  -- spends a known output paying to the key of this seed's own
  -- account that will sign; it has at most two outputs, each shown in order with its true amount
  -- and address, of Native SegWit form, and marked as change only if it pays a key of the seed's
  -- change branch; the shown amounts and the fee add up to the spent amount, the fee is within its
  -- limit, and the hash kept for signing is that of the held transaction.
  pub review_psbt-IsReviewed :
      (bytes : List ℕ) (r : Review) → review_psbt c s bytes ≡ ok r → IsReviewed bytes r
  unfolding review_psbt
  review_psbt-IsReviewed bytes r h =
      let last =
        λ (psbt : Psbt). map_err (fingerprint c s) "Seed locked" >>= review_parsed c s psbt in
      let (psbt, p, h₁) = >>=-eq-ok (parse_bounded c bytes) last h in
      let (fp, f, h₂) =
        >>=-eq-ok (map_err (fingerprint c s) "Seed locked") (review_parsed c s psbt) h₁ in
      review_parts bytes psbt fp r p h₂
