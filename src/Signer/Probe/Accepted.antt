-- ===== src/Signer/Probe/Accepted.antt =====
-- What `validate` of signer-probe/src/lib.rs has checked of a PSBT that it accepts.
use savepoint_signer.Prelude.{
  ℕ, ◌+◌, ◌≤◌, ◌<◌, ◌≡◌, refl, ap, sym, ◌∙◌, true, Option, some, List, [], ◌∷◌, ◌++◌, arith, ==_iff,
  ◌==◌, if◌then◌else◌, length, drop, get_elem?, drop-eq-cons, drop_all, eq-single, Option-cases,
  Bool-cases, inl, inr,
}
use mathlib.Core.Path.{subst}
use mathlib.Core.List.{append-nil, append_assoc}
use savepoint_signer.Signer.Result.{ok, index, >>=-eq-ok, require, require-eq-ok}
use savepoint_signer.Signer.Bitcoin.{
  Bitcoin, TxOut, KeySource, PsbtInput, PsbtOutput, Psbt, sighash_all,
}
use savepoint_signer.Signer.Seed.{DisplayItem, Review, max_psbt_bytes, max_fee_sat}
use savepoint_signer.Signer.Review.Policy.{sum_amounts}
use savepoint_signer.Signer.Probe.{
  reject, multisig, ValidationContext, within_account, parse_psbt, check_spent, check_source,
  check_input, check_item, check_items, conclude, validate,
}

-- How many of the items are marked as change.
unfoldable pub count_change : List DisplayItem → ℕ
count_change [] = 0
count_change (d ∷ ds) = (if d.is_change then 1 else 0) + count_change ds

index-ok :
    {E A : Type 0} (xs : List A) (i : ℕ) (x : A)
    → index {E = E} xs i ≡ ok x
    → get_elem? xs i ≡ some x
index-ok xs i x h = elim (Option-cases (get_elem? xs i)) [
  | inl e ↦ absurd (cc (h, e))
  | inr (y, e) ↦ cc (h, e)
]

module _ (c : Bitcoin) (witness_version : ℕ → Option ℕ) (from_entropy : List ℕ → Option ℕ)
    (ctx : ValidationContext) where
  -- The item of an output: its amount, its address, and whether it pays to the key of the context.
  abbrev pub IsItem : TxOut → DisplayItem → Type 0
  IsItem out d =
      (d.amount_sat ≡ out.value)
      × (c.address_text out.script_pubkey ctx.network ≡ some d.address)
      × (d.is_change ≡ (out.script_pubkey == c.p2wpkh_script ctx.change_public_key ctx.network))
      × (c.is_p2wpkh out.script_pubkey ≡ true)

  abbrev pub AreItems : List TxOut → List DisplayItem → Type 0
  AreItems [] [] = Unit
  AreItems (out ∷ outs) (d ∷ ds) = IsItem out d × AreItems outs ds
  AreItems _ _ = ⊥

  check_item-ok :
      (count total : ℕ) (meta : PsbtOutput) (out : TxOut) (r : ℕ × ℕ × DisplayItem)
      → check_item c witness_version from_entropy ctx count total meta out ≡ ok r
      → (r.0 ≡ count + (if r.2.is_change then 1 else 0))
        × (r.1 ≡ total + r.2.amount_sat)
        × IsItem out r.2
  unfolding check_item
  check_item-ok count total meta out r h = elim (Bool-cases (c.is_p2wpkh out.script_pubkey)) [
    | inr e ↦ absurd (ground arith)
    | inl e ↦ elim (Option-cases (c.address_text out.script_pubkey ctx.network)) [
      | inl f ↦ absurd (ground arith)
      | inr (a, f) ↦
          let mine = out.script_pubkey == c.p2wpkh_script ctx.change_public_key ctx.network in
          let shown : DisplayItem = record {
            address = a;
            amount_sat = out.value;
            is_change = mine;
          } in
          let k : (if mine then count + 1 else count, total + out.value, shown) ≡ r =
            ground arith in
          subst
            (λ (x : ℕ × ℕ × DisplayItem).
              (x.0 ≡ count + (if x.2.is_change then 1 else 0))
              × (x.1 ≡ total + x.2.amount_sat)
              × IsItem out x.2)
            k (ground arith, refl, (refl, f, refl, e))
    ]
  ]

  check_items-ok :
      (txouts : List TxOut) (i count total : ℕ) (items : List DisplayItem) (metas : List PsbtOutput)
      (r : ℕ × ℕ × List DisplayItem)
      → i + length metas ≡ length txouts
      → check_items c witness_version from_entropy ctx txouts i count total items metas ≡ ok r
      → (new : List DisplayItem) × (r.2 ≡ items ++ new)
        × (r.0 ≡ count + count_change new)
        × (r.1 ≡ total + sum_amounts new)
        × AreItems (drop i txouts) new
  unfolding check_items count_change sum_amounts
  check_items-ok txouts i count total items [] r len h =
      let k : (count, total, items) ≡ r = cc h in
      (
        [],
        ap (λ x. x.2) (sym k) ∙ sym (append-nil items),
        ap (λ x. x.0) (sym k) ∙ omega arith,
        ap (λ x. x.1) (sym k) ∙ omega arith,
        rw (drop_all txouts i (omega arith)) tt,
      )
  check_items-ok txouts i count total items (meta ∷ metas) r len h =
      let (out, e, h1) = >>=-eq-ok (index txouts i) _ h in
      let (entry, f, h2) =
        >>=-eq-ok (check_item c witness_version from_entropy ctx count total meta out) _ h1 in
      let (n, t, item) = check_item-ok count total meta out entry f in
      let (new, all, m, u, rest) =
        check_items-ok txouts (i + 1) entry.0 entry.1 (items ++ entry.2 ∷ []) metas r (omega arith)
          h2 in
      (
        entry.2 ∷ new,
        all ∙ append_assoc items (entry.2 ∷ []) new,
        omega (arith, n, m),
        omega (arith, t, u),
        rw (drop-eq-cons txouts i out (index-ok txouts i out e)) (item, rest),
      )

  -- The path is m/84'/1'/0'/branch/last, with a last child that is not hardened and at most the limit.
  abbrev pub IsInAccount : List ℕ → Type 0
  IsInAccount path =
      (branch : ℕ) × (last : ℕ) × (path ≡ 0x80000054 ∷ 0x80000001 ∷ 0x80000000 ∷ branch ∷ last ∷ [])
      × (last ≤ 1000)

  within_account-IsInAccount : (path : List ℕ) → within_account path ≡ true → IsInAccount path
  unfolding within_account
  within_account-IsInAccount (p ∷ q ∷ a ∷ branch ∷ last ∷ []) h =
      (branch, last, ground arith, ground arith)
  within_account-IsInAccount [] h = absurd (cc h)
  within_account-IsInAccount (p ∷ []) h = absurd (cc h)
  within_account-IsInAccount (p ∷ q ∷ []) h = absurd (cc h)
  within_account-IsInAccount (p ∷ q ∷ a ∷ []) h = absurd (cc h)
  within_account-IsInAccount (p ∷ q ∷ a ∷ b ∷ []) h = absurd (cc h)
  within_account-IsInAccount (p ∷ q ∷ a ∷ b ∷ l ∷ x ∷ xs) h = absurd (cc h)

  -- What an accepted PSBT satisfies.
  pub record IsAccepted (bytes : List ℕ) (r : Review) : Type 0 where
    pub small : (0 < length bytes) × (length bytes ≤ max_psbt_bytes)
    pub parsed : c.deserialize bytes ≡ some r.psbt
    pub one_spent : length r.psbt.unsigned_tx.input ≡ 1
    pub counts : (0 < length r.psbt.outputs) × (length r.psbt.outputs ≤ 2)
    pub input : PsbtInput
    pub only_input : r.psbt.inputs ≡ input ∷ []
    pub all : input.sighash_type ≡ some sighash_all
    pub utxo : TxOut
    pub spent : input.witness_utxo ≡ some utxo
    pub native : c.is_p2wpkh utxo.script_pubkey ≡ true
    pub source : KeySource
    pub origin : input.bip32_derivation ≡ (ctx.change_public_key, source) ∷ []
    pub ours : source.fingerprint ≡ ctx.master_fingerprint
    pub account : IsInAccount source.path
    pub items : AreItems r.psbt.unsigned_tx.output r.outputs
    pub one_change : count_change r.outputs ≤ 1
    pub balance : utxo.value ≡ sum_amounts r.outputs + r.fee_sat
    pub fee : r.fee_sat ≤ max_fee_sat
    pub hash : c.signature_hash r.psbt.unsigned_tx utxo.script_pubkey utxo.value ≡ some r.sighash
    pub key : (r.change_public_key ≡ ctx.change_public_key) × (r.change_path ≡ ctx.change_path)

  abbrev IsParsed : List ℕ → Psbt → Type 0
  IsParsed bytes psbt =
      (0 < length bytes)
      × (length bytes ≤ max_psbt_bytes)
      × (c.deserialize bytes ≡ some psbt)
      × (length psbt.inputs ≡ 1)
      × (length psbt.unsigned_tx.input ≡ 1)
      × (0 < length psbt.outputs)
      × (length psbt.outputs ≤ 2)
      × (length psbt.unsigned_tx.output ≡ length psbt.outputs)

  abbrev IsOurs : PsbtInput → TxOut → Type 0
  IsOurs input utxo =
      (source : KeySource) × (input.sighash_type ≡ some sighash_all)
      × (input.witness_utxo ≡ some utxo)
      × (c.is_p2wpkh utxo.script_pubkey ≡ true)
      × (input.bip32_derivation ≡ (ctx.change_public_key, source) ∷ [])
      × (source.fingerprint ≡ ctx.master_fingerprint)
      × (within_account source.path ≡ true)

  abbrev IsConcluded : Psbt → TxOut → ℕ × ℕ × List DisplayItem → Review → Type 0
  IsConcluded psbt utxo shown r =
      (shown.0 ≤ 1)
      × (utxo.value ≡ shown.1 + r.fee_sat)
      × (r.fee_sat ≤ max_fee_sat)
      × (c.signature_hash psbt.unsigned_tx utxo.script_pubkey utxo.value ≡ some r.sighash)
      × (r.psbt ≡ psbt)
      × (r.outputs ≡ shown.2)
      × (r.change_public_key ≡ ctx.change_public_key)
      × (r.change_path ≡ ctx.change_path)

  parse_psbt-ok :
      (bytes : List ℕ) (psbt : Psbt)
      → parse_psbt c witness_version from_entropy bytes ≡ ok psbt
      → IsParsed bytes psbt
  unfolding parse_psbt
  parse_psbt-ok bytes psbt h = elim (Option-cases (c.deserialize bytes)) [
    | inl e ↦ absurd (ground arith)
    | inr (p, e) ↦ let k : p ≡ psbt = ground arith in ground arith
  ]

  check_spent-ok :
      (input : PsbtInput) (utxo : TxOut)
      → check_spent c witness_version from_entropy input ≡ ok utxo
      → (input.sighash_type ≡ some sighash_all)
        × (input.witness_utxo ≡ some utxo)
        × (c.is_p2wpkh utxo.script_pubkey ≡ true)
  unfolding check_spent
  check_spent-ok input utxo h = elim (Option-cases input.witness_utxo) [
    | inl e ↦ absurd (ground arith)
    | inr (u, e) ↦ let k : u ≡ utxo = ground arith in ground arith
  ]

  check_source-ok :
      (entry : ℕ × KeySource) (done : Unit {0})
      → check_source c witness_version from_entropy ctx entry ≡ ok done
      → (entry.1.fingerprint ≡ ctx.master_fingerprint)
        × (within_account entry.1.path ≡ true)
        × (entry.0 ≡ ctx.change_public_key)
  unfolding check_source
  check_source-ok entry done h = ground arith

  conclude-ok :
      (psbt : Psbt) (utxo : TxOut) (shown : ℕ × ℕ × List DisplayItem) (r : Review)
      → conclude c witness_version from_entropy ctx psbt utxo shown ≡ ok r
      → IsConcluded psbt utxo shown r
  unfolding conclude
  conclude-ok psbt utxo shown r h =
      elim (Option-cases (c.signature_hash psbt.unsigned_tx utxo.script_pubkey utxo.value)) [
        | inl e ↦ absurd (ground arith)
        | inr (x, e) ↦ ground arith
      ]

  check_input-ok :
      (input : PsbtInput) (utxo : TxOut)
      → check_input c witness_version from_entropy ctx input ≡ ok utxo
      → IsOurs input utxo
  unfolding check_input
  check_input-ok input utxo h =
      let (u, e, h1) = >>=-eq-ok (check_spent c witness_version from_entropy input) _ h in
      let (one, f, h2) =
        >>=-eq-ok (require (length input.bip32_derivation == 1) (reject multisig)) _ h1 in
      let (entry, g, h3) = >>=-eq-ok (index input.bip32_derivation 0) _ h2 in
      let (done, k, h4) = >>=-eq-ok (check_source c witness_version from_entropy ctx entry) _ h3 in
      let same : u ≡ utxo = cc h4 in
      let (all, spent, native) = check_spent-ok input u e in
      let (ours, account, key) = check_source-ok entry done k in
      let single =
        eq-single input.bip32_derivation entry
          ((==_iff _ _).0 (require-eq-ok (length input.bip32_derivation == 1) (reject multisig) f))
          (index-ok input.bip32_derivation 0 entry g) in
      (
        entry.1,
        all,
        spent ∙ ap some same,
        ap (λ v. c.is_p2wpkh v.script_pubkey) (sym same) ∙ native,
        single ∙ ap (λ x. (x, entry.1) ∷ []) key,
        ours,
        account,
      )

  -- The parts put together.
  accepted :
      (bytes : List ℕ) (psbt : Psbt) (input : PsbtInput) (utxo : TxOut)
      (shown : ℕ × ℕ × List DisplayItem) (new : List DisplayItem) (r : Review)
      → IsParsed bytes psbt
      → psbt.inputs ≡ input ∷ []
      → IsOurs input utxo
      → shown.2 ≡ new
      → shown.0 ≡ 0 + count_change new
      → shown.1 ≡ 0 + sum_amounts new
      → AreItems psbt.unsigned_tx.output new
      → IsConcluded psbt utxo shown r
      → IsAccepted bytes r
  accepted bytes psbt input utxo shown new r
        (low, high, parsed, one, spends, some_outs, few, same_length) only
        (source, all, spent, native, origin, ours, account) e2 e0 e1 items
        (changes, balance, fee, hash, is_psbt, outputs, key, path) =
      let outs : r.outputs ≡ new = outputs ∙ e2 in
      record {
        small = (low, high);
        parsed = parsed ∙ ap some (sym is_psbt);
        one_spent = rw is_psbt spends;
        counts = rw is_psbt (some_outs, few);
        input = input;
        only_input = ap (λ p. p.inputs) is_psbt ∙ only;
        all = all;
        utxo = utxo;
        spent = spent;
        native = native;
        source = source;
        origin = origin;
        ours = ours;
        account = within_account-IsInAccount source.path account;
        items = rw (is_psbt, outs) items;
        one_change = rw outs (omega (arith, e0, changes));
        balance = rw outs (omega (arith, e1, balance));
        fee = fee;
        hash = rw is_psbt hash;
        key = (key, path);
      }

  -- A PSBT that `validate` accepts has at most 4096 bytes, one input (in its transaction
  -- too) and one or two outputs; the input
  -- asks for SIGHASH_ALL, spends a P2WPKH output and has one key origin: the key of the context,
  -- with its fingerprint and a path m/84'/1'/0'/b/i whose last child is at most the limit. The items of the review are the outputs, each
  -- P2WPKH, with amount and address, marked as change exactly where they pay to the key, at most
  -- once; the input's value is their sum and the fee, which is at most the limit; and the hash is
  -- that of this transaction.
  pub validate-IsAccepted :
      (bytes : List ℕ) (r : Review)
      → validate c witness_version from_entropy bytes ctx ≡ ok r
      → IsAccepted bytes r
  unfolding validate
  validate-IsAccepted bytes r h =
      let (psbt, e, h1) = >>=-eq-ok (parse_psbt c witness_version from_entropy bytes) _ h in
      let (input, f, h2) = >>=-eq-ok (index psbt.inputs 0) _ h1 in
      let (utxo, g, h3) = >>=-eq-ok (check_input c witness_version from_entropy ctx input) _ h2 in
      let (shown, k, h4) =
        >>=-eq-ok
          (check_items c witness_version from_entropy ctx psbt.unsigned_tx.output 0 0 0 []
            psbt.outputs)
          _ h3 in
      let checked = parse_psbt-ok bytes psbt e in
      let one = eq-single psbt.inputs input checked.3 (index-ok psbt.inputs 0 input f) in
      let (new, e2, e0, e1, items) =
        check_items-ok psbt.unsigned_tx.output 0 0 0 [] psbt.outputs shown (omega arith) k in
      let concluded = conclude-ok psbt utxo shown r h4 in
      accepted bytes psbt input utxo shown new r checked one (check_input-ok input utxo g) e2 e0 e1
        items concluded
