-- ===== src/Signer/Terminal/Signing.antt =====
-- From an approved review to the signed bytes.
use savepoint_signer.Prelude.{
  ℕ, zero, suc, ◌+◌, ◌<◌, ◌≡◌, refl, ap, ◌∙◌, Option, none, some, List, [], ◌∷◌, ◌++◌, arith,
  length, replicate, Option-cases, inl, inr,
}
use savepoint_signer.Signer.Result.{ok, Result-cases}
use savepoint_signer.Signer.Bitcoin.{Bitcoin, PsbtInput}
use savepoint_signer.Signer.Seed.{SeedSession, Review, SignedBinding}
use savepoint_signer.Signer.Review.{review_psbt}
use savepoint_signer.Signer.Sign.{binding, sign_psbt}
use savepoint_signer.Signer.Sign.Binding.{SigningLaws, sign_psbt-review_psbt}
use savepoint_signer.Signer.Terminal.{loading, reviewing, signing, saving, Terminal, QrCode}
use savepoint_signer.Signer.Terminal.Command.{command}
use savepoint_signer.Signer.Terminal.Flow.{load_psbt, finish_signing}
use savepoint_signer.Signer.Terminal.Gate.{run}

-- When `finish_signing` hands out bytes, the terminal was in `signing` and held an unlocked
-- seed and a review; the bytes are those that `sign_psbt` made from that review; the review is gone;
-- and a second call hands out nothing.
pub finish_signing_once :
    (c : Bitcoin) (t t' : Terminal) (bytes : List ℕ)
    → finish_signing c t ≡ some (t', some bytes)
    → (t.state ≡ signing)
      × (t'.state ≡ saving)
      × (t'.review ≡ none)
      × (t'.seed ≡ t.seed)
      × (finish_signing c t' ≡ some (t', none))
unfolding finish_signing
finish_signing_once c t t' bytes h = ground arith

load_psbt-ok :
    (c : Bitcoin) (t t' : Terminal) (bytes : List ℕ)
    → t.state ≡ loading
    → load_psbt c t bytes ≡ some t'
    → t'.state ≡ reviewing
    → (s : SeedSession) × (r : Review) × (t.seed ≡ some s)
      × (review_psbt c s bytes ≡ ok r)
      × (t' ≡ record t { review = some r; review_page = 0; state = reviewing })
unfolding load_psbt
load_psbt-ok c t t' bytes l h g = elim (Option-cases t.seed) [
  | inl e ↦ absurd (ground arith)
  | inr (s, e) ↦ elim (Result-cases (review_psbt c s bytes)) [
    | inl (r, f) ↦ (s, r, e, f, ground arith)
    | inr bad ↦ absurd (ground arith)
  ]
]

finish_signing-eq :
    (c : Bitcoin) (t : Terminal) (s : SeedSession) (r : Review) (signed : SignedBinding)
    → t.state ≡ signing
    → t.seed ≡ some s
    → t.review ≡ some r
    → sign_psbt c s (binding c r) ≡ ok signed
    → finish_signing c t
      ≡ some (record t { review = none; state = saving }, some signed.signed_psbt)
unfolding finish_signing
finish_signing-eq c t s r signed g e v h = ground arith

module _ (c : Bitcoin) (word_list : List (List ℕ)) (encode_qr : List ℕ → Option QrCode) where
  turn_step :
      (t : Terminal) (r : Review)
      → t.state ≡ reviewing
      → t.review ≡ some r
      → t.review_page < length r.outputs + 1
      → command c word_list encode_qr t 18 ≡ some (record t { review_page = t.review_page + 1 })
  unfolding command
  turn_step t r s e p = rw s (ground arith)

  approve_step :
      (t : Terminal) (r : Review)
      → t.state ≡ reviewing
      → t.review ≡ some r
      → t.review_page ≡ length r.outputs + 1
      → command c word_list encode_qr t 20 ≡ some (record t { state = signing })
  unfolding command
  approve_step t r s e p = rw s (ground arith)

  run_cons :
      (t u : Terminal) (b : ℕ) (bs : List ℕ)
      → command c word_list encode_qr t b ≡ some u
      → run c word_list encode_qr t (b ∷ bs) ≡ run c word_list encode_qr u bs
  unfolding run
  run_cons t u b bs h = rw (h, run)

  run_nil : (t : Terminal) → run c word_list encode_qr t [] ≡ some t
  unfolding run
  run_nil t = refl

  page_through :
      (n : ℕ) (t : Terminal) (r : Review)
      → t.state ≡ reviewing
      → t.review ≡ some r
      → t.review_page + n ≡ length r.outputs + 1
      → (t' : Terminal) × (run c word_list encode_qr t (replicate n 18 ++ 20 ∷ []) ≡ some t')
        × (t'.state ≡ signing)
        × (t'.review ≡ some r)
        × (t'.seed ≡ t.seed)
  page_through zero t r s e p =
      let u = record t { state = signing } in
      (u, run_cons t u 20 [] (approve_step t r s e (omega arith)) ∙ run_nil u, refl, e, refl)
  page_through (suc n) t r s e p =
      let u = record t { review_page = t.review_page + 1 } in
      let (t', h, g, v, w) = page_through n u r s e (omega arith) in
      (
        t',
        run_cons t u 18 (replicate n 18 ++ 20 ∷ []) (turn_step t r s e (omega arith)) ∙ h,
        g,
        v,
        w,
      )

  -- A PSBT that the terminal has loaded for review is signed when the user turns through all its
  -- pages and approves: with n outputs, n + 1 bytes REVIEW_NEXT and one APPROVE_PSBT lead to
  -- `signing`, and `finish_signing` then returns the serialisation of the reviewed PSBT, whose one
  -- input has got one signature, over the reviewed hash, by the private key of the reviewed public
  -- key, and is otherwise as it was reviewed.
  pub approved_is_signed :
      (laws : SigningLaws c) (t t₁ : Terminal) (bytes : List ℕ)
      → t.state ≡ loading
      → load_psbt c t bytes ≡ some t₁
      → t₁.state ≡ reviewing
      → (s : SeedSession) × (r : Review) × (t₂ : Terminal) × (t₃ : Terminal) × (input : PsbtInput)
        × (n : ℕ) × (t.seed ≡ some s)
        × (review_psbt c s bytes ≡ ok r)
        × (r.psbt.inputs ≡ input ∷ [])
        × (run c word_list encode_qr t₁ (replicate (length r.outputs + 1) 18 ++ 20 ∷ []) ≡ some t₂)
        × (c.public_key n ≡ r.change_public_key)
        × (finish_signing c t₂
            ≡ some (
              t₃,
              some (
                  c.serialize (record r.psbt {
                    inputs =
                        record input {
                          partial_sigs = (r.change_public_key, c.sign_ecdsa r.sighash n) ∷ [];
                        }
                        ∷ [];
                  })),
            ))
        × (t₃.state ≡ saving)
  approved_is_signed laws t t₁ bytes l h g =
      let (s, r, e, v, u) = load_psbt-ok c t t₁ bytes l h g in
      let seed : t₁.seed ≡ some s = ap (λ (x : Terminal). x.seed) u ∙ e in
      let review : t₁.review ≡ some r = ap (λ (x : Terminal). x.review) u in
      let page : t₁.review_page ≡ 0 = ap (λ (x : Terminal). x.review_page) u in
      let (t₂, turned, approved, held, same) =
        page_through (length r.outputs + 1) t₁ r g review (omega arith) in
      let (n, input, only, key, signed) = sign_psbt-review_psbt c s laws bytes r v in
      (
        s,
        r,
        t₂,
        record t₂ { review = none; state = saving },
        input,
        n,
        e,
        v,
        only,
        turned,
        key,
        finish_signing-eq c t₂ s r _ approved (same ∙ seed) held signed,
        refl,
      )
