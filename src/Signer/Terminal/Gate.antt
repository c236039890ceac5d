-- ===== src/Signer/Terminal/Gate.antt =====
-- Nothing is signed that has not been paged through: the way from a loaded PSBT to `signing`.
use savepoint_signer.Prelude.{
  ℕ, ◌+◌, ◌≤◌, ◌≡◌, ◌≢◌, inl, inr, refl, Bool, true, false, Option, none, some, List, [], ◌∷◌,
  arith, length, Option-cases,
}
use savepoint_signer.Signer.Bitcoin.{Bitcoin}
use savepoint_signer.Signer.Seed.{SeedSession, Review}
use savepoint_signer.Signer.Terminal.{
  State, entering_words, entering_passphrase, reviewing, signing, choosing, Terminal, QrCode,
}
use savepoint_signer.Signer.Terminal.Command.{
  Command, begin12, begin24, delete, lock, begin_main12, begin_main24, review_next, cancel_psbt,
  file_next, decode, last_page, reset, begin_words, cancel, files_command, review_command,
  words_command, pass_command, export_qr, next_address, dispatch, command,
}

-- One for a byte that turns a page of the review.
abbrev pub turns : Command → ℕ
turns review_next = 1
turns _ = 0

-- `signing` can be reached with `n` page turns at most.
abbrev pub CanSign : ℕ → State → ℕ → Option Review → Type 0
CanSign n signing page review = Unit {0}
CanSign n reviewing page review = last_page review ≤ page + n
CanSign n _ page review = ⊥

abbrev pub TerminalCanSign : ℕ → Terminal → Type 0
TerminalCanSign n t = CanSign n t.state t.review_page t.review

files_command-CanSign :
    (k : Command) (n : ℕ) (t t' : Terminal)
    → t.state ≡ choosing
    → files_command k t ≡ some t'
    → ¬ (TerminalCanSign n t')
unfolding files_command
files_command-CanSign file_next n t t' s h = ground arith
files_command-CanSign _ n t t' s h = ground arith

words_command-CanSign :
    (word_list : List (List ℕ)) (k : Command) (n : ℕ) (t t' : Terminal)
    → t.state ≡ entering_words
    → words_command word_list k t ≡ some t'
    → ¬ (TerminalCanSign n t')
unfolding words_command
words_command-CanSign word_list delete n t t' s h = ground arith
words_command-CanSign word_list _ n t t' s h = ground arith

pass_command-CanSign :
    (k : Command) (n : ℕ) (t t' : Terminal)
    → t.state ≡ entering_passphrase
    → pass_command k t ≡ some t'
    → ¬ (TerminalCanSign n t')
unfolding pass_command
pass_command-CanSign delete n t t' s h = ground arith
pass_command-CanSign _ n t t' s h = ground arith

review_command-CanSign :
    (k : Command) (n : ℕ) (t : Terminal)
    → t.state ≡ reviewing
    → TerminalCanSign n (review_command k t)
    → TerminalCanSign (turns k + n) t
unfolding review_command
review_command-CanSign review_next n t s h = ground arith
review_command-CanSign _ n t s h = ground arith

-- How many of the bytes are REVIEW_NEXT.
unfoldable pub count_turns : List ℕ → ℕ
count_turns [] = 0
count_turns (b ∷ bs) = turns (decode b) + count_turns bs

module _ (c : Bitcoin) (word_list : List (List ℕ)) (encode_qr : List ℕ → Option QrCode) where
  export_qr-CanSign :
      (segwit : Bool) (n : ℕ) (t : Terminal)
      → ¬ (TerminalCanSign n (export_qr c word_list encode_qr segwit t))
  unfolding export_qr
  export_qr-CanSign segwit n t = ground arith

  next_address-state :
      (s : Option SeedSession) (t : Terminal)
      → (next_address c word_list encode_qr s t).state ≡ t.state
  unfolding next_address
  next_address-state s t = ground arith

  dispatch-CanSign :
      (k : Command) (st : State) (n : ℕ) (t t' : Terminal)
      → t.state ≡ st
      → dispatch c word_list encode_qr k st t ≡ some t'
      → TerminalCanSign n t'
      → TerminalCanSign (turns k + n) t
  unfolding dispatch reset begin_words cancel
  dispatch-CanSign lock st n t t' s h g = ground arith
  dispatch-CanSign begin12 st n t t' s h g = ground arith
  dispatch-CanSign begin24 st n t t' s h g = ground arith
  dispatch-CanSign begin_main12 st n t t' s h g = ground arith
  dispatch-CanSign begin_main24 st n t t' s h g = ground arith
  dispatch-CanSign cancel_psbt choosing n t t' s h g = ground arith
  dispatch-CanSign k choosing n t t' s h g = absurd (files_command-CanSign k n t t' s h g)
  dispatch-CanSign cancel_psbt reviewing n t t' s h g = ground arith
  dispatch-CanSign k reviewing n t t' s h g = ground (arith, review_command-CanSign k n t s)
  dispatch-CanSign k entering_words n t t' s h g =
      absurd (words_command-CanSign word_list k n t t' s h g)
  dispatch-CanSign k entering_passphrase n t t' s h g = absurd (pass_command-CanSign k n t t' s h g)
  dispatch-CanSign k st n t t' s h g =
      ground (
        arith,
        export_qr-CanSign true n t,
        export_qr-CanSign false n t,
        next_address-state t.seed t,
      )

  -- A sequence of bytes from the game.
  unfoldable pub run : Terminal → List ℕ → Option Terminal
  run t [] = some t
  run t (b ∷ bs) = elim (command c word_list encode_qr t b) [ none ↦ none | some t' ↦ run t' bs ]

  run-CanSign :
      (t t' : Terminal) (bs : List ℕ)
      → run t bs ≡ some t'
      → t'.state ≡ signing
      → TerminalCanSign (count_turns bs) t
  unfolding run count_turns
  run-CanSign t t' [] h s = ground arith
  run-CanSign t t' (b ∷ bs) h s = elim (Option-cases (command c word_list encode_qr t b)) [
    | inl e ↦ absurd (ground arith)
    | inr (u, e) ↦
        dispatch-CanSign (decode b) t.state (count_turns bs) t u refl (unfold command in e)
          (run-CanSign u t' bs (ground arith) s)
  ]

  -- From a freshly loaded review (page 0), a sequence of bytes that ends in `signing` has turned
  -- the page at least once for each output, and once more for the fee.
  pub signing_needs_review :
      (t t' : Terminal) (r : Review) (bs : List ℕ)
      → t.state ≡ reviewing
      → t.review ≡ some r
      → t.review_page ≡ 0
      → run t bs ≡ some t'
      → t'.state ≡ signing
      → length r.outputs + 1 ≤ count_turns bs
  signing_needs_review t t' r bs s e p h g = let k = run-CanSign t t' bs h g in ground arith

  -- Without a review on the screen no sequence of bytes reaches `signing`.
  pub signing_unreachable :
      (t t' : Terminal) (bs : List ℕ)
      → t.state ≢ reviewing
      → t.state ≢ signing
      → run t bs ≡ some t'
      → t'.state ≢ signing
  signing_unreachable t t' bs r s h g = let k = run-CanSign t t' bs h g in ground arith
