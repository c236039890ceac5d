-- ===== src/Signer/Terminal/Custody.antt =====
-- Who holds secrets: what the bytes of the game can and cannot do to the seed and the review.
use savepoint_signer.Prelude.{
  ℕ, ◌≡◌, ◌⊎◌, inl, inr, refl, Bool, true, false, Option, none, some, List, [], arith, zeros,
  if◌then◌else◌, ◌==◌,
}
use savepoint_signer.Signer.Bitcoin.{Bitcoin, Network, testnet, bitcoin}
use savepoint_signer.Signer.Seed.{SeedSession}
use savepoint_signer.Signer.Terminal.{
  State, locked, entering_words, entering_passphrase, reviewing, choosing, Terminal, QrCode,
  qr_buffer_bytes,
}
use savepoint_signer.Signer.Terminal.Command.{
  Command, delete, file_next, review_next, lock, decode, reset, begin_words, cancel, files_command,
  review_command, words_command, pass_command, export_qr, next_address, dispatch, command,
}

-- The second terminal has the seed and the review of the first, or has lost them.
pub record KeepsCustody (t t' : Terminal) : Type 0 where
  pub seed : (t'.seed ≡ t.seed) ⊎ (t'.seed ≡ none)
  pub review : (t'.review ≡ t.review) ⊎ (t'.review ≡ none)

files_command-custody :
    (k : Command) (t t' : Terminal) → files_command k t ≡ some t' → KeepsCustody t t'
unfolding files_command
files_command-custody file_next t t' h = ground arith
files_command-custody _ t t' h = ground arith

review_command-custody : (k : Command) (t : Terminal) → KeepsCustody t (review_command k t)
unfolding review_command
review_command-custody review_next t = ground arith
review_command-custody _ t = ground arith

words_command-custody :
    (word_list : List (List ℕ)) (k : Command) (t t' : Terminal)
    → words_command word_list k t ≡ some t'
    → KeepsCustody t t'
unfolding words_command
words_command-custody word_list delete t t' h = ground arith
words_command-custody word_list _ t t' h = ground arith

pass_command-custody :
    (k : Command) (t t' : Terminal) → pass_command k t ≡ some t' → KeepsCustody t t'
unfolding pass_command
pass_command-custody delete t t' h = ground arith
pass_command-custody _ t t' h = ground arith

-- No word, no passphrase byte, no seed, no identity, no QR module and no review is left.
pub record IsErased (t : Terminal) : Type 0 where
  pub words : t.words ≡ zeros 24
  pub prefix : (t.prefix ≡ zeros 4) × (t.prefix_len ≡ 0)
  pub pass : (t.pass ≡ zeros 100) × (t.pass_len ≡ 0)
  pub seed : t.seed ≡ none
  pub review : t.review ≡ none
  pub files : t.files ≡ []
  pub identity : t.identity ≡ zeros 52
  pub qr : (t.qr_buffer ≡ zeros qr_buffer_bytes) × (t.qr_size ≡ 0)

reset-IsErased : (t : Terminal) → IsErased (reset t)
unfolding reset
reset-IsErased t = ground arith

begin_words-IsErased :
    (network : Network) (n : ℕ) (t : Terminal) → IsErased (begin_words network n t)
unfolding begin_words
begin_words-IsErased network n t = ground arith

module _ (c : Bitcoin) (word_list : List (List ℕ)) (encode_qr : List ℕ → Option QrCode) where
  export_qr-custody :
      (segwit : Bool) (t : Terminal) → KeepsCustody t (export_qr c word_list encode_qr segwit t)
  unfolding export_qr
  export_qr-custody segwit t = ground arith

  next_address-custody :
      (s : Option SeedSession) (t : Terminal)
      → KeepsCustody t (next_address c word_list encode_qr s t)
  unfolding next_address
  next_address-custody s t = ground arith

  dispatch-custody :
      (k : Command) (st : State) (t t' : Terminal)
      → dispatch c word_list encode_qr k st t ≡ some t'
      → KeepsCustody t t'
  unfolding dispatch reset begin_words cancel
  dispatch-custody lock st t t' h = ground arith
  dispatch-custody k choosing t t' h = ground (arith, files_command-custody k t t')
  dispatch-custody k reviewing t t' h = ground (arith, review_command-custody k t)
  dispatch-custody k entering_words t t' h = ground (arith, words_command-custody word_list k t t')
  dispatch-custody k entering_passphrase t t' h = ground (arith, pass_command-custody k t t')
  dispatch-custody k st t t' h =
      ground
        (arith, export_qr-custody true t, export_qr-custody false t, next_address-custody t.seed t)

  -- No byte of the game, in any state, installs a seed or a review: afterwards each is what it was,
  -- or gone.
  pub command-KeepsCustody :
      (t t' : Terminal) (b : ℕ) → command c word_list encode_qr t b ≡ some t' → KeepsCustody t t'
  unfolding command
  command-KeepsCustody t t' b h = dispatch-custody (decode b) t.state t t' h

  -- In every state LOCK and each of the four BEGIN commands succeed and erase words, passphrase,
  -- seed, review, identity and QR code; LOCK leaves the terminal locked, the others start a
  -- new recovery of 12 or 24 words.
  pub lock_erases :
      (t : Terminal) (b : ℕ)
      → (b ≡ 10) ⊎ (b ≡ 1) ⊎ (b ≡ 2) ⊎ (b ≡ 14) ⊎ (b ≡ 15)
      → (t' : Terminal) × (command c word_list encode_qr t b ≡ some t')
        × IsErased t'
        × (t'.state ≡ (if b == 10 then locked else entering_words))
        × (t'.count ≡ (if b == 10 then 0 else if b == 1 then 12 else if b == 14 then 12 else 24))
  unfolding command
  lock_erases t b (inl e) = rw e (reset t, refl, reset-IsErased t, refl, refl)
  lock_erases t b (inr (inl e)) =
      rw e (begin_words testnet 12 t, refl, begin_words-IsErased testnet 12 t, refl, refl)
  lock_erases t b (inr (inr (inl e))) =
      rw e (begin_words testnet 24 t, refl, begin_words-IsErased testnet 24 t, refl, refl)
  lock_erases t b (inr (inr (inr (inl e)))) =
      rw e (begin_words bitcoin 12 t, refl, begin_words-IsErased bitcoin 12 t, refl, refl)
  lock_erases t b (inr (inr (inr (inr e)))) =
      rw e (begin_words bitcoin 24 t, refl, begin_words-IsErased bitcoin 24 t, refl, refl)
