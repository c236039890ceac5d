-- ===== src/Signer/Terminal/Total.antt =====
-- No command byte makes the terminal panic.
use savepoint_signer.Prelude.{
  ℕ, ◌≤◌, ◌<◌, ◌≡◌, refl, Bool, true, false, Option, none, some, List, arith, length, All-zeros,
  length-zeros, ◌⊎◌, inl, inr,
}
use savepoint_signer.Signer.Bitcoin.{Bitcoin, Network, testnet, bitcoin}
use savepoint_signer.Signer.Seed.{SeedSession}
use savepoint_signer.Signer.Terminal.{
  State, entering_words, entering_passphrase, showing_identity, active, failed, qr_ready, qr_error,
  reviewing, error, saved, listing, choosing, Terminal, QrCode, clear_qr, matches,
}
use savepoint_signer.Signer.Terminal.Command.{
  Command, back, lock, begin12, begin24, begin_main12, begin_main24, decode, reset, begin_words,
  cancel, refresh_address, import_psbt, cancel_psbt, confirm, verify_next, export_account,
  export_segwit, export_back, export_qr, next_address, dispatch, command,
}
use savepoint_signer.Signer.Terminal.Matches.{length-matches_from_nil}
use savepoint_signer.Signer.Terminal.Invariant.{
  SlotOk, PickOk, IsValid, Continues, files_command-IsValid, review_command-IsValid,
  pass_command-IsValid,
}
use savepoint_signer.Signer.Terminal.Words.{words_command-IsValid}

reset-IsValid :
    (word_list : List (List ℕ)) (t : Terminal) → 0 < length word_list → IsValid word_list (reset t)
unfolding reset matches
reset-IsValid word_list t pos = record {
  words_length = length-zeros 24;
  words_known = All-zeros (length word_list) 24 pos;
  prefix_length = length-zeros 4;
  prefix_short = omega arith;
  candidate_ok = omega (arith, length-matches_from_nil 0 word_list);
  pass_length = length-zeros 100;
  pass_short = omega arith;
  count_ok = omega arith;
  slot_ok = tt;
  pick_ok = tt;
}

begin_words-IsValid :
    (word_list : List (List ℕ)) (network : Network) (n : ℕ) (t : Terminal)
    → 0 < n
    → n ≤ 24
    → 0 < length word_list
    → IsValid word_list (begin_words network n t)
unfolding begin_words reset matches
begin_words-IsValid word_list network n t pos le p =
    let v = reset-IsValid word_list t p in
    record {
      words_length = v.words_length;
      words_known = v.words_known;
      prefix_length = v.prefix_length;
      prefix_short = v.prefix_short;
      candidate_ok = v.candidate_ok;
      pass_length = v.pass_length;
      pass_short = v.pass_short;
      count_ok = le;
      slot_ok = pos;
      pick_ok = tt;
    }

abbrev SameEntry : Terminal → Terminal → Type 0
SameEntry t u =
    (u.words ≡ t.words)
    × (u.prefix ≡ t.prefix)
    × (u.prefix_len ≡ t.prefix_len)
    × (u.candidate ≡ t.candidate)
    × (u.pass ≡ t.pass)
    × (u.pass_len ≡ t.pass_len)
    × (u.count ≡ t.count)
    × (u.slot ≡ t.slot)

abbrev same : (t : Terminal) → SameEntry t t
same t = (refl, refl, refl, refl, refl, refl, refl, refl)

same-IsValid :
    (word_list : List (List ℕ)) (t u : Terminal)
    → SameEntry t u
    → SlotOk u.state u.slot u.count
    → PickOk u.state u.file_index u.files
    → IsValid word_list t
    → IsValid word_list u
unfolding matches
same-IsValid word_list t u e ok pick v = ground arith

module _ (c : Bitcoin) (word_list : List (List ℕ)) (encode_qr : List ℕ → Option QrCode) where
  export_qr-same :
      (segwit : Bool) (t : Terminal)
      → SameEntry t (export_qr c word_list encode_qr segwit t)
        × (((export_qr c word_list encode_qr segwit t).state ≡ qr_ready)
            ⊎ ((export_qr c word_list encode_qr segwit t).state ≡ qr_error))
  unfolding export_qr clear_qr
  export_qr-same segwit t = ground arith

  next_address-same :
      (s : Option SeedSession) (t : Terminal)
      → SameEntry t (next_address c word_list encode_qr s t)
        × ((next_address c word_list encode_qr s t).state ≡ t.state)
  unfolding next_address refresh_address
  next_address-same s t = ground arith

  export_qr-IsValid :
      (segwit : Bool) (t : Terminal)
      → IsValid word_list t
      → IsValid word_list (export_qr c word_list encode_qr segwit t)
  export_qr-IsValid segwit t v =
      let (e, r) = export_qr-same segwit t in
      elim r [
        | inl q ↦ same-IsValid word_list t _ e (rw q tt) (rw q tt) v
        | inr q ↦ same-IsValid word_list t _ e (rw q tt) (rw q tt) v
      ]

  next_address-IsValid :
      (s : Option SeedSession) (t : Terminal)
      → t.state ≡ active
      → IsValid word_list t
      → IsValid word_list (next_address c word_list encode_qr s t)
  next_address-IsValid s t a v =
      let (e, q) = next_address-same s t in
      same-IsValid word_list t _ e (rw (q, a) tt) (rw (q, a) tt) v

  -- A change of the state to one without conditions, with the entry as it was.
  left-IsValid :
      (t u : Terminal)
      → SameEntry t u
      → (u.state ≡ active) ⊎ (u.state ≡ listing)
      → IsValid word_list t
      → IsValid word_list u
  left-IsValid t u e (inl q) v = same-IsValid word_list t u e (rw q tt) (rw q tt) v
  left-IsValid t u e (inr q) v = same-IsValid word_list t u e (rw q tt) (rw q tt) v

  back-IsValid :
      (t : Terminal)
      → t.state ≡ failed
      → IsValid word_list t
      → Continues word_list (dispatch c word_list encode_qr back failed t)
  unfolding dispatch matches
  back-IsValid t s v = ground arith

  dispatch-IsValid :
      (k : Command) (st : State) (t : Terminal)
      → 0 < length word_list
      → t.state ≡ st
      → IsValid word_list t
      → Continues word_list (dispatch c word_list encode_qr k st t)
  unfolding dispatch cancel clear_qr
  dispatch-IsValid lock st t pos s v = reset-IsValid word_list t pos
  dispatch-IsValid begin12 st t pos s v =
      begin_words-IsValid word_list testnet 12 t (omega arith) (omega arith) pos
  dispatch-IsValid begin24 st t pos s v =
      begin_words-IsValid word_list testnet 24 t (omega arith) (omega arith) pos
  dispatch-IsValid begin_main12 st t pos s v =
      begin_words-IsValid word_list bitcoin 12 t (omega arith) (omega arith) pos
  dispatch-IsValid begin_main24 st t pos s v =
      begin_words-IsValid word_list bitcoin 24 t (omega arith) (omega arith) pos
  dispatch-IsValid import_psbt active t pos s v = left-IsValid t _ (same t) (inr refl) v
  dispatch-IsValid cancel_psbt choosing t pos s v = left-IsValid t _ (same t) (inl refl) v
  dispatch-IsValid cancel_psbt reviewing t pos s v = left-IsValid t _ (same t) (inl refl) v
  dispatch-IsValid cancel_psbt error t pos s v = left-IsValid t _ (same t) (inl refl) v
  dispatch-IsValid cancel_psbt saved t pos s v = left-IsValid t _ (same t) (inl refl) v
  dispatch-IsValid k choosing t pos s v = files_command-IsValid word_list k t s v
  dispatch-IsValid k reviewing t pos s v = review_command-IsValid word_list k t s v
  dispatch-IsValid confirm showing_identity t pos s v = left-IsValid t _ (same t) (inl refl) v
  dispatch-IsValid verify_next active t pos s v = next_address-IsValid t.seed t s v
  dispatch-IsValid export_account active t pos s v = export_qr-IsValid false t v
  dispatch-IsValid export_segwit active t pos s v = export_qr-IsValid true t v
  dispatch-IsValid export_back qr_ready t pos s v = left-IsValid t _ (same t) (inl refl) v
  dispatch-IsValid export_back qr_error t pos s v = left-IsValid t _ (same t) (inl refl) v
  dispatch-IsValid back failed t pos s v = back-IsValid t s v
  dispatch-IsValid k entering_words t pos s v = words_command-IsValid word_list k t pos s v
  dispatch-IsValid k entering_passphrase t pos s v = pass_command-IsValid word_list k t s v
  dispatch-IsValid _ _ t pos s v = v

  Continues-some :
      (o : Option Terminal)
      → Continues word_list o
      → (t' : Terminal) × (o ≡ some t') × IsValid word_list t'
  Continues-some none h = absurd h
  Continues-some (some t') h = (t', refl, h)

  -- No command byte makes a well-formed terminal panic: `command` returns, in every state and for
  -- every byte, a terminal that is well formed again (indices within their arrays and lists, word
  -- numbers known, some word still matching the typed prefix).
  pub command-IsValid :
      (t : Terminal) (b : ℕ)
      → 0 < length word_list
      → IsValid word_list t
      → (t' : Terminal) × (command c word_list encode_qr t b ≡ some t') × IsValid word_list t'
  unfolding command
  command-IsValid t b pos v =
      Continues-some (dispatch c word_list encode_qr (decode b) t.state t)
        (dispatch-IsValid (decode b) t.state t pos refl v)
