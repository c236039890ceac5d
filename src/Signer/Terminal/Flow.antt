-- ===== src/Signer/Terminal/Flow.antt =====
-- The methods of `Terminal` that the worker calls after a command: recovery, file list, review,
-- signing, saving. `none` stands for a panic.
use savepoint_signer.Prelude.{
  ℕ, zero, suc, ◌+◌, ◌&&◌, Option, none, some, List, [], ◌∷◌, ◌++◌, ltb, leb, ◌==◌, if◌then◌else◌,
  length, get_elem?, take, copy_at,
}
use savepoint_signer.Signer.Result.{ok, err, panic}
use savepoint_signer.Signer.Bitcoin.{Bitcoin}
use savepoint_signer.Signer.Seed.{SeedSession, Review, recover, fingerprint, receive_address}
use savepoint_signer.Signer.Review.{review_psbt}
use savepoint_signer.Signer.Sign.{binding, sign_psbt}
use savepoint_signer.Signer.Terminal.{
  showing_identity, failed, reviewing, saving, saved, choosing, is_busy, is_loading, is_signing,
  is_saving, is_listing, PsbtFile, Terminal, clear_entry, psbt_error,
}

-- `phrase`: the words of the indices, from index `i` on, joined by spaces. `none` where an index
-- has no word.
unfoldable pub join_words : List (List ℕ) → List ℕ → ℕ → ℕ → List ℕ → Option (List ℕ)
join_words word_list words i zero phrase = some phrase
join_words word_list words i (suc n) phrase = elim (get_elem? words i) [
  | none ↦ none
  | some k ↦ elim (get_elem? word_list k) [
    | none ↦ none
    | some w ↦
        join_words word_list words (i + 1) n ((if ltb 0 i then phrase ++ 32 ∷ [] else phrase) ++ w)
  ]
]

-- `identity[..8]` takes a text of 8 bytes, `identity[8..8 + n]` one of at most 44.
unfoldable pub show_identity : Terminal → SeedSession → List ℕ → List ℕ → Option Terminal
show_identity t s fp address =
    if length fp == 8 && leb (length address) 44
    then some (record (clear_entry t) {
      identity = copy_at (copy_at t.identity 0 fp) 8 address;
      seed = some s;
      state = showing_identity;
    })
    else none

module _ (c : Bitcoin) where
  unfoldable pub recovered : Terminal → SeedSession → Option Terminal
  unfolding show_identity
  recovered t s = elim (fingerprint c s) [
    | ok fp ↦ elim (receive_address c s 0) [
      | ok address ↦ show_identity t s (c.fingerprint_text fp) address
      | err e ↦ some (record t { state = failed })
      | panic ↦ none
    ]
    | err e ↦ some (record t { state = failed })
    | panic ↦ none
  ]

  unfoldable pub finish_recovery : List (List ℕ) → Terminal → Option Terminal
  unfolding recovered
  finish_recovery word_list t =
      if is_busy t.state
      then (elim (join_words word_list t.words 0 t.count []) [
        | none ↦ none
        | some phrase ↦ elim (recover c phrase (take t.pass_len t.pass) t.network) [
          | ok s ↦ recovered t s
          | err e ↦ some (record t { state = failed })
          | panic ↦ none
        ]
      ])
      else some t

  unfoldable pub load_psbt : Terminal → List ℕ → Option Terminal
  unfolding psbt_error
  load_psbt t bytes =
      if is_loading t.state
      then (elim t.seed [
        | none ↦ some (psbt_error t "Seed locked")
        | some s ↦ elim (review_psbt c s bytes) [
          | ok r ↦ some (record t { review = some r; review_page = 0; state = reviewing })
          | err message ↦ some (psbt_error t message)
          | panic ↦ none
        ]
      ])
      else some t

  -- The terminal with its review taken, and the outcome of signing that review.
  unfoldable pub sign_review : Terminal → Review → Option (Terminal × Option (List ℕ))
  unfolding psbt_error
  sign_review t r = elim t.seed [
    | none ↦ some (psbt_error t "Seed locked", none)
    | some s ↦ elim (sign_psbt c s (binding c r)) [
      | ok signed ↦ some (record t { state = saving }, some signed.signed_psbt)
      | err e ↦ some (psbt_error t "Signing failed", none)
      | panic ↦ none
    ]
  ]

  unfoldable pub finish_signing : Terminal → Option (Terminal × Option (List ℕ))
  unfolding sign_review
  finish_signing t =
      if is_signing t.state
      then (elim t.review [
        | none ↦ some (t, none)
        | some r ↦ sign_review (record t { review = none }) r
      ])
      else some (t, none)

unfoldable pub set_files : Terminal → List PsbtFile → Terminal
unfolding psbt_error
set_files t files =
    if is_listing t.state
    then (if length files == 0
        then psbt_error t "No .psbt/.psb files"
        else if ltb 32 (length files)
        then psbt_error t "Too many PSBT files"
        else record t { files = files; file_index = 0; name_page = 0; state = choosing })
    else t

unfoldable pub psbt_saved : Terminal → List ℕ → Terminal
psbt_saved t filename =
    if is_saving t.state then record t { psbt_message = filename; state = saved } else t
