-- ===== src/Signer/Terminal/Command.antt =====
-- `Terminal::command`: one byte of the game. The clauses of `dispatch` stand in the order of the
-- tests of the source, and the first that fits is taken.
use savepoint_signer.Prelude.{
  ℕ, ◌+◌, ◌-◌, ◌/◌, ◌%◌, Bool, true, false, ◌&&◌, Option, none, some, List, [], ◌++◌, min, max, ltb,
  leb, ◌==◌, if◌then◌else◌, is_some, length, get_elem?, set, take, zeros, copy_at,
}
use savepoint_signer.Signer.Result.{ok, err, panic}
use savepoint_signer.Signer.Bitcoin.{Network, bitcoin, testnet, Bitcoin}
use savepoint_signer.Signer.Seed.{SeedSession, Review, account_export, receive_address}
use savepoint_signer.Signer.Terminal.{
  State, locked, entering_words, entering_passphrase, busy, showing_identity, active, failed,
  qr_ready, qr_error, loading, reviewing, signing, error, saved, listing, choosing, PsbtFile,
  Terminal, store, rem, clear_entry, clear_qr, matches, QrCode, qr_max_modules, pack_qr,
}

pub data Command : Type 0 where
  begin12 begin24 delete next prev choose back recover confirm lock : Command
  verify_next export_account export_back begin_main12 begin_main24 export_segwit : Command
  import_psbt review_next review_back approve_psbt cancel_psbt : Command
  file_next file_prev file_open name_next name_prev : Command
  typed : ℕ → Command
  other : Command

-- The command bytes; 0x80..=0xde type the printable character `c - 0x80 + 32`.
unfoldable pub decode : ℕ → Command
decode c =
    if c == 1
    then begin12
    else if c == 2
    then begin24
    else if c == 3
    then delete
    else if c == 4
    then next
    else if c == 5
    then prev
    else if c == 6
    then choose
    else if c == 7
    then back
    else if c == 8
    then recover
    else if c == 9
    then confirm
    else if c == 10
    then lock
    else if c == 11
    then verify_next
    else if c == 12
    then export_account
    else if c == 13
    then export_back
    else if c == 14
    then begin_main12
    else if c == 15
    then begin_main24
    else if c == 16
    then export_segwit
    else if c == 17
    then import_psbt
    else if c == 18
    then review_next
    else if c == 19
    then review_back
    else if c == 20
    then approve_psbt
    else if c == 21
    then cancel_psbt
    else if c == 22
    then file_next
    else if c == 23
    then file_prev
    else if c == 24
    then file_open
    else if c == 25
    then name_next
    else if c == 26
    then name_prev
    else if leb 0x80 c && leb c 0xde
    then typed (c - 0x80 + 32)
    else other

-- LOCK and the common part of the BEGIN commands.
unfoldable pub reset : Terminal → Terminal
unfolding clear_entry clear_qr
reset t = record (clear_qr (clear_entry t)) {
  files = [];
  review = none;
  psbt_message = [];
  seed = none;
  identity = zeros 52;
  address_index = 0;
  slot = 0;
  count = 0;
  state = locked;
}

unfoldable pub begin_words : Network → ℕ → Terminal → Terminal
unfolding reset
begin_words network count t = record (reset t) {
  network = network;
  count = count;
  state = entering_words;
}

unfoldable pub cancel : Terminal → Terminal
cancel t = record t { files = []; review = none; psbt_message = []; state = active }

-- `name.chars().count().div_ceil(60).max(1)`
abbrev pub name_pages : PsbtFile → ℕ
name_pages f = max ((length f.name + 59) / 60) 1

-- The file picker, with at least one file.
unfoldable pub choose_file : Command → PsbtFile → Terminal → Option Terminal
choose_file file_next f t = elim (rem (t.file_index + 1) (length t.files)) [
  | none ↦ none
  | some i ↦ some (record t { file_index = i; name_page = 0 })
]
choose_file file_prev f t = elim (rem (t.file_index + length t.files - 1) (length t.files)) [
  | none ↦ none
  | some i ↦ some (record t { file_index = i; name_page = 0 })
]
choose_file name_next f t =
    some
      (if ltb (t.name_page + 1) (name_pages f) then record t { name_page = t.name_page + 1 } else t)
choose_file name_prev f t =
    some (if ltb 0 t.name_page then record t { name_page = t.name_page - 1 } else t)
choose_file file_open f t = some (record t { files = []; state = loading })
choose_file _ f t = some t

unfoldable pub files_command : Command → Terminal → Option Terminal
unfolding choose_file
files_command c t =
    if ltb 0 (length t.files)
    then elim (get_elem? t.files t.file_index) [ none ↦ none | some f ↦ choose_file c f t ]
    else some t

-- The last page of the review is the one after the fee.
abbrev pub last_page : Option Review → ℕ
last_page none = 0
last_page (some r) = length r.outputs + 1

unfoldable pub review_command : Command → Terminal → Terminal
review_command review_next t =
    if ltb t.review_page (last_page t.review)
    then record t { review_page = t.review_page + 1 }
    else t
review_command review_back t =
    if ltb 0 t.review_page then record t { review_page = t.review_page - 1 } else t
review_command approve_psbt t =
    if t.review_page == last_page t.review && is_some t.review
    then record t { state = signing }
    else t
review_command _ t = t

abbrev pub is_lowercase : ℕ → Bool
is_lowercase b = leb 97 b && leb b 122

-- A typed letter is kept only if some word still begins with the prefix.
unfoldable pub type_letter : List (List ℕ) → ℕ → Terminal → Option Terminal
type_letter word_list b t =
    if is_lowercase b && ltb t.prefix_len 4
    then (elim (store t.prefix t.prefix_len b) [
      | none ↦ none
      | some p ↦
          let longer = record t { prefix = p; prefix_len = t.prefix_len + 1; candidate = 0 } in
          if length (matches word_list longer) == 0
          then some (record t { prefix = set p t.prefix_len 0; candidate = 0 })
          else some longer
    ])
    else some t

unfoldable pub choose_word : ℕ × List ℕ → Terminal → Option Terminal
choose_word w t = elim (store t.words t.slot w.0) [
  | none ↦ none
  | some ws ↦
      let chosen = record t { words = ws; prefix = zeros 4; prefix_len = 0; candidate = 0 } in
      some (
        if t.slot + 1 == t.count
        then record chosen { state = entering_passphrase }
        else record chosen { slot = t.slot + 1 })
]

unfoldable pub words_command : List (List ℕ) → Command → Terminal → Option Terminal
unfolding type_letter choose_word
words_command word_list (typed b) t = type_letter word_list b t
words_command word_list delete t =
    if ltb 0 t.prefix_len
    then (elim (store t.prefix (t.prefix_len - 1) 0) [
      | none ↦ none
      | some p ↦ some (record t { prefix = p; prefix_len = t.prefix_len - 1; candidate = 0 })
    ])
    else some t
words_command word_list next t = elim (rem (t.candidate + 1) (length (matches word_list t))) [
  | none ↦ none
  | some i ↦ some (record t { candidate = i })
]
words_command word_list prev t =
    elim (rem (t.candidate + length (matches word_list t) - 1) (length (matches word_list t))) [
      | none ↦ none
      | some i ↦ some (record t { candidate = i })
    ]
words_command word_list choose t = elim (get_elem? (matches word_list t) t.candidate) [
  | none ↦ some t
  | some w ↦ choose_word w t
]
words_command word_list back t =
    some (record t { slot = t.slot - 1; prefix = zeros 4; prefix_len = 0; candidate = 0 })
words_command word_list _ t = some t

unfoldable pub pass_command : Command → Terminal → Option Terminal
pass_command (typed b) t =
    if ltb t.pass_len 100
    then (elim (store t.pass t.pass_len b) [
      | none ↦ none
      | some p ↦ some (record t { pass = p; pass_len = t.pass_len + 1 })
    ])
    else some t
pass_command delete t =
    if ltb 0 t.pass_len
    then (elim (store t.pass (t.pass_len - 1) 0) [
      | none ↦ none
      | some p ↦ some (record t { pass = p; pass_len = t.pass_len - 1 })
    ])
    else some t
pass_command back t = some (record t { state = entering_words })
pass_command recover t = some (record t { state = busy })
pass_command _ t = some t

-- `word_list` is the English list of bip39, `encode_qr` the vendored encoder at level L.
module _ (c : Bitcoin) (word_list : List (List ℕ)) (encode_qr : List ℕ → Option QrCode) where
  -- `export_qr`, and the state in which a failure leaves the terminal.
  unfoldable pub export_qr : Bool → Terminal → Terminal
  unfolding clear_qr
  export_qr segwit t =
      let failure = record (clear_qr t) { state = qr_error } in
      elim t.seed [
        | none ↦ failure
        | some s ↦ elim (account_export c s segwit) [
          | ok text ↦ elim (encode_qr text) [
            | none ↦ failure
            | some qr ↦
                if ltb qr_max_modules qr.size
                then failure
                else record t { qr_size = qr.size; qr_buffer = pack_qr qr; state = qr_ready }
          ]
          | err e ↦ failure
          | panic ↦ failure
        ]
      ]

  unfoldable pub refresh_address : SeedSession → Terminal → Terminal
  refresh_address s t = elim (receive_address c s t.address_index) [
    | ok text ↦ record t {
      identity = copy_at (take 8 t.identity ++ zeros 44) 8 (take (min (length text) 44) text);
    }
    | err e ↦ record t { address_index = t.address_index - 1 }
    | panic ↦ t
  ]

  unfoldable pub next_address : Option SeedSession → Terminal → Terminal
  unfolding refresh_address
  next_address none t = t
  next_address (some s) t =
      refresh_address s (record t { address_index = (t.address_index + 1) % 1001 })

  unfoldable pub dispatch : Command → State → Terminal → Option Terminal
  dispatch lock _ t = some (reset t)
  dispatch begin12 _ t = some (begin_words testnet 12 t)
  dispatch begin24 _ t = some (begin_words testnet 24 t)
  dispatch begin_main12 _ t = some (begin_words bitcoin 12 t)
  dispatch begin_main24 _ t = some (begin_words bitcoin 24 t)
  dispatch import_psbt active t = some (record t {
    review = none;
    review_page = 0;
    psbt_message = [];
    files = [];
    file_index = 0;
    name_page = 0;
    state = listing;
  })
  dispatch cancel_psbt choosing t = some (cancel t)
  dispatch cancel_psbt reviewing t = some (cancel t)
  dispatch cancel_psbt error t = some (cancel t)
  dispatch cancel_psbt saved t = some (cancel t)
  dispatch k choosing t = files_command k t
  dispatch k reviewing t = some (review_command k t)
  dispatch confirm showing_identity t = some (record t { state = active })
  dispatch verify_next active t = some (next_address t.seed t)
  dispatch export_account active t = some (export_qr false t)
  dispatch export_segwit active t = some (export_qr true t)
  dispatch export_back qr_ready t = some (record (clear_qr t) { state = active })
  dispatch export_back qr_error t = some (record (clear_qr t) { state = active })
  dispatch back failed t =
      if t.count == 0 then none else some (record t { state = entering_words; slot = t.count - 1 })
  dispatch k entering_words t = words_command word_list k t
  dispatch k entering_passphrase t = pass_command k t
  dispatch _ _ t = some t

  unfoldable pub command : Terminal → ℕ → Option Terminal
  unfolding decode dispatch reset begin_words cancel files_command review_command words_command
      pass_command export_qr next_address
  command t b = dispatch (decode b) t.state t
