-- ===== src/Signer/Terminal/Invariant.antt =====
-- What holds of the terminal between two bytes, kept by the picker, the review and the passphrase.
use savepoint_signer.Prelude.{
  ℕ, ◌-◌, ◌≤◌, ◌<◌, ◌≡◌, Option, none, some, List, arith, length, All, get_elem?-lt, length-set,
}
use savepoint_signer.Signer.Terminal.{
  State, entering_words, entering_passphrase, busy, failed, reviewing, choosing, PsbtFile, Terminal,
  matches,
}
use savepoint_signer.Signer.Terminal.Command.{
  Command, delete, typed, file_next, review_next, files_command, review_command, pass_command,
}

-- While words are entered the slot is one of the words to enter.
abbrev pub SlotOk : State → ℕ → ℕ → Type 0
SlotOk entering_words slot count = slot < count
SlotOk entering_passphrase slot count = slot < count
SlotOk busy slot count = slot < count
SlotOk failed slot count = slot < count
SlotOk _ slot count = Unit {0}

-- In the file picker the cursor is on a file.
abbrev pub PickOk : State → ℕ → List PsbtFile → Type 0
PickOk choosing index files = index < length files
PickOk _ index files = Unit {0}

pub record IsValid (word_list : List (List ℕ)) (t : Terminal) : Type 0 where
  pub words_length : length t.words ≡ 24
  pub words_known : All (λ k. k < length word_list) t.words
  pub prefix_length : length t.prefix ≡ 4
  pub prefix_short : t.prefix_len ≤ 4
  pub candidate_ok : t.candidate < length (matches word_list t)
  pub pass_length : length t.pass ≡ 100
  pub pass_short : t.pass_len ≤ 100
  pub count_ok : t.count ≤ 24
  pub slot_ok : SlotOk t.state t.slot t.count
  pub pick_ok : PickOk t.state t.file_index t.files

abbrev pub Continues : List (List ℕ) → Option Terminal → Type 0
Continues word_list none = ⊥
Continues word_list (some t) = IsValid word_list t

pub files_command-IsValid :
    (word_list : List (List ℕ)) (k : Command) (t : Terminal)
    → t.state ≡ choosing
    → IsValid word_list t
    → Continues word_list (files_command k t)
unfolding files_command matches
files_command-IsValid word_list file_next t s v =
    let (f, e) = get_elem?-lt t.files t.file_index (ground arith) in ground arith
files_command-IsValid word_list _ t s v =
    let (f, e) = get_elem?-lt t.files t.file_index (ground arith) in ground arith

pub review_command-IsValid :
    (word_list : List (List ℕ)) (k : Command) (t : Terminal)
    → t.state ≡ reviewing
    → IsValid word_list t
    → IsValid word_list (review_command k t)
unfolding review_command matches
review_command-IsValid word_list review_next t s v = ground arith
review_command-IsValid word_list _ t s v = ground arith

pub pass_command-IsValid :
    (word_list : List (List ℕ)) (k : Command) (t : Terminal)
    → t.state ≡ entering_passphrase
    → IsValid word_list t
    → Continues word_list (pass_command k t)
unfolding pass_command matches
pass_command-IsValid word_list (typed b) t s v = ground (arith, length-set t.pass t.pass_len b)
pass_command-IsValid word_list delete t s v = ground (arith, length-set t.pass (t.pass_len - 1) 0)
pass_command-IsValid word_list _ t s v = ground arith
