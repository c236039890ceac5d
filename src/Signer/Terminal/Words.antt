-- ===== src/Signer/Terminal/Words.antt =====
-- The entry of words keeps the terminal well formed.
use savepoint_signer.Prelude.{
  ℕ, ◌+◌, ◌-◌, ◌≤◌, ◌<◌, ◌≡◌, ◌≢◌, ◌∙◌, none, some, List, arith, length, get_elem?, set, take,
  zeros, All, length-zeros, length-set, Bool-cases, inl, inr, ◌==◌, Option-cases,
}
use savepoint_signer.Signer.Terminal.{
  State, entering_words, entering_passphrase, Terminal, rem, matches_from, matches,
}
use savepoint_signer.Signer.Terminal.Command.{
  Command, delete, next, prev, choose, back, typed, type_letter, choose_word, words_command,
}
use savepoint_signer.Signer.Terminal.Matches.{
  length-matches_from_mono, length-matches_from_nil, matches_from-lt, take-set_beyond, All-set,
}
use savepoint_signer.Signer.Terminal.Invariant.{SlotOk, PickOk, IsValid, Continues}

-- A shorter prefix has at least as many candidates.
shorter :
    (word_list : List (List ℕ)) (p : List ℕ) (m n candidate : ℕ)
    → m ≤ n
    → candidate < length (matches_from 0 word_list (take n p))
    → 0 < length (matches_from 0 word_list (take m p))
shorter word_list p m n candidate le h =
    omega (arith, length-matches_from_mono 0 word_list p m n le)

type_letter-IsValid :
    (word_list : List (List ℕ)) (b : ℕ) (t : Terminal)
    → t.state ≡ entering_words
    → IsValid word_list t
    → Continues word_list (type_letter word_list b t)
unfolding type_letter matches
type_letter-IsValid word_list b t s v =
    let p = set t.prefix t.prefix_len b in
    ground (
      arith,
      length-set t.prefix t.prefix_len b,
      length-set p t.prefix_len 0,
      take-set_beyond t.prefix t.prefix_len t.prefix_len b (omega arith),
      take-set_beyond p t.prefix_len t.prefix_len 0 (omega arith),
    )

delete-IsValid :
    (word_list : List (List ℕ)) (t : Terminal)
    → t.state ≡ entering_words
    → IsValid word_list t
    → Continues word_list (words_command word_list delete t)
unfolding words_command matches
delete-IsValid word_list t s v =
    let n = t.prefix_len - 1 in
    ground (
      arith,
      length-set t.prefix n 0,
      take-set_beyond t.prefix n n 0 (omega arith),
      shorter word_list t.prefix n t.prefix_len t.candidate (omega arith) v.candidate_ok,
    )

-- The terminal after a word is stored: prefix and candidate start again.
chosen-IsValid :
    (word_list : List (List ℕ)) (t : Terminal) (words : List ℕ) (state : State) (slot : ℕ)
    → 0 < length word_list
    → length words ≡ 24
    → All (λ k. k < length word_list) words
    → SlotOk state slot t.count
    → PickOk state t.file_index t.files
    → IsValid word_list t
    → IsValid word_list (record t {
      words = words;
      prefix = zeros 4;
      prefix_len = 0;
      candidate = 0;
      state = state;
      slot = slot;
    })
unfolding matches
chosen-IsValid word_list t words state slot pos len known ok pick v = record {
  words_length = len;
  words_known = known;
  prefix_length = length-zeros 4;
  prefix_short = omega arith;
  candidate_ok = omega (arith, length-matches_from_nil 0 word_list);
  pass_length = v.pass_length;
  pass_short = v.pass_short;
  count_ok = v.count_ok;
  slot_ok = ok;
  pick_ok = pick;
}

choose_word-last :
    (w : ℕ × List ℕ) (t : Terminal)
    → t.slot < length t.words
    → t.slot + 1 ≡ t.count
    → choose_word w t
      ≡ some (record t {
        words = set t.words t.slot w.0;
        prefix = zeros 4;
        prefix_len = 0;
        candidate = 0;
        state = entering_passphrase;
      })
unfolding choose_word
choose_word-last w t lt e = ground arith

choose_word-next :
    (w : ℕ × List ℕ) (t : Terminal)
    → t.slot < length t.words
    → t.slot + 1 ≢ t.count
    → choose_word w t
      ≡ some (record t {
        words = set t.words t.slot w.0;
        prefix = zeros 4;
        prefix_len = 0;
        candidate = 0;
        slot = t.slot + 1;
      })
unfolding choose_word
choose_word-next w t lt e = ground arith

choose_word-IsValid :
    (word_list : List (List ℕ)) (w : ℕ × List ℕ) (t : Terminal)
    → t.state ≡ entering_words
    → w.0 < length word_list
    → IsValid word_list t
    → Continues word_list (choose_word w t)
choose_word-IsValid word_list w t s lt v =
    let pos : 0 < length word_list = omega arith in
    let known = All-set (length word_list) t.words t.slot w.0 lt v.words_known in
    let len = length-set t.words t.slot w.0 ∙ v.words_length in
    let slot : t.slot < t.count = ground arith in
    let room : t.slot < length t.words = omega (arith, v.words_length, v.count_ok) in
    elim (Bool-cases (t.slot + 1 == t.count)) [
      | inl e ↦ rw (choose_word-last w t room (ground arith)) (
          chosen-IsValid word_list t (set t.words t.slot w.0) entering_passphrase t.slot pos len
            known slot tt v)
      | inr e ↦
          let next : SlotOk t.state (t.slot + 1) t.count = rw s (ground arith) in
          rw (choose_word-next w t room (ground arith)) (
            chosen-IsValid word_list t (set t.words t.slot w.0) t.state (t.slot + 1) pos len known
              next v.pick_ok v)
    ]

move-IsValid :
    (word_list : List (List ℕ)) (n : ℕ) (t : Terminal)
    → IsValid word_list t
    → Continues word_list (elim (rem n (length (matches word_list t))) [
      | none ↦ none
      | some i ↦ some (record t { candidate = i })
    ])
unfolding matches
move-IsValid word_list n t v = ground arith

pub words_command-IsValid :
    (word_list : List (List ℕ)) (k : Command) (t : Terminal)
    → 0 < length word_list
    → t.state ≡ entering_words
    → IsValid word_list t
    → Continues word_list (words_command word_list k t)
unfolding words_command
words_command-IsValid word_list (typed b) t pos s v = type_letter-IsValid word_list b t s v
words_command-IsValid word_list delete t pos s v = delete-IsValid word_list t s v
words_command-IsValid word_list next t pos s v = move-IsValid word_list (t.candidate + 1) t v
words_command-IsValid word_list prev t pos s v =
    move-IsValid word_list (t.candidate + length (matches word_list t) - 1) t v
words_command-IsValid word_list choose t pos s v =
    elim (Option-cases (get_elem? (matches word_list t) t.candidate)) [
      | inl e ↦ rw (e, Continues) v
      | inr (w, e) ↦
          let lt =
            matches_from-lt 0 word_list (take t.prefix_len t.prefix) t.candidate w
              (unfold matches in e) in
          rw (e, Continues) (choose_word-IsValid word_list w t s (omega (arith, lt)) v)
    ]
words_command-IsValid word_list back t pos s v =
    let ok : SlotOk t.state (t.slot - 1) t.count = rw s (ground arith) in
    chosen-IsValid word_list t t.words t.state (t.slot - 1) pos v.words_length v.words_known ok
      v.pick_ok v
words_command-IsValid word_list _ t pos s v = ground arith
