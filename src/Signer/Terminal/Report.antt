-- ===== src/Signer/Terminal/Report.antt =====
-- `Terminal::report` of signer-probe/src/terminal.rs: the 128 bytes that the game sees. `none` stands
-- for a panic.
use Prim.Native.String.{String}
use savepoint_signer.Prelude.{
  ℕ, ◌+◌, ◌-◌, ◌*◌, ◌/◌, ◌%◌, Bool, true, false, ◌&&◌, Option, none, some, List, [], ◌∷◌, ◌++◌, map,
  max, ltb, leb, ◌==◌, if◌then◌else◌, length, get_elem?, take, drop, set, zeros, copy_at, codes,
  decimal,
}
use savepoint_signer.Signer.Bitcoin.{is_bitcoin}
use savepoint_signer.Signer.Seed.{DisplayItem, Review}
use savepoint_signer.Signer.Terminal.{
  State, entering_words, showing_identity, active, qr_ready, reviewing, error, saved, choosing,
  state_code, PsbtFile, Terminal, matches,
}
pub mod Fields
pub mod Display
pub mod Bounds

-- `put(&mut r[a..b], text)`
unfoldable pub put : List ℕ → ℕ → ℕ → List ℕ → List ℕ
put r a b text = copy_at r a (take (b - a) text)

-- A character that the screen has; any other is shown as a question mark.
abbrev pub printable : ℕ → ℕ
printable c = if leb 32 c && ltb c 127 then c else 63

-- The loop over at most three matches; a word that does not fit panics.
unfoldable pub put_words : List ℕ → ℕ → List (ℕ × List ℕ) → Option (List ℕ)
put_words r row [] = some r
put_words r row ((i, w) ∷ rest) =
    let next = put_words (copy_at r (16 + row * 9) w) (row + 1) rest in
    if leb (16 + row * 9 + length w) (length r) then next else none

-- Bytes 1 to 13.
unfoldable pub report_header : Terminal → List ℕ
report_header t =
    let r = set (zeros 128) 1 (state_code t.state) in
    let r = set r 2 (t.count % 256) in
    let r = set r 3 (t.slot % 256) in
    let r = set r 4 (t.prefix_len % 256) in
    let r = set r 5 (t.pass_len % 256) in
    let r = set r 6 (if is_bitcoin t.network then 1 else 0) in copy_at r 10 t.prefix

-- The cursor of the picker, the page of the name, the alias and the size.
unfoldable pub report_file : Terminal → PsbtFile → List ℕ → List ℕ
unfolding put
report_file t file r =
    let r = set r 8 (t.file_index % 256) in
    let r = set r 9 (length t.files % 256) in
    let r = set r 10 (t.name_page % 256) in
    let r = set r 11 (max ((length file.name + 59) / 60) 1 % 256) in
    let r = put r 16 76 (map printable (take 60 (drop (t.name_page * 60) file.name))) in
    let r = put r 80 92 (map printable file.alias) in put r 96 108 (decimal file.size)

abbrev pub sat : ℕ → List ℕ
sat n = decimal n ++ codes " sat"

-- A page of an output.
unfoldable pub report_output : ℕ → DisplayItem → List ℕ → List ℕ
unfolding put
report_output page out r =
    let title = if out.is_change then codes "Change" else codes "Output" in
    let r = put r 16 36 (title ++ (codes " " ++ decimal (page + 1))) in
    let r = put r 36 56 (sat out.amount_sat) in put r 64 108 out.address

-- The page after the outputs is the fee, the one after that asks.
unfoldable pub report_review : ℕ → Review → List ℕ → List ℕ
unfolding report_output
report_review page review r =
    let n = length review.outputs in
    let r = set r 8 (page % 256) in
    let r = set r 9 ((n + 2) % 256) in
    elim (get_elem? review.outputs page) [
      | some out ↦ report_output page out r
      | none ↦
          if page == n
          then put (put r 16 36 (codes "Transaction fee")) 36 56 (sat review.fee_sat)
          else put (set r 10 1) 16 36 (codes "Approve signing?")
    ]

-- The part of the report that depends on the state.
unfoldable pub report_view : List (List ℕ) → State → Terminal → List ℕ → Option (List ℕ)
unfolding put_words report_file report_review
report_view word_list entering_words t r =
    put_words r 0 (take 3 (drop t.candidate (matches word_list t)))
report_view word_list showing_identity t r =
    some (copy_at (copy_at r 48 (take 8 t.identity)) 64 (drop 8 t.identity))
report_view word_list active t r =
    some (copy_at (copy_at r 48 (take 8 t.identity)) 64 (drop 8 t.identity))
report_view word_list qr_ready t r =
    some (set (set r 64 (t.qr_size % 256)) 65 (t.qr_size / 256 % 256))
report_view word_list choosing t r = elim (get_elem? t.files t.file_index) [
  | none ↦ none
  | some file ↦ some (report_file t file r)
]
report_view word_list reviewing t r = elim t.review [
  | none ↦ some r
  | some review ↦ some (report_review t.review_page review r)
]
report_view word_list error t r = some (put r 16 64 t.psbt_message)
report_view word_list saved t r = some (put r 16 64 t.psbt_message)
report_view word_list _ t r = some r

unfoldable pub report : List (List ℕ) → Terminal → Option (List ℕ)
unfolding report_header report_view
report word_list t = elim (report_view word_list t.state t (report_header t)) [
  | none ↦ none
  | some r ↦ some (set r 127 1)
]
