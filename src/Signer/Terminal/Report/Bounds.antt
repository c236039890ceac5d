-- ===== src/Signer/Terminal/Report/Bounds.antt =====
-- The report of signer-probe/src/terminal.rs in a valid state: no panic, 128 bytes.
use savepoint_signer.Prelude.{
  ℕ, zero, suc, ◌==◌, ◌%◌, ◌+◌, ◌*◌, ◌≤◌, ◌≡◌, refl, ◌∙◌, Option, some, List, [], ◌∷◌, arith, All,
  map, codes, decimal, length, get_elem?, get_elem?-lt, take, drop, set, copy_at, leb, Bool-cases,
  Option-cases, inl, inr, true, length-set, length-copy_at, length-take, length-drop,
}
use savepoint_signer.SeedLink.{starts_with}
use savepoint_signer.Signer.Seed.{Review}
use savepoint_signer.Signer.Terminal.{
  State, entering_words, showing_identity, active, qr_ready, reviewing, error, saved, choosing,
  PsbtFile, Terminal, matches, matches_from,
}
use savepoint_signer.Signer.Terminal.Invariant.{IsValid, PickOk}
use savepoint_signer.Signer.Terminal.Report.{
  printable, sat, put, put_words, report_header, report_file, report_review, report_view, report,
}
use savepoint_signer.Signer.Terminal.Report.Fields.{length-put}
use savepoint_signer.Signer.Terminal.Report.Display.{length-report_header, length-report_output}

All-take {ℓ κ} : {A : Type ℓ} (P : A → Type κ) (n : ℕ) (xs : List A) → All P xs → All P (take n xs)
All-take P zero xs h = tt
All-take P (suc n) [] h = tt
All-take P (suc n) (x ∷ xs) (p, h) = (p, All-take P n xs h)

All-drop {ℓ κ} : {A : Type ℓ} (P : A → Type κ) (n : ℕ) (xs : List A) → All P xs → All P (drop n xs)
All-drop P zero xs h = h
All-drop P (suc n) [] h = tt
All-drop P (suc n) (x ∷ xs) (p, h) = All-drop P n xs h

matches_from-All :
    (i : ℕ) (word_list : List (List ℕ)) (prefix : List ℕ)
    → All (λ w. length w ≤ 9) word_list
    → All (λ p. length p.1 ≤ 9) (matches_from i word_list prefix)
unfolding matches_from
matches_from-All i [] prefix h = tt
matches_from-All i (w ∷ ws) prefix (p, h) = elim (Bool-cases (starts_with w prefix)) [
  | inl e ↦ rw e (p, matches_from-All (i + 1) ws prefix h)
  | inr e ↦ rw e (matches_from-All (i + 1) ws prefix h)
]

-- An answer of 128 bytes.
abbrev pub IsReport : Option (List ℕ) → Type 0
IsReport o = (r : List ℕ) × (o ≡ some r) × (length r ≡ 128)

put_words-IsReport :
    (r : List ℕ) (row : ℕ) (rows : List (ℕ × List ℕ))
    → length r ≡ 128
    → All (λ p. length p.1 ≤ 9) rows
    → row + length rows ≤ 3
    → IsReport (put_words r row rows)
unfolding put_words
put_words-IsReport r row [] h all k = (r, refl, h)
put_words-IsReport r row ((i, w) ∷ rest) h (short, all) k =
    let fits : leb (16 + row * 9 + length w) (length r) ≡ true = ground arith in
    rw fits (
      put_words-IsReport (copy_at r (16 + row * 9) w) (row + 1) rest
        (length-copy_at r (16 + row * 9) w (omega arith) ∙ h) all (omega arith))

-- A report in the making.
record IsSized (r : List ℕ) : Type 0 where
  sized : length r ≡ 128

set-IsSized : {r : List ℕ} (i v : ℕ) → IsSized r → IsSized (set r i v)
set-IsSized {r = r} i v h = record { sized = length-set r i v ∙ h.sized }

put-IsSized :
    {r : List ℕ} (a b : ℕ) (text : List ℕ) → a ≤ b → b ≤ 128 → IsSized r → IsSized (put r a b text)
put-IsSized {r = r} a b text h k e = record {
  sized = length-put r a b text h (omega (arith, e.sized)) ∙ e.sized;
}

report_file-IsSized :
    (t : Terminal) (file : PsbtFile) (r : List ℕ) → IsSized r → IsSized (report_file t file r)
unfolding report_file
report_file-IsSized t file r h =
    put-IsSized 96 108 (decimal file.size) (omega arith) (omega arith) (
      put-IsSized 80 92 (map printable file.alias) (omega arith) (omega arith) (
        put-IsSized 16 76 (map printable (take 60 (drop (t.name_page * 60) file.name)))
          (omega arith) (omega arith)
          (set-IsSized 11 _ (set-IsSized 10 _ (set-IsSized 9 _ (set-IsSized 8 _ h))))))

report_review-IsSized :
    (page : ℕ) (review : Review) (r : List ℕ) → IsSized r → IsSized (report_review page review r)
unfolding report_review
report_review-IsSized page review r h =
    let h8 = set-IsSized 8 (page % 256) h in
    let h9 = set-IsSized 9 ((length review.outputs + 2) % 256) h8 in
    elim (Option-cases (get_elem? review.outputs page)) [
      | inr (out, e) ↦
          rw (report_review, e) (record { sized = length-report_output page out _ h9.sized })
      | inl e ↦ elim (Bool-cases (page == length review.outputs)) [
        | inl k ↦
            rw (report_review, e, k)
              (put-IsSized 36 56 (sat review.fee_sat) (omega arith) (omega arith)
                (put-IsSized 16 36 (codes "Transaction fee") (omega arith) (omega arith) h9))
        | inr k ↦
            rw (report_review, e, k)
              (put-IsSized 16 36 (codes "Approve signing?") (omega arith) (omega arith)
                (set-IsSized 10 1 h9))
      ]
    ]

show_128 :
    (identity r : List ℕ)
    → length identity ≡ 52
    → length r ≡ 128
    → length (copy_at (copy_at r 48 (take 8 identity)) 64 (drop 8 identity)) ≡ 128
show_128 identity r h k =
    let e1 : length (take 8 identity) ≡ 8 = omega (arith, length-take 8 identity) in
    let e2 : length (drop 8 identity) ≡ 44 = omega (arith, length-drop 8 identity) in
    let e3 = length-copy_at r 48 (take 8 identity) (omega arith) ∙ k in
    length-copy_at (copy_at r 48 (take 8 identity)) 64 (drop 8 identity) (omega arith) ∙ e3

report_view-IsReport :
    (word_list : List (List ℕ)) (state : State) (t : Terminal) (r : List ℕ)
    → PickOk state t.file_index t.files
    → length t.identity ≡ 52
    → All (λ w. length w ≤ 9) word_list
    → length r ≡ 128
    → IsReport (report_view word_list state t r)
unfolding report_view matches
report_view-IsReport word_list entering_words t r k i w h =
    let rows = drop t.candidate (matches_from 0 word_list (take t.prefix_len t.prefix)) in
    put_words-IsReport r 0 (take 3 rows) h
      (All-take _ 3 rows
        (All-drop _ t.candidate _ (matches_from-All 0 word_list (take t.prefix_len t.prefix) w)))
      (omega (arith, length-take 3 rows))
report_view-IsReport word_list showing_identity t r k i w h = (_, refl, show_128 t.identity r i h)
report_view-IsReport word_list active t r k i w h = (_, refl, show_128 t.identity r i h)
report_view-IsReport word_list qr_ready t r k i w h =
    (_, refl, (set-IsSized 65 _ (set-IsSized 64 _ (record { sized = h }))).sized)
report_view-IsReport word_list choosing t r k i w h =
    let (file, e) = get_elem?-lt t.files t.file_index k in
    rw (report_view, e) (_, refl, (report_file-IsSized t file r (record { sized = h })).sized)
report_view-IsReport word_list reviewing t r k i w h = elim (Option-cases t.review) [
  | inl e ↦ rw e (r, refl, h)
  | inr (review, e) ↦
      rw e (_, refl, (report_review-IsSized t.review_page review r (record { sized = h })).sized)
]
report_view-IsReport word_list error t r k i w h =
    (_, refl, length-put r 16 64 t.psbt_message (omega arith) (omega arith) ∙ h)
report_view-IsReport word_list saved t r k i w h =
    (_, refl, length-put r 16 64 t.psbt_message (omega arith) (omega arith) ∙ h)
report_view-IsReport word_list _ t r k i w h = (r, refl, h)

-- In a valid state the report is produced, without a panic, and has 128 bytes, for a list of words of
-- at most nine letters and an identity of 52 bytes, as the array has.
pub report-IsReport :
    (word_list : List (List ℕ)) (t : Terminal)
    → IsValid word_list t
    → length t.identity ≡ 52
    → All (λ w. length w ≤ 9) word_list
    → IsReport (report word_list t)
unfolding report
report-IsReport word_list t v i w =
    let h = length-report_header t v.prefix_length in
    let (r, e, len) = report_view-IsReport word_list t.state t (report_header t) v.pick_ok i w h in
    rw (report, e) (_, refl, length-set r 127 1 ∙ len)
