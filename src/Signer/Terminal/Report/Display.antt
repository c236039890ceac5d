-- ===== src/Signer/Terminal/Report/Display.antt =====
-- What the report of signer-probe/src/terminal.rs shows, and what it keeps to itself.
use savepoint_signer.Prelude.{
  ℕ, ◌+◌, ◌%◌, ◌≤◌, ◌≡◌, refl, ◌∙◌, Bool, true, false, Option, some, List, ◌++◌, arith,
  if◌then◌else◌, length, get_elem?, take, drop, set, zeros, codes, decimal, take_all, length-set,
  length-copy_at,
}
use savepoint_signer.Signer.Seed.{SeedSession, DisplayItem, Review, max_money}
use savepoint_signer.Signer.Terminal.{
  State, entering_words, showing_identity, active, qr_ready, choosing, error, saved, reviewing,
  Terminal, matches,
}
use savepoint_signer.Signer.Terminal.Report.Fields.{
  length-sat, put-below, put-slice, length-put, slice-below, take-set,
}
use savepoint_signer.Signer.Terminal.Report.{
  put, report_header, report_file, report_output, report_review, report_view, report,
}

report_view-public :
    (word_list : List (List ℕ)) (state : State) (t : Terminal) (words pass : List ℕ)
    (seed : Option SeedSession) (address_index : ℕ) (qr_buffer r : List ℕ)
    → report_view word_list state
        (record t {
          words = words;
          pass = pass;
          seed = seed;
          address_index = address_index;
          qr_buffer = qr_buffer;
        })
        r
      ≡ report_view word_list state t r
unfolding report_view report_file matches
report_view-public word_list entering_words t words pass seed i q r = refl
report_view-public word_list showing_identity t words pass seed i q r = refl
report_view-public word_list active t words pass seed i q r = refl
report_view-public word_list qr_ready t words pass seed i q r = refl
report_view-public word_list choosing t words pass seed i q r = refl
report_view-public word_list reviewing t words pass seed i q r = refl
report_view-public word_list error t words pass seed i q r = refl
report_view-public word_list saved t words pass seed i q r = refl
report_view-public word_list _ t words pass seed i q r = refl

-- The report does not depend on the words, the passphrase, the seed, the
-- address index or the bytes of the QR code.
pub report-public :
    (word_list : List (List ℕ)) (t : Terminal) (words pass : List ℕ) (seed : Option SeedSession)
    (address_index : ℕ) (qr_buffer : List ℕ)
    → report word_list (record t {
      words = words;
      pass = pass;
      seed = seed;
      address_index = address_index;
      qr_buffer = qr_buffer;
    })
      ≡ report word_list t
unfolding report report_header
report-public word_list t words pass seed address_index qr_buffer =
    rw
      (
        report,
        report_view-public word_list t.state t words pass seed address_index qr_buffer
            (report_header t),
      )
      refl

pub length-report_header : (t : Terminal) → length t.prefix ≡ 4 → length (report_header t) ≡ 128
unfolding report_header zeros
length-report_header t h = length-copy_at _ 10 t.prefix (omega (arith, h))

pub length-report_output :
    (page : ℕ) (out : DisplayItem) (r : List ℕ)
    → length r ≡ 128
    → length (report_output page out r) ≡ 128
unfolding report_output
length-report_output page out r h =
    let title =
      (if out.is_change then codes "Change" else codes "Output")
      ++ (codes " " ++ decimal (page + 1)) in
    let amount = decimal out.amount_sat ++ codes " sat" in
    let l1 = length-put r 16 36 title (omega arith) (omega arith) ∙ h in
    let l2 = length-put (put r 16 36 title) 36 56 amount (omega arith) (omega arith) ∙ l1 in
    length-put (put (put r 16 36 title) 36 56 amount) 64 108 out.address (omega arith) (omega arith)
    ∙ l2

take-title :
    (b : Bool) (rest : List ℕ)
    → take 6 ((if b then codes "Change" else codes "Output") ++ rest)
      ≡ (if b then codes "Change" else codes "Output")
take-title true rest = refl
take-title false rest = refl

title_long :
    (b : Bool) (rest : List ℕ) → 6 ≤ length ((if b then codes "Change" else codes "Output") ++ rest)
title_long true rest = omega arith
title_long false rest = omega arith

-- The text of a page of the review.
abbrev pub IsShown : DisplayItem → List ℕ → Type 0
IsShown out bytes =
    (take 6 (drop 16 bytes) ≡ (if out.is_change then codes "Change" else codes "Output"))
    × (take (length (decimal out.amount_sat ++ codes " sat")) (drop 36 bytes)
        ≡ decimal out.amount_sat ++ codes " sat")
    × (take (length out.address) (drop 64 bytes) ≡ out.address)

report_output-IsShown :
    (page : ℕ) (out : DisplayItem) (r : List ℕ)
    → length r ≡ 128
    → out.amount_sat ≤ max_money
    → length out.address ≤ 44
    → IsShown out (report_output page out r)
unfolding report_output
report_output-IsShown page out r h m l =
    let number = codes " " ++ decimal (page + 1) in
    let title = (if out.is_change then codes "Change" else codes "Output") ++ number in
    let amount = decimal out.amount_sat ++ codes " sat" in
    let n = length amount in
    let short : n ≤ 20 = length-sat out.amount_sat m in
    let r1 = put r 16 36 title in
    let r2 = put r1 36 56 amount in
    let l1 = length-put r 16 36 title (omega arith) (omega arith) ∙ h in
    let l2 = length-put r1 36 56 amount (omega arith) (omega arith) ∙ l1 in
    (
      put-below 16 6 64 108 r2 out.address (omega arith) (omega arith)
          ∙ put-below 16 6 36 56 r1 amount (omega arith) (omega arith)
          ∙ put-slice 16 6 36 r title (omega arith) (omega arith) (title_long out.is_change number)
          ∙ take-title out.is_change number,
      put-below 36 n 64 108 r2 out.address (omega arith) (omega arith)
          ∙ put-slice 36 n 56 r1 amount (omega arith) (omega arith) (omega arith)
          ∙ take_all amount n (omega arith),
      put-slice 64 (length out.address) 108 r2 out.address (omega arith) (omega arith) (omega arith)
          ∙ take_all out.address (length out.address) (omega arith),
    )

-- The version byte at 127 lies outside.
set-IsShown :
    (out : DisplayItem) (bytes : List ℕ)
    → out.amount_sat ≤ max_money
    → length out.address ≤ 44
    → IsShown out bytes
    → IsShown out (set bytes 127 1)
set-IsShown out bytes m l (title, amount, address) =
    let e = take-set 127 1 bytes in
    let n = length (decimal out.amount_sat ++ codes " sat") in
    (
      slice-below 16 6 127 bytes (set bytes 127 1) (omega arith) e ∙ title,
      slice-below 36 n 127 bytes (set bytes 127 1) (omega (arith, length-sat out.amount_sat m)) e
          ∙ amount,
      slice-below 64 (length out.address) 127 bytes (set bytes 127 1) (omega arith) e ∙ address,
    )

-- On the page of an output the report shows whether it is change, its whole amount in satoshi and its
-- whole address, for an amount that money can have and an address of at most 44 bytes, as every
-- P2WPKH address is.
pub report-IsShown :
    (word_list : List (List ℕ)) (t : Terminal) (review : Review) (out : DisplayItem)
    → t.state ≡ reviewing
    → t.review ≡ some review
    → get_elem? review.outputs t.review_page ≡ some out
    → length t.prefix ≡ 4
    → out.amount_sat ≤ max_money
    → length out.address ≤ 44
    → (bytes : List ℕ) × (report word_list t ≡ some bytes) × IsShown out bytes
unfolding report report_view report_review
report-IsShown word_list t review out s r o p m l =
    let start =
      set (set (report_header t) 8 (t.review_page % 256)) 9 ((length review.outputs + 2) % 256) in
    let len : length start ≡ 128 =
      length-set (set (report_header t) 8 (t.review_page % 256)) 9 _
      ∙ length-set (report_header t) 8 _
      ∙ length-report_header t p in
    (
      set (report_output t.review_page out start) 127 1,
      rw (report, s, report_view, r, report_review, o) refl,
      set-IsShown out (report_output t.review_page out start) m l
          (report_output-IsShown t.review_page out start len m l),
    )
