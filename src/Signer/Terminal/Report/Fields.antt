-- ===== src/Signer/Terminal/Report/Fields.antt =====
-- The fields of the report of signer-probe/src/terminal.rs: texts put into slices, and their sizes.
use savepoint_signer.Prelude.{
  ℕ, zero, suc, ◌+◌, ◌-◌, ◌/◌, ◌%◌, ◌^◌, ◌≤◌, ◌<◌, ◌≡◌, refl, ap, sym, ◌∙◌, List, [], ◌∷◌, ◌++◌,
  arith, ltb, ◌==◌, length, take, drop, set, codes, decimal, digits, Bool-cases, inl, inr, ==_iff,
  take-copy_at_head, drop-copy_at, take-length-append, length-copy_at, length-take, length-append,
}
use native.Mathlib.Nat.{pow-succ'}
use savepoint_signer.Signer.Seed.{max_money}
use savepoint_signer.Signer.Terminal.Report.{put}

-- A number below ten to the k has at most k digits.
length-digits : (n k x : ℕ) → x < 10 ^ k → 0 < k → length (digits n x) ≤ k
unfolding digits
length-digits zero k x h p = omega arith
length-digits (suc n) zero x h p = absurd (omega arith)
length-digits (suc n) (suc k) x h p = elim (Bool-cases (ltb x 10)) [
  | inl e ↦ rw e (omega arith)
  | inr e ↦ elim (Bool-cases (k == 0)) [
    | inl z ↦
        let one : 10 ^ suc k ≡ 10 = ground (arith, ap (λ i. 10 ^ suc i) ((==_iff k 0).0 z)) in
        absurd (ground arith)
    | inr z ↦
        let smaller : x / 10 < 10 ^ k = omega (arith, pow-succ' 10 k) in
        rw e (
          omega (
            arith,
            length-append (digits n (x / 10)) ((48 + x % 10) ∷ []),
            length-digits n k (x / 10) smaller (ground arith),
          ))
  ]
]

-- An amount of money with its unit fits the twenty bytes of its field.
pub length-sat : (x : ℕ) → x ≤ max_money → length (decimal x ++ codes " sat") ≤ 20
unfolding decimal
length-sat x h = omega (
  arith,
  length-append (decimal x) (codes " sat"),
  length-digits 20 16 x (omega arith) (omega arith),
)

-- What is read below `i` depends only on the first `i` bytes.
slice-take :
    (a n i : ℕ) (xs : List ℕ) → a + n ≤ i → take n (drop a (take i xs)) ≡ take n (drop a xs)
slice-take zero zero i xs h = refl
slice-take zero (suc n) zero xs h = absurd (omega arith)
slice-take zero (suc n) (suc i) [] h = refl
slice-take zero (suc n) (suc i) (x ∷ xs) h = ap (λ l. x ∷ l) (slice-take zero n i xs (omega arith))
slice-take (suc a) n zero xs h = absurd (omega arith)
slice-take (suc a) n (suc i) [] h = refl
slice-take (suc a) n (suc i) (x ∷ xs) h = slice-take a n i xs (omega arith)

pub take-set : (i v : ℕ) (xs : List ℕ) → take i (set xs i v) ≡ take i xs
take-set i v [] = refl
take-set zero v (x ∷ xs) = refl
take-set (suc i) v (x ∷ xs) = ap (λ l. x ∷ l) (take-set i v xs)

-- A write at `i` leaves what is read below it.
pub slice-below :
    (a n i : ℕ) (xs ys : List ℕ)
    → a + n ≤ i
    → take i ys ≡ take i xs
    → take n (drop a ys) ≡ take n (drop a xs)
slice-below a n i xs ys h e =
    sym (slice-take a n i ys h) ∙ ap (λ l. take n (drop a l)) e ∙ slice-take a n i xs h

pub put-below :
    (a n i b : ℕ) (r text : List ℕ)
    → a + n ≤ i
    → i ≤ length r
    → take n (drop a (put r i b text)) ≡ take n (drop a r)
unfolding put
put-below a n i b r text h k = slice-below a n i r _ h (take-copy_at_head r (take (b - i) text) i k)

-- The first `n` bytes of a text are in its field.
pub put-slice :
    (a n b : ℕ) (r text : List ℕ)
    → a + n ≤ b
    → a ≤ length r
    → n ≤ length text
    → take n (drop a (put r a b text)) ≡ take n text
unfolding put
put-slice a n b r text h k l =
    let src = take (b - a) text in
    let long : 0 + n ≤ length src = omega (arith, length-take (b - a) text) in
    ap (take n) (drop-copy_at r src a k)
    ∙ sym (slice-take 0 n (length src) _ long)
    ∙ ap (take n) (take-length-append src _)
    ∙ slice-take 0 n (b - a) text (omega arith)

pub length-put :
    (r : List ℕ) (a b : ℕ) (text : List ℕ)
    → a ≤ b
    → b ≤ length r
    → length (put r a b text) ≡ length r
unfolding put
length-put r a b text h k =
    length-copy_at r a (take (b - a) text) (omega (arith, length-take (b - a) text))
