-- ===== src/Signer/Terminal/Matches.antt =====
-- The candidate words: their number only grows when the prefix is shortened, and their indices
-- are indices of the word list.
use savepoint_signer.Prelude.{
  ℕ, zero, suc, ◌+◌, ◌≤◌, ◌<◌, ◌≡◌, refl, ap, true, some, List, [], ◌∷◌, arith, length, get_elem?,
  set, take, All, Bool-cases, inl, inr,
}
use savepoint_signer.SeedLink.{starts_with}
use savepoint_signer.Signer.Terminal.{matches_from}

starts_with-take :
    (w p : List ℕ) (m n : ℕ)
    → m ≤ n
    → starts_with w (take n p) ≡ true
    → starts_with w (take m p) ≡ true
starts_with-take w p zero n le h = refl
starts_with-take w p (suc m) zero le h = absurd (omega arith)
starts_with-take w [] (suc m) (suc n) le h = refl
starts_with-take [] (x ∷ p) (suc m) (suc n) le h = h
starts_with-take (y ∷ w) (x ∷ p) (suc m) (suc n) le h =
    ground (arith, starts_with-take w p m n (omega arith))

pub length-matches_from_mono :
    (i : ℕ) (ws : List (List ℕ)) (p : List ℕ) (m n : ℕ)
    → m ≤ n
    → length (matches_from i ws (take n p)) ≤ length (matches_from i ws (take m p))
unfolding matches_from
length-matches_from_mono i [] p m n le = omega arith
length-matches_from_mono i (w ∷ ws) p m n le =
    ground (arith, starts_with-take w p m n le, length-matches_from_mono (i + 1) ws p m n le)

pub length-matches_from_nil :
    (i : ℕ) (ws : List (List ℕ)) → length (matches_from i ws []) ≡ length ws
unfolding matches_from
length-matches_from_nil i [] = refl
length-matches_from_nil i (w ∷ ws) = ap suc (length-matches_from_nil (i + 1) ws)

first_or_later :
    (a w : ℕ × List ℕ) (l : List (ℕ × List ℕ)) (b j : ℕ)
    → a.0 < b
    → ((k : ℕ) → get_elem? l k ≡ some w → w.0 < b)
    → get_elem? (a ∷ l) j ≡ some w
    → w.0 < b
first_or_later a w l b zero h ih e = ground arith
first_or_later a w l b (suc k) h ih e = ih k e

pub matches_from-lt :
    (i : ℕ) (ws : List (List ℕ)) (p : List ℕ) (j : ℕ) (w : ℕ × List ℕ)
    → get_elem? (matches_from i ws p) j ≡ some w
    → w.0 < i + length ws
unfolding matches_from
matches_from-lt i [] p j w h = absurd (cc h)
matches_from-lt i (v ∷ ws) p j w h =
    let later = λ (k : ℕ) (g : get_elem? (matches_from (i + 1) ws p) k ≡ some w).
      let lt = matches_from-lt (i + 1) ws p k w g in
      let goal : w.0 < i + length (v ∷ ws) = omega arith in goal in
    elim (Bool-cases (starts_with v p)) [
      | inl e ↦
          first_or_later (i, v) w (matches_from (i + 1) ws p) (i + length (v ∷ ws)) j (omega arith)
            later (rw e at h)
      | inr e ↦ later j (rw e at h)
    ]

pub take-set_beyond : (xs : List ℕ) (n i v : ℕ) → n ≤ i → take n (set xs i v) ≡ take n xs
take-set_beyond xs zero i v h = refl
take-set_beyond [] (suc n) i v h = refl
take-set_beyond (x ∷ xs) (suc n) zero v h = absurd (omega arith)
take-set_beyond (x ∷ xs) (suc n) (suc i) v h =
    ap (λ l. x ∷ l) (take-set_beyond xs n i v (omega arith))

pub All-set :
    (n : ℕ) (xs : List ℕ) (i v : ℕ) → v < n → All (λ k. k < n) xs → All (λ k. k < n) (set xs i v)
All-set n [] i v h a = tt
All-set n (x ∷ xs) zero v h a = (h, a.1)
All-set n (x ∷ xs) (suc i) v h a = (a.0, All-set n xs i v h a.1)
