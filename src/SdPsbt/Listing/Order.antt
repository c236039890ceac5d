-- ===== src/SdPsbt/Listing/Order.antt =====
-- The order that src/sd_psbt.rs gives to the files it lists.
use savepoint_signer.Prelude.{
  ℕ, ◌≡◌, refl, true, false, List, [], ◌∷◌, arith, length, All, Bool-cases, inl, inr, suc, ap, ◌∙◌,
}
use savepoint_signer.SdPsbt.Listing.{FoundFile, text_le, insert, sort_by}

text_le_total : (s t : List ℕ) → text_le s t ≡ false → text_le t s ≡ true
unfolding text_le
text_le_total [] t h = absurd (cc h)
text_le_total (c ∷ cs) [] h = refl
text_le_total (c ∷ cs) (e ∷ es) h = ground (arith, text_le_total cs es)

text_le_trans : (s t u : List ℕ) → text_le s t ≡ true → text_le t u ≡ true → text_le s u ≡ true
unfolding text_le
text_le_trans [] t u h k = refl
text_le_trans (c ∷ cs) [] u h k = absurd (cc h)
text_le_trans (c ∷ cs) (e ∷ es) [] h k = absurd (cc k)
text_le_trans (c ∷ cs) (e ∷ es) (g ∷ gs) h k = ground (arith, text_le_trans cs es gs)

pub All-imp {ℓ κ μ} :
    {A : Type ℓ} {P : A → Type κ} {Q : A → Type μ}
    → ((a : A) → P a → Q a)
    → (xs : List A) → All P xs
    → All Q xs
All-imp f [] h = tt
All-imp f (x ∷ xs) (p, h) = (f x p, All-imp f xs h)

module _ {N : Type 0} where
  -- Each name is not greater than any after it.
  abbrev pub IsSorted : List (FoundFile N) → Type 0
  IsSorted [] = Unit
  IsSorted (f ∷ fs) = All (λ g. text_le f.name g.name ≡ true) fs × IsSorted fs

  All-insert :
      (P : FoundFile N → Type 0) (f : FoundFile N) (fs : List (FoundFile N))
      → P f
      → All P fs
      → All P (insert f fs)
  unfolding insert
  All-insert P f [] p h = (p, tt)
  All-insert P f (g ∷ gs) p (q, h) = elim (Bool-cases (text_le f.name g.name)) [
    | inl e ↦ rw e (p, (q, h))
    | inr e ↦ rw e (q, All-insert P f gs p h)
  ]

  insert-IsSorted :
      (f : FoundFile N) (fs : List (FoundFile N)) → IsSorted fs → IsSorted (insert f fs)
  unfolding insert
  insert-IsSorted f [] h = (tt, tt)
  insert-IsSorted f (g ∷ gs) (q, h) = elim (Bool-cases (text_le f.name g.name)) [
    | inl e ↦ rw e ((e, All-imp (λ k. text_le_trans f.name g.name k.name e) gs q), (q, h))
    | inr e ↦ rw e (
      All-insert (λ k. text_le g.name k.name ≡ true) f gs (text_le_total f.name g.name e) q,
      insert-IsSorted f gs h,
    )
  ]

  length-insert :
      (f : FoundFile N) (fs : List (FoundFile N)) → length (insert f fs) ≡ suc (length fs)
  unfolding insert
  length-insert f [] = refl
  length-insert f (g ∷ gs) = elim (Bool-cases (text_le f.name g.name)) [
    | inl e ↦ rw e refl
    | inr e ↦ rw e (ap suc (length-insert f gs))
  ]

  pub sort_by-IsSorted : (fs : List (FoundFile N)) → IsSorted (sort_by fs)
  unfolding sort_by
  sort_by-IsSorted [] = tt
  sort_by-IsSorted (f ∷ fs) = insert-IsSorted f (sort_by fs) (sort_by-IsSorted fs)

  pub All-sort_by :
      (P : FoundFile N → Type 0) (fs : List (FoundFile N)) → All P fs → All P (sort_by fs)
  unfolding sort_by
  All-sort_by P [] h = tt
  All-sort_by P (f ∷ fs) (p, h) = All-insert P f (sort_by fs) p (All-sort_by P fs h)

  pub length-sort_by : (fs : List (FoundFile N)) → length (sort_by fs) ≡ length fs
  unfolding sort_by
  length-sort_by [] = refl
  length-sort_by (f ∷ fs) = length-insert f (sort_by fs) ∙ ap suc (length-sort_by fs)
