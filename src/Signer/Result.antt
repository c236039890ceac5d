-- ===== src/Signer/Result.antt =====
-- The outcomes of the signer's Rust functions: a value, an error, or a panic (an index out of
-- bounds, `unwrap` of nothing, a remainder by zero).
use savepoint_signer.Prelude.{
  ℕ, ◌≡◌, ◌≢◌, ◌⊎◌, inl, inr, refl, Bool, true, false, Option, none, some, List, get_elem?,
}

pub data Result {ℓ κ} (E : Type ℓ) (A : Type κ) : Type (ℓ ⊔ κ) where
  ok : A → Result E A
  err : E → Result E A
  panic : Result E A

-- `if !test { return Err(e) }`
abbrev pub require : {E : Type 0} → Bool → E → Result E (Unit {0})
require true e = ok tt
require false e = err e

-- The `?` of the source: an error or a panic ends the function.
infixl 5 ◌>>=◌
abbrev pub ◌>>=◌ : {E A B : Type 0} → Result E A → (A → Result E B) → Result E B
panic >>= next = panic
err e >>= next = err e
ok a >>= next = next a

infixl 5 ◌>>◌
abbrev pub ◌>>◌ : {E B : Type 0} → Result E (Unit {0}) → Result E B → Result E B
first >> rest = first >>= λ done. rest

-- `.ok_or(e)?`
abbrev pub ok_or : {E A : Type 0} → Option A → E → Result E A
ok_or (some a) e = ok a
ok_or none e = err e

-- `.map_err(|_| e)?`
abbrev pub map_err : {E F A : Type 0} → Result E A → F → Result F A
map_err (ok a) f = ok a
map_err (err e) f = err f
map_err panic f = panic

-- `xs[i]`
abbrev pub index : {E A : Type 0} → List A → ℕ → Result E A
index xs i = elim (get_elem? xs i) [ some a ↦ ok a | none ↦ panic ]

-- What a chain that succeeds has passed through.
pub >>=-eq-ok :
    {E A B : Type 0} (first : Result E A) (next : A → Result E B) {r : B}
    → (first >>= next) ≡ ok r
    → (a : A) × (first ≡ ok a) × (next a ≡ ok r)
>>=-eq-ok panic next h = cc
>>=-eq-ok (err e) next h = cc
>>=-eq-ok (ok a) next h = (a, refl, h)

abbrev pub IsOk : {E A : Type 0} → Result E A → Type 0
IsOk (ok a) = Unit {0}
IsOk (err e) = ⊥
IsOk panic = ⊥

pub Result-cases : {E A : Type 0} (m : Result E A) → ((a : A) × (m ≡ ok a)) ⊎ ¬ (IsOk m)
Result-cases (ok a) = inl (a, refl)
Result-cases (err e) = inr (λ h. h)
Result-cases panic = inr (λ h. h)

-- A bind panics only if its first part does, or its second on the first's value.
pub >>=-ne-panic :
    {E A B : Type 0} (m : Result E A) (f : A → Result E B)
    → m ≢ panic
    → ((a : A) → m ≡ ok a → f a ≢ panic)
    → (m >>= f) ≢ panic
>>=-ne-panic (ok a) f h k = k a refl
>>=-ne-panic (err e) f h k = cc
>>=-ne-panic panic f h k = absurd (h refl)

pub require-eq-ok : {E : Type 0} (b : Bool) (e : E) {u : Unit {0}} → require b e ≡ ok u → b ≡ true
require-eq-ok true e h = refl
require-eq-ok false e h = cc

pub require-ne-panic : {E : Type 0} (b : Bool) (e : E) → require b e ≢ panic
require-ne-panic true e = cc
require-ne-panic false e = cc

pub ok_or-eq-ok : {E A : Type 0} (o : Option A) (e : E) {a : A} → ok_or o e ≡ ok a → o ≡ some a
ok_or-eq-ok (some b) e h = cc
ok_or-eq-ok none e h = cc

pub ok_or-ne-panic : {E A : Type 0} (o : Option A) (e : E) → ok_or o e ≢ panic
ok_or-ne-panic (some b) e = cc
ok_or-ne-panic none e = cc
