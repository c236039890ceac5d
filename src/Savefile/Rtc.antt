-- ===== src/Savefile/Rtc.antt =====
-- The RTC tail survives packing and unpacking.
use savepoint_signer.Prelude.{
  ℕ, zero, suc, ◌*◌, ◌/◌, ◌%◌, ◌^◌, ◌<◌, ◌≡◌, refl, List, [], ◌∷◌, arith, length, All, zeros,
  copy_at,
}
use native.Mathlib.Numerals.{unary_clauses}
use savepoint_signer.Savefile.{
  le_bytes, from_le, pack_regs, pack_rtc, unpack_regs, unpack_rtc, rtc_tail_len,
}

pub from_le-le_bytes : (n x : ℕ) → x < 256 ^ n → from_le (le_bytes n x) ≡ x
unfolding from_le le_bytes
from_le-le_bytes zero x h = omega arith
from_le-le_bytes (suc n) x h =
    let p : 256 ^ suc n ≡ 256 * 256 ^ n = simp unary_clauses (omega arith) in
    let rest = from_le-le_bytes n (x / 256) (omega arith) in omega arith

byte_back : (b : ℕ) → b < 256 → from_le (le_bytes 4 b) % 256 ≡ b
byte_back b h = let e = from_le-le_bytes 4 b (omega arith) in omega arith

five_eq :
    (a b c d e a' b' c' d' e' : ℕ)
    → a' ≡ a
    → b' ≡ b
    → c' ≡ c
    → d' ≡ d
    → e' ≡ e
    → (a' ∷ b' ∷ c' ∷ d' ∷ e' ∷ []) ≡ (a ∷ b ∷ c ∷ d ∷ e ∷ [])
five_eq a b c d e a' b' c' d' e' p q r s t = cc

five :
    (xs : List ℕ)
    → length xs ≡ 5
    → (a : ℕ) × (b : ℕ) × (c : ℕ) × (d : ℕ) × (e : ℕ) × (xs ≡ a ∷ b ∷ c ∷ d ∷ e ∷ [])
five (a ∷ b ∷ c ∷ d ∷ e ∷ []) h = (a, b, c, d, e, refl)
five _ h = absurd (ground arith)

triple_eq :
    (xs ys xs' ys' : List ℕ) (n n' : ℕ)
    → xs' ≡ xs
    → ys' ≡ ys
    → n' ≡ n
    → ◌≡◌ {A = List ℕ × List ℕ × ℕ} (xs', ys', n') (xs, ys, n)
triple_eq xs ys xs' ys' n n' p q r = cc

unpack_five :
    (a b c d e f g h i j unix : ℕ)
    → All (λ x. x < 256) (a ∷ b ∷ c ∷ d ∷ e ∷ [])
    → All (λ x. x < 256) (f ∷ g ∷ h ∷ i ∷ j ∷ [])
    → unix < 2 ^ 64
    → unpack_rtc
        (pack_rtc (a ∷ b ∷ c ∷ d ∷ e ∷ []) (f ∷ g ∷ h ∷ i ∷ j ∷ []) unix (zeros rtc_tail_len))
      ≡ (a ∷ b ∷ c ∷ d ∷ e ∷ [], f ∷ g ∷ h ∷ i ∷ j ∷ [], unix)
unfolding unpack_rtc pack_rtc unpack_regs pack_regs copy_at zeros from_le le_bytes
unpack_five a b c d e f g h i j unix (ma, (mb, (mc, (md, (me, m))))) (nf, (ng, (nh, (ni, (nj, n)))))
      u =
    triple_eq _ _ _ _ _ _
      (five_eq _ _ _ _ _ _ _ _ _ _ (byte_back a ma) (byte_back b mb) (byte_back c mc)
        (byte_back d md) (byte_back e me))
      (five_eq _ _ _ _ _ _ _ _ _ _ (byte_back f nf) (byte_back g ng) (byte_back h nh)
        (byte_back i ni) (byte_back j nj))
      (from_le-le_bytes 8 unix u)

-- Five byte registers, their latched copies and a 64-bit time come back from the packed tail.
pub unpack_rtc-pack_rtc :
    (real latch : List ℕ) (unix : ℕ)
    → length real ≡ 5
    → length latch ≡ 5
    → All (λ b. b < 256) real
    → All (λ b. b < 256) latch
    → unix < 2 ^ 64
    → unpack_rtc (pack_rtc real latch unix (zeros rtc_tail_len)) ≡ (real, latch, unix)
unpack_rtc-pack_rtc real latch unix k l m n u =
    let (a, b, c, d, e, p) = five real k in
    let (f, g, h, i, j, q) = five latch l in
    rw (p, q) (unpack_five a b c d e f g h i j unix (rw p at m) (rw q at n) u)

pub length-pack_rtc :
    (real latch : List ℕ) (unix : ℕ)
    → length real ≡ 5
    → length latch ≡ 5
    → length (pack_rtc real latch unix (zeros rtc_tail_len)) ≡ 48
unfolding pack_rtc pack_regs copy_at zeros le_bytes
length-pack_rtc real latch unix k l =
    let (a, b, c, d, e, p) = five real k in let (f, g, h, i, j, q) = five latch l in rw (p, q) refl
