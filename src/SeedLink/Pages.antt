-- ===== src/SeedLink/Pages.antt =====
-- `Link::page` and `marker_offset`: what the game reads of the frame.
use savepoint_signer.Prelude.{
  ℕ, zero, suc, ◌+◌, ◌*◌, ◌≤◌, ◌<◌, ◌≡◌, refl, sym, ap, ◌∙◌, true, false, some, List, [], ◌∷◌, ◌++◌,
  arith, leb, length, take, drop, get_elem?, get_elem?-append_length, is_some, ltb, if◌then◌else◌,
  inl, inr, length-append, length-take, length-drop, zeros, length-zeros, take-append-drop,
  drop-drop, drop_all, take-length-append, Bool-cases,
}
use savepoint_signer.SeedLink.{Link, page_bytes, page}

-- The payload bytes of a page, as the game copies them.
abbrev pub page_payload : List ℕ → List ℕ
page_payload p = take 32 (drop 4 p)

-- What the game has after reading `n` pages from page `i` on.
pub reassemble : Link → ℕ → ℕ → List ℕ
reassemble l i zero = []
reassemble l i (suc n) = page_payload (page l i) ++ reassemble l (i + 1) n

slice_length : (xs : List ℕ) (i : ℕ) → i + 32 ≤ length xs → length (take 32 (drop i xs)) ≡ 32
slice_length xs i h = omega (arith, length-take 32 (drop i xs), length-drop i xs)

page_payload-page :
    (l : Link) (i : ℕ)
    → length l.frame ≡ 640
    → i < 20
    → page_payload (page l i) ≡ take 32 (drop (i * 32) l.frame)
unfolding page
page_payload-page l i len h =
    let e : leb (i * 32 + 32) 640 ≡ true = ground arith in
    let s = slice_length l.frame (i * 32) (omega arith) in
    rw e (
      ap (λ k. take k (take 32 (drop (i * 32) l.frame) ++ 1 ∷ 0 ∷ [])) (sym s)
      ∙ take-length-append (take 32 (drop (i * 32) l.frame)) (1 ∷ 0 ∷ []))

reassemble_from :
    (l : Link) (n i : ℕ)
    → length l.frame ≡ 640
    → i + n ≡ 20
    → reassemble l i n ≡ drop (i * 32) l.frame
unfolding reassemble
reassemble_from l zero i len h = sym (drop_all l.frame (i * 32) (omega arith))
reassemble_from l (suc n) i len h =
    let e : i * 32 + 32 ≡ (i + 1) * 32 = omega arith in
    rw
      (
        page_payload-page l i len (omega arith),
        reassemble_from l n (i + 1) len (omega arith),
        ← e,
        ← drop-drop 32 (i * 32) l.frame,
      )
      (take-append-drop 32 (drop (i * 32) l.frame))

-- The twenty pages 0..19, read while the link does not change, give back the whole frame.
pub reassemble-eq-frame : (l : Link) → length l.frame ≡ 640 → reassemble l 0 20 ≡ l.frame
reassemble-eq-frame l len = reassemble_from l 20 0 len refl

-- Every page has 38 bytes and protocol version 1; its status byte is 2 exactly for an index past
-- the frame, and otherwise 1 while a request is active and 0 when none is.
pub page_format :
    (l : Link) (i : ℕ)
    → length l.frame ≡ 640
    → (length (page l i) ≡ page_bytes)
      × (get_elem? (page l i) 36 ≡ some 1)
      × (get_elem? (page l i) 1 ≡ some l.ack)
      × (get_elem? (page l i) 2
          ≡ some (if ltb i 20 then (if is_some l.active then 1 else 0) else 2))
unfolding page
page_format l i len = elim (Bool-cases (ltb i 20)) [
  | inl e ↦
      let f : leb (i * 32 + 32) 640 ≡ true = ground arith in
      let s = slice_length l.frame (i * 32) (ground arith) in
      rw (e, f)
        (
          omega (arith, length-append (take 32 (drop (i * 32) l.frame)) (1 ∷ 0 ∷ [])),
          get_elem?-append_length (take 32 (drop (i * 32) l.frame)) 1 (0 ∷ []) 32 s,
          refl,
          refl,
        )
  | inr e ↦
      let f : leb (i * 32 + 32) 640 ≡ false = ground arith in
      rw (e, f)
        (
          omega (arith, length-append (zeros 32) (1 ∷ 0 ∷ []), length-zeros 32),
          get_elem?-append_length (zeros 32) 1 (0 ∷ []) 32 (length-zeros 32),
          refl,
          refl,
        )
]
