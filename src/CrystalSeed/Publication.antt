-- ===== src/CrystalSeed/Publication.antt =====
-- A page is never seen half written: the sequence byte is odd until the last write.
use savepoint_signer.Prelude.{
  ℕ, zero, suc, ◌+◌, ◌*◌, ◌/◌, ◌%◌, ◌≤◌, ◌<◌, ◌≡◌, ◌≢◌, refl, true, some, List, [], ◌∷◌, ◌++◌,
  arith, ◌==◌, if◌then◌else◌, length, get_elem?, set, take, drop, length-set, length-drop, take_all,
  ap, ◌∙◌,
}
use savepoint_signer.SeedLink.{page}
use savepoint_signer.SeedLink.Pages.{page_format}
use savepoint_signer.CrystalSeed.{
  bus_write, mailbox, Mailbox, store_all, writes_from, stamp, publication, read_page,
}

get_elem?-set_same : (xs : List ℕ) (i v : ℕ) → i < length xs → get_elem? (set xs i v) i ≡ some v
get_elem?-set_same [] i v h = absurd (omega arith)
get_elem?-set_same (x ∷ xs) zero v h = refl
get_elem?-set_same (x ∷ xs) (suc i) v h = get_elem?-set_same xs i v (omega arith)

get_elem?-set_other : (xs : List ℕ) (i j v : ℕ) → i ≢ j → get_elem? (set xs i v) j ≡ get_elem? xs j
get_elem?-set_other [] i j v h = refl
get_elem?-set_other (x ∷ xs) zero zero v h = absurd (h refl)
get_elem?-set_other (x ∷ xs) zero (suc j) v h = refl
get_elem?-set_other (x ∷ xs) (suc i) zero v h = refl
get_elem?-set_other (x ∷ xs) (suc i) (suc j) v h = get_elem?-set_other xs i j v (omega arith)

length-store_all : (ws : List (ℕ × ℕ)) (rom : List ℕ) → length (store_all ws rom) ≡ length rom
unfolding store_all
length-store_all [] rom = refl
length-store_all ((i, b) ∷ ws) rom =
    omega (arith, length-store_all ws (set rom i b), length-set rom i b)

-- Writes from index i on, or the first n of them, leave what is before i.
store_before :
    (bs : List ℕ) (i j n : ℕ) (rom : List ℕ)
    → j < i
    → get_elem? (store_all (take n (writes_from i bs)) rom) j ≡ get_elem? rom j
unfolding store_all writes_from
store_before bs i j zero rom h = refl
store_before [] i j (suc n) rom h = refl
store_before (b ∷ bs) i j (suc n) rom h =
    store_before bs (i + 1) j n (set rom i b) (omega arith)
    ∙ get_elem?-set_other rom i j b (omega arith)

-- All of them put byte k at index i + k.
store_inside :
    (bs : List ℕ) (i k : ℕ) (rom : List ℕ)
    → i + length bs ≤ length rom
    → k < length bs
    → get_elem? (store_all (writes_from i bs) rom) (i + k) ≡ get_elem? bs k
unfolding store_all writes_from
store_inside [] i k rom f h = absurd (omega arith)
store_inside (b ∷ bs) i zero rom f h =
    let all = take_all (writes_from (i + 1) bs) (length (writes_from (i + 1) bs)) (omega arith) in
    let kept =
      store_before bs (i + 1) i (length (writes_from (i + 1) bs)) (set rom i b) (omega arith) in
    let here = get_elem?-set_same rom i b (omega arith) in
    let e : i + 0 ≡ i = omega arith in rw e ((rw all at kept) ∙ here)
store_inside (b ∷ bs) i (suc k) rom f h =
    let e : i + suc k ≡ i + 1 + k = omega arith in
    rw e (store_inside bs (i + 1) k (set rom i b) (omega (arith, length-set rom i b)) (omega arith))

take-append : (xs ys : List (ℕ × ℕ)) (n : ℕ) → n ≤ length xs → take n (xs ++ ys) ≡ take n xs
take-append xs ys zero h = refl
take-append [] ys (suc n) h = absurd (omega arith)
take-append (x ∷ xs) ys (suc n) h = ap (λ l. x ∷ l) (take-append xs ys n (omega arith))

length-writes_from : (i : ℕ) (bs : List ℕ) → length (writes_from i bs) ≡ length bs
unfolding writes_from
length-writes_from i [] = refl
length-writes_from i (b ∷ bs) = ap suc (length-writes_from (i + 1) bs)

store_all-append :
    (ws vs : List (ℕ × ℕ)) (rom : List ℕ)
    → store_all (ws ++ vs) rom ≡ store_all vs (store_all ws rom)
unfolding store_all
store_all-append [] vs rom = refl
store_all-append ((i, b) ∷ ws) vs rom = store_all-append ws vs (set rom i b)

-- Cut off before its last write but after its first, a publication leaves the sequence byte odd.
pub publication_odd :
    (off seq n : ℕ) (p rom : List ℕ)
    → length p ≡ 38
    → off + 38 ≤ length rom
    → 0 < n
    → n < 39
    → (b : ℕ) × (get_elem? (store_all (take n (publication off seq p)) rom) off ≡ some b)
      × (b % 2 ≡ 1)
unfolding publication store_all
publication_odd off seq zero p rom l f h g = absurd (omega arith)
publication_odd off seq (suc n) p rom l f h g =
    let ws = writes_from (off + 1) (drop 1 p) in
    let rom₁ = set rom off (seq / 2 * 2 + 1) in
    let le : n ≤ length ws =
      omega (arith, length-writes_from (off + 1) (drop 1 p), length-drop 1 p) in
    let cut = take-append ws ((off, seq) ∷ []) n le in
    let kept = store_before (drop 1 p) (off + 1) off n rom₁ (omega arith) in
    let here = get_elem?-set_same rom off (seq / 2 * 2 + 1) (omega arith) in
    (seq / 2 * 2 + 1, rw cut (kept ∙ here), omega arith)

-- A whole publication leaves the sequence byte at 0, and byte k of the page at k for the others.
pub publication_whole :
    (off seq k : ℕ) (p rom : List ℕ)
    → length p ≡ 38
    → off + 38 ≤ length rom
    → k < 37
    → (get_elem? (store_all (publication off seq p) rom) off ≡ some seq)
      × (get_elem? (store_all (publication off seq p) rom) (off + 1 + k) ≡ get_elem? (drop 1 p) k)
unfolding publication store_all
publication_whole off seq k p rom l f h =
    let ws = writes_from (off + 1) (drop 1 p) in
    let rom₁ = set rom off (seq / 2 * 2 + 1) in
    let rom₂ = store_all ws rom₁ in
    let split = store_all-append ws ((off, seq) ∷ []) rom₁ in
    let len : length rom₂ ≡ length rom =
      length-store_all ws rom₁ ∙ length-set rom off (seq / 2 * 2 + 1) in
    let last = get_elem?-set_same rom₂ off seq (omega arith) in
    let other = get_elem?-set_other rom₂ off (off + 1 + k) seq (omega arith) in
    let inside =
      store_inside (drop 1 p) (off + 1) k rom₁
        (omega (arith, length-drop 1 p, length-set rom off (seq / 2 * 2 + 1)))
        (omega (arith, length-drop 1 p)) in
    rw split (last, other ∙ inside)

get_elem?-drop_one : (p : List ℕ) (k : ℕ) → get_elem? (drop 1 p) k ≡ get_elem? p (suc k)
get_elem?-drop_one [] k = refl
get_elem?-drop_one (x ∷ xs) k = refl

get_elem?-stamp :
    (p : List ℕ) (seq k : ℕ) → k < 36 → get_elem? (drop 1 (stamp p seq)) k ≡ get_elem? p (suc k)
get_elem?-stamp p seq k h =
    get_elem?-drop_one (stamp p seq) k
    ∙ get_elem?-set_other (set p 0 seq) 37 (suc k) seq (omega arith)
    ∙ get_elem?-set_other p 0 (suc k) seq (omega arith)

-- The write of page index d to 0x7002 is consumed and publishes that page of the link: both sequence
-- bytes become the next even number, 0 after 254, and bytes 1 to 36 are those
-- of `Link::page`; link and pending command stay.
pub bus_write-page :
    (m : Mailbox) (off d k : ℕ)
    → m.bus.offset ≡ some off
    → off + 38 ≤ length m.rom
    → length m.link.frame ≡ 640
    → m.bus.seq < 256
    → m.bus.seq % 2 ≡ 0
    → k < 36
    → let r = bus_write 0x7002 d m in
      let seq = r.0.bus.seq in
      (r.1 ≡ true)
      × (seq ≡ (if m.bus.seq == 254 then 0 else m.bus.seq + 2))
      × (seq % 2 ≡ 0)
      × (seq ≢ m.bus.seq)
      × (get_elem? r.0.rom off ≡ some seq)
      × (get_elem? r.0.rom (off + 1 + 36) ≡ some seq)
      × (get_elem? r.0.rom (off + 1 + k) ≡ get_elem? (page m.link d) (suc k))
      × (r.0.link ≡ m.link)
      × (r.0.bus.command ≡ m.bus.command)
unfolding bus_write mailbox read_page
bus_write-page m off d k o fits frame small even h =
    let seq = (m.bus.seq + 2) % 256 in
    let p = stamp (page m.link d) seq in
    let plen = (page_format m.link d frame).0 in
    let len : length p ≡ 38 =
      omega
        (arith, length-set (set (page m.link d) 0 seq) 37 seq, length-set (page m.link d) 0 seq) in
    let a = publication_whole off seq k p m.rom len fits (omega arith) in
    let b = publication_whole off seq 36 p m.rom len fits (omega arith) in
    let last : get_elem? (drop 1 p) 36 ≡ some seq =
      get_elem?-drop_one p 36
      ∙ get_elem?-set_same (set (page m.link d) 0 seq) 37 seq
          (omega (arith, length-set (page m.link d) 0 seq)) in
    rw o (
      refl,
      ground arith,
      omega arith,
      omega arith,
      a.0,
      b.1 ∙ last,
      a.1 ∙ get_elem?-stamp (page m.link d) seq k h,
      refl,
      refl,
    )
