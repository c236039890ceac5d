-- ===== src/Tests/Memory.antt =====
-- A card in memory, as a concrete instance of the FAT library: names and contents.
use mathlib.Core.Path.{subst}
use savepoint_signer.Prelude.{
  ℕ, zero, suc, ◌+◌, ◌≤◌, ◌≡◌, ◌≢◌, refl, sym, ap, ◌∙◌, Bool, true, false, Option, none, some, List,
  [], ◌∷◌, ◌++◌, map, arith, length, take, drop, zeros, ◌==◌, ◌&&◌, if◌then◌else◌, length-take,
  ==_iff, ==_refl, Bool-cases, Option-cases, inl, inr,
}
use savepoint_signer.SdPsbt.{
  Volume, Entry, Mode, read_only, create_or_truncate, Opened, opened, not_found,
}
use savepoint_signer.SdPsbt.Volumes.{VolumeLaws}

abbrev eq_text : List ℕ → List ℕ → Bool
eq_text [] [] = true
eq_text (c ∷ cs) (e ∷ es) = (c == e) && eq_text cs es
eq_text _ _ = false

eq_text_sound : (s t : List ℕ) → eq_text s t ≡ true → s ≡ t
eq_text_sound [] [] h = refl
eq_text_sound [] (e ∷ es) h = absurd (cc h)
eq_text_sound (c ∷ cs) [] h = absurd (cc h)
eq_text_sound (c ∷ cs) (e ∷ es) h =
    let (first, rest) : (c ≡ e) × (cs ≡ es) = ground (arith, ==_iff c e, eq_text_sound cs es) in
    cc (first, rest)

eq_text_refl : (s : List ℕ) → eq_text s s ≡ true
eq_text_refl [] = refl
eq_text_refl (c ∷ cs) = ground (arith, ==_refl c, eq_text_refl cs)

abbrev Files : Type 0
Files = List (List ℕ × List ℕ)

abbrev find : Files → List ℕ → Option (List ℕ)
find [] n = none
find ((m, b) ∷ d) n = if eq_text m n then some b else find d n

abbrev store : Files → List ℕ → List ℕ → Files
store [] n b = (n, b) ∷ []
store ((m, a) ∷ d) n b = if eq_text m n then (m, b) ∷ d else (m, a) ∷ store d n b

find-store : (d : Files) (n b : List ℕ) → find (store d n b) n ≡ some b
find-store [] n b = rw (eq_text_refl n) refl
find-store ((m, a) ∷ d) n b = elim (Bool-cases (eq_text m n)) [
  | inl e ↦ rw (e, e) refl
  | inr e ↦ rw (e, e) (find-store d n b)
]

find-store_other : (d : Files) (n m b : List ℕ) → m ≢ n → find (store d n b) m ≡ find d m
find-store_other [] n m b h = elim (Bool-cases (eq_text n m)) [
  | inl e ↦ absurd (h (sym (eq_text_sound n m e)))
  | inr e ↦ rw e refl
]
find-store_other ((k, a) ∷ d) n m b h = elim (Bool-cases (eq_text k n)) [
  | inr e ↦ rw (e, find-store_other d n m b h) refl
  | inl e ↦ elim (Bool-cases (eq_text k m)) [
    | inl f ↦ absurd (h (sym (eq_text_sound k m f) ∙ eq_text_sound k n e))
    | inr f ↦ rw (e, f) refl
  ]
]

pub record Handle : Type 0 where
  pub name : List ℕ
  pub size : ℕ
  pub position : ℕ

abbrev open_file : Files → List ℕ → Mode → Files × Opened Handle
open_file d n read_only = elim (find d n) [
  | none ↦ (d, not_found)
  | some b ↦ (d, opened (record { name = n; size = length b; position = 0 }))
]
open_file d n create_or_truncate =
    (store d n [], opened (record { name = n; size = 0; position = 0 }))

abbrev read_at : Files → Handle → ℕ → Files × Handle × Option (List ℕ)
read_at d f n = elim (find d f.name) [
  | none ↦ (d, f, none)
  | some b ↦
      let xs = take n (drop f.position b) in
      (d, record f { position = f.position + length xs }, some xs)
]

abbrev append_to : Files → Handle → List ℕ → Files × Handle × Bool
append_to d f xs = elim (find d f.name) [
  | none ↦ (d, f, false)
  | some b ↦ (store d f.name (b ++ xs), record f { position = length (b ++ xs) }, true)
]

abbrev slot_of : List ℕ × List ℕ → List ℕ × Option (Entry (List ℕ))
slot_of (n, b) = (
  zeros 32,
  some (record {
    name = n;
    size = length b;
    directory = false;
    volume = false;
    hidden = false;
    system = false;
  }),
)

abbrev pub memory : Volume
memory = record {
  Disk = Files;
  File = Handle;
  Name = List ℕ;
  create_from_str = λ s. some s;
  name_text = λ n. n;
  open_volume = λ d. (d, true);
  open_root_dir = λ d. (d, true);
  open_file_in_dir = open_file;
  file_length = λ f. f.size;
  read = read_at;
  write = append_to;
  flush = λ d f. (d, true);
  close = λ d f. (d, true);
  drop_file = λ d f. d;
  drop_root = λ d. d;
  drop_volume = λ d. d;
  root_slots = λ d. (d, map slot_of d, true);
}

opened_handle :
    (d : Files) (n : List ℕ) (f : Handle)
    → (open_file d n read_only).1 ≡ opened f
    → (b : List ℕ) × (find d n ≡ some b) × (f.name ≡ n) × (f.position ≡ 0) × (f.size ≡ length b)
opened_handle d n f h = elim (Option-cases (find d n)) [
  | inl e ↦ absurd (cc (h, e))
  | inr (b, e) ↦
      let k : opened (record { name = n; size = length b; position = 0 }) ≡ opened f = cc (h, e) in
      let k' : record { name = n; size = length b; position = 0 } ≡ f = cc k in
      (b, e, ap (λ g. g.name) (sym k'), ap (λ g. g.position) (sym k'), ap (λ g. g.size) (sym k'))
]

take-length-take : (n : ℕ) (xs : List ℕ) → take n xs ≡ take (length (take n xs)) xs
take-length-take zero xs = refl
take-length-take (suc n) [] = refl
take-length-take (suc n) (x ∷ xs) = ap (λ l. x ∷ l) (take-length-take n xs)

open_read_keeps : (d : Files) (n : List ℕ) → find (open_file d n read_only).0 ≡ find d
open_read_keeps d n = elim (Option-cases (find d n)) [
  | inl e ↦ rw (open_file, e) refl
  | inr (b, e) ↦ rw (open_file, e) refl
]

open_read_missing :
    (d : Files) (n : List ℕ) → (open_file d n read_only).1 ≡ not_found → find d n ≡ none
open_read_missing d n h = elim (Option-cases (find d n)) [
  | inl e ↦ e
  | inr (b, e) ↦ absurd (cc (h, e))
]

created :
    (d : Files) (n : List ℕ) (f : Handle)
    → opened (record { name = n; size = 0; position = 0 }) ≡ opened f
    → (find (store d n []) n ≡ some []) × (f.name ≡ n) × (f.position ≡ 0)
created d n f h =
    let k : record { name = n; size = 0; position = 0 } ≡ f = cc h in
    (find-store d n [], ap (λ g. g.name) (sym k), ap (λ g. g.position) (sym k))

read_at_keeps :
    (d : Files) (f : Handle) (n : ℕ)
    → (find (read_at d f n).0 ≡ find d) × ((read_at d f n).1.name ≡ f.name)
read_at_keeps d f n = elim (Option-cases (find d f.name)) [
  | inl e ↦ rw (read_at, e) (refl, refl)
  | inr (b, e) ↦ rw (read_at, e) (refl, refl)
]

read_at_bytes :
    (d : Files) (f : Handle) (n : ℕ) (b xs : List ℕ)
    → find d f.name ≡ some b
    → (read_at d f n).2 ≡ some xs
    → (length xs ≤ n)
      × (xs ≡ take (length xs) (drop f.position b))
      × ((read_at d f n).1.position ≡ f.position + length xs)
read_at_bytes d f n b xs h k =
    let e : take n (drop f.position b) ≡ xs = cc (h, k) in
    subst
      (λ ys.
        (length ys ≤ n)
        × (ys ≡ take (length ys) (drop f.position b))
        × ((read_at d f n).1.position ≡ f.position + length ys))
      e
      (
        omega (arith, length-take n (drop f.position b)),
        take-length-take n (drop f.position b),
        rw (read_at, h) refl,
      )

append_to_others :
    (d : Files) (f : Handle) (xs : List ℕ)
    → ((m : List ℕ) → m ≢ f.name → find (append_to d f xs).0 m ≡ find d m)
      × ((append_to d f xs).1.name ≡ f.name)
append_to_others d f xs = elim (Option-cases (find d f.name)) [
  | inl e ↦ rw (append_to, e) (λ m h. refl, refl)
  | inr (b, e) ↦ rw (append_to, e) (λ m h. find-store_other d f.name m (b ++ xs) h, refl)
]

append_to_own :
    (d : Files) (f : Handle) (b xs : List ℕ)
    → find d f.name ≡ some b
    → (find (append_to d f xs).0 f.name ≡ some (b ++ xs))
      × ((append_to d f xs).1.position ≡ length (b ++ xs))
append_to_own d f b xs h = rw (append_to, h) (find-store d f.name (b ++ xs), refl)

pub memory_laws : VolumeLaws memory
memory_laws = record {
  contents = find;
  target = λ f. f.name;
  position = λ f. f.position;
  volume_keeps = λ d. refl;
  root_keeps = λ d. refl;
  slots_keep = λ d. refl;
  drop_volume_keeps = λ d. refl;
  drop_root_keeps = λ d. refl;
  drop_file_keeps = λ d f. refl;
  close_keeps = λ d f. refl;
  flush_keeps = λ d f. refl;
  open_keeps = open_read_keeps;
  open_missing = open_read_missing;
  open_found = opened_handle;
  create_other = λ d n m h. find-store_other d n m [] h;
  create_empty = created;
  read_keeps = λ d f n. (read_at_keeps d f n).0;
  read_target = λ d f n. (read_at_keeps d f n).1;
  read_bytes = read_at_bytes;
  write_other = λ d f xs m h. (append_to_others d f xs).0 m h;
  write_target = λ d f xs. (append_to_others d f xs).1;
  write_append = λ d f b xs h k w. append_to_own d f b xs h;
}
