-- ===== src/SdPsbt/Volumes.antt =====
-- What the theorems on files of the card assume of the FAT library: its documented behaviour, told by
-- the content of each file.
use mathlib.Core.Path.{subst}
use savepoint_signer.Prelude.{
  ℕ, ◌+◌, ◌≤◌, ◌≡◌, refl, ◌≢◌, Option, none, some, List, [], ◌++◌, length, take, drop, true, ◌∙◌,
  Bool-cases, Option-cases, inl, inr,
}
use savepoint_signer.SdPsbt.{
  Reply, good, fault, with_root, Volume, read_only, create_or_truncate, opened, not_found,
}

pub record VolumeLaws (V : Volume) : Type 0 where
  pub contents : V.Disk → V.Name → Option (List ℕ)
  -- The name a file was opened by, and its position.
  pub target : V.File → V.Name
  pub position : V.File → ℕ
  -- Handles of the volume and of the root directory come and go without a change to any file.
  pub volume_keeps : (d : V.Disk) → contents (V.open_volume d).0 ≡ contents d
  pub root_keeps : (d : V.Disk) → contents (V.open_root_dir d).0 ≡ contents d
  pub slots_keep : (d : V.Disk) → contents (V.root_slots d).0 ≡ contents d
  pub drop_volume_keeps : (d : V.Disk) → contents (V.drop_volume d) ≡ contents d
  pub drop_root_keeps : (d : V.Disk) → contents (V.drop_root d) ≡ contents d
  pub drop_file_keeps : (d : V.Disk) (f : V.File) → contents (V.drop_file d f) ≡ contents d
  pub close_keeps : (d : V.Disk) (f : V.File) → contents (V.close d f).0 ≡ contents d
  pub flush_keeps : (d : V.Disk) (f : V.File) → contents (V.flush d f).0 ≡ contents d
  -- To open for reading changes no file, and finds the one that has the name.
  pub open_keeps :
      (d : V.Disk) (n : V.Name) → contents (V.open_file_in_dir d n read_only).0 ≡ contents d
  pub open_missing :
      (d : V.Disk) (n : V.Name)
      → (V.open_file_in_dir d n read_only).1 ≡ not_found
      → contents d n ≡ none
  pub open_found :
      (d : V.Disk) (n : V.Name) (f : V.File)
      → (V.open_file_in_dir d n read_only).1 ≡ opened f
      → (b : List ℕ) × (contents d n ≡ some b)
        × (target f ≡ n)
        × (position f ≡ 0)
        × (V.file_length f ≡ length b)
  -- To create a file leaves the others, and gives an empty one.
  pub create_other :
      (d : V.Disk) (n m : V.Name)
      → m ≢ n
      → contents (V.open_file_in_dir d n create_or_truncate).0 m ≡ contents d m
  pub create_empty :
      (d : V.Disk) (n : V.Name) (f : V.File)
      → (V.open_file_in_dir d n create_or_truncate).1 ≡ opened f
      → (contents (V.open_file_in_dir d n create_or_truncate).0 n ≡ some [])
        × (target f ≡ n)
        × (position f ≡ 0)
  -- A read changes no file, gives bytes from the position on, and moves it past them.
  pub read_keeps : (d : V.Disk) (f : V.File) (n : ℕ) → contents (V.read d f n).0 ≡ contents d
  pub read_target : (d : V.Disk) (f : V.File) (n : ℕ) → target (V.read d f n).1 ≡ target f
  pub read_bytes :
      (d : V.Disk) (f : V.File) (n : ℕ) (b xs : List ℕ)
      → contents d (target f) ≡ some b
      → (V.read d f n).2 ≡ some xs
      → (length xs ≤ n)
        × (xs ≡ take (length xs) (drop (position f) b))
        × (position (V.read d f n).1 ≡ position f + length xs)
  -- A write leaves the other files, and appends at the end of its own.
  pub write_other :
      (d : V.Disk) (f : V.File) (xs : List ℕ) (m : V.Name)
      → m ≢ target f
      → contents (V.write d f xs).0 m ≡ contents d m
  pub write_target : (d : V.Disk) (f : V.File) (xs : List ℕ) → target (V.write d f xs).1 ≡ target f
  pub write_append :
      (d : V.Disk) (f : V.File) (b xs : List ℕ)
      → contents d (target f) ≡ some b
      → position f ≡ length b
      → (V.write d f xs).2 ≡ true
      → (contents (V.write d f xs).0 (target f) ≡ some (b ++ xs))
        × (position (V.write d f xs).1 ≡ length (b ++ xs))

-- A loop that has ended.
abbrev pub Ends {ℓ} : {A : Type ℓ} → Option A → Type ℓ
Ends {A = A} o = (a : A) × (o ≡ some a)

module _ (V : Volume) where
  pub with_root-Ends :
      {E A : Type 0} (e1 e2 : E) (body : V.Disk → Option (V.Disk × Reply E A)) (d : V.Disk)
      → ((d' : V.Disk) → Ends (body d'))
      → Ends (with_root V e1 e2 body d)
  with_root-Ends e1 e2 body d h = elim (Bool-cases (V.open_volume d).1) [
    | inr m ↦ rw m (_, refl)
    | inl m ↦ elim (Bool-cases (V.open_root_dir (V.open_volume d).0).1) [
      | inr r ↦ rw (m, r) (_, refl)
      | inl r ↦ let (a, e) = h (V.open_root_dir (V.open_volume d).0).0 in rw (m, r, e) (_, refl)
    ]
  ]

-- Every result satisfies `P`.
abbrev pub Returns {ℓ κ} : {A : Type ℓ} → (A → Type κ) → Option A → Type κ
Returns P none = Unit
Returns P (some a) = P a

-- Every value that is not an error satisfies `P`.
abbrev pub Gives {ℓ κ μ} : {E : Type ℓ} {A : Type κ} → (A → Type μ) → Reply E A → Type μ
Gives P (good a) = P a
Gives P (fault e) = Unit

pub Gives-map {ℓ κ μ} :
    {E : Type ℓ} {A : Type κ} {P Q : A → Type μ}
    → ((a : A) → P a → Q a)
    → (r : Reply E A) → Gives P r
    → Gives Q r
Gives-map f (good a) h = f a h
Gives-map f (fault e) h = tt

pub Returns-map {ℓ κ μ} :
    {A : Type ℓ} {P : A → Type κ} {Q : A → Type μ}
    → ((a : A) → P a → Q a)
    → (o : Option A) → Returns P o
    → Returns Q o
Returns-map f none h = tt
Returns-map f (some a) h = f a h

module _ (V : Volume) (L : VolumeLaws V) where
  -- A property of the files and the result that `body` has and every failure has, `with_root` has.
  pub with_root_lem :
      {E A : Type 0} (R : (V.Name → Option (List ℕ)) → Reply E A → Type 0) (e1 e2 : E)
      (body : V.Disk → Option (V.Disk × Reply E A)) (d : V.Disk)
      → ((e : E) → R (L.contents d) (fault e))
      → ((d' : V.Disk)
          → L.contents d' ≡ L.contents d
          → Returns (λ a. R (L.contents a.0) a.1) (body d'))
      → Returns (λ a. R (L.contents a.0) a.1) (with_root V e1 e2 body d)
  with_root_lem R e1 e2 body d hf hb =
      let k = L.volume_keeps d in
      let k' : L.contents _ ≡ L.contents d = L.root_keeps (V.open_volume d).0 ∙ k in
      elim (Bool-cases (V.open_volume d).1) [
        | inr m ↦ rw (m, k) (hf e1)
        | inl m ↦ elim (Bool-cases (V.open_root_dir (V.open_volume d).0).1) [
          | inr r ↦ rw (m, r, L.drop_volume_keeps, k') (hf e2)
          | inl r ↦ elim (Option-cases (body (V.open_root_dir (V.open_volume d).0).0)) [
            | inl b ↦ rw (m, r, b) tt
            | inr (a, b) ↦
                rw (m, r, b, L.drop_volume_keeps, L.drop_root_keeps)
                  (subst (Returns (λ a. R (L.contents a.0) a.1)) b (hb _ k'))
          ]
        ]
      ]
