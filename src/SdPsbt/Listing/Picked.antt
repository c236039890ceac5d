-- ===== src/SdPsbt/Listing/Picked.antt =====
-- What `list` of src/sd_psbt.rs returns: at most 32 files of the root directory, in order.
use savepoint_signer.Prelude.{
  ℕ, ◌+◌, ◌≤◌, ◌≡◌, refl, true, false, not, ◌&&◌, Option, none, some, List, [], ◌∷◌, ◌++◌, arith,
  ap, length, All, ltb, leb, map, codes, ◌≢◌, get_elem?, ◌==◌, Bool-cases, Option-cases, inl, inr,
  ◌⊎◌, length-append,
}
use mathlib.Core.Path.{subst}
use savepoint_signer.SdPsbt.{good, Volume, Entry}
use savepoint_signer.SdPsbt.Volumes.{Returns, Gives}
use savepoint_signer.SdPsbt.LongName.{byte, finish}
use savepoint_signer.SdPsbt.Listing.{
  FoundFile, Scan, max_psbt_files, max_directory_slots, starts_with_dot, has_psbt_extension,
  is_skipped, lowercase, text_eq, eq_ignore_ascii_case, after_dot, extension, add_file, visit_entry,
  visit, visit_all, new_scan, list_root, list,
}
use savepoint_signer.SdPsbt.Listing.Order.{IsSorted, sort_by-IsSorted, All-sort_by, length-sort_by}

-- The text is the second one, which is in small letters, with letters of any case.
abbrev pub AnyCase : List ℕ → List ℕ → Type 0
AnyCase [] [] = Unit
AnyCase (c ∷ cs) (e ∷ es) = ((c ≡ e) ⊎ (c + 32 ≡ e)) × AnyCase cs es
AnyCase _ _ = ⊥

-- "psbt" or "psb"
abbrev pub IsPsbtWord : List ℕ → Type 0
IsPsbtWord ext =
    AnyCase ext (0x70 ∷ 0x73 ∷ 0x62 ∷ 0x74 ∷ []) ⊎ AnyCase ext (0x70 ∷ 0x73 ∷ 0x62 ∷ [])

-- The name is the word, or ends in a dot and the word.
abbrev pub HasExtension : List ℕ → Type 0
HasExtension name =
    (ext : List ℕ) × IsPsbtWord ext × ((name ≡ ext) ⊎ ((stem : List ℕ) × (name ≡ stem ++ 46 ∷ ext)))

lowered : (c e : ℕ) → (lowercase c == e) ≡ true → (c ≡ e) ⊎ (c + 32 ≡ e)
lowered c e h = elim (Bool-cases (leb 65 c && leb c 90)) [
  | inl k ↦ inr (ground arith)
  | inr k ↦ inl (ground arith)
]

text_eq-AnyCase : (s t : List ℕ) → text_eq (map lowercase s) t ≡ true → AnyCase s t
unfolding text_eq
text_eq-AnyCase [] [] h = tt
text_eq-AnyCase [] (e ∷ es) h = absurd (cc h)
text_eq-AnyCase (c ∷ cs) [] h = absurd (cc h)
text_eq-AnyCase (c ∷ cs) (e ∷ es) h = elim (Bool-cases (lowercase c == e)) [
  | inr k ↦ absurd (cc (h, k))
  | inl k ↦ (lowered c e k, text_eq-AnyCase cs es (cc (h, k)))
]

after_dot-ok : (s ext : List ℕ) → after_dot s ≡ some ext → (stem : List ℕ) × (s ≡ stem ++ 46 ∷ ext)
unfolding after_dot
after_dot-ok [] ext h = absurd (cc h)
after_dot-ok (c ∷ cs) ext h = elim (Option-cases (after_dot cs)) [
  | inr (e, k) ↦
      let (stem, same) = after_dot-ok cs ext (cc (h, k)) in (c ∷ stem, ap (λ l. c ∷ l) same)
  | inl k ↦ elim (Bool-cases (c == 46)) [
    | inr d ↦ absurd (cc (h, k, d))
    | inl d ↦
        let dot : c ≡ 46 = ground (arith, d) in
        let rest : cs ≡ ext = cc (h, k, d) in ([], cc (dot, rest))
  ]
]

has_psbt_extension-HasExtension : (s : List ℕ) → has_psbt_extension s ≡ true → HasExtension s
unfolding has_psbt_extension extension
has_psbt_extension-HasExtension s h =
    let word : IsPsbtWord (extension s) =
      elim (Bool-cases (eq_ignore_ascii_case (extension s) (codes "psbt"))) [
        | inl k ↦ inl (text_eq-AnyCase (extension s) _ k)
        | inr k ↦ inr (text_eq-AnyCase (extension s) _ (cc (h, k)))
      ] in
    elim (Option-cases (after_dot s)) [
      | inl k ↦ (s, rw (extension, k) at word, inl refl)
      | inr (e, k) ↦ (e, rw (extension, k) at word, inr (after_dot-ok s e k))
    ]

starts_with_dot-ne : (s : List ℕ) → starts_with_dot s ≡ false → get_elem? s 0 ≢ some 46
unfolding starts_with_dot
starts_with_dot-ne [] h k = absurd (cc k)
starts_with_dot-ne (c ∷ cs) h k = ground arith

module _ (V : Volume) where
  -- A file that stands for the entry: not a directory, a volume label, a hidden or a system file, with
  -- a name that does not begin with a dot and that has the extension psbt or psb.
  abbrev pub IsPsbt : Entry V.Name → FoundFile V.Name → Type 0
  IsPsbt e f =
      (f.short_name ≡ e.name)
      × (f.size ≡ e.size)
      × (e.directory ≡ false)
      × (e.volume ≡ false)
      × (e.hidden ≡ false)
      × (e.system ≡ false)
      × (get_elem? f.name 0 ≢ some 46)
      × HasExtension f.name

  -- Some slot has an entry that the file stands for.
  abbrev pub IsPicked : List (List ℕ × Option (Entry V.Name)) → FoundFile V.Name → Type 0
  IsPicked [] f = ⊥
  IsPicked ((raw, none) ∷ rest) f = IsPicked rest f
  IsPicked ((raw, some e) ∷ rest) f = IsPsbt e f ⊎ IsPicked rest f

  module _ (Q : FoundFile V.Name → Type 0) where
    -- The files of a scan: at most 32, all with `Q`.
    abbrev IsBounded : Scan V.Name → Type 0
    IsBounded s = All Q s.files × (length s.files ≤ 32)

    shown-IsPsbt :
        (e : Entry V.Name) (f : FoundFile V.Name)
        → f.short_name ≡ e.name
        → f.size ≡ e.size
        → is_skipped V e ≡ false
        → starts_with_dot f.name ≡ false
        → has_psbt_extension f.name ≡ true
        → IsPsbt e f
    shown-IsPsbt e f named sized k a b = (
      named,
      sized,
      ground arith,
      ground arith,
      ground arith,
      ground arith,
      starts_with_dot-ne f.name a,
      has_psbt_extension-HasExtension f.name b,
    )

    All-snoc :
        (fs : List (FoundFile V.Name)) (f : FoundFile V.Name)
        → All Q fs
        → Q f
        → All Q (fs ++ f ∷ [])
    All-snoc [] f h q = (q, tt)
    All-snoc (g ∷ gs) f (p, h) q = (p, All-snoc gs f h q)

    add_file-IsBounded :
        (s : Scan V.Name) (e : Entry V.Name) (display : List ℕ)
        → is_skipped V e ≡ false
        → ((f : FoundFile V.Name) → IsPsbt e f → Q f)
        → IsBounded s
        → IsBounded (add_file V s e display).0
    unfolding add_file
    add_file-IsBounded s e display k hq (all, len) = elim (Bool-cases (starts_with_dot display)) [
      | inl a ↦ rw a (all, len)
      | inr a ↦ elim (Bool-cases (has_psbt_extension display)) [
        | inr b ↦ rw (a, b) (all, len)
        | inl b ↦ elim (Bool-cases (length s.files == max_psbt_files)) [
          | inl c ↦ rw (a, b, c) (all, len)
          | inr c ↦
              let f : FoundFile V.Name = record {
                name = display;
                short_name = e.name;
                size = e.size;
              } in
              rw (a, b, c)
                (
                  All-snoc s.files f all (hq f (shown-IsPsbt e f refl refl k a b)),
                  ground (arith, length-append s.files (f ∷ [])),
                )
        ]
      ]
    ]

    visit_entry-IsBounded :
        (s : Scan V.Name) (long : Option (List ℕ)) (entry : Option (Entry V.Name))
        → ((e : Entry V.Name) (f : FoundFile V.Name) → entry ≡ some e → IsPsbt e f → Q f)
        → IsBounded s
        → IsBounded (visit_entry V s long entry).0
    unfolding visit_entry
    visit_entry-IsBounded s long none hq b = b
    visit_entry-IsBounded s long (some e) hq b = elim (Bool-cases (is_skipped V e)) [
      | inl k ↦ rw k b
      | inr k ↦ rw k (
          add_file-IsBounded s e (elim long [ none ↦ V.name_text e.name | some name ↦ name ]) k
            (λ f. hq e f refl) b)
    ]

    visit-IsBounded :
        (s : Scan V.Name) (raw : List ℕ) (entry : Option (Entry V.Name))
        → ((e : Entry V.Name) (f : FoundFile V.Name) → entry ≡ some e → IsPsbt e f → Q f)
        → IsBounded s
        → IsBounded (visit V s raw entry).0
    unfolding visit
    visit-IsBounded s raw entry hq b = elim (Bool-cases (ltb max_directory_slots (s.slots + 1))) [
      | inl k ↦ rw k b
      | inr k ↦ elim (Bool-cases (byte raw 0 == 0xe5)) [
        | inl u ↦ rw (k, u) b
        | inr u ↦ elim (Bool-cases (byte raw 11 == 0x0f)) [
          | inl w ↦ rw (k, u, w) b
          | inr w ↦ rw (k, u, w) (visit_entry-IsBounded _ (finish s.name raw).1 entry hq b)
        ]
      ]
    ]

    slot_hyp :
        (raw : List ℕ) (entry : Option (Entry V.Name))
        (rest : List (List ℕ × Option (Entry V.Name)))
        → ((f : FoundFile V.Name) → IsPicked ((raw, entry) ∷ rest) f → Q f)
        → ((e : Entry V.Name) (f : FoundFile V.Name) → entry ≡ some e → IsPsbt e f → Q f)
          × ((f : FoundFile V.Name) → IsPicked rest f → Q f)
    slot_hyp raw none rest h = ((λ e f k p. absurd (cc k)), h)
    slot_hyp raw (some e0) rest h =
        (λ e f k p. let same : e0 ≡ e = cc k in h f (inl (rw same p)), λ f p. h f (inr p))

    visit_all-IsBounded :
        (slots : List (List ℕ × Option (Entry V.Name))) (s : Scan V.Name)
        → ((f : FoundFile V.Name) → IsPicked slots f → Q f)
        → IsBounded s
        → IsBounded (visit_all V slots s).0
    unfolding visit_all
    visit_all-IsBounded [] s hq b = b
    visit_all-IsBounded ((raw, entry) ∷ rest) s hq b =
        let (first, later) = slot_hyp raw entry rest hq in
        let b' = visit-IsBounded s raw entry first b in
        elim (Bool-cases (visit V s raw entry).1) [
          | inl m ↦ rw m (visit_all-IsBounded rest _ later b')
          | inr m ↦ rw m b'
        ]

  -- What `list` promises of its files, told by the slots of the root directory.
  abbrev pub IsListing : List (List ℕ × Option (Entry V.Name)) → List (FoundFile V.Name) → Type 0
  IsListing slots files = All (IsPicked slots) files × (length files ≤ 32) × IsSorted files

  list_root-IsListing :
      (d : V.Disk) → Returns (λ a. Gives (IsListing (V.root_slots d).1) a.1) (list_root V d)
  unfolding list_root
  list_root-IsListing d =
      let scanned = visit_all V (V.root_slots d).1 (new_scan V) in
      let (all, len) =
        visit_all-IsBounded (IsPicked (V.root_slots d).1) (V.root_slots d).1 (new_scan V) (λ f p. p)
          (tt, omega arith) in
      elim (Bool-cases (scanned.1 && not (V.root_slots d).2)) [
        | inl k ↦ rw k tt
        | inr k ↦ elim (Bool-cases scanned.0.overflow) [
          | inl o ↦ rw (k, o) tt
          | inr o ↦
              rw (k, o)
                (
                  All-sort_by (IsPicked (V.root_slots d).1) scanned.0.files all,
                  rw length-sort_by len,
                  sort_by-IsSorted scanned.0.files,
                )
        ]
      ]

  -- The slots that `list` visits.
  abbrev pub slots_of : V.Disk → List (List ℕ × Option (Entry V.Name))
  slots_of d = (V.root_slots (V.open_root_dir (V.open_volume d).0).0).1

  -- A list that `list` returns has at most 32 files, in the order of their names; each stands for an
  -- entry of the root directory that is no directory, volume label, hidden or system file, and has a
  -- display name that does not begin with a dot and, in any case, is psbt or psb or ends in a dot and
  -- one of them.
  pub list-IsListing :
      (d d' : V.Disk) (files : List (FoundFile V.Name))
      → list V d ≡ some (d', good files)
      → IsListing (slots_of d) files
  unfolding list
  list-IsListing d d' files h = elim (Bool-cases (V.open_volume d).1) [
    | inr m ↦ absurd (cc (h, m))
    | inl m ↦ elim (Bool-cases (V.open_root_dir (V.open_volume d).0).1) [
      | inr r ↦ absurd (cc (h, m, r))
      | inl r ↦
          let d2 = (V.open_root_dir (V.open_volume d).0).0 in
          elim (Option-cases (list_root V d2)) [
            | inl n ↦ absurd (cc n)
            | inr (a, n) ↦
                let found : a.1 ≡ good files = cc (h, m, r, n) in
                subst (Gives (IsListing (slots_of d))) found (
                  subst (Returns (λ a. Gives (IsListing (slots_of d)) a.1)) n
                    (list_root-IsListing d2))
          ]
    ]
  ]
