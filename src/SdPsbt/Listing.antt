-- ===== src/SdPsbt/Listing.antt =====
-- `list` of src/sd_psbt.rs: the closure that visits the slots of the root directory, and the list.
use savepoint_signer.Prelude.{
  ℕ, ◌+◌, ◌%◌, ◌≤◌, Bool, true, false, not, ◌&&◌, ◌||◌, Option, none, some, List, [], ◌∷◌, ◌++◌,
  map, ltb, leb, ◌==◌, length, codes, if◌then◌else◌,
}
use savepoint_signer.SdPsbt.{Reply, good, fault, Volume, Entry, ReadError, with_root}
use savepoint_signer.SdPsbt.ReadError.{listing_limit, volume, directory}
pub mod Order
pub mod Picked
use savepoint_signer.SdPsbt.LongName.{LongName, new, reset, slot, finish, byte}

abbrev pub max_psbt_files : ℕ
max_psbt_files = 32

abbrev pub max_directory_slots : ℕ
max_directory_slots = 4096

-- `sd_psbt::PsbtFile`, with the characters of the name.
pub record FoundFile (Name : Type 0) : Type 0 where
  pub name : List ℕ
  pub short_name : Name
  pub size : ℕ

-- What the closure captures.
pub record Scan (Name : Type 0) : Type 0 where
  pub files : List (FoundFile Name)
  pub name : LongName
  pub slots : ℕ
  pub overflow : Bool

-- `rsplit('.').next()`: what follows the last dot, or the whole text.
unfoldable pub after_dot : List ℕ → Option (List ℕ)
after_dot [] = none
after_dot (c ∷ cs) = elim (after_dot cs) [
  | some e ↦ some e
  | none ↦ if c == 46 then some cs else none
]

unfoldable pub extension : List ℕ → List ℕ
unfolding after_dot
extension s = elim (after_dot s) [ none ↦ s | some e ↦ e ]

abbrev pub lowercase : ℕ → ℕ
lowercase c = if leb 65 c && leb c 90 then c + 32 else c

unfoldable pub text_eq : List ℕ → List ℕ → Bool
text_eq [] [] = true
text_eq (c ∷ cs) (e ∷ es) = (c == e) && text_eq cs es
text_eq _ _ = false

abbrev pub eq_ignore_ascii_case : List ℕ → List ℕ → Bool
eq_ignore_ascii_case s t = text_eq (map lowercase s) (map lowercase t)

unfoldable pub starts_with_dot : List ℕ → Bool
starts_with_dot [] = false
starts_with_dot (c ∷ cs) = c == 46

unfoldable pub has_psbt_extension : List ℕ → Bool
unfolding extension text_eq
has_psbt_extension s =
    let ext = extension s in
    eq_ignore_ascii_case ext (codes "psbt") || eq_ignore_ascii_case ext (codes "psb")

-- `a <= b` of the order of strings
unfoldable pub text_le : List ℕ → List ℕ → Bool
text_le [] t = true
text_le (c ∷ cs) [] = false
text_le (c ∷ cs) (e ∷ es) = ltb c e || ((c == e) && text_le cs es)

-- `sort_by` is stable: an element goes before the later ones that are not smaller.
unfoldable pub insert : {N : Type 0} → FoundFile N → List (FoundFile N) → List (FoundFile N)
insert f [] = f ∷ []
insert f (g ∷ gs) = let rest = insert f gs in if text_le f.name g.name then f ∷ g ∷ gs else g ∷ rest

unfoldable pub sort_by : {N : Type 0} → List (FoundFile N) → List (FoundFile N)
unfolding insert
sort_by [] = []
sort_by (f ∷ fs) = insert f (sort_by fs)

module _ (V : Volume) where
  abbrev pub is_skipped : Entry V.Name → Bool
  is_skipped e = e.directory || (e.volume || (e.hidden || e.system))

  -- The last part of the closure, for an entry with its display name.
  unfoldable pub add_file : Scan V.Name → Entry V.Name → List ℕ → Scan V.Name × Bool
  unfolding starts_with_dot has_psbt_extension
  add_file s e display =
      if starts_with_dot display || not (has_psbt_extension display)
      then (s, true)
      else if length s.files == max_psbt_files
      then (record s { overflow = true }, false)
      else (
        record s {
          files = s.files ++ record { name = display; short_name = e.name; size = e.size } ∷ [];
        },
        true,
      )

  -- The display name is the long name, or else the alias.
  unfoldable pub visit_entry :
      Scan V.Name → Option (List ℕ) → Option (Entry V.Name) → Scan V.Name × Bool
  unfolding add_file
  visit_entry s long none = (s, true)
  visit_entry s long (some e) =
      if is_skipped e
      then (s, true)
      else add_file s e (elim long [ none ↦ V.name_text e.name | some name ↦ name ])

  -- The closure: the state it leaves, and whether the iteration goes on.
  unfoldable pub visit : Scan V.Name → List ℕ → Option (Entry V.Name) → Scan V.Name × Bool
  unfolding visit_entry
  visit s raw entry =
      let s' = record s { slots = s.slots + 1 } in
      if ltb max_directory_slots s'.slots
      then (record s' { overflow = true }, false)
      else if byte raw 0 == 0xe5
      then (record s' { name = reset s.name }, true)
      else if byte raw 11 == 0x0f
      then (record s' { name = slot s.name raw }, true)
      else (let (name, long) = finish s.name raw in
          visit_entry (record s' { name = name }) long entry)

  -- `iterate_dir_raw`: true if every slot was visited.
  unfoldable pub visit_all :
      List (List ℕ × Option (Entry V.Name)) → Scan V.Name → Scan V.Name × Bool
  unfolding visit
  visit_all [] s = (s, true)
  visit_all ((raw, entry) ∷ rest) s =
      let (s', more) = visit s raw entry in
      let done = visit_all rest s' in if more then done else (s', false)

  abbrev pub new_scan : Scan V.Name
  new_scan = record { files = []; name = new; slots = 0; overflow = false }

  unfoldable pub list_root : V.Disk → Option (V.Disk × Reply ReadError (List (FoundFile V.Name)))
  unfolding visit_all sort_by
  list_root d =
      let (d', slots, readable) = V.root_slots d in
      let (s, complete) = visit_all slots new_scan in
      some (
        d',
        if complete && not readable
            then fault directory
            else if s.overflow
            then fault listing_limit
            else good (sort_by s.files),
      )

  unfoldable pub list : V.Disk → Option (V.Disk × Reply ReadError (List (FoundFile V.Name)))
  unfolding list_root
  list d = with_root V volume directory list_root d
