-- ===== src/CrystalSeed/Worker/Opened.antt =====
-- From the cursor of the picker to the review: src/crystal_seed.rs over signer-probe/src/terminal.rs
-- and src/sd_psbt.rs.
use savepoint_signer.Prelude.{
  ℕ, zero, suc, ◌<◌, ◌≡◌, refl, ap, ◌∙◌, inl, inr, Option, some, List, [], ◌∷◌, map, get_elem?,
  length, arith,
}
use savepoint_signer.Signer.Bitcoin.{Bitcoin}
use savepoint_signer.Signer.Result.{ok}
use savepoint_signer.Signer.Seed.{SeedSession, Review, max_psbt_bytes}
use savepoint_signer.Signer.Review.{review_psbt}
use savepoint_signer.Signer.Terminal.{
  choosing, reviewing, loading, PsbtFile, Terminal, QrCode, psbt_error,
}
use savepoint_signer.Signer.Terminal.Command.{command, dispatch, decode, files_command, choose_file}
use savepoint_signer.SdPsbt.{Reply, good, fault, Volume, ReadError}
use savepoint_signer.SdPsbt.Volumes.{VolumeLaws}
use savepoint_signer.SdPsbt.Import.Whole.{read_short_exact}
use savepoint_signer.CrystalSeed.Worker.{
  Worker, loaded, serve_loading, serve_state, recover_if_busy, serve,
}
use savepoint_signer.CrystalSeed.Worker.Picker.{load_psbt-reviewing}
use savepoint_signer.CrystalSeed.Worker.Shown.{Agrees, serve_loading-cases}

-- The elements at one index of two lists that agree after a map.
same_element :
    {A B : Type 0} (f : A → List ℕ) (g : B → List ℕ) (xs : List A) (ys : List B) (i : ℕ) (x : A)
    (y : B)
    → map f xs ≡ map g ys
    → get_elem? xs i ≡ some x
    → get_elem? ys i ≡ some y
    → g y ≡ f x
same_element f g [] ys i x y h p q = absurd (cc p)
same_element f g (a ∷ us) [] i x y h p q = absurd (cc q)
same_element f g (a ∷ us) (b ∷ bs) zero x y h p q = cc (h, p, q)
same_element f g (a ∷ us) (b ∷ bs) (suc i) x y h p q = same_element f g us bs i x y (cc h) p q

get_elem?-some :
    {A : Type 0} (xs : List A) (i : ℕ) (x : A) → get_elem? xs i ≡ some x → 0 < length xs
get_elem?-some [] i x h = absurd (cc h)
get_elem?-some (y ∷ ys) i x h = omega arith

module _ (V : Volume) (L : VolumeLaws V) (c : Bitcoin) (word_list : List (List ℕ))
    (encode_qr : List ℕ → Option QrCode) where
  loaded-reviewing :
      (t t' : Terminal) (r : Reply ReadError (List ℕ))
      → t.state ≡ loading
      → loaded V c t r ≡ some t'
      → t'.state ≡ reviewing
      → (bytes : List ℕ) × (s : SeedSession) × (v : Review) × (r ≡ good bytes)
        × (t.seed ≡ some s)
        × (review_psbt c s bytes ≡ ok v)
        × (t'.review ≡ some v)
  unfolding loaded psbt_error
  loaded-reviewing t t' (good bytes) s h k =
      let (seed, v, e, f, g) = load_psbt-reviewing c t t' bytes s h k in
      (bytes, seed, v, refl, e, f, g)
  loaded-reviewing t t' (fault e) s h k = absurd (ground arith)

  open_file :
      (t : Terminal) (f : PsbtFile)
      → t.state ≡ choosing
      → get_elem? t.files t.file_index ≡ some f
      → command c word_list encode_qr t 24 ≡ some (record t { files = []; state = loading })
  unfolding command dispatch decode files_command choose_file
  open_file t f s e =
      let some_file : 0 < length t.files = get_elem?-some t.files t.file_index f e in ground arith

  -- FILE_OPEN in the picker: a review that it leads to is of the whole content of the file on the card
  -- whose alias the picker shows under the cursor, reviewed with the seed of the terminal.
  pub opened_is_shown :
      (w w' : Worker V) (d d' : V.Disk) (f : PsbtFile)
      → w.terminal.state ≡ choosing
      → Agrees V w
      → get_elem? w.terminal.files w.terminal.file_index ≡ some f
      → serve V c word_list encode_qr w d 24 ≡ some (w', d')
      → w'.terminal.state ≡ reviewing
      → (sfn : V.Name) × (bytes : List ℕ) × (s : SeedSession) × (r : Review) × (V.name_text sfn
          ≡ f.alias)
        × (L.contents d sfn ≡ some bytes)
        × (w.terminal.seed ≡ some s)
        × (review_psbt c s bytes ≡ ok r)
        × (w'.terminal.review ≡ some r)
  unfolding serve serve_state recover_if_busy
  opened_is_shown w w' d d' f s a e h k =
      let t = record w.terminal { files = []; state = loading } in
      let opened = open_file w.terminal f s e in
      let h' : serve_loading V c (record w { terminal = t }) d ≡ some (w', d') =
        rw (serve, opened) at h in
      elim (serve_loading-cases V c (record w { terminal = t }) d (w', d') h') [
        | inl n ↦ absurd (cc (ap (λ u. u.state) n, k))
        | inr (sfn, b, p, q, g) ↦
            let (bytes, seed, r, g1, g2, g3, g4) = loaded-reviewing t w'.terminal b.1 refl g k in
            let (whole, kept) = read_short_exact V L d b.0 sfn max_psbt_bytes bytes (q ∙ cc g1) in
            (
              sfn,
              bytes,
              seed,
              r,
              same_element (λ f. f.alias) V.name_text w.terminal.files w.aliases
                  w.terminal.file_index f sfn (a s) e p,
              whole.0,
              g2,
              g3,
              g4,
            )
      ]
