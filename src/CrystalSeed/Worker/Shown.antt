-- ===== src/CrystalSeed/Worker/Shown.antt =====
-- The file that src/crystal_seed.rs opens is the one that the picker shows.
use mathlib.Core.Path.{subst}
use savepoint_signer.Prelude.{
  ℕ, ◌≡◌, ◌≢◌, refl, ap, ◌∙◌, ◌⊎◌, inl, inr, Option, none, some, List, [], ◌∷◌, map, get_elem?,
  arith, Option-cases,
}
use savepoint_signer.Signer.Bitcoin.{Bitcoin}
use savepoint_signer.Signer.Seed.{max_psbt_bytes}
use savepoint_signer.Signer.Terminal.{
  State, busy, choosing, listing, loading, signing, PsbtFile, Terminal, QrCode, psbt_error,
}
use savepoint_signer.Signer.Terminal.Command.{command, decode}
use savepoint_signer.Signer.Terminal.Flow.{set_files, finish_signing, psbt_saved}
use savepoint_signer.SdPsbt.{Reply, good, fault, Volume, ReadError, WriteError}
use savepoint_signer.SdPsbt.Import.{read_short}
use savepoint_signer.SdPsbt.Export.{write_signed}
use savepoint_signer.SdPsbt.Listing.{FoundFile, list}
use savepoint_signer.CrystalSeed.Worker.{
  Worker, psbt_file, scanned, loaded, with_aliases, stored, serve_listing, serve_loading,
  serve_signing, serve_state, recover_if_busy, serve,
}
use savepoint_signer.CrystalSeed.Worker.Picker.{
  Stays, dispatch-Stays, finish_recovery-state, load_psbt-state, finish_signing-state,
}

module _ (V : Volume) where
  -- In the picker, the aliases that the terminal shows are the texts of the worker's, in order.
  abbrev pub Agrees : Worker V → Type 0
  Agrees w =
      w.terminal.state ≡ choosing → map (λ f. f.alias) w.terminal.files ≡ map V.name_text w.aliases

  map-psbt_file :
      (files : List (FoundFile V.Name))
      → map (λ f. f.alias) (map (psbt_file V) files)
        ≡ map V.name_text (map (λ f. f.short_name) files)
  map-psbt_file [] = refl
  map-psbt_file (f ∷ fs) = ap (λ l. V.name_text f.short_name ∷ l) (map-psbt_file fs)

  set_files-choosing :
      (t : Terminal) (files : List PsbtFile)
      → t.state ≡ listing
      → (set_files t files).state ≡ choosing
      → (set_files t files).files ≡ files
  unfolding set_files psbt_error
  set_files-choosing t files s h = ground arith

  scanned-Agrees :
      (t : Terminal) (r : Reply ReadError (List (FoundFile V.Name)))
      → t.state ≡ listing
      → Agrees (scanned V t r)
  unfolding scanned psbt_error
  scanned-Agrees t (good files) s h =
      ap (map (λ f. f.alias)) (set_files-choosing t (map (psbt_file V) files) s h)
      ∙ map-psbt_file files
  scanned-Agrees t (fault e) s h = absurd (cc h)

  module _ (c : Bitcoin) where
    serve_listing-Agrees :
        (t : Terminal) (d : V.Disk) (r : Worker V × V.Disk)
        → t.state ≡ listing
        → serve_listing V t d ≡ some r
        → Agrees r.0
    unfolding serve_listing
    serve_listing-Agrees t d r s h = elim (Option-cases (list V d)) [
      | inl e ↦ absurd (cc (h, e))
      | inr (a, e) ↦
          let k : scanned V t a.1 ≡ r.0 = cc (h, e) in subst Agrees k (scanned-Agrees t a.1 s)
    ]

    -- Either the alias is missing, or the file was read and its outcome loaded.
    pub serve_loading-cases :
        (w : Worker V) (d : V.Disk) (r : Worker V × V.Disk)
        → serve_loading V c w d ≡ some r
        → (r.0.terminal ≡ psbt_error w.terminal "Rescan SD")
          ⊎ ((alias : V.Name) × (a : V.Disk × Reply ReadError (List ℕ)) × (get_elem? w.aliases
                  w.terminal.file_index
                ≡ some alias)
              × (read_short V d alias max_psbt_bytes ≡ some a)
              × (loaded V c w.terminal a.1 ≡ some r.0.terminal))
    unfolding serve_loading with_aliases
    serve_loading-cases w d r h = elim (Option-cases (get_elem? w.aliases w.terminal.file_index)) [
      | inl e ↦ inl (cc (h, e))
      | inr (alias, e) ↦ elim (Option-cases (read_short V d alias max_psbt_bytes)) [
        | inl f ↦ absurd (cc (h, e, f))
        | inr (a, f) ↦ elim (Option-cases (loaded V c w.terminal a.1)) [
          | inl g ↦ absurd (cc (h, e, f, g))
          | inr (t, g) ↦ inr (alias, a, e, f, cc (h, e, f, g))
        ]
      ]
    ]

    loaded-state :
        (t t' : Terminal) (r : Reply ReadError (List ℕ))
        → t.state ≡ loading
        → loaded V c t r ≡ some t'
        → t'.state ≢ choosing
    unfolding loaded psbt_error
    loaded-state t t' (good bytes) s h = load_psbt-state c t t' bytes s h
    loaded-state t t' (fault e) s h = ground arith

    -- The load and the save never come to the picker.
    serve_loading-state :
        (w : Worker V) (d : V.Disk) (r : Worker V × V.Disk)
        → w.terminal.state ≡ loading
        → serve_loading V c w d ≡ some r
        → r.0.terminal.state ≢ choosing
    unfolding psbt_error
    serve_loading-state w d r s h = elim (serve_loading-cases w d r h) [
      | inl e ↦ λ k. absurd (cc (e, k))
      | inr (alias, a, e, f, g) ↦ loaded-state w.terminal r.0.terminal a.1 s g
    ]

    stored-state :
        (t : Terminal) (r : Reply WriteError (List ℕ))
        → t.state ≢ choosing
        → (stored V c t r).state ≢ choosing
    unfolding stored psbt_saved psbt_error
    stored-state t (good name) s = ground arith
    stored-state t (fault e) s = ground arith

    serve_signing-state :
        (w : Worker V) (d : V.Disk) (r : Worker V × V.Disk)
        → w.terminal.state ≡ signing
        → serve_signing V c w d ≡ some r
        → r.0.terminal.state ≢ choosing
    unfolding serve_signing
    serve_signing-state w d r s h = elim (Option-cases (finish_signing c w.terminal)) [
      | inl e ↦ absurd (cc (h, e))
      | inr ((t, none), e) ↦
          let k : t ≡ r.0.terminal = cc (h, e) in
          subst (λ u. u.state ≢ choosing) k (finish_signing-state c w.terminal t none s e)
      | inr ((t, some bytes), e) ↦ elim (Option-cases (write_signed V d bytes)) [
        | inl f ↦ absurd (cc (h, e, f))
        | inr (a, f) ↦
            let k : stored V c t a.1 ≡ r.0.terminal = cc (h, e, f) in
            subst (λ u. u.state ≢ choosing) k
              (stored-state t a.1 (finish_signing-state c w.terminal t (some bytes) s e))
      ]
    ]

    serve_state-Agrees :
        (st : State) (w : Worker V) (d : V.Disk) (r : Worker V × V.Disk)
        → w.terminal.state ≡ st
        → Agrees w
        → serve_state V c st w d ≡ some r
        → Agrees r.0
    unfolding serve_state
    serve_state-Agrees listing w d r s a h = serve_listing-Agrees w.terminal d r s h
    serve_state-Agrees loading w d r s a h = λ k. absurd (serve_loading-state w d r s h k)
    serve_state-Agrees signing w d r s a h = λ k. absurd (serve_signing-state w d r s h k)
    serve_state-Agrees _ w d r s a h = let k : w ≡ r.0 = cc h in subst Agrees k a

    module _ (word_list : List (List ℕ)) (encode_qr : List ℕ → Option QrCode) where
      recover_if_busy-Stays :
          (st : State) (t t' : Terminal)
          → t.state ≡ st
          → recover_if_busy V c word_list encode_qr st t ≡ some t'
          → Stays t t'
      unfolding recover_if_busy
      recover_if_busy-Stays busy t t' s h =
          λ k. absurd (finish_recovery-state c word_list t t' s h k)
      recover_if_busy-Stays _ t t' s h = ground arith

      -- The aliases that the picker shows are, in order, those by which the worker opens files: every
      -- request that is served keeps this.
      pub serve-Agrees :
          (w w' : Worker V) (d d' : V.Disk) (b : ℕ)
          → Agrees w
          → serve V c word_list encode_qr w d b ≡ some (w', d')
          → Agrees w'
      unfolding serve command
      serve-Agrees w w' d d' b a h =
          elim (Option-cases (command c word_list encode_qr w.terminal b)) [
            | inl e ↦ absurd (cc (h, e))
            | inr (t, e) ↦ elim (Option-cases (recover_if_busy V c word_list encode_qr t.state t)) [
              | inl f ↦ absurd (cc (h, e, f))
              | inr (t', f) ↦
                  let first =
                    dispatch-Stays c word_list encode_qr (decode b) w.terminal.state w.terminal t
                      refl e in
                  let then = recover_if_busy-Stays t.state t t' refl f in
                  serve_state-Agrees t'.state (record w { terminal = t' }) d (w', d') refl
                    (λ k.
                      let (k1, e1) = then k in
                      let (k2, e2) = first k1 in ap (map (λ f. f.alias)) (e1 ∙ e2) ∙ a k2)
                    (cc (h, e, f))
            ]
          ]
