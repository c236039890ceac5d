-- ===== src/CrystalSeed/Worker/Files.antt =====
-- No request of the game makes src/crystal_seed.rs change a file that is on the card.
use mathlib.Core.Path.{subst}
use savepoint_signer.Prelude.{
  ℕ, ◌≡◌, refl, ap, ◌∙◌, Option-cases, inl, inr, Option, none, some, List, get_elem?,
}
use savepoint_signer.SeedLink.{Link, Request, take_request}
use savepoint_signer.Signer.Bitcoin.{Bitcoin}
use savepoint_signer.Signer.Seed.{max_psbt_bytes}
use savepoint_signer.Signer.Terminal.{State, listing, loading, signing, Terminal, QrCode}
use savepoint_signer.Signer.Terminal.Command.{command}
use savepoint_signer.Signer.Terminal.Flow.{finish_signing}
use savepoint_signer.Signer.Terminal.Report.{report}
use savepoint_signer.SdPsbt.{Volume}
use savepoint_signer.SdPsbt.Volumes.{VolumeLaws, Returns, with_root_lem}
use savepoint_signer.SdPsbt.Import.{read_short}
use savepoint_signer.SdPsbt.Import.Whole.{read_short-keeps}
use savepoint_signer.SdPsbt.Export.{write_signed}
use savepoint_signer.SdPsbt.Export.Fresh.{write_signed-IsSaved}
use savepoint_signer.SdPsbt.Listing.{list, list_root}
use savepoint_signer.CrystalSeed.Worker.{
  Worker, Core, loaded, with_aliases, serve_listing, serve_loading, serve_signing, serve_state,
  recover_if_busy, serve, publish, poll,
}

module _ (V : Volume) (L : VolumeLaws V) where
  -- Every file of the one is in the other, with the same content.
  abbrev pub Keeps : V.Disk → V.Disk → Type 0
  Keeps d d' = (m : V.Name) (b : List ℕ) → L.contents d m ≡ some b → L.contents d' m ≡ some b

  abbrev same : {d d' : V.Disk} → L.contents d' ≡ L.contents d → Keeps d d'
  same e m b h = ap (λ files. files m) e ∙ h

  list-keeps : (d : V.Disk) → Returns (λ a. L.contents a.0 ≡ L.contents d) (list V d)
  unfolding list list_root
  list-keeps d =
      with_root_lem V L (λ after r. after ≡ L.contents d) _ _ (list_root V) d (λ e. refl)
        (λ d' h. L.slots_keep d' ∙ h)

  serve_listing-Keeps :
      (t : Terminal) (d : V.Disk) → Returns (λ r. Keeps d r.1) (serve_listing V t d)
  unfolding serve_listing
  serve_listing-Keeps t d = elim (Option-cases (list V d)) [
    | inl e ↦ rw (serve_listing, e) tt
    | inr (r, e) ↦
        rw (serve_listing, e)
          (same (subst (Returns (λ a. L.contents a.0 ≡ L.contents d)) e (list-keeps d)))
  ]

  module _ (c : Bitcoin) where
    with_aliases-Keeps :
        (aliases : List V.Name) (d d' : V.Disk) (t : Option Terminal)
        → Keeps d d'
        → Returns (λ r. Keeps d r.1) (with_aliases V c aliases d' t)
    unfolding with_aliases
    with_aliases-Keeps aliases d d' none h = tt
    with_aliases-Keeps aliases d d' (some t) h = h

    serve_loading-Keeps :
        (w : Worker V) (d : V.Disk) → Returns (λ r. Keeps d r.1) (serve_loading V c w d)
    unfolding serve_loading
    serve_loading-Keeps w d = elim (Option-cases (get_elem? w.aliases w.terminal.file_index)) [
      | inl e ↦ rw (serve_loading, e) (same refl)
      | inr (alias, e) ↦ elim (Option-cases (read_short V d alias max_psbt_bytes)) [
        | inl f ↦ rw (serve_loading, e, f) tt
        | inr (r, f) ↦
            rw (serve_loading, e, f)
              (with_aliases-Keeps w.aliases d r.0 (loaded V c w.terminal r.1)
                (same (read_short-keeps V L d r.0 alias max_psbt_bytes r.1 f)))
      ]
    ]

    serve_signing-Keeps :
        (w : Worker V) (d : V.Disk) → Returns (λ r. Keeps d r.1) (serve_signing V c w d)
    unfolding serve_signing
    serve_signing-Keeps w d = elim (Option-cases (finish_signing c w.terminal)) [
      | inl e ↦ rw (serve_signing, e) tt
      | inr ((t, none), e) ↦ rw (serve_signing, e) (same refl)
      | inr ((t, some bytes), e) ↦ elim (Option-cases (write_signed V d bytes)) [
        | inl f ↦ rw (serve_signing, e, f) tt
        | inr (r, f) ↦ rw (serve_signing, e, f) (write_signed-IsSaved V L d r.0 bytes r.1 f).0
      ]
    ]

    serve_state-Keeps :
        (st : State) (w : Worker V) (d : V.Disk)
        → Returns (λ r. Keeps d r.1) (serve_state V c st w d)
    unfolding serve_state
    serve_state-Keeps listing w d = serve_listing-Keeps w.terminal d
    serve_state-Keeps loading w d = serve_loading-Keeps w d
    serve_state-Keeps signing w d = serve_signing-Keeps w d
    serve_state-Keeps _ w d = same refl

    module _ (word_list : List (List ℕ)) (encode_qr : List ℕ → Option QrCode) where
      serve-Keeps :
          (w : Worker V) (d : V.Disk) (b : ℕ)
          → Returns (λ r. Keeps d r.1) (serve V c word_list encode_qr w d b)
      unfolding serve
      serve-Keeps w d b = elim (Option-cases (command c word_list encode_qr w.terminal b)) [
        | inl e ↦ rw (serve, e) tt
        | inr (t, e) ↦ elim (Option-cases (recover_if_busy V c word_list encode_qr t.state t)) [
          | inl f ↦ rw (serve, e, f) tt
          | inr (t', f) ↦ rw (serve, e, f) (serve_state-Keeps t'.state _ d)
        ]
      ]

      publish-disk :
          (link : Link) (request : Request) (w : Worker V) (d d0 : V.Disk)
          → Keeps d0 d
          → Returns (λ core. Keeps d0 core.disk) (publish V c word_list encode_qr link request w d)
      unfolding publish
      publish-disk link request w d d0 h = elim (Option-cases (report word_list w.terminal)) [
        | inl e ↦ rw (publish, e) tt
        | inr (r, e) ↦ rw (publish, e) h
      ]

      poll_lem :
          (core : Core V)
          → Returns (λ core'. Keeps core.disk core'.disk) (poll V c word_list encode_qr core)
      unfolding poll
      poll_lem core = elim (Option-cases (take_request core.link).1) [
        | inl e ↦ rw (poll, e) (same refl)
        | inr (request, e) ↦
            let served = serve-Keeps core.worker core.disk request.command in
            elim (Option-cases
              (serve V c word_list encode_qr core.worker core.disk request.command)) [
                | inl f ↦ rw (poll, e, f) tt
                | inr (r, f) ↦
                    rw (poll, e, f)
                      (publish-disk (take_request core.link).0 request r.0 r.1 core.disk
                        (subst (Returns (λ r. Keeps core.disk r.1)) f served))
              ]
      ]

      -- Whatever byte the game sends and whatever the card answers, one poll of the worker leaves
      -- every file that is on the card with its content.
      pub poll-Keeps :
          (core core' : Core V)
          → poll V c word_list encode_qr core ≡ some core'
          → Keeps core.disk core'.disk
      poll-Keeps core core' h =
          subst (Returns (λ core'. Keeps core.disk core'.disk)) h (poll_lem core)
