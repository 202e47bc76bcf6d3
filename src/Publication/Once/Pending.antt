-- ===== src/Publication/Once/Pending.antt =====
-- reservePublish, step by step: the row that is loaded or made, its way to `pending`, the attempt.
use radar_ia.Prelude.{
  ◌≡◌, ◌≢◌, refl, sym, ◌∙◌, String, true, false, Option, none, some, arith, str_eq, eq_iff, eq_refl,
  Bool-cases, inl, inr, if◌then◌else◌,
}
use radar_ia.Publication.Types.{pending, FolderPublication, same_status, is_allowed}
use radar_ia.Publication.Exec.{pure, ◌>>◌}
use radar_ia.Publication.Hoare.{Spec, spec-bind, spec-pure, spec-weaken, spec-if}
use radar_ia.Publication.World.{World, find_publication, put_publication}
use radar_ia.Publication.Tables.{find_publication-put, find_publication-folder_id}
use radar_ia.Publication.Repository.{save_publication, assert_transition}
use radar_ia.Publication.Repository.Reserve.{
  new_publication, or_create, ReservePublishInput, to_pending,
}
use radar_ia.Publication.Once.Invariant.{Fits, Inv, sent, has_main_status, is_pending}
use radar_ia.Publication.Once.Moves.{Fits-publication}
use radar_ia.Publication.Once.Repository.{Loaded, assert_transition-Spec}
use radar_ia.Publication.Once.Results.{spec-fact}
use radar_ia.Publication.Once.Close.{Fits-free}
use radar_ia.Publication.Once.ReservePublish.{Fresh}

module _ (f g guild : String) where
  new_row-Fits :
      (w : World)
      → find_publication g w.publications ≡ none
      → Inv f w
      → Loaded f g
          (some (new_publication g guild))
          (record w { publications = put_publication (new_publication g guild) w.publications })
  new_row-Fits w e v = (
    rw (find_publication-put f (new_publication g guild) w.publications)
        (elim (Bool-cases (str_eq g f)) [
          | inl here ↦
              let loaded : find_publication f w.publications ≡ none =
                rw ((eq_iff g f).0 here) at e in
              rw here (
                Fits-publication f none (some (new_publication g guild)) w.attempts w.next_id _ refl
                  (λ m. cc) refl (rw loaded at v))
          | inr elsewhere ↦ rw elsewhere v
        ]),
    rw (find_publication-put g (new_publication g guild) w.publications) (rw (eq_refl g) refl),
  )

  pub or_create-Spec :
      (o : Option FolderPublication)
      → Spec (Loaded f g o) (or_create g guild o) (λ p. Loaded f g (some p)) (Inv f)
  unfolding save_publication
  or_create-Spec none = record { at = λ w h. new_row-Fits w h.1 h.0 }
  or_create-Spec (some p) = spec-pure p (λ w h. h)

unsettled :
    (p : FolderPublication) → is_allowed p.status pending ≡ true → has_main_status (some p) ≢ true
unsettled p allowed s = ground arith

astray : {f g h : String} → g ≡ f → h ≡ g → str_eq h f ≢ false
astray {f} {g} {h} gf own e = ground (arith, eq_iff h f)

module _ (f g : String) (input : ReservePublishInput) (p : FolderPublication) where
  to_pending-Fits :
      (w : World)
      → is_allowed p.status pending ≡ true
      → Loaded f g (some p) w
      → Fresh f g w
      → Fits f
          (find_publication f (put_publication (to_pending input p) w.publications))
          w.attempts
          w.next_id
          (sent f w.calls)
        × (g ≡ f
            → is_pending (find_publication f (put_publication (to_pending input p) w.publications))
              ≡ true)
  to_pending-Fits w allowed h fresh =
      let own = find_publication-folder_id g w.publications p h.1 in
      rw (find_publication-put f (to_pending input p) w.publications)
        (elim (Bool-cases (str_eq p.folder_id f)) [
          | inl here ↦
              let gf : g ≡ f = sym own ∙ (eq_iff p.folder_id f).0 here in
              let loaded : find_publication f w.publications ≡ some p = rw gf at h.1 in
              let v : Fits f (some p) w.attempts w.next_id (sent f w.calls) = rw loaded at h.0 in
              rw here (
                Fits-free f (some p) (some (to_pending input p)) w.attempts w.next_id _ (fresh gf)
                    refl (λ m. absurd (unsettled p allowed (v.settled m))) v,
                λ _. refl,
              )
          | inr elsewhere ↦ rw elsewhere (h.0, λ gf. absurd (astray gf own elsewhere))
        ])

  abbrev pub Pends : World → Type 0
  Pends w = Inv f w × Fresh f g w × (g ≡ f → is_pending (find_publication f w.publications) ≡ true)

  save_pending-Spec :
      is_allowed p.status pending ≡ true
      → Spec
          (λ w. Loaded f g (some p) w × Fresh f g w)
          (save_publication (to_pending input p))
          (λ _. Pends)
          (Inv f)
  unfolding save_publication
  save_pending-Spec allowed = record {
    at = λ w h. let r = to_pending-Fits w allowed h.0 h.1 in (r.0, h.1, r.1);
  }

  already-Pends :
      (w : World)
      → same_status p.status pending ≡ true
      → Loaded f g (some p) w × Fresh f g w
      → Pends w
  already-Pends w e h = (
    h.0.0,
    h.1,
    λ gf. let loaded : find_publication f w.publications ≡ some p = rw gf at h.0.1 in rw loaded e,
  )

  pub move-Spec :
      Spec
        (λ w. Loaded f g (some p) w × Fresh f g w)
        (if same_status p.status pending
          then pure p
          else do assert_transition p.status pending; save_publication (to_pending input p))
        (λ _. Pends)
        (Inv f)
  move-Spec =
      spec-if (same_status p.status pending) _ _ (λ e. spec-pure p (λ w h. already-Pends w e h))
        (λ _.
          spec-bind (assert_transition p.status pending) _
            (spec-weaken _
              (assert_transition-Spec (λ w. Loaded f g (some p) w × Fresh f g w) p.status pending)
              (λ w h. h) (λ _ w h. h) (λ w h. h.0.0))
            λ _. spec-fact λ allowed. save_pending-Spec allowed)
