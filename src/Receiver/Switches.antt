-- ===== src/Receiver/Switches.antt =====
-- What a switch of one down track does to the others.
use sample_nodejs_server.Prelude.{
  ℕ, ◌≡◌, ◌≢◌, refl, sym, ap, ◌∙◌, Bool, true, false, ◌&&◌, List, [], ◌∷◌, ◌++◌, Option, some,
  arith, if_elim, ne→==, eq→==,
}
use sample_nodejs_server.Prelude.Strings.{same_text}
use sample_nodejs_server.DownTrack.Layers.{switch_spatial_layer_done}
use sample_nodejs_server.Receiver.Tracks.{
  WebRtcReceiver, put, then_do, append_track, remove_tracks, store_down_track, having,
  delete_down_track, done_at, move_pending, move_all, settle, take_pending,
}

-- All of them have the id.
abbrev pub AllHave : (ℕ → List ℕ) → List ℕ → List ℕ → Type 0
AllHave ids id [] = Unit
AllHave ids id (dt ∷ dts) = (same_text (ids dt) id ≡ true) × AllHave ids id dts

having_all :
    (ids : ℕ → List ℕ) (id dts : List ℕ)
    → AllHave ids id dts
    → (having ids id true dts ≡ dts) × (having ids id false dts ≡ [])
unfolding having
having_all ids id [] a = (refl, refl)
having_all ids id (dt ∷ dts) a =
    let (x, y) = having_all ids id dts a.1 in (rw (a.0) (ap (λ l. dt ∷ l) x), rw (a.0) y)

-- The receiver after the switch of one down track out of a layer whose tracks all have its id.
abbrev pub emptied : WebRtcReceiver → ℕ → ℕ → ℕ → List ℕ → List ℕ → WebRtcReceiver
emptied w dt old layer dts new_dts = record w {
  down_tracks = put (put w.down_tracks old (some [])) layer (some (new_dts ++ (dt ∷ [])));
  gone = w.gone ++ dts;
}

deleted :
    (w : WebRtcReceiver) (old : ℕ) (id dts : List ℕ)
    → w.down_tracks old ≡ some dts
    → AllHave w.ids id dts
    → delete_down_track w old id
      ≡ some (record w { down_tracks = put w.down_tracks old (some []); gone = w.gone ++ dts })
unfolding delete_down_track
deleted w old id dts has all =
    let (x, y) = having_all w.ids id dts all in
    ap (remove_tracks w old id) has
    ∙ ap
        (λ (l : List ℕ). some (record w {
          down_tracks = put w.down_tracks old (some l);
          gone = w.gone ++ having w.ids id true dts;
        }))
        y
    ∙ ap
        (λ (l : List ℕ).
          some (record w { down_tracks = put w.down_tracks old (some []); gone = w.gone ++ l }))
        x

stored :
    (w : WebRtcReceiver) (old layer dt : ℕ) (dts new_dts : List ℕ)
    → old ≢ layer
    → w.down_tracks layer ≡ some new_dts
    → store_down_track
        (record w { down_tracks = put w.down_tracks old (some []); gone = w.gone ++ dts })
        layer
        dt
      ≡ some (emptied w dt old layer dts new_dts)
unfolding store_down_track
stored w old layer dt dts new_dts other has =
    let there : put w.down_tracks old (some []) layer ≡ some new_dts =
      rw (ne→== layer old (λ e. other (sym e))) has in
    ap
      (append_track
        (record w { down_tracks = put w.down_tracks old (some []); gone = w.gone ++ dts }) layer dt)
      there

moved :
    (w : WebRtcReceiver) (dt layer : ℕ) (dts new_dts : List ℕ)
    → (w.tracks dt).current_spatial_layer ≢ layer
    → w.down_tracks (w.tracks dt).current_spatial_layer ≡ some dts
    → AllHave w.ids (w.ids dt) dts
    → w.down_tracks layer ≡ some new_dts
    → move_pending w layer dt
      ≡ done_at layer dt (emptied w dt (w.tracks dt).current_spatial_layer layer dts new_dts)
unfolding move_pending
moved w dt layer dts new_dts other has all new_has =
    let old = (w.tracks dt).current_spatial_layer in
    ap (λ o. then_do (then_do o (λ v. store_down_track v layer dt)) (done_at layer dt))
      (deleted w old (w.ids dt) dts has all)
    ∙ ap (λ o. then_do o (done_at layer dt)) (stored w old layer dt dts new_dts other new_has)

-- The whole state after the switch.
abbrev pub switched : WebRtcReceiver → ℕ → ℕ → List ℕ → List ℕ → WebRtcReceiver
switched w dt layer dts new_dts =
    let e = emptied w dt (w.tracks dt).current_spatial_layer layer dts new_dts in
    record e {
      tracks = put w.tracks dt (switch_spatial_layer_done (w.tracks dt) layer);
      pending_tracks = put w.pending_tracks layer [];
      pending = put w.pending layer false;
    }

taken :
    (w : WebRtcReceiver) (dt layer : ℕ) (dts new_dts : List ℕ)
    → w.is_simulcast ≡ true
    → w.pending layer ≡ true
    → w.pending_tracks layer ≡ dt ∷ []
    → (w.tracks dt).current_spatial_layer ≢ layer
    → w.down_tracks (w.tracks dt).current_spatial_layer ≡ some dts
    → AllHave w.ids (w.ids dt) dts
    → w.down_tracks layer ≡ some new_dts
    → take_pending w layer true ≡ (some (switched w dt layer dts new_dts), false)
unfolding take_pending move_all
taken w dt layer dts new_dts many waits one other has all new_has =
    if_elim
      (λ (r : Option WebRtcReceiver × Bool). r ≡ (some (switched w dt layer dts new_dts), false))
      (w.is_simulcast && w.pending layer)
      (λ _.
        ap (λ l. (then_do (move_all (some w) layer l) (settle layer), false)) one
        ∙ ap (λ o. (then_do o (settle layer), false))
            (moved w dt layer dts new_dts other has all new_has))
      (λ off. absurd (clash many waits off))
  where
    clash : {a b : Bool} → a ≡ true → b ≡ true → ¬ ((a && b) ≡ false)
    clash f g h = ground arith

-- On a key frame of the layer for which one down track of a simulcast receiver waits, the receiver
-- takes it in, but where the down tracks of its old layer have its id, as all down tracks of one
-- receiver do, each of them is closed, the one that has switched too if it was there, and the old
-- layer is left without any.
pub switch_closes_others :
    (w : WebRtcReceiver) (dt layer : ℕ) (dts new_dts : List ℕ)
    → w.is_simulcast ≡ true
    → w.pending layer ≡ true
    → w.pending_tracks layer ≡ dt ∷ []
    → (w.tracks dt).current_spatial_layer ≢ layer
    → w.down_tracks (w.tracks dt).current_spatial_layer ≡ some dts
    → AllHave w.ids (w.ids dt) dts
    → w.down_tracks layer ≡ some new_dts
    → let v = switched w dt layer dts new_dts in
      (take_pending w layer true ≡ (some v, false))
      × (v.down_tracks (w.tracks dt).current_spatial_layer ≡ some [])
      × (v.down_tracks layer ≡ some (new_dts ++ (dt ∷ [])))
      × (v.gone ≡ w.gone ++ dts)
      × ((v.tracks dt).current_spatial_layer ≡ layer)
unfolding switch_spatial_layer_done
switch_closes_others w dt layer dts new_dts many waits one other has all new_has =
    let old = (w.tracks dt).current_spatial_layer in
    (
      taken w dt layer dts new_dts many waits one other has all new_has,
      rw (ne→== old layer other, eq→== old old refl) refl,
      rw (eq→== layer layer refl) refl,
      refl,
      rw (eq→== dt dt refl) refl,
    )
