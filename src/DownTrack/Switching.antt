-- ===== src/DownTrack/Switching.antt =====
-- Which layer a track switches to, what holds a switch up, and a switch that never ends.
use sample_nodejs_server.Prelude.{
  ℕ, ◌-◌, ◌*◌, ◌/◌, ◌%◌, ◌≤◌, ◌<◌, ◌≡◌, ◌≢◌, refl, sym, ap, ◌∙◌, Bool, true, false, not, ◌&&◌, ◌||◌,
  List, [], ◌∷◌, arith, ltb, leb, ◌==◌, if◌then◌else◌, max, u16_mod, u64_mod, ltb→lt, lt→ltb, ==→eq,
  if_elim, eq→==, leb→le, leb→lt,
}
use sample_nodejs_server.DownTrack.State.{DownTrack, simulcast}
use sample_nodejs_server.DownTrack.Layers.{
  Receiver, is_simulcast, switch_temporal_layer, Found, find_layer, find_layers, target_layer,
  layer_down, current_temporal, handle_layer_change, adapt_layers,
}

-- The greatest available layer that is not above the given one, or 0.
unfoldable pub greatest_up_to : ℕ → List ℕ → ℕ
greatest_up_to max_layer [] = 0
greatest_up_to max_layer (t ∷ available) =
    let rest = greatest_up_to max_layer available in if leb t max_layer then max t rest else rest

record Sound (f : Found) : Type 0 where
  no_min : f.min_found ≡ 0
  none_found : f.layer_found ≡ false → f.max_found ≡ 0

find_layer-Sound : (m : ℕ) (f : Found) (t : ℕ) → Sound f → Sound (find_layer m f t)
unfolding find_layer
find_layer-Sound m f t s = ground (arith, s.no_min, s.none_found)

find_layers_lem :
    (m : ℕ) (f : Found) (l : List ℕ)
    → Sound f
    → Sound (find_layers m f l)
      × ((find_layers m f l).max_found ≡ max f.max_found (greatest_up_to m l))
unfolding find_layers greatest_up_to
find_layers_lem m f [] s = (s, omega arith)
find_layers_lem m f (t ∷ l) s =
    let (s', e) = find_layers_lem m (find_layer m f t) l (find_layer-Sound m f t s) in
    (s', unfold find_layer in ground (arith, e))

-- `UptrackLayersChange` aims at the greatest available layer up to the track's maximum, and at layer
-- 0 if there is none, whether layer 0 is available or not.
pub target_layer-greatest :
    (max_layer : ℕ) (available : List ℕ)
    → target_layer max_layer available ≡ greatest_up_to max_layer available
unfolding target_layer
target_layer-greatest max_layer available =
    let (s, e) =
      find_layers_lem max_layer (record { max_found = 0; layer_found = false; min_found = 0 })
        available (record { no_min = refl; none_found = λ _. refl }) in
    ground (arith, e, s.no_min, s.none_found)

all_three : {a b c : Bool} → a ≡ true → b ≡ true → c ≡ true → (a && b && c) ≡ true
all_three f g h = ground arith

not_both : {a b : Bool} → a ≡ true → b ≡ true → ¬ ((a && b) ≡ false)
not_both f g h = ground arith

second_of : (a b c : Bool) → (a && b && c) ≡ true → b ≡ true
second_of a b c h = ground arith

-- No packet and no loss report ends the wait for a wanted temporal layer that differs.
held_up :
    (r : Receiver) (now loss min_bitrate : ℕ) (d : DownTrack)
    → current_temporal d ≢ d.temporal_layer / u16_mod
    → handle_layer_change r now d loss min_bitrate ≡ d
unfolding handle_layer_change
held_up r now loss min_bitrate d differ =
    if_elim (λ e. e ≡ d)
      (d.target_spatial_layer == d.current_spatial_layer
        && current_temporal d == d.temporal_layer / u16_mod
        && ltb d.helpers.switch_delay now)
      (λ on. absurd (differ (==→eq _ _ (second_of _ _ _ on)))) (λ _. refl)

down_at_lowest :
    (r : Receiver) (now min_bitrate : ℕ) (d : DownTrack)
    → d.track_type ≡ simulcast
    → d.current_spatial_layer ≡ 0
    → d.temporal_layer ≡ 0
    → (layer_down r now d 0 min_bitrate).temporal_layer ≡ 4294901760
unfolding layer_down switch_temporal_layer
down_at_lowest r now min_bitrate d kind at_csl at_layer =
    if_elim (λ (e : DownTrack). e.temporal_layer ≡ 4294901760)
      ((leb min_bitrate (5 * r.bitrate d.current_spatial_layer % u64_mod / 8) || 0 == 0)
        && ltb 0 d.current_spatial_layer
        && not (r.bitrate (d.current_spatial_layer - 1) == 0))
      (λ on. absurd (above (second_of _ _ _ on)))
      (λ _.
        if_elim (λ (e : DownTrack). e.temporal_layer ≡ 4294901760)
          (is_simulcast d && d.temporal_layer % u16_mod == d.temporal_layer / u16_mod)
          (λ _. omega arith) (λ off. absurd (switches off)))
  where
    above : ¬ (ltb 0 d.current_spatial_layer ≡ true)
    above h = omega (arith, ltb→lt 0 d.current_spatial_layer h)

    switches :
        ¬ ((is_simulcast d && d.temporal_layer % u16_mod == d.temporal_layer / u16_mod) ≡ false)
    switches off =
        not_both (rw kind refl)
          (eq→== (d.temporal_layer % u16_mod) (d.temporal_layer / u16_mod) (omega arith)) off

adapt_high :
    (r : Receiver) (now loss min_bitrate : ℕ) (d : DownTrack) (t : ℕ)
    → 25 ≤ loss
    → adapt_layers r now d t loss min_bitrate ≡ layer_down r now d t min_bitrate
adapt_high r now loss min_bitrate d t high =
    unfold adapt_layers in
    if_elim (λ e. e ≡ layer_down r now d t min_bitrate) (leb 25 loss)
      (λ _.
        if_elim (λ e. layer_down r now e t min_bitrate ≡ layer_down r now d t min_bitrate)
          (leb loss 5) (λ low. absurd (omega (arith, leb→le loss 5 low))) (λ _. refl))
      (λ low. absurd (omega (arith, leb→lt 25 loss low)))

layer_falls :
    (r : Receiver) (now loss min_bitrate : ℕ) (d : DownTrack)
    → d.track_type ≡ simulcast
    → d.current_spatial_layer ≡ 0
    → d.target_spatial_layer ≡ 0
    → d.temporal_layer ≡ 0
    → d.helpers.switch_delay < now
    → 25 ≤ loss
    → (handle_layer_change r now d loss min_bitrate).temporal_layer ≡ 4294901760
unfolding handle_layer_change
layer_falls r now loss min_bitrate d kind at_csl at_target at_layer due high =
    if_elim (λ (e : DownTrack). e.temporal_layer ≡ 4294901760)
      (d.target_spatial_layer == d.current_spatial_layer
        && current_temporal d == d.temporal_layer / u16_mod
        && ltb d.helpers.switch_delay now)
      (λ _.
        ap (λ (e : DownTrack). e.temporal_layer)
          (adapt_high r now loss min_bitrate d (current_temporal d) high)
        ∙ ap (λ t. (layer_down r now d t min_bitrate).temporal_layer) at_temporal
        ∙ down_at_lowest r now min_bitrate d kind at_csl at_layer)
      (λ off. absurd (clash (all_three same_spatial same_temporal (lt→ltb _ _ due)) off))
  where
    at_temporal : current_temporal d ≡ 0
    at_temporal = omega arith

    same_spatial : (d.target_spatial_layer == d.current_spatial_layer) ≡ true
    same_spatial = eq→== d.target_spatial_layer d.current_spatial_layer (at_target ∙ sym at_csl)

    same_temporal : (current_temporal d == d.temporal_layer / u16_mod) ≡ true
    same_temporal = eq→== (current_temporal d) (d.temporal_layer / u16_mod) (omega arith)

    clash : {b : Bool} → b ≡ true → ¬ (b ≡ false)
    clash f g = cc

-- After a loss of a tenth or more on the lowest spatial and temporal layers the wanted temporal layer
-- is -1, which is never sent: no later call of `handleLayerChange` changes the track.
pub layer_change_stuck :
    (r : Receiver) (now loss min_bitrate : ℕ) (d : DownTrack)
    → d.track_type ≡ simulcast
    → d.current_spatial_layer ≡ 0
    → d.target_spatial_layer ≡ 0
    → d.temporal_layer ≡ 0
    → d.helpers.switch_delay < now
    → 25 ≤ loss
    → let e = handle_layer_change r now d loss min_bitrate in
      (e.temporal_layer ≡ 4294901760)
      × ((r' : Receiver) (now' loss' min_bitrate' : ℕ)
          → handle_layer_change r' now' e loss' min_bitrate' ≡ e)
layer_change_stuck r now loss min_bitrate d kind at_csl at_target at_layer due high = (
  low,
  λ r' now' loss' min_bitrate'.
      held_up r' now' loss' min_bitrate' (handle_layer_change r now d loss min_bitrate)
        (λ same. omega (arith, low)),
)
  where
    low : (handle_layer_change r now d loss min_bitrate).temporal_layer ≡ 4294901760
    low = layer_falls r now loss min_bitrate d kind at_csl at_target at_layer due high
