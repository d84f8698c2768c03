-- ===== src/DownTrack/Layers.antt =====
-- The layers of a simulcast track. A call to the receiver is an argument with what it answers.
use sample_nodejs_server.Prelude.{
  ℕ, ◌+◌, ◌-◌, ◌*◌, ◌/◌, ◌%◌, Bool, true, false, not, ◌&&◌, ◌||◌, List, [], ◌∷◌, Option, none, some,
  ltb, leb, ◌==◌, if◌then◌else◌, u16_mod, u32_mod, u64_mod,
}
use sample_nodejs_server.DownTrack.State.{simple, simulcast, unset, DownTrack}

-- What a receiver answers: `SwitchDownTrack` (is its error nil?), `GetBitrate`,
-- `GetMaxTemporalLayer`.
pub record Receiver : Type 0 where
  pub switch_down_track : ℕ → Bool
  pub bitrate : ℕ → ℕ
  pub max_temporal_layer : ℕ → ℕ

pub data LayerError : Type 0 where
  spatial_layer_busy spatial_not_supported no_simulcast : LayerError

abbrev pub is_simulcast : DownTrack → Bool
is_simulcast d = elim d.track_type [ unset ↦ false | simple ↦ false | simulcast ↦ true ]

-- `targetLayer<<16 | currentLayer` for a layer of sixteen bits; a negative target is a word.
abbrev pub pack_layers : ℕ → ℕ → ℕ
pack_layers target current = target % u16_mod * u16_mod + current

unfoldable pub set_initial_layers : DownTrack → ℕ → ℕ → DownTrack
set_initial_layers d spatial temporal = record d {
  current_spatial_layer = spatial;
  target_spatial_layer = spatial;
  temporal_layer = pack_layers temporal temporal;
}

unfoldable pub switch_spatial_layer :
    Receiver → DownTrack → ℕ → Bool → DownTrack × Option LayerError
switch_spatial_layer r d target set_as_max =
    let switched = record d {
      target_spatial_layer = target;
      max_spatial_layer = if set_as_max then target else d.max_spatial_layer;
    } in
    if is_simulcast d
    then (if not (d.current_spatial_layer == d.target_spatial_layer)
          || d.current_spatial_layer == target
        then (d, some spatial_layer_busy)
        else (if r.switch_down_track target then switched else d, none))
    else (d, some spatial_not_supported)

unfoldable pub switch_spatial_layer_done : DownTrack → ℕ → DownTrack
switch_spatial_layer_done d layer = record d { current_spatial_layer = layer }

-- The target is an `int32` as a word.
unfoldable pub switch_temporal_layer : DownTrack → ℕ → Bool → DownTrack
switch_temporal_layer d target set_as_max =
    let switched = record d {
      temporal_layer = pack_layers target (d.temporal_layer % u16_mod);
      max_temporal_layer = if set_as_max then target else d.max_temporal_layer;
    } in
    if is_simulcast d && d.temporal_layer % u16_mod == d.temporal_layer / u16_mod
    then switched
    else d

-- The variables of the loop in `UptrackLayersChange`.
pub record Found : Type 0 where
  pub max_found : ℕ
  pub layer_found : Bool
  pub min_found : ℕ

unfoldable pub find_layer : ℕ → Found → ℕ → Found
find_layer max_layer f target =
    if leb target max_layer
    then (if ltb f.max_found target then record f { max_found = target; layer_found = true } else f)
    else (if ltb target f.min_found then record f { min_found = target } else f)

unfoldable pub find_layers : ℕ → Found → List ℕ → Found
unfolding find_layer
find_layers max_layer f [] = f
find_layers max_layer f (target ∷ available) =
    find_layers max_layer (find_layer max_layer f target) available

unfoldable pub target_layer : ℕ → List ℕ → ℕ
unfolding find_layers
target_layer max_layer available =
    let f =
      find_layers max_layer (record { max_found = 0; layer_found = false; min_found = 0 })
        available in
    if f.layer_found then f.max_found else f.min_found

-- `uint16(d.currentSpatialLayer)` and `uint16(maxSpatialLayer)`.
unfoldable pub uptrack_layers_change :
    Receiver → DownTrack → List ℕ → DownTrack × Option LayerError × Option ℕ
unfolding target_layer switch_spatial_layer
uptrack_layers_change r d available =
    let target = target_layer (d.max_spatial_layer % u16_mod) available in
    let (d', error) = switch_spatial_layer r d target false in
    if is_simulcast d
    then (if d.current_spatial_layer % u16_mod == target
        then (d, none, some target)
        else (d', error, some target))
    else (d, some no_simulcast, none)

abbrev pub delay_switch : ℕ → DownTrack → DownTrack
delay_switch until d = record d { helpers = record (d.helpers) { switch_delay = until } }

-- Three, five and ten seconds.
abbrev pub seconds : ℕ → ℕ
seconds n = n * 1000000000

-- `temporalLayer & 0x0f`.
abbrev pub current_temporal : DownTrack → ℕ
current_temporal d = d.temporal_layer % 16

-- The first test under `maxRatePacketLoss <= 5`: one temporal layer up.
unfoldable pub temporal_up : Receiver → ℕ → DownTrack → ℕ → DownTrack
unfolding switch_temporal_layer
temporal_up r now d min_bitrate =
    let t = current_temporal d in
    let up = delay_switch (now + seconds 3) (switch_temporal_layer d (t + 1) false) in
    if ltb t (r.max_temporal_layer d.current_spatial_layer)
      && leb (t + 1) d.max_temporal_layer
      && leb (3 * r.bitrate d.current_spatial_layer % u64_mod / 4) min_bitrate
    then up
    else d

-- The second one, with `t` read before the first: one spatial layer up.
unfoldable pub spatial_up : Receiver → ℕ → DownTrack → ℕ → ℕ → DownTrack
unfolding switch_spatial_layer switch_temporal_layer
spatial_up r now d t min_bitrate =
    let csl = d.current_spatial_layer in
    let (d', error) = switch_spatial_layer r d (csl + 1) false in
    let lowest : DownTrack = elim error [ none ↦ switch_temporal_layer d' 0 false | some e ↦ d' ] in
    if leb (r.max_temporal_layer csl) t
      && leb (3 * r.bitrate csl % u64_mod / 2) min_bitrate
      && leb (csl + 1) d.max_spatial_layer
      && leb (csl + 1) 2
    then delay_switch (now + seconds 5) lowest
    else d

-- Under `maxRatePacketLoss >= 25`: a spatial layer down, or a temporal one.
unfoldable pub layer_down : Receiver → ℕ → DownTrack → ℕ → ℕ → DownTrack
unfolding switch_spatial_layer switch_temporal_layer
layer_down r now d t min_bitrate =
    let csl = d.current_spatial_layer in
    let (d', error) = switch_spatial_layer r d (csl - 1) false in
    let spatial : DownTrack = elim error [
      | none ↦ d'
      | some e ↦ switch_temporal_layer d' (r.max_temporal_layer (csl - 1)) false
    ] in
    let temporal = switch_temporal_layer d ((t + u32_mod - 1) % u32_mod) false in
    if (leb min_bitrate (5 * r.bitrate csl % u64_mod / 8) || t == 0)
      && ltb 0 csl
      && not (r.bitrate (csl - 1) == 0)
    then delay_switch (now + seconds 10) spatial
    else delay_switch (now + seconds 5) temporal

-- What the loss and the bitrate ask for; `t` is read before any change.
unfoldable pub adapt_layers : Receiver → ℕ → DownTrack → ℕ → ℕ → ℕ → DownTrack
unfolding temporal_up spatial_up layer_down
adapt_layers r now d t loss min_bitrate =
    let up = spatial_up r now (temporal_up r now d min_bitrate) t min_bitrate in
    let d₁ = if leb loss 5 then up else d in
    if leb 25 loss then layer_down r now d₁ t min_bitrate else d₁

unfoldable pub handle_layer_change : Receiver → ℕ → DownTrack → ℕ → ℕ → DownTrack
unfolding adapt_layers
handle_layer_change r now d loss min_bitrate =
    let t = current_temporal d in
    let adapted = adapt_layers r now d t loss min_bitrate in
    if d.target_spatial_layer == d.current_spatial_layer
      && t == d.temporal_layer / u16_mod
      && ltb d.helpers.switch_delay now
    then adapted
    else d
