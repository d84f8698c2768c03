-- ===== src/Receiver/Tracks.antt =====
-- The down tracks of each layer of a receiver, and how a packet of a layer takes pending ones in.
use sample_nodejs_server.Prelude.{
  ℕ, Bool, true, false, ◌&&◌, ◌||◌, List, [], ◌∷◌, ◌++◌, Option, none, some, ◌==◌, if◌then◌else◌,
}
use sample_nodejs_server.Prelude.Strings.{same_text}
use sample_nodejs_server.DownTrack.State.{DownTrack, simple, simulcast}
use sample_nodejs_server.DownTrack.Layers.{set_initial_layers, switch_spatial_layer_done}

-- A down track is a reference into `tracks`, with its id in `ids`; `gone` are those on which `Close`
-- was called. `down_tracks` is `none` for a layer without an up track: its use panics.
pub record WebRtcReceiver : Type 0 where
  pub closed : Bool
  pub is_simulcast : Bool
  pub available : ℕ → Bool
  pub up_ssrc : ℕ → ℕ
  pub down_tracks : ℕ → Option (List ℕ)
  pub pending : ℕ → Bool
  pub pending_tracks : ℕ → List ℕ
  pub tracks : ℕ → DownTrack
  pub ids : ℕ → List ℕ
  pub gone : List ℕ

abbrev pub put {ℓ} : {A : Type ℓ} → (ℕ → A) → ℕ → A → ℕ → A
put f i v j = if j == i then v else f j

abbrev pub then_do {ℓ} : {A : Type ℓ} → Option A → (A → Option A) → Option A
then_do none f = none
then_do (some a) f = f a

abbrev pub append_track : WebRtcReceiver → ℕ → ℕ → Option (List ℕ) → Option WebRtcReceiver
append_track w layer dt none = none
append_track w layer dt (some dts) =
    some (record w { down_tracks = put w.down_tracks layer (some (dts ++ (dt ∷ []))) })

unfoldable pub store_down_track : WebRtcReceiver → ℕ → ℕ → Option WebRtcReceiver
store_down_track w layer dt = append_track w layer dt (w.down_tracks layer)

-- The down tracks with the id, or those without it.
unfoldable pub having : (ℕ → List ℕ) → List ℕ → Bool → List ℕ → List ℕ
having ids id same [] = []
having ids id same (dt ∷ dts) =
    let rest = having ids id same dts in
    if same_text (ids dt) id
    then (if same then dt ∷ rest else rest)
    else (if same then rest else dt ∷ rest)

abbrev pub remove_tracks : WebRtcReceiver → ℕ → List ℕ → Option (List ℕ) → Option WebRtcReceiver
remove_tracks w layer id none = none
remove_tracks w layer id (some dts) = some (record w {
  down_tracks = put w.down_tracks layer (some (having w.ids id false dts));
  gone = w.gone ++ having w.ids id true dts;
})

unfoldable pub delete_down_track : WebRtcReceiver → ℕ → List ℕ → Option WebRtcReceiver
unfolding having
delete_down_track w layer id = remove_tracks w layer id (w.down_tracks layer)

abbrev pub done_at : ℕ → ℕ → WebRtcReceiver → Option WebRtcReceiver
done_at layer dt w =
    some (record w { tracks = put w.tracks dt (switch_spatial_layer_done (w.tracks dt) layer) })

-- One round of the loop over the pending tracks.
unfoldable pub move_pending : WebRtcReceiver → ℕ → ℕ → Option WebRtcReceiver
unfolding delete_down_track store_down_track switch_spatial_layer_done
move_pending w layer dt =
    then_do
      (then_do (delete_down_track w (w.tracks dt).current_spatial_layer (w.ids dt))
        (λ v. store_down_track v layer dt))
      (done_at layer dt)

unfoldable pub move_all : Option WebRtcReceiver → ℕ → List ℕ → Option WebRtcReceiver
unfolding move_pending
move_all w layer [] = w
move_all w layer (dt ∷ dts) = move_all (then_do w (λ v. move_pending v layer dt)) layer dts

abbrev pub settle : ℕ → WebRtcReceiver → Option WebRtcReceiver
settle layer w = some (record w {
  pending_tracks = put w.pending_tracks layer [];
  pending = put w.pending layer false;
})

-- Before a packet of the layer is written: the receiver, and whether a picture loss indication goes to
-- the publisher.
unfoldable pub take_pending : WebRtcReceiver → ℕ → Bool → Option WebRtcReceiver × Bool
unfolding move_all
take_pending w layer key_frame =
    let moved = then_do (move_all (some w) layer (w.pending_tracks layer)) (settle layer) in
    if w.is_simulcast && w.pending layer
    then (if key_frame then (moved, false) else (some w, true))
    else (some w, false)

-- `true` without an error.
unfoldable pub switch_down_track : WebRtcReceiver → ℕ → ℕ → WebRtcReceiver × Bool
switch_down_track w dt layer =
    if w.closed
    then (w, false)
    else if w.available layer
    then (
      record w {
        pending = put w.pending layer true;
        pending_tracks = put w.pending_tracks layer (w.pending_tracks layer ++ (dt ∷ []));
      },
      true,
    )
    else (w, false)

-- The layer for a new down track of a simulcast receiver.
unfoldable pub choose_layer : WebRtcReceiver → Bool → ℕ
choose_layer w best_quality_first =
    if best_quality_first
    then (if w.available 2 then 2 else if w.available 1 then 1 else 0)
    else if w.available 0
    then 0
    else if w.available 1
    then 1
    else if w.available 2
    then 2
    else 0

unfoldable pub is_subscribed : ℕ → List ℕ → Bool
is_subscribed dt [] = false
is_subscribed dt (c ∷ dts) = c == dt || is_subscribed dt dts

abbrev pub initial : WebRtcReceiver → ℕ → DownTrack → DownTrack
initial w layer d =
    if w.is_simulcast
    then record (set_initial_layers d layer 2) {
      max_spatial_layer = 2;
      max_temporal_layer = 2;
      last_ssrc = w.up_ssrc layer;
      track_type = simulcast;
    }
    else record (set_initial_layers d 0 0) { track_type = simple }

abbrev pub subscribe : WebRtcReceiver → ℕ → ℕ → Option (List ℕ) → Option WebRtcReceiver
subscribe w layer dt none = none
subscribe w layer dt (some dts) =
    if is_subscribed dt dts
    then some w
    else store_down_track (record w { tracks = put w.tracks dt (initial w layer (w.tracks dt)) })
        layer dt

unfoldable pub add_down_track : WebRtcReceiver → ℕ → Bool → Option WebRtcReceiver
unfolding choose_layer is_subscribed store_down_track set_initial_layers
add_down_track w dt best_quality_first =
    let layer = if w.is_simulcast then choose_layer w best_quality_first else 0 in
    if w.closed then some w else subscribe w layer dt (w.down_tracks layer)
