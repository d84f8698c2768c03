-- ===== src/DownTrack/Pending.antt =====
-- A switch of the spatial layer that has begun is not overtaken by another one.
use sample_nodejs_server.Prelude.{
  length, ℕ, ◌/◌, ◌%◌, ◌≡◌, ◌≢◌, refl, sym, ◌∙◌, Bool, true, false, not, ◌&&◌, ◌||◌, List, [],
  Option, none, some, arith, ltb, leb, ◌==◌, u16_mod, if_elim, ==→eq, sub16, sub32,
}
use sample_nodejs_server.Vp8.{Vp8}
use sample_nodejs_server.DownTrack.State.{
  DownTrack, ExtPacket, Action, TrackType, unset, simple, simulcast, is_video, is_vp8, update_stats,
  mute, unbind,
}
use sample_nodejs_server.DownTrack.Layers.{
  Receiver, LayerError, is_simulcast, switch_spatial_layer, switch_temporal_layer,
  uptrack_layers_change, target_layer, current_temporal, handle_layer_change,
}
use sample_nodejs_server.DownTrack.Simple.{sequence, forward_simple, resync_simple, write_simple}
use sample_nodejs_server.DownTrack.Simulcast.{
  Rewrite, untouched, drop, broken, done, take_layer, is_dropped, set_layer_of,
  set_vp8_temporal_layer, sync_source, retime, send_simulcast, send_rewritten, forward_simulcast,
  write_simulcast, write_by_type, write_rtp_packet, wanted_layer, sent_layer,
}

-- The spatial layers are the same.
pub record SameLayers (d e : DownTrack) : Type 0 where
  pub current : e.current_spatial_layer ≡ d.current_spatial_layer
  pub target : e.target_spatial_layer ≡ d.target_spatial_layer

kept : {d : DownTrack} → SameLayers d d
kept = record { current = refl; target = refl }

and_then : {d e f : DownTrack} → SameLayers d e → SameLayers e f → SameLayers d f
and_then a b = record { current = b.current ∙ a.current; target = b.target ∙ a.target }

forward_simple-SameLayers : (d : DownTrack) (p : ExtPacket) → SameLayers d (forward_simple d p).0
unfolding forward_simple sequence update_stats
forward_simple-SameLayers d p =
    if_elim (SameLayers d) p.head (λ _. record { current = refl; target = refl })
      (λ _. record { current = refl; target = refl })

resync_simple-SameLayers :
    (d : DownTrack) (p : ExtPacket) → SameLayers d (resync_simple d (p.packet))
unfolding resync_simple
resync_simple-SameLayers d p =
    if_elim
      (λ (e : DownTrack). SameLayers d (record e { last_ssrc = p.packet.ssrc; re_sync = false }))
      (d.last_sn == 0) (λ _. record { current = refl; target = refl })
      (λ _. record { current = refl; target = refl })

write_simple-SameLayers : (d : DownTrack) (p : ExtPacket) → SameLayers d (write_simple d p).0
unfolding write_simple
write_simple-SameLayers d p =
    if_elim (λ (r : DownTrack × List Action). SameLayers d r.0) d.re_sync
      (λ _.
        if_elim (λ (r : DownTrack × List Action). SameLayers d r.0) (is_video d && not p.key_frame)
          (λ _. kept)
          (λ _.
            and_then (resync_simple-SameLayers d p)
              (forward_simple-SameLayers (resync_simple d (p.packet)) p)))
      (λ _. forward_simple-SameLayers d p)

take_layer-SameLayers : (d : DownTrack) (pkt : Vp8) → SameLayers d (take_layer d pkt)
unfolding take_layer
take_layer-SameLayers d pkt =
    if_elim (SameLayers d)
      (not (wanted_layer d == sent_layer d) && leb pkt.tid (wanted_layer d % 256))
      (λ _. record { current = refl; target = refl }) (λ _. kept)

set_layer_of-SameLayers :
    (d : DownTrack) (p : ExtPacket) (v : Option Vp8) → SameLayers d (set_layer_of d p v).0
unfolding set_layer_of
set_layer_of-SameLayers d p none = kept
set_layer_of-SameLayers d p (some pkt) =
    let t = take_layer-SameLayers d pkt in
    if_elim (λ (r : DownTrack × Rewrite). SameLayers d r.0) (is_dropped d pkt) (λ _. kept)
      (λ _.
        if_elim (λ (r : DownTrack × Rewrite). SameLayers d r.0) (ltb 1460 (length p.packet.payload))
          (λ _. t)
          (λ _.
            if_elim (SameLayers d) p.head (λ _. record { current = t.current; target = t.target })
              (λ _. t)))

send_simulcast-SameLayers :
    (d : DownTrack) (p : ExtPacket) (temporal : Bool) (payload : List ℕ) (pic tlz sn ts : ℕ)
    → SameLayers d (send_simulcast d p temporal payload pic tlz sn ts).0
unfolding send_simulcast sequence update_stats
send_simulcast-SameLayers d p temporal payload pic tlz sn ts =
    if_elim
      (λ (e : DownTrack).
        SameLayers d (record e { helpers = record (e.helpers) { l_ts_calc = p.arrival } }))
      p.head (λ _. record { current = refl; target = refl })
      (λ _. record { current = refl; target = refl })

send_rewritten-SameLayers :
    (d : DownTrack) (p : ExtPacket) (sn ts : ℕ) (r : Rewrite)
    → SameLayers d (send_rewritten d p sn ts r).0
unfolding send_rewritten
send_rewritten-SameLayers d p sn ts drop = record { current = refl; target = refl }
send_rewritten-SameLayers d p sn ts broken = kept
send_rewritten-SameLayers d p sn ts untouched = send_simulcast-SameLayers d p true [] 0 0 sn ts
send_rewritten-SameLayers d p sn ts (done buf pic tlz) =
    send_simulcast-SameLayers d p true buf pic tlz sn ts

forward_simulcast-SameLayers :
    (d : DownTrack) (p : ExtPacket) → SameLayers d (forward_simulcast d p).0
unfolding forward_simulcast set_vp8_temporal_layer
forward_simulcast-SameLayers d p =
    let sn = sub16 p.packet.sequence_number d.sn_offset in
    let ts = sub32 p.packet.timestamp d.ts_offset in
    if_elim (λ (r : DownTrack × List Action). SameLayers d r.0)
      (d.helpers.temporal_supported && is_vp8 d)
      (λ _. and_then (set_layer_of-SameLayers d p (p.vp8)) (
        send_rewritten-SameLayers (set_layer_of d p (p.vp8)).0 p sn ts
          (set_layer_of d p (p.vp8)).1))
      (λ _. send_simulcast-SameLayers d p false p.packet.payload 0 0 sn ts)

retime-SameLayers : (d : DownTrack) (p : ExtPacket) → SameLayers d (retime d p)
unfolding retime
retime-SameLayers d p =
    if_elim (SameLayers d) (not (d.helpers.l_ts_calc == 0) && not (d.last_ssrc == p.packet.ssrc))
      (λ _. record { current = refl; target = refl })
      (λ _.
        if_elim (SameLayers d) (d.helpers.l_ts_calc == 0)
          (λ _. record { current = refl; target = refl }) (λ _. kept))

write_simulcast-SameLayers :
    (d : DownTrack) (p : ExtPacket) (layer : ℕ) → SameLayers d (write_simulcast d p layer).0
unfolding write_simulcast
write_simulcast-SameLayers d p layer =
    if_elim (λ (r : DownTrack × List Action). SameLayers d r.0)
      (not (d.current_spatial_layer == layer)) (λ _. kept)
      λ _.
        if_elim (λ (r : DownTrack × List Action). SameLayers d r.0) (d.re_sync && not p.key_frame)
          (λ _. kept)
          λ _.
            if_elim (λ (r : DownTrack × List Action). SameLayers d r.0)
              (not (d.last_ssrc == p.packet.ssrc) || d.re_sync)
              (λ _.
                and_then (and_then (synced d p) (retime-SameLayers (sync_source d p) p))
                  (forward_simulcast-SameLayers (retime (sync_source d p) p) p))
              (λ _. and_then (retime-SameLayers d p) (forward_simulcast-SameLayers (retime d p) p))
  where
    synced : (d : DownTrack) (p : ExtPacket) → SameLayers d (sync_source d p)
    synced d p = unfold sync_source in record { current = refl; target = refl }

write_by_type-SameLayers :
    (t : TrackType) (d : DownTrack) (p : ExtPacket) (layer : ℕ)
    → SameLayers d (write_by_type t d p layer).0
unfolding write_by_type
write_by_type-SameLayers unset d p layer = kept
write_by_type-SameLayers simple d p layer = write_simple-SameLayers d p
write_by_type-SameLayers simulcast d p layer = write_simulcast-SameLayers d p layer

-- The calls that a track may get; `SetInitialLayers` and `SwitchSpatialLayerDone` are the others that
-- touch its layers.
pub data Call (d : DownTrack) : DownTrack → Type 0 where
  write_call : (p : ExtPacket) (layer : ℕ) → Call d (write_rtp_packet d p layer).0
  spatial_call :
      (r : Receiver) (target : ℕ) (as_max : Bool)
      → Call d (switch_spatial_layer r d target as_max).0
  temporal_call : (target : ℕ) (as_max : Bool) → Call d (switch_temporal_layer d target as_max)
  layers_call : (r : Receiver) (available : List ℕ) → Call d (uptrack_layers_change r d available).0
  report_call :
      (r : Receiver) (now loss min_bitrate : ℕ)
      → Call d (handle_layer_change r now d loss min_bitrate)
  mute_call : (val : Bool) → Call d (mute d val)
  unbind_call : Call d (unbind d)

pub data Reach (d : DownTrack) : DownTrack → Type 0 where
  here : Reach d d
  next : {e f : DownTrack} → Reach d e → Call e f → Reach d f

spatial_pending :
    (r : Receiver) (d : DownTrack) (target : ℕ) (as_max : Bool)
    → d.current_spatial_layer ≢ d.target_spatial_layer
    → SameLayers d (switch_spatial_layer r d target as_max).0
unfolding switch_spatial_layer
spatial_pending r d target as_max pending =
    if_elim (λ (x : DownTrack × Option LayerError). SameLayers d x.0) (is_simulcast d)
      (λ _.
        if_elim (λ (x : DownTrack × Option LayerError). SameLayers d x.0)
          (not (d.current_spatial_layer == d.target_spatial_layer)
            || d.current_spatial_layer == target)
          (λ _. kept)
          (λ free.
            absurd
              (pending (==→eq d.current_spatial_layer d.target_spatial_layer (not_busy _ _ free)))))
      (λ _. kept)
  where
    not_busy : (a b : Bool) → (not a || b) ≡ false → a ≡ true
    not_busy a b h = ground arith

-- One call leaves a pending switch alone.
call_pending :
    {d e : DownTrack} → Call d e → d.current_spatial_layer ≢ d.target_spatial_layer → SameLayers d e
unfolding write_rtp_packet switch_temporal_layer uptrack_layers_change handle_layer_change mute
    unbind
call_pending {d} (write_call p layer) pending =
    if_elim (λ (r : DownTrack × List Action). SameLayers d r.0) (not d.enabled || not d.bound)
      (λ _. kept) (λ _. write_by_type-SameLayers (d.track_type) d p layer)
call_pending {d} (spatial_call r target as_max) pending = spatial_pending r d target as_max pending
call_pending {d} (temporal_call target as_max) pending =
    if_elim (SameLayers d)
      (is_simulcast d && d.temporal_layer % u16_mod == d.temporal_layer / u16_mod)
      (λ _. record { current = refl; target = refl }) (λ _. kept)
call_pending {d} (layers_call r available) pending =
    if_elim (λ (x : DownTrack × Option LayerError × Option ℕ). SameLayers d x.0) (is_simulcast d)
      (λ _.
        if_elim (λ (x : DownTrack × Option LayerError × Option ℕ). SameLayers d x.0)
          (d.current_spatial_layer % u16_mod
            == target_layer (d.max_spatial_layer % u16_mod) available)
          (λ _. kept) (λ _. spatial_pending r d _ false pending))
      (λ _. kept)
call_pending {d} (report_call r now loss min_bitrate) pending =
    if_elim (SameLayers d)
      (d.target_spatial_layer == d.current_spatial_layer
        && current_temporal d == d.temporal_layer / u16_mod
        && ltb d.helpers.switch_delay now)
      (λ on. absurd (pending (sym (==→eq _ _ (first_of _ _ _ on))))) (λ _. kept)
  where
    first_of : (a b c : Bool) → (a && b && c) ≡ true → a ≡ true
    first_of a b c h = ground arith
call_pending {d} (mute_call val) pending =
    if_elim (SameLayers d) d.enabled
      (λ _. if_elim (SameLayers d) val (λ _. record { current = refl; target = refl }) (λ _. kept))
      (λ _. if_elim (SameLayers d) val (λ _. kept) (λ _. record { current = refl; target = refl }))
call_pending {d} unbind_call pending = record { current = refl; target = refl }

-- While the wanted spatial layer differs from the one that is sent, no sequence of packets, layer
-- switches, layer changes of the publisher, reports, mutes and unbinds changes either: only
-- `SwitchSpatialLayerDone` and `SetInitialLayers` end the wait.
pub Reach-pending :
    {d e : DownTrack}
    → Reach d e
    → d.current_spatial_layer ≢ d.target_spatial_layer
    → SameLayers d e
Reach-pending here pending = kept
Reach-pending (next reached call) pending =
    let so_far = Reach-pending reached pending in
    and_then so_far
      (call_pending call (λ same. pending (sym (so_far.current) ∙ same ∙ so_far.target)))
