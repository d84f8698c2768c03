-- ===== src/DownTrack/Sources.antt =====
-- The first packet of another source on a simulcast track.
use mathlib.Core.Path.{ap₂}
use sample_nodejs_server.Prelude.{
  ℕ, ◌+◌, ◌-◌, ◌*◌, ◌/◌, ◌%◌, ◌<◌, ◌≤◌, ◌≡◌, ◌≢◌, le→leb, refl, ap, ◌∙◌, false, not, ◌&&◌, ◌||◌,
  List, [], ◌∷◌, none, some, arith, ◌==◌, if◌then◌else◌, add16, sub16, sub32, u32_mod, if_elim,
}
use sample_nodejs_server.DownTrack.State.{DownTrack, Helpers, ExtPacket, Action, write_rtp, is_vp8}
use sample_nodejs_server.DownTrack.Simple.{rewritten}
use sample_nodejs_server.DownTrack.Simulcast.{
  elapsed, refer, sync_source, retime, send_simulcast, forward_simulcast, write_simulcast,
}
use sample_nodejs_server.DownTrack.Drops.{clash}

-- The first packet of another source on a track that has sent before.
pub record IsSwitch (d : DownTrack) (p : ExtPacket) (layer : ℕ) : Type 0 where
  pub sends : d.current_spatial_layer ≡ layer
  pub in_step : d.re_sync ≡ false
  pub begun : d.helpers.l_ts_calc ≢ 0
  pub new_source : d.last_ssrc ≢ p.packet.ssrc
  pub words :
      (d.last_sn < 65536)
      × (d.last_ts < 4294967296)
      × (p.packet.sequence_number < 65536)
      × (p.packet.timestamp < 4294967296)

-- The state from which the first packet of another source goes out.
abbrev switched : DownTrack → ExtPacket → DownTrack
switched d p = record d {
  re_sync = false;
  last_ssrc = p.packet.ssrc;
  ts_offset =
      sub32 p.packet.timestamp ((d.last_ts + elapsed p.arrival d.helpers.l_ts_calc) % u32_mod);
  sn_offset = sub16 (sub16 p.packet.sequence_number d.last_sn) 1;
}

abbrev restarted : DownTrack → DownTrack
restarted d = record d { re_sync = false }

sync_plain :
    (d : DownTrack) (p : ExtPacket)
    → d.re_sync ≡ false
    → (d.helpers.temporal_supported && is_vp8 d) ≡ false
    → sync_source d p ≡ restarted d
unfolding sync_source
sync_plain d p in_step plain =
    if_elim
      (λ (h₁ : Helpers).
        record (restarted d) {
          helpers =
              if h₁.temporal_supported && is_vp8 d
              then (elim (p.vp8) [ none ↦ h₁ | some pkt ↦ refer h₁ pkt ])
              else h₁;
        }
        ≡ restarted d)
      (d.re_sync && not (d.helpers.l_ts_calc == 0))
      (λ waits. absurd (ground (arith, waits, in_step)))
      (λ _.
        if_elim (λ (h : Helpers). record (restarted d) { helpers = h } ≡ restarted d)
          (d.helpers.temporal_supported && is_vp8 d) (λ on. clash on plain) (λ _. refl))

retime_switch :
    (d : DownTrack) (p : ExtPacket)
    → d.helpers.l_ts_calc ≢ 0
    → d.last_ssrc ≢ p.packet.ssrc
    → retime (restarted d) p ≡ switched d p
unfolding retime
retime_switch d p begun new_source =
    if_elim (λ e. e ≡ switched d p)
      (not (d.helpers.l_ts_calc == 0) && not (d.last_ssrc == p.packet.ssrc)) (λ _. refl)
      (λ off. absurd (ground (arith, off, begun, new_source)))

forward_plain :
    (d : DownTrack) (p : ExtPacket)
    → (d.helpers.temporal_supported && is_vp8 d) ≡ false
    → (forward_simulcast d p).1
      ≡ write_rtp (
          rewritten d
            (p.packet)
            (sub16 p.packet.sequence_number d.sn_offset)
            (sub32 p.packet.timestamp d.ts_offset)
            p.packet.payload)
        ∷ []
unfolding forward_simulcast send_simulcast
forward_plain d p plain =
    if_elim
      (λ (r : DownTrack × List Action).
        r.1
        ≡ write_rtp (
            rewritten d (p.packet) (sub16 p.packet.sequence_number d.sn_offset)
              (sub32 p.packet.timestamp d.ts_offset) p.packet.payload)
          ∷ [])
      (d.helpers.temporal_supported && is_vp8 d) (λ on. clash on plain) (λ _. refl)

switch_forward :
    (d : DownTrack) (p : ExtPacket) (layer : ℕ)
    → IsSwitch d p layer
    → (d.helpers.temporal_supported && is_vp8 d) ≡ false
    → write_simulcast d p layer ≡ forward_simulcast (switched d p) p
unfolding write_simulcast
switch_forward d p layer v plain =
    if_elim (λ r. r ≡ forward_simulcast (switched d p) p) (not (d.current_spatial_layer == layer))
      (λ other. absurd (ground (arith, other, v.sends)))
      λ _.
        if_elim (λ r. r ≡ forward_simulcast (switched d p) p) (d.re_sync && not p.key_frame)
          (λ waits. absurd (ground (arith, waits, v.in_step)))
          λ _.
            if_elim (λ r. r ≡ forward_simulcast (switched d p) p)
              (not (d.last_ssrc == p.packet.ssrc) || d.re_sync)
              (λ _.
                ap (λ e. forward_simulcast (retime e p) p) (sync_plain d p v.in_step plain)
                ∙ ap (λ e. forward_simulcast e p) (retime_switch d p v.begun v.new_source))
              (λ same. absurd (ground (arith, same, v.new_source)))

-- The time since the last arrival, in the units that the code adds to the last timestamp.
elapsed_lem :
    (arrival last : ℕ)
    → last ≤ arrival
    → (arrival - last) / 1000000 * 90 / 1000 < 4294967296
    → let ticks = (arrival - last) / 1000000 * 90 / 1000 in
      elapsed arrival last ≡ (if ticks == 0 then 1 else ticks)
unfolding elapsed
elapsed_lem arrival last before small =
    let ticks = (arrival - last) / 1000000 * 90 / 1000 in
    let word : ticks % u32_mod ≡ ticks = omega (arith, small) in
    rw (le→leb last arrival before) (rw word refl)

-- The first packet of another source, of the layer that is sent, on a track without temporal layers
-- that has sent before and waits for no start, if it came not before the last one, goes out with its own marker and
-- payload, with the track's payload type and SSRC, and under the number next to the last one. Its
-- timestamp is the last one and the time since the last arrival in milliseconds, times 90, by 1000,
-- where that is a word; or and 1 where it is 0.
pub source_switch :
    (d : DownTrack) (p : ExtPacket) (layer : ℕ)
    → IsSwitch d p layer
    → (d.helpers.temporal_supported && is_vp8 d) ≡ false
    → d.helpers.l_ts_calc ≤ p.arrival
    → (p.arrival - d.helpers.l_ts_calc) / 1000000 * 90 / 1000 < 4294967296
    → let ticks = (p.arrival - d.helpers.l_ts_calc) / 1000000 * 90 / 1000 in
      (write_simulcast d p layer).1
      ≡ write_rtp (record {
        payload_type = d.payload_type;
        marker = p.packet.marker;
        sequence_number = (d.last_sn + 1) % 65536;
        timestamp = (d.last_ts + (if ticks == 0 then 1 else ticks)) % 4294967296;
        ssrc = d.ssrc;
        payload = p.packet.payload;
      })
        ∷ []
source_switch d p layer v plain before small =
    ap (λ (r : DownTrack × List Action). r.1) (switch_forward d p layer v plain)
    ∙ forward_plain (switched d p) p plain_still
    ∙ ap₂ (λ sn ts. write_rtp (rewritten d (p.packet) sn ts p.packet.payload) ∷ [])
        (next_sn p.packet.sequence_number d.last_sn v.words.2 v.words.0)
        (next_ts p.packet.timestamp ((d.last_ts + elapsed p.arrival d.helpers.l_ts_calc) % u32_mod)
          v.words.3 (omega arith))
    ∙ ap
        (λ t.
          write_rtp (
            rewritten d (p.packet) (add16 d.last_sn 1) ((d.last_ts + t) % u32_mod) p.packet.payload)
          ∷ [])
        (elapsed_lem p.arrival d.helpers.l_ts_calc before small)
  where
    plain_still : ((switched d p).helpers.temporal_supported && is_vp8 (switched d p)) ≡ false
    plain_still = unfold is_vp8 in plain

    next_sn :
        (sn last : ℕ)
        → sn < 65536
        → last < 65536
        → sub16 sn (sub16 (sub16 sn last) 1) ≡ add16 last 1
    next_sn sn last h k = omega arith

    next_ts : (ts t : ℕ) → ts < 4294967296 → t < 4294967296 → sub32 ts (sub32 ts t) ≡ t
    next_ts ts t h k = omega arith
