-- ===== src/DownTrack/Simulcast.antt =====
-- `WriteRTP` of a simulcast track, and the VP8 layers that it drops and renumbers.
use sample_nodejs_server.Prelude.{
  ℕ, ◌+◌, ◌-◌, ◌*◌, ◌/◌, ◌%◌, Bool, true, false, not, ◌&&◌, ◌||◌, List, [], ◌∷◌, Option, none, some,
  ltb, leb, ◌==◌, if◌then◌else◌, length, add16, sub16, sub32, u16_mod, u32_mod,
}
use sample_nodejs_server.Vp8.{Vp8}
use sample_nodejs_server.TemporalLayer.{modify_vp8_temporal_payload}
use sample_nodejs_server.Sequencer.{Sequencer, update, set_vp8_payload_meta}
use sample_nodejs_server.DownTrack.State.{
  TrackType, unset, simple, simulcast, DownTrack, Helpers, ExtPacket, Action, send_pli, write_rtp,
  panic, is_vp8, update_stats,
}
use sample_nodejs_server.DownTrack.Simple.{sequence, remember, rewritten, write_simple}

-- What `setVP8TemporalLayer` returns: nothing for another payload, the drop, or the new payload with
-- its indices. `broken` is the panic of an index out of range, or of a payload that is longer than
-- the 1460 bytes of a slice of `packetFactory`.
pub data Rewrite : Type 0 where
  untouched drop broken : Rewrite
  done : List ℕ → ℕ → ℕ → Rewrite

abbrev pub sub8 : ℕ → ℕ → ℕ
sub8 a b = (a + 256 - b) % 256

-- The layer that is sent, and the one that is wanted.
abbrev pub sent_layer : DownTrack → ℕ
sent_layer d = d.temporal_layer % u16_mod

abbrev pub wanted_layer : DownTrack → ℕ
wanted_layer d = d.temporal_layer / u16_mod

-- A switch takes place with the first packet of the wanted layer or a lower one.
unfoldable pub take_layer : DownTrack → Vp8 → DownTrack
take_layer d pkt =
    if not (wanted_layer d == sent_layer d) && leb pkt.tid (wanted_layer d % 256)
    then record d { temporal_layer = wanted_layer d * u16_mod + wanted_layer d }
    else d

abbrev pub is_dropped : DownTrack → Vp8 → Bool
is_dropped d pkt = wanted_layer d == sent_layer d && ltb (sent_layer d % 256) pkt.tid

abbrev pub out_pic_id : Helpers → Vp8 → ℕ
out_pic_id h pkt = add16 (add16 (sub16 pkt.picture_id h.ref_pic_id) h.p_ref_pic_id) 1

abbrev pub out_tlz_idx : Helpers → Vp8 → ℕ
out_tlz_idx h pkt = (sub8 pkt.tl0_pic_idx h.ref_tlz_idx + h.p_ref_tlz_idx + 1) % 256

-- With the payload's descriptor, if it has one.
unfoldable pub set_layer_of : DownTrack → ExtPacket → Option Vp8 → DownTrack × Rewrite
unfolding take_layer modify_vp8_temporal_payload
set_layer_of d p none = (d, untouched)
set_layer_of d p (some pkt) =
    let pic_id = out_pic_id (d.helpers) pkt in
    let tlz_idx = out_tlz_idx (d.helpers) pkt in
    let d₁ = take_layer d pkt in
    let d₂ : DownTrack =
      if p.head
      then record d₁ { helpers = record (d₁.helpers) { l_pic_id = pic_id; l_tlz_idx = tlz_idx } }
      else d₁ in
    let written : Rewrite =
      elim (modify_vp8_temporal_payload p.packet.payload pkt.pic_id_idx pkt.tlz_idx pic_id tlz_idx
        pkt.m_bit) [ none ↦ broken | some buf ↦ done buf pic_id tlz_idx ] in
    if is_dropped d pkt
    then (d, drop)
    else if ltb 1460 (length p.packet.payload)
    then (d₁, broken)
    else (d₂, written)

unfoldable pub set_vp8_temporal_layer : DownTrack → ExtPacket → DownTrack × Rewrite
unfolding set_layer_of
set_vp8_temporal_layer d p = set_layer_of d p (p.vp8)

-- The references for the picture numbers of a new source.
abbrev pub refer : Helpers → Vp8 → Helpers
refer h pkt = record h {
  p_ref_pic_id = h.l_pic_id;
  ref_pic_id = pkt.picture_id;
  p_ref_tlz_idx = h.l_tlz_idx;
  ref_tlz_idx = pkt.tl0_pic_idx;
}

-- The SSRC differs from the last one, or the track waits for a start.
unfoldable pub sync_source : DownTrack → ExtPacket → DownTrack
unfolding is_vp8
sync_source d p =
    let h₁ : Helpers =
      if d.re_sync && not (d.helpers.l_ts_calc == 0)
      then record (d.helpers) { l_ts_calc = p.arrival }
      else d.helpers in
    let h₂ : Helpers =
      if h₁.temporal_supported && is_vp8 d
      then (elim (p.vp8) [ none ↦ h₁ | some pkt ↦ refer h₁ pkt ])
      else h₁ in
    record d { helpers = h₂; re_sync = false }

-- `uint32(((arrival - last) / 1e6) * 90 / 1000)`, of which a negative value is a word; 1 for 0.
unfoldable pub elapsed : ℕ → ℕ → ℕ
elapsed arrival last =
    let td =
      if leb last arrival
      then (arrival - last) / 1000000 * 90 / 1000 % u32_mod
      else (u32_mod - (last - arrival) / 1000000 * 90 / 1000 % u32_mod) % u32_mod in
    if td == 0 then 1 else td

-- The offsets for a new source, or the first numbers of the first one.
unfoldable pub retime : DownTrack → ExtPacket → DownTrack
unfolding elapsed is_vp8
retime d p =
    let supported : Bool =
      if is_vp8 d
      then (elim (p.vp8) [
        | none ↦ d.helpers.temporal_supported
        | some pkt ↦ pkt.temporal_supported
      ])
      else d.helpers.temporal_supported in
    if not (d.helpers.l_ts_calc == 0) && not (d.last_ssrc == p.packet.ssrc)
    then record d {
      last_ssrc = p.packet.ssrc;
      ts_offset =
          sub32 p.packet.timestamp ((d.last_ts + elapsed p.arrival d.helpers.l_ts_calc) % u32_mod);
      sn_offset = sub16 (sub16 p.packet.sequence_number d.last_sn) 1;
    }
    else if d.helpers.l_ts_calc == 0
    then record d {
      last_ts = p.packet.timestamp;
      last_sn = p.packet.sequence_number;
      helpers = record (d.helpers) { temporal_supported = supported };
    }
    else d

-- `meta.setVP8PayloadMeta` through the pointer that the sequencer has returned.
unfoldable pub set_meta : Option Sequencer → Option ℕ → ℕ → ℕ → Option Sequencer
unfolding set_vp8_payload_meta
set_meta none entry tlz_idx pic_id = none
set_meta (some n) none tlz_idx pic_id = some n
set_meta (some n) (some i) tlz_idx pic_id =
    some (record n { seq = update n.seq i (set_vp8_payload_meta (n.seq i) tlz_idx pic_id) })

-- From the sequencer on, with the payload and the VP8 indices that go out.
unfoldable pub send_simulcast :
    DownTrack → ExtPacket → Bool → List ℕ → ℕ → ℕ → ℕ → ℕ → DownTrack × List Action
unfolding sequence set_meta update_stats
send_simulcast d p is_temporal payload pic_id tlz_idx new_sn new_ts =
    let (d₁, entry) =
      sequence d p.packet.sequence_number new_sn new_ts (d.current_spatial_layer % 256) p.head in
    let d₂ = record d₁ {
      sequencer =
          if is_temporal then set_meta (d₁.sequencer) entry tlz_idx pic_id else d₁.sequencer;
    } in
    let d₃ = remember (update_stats d₂ (length p.packet.payload)) p.head new_sn new_ts in
    (
      record d₃ { helpers = record (d₃.helpers) { l_ts_calc = p.arrival } },
      write_rtp (rewritten d p.packet new_sn new_ts payload) ∷ [],
    )

-- What becomes of a packet of a stream with temporal layers.
unfoldable pub send_rewritten : DownTrack → ExtPacket → ℕ → ℕ → Rewrite → DownTrack × List Action
unfolding send_simulcast
send_rewritten d p new_sn new_ts drop = (record d { sn_offset = add16 d.sn_offset 1 }, [])
send_rewritten d p new_sn new_ts broken = (d, panic ∷ [])
send_rewritten d p new_sn new_ts untouched = send_simulcast d p true [] 0 0 new_sn new_ts
send_rewritten d p new_sn new_ts (done buf pic_id tlz_idx) =
    send_simulcast d p true buf pic_id tlz_idx new_sn new_ts

unfoldable pub forward_simulcast : DownTrack → ExtPacket → DownTrack × List Action
unfolding is_vp8 set_vp8_temporal_layer send_rewritten
forward_simulcast d p =
    let new_sn = sub16 p.packet.sequence_number d.sn_offset in
    let new_ts = sub32 p.packet.timestamp d.ts_offset in
    let (d₁, rewrite) = set_vp8_temporal_layer d p in
    if d.helpers.temporal_supported && is_vp8 d
    then send_rewritten d₁ p new_sn new_ts rewrite
    else send_simulcast d p false p.packet.payload 0 0 new_sn new_ts

unfoldable pub write_simulcast : DownTrack → ExtPacket → ℕ → DownTrack × List Action
unfolding sync_source retime forward_simulcast
write_simulcast d p layer =
    if not (d.current_spatial_layer == layer)
    then (d, [])
    else if d.re_sync && not p.key_frame
    then (d, send_pli d.ssrc p.packet.ssrc ∷ [])
    else if not (d.last_ssrc == p.packet.ssrc) || d.re_sync
    then forward_simulcast (retime (sync_source d p) p) p
    else forward_simulcast (retime d p) p

unfoldable pub write_by_type : TrackType → DownTrack → ExtPacket → ℕ → DownTrack × List Action
unfolding write_simple write_simulcast
write_by_type unset d p layer = (d, [])
write_by_type simple d p layer = write_simple d p
write_by_type simulcast d p layer = write_simulcast d p layer

unfoldable pub write_rtp_packet : DownTrack → ExtPacket → ℕ → DownTrack × List Action
unfolding write_by_type
write_rtp_packet d p layer =
    if not d.enabled || not d.bound then (d, []) else write_by_type (d.track_type) d p layer
