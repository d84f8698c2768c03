-- ===== src/DownTrack/Drops.antt =====
-- The numbers of a simulcast track across packets of layers that are not sent.
use mathlib.Core.Path.{ap₂}
use sample_nodejs_server.Prelude.{
  ℕ, ◌+◌, ◌-◌, ◌/◌, ◌%◌, ◌<◌, ◌≤◌, ◌≡◌, ◌≢◌, ltb, leb, length, refl, sym, ap, ◌∙◌, Bool, true,
  false, not, ◌&&◌, ◌||◌, List, [], ◌∷◌, Option, none, some, arith, ◌==◌, if◌then◌else◌, add16,
  sub16, sub32, if_elim, ==→eq,
}
use sample_nodejs_server.Vp8.{Vp8}
use sample_nodejs_server.TemporalLayer.{modify_vp8_temporal_payload}
use sample_nodejs_server.DownTrack.State.{DownTrack, ExtPacket, Action, write_rtp, is_vp8}
use sample_nodejs_server.DownTrack.Simple.{rewritten}
use sample_nodejs_server.DownTrack.Simulcast.{
  Rewrite, drop, broken, done, sent_layer, wanted_layer, take_layer, out_pic_id, out_tlz_idx,
  is_dropped, set_layer_of, set_vp8_temporal_layer, retime, send_simulcast, send_rewritten,
  forward_simulcast, write_simulcast,
}

-- A track in the middle of a stream: it sends this layer of this source.
pub record IsRunning (d : DownTrack) (p : ExtPacket) (layer : ℕ) : Type 0 where
  pub sends : d.current_spatial_layer ≡ layer
  pub in_step : d.re_sync ≡ false
  pub begun : d.helpers.l_ts_calc ≢ 0
  pub same_source : d.last_ssrc ≡ p.packet.ssrc

pub clash {ℓ} : {A : Type ℓ} {b : Bool} → b ≡ true → b ≡ false → A
clash f g = absurd (let e : true ≡ false = sym f ∙ g in cc)

running_retime : (d : DownTrack) (p : ExtPacket) (layer : ℕ) → IsRunning d p layer → retime d p ≡ d
unfolding retime
running_retime d p layer v =
    if_elim (λ e. e ≡ d) (not (d.helpers.l_ts_calc == 0) && not (d.last_ssrc == p.packet.ssrc))
      (λ other. absurd (ground (arith, other, v.same_source)))
      (λ _.
        if_elim (λ e. e ≡ d) (d.helpers.l_ts_calc == 0) (λ z. absurd (v.begun (==→eq _ _ z)))
          (λ _. refl))

running_forward :
    (d : DownTrack) (p : ExtPacket) (layer : ℕ)
    → IsRunning d p layer
    → write_simulcast d p layer ≡ forward_simulcast d p
unfolding write_simulcast
running_forward d p layer v =
    if_elim (λ r. r ≡ forward_simulcast d p) (not (d.current_spatial_layer == layer))
      (λ other. absurd (ground (arith, other, v.sends)))
      λ _.
        if_elim (λ r. r ≡ forward_simulcast d p) (d.re_sync && not p.key_frame)
          (λ waits. absurd (ground (arith, waits, v.in_step)))
          λ _.
            if_elim (λ r. r ≡ forward_simulcast d p)
              (not (d.last_ssrc == p.packet.ssrc) || d.re_sync)
              (λ other. absurd (ground (arith, other, v.same_source, v.in_step)))
              (λ _. ap (λ e. forward_simulcast e p) (running_retime d p layer v))

set_drop :
    (d : DownTrack) (p : ExtPacket) (v : Option Vp8) (pkt : Vp8)
    → v ≡ some pkt
    → is_dropped d pkt ≡ true
    → set_layer_of d p v ≡ (d, drop)
set_drop d p v pkt e drops =
    ap (set_layer_of d p) e
    ∙ unfold set_layer_of in
      if_elim (λ r. r ≡ (d, drop)) (is_dropped d pkt) (λ _. refl) (λ off. clash drops off)

-- A dropped packet moves the offset on by one.
abbrev skipped : DownTrack → DownTrack
skipped d = record d { sn_offset = add16 d.sn_offset 1 }

forward_drop :
    (d : DownTrack) (p : ExtPacket) (pkt : Vp8)
    → (d.helpers.temporal_supported && is_vp8 d) ≡ true
    → p.vp8 ≡ some pkt
    → is_dropped d pkt ≡ true
    → forward_simulcast d p ≡ (skipped d, [])
unfolding forward_simulcast set_vp8_temporal_layer send_rewritten
forward_drop d p pkt temporal parsed drops =
    if_elim (λ r. r ≡ (skipped d, [])) (d.helpers.temporal_supported && is_vp8 d)
      (λ _.
        ap
          (λ (x : DownTrack × Rewrite).
            send_rewritten x.0 p (sub16 p.packet.sequence_number d.sn_offset)
              (sub32 p.packet.timestamp d.ts_offset) x.1)
          (set_drop d p (p.vp8) pkt parsed drops))
      (λ off. clash temporal off)

-- A packet of the layer that is sent, or of a lower one, while no switch is due.
set_kept :
    (d : DownTrack) (p : ExtPacket) (v : Option Vp8) (pkt : Vp8) (payload : List ℕ)
    → v ≡ some pkt
    → wanted_layer d ≡ sent_layer d
    → pkt.tid ≤ sent_layer d % 256
    → length p.packet.payload ≤ 1460
    → modify_vp8_temporal_payload p.packet.payload pkt.pic_id_idx pkt.tlz_idx
        (out_pic_id (d.helpers) pkt)
        (out_tlz_idx (d.helpers) pkt)
        pkt.m_bit
      ≡ some payload
    → let r = set_layer_of d p v in
      (r.1 ≡ done payload (out_pic_id (d.helpers) pkt) (out_tlz_idx (d.helpers) pkt))
      × ((r.0.payload_type ≡ d.payload_type) × (r.0.ssrc ≡ d.ssrc))
unfolding set_layer_of take_layer
set_kept d p v pkt payload e settled low fits changed = rw e (
    if_elim IsKept (is_dropped d pkt) (λ off. absurd (ground (arith, off, low)))
      (λ _.
        if_elim IsKept (ltb 1460 (length p.packet.payload))
          (λ long. absurd (ground (arith, long, fits))) (λ _. (ap outcome changed, of_head))))
  where
    pic_id : ℕ
    pic_id = out_pic_id (d.helpers) pkt

    tlz_idx : ℕ
    tlz_idx = out_tlz_idx (d.helpers) pkt

    IsKept : DownTrack × Rewrite → Type 0
    IsKept r =
        (r.1 ≡ done payload pic_id tlz_idx)
        × ((r.0.payload_type ≡ d.payload_type) × (r.0.ssrc ≡ d.ssrc))

    outcome : Option (List ℕ) → Rewrite
    outcome o = elim o [ none ↦ broken | some buf ↦ done buf pic_id tlz_idx ]

    of_layer :
        ((take_layer d pkt).payload_type ≡ d.payload_type) × ((take_layer d pkt).ssrc ≡ d.ssrc)
    of_layer =
        if_elim (λ (t : DownTrack). (t.payload_type ≡ d.payload_type) × (t.ssrc ≡ d.ssrc))
          (not (wanted_layer d == sent_layer d) && leb pkt.tid (wanted_layer d % 256))
          (λ _. (refl, refl)) (λ _. (refl, refl))

    of_head :
        let t : DownTrack =
          if p.head
          then record (take_layer d pkt) {
            helpers = record ((take_layer d pkt).helpers) {
              l_pic_id = pic_id;
              l_tlz_idx = tlz_idx;
            };
          }
          else take_layer d pkt in
        (t.payload_type ≡ d.payload_type) × (t.ssrc ≡ d.ssrc)
    of_head =
        if_elim (λ (t : DownTrack). (t.payload_type ≡ d.payload_type) × (t.ssrc ≡ d.ssrc)) p.head
          (λ _. of_layer) (λ _. of_layer)

-- It goes out with the rewritten payload.
forward_kept :
    (d : DownTrack) (p : ExtPacket) (pkt : Vp8) (payload : List ℕ)
    → (d.helpers.temporal_supported && is_vp8 d) ≡ true
    → p.vp8 ≡ some pkt
    → wanted_layer d ≡ sent_layer d
    → pkt.tid ≤ sent_layer d % 256
    → length p.packet.payload ≤ 1460
    → modify_vp8_temporal_payload p.packet.payload pkt.pic_id_idx pkt.tlz_idx
        (out_pic_id (d.helpers) pkt)
        (out_tlz_idx (d.helpers) pkt)
        pkt.m_bit
      ≡ some payload
    → (forward_simulcast d p).1
      ≡ write_rtp (
          rewritten d
            (p.packet)
            (sub16 p.packet.sequence_number d.sn_offset)
            (sub32 p.packet.timestamp d.ts_offset)
            payload)
        ∷ []
unfolding forward_simulcast set_vp8_temporal_layer send_rewritten send_simulcast
forward_kept d p pkt payload temporal parsed settled low fits changed =
    let sn = sub16 p.packet.sequence_number d.sn_offset in
    let ts = sub32 p.packet.timestamp d.ts_offset in
    let r = set_layer_of d p (p.vp8) in
    let (made, (type, source)) = set_kept d p (p.vp8) pkt payload parsed settled low fits changed in
    if_elim
      (λ (x : DownTrack × List Action). x.1 ≡ write_rtp (rewritten d (p.packet) sn ts payload) ∷ [])
      (d.helpers.temporal_supported && is_vp8 d)
      (λ _.
        ap (λ x. (send_rewritten r.0 p sn ts x).1) made
        ∙ ap₂
            (λ x y.
              write_rtp (record (p.packet) {
                payload_type = x;
                timestamp = ts;
                sequence_number = sn;
                ssrc = y;
                payload = payload;
              })
              ∷ [])
            type source)
      (λ off. clash temporal off)

-- A packet above the temporal layer that is sent is dropped without a trace in the numbers: on a
-- running track whose VP8 stream has temporal layers, while the wanted layer is the one that is
-- sent, nothing goes out for it. The next packet of the same source, if it has the next number and is
-- of the sent layer or a lower one, with a payload of at most 1460 bytes and its indices inside,
-- goes out under the number that the dropped one would have had, with the track's payload type and
-- SSRC, its timestamp less the offset, and its payload under its new picture number and index.
pub dropped_closes_gap :
    (d : DownTrack) (p q : ExtPacket) (pkt next : Vp8) (payload : List ℕ) (layer : ℕ)
    → IsRunning d p layer
    → IsRunning d q layer
    → (d.helpers.temporal_supported && is_vp8 d) ≡ true
    → d.temporal_layer / 65536 ≡ d.temporal_layer % 65536
    → p.vp8 ≡ some pkt
    → d.temporal_layer % 65536 % 256 < pkt.tid
    → q.packet.sequence_number ≡ (p.packet.sequence_number + 1) % 65536
    → q.vp8 ≡ some next
    → next.tid ≤ d.temporal_layer % 65536 % 256
    → length q.packet.payload ≤ 1460
    → modify_vp8_temporal_payload q.packet.payload next.pic_id_idx next.tlz_idx
        (out_pic_id (d.helpers) next)
        (out_tlz_idx (d.helpers) next)
        next.m_bit
      ≡ some payload
    → d.sn_offset < 65536
    → let (d', out) = write_simulcast d p layer in
      (out ≡ [])
      × ((write_simulcast d' q layer).1
          ≡ write_rtp (record {
            payload_type = d.payload_type;
            marker = q.packet.marker;
            sequence_number = (p.packet.sequence_number + 65536 - d.sn_offset) % 65536;
            timestamp = (q.packet.timestamp + 4294967296 - d.ts_offset) % 4294967296;
            ssrc = d.ssrc;
            payload = payload;
          })
            ∷ [])
dropped_closes_gap d p q pkt next payload layer v w temporal settled parsed above follows
      next_parsed low fits changed word =
    let drops : is_dropped d pkt ≡ true = ground (arith, settled, above) in
    let e = running_forward d p layer v ∙ forward_drop d p pkt temporal parsed drops in
    let w' : IsRunning (skipped d) q layer = record {
      sends = w.sends;
      in_step = w.in_step;
      begun = w.begun;
      same_source = w.same_source;
    } in
    (
      ap (λ (r : DownTrack × List Action). r.1) e,
      ap (λ (r : DownTrack × List Action). (write_simulcast r.0 q layer).1) e
          ∙ (ap (λ (r : DownTrack × List Action). r.1) (running_forward (skipped d) q layer w')
              ∙ (forward_kept (skipped d) q next payload (unfold is_vp8 in temporal) next_parsed
                    settled low fits changed
                  ∙ ap
                      (λ sn.
                        write_rtp
                          (rewritten d (q.packet) sn (sub32 q.packet.timestamp d.ts_offset) payload)
                        ∷ [])
                      (ap (λ sn. sub16 sn (add16 d.sn_offset 1)) follows
                        ∙ closes p.packet.sequence_number d.sn_offset word))),
    )
  where
    closes :
        (sn offset : ℕ) → offset < 65536 → sub16 (add16 sn 1) (add16 offset 1) ≡ sub16 sn offset
    closes sn offset h = omega arith
