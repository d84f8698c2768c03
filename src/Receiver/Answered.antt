-- ===== src/Receiver/Answered.antt =====
-- From a packet's way into the buffer and out to a subscriber to the answer to a request for it.
use sample_nodejs_server.Prelude.{
  ℕ, ◌+◌, ◌-◌, ◌%◌, sub16, sub32, ◌≤◌, ◌<◌, ◌≡◌, refl, ap, ◌∙◌, Bool, true, false, ◌&&◌, List, [],
  ◌∷◌, Option, none, some, arith, ltb, if◌then◌else◌, length, if_elim, ltb→le,
}
use sample_nodejs_server.Bucket.{
  Bucket, Result, ok, err, buffer_too_small, packet_not_found, packet_sn, add_packet, get,
  get_packet,
}
use sample_nodejs_server.Sequencer.{Sequencer, PacketMeta, push, get_seq_no_pairs, ref_time_at}
use sample_nodejs_server.Sequencer.Laws.{IsValid as SequencerIsValid, get-push_head}
use sample_nodejs_server.Buffer.State.{Buffer, RtpPacket, Env}
use sample_nodejs_server.Buffer.Calc.{calc}
use sample_nodejs_server.Buffer.Access.{fetch_packet, get_from}
use sample_nodejs_server.Buffer.Inv.{IsValid}
use sample_nodejs_server.Buffer.Packets.{fetch-calc}
use sample_nodejs_server.DownTrack.State.{
  DownTrack, Packet, ExtPacket, Action, write_rtp, is_vp8, update_stats,
}
use sample_nodejs_server.DownTrack.Simple.{push_to, sequence, forward_simple, write_simple}
use sample_nodejs_server.DownTrack.Numbers.{running, forward-Kept}
use mathlib.Core.Path.{ap₂}
use sample_nodejs_server.Receiver.Retransmit.{
  renumbered, Round, wrote, skipped, with_parsed, with_answer, with_buffer, after_round,
  retransmit_packets, packet_capacity,
}

-- A stream whose payload is not rewritten.
abbrev plain : DownTrack → Bool
plain d = d.helpers.temporal_supported && is_vp8 d

parsed_plain :
    (d : DownTrack) (meta : PacketMeta) (len : ℕ) (o : Option RtpPacket) (p : RtpPacket)
    → o ≡ some p
    → plain d ≡ false
    → with_parsed d meta len o ≡ wrote (renumbered d meta (p.packet)) len
parsed_plain d meta len o p e off =
    ap (with_parsed d meta len) e
    ∙ unfold with_parsed in
      if_elim (λ r. r ≡ wrote (renumbered d meta (p.packet)) len) (plain d) (λ on. cc) (λ _. refl)

fetched :
    (env : Env) (d : DownTrack) (meta : PacketMeta) (b : Buffer) (pkt : List ℕ) (p : RtpPacket)
    → fetch_packet b packet_capacity meta.source_seq_no ≡ some (ok pkt)
    → env.parse pkt ≡ some p
    → plain d ≡ false
    → with_buffer env d meta (some b) ≡ wrote (renumbered d meta (p.packet)) (length pkt)
unfolding with_buffer with_answer
fetched env d meta b pkt p found parsed off =
    ap (with_answer env d meta) found
    ∙ parsed_plain d meta (length pkt) (env.parse pkt) p parsed off

one_round :
    (env : Env) (sends : Packet → Bool) (buffers : ℕ → Option Buffer) (d : DownTrack)
    (meta : PacketMeta) (r : Round)
    → with_buffer env d meta (buffers meta.layer) ≡ r
    → retransmit_packets env sends buffers (meta ∷ []) d ≡ after_round sends d r (λ d'. (d', []))
unfolding retransmit_packets
one_round env sends buffers d meta r e = ap (λ x. after_round sends d x (λ d'. (d', []))) e

-- A packet that is in the bucket and in the sequencer of a track.
pushed_again :
    (env : Env) (sends : Packet → Bool) (buffers : ℕ → Option Buffer) (b : Buffer) {k : Bucket}
    (pkt : List ℕ) {stored : List ℕ} (arrival now : ℕ) (p : RtpPacket) (d : DownTrack)
    (n : Sequencer) (out_sn out_ts layer at : ℕ)
    → IsValid b
    → b.bucket ≡ some k
    → b.closed ≡ false
    → 4 ≤ length pkt
    → packet_sn pkt < 65536
    → length pkt ≤ 1460
    → (add_packet k pkt).1 ≡ ok stored
    → env.parse pkt ≡ some p
    → buffers layer ≡ some (calc env b pkt arrival now).0
    → (d.helpers.temporal_supported && is_vp8 d) ≡ false
    → SequencerIsValid n
    → 2 ≤ n.max
    → out_sn < 65536
    → (retransmit_packets env sends buffers
        (get_seq_no_pairs (push n (packet_sn pkt) out_sn out_ts layer true).0 at (out_sn ∷ [])).1
        d).1
      ≡ write_rtp (record (p.packet) {
        sequence_number = out_sn;
        timestamp = out_ts;
        ssrc = d.ssrc;
        payload_type = d.payload_type;
      })
        ∷ []
pushed_again env sends buffers b pkt arrival now p d n out_sn out_ts layer at v has is_open low
      sn_word high accepted parsed held off w two word =
    let meta : PacketMeta = record {
      source_seq_no = packet_sn pkt;
      target_seq_no = out_sn;
      timestamp = out_ts;
      last_nack = ref_time_at n at;
      layer = layer;
      misc = 0;
    } in
    let buff = (calc env b pkt arrival now).0 in
    let found : fetch_packet buff packet_capacity (packet_sn pkt) ≡ some (ok pkt) =
      fetch-calc env b pkt arrival now packet_capacity v has is_open low sn_word (omega arith)
        accepted high in
    let round : with_buffer env d meta (buffers layer)
        ≡ wrote (renumbered d meta (p.packet)) (length pkt) =
      ap (with_buffer env d meta) held ∙ fetched env d meta buff pkt p found parsed off in
    ap (λ metas. (retransmit_packets env sends buffers metas d).1)
      (get-push_head n (packet_sn pkt) out_sn out_ts layer at w two word)
    ∙ ap (λ (r : DownTrack × List Action). r.1)
        (one_round env sends buffers d meta (wrote (renumbered d meta (p.packet)) (length pkt))
          round)
    ∙ unfold after_round in refl

-- The entries that a track's sequencer has for requested numbers.
abbrev pub given_out : Option Sequencer → ℕ → List ℕ → List PacketMeta
given_out none at sns = []
given_out (some n) at sns = (get_seq_no_pairs n at sns).1

sequencer-forward :
    (d : DownTrack) (p : ExtPacket) (n : Sequencer)
    → d.sequencer ≡ some n
    → p.head ≡ true
    → (forward_simple d p).0.sequencer
      ≡ some
          (push n p.packet.sequence_number
            (sub16 p.packet.sequence_number d.sn_offset)
            (sub32 p.packet.timestamp d.ts_offset)
            0
            true).0
unfolding forward_simple update_stats sequence push_to
sequencer-forward d p n has newest =
    let sn = p.packet.sequence_number in
    let out_sn = sub16 sn d.sn_offset in
    let out_ts = sub32 p.packet.timestamp d.ts_offset in
    let pushed = ap₂ (λ o h. (push_to o sn out_sn out_ts 0 h).0) has newest in
    if_elim (λ (e : DownTrack). e.sequencer ≡ some (push n sn out_sn out_ts 0 true).0) p.head
      (λ _. pushed) (λ _. pushed)

plain-forward : (d : DownTrack) (p : ExtPacket) → plain (forward_simple d p).0 ≡ plain d
unfolding forward_simple update_stats sequence is_vp8
plain-forward d p = if_elim (λ (e : DownTrack). plain e ≡ plain d) p.head (λ _. refl) (λ _. refl)

-- End to end: a packet of 4 to 1460 bytes comes to the well-formed open buffer of layer 0, whose
-- bucket accepts it, and the parser reads the number that the bucket reads. Parsed, it is written,
-- as the newest one of its stream, to a down track that is not simulcast and waits for no start,
-- that does not rewrite payloads and has a valid sequencer of two places or more. It goes out with
-- the track's SSRC and payload type, under its number and timestamp less the track's offsets; and
-- when the subscriber requests that outgoing number next, the same packet goes out again.
pub requested_again :
    (env : Env) (sends : Packet → Bool) (buffers : ℕ → Option Buffer) (b : Buffer) {k : Bucket}
    (pkt : List ℕ) {stored : List ℕ} (arrival now : ℕ) (p : RtpPacket) (ext : ExtPacket)
    (d : DownTrack) (n : Sequencer) (at : ℕ)
    → IsValid b
    → b.bucket ≡ some k
    → b.closed ≡ false
    → 4 ≤ length pkt
    → packet_sn pkt < 65536
    → length pkt ≤ 1460
    → (add_packet k pkt).1 ≡ ok stored
    → env.parse pkt ≡ some p
    → p.packet.sequence_number ≡ packet_sn pkt
    → buffers 0 ≡ some (calc env b pkt arrival now).0
    → d.re_sync ≡ false
    → (d.helpers.temporal_supported && is_vp8 d) ≡ false
    → d.sequencer ≡ some n
    → SequencerIsValid n
    → 2 ≤ n.max
    → let sn = (p.packet.sequence_number + 65536 - d.sn_offset) % 65536 in
      let (d', out) = write_simple d (record ext { head = true; packet = p.packet }) in
      (out
        ≡ write_rtp (record (p.packet) {
          payload_type = d.payload_type;
          sequence_number = sn;
          timestamp = (p.packet.timestamp + 4294967296 - d.ts_offset) % 4294967296;
          ssrc = d.ssrc;
        })
          ∷ [])
      × ((retransmit_packets env sends buffers (given_out (d'.sequencer) at (sn ∷ [])) d').1 ≡ out)
requested_again env sends buffers b pkt arrival now p ext d n at v has is_open low sn_word high
      accepted parsed same_sn held runs off sequenced w two =
    let e : ExtPacket = record ext { head = true; packet = p.packet } in
    let sn = sub16 p.packet.sequence_number d.sn_offset in
    let ts = sub32 p.packet.timestamp d.ts_offset in
    let d' = (forward_simple d e).0 in
    let kept = forward-Kept d e in
    let again =
      pushed_again env sends buffers b pkt arrival now p d' n sn ts 0 at v has is_open low sn_word
        high accepted parsed held (plain-forward d e ∙ off) w two (omega arith) in
    let pushed =
      sequencer-forward d e n sequenced refl ∙ ap (λ x. some (push n x sn ts 0 true).0) same_sn in
    rw (running d e runs) (
      unfold forward_simple in refl,
      ap (λ o. (retransmit_packets env sends buffers (given_out o at (sn ∷ [])) d').1) pushed
          ∙ again
          ∙ ap₂
              (λ x y.
                write_rtp (record (p.packet) {
                  sequence_number = sn;
                  timestamp = ts;
                  ssrc = x;
                  payload_type = y;
                })
                ∷ [])
              kept.ssrc kept.payload_type
          ∙ unfold forward_simple in refl,
    )

refused_large :
    (k : Bucket) (sn : ℕ) (pkt : List ℕ)
    → get k sn ≡ some pkt
    → 1460 < length pkt
    → get_packet k packet_capacity sn ≡ err buffer_too_small
unfolding get_packet
refused_large k sn pkt found large =
    ap answer found
    ∙ if_elim (λ (r : Result (List ℕ)). r ≡ err buffer_too_small) (ltb packet_capacity (length pkt))
        (λ _. refl) (λ fits. absurd (omega (arith, ltb→le packet_capacity (length pkt) fits)))
  where
    answer : Option (List ℕ) → Result (List ℕ)
    answer o = elim o [
      | none ↦ err packet_not_found
      | some p ↦ if ltb packet_capacity (length p) then err buffer_too_small else ok p
    ]

large_fetch :
    (b : Buffer) (k : Bucket) (sn : ℕ) (pkt : List ℕ)
    → b.closed ≡ false
    → b.bucket ≡ some k
    → get k sn ≡ some pkt
    → 1460 < length pkt
    → fetch_packet b packet_capacity sn ≡ some (err buffer_too_small)
unfolding fetch_packet get_from
large_fetch b k sn pkt is_open has found large =
    rw (is_open)
      (ap some (ap (λ q. get_from q packet_capacity sn) has ∙ refused_large k sn pkt found large))

unanswered :
    (env : Env) (d : DownTrack) (meta : PacketMeta) (b : Buffer) (k : Bucket) (pkt : List ℕ)
    → b.closed ≡ false
    → b.bucket ≡ some k
    → get k meta.source_seq_no ≡ some pkt
    → 1460 < length pkt
    → with_buffer env d meta (some b) ≡ skipped
unfolding with_buffer with_answer
unanswered env d meta b k pkt is_open has found large =
    ap (with_answer env d meta) (large_fetch b k meta.source_seq_no pkt is_open has found large)

-- A packet of 1461 to 1498 bytes fits into the bucket, but not into a slice of the packet factory: no
-- request for it is answered, whatever it holds.
pub too_large :
    (env : Env) (sends : Packet → Bool) (buffers : ℕ → Option Buffer) (b : Buffer) (k : Bucket)
    (pkt : List ℕ) (d : DownTrack) (meta : PacketMeta)
    → buffers meta.layer ≡ some b
    → b.closed ≡ false
    → b.bucket ≡ some k
    → get k meta.source_seq_no ≡ some pkt
    → 1460 < length pkt
    → retransmit_packets env sends buffers (meta ∷ []) d ≡ (d, [])
too_large env sends buffers b k pkt d meta held is_open has found large =
    one_round env sends buffers d meta skipped
      (ap (with_buffer env d meta) held ∙ unanswered env d meta b k pkt is_open has found large)
    ∙ unfold after_round in refl
