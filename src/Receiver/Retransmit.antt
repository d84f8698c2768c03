-- ===== src/Receiver/Retransmit.antt =====
-- `RetransmitPackets`: the packets that a subscriber has missed, out of the publisher's buffers.
use sample_nodejs_server.Prelude.{
  ℕ, Bool, ◌&&◌, List, [], ◌∷◌, Option, none, some, if◌then◌else◌, length,
}
use sample_nodejs_server.Bucket.{
  Result, ok, err, out_of_range, packet_not_found, buffer_too_small, packet_too_old, rtx_packet,
}
use sample_nodejs_server.Vp8.{
  Vp8, Error as DescriptorError, short_packet, nil_packet, index_out_of_range, unmarshal,
}
use sample_nodejs_server.TemporalLayer.{modify_vp8_temporal_payload}
use sample_nodejs_server.Sequencer.{PacketMeta, get_vp8_payload_meta}
use sample_nodejs_server.Buffer.State.{Buffer, RtpPacket, Env}
use sample_nodejs_server.Buffer.Calc.{no_vp8}
use sample_nodejs_server.Buffer.Access.{fetch_packet}
use sample_nodejs_server.DownTrack.State.{
  DownTrack, Packet, Action, write_rtp, panic, is_vp8, update_stats,
}

-- The length of the slices of `packetFactory`.
abbrev pub packet_capacity : ℕ
packet_capacity = 1460

-- What one round of the loop comes to: it ends the loop, goes on to the next packet, writes a packet
-- that had this many bytes, or panics.
pub data Round : Type 0 where
  ended skipped crashed : Round
  wrote : Packet → ℕ → Round

abbrev pub renumbered : DownTrack → PacketMeta → Packet → Packet
renumbered d meta p = record p {
  sequence_number = meta.target_seq_no;
  timestamp = meta.timestamp;
  ssrc = d.ssrc;
  payload_type = d.payload_type;
}

unfoldable pub with_payload : Packet → ℕ → Option (List ℕ) → Round
with_payload p len none = crashed
with_payload p len (some payload) = wrote (record p { payload = payload }) len

-- With the VP8 descriptor of the payload.
unfoldable pub with_indices : PacketMeta → Packet → ℕ → Vp8 × Option DescriptorError → Round
unfolding with_payload modify_vp8_temporal_payload get_vp8_payload_meta
with_indices meta p len (vp8, none) =
    let (tlzo_id, pic_id) = get_vp8_payload_meta meta in
    with_payload p len
      (modify_vp8_temporal_payload (p.payload) vp8.pic_id_idx vp8.tlz_idx pic_id tlzo_id vp8.m_bit)
with_indices meta p len (vp8, some index_out_of_range) = crashed
with_indices meta p len (vp8, some short_packet) = skipped
with_indices meta p len (vp8, some nil_packet) = skipped

-- On what `rtp.Packet.Unmarshal` makes of the bytes.
unfoldable pub with_parsed : DownTrack → PacketMeta → ℕ → Option RtpPacket → Round
unfolding is_vp8 with_indices unmarshal
with_parsed d meta len none = skipped
with_parsed d meta len (some p) =
    let pkt = renumbered d meta (p.packet) in
    if d.helpers.temporal_supported && is_vp8 d
    then with_indices meta pkt len (unmarshal no_vp8 (some (p.packet.payload)))
    else wrote pkt len

-- On what the buffer answers.
unfoldable pub with_answer : Env → DownTrack → PacketMeta → Option (Result (List ℕ)) → Round
unfolding with_parsed
with_answer env d meta none = ended
with_answer env d meta (some (ok bytes)) = with_parsed d meta (length bytes) (env.parse bytes)
with_answer env d meta (some (err out_of_range)) = crashed
with_answer env d meta (some (err packet_not_found)) = skipped
with_answer env d meta (some (err buffer_too_small)) = skipped
with_answer env d meta (some (err packet_too_old)) = skipped
with_answer env d meta (some (err rtx_packet)) = skipped

unfoldable pub with_buffer : Env → DownTrack → PacketMeta → Option Buffer → Round
unfolding fetch_packet with_answer
with_buffer env d meta none = ended
with_buffer env d meta (some buff) =
    with_answer env d meta (fetch_packet buff packet_capacity meta.source_seq_no)

-- A round and the rounds after it; `sends` says whether a write succeeds.
unfoldable pub after_round :
    (Packet → Bool)
    → DownTrack
    → Round
    → (DownTrack → DownTrack × List Action)
    → DownTrack × List Action
unfolding update_stats
after_round sends d ended rest = (d, [])
after_round sends d crashed rest = (d, panic ∷ [])
after_round sends d skipped rest = rest d
after_round sends d (wrote p len) rest =
    let (d', actions) = rest (if sends p then update_stats d len else d) in
    (d', write_rtp p ∷ actions)

-- The job of the worker, with the buffer of each layer.
unfoldable pub retransmit_packets :
    Env
    → (Packet → Bool)
    → (ℕ → Option Buffer)
    → List PacketMeta
    → DownTrack
    → DownTrack × List Action
unfolding with_buffer after_round
retransmit_packets env sends buffers [] d = (d, [])
retransmit_packets env sends buffers (meta ∷ metas) d =
    after_round sends d (with_buffer env d meta (buffers meta.layer))
      (λ d'. retransmit_packets env sends buffers metas d')
