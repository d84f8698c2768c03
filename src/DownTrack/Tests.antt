-- ===== src/DownTrack/Tests.antt =====
-- Each theorem at a concrete track.
use sample_nodejs_server.Prelude.{◌≡◌, refl, true, false, List, [], ◌∷◌, some, none, arith, map}
use sample_nodejs_server.Prelude.Strings.{text}
use sample_nodejs_server.Vp8.{Vp8}
use sample_nodejs_server.TemporalLayer.{set_byte, modify_vp8_temporal_payload}
use sample_nodejs_server.DownTrack.State.{
  Capability, DownTrack, Packet, ExtPacket, simulcast, new_down_track, new_helpers, is_video,
  is_vp8, write_rtp, mute,
}
use sample_nodejs_server.DownTrack.Layers.{Receiver}
use sample_nodejs_server.DownTrack.Simulcast.{write_simulcast, write_rtp_packet}
use sample_nodejs_server.Ntp.{to_ntp_time}
use sample_nodejs_server.DownTrack.Binding.{
  Codec, codec_parameters_fuzzy_search, bind, create_sender_report,
}
use sample_nodejs_server.DownTrack.Start.{started, bind_then_write, sender_report_clock}
use sample_nodejs_server.DownTrack.Numbers.{sent, write_all, write_all-sent}
use sample_nodejs_server.DownTrack.Pending.{SameLayers, here, next, mute_call, Reach-pending}
use sample_nodejs_server.DownTrack.Drops.{IsRunning, dropped_closes_gap}
use sample_nodejs_server.DownTrack.Sources.{source_switch}

-- A track of VP8 in the middle of a stream, and one that waits for its start.
abbrev vp8_codec : Capability
vp8_codec = record { mime_type = text "video/VP8"; clock_rate = 90000; sdp_fmtp_line = [] }

abbrev video_track : DownTrack
video_track = record (new_down_track vp8_codec 3) {
  bound = true;
  enabled = true;
  mime = text "video/vp8";
  ssrc = 9;
  payload_type = 96;
  sn_offset = 100;
  ts_offset = 1000;
  last_ssrc = 4;
  last_sn = 65535;
  last_ts = 8000;
}

abbrev waiting_track : DownTrack
waiting_track = record video_track { re_sync = true }

abbrev simulcast_track : DownTrack
simulcast_track = record video_track {
  track_type = simulcast;
  helpers = record new_helpers { temporal_supported = true; l_ts_calc = 7000000000 };
}

abbrev first_packet : Packet
first_packet = record {
  payload_type = 100;
  marker = false;
  sequence_number = 105;
  timestamp = 9000;
  ssrc = 4;
  payload = 16 ∷ 1 ∷ [];
}

abbrev second_packet : Packet
second_packet = record first_packet { sequence_number = 106; timestamp = 9100 }

abbrev arrived : Packet → ExtPacket
arrived p = record {
  head = true;
  cycle = 0;
  arrival = 7020000000;
  packet = p;
  vp8 = none;
  key_frame = false;
}

abbrev layer_two : Vp8
layer_two = record {
  temporal_supported = true;
  picture_id = 5;
  pic_id_idx = 2;
  m_bit = true;
  tl0_pic_idx = 3;
  tlz_idx = 4;
  tid = 2;
  is_key_frame = false;
}

abbrev any_receiver : Receiver
any_receiver = record {
  switch_down_track = λ _. true;
  bitrate = λ _. 500000;
  max_temporal_layer = λ _. 2;
}

write_all-sent_example :
    (write_all video_track (arrived first_packet ∷ arrived second_packet ∷ [])).1
    ≡ map
        (λ (p : ExtPacket). write_rtp (sent video_track (p.packet)))
        (arrived first_packet ∷ arrived second_packet ∷ [])
write_all-sent_example =
    write_all-sent video_track (arrived first_packet ∷ arrived second_packet ∷ []) refl

-- A track that waits for layer 2, through a mute and a refused switch.
abbrev pending_track : DownTrack
pending_track = record simulcast_track { target_spatial_layer = 2 }

Reach-pending_example : SameLayers pending_track (mute pending_track true)
Reach-pending_example = Reach-pending (next here (mute_call true)) (omega arith)

-- A packet of layer 2 on a track that sends layer 0, and the next one, of layer 0.
abbrev upper_packet : ExtPacket
upper_packet = record (arrived first_packet) { vp8 = some layer_two }

abbrev lower_packet : ExtPacket
lower_packet = record (arrived second_packet) {
  packet = record second_packet { payload = 144 ∷ 224 ∷ 128 ∷ 5 ∷ 3 ∷ 0 ∷ 9 ∷ [] };
  vp8 = some (record layer_two { tid = 0 });
}

dropped_closes_gap_example :
    let (d', out) = write_simulcast simulcast_track upper_packet 0 in
    (out ≡ [])
    × ((write_simulcast d' lower_packet 0).1
        ≡ write_rtp (record {
          payload_type = 96;
          marker = false;
          sequence_number = 5;
          timestamp = 8100;
          ssrc = 9;
          payload = 144 ∷ 224 ∷ 128 ∷ 6 ∷ 4 ∷ 0 ∷ 9 ∷ [];
        })
          ∷ [])
unfolding is_vp8 modify_vp8_temporal_payload set_byte
dropped_closes_gap_example =
    dropped_closes_gap simulcast_track upper_packet lower_packet layer_two
      (record layer_two { tid = 0 }) (144 ∷ 224 ∷ 128 ∷ 6 ∷ 4 ∷ 0 ∷ 9 ∷ []) 0 (going refl)
      (going refl) refl refl refl (omega arith) refl refl (omega arith) (omega arith) refl
      (omega arith)
  where
    going : {p : ExtPacket} → 4 ≡ p.packet.ssrc → IsRunning simulcast_track p 0
    going e = record { sends = refl; in_step = refl; begun = omega arith; same_source = e }

source_switch_example :
    (write_simulcast
      (record simulcast_track { helpers = record new_helpers { l_ts_calc = 7000000000 } })
      (arrived (record first_packet { ssrc = 5 }))
      0).1
    ≡ write_rtp
        (record first_packet { payload_type = 96; sequence_number = 0; timestamp = 8001; ssrc = 9 })
      ∷ []
unfolding is_vp8
source_switch_example =
    source_switch
      (record simulcast_track { helpers = record new_helpers { l_ts_calc = 7000000000 } })
      (arrived (record first_packet { ssrc = 5 })) 0
      (record {
        sends = refl;
        in_step = refl;
        begun = omega arith;
        new_source = omega arith;
        words = (omega arith, omega arith, omega arith, omega arith);
      })
      refl (omega arith) (omega arith)

abbrev offered : List Codec
offered =
    record {
      capability = record { mime_type = text "audio/opus"; clock_rate = 48000; sdp_fmtp_line = [] };
      payload_type = 111;
    }
    ∷ record { capability = record vp8_codec { mime_type = text "video/vp8" }; payload_type = 97 }
    ∷ []

bind_then_write_example :
    (write_rtp_packet
      (started vp8_codec 3 offered 9 1000)
      (record (arrived first_packet) { key_frame = true })
      0).1
    ≡ write_rtp (record first_packet { payload_type = 97; ssrc = 9 }) ∷ []
unfolding codec_parameters_fuzzy_search is_video bind
bind_then_write_example =
    bind_then_write vp8_codec 3 offered 9 1000
      (record { capability = record vp8_codec { mime_type = text "video/vp8" }; payload_type = 97 })
      (record (arrived first_packet) { key_frame = true }) 0 refl refl (omega arith) (omega arith)

sender_report_clock_example :
    create_sender_report video_track 1000 (to_ntp_time 3900000000000000000) 3900000002000000000
    ≡ some (record {
      ssrc = 9;
      ntp_time = to_ntp_time 3900000002000000000;
      rtp_time = 181000;
      packet_count = 0;
      octet_count = 0;
    })
sender_report_clock_example =
    sender_report_clock video_track 1000 3900000000000000000 2000000000 refl (omega arith)
      (omega arith) (omega arith)
