-- ===== src/Receiver/Tests.antt =====
-- Each theorem at a concrete buffer and track.
use sample_nodejs_server.Prelude.{
  ℕ, zero, suc, ◌≡◌, refl, ap, true, false, List, [], ◌∷◌, some, none, arith, length,
}
use sample_nodejs_server.Prelude.Strings.{text}
use sample_nodejs_server.Bucket.{Bucket, new_bucket, push, get, add_packet}
use sample_nodejs_server.Bucket.Inv.{new_bucket-IsValid}
use sample_nodejs_server.Bucket.Lookup.{get-push}
use sample_nodejs_server.Sequencer.{Sequencer, PacketMeta, new_sequencer}
use sample_nodejs_server.Buffer.State.{Buffer, RtpPacket, Env, new_buffer, audio}
use sample_nodejs_server.Buffer.Calc.{calc}
use sample_nodejs_server.Buffer.Inv.{IsValid}
use sample_nodejs_server.DownTrack.State.{DownTrack, write_rtp, new_down_track, is_vp8}
use sample_nodejs_server.Receiver.Retransmit.{retransmit_packets}
use sample_nodejs_server.Receiver.Tracks.{WebRtcReceiver, put, take_pending}
use sample_nodejs_server.Receiver.Switches.{switched, switch_closes_others}
use sample_nodejs_server.Receiver.Answered.{given_out, requested_again}
use sample_nodejs_server.DownTrack.Simple.{write_simple}
use sample_nodejs_server.DownTrack.State.{ExtPacket}

-- A parser that knows one packet.
abbrev one_packet : RtpPacket
one_packet = record {
  packet = record {
    payload_type = 111;
    marker = false;
    sequence_number = 7;
    timestamp = 960;
    ssrc = 4;
    payload = 1 ∷ [];
  };
  extension = λ _. none;
}

abbrev any_env : Env
any_env = record {
  parse = λ _. some one_packet;
  parse_level = λ _. none;
  hears_level = false;
  lost_rate = λ _ _. 0;
  next_jitter = λ _ _. 0;
  jitter_word = λ _. 0;
  scaled_bitrate = λ br _. br;
}

abbrev slots : Bucket
slots = new_bucket (λ _. 0) 3000

abbrev audio_buffer : Buffer
audio_buffer = record (new_buffer 4) { bucket = some slots; codec_type = audio; bound = true }

audio_buffer-IsValid : IsValid audio_buffer
audio_buffer-IsValid = record {
  whole_cycles = refl;
  cycles_word = omega arith;
  max_word = omega arith;
  base_word = omega arith;
  slots = new_bucket-IsValid (λ _. 0) 3000 (omega arith) (omega arith);
  order = tt;
}

-- Its number is 7.
abbrev bytes : List ℕ
bytes = 128 ∷ 111 ∷ 0 ∷ 7 ∷ 1 ∷ []

abbrev track : DownTrack
track =
    record (new_down_track
      (record { mime_type = text "audio/opus"; clock_rate = 48000; sdp_fmtp_line = [] }) 4) {
        ssrc = 9;
        payload_type = 96;
        mime = text "audio/opus";
      }

abbrev places : Sequencer
places = new_sequencer 4 0

-- A track with a sequencer, that sends 100 numbers and 460 ticks below its publisher.
abbrev sequenced_track : DownTrack
sequenced_track = record track { sequencer = some places; sn_offset = 100; ts_offset = 460 }

abbrev as_parsed : ExtPacket
as_parsed = record {
  head = true;
  cycle = 0;
  arrival = 9;
  packet = one_packet.packet;
  vp8 = none;
  key_frame = false;
}

requested_again_example :
    ((write_simple sequenced_track as_parsed).1
      ≡ write_rtp (record {
        payload_type = 96;
        marker = false;
        sequence_number = 65443;
        timestamp = 500;
        ssrc = 9;
        payload = 1 ∷ [];
      })
        ∷ [])
    × ((retransmit_packets any_env
          (λ _. true)
          (λ _. some (calc any_env audio_buffer bytes 9 9).0)
          (given_out ((write_simple sequenced_track as_parsed).0.sequencer) 20 (65443 ∷ []))
          (write_simple sequenced_track as_parsed).0).1
        ≡ (write_simple sequenced_track as_parsed).1)
unfolding add_packet new_bucket is_vp8
requested_again_example =
    requested_again any_env (λ _. true) (λ _. some (calc any_env audio_buffer bytes 9 9).0)
      audio_buffer bytes 9 9 one_packet as_parsed sequenced_track places 20 audio_buffer-IsValid
      refl refl (omega arith) (omega arith) (omega arith) refl refl refl refl refl refl refl
      (record { step_in = omega arith; head_in = omega arith }) (omega arith)

abbrev zeros : ℕ → List ℕ
zeros zero = []
zeros (suc k) = 0 ∷ zeros k

length-zeros : (k : ℕ) → length (zeros k) ≡ k
length-zeros zero = refl
length-zeros (suc k) = ap (λ n. suc n) (length-zeros k)

-- 1470 bytes.
large_packet : List ℕ
large_packet = 128 ∷ 111 ∷ 0 ∷ 7 ∷ zeros 1466

abbrev large_slot : Bucket
large_slot = (push slots 7 large_packet).0

large_held : get large_slot 7 ≡ some large_packet
unfolding large_packet new_bucket
large_held =
    get-push 7 large_packet (new_bucket-IsValid (λ _. 0) 3000 (omega arith) (omega arith))
      (omega arith) (omega arith) (omega arith) (omega arith) (omega (arith, length-zeros 1466))

abbrev asked : PacketMeta
asked = record {
  source_seq_no = 7;
  target_seq_no = 30;
  timestamp = 500;
  last_nack = 0;
  layer = 0;
  misc = 0;
}

-- Two subscribers on layer 0, of whom the first waits for layer 1.
abbrev two_subscribers : WebRtcReceiver
two_subscribers = record {
  closed = false;
  is_simulcast = true;
  available = λ _. true;
  up_ssrc = λ _. 4;
  down_tracks = put (λ _. some []) 0 (some (1 ∷ 2 ∷ []));
  pending = put (λ _. false) 1 true;
  pending_tracks = put (λ _. []) 1 (1 ∷ []);
  tracks = λ _. track;
  ids = λ _. text "camera";
  gone = [];
}

switch_closes_others_example :
    (take_pending two_subscribers 1 true
      ≡ (some (switched two_subscribers 1 1 (1 ∷ 2 ∷ []) []), false))
    × ((switched two_subscribers 1 1 (1 ∷ 2 ∷ []) []).down_tracks 0 ≡ some [])
    × ((switched two_subscribers 1 1 (1 ∷ 2 ∷ []) []).down_tracks 1 ≡ some (1 ∷ []))
    × ((switched two_subscribers 1 1 (1 ∷ 2 ∷ []) []).gone ≡ 1 ∷ 2 ∷ [])
    × (((switched two_subscribers 1 1 (1 ∷ 2 ∷ []) []).tracks 1).current_spatial_layer ≡ 1)
switch_closes_others_example =
    switch_closes_others two_subscribers 1 1 (1 ∷ 2 ∷ []) [] refl refl refl (omega arith) refl
      (refl, (refl, tt)) refl
