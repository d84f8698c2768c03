-- ===== src/Buffer/State.antt =====
-- The buffer's state, what it reports to its owner, and the code outside this program that it calls.
-- Times are nanoseconds; a floating-point number is its bit pattern.
use sample_nodejs_server.Prelude.{ℕ, Bool, false, List, [], Option, none}
use sample_nodejs_server.Prelude.Int.{ℤ}
use sample_nodejs_server.Bucket.{Bucket}
use sample_nodejs_server.Nack.{NackQueue, NackPair}
use sample_nodejs_server.DownTrack.State.{Packet, ExtPacket}

pub data CodecType : Type 0 where
  unknown audio video : CodecType

pub record Stats : Type 0 where
  pub last_expected : ℕ
  pub last_received : ℕ
  pub lost_rate : ℕ
  pub packet_count : ℕ
  pub jitter : ℕ
  pub total_byte : ℕ

-- `pendingPackets`.
pub record Pending : Type 0 where
  pub arrival_time : ℕ
  pub packet : List ℕ

-- `Buffer`; the field `nack` is left out, it is set where `nacker` is not nil.
pub record Buffer : Type 0 where
  pub bucket : Option Bucket
  pub nacker : Option NackQueue
  pub codec_type : CodecType
  pub ext_packets : List ExtPacket
  pub p_packets : List Pending
  pub media_ssrc : ℕ
  pub clock_rate : ℕ
  pub max_bitrate : ℕ
  pub last_report : ℕ
  pub twcc_ext : ℕ
  pub audio_ext : ℕ
  pub bound : Bool
  pub closed : Bool
  pub mime : List ℕ
  pub remb : Bool
  pub twcc : Bool
  pub audio_level : Bool
  pub min_packet_probe : ℕ
  pub last_packet_read : ℕ
  pub max_temporal_layer : ℕ
  pub bitrate : ℕ
  pub bitrate_helper : ℕ
  pub last_sr_ntp_time : ℕ
  pub last_sr_rtp_time : ℕ
  pub last_sr_recv : ℕ
  pub base_sn : ℕ
  pub cycles : ℕ
  pub last_transit : ℕ
  pub max_seq_no : ℕ
  pub stats : Stats
  pub latest_timestamp : ℕ
  pub latest_timestamp_time : ℕ

-- `rtcp.ReceptionReport`.
pub record ReceptionReport : Type 0 where
  pub ssrc : ℕ
  pub fraction_lost : ℕ
  pub total_lost : ℕ
  pub last_sequence_number : ℕ
  pub jitter : ℕ
  pub last_sender_report : ℕ
  pub delay : ℕ

-- The packets for the publisher; the bitrate of a REMB stands before its conversion to `float32`.
pub data Rtcp : Type 0 where
  transport_nack : ℕ → List NackPair → Rtcp
  picture_loss : ℕ → Rtcp
  receiver_report : ReceptionReport → Rtcp
  estimated_bitrate : ℕ → ℕ → Rtcp

-- The callbacks, an array that goes back to its pool, and a run-time panic.
pub data Event : Type 0 where
  feedback : List Rtcp → Event
  transport_cc : ℕ → ℕ → Bool → Event
  level : ℕ → Event
  released : CodecType → Event
  on_close panic : Event

-- A packet that pion's `rtp.Packet.Unmarshal` has parsed, with `GetExtension`.
pub record RtpPacket : Type 0 where
  pub packet : Packet
  pub extension : ℕ → Option (List ℕ)

-- `rtp.Packet.Unmarshal`, `rtp.AudioLevelExtension.Unmarshal`, whether `onAudioLevel` is set, and the
-- floating-point steps: `LostRate` from the lost and the expected packets of an interval, `Jitter`
-- from the last one and a difference, its `uint32`, and the bitrate scaled by the two thresholds of
-- `LostRate`.
pub record Env : Type 0 where
  pub parse : List ℕ → Option RtpPacket
  pub parse_level : List ℕ → Option ℕ
  pub hears_level : Bool
  pub lost_rate : ℕ → ℕ → ℕ
  pub next_jitter : ℕ → ℤ → ℕ
  pub jitter_word : ℕ → ℕ
  pub scaled_bitrate : ℕ → ℕ → ℕ

-- `report_delta`, one second.
abbrev pub report_delta : ℕ
report_delta = 1000000000

abbrev pub no_stats : Stats
no_stats = record {
  last_expected = 0;
  last_received = 0;
  lost_rate = 0;
  packet_count = 0;
  jitter = 0;
  total_byte = 0;
}

abbrev pub new_buffer : ℕ → Buffer
new_buffer ssrc = record {
  bucket = none;
  nacker = none;
  codec_type = unknown;
  ext_packets = [];
  p_packets = [];
  media_ssrc = ssrc;
  clock_rate = 0;
  max_bitrate = 0;
  last_report = 0;
  twcc_ext = 0;
  audio_ext = 0;
  bound = false;
  closed = false;
  mime = [];
  remb = false;
  twcc = false;
  audio_level = false;
  min_packet_probe = 0;
  last_packet_read = 0;
  max_temporal_layer = 0;
  bitrate = 0;
  bitrate_helper = 0;
  last_sr_ntp_time = 0;
  last_sr_rtp_time = 0;
  last_sr_recv = 0;
  base_sn = 0;
  cycles = 0;
  last_transit = 0;
  max_seq_no = 0;
  stats = no_stats;
  latest_timestamp = 0;
  latest_timestamp_time = 0;
}
