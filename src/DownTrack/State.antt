-- ===== src/DownTrack/State.antt =====
-- The state of a down track, the packets it is given and what it does in answer. An `int32` layer is
-- not negative, but for the two halves of `temporal_layer`, which is kept as a 32-bit word.
use sample_nodejs_server.Prelude.{
  ℕ, ◌+◌, ◌%◌, Bool, true, false, not, ◌&&◌, List, [], Option, none, u32_mod, if◌then◌else◌,
}
use sample_nodejs_server.Prelude.Strings.{text, has_prefix, same_text}
use sample_nodejs_server.Sequencer.{Sequencer}
use sample_nodejs_server.Vp8.{Vp8}

-- `unset` is the zero value of the type.
pub data TrackType : Type 0 where
  unset simple simulcast : TrackType

-- `simulcastTrackHelpers`; times are in nanoseconds.
pub record Helpers : Type 0 where
  pub switch_delay : ℕ
  pub temporal_supported : Bool
  pub l_ts_calc : ℕ
  pub p_ref_pic_id : ℕ
  pub ref_pic_id : ℕ
  pub l_pic_id : ℕ
  pub p_ref_tlz_idx : ℕ
  pub ref_tlz_idx : ℕ
  pub l_tlz_idx : ℕ

-- `webrtc.RTPCodecCapability`, as far as it is used.
pub record Capability : Type 0 where
  pub mime_type : List ℕ
  pub clock_rate : ℕ
  pub sdp_fmtp_line : List ℕ

pub record DownTrack : Type 0 where
  pub bound : Bool
  pub mime : List ℕ
  pub ssrc : ℕ
  pub max_track : ℕ
  pub payload_type : ℕ
  pub sequencer : Option Sequencer
  pub track_type : TrackType
  pub current_spatial_layer : ℕ
  pub target_spatial_layer : ℕ
  pub temporal_layer : ℕ
  pub enabled : Bool
  pub re_sync : Bool
  pub sn_offset : ℕ
  pub ts_offset : ℕ
  pub last_ssrc : ℕ
  pub last_sn : ℕ
  pub last_ts : ℕ
  pub helpers : Helpers
  pub max_spatial_layer : ℕ
  pub max_temporal_layer : ℕ
  pub codec : Capability
  pub octet_count : ℕ
  pub packet_count : ℕ

-- The header fields that a down track rewrites, the marker for those that it passes on, and the
-- payload.
pub record Packet : Type 0 where
  pub payload_type : ℕ
  pub marker : Bool
  pub sequence_number : ℕ
  pub timestamp : ℕ
  pub ssrc : ℕ
  pub payload : List ℕ

-- `buffer.ExtPacket`; `vp8` is the payload's descriptor if it has one.
pub record ExtPacket : Type 0 where
  pub head : Bool
  pub cycle : ℕ
  pub arrival : ℕ
  pub packet : Packet
  pub vp8 : Option Vp8
  pub key_frame : Bool

-- A picture loss indication to the publisher, a packet to the subscriber, or a run-time panic.
pub data Action : Type 0 where
  send_pli : ℕ → ℕ → Action
  write_rtp : Packet → Action
  panic : Action

abbrev pub new_helpers : Helpers
new_helpers = record {
  switch_delay = 0;
  temporal_supported = false;
  l_ts_calc = 0;
  p_ref_pic_id = 0;
  ref_pic_id = 0;
  l_pic_id = 0;
  p_ref_tlz_idx = 0;
  ref_tlz_idx = 0;
  l_tlz_idx = 0;
}

abbrev pub new_down_track : Capability → ℕ → DownTrack
new_down_track codec mt = record {
  bound = false;
  mime = [];
  ssrc = 0;
  max_track = mt;
  payload_type = 0;
  sequencer = none;
  track_type = unset;
  current_spatial_layer = 0;
  target_spatial_layer = 0;
  temporal_layer = 0;
  enabled = false;
  re_sync = false;
  sn_offset = 0;
  ts_offset = 0;
  last_ssrc = 0;
  last_sn = 0;
  last_ts = 0;
  helpers = new_helpers;
  max_spatial_layer = 0;
  max_temporal_layer = 0;
  codec = codec;
  octet_count = 0;
  packet_count = 0;
}

-- `Kind() == webrtc.RTPCodecTypeVideo`.
unfoldable pub is_video : DownTrack → Bool
is_video d =
    not (has_prefix d.codec.mime_type (text "audio/"))
    && has_prefix d.codec.mime_type (text "video/")

-- `d.mime == "video/vp8"`.
unfoldable pub is_vp8 : DownTrack → Bool
is_vp8 d = same_text d.mime (text "video/vp8")

unfoldable pub update_stats : DownTrack → ℕ → DownTrack
update_stats d packet_len = record d {
  octet_count = (d.octet_count + packet_len) % u32_mod;
  packet_count = (d.packet_count + 1) % u32_mod;
}

unfoldable pub unbind : DownTrack → DownTrack
unbind d = record d { bound = false }

-- Disabling a track makes it wait for a new start.
unfoldable pub mute : DownTrack → Bool → DownTrack
mute d val =
    if d.enabled
    then (if val then record d { enabled = false; re_sync = true } else d)
    else (if val then d else record d { enabled = true })
