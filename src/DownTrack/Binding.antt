-- ===== src/DownTrack/Binding.antt =====
-- `Bind` with the search for a codec, and the reports of a down track.
use sample_nodejs_server.Prelude.{
  ℕ, ◌+◌, ◌-◌, ◌*◌, ◌/◌, ◌%◌, Bool, true, not, ◌&&◌, List, [], ◌∷◌, Option, none, some, leb, ◌==◌,
  if◌then◌else◌, u32_mod, u64_mod,
}
use sample_nodejs_server.Prelude.Strings.{text, has_prefix, same_text, to_lower}
use sample_nodejs_server.Sequencer.{new_sequencer}
use sample_nodejs_server.Ntp.{duration, to_ntp_time}
use sample_nodejs_server.DownTrack.State.{Capability, DownTrack}

-- `webrtc.RTPCodecParameters`.
pub record Codec : Type 0 where
  pub capability : Capability
  pub payload_type : ℕ

-- `strings.EqualFold` on ASCII.
abbrev pub equal_fold : List ℕ → List ℕ → Bool
equal_fold s t = same_text (to_lower s) (to_lower t)

abbrev pub same_mime : Capability → Codec → Bool
same_mime needle c = equal_fold c.capability.mime_type needle.mime_type

abbrev pub same_codec : Capability → Codec → Bool
same_codec needle c =
    same_mime needle c && same_text c.capability.sdp_fmtp_line needle.sdp_fmtp_line

-- One of the two loops.
unfoldable pub first_of : (Codec → Bool) → List Codec → Option Codec
first_of fits [] = none
first_of fits (c ∷ haystack) = let rest = first_of fits haystack in if fits c then some c else rest

abbrev pub or_else : Option Codec → Option Codec → Option Codec
or_else none d = d
or_else (some c) d = some c

unfoldable pub codec_parameters_fuzzy_search : Capability → List Codec → Option Codec
unfolding first_of
codec_parameters_fuzzy_search needle haystack =
    or_else (first_of (same_codec needle) haystack) (first_of (same_mime needle) haystack)

-- With the codec that was found; the registration for RTCP packets and `onBind` are left out.
unfoldable pub bind_to : DownTrack → ℕ → ℕ → Option Codec → DownTrack × Option Codec
bind_to d ssrc now none = (d, none)
bind_to d ssrc now (some c) = (
  record d {
    ssrc = ssrc;
    payload_type = c.payload_type;
    mime = to_lower c.capability.mime_type;
    re_sync = true;
    enabled = true;
    sequencer =
        if has_prefix d.codec.mime_type (text "video/")
        then some (new_sequencer d.max_track (now / 1000000))
        else d.sequencer;
    bound = true;
  },
  some c,
)

-- The context's codecs and SSRC; `none` is `ErrUnsupportedCodec`.
unfoldable pub bind : DownTrack → List Codec → ℕ → ℕ → DownTrack × Option Codec
unfolding codec_parameters_fuzzy_search bind_to
bind d codecs ssrc now = bind_to d ssrc now (codec_parameters_fuzzy_search (d.codec) codecs)

pub data ItemType : Type 0 where
  cname mid : ItemType

-- `rtcp.SourceDescriptionChunk` with one item.
pub record Chunk : Type 0 where
  pub source : ℕ
  pub kind : ItemType
  pub item_text : List ℕ

-- With the stream's id and the transceiver's; nil is `none`.
unfoldable pub create_source_description_chunks : DownTrack → List ℕ → List ℕ → Option (List Chunk)
create_source_description_chunks d stream_id transceiver_mid =
    if not d.bound
    then none
    else some (
        record { source = d.ssrc; kind = cname; item_text = stream_id }
        ∷ record { source = d.ssrc; kind = mid; item_text = transceiver_mid }
        ∷ [])

pub record SenderReport : Type 0 where
  pub ssrc : ℕ
  pub ntp_time : ℕ
  pub rtp_time : ℕ
  pub packet_count : ℕ
  pub octet_count : ℕ

-- `uint64(now.Sub(then))`, a word also for a time to come.
abbrev pub since : ℕ → ℕ → ℕ
since now then_at = if leb then_at now then now - then_at else u64_mod - (then_at - now)

-- With the times of the receiver's last sender report.
unfoldable pub create_sender_report : DownTrack → ℕ → ℕ → ℕ → Option SenderReport
unfolding duration to_ntp_time
create_sender_report d sr_rtp sr_ntp now =
    let diff = since now (duration sr_ntp) * d.codec.clock_rate % u64_mod / 1000000000 in
    if not d.bound
    then none
    else if sr_rtp == 0
    then none
    else some (record {
      ssrc = d.ssrc;
      ntp_time = to_ntp_time now;
      rtp_time = (sr_rtp + diff % u32_mod) % u32_mod;
      packet_count = d.packet_count;
      octet_count = d.octet_count;
    })
