-- ===== src/DownTrack/Start.antt =====
-- A track from its binding to its first packet, and the clock of its reports.
use sample_nodejs_server.Prelude.{
  ℕ, ◌+◌, ◌*◌, ◌/◌, ◌%◌, ◌<◌, ◌≡◌, ◌≢◌, refl, sym, ap, ◌∙◌, true, false, not, ◌&&◌, List, [], ◌∷◌,
  Option, none, some, arith, ◌==◌, if◌then◌else◌, sub16, sub32, u32_mod, u64_mod, if_elim, ne→==,
}
use mathlib.Core.Path.{ap₂}
use sample_nodejs_server.Prelude.Strings.{text, has_prefix, to_lower}
use sample_nodejs_server.Sequencer.{new_sequencer}
use sample_nodejs_server.Ntp.{duration, to_ntp_time}
use sample_nodejs_server.Ntp.RoundTrip.{duration-to_ntp_time}
use sample_nodejs_server.DownTrack.State.{
  Capability, DownTrack, ExtPacket, Action, simple, write_rtp, new_down_track, is_video,
}
use sample_nodejs_server.DownTrack.Simple.{write_simple, forward_simple, resync_simple}
use sample_nodejs_server.DownTrack.Simulcast.{write_by_type, write_rtp_packet}
use sample_nodejs_server.DownTrack.Binding.{
  Codec, codec_parameters_fuzzy_search, bind_to, bind, since, SenderReport, create_sender_report,
}

-- A new track that is not simulcast, bound to a codec.
abbrev pub started : Capability → ℕ → List Codec → ℕ → ℕ → DownTrack
started codec mt codecs ssrc now = record (bind (new_down_track codec mt) codecs ssrc now).0 {
  track_type = simple;
}

-- The track once the codec is found.
abbrev bound_to : Capability → ℕ → ℕ → ℕ → Codec → DownTrack
bound_to codec mt ssrc now c = record (new_down_track codec mt) {
  ssrc = ssrc;
  payload_type = c.payload_type;
  mime = to_lower c.capability.mime_type;
  re_sync = true;
  enabled = true;
  sequencer =
      if has_prefix codec.mime_type (text "video/")
      then some (new_sequencer mt (now / 1000000))
      else none;
  bound = true;
  track_type = simple;
}

started_lem :
    (codec : Capability) (mt : ℕ) (codecs : List Codec) (ssrc now : ℕ) (c : Codec)
    → codec_parameters_fuzzy_search codec codecs ≡ some c
    → started codec mt codecs ssrc now ≡ bound_to codec mt ssrc now c
unfolding bind bind_to
started_lem codec mt codecs ssrc now c found =
    ap (λ o. record (bind_to (new_down_track codec mt) ssrc now o).0 { track_type = simple }) found

first_sent :
    (codec : Capability) (mt ssrc now : ℕ) (c : Codec) (p : ExtPacket) (layer : ℕ)
    → (is_video (bound_to codec mt ssrc now c) && not p.key_frame) ≡ false
    → p.packet.sequence_number < 65536
    → p.packet.timestamp < 4294967296
    → (write_rtp_packet (bound_to codec mt ssrc now c) p layer).1
      ≡ write_rtp (record (p.packet) { payload_type = c.payload_type; ssrc = ssrc }) ∷ []
unfolding write_rtp_packet write_by_type write_simple forward_simple resync_simple
first_sent codec mt ssrc now c p layer starts sn_word ts_word =
    let sn : sub16 p.packet.sequence_number 0 ≡ p.packet.sequence_number = omega arith in
    let ts : sub32 p.packet.timestamp 0 ≡ p.packet.timestamp = omega arith in
    let d = bound_to codec mt ssrc now c in
    if_elim
      (λ (r : DownTrack × List Action).
        r.1 ≡ write_rtp (record (p.packet) { payload_type = c.payload_type; ssrc = ssrc }) ∷ [])
      (is_video d && not p.key_frame) (λ f. cc)
      (λ _.
        ap₂
          (λ x y.
            write_rtp (record (p.packet) {
              payload_type = c.payload_type;
              ssrc = ssrc;
              sequence_number = x;
              timestamp = y;
            })
            ∷ [])
          sn ts)

-- A new track that `Bind` binds to a codec, and whose type is then set to one that is not simulcast,
-- sends on its first packet, a key frame if it is of video, unchanged but for the codec's payload
-- type and the track's SSRC.
pub bind_then_write :
    (codec : Capability) (mt : ℕ) (codecs : List Codec) (ssrc now : ℕ) (c : Codec) (p : ExtPacket)
    (layer : ℕ)
    → codec_parameters_fuzzy_search codec codecs ≡ some c
    → (is_video (started codec mt codecs ssrc now) && not p.key_frame) ≡ false
    → p.packet.sequence_number < 65536
    → p.packet.timestamp < 4294967296
    → (write_rtp_packet (started codec mt codecs ssrc now) p layer).1
      ≡ write_rtp (record (p.packet) { payload_type = c.payload_type; ssrc = ssrc }) ∷ []
bind_then_write codec mt codecs ssrc now c p layer found starts sn_word ts_word =
    let e = started_lem codec mt codecs ssrc now c found in
    ap (λ d. (write_rtp_packet d p layer).1) e
    ∙ first_sent codec mt ssrc now c p layer
        (sym (ap (λ d. is_video d && not p.key_frame) e) ∙ starts) sn_word ts_word

abbrev reported : DownTrack → ℕ → ℕ → ℕ → Option SenderReport
reported d sr_rtp ago now =
    if not d.bound
    then none
    else if sr_rtp == 0
    then none
    else some (record {
      ssrc = d.ssrc;
      ntp_time = to_ntp_time now;
      rtp_time = (sr_rtp + ago * d.codec.clock_rate % u64_mod / 1000000000 % u32_mod) % u32_mod;
      packet_count = d.packet_count;
      octet_count = d.octet_count;
    })

reported_lem :
    (d : DownTrack) (sr_rtp sr_ntp now : ℕ)
    → create_sender_report d sr_rtp sr_ntp now ≡ reported d sr_rtp (since now (duration sr_ntp)) now
unfolding create_sender_report
reported_lem d sr_rtp sr_ntp now = refl

-- The sender report of a bound track maps its time to the RTP time that the publisher's clock, known
-- from a sender report before 2036, has reached; its NTP time is the time it was made.
pub sender_report_clock :
    (d : DownTrack) (sr_rtp t elapsed : ℕ)
    → d.bound ≡ true
    → sr_rtp ≢ 0
    → t + elapsed < 4294967296000000000
    → elapsed * d.codec.clock_rate < 18446744073709551616
    → let report = create_sender_report d sr_rtp (to_ntp_time t) (t + elapsed) in
      report
      ≡ some (record {
        ssrc = d.ssrc;
        ntp_time = to_ntp_time (t + elapsed);
        rtp_time = (sr_rtp + elapsed * d.codec.clock_rate / 1000000000) % u32_mod;
        packet_count = d.packet_count;
        octet_count = d.octet_count;
      })
sender_report_clock d sr_rtp t elapsed on some_report before small =
    let back : duration (to_ntp_time t) ≡ t = duration-to_ntp_time t (omega arith) in
    let ago_eq : since (t + elapsed) t ≡ elapsed = ground arith in
    let rtp_eq : (sr_rtp + elapsed * d.codec.clock_rate % u64_mod / 1000000000 % u32_mod) % u32_mod
        ≡ (sr_rtp + elapsed * d.codec.clock_rate / 1000000000) % u32_mod =
      omega (arith, small) in
    reported_lem d sr_rtp (to_ntp_time t) (t + elapsed)
    ∙ ap (λ at. reported d sr_rtp (since (t + elapsed) at) (t + elapsed)) back
    ∙ ap (λ ago. reported d sr_rtp ago (t + elapsed)) ago_eq
    ∙ rw (on, ne→== sr_rtp 0 some_report, rtp_eq) refl
