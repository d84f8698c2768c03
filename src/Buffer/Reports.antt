-- ===== src/Buffer/Reports.antt =====
-- The feedback to the publisher: requests, receiver reports and bitrate estimates.
use sample_nodejs_server.Prelude.{
  ℕ, ◌+◌, ◌-◌, ◌*◌, ◌/◌, ◌%◌, Bool, not, ◌&&◌, List, [], ◌∷◌, ◌++◌, Option, none, some, ltb, leb,
  ◌==◌, if◌then◌else◌, length, min, max, sub32, u32_mod, u64_mod,
}
use sample_nodejs_server.Nack.{NackQueue, NackPair, pairs}
use sample_nodejs_server.Buffer.State.{
  Buffer, ReceptionReport, Rtcp, transport_nack, picture_loss, receiver_report, estimated_bitrate,
  Event, feedback, Env, report_delta,
}

-- `cycles | uint32(maxSeqNo)`.
abbrev pub ext_max_seq : Buffer → ℕ
ext_max_seq b = b.cycles + b.max_seq_no

-- The packets of `buildNACKPacket`; an empty list is its nil.
unfoldable pub nack_packets : ℕ → List NackPair → Bool → List Rtcp
nack_packets ssrc nacks ask_keyframe =
    (if ltb 0 (length nacks) then transport_nack ssrc nacks ∷ [] else [])
    ++ (if ask_keyframe then picture_loss ssrc ∷ [] else [])

unfoldable pub nack_feedback : Option NackQueue → ℕ → ℕ → Option NackQueue × List Event
unfolding pairs nack_packets
nack_feedback none ssrc head_sn = (none, [])
nack_feedback (some n) ssrc head_sn =
    let (n', nacks, ask_keyframe) = pairs n head_sn in
    let pkts = nack_packets ssrc nacks ask_keyframe in
    (some n', (if ltb 0 (length pkts) then feedback pkts ∷ [] else []))

unfoldable pub build_remb_packet : Env → Buffer → Buffer × Rtcp
build_remb_packet env b =
    let br = max 100000 (min b.max_bitrate (env.scaled_bitrate b.bitrate b.stats.lost_rate)) in
    (record b { stats = record (b.stats) { total_byte = 0 } }, estimated_bitrate br b.media_ssrc)

-- Packets that were expected so far.
abbrev pub expected : Buffer → ℕ
expected b = (sub32 (ext_max_seq b) b.base_sn + 1) % u32_mod

abbrev pub total_lost : ℕ → ℕ → ℕ
total_lost packet_count expect =
    if ltb packet_count expect && not (packet_count == 0) then sub32 expect packet_count else 0

-- From the packets expected and lost in an interval.
unfoldable pub fraction_lost : ℕ → ℕ → ℕ
fraction_lost expected_interval lost_interval =
    if not (expected_interval == 0) && ltb 0 lost_interval
    then lost_interval * 256 % u32_mod / expected_interval % 256
    else 0

-- `uint32((now - lastSRRecv) / 1e6)`.
abbrev pub delay_ms : ℕ → ℕ → ℕ
delay_ms now last =
    if leb last now
    then (now - last) / 1000000 % u32_mod
    else (u32_mod - (last - now) / 1000000 % u32_mod) % u32_mod

-- In units of 2^-16 seconds; the lower part stays below 2^16.
unfoldable pub delay_since : ℕ → ℕ → ℕ
delay_since now last =
    if last == 0
    then 0
    else delay_ms now last / 1000 % 65536 * 65536 + delay_ms now last % 1000 * 65536 / 1000

unfoldable pub build_reception_report : Env → ℕ → Buffer → Buffer × ReceptionReport
unfolding fraction_lost delay_since
build_reception_report env now b =
    let expect = expected b in
    let expected_interval = sub32 expect b.stats.last_expected in
    let received_interval = sub32 b.stats.packet_count b.stats.last_received in
    let lost_interval = sub32 expected_interval received_interval in
    (
      record b {
        stats = record (b.stats) {
          last_expected = expect;
          last_received = b.stats.packet_count;
          lost_rate = env.lost_rate lost_interval expected_interval;
        };
      },
      record {
        ssrc = b.media_ssrc;
        fraction_lost = fraction_lost expected_interval lost_interval;
        total_lost = total_lost b.stats.packet_count expect;
        last_sequence_number = ext_max_seq b;
        jitter = env.jitter_word b.stats.jitter;
        last_sender_report = b.last_sr_ntp_time / 65536 % u32_mod;
        delay = delay_since now b.last_sr_recv;
      },
    )

unfoldable pub get_rtcp : Env → ℕ → Buffer → Buffer × List Rtcp
unfolding build_reception_report build_remb_packet
get_rtcp env now b =
    let (b₁, report) = build_reception_report env now b in
    let (b₂, remb) = build_remb_packet env b₁ in
    if b.remb && not b.twcc
    then (b₂, receiver_report report ∷ remb ∷ [])
    else (b₁, receiver_report report ∷ [])

-- The end of `calc`: once a second the bitrate and a report.
unfoldable pub report : Env → ℕ → ℕ → Buffer → Buffer × List Event
unfolding get_rtcp
report env arrival now b =
    let diff = arrival - b.last_report in
    let br = 8 * b.bitrate_helper % u64_mod * report_delta % u64_mod / diff in
    let (b', pkts) = get_rtcp env now (record b { bitrate = br }) in
    if leb report_delta diff
    then (record b' { last_report = arrival; bitrate_helper = 0 }, feedback pkts ∷ [])
    else (b, [])

unfoldable pub set_sender_report_data : Buffer → ℕ → ℕ → ℕ → Buffer
set_sender_report_data b now rtp_time ntp_time = record b {
  last_sr_ntp_time = ntp_time;
  last_sr_rtp_time = rtp_time;
  last_sr_recv = now;
}
