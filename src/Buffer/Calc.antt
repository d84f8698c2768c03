-- ===== src/Buffer/Calc.antt =====
-- `calc`: what the buffer does with a packet. Its stages follow the returns of the source.
use sample_nodejs_server.Prelude.{
  ℕ, ◌+◌, ◌-◌, ◌*◌, ◌/◌, ◌%◌, Bool, false, ◌||◌, List, [], ◌∷◌, ◌++◌, Option, none, some, ltb, ◌==◌,
  if◌then◌else◌, length, sub32, u32_mod, u64_mod,
}
use sample_nodejs_server.Prelude.Int.{ℤ, pos, negsuc}
use sample_nodejs_server.Prelude.Strings.{text, same_text}
use sample_nodejs_server.Bucket.{
  Bucket, out_of_range, packet_not_found, buffer_too_small, packet_too_old, rtx_packet, Result, ok,
  err, packet_sn, add_packet,
}
use sample_nodejs_server.Vp8.{
  Vp8, Error as DescriptorError, short_packet, nil_packet, index_out_of_range, unmarshal,
}
use sample_nodejs_server.H264.{is_h264_keyframe}
use sample_nodejs_server.Timestamps.{is_later_timestamp}
use sample_nodejs_server.DownTrack.State.{ExtPacket}
use sample_nodejs_server.Buffer.State.{Buffer, Event, transport_cc, level, panic, RtpPacket, Env}
use sample_nodejs_server.Buffer.Count.{count_sn}
use sample_nodejs_server.Buffer.Reports.{ext_max_seq, nack_feedback, report}

-- The packet's bytes, its number, the time of its arrival and the time for a report.
pub record Arrived : Type 0 where
  pub bytes : List ℕ
  pub sn : ℕ
  pub arrival : ℕ
  pub now : ℕ

-- What the switch on the MIME type finds: a payload and whether it is a key frame, an error of the
-- descriptor, or a run-time panic.
pub data Inspected : Type 0 where
  inspected : Option Vp8 → Bool → Inspected
  refused crashed : Inspected

abbrev pub no_vp8 : Vp8
no_vp8 = record {
  temporal_supported = false;
  picture_id = 0;
  pic_id_idx = 0;
  m_bit = false;
  tl0_pic_idx = 0;
  tlz_idx = 0;
  tid = 0;
  is_key_frame = false;
}

unfoldable pub inspect_vp8 : Vp8 × Option DescriptorError → Inspected
inspect_vp8 (p, none) = inspected (some p) p.is_key_frame
inspect_vp8 (p, some index_out_of_range) = crashed
inspect_vp8 (p, some short_packet) = refused
inspect_vp8 (p, some nil_packet) = refused

unfoldable pub inspect_h264 : Option Bool → Inspected
inspect_h264 none = crashed
inspect_h264 (some key_frame) = inspected none key_frame

unfoldable pub inspect : List ℕ → List ℕ → Inspected
unfolding unmarshal is_h264_keyframe inspect_vp8 inspect_h264
inspect mime payload =
    if same_text mime (text "video/vp8")
    then inspect_vp8 (unmarshal no_vp8 (some payload))
    else if same_text mime (text "video/h264")
    then inspect_h264 (is_h264_keyframe payload)
    else inspected none false

abbrev pub count_packet : Buffer → ℕ → Buffer
count_packet b len = record b {
  stats = record (b.stats) {
    total_byte = (b.stats.total_byte + len) % u64_mod;
    packet_count = (b.stats.packet_count + 1) % u32_mod;
  };
  bitrate_helper = (b.bitrate_helper + len) % u64_mod;
}

-- The temporal layer of a payload, 0 without a descriptor.
abbrev pub tid_of : Option Vp8 → ℕ
tid_of none = 0
tid_of (some p) = p.tid

-- The first 25 packets.
unfoldable pub probe : Buffer → ℕ → Option Vp8 → Buffer
probe b sn vp8 =
    let probed = record b {
      base_sn = if ltb sn b.base_sn then sn else b.base_sn;
      max_temporal_layer =
          if ltb b.max_temporal_layer (tid_of vp8) then tid_of vp8 else b.max_temporal_layer;
      min_packet_probe = b.min_packet_probe + 1;
    } in
    if ltb b.min_packet_probe 25 then probed else b

unfoldable pub note_timestamp : Buffer → ℕ → ℕ → Buffer
unfolding is_later_timestamp
note_timestamp b timestamp arrival =
    if b.latest_timestamp_time == 0 || is_later_timestamp timestamp b.latest_timestamp
    then record b { latest_timestamp = timestamp; latest_timestamp_time = arrival }
    else b

-- `int32` of a word, without its sign; the least one has no opposite.
unfoldable pub abs_int32 : ℕ → ℤ
abs_int32 w =
    if ltb w 2147483648
    then pos w
    else if w == 2147483648
    then negsuc 2147483647
    else pos (u32_mod - w)

unfoldable pub note_jitter : Env → Buffer → ℕ → ℕ → Buffer
unfolding abs_int32
note_jitter env b timestamp arrival =
    let transit = sub32 (arrival / 1000000 * (b.clock_rate / 1000) % u32_mod) timestamp in
    let jitter = env.next_jitter b.stats.jitter (abs_int32 (sub32 transit b.last_transit)) in
    record b {
      stats = record (b.stats) { jitter = if b.last_transit == 0 then b.stats.jitter else jitter };
      last_transit = transit;
    }

-- `none` is the panic of an extension of less than two bytes.
unfoldable pub transport_events : Option (List ℕ) → ℕ → Bool → Option (List Event)
transport_events none arrival marker = some []
transport_events (some []) arrival marker = none
transport_events (some (a ∷ [])) arrival marker = none
transport_events (some (a ∷ c ∷ ext)) arrival marker =
    some (transport_cc (a * 256 + c) arrival marker ∷ [])

unfoldable pub level_events : Option ℕ → List Event
level_events none = []
level_events (some l) = level l ∷ []

unfoldable pub level_of : Env → Option (List ℕ) → Option ℕ
level_of env none = none
level_of env (some ext) = if env.hears_level then env.parse_level ext else none

-- From the transport-wide numbers on.
unfoldable pub feed_back : Env → Buffer → RtpPacket → Arrived → Buffer × List Event
unfolding level_events level_of nack_feedback report
feed_back env b p a =
    let levels : List Event =
      if b.audio_level then level_events (level_of env (p.extension b.audio_ext)) else [] in
    let (nacker, requests) = nack_feedback (b.nacker) b.media_ssrc (ext_max_seq b) in
    let (b', reports) = report env a.arrival a.now (record b { nacker = nacker }) in
    (b', levels ++ requests ++ reports)

unfoldable pub feed_after :
    Env → Buffer → RtpPacket → Arrived → Option (List Event) → Buffer × List Event
unfolding feed_back
feed_after env b p a none = (b, panic ∷ [])
feed_after env b p a (some events) = let (b', rest) = feed_back env b p a in (b', events ++ rest)

unfoldable pub extended : Buffer → RtpPacket → Arrived → Option Vp8 → Bool → ExtPacket
extended b p a vp8 key_frame = record {
  head = a.sn == b.max_seq_no;
  cycle = b.cycles;
  arrival = a.arrival;
  packet = p.packet;
  vp8 = vp8;
  key_frame = key_frame;
}

-- The packet joins the queue.
unfoldable pub enqueue : Env → Buffer → RtpPacket → Arrived → Option Vp8 → Bool → Buffer
unfolding extended probe note_timestamp note_jitter
enqueue env b p a vp8 key_frame =
    let probed = probe b a.sn vp8 in
    let queued = record probed {
      ext_packets = probed.ext_packets ++ (extended b p a vp8 key_frame ∷ []);
    } in
    note_jitter env (note_timestamp queued p.packet.timestamp a.arrival) p.packet.timestamp
      a.arrival

unfoldable pub take_packet : Env → Buffer → RtpPacket → Arrived → Inspected → Buffer × List Event
unfolding enqueue transport_events feed_after
take_packet env b p a refused = (b, [])
take_packet env b p a crashed = (b, panic ∷ [])
take_packet env b p a (inspected vp8 key_frame) =
    let queued = enqueue env b p a vp8 key_frame in
    feed_after env queued p a (
      if queued.twcc
      then transport_events (p.extension queued.twcc_ext) a.arrival p.packet.marker
      else some [])

unfoldable pub take_parsed : Env → Buffer → Arrived → Option RtpPacket → Buffer × List Event
unfolding inspect take_packet
take_parsed env b a none = (b, [])
take_parsed env b a (some p) =
    take_packet env (count_packet b (length a.bytes)) p a (inspect b.mime p.packet.payload)

-- On the bucket's answer.
unfoldable pub take_stored : Env → Buffer → Arrived → Result (List ℕ) → Buffer × List Event
unfolding take_parsed
take_stored env b a (ok bytes) = take_parsed env b a (env.parse bytes)
take_stored env b a (err out_of_range) = (b, panic ∷ [])
take_stored env b a (err packet_not_found) = (b, [])
take_stored env b a (err buffer_too_small) = (b, [])
take_stored env b a (err packet_too_old) = (b, [])
take_stored env b a (err rtx_packet) = (b, [])

-- A codec that is neither audio nor video has no bucket: a nil dereference.
unfoldable pub store_in : Env → Buffer → Arrived → Option Bucket → Buffer × List Event
unfolding add_packet take_stored
store_in env b a none = (b, panic ∷ [])
store_in env b a (some k) =
    let (k', answer) = add_packet k a.bytes in
    take_stored env (record b { bucket = some k' }) a answer

unfoldable pub calc : Env → Buffer → List ℕ → ℕ → ℕ → Buffer × List Event
unfolding count_sn store_in
calc env b pkt arrival now =
    let a : Arrived = record { bytes = pkt; sn = packet_sn pkt; arrival = arrival; now = now } in
    let counted = count_sn b a.sn arrival in
    if ltb (length pkt) 4 then (b, panic ∷ []) else store_in env counted a (counted.bucket)
