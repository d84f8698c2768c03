-- ===== src/DownTrack/Feedback.antt =====
-- The RTCP packets that a subscriber sends, and those that a down track sends to it. Parsing is the
-- RTCP library's: the packets come as values, a NACK with the numbers of its pairs.
use sample_nodejs_server.Prelude.{
  ℕ, ◌/◌, Bool, true, false, not, ◌&&◌, ◌||◌, List, [], ◌∷◌, ◌++◌, Option, none, some, ltb, ◌==◌,
  if◌then◌else◌,
}
use sample_nodejs_server.Sequencer.{Sequencer, PacketMeta, get_seq_no_pairs}
use sample_nodejs_server.DownTrack.State.{DownTrack}
use sample_nodejs_server.DownTrack.Layers.{Receiver, is_simulcast, handle_layer_change}

pub data RtcpPacket : Type 0 where
  pli fir : ℕ → ℕ → RtcpPacket
  remb : ℕ → RtcpPacket
  receiver_report : List ℕ → RtcpPacket
  transport_nack : List (List ℕ) → RtcpPacket
  other : RtcpPacket

-- The variables of the loop in `handleRTCP`, the track and the entries handed to
-- `RetransmitPackets`; `stopped` is the early return on its error.
pub record Feedback : Type 0 where
  pub track : DownTrack
  pub fwd_pkts : List RtcpPacket
  pub pli_once : Bool
  pub fir_once : Bool
  pub max_rate_packet_loss : ℕ
  pub expected_min_bitrate : ℕ
  pub retransmitted : List (List PacketMeta)
  pub stopped : Bool

unfoldable pub worst_loss : ℕ → List ℕ → ℕ
worst_loss loss [] = loss
worst_loss loss (fraction ∷ reports) =
    worst_loss (if loss == 0 || ltb loss fraction then fraction else loss) reports

unfoldable pub nacked_packets : ℕ → Sequencer → List (List ℕ) → Sequencer × List PacketMeta
unfolding get_seq_no_pairs
nacked_packets now n [] = (n, [])
nacked_packets now n (numbers ∷ nacks) =
    let (n₁, found) = get_seq_no_pairs n (now / 1000000) numbers in
    let (n₂, rest) = nacked_packets now n₁ nacks in (n₂, found ++ rest)

-- A track without a sequencer hands nothing to `RetransmitPackets`; another hands over one list.
unfoldable pub nacked_by :
    ℕ → Option Sequencer → List (List ℕ) → Option Sequencer × List (List PacketMeta)
unfolding nacked_packets
nacked_by now none nacks = (none, [])
nacked_by now (some n) nacks =
    let (n', nacked) = nacked_packets now n nacks in (some n', nacked ∷ [])

unfoldable pub all_sent : (List PacketMeta → Bool) → List (List PacketMeta) → Bool
all_sent retransmit [] = true
all_sent retransmit (nacked ∷ l) = retransmit nacked && all_sent retransmit l

-- One round; `retransmit` says whether `RetransmitPackets` succeeds.
unfoldable pub handle_packet : (List PacketMeta → Bool) → ℕ → Feedback → RtcpPacket → Feedback
unfolding worst_loss nacked_by all_sent
handle_packet retransmit now f (pli sender media) =
    if f.pli_once
    then record f {
      fwd_pkts = f.fwd_pkts ++ (pli f.track.ssrc f.track.last_ssrc ∷ []);
      pli_once = false;
    }
    else f
handle_packet retransmit now f (fir sender media) =
    if f.fir_once
    then record f {
      fwd_pkts = f.fwd_pkts ++ (fir f.track.ssrc f.track.last_ssrc ∷ []);
      fir_once = false;
    }
    else f
handle_packet retransmit now f (remb bitrate) =
    if f.expected_min_bitrate == 0 || ltb bitrate f.expected_min_bitrate
    then record f { expected_min_bitrate = bitrate }
    else f
handle_packet retransmit now f (receiver_report fractions) = record f {
  max_rate_packet_loss = worst_loss f.max_rate_packet_loss fractions;
}
handle_packet retransmit now f (transport_nack nacks) =
    let (s, nacked) = nacked_by now (f.track.sequencer) nacks in
    record f {
      track = record (f.track) { sequencer = s };
      retransmitted = f.retransmitted ++ nacked;
      stopped = f.stopped || not (all_sent retransmit nacked);
    }
handle_packet retransmit now f other = f

unfoldable pub handle_packets : (List PacketMeta → Bool) → ℕ → Feedback → List RtcpPacket → Feedback
unfolding handle_packet
handle_packets retransmit now f [] = f
handle_packets retransmit now f (p ∷ pkts) =
    let f' = handle_packet retransmit now f p in
    let rest = handle_packets retransmit now f' pkts in if f'.stopped then f' else rest

abbrev pub new_feedback : DownTrack → Feedback
new_feedback d = record {
  track = d;
  fwd_pkts = [];
  pli_once = true;
  fir_once = true;
  max_rate_packet_loss = 0;
  expected_min_bitrate = 0;
  retransmitted = [];
  stopped = false;
}

-- The track, the packets for the publisher, and the entries that were asked for.
unfoldable pub handle_rtcp :
    Receiver
    → (List PacketMeta → Bool)
    → ℕ
    → DownTrack
    → List RtcpPacket
    → DownTrack × List RtcpPacket × List (List PacketMeta)
unfolding handle_packets handle_layer_change
handle_rtcp r retransmit now d pkts =
    let f = handle_packets retransmit now (new_feedback d) pkts in
    let changed = handle_layer_change r now f.track f.max_rate_packet_loss f.expected_min_bitrate in
    if not d.enabled || d.last_ssrc == 0
    then (d, [], [])
    else if f.stopped
    then (f.track, [], f.retransmitted)
    else (
      (if is_simulcast f.track
            && (not (f.max_rate_packet_loss == 0) || not (f.expected_min_bitrate == 0))
          then changed
          else f.track),
      f.fwd_pkts,
      f.retransmitted,
    )
