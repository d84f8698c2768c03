-- ===== src/DownTrack/Requests.antt =====
-- What `handleRTCP` gathers from the packets of a subscriber before it acts.
use sample_nodejs_server.Prelude.{
  ℕ, ◌+◌, ◌≤◌, ◌≡◌, Bool, true, false, ◌||◌, List, [], ◌∷◌, arith, ltb, ◌==◌, if◌then◌else◌, length,
  length-append, max, if_elim,
}
use sample_nodejs_server.Sequencer.{PacketMeta}
use sample_nodejs_server.DownTrack.State.{DownTrack}
use sample_nodejs_server.DownTrack.Feedback.{
  RtcpPacket, pli, fir, remb, receiver_report, transport_nack, other, Feedback, worst_loss,
  handle_packet, handle_packets, new_feedback,
}

abbrev pub worst_of : List ℕ → ℕ
worst_of [] = 0
worst_of (fraction ∷ reports) = max fraction (worst_of reports)

-- The greatest loss that the packets report.
unfoldable pub reported_loss : List RtcpPacket → ℕ
reported_loss [] = 0
reported_loss (receiver_report fractions ∷ pkts) = max (worst_of fractions) (reported_loss pkts)
reported_loss (pli _ _ ∷ pkts) = reported_loss pkts
reported_loss (fir _ _ ∷ pkts) = reported_loss pkts
reported_loss (remb _ ∷ pkts) = reported_loss pkts
reported_loss (transport_nack _ ∷ pkts) = reported_loss pkts
reported_loss (other ∷ pkts) = reported_loss pkts

worst_loss-max : (loss : ℕ) (l : List ℕ) → worst_loss loss l ≡ max loss (worst_of l)
unfolding worst_loss
worst_loss-max loss [] = omega arith
worst_loss-max loss (x ∷ l) =
    ground (arith, worst_loss-max (if loss == 0 || ltb loss x then x else loss) l)

-- How many more requests may be passed on.
abbrev open_requests : Feedback → ℕ
open_requests f = (if f.pli_once then 1 else 0) + (if f.fir_once then 1 else 0)

record Gathered (f f' : Feedback) (loss : ℕ) : Type 0 where
  loss_max : f'.max_rate_packet_loss ≡ max f.max_rate_packet_loss loss
  few : length (f'.fwd_pkts) + open_requests f' ≤ length (f.fwd_pkts) + open_requests f

handle_packet-Gathered :
    (retransmit : List PacketMeta → Bool) (now : ℕ) (f : Feedback) (p : RtcpPacket)
    → Gathered f (handle_packet retransmit now f p) (reported_loss (p ∷ []))
unfolding handle_packet reported_loss
handle_packet-Gathered retransmit now f (pli sender media) =
    ground (arith, length-append (f.fwd_pkts) (pli f.track.ssrc f.track.last_ssrc ∷ []))
handle_packet-Gathered retransmit now f (fir sender media) =
    ground (arith, length-append (f.fwd_pkts) (fir f.track.ssrc f.track.last_ssrc ∷ []))
handle_packet-Gathered retransmit now f (remb bitrate) = ground arith
handle_packet-Gathered retransmit now f (receiver_report fractions) =
    omega (arith, worst_loss-max f.max_rate_packet_loss fractions)
handle_packet-Gathered retransmit now f (transport_nack nacks) = omega arith
handle_packet-Gathered retransmit now f other = omega arith

reported_loss-cons :
    (p : RtcpPacket) (pkts : List RtcpPacket)
    → reported_loss (p ∷ pkts) ≡ max (reported_loss (p ∷ [])) (reported_loss pkts)
unfolding reported_loss
reported_loss-cons (receiver_report fractions) pkts = omega arith
reported_loss-cons (pli sender media) pkts = omega arith
reported_loss-cons (fir sender media) pkts = omega arith
reported_loss-cons (remb bitrate) pkts = omega arith
reported_loss-cons (transport_nack nacks) pkts = omega arith
reported_loss-cons other pkts = omega arith

handle_packets-Gathered :
    (retransmit : List PacketMeta → Bool) (now : ℕ) (f : Feedback) (pkts : List RtcpPacket)
    → (handle_packets retransmit now f pkts).stopped ≡ false
    → Gathered f (handle_packets retransmit now f pkts) (reported_loss pkts)
unfolding handle_packets
handle_packets-Gathered retransmit now f [] on = unfold reported_loss in omega arith
handle_packets-Gathered retransmit now f (p ∷ pkts) on =
    if_elim (λ (e : Feedback). e.stopped ≡ false → Gathered f e (reported_loss (p ∷ pkts)))
      ((handle_packet retransmit now f p).stopped) (λ stop on. absurd (clash stop on))
      (λ _ on.
        let one = handle_packet-Gathered retransmit now f p in
        let rest =
          handle_packets-Gathered retransmit now (handle_packet retransmit now f p) pkts on in
        record {
          loss_max = omega (arith, one.loss_max, rest.loss_max, reported_loss-cons p pkts);
          few = omega (arith, one.few, rest.few);
        })
      on
  where
    clash : {b : Bool} → b ≡ true → ¬ (b ≡ false)
    clash f g = cc

-- Unless a retransmission fails, the loop of `handleRTCP` over any packets gathers the greatest loss
-- that a receiver report among them names, 0 without one, and at most two packets for the publisher.
pub handle_packets_gathers :
    (retransmit : List PacketMeta → Bool) (now : ℕ) (d : DownTrack) (pkts : List RtcpPacket)
    → (handle_packets retransmit now (new_feedback d) pkts).stopped ≡ false
    → let f = handle_packets retransmit now (new_feedback d) pkts in
      (f.max_rate_packet_loss ≡ reported_loss pkts) × (length (f.fwd_pkts) ≤ 2)
handle_packets_gathers retransmit now d pkts on =
    let g = handle_packets-Gathered retransmit now (new_feedback d) pkts on in
    (omega (arith, g.loss_max), omega (arith, g.few))
