-- ===== src/Buffer/Inv.antt =====
-- The invariant of the buffer, and what `calc` leaves alone once the bucket has the packet.
use sample_nodejs_server.Prelude.{
  ℕ, ◌-◌, ◌%◌, ◌<◌, ◌≡◌, refl, ◌∙◌, Bool, not, ◌&&◌, ◌||◌, List, [], ◌∷◌, ◌++◌, Option, none, some,
  ltb, leb, ◌==◌, length, u64_mod, ◌*◌, ◌/◌, if_elim,
}
use sample_nodejs_server.Bucket.{
  Bucket, Result, ok, err, out_of_range, packet_not_found, buffer_too_small, packet_too_old,
  rtx_packet,
}
use sample_nodejs_server.Bucket.Inv.{IsValid as BucketIsValid}
use sample_nodejs_server.Nack.{NackQueue}
use sample_nodejs_server.Nack.Queue.{Sorted}
use sample_nodejs_server.Nack.Rounds.{pairs-From}
use sample_nodejs_server.Vp8.{Vp8}
use sample_nodejs_server.Timestamps.{is_later_timestamp}
use sample_nodejs_server.Buffer.State.{Buffer, Event, Rtcp, RtpPacket, Env, report_delta}
use sample_nodejs_server.Buffer.Reports.{
  ext_max_seq, nack_feedback, build_reception_report, build_remb_packet, get_rtcp, report,
}
use sample_nodejs_server.Buffer.Calc.{
  Arrived, Inspected, inspected, refused, crashed, count_packet, probe, note_timestamp, note_jitter,
  feed_back, feed_after, enqueue, extended, take_packet, take_parsed, take_stored,
}

abbrev pub SlotsValid : Option Bucket → Type 0
SlotsValid none = Unit
SlotsValid (some k) = BucketIsValid k

abbrev pub QueueSorted : Option NackQueue → Type 0
QueueSorted none = Unit
QueueSorted (some n) = Sorted n.nacks

-- The numbers are words, the cycles are whole, the bucket and the queue are well formed.
pub record IsValid (b : Buffer) : Type 0 where
  pub whole_cycles : b.cycles % 65536 ≡ 0
  pub cycles_word : b.cycles < 4294967296
  pub max_word : b.max_seq_no < 65536
  pub base_word : b.base_sn < 65536
  pub slots : SlotsValid (b.bucket)
  pub order : QueueSorted (b.nacker)

-- A stage that leaves the numbers, the bucket and the order of the queue.
pub record Keeps (b c : Buffer) : Type 0 where
  pub cycles : c.cycles ≡ b.cycles
  pub max_seq_no : c.max_seq_no ≡ b.max_seq_no
  pub bucket : c.bucket ≡ b.bucket
  pub closed : c.closed ≡ b.closed
  pub base_word : b.base_sn < 65536 → c.base_sn < 65536
  pub order : QueueSorted (b.nacker) → QueueSorted (c.nacker)

same_kept : {b : Buffer} → Keeps b b
same_kept = record {
  cycles = refl;
  max_seq_no = refl;
  bucket = refl;
  closed = refl;
  base_word = λ h. h;
  order = λ h. h;
}

and_then : {b c d : Buffer} → Keeps b c → Keeps c d → Keeps b d
and_then v w = record {
  cycles = w.cycles ∙ v.cycles;
  max_seq_no = w.max_seq_no ∙ v.max_seq_no;
  bucket = w.bucket ∙ v.bucket;
  closed = w.closed ∙ v.closed;
  base_word = λ h. w.base_word (v.base_word h);
  order = λ h. w.order (v.order h);
}

probe-Keeps : (b : Buffer) (sn : ℕ) (vp8 : Option Vp8) → sn < 65536 → Keeps b (probe b sn vp8)
unfolding probe
probe-Keeps b sn vp8 h =
    if_elim (Keeps b) (ltb b.min_packet_probe 25)
      (λ _. record {
        cycles = refl;
        max_seq_no = refl;
        bucket = refl;
        closed = refl;
        base_word = λ k. if_elim (λ (x : ℕ). x < 65536) (ltb sn b.base_sn) (λ _. h) (λ _. k);
        order = λ s. s;
      })
      (λ _. same_kept)

note_timestamp-Keeps :
    (b : Buffer) (timestamp arrival : ℕ) → Keeps b (note_timestamp b timestamp arrival)
unfolding note_timestamp
note_timestamp-Keeps b timestamp arrival =
    if_elim (Keeps b)
      (b.latest_timestamp_time == 0 || is_later_timestamp timestamp b.latest_timestamp)
      (λ _. record {
        cycles = refl;
        max_seq_no = refl;
        bucket = refl;
        closed = refl;
        base_word = λ h. h;
        order = λ h. h;
      })
      (λ _. same_kept)

note_jitter-Keeps :
    (env : Env) (b : Buffer) (timestamp arrival : ℕ) → Keeps b (note_jitter env b timestamp arrival)
unfolding note_jitter
note_jitter-Keeps env b timestamp arrival = record {
  cycles = refl;
  max_seq_no = refl;
  bucket = refl;
  closed = refl;
  base_word = λ h. h;
  order = λ h. h;
}

enqueue-Keeps :
    (env : Env) (b : Buffer) (p : RtpPacket) (a : Arrived) (vp8 : Option Vp8) (key_frame : Bool)
    → a.sn < 65536
    → Keeps b (enqueue env b p a vp8 key_frame)
unfolding enqueue
enqueue-Keeps env b p a vp8 key_frame h =
    let probed = probe b a.sn vp8 in
    let queued : Buffer = record probed {
      ext_packets = probed.ext_packets ++ (extended b p a vp8 key_frame ∷ []);
    } in
    let joined : Keeps probed queued = record {
      cycles = refl;
      max_seq_no = refl;
      bucket = refl;
      closed = refl;
      base_word = λ h. h;
      order = λ h. h;
    } in
    and_then (probe-Keeps b a.sn vp8 h) (
      and_then joined (
        and_then (note_timestamp-Keeps queued p.packet.timestamp a.arrival) (
          note_jitter-Keeps env (note_timestamp queued p.packet.timestamp a.arrival)
            p.packet.timestamp a.arrival)))

get_rtcp-Keeps : (env : Env) (now : ℕ) (b : Buffer) → Keeps b (get_rtcp env now b).0
unfolding get_rtcp build_reception_report build_remb_packet
get_rtcp-Keeps env now b =
    if_elim (λ (r : Buffer × List Rtcp). Keeps b r.0) (b.remb && not b.twcc)
      (λ _. record {
        cycles = refl;
        max_seq_no = refl;
        bucket = refl;
        closed = refl;
        base_word = λ h. h;
        order = λ h. h;
      })
      (λ _. record {
        cycles = refl;
        max_seq_no = refl;
        bucket = refl;
        closed = refl;
        base_word = λ h. h;
        order = λ h. h;
      })

report-Keeps : (env : Env) (arrival now : ℕ) (b : Buffer) → Keeps b (report env arrival now b).0
unfolding report
report-Keeps env arrival now b =
    let diff = arrival - b.last_report in
    let br = 8 * b.bitrate_helper % u64_mod * report_delta % u64_mod / diff in
    let k = get_rtcp-Keeps env now (record b { bitrate = br }) in
    if_elim (λ (r : Buffer × List Event). Keeps b r.0) (leb report_delta diff)
      (λ _. record {
        cycles = k.cycles;
        max_seq_no = k.max_seq_no;
        bucket = k.bucket;
        closed = k.closed;
        base_word = k.base_word;
        order = k.order;
      })
      (λ _. same_kept)

nack_feedback-order :
    (q : Option NackQueue) (ssrc head_sn : ℕ)
    → QueueSorted q
    → QueueSorted (nack_feedback q ssrc head_sn).0
unfolding nack_feedback
nack_feedback-order none ssrc head_sn s = tt
nack_feedback-order (some n) ssrc head_sn s = pairs-From n head_sn s

feed_back-Keeps :
    (env : Env) (b : Buffer) (p : RtpPacket) (a : Arrived) → Keeps b (feed_back env b p a).0
unfolding feed_back
feed_back-Keeps env b p a =
    let asked : Buffer = record b {
      nacker = (nack_feedback (b.nacker) b.media_ssrc (ext_max_seq b)).0;
    } in
    let k : Keeps b asked = record {
      cycles = refl;
      max_seq_no = refl;
      bucket = refl;
      closed = refl;
      base_word = λ h. h;
      order = nack_feedback-order (b.nacker) b.media_ssrc (ext_max_seq b);
    } in
    and_then k (report-Keeps env a.arrival a.now asked)

feed_after-Keeps :
    (env : Env) (b : Buffer) (p : RtpPacket) (a : Arrived) (events : Option (List Event))
    → Keeps b (feed_after env b p a events).0
unfolding feed_after
feed_after-Keeps env b p a none = same_kept
feed_after-Keeps env b p a (some events) = feed_back-Keeps env b p a

take_packet-Keeps :
    (env : Env) (b : Buffer) (p : RtpPacket) (a : Arrived) (i : Inspected)
    → a.sn < 65536
    → Keeps b (take_packet env b p a i).0
unfolding take_packet
take_packet-Keeps env b p a refused h = same_kept
take_packet-Keeps env b p a crashed h = same_kept
take_packet-Keeps env b p a (inspected vp8 key_frame) h =
    and_then (enqueue-Keeps env b p a vp8 key_frame h) (feed_after-Keeps env _ p a _)

take_parsed-Keeps :
    (env : Env) (b : Buffer) (a : Arrived) (p : Option RtpPacket)
    → a.sn < 65536
    → Keeps b (take_parsed env b a p).0
unfolding take_parsed
take_parsed-Keeps env b a none h = same_kept
take_parsed-Keeps env b a (some p) h =
    let counted : Keeps b (count_packet b (length (a.bytes))) = record {
      cycles = refl;
      max_seq_no = refl;
      bucket = refl;
      closed = refl;
      base_word = λ h. h;
      order = λ h. h;
    } in
    and_then counted (take_packet-Keeps env (count_packet b (length (a.bytes))) p a _ h)

-- Whatever the bucket answers.
pub take_stored-Keeps :
    (env : Env) (b : Buffer) (a : Arrived) (r : Result (List ℕ))
    → a.sn < 65536
    → Keeps b (take_stored env b a r).0
unfolding take_stored
take_stored-Keeps env b a (ok bytes) h = take_parsed-Keeps env b a (env.parse bytes) h
take_stored-Keeps env b a (err out_of_range) h = same_kept
take_stored-Keeps env b a (err packet_not_found) h = same_kept
take_stored-Keeps env b a (err buffer_too_small) h = same_kept
take_stored-Keeps env b a (err packet_too_old) h = same_kept
take_stored-Keeps env b a (err rtx_packet) h = same_kept
