-- ===== src/Buffer/Gaps.antt =====
-- Which packets the buffer requests after a gap, and which requests a late packet ends.
use sample_nodejs_server.Prelude.{
  ℕ, ◌+◌, ◌-◌, ◌<◌, ◌≡◌, ◌≢◌, refl, ap, ◌∙◌, ◌&&◌, Option, none, some, arith, ltb, ◌==◌,
  if◌then◌else◌, max, length, sub16, sub32, lt→ltb, le→ltb, ne→==,
}
use sample_nodejs_server.Nack.{NackQueue, push}
use sample_nodejs_server.Nack.Queue.{Sorted}
use sample_nodejs_server.Nack.Copies.{copies, copies-remove}
use sample_nodejs_server.Buffer.State.{Buffer}
use sample_nodejs_server.Buffer.Count.{
  ext_sn, push_missing, request_missing, drop_request, count_sn,
}
use sample_nodejs_server.Buffer.Missing.{Requested, SameHalf, push-Pushed, push_missing-Requested}

-- The buffer's requests for an extended number.
abbrev pub requested : Option NackQueue → ℕ → ℕ
requested none y = 0
requested (some n) y = copies y n.nacks

-- A gap on one side of 2^15.
gap_count :
    (b : Buffer) (sn arrival : ℕ)
    → b.stats.packet_count ≢ 0
    → b.max_seq_no < sn
    → sn < 65536
    → SameHalf b.max_seq_no sn
    → count_sn b sn arrival
      ≡ record b { nacker = request_missing (b.nacker) b.cycles b.max_seq_no sn; max_seq_no = sn }
unfolding count_sn
gap_count b sn arrival begun ahead word same =
    rw
      (
        ne→== b.stats.packet_count 0 begun,
        lt→ltb (sub16 sn b.max_seq_no) 32768 (omega arith),
        le→ltb sn b.max_seq_no (omega arith),
      )
      refl

-- A late packet on the same side.
late_count :
    (b : Buffer) (sn arrival : ℕ)
    → b.stats.packet_count ≢ 0
    → sn < b.max_seq_no
    → b.max_seq_no < 65536
    → SameHalf sn b.max_seq_no
    → count_sn b sn arrival ≡ record b { nacker = drop_request (b.nacker) (b.cycles + sn) }
unfolding count_sn
late_count b sn arrival begun behind word same =
    let e : ext_sn b.cycles b.max_seq_no sn ≡ b.cycles + sn = unfold ext_sn in ground arith in
    rw (ne→== b.stats.packet_count 0 begun, le→ltb (sub16 sn b.max_seq_no) 32768 (omega arith), e)
      refl

abbrev gap_queue : NackQueue → ℕ → ℕ → ℕ → NackQueue
gap_queue n cycles max_seq_no sn = push_missing n cycles max_seq_no sn 1 (sub16 sn max_seq_no - 1)

gap_queue-Requested :
    (n : NackQueue) (cycles max_seq_no sn : ℕ)
    → Sorted n.nacks
    → length n.nacks + (sn - max_seq_no) < 100
    → max_seq_no < sn
    → sn < 65536
    → SameHalf max_seq_no sn
    → Requested n (gap_queue n cycles max_seq_no sn) (cycles + max_seq_no) (cycles + sn)
gap_queue-Requested n cycles max_seq_no sn s room ahead word same =
    let e : cycles + sn + 1 - 1 ≡ cycles + sn = omega arith in
    rw e at (
      push_missing-Requested n cycles max_seq_no sn 1 (sub16 sn max_seq_no - 1) s (omega arith)
        (omega arith) word same)

request_missing-some :
    (n : NackQueue) (cycles max_seq_no sn : ℕ)
    → request_missing (some n) cycles max_seq_no sn ≡ some (gap_queue n cycles max_seq_no sn)
unfolding request_missing
request_missing-some n cycles max_seq_no sn = refl

dropped_request :
    (q : Option NackQueue) (n : NackQueue) (x y : ℕ)
    → q ≡ some n
    → Sorted n.nacks
    → requested (drop_request q x) y ≡ (if y == x then copies y n.nacks - 1 else copies y n.nacks)
unfolding drop_request
dropped_request q n x y e s =
    ap (λ (r : Option NackQueue). requested (drop_request r x) y) e ∙ copies-remove n x y s

-- After a gap on one side of 2^15, on a sorted queue with room, each missing number is requested and
-- the requests for other numbers stay; a missing packet that comes late ends one request for its
-- number and no other.
pub gap_then_late :
    (b : Buffer) (n : NackQueue) (sn late y arrival arrival' : ℕ)
    → b.nacker ≡ some n
    → Sorted n.nacks
    → length n.nacks + (sn - b.max_seq_no) < 100
    → b.stats.packet_count ≢ 0
    → b.max_seq_no < late
    → late < sn
    → sn < 65536
    → SameHalf b.max_seq_no sn
    → let gap = count_sn b sn arrival in
      (requested gap.nacker y ≡ (
        if ltb (b.cycles + b.max_seq_no) y && ltb y (b.cycles + sn)
        then max 1 (requested b.nacker y)
        else requested b.nacker y))
      × (requested (count_sn gap late arrival').nacker y
          ≡ (if y == b.cycles + late then requested gap.nacker y - 1 else requested gap.nacker y))
gap_then_late b n sn late y arrival arrival' has s room begun ahead behind word same =
    let q = gap_queue n b.cycles b.max_seq_no sn in
    let g : Buffer = record b { nacker = some q; max_seq_no = sn } in
    let r = gap_queue-Requested n b.cycles b.max_seq_no sn s room (omega arith) word same in
    let counted : count_sn b sn arrival ≡ g =
      gap_count b sn arrival begun (omega arith) word same
      ∙ ap (λ p. record b { nacker = p; max_seq_no = sn })
          (ap (λ p. request_missing p b.cycles b.max_seq_no sn) has
            ∙ request_missing-some n b.cycles b.max_seq_no sn) in
    let count_now : requested (count_sn b sn arrival).nacker y ≡ copies y q.nacks =
      ap (λ (d : Buffer). requested d.nacker y) counted in
    let count_old : requested b.nacker y ≡ copies y n.nacks = ap (λ p. requested p y) has in
    let after : requested (count_sn (count_sn b sn arrival) late arrival').nacker y
        ≡ (if y == b.cycles + late then copies y q.nacks - 1 else copies y q.nacks) =
      ap (λ (d : Buffer). requested (count_sn d late arrival').nacker y) counted
      ∙ ap (λ (d : Buffer). requested d.nacker y)
          (late_count g late arrival' begun behind word (omega arith))
      ∙ dropped_request (some q) q (b.cycles + late) y refl r.order in
    (rw (count_now, count_old) (r.counts y), rw (count_now) after)

crossing_count :
    (b : Buffer) (n : NackQueue) (arrival : ℕ)
    → b.nacker ≡ some n
    → b.stats.packet_count ≢ 0
    → b.max_seq_no ≡ 32767
    → count_sn b 32769 arrival
      ≡ record b { nacker = some (push n (sub32 b.cycles 65536 + 32768)); max_seq_no = 32769 }
unfolding count_sn request_missing push_missing ext_sn
crossing_count b n arrival has begun at = rw (ne→== b.stats.packet_count 0 begun, at, has) refl

-- With 32767 as the greatest number and no request for it yet, packet 32769 requests the missing
-- packet 32768 in the cycle before, and 32768, when it comes late, leaves that request in the queue.
pub half_crossing :
    (b : Buffer) (n : NackQueue) (arrival arrival' : ℕ)
    → b.nacker ≡ some n
    → Sorted n.nacks
    → length n.nacks < 99
    → b.stats.packet_count ≢ 0
    → b.max_seq_no ≡ 32767
    → copies (sub32 b.cycles 65536 + 32768) n.nacks ≡ 0
    → b.cycles < 4294967296
    → requested
        (count_sn (count_sn b 32769 arrival) 32768 arrival').nacker
        (sub32 b.cycles 65536 + 32768)
      ≡ 1
half_crossing b n arrival arrival' has s room begun at new word =
    let x = sub32 b.cycles 65536 + 32768 in
    let g : Buffer = record b { nacker = some (push n x); max_seq_no = 32769 } in
    let counted : count_sn b 32769 arrival ≡ g = crossing_count b n arrival has begun at in
    let p = push-Pushed n x s (omega arith) in
    let one : copies x (push n x).nacks ≡ 1 = ground (arith, p.counts x, new) in
    ap (λ (d : Buffer). requested (count_sn d 32768 arrival').nacker x) counted
    ∙ ap (λ (d : Buffer). requested d.nacker x)
        (late_count g 32768 arrival' begun (omega arith) (omega arith) (omega arith))
    ∙ dropped_request (some (push n x)) (push n x) (b.cycles + 32768) x refl p.order
    ∙ ground (arith, one)
