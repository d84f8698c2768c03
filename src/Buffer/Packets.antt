-- ===== src/Buffer/Packets.antt =====
-- `calc` as the owner of the buffer sees it: the invariant, and the packets that it can send again.
use sample_nodejs_server.Prelude.{
  ℕ, zero, suc, ◌+◌, ◌-◌, ◌%◌, ◌≤◌, ◌<◌, ◌≡◌, refl, ap, ◌∙◌, false, List, Option, none, some, arith,
  ltb, ◌==◌, if◌then◌else◌, length, sub16, if_elim, ltb→lt,
}
use sample_nodejs_server.Bucket.{
  Bucket, Result, ok, err, packet_not_found, buffer_too_small, packet_sn, add_packet, get,
  get_packet,
}
use sample_nodejs_server.Bucket.Packets.{add_packet-IsValid, get-add_packet}
use sample_nodejs_server.Nack.{NackQueue, push}
use sample_nodejs_server.Nack.Queue.{Sorted}
use sample_nodejs_server.Nack.Copies.{push-Sorted, remove-Sorted}
use sample_nodejs_server.Buffer.State.{Buffer, Event, Env}
use sample_nodejs_server.Buffer.Count.{
  ext_sn, push_missing, request_missing, drop_request, count_sn,
}
use sample_nodejs_server.Buffer.Calc.{Arrived, store_in, calc}
use sample_nodejs_server.Buffer.Access.{fetch_packet, get_from}
use sample_nodejs_server.Buffer.Inv.{SlotsValid, QueueSorted, IsValid, Keeps, take_stored-Keeps}

push_missing-Sorted :
    (n : NackQueue) (cycles max_seq_no sn i rounds : ℕ)
    → Sorted n.nacks
    → Sorted (push_missing n cycles max_seq_no sn i rounds).nacks
unfolding push_missing
push_missing-Sorted n cycles max_seq_no sn i zero s = s
push_missing-Sorted n cycles max_seq_no sn i (suc rounds) s =
    push_missing-Sorted (push n (ext_sn cycles max_seq_no (sub16 sn i))) cycles max_seq_no sn
      (i + 1) rounds (push-Sorted n _ s)

request_missing-QueueSorted :
    (q : Option NackQueue) (cycles max_seq_no sn : ℕ)
    → QueueSorted q
    → QueueSorted (request_missing q cycles max_seq_no sn)
unfolding request_missing
request_missing-QueueSorted none cycles max_seq_no sn s = tt
request_missing-QueueSorted (some n) cycles max_seq_no sn s =
    push_missing-Sorted n cycles max_seq_no sn 1 (sub16 sn max_seq_no - 1) s

drop_request-QueueSorted :
    (q : Option NackQueue) (ext : ℕ) → QueueSorted q → QueueSorted (drop_request q ext)
unfolding drop_request
drop_request-QueueSorted none ext s = tt
drop_request-QueueSorted (some n) ext s = remove-Sorted n ext s

count_sn-IsValid :
    {b : Buffer} (sn arrival : ℕ) → IsValid b → sn < 65536 → IsValid (count_sn b sn arrival)
unfolding count_sn
count_sn-IsValid {b} sn arrival v h =
    if_elim IsValid (b.stats.packet_count == 0)
      (λ _. record {
        whole_cycles = v.whole_cycles;
        cycles_word = v.cycles_word;
        max_word = h;
        base_word = h;
        slots = v.slots;
        order = v.order;
      })
      (λ _.
        if_elim IsValid (ltb (sub16 sn b.max_seq_no) 32768)
          (λ _. record {
            whole_cycles = ground (arith, v.whole_cycles);
            cycles_word = ground (arith, v.cycles_word);
            max_word = h;
            base_word = v.base_word;
            slots = v.slots;
            order = request_missing-QueueSorted (b.nacker) _ b.max_seq_no sn v.order;
          })
          (λ _. record {
            whole_cycles = v.whole_cycles;
            cycles_word = v.cycles_word;
            max_word = v.max_word;
            base_word = v.base_word;
            slots = v.slots;
            order = drop_request-QueueSorted (b.nacker) _ v.order;
          }))

keeps-IsValid : {b c : Buffer} → IsValid b → Keeps b c → IsValid c
keeps-IsValid v k = record {
  whole_cycles = ap (λ n. n % 65536) k.cycles ∙ v.whole_cycles;
  cycles_word = omega (arith, k.cycles, v.cycles_word);
  max_word = omega (arith, k.max_seq_no, v.max_word);
  base_word = k.base_word v.base_word;
  slots = rw k.bucket v.slots;
  order = k.order v.order;
}

store_in-IsValid :
    (env : Env) (b : Buffer) (a : Arrived) (k : Option Bucket)
    → IsValid b
    → SlotsValid k
    → a.sn < 65536
    → packet_sn (a.bytes) < 65536
    → length (a.bytes) ≤ 1498
    → IsValid (store_in env b a k).0
unfolding store_in
store_in-IsValid env b a none v s h sn_word short = v
store_in-IsValid env b a (some k) v s h sn_word short =
    let stored : Buffer = record b { bucket = some (add_packet k (a.bytes)).0 } in
    let w : IsValid stored = record {
      whole_cycles = v.whole_cycles;
      cycles_word = v.cycles_word;
      max_word = v.max_word;
      base_word = v.base_word;
      slots = add_packet-IsValid (a.bytes) s sn_word short;
      order = v.order;
    } in
    keeps-IsValid w (take_stored-Keeps env stored a (add_packet k (a.bytes)).1 h)

-- `calc` of a packet of at most 1498 bytes with a 16-bit number keeps a well-formed buffer well
-- formed on every branch: the cycles whole, the numbers words, the bucket well formed and the queue
-- of requests sorted.
pub calc-IsValid :
    {b : Buffer} (env : Env) (pkt : List ℕ) (arrival now : ℕ)
    → IsValid b
    → packet_sn pkt < 65536
    → length pkt ≤ 1498
    → IsValid (calc env b pkt arrival now).0
unfolding calc
calc-IsValid {b} env pkt arrival now v h short =
    if_elim (λ (r : Buffer × List Event). IsValid r.0) (ltb (length pkt) 4) (λ _. v)
      (λ _.
        let w = count_sn-IsValid (packet_sn pkt) arrival v h in
        store_in-IsValid env (count_sn b (packet_sn pkt) arrival) _ _ w w.slots h h short)

count_sn-bucket :
    (b : Buffer) (sn arrival : ℕ)
    → ((count_sn b sn arrival).bucket ≡ b.bucket) × ((count_sn b sn arrival).closed ≡ b.closed)
unfolding count_sn
count_sn-bucket b sn arrival =
    if_elim (λ (c : Buffer). (c.bucket ≡ b.bucket) × (c.closed ≡ b.closed))
      (b.stats.packet_count == 0) (λ _. (refl, refl))
      (λ _.
        if_elim (λ (c : Buffer). (c.bucket ≡ b.bucket) × (c.closed ≡ b.closed))
          (ltb (sub16 sn b.max_seq_no) 32768) (λ _. (refl, refl)) (λ _. (refl, refl)))

store_in-bucket :
    (env : Env) (b : Buffer) (a : Arrived) (k : Bucket)
    → a.sn < 65536
    → ((store_in env b a (some k)).0.bucket ≡ some (add_packet k (a.bytes)).0)
      × ((store_in env b a (some k)).0.closed ≡ b.closed)
unfolding store_in
store_in-bucket env b a k h =
    let v =
      take_stored-Keeps env (record b { bucket = some (add_packet k (a.bytes)).0 }) a
        (add_packet k (a.bytes)).1 h in
    (v.bucket, v.closed)

abbrev arrived : List ℕ → ℕ → ℕ → Arrived
arrived pkt arrival now = record { bytes = pkt; sn = packet_sn pkt; arrival = arrival; now = now }

calc_long :
    (env : Env) (b : Buffer) (pkt : List ℕ) (arrival now : ℕ)
    → 4 ≤ length pkt
    → let counted = count_sn b (packet_sn pkt) arrival in
      calc env b pkt arrival now ≡ store_in env counted (arrived pkt arrival now) (counted.bucket)
unfolding calc
calc_long env b pkt arrival now long =
    let counted = count_sn b (packet_sn pkt) arrival in
    if_elim (λ r. r ≡ store_in env counted (arrived pkt arrival now) (counted.bucket))
      (ltb (length pkt) 4) (λ low. absurd (omega (arith, ltb→lt (length pkt) 4 low))) (λ _. refl)

calc_stores :
    (env : Env) (b : Buffer) (k : Bucket) (pkt : List ℕ) (arrival now : ℕ)
    → b.bucket ≡ some k
    → 4 ≤ length pkt
    → packet_sn pkt < 65536
    → ((calc env b pkt arrival now).0.bucket ≡ some (add_packet k pkt).0)
      × ((calc env b pkt arrival now).0.closed ≡ b.closed)
calc_stores env b k pkt arrival now has long h =
    let counted = count_sn b (packet_sn pkt) arrival in
    let (same, still) = count_sn-bucket b (packet_sn pkt) arrival in
    let (stored, closed) = store_in-bucket env counted (arrived pkt arrival now) k h in
    let e : calc env b pkt arrival now ≡ store_in env counted (arrived pkt arrival now) (some k) =
      calc_long env b pkt arrival now long
      ∙ ap (store_in env counted (arrived pkt arrival now)) (same ∙ has) in
    (
      ap (λ (r : Buffer × List Event). r.0.bucket) e ∙ stored,
      ap (λ (r : Buffer × List Event). r.0.closed) e ∙ closed ∙ still,
    )

given_out :
    (k : Bucket) (sn capacity : ℕ) (pkt : List ℕ)
    → get k sn ≡ some pkt
    → length pkt ≤ capacity
    → get_packet k capacity sn ≡ ok pkt
unfolding get_packet
given_out k sn capacity pkt found fits =
    ap (answer capacity) found
    ∙ if_elim (λ (r : Result (List ℕ)). r ≡ ok pkt) (ltb capacity (length pkt))
        (λ small. absurd (omega (arith, ltb→lt capacity (length pkt) small))) (λ _. refl)
  where
    answer : ℕ → Option (List ℕ) → Result (List ℕ)
    answer capacity found = elim found [
      | none ↦ err packet_not_found
      | some p ↦ if ltb capacity (length p) then err buffer_too_small else ok p
    ]

fetch_held :
    (c : Buffer) (k : Bucket) (sn capacity : ℕ) (pkt : List ℕ)
    → c.closed ≡ false
    → c.bucket ≡ some k
    → get k sn ≡ some pkt
    → length pkt ≤ capacity
    → fetch_packet c capacity sn ≡ some (ok pkt)
unfolding fetch_packet get_from
fetch_held c k sn capacity pkt is_open has found fits =
    rw (is_open)
      (ap some (ap (λ q. get_from q capacity sn) has ∙ given_out k sn capacity pkt found fits))

-- A packet that the bucket accepts is given out unchanged by `GetPacket` afterwards, whatever the
-- other stages of `calc` make of it, as long as the buffer is open and the caller's slice is long
-- enough.
pub fetch-calc :
    (env : Env) (b : Buffer) {k : Bucket} (pkt : List ℕ) {p : List ℕ} (arrival now capacity : ℕ)
    → IsValid b
    → b.bucket ≡ some k
    → b.closed ≡ false
    → 4 ≤ length pkt
    → packet_sn pkt < 65536
    → length pkt ≤ 1498
    → (add_packet k pkt).1 ≡ ok p
    → length pkt ≤ capacity
    → fetch_packet (calc env b pkt arrival now).0 capacity (packet_sn pkt) ≡ some (ok pkt)
fetch-calc env b {k} pkt arrival now capacity v has is_open long h short accepted fits =
    let (stored, closed) = calc_stores env b k pkt arrival now has long h in
    let found = (get-add_packet pkt (rw has at (v.slots)) h short accepted).1 in
    fetch_held (calc env b pkt arrival now).0 (add_packet k pkt).0 (packet_sn pkt) capacity pkt
      (closed ∙ is_open) stored found fits
