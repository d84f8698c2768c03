-- ===== src/Bucket/Packets.antt =====
-- `AddPacket` as its callers see it, and a late packet that an invalid slot refuses.
use sample_nodejs_server.Prelude.{
  ℕ, ◌+◌, ◌-◌, ◌≤◌, ◌<◌, ◌≡◌, ◌≢◌, refl, ◌∙◌, ◌||◌, true, false, List, none, some, arith, Bool, ltb,
  sub16, length, le→ltb, lt→leb, eq→==, if_elim, ◌==◌, tests,
}
use sample_nodejs_server.Prelude.Int.{pos}
use sample_nodejs_server.Bucket.{
  Bucket, Result, ok, err, rtx_packet, wrap, offset, invalidate, store, push, set, get, slot_sn,
  slot_back, packet_sn, start_at, resync_at, place, add_packet,
}
use sample_nodejs_server.Bucket.Slots.{wrap-lt}
use sample_nodejs_server.Bucket.Writes.{slot_size, store_lem, invalidate-Frame}
use sample_nodejs_server.Bucket.Inv.{IsValid, push-IsValid, set-IsValid, cleared-IsValid, set_cases}
use sample_nodejs_server.Bucket.Lookup.{get-push}
use sample_nodejs_server.Bucket.Add.{get-set, set_duplicate}

start_at-IsValid : {b : Bucket} (sn : ℕ) → IsValid b → IsValid (start_at b sn)
unfolding start_at
start_at-IsValid {b} sn v =
    if_elim IsValid b.init (λ _. v)
      λ _. record {
        some_slot = v.some_slot;
        few = v.few;
        fits = v.fits;
        step_in = v.step_in;
        head_in = omega arith;
        sizes = v.sizes;
      }

resync_at-IsValid : {b : Bucket} (sn : ℕ) → IsValid b → IsValid (resync_at b sn)
unfolding resync_at
resync_at-IsValid {b} sn v =
    if_elim IsValid b.resync_on_next_packet
      (λ _.
        cleared-IsValid (record b { resync_on_next_packet = false; head_sn = sub16 sn 1 })
          v.some_slot v.few v.fits v.step_in (omega arith))
      (λ _. v)

-- The two ways of placing a packet.
abbrev pub goes_back : Bucket → ℕ → Bool
goes_back b sn = sub16 sn b.head_sn == 0 || ltb 32768 (sub16 sn b.head_sn)

pub place_cases {ℓ} :
    (P : Bucket × Result (List ℕ) → Type ℓ) (b : Bucket) (sn : ℕ) (pkt : List ℕ)
    → (goes_back b sn ≡ true → P (set b sn pkt))
    → (goes_back b sn ≡ false → P (push b sn pkt))
    → P (place b sn pkt)
unfolding place
place_cases P b sn pkt = if_elim P (goes_back b sn)

pub head_goes_back : (b : Bucket) (sn : ℕ) → sn ≡ b.head_sn → ¬ (goes_back b sn ≡ false)
head_goes_back b sn h e = let z : sub16 sn b.head_sn ≡ 0 = omega arith in ground (arith, z)

pub push_answer :
    {b : Bucket} (pkt : List ℕ)
    → IsValid b
    → length pkt ≤ 1498
    → (push b (packet_sn pkt) pkt).1 ≡ ok pkt
unfolding push offset
push_answer {b} pkt v high =
    let diff = sub16 (packet_sn pkt) b.head_sn in
    let mk = invalidate (record b { head_sn = packet_sn pkt }) b.step (diff - 1) in
    let f = invalidate-Frame (record b { head_sn = packet_sn pkt }) b.step (diff - 1) in
    store_lem mk (wrap mk.max_steps (pos (mk.step + (diff - 1)))) pkt
      (omega (
        arith,
        v.fits,
        f.size,
        f.max_steps,
        wrap-lt mk.max_steps (mk.step + (diff - 1)) (omega (arith, v.some_slot)),
      ))
      high

-- `AddPacket` of a packet of at most 1498 bytes with a 16-bit number keeps a well-formed bucket well
-- formed, whether the packet is stored or refused.
pub add_packet-IsValid :
    {b : Bucket} (pkt : List ℕ)
    → IsValid b
    → packet_sn pkt < 65536
    → length pkt ≤ 1498
    → IsValid (add_packet b pkt).0
unfolding add_packet
add_packet-IsValid {b} pkt v hn high =
    if_elim (λ (r : Bucket × Result (List ℕ)). IsValid r.0) (ltb (length pkt) 4) (λ _. v)
      λ _.
        let w = resync_at-IsValid (packet_sn pkt) (start_at-IsValid (packet_sn pkt) v) in
        place_cases (λ r. IsValid r.0) _ (packet_sn pkt) pkt
          (λ _. set-IsValid (packet_sn pkt) pkt w high)
          (λ _. push-IsValid (packet_sn pkt) pkt w hn high)

abbrev Held : List ℕ → List ℕ → Bucket × Result (List ℕ) → Type 0
Held pkt p r = r.1 ≡ ok p → (p ≡ pkt) × (get r.0 (packet_sn pkt) ≡ some pkt)

place-Held :
    {b : Bucket} (pkt p : List ℕ)
    → IsValid b
    → packet_sn pkt < 65536
    → 4 ≤ length pkt
    → length pkt ≤ 1498
    → Held pkt p (place b (packet_sn pkt) pkt)
place-Held {b} pkt p v hn low high =
    place_cases (Held pkt p) b (packet_sn pkt) pkt
      (λ _ e.
        let (answer, found) = get-set (packet_sn pkt) pkt v hn hn low high e in
        (answer, found ∙ rw (eq→== (packet_sn pkt) (packet_sn pkt) refl)))
      (λ on e. (
        agree (push_answer pkt v high) e,
        get-push (packet_sn pkt) pkt v hn hn (forward on) low high
            ∙ rw (
              lt→leb b.max_steps (sub16 (packet_sn pkt) (packet_sn pkt))
                  (omega (arith, v.some_slot)),
              eq→== (packet_sn pkt) (packet_sn pkt) refl,
            ),
      ))
  where
    agree : {r : Result (List ℕ)} → r ≡ ok pkt → r ≡ ok p → p ≡ pkt
    agree f g = cc

    forward : goes_back b (packet_sn pkt) ≡ false → packet_sn pkt ≢ b.head_sn
    forward on h = head_goes_back b (packet_sn pkt) h on

-- When a well-formed bucket accepts a packet of at most 1498 bytes with a 16-bit number,
-- `AddPacket` returns the packet as it was given, and `get` then finds it under its number.
pub get-add_packet :
    {b : Bucket} (pkt : List ℕ) {p : List ℕ}
    → IsValid b
    → packet_sn pkt < 65536
    → length pkt ≤ 1498
    → (add_packet b pkt).1 ≡ ok p
    → (p ≡ pkt) × (get (add_packet b pkt).0 (packet_sn pkt) ≡ some pkt)
unfolding add_packet
get-add_packet {b} pkt {p} v hn high =
    if_elim (Held pkt p) (ltb (length pkt) 4) (λ _ e. cc)
      λ long.
        place-Held pkt p (resync_at-IsValid (packet_sn pkt) (start_at-IsValid (packet_sn pkt) v)) hn
          (omega tests) high

-- Where a second `AddPacket` of the same number goes to `set`, with nothing to set up.
record Settled (sn : ℕ) (b : Bucket) : Type 0 where
  started : b.init ≡ true
  in_step : b.resync_on_next_packet ≡ false
  late : goes_back b sn ≡ true

start_at-init : (b : Bucket) (sn : ℕ) → (start_at b sn).init ≡ true
unfolding start_at
start_at-init b sn = if_elim (λ (c : Bucket). c.init ≡ true) b.init (λ e. e) (λ _. refl)

resync_at-init : (b : Bucket) (sn : ℕ) → (resync_at b sn).init ≡ b.init
unfolding resync_at
resync_at-init b sn =
    if_elim (λ (c : Bucket). c.init ≡ b.init) b.resync_on_next_packet
      (λ _.
        (invalidate-Frame (record b { resync_on_next_packet = false; head_sn = sub16 sn 1 }) 0
          b.max_steps).init)
      (λ _. refl)

resync_at-in_step : (b : Bucket) (sn : ℕ) → (resync_at b sn).resync_on_next_packet ≡ false
unfolding resync_at
resync_at-in_step b sn =
    if_elim (λ (c : Bucket). c.resync_on_next_packet ≡ false) b.resync_on_next_packet
      (λ _.
        (invalidate-Frame (record b { resync_on_next_packet = false; head_sn = sub16 sn 1 }) 0
          b.max_steps).resync)
      (λ e. e)

set-Settled : (b : Bucket) (sn : ℕ) (pkt : List ℕ) → Settled sn b → Settled sn (set b sn pkt).0
unfolding store
set-Settled b sn pkt h =
    set_cases (λ r. Settled sn r.0) b sn pkt (λ _. h) (λ _ _. h)
      (λ _ _. record { started = h.started; in_step = h.in_step; late = h.late })

push-Settled :
    (b : Bucket) (sn : ℕ) (pkt : List ℕ)
    → sn < 65536
    → b.init ≡ true
    → b.resync_on_next_packet ≡ false
    → Settled sn (push b sn pkt).0
unfolding push store
push-Settled b sn pkt hn started in_step =
    let f = invalidate-Frame (record b { head_sn = sn }) b.step (sub16 sn b.head_sn - 1) in
    record {
      started = f.init ∙ started;
      in_step = f.resync ∙ in_step;
      late = rw (f.head_sn) (at_head sn);
    }
  where
    at_head : (n : ℕ) → (sub16 n n == 0 || ltb 32768 (sub16 n n)) ≡ true
    at_head n = let z : sub16 n n ≡ 0 = omega arith in rw z refl

place-Settled :
    (b : Bucket) (sn : ℕ) (pkt : List ℕ)
    → sn < 65536
    → b.init ≡ true
    → b.resync_on_next_packet ≡ false
    → Settled sn (place b sn pkt).0
place-Settled b sn pkt hn started in_step =
    place_cases (λ r. Settled sn r.0) b sn pkt
      (λ back. set-Settled b sn pkt (record { started = started; in_step = in_step; late = back }))
      (λ _. push-Settled b sn pkt hn started in_step)

add-Settled :
    {b : Bucket} (pkt : List ℕ)
    → Settled (packet_sn pkt) b
    → 4 ≤ length pkt
    → add_packet b pkt ≡ set b (packet_sn pkt) pkt
unfolding add_packet start_at resync_at
add-Settled {b} pkt h low =
    rw (le→ltb (length pkt) 4 low, same b (packet_sn pkt) h.started h.in_step)
      (place_cases (λ r. r ≡ set b (packet_sn pkt) pkt) b (packet_sn pkt) pkt (λ _. refl)
        (λ on. clash h.late on))
  where
    same :
        (b : Bucket) (sn : ℕ)
        → b.init ≡ true
        → b.resync_on_next_packet ≡ false
        → resync_at (start_at b sn) sn ≡ b
    same b sn started in_step =
        if_elim (λ c. resync_at c sn ≡ b) b.init
          (λ _. if_elim (λ c. c ≡ b) b.resync_on_next_packet (λ f. cc) (λ _. refl)) (λ f. cc)

    clash : {b : Bool} {r s : Bucket × Result (List ℕ)} → b ≡ true → b ≡ false → r ≡ s
    clash f g = cc

accepted :
    (b : Bucket) (pkt p : List ℕ)
    → packet_sn pkt < 65536
    → (add_packet b pkt).1 ≡ ok p
    → Settled (packet_sn pkt) (add_packet b pkt).0 × (4 ≤ length pkt)
unfolding add_packet
accepted b pkt p hn =
    if_elim
      (λ (r : Bucket × Result (List ℕ)).
        r.1 ≡ ok p → Settled (packet_sn pkt) r.0 × (4 ≤ length pkt))
      (ltb (length pkt) 4) (λ _ e. cc)
      (λ long _. (
        place-Settled _ (packet_sn pkt) pkt hn
            (resync_at-init (start_at b (packet_sn pkt)) (packet_sn pkt)
              ∙ start_at-init b (packet_sn pkt))
            (resync_at-in_step (start_at b (packet_sn pkt)) (packet_sn pkt)),
        omega tests,
      ))

-- When a well-formed bucket has accepted a packet of at most 1498 bytes with a 16-bit number, the
-- same packet is refused as a duplicate right afterwards, and the bucket stays as it is.
pub add_packet_twice :
    {b : Bucket} (pkt : List ℕ) {p : List ℕ}
    → IsValid b
    → packet_sn pkt < 65536
    → length pkt ≤ 1498
    → (add_packet b pkt).1 ≡ ok p
    → let c = (add_packet b pkt).0 in add_packet c pkt ≡ (c, err rtx_packet)
add_packet_twice {b} pkt {p} v hn high e =
    add-Settled pkt (accepted b pkt p hn e).0 (accepted b pkt p hn e).1
    ∙ set_duplicate (packet_sn pkt) pkt (add_packet-IsValid pkt v hn high)
        (get-add_packet pkt v hn high e).1

-- Where the slot of a number within the window is marked invalid but still holds the bytes of that
-- number, `set` refuses the packet as a duplicate, although `get` does not find it.
pub set_stale :
    {b : Bucket} (sn : ℕ) (pkt : List ℕ)
    → sub16 b.head_sn sn < b.max_steps
    → slot_sn b (offset b (slot_back b (sub16 b.head_sn sn))) ≡ sn
    → slot_size b.buf (wrap b.max_steps (slot_back b (sub16 b.head_sn sn))) ≡ 65535
    → (set b sn pkt ≡ (b, err rtx_packet)) × (get b sn ≡ none)
unfolding get offset
set_stale {b} sn pkt within stale gone = (
  set_cases (λ r. r ≡ (b, err rtx_packet)) b sn pkt (λ old. absurd (omega arith)) (λ _ _. refl)
      (λ _ ne. absurd (ne stale)),
  rw (lt→leb b.max_steps (sub16 b.head_sn sn) within, stale, eq→== sn sn refl, gone, get) refl,
)
