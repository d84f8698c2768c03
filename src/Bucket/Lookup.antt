-- ===== src/Bucket/Lookup.antt =====
-- What `get` finds after `push`, `set` and `add_packet`: the bucket as a window of packets.
use native.Mathlib.Nat.{mod-lt}
use sample_nodejs_server.Prelude.{
  ℕ, ◌+◌, ◌-◌, ◌*◌, ◌%◌, ◌≤◌, ◌<◌, ◌≡◌, sym, ap, ◌∙◌, inl, inr, ◌≢◌, List, Option, none, some,
  arith, leb, ltb, if◌then◌else◌, sub16, length, Bool-cases, leb→lt, lt→leb, ==→eq, ◌==◌, tests,
}
use sample_nodejs_server.Prelude.Int.{pos}
use sample_nodejs_server.Prelude.Bytes.{Memory}
use sample_nodejs_server.Bucket.{Bucket, wrap, offset, invalidate, store, push, get, packet_sn}
use sample_nodejs_server.Bucket.Slots.{back, back-wrap, wrap-lt, wrap-ahead, wrap_first_lap}
use sample_nodejs_server.Bucket.Writes.{
  SameSlot, read, read-same, read_invalid, invalidate-Frame, invalidate_hit, invalidate_miss,
  store_other, read-store, slot_size-same,
}
use sample_nodejs_server.Bucket.Inv.{IsValid, get-read, push-IsValid}

pub back-lt : (m step e : ℕ) → step < m → e < m → back m step e < m
back-lt m step e h lt = ground arith

-- What a forward step by `d` leaves in the slots: `w` is the slot that it writes.
module _ {b : Bucket} (sn : ℕ) (pkt : List ℕ) (v : IsValid b) (low : 4 ≤ length pkt)
    (high : length pkt ≤ 1498) (d : ℕ) (pos_d : 0 < d) where
  abbrev m : ℕ
  m = b.max_steps

  abbrev marked : Bucket
  marked = invalidate (record b { head_sn = sn }) b.step (d - 1)

  abbrev w : ℕ
  w = wrap m (pos (b.step + (d - 1)))

  abbrev after : Memory
  after = (store marked (w * 1500) pkt).0.buf

  abbrev next_step : ℕ
  next_step = wrap m (pos (b.step + d))

  slot_zero : back m next_step 0 ≡ w
  slot_zero =
      back-wrap m (b.step + d) 0 v.some_slot v.some_slot (omega arith)
      ∙ ap (λ x. wrap m (pos x)) (omega arith)

  newest : read after w (packet_sn pkt) ≡ some pkt
  newest =
      read-store marked w pkt
        (omega (
          arith,
          v.fits,
          (invalidate-Frame (record b { head_sn = sn }) b.step (d - 1)).size,
          wrap-lt m (b.step + (d - 1)) v.some_slot,
        ))
        low high

  w_ne_back : (e : ℕ) → 0 < e → e < m → w ≢ back m next_step e
  w_ne_back e h lt = ground (arith, slot_zero, wrap-lt m (b.step + d) v.some_slot)

  other_slot : (e : ℕ) → 0 < e → e < m → SameSlot after marked.buf (back m next_step e)
  other_slot e h lt = store_other marked w (back m next_step e) pkt (w_ne_back e h lt) high

  gap_slot :
      (e : ℕ) → e < d → e < m → wrap m (pos (b.step + (d - (e + 1)) % m)) ≡ back m next_step e
  gap_slot e gap lt = sym (
      back-wrap m (b.step + d) e v.some_slot lt (omega arith)
      ∙ ap (λ x. wrap m (pos x)) (omega arith)
      ∙ wrap_first_lap m b.step (d - (e + 1)) v.some_slot)

  short : (e : ℕ) → 0 < e → e < d → (d - (e + 1)) % m < d - 1
  short e h gap = omega arith

  in_gap : (e s : ℕ) → 0 < e → e < d → e < m → read after (back m next_step e) s ≡ none
  in_gap e s h gap lt = read_invalid after (back m next_step e) s (
      slot_size-same after marked.buf (back m next_step e) (other_slot e h lt)
      ∙ rw (gap_slot e gap lt) at (
          invalidate_hit (record b { head_sn = sn }) b.step (d - 1) ((d - (e + 1)) % m)
            (short e h gap) (mod-lt (d - (e + 1)) v.some_slot)))

  back_ahead : (e : ℕ) → d ≤ e → e < m → back m next_step e ≡ back m b.step (e - d)
  back_ahead e h lt = ground (arith, wrap-ahead m b.step d v.step_in)

  unmarked : (e : ℕ) → d ≤ e → e < m → SameSlot marked.buf b.buf (back m next_step e)
  unmarked e h lt =
      invalidate_miss (record b { head_sn = sn }) b.step (d - 1) (back m next_step e)
        λ j p q. ground (arith, wrap-ahead m b.step j v.step_in, back_ahead e h lt)

  kept :
      (e s : ℕ)
      → d ≤ e
      → e < m
      → read after (back m next_step e) s ≡ read b.buf (back m b.step (e - d)) s
  kept e s h lt =
      let in_ring = back-lt m next_step e (wrap-lt m (b.step + d) v.some_slot) lt in
      let old = unmarked e h lt in
      let size_old = slot_size-same marked.buf b.buf (back m next_step e) old in
      let small = v.sizes (back m next_step e) in_ring in
      read-same after marked.buf (back m next_step e) s (other_slot e (omega arith) lt)
        (rw size_old small)
      ∙ read-same marked.buf b.buf (back m next_step e) s old small
      ∙ ap (λ k. read b.buf k s) (back_ahead e h lt)

  -- The packet `e` behind the new one.
  window :
      (e s : ℕ)
      → (e ≡ 0 → s ≡ packet_sn pkt)
      → e < m
      → read after (back m next_step e) s ≡ (
          if e == 0
          then some pkt
          else if ltb e d
          then none
          else read b.buf (back m b.step (e - d)) s)
  window e s first lt = elim (Bool-cases (e == 0)) [
    | inl z ↦ rw (z, ==→eq e 0 z, slot_zero, first (==→eq e 0 z)) newest
    | inr nz ↦ elim (Bool-cases (ltb e d)) [
      | inl gap ↦ rw (nz, gap) (in_gap e s (omega tests) (omega tests) lt)
      | inr old ↦ rw (nz, old) (kept e s (omega tests) lt)
    ]
  ]

zero_behind : (n s : ℕ) → n < 65536 → s < 65536 → (sub16 n s == 0) ≡ (s == n)
zero_behind n s hn hs = ground arith

sub16-sub16 :
    (n h s : ℕ)
    → n < 65536
    → h < 65536
    → s < 65536
    → sub16 n h ≤ sub16 n s
    → sub16 n s - sub16 n h ≡ sub16 h s
sub16-sub16 n h s hn hh hs le = omega arith

-- Distances behind the new packet in terms of distances behind the old head.
rebase :
    (R : ℕ → Option (List ℕ)) (p : Option (List ℕ)) (n h s m : ℕ)
    → n < 65536
    → h < 65536
    → s < 65536
    → sub16 n s < m
    → (if sub16 n s == 0
        then p
        else if ltb (sub16 n s) (sub16 n h)
        then none
        else R (sub16 n s - sub16 n h))
      ≡ (if s == n
          then p
          else if ltb (sub16 n s) (sub16 n h)
          then none
          else if leb m (sub16 h s)
          then none
          else R (sub16 h s))
rebase R p n h s m hn hh hs lt =
    rw (zero_behind n s hn hs) (elim (Bool-cases (ltb (sub16 n s) (sub16 n h))) [
      | inl gap ↦ rw gap
      | inr old ↦
          let e : sub16 n s - sub16 n h ≡ sub16 h s = sub16-sub16 n h s hn hh hs (omega tests) in
          rw (old, e, lt→leb m (sub16 h s) (omega tests))
    ])

-- The array and the position after `push`.
push-after :
    {b : Bucket} (sn : ℕ) (pkt : List ℕ) (v : IsValid b) (low : 4 ≤ length pkt)
    (high : length pkt ≤ 1498) (pos_d : 0 < sub16 sn b.head_sn)
    → let b' = (push b sn pkt).0 in
      (b'.buf ≡ after sn pkt v low high (sub16 sn b.head_sn) pos_d)
      × (b'.step ≡ wrap b.max_steps (pos (b.step + sub16 sn b.head_sn)))
      × (b'.head_sn ≡ sn)
      × (b'.max_steps ≡ b.max_steps)
unfolding push offset
push-after {b} sn pkt v low high pos_d =
    let f = invalidate-Frame (record b { head_sn = sn }) b.step (sub16 sn b.head_sn - 1) in
    let mk = invalidate (record b { head_sn = sn }) b.step (sub16 sn b.head_sn - 1) in
    let last : b.step + (sub16 sn b.head_sn - 1) + 1 ≡ b.step + sub16 sn b.head_sn = omega arith in
    (
      λ i.
          (store mk (wrap (f.max_steps i) (pos (f.step i + (sub16 sn b.head_sn - 1))) * 1500)
            pkt).0.buf,
      (λ i. wrap (f.max_steps i) (pos (f.step i + (sub16 sn b.head_sn - 1) + 1)))
          ∙ ap (λ x. wrap b.max_steps (pos x)) last,
      f.head_sn,
      f.max_steps,
    )

-- The window of a well-formed bucket after `push` of a packet of 4 to 1498 bytes whose 16-bit
-- number is not the head's: `get` of a 16-bit number answers with the new packet, with nothing for
-- a number that was passed over or is now too old, and otherwise with what it answered before.
pub get-push :
    {b : Bucket} (s : ℕ) (pkt : List ℕ)
    → IsValid b
    → s < 65536
    → packet_sn pkt < 65536
    → packet_sn pkt ≢ b.head_sn
    → 4 ≤ length pkt
    → length pkt ≤ 1498
    → get (push b (packet_sn pkt) pkt).0 s ≡ (
        if leb b.max_steps (sub16 (packet_sn pkt) s)
        then none
        else if s == packet_sn pkt
        then some pkt
        else if ltb (sub16 (packet_sn pkt) s) (sub16 (packet_sn pkt) b.head_sn)
        then none
        else get b s)
get-push {b} s pkt v hs hn ne low high =
    let pos_d : 0 < sub16 (packet_sn pkt) b.head_sn = omega (arith, v.head_in) in
    let (buf_eq, step_eq, head_eq, max_eq) = push-after (packet_sn pkt) pkt v low high pos_d in
    rw (get-read s (push-IsValid (packet_sn pkt) pkt v hn high), head_eq, max_eq, step_eq, buf_eq)
      (elim (Bool-cases (leb b.max_steps (sub16 (packet_sn pkt) s))) [
        | inl old ↦ rw old
        | inr new ↦
            rw (new, get-read s v)
              (window (packet_sn pkt) pkt v low high (sub16 (packet_sn pkt) b.head_sn) pos_d
                  (sub16 (packet_sn pkt) s) s (λ z. omega arith) (leb→lt _ _ new)
                ∙ rebase (λ d. read b.buf (back b.max_steps b.step d) s) (some pkt) (packet_sn pkt)
                    b.head_sn s b.max_steps hn v.head_in hs (leb→lt _ _ new))
      ])
