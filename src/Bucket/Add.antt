-- ===== src/Bucket/Add.antt =====
-- `set` and `AddPacket`: late packets, duplicates, resynchronisation.
use sample_nodejs_server.Prelude.{
  ℕ, ◌+◌, ◌*◌, ◌≤◌, ◌<◌, ◌≡◌, refl, ap, inl, inr, ◌≢◌, false, List, none, some, arith, leb,
  if◌then◌else◌, sub16, length, Bool-cases, leb→lt, lt→leb, ==→eq, ==→ne, eq→==, ◌==◌,
}
use sample_nodejs_server.Bucket.{
  Bucket, Result, ok, err, rtx_packet, offset, store, set, get, slot_sn, slot_back, packet_sn,
}
use sample_nodejs_server.Bucket.Slots.{back, wrap-back}
use sample_nodejs_server.Bucket.Writes.{read, read-same, store_other, read-store, store_lem}
use sample_nodejs_server.Bucket.Inv.{IsValid, get-read, store-IsValid, set_cases}
use sample_nodejs_server.Bucket.Lookup.{back-lt}

back-ne : (m step d e : ℕ) → step < m → d < m → e < m → d ≢ e → back m step d ≢ back m step e
back-ne m step d e h hd he ne = ground arith

get-store-read :
    {b : Bucket} (s k : ℕ) (pkt : List ℕ)
    → IsValid b
    → length pkt ≤ 1498
    → get (store b (k * 1500) pkt).0 s ≡ (
        if leb b.max_steps (sub16 b.head_sn s)
        then none
        else read (store b (k * 1500) pkt).0.buf (back b.max_steps b.step (sub16 b.head_sn s)) s)
unfolding store
get-store-read s k pkt v high = get-read s (store-IsValid k pkt v high)

-- Storing a late packet adds it to the window and changes no other packet of it.
get-store :
    {b : Bucket} (s : ℕ) (pkt : List ℕ)
    → IsValid b
    → s < 65536
    → packet_sn pkt < 65536
    → sub16 b.head_sn (packet_sn pkt) < b.max_steps
    → 4 ≤ length pkt
    → length pkt ≤ 1498
    → get (store b (back b.max_steps b.step (sub16 b.head_sn (packet_sn pkt)) * 1500) pkt).0 s
      ≡ (if s == packet_sn pkt then some pkt else get b s)
get-store {b} s pkt v hs hn new low high =
    let k = back b.max_steps b.step (sub16 b.head_sn (packet_sn pkt)) in
    rw (get-store-read s k pkt v high, get-read s v)
      (elim (Bool-cases (s == packet_sn pkt)) [
        | inl same ↦
            rw
              (
                ==→eq s (packet_sn pkt) same,
                eq→== (packet_sn pkt) (packet_sn pkt) refl,
                lt→leb _ _ new,
              )
              (read-store b k pkt (stored_inside k (back-lt _ _ _ v.step_in new)) low high)
        | inr other ↦ rw other (elim (Bool-cases (leb b.max_steps (sub16 b.head_sn s))) [
          | inl old ↦ rw old
          | inr within ↦ rw within (unchanged other (leb→lt _ _ within))
        ])
      ])
  where
    stored_inside : (k : ℕ) → k < b.max_steps → k * 1500 + 1500 ≤ b.size
    stored_inside k h = omega (arith, v.fits)

    unchanged :
        (s == packet_sn pkt) ≡ false
        → sub16 b.head_sn s < b.max_steps
        → read
            (store b (back b.max_steps b.step (sub16 b.head_sn (packet_sn pkt)) * 1500) pkt).0.buf
            (back b.max_steps b.step (sub16 b.head_sn s))
            s
          ≡ read b.buf (back b.max_steps b.step (sub16 b.head_sn s)) s
    unchanged other within =
        read-same _ b.buf (back b.max_steps b.step (sub16 b.head_sn s)) s
          (store_other b (back b.max_steps b.step (sub16 b.head_sn (packet_sn pkt)))
            (back b.max_steps b.step (sub16 b.head_sn s)) pkt
            (back-ne _ _ _ _ v.step_in new within (apart (==→ne _ _ other))) high)
          (v.sizes _ (back-lt _ _ _ v.step_in within))
      where
        apart : s ≢ packet_sn pkt → sub16 b.head_sn (packet_sn pkt) ≢ sub16 b.head_sn s
        apart ne = omega (arith, v.head_in)

-- Where `get` finds a packet.
get-some :
    (b : Bucket) (sn : ℕ) (p : List ℕ)
    → get b sn ≡ some p
    → (sub16 b.head_sn sn < b.max_steps)
      × (slot_sn b (offset b (slot_back b (sub16 b.head_sn sn))) ≡ sn)
unfolding get
get-some b sn p e = elim (Bool-cases (leb b.max_steps (sub16 b.head_sn sn))) [
  | inl old ↦ absurd (none-ne-some (rw (old, get) at e))
  | inr new ↦ elim (Bool-cases (slot_sn b (offset b (slot_back b (sub16 b.head_sn sn))) == sn)) [
    | inl is ↦ (leb→lt _ _ new, ==→eq _ _ is)
    | inr isnt ↦ absurd (none-ne-some (rw (new, isnt, get) at e))
  ]
]
  where
    none-ne-some : none ≢ some p
    none-ne-some h = cc

pub offset-back :
    {b : Bucket} (d : ℕ)
    → IsValid b
    → d < b.max_steps
    → offset b (slot_back b d) ≡ back b.max_steps b.step d * 1500
unfolding offset
offset-back {b} d v h = ap (λ k. k * 1500) (wrap-back b.max_steps b.step d v.step_in h)

-- In a well-formed bucket `set` refuses a number that `get` finds as a duplicate, and changes
-- nothing.
pub set_duplicate :
    {b : Bucket} (sn : ℕ) (pkt : List ℕ) {p : List ℕ}
    → IsValid b
    → get b sn ≡ some p
    → set b sn pkt ≡ (b, err rtx_packet)
set_duplicate {b} sn pkt {p} v e =
    set_cases (λ r. r ≡ (b, err rtx_packet)) b sn pkt
      (λ old. absurd (omega (arith, (get-some b sn p e).0))) (λ _ _. refl)
      (λ _ ne. absurd (ne (get-some b sn p e).1))

-- When `set` accepts a packet of 4 to 1498 bytes with a 16-bit number in a well-formed bucket, it
-- returns the packet, and `get` finds the packet under its number and what it found before under
-- any other 16-bit number.
pub get-set :
    {b : Bucket} (s : ℕ) (pkt : List ℕ) {p : List ℕ}
    → IsValid b
    → s < 65536
    → packet_sn pkt < 65536
    → 4 ≤ length pkt
    → length pkt ≤ 1498
    → (set b (packet_sn pkt) pkt).1 ≡ ok p
    → (p ≡ pkt)
      × (get (set b (packet_sn pkt) pkt).0 s ≡ (if s == packet_sn pkt then some pkt else get b s))
get-set {b} s pkt {p} v hs hn low high =
    set_cases
      (λ r.
        r.1 ≡ ok p → (p ≡ pkt) × (get r.0 s ≡ (if s == packet_sn pkt then some pkt else get b s)))
      b (packet_sn pkt) pkt (λ _ e. cc) (λ _ _ e. cc)
      λ new _.
        rw (offset-back (sub16 b.head_sn (packet_sn pkt)) v new) λ e.
          (answer (store_lem b k pkt (inside new) high) e, get-store s pkt v hs hn new low high)
  where
    k : ℕ
    k = back b.max_steps b.step (sub16 b.head_sn (packet_sn pkt))

    inside : sub16 b.head_sn (packet_sn pkt) < b.max_steps → k * 1500 + 1500 ≤ b.size
    inside new = omega (arith, v.fits, back-lt _ _ _ v.step_in new)

    answer : {r : Result (List ℕ)} → r ≡ ok pkt → r ≡ ok p → p ≡ pkt
    answer f g = cc
