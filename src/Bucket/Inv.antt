-- ===== src/Bucket/Inv.antt =====
-- The invariant of `Bucket`, and `get` as a read of one slot.
use sample_nodejs_server.Prelude.{
  ℕ, ◌+◌, ◌-◌, ◌*◌, ◌/◌, ◌≤◌, ◌<◌, ◌≡◌, ◌∙◌, ◌⊎◌, inl, inr, ◌≢◌, false, List, none, arith, leb,
  if◌then◌else◌, sub16, length, Bool-cases, leb→le, leb→lt, ==→eq, ==→ne, ◌==◌,
}
use sample_nodejs_server.Prelude.Int.{pos}
use sample_nodejs_server.Prelude.Bytes.{Memory}
use sample_nodejs_server.Bucket.{
  Bucket, Result, err, packet_too_old, rtx_packet, wrap, offset, invalidate, store, new_bucket,
  push, set, get, slot_sn, slot_back,
}
use sample_nodejs_server.Bucket.Slots.{back, wrap-back, wrap-lt, wrap-ahead}
use sample_nodejs_server.Bucket.Writes.{
  slot_size, read, invalidate-Frame, invalidate_size, invalidate_hit, store_other, store_size,
  slot_size-same,
}

-- `sizes`: a slot is marked invalid or holds a packet that fits into it.
pub record IsValid (b : Bucket) : Type 0 where
  pub some_slot : 0 < b.max_steps
  pub few : b.max_steps ≤ 65536
  pub fits : b.max_steps * 1500 ≤ b.size
  pub step_in : b.step < b.max_steps
  pub head_in : b.head_sn < 65536
  pub sizes : (k : ℕ) → k < b.max_steps → (slot_size b.buf k ≡ 65535) ⊎ (slot_size b.buf k ≤ 1498)

pub get-read :
    {b : Bucket} (sn : ℕ)
    → IsValid b
    → get b sn ≡ (
        if leb b.max_steps (sub16 b.head_sn sn)
        then none
        else read b.buf (back b.max_steps b.step (sub16 b.head_sn sn)) sn)
unfolding get offset slot_sn read
get-read {b} sn v = elim (Bool-cases (leb b.max_steps (sub16 b.head_sn sn))) [
  | inl old ↦ rw old
  | inr new ↦ rw (new, wrap-back b.max_steps b.step (sub16 b.head_sn sn) v.step_in (leb→lt _ _ new))
]

-- Every slot of a bucket whose slots have all been marked is invalid.
pub cleared :
    (b : Bucket) (k : ℕ) → k < b.max_steps → slot_size (invalidate b 0 b.max_steps).buf k ≡ 65535
cleared b k h =
    let at : wrap b.max_steps (pos (0 + k)) ≡ k =
      wrap-ahead b.max_steps 0 k (omega arith) (omega arith) ∙ ground arith in
    rw at at (invalidate_hit b 0 b.max_steps k h h)

pub cleared-IsValid :
    (b : Bucket)
    → 0 < b.max_steps
    → b.max_steps ≤ 65536
    → b.max_steps * 1500 ≤ b.size
    → b.step < b.max_steps
    → b.head_sn < 65536
    → IsValid (invalidate b 0 b.max_steps)
cleared-IsValid b some_slot few fits step_in head_in =
    let f = invalidate-Frame b 0 b.max_steps in
    record {
      some_slot = omega arith;
      few = omega arith;
      fits = rw (f.max_steps, f.size) fits;
      step_in = omega arith;
      head_in = omega arith;
      sizes = λ k h. inl (cleared b k (omega arith));
    }

invalidate-IsValid : {b : Bucket} (start num : ℕ) → IsValid b → IsValid (invalidate b start num)
invalidate-IsValid {b} start num v =
    let f = invalidate-Frame b start num in
    record {
      some_slot = omega arith;
      few = omega arith;
      fits = rw (f.max_steps, f.size) (v.fits);
      step_in = omega arith;
      head_in = omega arith;
      sizes = λ k h. sizes k (omega arith);
    }
  where
    sizes :
        (k : ℕ)
        → k < b.max_steps
        → (slot_size (invalidate b start num).buf k ≡ 65535)
          ⊎ (slot_size (invalidate b start num).buf k ≤ 1498)
    sizes k h = ground (arith, invalidate_size b start num k, v.sizes k h)

pub store-IsValid :
    {b : Bucket} (j : ℕ) (pkt : List ℕ)
    → IsValid b
    → length pkt ≤ 1498
    → IsValid (store b (j * 1500) pkt).0
unfolding store
store-IsValid {b} j pkt v hp = record {
  some_slot = v.some_slot;
  few = v.few;
  fits = v.fits;
  step_in = v.step_in;
  head_in = v.head_in;
  sizes = λ k h. sizes k h;
}
  where
    sizes :
        (k : ℕ)
        → k < b.max_steps
        → (slot_size (store b (j * 1500) pkt).0.buf k ≡ 65535)
          ⊎ (slot_size (store b (j * 1500) pkt).0.buf k ≤ 1498)
    sizes k h = elim (Bool-cases (j == k)) [
      | inl e ↦ inr (rw (← ==→eq j k e, store_size b j pkt hp) hp)
      | inr ne ↦
          rw (slot_size-same _ b.buf k (store_other b j k pkt (==→ne j k ne) hp)) (v.sizes k h)
    ]

-- A new bucket over an array of 1500 bytes and less than 98305500, so of one to 65536 slots, is
-- well formed, whatever the array holds.
pub new_bucket-IsValid :
    (buf : Memory) (size : ℕ) → 1500 ≤ size → size < 98305500 → IsValid (new_bucket buf size)
unfolding new_bucket
new_bucket-IsValid buf size low high =
    cleared-IsValid
      (record {
        buf = buf;
        size = size;
        init = false;
        resync_on_next_packet = false;
        step = 0;
        head_sn = 0;
        max_steps = size / 1500;
      })
      (omega arith) (omega arith) (omega arith) (omega arith) (omega arith)

-- Moving forward keeps the invariant.
pub push-IsValid :
    {b : Bucket} (sn : ℕ) (pkt : List ℕ)
    → IsValid b
    → sn < 65536
    → length pkt ≤ 1498
    → IsValid (push b sn pkt).0
unfolding push offset
push-IsValid {b} sn pkt v hs hp =
    let v₁ : IsValid (record b { head_sn = sn }) = record {
      some_slot = v.some_slot;
      few = v.few;
      fits = v.fits;
      step_in = v.step_in;
      head_in = hs;
      sizes = v.sizes;
    } in
    let v₂ = invalidate-IsValid b.step (sub16 sn b.head_sn - 1) v₁ in
    let v₃ = store-IsValid _ pkt v₂ hp in
    record {
      some_slot = v₃.some_slot;
      few = v₃.few;
      fits = v₃.fits;
      step_in = wrap-lt _ (_ + (sub16 sn b.head_sn - 1) + 1) v₃.some_slot;
      head_in = v₃.head_in;
      sizes = v₃.sizes;
    }

-- The three ends of `set`.
pub set_cases {ℓ} :
    (P : Bucket × Result (List ℕ) → Type ℓ) (b : Bucket) (sn : ℕ) (pkt : List ℕ)
    → (b.max_steps ≤ sub16 b.head_sn sn → P (b, err packet_too_old))
    → (sub16 b.head_sn sn < b.max_steps
        → slot_sn b (offset b (slot_back b (sub16 b.head_sn sn))) ≡ sn
        → P (b, err rtx_packet))
    → (sub16 b.head_sn sn < b.max_steps
        → slot_sn b (offset b (slot_back b (sub16 b.head_sn sn))) ≢ sn
        → P (store b (offset b (slot_back b (sub16 b.head_sn sn))) pkt))
    → P (set b sn pkt)
unfolding set
set_cases P b sn pkt old again late = elim (Bool-cases (leb b.max_steps (sub16 b.head_sn sn))) [
  | inl e ↦ rw (e, set) (old (leb→le _ _ e))
  | inr n ↦ elim (Bool-cases (slot_sn b (offset b (slot_back b (sub16 b.head_sn sn))) == sn)) [
    | inl e ↦ rw (n, e, set) (again (leb→lt _ _ n) (==→eq _ _ e))
    | inr m ↦ rw (n, m, set) (late (leb→lt _ _ n) (==→ne _ _ m))
  ]
]

-- Filling a gap keeps the invariant.
pub set-IsValid :
    {b : Bucket} (sn : ℕ) (pkt : List ℕ) → IsValid b → length pkt ≤ 1498 → IsValid (set b sn pkt).0
unfolding offset
set-IsValid {b} sn pkt v hp =
    set_cases (λ r. IsValid r.0) b sn pkt (λ _. v) (λ _ _. v)
      (λ _ _. store-IsValid (wrap b.max_steps (slot_back b (sub16 b.head_sn sn))) pkt v hp)
