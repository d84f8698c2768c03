-- ===== src/Bucket/Writes.antt =====
-- What `invalidate` and `store` do to the slots: a slot's 1500 bytes as the unit of change.
use sample_nodejs_server.Prelude.{
  ℕ, zero, suc, ◌+◌, ◌-◌, ◌*◌, ◌≤◌, ◌<◌, ◌≡◌, refl, ◌∙◌, ◌≢◌, ◌⊎◌, inl, inr, not, List, Option,
  none, some, arith, ltb, ◌==◌, if◌then◌else◌, Bool-cases, ==→eq, ==→ne, eq→==, ne→==, le→ltb,
  length,
}
use sample_nodejs_server.Prelude.Int.{pos}
use sample_nodejs_server.Prelude.Bytes.{
  Memory, get_u16, put_u16, copy_at, slice, get-put, get-copy_ne, slice_congr, slice-copy,
}
use sample_nodejs_server.Bucket.{
  Bucket, ok, packet_sn, wrap, offset, invalidate_from, invalidate, store,
}

-- The two arrays agree on slot `k`.
abbrev pub SameSlot : Memory → Memory → ℕ → Type 0
SameSlot a b k = (o : ℕ) → o < 1500 → a (k * 1500 + o) ≡ b (k * 1500 + o)

abbrev pub slot_size : Memory → ℕ → ℕ
slot_size buf k = get_u16 buf (k * 1500)

-- The packet that `get` finds in slot `k` when it looks for `sn`.
unfoldable pub read : Memory → ℕ → ℕ → Option (List ℕ)
read buf k sn =
    if not (get_u16 buf (k * 1500 + 2 + 2) == sn)
    then none
    else if slot_size buf k == 65535
    then none
    else some (slice buf (k * 1500 + 2) (slot_size buf k))

same_u16 :
    (a b : Memory) (k o i : ℕ)
    → SameSlot a b k
    → i ≡ k * 1500 + o
    → o + 1 < 1500
    → get_u16 a i ≡ get_u16 b i
unfolding get_u16
same_u16 a b k o i same e h =
    let next : i + 1 ≡ k * 1500 + (o + 1) = omega arith in
    ground (arith, same o, same (o + 1), next)

pub slot_size-same : (a b : Memory) (k : ℕ) → SameSlot a b k → slot_size a k ≡ slot_size b k
slot_size-same a b k same = same_u16 a b k 0 (k * 1500) same (omega arith) (omega arith)

pub read-same :
    (a b : Memory) (k sn : ℕ)
    → SameSlot a b k
    → (slot_size b k ≡ 65535) ⊎ (slot_size b k ≤ 1498)
    → read a k sn ≡ read b k sn
unfolding read
read-same a b k sn same (inl gone) = rw (
  same_u16 a b k 4 (k * 1500 + 2 + 2) same (omega arith) (omega arith),
  slot_size-same a b k same,
  gone,
)
read-same a b k sn same (inr small) = rw (
  same_u16 a b k 4 (k * 1500 + 2 + 2) same (omega arith) (omega arith),
  slot_size-same a b k same,
  slice_congr a b (k * 1500 + 2) (slot_size b k) inside,
)
  where
    inside : (i : ℕ) → k * 1500 + 2 ≤ i → i < k * 1500 + 2 + slot_size b k → a i ≡ b i
    inside i p q =
        let e : k * 1500 + (i - k * 1500) ≡ i = omega arith in
        rw e at (same (i - k * 1500) (omega arith))

pub read_invalid : (buf : Memory) (k sn : ℕ) → slot_size buf k ≡ 65535 → read buf k sn ≡ none
unfolding read
read_invalid buf k sn e = rw e (ground arith)

-- `invalidate` writes a size field, so it leaves the rest of every slot and all of the others.
put-SameSlot : (buf : Memory) (k j v : ℕ) → j ≢ k → SameSlot (put_u16 buf (j * 1500) v) buf k
unfolding put_u16
put-SameSlot buf k j v ne o h = ground arith

put_size :
    (buf : Memory) (k j v : ℕ)
    → v < 65536
    → slot_size (put_u16 buf (j * 1500) v) k ≡ (if j == k then v else slot_size buf k)
put_size buf k j v h = elim (Bool-cases (j == k)) [
  | inl e ↦
      let same : j * 1500 ≡ k * 1500 = omega (arith, ==→eq j k e) in
      rw (e, same) (get-put buf (k * 1500) v h)
  | inr ne ↦ rw ne (slot_size-same _ buf k (put-SameSlot buf k j v (==→ne j k ne)))
]

-- The other fields of the bucket stay.
pub record Frame (b c : Bucket) : Type 0 where
  pub size : b.size ≡ c.size
  pub init : b.init ≡ c.init
  pub resync : b.resync_on_next_packet ≡ c.resync_on_next_packet
  pub step : b.step ≡ c.step
  pub head_sn : b.head_sn ≡ c.head_sn
  pub max_steps : b.max_steps ≡ c.max_steps

invalidate_from-Frame :
    (b : Bucket) (start i rounds : ℕ) → Frame (invalidate_from b start i rounds) b
unfolding invalidate_from
invalidate_from-Frame b start i zero = record {
  size = refl;
  init = refl;
  resync = refl;
  step = refl;
  head_sn = refl;
  max_steps = refl;
}
invalidate_from-Frame b start i (suc rounds) =
    let f =
      invalidate_from-Frame (record b { buf = put_u16 b.buf (offset b (pos (start + i))) 65535 })
        start (i + 1) rounds in
    record {
      size = f.size;
      init = f.init;
      resync = f.resync;
      step = f.step;
      head_sn = f.head_sn;
      max_steps = f.max_steps;
    }

-- A slot that no round reaches is untouched.
invalidate_from_miss :
    (b : Bucket) (start i rounds k : ℕ)
    → ((j : ℕ) → i ≤ j → j < i + rounds → wrap b.max_steps (pos (start + j)) ≢ k)
    → SameSlot (invalidate_from b start i rounds).buf b.buf k
unfolding invalidate_from offset
invalidate_from_miss b start i zero k miss o h = refl
invalidate_from_miss b start i (suc rounds) k miss o h =
    invalidate_from_miss (record b { buf = put_u16 b.buf (offset b (pos (start + i))) 65535 }) start
      (i + 1) rounds k (λ j p q. miss j (omega arith) (omega arith)) o h
    ∙ put-SameSlot b.buf k (wrap b.max_steps (pos (start + i))) 65535
        (miss i (omega arith) (omega arith)) o h

-- A slot is invalid afterwards, or its size is the old one.
invalidate_from_size :
    (b : Bucket) (start i rounds k : ℕ)
    → (slot_size (invalidate_from b start i rounds).buf k ≡ 65535)
      ⊎ (slot_size (invalidate_from b start i rounds).buf k ≡ slot_size b.buf k)
unfolding invalidate_from
invalidate_from_size b start i zero k = inr refl
invalidate_from_size b start i (suc rounds) k = ground (
  arith,
  invalidate_from_size (record b { buf = put_u16 b.buf (offset b (pos (start + i))) 65535 }) start
      (i + 1) rounds k,
  put_size b.buf k (wrap b.max_steps (pos (start + i))) 65535,
)

-- A slot that a round reaches is invalid afterwards.
invalidate_from_hit :
    (b : Bucket) (start i rounds j : ℕ)
    → i ≤ j
    → j < i + rounds
    → slot_size (invalidate_from b start i rounds).buf (wrap b.max_steps (pos (start + j))) ≡ 65535
unfolding invalidate_from offset
invalidate_from_hit b start i zero j p q = absurd (omega arith)
invalidate_from_hit b start i (suc rounds) j p q = ground (
  arith,
  invalidate_from_size (record b { buf = put_u16 b.buf (offset b (pos (start + i))) 65535 }) start
      (i + 1) rounds (wrap b.max_steps (pos (start + j))),
  put_size b.buf (wrap b.max_steps (pos (start + j))) (wrap b.max_steps (pos (start + i))) 65535,
  invalidate_from_hit (record b { buf = put_u16 b.buf (offset b (pos (start + i))) 65535 }) start
      (i + 1) rounds j,
)

pub invalidate-Frame : (b : Bucket) (start num : ℕ) → Frame (invalidate b start num) b
unfolding invalidate
invalidate-Frame b start num =
    invalidate_from-Frame b start 0 (if ltb b.max_steps num then b.max_steps else num)

pub invalidate_hit :
    (b : Bucket) (start num j : ℕ)
    → j < num
    → j < b.max_steps
    → slot_size (invalidate b start num).buf (wrap b.max_steps (pos (start + j))) ≡ 65535
unfolding invalidate
invalidate_hit b start num j p q =
    invalidate_from_hit b start 0 (if ltb b.max_steps num then b.max_steps else num) j (omega arith)
      (ground arith)

pub invalidate_miss :
    (b : Bucket) (start num k : ℕ)
    → ((j : ℕ) → j < num → j < b.max_steps → wrap b.max_steps (pos (start + j)) ≢ k)
    → SameSlot (invalidate b start num).buf b.buf k
unfolding invalidate
invalidate_miss b start num k miss =
    invalidate_from_miss b start 0 (if ltb b.max_steps num then b.max_steps else num) k
      (λ j p q. miss j (ground arith) (ground arith))

pub invalidate_size :
    (b : Bucket) (start num k : ℕ)
    → (slot_size (invalidate b start num).buf k ≡ 65535)
      ⊎ (slot_size (invalidate b start num).buf k ≡ slot_size b.buf k)
unfolding invalidate
invalidate_size b start num k =
    invalidate_from_size b start 0 (if ltb b.max_steps num then b.max_steps else num) k

-- `store` leaves the other slots alone if the packet fits into its own.
pub store_other :
    (b : Bucket) (j k : ℕ) (pkt : List ℕ)
    → j ≢ k
    → length pkt ≤ 1498
    → SameSlot (store b (j * 1500) pkt).0.buf b.buf k
unfolding store put_u16 copy_at
store_other b j k pkt ne fits o h = ground arith

pub store_size :
    (b : Bucket) (k : ℕ) (pkt : List ℕ)
    → length pkt ≤ 1498
    → slot_size (store b (k * 1500) pkt).0.buf k ≡ length pkt
unfolding store
store_size b k pkt fits =
    get-copy_ne (put_u16 b.buf (k * 1500) (length pkt)) b.size (k * 1500 + 2) pkt (k * 1500)
      (inl (omega arith))
    ∙ get-put b.buf (k * 1500) (length pkt) (omega arith)

copied_sn :
    (buf : Memory) (size off : ℕ) (pkt : List ℕ)
    → 4 ≤ length pkt
    → off + 4 ≤ size
    → get_u16 (copy_at buf size off pkt) (off + 2) ≡ packet_sn pkt
unfolding get_u16 copy_at
copied_sn buf size off pkt low fits =
    let e₂ : off + 2 - off ≡ 2 = omega arith in
    let e₃ : off + 2 + 1 - off ≡ 3 = omega arith in ground (arith, e₂, e₃)

-- A packet of at least four bytes is read back under its own sequence number.
pub read-store :
    (b : Bucket) (k : ℕ) (pkt : List ℕ)
    → k * 1500 + 1500 ≤ b.size
    → 4 ≤ length pkt
    → length pkt ≤ 1498
    → read (store b (k * 1500) pkt).0.buf k (packet_sn pkt) ≡ some pkt
unfolding store read
read-store b k pkt fits low high = rw (
  copied_sn (put_u16 b.buf (k * 1500) (length pkt)) b.size (k * 1500 + 2) pkt low (omega arith),
  eq→== (packet_sn pkt) (packet_sn pkt) refl,
  store_size b k pkt high,
  slice-copy (put_u16 b.buf (k * 1500) (length pkt)) b.size (k * 1500 + 2) pkt (omega arith),
  ne→== (length pkt) 65535 (omega arith),
)

pub store_lem :
    (b : Bucket) (k : ℕ) (pkt : List ℕ)
    → k * 1500 + 1500 ≤ b.size
    → length pkt ≤ 1498
    → (store b (k * 1500) pkt).1 ≡ ok pkt
unfolding store
store_lem b k pkt fits high = rw (
  slice-copy (put_u16 b.buf (k * 1500) (length pkt)) b.size (k * 1500 + 2) pkt (omega arith),
  le→ltb b.size (k * 1500 + 2 + length pkt) (omega arith),
)
