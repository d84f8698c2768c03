-- ===== src/Bucket.antt =====
-- ion-sfu/pkg/mediatransportutil/bucket/bucket.go: the ring of packet slots behind a publisher's
-- buffer. A Go `int` is ℤ where it may be negative and ℕ elsewhere; a `uint16` is a number below
-- 65536.
pub mod Slots
pub mod Writes
pub mod Inv
pub mod Lookup
pub mod Add
pub mod Packets
pub mod Spec
mod Tests
use sample_nodejs_server.Prelude.{
  ℕ, zero, suc, ◌+◌, ◌-◌, ◌*◌, ◌/◌, Bool, true, false, not, ◌||◌, List, Option, none, some, ltb,
  leb, ◌==◌, if◌then◌else◌, length, get_or, sub16,
}
use sample_nodejs_server.Prelude.Int.{ℤ, pos, sub_ℕ, pos_part, neg_part, ◌+ℤ◌, ◌-ℤ◌, ltb_ℤ}
use sample_nodejs_server.Prelude.Bytes.{Memory, get_u16, put_u16, copy_at, slice}

abbrev pub max_pkt_size : ℕ
max_pkt_size = 1500

abbrev pub pkt_size_header : ℕ
pkt_size_header = 2

abbrev pub seq_num_offset : ℕ
seq_num_offset = 2

abbrev pub invalid_pkt_size : ℕ
invalid_pkt_size = 65535

-- `buf` is the slice's array and `size` its length.
pub record Bucket : Type 0 where
  pub buf : Memory
  pub size : ℕ
  pub init : Bool
  pub resync_on_next_packet : Bool
  pub step : ℕ
  pub head_sn : ℕ
  pub max_steps : ℕ

-- `out_of_range` is the run-time panic of a slice expression.
pub data Error : Type 0 where
  packet_not_found buffer_too_small packet_too_old rtx_packet out_of_range : Error

pub data Result {ℓ} (A : Type ℓ) : Type ℓ where
  ok : A → Result A
  err : Error → Result A

-- `for slot < 0 { slot += maxSteps }`.
unfoldable pub wrap_up : ℕ → ℕ → ℤ → ℤ
wrap_up zero max_steps slot = slot
wrap_up (suc fuel) max_steps slot = elim (ltb_ℤ slot (pos 0)) [
  | true ↦ wrap_up fuel max_steps (slot +ℤ pos max_steps)
  | false ↦ slot
]

-- `for slot >= maxSteps { slot -= maxSteps }`.
unfoldable pub wrap_down : ℕ → ℕ → ℤ → ℤ
wrap_down zero max_steps slot = slot
wrap_down (suc fuel) max_steps slot = elim (ltb_ℤ slot (pos max_steps)) [
  | true ↦ slot
  | false ↦ wrap_down fuel max_steps (slot -ℤ pos max_steps)
]

-- The fuel is enough as soon as `max_steps` is positive; the Go loops do not end at 0.
unfoldable pub wrap : ℕ → ℤ → ℕ
unfolding wrap_up wrap_down ◌+ℤ◌ ◌-ℤ◌
wrap max_steps slot =
    let up = wrap_up (neg_part slot) max_steps slot in
    pos_part (wrap_down (pos_part up) max_steps up)

unfoldable pub offset : Bucket → ℤ → ℕ
unfolding wrap
offset b slot = wrap b.max_steps slot * max_pkt_size

-- The loop's body with `i` from `done` on, `rounds` times.
unfoldable pub invalidate_from : Bucket → ℕ → ℕ → ℕ → Bucket
unfolding offset put_u16
invalidate_from b start i zero = b
invalidate_from b start i (suc rounds) =
    invalidate_from (record b { buf = put_u16 b.buf (offset b (pos (start + i))) invalid_pkt_size })
      start (i + 1) rounds

unfoldable pub invalidate : Bucket → ℕ → ℕ → Bucket
unfolding invalidate_from
invalidate b start num =
    invalidate_from b start 0 (if ltb b.max_steps num then b.max_steps else num)

-- `math.Floor(float64(len)/1500)` is exact below 2^53.
unfoldable pub new_bucket : Memory → ℕ → Bucket
unfolding invalidate
new_bucket buf size = invalidate fresh 0 fresh.max_steps
  where
    fresh : Bucket
    fresh = record {
      buf = buf;
      size = size;
      init = false;
      resync_on_next_packet = false;
      step = 0;
      head_sn = 0;
      max_steps = size / max_pkt_size;
    }

unfoldable pub resync : Bucket → Bucket
resync b = record b { resync_on_next_packet = true }

-- The size field, the packet behind it, and the slice that is returned.
unfoldable pub store : Bucket → ℕ → List ℕ → Bucket × Result (List ℕ)
unfolding put_u16 copy_at slice
store b off pkt = (
  record b { buf = copied },
  (if ltb b.size (off + pkt_size_header + length pkt)
      then err out_of_range
      else ok (slice copied (off + pkt_size_header) (length pkt))),
)
  where
    copied : Memory
    copied = copy_at (put_u16 b.buf off (length pkt)) b.size (off + pkt_size_header) pkt

-- `AddPacket` does not call it with the head's number, so `diff` is not negative.
unfoldable pub push : Bucket → ℕ → List ℕ → Bucket × Result (List ℕ)
unfolding invalidate offset store
push b sn pkt =
    let diff = sub16 sn b.head_sn - 1 in
    let b₁ = record b { head_sn = sn } in
    let b₂ = invalidate b₁ b₁.step diff in
    let (b₃, stored) = store b₂ (offset b₂ (pos (b₂.step + diff))) pkt in
    (record b₃ { step = wrap b₃.max_steps (pos (b₃.step + diff + 1)) }, stored)

-- The sequence number that stands in a slot.
unfoldable pub slot_sn : Bucket → ℕ → ℕ
unfolding get_u16
slot_sn b off = get_u16 b.buf (off + pkt_size_header + seq_num_offset)

-- `b.step - int(diff) - 1`.
abbrev pub slot_back : Bucket → ℕ → ℤ
slot_back b diff = sub_ℕ b.step (diff + 1)

unfoldable pub get : Bucket → ℕ → Option (List ℕ)
unfolding offset slot_sn get_u16 slice
get b sn =
    let diff = sub16 b.head_sn sn in
    let off = offset b (slot_back b diff) in
    let sz = get_u16 b.buf off in
    if leb b.max_steps diff
    then none
    else if not (slot_sn b off == sn)
    then none
    else if sz == invalid_pkt_size
    then none
    else some (slice b.buf (off + pkt_size_header) sz)

unfoldable pub set : Bucket → ℕ → List ℕ → Bucket × Result (List ℕ)
unfolding offset slot_sn store
set b sn pkt =
    let diff = sub16 b.head_sn sn in
    let off = offset b (slot_back b diff) in
    let stored = store b off pkt in
    if leb b.max_steps diff
    then (b, err packet_too_old)
    else if slot_sn b off == sn
    then (b, err rtx_packet)
    else stored

-- `binary.BigEndian.Uint16(pkt[2:4])`.
abbrev pub packet_sn : List ℕ → ℕ
packet_sn pkt = get_or pkt 2 0 * 256 + get_or pkt 3 0

-- What `AddPacket` does before it compares sequence numbers.
unfoldable pub start_at : Bucket → ℕ → Bucket
start_at b sn = if b.init then b else record b { head_sn = sub16 sn 1; init = true }

unfoldable pub resync_at : Bucket → ℕ → Bucket
unfolding invalidate
resync_at b sn =
    let cleared =
      invalidate (record b { resync_on_next_packet = false; head_sn = sub16 sn 1 }) 0 b.max_steps in
    if b.resync_on_next_packet then cleared else b

unfoldable pub place : Bucket → ℕ → List ℕ → Bucket × Result (List ℕ)
unfolding push set
place b sn pkt =
    let diff = sub16 sn b.head_sn in
    if diff == 0 || ltb 32768 diff then set b sn pkt else push b sn pkt

-- A slice of fewer than 4 bytes is taken to have no room behind them, so that its number is out of
-- range.
unfoldable pub add_packet : Bucket → List ℕ → Bucket × Result (List ℕ)
unfolding start_at resync_at place
add_packet b pkt =
    let sn = packet_sn pkt in
    let placed = place (resync_at (start_at b sn) sn) sn pkt in
    if ltb (length pkt) 4 then (b, err out_of_range) else placed

-- `GetPacket` into a buffer of the given capacity: what is copied, its length being `i`.
unfoldable pub get_packet : Bucket → ℕ → ℕ → Result (List ℕ)
unfolding get
get_packet b capacity sn = elim (get b sn) [
  | none ↦ err packet_not_found
  | some p ↦ if ltb capacity (length p) then err buffer_too_small else ok p
]
