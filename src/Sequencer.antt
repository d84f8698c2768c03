-- ===== src/Sequencer.antt =====
-- ion-sfu/pkg/sfu/sequencer.go: the ring in which a down track remembers what it has sent, so that
-- it can answer requests for packets. Times are in milliseconds.
pub mod Laws
mod Tests
use sample_nodejs_server.Prelude.{
  ℕ, zero, suc, ◌+◌, ◌-◌, ◌*◌, ◌/◌, ◌%◌, Bool, true, false, not, ◌||◌, ◌&&◌, List, [], ◌∷◌, ◌++◌,
  Option, none, some, ltb, leb, ◌==◌, if◌then◌else◌, sub16, sub32, u32_mod, u64_mod,
}

abbrev pub ignore_retransmission : ℕ
ignore_retransmission = 100

pub record PacketMeta : Type 0 where
  pub source_seq_no : ℕ
  pub target_seq_no : ℕ
  pub timestamp : ℕ
  pub last_nack : ℕ
  pub layer : ℕ
  pub misc : ℕ

abbrev pub no_meta : PacketMeta
no_meta = record {
  source_seq_no = 0;
  target_seq_no = 0;
  timestamp = 0;
  last_nack = 0;
  layer = 0;
  misc = 0;
}

-- The two fields of `misc` do not overlap, so `|` is a sum.
unfoldable pub set_vp8_payload_meta : PacketMeta → ℕ → ℕ → PacketMeta
set_vp8_payload_meta p tlz0_idx pic_id = record p { misc = tlz0_idx * 65536 + pic_id }

unfoldable pub get_vp8_payload_meta : PacketMeta → ℕ × ℕ
get_vp8_payload_meta p = (p.misc / 65536 % 256, p.misc % 65536)

-- `seq` is the slice of length `max`.
pub record Sequencer : Type 0 where
  pub init : Bool
  pub max : ℕ
  pub seq : ℕ → PacketMeta
  pub step : ℕ
  pub head_sn : ℕ
  pub start_time : ℕ

abbrev pub update : (ℕ → PacketMeta) → ℕ → PacketMeta → ℕ → PacketMeta
update seq i m j = if j == i then m else seq j

abbrev pub new_sequencer : ℕ → ℕ → Sequencer
new_sequencer max_track now = record {
  init = false;
  max = max_track;
  seq = λ _. no_meta;
  step = 0;
  head_sn = 0;
  start_time = now;
}

-- `n.step++; if n.step >= n.max { n.step = 0 }`.
abbrev pub next_step : ℕ → ℕ → ℕ
next_step max step = if leb max (step + 1) then 0 else step + 1

-- `for i := uint16(1); i < inc; i++`.
unfoldable pub skip : ℕ → ℕ → ℕ → ℕ
skip max step zero = step
skip max step (suc rounds) = skip max (next_step max step) rounds

abbrev pub first_head : Sequencer → ℕ → Sequencer
first_head n off_sn = if n.init then n else record n { head_sn = off_sn; init = true }

-- The position that a late packet would have is computed to see whether it is too old; the packet
-- is written at `step` all the same.
abbrev pub too_old : Sequencer → ℕ → Bool
too_old n off_sn = let back = sub16 n.head_sn off_sn in ltb n.step back && leb n.max (back - n.step)

unfoldable pub write : Sequencer → ℕ → ℕ → ℕ → ℕ → Sequencer × Option ℕ
write n sn off_sn time_stamp layer = (
  record n {
    seq = update n.seq n.step (record {
      source_seq_no = sn;
      target_seq_no = off_sn;
      timestamp = time_stamp;
      last_nack = 0;
      layer = layer;
      misc = 0;
    });
    step = next_step n.max n.step;
  },
  some n.step,
)

-- The result points to the entry in `seq`.
unfoldable pub push : Sequencer → ℕ → ℕ → ℕ → ℕ → Bool → Sequencer × Option ℕ
unfolding skip write
push n sn off_sn time_stamp layer head =
    let m = first_head n off_sn in
    let moved = record m {
      step = skip m.max m.step (sub16 off_sn m.head_sn - 1);
      head_sn = off_sn;
    } in
    if head
    then write moved sn off_sn time_stamp layer
    else if too_old m off_sn
    then (m, none)
    else write m sn off_sn time_stamp layer

-- Where `getSeqNoPairs` looks for a number.
unfoldable pub slot_of : Sequencer → ℕ → Option ℕ
slot_of n sn =
    let back = sub16 n.head_sn sn + 1 in
    if leb back n.step
    then some (n.step - back)
    else if leb n.max (back - n.step)
    then none
    else some (n.max + n.step - back)

unfoldable pub take_pair : ℕ → Sequencer → ℕ → Sequencer × List PacketMeta
take_pair ref_time n sn = elim (slot_of n sn) [
  | none ↦ (n, [])
  | some i ↦
      let seq = record (n.seq i) { last_nack = ref_time } in
      if (n.seq i).target_seq_no == sn
        && ((n.seq i).last_nack == 0
            || ltb ignore_retransmission (sub32 ref_time (n.seq i).last_nack))
      then (record n { seq = update n.seq i seq }, seq ∷ [])
      else (n, [])
]

unfoldable pub take_pairs : ℕ → Sequencer → List ℕ → Sequencer × List PacketMeta
unfolding take_pair
take_pairs ref_time n [] = (n, [])
take_pairs ref_time n (sn ∷ seq_no) =
    let (n', one) = take_pair ref_time n sn in
    let (n'', rest) = take_pairs ref_time n' seq_no in (n'', one ++ rest)

-- `uint32(now - n.startTime)`.
abbrev pub ref_time_at : Sequencer → ℕ → ℕ
ref_time_at n now = (now + u64_mod - n.start_time) % u32_mod

unfoldable pub get_seq_no_pairs : Sequencer → ℕ → List ℕ → Sequencer × List PacketMeta
unfolding take_pairs
get_seq_no_pairs n now seq_no = take_pairs (ref_time_at n now) n seq_no
