-- ===== src/Sequencer/Laws.antt =====
-- What the sequencer remembers and gives out.
use mathlib.Core.List.{append-nil}
use sample_nodejs_server.Prelude.{
  ℕ, zero, suc, ◌-◌, ◌≤◌, ◌<◌, ◌≡◌, ◌≢◌, refl, sym, ◌∙◌, inl, inr, Bool, true, false, ◌||◌, ◌&&◌,
  List, [], ◌∷◌, none, some, arith, ltb, leb, ◌==◌, if◌then◌else◌, sub16, sub32, if_elim,
  Option-cases, eq→==, le→ltb, ne→==,
}
use sample_nodejs_server.Sequencer.{
  PacketMeta, set_vp8_payload_meta, get_vp8_payload_meta, Sequencer, update, next_step, skip, write,
  push, first_head, too_old, slot_of, take_pair, take_pairs, get_seq_no_pairs, ref_time_at,
}

-- An 8-bit temporal index and a 16-bit picture number are read back as they were written.
pub get-set_vp8_payload_meta :
    (p : PacketMeta) (tlz0_idx pic_id : ℕ)
    → tlz0_idx < 256
    → pic_id < 65536
    → get_vp8_payload_meta (set_vp8_payload_meta p tlz0_idx pic_id) ≡ (tlz0_idx, pic_id)
unfolding get_vp8_payload_meta set_vp8_payload_meta
get-set_vp8_payload_meta p tlz0_idx pic_id ht hp = ground arith

pub record IsValid (n : Sequencer) : Type 0 where
  pub step_in : n.step < n.max
  pub head_in : n.head_sn < 65536

skip-lt : (max step rounds : ℕ) → step < max → skip max step rounds < max
unfolding skip
skip-lt max step zero h = h
skip-lt max step (suc rounds) h = skip-lt max (next_step max step) rounds (ground arith)

-- `push` of a 16-bit outgoing number keeps the write position inside the ring and the head a 16-bit
-- number, for packets in order, late and too old.
pub push-IsValid :
    (n : Sequencer) (sn off_sn time_stamp layer : ℕ) (head : Bool)
    → IsValid n
    → off_sn < 65536
    → IsValid (push n sn off_sn time_stamp layer head).0
unfolding push write
push-IsValid n sn off_sn time_stamp layer head v h = ground (
  arith,
  skip-lt n.max n.step (sub16 off_sn n.head_sn - 1) v.step_in,
  skip-lt n.max n.step (sub16 off_sn off_sn - 1) v.step_in,
)

-- The newest number stands in the place that was written last.
slot_of-write :
    (n : Sequencer) (sn off_sn time_stamp layer : ℕ)
    → IsValid n
    → 2 ≤ n.max
    → slot_of (write n sn off_sn time_stamp layer).0 n.head_sn ≡ some n.step
unfolding slot_of write
slot_of-write n sn off_sn time_stamp layer v two =
    let z : sub16 n.head_sn n.head_sn ≡ 0 = omega (arith, v.head_in) in ground (arith, z)

-- An entry that has not been asked for is given out if it is the one.
take_pair-fresh :
    (t : ℕ) (n : Sequencer) (s i : ℕ) (m : PacketMeta)
    → slot_of n s ≡ some i
    → n.seq i ≡ m
    → m.last_nack ≡ 0
    → (take_pair t n s).1 ≡ (if m.target_seq_no == s then record m { last_nack = t } ∷ [] else [])
unfolding take_pair
take_pair-fresh t n s i m at is fresh = rw (at, take_pair, is) (ground arith)

-- Asking for the newest number right after a write.
asked_newest :
    (n : Sequencer) (sn off_sn time_stamp layer t : ℕ)
    → IsValid n
    → 2 ≤ n.max
    → (take_pair t (write n sn off_sn time_stamp layer).0 n.head_sn).1 ≡ (
        if off_sn == n.head_sn
        then record {
          source_seq_no = sn;
          target_seq_no = off_sn;
          timestamp = time_stamp;
          last_nack = t;
          layer = layer;
          misc = 0;
        }
          ∷ []
        else [])
asked_newest n sn off_sn time_stamp layer t v two =
    take_pair-fresh t (write n sn off_sn time_stamp layer).0 n.head_sn n.step _
      (slot_of-write n sn off_sn time_stamp layer v two) written refl
  where
    entry : PacketMeta
    entry = record {
      source_seq_no = sn;
      target_seq_no = off_sn;
      timestamp = time_stamp;
      last_nack = 0;
      layer = layer;
      misc = 0;
    }

    written : (write n sn off_sn time_stamp layer).0.seq n.step ≡ entry
    written = unfold write in rw (eq→== n.step n.step refl)

first_head-IsValid :
    (n : Sequencer) (off_sn : ℕ)
    → IsValid n
    → off_sn < 65536
    → IsValid (first_head n off_sn)
      × ((first_head n off_sn).max ≡ n.max)
      × ((first_head n off_sn).start_time ≡ n.start_time)
first_head-IsValid n off_sn v h =
    if_elim (λ (m : Sequencer). IsValid m × (m.max ≡ n.max) × (m.start_time ≡ n.start_time)) n.init
      (λ _. (v, refl, refl)) (λ _. (record { step_in = v.step_in; head_in = h }, refl, refl))

one_pair :
    (n : Sequencer) (now sn : ℕ)
    → (get_seq_no_pairs n now (sn ∷ [])).1 ≡ (take_pair (ref_time_at n now) n sn).1
unfolding get_seq_no_pairs take_pairs
one_pair n now sn = append-nil (take_pair (ref_time_at n now) n sn).1

-- In a valid ring of two places or more, a packet sent in order under a 16-bit outgoing number is
-- given out right afterwards under that number, marked with the time of the request.
pub get-push_head :
    (n : Sequencer) (sn off_sn time_stamp layer now : ℕ)
    → IsValid n
    → 2 ≤ n.max
    → off_sn < 65536
    → (get_seq_no_pairs (push n sn off_sn time_stamp layer true).0 now (off_sn ∷ [])).1
      ≡ record {
        source_seq_no = sn;
        target_seq_no = off_sn;
        timestamp = time_stamp;
        last_nack = ref_time_at n now;
        layer = layer;
        misc = 0;
      }
        ∷ []
unfolding push
get-push_head n sn off_sn time_stamp layer now v two h =
    let m = first_head n off_sn in
    let (w, max_eq, start_eq) = first_head-IsValid n off_sn v h in
    let moved : Sequencer = record m {
      step = skip m.max m.step (sub16 off_sn m.head_sn - 1);
      head_sn = off_sn;
    } in
    let ready : IsValid moved = record {
      step_in = skip-lt m.max m.step (sub16 off_sn m.head_sn - 1) w.step_in;
      head_in = h;
    } in
    one_pair (write moved sn off_sn time_stamp layer).0 now off_sn
    ∙ asked_newest moved sn off_sn time_stamp layer _ ready (omega arith)
    ∙ rw (eq→== off_sn off_sn refl, start_eq)

-- In a started, valid ring of two places or more, a late packet whose number is less than a ring's
-- length behind the head hides the newest one: a request for the head's number is not answered.
pub late_push_hides_head :
    (n : Sequencer) (sn off_sn time_stamp layer now : ℕ)
    → IsValid n
    → 2 ≤ n.max
    → n.init ≡ true
    → off_sn ≢ n.head_sn
    → sub16 n.head_sn off_sn < n.max
    → (get_seq_no_pairs (push n sn off_sn time_stamp layer false).0 now (n.head_sn ∷ [])).1 ≡ []
late_push_hides_head n sn off_sn time_stamp layer now v two started late near =
    rw (late_push n sn off_sn time_stamp layer started near) (
      one_pair (write n sn off_sn time_stamp layer).0 now n.head_sn
      ∙ asked_newest n sn off_sn time_stamp layer _ v two
      ∙ rw (ne→== off_sn n.head_sn late))
  where
    late_push :
        (n : Sequencer) (sn off_sn time_stamp layer : ℕ)
        → n.init ≡ true
        → sub16 n.head_sn off_sn < n.max
        → push n sn off_sn time_stamp layer false ≡ write n sn off_sn time_stamp layer
    late_push n sn off_sn time_stamp layer started near =
        unfold push in
        if_elim
          (λ (m : Sequencer).
            (if too_old m off_sn then (m, none) else write m sn off_sn time_stamp layer)
            ≡ write n sn off_sn time_stamp layer)
          n.init (λ _. rw (young n.step)) (λ f. cc)
      where
        young :
            (s : ℕ)
            → (ltb s (sub16 n.head_sn off_sn) && leb n.max (sub16 n.head_sn off_sn - s)) ≡ false
        young s = ground arith

slot_of-update :
    (n : Sequencer) (sn : ℕ) (f : ℕ → PacketMeta) → slot_of (record n { seq = f }) sn ≡ slot_of n sn
unfolding slot_of
slot_of-update n sn f = refl

-- What a call that gives out an entry leaves behind.
marked : Sequencer → ℕ → ℕ → Sequencer
marked n i t = record n { seq = update n.seq i (record (n.seq i) { last_nack = t }) }

given_state :
    (t : ℕ) (n : Sequencer) (sn i : ℕ) (m : PacketMeta)
    → slot_of n sn ≡ some i
    → (take_pair t n sn).1 ≡ m ∷ []
    → (take_pair t n sn).0 ≡ marked n i t
unfolding take_pair marked
given_state t n sn i m at =
    rw (at, take_pair)
      (if_elim (λ (r : Sequencer × List PacketMeta). r.1 ≡ m ∷ [] → r.0 ≡ marked n i t)
        ((n.seq i).target_seq_no == sn
          && ((n.seq i).last_nack == 0 || ltb 100 (sub32 t (n.seq i).last_nack)))
        (λ _ _. refl) (λ _ e. cc))

too_soon :
    (t u : ℕ) (n : Sequencer) (sn i : ℕ)
    → slot_of n sn ≡ some i
    → (n.seq i).last_nack ≡ t
    → t ≢ 0
    → sub32 u t ≤ 100
    → (take_pair u n sn).1 ≡ []
unfolding take_pair
too_soon t u n sn i at is started soon =
    rw (at, take_pair, is, ne→== t 0 started, le→ltb 100 (sub32 u t) soon)
      (if_elim (λ (r : Sequencer × List PacketMeta). r.1 ≡ [])
        ((n.seq i).target_seq_no == sn && false) (λ e. absurd (and_false _ e)) (λ _. refl))
  where
    and_false : (b : Bool) → ¬ ((b && false) ≡ true)
    and_false true e = cc
    and_false false e = cc

second_at :
    (t u : ℕ) (n : Sequencer) (sn i : ℕ)
    → slot_of n sn ≡ some i
    → t ≢ 0
    → sub32 u t ≤ 100
    → (take_pair u (marked n i t) sn).1 ≡ []
unfolding marked
second_at t u n sn i at started soon =
    too_soon t u (marked n i t) sn i (slot_of-update n sn _ ∙ at) (rw (eq→== i i refl)) started soon

not_given : (t : ℕ) (n : Sequencer) (sn : ℕ) → slot_of n sn ≡ none → (take_pair t n sn).1 ≡ []
unfolding take_pair
not_given t n sn at = rw (at, take_pair)

asked_once :
    (n : Sequencer) (now sn : ℕ)
    → (get_seq_no_pairs n now (sn ∷ [])).0 ≡ (take_pair (ref_time_at n now) n sn).0
unfolding get_seq_no_pairs take_pairs
asked_once n now sn = refl

-- A number for which an entry was given out at a time other than the start time gets no entry when
-- it is asked for again within a hundred milliseconds.
pub no_second_pair :
    (n : Sequencer) (now later sn : ℕ) (m : PacketMeta)
    → (get_seq_no_pairs n now (sn ∷ [])).1 ≡ m ∷ []
    → ref_time_at n now ≢ 0
    → sub32 (ref_time_at n later) (ref_time_at n now) ≤ 100
    → (get_seq_no_pairs (get_seq_no_pairs n now (sn ∷ [])).0 later (sn ∷ [])).1 ≡ []
unfolding marked
no_second_pair n now later sn m given started soon =
    let first = sym (one_pair n now sn) ∙ given in
    elim (Option-cases (slot_of n sn)) [
      | inl nowhere ↦ clash (sym (not_given (ref_time_at n now) n sn nowhere) ∙ first)
      | inr (i, at) ↦
          rw (asked_once n now sn, given_state (ref_time_at n now) n sn i m at first)
            (one_pair (marked n i (ref_time_at n now)) later sn
              ∙ second_at (ref_time_at n now) (ref_time_at n later) n sn i at started soon)
    ]
  where
    clash : {r s : List PacketMeta} → [] ≡ m ∷ [] → r ≡ s
    clash e = cc
