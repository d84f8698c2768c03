-- ===== src/Buffer/Missing.antt =====
-- The requests that `calc` adds to the queue for the numbers of a gap.
use sample_nodejs_server.Prelude.{
  ℕ, zero, suc, ◌+◌, ◌-◌, ◌/◌, ◌≤◌, ◌<◌, ◌≡◌, ap, ◌∙◌, ◌&&◌, List, [], ◌∷◌, arith, ltb, ◌==◌,
  if◌then◌else◌, max, length, sub16,
}
use sample_nodejs_server.Nack.{Nack, NackQueue, push}
use sample_nodejs_server.Nack.Queue.{Sorted, insert_sorted, push-nacks}
use sample_nodejs_server.Nack.Copies.{copies, copies-push, push-Sorted}
use sample_nodejs_server.Buffer.Count.{ext_sn, push_missing}

length-insert_sorted : (x : ℕ) (l : List Nack) → length (insert_sorted x l) ≤ length l + 1
unfolding insert_sorted
length-insert_sorted x [] = omega arith
length-insert_sorted x (n ∷ l) = ground (arith, length-insert_sorted x l)

-- What one more request needs and leaves behind.
pub record Pushed (n n' : NackQueue) (x : ℕ) : Type 0 where
  pub order : Sorted n'.nacks
  pub room : length n'.nacks ≤ length n.nacks + 1
  pub counts :
      (y : ℕ) → copies y n'.nacks ≡ (if y == x then max 1 (copies y n.nacks) else copies y n.nacks)

pub push-Pushed :
    (n : NackQueue) (x : ℕ) → Sorted n.nacks → length n.nacks + 1 < 100 → Pushed n (push n x) x
push-Pushed n x s room =
    let short : length (insert_sorted x n.nacks) < 100 =
      omega (arith, length-insert_sorted x n.nacks) in
    record {
      order = push-Sorted n x s;
      room = omega (
        arith,
        length-insert_sorted x n.nacks,
        ap (λ (m : NackQueue). length m.nacks) (push-nacks n x s short),
      );
      counts = λ y. copies-push n x y s short;
    }

-- Numbers on the same side of 2^15.
abbrev pub SameHalf : ℕ → ℕ → Type 0
SameHalf a b = a / 32768 ≡ b / 32768

ext_sn_near :
    (cycles max_seq_no sn : ℕ) → SameHalf max_seq_no sn → ext_sn cycles max_seq_no sn ≡ cycles + sn
unfolding ext_sn
ext_sn_near cycles max_seq_no sn same = ground arith

pub record Requested (n n' : NackQueue) (low high : ℕ) : Type 0 where
  pub order : Sorted n'.nacks
  pub counts :
      (y : ℕ)
      → copies y n'.nacks
        ≡ (if ltb low y && ltb y high then max 1 (copies y n.nacks) else copies y n.nacks)

widen :
    (y x low high below a b c : ℕ)
    → low < x
    → high ≡ x + 1
    → below ≡ x
    → b ≡ (if y == x then max 1 a else a)
    → c ≡ (if ltb low y && ltb y below then max 1 b else b)
    → c ≡ (if ltb low y && ltb y high then max 1 a else a)
widen y x low high below a b c h e f p q = ground arith

pub push_missing-Requested :
    (n : NackQueue) (cycles max_seq_no sn i rounds : ℕ)
    → Sorted n.nacks
    → length n.nacks + rounds < 100
    → max_seq_no + i + rounds ≡ sn
    → sn < 65536
    → SameHalf max_seq_no sn
    → Requested n
        (push_missing n cycles max_seq_no sn i rounds)
        (cycles + max_seq_no)
        (cycles + sn + 1 - i)
unfolding push_missing
push_missing-Requested n cycles max_seq_no sn i zero s room e word same = record {
  order = s;
  counts = λ y. ground arith;
}
push_missing-Requested n cycles max_seq_no sn i (suc rounds) s room e word same =
    let x = ext_sn cycles max_seq_no (sub16 sn i) in
    let here : sub16 sn i ≡ sn - i = omega arith in
    let at : x ≡ cycles + (sn - i) =
      ext_sn_near cycles max_seq_no (sub16 sn i) (omega (arith, here))
      ∙ ap (λ k. cycles + k) here in
    let p = push-Pushed n x s (omega arith) in
    let rest =
      push_missing-Requested (push n x) cycles max_seq_no sn (i + 1) rounds p.order
        (omega (arith, p.room)) (omega arith) word same in
    record {
      order = rest.order;
      counts = λ y.
          widen y x (cycles + max_seq_no) (cycles + sn + 1 - i) (cycles + sn + 1 - (i + 1))
            (copies y n.nacks) (copies y (push n x).nacks) _ (omega (arith, at)) (omega (arith, at))
            (omega (arith, at)) (p.counts y) (rest.counts y);
    }
