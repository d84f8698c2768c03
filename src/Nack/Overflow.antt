-- ===== src/Nack/Overflow.antt =====
-- The size check at the end of `Push`: it drops the oldest entry and repeats the newest one.
use sample_nodejs_server.Prelude.{
  ℕ, zero, suc, ◌+◌, ◌≤◌, ◌<◌, ◌≡◌, refl, ap, ◌∙◌, inl, inr, List, [], ◌∷◌, ◌++◌, arith, leb,
  length, if_elim, le→leb, eq→==,
}
use sample_nodejs_server.Nack.{Nack, NackQueue, max_nack_cache, new_queue, shift_down, push, remove}
use sample_nodejs_server.Nack.Queue.{From, Sorted, insert_sorted, push_cases}
use sample_nodejs_server.Nack.Copies.{copies, push-Sorted, copies-remove}

length-shift_down : (l : List Nack) → length (shift_down l) ≡ length l
unfolding shift_down
length-shift_down [] = refl
length-shift_down (n ∷ []) = refl
length-shift_down (n ∷ m ∷ l) = omega (arith, length-shift_down (m ∷ l))

length-insert :
    (b x : ℕ) (l : List Nack)
    → From b l
    → copies x l ≡ 0
    → length (insert_sorted x l) ≡ length l + 1
unfolding insert_sorted copies
length-insert b x [] s h = refl
length-insert b x (n ∷ l) s h = ground (arith, length-insert n.sn x l s.1)

-- `Push` of a number that a sorted queue does not hold makes the queue one longer at every length:
-- the limit of a hundred entries limits nothing.
pub length-push :
    (n : NackQueue) (x : ℕ)
    → Sorted n.nacks
    → copies x n.nacks ≡ 0
    → length (push n x).nacks ≡ length n.nacks + 1
length-push n x s new = elim (push_cases n x s) [
  | inl (_, e) ↦ absurd (omega (arith, length-insert 0 x n.nacks s new, ap length e))
  | inr e ↦ rw e (
      if_elim (λ (l : List Nack). length l ≡ length n.nacks + 1)
        (leb max_nack_cache (length (insert_sorted x n.nacks)))
        (λ _. length-shift_down (insert_sorted x n.nacks) ∙ length-insert 0 x n.nacks s new)
        (λ _. length-insert 0 x n.nacks s new))
]

-- Every number in the list is below `x`.
abbrev pub Below : ℕ → List Nack → Type 0
Below x [] = Unit
Below x (n ∷ l) = (n.sn < x) × Below x l

insert_last :
    (x : ℕ) (l : List Nack)
    → Below x l
    → insert_sorted x l ≡ l ++ (record { sn = x; nacked = 0 } ∷ [])
unfolding insert_sorted
insert_last x [] h = refl
insert_last x (n ∷ l) h = ground (arith, insert_last x l h.1)

copies-Below : (x : ℕ) (l : List Nack) → Below x l → copies x l ≡ 0
unfolding copies
copies-Below x [] h = refl
copies-Below x (n ∷ l) h = ground (arith, copies-Below x l h.1)

shifted_last :
    (x : ℕ) (n : Nack) (l : List Nack)
    → Below x (n ∷ l)
    → copies x (shift_down ((n ∷ l) ++ (record { sn = x; nacked = 0 } ∷ []))) ≡ 2
unfolding copies shift_down
shifted_last x n [] h = ground arith
shifted_last x n (m ∷ l) h = ground (arith, shifted_last x m l h.1)

overflow_copies :
    (x : ℕ) (l : List Nack)
    → Below x l
    → 99 ≤ length l
    → copies x (shift_down (insert_sorted x l)) ≡ 2
overflow_copies x [] h full = absurd (omega arith)
overflow_copies x (n ∷ l) h full = rw (insert_last x (n ∷ l) h) (shifted_last x n l h)

pushed_copies :
    (n : NackQueue) (x : ℕ)
    → Sorted n.nacks
    → Below x n.nacks
    → 99 ≤ length n.nacks
    → copies x (push n x).nacks ≡ 2
pushed_copies n x s h full = elim (push_cases n x s) [
  | inl (_, e) ↦
      absurd (omega (arith, length-insert 0 x n.nacks s (copies-Below x n.nacks h), ap length e))
  | inr e ↦
      let grown = length-insert 0 x n.nacks s (copies-Below x n.nacks h) in
      rw (e, le→leb max_nack_cache (length (insert_sorted x n.nacks)) (omega arith))
        (overflow_copies x n.nacks h full)
]

-- From ninety-nine entries on, `Push` enters a number above all those of a sorted queue twice, so
-- that one entry is left when the number has come and `Remove` has run.
pub push_repeats :
    (n : NackQueue) (x : ℕ)
    → Sorted n.nacks
    → Below x n.nacks
    → 99 ≤ length n.nacks
    → (copies x (push n x).nacks ≡ 2) × (copies x (remove (push n x) x).nacks ≡ 1)
push_repeats n x s h full =
    let twice = pushed_copies n x s h full in
    (twice, copies-remove (push n x) x x (push-Sorted n x s) ∙ rw (twice, eq→== x x refl))

-- Pushing 1, 2, …, k.
pub push_up_to : ℕ → NackQueue
push_up_to zero = new_queue
push_up_to (suc k) = push (push_up_to k) (suc k)

insert-Below : (x y : ℕ) (l : List Nack) → y < x → Below x l → Below x (insert_sorted y l)
unfolding insert_sorted
insert-Below x y [] h b = (h, tt)
insert-Below x y (n ∷ l) h b = ground (arith, insert-Below x y l h b.1)

shift_down-Below : (x : ℕ) (l : List Nack) → Below x l → Below x (shift_down l)
unfolding shift_down
shift_down-Below x [] b = tt
shift_down-Below x (n ∷ []) b = b
shift_down-Below x (n ∷ m ∷ l) b = (b.1.0, shift_down-Below x (m ∷ l) b.1)

push-Below :
    (n : NackQueue) (x y : ℕ) → Sorted n.nacks → y < x → Below x n.nacks → Below x (push n y).nacks
push-Below n x y s h b = elim (push_cases n y s) [
  | inl (same, _) ↦ rw same b
  | inr e ↦ rw e (
      if_elim (Below x) (leb max_nack_cache (length (insert_sorted y n.nacks)))
        (λ _. shift_down-Below x _ (insert-Below x y n.nacks h b))
        (λ _. insert-Below x y n.nacks h b))
]

pub push_up_to-Sorted : (k : ℕ) → Sorted (push_up_to k).nacks
unfolding push_up_to
push_up_to-Sorted zero = tt
push_up_to-Sorted (suc k) = push-Sorted (push_up_to k) (suc k) (push_up_to-Sorted k)

pub push_up_to-Below : (k x : ℕ) → k < x → Below x (push_up_to k).nacks
unfolding push_up_to
push_up_to-Below zero x h = tt
push_up_to-Below (suc k) x h =
    push-Below (push_up_to k) x (suc k) (push_up_to-Sorted k) h (push_up_to-Below k x (omega arith))

-- `Push` of 1, 2, …, k on a new queue leaves k entries, for every k.
pub length-push_up_to : (k : ℕ) → length (push_up_to k).nacks ≡ k
unfolding push_up_to
length-push_up_to zero = refl
length-push_up_to (suc k) = omega (
  arith,
  length-push (push_up_to k) (suc k) (push_up_to-Sorted k)
      (copies-Below (suc k) (push_up_to k).nacks (push_up_to-Below k (suc k) (omega arith))),
  length-push_up_to k,
)
