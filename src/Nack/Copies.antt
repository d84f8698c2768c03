-- ===== src/Nack/Copies.antt =====
-- The queue as a count of requests for each number, and its order.
use sample_nodejs_server.Prelude.{
  ℕ, ◌+◌, ◌-◌, ◌≤◌, ◌<◌, ◌≡◌, refl, inl, inr, List, [], ◌∷◌, arith, ltb, leb, ◌==◌, if◌then◌else◌,
  length, if_elim, max, Bool-cases, ltb→lt, ==→eq, tests,
}
use sample_nodejs_server.Nack.{Nack, NackQueue, max_nack_cache, shift_down, push, remove}
use sample_nodejs_server.Nack.Queue.{
  From, From-mono, Sorted, insert_sorted, erase_sorted, push_cases, push-nacks, remove-nacks,
}

-- How often a number stands in the list.
unfoldable pub copies : ℕ → List Nack → ℕ
copies x [] = 0
copies x (n ∷ l) = if n.sn == x then copies x l + 1 else copies x l

pub copies_below : (b x : ℕ) (l : List Nack) → From b l → x < b → copies x l ≡ 0
unfolding copies
copies_below b x [] s h = refl
copies_below b x (n ∷ l) s h = ground (arith, copies_below n.sn x l s.1)

insert_sorted-From : (b x : ℕ) (l : List Nack) → From b l → b ≤ x → From b (insert_sorted x l)
unfolding insert_sorted
insert_sorted-From b x [] s h = (h, tt)
insert_sorted-From b x (n ∷ l) s h = ground (arith, insert_sorted-From n.sn x l s.1)

erase_sorted-From : (b x : ℕ) (l : List Nack) → From b l → From b (erase_sorted x l)
unfolding erase_sorted
erase_sorted-From b x [] s = tt
erase_sorted-From b x (n ∷ l) s =
    ground (arith, erase_sorted-From n.sn x l s.1, From-mono {a = b} {b = n.sn} l)

shift_down-From : (b : ℕ) (l : List Nack) → From b l → From b (shift_down l)
unfolding shift_down
shift_down-From b [] s = tt
shift_down-From b (n ∷ []) s = s
shift_down-From b (n ∷ m ∷ l) s = (omega arith, shift_down-From m.sn (m ∷ l) (omega arith, s.1.1))

copies-insert :
    (b x y : ℕ) (l : List Nack)
    → From b l
    → copies y (insert_sorted x l) ≡ (if y == x then max 1 (copies y l) else copies y l)
unfolding copies insert_sorted
copies-insert b x y [] s = ground arith
copies-insert b x y (n ∷ l) s =
    ground (arith, copies-insert n.sn x y l s.1, copies_below n.sn x l s.1)

-- The count of `y` at a first entry of number `a`, over the count `c` behind it.
abbrev counted : ℕ → ℕ → ℕ → ℕ
counted a y c = if a == y then c + 1 else c

counted_before :
    (a x y c : ℕ)
    → a < x
    → counted a y (if y == x then c - 1 else c)
      ≡ (if y == x then counted a y c - 1 else counted a y c)
counted_before a x y c h = ground arith

counted_here : (a x y c : ℕ) → a ≡ x → c ≡ (if y == x then counted a y c - 1 else counted a y c)
counted_here a x y c h = ground arith

counted_after :
    (a x y c : ℕ)
    → x < a
    → (y ≡ x → c ≡ 0)
    → counted a y c ≡ (if y == x then counted a y c - 1 else counted a y c)
counted_after a x y c h none = ground arith

copies-erase :
    (b x y : ℕ) (l : List Nack)
    → From b l
    → copies y (erase_sorted x l) ≡ (if y == x then copies y l - 1 else copies y l)
unfolding copies erase_sorted
copies-erase b x y [] s = ground arith
copies-erase b x y (n ∷ l) s = elim (Bool-cases (ltb n.sn x)) [
  | inl lt ↦
      rw (lt, copies-erase n.sn x y l s.1) (counted_before n.sn x y (copies y l) (ltb→lt _ _ lt))
  | inr ge ↦ elim (Bool-cases (n.sn == x)) [
    | inl same ↦ rw (ge, same) (counted_here n.sn x y (copies y l) (==→eq _ _ same))
    | inr ne ↦
        rw (ge, ne)
          (counted_after n.sn x y (copies y l) (omega tests)
            (λ e. copies_below n.sn y l s.1 (omega tests)))
  ]
]

-- `Push` keeps a sorted queue sorted, on every branch, the full queue's included.
pub push-Sorted : (n : NackQueue) (x : ℕ) → Sorted n.nacks → Sorted (push n x).nacks
push-Sorted n x s = elim (push_cases n x s) [
  | inl (same, _) ↦ rw same s
  | inr e ↦ rw e (
      if_elim Sorted (leb max_nack_cache (length (insert_sorted x n.nacks)))
        (λ _. shift_down-From 0 _ (insert_sorted-From 0 x n.nacks s (omega arith)))
        (λ _. insert_sorted-From 0 x n.nacks s (omega arith)))
]

-- `Remove` keeps a sorted queue sorted.
pub remove-Sorted : (n : NackQueue) (x : ℕ) → Sorted n.nacks → Sorted (remove n x).nacks
remove-Sorted n x s = rw (remove-nacks n x s) (erase_sorted-From 0 x n.nacks s)

-- On a sorted queue that stays below a hundred entries, `Push` leaves one entry for its number if
-- there was none, and changes no other count.
pub copies-push :
    (n : NackQueue) (x y : ℕ)
    → Sorted n.nacks
    → length (insert_sorted x n.nacks) < max_nack_cache
    → copies y (push n x).nacks ≡ (if y == x then max 1 (copies y n.nacks) else copies y n.nacks)
copies-push n x y s room = rw (push-nacks n x s room) (copies-insert 0 x y n.nacks s)

-- On a sorted queue `Remove` takes out one entry for its number, if any, and none for any other.
pub copies-remove :
    (n : NackQueue) (x y : ℕ)
    → Sorted n.nacks
    → copies y (remove n x).nacks ≡ (if y == x then copies y n.nacks - 1 else copies y n.nacks)
copies-remove n x y s = rw (remove-nacks n x s) (copies-erase 0 x y n.nacks s)
