-- ===== src/Nack/Queue.antt =====
-- `Push` and `Remove` as insertion into, and removal from, an ascending list.
use sample_nodejs_server.Prelude.{
  ℕ, zero, suc, ◌+◌, ◌≤◌, ◌<◌, ◌≡◌, refl, sym, ◌⊎◌, inl, inr, Bool, true, false, List, [], ◌∷◌,
  ◌++◌, arith, ltb, leb, ◌==◌, if◌then◌else◌, length, take, drop, ◌&&◌, ◌||◌, not, Bool-cases,
  lt→leb,
}
use sample_nodejs_server.Prelude.Search.{search_index_lem}
use sample_nodejs_server.Nack.{
  Nack, NackQueue, max_nack_cache, sn_at, find_index, remove, insert_at, shift_down, push,
}

-- Numbers do not fall along the list, and the first is at least `b`.
abbrev pub From : ℕ → List Nack → Type 0
From b [] = Unit
From b (n ∷ l) = (b ≤ n.sn) × From n.sn l

abbrev pub Sorted : List Nack → Type 0
Sorted = From 0

pub From-mono : {a b : ℕ} (l : List Nack) → a ≤ b → From b l → From a l
From-mono [] h s = tt
From-mono (n ∷ l) h s = (omega arith, s.1)

-- How many numbers at the front are below `x`.
pub position : ℕ → List Nack → ℕ
position x [] = 0
position x (n ∷ l) = if ltb n.sn x then suc (position x l) else 0

position-le : (x : ℕ) (l : List Nack) → position x l ≤ length l
unfolding position
position-le x [] = omega arith
position-le x (n ∷ l) = ground (arith, position-le x l)

below_position : (x : ℕ) (l : List Nack) (k : ℕ) → k < position x l → leb x (sn_at l k) ≡ false
unfolding position
below_position x [] k h = absurd (omega arith)
below_position x (n ∷ l) zero h = ground arith
below_position x (n ∷ l) (suc k) h = ground (arith, below_position x l k)

From-sn_at : (b : ℕ) (l : List Nack) (k : ℕ) → From b l → k < length l → b ≤ sn_at l k
From-sn_at b [] k s h = absurd (omega arith)
From-sn_at b (n ∷ l) zero s h = s.0
From-sn_at b (n ∷ l) (suc k) s h = omega (arith, From-sn_at n.sn l k s.1 (omega arith))

above_position :
    (b x : ℕ) (l : List Nack) (k : ℕ)
    → From b l
    → position x l ≤ k
    → k < length l
    → leb x (sn_at l k) ≡ true
unfolding position
above_position b x [] k s h lt = absurd (omega arith)
above_position b x (n ∷ l) zero s h lt = ground arith
above_position b x (n ∷ l) (suc k) s h lt =
    ground (arith, above_position n.sn x l k s.1, From-sn_at n.sn l k s.1)

pub find_index-position : (x : ℕ) (l : List Nack) → Sorted l → find_index l x ≡ position x l
find_index-position x l s =
    search_index_lem (length l) (λ i. leb x (sn_at l i)) (position x l) (position-le x l)
      (λ k h. below_position x l k h) (λ k h lt. above_position 0 x l k s h lt)

-- Insertion of a number that is not yet requested, in order.
unfoldable pub insert_sorted : ℕ → List Nack → List Nack
insert_sorted x [] = record { sn = x; nacked = 0 } ∷ []
insert_sorted x (n ∷ l) =
    if ltb n.sn x
    then n ∷ insert_sorted x l
    else if n.sn == x
    then n ∷ l
    else record { sn = x; nacked = 0 } ∷ n ∷ l

unfoldable pub erase_sorted : ℕ → List Nack → List Nack
erase_sorted x [] = []
erase_sorted x (n ∷ l) = if ltb n.sn x then n ∷ erase_sorted x l else if n.sn == x then l else n ∷ l

abbrev pub has_at : ℕ → List Nack → ℕ → Bool
has_at x l i = ltb i (length l) && sn_at l i == x

grown_at :
    (x : ℕ) (l : List Nack)
    → (if has_at x l (position x l)
        then l
        else insert_at l (position x l) (record { sn = x; nacked = 0 }))
      ≡ insert_sorted x l
unfolding position insert_at insert_sorted
grown_at x [] = refl
grown_at x (n ∷ l) = ground (arith, grown_at x l)

erased_at :
    (x : ℕ) (l : List Nack)
    → (if leb (length l) (position x l) || not (sn_at l (position x l) == x)
        then l
        else take (position x l) l ++ drop (position x l + 1) l)
      ≡ erase_sorted x l
unfolding position erase_sorted
erased_at x [] = refl
erased_at x (n ∷ l) =
    let next : suc (position x l) + 1 ≡ suc (position x l + 1) = omega arith in
    ground (arith, erased_at x l, next)

-- `Push` leaves a list that has the number; otherwise it inserts it in order, and moves the
-- entries down by one once there are a hundred.
pub push_cases :
    (n : NackQueue) (x : ℕ)
    → Sorted n.nacks
    → ((push n x ≡ n) × (insert_sorted x n.nacks ≡ n.nacks))
      ⊎ (push n x ≡ record n {
        nacks =
            if leb max_nack_cache (length (insert_sorted x n.nacks))
            then shift_down (insert_sorted x n.nacks)
            else insert_sorted x n.nacks;
      })
unfolding push
push_cases n x s = elim (Bool-cases (has_at x n.nacks (position x n.nacks))) [
  | inl has ↦ inl (rw (find_index-position x n.nacks s, has), sym (rw has at (grown_at x n.nacks)))
  | inr new ↦
      let g = rw new at (grown_at x n.nacks) in inr (rw (find_index-position x n.nacks s, new, g))
]

-- On a sorted queue that stays below a hundred entries, `Push` is ordered insertion that keeps a
-- number that is there.
pub push-nacks :
    (n : NackQueue) (x : ℕ)
    → Sorted n.nacks
    → length (insert_sorted x n.nacks) < max_nack_cache
    → push n x ≡ record n { nacks = insert_sorted x n.nacks }
push-nacks n x s room = elim (push_cases n x s) [
  | inl (same, e) ↦ rw e same
  | inr e ↦ rw (lt→leb _ _ room) at e
]

-- On a sorted queue `Remove` is ordered deletion: the number's first entry goes, and a queue without
-- it stays as it is.
pub remove-nacks :
    (n : NackQueue) (x : ℕ)
    → Sorted n.nacks
    → remove n x ≡ record n { nacks = erase_sorted x n.nacks }
unfolding remove
remove-nacks n x s =
    elim (Bool-cases (
      leb (length n.nacks) (position x n.nacks) || not (sn_at n.nacks (position x n.nacks) == x))) [
        | inl gone ↦
            let e = rw gone at (erased_at x n.nacks) in
            rw (find_index-position x n.nacks s, gone, ← e)
        | inr there ↦
            let e = rw there at (erased_at x n.nacks) in
            rw (find_index-position x n.nacks s, there, e)
      ]
