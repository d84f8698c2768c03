-- ===== src/SortedSlice/Range.antt =====
-- The two loops of `SearchRange` over a comparison that is positive, then zero, then negative.
use sample_nodejs_server.Prelude.{
  ℕ, zero, suc, ◌+◌, ◌-◌, ◌/◌, ◌≤◌, ◌<◌, ◌≡◌, refl, inl, inr, true, false, arith, ltb, leb,
  if◌then◌else◌, min, Bool-cases, ltb→lt, ltb→le, leb→lt, lt→leb, if_elim,
}
use sample_nodejs_server.Prelude.Int.{ℤ, pos, negsuc, ltb_ℤ}
use sample_nodejs_server.Prelude.Search.{search_loop_lem}
use sample_nodejs_server.SortedSlice.{not_above, is_zero, upper_loop, lower_bound, search_range}

-- Indices below `lo` compare as positive, those from `hi` on as negative, and the others as zero.
pub record IsRange (n : ℕ) (compare : ℕ → ℤ) (lo hi : ℕ) : Type 0 where
  pub ordered : lo ≤ hi
  pub inside : hi ≤ n
  pub positive : (k : ℕ) → k < lo → ltb_ℤ (pos 0) (compare k) ≡ true
  pub equal : (k : ℕ) → lo ≤ k → k < hi → compare k ≡ pos 0
  pub negative : (k : ℕ) → hi ≤ k → k < n → ltb_ℤ (compare k) (pos 0) ≡ true

negative-not_positive : (c : ℤ) → ltb_ℤ c (pos 0) ≡ true → ltb_ℤ (pos 0) c ≡ false
negative-not_positive c h = ground arith

lower_bound_lem :
    {n lo hi : ℕ} {compare : ℕ → ℤ}
    → IsRange n compare lo hi
    → lower_bound n compare ≡ min lo (n - 1)
unfolding lower_bound
lower_bound_lem {n} {lo} {hi} {compare} r =
    search_loop_lem n (not_above compare) (min lo (n - 1)) 0 (n - 1) (omega arith) (omega arith)
      (omega arith) (λ k h. rw (r.positive k (omega arith)))
      (λ k g h. from k (omega arith) (omega arith))
  where
    from : (k : ℕ) → lo ≤ k → k < n → not_above compare k ≡ true
    from k g h = elim (Bool-cases (ltb k hi)) [
      | inl mid ↦ rw (r.equal k g (ltb→lt k hi mid))
      | inr up ↦ rw (negative-not_positive _ (r.negative k (ltb→le k hi up) h))
    ]

upper_loop_lem :
    (fuel : ℕ) (compare : ℕ → ℤ) (p i j : ℕ)
    → i ≤ p
    → p ≤ j
    → j ≤ i + fuel
    → ((k : ℕ) → i ≤ k → k ≤ p → ltb_ℤ (compare k) (pos 0) ≡ false)
    → ((k : ℕ) → p < k → k ≤ j → ltb_ℤ (compare k) (pos 0) ≡ true)
    → upper_loop fuel compare i j ≡ p
unfolding upper_loop
upper_loop_lem zero compare p i j lo hi enough below above = omega arith
upper_loop_lem (suc fuel) compare p i j lo hi enough below above = ground (
  arith,
  below ((i + j) / 2 + 1),
  above ((i + j) / 2 + 1),
  λ (a : p ≤ (i + j) / 2) (lt : i < j).
      upper_loop_lem fuel compare p i ((i + j) / 2) lo a (omega arith) below
        (λ k g h. above k g (omega arith)),
  λ (a : (i + j) / 2 < p) (lt : i < j).
      upper_loop_lem fuel compare p ((i + j) / 2 + 1) j (omega arith) hi (omega arith)
        (λ k g h. below k (omega arith) h) above,
)

is_zero-negative : (c : ℤ) → ltb_ℤ c (pos 0) ≡ true → is_zero c ≡ false
is_zero-negative c h = ground arith

is_zero-positive : (c : ℤ) → ltb_ℤ (pos 0) c ≡ true → is_zero c ≡ false
is_zero-positive c h = ground arith

module _ {n lo hi : ℕ} {compare : ℕ → ℤ} (r : IsRange n compare lo hi) where
  found : lo < hi → search_range n compare ≡ (pos lo, pos (hi - 1))
  unfolding search_range
  found h =
      rw
        (
          lower_bound_lem r,
          first,
          lt→leb n 0 (omega (arith, r.inside)),
          r.equal lo (omega arith) h,
          upper_loop_lem n compare (hi - 1) lo (n - 1) (omega arith) (omega (arith, r.inside))
              (omega arith) (λ k g l. rw (r.equal k g (omega arith)))
              (λ k g l. r.negative k (omega arith) (omega (arith, r.inside))),
        )
        refl
    where
      first : min lo (n - 1) ≡ lo
      first = omega (arith, r.inside)

  missed : hi ≤ lo → 0 < n → is_zero (compare (lower_bound n compare)) ≡ false
  missed h some_index = elim (Bool-cases (ltb lo n)) [
    | inl l ↦
        let lt = ltb→lt lo n l in
        let first : min lo (n - 1) ≡ lo = omega arith in
        rw (lower_bound_lem r, first) (is_zero-negative (compare lo) (r.negative lo h lt))
    | inr l ↦
        let ge = ltb→le lo n l in
        let last : min lo (n - 1) ≡ n - 1 = omega arith in
        rw (lower_bound_lem r, last)
          (is_zero-positive (compare (n - 1)) (r.positive (n - 1) (omega arith)))
  ]

  not_found : hi ≤ lo → search_range n compare ≡ (negsuc 0, negsuc 0)
  unfolding search_range
  not_found h = elim (Bool-cases (leb n 0)) [
    | inl empty ↦ rw empty
    | inr some_index ↦ rw (some_index, missed h (leb→lt n 0 some_index))
  ]

-- `SearchRange` over indices that compare as positive, then as zero, then as negative returns the
-- first and the last index that compare as zero, and -1 twice if there is none.
pub search_range_lem :
    {n lo hi : ℕ} {compare : ℕ → ℤ}
    → IsRange n compare lo hi
    → search_range n compare ≡ (if ltb lo hi then (pos lo, pos (hi - 1)) else (negsuc 0, negsuc 0))
search_range_lem {n} {lo} {hi} {compare} r =
    if_elim (λ (e : ℤ × ℤ). search_range n compare ≡ e) (ltb lo hi) (λ h. found r (ltb→lt lo hi h))
      (λ h. not_found r (ltb→le lo hi h))
