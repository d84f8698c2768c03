-- ===== src/Prelude/Search.antt =====
-- Go's `sort.Search`: binary search for the first index at which a test holds.
use Prim.Native.Nat.{ℕ, zero, suc, ◌+◌, ◌/◌, ◌≤◌, ◌<◌}
use mathlib.Core.Path.{◌≡◌}
use mathlib.Core.Bool.{Bool, true, false}
use native.Mathlib.Omega.{arith}
use sample_nodejs_server.Prelude.Tests.{ltb}

-- `for i < j { h := (i+j)/2; if !f(h) { i = h+1 } else { j = h } }`.
unfoldable pub search_loop : ℕ → (ℕ → Bool) → ℕ → ℕ → ℕ
search_loop zero f i j = i
search_loop (suc fuel) f i j = elim (ltb i j) [
  | true ↦ elim (f ((i + j) / 2)) [
    | true ↦ search_loop fuel f i ((i + j) / 2)
    | false ↦ search_loop fuel f ((i + j) / 2 + 1) j
  ]
  | false ↦ i
]

-- A round takes at least one index off, so `n` rounds are enough.
unfoldable pub search_index : ℕ → (ℕ → Bool) → ℕ
unfolding search_loop
search_index n f = search_loop n f 0 n

-- Between two bounds, at the end of the part on which the test fails.
pub search_loop_lem :
    (fuel : ℕ) (f : ℕ → Bool) (p i j : ℕ)
    → i ≤ p
    → p ≤ j
    → j ≤ i + fuel
    → ((k : ℕ) → k < p → f k ≡ false)
    → ((k : ℕ) → p ≤ k → k < j → f k ≡ true)
    → search_loop fuel f i j ≡ p
unfolding search_loop
search_loop_lem zero f p i j lo hi enough below above = omega arith
search_loop_lem (suc fuel) f p i j lo hi enough below above = ground (
  arith,
  below ((i + j) / 2),
  above ((i + j) / 2),
  λ (a : p ≤ (i + j) / 2) (lt : i < j).
      search_loop_lem fuel f p i ((i + j) / 2) lo a (omega arith) below
        (λ k g l. above k g (omega arith)),
  λ (a : (i + j) / 2 < p) (lt : i < j).
      search_loop_lem fuel f p ((i + j) / 2 + 1) j (omega arith) hi (omega arith) below above,
)

-- The result is the index at which the test turns from false to true, if it does so once.
pub search_index_lem :
    (n : ℕ) (f : ℕ → Bool) (p : ℕ)
    → p ≤ n
    → ((k : ℕ) → k < p → f k ≡ false)
    → ((k : ℕ) → p ≤ k → k < n → f k ≡ true)
    → search_index n f ≡ p
unfolding search_index
search_index_lem n f p h below above =
    search_loop_lem n f p 0 n (omega arith) h (omega arith) below above
