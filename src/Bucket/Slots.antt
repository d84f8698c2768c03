-- ===== src/Bucket/Slots.antt =====
-- `wrap` and the slots that a sequence number and a gap are sent to.
use native.Mathlib.Nat.{add-zero, mod-eq_of_lt, mod-eq-sub-mod, mod-add-mod, add-mod-mod, mod-lt}
use sample_nodejs_server.Prelude.{
  ℕ, zero, suc, ◌+◌, ◌-◌, ◌%◌, ◌≤◌, ◌<◌, ◌≡◌, refl, sym, ap, ◌∙◌, inl, inr, arith, ltb,
  if◌then◌else◌, Bool-cases, tests,
}
use sample_nodejs_server.Prelude.Int.{ℤ, pos, negsuc, sub_ℕ, pos_part, neg_part, ◌+ℤ◌, ◌-ℤ◌}
use sample_nodejs_server.Bucket.{wrap_up, wrap_down, wrap}

wrap_down-pos : (fuel m n : ℕ) → 0 < m → n ≤ fuel → wrap_down fuel m (pos n) ≡ pos (n % m)
unfolding wrap_down ◌-ℤ◌
wrap_down-pos zero m n hm h = ground (arith, mod-eq_of_lt {n = n} {m = m})
wrap_down-pos (suc fuel) m n hm h = ground (
  arith,
  wrap_down-pos fuel m (n - m),
  mod-eq_of_lt {n = n} {m = m},
  mod-eq-sub-mod {n = n} {m = m},
)

wrap_up-pos : (fuel m n : ℕ) → wrap_up fuel m (pos n) ≡ pos n
unfolding wrap_up ◌+ℤ◌
wrap_up-pos zero m n = refl
wrap_up-pos (suc fuel) m n = ground arith

self-mod : {m k : ℕ} → k < m → (m - suc k + suc k) % m ≡ 0
self-mod {m} {k} h = ground (
  arith,
  mod-eq-sub-mod {n = m - suc k + suc k} {m = m},
  mod-eq_of_lt {n = 0} {m = m} (omega arith),
)

add_one_lap : (u : ℕ) {m k : ℕ} → m ≤ k → (u + suc (k - m)) % m ≡ 0 → (u + suc k) % m ≡ 0
add_one_lap u {m} {k} h e =
    let back : u + suc k - m ≡ u + suc (k - m) = omega arith in
    mod-eq-sub-mod {n = u + suc k} {m = m} (omega arith) ∙ ap (λ x. x % m) back ∙ e

-- A positive number below two laps that is a multiple of a lap is one lap.
one_lap : {m y : ℕ} → 0 < y → y < m + m → y % m ≡ 0 → y ≡ m
one_lap {m} {y} hy hm e = ground (
  arith,
  mod-eq_of_lt {n = y} {m = m},
  mod-eq-sub-mod {n = y} {m = m},
  mod-eq_of_lt {n = y - m} {m = m},
)

-- The first loop ends at the least non-negative slot, given a round for each unit below zero.
wrap_up-negsuc :
    (fuel m k : ℕ)
    → 0 < m
    → suc k ≤ fuel
    → (u : ℕ) × (wrap_up fuel m (negsuc k) ≡ pos u) × (u < m) × ((u + suc k) % m ≡ 0)
unfolding wrap_up ◌+ℤ◌
wrap_up-negsuc zero m k hm h = absurd (omega arith)
wrap_up-negsuc (suc fuel) m k hm h = elim (Bool-cases (ltb k m)) [
  | inl lt ↦ (
    m - suc k,
    ground (arith, wrap_up-pos fuel m (m - suc k)),
    omega tests,
    self-mod (omega tests),
  )
  | inr ge ↦
      let (u, e, lt, z) = wrap_up-negsuc fuel m (k - m) hm (omega tests) in
      (u, ground arith, lt, add_one_lap u (omega tests) z)
]

pub wrap-pos : (m n : ℕ) → 0 < m → wrap m (pos n) ≡ n % m
unfolding wrap
wrap-pos m n hm = rw (wrap_down-pos n m n hm (omega arith))

pub wrap-negsuc :
    (m k : ℕ) → 0 < m → (wrap m (negsuc k) < m) × ((wrap m (negsuc k) + suc k) % m ≡ 0)
unfolding wrap
wrap-negsuc m k hm =
    let (u, e, lt, z) = wrap_up-negsuc (suc k) m k hm (omega arith) in
    rw (e, wrap_down-pos u m u hm (omega arith), mod-eq_of_lt lt) (lt, z)

-- With at least one slot, the loops of `wrap` end, within the fuel, at a slot inside the ring that
-- is congruent to the argument.
pub wrap_lem :
    (m : ℕ) (slot : ℤ)
    → 0 < m
    → (wrap m slot < m) × ((wrap m slot + neg_part slot) % m ≡ pos_part slot % m)
wrap_lem m (pos n) hm =
    rw (wrap-pos m n hm) (mod-lt n hm, rw (add-zero, mod-eq_of_lt (mod-lt n hm)))
wrap_lem m (negsuc k) hm = let (lt, e) = wrap-negsuc m k hm in (lt, e ∙ sym (mod-eq_of_lt hm))

-- The slot of the packet `diff` behind the newest, with the next write at `step`.
abbrev pub back : ℕ → ℕ → ℕ → ℕ
back m step diff = if ltb diff step then step - (diff + 1) else step + m - (diff + 1)

pub wrap-back :
    (m step diff : ℕ) → step < m → diff < m → wrap m (sub_ℕ step (diff + 1)) ≡ back m step diff
wrap-back m step diff hs hd = ground (
  arith,
  wrap-pos m (step - (diff + 1)),
  mod-eq_of_lt {n = step - (diff + 1)} {m = m},
  wrap-negsuc m (diff + 1 - step - 1),
  one_lap {m = m} {y = wrap m (negsuc (diff + 1 - step - 1)) + suc (diff + 1 - step - 1)},
)

-- Going forward by less than a lap.
abbrev pub ahead : ℕ → ℕ → ℕ → ℕ
ahead m step k = if ltb (step + k) m then step + k else step + k - m

pub wrap-ahead : (m step k : ℕ) → step < m → k ≤ m → wrap m (pos (step + k)) ≡ ahead m step k
wrap-ahead m step k hs hk = ground (
  arith,
  wrap-pos m (step + k),
  mod-eq_of_lt {n = step + k} {m = m},
  mod-eq-sub-mod {n = step + k} {m = m},
  mod-eq_of_lt {n = step + k - m} {m = m},
)

pub wrap-lt : (m n : ℕ) → 0 < m → wrap m (pos n) < m
wrap-lt m n h = (wrap_lem m (pos n) h).0

next_mod :
    (m y k : ℕ)
    → 0 < m
    → k ≤ m
    → (y + k) % m ≡ (if ltb (y % m + k) m then y % m + k else y % m + k - m)
next_mod m y k h hk = ground (
  arith,
  mod-add-mod y m k,
  mod-lt y h,
  mod-eq_of_lt {n = y % m + k} {m = m},
  mod-eq-sub-mod {n = y % m + k} {m = m},
  mod-eq_of_lt {n = y % m + k - m} {m = m},
)

-- Going back from where a forward step of any length ended.
pub back-wrap :
    (m x e : ℕ) → 0 < m → e < m → e < x → back m (wrap m (pos x)) e ≡ wrap m (pos (x - (e + 1)))
back-wrap m x e h lt below =
    let split : x ≡ x - (e + 1) + (e + 1) = omega arith in
    let lap : x % m ≡ (
        if ltb ((x - (e + 1)) % m + (e + 1)) m
        then (x - (e + 1)) % m + (e + 1)
        else (x - (e + 1)) % m + (e + 1) - m) =
      ap (λ z. z % m) split ∙ next_mod m (x - (e + 1)) (e + 1) h (omega arith) in
    ground (arith, wrap-pos m x h, wrap-pos m (x - (e + 1)) h, mod-lt (x - (e + 1)) h)

-- Every forward step is to a slot of the first lap.
pub wrap_first_lap : (m step j : ℕ) → 0 < m → wrap m (pos (step + j)) ≡ wrap m (pos (step + j % m))
wrap_first_lap m step j h =
    rw (wrap-pos m (step + j) h, wrap-pos m (step + j % m) h) (sym (add-mod-mod step j m))
