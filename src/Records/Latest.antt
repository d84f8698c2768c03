-- ===== src/Records/Latest.antt =====
-- The element of a point in time, against the latest that is not after it.
use sample_nodejs_server.Prelude.{
  ℕ, suc, ◌≤◌, ◌<◌, ◌≡◌, ◌⊎◌, inl, inr, refl, ap, true, false, not, List, [], ◌∷◌, ◌++◌, Option,
  none, some, arith, if◌then◌else◌, if_elim, length, get_elem?,
}
use sample_nodejs_server.Prelude.Int.{ℤ, pos, sub_ℕ, ltb_ℤ}
use sample_nodejs_server.SortedSlice.{is_zero}
use sample_nodejs_server.SortedSlice.Slices.{All, starts_at_zero, search_element_lem}
use sample_nodejs_server.Records.{element, find_at}

module _ {A : Type 0} (time : A → ℕ) where
  -- In the order of time.
  abbrev pub InOrder : List A → Type 0
  InOrder [] = Unit
  InOrder (x ∷ xs) = All (λ y. time x ≤ time y) xs × InOrder xs

  -- The latest that is not after the time, or none as all are after it.
  abbrev pub IsLatest : ℕ → List A → Option A → Type 0
  IsLatest ts l none = All (λ x. ts < time x) l
  IsLatest ts l (some a) =
      ((i : ℕ) × (get_elem? l i ≡ some a))
      × ((time a ≤ ts) × All (λ x. time x ≤ ts → time x ≤ time a) l)

  -- The elements before the time, and the others.
  record Parts (ts : ℕ) (l : List A) : Type 0 where
    xs : List A
    ys : List A
    whole : l ≡ xs ++ ys
    below : All (λ x. time x < ts) xs
    above : All (λ y. ts ≤ time y) ys

  All-map : {P Q : A → Type 0} → ((x : A) → P x → Q x) → (l : List A) → All P l → All Q l
  All-map f [] a = tt
  All-map f (x ∷ xs) a = (f x a.0, All-map f xs a.1)

  All-append : (P : A → Type 0) (xs ys : List A) → All P xs → All P ys → All P (xs ++ ys)
  All-append P [] ys a b = b
  All-append P (x ∷ xs) ys a b = (a.0, All-append P xs ys a.1 b)

  parts : (ts : ℕ) (l : List A) → InOrder l → Parts ts l
  parts ts [] o = record { xs = []; ys = []; whole = refl; below = tt; above = tt }
  parts ts (x ∷ l) o = elim (order (time x) ts) [
    | inl lt ↦
        let p = parts ts l o.1 in
        record {
          xs = x ∷ p.xs;
          ys = p.ys;
          whole = ap (λ z. x ∷ z) p.whole;
          below = (lt, p.below);
          above = p.above;
        }
    | inr ge ↦ record {
      xs = [];
      ys = x ∷ l;
      whole = refl;
      below = tt;
      above = (ge, All-map (λ y h. omega (arith, h, ge)) l o.0);
    }
  ]
    where
      order : (a b : ℕ) → (a < b) ⊎ (b ≤ a)
      order a b = ground arith

  last : A → List A → A
  last x [] = x
  last x (z ∷ zs) = last z zs

  get-last : (x : A) (xs ys : List A) → get_elem? ((x ∷ xs) ++ ys) (length xs) ≡ some (last x xs)
  unfolding last
  get-last x [] ys = refl
  get-last x (z ∷ zs) ys = get-last z zs ys

  get-head : (xs ys : List A) (y : A) → get_elem? (xs ++ (y ∷ ys)) (length xs) ≡ some y
  get-head [] ys y = refl
  get-head (x ∷ xs) ys y = get-head xs ys y

  last-All : (P : A → Type 0) (x : A) (xs : List A) → All P (x ∷ xs) → P (last x xs)
  unfolding last
  last-All P x [] a = a.0
  last-All P x (z ∷ zs) a = last-All P z zs a.1

  up_to_last :
      (x : A) (xs ys : List A)
      → InOrder ((x ∷ xs) ++ ys)
      → All (λ z. time z ≤ time (last x xs)) (x ∷ xs)
  unfolding last
  up_to_last x [] ys o = (omega arith, tt)
  up_to_last x (z ∷ zs) ys o =
      let rest = up_to_last z zs ys o.1 in let first = o.0.0 in (omega (arith, first, rest.0), rest)

  InOrder-right : (xs ys : List A) → InOrder (xs ++ ys) → InOrder ys
  InOrder-right [] ys o = o
  InOrder-right (x ∷ xs) ys o = InOrder-right xs ys o.1

  minus : ℕ → A → ℤ
  minus value a = sub_ℕ value (time a)

  is_below : (ts n : ℕ) → n < ts → not (ltb_ℤ (pos 0) (sub_ℕ ts n)) ≡ false
  is_below ts n h = ground arith

  is_above : (ts n : ℕ) → ts ≤ n → not (ltb_ℤ (pos 0) (sub_ℕ ts n)) ≡ true
  is_above ts n h = ground arith

  strictly : (ts n : ℕ) → ts ≤ n → is_zero (sub_ℕ ts n) ≡ false → ts < n
  strictly ts n h z = ground arith

  same_time : (ts n : ℕ) → ts ≤ n → is_zero (sub_ℕ ts n) ≡ true → n ≡ ts
  same_time ts n h z = ground arith

  All-after :
      (ts : ℕ) (ys : List A)
      → All (λ y. ts ≤ time y) ys
      → InOrder ys
      → starts_at_zero (minus ts) ys ≡ false
      → All (λ y. ts < time y) ys
  unfolding minus
  All-after ts [] a o z = tt
  All-after ts (y ∷ ys) a o z =
      let first = strictly ts (time y) a.0 z in
      (first, All-map (λ x h. omega (arith, first, h)) ys o.0)

  -- Without an element of that very time: the last of those before it.
  before_it :
      (ts : ℕ) (xs ys : List A)
      → All (λ x. time x < ts) xs
      → All (λ y. ts < time y) ys
      → InOrder (xs ++ ys)
      → IsLatest ts (xs ++ ys) (element (xs ++ ys) (sub_ℕ (length xs) 1))
  before_it ts [] ys below after o = after
  before_it ts (x ∷ xs) ys below after o =
      let at : element ((x ∷ xs) ++ ys) (sub_ℕ (length (x ∷ xs)) 1) ≡ some (last x xs) =
        rw (index (length xs)) (get-last x xs ys) in
      rw at (
        (length xs, get-last x xs ys),
        (
          early (last-All (λ z. time z < ts) x xs below),
          All-append (λ z. time z ≤ ts → time z ≤ time (last x xs)) (x ∷ xs) ys
              (All-map (λ z h _. h) (x ∷ xs) (up_to_last x xs ys o))
              (All-map (λ z h g. absurd (omega (arith, h, g))) ys after),
        ),
      )
    where
      index : (n : ℕ) → sub_ℕ (suc n) 1 ≡ pos n
      index n = ground arith

      early : {a b : ℕ} → a < b → a ≤ b
      early h = omega (arith, h)

  at_it :
      (ts : ℕ) (xs ys : List A) (y : A)
      → All (λ x. time x < ts) xs
      → time y ≡ ts
      → IsLatest ts (xs ++ (y ∷ ys)) (element (xs ++ (y ∷ ys)) (pos (length xs)))
  at_it ts xs ys y below same =
      rw (get-head xs ys y)
        ((length xs, get-head xs ys y), (omega (arith, same), every (xs ++ (y ∷ ys))))
    where
      every : (l : List A) → All (λ x. time x ≤ ts → time x ≤ time y) l
      every [] = tt
      every (x ∷ l) = (λ h. omega (arith, h, same), every l)

  split-IsLatest :
      (any : A) (ts : ℕ) (xs ys : List A)
      → All (λ x. time x < ts) xs
      → All (λ y. ts ≤ time y) ys
      → InOrder (xs ++ ys)
      → IsLatest ts (xs ++ ys) (find_at time any (xs ++ ys) ts)
  unfolding find_at minus
  split-IsLatest any ts xs ys below above o =
      let at =
        search_element_lem (λ value a. sub_ℕ value (time a)) ts xs ys any
          (All-map (λ x h. is_below ts (time x) h) xs below)
          (All-map (λ y h. is_above ts (time y) h) ys above) in
      rw at (choose ys above o)
    where
      choose :
          (ys : List A)
          → All (λ y. ts ≤ time y) ys
          → InOrder (xs ++ ys)
          → IsLatest ts (xs ++ ys) (
              element (xs ++ ys) (
                if starts_at_zero (λ a. sub_ℕ ts (time a)) ys
                then pos (length xs)
                else sub_ℕ (length xs) 1))
      choose [] above o = before_it ts xs [] below tt o
      choose (y ∷ ys) above o =
          if_elim (λ (i : ℤ). IsLatest ts (xs ++ (y ∷ ys)) (element (xs ++ (y ∷ ys)) i))
            (is_zero (sub_ℕ ts (time y)))
            (λ z. at_it ts xs ys y below (same_time ts (time y) above.0 z))
            (λ z.
              before_it ts xs (y ∷ ys) below
                (All-after ts (y ∷ ys) above (InOrder-right xs (y ∷ ys) o) z) o)

  -- What is found in a list in the order of time is its latest element that is not after the given
  -- time, and nothing is found exactly when all are after it.
  pub find_at-IsLatest :
      (any : A) (l : List A) (ts : ℕ) → InOrder l → IsLatest ts l (find_at time any l ts)
  find_at-IsLatest any l ts o =
      let p = parts ts l o in
      rw (p.whole) (split-IsLatest any ts p.xs p.ys p.below p.above (rw (p.whole) at o))
