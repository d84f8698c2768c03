-- ===== src/SortedSlice/Slices.antt =====
-- What the functions on sorted slices do to a slice that is given in its parts.
use mathlib.Core.List.{append-nil}
use sample_nodejs_server.Prelude.{
  ℕ, zero, suc, ◌+◌, ◌-◌, ◌≤◌, ◌<◌, ◌≡◌, refl, ap, ◌∙◌, Bool, true, false, not, List, [], ◌∷◌, ◌++◌,
  arith, if◌then◌else◌, length, length-append, get_or, take, drop, le→ltb, lt→ltb, le→leb, lt→leb,
}
use sample_nodejs_server.Prelude.Int.{ℤ, pos, sub_ℕ, ltb_ℤ}
use sample_nodejs_server.Prelude.Search.{search_index, search_index_lem}
use sample_nodejs_server.SortedSlice.{
  is_zero, remove_item_in_sorted_slice, insert_sorted, is_less, insert_sorted_string,
  search_element_or_smaller,
}
use sample_nodejs_server.SortedSlice.Range.{IsRange, search_range_lem}

-- Every element of the list has the property.
abbrev pub All {ℓ κ} : {A : Type ℓ} → (A → Type κ) → List A → Type κ
All P [] = Unit
All P (x ∷ xs) = P x × All P xs

module _ {ℓ} {A : Type ℓ} (P : A → Type 0) (d : A) where
  get_or-All : (xs : List A) (k : ℕ) → All P xs → k < length xs → P (get_or xs k d)
  get_or-All [] k h l = absurd (omega arith)
  get_or-All (x ∷ xs) zero h l = h.0
  get_or-All (x ∷ xs) (suc k) h l = get_or-All xs k h.1 (omega arith)

  get_or-left : (xs ys : List A) (k : ℕ) → All P xs → k < length xs → P (get_or (xs ++ ys) k d)
  get_or-left [] ys k h l = absurd (omega arith)
  get_or-left (x ∷ xs) ys zero h l = h.0
  get_or-left (x ∷ xs) ys (suc k) h l = get_or-left xs ys k h.1 (omega arith)

  get_or-right :
      (xs ys : List A) (k : ℕ)
      → All P ys
      → length xs ≤ k
      → k < length xs + length ys
      → P (get_or (xs ++ ys) k d)
  get_or-right [] ys k h g l = get_or-All ys k h (omega arith)
  get_or-right (x ∷ xs) ys zero h g l = absurd (omega arith)
  get_or-right (x ∷ xs) ys (suc k) h g l = get_or-right xs ys k h (omega arith) (omega arith)

module _ {ℓ} {A : Type ℓ} where
  take-left : (xs ys : List A) → take (length xs) (xs ++ ys) ≡ xs
  take-left [] ys = refl
  take-left (x ∷ xs) ys = ap (λ l. x ∷ l) (take-left xs ys)

  drop-left : (xs ys : List A) → drop (length xs) (xs ++ ys) ≡ ys
  drop-left [] ys = refl
  drop-left (x ∷ xs) ys = drop-left xs ys

  drop-twice :
      (xs es ys : List A) (k : ℕ) → k ≡ length xs + length es → drop k (xs ++ (es ++ ys)) ≡ ys
  drop-twice [] es ys k h = let e : k ≡ length es = omega arith in rw e (drop-left es ys)
  drop-twice (x ∷ xs) es ys zero h = absurd (omega arith)
  drop-twice (x ∷ xs) es ys (suc k) h = drop-twice xs es ys k (omega arith)

  get_or-head : (xs ys : List A) (y d : A) → get_or (xs ++ (y ∷ ys)) (length xs) d ≡ y
  get_or-head [] ys y d = refl
  get_or-head (x ∷ xs) ys y d = get_or-head xs ys y d

  get_or-shift :
      (xs ys : List A) (k : ℕ) (d : A)
      → length xs ≤ k
      → get_or (xs ++ ys) k d ≡ get_or ys (k - length xs) d
  get_or-shift [] ys k d g = let z : k - 0 ≡ k = omega arith in rw z refl
  get_or-shift (x ∷ xs) ys zero d g = absurd (omega arith)
  get_or-shift (x ∷ xs) ys (suc k) d g =
      let z : suc k - suc (length xs) ≡ k - length xs = omega arith in
      rw z (get_or-shift xs ys k d (omega arith))

  search_index-append :
      (f : A → Bool) (xs ys : List A) (d : A)
      → All (λ x. f x ≡ false) xs
      → All (λ y. f y ≡ true) ys
      → search_index (length (xs ++ ys)) (λ i. f (get_or (xs ++ ys) i d)) ≡ length xs
  search_index-append f xs ys d below above =
      search_index_lem _ (λ i. f (get_or (xs ++ ys) i d)) (length xs)
        (omega (arith, length-append xs ys))
        (λ k h. get_or-left (λ x. f x ≡ false) d xs ys k below h)
        (λ k g h.
          get_or-right (λ y. f y ≡ true) d xs ys k above g (omega (arith, length-append xs ys)))

-- `InsertSorted` puts the value between the elements on which the comparison fails and those on
-- which it holds, for a slice in which the former come first.
pub insert_sorted-append {ℓ} :
    {A : Type ℓ} (test : A → Bool) (xs ys : List A) (value any : A)
    → All (λ x. test x ≡ false) xs
    → All (λ y. test y ≡ true) ys
    → insert_sorted (xs ++ ys) value (λ i. test (get_or (xs ++ ys) i any)) ≡ xs ++ (value ∷ ys)
unfolding insert_sorted
insert_sorted-append test xs ys value any below above =
    rw (search_index-append test xs ys any below above, take-left xs ys, drop-left xs ys) refl

-- `InsertSortedString` puts a string behind the strings that are not greater, an equal one
-- included, and before the greater ones, for a slice in which the former come first.
pub insert_sorted_string-append :
    (xs ys : List (List ℕ)) (s : List ℕ)
    → All (λ x. is_less s x ≡ false) xs
    → All (λ y. is_less s y ≡ true) ys
    → insert_sorted_string (xs ++ ys) s ≡ xs ++ (s ∷ ys)
unfolding insert_sorted_string
insert_sorted_string-append xs ys s below above =
    insert_sorted-append (is_less s) xs ys s [] below above

module _ {ℓ} {A : Type ℓ} (compare : A → ℤ) (any : A) (xs es ys : List A) where
  is_range :
      All (λ x. ltb_ℤ (pos 0) (compare x) ≡ true) xs
      → All (λ e. compare e ≡ pos 0) es
      → All (λ y. ltb_ℤ (compare y) (pos 0) ≡ true) ys
      → IsRange
          (length (xs ++ (es ++ ys)))
          (λ i. compare (get_or (xs ++ (es ++ ys)) i any))
          (length xs)
          (length xs + length es)
  is_range above equal below = record {
    ordered = omega arith;
    inside = omega (arith, length-append xs (es ++ ys), length-append es ys);
    positive =
        λ k h. get_or-left (λ x. ltb_ℤ (pos 0) (compare x) ≡ true) any xs (es ++ ys) k above h;
    equal = λ k g h.
        ap compare (get_or-shift xs (es ++ ys) k any g)
        ∙ get_or-left (λ e. compare e ≡ pos 0) any es ys (k - length xs) equal (omega arith);
    negative = λ k g h.
        ap (λ a. ltb_ℤ (compare a) (pos 0)) (get_or-shift xs (es ++ ys) k any (omega arith))
        ∙ get_or-right (λ y. ltb_ℤ (compare y) (pos 0) ≡ true) any es ys (k - length xs) below
            (omega arith) (omega (arith, length-append xs (es ++ ys), length-append es ys));
  }

-- `RemoveItemInSortedSlice` takes out exactly the elements that compare as zero, for a slice in
-- which those that compare as positive come first and those that compare as negative last.
pub remove_item-append {ℓ} :
    {A : Type ℓ} (compare : A → ℤ) (xs es ys : List A) (any : A)
    → All (λ x. ltb_ℤ (pos 0) (compare x) ≡ true) xs
    → All (λ e. compare e ≡ pos 0) es
    → All (λ y. ltb_ℤ (compare y) (pos 0) ≡ true) ys
    → remove_item_in_sorted_slice
        (xs ++ (es ++ ys))
        (λ i. compare (get_or (xs ++ (es ++ ys)) i any))
      ≡ xs ++ ys
unfolding remove_item_in_sorted_slice
remove_item-append compare xs [] ys any above equal below =
    rw
      (
        search_range_lem (is_range compare any xs [] ys above equal below),
        le→ltb (length xs) (length xs + 0) (omega arith),
      )
      refl
remove_item-append compare xs (e ∷ es) ys any above equal below =
    rw
      (
        search_range_lem (is_range compare any xs (e ∷ es) ys above equal below),
        lt→ltb (length xs) (length xs + suc (length es)) (omega arith),
        take-left xs (e ∷ (es ++ ys)),
        le→ltb (length xs + 0) 0 (omega arith),
        le→ltb (length xs + suc (length es) - 1 + 0) 0 (omega arith),
        drop-twice xs (e ∷ es) ys (length xs + suc (length es) - 1 + 1) (omega arith),
      )
      refl

abbrev pub starts_at_zero {ℓ} : {A : Type ℓ} → (A → ℤ) → List A → Bool
starts_at_zero compare [] = false
starts_at_zero compare (y ∷ ys) = is_zero (compare y)

-- `SearchElementOrSmaller`, for a slice in which the elements below the target come first, returns
-- the index of the first other element if that one equals the target, and otherwise the index of
-- the last element below it, which is -1 if there is none.
pub search_element_lem {ℓ κ} :
    {A : Type ℓ} {T : Type κ} (compare : T → A → ℤ) (target : T) (xs ys : List A) (any : A)
    → All (λ x. not (ltb_ℤ (pos 0) (compare target x)) ≡ false) xs
    → All (λ y. not (ltb_ℤ (pos 0) (compare target y)) ≡ true) ys
    → search_element_or_smaller (xs ++ ys) target compare any
      ≡ (if starts_at_zero (compare target) ys then pos (length xs) else sub_ℕ (length xs) 1)
unfolding search_element_or_smaller
search_element_lem compare target xs [] any above below =
    rw
      (
        search_index-append (λ a. not (ltb_ℤ (pos 0) (compare target a))) xs [] any above below,
        le→leb (length (xs ++ [])) (length xs) (omega (arith, length-append xs [])),
        append-nil xs,
      )
      refl
search_element_lem compare target xs (y ∷ ys) any above below =
    rw
      (
        search_index-append (λ a. not (ltb_ℤ (pos 0) (compare target a))) xs (y ∷ ys) any above
            below,
        lt→leb (length (xs ++ (y ∷ ys))) (length xs) (omega (arith, length-append xs (y ∷ ys))),
        get_or-head xs ys y any,
      )
      refl
