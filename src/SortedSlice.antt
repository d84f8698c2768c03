-- ===== src/SortedSlice.antt =====
-- controller/pkg/util/util.go: searching, inserting into and removing from a sorted slice. The
-- comparison is a function of the index, as it is in the source.
pub mod Range
pub mod Slices
mod Tests
use sample_nodejs_server.Prelude.{
  ℕ, zero, suc, ◌+◌, ◌-◌, ◌/◌, Bool, true, false, not, ◌||◌, List, [], ◌∷◌, ◌++◌, ltb, leb,
  if◌then◌else◌, length, get_or, take, drop,
}
use sample_nodejs_server.Prelude.Int.{ℤ, pos, negsuc, pos_part, sub_ℕ, ltb_ℤ}
use sample_nodejs_server.Prelude.Search.{search_loop, search_index}

-- `compare(i) <= 0`, which is `!(compare(i) > 0)`.
abbrev pub not_above : (ℕ → ℤ) → ℕ → Bool
not_above compare i = not (ltb_ℤ (pos 0) (compare i))

abbrev pub is_zero : ℤ → Bool
is_zero c = not (ltb_ℤ (pos 0) c || ltb_ℤ c (pos 0))

-- The second loop of `SearchRange`, with `mid := (start+end)/2 + 1`.
unfoldable pub upper_loop : ℕ → (ℕ → ℤ) → ℕ → ℕ → ℕ
upper_loop zero compare start end = end
upper_loop (suc fuel) compare start end = elim (ltb start end) [
  | true ↦ elim (ltb_ℤ (compare ((start + end) / 2 + 1)) (pos 0)) [
    | true ↦ upper_loop fuel compare start ((start + end) / 2)
    | false ↦ upper_loop fuel compare ((start + end) / 2 + 1) end
  ]
  | false ↦ end
]

-- The first loop is that of `sort.Search`, between 0 and the last index. Every round of either loop
-- takes off an index, so `n` rounds are enough.
unfoldable pub lower_bound : ℕ → (ℕ → ℤ) → ℕ
unfolding search_loop
lower_bound n compare = search_loop n (not_above compare) 0 (n - 1)

unfoldable pub search_range : ℕ → (ℕ → ℤ) → ℤ × ℤ
unfolding lower_bound upper_loop
search_range n compare =
    let start = lower_bound n compare in
    let found : ℤ × ℤ = (pos start, pos (upper_loop n compare start (n - 1))) in
    if leb n 0
    then (negsuc 0, negsuc 0)
    else if is_zero (compare start)
    then found
    else (negsuc 0, negsuc 0)

unfoldable pub remove_item_in_sorted_slice {ℓ} : {A : Type ℓ} → List A → (ℕ → ℤ) → List A
unfolding search_range
remove_item_in_sorted_slice arr compare =
    let (start, end) = search_range (length arr) compare in
    if ltb_ℤ start (pos 0) || ltb_ℤ end (pos 0)
    then arr
    else take (pos_part start) arr ++ drop (pos_part end + 1) arr

-- `append`, then `copy` of the part from `i` one place up, then the write at `i`.
unfoldable pub insert_sorted {ℓ} : {A : Type ℓ} → List A → A → (ℕ → Bool) → List A
unfolding search_index
insert_sorted arr value compare =
    let i = search_index (length arr) compare in take i arr ++ (value ∷ drop i arr)

-- `strings.Compare(a, b) < 0`, the order of strings as sequences of bytes.
unfoldable pub is_less : List ℕ → List ℕ → Bool
is_less [] [] = false
is_less [] (y ∷ b) = true
is_less (x ∷ a) [] = false
is_less (x ∷ a) (y ∷ b) =
    let rest = is_less a b in if ltb x y then true else if ltb y x then false else rest

unfoldable pub insert_sorted_string : List (List ℕ) → List ℕ → List (List ℕ)
unfolding insert_sorted is_less
insert_sorted_string arr s = insert_sorted arr s (λ i. is_less s (get_or arr i []))

-- The index of the element, or of the one before the place where it would stand.
unfoldable pub search_element_or_smaller {ℓ κ} :
    {ArrayType : Type ℓ} {TargetType : Type κ}
    → List ArrayType
    → TargetType
    → (TargetType → ArrayType → ℤ)
    → ArrayType
    → ℤ
unfolding search_index
search_element_or_smaller arr target compare any =
    let at : ℕ → ℤ = λ i. compare target (get_or arr i any) in
    let i = search_index (length arr) (not_above at) in
    if leb (length arr) i then sub_ℕ (length arr) 1 else if is_zero (at i) then pos i else sub_ℕ i 1
