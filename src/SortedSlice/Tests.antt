-- ===== src/SortedSlice/Tests.antt =====
-- Runs on small slices, and each theorem at an input that meets its hypotheses.
use sample_nodejs_server.Prelude.{
  ℕ, zero, suc, ◌≤◌, ◌<◌, ◌≡◌, refl, true, List, [], ◌∷◌, arith, get_or,
}
use sample_nodejs_server.Prelude.Int.{ℤ, pos, sub_ℕ, ltb_ℤ}
use sample_nodejs_server.SortedSlice.{
  search_range, remove_item_in_sorted_slice, search_element_or_smaller,
}
use sample_nodejs_server.SortedSlice.Range.{IsRange}
use sample_nodejs_server.SortedSlice.Slices.{remove_item-append}

abbrev value_minus : ℕ → ℕ → ℤ
value_minus value a = sub_ℕ value a

-- 1, 4, 4, 4, 9.
abbrev numbers : List ℕ
numbers = 1 ∷ 4 ∷ 4 ∷ 4 ∷ 9 ∷ []

abbrev against_four : ℕ → ℤ
against_four i = value_minus 4 (get_or numbers i 0)

fours : search_range 5 against_four ≡ (pos 1, pos 3)
unfolding search_range
fours = refl

nearest : search_element_or_smaller numbers 8 value_minus 0 ≡ pos 3
unfolding search_element_or_smaller
nearest = refl

fours-IsRange : IsRange 5 against_four 1 4
fours-IsRange = record {
  ordered = omega arith;
  inside = omega arith;
  positive = λ k h. low k h;
  equal = λ k g h. mid k g h;
  negative = λ k g h. high k g h;
}
  where
    low : (k : ℕ) → k < 1 → ltb_ℤ (pos 0) (against_four k) ≡ true
    low zero h = refl
    low (suc k) h = absurd (omega arith)

    mid : (k : ℕ) → 1 ≤ k → k < 4 → against_four k ≡ pos 0
    mid zero g h = absurd (omega arith)
    mid (suc zero) g h = refl
    mid (suc (suc zero)) g h = refl
    mid (suc (suc (suc zero))) g h = refl
    mid (suc (suc (suc (suc k)))) g h = absurd (omega arith)

    high : (k : ℕ) → 4 ≤ k → k < 5 → ltb_ℤ (against_four k) (pos 0) ≡ true
    high k g h = let e : k ≡ 4 = omega arith in rw e refl

remove_item-append_example : remove_item_in_sorted_slice numbers against_four ≡ 1 ∷ 9 ∷ []
remove_item-append_example =
    remove_item-append (value_minus 4) (1 ∷ []) (4 ∷ 4 ∷ 4 ∷ []) (9 ∷ []) 0 (refl, tt)
      (refl, (refl, (refl, tt))) (refl, tt)

abbrev cam : ℕ → List ℕ
cam n = 99 ∷ 97 ∷ 109 ∷ n ∷ []
