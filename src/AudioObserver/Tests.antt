-- ===== src/AudioObserver/Tests.antt =====
-- The theorem at a concrete session, with insertion sort as the sort.
use sample_nodejs_server.Prelude.{
  ℕ, ◌+◌, ◌≡◌, refl, Bool, true, false, not, ◌&&◌, List, [], ◌∷◌, none, arith, if◌then◌else◌,
  if_elim,
}
use sample_nodejs_server.Prelude.Int.{pos}
use sample_nodejs_server.Prelude.Strings.{text}
use sample_nodejs_server.AudioObserver.{
  AudioStream, AudioObserver, new_audio_observer, add_stream, observe, is_louder, SortSlice, count,
  none_before, is_sorted, active_ids, report, calc,
}
use sample_nodejs_server.AudioObserver.Heard.{observe_all}

abbrev place : AudioStream → List AudioStream → List AudioStream
place s [] = s ∷ []
place s (t ∷ l) = let rest = place s l in if is_louder t s then t ∷ rest else s ∷ (t ∷ l)

abbrev ordered : List AudioStream → List AudioStream
ordered [] = []
ordered (s ∷ l) = place s (ordered l)

count-place :
    (p : AudioStream → Bool) (s : AudioStream) (l : List AudioStream)
    → count p (place s l) ≡ (if p s then 1 else 0) + count p l
count-place p s [] = refl
count-place p s (t ∷ l) =
    if_elim (λ k. count p k ≡ (if p s then 1 else 0) + count p (t ∷ l)) (is_louder t s)
      (λ _. omega (arith, count-place p s l)) (λ _. refl)

count-ordered : (p : AudioStream → Bool) (l : List AudioStream) → count p (ordered l) ≡ count p l
count-ordered p [] = refl
count-ordered p (s ∷ l) = omega (arith, count-place p s (ordered l), count-ordered p l)

parts : (a b : Bool) → (a && b) ≡ true → (a ≡ true) × (b ≡ true)
parts a b h = ground (arith, h)

both : (a b : Bool) → a ≡ true → b ≡ true → (a && b) ≡ true
both a b x y = ground (arith, x, y)

negated : (a : Bool) → a ≡ false → not a ≡ true
negated a h = ground (arith, h)

none_before-place :
    (s t : AudioStream) (l : List AudioStream)
    → is_louder s t ≡ false
    → none_before is_louder t l ≡ true
    → none_before is_louder t (place s l) ≡ true
none_before-place s t [] h k = both (not (is_louder s t)) true (negated (is_louder s t) h) refl
none_before-place s t (u ∷ l) h k =
    let (x, y) = parts (not (is_louder u t)) (none_before is_louder t l) k in
    if_elim (λ q. none_before is_louder t q ≡ true) (is_louder u s)
      (λ _.
        both (not (is_louder u t)) (none_before is_louder t (place s l)) x
          (none_before-place s t l h y))
      (λ _.
        both (not (is_louder s t)) (none_before is_louder t (u ∷ l)) (negated (is_louder s t) h) k)

asymmetric : (s t : AudioStream) → is_louder t s ≡ true → is_louder s t ≡ false
asymmetric s t h = ground arith

behind_both :
    (s t u : AudioStream)
    → is_louder t s ≡ false
    → not (is_louder u t) ≡ true
    → not (is_louder u s) ≡ true
behind_both s t u h k = ground arith

none_before-behind :
    (s t : AudioStream) (l : List AudioStream)
    → is_louder t s ≡ false
    → none_before is_louder t l ≡ true
    → none_before is_louder s l ≡ true
none_before-behind s t [] h k = refl
none_before-behind s t (u ∷ l) h k =
    let (x, y) = parts (not (is_louder u t)) (none_before is_louder t l) k in
    both (not (is_louder u s)) (none_before is_louder s l) (behind_both s t u h x)
      (none_before-behind s t l h y)

is_sorted-place :
    (s : AudioStream) (l : List AudioStream)
    → is_sorted is_louder l ≡ true
    → is_sorted is_louder (place s l) ≡ true
is_sorted-place s [] h = refl
is_sorted-place s (t ∷ l) h =
    let (x, y) = parts (none_before is_louder t l) (is_sorted is_louder l) h in
    if_elim (λ q. is_sorted is_louder q ≡ true) (is_louder t s)
      (λ before.
        both (none_before is_louder t (place s l)) (is_sorted is_louder (place s l))
          (none_before-place s t l (asymmetric s t before) x) (is_sorted-place s l y))
      (λ behind.
        both (none_before is_louder s (t ∷ l)) (is_sorted is_louder (t ∷ l))
          (both (not (is_louder t s)) (none_before is_louder s l) (negated (is_louder t s) behind)
            (none_before-behind s t l behind x))
          h)

is_sorted-ordered : (l : List AudioStream) → is_sorted is_louder (ordered l) ≡ true
is_sorted-ordered [] = refl
is_sorted-ordered (s ∷ l) = is_sorted-place s (ordered l) (is_sorted-ordered l)

abbrev insertion : SortSlice
insertion = record { sort = ordered; same_streams = count-ordered; sorted = is_sorted-ordered }

-- Every 100 ms, of which half is expected: 2 levels of 20 ms each, rounded down.
abbrev session : AudioObserver
session = add_stream (add_stream (new_audio_observer 40 (pos 100) (pos 50)) (text "a")) (text "b")

abbrev levels : List (List ℕ × ℕ)
levels =
    (text "b", 30) ∷ ((text "a", 10) ∷ ((text "b", 20) ∷ ((text "a", 50) ∷ ((text "b", 127) ∷ []))))

-- The second report is the same, and is nil.
same_again :
    (calc insertion (observe_all (calc insertion (observe_all session levels)).0 levels)).1 ≡ none
unfolding new_audio_observer add_stream observe calc active_ids report
same_again = refl
