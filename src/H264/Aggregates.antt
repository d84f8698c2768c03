-- ===== src/H264/Aggregates.antt =====
-- What the parser answers for aggregates, laid out as RFC 6184 has them.
use sample_nodejs_server.Prelude.{
  ℕ, zero, suc, ◌+◌, ◌*◌, ◌/◌, ◌%◌, ◌≤◌, ◌<◌, ◌≡◌, refl, ap, ◌∙◌, inl, inr, Bool, true, false, ◌||◌,
  List, [], ◌∷◌, ◌++◌, some, arith, ◌==◌, if◌then◌else◌, length, length-drop, get_elem?, get_or,
  drop, Bool-cases, ne→==, le→leb, lt→ltb, le→ltb, lt→leb,
}
use sample_nodejs_server.H264.{
  Turn, done, next, unit_offset, unit_size, unit_turn, turn, aggregate_loop, by_type,
  is_h264_keyframe,
}

-- Each unit stands behind its size in two bytes.
abbrev pub unit_bytes : List (List ℕ) → List ℕ
unit_bytes [] = []
unit_bytes (u ∷ us) = (length u / 256) ∷ (length u % 256) ∷ (u ++ unit_bytes us)

-- Some unit holds a NAL unit of type 7, a sequence parameter set, behind the given offset.
abbrev pub any_key : ℕ → List (List ℕ) → Bool
any_key offset [] = false
any_key offset (u ∷ us) = get_or u offset 0 % 32 == 7 || any_key offset us

-- Every unit is longer than the offset, and its size fits into two bytes.
abbrev pub Fit : ℕ → List (List ℕ) → Type 0
Fit offset [] = Unit
Fit offset (u ∷ us) = (offset < length u) × (length u < 65536) × Fit offset us

drop-elem :
    (l rest : List ℕ) (v i : ℕ)
    → drop i l ≡ v ∷ rest
    → (i < length l) × (get_elem? l i ≡ some v) × (drop (suc i) l ≡ rest)
drop-elem [] rest v zero h = absurd (empty h)
  where
    empty : {a : ℕ} {r : List ℕ} → ¬ ([] ≡ a ∷ r)
    empty e = cc
drop-elem [] rest v (suc i) h = absurd (empty h)
  where
    empty : {a : ℕ} {r : List ℕ} → ¬ ([] ≡ a ∷ r)
    empty e = cc
drop-elem (x ∷ l) rest v zero h = (omega arith, cc, cc)
drop-elem (x ∷ l) rest v (suc i) h =
    let (lt, at, rest_at) = drop-elem l rest v i h in (omega arith, at, rest_at)

-- A unit that stands at `i` is read where it is, and the next one stands behind it.
drop-unit :
    (l u rest : List ℕ) (i : ℕ)
    → drop i l ≡ u ++ rest
    → i ≤ length l
    → (i + length u ≤ length l)
      × ((k : ℕ) → k < length u → get_elem? l (i + k) ≡ some (get_or u k 0))
      × (drop (i + length u) l ≡ rest)
drop-unit l [] rest i h inside =
    let z : i + 0 ≡ i = omega arith in (omega arith, λ k lt. absurd (omega arith), rw z h)
drop-unit l (v ∷ u) rest i h inside =
    let (lt, at, rest_at) = drop-elem l (u ++ rest) v i h in
    let (all, elems, last) = drop-unit l u rest (suc i) rest_at (omega arith) in
    let e : i + suc (length u) ≡ suc i + length u = omega arith in
    (omega arith, elem at elems, rw e last)
  where
    elem :
        get_elem? l i ≡ some v
        → ((k : ℕ) → k < length u → get_elem? l (suc i + k) ≡ some (get_or u k 0))
        → (k : ℕ) → k < suc (length u)
        → get_elem? l (i + k) ≡ some (get_or (v ∷ u) k 0)
    elem at elems zero lt = let z : i + 0 ≡ i = omega arith in rw z at
    elem at elems (suc k) lt =
        let e : i + suc k ≡ suc i + k = omega arith in rw e (elems k (omega arith))

abbrev verdict : List ℕ → ℕ → ℕ → Turn
verdict u offset j = if get_or u offset 0 % 32 == 7 then done true else next (j + length u)

unit_turn_lem :
    (l u rest : List ℕ) (nalu j : ℕ)
    → drop j l ≡ u ++ rest
    → j ≤ length l
    → unit_offset nalu < length u
    → (unit_turn l nalu j (length u) ≡ verdict u (unit_offset nalu) j)
      × (j + length u ≤ length l)
      × (drop (j + length u) l ≡ rest)
unfolding unit_turn
unit_turn_lem l u rest nalu j h inside long =
    let (all, elems, last) = drop-unit l u rest j h inside in
    (
      rw
          (
            le→ltb (length l) (j + length u) all,
            lt→leb (length u) (unit_offset nalu) long,
            elems (unit_offset nalu) long,
          )
          refl,
      all,
      last,
    )

turn_lem :
    (l u rest : List ℕ) (nalu i : ℕ)
    → drop i l ≡ (length u / 256) ∷ (length u % 256) ∷ (u ++ rest)
    → unit_offset nalu < length u
    → (turn l nalu i ≡ verdict u (unit_offset nalu) (i + 2))
      × (i < length l)
      × (i + 2 + length u ≤ length l)
      × (drop (i + 2 + length u) l ≡ rest)
unfolding turn unit_size unit_turn
turn_lem l u rest nalu i h long =
    let (lt, at, h₁) = drop-elem l ((length u % 256) ∷ (u ++ rest)) (length u / 256) i h in
    let (lt₁, at₁, h₂) = drop-elem l (u ++ rest) (length u % 256) (suc i) h₁ in
    let one : i + 1 ≡ suc i = omega arith in
    let two : suc (suc i) ≡ i + 2 = omega arith in
    let (unit, all, last) = unit_turn_lem l u rest nalu (i + 2) (rw two at h₂) (omega arith) long in
    let size : length u / 256 * 256 + length u % 256 ≡ length u = omega arith in
    (
      rw (le→ltb (length l) (i + 2) (omega arith), at, one, at₁)
          (ap (unit_turn l nalu (i + 2)) size ∙ unit),
      lt,
      all,
      last,
    )

drop_all : (l : List ℕ) (i : ℕ) → drop i l ≡ [] → length l ≤ i
drop_all l i h = omega (arith, length-drop i l, ap length h)

aggregate_lem :
    (fuel : ℕ) (l : List ℕ) (us : List (List ℕ)) (nalu i : ℕ)
    → drop i l ≡ unit_bytes us
    → Fit (unit_offset nalu) us
    → length l < i + fuel
    → 0 < fuel
    → aggregate_loop fuel l nalu i ≡ some (any_key (unit_offset nalu) us)
unfolding aggregate_loop
aggregate_lem zero l us nalu i h fit enough some_fuel = absurd (omega arith)
aggregate_lem (suc fuel) l [] nalu i h fit enough some_fuel =
    rw (aggregate_loop, le→ltb i (length l) (drop_all l i h)) refl
aggregate_lem (suc fuel) l (u ∷ us) nalu i h fit enough some_fuel =
    let (one, lt, all, last) = turn_lem l u (unit_bytes us) nalu i h fit.0 in
    let rest =
      aggregate_lem fuel l us nalu (i + 2 + length u) last fit.2 (omega arith) (omega arith) in
    rw (aggregate_loop, lt→ltb i (length l) lt, one)
      (elim (Bool-cases (get_or u (unit_offset nalu) 0 % 32 == 7)) [
        | inl key ↦ rw key refl
        | inr other ↦ rw (other, rest) refl
      ])

drop-don : (don bs : List ℕ) (n : ℕ) → length don ≡ n → drop n (don ++ bs) ≡ bs
drop-don [] bs zero h = refl
drop-don [] bs (suc n) h = absurd (omega arith)
drop-don (x ∷ don) bs zero h = absurd (omega arith)
drop-don (x ∷ don) bs (suc n) h = drop-don don bs n (omega arith)

-- `isH264Keyframe` of an aggregation packet of any of the four types (STAP-A, STAP-B, MTAP16,
-- MTAP24), laid out with the two further bytes that all but the first have, and with units that
-- are longer than the type's offset and shorter than 65536 bytes, answers whether one of the units
-- holds a sequence parameter set behind the offset.
pub keyframe-aggregate :
    (v : ℕ) (don : List ℕ) (us : List (List ℕ))
    → 24 ≤ v % 32
    → v % 32 ≤ 27
    → length don ≡ (if v % 32 == 24 then 0 else 2)
    → Fit (unit_offset (v % 32)) us
    → is_h264_keyframe (v ∷ (don ++ unit_bytes us)) ≡ some (any_key (unit_offset (v % 32)) us)
unfolding is_h264_keyframe by_type
keyframe-aggregate v don us low high don_length fit =
    let l = v ∷ (don ++ unit_bytes us) in
    rw
      (
        le→ltb (length l) 1 (omega arith),
        ne→== (v % 32) 0 (omega arith),
        lt→leb (v % 32) 23 (omega arith),
        le→leb (v % 32) 27 high,
      )
      (elim (Bool-cases (v % 32 == 24)) [
        | inl plain ↦
            let none_more : length don ≡ 0 = rw plain at don_length in
            rw plain (
              aggregate_lem (length l) l us (v % 32) 1 (drop-don don (unit_bytes us) 0 none_more)
                fit (omega arith) (omega arith))
        | inr numbered ↦
            let two_more : length don ≡ 2 = rw numbered at don_length in
            rw numbered (
              aggregate_lem (length l) l us (v % 32) 3 (drop-don don (unit_bytes us) 2 two_more) fit
                (omega arith) (omega arith))
      ])
