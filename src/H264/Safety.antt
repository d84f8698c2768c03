-- ===== src/H264/Safety.antt =====
-- The parser returns on every payload: it reads no byte behind the end, and its loop ends.
use sample_nodejs_server.Prelude.{
  ℕ, zero, suc, ◌+◌, ◌*◌, ◌%◌, ◌≤◌, ◌<◌, ◌≡◌, ◌≢◌, refl, inl, inr, Bool, List, [], ◌∷◌, Option,
  none, some, arith, ltb, leb, ◌==◌, if◌then◌else◌, length, get_elem?, Bool-cases, ltb→le, leb→lt,
  if_elim,
}
use sample_nodejs_server.H264.{
  Turn, panic, done, next, unit_offset, unit_size, unit_turn, turn, aggregate_loop, fragment,
  by_type, is_h264_keyframe,
}

get_elem?-some : (l : List ℕ) (i : ℕ) → i < length l → (v : ℕ) × (get_elem? l i ≡ some v)
get_elem?-some [] i h = absurd (omega arith)
get_elem?-some (v ∷ l) zero h = (v, refl)
get_elem?-some (v ∷ l) (suc i) h = get_elem?-some l i (omega arith)

-- A turn that does not panic and, if it goes on, goes ahead within the payload.
data Proceeds (payload : List ℕ) (i : ℕ) : Turn → Type 0 where
  returns : {b : Bool} → Proceeds payload i (done b)
  goes_on : {j : ℕ} → i < j → j ≤ length payload → Proceeds payload i (next j)

unit_turn-Proceeds :
    (payload : List ℕ) (nalu i j size : ℕ)
    → i < j
    → Proceeds payload i (unit_turn payload nalu j size)
unfolding unit_turn
unit_turn-Proceeds payload nalu i j size h =
    if_elim (Proceeds payload i) (ltb (length payload) (j + size)) (λ _. returns)
      λ fits.
        if_elim (Proceeds payload i) (leb size (unit_offset nalu)) (λ _. returns)
          λ long.
            let inside = ltb→le (length payload) (j + size) fits in
            let more = leb→lt size (unit_offset nalu) long in
            let (v, at) =
              get_elem?-some payload (j + unit_offset nalu) (omega (arith, inside, more)) in
            rw at (
              if_elim (Proceeds payload i) (v % 32 == 7) (λ _. returns)
                (λ _. goes_on (omega arith) inside))

turn-Proceeds : (payload : List ℕ) (nalu i : ℕ) → Proceeds payload i (turn payload nalu i)
unfolding turn unit_size
turn-Proceeds payload nalu i =
    if_elim (Proceeds payload i) (ltb (length payload) (i + 2)) (λ _. returns)
      λ fits.
        let inside = ltb→le (length payload) (i + 2) fits in
        let (high, at) = get_elem?-some payload i (omega arith) in
        let (low, at') = get_elem?-some payload (i + 1) (omega arith) in
        rw (at, at') (unit_turn-Proceeds payload nalu i (i + 2) (high * 256 + low) (omega arith))

turn_returns :
    (payload : List ℕ) (i : ℕ) (rest : ℕ → Option Bool) (t : Turn)
    → Proceeds payload i t
    → ((j : ℕ) → i < j → j ≤ length payload → rest j ≢ none)
    → ¬ (◌≡◌ {A = Option Bool} (elim t [ panic ↦ none | done b ↦ some b | next j ↦ rest j ]) none)
turn_returns payload i rest panic x go = elim x [ ]
turn_returns payload i rest (done b) returns go = λ e. cc
turn_returns payload i rest (next j) (goes_on lt inside) go = go j lt inside

aggregate_returns :
    (fuel : ℕ) (payload : List ℕ) (nalu i : ℕ)
    → length payload < i + fuel
    → 0 < fuel
    → aggregate_loop fuel payload nalu i ≢ none
unfolding aggregate_loop
aggregate_returns zero payload nalu i enough some_fuel = absurd (omega arith)
aggregate_returns (suc fuel) payload nalu i enough some_fuel =
    elim (Bool-cases (ltb i (length payload))) [
      | inr stop ↦ rw (aggregate_loop, stop) (λ e. cc)
      | inl on ↦
          rw (aggregate_loop, on)
            (turn_returns payload i (aggregate_loop fuel payload nalu) (turn payload nalu i)
              (turn-Proceeds payload nalu i)
              (λ j lt inside. aggregate_returns fuel payload nalu j (omega arith) (omega arith)))
    ]

fragment_returns : (payload : List ℕ) → fragment payload ≢ none
unfolding fragment
fragment_returns payload =
    if_elim (λ r. r ≢ none) (ltb (length payload) 2) (λ _ e. cc)
      λ long.
        let (v, at) = get_elem?-some payload 1 (omega (arith, ltb→le (length payload) 2 long)) in
        rw at (λ e. cc)

-- `isH264Keyframe` returns an answer on every payload: it never indexes out of range, and its loop
-- over an aggregate ends.
pub keyframe_returns : (payload : List ℕ) → is_h264_keyframe payload ≢ none
unfolding is_h264_keyframe by_type
keyframe_returns payload =
    if_elim (λ r. r ≢ none) (ltb (length payload) 1) (λ _ e. cc)
      λ long.
        let some_byte = ltb→le (length payload) 1 long in
        let (v, at) = get_elem?-some payload 0 (omega (arith, some_byte)) in
        rw at (typed (v % 32) some_byte)
  where
    typed : (nalu : ℕ) → 1 ≤ length payload → by_type payload nalu ≢ none
    typed nalu some_byte =
        if_elim (λ r. r ≢ none) (nalu == 0) (λ _ e. cc)
          λ _.
            if_elim (λ r. r ≢ none) (leb nalu 23) (λ _ e. cc)
              λ _.
                if_elim (λ r. r ≢ none) (leb nalu 27)
                  (λ _.
                    aggregate_returns (length payload) payload nalu (if nalu == 24 then 1 else 3)
                      (ground arith) (omega arith))
                  λ _.
                    if_elim (λ r. r ≢ none) (leb nalu 29) (λ _. fragment_returns payload)
                      (λ _ e. cc)
