-- ===== src/Subscriber/Reports.antt =====
-- The chunks and sender reports in what is sent.
use mathlib.Core.List.{append-nil}
use sample_nodejs_server.Prelude.{
  ℕ, zero, suc, ◌+◌, ◌-◌, ◌*◌, ◌≤◌, ◌<◌, ◌≡◌, ◌⊎◌, inl, inr, refl, sym, ap, ◌∙◌, Bool, true, List,
  [], ◌∷◌, ◌++◌, arith, length, take, drop, lt→ltb, le→ltb,
}
use sample_nodejs_server.SortedSlice.Slices.{All}
use sample_nodejs_server.Subscriber.{Compound, round_end, report_loop, down_tracks_reports}

abbrev pub all_chunks : List Compound → List ℕ
all_chunks [] = []
all_chunks (c ∷ cs) = c.chunks ++ all_chunks cs

abbrev pub all_sender_reports : List Compound → List ℕ
all_sender_reports [] = []
all_sender_reports (c ∷ cs) = c.sender_reports ++ all_sender_reports cs

take-drop : (n : ℕ) (l : List ℕ) → take n l ++ drop n l ≡ l
take-drop zero l = refl
take-drop (suc n) [] = refl
take-drop (suc n) (x ∷ l) = ap (λ k. x ∷ k) (take-drop n l)

drop-nil : (n : ℕ) → drop {A = ℕ} n [] ≡ []
drop-nil zero = refl
drop-nil (suc n) = refl

drop-drop : (m n : ℕ) (l : List ℕ) → drop n (drop m l) ≡ drop (m + n) l
drop-drop zero n l = let e : 0 + n ≡ n = omega arith in rw e refl
drop-drop (suc m) n [] = let e : suc m + n ≡ suc (m + n) = omega arith in rw e (drop-nil n)
drop-drop (suc m) n (x ∷ l) =
    let e : suc m + n ≡ suc (m + n) = omega arith in rw e (drop-drop m n l)

drop-all : (n : ℕ) (l : List ℕ) → length l ≤ n → drop n l ≡ []
drop-all zero [] h = refl
drop-all zero (x ∷ l) h = absurd (omega (arith, h))
drop-all (suc n) [] h = refl
drop-all (suc n) (x ∷ l) h = drop-all n l (omega (arith, h))

length-take : (n : ℕ) (l : List ℕ) → length (take n l) ≤ n
length-take zero l = omega arith
length-take (suc n) [] = omega arith
length-take (suc n) (x ∷ l) = omega (arith, length-take n l)

-- Where a round ends.
round_end_lem :
    (len j : ℕ)
    → j * 15 < len
    → (j * 15 < round_end len j)
      × ((round_end len j ≤ j * 15 + 15)
          × ((round_end len j ≡ len) ⊎ ((round_end len j ≡ (j + 1) * 15) × ((j + 1) * 15 < len))))
round_end_lem len j h = ground arith

-- What the loop sends from a round on.
record IsRest (sd r : List ℕ) (start : ℕ) (out : List Compound) : Type 0 where
  chunks : all_chunks out ≡ drop start sd
  reports : all_sender_reports out ≡ r
  small : All (λ c. length c.chunks ≤ 15) out

ended :
    (fuel : ℕ) (is_open : ℕ → Bool) (sd r : List ℕ) (i j : ℕ)
    → i ≡ length sd
    → report_loop fuel is_open sd r i j ≡ []
unfolding report_loop
ended zero is_open sd r i j h = refl
ended (suc fuel) is_open sd r i j h = rw (le→ltb i (length sd) (omega (arith, h))) refl

at_end : (sd : List ℕ) (n : ℕ) → n ≡ length sd → IsRest sd [] n []
at_end sd n h = record {
  chunks = sym (drop-all n sd (omega (arith, h)));
  reports = refl;
  small = tt;
}

-- A round, with the ones after it.
first_round :
    (sd r : List ℕ) (j next : ℕ) (rest : List Compound)
    → j * 15 < next
    → next ≤ j * 15 + 15
    → IsRest sd [] next rest
    → IsRest sd r
        (j * 15)
        (record { sender_reports = r; chunks = take (next - j * 15) (drop (j * 15) sd) } ∷ rest)
first_round sd r j next rest low high s =
    let n = next - j * 15 in
    let sum : j * 15 + n ≡ next = omega (arith, low) in
    record {
      chunks =
          ap (λ l. take n (drop (j * 15) sd) ++ l)
            (s.chunks ∙ (ap (λ k. drop k sd) (sym sum) ∙ sym (drop-drop (j * 15) n sd)))
          ∙ take-drop n (drop (j * 15) sd);
      reports = ap (λ l. r ++ l) s.reports ∙ append-nil r;
      small = (omega (arith, length-take n (drop (j * 15) sd), high), s.small);
    }

report_loop-IsRest :
    (fuel : ℕ) (is_open : ℕ → Bool) (sd r : List ℕ) (j : ℕ)
    → ((k : ℕ) → is_open k ≡ true)
    → j * 15 < length sd
    → length sd ≤ fuel + j * 15
    → IsRest sd r (j * 15) (report_loop fuel is_open sd r (j * 15) j)
unfolding report_loop
report_loop-IsRest zero is_open sd r j o more enough = absurd (omega (arith, more, enough))
report_loop-IsRest (suc fuel) is_open sd r j o more enough =
    let next = round_end (length sd) j in
    let (low, (high, how)) = round_end_lem (length sd) j more in
    let rest = report_loop fuel is_open sd [] next (j + 1) in
    let later : IsRest sd [] next rest = elim how [
      | inl whole ↦ rw (ended fuel is_open sd [] next (j + 1) whole) (at_end sd next whole)
      | inr (full, left) ↦
          rw full (report_loop-IsRest fuel is_open sd [] (j + 1) o left (omega (arith, enough)))
    ] in
    rw (lt→ltb (j * 15) (length sd) more, o j) (first_round sd r j next rest low high later)

-- While the connection is open, the reports to send with at least one chunk are sent as: every
-- chunk once, in order and at most 15 at once, and every sender report once.
pub down_tracks_reports-chunks :
    (is_open : ℕ → Bool) (r sd : List ℕ)
    → ((k : ℕ) → is_open k ≡ true)
    → 0 < length sd
    → let out = down_tracks_reports is_open r sd in
      (all_chunks out ≡ sd) × ((all_sender_reports out ≡ r) × All (λ c. length c.chunks ≤ 15) out)
unfolding down_tracks_reports
down_tracks_reports-chunks is_open r sd o some_chunk =
    let s =
      report_loop-IsRest (length sd) is_open sd r 0 o (omega (arith, some_chunk)) (omega arith) in
    (s.chunks, (s.reports, s.small))
