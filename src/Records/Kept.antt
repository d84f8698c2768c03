-- ===== src/Records/Kept.antt =====
-- The files in the metadata of a session after many pushes.
use mathlib.Core.List.{append_assoc, append-nil}
use sample_nodejs_server.Prelude.{
  ℕ, suc, ◌-◌, ◌≤◌, ◌<◌, ◌≡◌, refl, sym, ap, ◌∙◌, false, List, [], ◌∷◌, ◌++◌, Option, none, some,
  arith, ltb, ◌==◌, length, drop, length-append, le→ltb, if_elim, ==→eq, ==→ne,
}
use sample_nodejs_server.SortedSlice.Slices.{All, insert_sorted-append}
use sample_nodejs_server.Records.{RecordMetadata, no_record, insert_record, push_into, push_record}
use sample_nodejs_server.Records.Latest.{InOrder}

abbrev pub time : RecordMetadata → ℕ
time r = r.timestamp

-- One push after the other; none is a panic.
abbrev pub push_all :
    ℕ → Option (List RecordMetadata) → List RecordMetadata → Option (List RecordMetadata)
push_all max_record_files o [] = o
push_all max_record_files none (r ∷ rs) = none
push_all max_record_files (some records) (r ∷ rs) =
    push_all max_record_files (push_record max_record_files records r) rs

-- The last n.
abbrev pub newest {ℓ} : {A : Type ℓ} → ℕ → List A → List A
newest n l = drop (length l - n) l

older :
    (xs ys : List RecordMetadata) (r : RecordMetadata)
    → InOrder time (xs ++ (r ∷ ys))
    → All (λ x. ltb (time r) (time x) ≡ false) xs
older [] ys r o = tt
older (x ∷ xs) ys r o = (le→ltb (time r) (time x) (later xs o.0), older xs ys r o.1)
  where
    later :
        (xs : List RecordMetadata) → All (λ y. time x ≤ time y) (xs ++ (r ∷ ys)) → time x ≤ time r
    later [] a = a.0
    later (z ∷ zs) a = later zs a.1

insert-newest :
    (xs ys : List RecordMetadata) (r : RecordMetadata)
    → InOrder time (xs ++ (r ∷ ys))
    → insert_record xs r ≡ xs ++ (r ∷ [])
insert-newest xs ys r o =
    let e : xs ++ [] ≡ xs = append-nil xs in
    ap (λ (l : List RecordMetadata). insert_record l r) (sym e)
    ∙ insert_sorted-append (λ x. ltb (time r) (time x)) xs [] r no_record (older xs ys r o) tt

newest-short : (n : ℕ) (l : List RecordMetadata) → length l ≤ n → newest n l ≡ l
newest-short n l h = let e : length l - n ≡ 0 = omega arith in rw e refl

newest-long :
    (n : ℕ) (x : RecordMetadata) (l : List RecordMetadata)
    → n ≤ length l
    → newest n (x ∷ l) ≡ newest n l
newest-long n x l h = let e : suc (length l) - n ≡ suc (length l - n) = omega arith in rw e refl

-- A push at the end, with what the later ones give.
pushed :
    (m : ℕ) (l rs : List RecordMetadata) (r : RecordMetadata)
    → InOrder time (l ++ (r ∷ rs))
    → push_all m (some (l ++ (r ∷ []))) rs ≡ some (newest m ((l ++ (r ∷ [])) ++ rs))
    → push_all m (some (insert_record l r)) rs ≡ some (newest m (l ++ (r ∷ rs)))
pushed m l rs r o rest =
    ap (λ (k : List RecordMetadata). push_all m (some k) rs) (insert-newest l rs r o)
    ∙ (rest ∙ ap (λ (k : List RecordMetadata). some (newest m k)) (append_assoc l (r ∷ []) rs))

regroup :
    (l rs : List RecordMetadata) (r : RecordMetadata)
    → InOrder time (l ++ (r ∷ rs))
    → InOrder time ((l ++ (r ∷ [])) ++ rs)
regroup l rs r o = rw (append_assoc l (r ∷ []) rs) o

-- Files are pushed in the order of time on a list that is in order, older and not longer than the
-- most that is kept, which is not 0. There is no panic, and the newest files of all are kept.
pub push_all-newest :
    (max_record_files : ℕ) (records new : List RecordMetadata)
    → 0 < max_record_files
    → length records ≤ max_record_files
    → InOrder time (records ++ new)
    → push_all max_record_files (some records) new ≡ some (newest max_record_files (records ++ new))
unfolding push_record
push_all-newest m records [] some_kept short o =
    ap some (sym (ap (newest m) (append-nil records) ∙ newest-short m records short))
push_all-newest m [] (r ∷ rs) some_kept short o =
    if_elim
      (λ (p : Option (List RecordMetadata)).
        push_all m (push_into p r) rs ≡ some (newest m (r ∷ rs)))
      (0 == m) (λ full. absurd (omega (arith, ==→eq 0 m full, some_kept)))
      (λ room.
        pushed m [] rs r o (push_all-newest m (r ∷ []) rs some_kept (omega (arith, some_kept)) o))
push_all-newest m (x ∷ l) (r ∷ rs) some_kept short o =
    if_elim
      (λ (p : Option (List RecordMetadata)).
        push_all m (push_into p r) rs ≡ some (newest m ((x ∷ l) ++ (r ∷ rs))))
      (length (x ∷ l) == m)
      (λ full.
        pushed m l rs r o.1 (
          push_all-newest m (l ++ (r ∷ [])) rs some_kept
            (omega (arith, length-append l (r ∷ []), short)) (regroup l rs r o.1))
        ∙ ap some (
            sym (
              newest-long m x (l ++ (r ∷ rs))
                (omega (arith, ==→eq (length (x ∷ l)) m full, length-append l (r ∷ rs))))))
      (λ room. pushed m (x ∷ l) rs r o (
        push_all-newest m ((x ∷ l) ++ (r ∷ [])) rs some_kept
          (omega (arith, length-append (x ∷ l) (r ∷ []), short, ==→ne (length (x ∷ l)) m room))
          (regroup (x ∷ l) rs r o)))
