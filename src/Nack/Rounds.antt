-- ===== src/Nack/Rounds.antt =====
-- `Pairs`: what becomes of the queue, when a keyframe is asked for, and which pairs go out.
use mathlib.Core.List.{append_assoc, append-nil}
use sample_nodejs_server.Prelude.{
  ℕ, suc, ◌+◌, ◌%◌, ◌≤◌, ◌<◌, ◌≡◌, refl, sym, ap, ◌∙◌, ◌||◌, List, [], ◌∷◌, ◌++◌, arith, ltb, leb,
  if◌then◌else◌, length, max, sub32, ne→==, lt→leb,
}
use sample_nodejs_server.Nack.{Nack, NackQueue, Round, ask, visit, visit_all, start, finish, pairs}
use sample_nodejs_server.Nack.Queue.{From, From-mono, Sorted}

-- One entry after a call with the given head: given up, left alone because it is too recent, or
-- counted once more.
abbrev pub next_entry : ℕ → Nack → List Nack
next_entry head_sn n =
    if leb 5 n.nacked
    then []
    else if leb (sub32 head_sn 2) n.sn
    then n ∷ []
    else record n { nacked = n.nacked + 1 } ∷ []

unfoldable pub next_entries : ℕ → List Nack → List Nack
next_entries head_sn [] = []
next_entries head_sn (n ∷ l) = next_entry head_sn n ++ next_entries head_sn l

-- The greatest number that was given up, and whether it is a new one.
unfoldable pub given_up : ℕ → List Nack → ℕ
given_up kf [] = kf
given_up kf (n ∷ l) = given_up (if leb 5 n.nacked then max kf n.sn else kf) l

visit-kept :
    (head_sn : ℕ) (r : Round) (n : Nack) → (visit head_sn r n).kept ≡ r.kept ++ next_entry head_sn n
unfolding visit
visit-kept head_sn r n = ground (arith, append-nil r.kept)

visit-kf :
    (head_sn : ℕ) (r : Round) (n : Nack)
    → ((visit head_sn r n).kf_sn ≡ (if leb 5 n.nacked then max r.kf_sn n.sn else r.kf_sn))
      × ((visit head_sn r n).ask_kf ≡ (r.ask_kf || ltb r.kf_sn (visit head_sn r n).kf_sn))
unfolding visit
visit-kf head_sn r n = ground arith

visit_all-kept :
    (head_sn : ℕ) (r : Round) (l : List Nack)
    → (visit_all head_sn r l).kept ≡ r.kept ++ next_entries head_sn l
unfolding visit_all next_entries
visit_all-kept head_sn r [] = sym (append-nil r.kept)
visit_all-kept head_sn r (n ∷ l) =
    visit_all-kept head_sn (visit head_sn r n) l
    ∙ ap (λ k. k ++ next_entries head_sn l) (visit-kept head_sn r n)
    ∙ append_assoc r.kept (next_entry head_sn n) (next_entries head_sn l)

pub given_up-le : (kf : ℕ) (l : List Nack) → kf ≤ given_up kf l
unfolding given_up
given_up-le kf [] = omega arith
given_up-le kf (n ∷ l) = ground (arith, given_up-le (max kf n.sn) l, given_up-le kf l)

visit_all-kf :
    (head_sn : ℕ) (r : Round) (l : List Nack)
    → ((visit_all head_sn r l).kf_sn ≡ given_up r.kf_sn l)
      × ((visit_all head_sn r l).ask_kf ≡ (r.ask_kf || ltb r.kf_sn (given_up r.kf_sn l)))
unfolding visit_all given_up
visit_all-kf head_sn r [] = ground arith
visit_all-kf head_sn r (n ∷ l) = ground (
  arith,
  visit_all-kf head_sn (visit head_sn r n) l,
  visit-kf head_sn r n,
  given_up-le (visit head_sn r n).kf_sn l,
)

-- On an empty queue the loop would give what the early return gives.
pairs_of_list :
    (l : List Nack) (kf head_sn : ℕ)
    → let n : NackQueue = record { nacks = l; kf_sn = kf } in
      pairs n head_sn ≡ finish (visit_all head_sn (start n) l)
unfolding pairs visit_all
pairs_of_list [] kf head_sn = refl
pairs_of_list (a ∷ l) kf head_sn = rw (ne→== (suc (length l)) 0 (omega arith))

pairs_lem :
    (n : NackQueue) (head_sn : ℕ) → pairs n head_sn ≡ finish (visit_all head_sn (start n) n.nacks)
pairs_lem n head_sn = pairs_of_list n.nacks n.kf_sn head_sn

-- The queue after `Pairs`: entries that have been requested five times are gone, those within two
-- of the head are untouched, and the others are counted once more; their order stays.
pub pairs-nacks :
    (n : NackQueue) (head_sn : ℕ) → (pairs n head_sn).0.nacks ≡ next_entries head_sn n.nacks
pairs-nacks n head_sn = rw (pairs_lem n head_sn) (visit_all-kept head_sn (start n) n.nacks)

-- `Pairs` asks for a keyframe exactly when it gives up a number above every one given up before,
-- and remembers the greatest number given up.
pub pairs_keyframe :
    (n : NackQueue) (head_sn : ℕ)
    → ((pairs n head_sn).0.kf_sn ≡ given_up n.kf_sn n.nacks)
      × ((pairs n head_sn).2 ≡ ltb n.kf_sn (given_up n.kf_sn n.nacks))
pairs_keyframe n head_sn = rw (pairs_lem n head_sn) (visit_all-kf head_sn (start n) n.nacks)

-- No entry has been requested more than five times.
abbrev pub AtMostFive : List Nack → Type 0
AtMostFive [] = Unit
AtMostFive (n ∷ l) = (n.nacked ≤ 5) × AtMostFive l

pub next_entries-AtMostFive :
    (head_sn : ℕ) (l : List Nack) → AtMostFive l → AtMostFive (next_entries head_sn l)
unfolding next_entries
next_entries-AtMostFive head_sn [] h = tt
next_entries-AtMostFive head_sn (n ∷ l) h = ground (arith, next_entries-AtMostFive head_sn l h.1)

next_entries-From : (b head_sn : ℕ) (l : List Nack) → From b l → From b (next_entries head_sn l)
unfolding next_entries
next_entries-From b head_sn [] h = tt
next_entries-From b head_sn (n ∷ l) h = ground (
  arith,
  next_entries-From n.sn head_sn l h.1,
  From-mono {a = b} {b = n.sn} (next_entries head_sn l),
)

pub pairs-From : (n : NackQueue) (head_sn : ℕ) → Sorted n.nacks → Sorted (pairs n head_sn).0.nacks
pairs-From n head_sn s = rw (pairs-nacks n head_sn) (next_entries-From 0 head_sn n.nacks s)

-- `Pairs` keeps a sorted queue sorted, and keeps the bound of five on how often each entry has been
-- requested.
pub pairs-Sorted :
    (n : NackQueue) (head_sn : ℕ)
    → Sorted n.nacks
    → AtMostFive n.nacks
    → Sorted (pairs n head_sn).0.nacks × AtMostFive (pairs n head_sn).0.nacks
pairs-Sorted n head_sn s h =
    rw (pairs-nacks n head_sn)
      (next_entries-From 0 head_sn n.nacks s, next_entries-AtMostFive head_sn n.nacks h)

-- A lone entry older than two behind the head and requested less than five times, whose low sixteen
-- bits are zero, is counted as requested once more, but `Pairs` returns no request for it.
pub pairs_zero :
    (n : NackQueue) (e : Nack) (head_sn : ℕ)
    → n.nacks ≡ e ∷ []
    → e.sn % 65536 ≡ 0
    → e.nacked < 5
    → e.sn < sub32 head_sn 2
    → ((pairs n head_sn).1 ≡ [])
      × ((pairs n head_sn).0.nacks ≡ record e { nacked = e.nacked + 1 } ∷ [])
unfolding visit_all visit ask
pairs_zero n e head_sn one zero fresh old =
    rw (pairs_lem n head_sn, one)
      (
        rw (lt→leb 5 e.nacked fresh, lt→leb (sub32 head_sn 2) e.sn old, zero),
        rw (lt→leb 5 e.nacked fresh, lt→leb (sub32 head_sn 2) e.sn old),
      )
