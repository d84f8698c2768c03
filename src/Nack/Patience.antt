-- ===== src/Nack/Patience.antt =====
-- What becomes of a number that never arrives.
use sample_nodejs_server.Prelude.{
  ℕ, suc, ◌+◌, ◌≤◌, ◌<◌, ◌≡◌, refl, sym, ◌∙◌, Bool, true, false, ◌||◌, List, [], ◌∷◌, arith, ltb,
  leb, if◌then◌else◌, length, max, sub32, Bool-cases, ltb→lt, ltb→le, inl, inr, ◌⊎◌,
}
use sample_nodejs_server.Nack.{Nack, NackQueue, pairs}
use sample_nodejs_server.Nack.Copies.{copies}
use sample_nodejs_server.Nack.Rounds.{
  next_entries, given_up, pairs-nacks, pairs_keyframe, AtMostFive, next_entries-AtMostFive,
  given_up-le,
}

-- `Pairs` once for each head; whether any of the calls asks for a key frame.
unfoldable pub pairs_all : NackQueue → List ℕ → NackQueue × Bool
unfolding pairs
pairs_all n [] = (n, false)
pairs_all n (head_sn ∷ heads) =
    let (n', _, ask) = pairs n head_sn in
    let (n'', asked) = pairs_all n' heads in (n'', ask || asked)

-- The number is older than two behind each head.
abbrev pub Old : ℕ → List ℕ → Type 0
Old x [] = Unit
Old x (head_sn ∷ heads) = (x < sub32 head_sn 2) × Old x heads

-- Each entry for the number has been requested `k` times or more.
abbrev AtLeast : ℕ → ℕ → List Nack → Type 0
AtLeast k x [] = Unit
AtLeast k x (n ∷ l) = (n.sn ≡ x → k ≤ n.nacked) × AtLeast k x l

none_left : (k x : ℕ) (l : List Nack) → 6 ≤ k → AtMostFive l → AtLeast k x l → copies x l ≡ 0
unfolding copies
none_left k x [] h five least = refl
none_left k x (n ∷ l) h five least =
    ground (arith, none_left k x l h five.1 least.1, five.0, least.0)

next_entries-AtLeast :
    (k x head_sn : ℕ) (l : List Nack)
    → x < sub32 head_sn 2
    → AtLeast k x l
    → AtLeast (k + 1) x (next_entries head_sn l)
unfolding next_entries
next_entries-AtLeast k x head_sn [] old least = tt
next_entries-AtLeast k x head_sn (n ∷ l) old least =
    ground (arith, next_entries-AtLeast k x head_sn l old least.1, least.0)

-- An entry leaves the queue only when its number is given up.
stays_or_given_up :
    (x kf head_sn : ℕ) (l : List Nack)
    → 1 ≤ copies x l
    → given_up kf l < x
    → 1 ≤ copies x (next_entries head_sn l)
unfolding copies next_entries given_up
stays_or_given_up x kf head_sn [] has below = has
stays_or_given_up x kf head_sn (n ∷ l) has below = ground (
  arith,
  stays_or_given_up x (if leb 5 n.nacked then max kf n.sn else kf) head_sn l,
  given_up-le (if leb 5 n.nacked then max kf n.sn else kf) l,
)

-- A number in the queue, or given up.
abbrev InSight : ℕ → NackQueue → Type 0
InSight x n = (1 ≤ copies x n.nacks) ⊎ (x ≤ n.kf_sn)

pairs-InSight : (n : NackQueue) (x head_sn : ℕ) → InSight x n → InSight x (pairs n head_sn).0
pairs-InSight n x head_sn (inr up) =
    inr (omega (arith, (pairs_keyframe n head_sn).0, given_up-le n.kf_sn n.nacks))
pairs-InSight n x head_sn (inl has) = elim (Bool-cases (ltb (given_up n.kf_sn n.nacks) x)) [
  | inl below ↦ inl (
      rw (pairs-nacks n head_sn)
        (stays_or_given_up x n.kf_sn head_sn n.nacks has (ltb→lt _ _ below)))
  | inr reached ↦ inr (omega (arith, (pairs_keyframe n head_sn).0, ltb→le _ _ reached))
]

-- Without a request for a key frame no number has been given up.
quiet :
    (n : NackQueue) (head_sn : ℕ)
    → (pairs n head_sn).2 ≡ false
    → (pairs n head_sn).0.kf_sn ≡ n.kf_sn
quiet n head_sn e =
    let (kf, ask) = pairs_keyframe n head_sn in
    omega (arith, kf, ltb→le _ _ (sym ask ∙ e), given_up-le n.kf_sn n.nacks)

neither : (a b : Bool) → (a || b) ≡ false → (a ≡ false) × (b ≡ false)
neither a b e = ground arith

record Resolved (n : NackQueue) (k x : ℕ) (r : NackQueue × Bool) : Type 0 where
  five : AtMostFive r.0.nacks
  least : AtLeast k x r.0.nacks
  sight : InSight x r.0
  silent : r.1 ≡ false → r.0.kf_sn ≡ n.kf_sn

pairs_all-Resolved :
    (n : NackQueue) (k x : ℕ) (heads : List ℕ)
    → Old x heads
    → AtMostFive n.nacks
    → AtLeast k x n.nacks
    → InSight x n
    → Resolved n (k + length heads) x (pairs_all n heads)
unfolding pairs_all
pairs_all-Resolved n k x [] old five least sight =
    let z : k + 0 ≡ k = omega arith in
    record { five = five; least = rw z least; sight = sight; silent = λ _. refl }
pairs_all-Resolved n k x (head_sn ∷ heads) old five least sight =
    let e = pairs-nacks n head_sn in
    let rest =
      pairs_all-Resolved (pairs n head_sn).0 (k + 1) x heads old.1
        (rw e (next_entries-AtMostFive head_sn n.nacks five))
        (rw e (next_entries-AtLeast k x head_sn n.nacks old.0 least))
        (pairs-InSight n x head_sn sight) in
    let z : k + suc (length heads) ≡ k + 1 + length heads = omega arith in
    record {
      five = rest.five;
      least = rw z (rest.least);
      sight = rest.sight;
      silent = λ none_asked.
          let (first, others) =
            neither (pairs n head_sn).2 (pairs_all (pairs n head_sn).0 heads).1 none_asked in
          rest.silent others ∙ quiet n head_sn first;
    }

all_least : (x : ℕ) (l : List Nack) → AtLeast 0 x l
all_least x [] = tt
all_least x (n ∷ l) = (λ _. omega arith, all_least x l)

-- A missing packet is not waited for for ever: a number in the queue, greater than each one given up
-- before, that stays older than two behind the head through six or more calls of `Pairs` is no
-- longer in the queue after them, and one of the calls has asked for a key frame.
pub pairs_gives_up :
    (n : NackQueue) (x : ℕ) (heads : List ℕ)
    → AtMostFive n.nacks
    → 1 ≤ copies x n.nacks
    → n.kf_sn < x
    → Old x heads
    → 6 ≤ length heads
    → (copies x (pairs_all n heads).0.nacks ≡ 0) × ((pairs_all n heads).1 ≡ true)
pairs_gives_up n x heads five has new old six =
    let r = pairs_all-Resolved n 0 x heads old five (all_least x n.nacks) (inl has) in
    let gone : copies x (pairs_all n heads).0.nacks ≡ 0 =
      none_left (0 + length heads) x (pairs_all n heads).0.nacks (omega arith) (r.five) (r.least) in
    (
      gone,
      elim (Bool-cases (pairs_all n heads).1) [
        | inl asked ↦ asked
        | inr silent ↦ absurd (unseen (pairs_all n heads).0 (r.sight) gone (r.silent silent))
      ],
    )
  where
    unseen : (m : NackQueue) → InSight x m → copies x m.nacks ≡ 0 → ¬ (m.kf_sn ≡ n.kf_sn)
    unseen m (inl has) none_of same = omega (arith, has, none_of)
    unseen m (inr up) none_of same = omega (arith, up, same, new)
