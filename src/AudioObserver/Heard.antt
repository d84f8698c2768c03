-- ===== src/AudioObserver/Heard.antt =====
-- What is reported after some observations, against how often each stream was heard.
use sample_nodejs_server.Prelude.{
  ℕ, ◌+◌, ◌≡◌, refl, sym, ap, ◌∙◌, Bool, true, false, not, ◌&&◌, ◌||◌, List, [], ◌∷◌, arith, ltb,
  leb, ◌==◌, if◌then◌else◌, if_elim, length,
}
use sample_nodejs_server.Prelude.Int.{ℤ, pos, ltb_ℤ}
use sample_nodejs_server.Prelude.Strings.{listed, same_text, same_text→eq}
use sample_nodejs_server.AudioObserver.{
  AudioStream, AudioObserver, SortSlice, count, hear, observe_in, observe, is_active, active_ids,
  differs, report, kept_or, calc,
}
use mathlib.Core.Path.{ap₂}

-- The observations, as stream and level.
abbrev pub observe_all : AudioObserver → List (List ℕ × ℕ) → AudioObserver
observe_all a [] = a
observe_all a ((id, d) ∷ rest) = observe_all (observe a id d) rest

-- How often a stream was heard, at a level up to the threshold.
abbrev pub heard : ℕ → List ℕ → List (List ℕ × ℕ) → ℕ
heard threshold x [] = 0
heard threshold x ((id, d) ∷ rest) =
    (if same_text x id && leb d threshold then 1 else 0) + heard threshold x rest

abbrev pub has_id : List AudioStream → List ℕ → Bool
has_id [] id = false
has_id (s ∷ l) id = same_text s.id id || has_id l id

-- No two streams have the same identifier.
abbrev pub is_distinct : List AudioStream → Bool
is_distinct [] = true
is_distinct (s ∷ l) = not (has_id l s.id) && is_distinct l

-- Some stream with the identifier was heard often enough, the times before included.
abbrev pub is_heard : ℤ → ℕ → List AudioStream → List (List ℕ × ℕ) → List ℕ → Bool
is_heard expected threshold [] obs x = false
is_heard expected threshold (s ∷ l) obs x =
    (same_text s.id x && not (ltb_ℤ (pos (s.total + heard threshold s.id obs)) expected))
    || is_heard expected threshold l obs x

abbrev named : ℤ → List ℕ → AudioStream → Bool
named expected x s = same_text s.id x && is_active expected s

listed-active_ids :
    (expected : ℤ) (l : List AudioStream) (x : List ℕ)
    → listed (active_ids expected l) x ≡ ltb 0 (count (named expected x) l)
unfolding active_ids
listed-active_ids expected [] x = refl
listed-active_ids expected (s ∷ l) x = ground (arith, listed-active_ids expected l x)

pub same_lists :
    (previous ids : List (List ℕ))
    → (length previous == length ids) ≡ true
    → differs previous ids ≡ false
    → previous ≡ ids
same_lists [] [] n h = refl
same_lists [] (i ∷ ids) n h = absurd (ground (arith, n))
same_lists (p ∷ ps) [] n h = cc
same_lists (p ∷ ps) (i ∷ ids) n h =
    let (x, y) : (same_text p i ≡ true) × (differs ps ids ≡ false) = ground arith in
    ap₂ (λ z zs. z ∷ zs) (same_text→eq p i x) (same_lists ps ids (ground (arith, n)) y)

pub kept_or-report : (previous ids : List (List ℕ)) → kept_or (report previous ids) previous ≡ ids
unfolding report
kept_or-report previous ids =
    if_elim (λ o. kept_or o previous ≡ ids) (length previous == length ids)
      (λ same.
        if_elim (λ o. kept_or o previous ≡ ids) (differs previous ids) (λ _. refl)
          (λ equal. same_lists previous ids same equal))
      (λ _. refl)

skipped :
    (threshold : ℕ) (i id : List ℕ) (d : ℕ) (obs : List (List ℕ × ℕ))
    → same_text i id ≡ false
    → heard threshold i ((id, d) ∷ obs) ≡ heard threshold i obs
skipped threshold i id d obs e = ground (arith, e)

unheard :
    (expected : ℤ) (threshold : ℕ) (l : List AudioStream) (id : List ℕ) (d : ℕ)
    (obs : List (List ℕ × ℕ)) (x : List ℕ)
    → has_id l id ≡ false
    → is_heard expected threshold l ((id, d) ∷ obs) x ≡ is_heard expected threshold l obs x
unheard expected threshold [] id d obs x h = refl
unheard expected threshold (s ∷ l) id d obs x h =
    let (y, z) : (same_text s.id id ≡ false) × (has_id l id ≡ false) = ground arith in
    ap₂ (λ (n : ℕ) (b : Bool). (same_text s.id x && not (ltb_ℤ (pos (s.total + n)) expected)) || b)
      (skipped threshold s.id id d obs y) (unheard expected threshold l id d obs x z)

id-hear : (threshold d : ℕ) (s : AudioStream) → (hear threshold d s).id ≡ s.id
id-hear threshold d s =
    if_elim (λ (t : AudioStream). t.id ≡ s.id) (leb d threshold) (λ _. refl) (λ _. refl)

total-hear :
    (threshold d : ℕ) (s : AudioStream) (obs : List (List ℕ × ℕ)) (id : List ℕ)
    → same_text s.id id ≡ true
    → (hear threshold d s).total + heard threshold s.id obs
      ≡ s.total + heard threshold s.id ((id, d) ∷ obs)
total-hear threshold d s obs id h =
    if_elim
      (λ (t : AudioStream).
        t.total + heard threshold s.id obs ≡ s.total + heard threshold s.id ((id, d) ∷ obs))
      (leb d threshold) (λ loud. ground (arith, h, loud)) (λ quiet. ground (arith, h, quiet))

has_id-observe_in :
    (threshold : ℕ) (l : List AudioStream) (id : List ℕ) (d : ℕ) (x : List ℕ)
    → has_id (observe_in threshold l id d) x ≡ has_id l x
unfolding observe_in
has_id-observe_in threshold [] id d x = refl
has_id-observe_in threshold (s ∷ l) id d x =
    if_elim (λ (k : List AudioStream). has_id k x ≡ (same_text s.id x || has_id l x))
      (same_text s.id id) (λ _. ap (λ i. same_text i x || has_id l x) (id-hear threshold d s))
      (λ _. ap (λ b. same_text s.id x || b) (has_id-observe_in threshold l id d x))

is_distinct-observe_in :
    (threshold : ℕ) (l : List AudioStream) (id : List ℕ) (d : ℕ)
    → is_distinct (observe_in threshold l id d) ≡ is_distinct l
unfolding observe_in
is_distinct-observe_in threshold [] id d = refl
is_distinct-observe_in threshold (s ∷ l) id d =
    if_elim (λ (k : List AudioStream). is_distinct k ≡ (not (has_id l s.id) && is_distinct l))
      (same_text s.id id) (λ _. ap (λ i. not (has_id l i) && is_distinct l) (id-hear threshold d s))
      (λ _.
        ap₂ (λ a b. not a && b) (has_id-observe_in threshold l id d s.id)
          (is_distinct-observe_in threshold l id d))

is_heard-observe_in :
    (expected : ℤ) (threshold : ℕ) (l : List AudioStream) (id : List ℕ) (d : ℕ)
    (obs : List (List ℕ × ℕ)) (x : List ℕ)
    → is_distinct l ≡ true
    → is_heard expected threshold (observe_in threshold l id d) obs x
      ≡ is_heard expected threshold l ((id, d) ∷ obs) x
unfolding observe_in
is_heard-observe_in expected threshold [] id d obs x h = refl
is_heard-observe_in expected threshold (s ∷ l) id d obs x h =
    let (alone, rest) : (has_id l s.id ≡ false) × (is_distinct l ≡ true) = ground arith in
    let enough : ℕ → Bool = λ n. not (ltb_ℤ (pos n) expected) in
    if_elim
      (λ (k : List AudioStream).
        is_heard expected threshold k obs x ≡ is_heard expected threshold (s ∷ l) ((id, d) ∷ obs) x)
      (same_text s.id id)
      (λ same.
        let other : has_id l id ≡ false =
          ap (λ i. has_id l i) (sym (same_text→eq s.id id same)) ∙ alone in
        ap
          (λ i.
            (same_text i x && enough ((hear threshold d s).total + heard threshold i obs))
            || is_heard expected threshold l obs x)
          (id-hear threshold d s)
        ∙ ap₂ (λ n b. (same_text s.id x && enough n) || b) (total-hear threshold d s obs id same)
            (sym (unheard expected threshold l id d obs x other)))
      (λ differ.
        ap₂ (λ n b. (same_text s.id x && enough (s.total + n)) || b)
          (sym (skipped threshold s.id id d obs differ))
          (is_heard-observe_in expected threshold l id d obs x rest))

count-is_heard :
    (expected : ℤ) (threshold : ℕ) (l : List AudioStream) (x : List ℕ)
    → ltb 0 (count (named expected x) l) ≡ is_heard expected threshold l [] x
count-is_heard expected threshold [] x = refl
count-is_heard expected threshold (s ∷ l) x =
    let e : s.total + 0 ≡ s.total = omega arith in
    rw e (ground (arith, count-is_heard expected threshold l x))

is_heard-observe_all :
    (a : AudioObserver) (obs : List (List ℕ × ℕ)) (x : List ℕ)
    → is_distinct a.streams ≡ true
    → let b = observe_all a obs in
      is_heard b.expected b.threshold b.streams [] x
      ≡ is_heard a.expected a.threshold a.streams obs x
unfolding observe
is_heard-observe_all a [] x h = refl
is_heard-observe_all a ((id, d) ∷ obs) x h =
    is_heard-observe_all (observe a id d) obs x
      (is_distinct-observe_in a.threshold a.streams id d ∙ h)
    ∙ is_heard-observe_in a.expected a.threshold a.streams id d obs x h

-- The identifiers that a report leaves as the last one.
pub listed-calc :
    (z : SortSlice) (a : AudioObserver) (obs : List (List ℕ × ℕ)) (x : List ℕ)
    → is_distinct a.streams ≡ true
    → listed (calc z (observe_all a obs)).0.previous x
      ≡ is_heard a.expected a.threshold a.streams obs x
unfolding calc
listed-calc z a obs x h =
    let b = observe_all a obs in
    let streams = z.sort b.streams in
    ap (λ l. listed l x) (kept_or-report b.previous (active_ids b.expected streams))
    ∙ (listed-active_ids b.expected streams x
        ∙ (ap (ltb 0) (z.same_streams (named b.expected x) b.streams)
            ∙ (count-is_heard b.expected b.threshold b.streams x ∙ is_heard-observe_all a obs x h)))
