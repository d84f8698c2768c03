-- ===== src/AudioObserver/Loudest.antt =====
-- What `Calc` returns, and the order of the identifiers in it.
use sample_nodejs_server.Prelude.{
  ℕ, ◌≤◌, ◌≡◌, ◌≢◌, ◌⊎◌, Bool, true, List, [], ◌∷◌, Option, none, some, if◌then◌else◌, map,
}
use sample_nodejs_server.Prelude.Int.{ℤ}
use sample_nodejs_server.AudioObserver.{
  AudioStream, AudioObserver, count, is_sorted, is_louder, is_active,
}

abbrev active : ℤ → List AudioStream → List AudioStream
active expected [] = []
active expected (s ∷ l) =
    let rest = active expected l in if is_active expected s then s ∷ rest else rest

-- The identifiers are those of some of the streams, each taken as often as it is there at most, and
-- a stream that was heard more often, or as often and louder, is never behind another.
pub record IsLoudestFirst (streams : List AudioStream) (ids : List (List ℕ)) : Type 0 where
  pub listed_streams : List AudioStream
  pub same_ids : map (λ (s : AudioStream). s.id) listed_streams ≡ ids
  pub in_order : is_sorted is_louder listed_streams ≡ true
  pub no_more : (p : AudioStream → Bool) → count p listed_streams ≤ count p streams

-- What is returned for the identifiers of the last report and of this one: nothing if they are the
-- same, and this one's otherwise.
abbrev pub IsNews : List (List ℕ) → List (List ℕ) → Option (List (List ℕ)) → Type 0
IsNews previous ids reported =
    ((previous ≡ ids) × (reported ≡ none)) ⊎ ((previous ≢ ids) × (reported ≡ some ids))

-- A stream that was not heard yet.
abbrev pub IsQuiet : AudioStream → Type 0
IsQuiet s = (s.total ≡ 0) × (s.sum ≡ 0)
