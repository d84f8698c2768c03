-- ===== src/AudioObserver.antt =====
-- ion-sfu/pkg/sfu/audioobserver.go: which audio streams of a session are the loudest. A level is the
-- distance from full scale, so a small level is a loud one. `sort.Slice` is a parameter.
pub mod Heard
pub mod Loudest
mod Tests
use sample_nodejs_server.Prelude.{
  ℕ, zero, suc, ◌≡◌, ◌+◌, ◌*◌, ◌/◌, Bool, true, false, not, ◌&&◌, List, [], ◌∷◌, ◌++◌, Option, none,
  some, ltb, leb, ◌==◌, if◌then◌else◌, length, map,
}
use sample_nodejs_server.Prelude.Int.{ℤ, pos, negsuc, pos_part, ltb_ℤ}
use sample_nodejs_server.Prelude.Strings.{same_text}

pub record AudioStream : Type 0 where
  pub id : List ℕ
  pub sum : ℕ
  pub total : ℕ

-- A slice that is nil has the length 0, as `[]` has.
pub record AudioObserver : Type 0 where
  pub streams : List AudioStream
  pub expected : ℤ
  pub threshold : ℕ
  pub previous : List (List ℕ)

abbrev pub clamp_filter : ℤ → ℕ
clamp_filter (pos f) = if ltb 100 f then 100 else f
clamp_filter (negsuc f) = 0

abbrev pub minus : ℕ → ℤ
minus zero = pos 0
minus (suc n) = negsuc n

-- `interval * filter / 2000`, rounded towards zero.
abbrev pub share : ℤ → ℕ → ℤ
share (pos i) f = pos (i * f / 2000)
share (negsuc i) f = minus ((i + 1) * f / 2000)

unfoldable pub new_audio_observer : ℕ → ℤ → ℤ → AudioObserver
new_audio_observer threshold interval filter = record {
  streams = [];
  expected = share interval (clamp_filter filter);
  threshold = if ltb 127 threshold then 127 else threshold;
  previous = [];
}

unfoldable pub add_stream : AudioObserver → List ℕ → AudioObserver
add_stream a stream_id = record a {
  streams = a.streams ++ (record { id = stream_id; sum = 0; total = 0 } ∷ []);
}

abbrev pub last_of : AudioStream → List AudioStream → AudioStream
last_of s [] = s
last_of s (t ∷ l) = last_of t l

abbrev pub without_last : AudioStream → List AudioStream → List AudioStream
without_last s [] = []
without_last s (t ∷ l) = s ∷ without_last t l

-- In the place of the one that goes, the last one; the last one itself is cut off.
abbrev pub replace_by_last : List AudioStream → List AudioStream
replace_by_last [] = []
replace_by_last (t ∷ l) = last_of t l ∷ without_last t l

unfoldable pub remove_from : List AudioStream → List ℕ → List AudioStream
remove_from [] stream_id = []
remove_from (s ∷ l) stream_id =
    let rest = remove_from l stream_id in
    if same_text s.id stream_id then replace_by_last l else s ∷ rest

unfoldable pub remove_stream : AudioObserver → List ℕ → AudioObserver
unfolding remove_from
remove_stream a stream_id = record a { streams = remove_from a.streams stream_id }

abbrev pub hear : ℕ → ℕ → AudioStream → AudioStream
hear threshold d_bov s =
    if leb d_bov threshold then record s { sum = s.sum + d_bov; total = s.total + 1 } else s

unfoldable pub observe_in : ℕ → List AudioStream → List ℕ → ℕ → List AudioStream
observe_in threshold [] stream_id d_bov = []
observe_in threshold (s ∷ l) stream_id d_bov =
    let rest = observe_in threshold l stream_id d_bov in
    if same_text s.id stream_id then hear threshold d_bov s ∷ l else s ∷ rest

unfoldable pub observe : AudioObserver → List ℕ → ℕ → AudioObserver
unfolding observe_in
observe a stream_id d_bov = record a { streams = observe_in a.threshold a.streams stream_id d_bov }

-- The order of `Calc`.
abbrev pub is_louder : AudioStream → AudioStream → Bool
is_louder s t = if not (s.total == t.total) then ltb t.total s.total else ltb s.sum t.sum

-- `s.total >= a.expected`.
abbrev pub is_active : ℤ → AudioStream → Bool
is_active expected s = not (ltb_ℤ (pos s.total) expected)

unfoldable pub active_ids : ℤ → List AudioStream → List (List ℕ)
active_ids expected [] = []
active_ids expected (s ∷ l) =
    let rest = active_ids expected l in if is_active expected s then s.id ∷ rest else rest

abbrev pub restart : AudioStream → AudioStream
restart s = record s { sum = 0; total = 0 }

-- The two lists have the same length.
abbrev pub differs : List (List ℕ) → List (List ℕ) → Bool
differs [] ids = false
differs (p ∷ ps) [] = true
differs (p ∷ ps) (i ∷ ids) = let rest = differs ps ids in if same_text p i then rest else true

-- The identifiers to report; none is nil.
unfoldable pub report : List (List ℕ) → List (List ℕ) → Option (List (List ℕ))
report previous stream_ids =
    if length previous == length stream_ids
    then if differs previous stream_ids then some stream_ids else none
    else some stream_ids

abbrev pub kept_or : Option (List (List ℕ)) → List (List ℕ) → List (List ℕ)
kept_or none previous = previous
kept_or (some stream_ids) previous = stream_ids

-- How many streams have the property.
abbrev pub count : (AudioStream → Bool) → List AudioStream → ℕ
count p [] = 0
count p (s ∷ l) = (if p s then 1 else 0) + count p l

-- No stream comes behind one that it is before.
abbrev pub none_before : (AudioStream → AudioStream → Bool) → AudioStream → List AudioStream → Bool
none_before less s [] = true
none_before less s (t ∷ l) = not (less t s) && none_before less s l

abbrev pub is_sorted : (AudioStream → AudioStream → Bool) → List AudioStream → Bool
is_sorted less [] = true
is_sorted less (s ∷ l) = none_before less s l && is_sorted less l

-- `sort.Slice` by the order of `Calc` has the same streams, in order.
pub record SortSlice : Type 0 where
  pub sort : List AudioStream → List AudioStream
  pub same_streams : (p : AudioStream → Bool) (l : List AudioStream) → count p (sort l) ≡ count p l
  pub sorted : (l : List AudioStream) → is_sorted is_louder (sort l) ≡ true

module _ (z : SortSlice) where
  unfoldable pub calc : AudioObserver → AudioObserver × Option (List (List ℕ))
  unfolding active_ids report
  calc a =
      let streams = z.sort a.streams in
      let reported = report a.previous (active_ids a.expected streams) in
      (record a { streams = map restart streams; previous = kept_or reported a.previous }, reported)
