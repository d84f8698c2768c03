-- ===== src/Subscriber.antt =====
-- ion-sfu/pkg/sfu/subscriber.go: the down tracks and data channels of a subscriber, and the reports
-- that it sends every five seconds. Streams and labels are numbers, as are pointers. Whether the
-- connection makes a channel, or is open when a report is written, is an argument.
pub mod Reports
mod Tests
use sample_nodejs_server.Prelude.{
  ℕ, zero, suc, ◌+◌, ◌-◌, ◌*◌, Bool, true, false, List, [], ◌∷◌, ◌++◌, Option, none, some, ltb, leb,
  ◌==◌, if◌then◌else◌, length, take, drop,
}

pub record Subscriber : Type 0 where
  pub tracks : ℕ → Option (List ℕ)
  pub channels : ℕ → Option ℕ

abbrev pub put {ℓ} : {A : Type ℓ} → (ℕ → A) → ℕ → A → ℕ → A
put f i v j = if j == i then v else f j

abbrev pub appended : Option (List ℕ) → ℕ → List ℕ
appended none dt = dt ∷ []
appended (some dts) dt = dts ++ (dt ∷ [])

unfoldable pub add_down_track : Subscriber → ℕ → ℕ → Subscriber
add_down_track s stream_id dt = record s {
  tracks = put s.tracks stream_id (some (appended (s.tracks stream_id) dt));
}

abbrev pub last_of : ℕ → List ℕ → ℕ
last_of x [] = x
last_of x (y ∷ l) = last_of y l

abbrev pub without_last : ℕ → List ℕ → List ℕ
without_last x [] = []
without_last x (y ∷ l) = x ∷ without_last y l

-- The last one takes the place of the one that goes.
abbrev pub replace_by_last : List ℕ → List ℕ
replace_by_last [] = []
replace_by_last (y ∷ l) = last_of y l ∷ without_last y l

unfoldable pub remove_from : List ℕ → ℕ → List ℕ
remove_from [] dt = []
remove_from (x ∷ l) dt =
    let rest = remove_from l dt in if x == dt then replace_by_last l else x ∷ rest

abbrev pub removed : Option (List ℕ) → ℕ → Option (List ℕ)
removed none dt = none
removed (some dts) dt = some (remove_from dts dt)

unfoldable pub remove_down_track : Subscriber → ℕ → ℕ → Subscriber
unfolding remove_from
remove_down_track s stream_id dt = record s {
  tracks = put s.tracks stream_id (removed (s.tracks stream_id) dt);
}

abbrev pub or_create : Subscriber → ℕ → Option ℕ → Option ℕ → Subscriber × Option ℕ
or_create s label created (some dc) = (s, some dc)
or_create s label none none = (s, none)
or_create s label (some dc) none = (record s { channels = put s.channels label (some dc) }, some dc)

-- With what the connection creates; none is its error.
unfoldable pub add_data_channel : Subscriber → ℕ → Option ℕ → Subscriber × Option ℕ
add_data_channel s label created = or_create s label created (s.channels label)

-- What is sent at once: sender reports, and the chunks of one source description.
pub record Compound : Type 0 where
  pub sender_reports : List ℕ
  pub chunks : List ℕ

abbrev pub chunks_at_once : ℕ
chunks_at_once = 15

-- `i` after its two assignments in a round.
abbrev pub round_end : ℕ → ℕ → ℕ
round_end len j = if leb len ((j + 1) * chunks_at_once) then len else (j + 1) * chunks_at_once

-- The loop of `downTracksReports`; `is_open` is whether the write of a round finds the connection
-- open. A round takes at least one chunk, so as many rounds as chunks are enough.
unfoldable pub report_loop : ℕ → (ℕ → Bool) → List ℕ → List ℕ → ℕ → ℕ → List Compound
report_loop zero is_open sd r i j = []
report_loop (suc fuel) is_open sd r i j =
    let next = round_end (length sd) j in
    let nsd = take (next - j * chunks_at_once) (drop (j * chunks_at_once) sd) in
    let rest = report_loop fuel is_open sd [] next (j + 1) in
    if ltb i (length sd)
    then record { sender_reports = r; chunks = nsd } ∷ (if is_open j then rest else [])
    else []

unfoldable pub down_tracks_reports : (ℕ → Bool) → List ℕ → List ℕ → List Compound
unfolding report_loop
down_tracks_reports is_open r sd = report_loop (length sd) is_open sd r 0 0
