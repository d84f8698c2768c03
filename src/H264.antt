-- ===== src/H264.antt =====
-- ion-sfu/pkg/buffer/helpers.go: does an H.264 payload hold a key frame? A payload is a list of
-- bytes. `none` is a panic, or a loop that has run out of fuel.
pub mod Safety
pub mod Aggregates
mod Tests
use sample_nodejs_server.Prelude.{
  ℕ, zero, suc, ◌+◌, ◌*◌, ◌/◌, ◌%◌, Bool, true, false, ◌||◌, List, Option, none, some, ltb, leb,
  ◌==◌, if◌then◌else◌, length, get_elem?,
}

-- One round of the loop over an aggregate: a panic, a return, or the index of the next unit.
pub data Turn : Type 0 where
  panic : Turn
  done : Bool → Turn
  next : ℕ → Turn

-- How far behind a unit's size its NAL unit starts.
abbrev pub unit_offset : ℕ → ℕ
unit_offset nalu = if nalu == 26 then 3 else if nalu == 27 then 4 else 0

-- `uint16(payload[i])<<8 | uint16(payload[i+1])`.
unfoldable pub unit_size : List ℕ → ℕ → Option ℕ
unit_size payload i = elim (get_elem? payload i) [
  | none ↦ none
  | some high ↦ elim (get_elem? payload (i + 1)) [
    | none ↦ none
    | some low ↦ some (high * 256 + low)
  ]
]

-- The body from `i += 2` on.
unfoldable pub unit_turn : List ℕ → ℕ → ℕ → ℕ → Turn
unit_turn payload nalu i size =
    let first : Turn = elim (get_elem? payload (i + unit_offset nalu)) [
      | none ↦ panic
      | some v ↦ if v % 32 == 7 then done true else next (i + size)
    ] in
    if ltb (length payload) (i + size)
    then done false
    else if leb size (unit_offset nalu)
    then done false
    else first

unfoldable pub turn : List ℕ → ℕ → ℕ → Turn
unfolding unit_size unit_turn
turn payload nalu i =
    let unit : Turn = elim (unit_size payload i) [
      | none ↦ panic
      | some size ↦ unit_turn payload nalu (i + 2) size
    ] in
    if ltb (length payload) (i + 2) then done false else unit

-- `for i < len(payload)`, and both returns behind it.
unfoldable pub aggregate_loop : ℕ → List ℕ → ℕ → ℕ → Option Bool
unfolding turn
aggregate_loop zero payload nalu i = none
aggregate_loop (suc fuel) payload nalu i = elim (ltb i (length payload)) [
  | false ↦ some false
  | true ↦ elim (turn payload nalu i) [
    | panic ↦ none
    | done b ↦ some b
    | next j ↦ aggregate_loop fuel payload nalu j
  ]
]

-- FU-A and FU-B: the first fragment carries the type of the whole unit.
unfoldable pub fragment : List ℕ → Option Bool
fragment payload =
    let second : Option Bool = elim (get_elem? payload 1) [
      | none ↦ none
      | some v ↦ some (if v / 128 % 2 == 0 then false else v % 32 == 7)
    ] in
    if ltb (length payload) 2 then some false else second

-- A round that goes on moves the index ahead, so as many rounds as bytes are enough.
unfoldable pub by_type : List ℕ → ℕ → Option Bool
unfolding aggregate_loop fragment
by_type payload nalu =
    let aggregate = aggregate_loop (length payload) payload nalu (if nalu == 24 then 1 else 3) in
    let fragmented = fragment payload in
    if nalu == 0
    then some false
    else if leb nalu 23
    then some (nalu == 7)
    else if leb nalu 27
    then aggregate
    else if leb nalu 29
    then fragmented
    else some false

unfoldable pub is_h264_keyframe : List ℕ → Option Bool
unfolding by_type
is_h264_keyframe payload =
    let typed : Option Bool = elim (get_elem? payload 0) [
      | none ↦ none
      | some v ↦ by_type payload (v % 32)
    ] in
    if ltb (length payload) 1 then some false else typed
