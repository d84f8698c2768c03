-- ===== src/H264/Tests.antt =====
-- Small payloads, and each theorem at a concrete one.
use sample_nodejs_server.Prelude.{◌≡◌, refl, true, false, [], ◌∷◌, some, arith}
use sample_nodejs_server.H264.{is_h264_keyframe}
use sample_nodejs_server.H264.Aggregates.{keyframe-aggregate}

first_fragment : is_h264_keyframe (124 ∷ 135 ∷ 0 ∷ []) ≡ some true
unfolding is_h264_keyframe
first_fragment = refl

later_fragment : is_h264_keyframe (124 ∷ 7 ∷ 0 ∷ []) ≡ some false
unfolding is_h264_keyframe
later_fragment = refl

-- A size that goes beyond the end.
cut_off : is_h264_keyframe (24 ∷ 0 ∷ 9 ∷ 103 ∷ []) ≡ some false
unfolding is_h264_keyframe
cut_off = refl

-- Two units, the second of which is a sequence parameter set.
keyframe-aggregate_example :
    is_h264_keyframe (120 ∷ 0 ∷ 2 ∷ 9 ∷ 240 ∷ 0 ∷ 3 ∷ 103 ∷ 66 ∷ 0 ∷ []) ≡ some true
keyframe-aggregate_example =
    keyframe-aggregate 120 [] ((9 ∷ 240 ∷ []) ∷ (103 ∷ 66 ∷ 0 ∷ []) ∷ []) (omega arith)
      (omega arith) refl (omega arith)
