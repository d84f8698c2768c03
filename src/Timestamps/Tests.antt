-- ===== src/Timestamps/Tests.antt =====
-- Comparisons of small timestamps, and each theorem at an input that meets its hypotheses.
use sample_nodejs_server.Prelude.{◌≡◌, refl, false, arith}
use sample_nodejs_server.Timestamps.{is_later_timestamp}
use sample_nodejs_server.Timestamps.Order.{is_later_near}

one_frame_later : is_later_timestamp 93000 90000 ≡ false
unfolding is_later_timestamp
one_frame_later = refl

is_later_near_example : is_later_timestamp 93000 90000 ≡ false
is_later_near_example = is_later_near 93000 90000 (omega arith) (omega arith)
