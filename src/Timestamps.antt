-- ===== src/Timestamps.antt =====
-- ion-sfu/pkg/buffer/buffer.go and ion-sfu/pkg/sfu/helpers.go: comparison and difference of RTP
-- timestamps, which are 32-bit words.
pub mod Order
mod Tests
use sample_nodejs_server.Prelude.{
  ℕ, ◌+◌, ◌-◌, ◌/◌, ◌%◌, Bool, ◌&&◌, ltb, ◌==◌, if◌then◌else◌, u32_mod,
}

-- `timestamp & 0xC000000`: the mask has seven hexadecimal digits, so it takes bits 26 and 27.
abbrev pub masked : ℕ → ℕ
masked timestamp = timestamp / 67108864 % 4

unfoldable pub is_timestamp_wrap_around : ℕ → ℕ → Bool
is_timestamp_wrap_around timestamp₁ timestamp₂ = masked timestamp₁ == 0 && masked timestamp₂ == 3

unfoldable pub is_later_timestamp : ℕ → ℕ → Bool
unfolding is_timestamp_wrap_around
is_later_timestamp timestamp₁ timestamp₂ =
    if ltb timestamp₂ timestamp₁
    then is_timestamp_wrap_around timestamp₂ timestamp₁
    else is_timestamp_wrap_around timestamp₁ timestamp₂

unfoldable pub fast_forward_timestamp_amount : ℕ → ℕ → ℕ
unfolding is_timestamp_wrap_around
fast_forward_timestamp_amount newest reference =
    if is_timestamp_wrap_around newest reference
    then (newest + 4294967296 - reference) % u32_mod
    else if ltb newest reference
    then 0
    else newest - reference
