-- ===== src/Timestamps/Order.antt =====
-- What `IsLaterTimestamp` answers, and when it does not depend on which timestamp is the later one.
use sample_nodejs_server.Prelude.{ℕ, ◌+◌, ◌-◌, ◌%◌, ◌≤◌, ◌<◌, ◌≡◌, false, arith, u32_mod}
use sample_nodejs_server.Timestamps.{
  is_timestamp_wrap_around, is_later_timestamp, fast_forward_timestamp_amount,
}

-- `IsLaterTimestamp` answers the same for any two timestamps in either order.
pub is_later_comm : (a b : ℕ) → is_later_timestamp a b ≡ is_later_timestamp b a
unfolding is_later_timestamp
is_later_comm a b = ground arith

-- Of two timestamps whose numbers differ by 2^27 at most, in whichever order, `IsLaterTimestamp`
-- takes neither to be later.
pub is_later_near :
    (a b : ℕ) → a ≤ b + 134217728 → b ≤ a + 134217728 → is_later_timestamp a b ≡ false
unfolding is_later_timestamp is_timestamp_wrap_around
is_later_near a b h k = ground arith

-- The amount from a timestamp to one less than 2^26 ahead of it, the wrap-around included, is the
-- number of ticks between them, and the amount to one less than 2^26 behind, short of the
-- wrap-around, is 0.
pub fast_forward_near :
    (reference ticks : ℕ)
    → reference < 4294967296
    → ticks < 67108864
    → (fast_forward_timestamp_amount ((reference + ticks) % u32_mod) reference ≡ ticks)
      × (fast_forward_timestamp_amount (reference - ticks) reference ≡ 0)
unfolding fast_forward_timestamp_amount is_timestamp_wrap_around
fast_forward_near reference ticks word small = (ground arith, ground arith)
