-- ===== src/Ntp/RoundTrip.antt =====
-- A time through its NTP form, and the round trip time of a report that is answered at once.
use sample_nodejs_server.Prelude.{
  ℕ, ◌+◌, ◌-◌, ◌*◌, ◌/◌, ◌%◌, ◌≤◌, ◌<◌, ◌≡◌, ◌≢◌, refl, ap, ◌∙◌, arith, ltb, some, Option, false,
  sub32, u32_mod, le→ltb, ne→==, eq→==,
}
use sample_nodejs_server.Ntp.{
  duration, to_ntp_time, ntp_to_millis_since_epoch, middle, rtt_from, get_rtt_ms_from, get_rtt_ms,
  rtt_ms,
}

-- A time before 2036 is the same after the conversion to an NTP time and back.
pub duration-to_ntp_time : (t : ℕ) → t < 4294967296000000000 → duration (to_ntp_time t) ≡ t
unfolding duration to_ntp_time
duration-to_ntp_time t h = ground arith

-- The milliseconds of the NTP form of a time before 2036 are those of the time, or one less.
pub millis-to_ntp_time :
    (t : ℕ)
    → t < 4294967296000000000
    → (ntp_to_millis_since_epoch (to_ntp_time t) ≤ t / 1000000)
      × (t / 1000000 ≤ ntp_to_millis_since_epoch (to_ntp_time t) + 1)
unfolding ntp_to_millis_since_epoch to_ntp_time
millis-to_ntp_time t h = ground arith

-- The round trip time that is computed for a report.
abbrev pub rtt_of : ℕ → ℕ → ℕ → ℕ
rtt_of n s delay =
    ((middle (to_ntp_time (n + s)) - middle (to_ntp_time n) - delay) * 1000 + 65535) / 65536

rtt_bounds :
    (n s delay : ℕ)
    → n + s < 4294967296000000000
    → n / 65536000000000 ≡ (n + s) / 65536000000000
    → middle (to_ntp_time n) + delay ≤ middle (to_ntp_time (n + s))
    → (s * 65536 ≤ rtt_of n s delay * 65536000000 + (delay + 2) * 1000000000)
      × (rtt_of n s delay * 65536000000 + delay * 1000000000 ≤ s * 65536 + 2000000000 + 65536000000)
unfolding to_ntp_time
rtt_bounds n s delay h same later = (ground arith, ground arith)

rtt_later :
    (now_ntp lsr delay : ℕ)
    → lsr + delay ≤ now_ntp
    → now_ntp < 4294967296
    → rtt_from now_ntp lsr delay ≡ rtt_ms (((now_ntp - lsr - delay) * 1000 + 65535) / 65536)
unfolding rtt_from
rtt_later now_ntp lsr delay later word =
    let e : sub32 (sub32 now_ntp lsr) delay ≡ now_ntp - lsr - delay = omega arith in
    let on : ltb now_ntp ((lsr + delay) % u32_mod) ≡ false = le→ltb _ _ (omega arith) in
    rw (on, e) refl

own_report :
    (lsr delay sent : ℕ) (sent_at : Option ℕ) (now : ℕ)
    → lsr ≢ 0
    → lsr ≡ middle sent
    → get_rtt_ms lsr delay sent sent_at now ≡ get_rtt_ms_from lsr delay sent sent_at now
unfolding get_rtt_ms
own_report lsr delay sent sent_at now some_report own =
    rw (ne→== lsr 0 some_report, eq→== lsr (middle sent) own) refl

sent_before :
    (lsr delay sent sent_at now : ℕ)
    → get_rtt_ms_from lsr delay sent (some sent_at) now
      ≡ rtt_from (middle (to_ntp_time (duration sent + (now - sent_at)))) lsr delay
unfolding get_rtt_ms_from
sent_before lsr delay sent sent_at now = refl

-- For a report on the last sender report, sent `s` nanoseconds before the report came and in the same
-- period of 2^16 seconds before 2036, which states no longer a delay than the time since, the time is
-- computed as the time since, less the delay that the
-- report states in parts of 2^-16 seconds, up to two such parts and a millisecond.
pub get_rtt_ms_near :
    (n s delay sent_at : ℕ)
    → n + s < 4294967296000000000
    → n / 65536000000000 ≡ (n + s) / 65536000000000
    → middle (to_ntp_time n) ≢ 0
    → middle (to_ntp_time n) + delay ≤ middle (to_ntp_time (n + s))
    → (get_rtt_ms (middle (to_ntp_time n)) delay (to_ntp_time n) (some sent_at) (sent_at + s)
        ≡ rtt_ms (rtt_of n s delay))
      × (s * 65536 ≤ rtt_of n s delay * 65536000000 + (delay + 2) * 1000000000)
      × (rtt_of n s delay * 65536000000 + delay * 1000000000 ≤ s * 65536 + 2000000000 + 65536000000)
get_rtt_ms_near n s delay sent_at h same some_report later =
    let sent = to_ntp_time n in
    let since : duration sent + (sent_at + s - sent_at) ≡ n + s =
      omega (arith, duration-to_ntp_time n (omega arith)) in
    let (low, high) = rtt_bounds n s delay h same later in
    (
      own_report (middle sent) delay sent (some sent_at) (sent_at + s) some_report refl
          ∙ sent_before (middle sent) delay sent sent_at (sent_at + s)
          ∙ ap (λ t. rtt_from (middle (to_ntp_time t)) (middle sent) delay) since
          ∙ rtt_later (middle (to_ntp_time (n + s))) (middle sent) delay later (omega arith),
      low,
      high,
    )
