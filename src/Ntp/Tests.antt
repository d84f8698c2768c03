-- ===== src/Ntp/Tests.antt =====
-- Each theorem at a concrete time.
use sample_nodejs_server.Prelude.{ℕ, ◌+◌, ◌*◌, ◌≤◌, ◌≡◌, some, arith}
use sample_nodejs_server.Ntp.{
  duration, to_ntp_time, ntp_to_millis_since_epoch, middle, get_rtt_ms, rtt_ms,
}
use sample_nodejs_server.Ntp.RoundTrip.{
  duration-to_ntp_time, millis-to_ntp_time, rtt_of, get_rtt_ms_near,
}

-- In the year 2023.
abbrev sent : ℕ
sent = 3900000000123456789

duration-to_ntp_time_example : duration (to_ntp_time sent) ≡ sent
duration-to_ntp_time_example = duration-to_ntp_time sent (omega arith)

millis-to_ntp_time_example :
    (ntp_to_millis_since_epoch (to_ntp_time sent) ≤ 3900000000123)
    × (3900000000123 ≤ ntp_to_millis_since_epoch (to_ntp_time sent) + 1)
millis-to_ntp_time_example = millis-to_ntp_time sent (omega arith)

-- Forty milliseconds, of which ten are the receiver's.
get_rtt_ms_near_example :
    (get_rtt_ms (middle (to_ntp_time sent)) 655 (to_ntp_time sent) (some 5) 40000005
      ≡ rtt_ms (rtt_of sent 40000000 655))
    × (40000000 * 65536 ≤ rtt_of sent 40000000 655 * 65536000000 + 657 * 1000000000)
    × (rtt_of sent 40000000 655 * 65536000000 + 655 * 1000000000
        ≤ 40000000 * 65536 + 2000000000 + 65536000000)
unfolding to_ntp_time
get_rtt_ms_near_example =
    get_rtt_ms_near sent 40000000 655 5 (omega arith) (omega arith) (omega arith) (omega arith)
