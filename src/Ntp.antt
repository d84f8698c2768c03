-- ===== src/Ntp.antt =====
-- ion-sfu/pkg/sfu/helpers.go and ion-sfu/pkg/mediatransportutil/helpers.go: NTP times of 64 bits,
-- whose upper half counts seconds and whose lower half their 2^32nd parts. A Go time is its distance
-- from 1900 in nanoseconds, which a `Duration` holds until the year 2192.
pub mod RoundTrip
mod Tests
use sample_nodejs_server.Prelude.{
  ℕ, ◌+◌, ◌-◌, ◌*◌, ◌/◌, ◌%◌, Bool, not, ◌&&◌, Option, none, some, ltb, leb, ◌==◌, if◌then◌else◌,
  sub32, u32_mod, u64_mod,
}

-- `Duration`; no product reaches 2^64.
unfoldable pub duration : ℕ → ℕ
duration t =
    let sec = t / 4294967296 * 1000000000 in
    let frac = t % 4294967296 * 1000000000 in
    sec + (frac / 4294967296 + (if leb 2147483648 (frac % 4294967296) then 1 else 0))

-- `toNtpTime`; the fraction stays below 2^32, so `|` is `+`.
unfoldable pub to_ntp_time : ℕ → ℕ
to_ntp_time t =
    let sec = t / 1000000000 in
    let nsec = (t - sec * 1000000000) * 4294967296 in
    let frac = nsec / 1000000000 + (if leb 500000000 (nsec % 1000000000) then 1 else 0) in
    sec * 4294967296 % u64_mod + frac

unfoldable pub ntp_to_millis_since_epoch : ℕ → ℕ
ntp_to_millis_since_epoch ntp = ntp % 4294967296 * 1000 / 4294967296 + ntp / 4294967296 * 1000

pub data RttError : Type 0 where
  no_last_sender_report not_last_sender_report no_last_send_time anachronous_sender_report :
      RttError

pub data Rtt : Type 0 where
  rtt_ms : ℕ → Rtt
  failed : RttError → Rtt

-- `uint32(ntp >> 16)`, the middle of an NTP time.
abbrev pub middle : ℕ → ℕ
middle ntp = ntp / 65536 % u32_mod

-- From the current NTP time on; `float64` is exact here, and `Ceil` rounds up.
unfoldable pub rtt_from : ℕ → ℕ → ℕ → Rtt
rtt_from now_ntp last_sender_report delay =
    let ntp_diff = sub32 (sub32 now_ntp last_sender_report) delay in
    if ltb now_ntp ((last_sender_report + delay) % u32_mod)
    then failed anachronous_sender_report
    else rtt_ms ((ntp_diff * 1000 + 65535) / 65536)

-- `LastSenderReport` and `Delay` of the report; without a time of the last one, `lastSentAt` is zero.
unfoldable pub get_rtt_ms_from : ℕ → ℕ → ℕ → Option ℕ → ℕ → Rtt
unfolding rtt_from duration to_ntp_time
get_rtt_ms_from last_sender_report delay last_sr_ntp none now = failed no_last_send_time
get_rtt_ms_from last_sender_report delay last_sr_ntp (some last_sent_at) now =
    rtt_from (middle (to_ntp_time (duration last_sr_ntp + (now - last_sent_at)))) last_sender_report
      delay

unfoldable pub get_rtt_ms : ℕ → ℕ → ℕ → Option ℕ → ℕ → Rtt
unfolding get_rtt_ms_from
get_rtt_ms last_sender_report delay last_sr_ntp last_sent_at now =
    if last_sender_report == 0
    then failed no_last_sender_report
    else if not (last_sender_report == middle last_sr_ntp)
    then failed not_last_sender_report
    else get_rtt_ms_from last_sender_report delay last_sr_ntp last_sent_at now

-- `ignoreLast`: from the report alone.
unfoldable pub get_rtt_ms_from_receiver_report_only : ℕ → ℕ → ℕ → Rtt
unfolding rtt_from to_ntp_time
get_rtt_ms_from_receiver_report_only last_sender_report delay now =
    if last_sender_report == 0
    then failed no_last_sender_report
    else rtt_from (middle (to_ntp_time now)) last_sender_report delay
