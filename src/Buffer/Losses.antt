-- ===== src/Buffer/Losses.antt =====
-- The losses that a receiver report states.
use native.Mathlib.Nat.{div-lt_iff_lt-mul, zero-div, mul-div_cancel_left}
use sample_nodejs_server.Prelude.{
  ℕ, ◌+◌, ◌-◌, ◌*◌, ◌/◌, ◌%◌, ◌≤◌, ◌<◌, ◌≡◌, refl, sym, not, ◌&&◌, arith, ltb, ◌==◌, sub32, if_elim,
  ne→==, ==→eq, if◌then◌else◌,
}
use sample_nodejs_server.Buffer.State.{Buffer, Env}
use sample_nodejs_server.Buffer.Reports.{expected, fraction_lost, build_reception_report}

-- The packets expected and received since the last report.
abbrev pub expected_since : Buffer → ℕ
expected_since b = expected b - b.stats.last_expected

abbrev pub received_since : Buffer → ℕ
received_since b = b.stats.packet_count - b.stats.last_received

-- The counts have not wrapped around since the last report.
pub record IsCounting (b : Buffer) : Type 0 where
  pub expected_on : b.stats.last_expected < expected b
  pub received_on : b.stats.last_received ≤ b.stats.packet_count
  pub count_word : b.stats.packet_count < 4294967296
  pub short : expected_since b < 16777216

fraction_small : (e k : ℕ) → k < e → e < 16777216 → fraction_lost e k ≡ k * 256 / e
unfolding fraction_lost
fraction_small e k h small =
    let bound : k * 256 / e < 256 =
      (div-lt_iff_lt-mul {k = e} {x = k * 256} {y = 256} (omega arith)).1 (omega arith) in
    let word : k * 256 % 4294967296 ≡ k * 256 = omega arith in
    let share : k * 256 / e % 256 ≡ k * 256 / e = omega (arith, bound) in
    if_elim (λ r. r ≡ k * 256 / e) (not (e == 0) && ltb 0 k) (λ _. rw (word) share)
      (λ none_lost. let z : k ≡ 0 = ground (arith, none_lost) in rw (z) (sym (zero-div e)))

-- All of them lost: 256 units, of which a byte keeps none.
fraction_all : (e : ℕ) → 0 < e → e < 16777216 → fraction_lost e e ≡ 0
unfolding fraction_lost
fraction_all e some_there small =
    let word : e * 256 % 4294967296 ≡ e * 256 = omega arith in
    let all_of : e * 256 / e ≡ 256 = mul-div_cancel_left 256 some_there in
    if_elim (λ r. r ≡ 0) (not (e == 0) && ltb 0 e) (λ _. rw (word, all_of) refl) (λ _. refl)

-- A reception report on an interval in which packets were expected, fewer than 2^24 of them, no more
-- came than were expected, and the counts did not wrap around. If a packet came, it states the
-- share that was lost in units of 1/256, rounded down; if none came, it states that none was lost.
-- The next interval starts behind it.
pub report_interval :
    (env : Env) (now : ℕ) (b : Buffer)
    → IsCounting b
    → received_since b ≤ expected_since b
    → let (b', report) = build_reception_report env now b in
      (report.fraction_lost ≡ (
        if received_since b == 0
        then 0
        else (expected_since b - received_since b) * 256 / expected_since b))
      × (b'.stats.last_expected ≡ expected b)
      × (b'.stats.last_received ≡ b.stats.packet_count)
unfolding build_reception_report
report_interval env now b v all_expected =
    let e : sub32 (expected b) b.stats.last_expected ≡ expected_since b =
      omega (arith, v.expected_on) in
    let r : sub32 b.stats.packet_count b.stats.last_received ≡ received_since b =
      omega (arith, v.received_on, v.count_word) in
    let l : sub32 (sub32 (expected b) b.stats.last_expected)
          (sub32 b.stats.packet_count b.stats.last_received)
        ≡ expected_since b - received_since b =
      omega (arith, e, r, v.short) in
    (
      rw (l, e)
          (if_elim (λ n. fraction_lost (expected_since b) (expected_since b - received_since b) ≡ n)
            (received_since b == 0)
            (λ none_came.
              let z : expected_since b - received_since b ≡ expected_since b =
                omega (arith, ==→eq (received_since b) 0 none_came) in
              rw z (fraction_all (expected_since b) (omega (arith, v.expected_on)) v.short))
            (λ some_came.
              fraction_small (expected_since b) (expected_since b - received_since b)
                (ground (arith, some_came, v.expected_on)) v.short)),
      refl,
      refl,
    )

-- One packet more than expected, a late one from the interval before, makes the report state a loss
-- that is computed from 2^32 - 256.
pub report_late :
    (env : Env) (now : ℕ) (b : Buffer)
    → IsCounting b
    → received_since b ≡ expected_since b + 1
    → (build_reception_report env now b).1.fraction_lost ≡ 4294967040 / expected_since b % 256
unfolding build_reception_report fraction_lost
report_late env now b v late =
    let e : sub32 (expected b) b.stats.last_expected ≡ expected_since b =
      omega (arith, v.expected_on) in
    let r : sub32 b.stats.packet_count b.stats.last_received ≡ received_since b =
      omega (arith, v.received_on, v.count_word) in
    let l : sub32 (sub32 (expected b) b.stats.last_expected)
          (sub32 b.stats.packet_count b.stats.last_received)
        ≡ 4294967295 =
      omega (arith, e, r, v.short, late) in
    rw (l, e, ne→== (expected_since b) 0 (omega (arith, v.expected_on))) refl
