-- ===== src/Stream/Tests.antt =====
-- The theorem at a counter that wraps around, and a run.
use sample_nodejs_server.Prelude.{ℕ, ◌+◌, ◌%◌, ◌≡◌, refl, [], ◌∷◌, arith, u32_mod, u64_mod, sub32}
use sample_nodejs_server.Buffer.State.{Stats, no_stats}
use sample_nodejs_server.Stream.{Metrics, new_stream, sub64, calc_stats}
use sample_nodejs_server.Stream.Sums.{look_all, look_all-sums}

abbrev no_metrics : Metrics
no_metrics = record {
  expected_count = 0;
  received_count = 0;
  packet_count = 0;
  total_bytes = 0;
  drift = [];
  expected_minus_received = [];
  lost_rate = [];
  jitter = [];
}

abbrev stats_of : ℕ → ℕ → Stats
stats_of packets bytes = record no_stats { packet_count = packets; total_byte = bytes }

look_all-sums_example :
    let n =
      (look_all new_stream no_metrics
        (stats_of 4294967290 100 ∷ (stats_of 4294967295 200 ∷ (stats_of 4 300 ∷ [])))).1 in
    (n.packet_count % u32_mod ≡ (0 + sub32 4 4294967290) % u32_mod)
    × (n.total_bytes % u64_mod ≡ (0 + sub64 300 100) % u64_mod)
look_all-sums_example =
    look_all-sums new_stream no_metrics (stats_of 4294967290 100)
      (stats_of 4294967295 200 ∷ (stats_of 4 300 ∷ [])) refl
      (record { packets = omega arith; bytes = omega arith })
      (
        record { packets = omega arith; bytes = omega arith },
        (record { packets = omega arith; bytes = omega arith }, tt),
      )

-- One packet more received than expected is observed as nearly 2^32 missing ones.
more_received :
    let m =
      (calc_stats new_stream no_metrics
        (record no_stats { last_expected = 3; last_received = 4 })).1 in
    m.expected_minus_received ≡ 4294967295 ∷ []
unfolding calc_stats
more_received = refl
