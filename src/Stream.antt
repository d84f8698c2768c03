-- ===== src/Stream.antt =====
-- ion-sfu/pkg/stats/stream.go: what the counters of a buffer grew by between two looks at them, and
-- the metrics that are counted up by it. Prometheus is a record of what it is given.
pub mod Sums
mod Tests
use sample_nodejs_server.Prelude.{
  ℕ, ◌+◌, ◌-◌, ◌%◌, Bool, false, true, List, [], ◌∷◌, ◌++◌, if◌then◌else◌, u64_mod, sub32,
}
use sample_nodejs_server.Buffer.State.{Stats, no_stats}

pub record Stream : Type 0 where
  pub cname : List ℕ
  pub drift_in_millis : ℕ
  pub has_stats : Bool
  pub last_stats : Stats
  pub diff_stats : Stats

abbrev pub new_stream : Stream
new_stream = record {
  cname = [];
  drift_in_millis = 0;
  has_stats = false;
  last_stats = no_stats;
  diff_stats = no_stats;
}

abbrev pub sub64 : ℕ → ℕ → ℕ
sub64 a b = (a + u64_mod - b) % u64_mod

abbrev pub grown : Stats → Stats → Stats → Stats
grown diff last now = record diff {
  last_expected = sub32 now.last_expected last.last_expected;
  last_received = sub32 now.last_received last.last_received;
  packet_count = sub32 now.packet_count last.packet_count;
  total_byte = sub64 now.total_byte last.total_byte;
}

-- Whether there were statistics before, and the difference from them.
unfoldable pub update_stats : Stream → Stats → Stream × (Bool × Stats)
update_stats s stats =
    let diff = if s.has_stats then grown s.diff_stats s.last_stats stats else s.diff_stats in
    (record s { diff_stats = diff; last_stats = stats; has_stats = true }, (s.has_stats, diff))

-- The counters, and what the histograms observed, the last one last.
pub record Metrics : Type 0 where
  pub expected_count : ℕ
  pub received_count : ℕ
  pub packet_count : ℕ
  pub total_bytes : ℕ
  pub drift : List ℕ
  pub expected_minus_received : List ℕ
  pub lost_rate : List ℕ
  pub jitter : List ℕ

abbrev pub add_diff : Metrics → Stats → Metrics
add_diff m d = record m {
  expected_count = m.expected_count + d.last_expected;
  received_count = m.received_count + d.last_received;
  packet_count = m.packet_count + d.packet_count;
  total_bytes = m.total_bytes + d.total_byte;
}

abbrev pub add_observations : Metrics → ℕ → Stats → Metrics
add_observations m drift_in_millis stats = record m {
  drift = m.drift ++ (drift_in_millis ∷ []);
  expected_minus_received =
      m.expected_minus_received ++ (sub32 stats.last_expected stats.last_received ∷ []);
  lost_rate = m.lost_rate ++ (stats.lost_rate ∷ []);
  jitter = m.jitter ++ (stats.jitter ∷ []);
}

unfoldable pub calc_stats : Stream → Metrics → Stats → Stream × Metrics
unfolding update_stats
calc_stats s m buffer_stats =
    let (t, (had_stats, diff)) = update_stats s buffer_stats in
    let counted = if had_stats then add_diff m diff else m in
    (t, add_observations counted s.drift_in_millis buffer_stats)
