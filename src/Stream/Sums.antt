-- ===== src/Stream/Sums.antt =====
-- The counters of the metrics against those of the buffer.
use sample_nodejs_server.Prelude.{
  ℕ, ◌+◌, ◌%◌, ◌<◌, ◌≡◌, refl, ap, ◌∙◌, true, false, List, [], ◌∷◌, arith, u32_mod, u64_mod, sub32,
}
use sample_nodejs_server.Buffer.State.{Stats}
use sample_nodejs_server.Stream.{Stream, Metrics, sub64, update_stats, calc_stats}

abbrev pub look_all : Stream → Metrics → List Stats → Stream × Metrics
look_all s m [] = (s, m)
look_all s m (x ∷ xs) = let (t, n) = calc_stats s m x in look_all t n xs

abbrev pub last_look : Stats → List Stats → Stats
last_look x [] = x
last_look x (y ∷ ys) = last_look y ys

-- The counters are machine words.
pub record IsWords (x : Stats) : Type 0 where
  pub packets : x.packet_count < u32_mod
  pub bytes : x.total_byte < u64_mod

abbrev pub AllWords : List Stats → Type 0
AllWords [] = Unit
AllWords (x ∷ xs) = IsWords x × AllWords xs

chain32 :
    (n a b c : ℕ)
    → a < u32_mod
    → b < u32_mod
    → c < u32_mod
    → (n + sub32 b a + sub32 c b) % u32_mod ≡ (n + sub32 c a) % u32_mod
chain32 n a b c x y z = omega (arith, x, y, z)

chain64 :
    (n a b c : ℕ)
    → a < u64_mod
    → b < u64_mod
    → c < u64_mod
    → (n + sub64 b a + sub64 c b) % u64_mod ≡ (n + sub64 c a) % u64_mod
chain64 n a b c x y z = omega (arith, x, y, z)

last_look-IsWords :
    (x : Stats) (xs : List Stats) → IsWords x → AllWords xs → IsWords (last_look x xs)
last_look-IsWords x [] w a = w
last_look-IsWords x (y ∷ ys) w a = last_look-IsWords y ys a.0 a.1

-- The counters after some looks at statistics that go on from these.
record Counts (m n : Metrics) (from to : Stats) : Type 0 where
  packets :
      n.packet_count % u32_mod
      ≡ (m.packet_count + sub32 to.packet_count from.packet_count) % u32_mod
  bytes : n.total_bytes % u64_mod ≡ (m.total_bytes + sub64 to.total_byte from.total_byte) % u64_mod

none_grown : (m : Metrics) (x : Stats) → IsWords x → Counts m m x x
none_grown m x w = record {
  packets = zero32 m.packet_count x.packet_count w.packets;
  bytes = zero64 m.total_bytes x.total_byte w.bytes;
}
  where
    zero32 : (n a : ℕ) → a < u32_mod → n % u32_mod ≡ (n + sub32 a a) % u32_mod
    zero32 n a h = omega (arith, h)

    zero64 : (n a : ℕ) → a < u64_mod → n % u64_mod ≡ (n + sub64 a a) % u64_mod
    zero64 n a h = omega (arith, h)

look_all-Counts :
    (s : Stream) (m : Metrics) (xs : List Stats)
    → s.has_stats ≡ true
    → IsWords s.last_stats
    → AllWords xs
    → Counts m (look_all s m xs).1 s.last_stats (last_look s.last_stats xs)
unfolding calc_stats update_stats
look_all-Counts s m [] h w a = none_grown m s.last_stats w
look_all-Counts s m (x ∷ xs) h w a =
    let (t, n) = calc_stats s m x in
    let rest = look_all-Counts t n xs refl a.0 a.1 in
    let z = last_look-IsWords x xs a.0 a.1 in
    let l = s.last_stats in
    let packets : n.packet_count ≡ m.packet_count + sub32 x.packet_count l.packet_count =
      rw h refl in
    let bytes : n.total_bytes ≡ m.total_bytes + sub64 x.total_byte l.total_byte = rw h refl in
    record {
      packets =
          rest.packets
          ∙ (ap (λ (k : ℕ). (k + sub32 (last_look x xs).packet_count x.packet_count) % u32_mod)
                packets
              ∙ chain32 m.packet_count l.packet_count x.packet_count (last_look x xs).packet_count
                  w.packets a.0.packets z.packets);
      bytes =
          rest.bytes
          ∙ (ap (λ (k : ℕ). (k + sub64 (last_look x xs).total_byte x.total_byte) % u64_mod) bytes
              ∙ chain64 m.total_bytes l.total_byte x.total_byte (last_look x xs).total_byte w.bytes
                  a.0.bytes z.bytes);
    }

-- A stream without statistics is looked at any number of times, from a first one on. What the
-- metrics count up by is, modulo 2^32 for the packets and 2^64 for the bytes, the difference of the
-- last and the first counter of the buffer, for counters that are such words.
pub look_all-sums :
    (s : Stream) (m : Metrics) (x : Stats) (xs : List Stats)
    → s.has_stats ≡ false
    → IsWords x
    → AllWords xs
    → let n = (look_all s m (x ∷ xs)).1 in
      let to = last_look x xs in
      (n.packet_count % u32_mod ≡ (m.packet_count + sub32 to.packet_count x.packet_count) % u32_mod)
      × (n.total_bytes % u64_mod ≡ (m.total_bytes + sub64 to.total_byte x.total_byte) % u64_mod)
unfolding calc_stats update_stats
look_all-sums s m x xs h w a =
    let (t, n) = calc_stats s m x in
    let rest = look_all-Counts t n xs refl w a in
    let to = last_look x xs in
    let packets : n.packet_count ≡ m.packet_count = rw h refl in
    let bytes : n.total_bytes ≡ m.total_bytes = rw h refl in
    (
      rest.packets ∙ ap (λ (k : ℕ). (k + sub32 to.packet_count x.packet_count) % u32_mod) packets,
      rest.bytes ∙ ap (λ (k : ℕ). (k + sub64 to.total_byte x.total_byte) % u64_mod) bytes,
    )
