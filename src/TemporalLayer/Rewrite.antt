-- ===== src/TemporalLayer/Rewrite.antt =====
-- What a rewritten payload says, by way of the parser of the descriptor.
use sample_nodejs_server.Prelude.{ℕ, ◌+◌, ◌/◌, ◌%◌, ◌<◌, ◌≡◌, false, true, List, ◌∷◌, some, arith}
use sample_nodejs_server.Vp8.{Vp8, unmarshal}
use sample_nodejs_server.Vp8.Layout.{
  Descriptor, IsValid, short_id, long_id, payload_bytes, with_descriptor-long,
  with_descriptor-short,
}
use sample_nodejs_server.Vp8.Descriptor.{unmarshal-payload_bytes}
use sample_nodejs_server.TemporalLayer.{set_byte, modify_vp8_temporal_payload}

abbrev pub with_long : Descriptor → ℕ → ℕ → ℕ → Descriptor
with_long d high low tl0 = record d { picture = long_id high low; tl0 = some tl0 }

abbrev pub with_short : Descriptor → ℕ → ℕ → Descriptor
with_short d n tl0 = record d { picture = short_id n; tl0 = some tl0 }

long_lem :
    (a b c e f pic_id tlz0_id : ℕ) (l : List ℕ)
    → modify_vp8_temporal_payload (a ∷ b ∷ c ∷ e ∷ f ∷ l) 2 4 pic_id tlz0_id true
      ≡ some (a ∷ b ∷ (128 + pic_id / 256 % 128) ∷ (pic_id % 256) ∷ tlz0_id ∷ l)
unfolding modify_vp8_temporal_payload set_byte
long_lem a b c e f pic_id tlz0_id l = ground arith

short_lem :
    (a b c e pic_id tlz0_id : ℕ) (l : List ℕ)
    → pic_id < 256
    → modify_vp8_temporal_payload (a ∷ b ∷ c ∷ e ∷ l) 2 3 pic_id tlz0_id false
      ≡ some (a ∷ b ∷ 0 ∷ tlz0_id ∷ l)
unfolding modify_vp8_temporal_payload set_byte
short_lem a b c e pic_id tlz0_id l small = ground arith

-- Rewriting a valid payload with a picture number of fifteen bits and a temporal index, at the
-- indices that `Unmarshal` has found, gives the payload with the lower fifteen bits of the new
-- number and the new index, and nothing else changed.
pub modify-payload_bytes :
    (d : Descriptor) (high low n pic_id tlz0_id x : ℕ) (p : Vp8) (rest : List ℕ)
    → IsValid (with_long d high low n)
    → let parsed = (unmarshal p (some (payload_bytes (with_long d high low n) (x ∷ rest)))).0 in
      modify_vp8_temporal_payload
        (payload_bytes (with_long d high low n) (x ∷ rest))
        parsed.pic_id_idx
        parsed.tlz_idx
        pic_id
        tlz0_id
        parsed.m_bit
      ≡ some (payload_bytes (with_long d (pic_id / 256 % 128) (pic_id % 256) tlz0_id) (x ∷ rest))
modify-payload_bytes d high low n pic_id tlz0_id x p rest v =
    let (pic, tlz, m) = with_descriptor-long d p high low n in
    rw (unmarshal-payload_bytes (with_long d high low n) p x rest v, pic, tlz, m)
      (long_lem _ _ _ _ _ pic_id tlz0_id _)

-- Rewriting a valid payload with a picture number of seven bits and a temporal index, at the indices
-- that `Unmarshal` has found into a `VP8` without the M bit, writes the number 0 for every new
-- picture number below 256.
pub modify_short :
    (d : Descriptor) (m n pic_id tlz0_id x : ℕ) (p : Vp8) (rest : List ℕ)
    → IsValid (with_short d m n)
    → p.m_bit ≡ false
    → pic_id < 256
    → let parsed = (unmarshal p (some (payload_bytes (with_short d m n) (x ∷ rest)))).0 in
      modify_vp8_temporal_payload
        (payload_bytes (with_short d m n) (x ∷ rest))
        parsed.pic_id_idx
        parsed.tlz_idx
        pic_id
        tlz0_id
        parsed.m_bit
      ≡ some (payload_bytes (with_short d 0 tlz0_id) (x ∷ rest))
modify_short d m n pic_id tlz0_id x p rest v fresh small =
    let (pic, tlz, kept) = with_descriptor-short d p m n in
    rw (unmarshal-payload_bytes (with_short d m n) p x rest v, pic, tlz, kept, fresh)
      (short_lem _ _ _ _ pic_id tlz0_id _ small)
