-- ===== src/Vp8/Layout.antt =====
-- Descriptors as RFC 7741 lays them out, and the fields that they set.
use sample_nodejs_server.Prelude.{
  ℕ, ◌+◌, ◌*◌, ◌<◌, ◌≡◌, refl, Bool, true, false, ◌||◌, List, [], ◌∷◌, ◌++◌, Option, none, some,
  length,
}
use sample_nodejs_server.Vp8.{Vp8}

-- The picture number: left out, of seven bits, or of fifteen.
pub data PictureId : Type 0 where
  no_id : PictureId
  short_id : ℕ → PictureId
  long_id : ℕ → ℕ → PictureId

-- `start` is the S bit; `t` and `k` say whether the temporal layer and the key index are there, both
-- in one byte with `tid` in its upper two bits and `low` in the others.
pub record Descriptor : Type 0 where
  pub start : Bool
  pub picture : PictureId
  pub tl0 : Option ℕ
  pub t : Bool
  pub k : Bool
  pub tid : ℕ
  pub low : ℕ

abbrev pub bit : ℕ → Bool → ℕ
bit v true = v
bit v false = 0

abbrev pub has_id : PictureId → Bool
has_id no_id = false
has_id (short_id _) = true
has_id (long_id _ _) = true

abbrev pub has_tl0 : Option ℕ → Bool
has_tl0 none = false
has_tl0 (some _) = true

abbrev pub ext_byte : Bool → Bool → Bool → Bool → ℕ
ext_byte i l t k = bit 128 i + bit 64 l + bit 32 t + bit 16 k

abbrev pub picture_bytes : PictureId → List ℕ
picture_bytes no_id = []
picture_bytes (short_id n) = n ∷ []
picture_bytes (long_id high low) = (128 + high) ∷ low ∷ []

abbrev pub tl0_bytes : Option ℕ → List ℕ
tl0_bytes none = []
tl0_bytes (some n) = n ∷ []

abbrev pub tid_bytes : Bool → ℕ → ℕ → List ℕ
tid_bytes true tid low = (tid * 64 + low) ∷ []
tid_bytes false tid low = []

-- A payload: the descriptor and what follows it.
abbrev pub payload_bytes : Descriptor → List ℕ → List ℕ
payload_bytes d body =
    (128 + bit 16 d.start)
    ∷ ext_byte (has_id d.picture) (has_tl0 d.tl0) d.t d.k
    ∷ (picture_bytes d.picture ++ (tl0_bytes d.tl0 ++ (tid_bytes (d.t || d.k) d.tid d.low ++ body)))

abbrev pub IsPictureId : PictureId → Type 0
IsPictureId no_id = Unit
IsPictureId (short_id n) = n < 128
IsPictureId (long_id high low) = high < 128

pub record IsValid (d : Descriptor) : Type 0 where
  pub picture : IsPictureId d.picture
  pub tid : d.tid < 4
  pub low : d.low < 64

abbrev pub with_picture : PictureId → Vp8 → ℕ → Vp8
with_picture no_id p idx = p
with_picture (short_id n) p idx = record p { picture_id = n; pic_id_idx = idx }
with_picture (long_id high low) p idx = record p {
  picture_id = high * 256 + low;
  pic_id_idx = idx;
  m_bit = true;
}

abbrev pub with_tl0 : Option ℕ → Vp8 → ℕ → Vp8
with_tl0 none p idx = p
with_tl0 (some n) p idx = record p { tl0_pic_idx = n; tlz_idx = idx }

abbrev pub with_tid : Bool → ℕ → Vp8 → Vp8
with_tid true tid p = record p { tid = tid }
with_tid false tid p = p

-- The fields that a descriptor sets, with the index of each optional byte.
abbrev pub with_descriptor : Descriptor → Vp8 → Vp8
with_descriptor d p =
    let q = with_picture d.picture (record p { temporal_supported = d.t }) 2 in
    with_tid (d.t || d.k) d.tid (with_tl0 d.tl0 q (1 + length (picture_bytes d.picture) + 1))

with_tid-indices :
    (on : Bool) (tid : ℕ) (q : Vp8)
    → let r = with_tid on tid q in
      (r.pic_id_idx ≡ q.pic_id_idx) × (r.tlz_idx ≡ q.tlz_idx) × (r.m_bit ≡ q.m_bit)
with_tid-indices true tid q = (refl, refl, refl)
with_tid-indices false tid q = (refl, refl, refl)

-- Where the indices stand behind a descriptor with both.
pub with_descriptor-long :
    (d : Descriptor) (p : Vp8) (high low n : ℕ)
    → let q = with_descriptor (record d { picture = long_id high low; tl0 = some n }) p in
      (q.pic_id_idx ≡ 2) × (q.tlz_idx ≡ 4) × (q.m_bit ≡ true)
with_descriptor-long d p high low n = with_tid-indices (d.t || d.k) d.tid (
    with_tl0 (some n) (with_picture (long_id high low) (record p { temporal_supported = d.t }) 2) 4)

pub with_descriptor-short :
    (d : Descriptor) (p : Vp8) (m n : ℕ)
    → let q = with_descriptor (record d { picture = short_id m; tl0 = some n }) p in
      (q.pic_id_idx ≡ 2) × (q.tlz_idx ≡ 3) × (q.m_bit ≡ p.m_bit)
with_descriptor-short d p m n =
    with_tid-indices (d.t || d.k) d.tid
      (with_tl0 (some n) (with_picture (short_id m) (record p { temporal_supported = d.t }) 2) 3)
