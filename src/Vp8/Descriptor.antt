-- ===== src/Vp8/Descriptor.antt =====
-- What `Unmarshal` makes of a descriptor.
use sample_nodejs_server.Prelude.{
  ℕ, zero, suc, ◌+◌, ◌*◌, ◌/◌, ◌%◌, ◌<◌, ◌≡◌, refl, Bool, true, false, ◌&&◌, ◌||◌, List, [], ◌∷◌,
  ◌++◌, Option, none, some, arith, ◌==◌, length, drop, le→ltb, lt→leb,
}
use sample_nodejs_server.Vp8.{
  Vp8, Scan, go, byte_at, next_byte, has_bit, read_picture_id, read_tl0_pic_idx, read_tid,
  read_key_frame, read_extended, unmarshal,
}
use sample_nodejs_server.Vp8.Layout.{
  Descriptor, IsPictureId, IsValid, PictureId, bit, ext_byte, has_id, has_tl0, long_id, no_id,
  payload_bytes, picture_bytes, short_id, tid_bytes, tl0_bytes, with_descriptor, with_picture,
  with_tid, with_tl0,
}

drop-byte :
    (l rest : List ℕ) (v i : ℕ) (p : Vp8) (f : ℕ → Scan)
    → drop i l ≡ v ∷ rest
    → (i < length l) × (byte_at l i p f ≡ f v) × (drop (suc i) l ≡ rest)
unfolding byte_at
drop-byte [] rest v zero p f h = absurd (empty h)
  where
    empty : {a : ℕ} {r : List ℕ} → ¬ ([] ≡ a ∷ r)
    empty e = cc
drop-byte [] rest v (suc i) p f h = absurd (empty h)
  where
    empty : {a : ℕ} {r : List ℕ} → ¬ ([] ≡ a ∷ r)
    empty e = cc
drop-byte (x ∷ l) rest v zero p f h = (omega arith, cc, cc)
drop-byte (x ∷ l) rest v (suc i) p f h =
    let (lt, at, next) = drop-byte l rest v i p f h in (omega arith, at, next)

next_byte-drop :
    (l rest : List ℕ) (v idx : ℕ) (p : Vp8) (f : ℕ → ℕ → Scan)
    → drop (idx + 1) l ≡ v ∷ rest
    → next_byte l p idx f ≡ f (idx + 1) v
unfolding next_byte
next_byte-drop l rest v idx p f h =
    let (lt, at, next) = drop-byte l rest v (idx + 1) p (f (idx + 1)) h in
    rw (le→ltb (length l) (idx + 2) (omega arith)) at

drop-next : (l rest : List ℕ) (v i j : ℕ) → drop i l ≡ v ∷ rest → j ≡ i + 1 → drop j l ≡ rest
drop-next l rest v i j h e =
    let next = (drop-byte l rest v i fresh (go fresh) h).2 in
    let s : j ≡ suc i = omega arith in rw s next
  where
    fresh : Vp8
    fresh = record {
      temporal_supported = false;
      picture_id = 0;
      pic_id_idx = 0;
      m_bit = false;
      tl0_pic_idx = 0;
      tlz_idx = 0;
      tid = 0;
      is_key_frame = false;
    }

-- The four flags of the extension byte.
flags :
    (i l t k : Bool)
    → (has_bit 128 (ext_byte i l t k) ≡ i)
      × (has_bit 64 (ext_byte i l t k) ≡ l)
      × (has_bit 32 (ext_byte i l t k) ≡ t)
      × (has_bit 16 (ext_byte i l t k) ≡ k)
flags i l t k = ground arith

-- One stage has read its bytes, and the rest comes next.
abbrev Reads : List ℕ → List ℕ → Scan → Vp8 → ℕ → Type 0
Reads l rest s p idx = (s ≡ go p idx) × (drop (idx + 1) l ≡ rest)

picture_id-Reads :
    (l rest : List ℕ) (d : PictureId) (ext idx : ℕ) (p : Vp8)
    → drop (idx + 1) l ≡ picture_bytes d ++ rest
    → IsPictureId d
    → has_bit 128 ext ≡ has_id d
    → Reads l rest
        (read_picture_id l ext p idx)
        (with_picture d p (idx + 1))
        (idx + length (picture_bytes d))
unfolding read_picture_id
picture_id-Reads l rest no_id ext idx p h small flag =
    let z : idx + 0 ≡ idx = omega arith in (rw (flag, z), rw z h)
picture_id-Reads l rest (short_id n) ext idx p h small flag =
    let one : has_bit 128 n ≡ false = ground arith in
    let same : n % 128 ≡ n = omega arith in
    (
      rw (flag, next_byte-drop l rest n idx p _ h, one, same) refl,
      drop-next l rest n (idx + 1) (idx + 1 + 1) h (omega arith),
    )
picture_id-Reads l rest (long_id high low) ext idx p h small flag =
    let one : has_bit 128 (128 + high) ≡ true = ground arith in
    let same : (128 + high) % 128 ≡ high = omega arith in
    let two : idx + 1 + 1 ≡ idx + 2 = omega arith in
    let next = drop-next l (low ∷ rest) (128 + high) (idx + 1) (idx + 1 + 1) h (omega arith) in
    (
      rw
          (
            flag,
            next_byte-drop l (low ∷ rest) (128 + high) idx p _ h,
            one,
            next_byte-drop l rest low (idx + 1) _ _ next,
            same,
            two,
          )
          refl,
      drop-next l rest low (idx + 1 + 1) (idx + 2 + 1) next (omega arith),
    )

tl0-Reads :
    (l rest : List ℕ) (tl0 : Option ℕ) (ext idx : ℕ) (p : Vp8)
    → drop (idx + 1) l ≡ tl0_bytes tl0 ++ rest
    → has_bit 64 ext ≡ has_tl0 tl0
    → Reads l rest
        (read_tl0_pic_idx l ext p idx)
        (with_tl0 tl0 p (idx + 1))
        (idx + length (tl0_bytes tl0))
unfolding read_tl0_pic_idx
tl0-Reads l rest none ext idx p h flag =
    let z : idx + 0 ≡ idx = omega arith in (rw (flag, z), rw z h)
tl0-Reads l rest (some n) ext idx p h flag =
    let long = (drop-byte l rest n (idx + 1) p (go p) h).0 in
    (
      rw (flag, next_byte-drop l rest n idx p _ h, lt→leb (length l) (idx + 1) long) refl,
      drop-next l rest n (idx + 1) (idx + 1 + 1) h (omega arith),
    )

tid-Reads :
    (l rest : List ℕ) (on : Bool) (tid low ext idx : ℕ) (p : Vp8)
    → drop (idx + 1) l ≡ tid_bytes on tid low ++ rest
    → tid < 4
    → low < 64
    → (p.temporal_supported || has_bit 16 ext) ≡ on
    → Reads l rest (read_tid l ext p idx) (with_tid on tid p) (idx + length (tid_bytes on tid low))
unfolding read_tid
tid-Reads l rest true tid low ext idx p h small_tid small_low flag =
    let same : (tid * 64 + low) / 64 % 4 ≡ tid = omega arith in
    (
      rw (flag, next_byte-drop l rest (tid * 64 + low) idx p _ h, same) refl,
      drop-next l rest (tid * 64 + low) (idx + 1) (idx + 1 + 1) h (omega arith),
    )
tid-Reads l rest false tid low ext idx p h small_tid small_low flag =
    let z : idx + 0 ≡ idx = omega arith in (rw (flag, z), rw z h)

supports :
    (pic : PictureId) (tl0 : Option ℕ) (p : Vp8) (i j : ℕ)
    → (with_tl0 tl0 (with_picture pic p i) j).temporal_supported ≡ p.temporal_supported
supports no_id none p i j = refl
supports (short_id _) none p i j = refl
supports (long_id _ _) none p i j = refl
supports no_id (some _) p i j = refl
supports (short_id _) (some _) p i j = refl
supports (long_id _ _) (some _) p i j = refl

module _ (d : Descriptor) (p : Vp8) (x : ℕ) (rest : List ℕ) where
  abbrev after_tid_byte : List ℕ
  after_tid_byte = x ∷ rest

  abbrev after_tl0_byte : List ℕ
  after_tl0_byte = tid_bytes (d.t || d.k) d.tid d.low ++ after_tid_byte

  abbrev after_picture : ℕ
  after_picture = 1 + length (picture_bytes d.picture)

  abbrev after_tl0 : ℕ
  after_tl0 = after_picture + length (tl0_bytes d.tl0)

  abbrev after_tid : ℕ
  after_tid = after_tl0 + length (tid_bytes (d.t || d.k) d.tid d.low)

  read_extended_lem :
      IsValid d
      → read_extended (payload_bytes d (x ∷ rest)) d.start p
        ≡ go (record (with_descriptor d p) { is_key_frame = x % 2 == 0 && d.start }) (after_tid + 1)
  unfolding read_extended read_key_frame
  read_extended_lem v =
      let payload = payload_bytes d (x ∷ rest) in
      let ext = ext_byte (has_id d.picture) (has_tl0 d.tl0) d.t d.k in
      let (i_flag, l_flag, t_flag, k_flag) = flags (has_id d.picture) (has_tl0 d.tl0) d.t d.k in
      let p₀ : Vp8 = record p { temporal_supported = d.t } in
      let p₁ : Vp8 = with_picture d.picture p₀ 2 in
      let p₂ : Vp8 = with_tl0 d.tl0 p₁ (after_picture + 1) in
      let picture =
        picture_id-Reads payload (tl0_bytes d.tl0 ++ after_tl0_byte) d.picture ext 1 p₀ refl
          v.picture i_flag in
      let tl0 = tl0-Reads payload after_tl0_byte d.tl0 ext after_picture p₁ picture.1 l_flag in
      let on : (p₂.temporal_supported || has_bit 16 ext) ≡ (d.t || d.k) =
        rw (supports d.picture d.tl0 p₀ 2 (after_picture + 1), k_flag) refl in
      let tid =
        tid-Reads payload after_tid_byte (d.t || d.k) d.tid d.low ext after_tl0 p₂ tl0.1 v.tid v.low
          on in
      let long = (drop-byte payload rest x (after_tid + 1) p (go p) tid.1).0 in
      rw
        (
          next_byte-drop payload _ ext 0 p _ refl,
          t_flag,
          picture.0,
          tl0.0,
          tid.0,
          lt→leb (length payload) after_tid (omega arith),
          next_byte-drop payload rest x after_tid _ _ tid.1,
        )
        refl

first_flags : (s : Bool) → (has_bit 128 (128 + bit 16 s) ≡ true) × (has_bit 16 (128 + bit 16 s) ≡ s)
first_flags s = ground arith

-- `Unmarshal` of a valid extended descriptor followed by a byte of the frame and anything else
-- returns no error. It sets every field that the descriptor has, with the index of each optional
-- byte, leaves the others, and reports a key frame exactly for an even frame byte at the start of a
-- partition.
pub unmarshal-payload_bytes :
    (d : Descriptor) (p : Vp8) (x : ℕ) (rest : List ℕ)
    → IsValid d
    → unmarshal p (some (payload_bytes d (x ∷ rest)))
      ≡ (record (with_descriptor d p) { is_key_frame = x % 2 == 0 && d.start }, none)
unfolding unmarshal byte_at
unmarshal-payload_bytes d p x rest v =
    let payload = payload_bytes d (x ∷ rest) in
    let (extended, start) = first_flags d.start in
    rw (le→ltb (length payload) 1 (omega arith), extended, start, read_extended_lem d p x rest v)
      refl
