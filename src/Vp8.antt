-- ===== src/Vp8.antt =====
-- ion-sfu/pkg/buffer/helpers.go: the VP8 payload descriptor at the head of a packet. An index out of
-- range, which is a panic in Go, is an error of its own.
pub mod Safety
pub mod Layout
pub mod Descriptor
mod Tests
use sample_nodejs_server.Prelude.{
  ℕ, ◌+◌, ◌*◌, ◌/◌, ◌%◌, Bool, true, false, ◌&&◌, ◌||◌, List, Option, none, some, ltb, leb, ◌==◌,
  if◌then◌else◌, length, get_elem?,
}

pub record Vp8 : Type 0 where
  pub temporal_supported : Bool
  pub picture_id : ℕ
  pub pic_id_idx : ℕ
  pub m_bit : Bool
  pub tl0_pic_idx : ℕ
  pub tlz_idx : ℕ
  pub tid : ℕ
  pub is_key_frame : Bool

pub data Error : Type 0 where
  short_packet nil_packet index_out_of_range : Error

-- Where the parser is: it goes on behind an index, or it has returned an error.
pub data Scan : Type 0 where
  go : Vp8 → ℕ → Scan
  halt : Vp8 → Error → Scan

abbrev pub and_then : Scan → (Vp8 → ℕ → Scan) → Scan
and_then (go p idx) f = f p idx
and_then (halt p e) f = halt p e

-- `payload[idx]`.
unfoldable pub byte_at : List ℕ → ℕ → Vp8 → (ℕ → Scan) → Scan
byte_at payload idx p f = elim (get_elem? payload idx) [
  | none ↦ halt p index_out_of_range
  | some v ↦ f v
]

-- `idx++; if payloadLen < idx+1 { return errShortPacket }`, then the byte at `idx`.
unfoldable pub next_byte : List ℕ → Vp8 → ℕ → (ℕ → ℕ → Scan) → Scan
unfolding byte_at
next_byte payload p idx f =
    let read = byte_at payload (idx + 1) p (f (idx + 1)) in
    if ltb (length payload) (idx + 2) then halt p short_packet else read

-- `v & (1 << k) > 0`, with the bit's value.
abbrev pub has_bit : ℕ → ℕ → Bool
has_bit bit v = v / bit % 2 == 1

unfoldable pub read_picture_id : List ℕ → ℕ → Vp8 → ℕ → Scan
unfolding next_byte
read_picture_id payload ext p idx =
    if has_bit 128 ext
    then next_byte payload p idx (λ i v.
      let at = record p { pic_id_idx = i } in
      if has_bit 128 v
      then next_byte payload at i
          (λ j low. go (record at { m_bit = true; picture_id = v % 128 * 256 + low }) j)
      else go (record at { picture_id = v % 128 }) i)
    else go p idx

-- The second length check never fires.
unfoldable pub read_tl0_pic_idx : List ℕ → ℕ → Vp8 → ℕ → Scan
unfolding next_byte
read_tl0_pic_idx payload ext p idx =
    if has_bit 64 ext
    then next_byte payload p idx (λ i v.
      if leb (length payload) i
      then halt (record p { tlz_idx = i }) short_packet
      else go (record p { tlz_idx = i; tl0_pic_idx = v }) i)
    else go p idx

unfoldable pub read_tid : List ℕ → ℕ → Vp8 → ℕ → Scan
unfolding next_byte
read_tid payload ext p idx =
    if p.temporal_supported || has_bit 16 ext
    then next_byte payload p idx (λ i v. go (record p { tid = v / 64 % 4 }) i)
    else go p idx

-- The frame is a key frame if the P bit of the payload header is 0 at the start of a partition.
unfoldable pub read_key_frame : List ℕ → Bool → Vp8 → ℕ → Scan
unfolding next_byte
read_key_frame payload s p idx =
    next_byte payload p idx (λ i v. go (record p { is_key_frame = v % 2 == 0 && s }) i)

-- The descriptor with the extension byte.
unfoldable pub read_extended : List ℕ → Bool → Vp8 → Scan
unfolding next_byte read_picture_id read_tl0_pic_idx read_tid read_key_frame
read_extended payload s p = next_byte payload p 0 (λ i ext.
    let supported = record p { temporal_supported = has_bit 32 ext } in
    and_then (read_picture_id payload ext supported i) λ p₁ i₁.
      and_then (read_tl0_pic_idx payload ext p₁ i₁) λ p₂ i₂.
        and_then (read_tid payload ext p₂ i₂) λ p₃ i₃.
          if leb (length payload) i₃ then halt p₃ short_packet else read_key_frame payload s p₃ i₃)

abbrev pub outcome : Scan → Vp8 × Option Error
outcome (go p idx) = (p, none)
outcome (halt p e) = (p, some e)

-- `Unmarshal`; `none` is the nil slice.
unfoldable pub unmarshal : Vp8 → Option (List ℕ) → Vp8 × Option Error
unfolding read_extended
unmarshal p none = (p, some nil_packet)
unmarshal p (some payload) = outcome (
    if ltb (length payload) 1
    then halt p short_packet
    else byte_at payload 0 p (λ v.
      if has_bit 128 v
      then read_extended payload (has_bit 16 v) p
      else read_key_frame payload (has_bit 16 v) p 0))
