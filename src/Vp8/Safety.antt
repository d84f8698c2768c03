-- ===== src/Vp8/Safety.antt =====
-- `Unmarshal` reads no byte behind the end of the payload.
use sample_nodejs_server.Prelude.{
  ℕ, zero, suc, ◌+◌, ◌*◌, ◌/◌, ◌%◌, ◌<◌, ◌≢◌, Bool, true, ◌||◌, ◌&&◌, ◌==◌, List, [], ◌∷◌, Option,
  none, some, arith, ltb, leb, length, ltb→le, if_elim, if◌then◌else◌,
}
use sample_nodejs_server.Vp8.{
  Vp8, short_packet, index_out_of_range, Scan, go, halt, and_then, byte_at, next_byte, has_bit,
  read_picture_id, read_tl0_pic_idx, read_tid, read_key_frame, read_extended, outcome, unmarshal,
}

record Safe (s : Scan) : Type 0 where
  in_range : (outcome s).1 ≢ some index_out_of_range

short-Safe : (p : Vp8) → Safe (halt p short_packet)
short-Safe p = record { in_range = λ e. cc }

byte_at-Safe :
    (payload : List ℕ) (idx : ℕ) (p : Vp8) (f : ℕ → Scan)
    → idx < length payload
    → ((v : ℕ) → Safe (f v))
    → Safe (byte_at payload idx p f)
unfolding byte_at
byte_at-Safe [] idx p f h safe = absurd (omega arith)
byte_at-Safe (v ∷ payload) zero p f h safe = safe v
byte_at-Safe (v ∷ payload) (suc idx) p f h safe = byte_at-Safe payload idx p f (omega arith) safe

next_byte-Safe :
    (payload : List ℕ) (p : Vp8) (idx : ℕ) (f : ℕ → ℕ → Scan)
    → ((i v : ℕ) → Safe (f i v))
    → Safe (next_byte payload p idx f)
unfolding next_byte
next_byte-Safe payload p idx f safe =
    if_elim Safe (ltb (length payload) (idx + 2)) (λ _. short-Safe _)
      λ long.
        byte_at-Safe payload (idx + 1) p (f (idx + 1))
          (omega (arith, ltb→le (length payload) (idx + 2) long)) (safe (idx + 1))

and_then-Safe :
    (s : Scan) (f : Vp8 → ℕ → Scan)
    → Safe s
    → ((p : Vp8) (i : ℕ) → Safe (f p i))
    → Safe (and_then s f)
and_then-Safe (go p i) f h safe = safe p i
and_then-Safe (halt p e) f h safe = h

go-Safe : (p : Vp8) (i : ℕ) → Safe (go p i)
go-Safe p i = record { in_range = λ e. cc }

picture_id-Safe :
    (payload : List ℕ) (ext : ℕ) (p : Vp8) (idx : ℕ) → Safe (read_picture_id payload ext p idx)
unfolding read_picture_id
picture_id-Safe payload ext p idx =
    if_elim Safe (has_bit 128 ext)
      (λ _. next_byte-Safe payload p idx _ λ i v.
        let at : Vp8 = record p { pic_id_idx = i } in
        if_elim Safe (has_bit 128 v)
          (λ _.
            next_byte-Safe payload at i _
              λ j low. go-Safe (record at { m_bit = true; picture_id = v % 128 * 256 + low }) j)
          (λ _. go-Safe (record at { picture_id = v % 128 }) i))
      (λ _. go-Safe p idx)

tl0_pic_idx-Safe :
    (payload : List ℕ) (ext : ℕ) (p : Vp8) (idx : ℕ) → Safe (read_tl0_pic_idx payload ext p idx)
unfolding read_tl0_pic_idx
tl0_pic_idx-Safe payload ext p idx =
    if_elim Safe (has_bit 64 ext)
      (λ _. next_byte-Safe payload p idx _ λ i v.
        if_elim Safe (leb (length payload) i) (λ _. short-Safe (record p { tlz_idx = i }))
          (λ _. go-Safe (record p { tlz_idx = i; tl0_pic_idx = v }) i))
      (λ _. go-Safe p idx)

tid-Safe : (payload : List ℕ) (ext : ℕ) (p : Vp8) (idx : ℕ) → Safe (read_tid payload ext p idx)
unfolding read_tid
tid-Safe payload ext p idx =
    if_elim Safe (p.temporal_supported || has_bit 16 ext)
      (λ _. next_byte-Safe payload p idx _ (λ i v. go-Safe (record p { tid = v / 64 % 4 }) i))
      (λ _. go-Safe p idx)

key_frame-Safe :
    (payload : List ℕ) (s : Bool) (p : Vp8) (idx : ℕ) → Safe (read_key_frame payload s p idx)
unfolding read_key_frame
key_frame-Safe payload s p idx =
    next_byte-Safe payload p idx _ (λ i v. go-Safe (record p { is_key_frame = v % 2 == 0 && s }) i)

extended-Safe : (payload : List ℕ) (s : Bool) (p : Vp8) → Safe (read_extended payload s p)
unfolding read_extended
extended-Safe payload s p = next_byte-Safe payload p 0 _ λ i ext.
    and_then-Safe _ _
      (picture_id-Safe payload ext (record p { temporal_supported = has_bit 32 ext }) i)
      λ p₁ i₁. and_then-Safe _ _ (tl0_pic_idx-Safe payload ext p₁ i₁) λ p₂ i₂.
        and_then-Safe _ _ (tid-Safe payload ext p₂ i₂) λ p₃ i₃.
          if_elim Safe (leb (length payload) i₃) (λ _. short-Safe p₃)
            (λ _. key_frame-Safe payload s p₃ i₃)

-- `Unmarshal` never indexes out of range, on any payload of any length, nil included.
pub unmarshal_in_range :
    (p : Vp8) (payload : Option (List ℕ)) → (unmarshal p payload).1 ≢ some index_out_of_range
unfolding unmarshal
unmarshal_in_range p none = λ e. cc
unmarshal_in_range p (some payload) = scanned.in_range
  where
    scanned : Safe (
        if ltb (length payload) 1
        then halt p short_packet
        else byte_at payload 0 p (λ v.
          if has_bit 128 v
          then read_extended payload (has_bit 16 v) p
          else read_key_frame payload (has_bit 16 v) p 0))
    scanned =
        if_elim Safe (ltb (length payload) 1) (λ _. short-Safe _)
          λ long. byte_at-Safe payload 0 p _ (omega (arith, ltb→le (length payload) 1 long)) λ v.
            if_elim Safe (has_bit 128 v) (λ _. extended-Safe payload (has_bit 16 v) p)
              (λ _. key_frame-Safe payload (has_bit 16 v) p 0)
