-- ===== src/Vp8/Tests.antt =====
-- The descriptors of the repository's test, and each theorem at a concrete payload.
use sample_nodejs_server.Prelude.{◌≡◌, ◌≢◌, refl, true, false, [], ◌∷◌, none, some, arith}
use sample_nodejs_server.Vp8.{Vp8, short_packet, index_out_of_range, unmarshal}
use sample_nodejs_server.Vp8.Safety.{unmarshal_in_range}
use sample_nodejs_server.Vp8.Layout.{Descriptor, long_id}
use sample_nodejs_server.Vp8.Descriptor.{unmarshal-payload_bytes}

abbrev blank : Vp8
blank = record {
  temporal_supported = false;
  picture_id = 0;
  pic_id_idx = 0;
  m_bit = false;
  tl0_pic_idx = 0;
  tlz_idx = 0;
  tid = 0;
  is_key_frame = false;
}

one_byte : (unmarshal blank (some (255 ∷ []))).1 ≡ some short_packet
unfolding unmarshal
one_byte = refl

abbrev full : Descriptor
full = record {
  start = true;
  picture = long_id 17 146;
  tl0 = some 180;
  t = true;
  k = false;
  tid = 1;
  low = 32;
}

abbrev parsed : Vp8
parsed = record {
  temporal_supported = true;
  picture_id = 4498;
  pic_id_idx = 2;
  m_bit = true;
  tl0_pic_idx = 180;
  tlz_idx = 4;
  tid = 1;
  is_key_frame = true;
}

unmarshal_in_range_example :
    (unmarshal blank (some (144 ∷ 224 ∷ 145 ∷ []))).1 ≢ some index_out_of_range
unmarshal_in_range_example = unmarshal_in_range blank (some (144 ∷ 224 ∷ 145 ∷ []))

unmarshal-payload_bytes_example :
    unmarshal blank (some (144 ∷ 224 ∷ 145 ∷ 146 ∷ 180 ∷ 96 ∷ 80 ∷ [])) ≡ (parsed, none)
unmarshal-payload_bytes_example =
    unmarshal-payload_bytes full blank 80 []
      (record { picture = omega arith; tid = omega arith; low = omega arith })
