-- ===== src/TemporalLayer/Tests.antt =====
-- Each theorem at a concrete payload.
use sample_nodejs_server.Prelude.{◌≡◌, true, false, [], ◌∷◌, some, none, arith}
use sample_nodejs_server.Vp8.{Vp8, unmarshal}
use sample_nodejs_server.Vp8.Layout.{Descriptor, no_id}
use sample_nodejs_server.TemporalLayer.{modify_vp8_temporal_payload}
use sample_nodejs_server.TemporalLayer.Rewrite.{modify-payload_bytes}

abbrev blank : Vp8
blank = record {
  temporal_supported = false;
  picture_id = 0;
  pic_id_idx = 0;
  m_bit = false;
  tl0_pic_idx = 0;
  tlz_idx = 0;
  tid = 0;
  is_key_frame = false;
}

abbrev layer : Descriptor
layer = record { start = true; picture = no_id; tl0 = none; t = true; k = false; tid = 1; low = 32 }

modify-payload_bytes_example :
    modify_vp8_temporal_payload (144 ∷ 224 ∷ 145 ∷ 146 ∷ 180 ∷ 96 ∷ 80 ∷ []) 2 4 300 7 true
    ≡ some (144 ∷ 224 ∷ 129 ∷ 44 ∷ 7 ∷ 96 ∷ 80 ∷ [])
unfolding unmarshal
modify-payload_bytes_example =
    modify-payload_bytes layer 17 146 180 300 7 80 blank []
      (record { picture = omega arith; tid = omega arith; low = omega arith })
