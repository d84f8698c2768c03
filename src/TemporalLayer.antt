-- ===== src/TemporalLayer.antt =====
-- ion-sfu/pkg/sfu/helpers.go: the indices of a VP8 payload are rewritten for a subscriber. `none` is
-- the panic of an index out of range.
pub mod Rewrite
mod Tests
use sample_nodejs_server.Prelude.{
  ℕ, ◌+◌, ◌/◌, ◌%◌, Bool, List, Option, none, some, ltb, if◌then◌else◌, length, set,
}

-- `payload[i] = v`.
unfoldable pub set_byte : List ℕ → ℕ → ℕ → Option (List ℕ)
set_byte payload i v = if ltb i (length payload) then some (set payload i v) else none

abbrev pub and_then {ℓ} : {A : Type ℓ} → Option A → (A → Option A) → Option A
and_then none f = none
and_then (some a) f = f a

-- `pid[0]` and `pid[1]` are the bytes of `picID`; `v |= 0x80` is written `128 + v % 128`.
unfoldable pub modify_vp8_temporal_payload : List ℕ → ℕ → ℕ → ℕ → ℕ → Bool → Option (List ℕ)
unfolding set_byte
modify_vp8_temporal_payload payload pic_id_idx tlz0_idx pic_id tlz0_id m_bit =
    and_then (set_byte payload pic_id_idx (pic_id / 256)) λ buf₁.
      and_then
        (if m_bit
          then and_then (set_byte buf₁ pic_id_idx (128 + pic_id / 256 % 128))
              (λ buf₂. set_byte buf₂ (pic_id_idx + 1) (pic_id % 256))
          else some buf₁)
        λ buf₃. set_byte buf₃ tlz0_idx tlz0_id
