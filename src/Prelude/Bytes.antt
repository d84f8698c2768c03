-- ===== src/Prelude/Bytes.antt =====
-- A Go byte array as a function from its indices, and `encoding/binary`'s big-endian accesses.
use Prim.Native.Nat.{ℕ, zero, suc, ◌+◌, ◌-◌, ◌*◌, ◌/◌, ◌%◌, ◌≤◌, ◌<◌}
use mathlib.Core.Path.{◌≡◌, refl, ap₂}
use mathlib.Core.Bool.{◌&&◌}
use mathlib.Core.Logic.{◌⊎◌}
use mathlib.Core.List.{List, [], ◌∷◌}
use native.Mathlib.Omega.{arith}
use native.Mathlib.Nat.{add-zero}
use sample_nodejs_server.Prelude.Tests.{ltb, leb, ◌==◌, if◌then◌else◌}
use sample_nodejs_server.Prelude.Lists.{length, get_or}

abbrev pub Memory : Type 0
Memory = ℕ → ℕ

-- `binary.BigEndian.Uint16(buf[off:])`.
unfoldable pub get_u16 : Memory → ℕ → ℕ
get_u16 buf off = buf off * 256 + buf (off + 1)

-- `binary.BigEndian.PutUint16(buf[off:], v)`.
unfoldable pub put_u16 : Memory → ℕ → ℕ → Memory
put_u16 buf off v i = if i == off then v / 256 % 256 else if i == off + 1 then v % 256 else buf i

-- `copy(buf[off:], src)`, where `size` is `len(buf)`: what does not fit is not copied.
unfoldable pub copy_at : Memory → ℕ → ℕ → List ℕ → Memory
copy_at buf size off src i =
    if leb off i && ltb i (off + length src) && ltb i size then get_or src (i - off) 0 else buf i

-- `buf[off : off+n]`.
unfoldable pub slice : Memory → ℕ → ℕ → List ℕ
slice buf off zero = []
slice buf off (suc n) = buf off ∷ slice buf (off + 1) n

pub get-put : (buf : Memory) (off v : ℕ) → v < 65536 → get_u16 (put_u16 buf off v) off ≡ v
unfolding get_u16 put_u16
get-put buf off v h = ground arith

pub get-copy_ne :
    (buf : Memory) (size off : ℕ) (src : List ℕ) (i : ℕ)
    → (i + 1 < off) ⊎ (off + length src ≤ i)
    → get_u16 (copy_at buf size off src) i ≡ get_u16 buf i
unfolding get_u16 copy_at
get-copy_ne buf size off src i h = ground arith

pub slice_congr :
    (a b : Memory) (off n : ℕ)
    → ((i : ℕ) → off ≤ i → i < off + n → a i ≡ b i)
    → slice a off n ≡ slice b off n
unfolding slice
slice_congr a b off zero h = refl
slice_congr a b off (suc n) h =
    ap₂ ◌∷◌ (h off (omega arith) (omega arith))
      (slice_congr a b (off + 1) n (λ i p q. h i (omega arith) (omega arith)))

slice_of_get :
    (buf : Memory) (off : ℕ) (src : List ℕ)
    → ((i : ℕ) → i < length src → buf (off + i) ≡ get_or src i 0)
    → slice buf off (length src) ≡ src
unfolding slice
slice_of_get buf off [] h = refl
slice_of_get buf off (x ∷ xs) h =
    ap₂ ◌∷◌ (rw (add-zero) at (h 0 (omega arith))) (slice_of_get buf (off + 1) xs (λ i p. next i p))
  where
    next : (i : ℕ) → i < length xs → buf (off + 1 + i) ≡ get_or xs i 0
    next i p = let e : off + suc i ≡ off + 1 + i = omega arith in rw (← e) (h (suc i) (omega arith))

-- What was copied is read back.
pub slice-copy :
    (buf : Memory) (size off : ℕ) (src : List ℕ)
    → off + length src ≤ size
    → slice (copy_at buf size off src) off (length src) ≡ src
unfolding copy_at
slice-copy buf size off src h = slice_of_get _ off src (λ i p. at i p)
  where
    at : (i : ℕ) → i < length src → copy_at buf size off src (off + i) ≡ get_or src i 0
    at i p = let e : off + i - off ≡ i = omega arith in ground (arith, e)
