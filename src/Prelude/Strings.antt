-- ===== src/Prelude/Strings.antt =====
-- Strings as their bytes, with the functions of Go's package `strings` that the program calls.
use Prim.Native.Char.{code}
use Prim.Native.String.{String}
use sample_nodejs_server.Prelude.{
  ℕ, ◌+◌, ◌≡◌, ◌≢◌, refl, inl, inr, Bool, true, false, ◌&&◌, ◌||◌, List, [], ◌∷◌, map, arith, leb,
  ◌==◌, if◌then◌else◌, Bool-cases,
}
use mathlib.Core.Path.{ap₂}

-- The bytes of an ASCII literal.
abbrev pub text : String → List ℕ
text String.[] = []
text (String.◌∷◌ c s) = code c ∷ text s

-- `strings.HasPrefix`, the prefix last.
abbrev pub has_prefix : List ℕ → List ℕ → Bool
has_prefix s [] = true
has_prefix [] (c ∷ p) = false
has_prefix (b ∷ s) (c ∷ p) = b == c && has_prefix s p

abbrev pub same_text : List ℕ → List ℕ → Bool
same_text [] [] = true
same_text [] (c ∷ t) = false
same_text (b ∷ s) [] = false
same_text (b ∷ s) (c ∷ t) = b == c && same_text s t

abbrev pub listed : List (List ℕ) → List ℕ → Bool
listed [] m = false
listed (x ∷ xs) m = same_text x m || listed xs m

-- `strings.ToLower` on ASCII.
abbrev pub to_lower : List ℕ → List ℕ
to_lower = map (λ c. if leb 65 c && leb c 90 then c + 32 else c)

abbrev pub attach : ℕ → List (List ℕ) → List (List ℕ)
attach b [] = (b ∷ []) ∷ []
attach b (p ∷ ps) = (b ∷ p) ∷ ps

-- `strings.Split` by a separator of one byte.
unfoldable pub split : ℕ → List ℕ → List (List ℕ)
split sep [] = [] ∷ []
split sep (b ∷ s) = let rest = split sep s in if b == sep then [] ∷ rest else attach b rest

pub same_text→eq : (s t : List ℕ) → same_text s t ≡ true → s ≡ t
same_text→eq [] [] h = refl
same_text→eq [] (c ∷ t) h = cc
same_text→eq (b ∷ s) [] h = cc
same_text→eq (b ∷ s) (c ∷ t) h =
    let (x, y) : (b ≡ c) × (same_text s t ≡ true) = ground arith in
    ap₂ (λ z zs. z ∷ zs) x (same_text→eq s t y)

pub same_text_refl : (s : List ℕ) → same_text s s ≡ true
same_text_refl [] = refl
same_text_refl (b ∷ s) = ground (arith, same_text_refl s)

pub ne→same_text : (s t : List ℕ) → s ≢ t → same_text s t ≡ false
ne→same_text s t ne = elim (Bool-cases (same_text s t)) [
  | inl same ↦ absurd (ne (same_text→eq s t same))
  | inr differ ↦ differ
]
