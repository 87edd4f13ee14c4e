-- ===== src/Prelude/Text.antt =====
-- Python's methods on texts that the program uses, over the code points of a text. `lower` maps
-- the ASCII letters: the program lowers field names and action types, which are ASCII.
use Prim.Native.Char.{code}
use Prim.Native.String.{String}
use mathlib.Core.List.{reverse}
use intelliq.Prelude.{
  ℕ, ◌+◌, Bool, true, false, ◌&&◌, ◌||◌, List, [], ◌∷◌, map, filter, not, leb, nat_beq, nat_eq,
  if◌then◌else◌, Eq, ◌≡◌, ◌↔◌, arith,
}

abbrev pub codes : String → List ℕ
codes String.[] = []
codes (String.◌∷◌ c s) = code c ∷ codes s

abbrev pub codes_beq : List ℕ → List ℕ → Bool
codes_beq [] [] = true
codes_beq [] (y ∷ ys) = false
codes_beq (x ∷ xs) [] = false
codes_beq (x ∷ xs) (y ∷ ys) = nat_beq x y && codes_beq xs ys

-- The characters for which `str.isspace` holds.
abbrev pub is_space : ℕ → Bool
is_space c =
    (leb 9 c && leb c 13)
    || (leb 28 c && leb c 32)
    || nat_beq c 133
    || nat_beq c 160
    || nat_beq c 5760
    || (leb 8192 c && leb c 8202)
    || nat_beq c 8232
    || nat_beq c 8233
    || nat_beq c 8239
    || nat_beq c 8287
    || nat_beq c 12288

unfoldable pub strip_left : List ℕ → List ℕ
strip_left [] = []
strip_left (c ∷ cs) = let rest = strip_left cs in if is_space c then rest else c ∷ cs

-- `s.strip()`
unfoldable pub strip : List ℕ → List ℕ
unfolding strip_left
strip cs = reverse (strip_left (reverse (strip_left cs)))

-- `s.lower()`
unfoldable pub lower : List ℕ → List ℕ
lower = map (λ c. if leb 65 c && leb c 90 then c + 32 else c)

-- `s.replace(a, b)` for single characters, and `s.replace(a, "")`
unfoldable pub replace_code : ℕ → ℕ → List ℕ → List ℕ
replace_code a b = map (λ c. if nat_beq c a then b else c)

unfoldable pub drop_code : ℕ → List ℕ → List ℕ
drop_code a = filter (λ c. not (nat_beq c a))

-- `s.startswith(t)`
unfoldable pub starts_with : List ℕ → List ℕ → Bool
starts_with cs [] = true
starts_with [] (t ∷ ts) = false
starts_with (c ∷ cs) (t ∷ ts) = nat_beq c t && starts_with cs ts

-- `s.endswith(t)`
unfoldable pub ends_with : List ℕ → List ℕ → Bool
unfolding starts_with
ends_with cs ts = starts_with (reverse cs) (reverse ts)

pub codes_beq_iff : (a b : List ℕ) → (codes_beq a b ≡ true) ↔ (a ≡ b)
codes_beq_iff [] [] = ground arith
codes_beq_iff [] (y ∷ ys) = ground arith
codes_beq_iff (x ∷ xs) [] = ground arith
codes_beq_iff (x ∷ xs) (y ∷ ys) = ground (arith, codes_beq_iff xs ys)

instance abbrev pub codes_eq : Eq (List ℕ)
codes_eq = record { beq = codes_beq; beq_iff = codes_beq_iff }
