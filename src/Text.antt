-- ===== src/Text.antt =====
-- Python's `str` operations that the program uses, on native texts: `len`, slices `[:n]`, `strip`,
-- `in`, `startswith`, and `lower` on the letters A to Z.
use Prim.Native.Char.{code}
use mathlib.Core.List
use Prim.Native.String.{[], ◌∷◌, ◌++◌ as ◌<>◌}
use hermes_hyperspacedb_prov.Prelude.{
  ℕ, zero, suc, ◌+◌, ◌≤◌, String, Bool, true, false, ◌&&◌, ◌||◌, leb, eqb, arith, if◌then◌else◌,
}

-- `len(s)`
unfoldable pub length : String → ℕ
length [] = 0
length (c ∷ s) = suc (length s)

-- `s[:n]`
unfoldable pub take : ℕ → String → String
take zero s = []
take (suc n) [] = []
take (suc n) (c ∷ s) = c ∷ take n s

-- the characters for which `str.isspace` holds
unfoldable pub is_space : ℕ → Bool
is_space c =
    (leb 9 c && leb c 13)
    || (leb 28 c && leb c 32)
    || eqb c 133
    || eqb c 160
    || eqb c 5760
    || (leb 8192 c && leb c 8202)
    || eqb c 8232
    || eqb c 8233
    || eqb c 8239
    || eqb c 8287
    || eqb c 12288

unfoldable pub is_empty : String → Bool
is_empty [] = true
is_empty (c ∷ s) = false

unfoldable pub lstrip : String → String
unfolding is_space
lstrip [] = []
lstrip (c ∷ s) = if is_space (code c) then lstrip s else c ∷ s

unfoldable pub rstrip : String → String
unfolding is_space is_empty
rstrip [] = []
rstrip (c ∷ s) = let rest = rstrip s in if is_empty rest && is_space (code c) then [] else c ∷ rest

-- `s.strip()`
unfoldable pub strip : String → String
unfolding lstrip rstrip
strip s = rstrip (lstrip s)

-- `s.startswith(p)`
unfoldable pub starts_with : String → String → Bool
starts_with [] s = true
starts_with (c ∷ p) [] = false
starts_with (c ∷ p) (d ∷ s) = eqb (code c) (code d) && starts_with p s

-- `needle in s`
unfoldable pub contains : String → String → Bool
unfolding starts_with
contains needle [] = starts_with needle []
contains needle (c ∷ s) = starts_with needle (c ∷ s) || contains needle s

-- `s[n:]`
unfoldable pub drop : ℕ → String → String
drop zero s = s
drop (suc n) [] = []
drop (suc n) (c ∷ s) = drop n s

-- `s.split(separator, 1)[1]`, where the separator occurs
unfoldable pub after_first : String → String → String
unfolding starts_with length drop
after_first separator [] = []
after_first separator (c ∷ s) =
    let rest = after_first separator s in
    if starts_with separator (c ∷ s) then drop (length separator) (c ∷ s) else rest

-- whether the character with the code occurs
unfoldable pub has_code : ℕ → String → Bool
has_code k [] = false
has_code k (c ∷ s) = eqb (code c) k || has_code k s

-- `s.split(c, 1)[0]`, for a separator of one character
unfoldable pub before_first : ℕ → String → String
before_first k [] = []
before_first k (c ∷ s) = let rest = before_first k s in if eqb (code c) k then [] else c ∷ rest

-- `s.rsplit(c, 1)[0]`, where the separator of one character occurs
unfoldable pub before_last : ℕ → String → String
unfolding has_code
before_last k [] = []
before_last k (c ∷ s) = let rest = before_last k s in if has_code k s then c ∷ rest else []

-- `s.lower()`, by code point, for A to Z; the texts that are searched for hold no other letter
-- that `lower` could produce.
unfoldable pub lower_code : ℕ → ℕ
lower_code c = if leb 65 c && leb c 90 then c + 32 else c

unfoldable pub starts_with_lower : String → String → Bool
unfolding lower_code
starts_with_lower [] s = true
starts_with_lower (c ∷ p) [] = false
starts_with_lower (c ∷ p) (d ∷ s) = eqb (code c) (lower_code (code d)) && starts_with_lower p s

-- `needle in s.lower()`
unfoldable pub contains_lower : String → String → Bool
unfolding starts_with_lower
contains_lower needle [] = starts_with_lower needle []
contains_lower needle (c ∷ s) = starts_with_lower needle (c ∷ s) || contains_lower needle s

-- `s.lower() == t`
unfoldable pub equals_lower : String → String → Bool
unfolding lower_code
equals_lower [] [] = true
equals_lower [] (d ∷ s) = false
equals_lower (c ∷ p) [] = false
equals_lower (c ∷ p) (d ∷ s) = eqb (code c) (lower_code (code d)) && equals_lower p s

-- `s.isascii()`
unfoldable pub is_ascii : String → Bool
is_ascii [] = true
is_ascii (c ∷ s) = leb (code c) 127 && is_ascii s

-- `separator.join(...)`
unfoldable pub join : String → List.List String → String
join separator List.[] = ""
join separator (List.◌∷◌ s List.[]) = s
join separator (List.◌∷◌ s (List.◌∷◌ t rest)) = s <> (separator <> join separator (List.◌∷◌ t rest))

pub length-take-le : (n : ℕ) (s : String) → length (take n s) ≤ n
unfolding length take
length-take-le zero s = omega arith
length-take-le (suc n) [] = omega arith
length-take-le (suc n) (c ∷ s) = omega (arith, length-take-le n s)
