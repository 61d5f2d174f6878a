-- ===== src/Value/Numbers.antt =====
-- Python floats. Every finite double is a whole multiple of 2^-1074, so `finite z` is z times that:
-- the comparisons are exact. `pos n` is n and `negsuc n` is -(n + 1).
use hermes_hyperspacedb_prov.Prelude.{ℕ, Bool, true, false, leb, eqb}

pub data ℤ : Type 0 where
  pos : ℕ → ℤ
  negsuc : ℕ → ℤ

pub data Float : Type 0 where
  nan : Float
  neg_inf : Float
  inf : Float
  finite : ℤ → Float

unfoldable pub leb_ℤ : ℤ → ℤ → Bool
leb_ℤ (pos a) (pos b) = leb a b
leb_ℤ (pos a) (negsuc b) = false
leb_ℤ (negsuc a) (pos b) = true
leb_ℤ (negsuc a) (negsuc b) = leb b a

-- `x <= y`, which is false at a NaN
unfoldable pub leb_Float : Float → Float → Bool
unfolding leb_ℤ
leb_Float nan y = false
leb_Float neg_inf nan = false
leb_Float neg_inf y = true
leb_Float inf inf = true
leb_Float inf y = false
leb_Float (finite a) (finite b) = leb_ℤ a b
leb_Float (finite a) inf = true
leb_Float (finite a) y = false

-- `x > y`, which is false at a NaN
unfoldable pub gtb_Float : Float → Float → Bool
unfolding leb_ℤ
gtb_Float nan y = false
gtb_Float neg_inf y = false
gtb_Float inf nan = false
gtb_Float inf inf = false
gtb_Float inf y = true
gtb_Float (finite a) neg_inf = true
gtb_Float (finite a) (finite b) = elim (leb_ℤ a b) [ true ↦ false | false ↦ true ]
gtb_Float (finite a) y = false

unfoldable pub eqb_ℤ : ℤ → ℤ → Bool
eqb_ℤ (pos a) (pos b) = eqb a b
eqb_ℤ (negsuc a) (negsuc b) = eqb a b
eqb_ℤ _ _ = false

-- `x == y`
unfoldable pub eqb_Float : Float → Float → Bool
unfolding eqb_ℤ
eqb_Float inf inf = true
eqb_Float neg_inf neg_inf = true
eqb_Float (finite a) (finite b) = eqb_ℤ a b
eqb_Float _ _ = false

unfoldable pub is_zero : Float → Bool
is_zero (finite (pos n)) = eqb n 0
is_zero _ = false

-- `math.isfinite`
unfoldable pub is_finite : Float → Bool
is_finite (finite z) = true
is_finite _ = false
