-- ===== src/Float/Fixed.antt =====
-- Decimals of three places, as whole thousandths, meet the assumptions on floats and serve the
-- examples. A product or a quotient is cut after the third place.
use Prim.Native.Nat.{◌*◌, ◌/◌}
use stock_bot.Base.{ℕ, ◌+◌, true, arith, if◌then◌else◌}
use stock_bot.Base.Int.{ℤ, pos, negsuc, neg_part, ◌+ℤ◌, ◌-ℤ◌, ltb_ℤ, leb_ℤ, sub_ℕ}
use stock_bot.Float.Defs.{Float, IsOrdered}

-- A product and a quotient, rounded towards zero, by the signs of the two numbers.
abbrev pub by_signs : (ℕ → ℕ → ℕ) → ℤ → ℤ → ℤ
by_signs f (pos a) (pos b) = pos (f a b)
by_signs f (pos a) (negsuc b) = sub_ℕ 0 (f a (neg_part (negsuc b)))
by_signs f (negsuc a) (pos b) = sub_ℕ 0 (f (neg_part (negsuc a)) b)
by_signs f (negsuc a) (negsuc b) = pos (f (neg_part (negsuc a)) (neg_part (negsuc b)))

abbrev floor_fixed : ℤ → ℤ
floor_fixed (pos a) = pos (a / 1000 * 1000)
floor_fixed (negsuc a) = negsuc (a / 1000 * 1000 + 999)

instance abbrev pub fixed : Float ℤ
fixed = record {
  of_nat = λ k. pos (k * 1000);
  tolerance = pos 0;
  plus = ◌+ℤ◌;
  minus = ◌-ℤ◌;
  times = by_signs λ a b. a * b / 1000;
  over = by_signs λ a b. a * 1000 / b;
  negate = λ a. pos 0 -ℤ a;
  absolute = λ a. if ltb_ℤ a (pos 0) then pos 0 -ℤ a else a;
  floor = floor_fixed;
  lt = ltb_ℤ;
  le = leb_ℤ;
  eq = λ a b. if leb_ℤ a b then leb_ℤ b a else leb_ℤ a b;
  isfinite = λ _. true;
}

pub fixed-IsOrdered : IsOrdered ℤ
fixed-IsOrdered = ground arith
