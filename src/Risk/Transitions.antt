-- ===== src/Risk/Transitions.antt =====
-- The sizes of a position transition: `RiskTransitionSizing.from_context` of
-- trading/risk/contracts.py.
use stock_bot.Base.{Bool, ◌&&◌, ◌||◌, ◌≡◌, ap, ◌∙◌, arith, if◌then◌else◌}
use stock_bot.Base.Int.{ℤ, pos, negsuc, ◌+ℤ◌, ◌-ℤ◌}
use stock_bot.Base.Result.{ok}
use stock_bot.Float.{ltb, abs, max, ◌==◌, ◌+◌, ◌-◌, ◌*◌}
use stock_bot.Float.Fixed.{fixed}
use stock_bot.Risk.Contracts.{
  RiskPositionContext, RiskTransitionSizing, closing_of, opening_of, from_context, check_sizing,
}

-- Both quantities are long, or both are short.
abbrev pub same_sign : ℤ → ℤ → Bool
same_sign a b = (ltb (pos 0) a && ltb (pos 0) b) || (ltb a (pos 0) && ltb b (pos 0))

-- The two parts for positions whose product is positive as `same` says.
abbrev closing_part : ℤ → ℤ → Bool → ℤ
closing_part e p same =
    if e == pos 0
    then pos 0
    else if p == pos 0
    then abs e
    else if same
    then max (pos 0) (abs e - abs p)
    else abs e

abbrev opening_part : ℤ → ℤ → Bool → ℤ
opening_part e p same =
    if e == pos 0
    then abs p
    else if p == pos 0
    then pos 0
    else if same
    then max (pos 0) (abs p - abs e)
    else abs p

parts_sum :
    (e p : ℤ) → closing_part e p (same_sign e p) + opening_part e p (same_sign e p) ≡ abs (p - e)
unfolding ◌+ℤ◌ ◌-ℤ◌
parts_sum (pos a) (pos b) = ground arith
parts_sum (pos a) (negsuc b) = ground arith
parts_sum (negsuc a) (pos b) = ground arith
parts_sum (negsuc a) (negsuc b) = ground arith

split :
    (e p : ℤ) (b : Bool) → b ≡ same_sign e p → closing_part e p b + opening_part e p b ≡ abs (p - e)
split e p b h = ap (λ s. closing_part e p s + opening_part e p s) h ∙ parts_sum e p

-- With exact decimals, the floats being integer thousandths, the closing and the opening quantity of a position transition add up to its
-- order quantity, provided that the product of the two positions has the sign of their directions,
-- which it lacks when it underflows.
pub from_context-split :
    (c : RiskPositionContext ℤ) {k : RiskTransitionSizing ℤ}
    → ltb (pos 0) (c.existing_quantity * c.projected_quantity)
      ≡ same_sign c.existing_quantity c.projected_quantity
    → from_context c ≡ ok k
    → k.closing_quantity + k.opening_quantity ≡ k.order_quantity
unfolding from_context check_sizing closing_of opening_of
from_context-split c h g =
    let sum =
      split c.existing_quantity c.projected_quantity
        (ltb (pos 0) (c.existing_quantity * c.projected_quantity)) h in
    ground (arith, sum)
