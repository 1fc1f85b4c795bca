-- ===== src/Portfolio/Handover.antt =====
-- The classification of a trade, as the risk boundary reads it.
use stock_bot.Base.{Bool, true, false, ◌&&◌, ◌≡◌, ◌⊎◌, Option, arith, if◌then◌else◌}
use stock_bot.Base.Int.{ℤ, pos, negsuc, ◌+ℤ◌, ◌-ℤ◌}
use stock_bot.Base.Result.{ok}
use stock_bot.Float.{num, ltb, ◌==◌, ◌+◌, ◌*◌}
use stock_bot.Float.Fixed.{fixed}
use stock_bot.Portfolio.Contracts.{
  PositionTransition, open_position, increase, reduce, flatten, reverse, PortfolioPosition,
  TradeIntent,
}
use stock_bot.Portfolio.Transition.{
  PositionTransitionResult, quantity_or_zero, delta_of, classify, classify_position_transition,
}
use stock_bot.Risk.Contracts.{RiskPositionTransition, check_transition}
use text.Mathlib.Text as Text

-- the transition of the same name
abbrev pub to_risk : PositionTransition → RiskPositionTransition
to_risk open_position = RiskPositionTransition.open_position
to_risk increase = RiskPositionTransition.increase
to_risk reduce = RiskPositionTransition.reduce
to_risk flatten = RiskPositionTransition.flatten
to_risk reverse = RiskPositionTransition.reverse

-- A change of position has a class that the risk boundary accepts.
abbrev IsAccepted : ℤ → ℤ → Type 0
IsAccepted e p =
    (r : PositionTransitionResult ℤ) × (classify e p ≡ ok r)
    × (check_transition (to_risk r.transition) e p ≡ ok tt)

-- one of the two is flat, or their product is not rounded to zero
abbrev pub KeepsProduct : ℤ → ℤ → Type 0
KeepsProduct e p = ((e == num 0) ≡ true) ⊎ (((p == num 0) ≡ true) ⊎ ((e * p == num 0) ≡ false))

outcome : ℤ → ℤ → PositionTransitionResult ℤ
outcome e p = record {
  transition =
      if e == num 0
      then open_position
      else if p == num 0
      then flatten
      else if ltb (num 0) e && ltb e p
      then increase
      else if ltb e (num 0) && ltb p e
      then increase
      else if ltb (num 0) e && ltb (num 0) p
      then reduce
      else if ltb e (num 0) && ltb p (num 0)
      then reduce
      else reverse;
  existing_quantity = e;
  projected_quantity = p;
}

classify-IsAccepted : (e p : ℤ) → (p == e) ≡ false → KeepsProduct e p → IsAccepted e p
unfolding outcome classify check_transition ◌-ℤ◌
classify-IsAccepted (pos a) (pos b) h k = (outcome (pos a) (pos b), ground arith, ground arith)
classify-IsAccepted (pos a) (negsuc b) h k =
    (outcome (pos a) (negsuc b), ground arith, ground arith)
classify-IsAccepted (negsuc a) (pos b) h k =
    (outcome (negsuc a) (pos b), ground arith, ground arith)
classify-IsAccepted (negsuc a) (negsuc b) h k =
    (outcome (negsuc a) (negsuc b), ground arith, ground arith)

moved :
    (e q : ℤ)
    → ltb (num 0) q ≡ true
    → (b : Bool) → ((e + (if b then q else (num 0 -ℤ q))) == e) ≡ false
unfolding ◌+ℤ◌ ◌-ℤ◌
moved e q h b = ground arith

-- With exact decimals, a trade of a positive quantity is always classified, and the risk boundary
-- accepts the transition of that name for the same quantities, provided that the product of the old
-- and the new position is not rounded to zero.
pub classify-check_transition :
    (existing : Option (PortfolioPosition ℤ)) (i : TradeIntent ℤ)
    → ltb (num 0) i.quantity ≡ true
    → let e = quantity_or_zero existing in
      let p = e + delta_of i in
      KeepsProduct e p
      → (r : PositionTransitionResult ℤ) × (classify_position_transition existing i ≡ ok r)
        × (check_transition (to_risk r.transition) e p ≡ ok tt)
unfolding classify_position_transition
classify-check_transition existing i h k =
    classify-IsAccepted (quantity_or_zero existing) (quantity_or_zero existing + delta_of i)
      (moved (quantity_or_zero existing) i.quantity h (Text.◌==◌ i.side "BUY")) k
