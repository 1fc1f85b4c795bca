-- ===== src/Portfolio/Transition.antt =====
-- portfolio/transition.py: what a proposed trade does to the position of its symbol.
use stock_bot.Base.{Option, none, some, ◌&&◌, ◌||◌, if◌then◌else◌}
use stock_bot.Base.Result.{Result, ok, err, value_error}
use stock_bot.Float.{Float, num, neg, ltb, ◌+◌}
use stock_bot.Float as Num
use stock_bot.Portfolio.Contracts.{
  PositionTransition, open_position, increase, reduce, flatten, reverse, PortfolioPosition,
  TradeIntent,
}
use text.Mathlib.Text.{◌==◌}

pub record PositionTransitionResult (F : Type 0) : Type 0 where
  pub transition : PositionTransition
  pub existing_quantity : F
  pub projected_quantity : F

module _ {F : Type 0} ⦃n : Float F⦄ where
  abbrev pub quantity_or_zero : Option (PortfolioPosition F) → F
  quantity_or_zero none = num 0
  quantity_or_zero (some p) = p.quantity

  -- the signed change of an intent
  abbrev pub delta_of : TradeIntent F → F
  delta_of i = if i.side == "BUY" then i.quantity else neg i.quantity

  abbrev pub classified : PositionTransition → F → F → Result (PositionTransitionResult F)
  classified transition current projected = ok (record {
    transition = transition;
    existing_quantity = current;
    projected_quantity = projected;
  })

  -- the chain of tests on the current and the projected quantity
  unfoldable pub classify : F → F → Result (PositionTransitionResult F)
  classify current projected =
      if Num.◌==◌ current (num 0)
      then classified open_position current projected
      else if Num.◌==◌ projected (num 0)
      then classified flatten current projected
      else if ltb (num 0) current && ltb current projected
      then classified increase current projected
      else if ltb current (num 0) && ltb projected current
      then classified increase current projected
      else if (ltb (num 0) current && (ltb (num 0) projected && ltb projected current))
          || (ltb current (num 0) && (ltb current projected && ltb projected (num 0)))
      then classified reduce current projected
      else if (ltb (num 0) current && ltb projected (num 0))
          || (ltb current (num 0) && ltb (num 0) projected)
      then classified reverse current projected
      else err (value_error "unsupported position transition")

  unfoldable pub classify_position_transition :
      Option (PortfolioPosition F) → TradeIntent F → Result (PositionTransitionResult F)
  unfolding classify
  classify_position_transition existing i =
      classify (quantity_or_zero existing) (quantity_or_zero existing + delta_of i)
