-- ===== src/Risk/Engine/Quantities.antt =====
-- The middle of `RiskEngine.evaluate`: the quantities, from the risk budget to the resized order.
use stock_bot.Base.{Option, none, some, Bool, true, false, not, ◌&&◌, ◌||◌, if◌then◌else◌}
use stock_bot.Base.Result.{Result, ok}
use stock_bot.Base.Result
use stock_bot.Base.Flow.{Flow, next, call, return, return_if, except_value_error, ◌>>=◌, ◌>>◌}
use stock_bot.Float.{Float, ◌+◌, ◌*◌, ◌/◌, num, min, leb, ltb}
use stock_bot.Clock.{Timestamp}
use stock_bot.Risk.Contracts.{
  RiskPositionContext, RiskTransitionSizing, from_context, releases_position, is_reverse,
  zero_position_size, invalid_risk_state, invalid_target, volatility_limit,
}
use stock_bot.Risk.Sizing.{
  PositionSizingResult, calculate_position_size, floor_to_step, build_target,
  volatility_size_factor,
}
use stock_bot.Risk.Input.{RiskConfig, RiskInput, RiskAssessment}
use stock_bot.Risk.Engine.Gates.{strategy_direction, no_economics, reject}

-- The local variables of `evaluate` after part 4.
pub record Sized (F : Type 0) : Type 0 where
  pub transition_sizing : Option (RiskTransitionSizing F)
  pub sizing : PositionSizingResult F
  pub requested_opening_quantity : Option F
  pub risk_sized_opening_quantity : F
  pub reverse_closing_quantity : F
  pub requested_quantity : F
  pub cash_resized : Bool

-- The order that the later parts test.
pub record Order (F : Type 0) : Type 0 where
  pub quantity : F
  pub opening_quantity : F
  pub requested_order_quantity : F
  pub resized : Bool

module _ {F T : Type 0} where
  abbrev pub release_only : RiskInput F T → Bool
  release_only v = elim v.position_context [
    | none ↦ false
    | some p ↦ releases_position p.transition
  ]

  abbrev pub reverse_transition : RiskInput F T → Bool
  reverse_transition v = elim v.position_context [ none ↦ false | some p ↦ is_reverse p.transition ]

module _ {F : Type 0} ⦃n : Float F⦄ where
  abbrev pub sizing_of : Option (RiskPositionContext F) → Result (Option (RiskTransitionSizing F))
  sizing_of none = ok none
  sizing_of (some p) = Result.◌>>=◌ (from_context p) λ s. ok (some s)

  -- `transition_sizing.opening_quantity`, if this is no release
  abbrev pub opening_request : Bool → Option (RiskTransitionSizing F) → Option F
  opening_request false (some s) = some s.opening_quantity
  opening_request _ _ = none

  -- A release asks for its order quantity; an opening never exceeds what the intent asks for.
  abbrev pub first_request : Bool → Option (RiskTransitionSizing F) → F → F
  first_request true (some s) risk_sized = s.order_quantity
  first_request _ _ risk_sized = risk_sized

  -- `min(sizing.quantity, requested)` or `sizing.quantity`
  abbrev pub risk_sized : Option F → F → F
  risk_sized none quantity = quantity
  risk_sized (some requested) quantity = min quantity requested

  abbrev pub closing_part : Bool → Option (RiskTransitionSizing F) → F
  closing_part true (some s) = s.closing_quantity
  closing_part _ _ = num 0

module _ {F T : Type 0} ⦃n : Float F⦄ ⦃t : Timestamp T⦄ where
  unfoldable pub cash_limit :
      RiskConfig F → RiskInput F T → F → F → Flow (RiskAssessment F T) (F × Bool)
  cash_limit c v requested cash_quantity =
      if ltb cash_quantity requested
      then (if not c.allow_resize
          then return (
              reject c v "Available cash cannot support the risk-first quantity." invalid_risk_state
                no_economics)
          else next (cash_quantity, true))
      else next (requested, false)

  -- Closing existing exposure needs no cash.
  unfoldable pub cash_gate :
      RiskConfig F → RiskInput F T → F → Option F → Flow (RiskAssessment F T) (F × Bool)
  unfolding cash_limit
  cash_gate c v requested none = next (requested, false)
  cash_gate c v requested (some cash) = if release_only v then next (requested, false) else (do
    cash_quantity ← call (floor_to_step (cash / v.candidate.entry_price) c.quantity_step)
    cash_limit c v requested cash_quantity)

  -- 4. Risk-first sizing.
  unfoldable pub size_order : RiskConfig F → RiskInput F T → F → Flow (RiskAssessment F T) (Sized F)
  unfolding cash_gate
  size_order c v stop_distance = do
    transition ← call (sizing_of v.position_context)
    sizing ←
        call (
          calculate_position_size v.available_equity c.risk_per_trade stop_distance c.quantity_step)
    let opening = opening_request (release_only v) transition
    let sized = risk_sized opening sizing.quantity
    let requested = first_request (release_only v) transition sized
    return_if (release_only v && leb requested (num 0)) (
        reject c v "Position transition produces no releasable quantity." zero_position_size
          no_economics)
    (affordable, cash_resized) ← cash_gate c v requested v.available_cash
    return_if (leb affordable (num 0))
        (reject c v "Risk budget cannot produce a valid quantity." zero_position_size no_economics)
    next (record {
      transition_sizing = transition;
      sizing = sizing;
      requested_opening_quantity = opening;
      risk_sized_opening_quantity = sized;
      reverse_closing_quantity = closing_part (reverse_transition v) transition;
      requested_quantity = affordable;
      cash_resized = cash_resized;
    })

  -- 5. Target construction.
  unfoldable pub target_gate : RiskConfig F → RiskInput F T → F → Flow (RiskAssessment F T) F
  target_gate c v stop_distance =
      except_value_error
        (build_target (strategy_direction v.candidate.direction) v.candidate.entry_price
          stop_distance c.target_multiple_r)
        λ message. reject c v message invalid_target no_economics

  unfoldable pub volatility_factor : RiskConfig F → RiskInput F T → Flow (RiskAssessment F T) F
  volatility_factor c v =
      if release_only v
      then next (num 1)
      else except_value_error
          (volatility_size_factor v.candidate.entry_price v.atr v.high_volatility
            c.high_volatility_factor c.max_atr_fraction)
          λ message. reject c v message volatility_limit no_economics

  -- 6. Volatility policy.
  unfoldable pub volatility_gate : RiskConfig F → RiskInput F T → Flow (RiskAssessment F T) F
  unfolding volatility_factor
  volatility_gate c v = do
    factor ← volatility_factor c v
    return_if (leb factor (num 0))
        (reject c v "Volatility policy blocks the proposed trade." volatility_limit no_economics)
    next factor

module _ {F : Type 0} ⦃n : Float F⦄ where
  -- The three branches that set the order's quantities; `floored` is the volatility-adjusted one.
  abbrev pub order_of : Bool → Bool → Sized F → F → Order F
  order_of true release s floored = record {
    quantity = s.reverse_closing_quantity + s.risk_sized_opening_quantity;
    opening_quantity = s.risk_sized_opening_quantity;
    requested_order_quantity =
        s.reverse_closing_quantity
        + elim s.requested_opening_quantity [ none ↦ s.sizing.quantity | some q ↦ q ];
    resized = false;
  }
  order_of false release s floored = elim s.transition_sizing [
    | none ↦ record {
      quantity = floored;
      opening_quantity = floored;
      requested_order_quantity = s.requested_quantity;
      resized = false;
    }
    | some transition ↦ record {
      quantity = if release then transition.order_quantity else s.risk_sized_opening_quantity;
      opening_quantity = s.risk_sized_opening_quantity;
      requested_order_quantity = transition.order_quantity;
      resized = false;
    }
  ]

  abbrev pub is_resized : Sized F → Order F → Bool
  is_resized s o = s.cash_resized || elim s.requested_opening_quantity [
    | none ↦ ltb o.quantity o.requested_order_quantity
    | some q ↦ ltb o.opening_quantity q
  ]

module _ {F T : Type 0} ⦃n : Float F⦄ ⦃t : Timestamp T⦄ where
  unfoldable pub quantity_gate :
      RiskConfig F → RiskInput F T → Sized F → F → Flow (RiskAssessment F T) (Order F)
  quantity_gate c v s factor = do
    floored ← call (floor_to_step (s.requested_quantity * factor) c.quantity_step)
    let o = order_of (reverse_transition v) (release_only v) s floored
    return_if (leb o.quantity (num 0)) (
        reject c v "Volatility adjustment leaves no valid quantity." zero_position_size
          no_economics)
    return_if (is_resized s o && not c.allow_resize) (
        reject c v "Volatility policy requires resizing, but resizing is disabled." volatility_limit
          no_economics)
    next (record o { resized = is_resized s o })
