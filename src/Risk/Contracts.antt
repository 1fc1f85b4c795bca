-- ===== src/Risk/Contracts.antt =====
-- trading/risk/contracts.py: reason codes, signed position transitions and the order quantities that
-- they imply.
use stock_bot.Base.{Bool, true, false, not, ◌&&◌, ◌||◌, if◌then◌else◌}
use stock_bot.Base.Result.{Result, ok, value_error, raise_if, ◌>>◌}
use stock_bot.Float.{Float, ◌-◌, ◌*◌, ◌==◌, num, abs, max, leb, ltb, isfinite}

pub data RiskAction : Type 0 where
  approve resize reject : RiskAction

pub data RiskReasonCode : Type 0 where
  approved resized generic_reject kill_switch_active liquidity_insufficient : RiskReasonCode
  max_trades_reached daily_loss_limit max_drawdown_limit max_open_positions : RiskReasonCode
  duplicate_symbol invalid_price invalid_stop invalid_target invalid_reward_risk : RiskReasonCode
  zero_position_size max_gross_exposure symbol_exposure_limit : RiskReasonCode
  sector_exposure_limit correlation_limit volatility_limit invalid_risk_state : RiskReasonCode
  stale_market_data system_not_ready position_context_mismatch : RiskReasonCode

pub data RiskPositionTransition : Type 0 where
  open_position increase reduce flatten reverse : RiskPositionTransition

-- Signed quantities: positive is long, negative is short, zero is flat.
pub record RiskPositionContext (F : Type 0) : Type 0 where
  pub transition : RiskPositionTransition
  pub existing_quantity : F
  pub projected_quantity : F

pub record RiskTransitionSizing (F : Type 0) : Type 0 where
  pub order_quantity : F
  pub closing_quantity : F
  pub opening_quantity : F

-- `opens_position`, and `consumes_trade_entry`, which has the same body
abbrev pub consumes_trade_entry : RiskPositionTransition → Bool
consumes_trade_entry open_position = true
consumes_trade_entry increase = true
consumes_trade_entry reverse = true
consumes_trade_entry reduce = false
consumes_trade_entry flatten = false

abbrev pub creates_position_slot : RiskPositionTransition → Bool
creates_position_slot open_position = true
creates_position_slot _ = false

abbrev pub releases_position : RiskPositionTransition → Bool
releases_position reduce = true
releases_position flatten = true
releases_position _ = false

abbrev pub is_reverse : RiskPositionTransition → Bool
is_reverse reverse = true
is_reverse _ = false

module _ {F : Type 0} ⦃n : Float F⦄ where
  -- The branch of `RiskPositionContext.__post_init__` for each transition.
  unfoldable pub check_transition : RiskPositionTransition → F → F → Result (Unit {0})
  check_transition open_position existing projected = do
    raise_if (not (existing == num 0)) (value_error "OPEN requires a flat existing position")
    raise_if (projected == num 0) (value_error "OPEN requires a non-zero projected position")
  check_transition increase existing projected = do
    raise_if (existing == num 0) (value_error "INCREASE requires an existing position")
    raise_if (projected == num 0) (value_error "INCREASE requires a non-zero projected position")
    raise_if (leb (existing * projected) (num 0))
        (value_error "INCREASE cannot change position direction")
    raise_if (leb (abs projected) (abs existing))
        (value_error "INCREASE must increase absolute position size")
  check_transition reduce existing projected = do
    raise_if (existing == num 0 || projected == num 0)
        (value_error "REDUCE requires non-zero existing and projected positions")
    raise_if (leb (existing * projected) (num 0))
        (value_error "REDUCE cannot change position direction")
    raise_if (leb (abs existing) (abs projected))
        (value_error "REDUCE must decrease absolute position size")
  check_transition flatten existing projected =
      raise_if (existing == num 0 || not (projected == num 0))
        (value_error "FLATTEN requires an existing position and zero projection")
  check_transition reverse existing projected = do
    raise_if (existing == num 0 || projected == num 0)
        (value_error "REVERSE requires non-zero existing and projected positions")
    raise_if (leb (num 0) (existing * projected))
        (value_error "REVERSE must change position direction")

  -- `RiskPositionContext.__post_init__`
  unfoldable pub check_context : RiskPositionContext F → Result (RiskPositionContext F)
  unfolding check_transition
  check_context c = do
    raise_if (not (isfinite c.existing_quantity && isfinite c.projected_quantity))
        (value_error "position quantities must be finite")
    check_transition c.transition c.existing_quantity c.projected_quantity
    ok c

  -- `RiskTransitionSizing.__post_init__`
  unfoldable pub check_sizing : RiskTransitionSizing F → Result (RiskTransitionSizing F)
  check_sizing s = do
    raise_if
        (not
          (isfinite s.order_quantity && isfinite s.closing_quantity && isfinite s.opening_quantity))
        (value_error "transition quantities must be finite")
    raise_if
        (ltb s.order_quantity (num 0)
          || ltb s.closing_quantity (num 0)
          || ltb s.opening_quantity (num 0))
        (value_error "transition quantities must be non-negative")
    ok s

  -- The closing and the opening quantity of `from_context`.
  unfoldable pub closing_of : F → F → F
  closing_of existing projected =
      if existing == num 0
      then num 0
      else if projected == num 0
      then abs existing
      else if ltb (num 0) (existing * projected)
      then max (num 0) (abs existing - abs projected)
      else abs existing

  unfoldable pub opening_of : F → F → F
  opening_of existing projected =
      if existing == num 0
      then abs projected
      else if projected == num 0
      then num 0
      else if ltb (num 0) (existing * projected)
      then max (num 0) (abs projected - abs existing)
      else abs projected

  -- `RiskTransitionSizing.from_context`
  unfoldable pub from_context : RiskPositionContext F → Result (RiskTransitionSizing F)
  unfolding check_sizing closing_of opening_of
  from_context c = check_sizing (record {
    order_quantity = abs (c.projected_quantity - c.existing_quantity);
    closing_quantity = closing_of c.existing_quantity c.projected_quantity;
    opening_quantity = opening_of c.existing_quantity c.projected_quantity;
  })
