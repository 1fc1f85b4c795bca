-- ===== src/Risk/Engine/Gates.antt =====
-- The first part of `RiskEngine.evaluate` in trading/risk/engine.py: `_reject`, and the gates that are
-- tested before any quantity is computed.
use stock_bot.Base.{String, Option, none, some, Bool, true, false, not, ◌&&◌, ◌||◌, if◌then◌else◌}
use stock_bot.Base.Text.{lower, contains_text}
use stock_bot.Base.Int.{leb_ℤ}
use stock_bot.Base.Result.{Result, ok, err}
use stock_bot.Base.Result
use stock_bot.Base.Flow.{Flow, return_if, except_value_error, ◌>>◌}
use stock_bot.Float.{Float, ◌+◌, ◌-◌, ◌*◌, num, leb, ltb}
use stock_bot.Clock.{Timestamp}
use stock_bot.Signals.{StrategyDirection, CandidateDirection}
use stock_bot.Risk.Contracts.{
  RiskReasonCode, kill_switch_active, liquidity_insufficient, max_trades_reached, daily_loss_limit,
  max_drawdown_limit, max_open_positions, duplicate_symbol, invalid_price, invalid_stop,
  stale_market_data, system_not_ready, position_context_mismatch, RiskPositionContext,
  consumes_trade_entry, creates_position_slot,
}
use stock_bot.Risk.Limits.{DailyRiskState, daily_loss_limit_reached, active}
use stock_bot.Risk.Sizing.{validate_stop}
use stock_bot.Risk.Decision.{RiskDecision, rejected, check_decision}
use stock_bot.Risk.Input.{RiskConfig, RiskInput, RiskAssessment}

-- `_strategy_direction`
abbrev pub strategy_direction : CandidateDirection → StrategyDirection
strategy_direction CandidateDirection.long = StrategyDirection.long
strategy_direction CandidateDirection.short = StrategyDirection.short

abbrev pub is_long : StrategyDirection → Bool
is_long StrategyDirection.long = true
is_long _ = false

-- The keyword arguments of `_reject` that are not always given.
pub record Economics (F : Type 0) : Type 0 where
  pub entry_price : Option F
  pub stop_price : Option F
  pub risk_budget : Option F
  pub stop_distance : Option F
  pub position_size : Option F
  pub requested_position_size : Option F
  pub gross_exposure_after : Option F
  pub gross_exposure_before : Option F
  pub gross_exposure_limit : Option F
  pub proposed_value : Option F

abbrev pub no_economics : {F : Type 0} → Economics F
no_economics = record {
  entry_price = none;
  stop_price = none;
  risk_budget = none;
  stop_distance = none;
  position_size = none;
  requested_position_size = none;
  gross_exposure_after = none;
  gross_exposure_before = none;
  gross_exposure_limit = none;
  proposed_value = none;
}

-- `position_context is None or position_context.consumes_trade_entry`
abbrev pub consumes_entry : {F : Type 0} → Option (RiskPositionContext F) → Bool
consumes_entry none = true
consumes_entry (some p) = consumes_trade_entry p.transition

module _ {F : Type 0} ⦃n : Float F⦄ where
  -- `expected_long`: the sign of the projection where the transition opens exposure, and the
  -- opposite of the existing sign where it only releases.
  abbrev expected_long : RiskPositionContext F → Bool
  expected_long p =
      if consumes_trade_entry p.transition
      then ltb (num 0) p.projected_quantity
      else ltb p.existing_quantity (num 0)

  abbrev pub drawdown_reached : Option F → Option F → F → Bool
  drawdown_reached (some fraction) (some peak) equity = leb equity (peak * (num 1 - fraction))
  drawdown_reached (some _) none equity = false
  drawdown_reached none _ equity = false

module _ {F T : Type 0} ⦃n : Float F⦄ where
  abbrev pub pnl : RiskInput F T → F
  pnl v = v.realized_pnl + v.unrealized_pnl

module _ {F T : Type 0} ⦃n : Float F⦄ ⦃t : Timestamp T⦄ where
  abbrev rejection : RiskConfig F → RiskInput F T → String → RiskReasonCode → RiskDecision F T
  rejection c v reason code = record {
    timestamp = v.timestamp;
    symbol = v.symbol;
    status = rejected;
    strategy_direction = strategy_direction v.candidate.direction;
    reason = reason;
    risk_version = c.risk_version;
    reason_code = some code;
    resized = false;
    approved_quantity = num 0;
    approved_notional = num 0;
    position_transition = none;
    requested_projected_quantity = none;
    approved_projected_quantity = none;
  }

  abbrev rejected_assessment : RiskInput F T → Economics F → RiskDecision F T → RiskAssessment F T
  rejected_assessment v e d = record {
    decision = d;
    entry_price = e.entry_price;
    stop_price = e.stop_price;
    target_price = none;
    risk_budget = e.risk_budget;
    stop_distance = e.stop_distance;
    position_size = e.position_size;
    requested_position_size = e.requested_position_size;
    gross_exposure_after = e.gross_exposure_after;
    gross_exposure_before = e.gross_exposure_before;
    gross_exposure_limit = e.gross_exposure_limit;
    proposed_value = e.proposed_value;
    daily_pnl = some (pnl v);
    volatility_factor = none;
    closing_quantity = none;
    opening_quantity = none;
    opening_position_size = none;
    requested_projected_quantity = none;
    approved_projected_quantity = none;
  }

  -- `_reject`
  unfoldable pub reject :
      RiskConfig F
      → RiskInput F T
      → String
      → RiskReasonCode
      → Economics F
      → Result (RiskAssessment F T)
  reject c v reason code e =
      Result.◌>>=◌ (check_decision (rejection c v reason code)) λ d. ok (rejected_assessment v e d)

  -- `value.kill_switch_active or (state.active if state is not None else False)`
  abbrev pub kill_active : RiskInput F T → Bool
  kill_active v =
      v.kill_switch_active || elim v.kill_switch_state [ none ↦ false | some s ↦ active s ]

  -- 1. Independent safety and data-health gates.
  unfoldable pub safety_gates : RiskConfig F → RiskInput F T → Flow (RiskAssessment F T) (Unit {0})
  safety_gates c v = do
    return_if (not v.system_ready)
        (reject c v "Risk system is not ready." system_not_ready no_economics)
    return_if (kill_active v) (reject c v "Kill switch is active." kill_switch_active no_economics)
    return_if (not v.market_data_valid)
        (reject c v "Market data is invalid or unavailable." stale_market_data no_economics)
    return_if (not v.liquidity_available)
        (reject c v "Liquidity is insufficient." liquidity_insufficient no_economics)

  abbrev pub daily_state : RiskInput F T → DailyRiskState F
  daily_state v = record {
    day_start_equity = v.day_start_equity;
    realized_pnl = v.realized_pnl;
    unrealized_pnl = v.unrealized_pnl;
    trades_today = v.trades_today;
    open_positions = v.open_positions;
  }

  abbrev pub creates_slot : RiskInput F T → Bool
  creates_slot v = elim v.position_context [
    | none ↦ not v.symbol_already_open
    | some p ↦ creates_position_slot p.transition
  ]

  -- `actual_long != expected_long`
  abbrev pub direction_mismatch : RiskInput F T → Bool
  direction_mismatch v = elim v.position_context [
    | none ↦ false
    | some p ↦
        if is_long (strategy_direction v.candidate.direction)
        then not (expected_long p)
        else expected_long p
  ]

  abbrev pub duplicate_open : RiskInput F T → Bool
  duplicate_open v =
      v.symbol_already_open
      && elim v.position_context [ none ↦ true | some p ↦ creates_position_slot p.transition ]

  -- 2. Hard session and account limits.
  unfoldable pub session_gates : RiskConfig F → RiskInput F T → Flow (RiskAssessment F T) (Unit {0})
  session_gates c v = do
    return_if (daily_loss_limit_reached (daily_state v) c.max_daily_loss)
        (reject c v "Daily loss limit reached." daily_loss_limit no_economics)
    return_if (consumes_entry v.position_context && leb_ℤ c.max_trades_per_day v.trades_today)
        (reject c v "Maximum daily trade entries reached." max_trades_reached no_economics)
    return_if (direction_mismatch v) (
        reject c v "Candidate direction is inconsistent with the supplied position transition."
          position_context_mismatch no_economics)
    return_if (creates_slot v && leb_ℤ c.max_open_positions v.open_positions)
        (reject c v "Maximum open positions reached." max_open_positions no_economics)
    return_if (duplicate_open v)
        (reject c v "Symbol already has an open position." duplicate_symbol no_economics)

  unfoldable pub drawdown_gate : RiskConfig F → RiskInput F T → Flow (RiskAssessment F T) (Unit {0})
  drawdown_gate c v =
      return_if (drawdown_reached c.max_drawdown_fraction v.peak_equity v.available_equity)
        (reject c v "Maximum drawdown limit reached." max_drawdown_limit no_economics)

  -- 3. Candidate price and stop validation.
  unfoldable pub stop_gate : RiskConfig F → RiskInput F T → Flow (RiskAssessment F T) F
  stop_gate c v =
      except_value_error
        (validate_stop (strategy_direction v.candidate.direction) v.candidate.entry_price
          v.candidate.stop_price)
        λ message.
          reject c v message
            (if contains_text "price" (lower message) then invalid_price else invalid_stop)
            no_economics
