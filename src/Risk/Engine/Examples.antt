-- ===== src/Risk/Engine/Examples.antt =====
-- Tests of `RiskEngine.evaluate` in trading/risk/engine.py on concrete orders, in thousandths.
use stock_bot.Base.{◌⊎◌, none, some, true, false, [], ◌≡◌, refl}
use stock_bot.Base.Int.{ℤ, pos, ◌+ℤ◌, ◌-ℤ◌}
use stock_bot.Base.Result.{ok}
use stock_bot.Float.Fixed.{fixed, fixed-IsOrdered}
use stock_bot.Float.{◌+◌, ◌*◌, min, ltb, abs, ◌-◌}
use stock_bot.Clock.{Timestamp}
use stock_bot.Signals.{CandidateDirection, StrategyDirection}
use stock_bot.Risk.Contracts.{
  RiskReasonCode, RiskPositionContext, RiskTransitionSizing, open_position, reduce, from_context,
}
use stock_bot.Risk.Transitions.{from_context-split}
use stock_bot.Risk.Decision.{approved, rejected, check_decision}
use stock_bot.Risk.Input.{RiskConfig, RiskInput, RiskAssessment}
use stock_bot.Risk.Engine.Body.{evaluate}
use stock_bot.Risk.Engine.Refusals.{IsRefusal}
use stock_bot.Risk.Engine.Approvals.{IsCleared}
use stock_bot.Risk.Engine.Authority.{evaluate-IsCleared, evaluate-IsRefusal}
use stock_bot.Risk.Engine.Bounds.{
  IsWithinGross, IsConcentrated, evaluate-IsWithinGross, evaluate-IsConcentrated,
}
use stock_bot.Risk.Engine.Intent.{evaluate_never_enlarges, evaluate_release_exact}
use stock_bot.Risk.Engine.Opening.{
  IsBudgeted, IsFull, IsLimited, evaluate_opening_quantity, evaluate_opening_projection,
}
use stock_bot.Risk.Contracts.{check_transition, check_context, check_sizing, closing_of, opening_of}
use stock_bot.Risk.Limits.{
  daily_loss_limit_reached, check_symbol_exposure, check_sector_exposure, correlated_value,
  correlation_exposure_allowed,
}
use stock_bot.Risk.Sizing.{
  floor_to_step, calculate_position_size, validate_stop, build_target, volatility_size_factor,
  gross_exposure_after, max_quantity_for_exposure, projected_gross_exposure,
}
use stock_bot.Risk.Input.{rekey, any_value, check_config, check_input}
use stock_bot.Risk.Engine.Gates.{reject, safety_gates, session_gates, drawdown_gate, stop_gate}
use stock_bot.Risk.Engine.Quantities.{
  cash_limit, cash_gate, size_order, target_gate, volatility_factor, volatility_gate, quantity_gate,
}
use stock_bot.Risk.Engine.Exposure.{
  gross_for, expose, shrink, reexpose, over_limit, exposure_gate, concentration, concentration_gate,
}
use stock_bot.Risk.Engine.Body.{projected_increase, approved_projection, vet, approve}
use stock_bot.Base.Text.{is_space, lstrip, rstrip, strip, upper, lower}
use stock_bot.Base.Dict.{get}

-- Every timestamp has a time zone, and there is one.
instance abbrev unit_time : Timestamp (Unit {0})
unit_time = record { zoned = λ _. true; same = λ _ _. true }

abbrev config : RiskConfig ℤ
config = record {
  risk_per_trade = pos 10;
  max_daily_loss = pos 20;
  max_trades_per_day = pos 5;
  max_open_positions = pos 3;
  max_gross_exposure = pos 1000;
  target_multiple_r = pos 2000;
  quantity_step = pos 1000;
  risk_version = "RISK-v1";
  max_symbol_exposure_fraction = none;
  max_sector_exposure_fraction = none;
  minimum_abs_correlation = none;
  max_correlated_exposure_fraction = none;
  high_volatility_factor = pos 500;
  max_atr_fraction = none;
  max_drawdown_fraction = none;
  allow_resize = false;
}

-- A long entry at 100 with its stop at 90, for an account of 10000.
abbrev entry : RiskInput ℤ (Unit {0})
entry = record {
  timestamp = tt;
  symbol = "INFY";
  candidate = record {
    timestamp = tt;
    symbol = "INFY";
    direction = CandidateDirection.long;
    entry_price = pos 100000;
    stop_price = pos 90000;
    policy_version = "P1";
  };
  available_equity = pos 10000000;
  day_start_equity = pos 10000000;
  available_cash = none;
  peak_equity = none;
  realized_pnl = pos 0;
  unrealized_pnl = pos 0;
  open_positions = pos 0;
  trades_today = pos 0;
  gross_exposure = pos 0;
  symbol_already_open = false;
  position_context = none;
  liquidity_available = true;
  kill_switch_active = false;
  sector = none;
  symbol_exposure = [];
  sector_exposure = [];
  pairwise_correlation = [];
  atr = none;
  high_volatility = false;
  market_data_valid = true;
  system_ready = true;
  kill_switch_state = none;
}

abbrev killed : RiskInput ℤ (Unit {0})
killed = record entry { kill_switch_active = true }

-- An entry of 4 shares that the portfolio asks for.
abbrev opening : RiskPositionContext ℤ
opening = record {
  transition = open_position;
  existing_quantity = pos 0;
  projected_quantity = pos 4000;
}

-- A position of 6 shares reduced to 2.
abbrev reducing : RiskPositionContext ℤ
reducing = record {
  transition = reduce;
  existing_quantity = pos 6000;
  projected_quantity = pos 2000;
}

-- The reduction sells: its stop is above the price.
abbrev reduction : RiskInput ℤ (Unit {0})
reduction = record entry {
  candidate = record {
    timestamp = tt;
    symbol = "INFY";
    direction = CandidateDirection.short;
    entry_price = pos 100000;
    stop_price = pos 110000;
    policy_version = "P1";
  };
  gross_exposure = pos 600000;
  symbol_already_open = true;
  open_positions = pos 1;
  position_context = some reducing;
}

abbrev with_context : RiskPositionContext ℤ → RiskInput ℤ (Unit {0})
with_context p = record entry { position_context = some p }

abbrev opening_sizing : RiskTransitionSizing ℤ
opening_sizing = record {
  order_quantity = pos 4000;
  closing_quantity = pos 0;
  opening_quantity = pos 4000;
}

opening_sizing_made : from_context opening ≡ ok opening_sizing
unfolding from_context check_sizing closing_of opening_of ◌-ℤ◌
opening_sizing_made = refl

abbrev entry_assessment : RiskAssessment ℤ (Unit {0})
entry_assessment = record {
  decision = record {
    timestamp = tt;
    symbol = "INFY";
    status = approved;
    strategy_direction = StrategyDirection.long;
    reason = "Candidate passed deterministic risk controls.";
    risk_version = "RISK-v1";
    reason_code = some RiskReasonCode.approved;
    resized = false;
    approved_quantity = pos 10000;
    approved_notional = pos 1000000;
    position_transition = none;
    requested_projected_quantity = none;
    approved_projected_quantity = some (pos 10000);
  };
  entry_price = some (pos 100000);
  stop_price = some (pos 90000);
  target_price = some (pos 120000);
  risk_budget = some (pos 100000);
  stop_distance = some (pos 10000);
  position_size = some (pos 10000);
  requested_position_size = some (pos 10000);
  gross_exposure_after = some (pos 1000000);
  gross_exposure_before = none;
  gross_exposure_limit = none;
  proposed_value = none;
  daily_pnl = some (pos 0);
  volatility_factor = some (pos 1000);
  closing_quantity = none;
  opening_quantity = none;
  opening_position_size = none;
  requested_projected_quantity = none;
  approved_projected_quantity = some (pos 10000);
}

entry_assessment_made : evaluate config entry ≡ ok entry_assessment
unfolding evaluate from_context check_decision check_transition check_context check_sizing
    closing_of opening_of daily_loss_limit_reached check_symbol_exposure check_sector_exposure
    correlated_value correlation_exposure_allowed floor_to_step calculate_position_size
    validate_stop build_target volatility_size_factor gross_exposure_after max_quantity_for_exposure
    projected_gross_exposure rekey any_value check_config check_input reject safety_gates
    session_gates drawdown_gate stop_gate cash_limit cash_gate size_order target_gate
    volatility_factor volatility_gate quantity_gate gross_for expose shrink reexpose over_limit
    exposure_gate concentration concentration_gate projected_increase approved_projection vet
    approve is_space lstrip rstrip strip upper lower get ◌+ℤ◌ ◌-ℤ◌
entry_assessment_made = refl

abbrev killed_assessment : RiskAssessment ℤ (Unit {0})
killed_assessment = record {
  decision = record {
    timestamp = tt;
    symbol = "INFY";
    status = rejected;
    strategy_direction = StrategyDirection.long;
    reason = "Kill switch is active.";
    risk_version = "RISK-v1";
    reason_code = some RiskReasonCode.kill_switch_active;
    resized = false;
    approved_quantity = pos 0;
    approved_notional = pos 0;
    position_transition = none;
    requested_projected_quantity = none;
    approved_projected_quantity = none;
  };
  entry_price = none;
  stop_price = none;
  target_price = none;
  risk_budget = none;
  stop_distance = none;
  position_size = none;
  requested_position_size = none;
  gross_exposure_after = none;
  gross_exposure_before = none;
  gross_exposure_limit = none;
  proposed_value = none;
  daily_pnl = some (pos 0);
  volatility_factor = none;
  closing_quantity = none;
  opening_quantity = none;
  opening_position_size = none;
  requested_projected_quantity = none;
  approved_projected_quantity = none;
}

killed_assessment_made : evaluate config killed ≡ ok killed_assessment
unfolding evaluate from_context check_decision check_transition check_context check_sizing
    closing_of opening_of daily_loss_limit_reached check_symbol_exposure check_sector_exposure
    correlated_value correlation_exposure_allowed floor_to_step calculate_position_size
    validate_stop build_target volatility_size_factor gross_exposure_after max_quantity_for_exposure
    projected_gross_exposure rekey any_value check_config check_input reject safety_gates
    session_gates drawdown_gate stop_gate cash_limit cash_gate size_order target_gate
    volatility_factor volatility_gate quantity_gate gross_for expose shrink reexpose over_limit
    exposure_gate concentration concentration_gate projected_increase approved_projection vet
    approve is_space lstrip rstrip strip upper lower get ◌+ℤ◌ ◌-ℤ◌
killed_assessment_made = refl

abbrev opening_assessment : RiskAssessment ℤ (Unit {0})
opening_assessment = record {
  decision = record {
    timestamp = tt;
    symbol = "INFY";
    status = approved;
    strategy_direction = StrategyDirection.long;
    reason = "Candidate passed deterministic risk controls.";
    risk_version = "RISK-v1";
    reason_code = some RiskReasonCode.approved;
    resized = false;
    approved_quantity = pos 4000;
    approved_notional = pos 400000;
    position_transition = some open_position;
    requested_projected_quantity = some (pos 4000);
    approved_projected_quantity = some (pos 4000);
  };
  entry_price = some (pos 100000);
  stop_price = some (pos 90000);
  target_price = some (pos 120000);
  risk_budget = some (pos 100000);
  stop_distance = some (pos 10000);
  position_size = some (pos 4000);
  requested_position_size = some (pos 10000);
  gross_exposure_after = some (pos 400000);
  gross_exposure_before = none;
  gross_exposure_limit = none;
  proposed_value = none;
  daily_pnl = some (pos 0);
  volatility_factor = some (pos 1000);
  closing_quantity = some (pos 0);
  opening_quantity = some (pos 4000);
  opening_position_size = none;
  requested_projected_quantity = some (pos 4000);
  approved_projected_quantity = some (pos 4000);
}

opening_assessment_made : evaluate config (with_context opening) ≡ ok opening_assessment
unfolding evaluate from_context check_decision check_transition check_context check_sizing
    closing_of opening_of daily_loss_limit_reached check_symbol_exposure check_sector_exposure
    correlated_value correlation_exposure_allowed floor_to_step calculate_position_size
    validate_stop build_target volatility_size_factor gross_exposure_after max_quantity_for_exposure
    projected_gross_exposure rekey any_value check_config check_input reject safety_gates
    session_gates drawdown_gate stop_gate cash_limit cash_gate size_order target_gate
    volatility_factor volatility_gate quantity_gate gross_for expose shrink reexpose over_limit
    exposure_gate concentration concentration_gate projected_increase approved_projection vet
    approve is_space lstrip rstrip strip upper lower get ◌+ℤ◌ ◌-ℤ◌
opening_assessment_made = refl

abbrev reduction_assessment : RiskAssessment ℤ (Unit {0})
reduction_assessment = record {
  decision = record {
    timestamp = tt;
    symbol = "INFY";
    status = approved;
    strategy_direction = StrategyDirection.short;
    reason = "Candidate passed deterministic risk controls.";
    risk_version = "RISK-v1";
    reason_code = some RiskReasonCode.approved;
    resized = false;
    approved_quantity = pos 4000;
    approved_notional = pos 400000;
    position_transition = some reduce;
    requested_projected_quantity = some (pos 2000);
    approved_projected_quantity = some (pos 2000);
  };
  entry_price = some (pos 100000);
  stop_price = some (pos 110000);
  target_price = some (pos 80000);
  risk_budget = some (pos 100000);
  stop_distance = some (pos 10000);
  position_size = some (pos 4000);
  requested_position_size = some (pos 10000);
  gross_exposure_after = some (pos 200000);
  gross_exposure_before = none;
  gross_exposure_limit = none;
  proposed_value = none;
  daily_pnl = some (pos 0);
  volatility_factor = some (pos 1000);
  closing_quantity = some (pos 4000);
  opening_quantity = some (pos 10000);
  opening_position_size = none;
  requested_projected_quantity = some (pos 2000);
  approved_projected_quantity = some (pos 2000);
}

reduction_assessment_made : evaluate config reduction ≡ ok reduction_assessment
unfolding evaluate from_context check_decision check_transition check_context check_sizing
    closing_of opening_of daily_loss_limit_reached check_symbol_exposure check_sector_exposure
    correlated_value correlation_exposure_allowed floor_to_step calculate_position_size
    validate_stop build_target volatility_size_factor gross_exposure_after max_quantity_for_exposure
    projected_gross_exposure rekey any_value check_config check_input reject safety_gates
    session_gates drawdown_gate stop_gate cash_limit cash_gate size_order target_gate
    volatility_factor volatility_gate quantity_gate gross_for expose shrink reexpose over_limit
    exposure_gate concentration concentration_gate projected_increase approved_projection vet
    approve is_space lstrip rstrip strip upper lower get ◌+ℤ◌ ◌-ℤ◌
reduction_assessment_made = refl

evaluate-IsCleared_example : IsCleared config entry
evaluate-IsCleared_example =
    evaluate-IsCleared config entry entry_assessment entry_assessment_made refl

evaluate-IsRefusal_example : IsRefusal killed_assessment
evaluate-IsRefusal_example =
    evaluate-IsRefusal config killed killed_assessment killed_assessment_made refl

evaluate-IsWithinGross_example : IsWithinGross config entry entry_assessment
evaluate-IsWithinGross_example =
    evaluate-IsWithinGross config entry entry_assessment refl entry_assessment_made refl

-- At most a fifth of the equity in one symbol.
abbrev spread : RiskConfig ℤ
spread = record config { max_symbol_exposure_fraction = some (pos 200) }

spread_assessment_made : evaluate spread entry ≡ ok entry_assessment
unfolding evaluate from_context check_decision check_transition check_context check_sizing
    closing_of opening_of daily_loss_limit_reached check_symbol_exposure check_sector_exposure
    correlated_value correlation_exposure_allowed floor_to_step calculate_position_size
    validate_stop build_target volatility_size_factor gross_exposure_after max_quantity_for_exposure
    projected_gross_exposure rekey any_value check_config check_input reject safety_gates
    session_gates drawdown_gate stop_gate cash_limit cash_gate size_order target_gate
    volatility_factor volatility_gate quantity_gate gross_for expose shrink reexpose over_limit
    exposure_gate concentration concentration_gate projected_increase approved_projection vet
    approve is_space lstrip rstrip strip upper lower get ◌+ℤ◌ ◌-ℤ◌
spread_assessment_made = refl

evaluate-IsConcentrated_example : IsConcentrated spread entry entry_assessment
evaluate-IsConcentrated_example =
    evaluate-IsConcentrated spread entry entry_assessment spread_assessment_made refl

evaluate_never_enlarges_example :
    (q : ℤ) × (some (pos 4000) ≡ some q)
    × (ltb (pos 4000) q ≡ false)
    × (false ≡ false → ltb (pos 4000) (pos 4000) ≡ false)
evaluate_never_enlarges_example =
    evaluate_never_enlarges fixed-IsOrdered config (with_context opening) opening_assessment
      {p = opening} {k = opening_sizing} refl refl opening_sizing_made opening_assessment_made refl

evaluate_release_exact_example :
    (pos 4000 ≡ abs (pos 2000 - pos 6000)) × (some (pos 2000) ≡ some (pos 2000))
evaluate_release_exact_example =
    evaluate_release_exact config reduction reduction_assessment {p = reducing} refl refl refl
      reduction_assessment_made refl

-- Resizing is on, and the gross exposure is limited to 300, which is 3 shares.
abbrev resizing : RiskConfig ℤ
resizing = record config { allow_resize = true; max_gross_exposure = pos 30 }

-- The account has cash for 2 of the 4 shares.
abbrev short_of_cash : RiskInput ℤ (Unit {0})
short_of_cash = record entry { position_context = some opening; available_cash = some (pos 200000) }

abbrev cut_assessment : RiskAssessment ℤ (Unit {0})
cut_assessment = record {
  decision = record {
    timestamp = tt;
    symbol = "INFY";
    status = approved;
    strategy_direction = StrategyDirection.long;
    reason = "Candidate passed risk controls after deterministic resizing.";
    risk_version = "RISK-v1";
    reason_code = some RiskReasonCode.resized;
    resized = true;
    approved_quantity = pos 3000;
    approved_notional = pos 300000;
    position_transition = some open_position;
    requested_projected_quantity = some (pos 4000);
    approved_projected_quantity = some (pos 4000);
  };
  entry_price = some (pos 100000);
  stop_price = some (pos 90000);
  target_price = some (pos 120000);
  risk_budget = some (pos 100000);
  stop_distance = some (pos 10000);
  position_size = some (pos 3000);
  requested_position_size = some (pos 10000);
  gross_exposure_after = some (pos 300000);
  gross_exposure_before = none;
  gross_exposure_limit = none;
  proposed_value = none;
  daily_pnl = some (pos 0);
  volatility_factor = some (pos 1000);
  closing_quantity = some (pos 0);
  opening_quantity = some (pos 4000);
  opening_position_size = none;
  requested_projected_quantity = some (pos 4000);
  approved_projected_quantity = some (pos 4000);
}

cut_assessment_made : evaluate resizing short_of_cash ≡ ok cut_assessment
unfolding evaluate from_context check_decision check_transition check_context check_sizing
    closing_of opening_of daily_loss_limit_reached check_symbol_exposure check_sector_exposure
    correlated_value correlation_exposure_allowed floor_to_step calculate_position_size
    validate_stop build_target volatility_size_factor gross_exposure_after max_quantity_for_exposure
    projected_gross_exposure rekey any_value check_config check_input reject safety_gates
    session_gates drawdown_gate stop_gate cash_limit cash_gate size_order target_gate
    volatility_factor volatility_gate quantity_gate gross_for expose shrink reexpose over_limit
    exposure_gate concentration concentration_gate projected_increase approved_projection vet
    approve is_space lstrip rstrip strip upper lower get ◌+ℤ◌ ◌-ℤ◌
cut_assessment_made = refl

evaluate_opening_quantity_example :
    (q : ℤ) × IsBudgeted resizing short_of_cash cut_assessment q
    × (IsFull resizing short_of_cash (min q (pos 4000)) (pos 3000)
        ⊎ IsLimited resizing short_of_cash (min q (pos 4000)) (pos 3000))
evaluate_opening_quantity_example =
    evaluate_opening_quantity resizing short_of_cash cut_assessment {p = opening}
      {k = opening_sizing} refl refl refl opening_sizing_made cut_assessment_made refl

evaluate_opening_projection_example :
    (q : ℤ) × IsBudgeted resizing short_of_cash cut_assessment q
    × (some (pos 4000) ≡ some (min q (pos 4000)))
    × (some (pos 4000) ≡ some (pos 0 + pos 1000 * min q (pos 4000)))
evaluate_opening_projection_example =
    evaluate_opening_projection resizing short_of_cash cut_assessment {p = opening}
      {k = opening_sizing} refl refl refl opening_sizing_made cut_assessment_made refl

abbrev reducing_sizing : RiskTransitionSizing ℤ
reducing_sizing = record {
  order_quantity = pos 4000;
  closing_quantity = pos 4000;
  opening_quantity = pos 0;
}

reducing_sizing_made : from_context reducing ≡ ok reducing_sizing
unfolding from_context check_sizing closing_of opening_of ◌-ℤ◌
reducing_sizing_made = refl

from_context-split_example : pos 4000 + pos 0 ≡ pos 4000
from_context-split_example = from_context-split reducing refl reducing_sizing_made
