-- ===== src/Portfolio/Examples.antt =====
-- The portfolio manager at concrete inputs.
use stock_bot.Base.{none, some, [], ◌∷◌, ◌≡◌, ◌↔◌, refl, inr}
use stock_bot.Base.Int.{ℤ, pos, ◌+ℤ◌, ◌-ℤ◌}
use stock_bot.Base.Text.{strip, lstrip, rstrip, is_space, upper}
use stock_bot.Base.Dict.{get, put, remove}
use stock_bot.Base.Result.{ok}
use stock_bot.Execution.Examples.{unit_time}
use stock_bot.Float.Fixed.{fixed}
use stock_bot.Portfolio.Contracts.{
  reject, approve, increase, PortfolioPosition, TradeIntent, PortfolioLimits, PortfolioSnapshot,
  PortfolioDecision, check_position, check_snapshot, has_duplicates, exposure_from,
  gross_exposure_fraction,
}
use stock_bot.Portfolio.Transition.{
  PositionTransitionResult, classify, classify_position_transition,
}
use stock_bot.Portfolio.Exposure.{
  by_symbol, insert_position, sort_positions, traded, projected_positions, projected_snapshot,
  sector_exposure_fraction, symbol_exposure_fraction,
}
use stock_bot.Portfolio.Manager.{
  Digits, evaluate, position_for, checked_sector, check_position_count, exceeds,
  check_gross_exposure, check_symbol_exposure, check_sector_exposure, first_failure, checks_of,
  decision_of,
}
use stock_bot.Portfolio.Within.{IsWithin, evaluate-IsWithin}
use stock_bot.Portfolio.Handover.{to_risk, classify-check_transition}
use stock_bot.Risk.Contracts.{check_transition}

abbrev infy : PortfolioPosition ℤ
infy = record { symbol = "INFY"; quantity = pos 10000; mark_price = pos 100000; sector = some "IT" }

abbrev buy_five : TradeIntent ℤ
buy_five = record {
  symbol = "INFY";
  quantity = pos 5000;
  price = pos 100000;
  side = "BUY";
  sector = none;
  decision_id = "D1";
}

abbrev snapshot : PortfolioSnapshot ℤ (Unit {0})
snapshot = record { as_of = tt; equity = pos 2000000; positions = infy ∷ [] }

abbrev projected : PortfolioSnapshot ℤ (Unit {0})
projected = record snapshot { positions = record infy { quantity = pos 15000 } ∷ [] }

-- At most 60 % of the equity in one symbol.
abbrev limits : PortfolioLimits ℤ
limits = record {
  max_positions = some 2;
  max_gross_exposure_fraction = none;
  max_symbol_exposure_fraction = some (pos 600);
  max_sector_exposure_fraction = some (pos 900);
}

abbrev digits : Digits ℤ
digits = record { count_text = λ _. "n"; six_digits = λ _. "x" }

abbrev refused : PortfolioDecision ℤ
refused = record {
  action = reject;
  symbol = "INFY";
  decision_id = "D1";
  reason_code = "MAX_SYMBOL_EXPOSURE";
  reason = "Projected symbol exposure x exceeds limit x.";
  current_gross_exposure_fraction = pos 500;
  projected_gross_exposure_fraction = pos 750;
  projected_position_count = 1;
  position_transition = increase;
}

projected_made : projected_snapshot snapshot buy_five ≡ ok projected
unfolding projected_snapshot projected_positions traded by_symbol sort_positions insert_position get
    put remove check_position check_snapshot has_duplicates strip lstrip rstrip is_space upper ◌+ℤ◌
    ◌-ℤ◌
projected_made = refl

refused_made : evaluate digits limits snapshot buy_five ≡ ok refused
unfolding evaluate projected_snapshot projected_positions traded by_symbol sort_positions
    insert_position get put remove check_position check_snapshot has_duplicates strip lstrip rstrip
    is_space upper ◌+ℤ◌ ◌-ℤ◌ classify_position_transition classify position_for checks_of
    first_failure check_position_count check_gross_exposure check_symbol_exposure
    check_sector_exposure exceeds checked_sector decision_of gross_exposure_fraction exposure_from
    sector_exposure_fraction symbol_exposure_fraction
refused_made = refl

evaluate-IsWithin_example : (reject ≡ approve) ↔ IsWithin limits projected buy_five
evaluate-IsWithin_example =
    evaluate-IsWithin digits limits snapshot buy_five projected_made refused_made

classify-check_transition_example :
    (r : PositionTransitionResult ℤ) × (classify_position_transition (some infy) buy_five ≡ ok r)
    × (check_transition (to_risk r.transition) (pos 10000) (pos 10000 +ℤ pos 5000) ≡ ok tt)
unfolding ◌+ℤ◌
classify-check_transition_example =
    classify-check_transition (some infy) buy_five refl (inr (inr refl))
