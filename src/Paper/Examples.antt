-- ===== src/Paper/Examples.antt =====
-- The paper account and the exit engine at concrete inputs, in thousandths.
use stock_bot.Base.{
  ◌+◌, String, none, some, true, false, List, [], ◌∷◌, ◌≡◌, ◌⊎◌, Bool, count, refl,
}
use stock_bot.Base.Text.{strip, lstrip, rstrip, is_space, upper}
use stock_bot.Base.Dict.{get, put, remove, IsDistinct, tally}
use stock_bot.Base.Int.{ℤ, pos, ◌+ℤ◌, ◌-ℤ◌}
use stock_bot.Base.Result.{ok}
use stock_bot.Execution.Examples.{unit_time, decision, all_safe, granted, granted_made}
use stock_bot.Float.Fixed.{fixed}
use stock_bot.Clock.{Calendar}
use stock_bot.Signals.{long}
use stock_bot.Risk.Decision.{approved}
use stock_bot.Paper.Runtime.Orders.{
  PaperTradingConfig, PaperOrder, filled, rejected, PaperAccount, check_paper_order,
  check_paper_position,
}
use stock_bot.Paper.Runtime.Fills.{submitted_quantity, filled_position, opened}
use stock_bot.Paper.Runtime.Submit.{
  submit, fill_order, charge_fees, add_realized, store_position, append_order,
}
use stock_bot.Paper.Runtime.Authority.{submit-authorized}
use stock_bot.Paper.Outcome.{check_outcome, require_finite}
use stock_bot.Paper.Lifecycle.{
  Trades, Closing, store_trade, drop_trade, append_outcome, rest_of_trade, check_closing,
  outcome_of, close_open, close_partial,
}
use stock_bot.Paper.Lifecycle.Quantities.{open_quantity}
use stock_bot.Paper.Lifecycle.Closes.{closes, closed_quantity, closes-quantity}
use stock_bot.Paper.Exits.Opened.{Opened, of_order, of_position, of_outcome}
use text.Mathlib.Text.{◌==◌}
use stock_bot.Paper.Exits.Engine.{
  OpeningTerms, ExitConfig, Candle, check_open_position, marked, exit_of, target_hit, stop_hit,
  time_cutoff_hit,
}
use stock_bot.Paper.Exits.Trades.{
  open_position, position_of, store_open, process_candle, process_open, close_at, close_position,
  record_close,
}
use stock_bot.Paper.Exits.Runs.{Event, opening, candle, run, serve, no_positions, run-outcomes}

abbrev config : PaperTradingConfig ℤ
config = record { slippage_bps = pos 10000; fee_bps = pos 0; initial_equity = pos 100000000 }

abbrev account : PaperAccount ℤ (Unit {0})
account = record { positions = []; journal = []; realized_pnl = pos 0 }

-- 4 shares at 100, with 10 basis points of slippage.
abbrev bought : PaperOrder ℤ (Unit {0})
bought = record {
  timestamp = tt;
  symbol = "INFY";
  direction = long;
  requested_price = pos 100000;
  fill_price = pos 100100;
  quantity = pos 4000;
  status = filled;
  fees = pos 0;
  slippage_cost = pos 400;
  reason = "Paper fill simulated deterministically.";
}

abbrev holding : PaperAccount ℤ (Unit {0})
holding = record {
  positions =
      (
        "INFY",
        record {
          symbol = "INFY";
          direction = long;
          quantity = pos 4000;
          average_price = pos 100100;
          realized_pnl = pos 0;
        },
      )
      ∷ [];
  journal = bought ∷ [];
  realized_pnl = pos 0;
}

bought_made : submit config granted (pos 100000) none account ≡ (ok bought, holding)
unfolding submit submitted_quantity fill_order charge_fees add_realized store_position append_order
    filled_position opened check_paper_order check_paper_position get put strip lstrip rstrip
    is_space upper ◌+ℤ◌ ◌-ℤ◌
bought_made = refl

submit-authorized_example :
    ((filled ≡ filled) × (approved ≡ approved) × (true ≡ true) × (pos 4000 ≡ pos 4000))
    ⊎ ((filled ≡ rejected) × (holding.positions ≡ []) × (pos 0 ≡ pos 0))
submit-authorized_example =
    submit-authorized config decision none none "D1" [] all_safe (pos 100000) none account
      granted_made bought_made

-- Ten in the morning.
abbrev calendar : Calendar ℤ (Unit {0})
calendar = record {
  earlier = λ _ _. false;
  hour = λ _. 10;
  minute = λ _. 0;
  seconds_between = λ _ _. pos 600000;
}

abbrev exits : ExitConfig ℤ
exits = record {
  fee_bps = pos 0;
  slippage_bps = pos 0;
  max_holding_bars = 75;
  session_cutoff_hour = 15;
  session_cutoff_minute = 15;
}

abbrev terms : OpeningTerms ℤ
terms = record {
  stop_price = pos 98000;
  target_price = pos 104000;
  trade_id = some "T1";
  strategy_version = "STRAT-v1.0";
  model_version = none;
  risk_version = none;
  regime = none;
}

-- A candle that touches the stop and the target.
abbrev wide : Candle ℤ (Unit {0})
wide = record {
  symbol = "infy";
  timestamp = tt;
  high = pos 105000;
  low = pos 97000;
  close = pos 100000;
}

abbrev events : List (Event ℤ (Unit {0}))
events = opening bought terms ∷ opening bought terms ∷ candle wide false ∷ opening bought terms ∷ []

abbrev id_of : PaperOrder ℤ (Unit {0}) → String → String
id_of o symbol = symbol

-- The second opening is refused, the candle closes the first, and the third is open.
two_opened :
    (run calendar exits id_of events no_positions).0 ≡ of_order bought ∷ of_order bought ∷ []
unfolding run serve open_position position_of check_open_position store_open process_candle
    process_open marked exit_of target_hit stop_hit time_cutoff_hit close_at close_position
    check_outcome require_finite record_close get put remove strip lstrip rstrip is_space upper ◌+ℤ◌
    ◌-ℤ◌
two_opened = refl

abbrev in_infy : Opened ℤ (Unit {0}) → Bool
in_infy p = p.symbol == "INFY"

run-outcomes_example :
    let (opened, e) = run calendar exits id_of events no_positions in
    IsDistinct e.open_positions
    × (tally (λ p. in_infy (of_position p)) e.open_positions
          + count (λ o. in_infy (of_outcome o)) e.completed_outcomes
        ≡ count in_infy opened)
run-outcomes_example = run-outcomes calendar exits id_of in_infy events

abbrev open_book : Trades ℤ (Unit {0})
open_book = record {
  open_trades =
      (
        "INFY",
        record {
          order = bought;
          quantity = pos 4000;
          entry_fees = pos 0;
          entry_slippage_cost = pos 400;
          mae = pos 0;
          mfe = pos 0;
        },
      )
      ∷ [];
  outcomes = [];
}

abbrev at_102 : Closing ℤ (Unit {0})
at_102 = record {
  timestamp = tt;
  price = pos 102000;
  exit_fees = pos 0;
  exit_slippage_cost = pos 0;
  reference_price = none;
}

-- One share is sold, nine more are refused, and one more is sold.
abbrev sales : List (Closing ℤ (Unit {0}) × ℤ)
sales = (at_102, pos 1000) ∷ (at_102, pos 9000) ∷ (at_102, pos 1000) ∷ []

two_sold : closed_quantity (closes calendar "infy" sales open_book).0 ≡ pos 2000
unfolding closes closed_quantity close_partial close_open check_closing outcome_of check_outcome
    require_finite rest_of_trade store_trade drop_trade append_outcome get put remove upper ◌+ℤ◌
    ◌-ℤ◌
two_sold = refl

closes-quantity_example :
    let (os, s) = closes calendar "infy" sales open_book in
    open_quantity (upper "infy") s +ℤ closed_quantity os ≡ open_quantity (upper "infy") open_book
closes-quantity_example = closes-quantity calendar "infy" sales open_book
