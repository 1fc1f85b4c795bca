-- ===== src/Execution/Paper/Examples.antt =====
-- Tests of execution/adapters/paper.py on concrete orders, in thousandths.
use stock_bot.Base.{none, some, [], ◌∷◌, ◌≡◌, refl}
use stock_bot.Base.Text.{is_space, lstrip, rstrip, strip, upper}
use stock_bot.Base.Dict.{get, put}
use stock_bot.Base.Int.{ℤ, pos, negsuc, ◌+ℤ◌, ◌-ℤ◌}
use stock_bot.Base.Result.{ok}
use stock_bot.Float.Fixed.{fixed}
use stock_bot.Execution.Status.{partially_filled}
use stock_bot.Execution.Models.{
  OrderSnapshot, PositionSnapshot, check_fill, check_position, check_snapshot,
}
use stock_bot.Execution.Engine.State.{check_contract}
use stock_bot.Execution.Examples.{unit_time, order}
use stock_bot.Execution.Paper.Fills.{
  PaperConfig, PaperBroker, price_of, first_quantity, make_fill, apply_fill, next_position,
  adjusted, closed, snapshot, padded, eight_digits,
}
use stock_bot.Execution.Paper.Broker.{paper_submit, place, respond}
use stock_bot.Execution.Paper.Positions.{next_position-quantity}
use stock_bot.Execution.Paper.Contract.{paper_submit-check_contract}

-- No slippage and no fee, and half of each order filled at once.
abbrev config : PaperConfig ℤ
config = record { slippage_bps = pos 0; fee_bps = pos 0; partial_fill_ratio = pos 500 }

abbrev empty_broker : PaperBroker ℤ (Unit {0})
empty_broker = record { orders = []; requests = []; positions = []; sequence = 0 }

unknown_order : get "SB-1" empty_broker.orders ≡ none
unfolding get
unknown_order = refl

abbrev half_filled : OrderSnapshot ℤ (Unit {0})
half_filled = record {
  broker_order_id = "PAPER-00000001";
  client_order_id = "SB-1";
  status = partially_filled;
  requested_quantity = pos 4000;
  filled_quantity = pos 2000;
  average_fill_price = some (pos 100000);
  reason = "Deterministic paper fill.";
  latency_ms = none;
  updated_at = tt;
  fills =
      record {
        fill_id = "PF-00000001";
        client_order_id = "SB-1";
        quantity = pos 2000;
        price = pos 100000;
        fee = pos 0;
        timestamp = tt;
      }
      ∷ [];
}

half_filled_made : (paper_submit config none order tt empty_broker).0 ≡ ok half_filled
unfolding paper_submit place respond price_of first_quantity make_fill check_fill check_snapshot
    apply_fill next_position snapshot check_position padded eight_digits get put strip lstrip rstrip
    is_space upper ◌+ℤ◌ ◌-ℤ◌
half_filled_made = refl

paper_submit-check_contract_example :
    (order.client_order_id ≡ order.client_order_id)
    × (pos 4000 ≡ pos 4000)
    × (check_contract half_filled ≡ ok tt)
paper_submit-check_contract_example =
    paper_submit-check_contract config none order tt empty_broker unknown_order half_filled_made

-- A long position of 2 shares, sold 5.
abbrev held : PositionSnapshot ℤ
held = record { symbol = "INFY"; quantity = pos 2000; average_price = pos 90000 }

abbrev reversed_position : PositionSnapshot ℤ
reversed_position = record { symbol = "INFY"; quantity = negsuc 2999; average_price = pos 100000 }

reversed_made :
    next_position "INFY" (some held) (negsuc 4999) (pos 100000) ≡ ok (some reversed_position)
unfolding next_position adjusted closed snapshot check_position strip lstrip rstrip is_space upper
    ◌+ℤ◌ ◌-ℤ◌
reversed_made = refl

next_position-quantity_example : negsuc 2999 ≡ pos 2000 +ℤ negsuc 4999
next_position-quantity_example =
    next_position-quantity "INFY" (some held) (negsuc 4999) (pos 100000) reversed_made
