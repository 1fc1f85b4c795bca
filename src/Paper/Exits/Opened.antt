-- ===== src/Paper/Exits/Opened.antt =====
-- What a paper position of trading/paper/exit_engine.py keeps from its opening to its outcome.
use stock_bot.Base.{String, ◌≡◌, arith, refl}
use stock_bot.Base.Text.{strip, upper}
use stock_bot.Base.Result.{ok}
use stock_bot.Float.{Float}
use stock_bot.Clock.{Timestamp, Calendar}
use stock_bot.Signals.{StrategyDirection}
use stock_bot.Paper.Runtime.Orders.{PaperOrder}
use stock_bot.Paper.Outcome.{TradeOutcome, check_outcome}
use stock_bot.Paper.Exits.Engine.{
  OpenPosition, ExitConfig, OpeningTerms, Candle, marked, check_open_position,
}
use stock_bot.Paper.Exits.Trades.{close_position, position_of}

-- what a position keeps from its opening on
pub record Opened (F T : Type 0) : Type 0 where
  pub symbol : String
  pub direction : StrategyDirection
  pub entry_time : T
  pub entry_price : F
  pub quantity : F

module _ {F T : Type 0} where
  abbrev pub of_order : PaperOrder F T → Opened F T
  of_order o = record {
    symbol = upper (strip o.symbol);
    direction = o.direction;
    entry_time = o.timestamp;
    entry_price = o.fill_price;
    quantity = o.quantity;
  }

  abbrev pub of_position : OpenPosition F T → Opened F T
  of_position p = record {
    symbol = p.symbol;
    direction = p.direction;
    entry_time = p.entry_time;
    entry_price = p.fill_price;
    quantity = p.quantity;
  }

  abbrev pub of_outcome : TradeOutcome F T → Opened F T
  of_outcome o = record {
    symbol = o.symbol;
    direction = o.direction;
    entry_time = o.entry_time;
    entry_price = o.entry_price;
    quantity = o.quantity;
  }

module _ {F T : Type 0} ⦃n : Float F⦄ ⦃t : Timestamp T⦄ where
  pub position_of-same :
      (default_id : PaperOrder F T → String → String) (o : PaperOrder F T) (terms : OpeningTerms F)
      {p : OpenPosition F T}
      → position_of default_id o terms (upper (strip o.symbol)) ≡ ok p
      → of_position p ≡ of_order o
  unfolding position_of check_open_position
  position_of-same default_id o terms h = ground (arith, h)

  pub marked-same :
      (p : OpenPosition F T) (c : Candle F T) → of_position (marked p c) ≡ of_position p
  unfolding marked
  marked-same p c = refl

module _ {F T : Type 0} ⦃n : Float F⦄ ⦃t : Timestamp T⦄ (calendar : Calendar F T)
    (config : ExitConfig F) where
  pub close_position-same :
      (p : OpenPosition F T) (ts : T) (price : F) {o : TradeOutcome F T}
      → close_position calendar config p ts price ≡ ok o
      → of_outcome o ≡ of_position p
  unfolding close_position check_outcome
  close_position-same p ts price h = ground (arith, h)
