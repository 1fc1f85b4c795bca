-- ===== src/Paper/Exits/Trades.antt =====
-- The operations of `PaperExitEngine` of trading/paper/exit_engine.py. The trade id made of an order
-- comes from outside.
use stock_bot.Base.{
  String, Bool, true, false, not, Option, none, some, List, [], ◌∷◌, ◌++◌, if◌then◌else◌, is_some,
}
use stock_bot.Base.Text.{strip, upper, is_empty}
use stock_bot.Base.Dict.{Dict, get, put, remove}
use stock_bot.Base.Result.{Result, value_error, raise_if}
use stock_bot.Base.Exec.{Exec, pure, lift, gets, modify, option_case, ◌>>=◌, ◌>>◌}
use stock_bot.Float.{Float, num, abs, max, ◌+◌, ◌-◌, ◌*◌, ◌/◌}
use stock_bot.Clock.{Timestamp, Calendar}
use stock_bot.Paper.Runtime.Orders.{PaperOrder, PaperOrderStatus, filled, rejected, is_long}
use stock_bot.Paper.Outcome.{TradeOutcome, closed_trade, check_outcome}
use stock_bot.Paper.Exits.Engine.{
  ExitReason, OpenPosition, ExitConfig, Candle, ExitEngine, OpeningTerms, check_open_position,
  marked, exit_of,
}
use Prim.Native.String

abbrev pub is_filled : PaperOrderStatus → Bool
is_filled filled = true
is_filled rejected = false

module _ {F T : Type 0} where
  unfoldable pub store_open : String → OpenPosition F T → ExitEngine F T → ExitEngine F T
  store_open symbol p e = record e { open_positions = put symbol p e.open_positions }

  -- the looked-up price, or the fill price of the position
  abbrev pub price_or : OpenPosition F T → Option F → F
  price_or p none = p.fill_price
  price_or p (some x) = x

  -- the three writes that close a position
  unfoldable pub record_close :
      String → String → TradeOutcome F T → ExitReason → ExitEngine F T → ExitEngine F T
  record_close symbol trade_id outcome reason e = record {
    open_positions = remove symbol e.open_positions;
    completed_outcomes = e.completed_outcomes ++ (outcome ∷ []);
    exit_reasons = put trade_id reason e.exit_reasons;
  }

module _ {F T : Type 0} ⦃n : Float F⦄ ⦃t : Timestamp T⦄ where
  -- the position that `open_position` makes of an order
  unfoldable pub position_of :
      (PaperOrder F T → String → String)
      → PaperOrder F T
      → OpeningTerms F
      → String
      → Result (OpenPosition F T)
  position_of default_id o terms symbol = check_open_position (record {
    trade_id = elim terms.trade_id [
      | none ↦ default_id o symbol
      | some id ↦ if is_empty id then default_id o symbol else id
    ];
    symbol = symbol;
    direction = o.direction;
    entry_time = o.timestamp;
    fill_price = o.fill_price;
    requested_price = o.requested_price;
    quantity = o.quantity;
    stop_price = terms.stop_price;
    target_price = terms.target_price;
    entry_fees = o.fees;
    entry_slippage_cost = o.slippage_cost;
    strategy_version = terms.strategy_version;
    model_version = terms.model_version;
    risk_version = terms.risk_version;
    regime = terms.regime;
    mae = num 0;
    mfe = num 0;
    bars_held = 0;
  })

  -- `open_position`
  unfoldable pub open_position :
      (PaperOrder F T → String → String)
      → PaperOrder F T
      → OpeningTerms F
      → Exec (ExitEngine F T) (OpenPosition F T)
  unfolding position_of store_open
  open_position default_id o terms = do
    lift (
        raise_if (not (is_filled o.status))
          (value_error "only FILLED paper orders can open a position"))
    let symbol = upper (strip o.symbol)
    known ← gets (λ e. is_some (get symbol e.open_positions))
    lift (raise_if known (value_error (String.◌++◌ "position already open for " symbol)))
    p ← lift (position_of default_id o terms symbol)
    modify (store_open symbol p)
    pure p

module _ {F T : Type 0} ⦃n : Float F⦄ ⦃t : Timestamp T⦄ (calendar : Calendar F T)
    (config : ExitConfig F) where
  -- `_close_position`
  unfoldable pub close_position : OpenPosition F T → T → F → Result (TradeOutcome F T)
  close_position p exit_time exit_price =
      let adverse_slip = config.slippage_bps / num 10000 in
      let fee_rate = config.fee_bps / num 10000 in
      let actual_exit_price =
        exit_price * (if is_long p.direction then num 1 - adverse_slip else num 1 + adverse_slip) in
      let unit_gross =
        (if is_long p.direction
          then exit_price - p.requested_price
          else p.requested_price - exit_price) in
      let gross_pnl = unit_gross * p.quantity in
      let total_fees = p.entry_fees + actual_exit_price * p.quantity * fee_rate in
      let total_slippage =
        p.entry_slippage_cost + abs (exit_price - actual_exit_price) * p.quantity in
      check_outcome calendar (record {
        symbol = p.symbol;
        direction = p.direction;
        entry_time = p.entry_time;
        exit_time = exit_time;
        entry_price = p.fill_price;
        exit_price = actual_exit_price;
        quantity = p.quantity;
        gross_pnl = gross_pnl;
        fees = total_fees;
        slippage_cost = total_slippage;
        net_pnl = gross_pnl - total_fees - total_slippage;
        holding_minutes = max (num 1) (calendar.seconds_between exit_time p.entry_time / num 60);
        mae = p.mae;
        mfe = p.mfe;
        status = closed_trade;
      })

  -- the closure of a position at a price
  unfoldable pub close_at :
      String → OpenPosition F T → T → F → ExitReason → Exec (ExitEngine F T) (TradeOutcome F T)
  unfolding record_close
  close_at symbol p exit_time exit_price reason = do
    outcome ← lift (close_position p exit_time exit_price)
    modify (record_close symbol p.trade_id outcome reason)
    pure outcome

  -- one candle for the position of its symbol
  unfoldable pub process_open :
      String
      → OpenPosition F T
      → Candle F T
      → Bool
      → Exec (ExitEngine F T) (List (TradeOutcome F T))
  unfolding store_open
  process_open symbol p c force = do
    lift (
        raise_if (calendar.earlier c.timestamp p.entry_time)
          (value_error "candle timestamp cannot precede position entry time"))
    let p' = marked p c
    modify (store_open symbol p')
    option_case (exit_of calendar config force p' c) (pure []) λ (price, reason). do
      outcome ← close_at symbol p' c.timestamp price reason
      pure (outcome ∷ [])

  -- `process_candle`
  unfoldable pub process_candle :
      Candle F T → Bool → Exec (ExitEngine F T) (List (TradeOutcome F T))
  process_candle c force = do
    let symbol = upper (strip c.symbol)
    found ← gets (λ e. get symbol e.open_positions)
    option_case found (pure []) λ p. process_open symbol p c force

  -- the loop of `close_all` over the symbols that were open
  unfoldable pub close_each :
      (String → Option F)
      → T
      → ExitReason
      → Dict (OpenPosition F T)
      → Exec (ExitEngine F T) (List (TradeOutcome F T))
  close_each price_lookup ts reason [] = pure []
  close_each price_lookup ts reason ((symbol, p) ∷ rest) = do
    outcome ← close_at symbol p ts (price_or p (price_lookup symbol)) reason
    outcomes ← close_each price_lookup ts reason rest
    pure (outcome ∷ outcomes)

  -- `close_all`
  unfoldable pub close_all :
      (String → Option F) → T → ExitReason → Exec (ExitEngine F T) (List (TradeOutcome F T))
  close_all price_lookup ts reason = do
    book ← gets (λ e. e.open_positions)
    close_each price_lookup ts reason book
