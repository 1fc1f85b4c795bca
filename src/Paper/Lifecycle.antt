-- ===== src/Paper/Lifecycle.antt =====
-- `PaperTradeLifecycle` of trading/paper/lifecycle.py.
pub mod Quantities
pub mod Closes
use stock_bot.Base.{
  String, Bool, true, false, not, Option, none, some, List, [], ◌∷◌, ◌++◌, ◌||◌, ◌&&◌, is_some,
  if◌then◌else◌,
}
use stock_bot.Base.Text.{upper}
use stock_bot.Base.Dict.{Dict, get, put, remove}
use stock_bot.Base.Result.{Result, ok, err, value_error, key_error, raise_if}
use stock_bot.Base.Exec.{Exec, pure, raise, lift, gets, modify, option_case, ◌>>=◌, ◌>>◌}
use stock_bot.Float.{Float, num, eps, isfinite, ltb, leb, min, max, ◌==◌, ◌+◌, ◌-◌, ◌*◌, ◌/◌}
use stock_bot.Clock.{Timestamp, Calendar, zoned}
use stock_bot.Paper.Runtime.Orders.{PaperOrder, PaperOrderStatus, filled, rejected, is_long}
use stock_bot.Paper.Outcome.{TradeOutcome, closed_trade, check_outcome}
use Prim.Native.String

-- the record of an open trade
pub record OpenTrade (F T : Type 0) : Type 0 where
  pub order : PaperOrder F T
  pub quantity : F
  pub entry_fees : F
  pub entry_slippage_cost : F
  pub mae : F
  pub mfe : F

pub record Trades (F T : Type 0) : Type 0 where
  pub open_trades : Dict (OpenTrade F T)
  pub outcomes : List (TradeOutcome F T)

-- The keyword arguments of `close_partial`, without the quantity.
pub record Closing (F T : Type 0) : Type 0 where
  pub timestamp : T
  pub price : F
  pub exit_fees : F
  pub exit_slippage_cost : F
  pub reference_price : Option F

abbrev is_filled : PaperOrderStatus → Bool
is_filled filled = true
is_filled rejected = false

abbrev no_trade_for : String → Result (Unit {0})
no_trade_for symbol = err (key_error (String.◌++◌ "no open trade for " symbol))

module _ {F T : Type 0} where
  unfoldable pub store_trade : String → OpenTrade F T → Trades F T → Trades F T
  store_trade symbol r s = record s { open_trades = put symbol r s.open_trades }

  unfoldable pub drop_trade : String → Trades F T → Trades F T
  drop_trade symbol s = record s { open_trades = remove symbol s.open_trades }

  unfoldable pub append_outcome : TradeOutcome F T → Trades F T → Trades F T
  append_outcome o s = record s { outcomes = s.outcomes ++ (o ∷ []) }

module _ {F T : Type 0} ⦃n : Float F⦄ where
  -- `open`
  unfoldable pub open_trade : PaperOrder F T → Exec (Trades F T) (Unit {0})
  open_trade o = do
    lift (
        raise_if (not (is_filled o.status))
          (value_error "only FILLED paper orders can open a trade"))
    let symbol = upper o.symbol
    known ← gets (λ s. is_some (get symbol s.open_trades))
    lift (raise_if known (value_error (String.◌++◌ "trade already open for " symbol)))
    modify (
        store_trade symbol (record {
          order = o;
          quantity = o.quantity;
          entry_fees = o.fees;
          entry_slippage_cost = o.slippage_cost;
          mae = num 0;
          mfe = num 0;
        }))

  -- the move from the first price to the second, in favour of the trade
  abbrev signed_move : OpenTrade F T → F → F → F
  signed_move r from to = if is_long r.order.direction then to - from else from - to

  -- the trade after a mark
  unfoldable pub marked : OpenTrade F T → F → OpenTrade F T
  marked r price =
      let move = signed_move r r.order.fill_price price * r.quantity in
      record r { mae = min r.mae move; mfe = max r.mfe move }

  -- the trade that a partial close leaves
  unfoldable pub rest_of_trade : OpenTrade F T → F → OpenTrade F T
  rest_of_trade r quantity = record r {
    quantity = r.quantity - quantity;
    entry_fees = r.entry_fees - r.entry_fees * quantity / r.quantity;
    entry_slippage_cost = r.entry_slippage_cost - r.entry_slippage_cost * quantity / r.quantity;
    mae = num 0;
    mfe = num 0;
  }

  -- `reference_price`, or else the price
  abbrev reference_of : Closing F T → F
  reference_of c = elim c.reference_price [ none ↦ c.price | some x ↦ x ]

  abbrev bad_reference : Closing F T → Bool
  bad_reference c = elim c.reference_price [
    | none ↦ false
    | some x ↦ not (isfinite x) || leb x (num 0)
  ]

module _ {F T : Type 0} ⦃n : Float F⦄ ⦃t : Timestamp T⦄ (calendar : Calendar F T) where
  -- `mark`
  unfoldable pub mark : String → T → F → Exec (Trades F T) (Unit {0})
  mark name ts price = do
    let symbol = upper name
    found ← gets (λ s. get symbol s.open_trades)
    option_case found (lift (no_trade_for symbol)) λ r. do
      lift (
          raise_if (not (isfinite price) || leb price (num 0))
            (value_error "mark price must be positive and finite"))
      lift (raise_if (not (zoned ts)) (value_error "mark timestamp must be timezone-aware"))
      lift (
          raise_if (calendar.earlier ts r.order.timestamp)
            (value_error "mark timestamp must not precede entry"))
      modify (store_trade symbol (marked r price))

  -- the checks of `close_partial` on its arguments and the open trade
  unfoldable pub check_closing : OpenTrade F T → Closing F T → F → Exec (Trades F T) (Unit {0})
  check_closing r c quantity = do
    lift (
        raise_if
          (not (isfinite c.price)
            || (not (isfinite quantity) || (leb c.price (num 0) || leb quantity (num 0))))
          (value_error "price and quantity must be positive and finite"))
    lift (
        raise_if
          (not (isfinite c.exit_fees)
            || (not (isfinite c.exit_slippage_cost)
                || (ltb c.exit_fees (num 0) || ltb c.exit_slippage_cost (num 0))))
          (value_error "exit costs must be finite and non-negative"))
    lift (raise_if (bad_reference c) (value_error "reference_price must be positive and finite"))
    lift (
        raise_if (ltb (num 0) c.exit_slippage_cost && reference_of c == c.price) (
          value_error
            "reference_price must differ from execution price when exit_slippage_cost is non-zero"))
    lift (raise_if (not (zoned c.timestamp)) (value_error "exit timestamp must be timezone-aware"))
    lift (
        raise_if (ltb (r.quantity + eps) quantity)
          (value_error "partial close quantity exceeds open quantity"))
    lift (
        raise_if (calendar.earlier c.timestamp r.order.timestamp)
          (value_error "exit timestamp must not precede entry"))

  -- the outcome of a close
  unfoldable pub outcome_of : String → OpenTrade F T → Closing F T → F → Result (TradeOutcome F T)
  outcome_of symbol r c quantity =
      let gross_pnl = signed_move r r.order.requested_price (reference_of c) * quantity in
      let fee_share = r.entry_fees * quantity / r.quantity in
      let slippage_share = r.entry_slippage_cost * quantity / r.quantity in
      check_outcome calendar (record {
        symbol = symbol;
        direction = r.order.direction;
        entry_time = r.order.timestamp;
        exit_time = c.timestamp;
        entry_price = r.order.fill_price;
        exit_price = c.price;
        quantity = quantity;
        gross_pnl = gross_pnl;
        fees = fee_share + c.exit_fees;
        slippage_cost = slippage_share + c.exit_slippage_cost;
        net_pnl = gross_pnl - fee_share - c.exit_fees - slippage_share - c.exit_slippage_cost;
        holding_minutes = calendar.seconds_between c.timestamp r.order.timestamp / num 60;
        mae = r.mae;
        mfe = r.mfe;
        status = closed_trade;
      })

  -- the close of a trade that is open
  unfoldable pub close_open :
      String → OpenTrade F T → Closing F T → F → Exec (Trades F T) (TradeOutcome F T)
  close_open symbol r c quantity = do
    check_closing r c quantity
    o ← lift (outcome_of symbol r c quantity)
    modify (append_outcome o)
    (if leb (r.quantity - quantity) eps
        then modify (drop_trade symbol)
        else modify (store_trade symbol (rest_of_trade r quantity)))
    pure o

  -- `close_partial`
  unfoldable pub close_partial : String → Closing F T → F → Exec (Trades F T) (TradeOutcome F T)
  close_partial name c quantity = do
    let symbol = upper name
    found ← gets (λ s. get symbol s.open_trades)
    option_case found (lift (err (key_error (String.◌++◌ "no open trade for " symbol))))
        λ r. close_open symbol r c quantity

  -- the checks of `close` before it closes the whole quantity
  unfoldable pub check_full_close : Closing F T → Exec (Trades F T) (Unit {0})
  check_full_close c = do
    lift (raise_if (leb c.price (num 0)) (value_error "exit price must be positive"))
    lift (raise_if (ltb c.exit_fees (num 0)) (value_error "exit_fees must be non-negative"))
    lift (
        raise_if (ltb c.exit_slippage_cost (num 0))
          (value_error "exit_slippage_cost must be non-negative"))
    lift (raise_if (not (zoned c.timestamp)) (value_error "exit timestamp must be timezone-aware"))

  -- `close`
  unfoldable pub close : String → Closing F T → Exec (Trades F T) (TradeOutcome F T)
  close name c = do
    let symbol = upper name
    found ← gets (λ s. get symbol s.open_trades)
    option_case found (lift (err (key_error (String.◌++◌ "no open trade for " symbol))))
        λ r. do check_full_close c; close_partial symbol c r.quantity
