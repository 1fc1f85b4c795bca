-- ===== src/Paper/Runtime/Submit.antt =====
-- `PaperTradingRuntime.submit` of paper/runtime.py.
use stock_bot.Base.{String, Option, none, some, [], ◌∷◌, ◌++◌, if◌then◌else◌}
use stock_bot.Base.Text.{upper}
use stock_bot.Base.Dict.{get, put}
use stock_bot.Base.Exec.{Exec, pure, lift, gets, modify, ◌>>=◌, ◌>>◌}
use stock_bot.Float.{Float, num, neg, abs, ◌+◌, ◌-◌, ◌*◌, ◌/◌}
use stock_bot.Clock.{Timestamp}
use stock_bot.Execution.Models.{ExecutionAuthorization}
use stock_bot.Paper.Runtime.Orders.{
  PaperTradingConfig, PaperOrder, filled, rejected, PaperPosition, PaperAccount, is_long,
  check_paper_order, check_paper_position,
}
use stock_bot.Paper.Runtime.Fills.{is_authorized, submitted_quantity, filled_position}

module _ {F T : Type 0} ⦃n : Float F⦄ where
  unfoldable pub add_realized : Option F → PaperAccount F T → PaperAccount F T
  add_realized none a = a
  add_realized (some x) a = record a { realized_pnl = a.realized_pnl + x }

  unfoldable pub charge_fees : F → PaperAccount F T → PaperAccount F T
  charge_fees x a = record a { realized_pnl = a.realized_pnl - x }

  unfoldable pub store_position : String → PaperPosition F → PaperAccount F T → PaperAccount F T
  store_position symbol p a = record a { positions = put symbol p a.positions }

  unfoldable pub append_order : PaperOrder F T → PaperAccount F T → PaperAccount F T
  append_order o a = record a { journal = a.journal ++ (o ∷ []) }

module _ {F T : Type 0} ⦃n : Float F⦄ ⦃t : Timestamp T⦄ (config : PaperTradingConfig F) where
  -- an authorization that is not given: the order is journalled as rejected
  unfoldable pub reject_order :
      ExecutionAuthorization F T → F → F → Exec (PaperAccount F T) (PaperOrder F T)
  reject_order a price quantity = do
    o ← lift (
        check_paper_order (record {
          timestamp = a.timestamp;
          symbol = upper a.symbol;
          direction = a.direction;
          requested_price = price;
          fill_price = price;
          quantity = quantity;
          status = rejected;
          fees = num 0;
          slippage_cost = num 0;
          reason = "Paper order blocked because authorization is not approved.";
        }))
    modify (append_order o)
    pure o

  abbrev fill_price_of : ExecutionAuthorization F T → F → F
  fill_price_of a price =
      let sign = if is_long a.direction then num 1 else neg (num 1) in
      price * (num 1 + sign * (config.slippage_bps / num 10000))

  unfoldable pub fill_order :
      ExecutionAuthorization F T → F → F → Exec (PaperAccount F T) (PaperOrder F T)
  fill_order a price quantity = do
    let symbol = upper a.symbol
    let fill_price = fill_price_of a price
    let fees = fill_price * quantity * config.fee_bps / num 10000
    modify (charge_fees fees)
    book ← gets (λ s. s.positions)
    let (position, realized) =
        filled_position (get symbol book) symbol a.direction quantity fill_price fees
    modify (add_realized realized)
    p ← lift (check_paper_position position)
    modify (store_position symbol p)
    o ← lift (
        check_paper_order (record {
          timestamp = a.timestamp;
          symbol = symbol;
          direction = a.direction;
          requested_price = price;
          fill_price = fill_price;
          quantity = quantity;
          status = filled;
          fees = fees;
          slippage_cost = abs (fill_price - price) * quantity;
          reason = "Paper fill simulated deterministically.";
        }))
    modify (append_order o)
    pure o

  -- `submit`
  unfoldable pub submit :
      ExecutionAuthorization F T → F → Option F → Exec (PaperAccount F T) (PaperOrder F T)
  submit a price requested = do
    quantity ← lift (submitted_quantity a price requested)
    if is_authorized a.status then fill_order a price quantity else reject_order a price quantity
