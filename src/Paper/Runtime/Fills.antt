-- ===== src/Paper/Runtime/Fills.antt =====
-- The quantity of an order and the position that its fill leaves, of paper/runtime.py.
use stock_bot.Base.{
  String, Bool, true, false, not, ◌||◌, when_some, Option, none, some, if◌then◌else◌,
}
use stock_bot.Base.Result.{Result, ok, err, value_error, raise_if, ◌>>◌}
use stock_bot.Execution.Models.{ExecutionAuthorization, AuthorizationStatus, authorized, blocked}
use stock_bot.Float.{Float, num, neg, min, ltb, leb, isfinite, ◌==◌, ◌+◌, ◌-◌, ◌*◌, ◌/◌}
use stock_bot.Signals.{StrategyDirection}
use stock_bot.Paper.Runtime.Orders.{PaperPosition, is_long}

abbrev same_direction : StrategyDirection → StrategyDirection → Bool
same_direction StrategyDirection.long StrategyDirection.long = true
same_direction StrategyDirection.short StrategyDirection.short = true
same_direction StrategyDirection.no_trade StrategyDirection.no_trade = true
same_direction _ _ = false

module _ {F : Type 0} ⦃n : Float F⦄ where
  unfoldable pub opened : String → StrategyDirection → F → F → F → PaperPosition F
  opened symbol direction quantity fill_price fees = record {
    symbol = symbol;
    direction = direction;
    quantity = quantity;
    average_price = fill_price;
    realized_pnl = neg fees;
  }

  unfoldable pub increased : PaperPosition F → String → F → F → F → PaperPosition F
  increased current symbol quantity fill_price fees = record {
    symbol = symbol;
    direction = current.direction;
    quantity = current.quantity + quantity;
    average_price =
        (current.average_price * current.quantity + fill_price * quantity)
        / (current.quantity + quantity);
    realized_pnl = current.realized_pnl - fees;
  }

  -- `realized` of an order against the current position
  unfoldable pub realized_by : PaperPosition F → F → F → F
  realized_by current quantity fill_price =
      let close_quantity = min quantity current.quantity in
      if is_long current.direction
      then (fill_price - current.average_price) * close_quantity
      else (current.average_price - fill_price) * close_quantity

  -- the position that the order leaves when it is opposite to the current one
  unfoldable pub opposed :
      PaperPosition F → String → StrategyDirection → F → F → F → PaperPosition F
  opposed current symbol direction quantity fill_price fees =
      let close_quantity = min quantity current.quantity in
      let realized = realized_by current quantity fill_price in
      let remaining_current = current.quantity - close_quantity in
      let remaining_order = quantity - close_quantity in
      if ltb (num 0) remaining_order
      then (record {
        symbol = symbol;
        direction = direction;
        quantity = remaining_order;
        average_price = fill_price;
        realized_pnl = current.realized_pnl + realized - fees;
      })
      else if ltb (num 0) remaining_current
      then (record {
        symbol = symbol;
        direction = current.direction;
        quantity = remaining_current;
        average_price = current.average_price;
        realized_pnl = current.realized_pnl + realized - fees;
      })
      else (record {
        symbol = symbol;
        direction = current.direction;
        quantity = num 0;
        average_price = num 0;
        realized_pnl = current.realized_pnl + realized - fees;
      })

  -- the position that an order leaves, and what it realizes of the old one
  unfoldable pub filled_position :
      Option (PaperPosition F) → String → StrategyDirection → F → F → F → PaperPosition F × Option F
  unfolding opposed opened increased
  filled_position none symbol direction quantity fill_price fees =
      (opened symbol direction quantity fill_price fees, none)
  filled_position (some current) symbol direction quantity fill_price fees =
      if current.quantity == num 0
      then (opened symbol direction quantity fill_price fees, none)
      else if same_direction current.direction direction
      then (increased current symbol quantity fill_price fees, none)
      else (
        opposed current symbol direction quantity fill_price fees,
        some (realized_by current quantity fill_price),
      )

abbrev pub is_authorized : AuthorizationStatus → Bool
is_authorized authorized = true
is_authorized blocked = false

module _ {F : Type 0} ⦃n : Float F⦄ where
  -- the quantity of an order that is journalled as rejected
  abbrev blocked_quantity : Option F → Result F
  blocked_quantity none =
      err (value_error "blocked paper orders require a positive requested quantity")
  blocked_quantity (some q) = do
    raise_if (leb q (num 0))
        (value_error "blocked paper orders require a positive requested quantity")
    ok q

module _ {F T : Type 0} ⦃n : Float F⦄ where
  -- the quantity of an order that is filled
  abbrev authorized_quantity : ExecutionAuthorization F T → Option F → Result F
  authorized_quantity a requested = do
    raise_if (leb a.approved_quantity (num 0))
        (value_error "authorized execution must carry a positive quantity")
    raise_if (when_some requested (λ q. not (q == a.approved_quantity)))
        (value_error "paper execution quantity must exactly equal authorization approved quantity")
    ok a.approved_quantity

  -- the checks before anything is written, and the quantity that is then used
  unfoldable pub submitted_quantity : ExecutionAuthorization F T → F → Option F → Result F
  submitted_quantity a price requested = do
    raise_if (not (isfinite price) || leb price (num 0))
        (value_error "price must be positive and finite")
    (if is_authorized a.status then authorized_quantity a requested else blocked_quantity requested)
