-- ===== src/Execution/Engine/Requests.antt =====
-- Orders from authorizations, and the local checks: `side_for_direction`, `from_authorization`,
-- `from_exit_authorization` and `validate` of execution/engine.py.
use stock_bot.Base.{String, Bool, true, false, not, ◌||◌, Option, none, some, if◌then◌else◌}
use stock_bot.Base.Text.{strip, upper, is_blank}
use stock_bot.Base.Result.{Result, ok, err, value_error, raise_if, ◌>>=◌, ◌>>◌}
use stock_bot.Float.{Float, num, abs, ltb, leb, isfinite}
use stock_bot.Float as Num
use stock_bot.Clock.{Timestamp}
use stock_bot.Signals.{StrategyDirection, long, short, no_trade}
use stock_bot.Execution.Models.{
  OrderSide, buy, sell, OrderType, ExecutionAuthorization, OrderRequest, PositionSnapshot,
  is_authorized, is_purpose, check_request,
}
use text.Mathlib.Text.{◌==◌}
use Prim.Native.String

-- `side_for_direction`
unfoldable pub side_for_direction : StrategyDirection → Result OrderSide
side_for_direction long = ok buy
side_for_direction short = ok sell
side_for_direction no_trade = err (value_error "NO_TRADE cannot be executed")

-- `a == b` on sides and directions
abbrev pub same_side : OrderSide → OrderSide → Bool
same_side buy buy = true
same_side sell sell = true
same_side _ _ = false

abbrev pub same_direction : StrategyDirection → StrategyDirection → Bool
same_direction long long = true
same_direction short short = true
same_direction no_trade no_trade = true
same_direction _ _ = false

abbrev direction_text : StrategyDirection → String
direction_text long = "LONG"
direction_text short = "SHORT"
direction_text no_trade = "NO_TRADE"

abbrev pub or_default : {A : Type 0} → Option A → A → A
or_default none a = a
or_default (some b) a = b

module _ {F T : Type 0} ⦃n : Float F⦄ ⦃t : Timestamp T⦄ where
  -- The text that a client order id is a digest of.
  abbrev pub order_key : ExecutionAuthorization F T → String → String → String
  order_key a decision_id purpose = String.◌++◌ decision_id (
      String.◌++◌ "|" (
        String.◌++◌ a.symbol (
          String.◌++◌ "|" (
            String.◌++◌ (direction_text a.direction)
              (String.◌++◌ "|" (String.◌++◌ a.risk_version (String.◌++◌ "|" purpose)))))))

  -- `from_authorization`
  unfoldable pub from_authorization :
      (String → String)
      → ExecutionAuthorization F T
      → String
      → OrderType
      → Option F
      → String
      → Option T
      → Result (OrderRequest F T)
  unfolding side_for_direction check_request
  from_authorization digest24 a decision_id order_type limit_price purpose created_at = do
    raise_if (not (is_authorized a.status))
        (value_error "execution requires AUTHORIZED risk/safety control")
    raise_if (leb a.approved_quantity (num 0)) (value_error "authorized quantity must be positive")
    raise_if (is_blank decision_id) (value_error "decision_id must not be empty")
    raise_if (not (is_purpose purpose)) (value_error "purpose must be ENTRY or EXIT")
    side ← side_for_direction a.direction
    check_request (record {
      client_order_id = String.◌++◌ "SB-" (digest24 (order_key a decision_id purpose));
      decision_id = decision_id;
      symbol = a.symbol;
      side = side;
      quantity = a.approved_quantity;
      order_type = order_type;
      limit_price = limit_price;
      purpose = purpose;
      created_at = or_default created_at a.timestamp;
      authorization = some a;
    })

  -- `from_exit_authorization`
  unfoldable pub from_exit_authorization :
      (String → String)
      → ExecutionAuthorization F T
      → String
      → PositionSnapshot F
      → Option F
      → OrderType
      → Option F
      → Option T
      → Result (OrderRequest F T)
  unfolding from_authorization side_for_direction check_request
  from_exit_authorization digest24 a decision_id p quantity order_type limit_price created_at = do
    raise_if (Num.◌==◌ p.quantity (num 0))
        (value_error "cannot create an exit order for a flat position")
    let requested = or_default quantity (abs p.quantity)
    raise_if (leb requested (num 0)) (value_error "exit quantity must be positive")
    raise_if (ltb (abs p.quantity) requested)
        (value_error "exit quantity cannot exceed current position")
    raise_if (not (upper (strip a.symbol) == p.symbol))
        (value_error "exit authorization symbol does not match position")
    raise_if (not (same_direction a.direction (if ltb (num 0) p.quantity then short else long)))
        (value_error "exit authorization direction must oppose the position")
    raise_if (not (Num.◌==◌ a.approved_quantity requested))
        (value_error "exit quantity must exactly equal risk-approved quantity")
    from_authorization digest24 a decision_id order_type limit_price "EXIT" created_at

  unfoldable pub check_against : OrderRequest F T → ExecutionAuthorization F T → Result (Unit {0})
  unfolding side_for_direction
  check_against o a = do
    raise_if (not (is_authorized a.status)) (value_error "order authorization is not active")
    raise_if (not (Num.◌==◌ o.quantity a.approved_quantity))
        (value_error "execution quantity must exactly equal risk-approved quantity")
    raise_if (not (o.symbol == a.symbol))
        (value_error "execution symbol does not match authorization")
    side ← side_for_direction a.direction
    raise_if (not (same_side o.side side))
        (value_error "execution side does not match authorization")
    raise_if (not (isfinite o.quantity) || leb o.quantity (num 0))
        (value_error "execution quantity must be positive and finite")

  -- `validate`
  unfoldable pub validate : OrderRequest F T → Result (Unit {0})
  unfolding check_against side_for_direction
  validate o = elim o.authorization [
    | none ↦ err (value_error "order must retain risk/safety authorization")
    | some a ↦ check_against o a
  ]
