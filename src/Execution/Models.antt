-- ===== src/Execution/Models.antt =====
-- The immutable contracts of execution/engine.py, and `ExecutionAuthorization` of
-- execution/trading_execution.py.
use stock_bot.Base.{String, Bool, true, false, not, ◌||◌, Option, none, some, List, when_some}
use stock_bot.Base.Text.{strip, upper, is_blank}
use stock_bot.Base.Result.{Result, ok, value_error, raise_if, ◌>>◌}
use stock_bot.Float.{Float, num, eps, ◌+◌, ltb, isfinite}
use stock_bot.Clock.{Timestamp, zoned}
use stock_bot.Signals.{StrategyDirection}
use stock_bot.Risk.Contracts.{RiskPositionTransition}
use stock_bot.Risk.Sizing.{not_positive, not_nonnegative}
use stock_bot.Execution.Status.{OrderStatus}
use text.Mathlib.Text.{◌==◌}

pub data OrderSide : Type 0 where
  buy sell : OrderSide

pub data OrderType : Type 0 where
  market limit : OrderType

pub data AuthorizationStatus : Type 0 where
  authorized blocked : AuthorizationStatus

pub record ExecutionAuthorization (F T : Type 0) : Type 0 where
  pub timestamp : T
  pub symbol : String
  pub direction : StrategyDirection
  pub status : AuthorizationStatus
  pub reason : String
  pub risk_version : String
  pub approved_quantity : F
  pub approved_notional : F
  pub risk_decision_id : String
  pub restrictions : List String
  pub execution_version : String
  pub position_transition : Option RiskPositionTransition
  pub approved_projected_quantity : Option F

pub record OrderRequest (F T : Type 0) : Type 0 where
  pub client_order_id : String
  pub decision_id : String
  pub symbol : String
  pub side : OrderSide
  pub quantity : F
  pub order_type : OrderType
  pub limit_price : Option F
  pub purpose : String
  pub created_at : T
  pub authorization : Option (ExecutionAuthorization F T)

pub record Fill (F T : Type 0) : Type 0 where
  pub fill_id : String
  pub client_order_id : String
  pub quantity : F
  pub price : F
  pub fee : F
  pub timestamp : T

pub record OrderSnapshot (F T : Type 0) : Type 0 where
  pub broker_order_id : String
  pub client_order_id : String
  pub status : OrderStatus
  pub requested_quantity : F
  pub filled_quantity : F
  pub average_fill_price : Option F
  pub reason : String
  pub latency_ms : Option F
  pub updated_at : T
  pub fills : List (Fill F T)

pub record PositionSnapshot (F : Type 0) : Type 0 where
  pub symbol : String
  pub quantity : F
  pub average_price : F

pub record ExecutionResult (F T : Type 0) : Type 0 where
  pub request : OrderRequest F T
  pub snapshot : OrderSnapshot F T
  pub accepted : Bool
  pub latency_ms : F
  pub error : Option String

pub record ExecutionEvent (T : Type 0) : Type 0 where
  pub client_order_id : String
  pub from_status : Option OrderStatus
  pub to_status : OrderStatus
  pub timestamp : T
  pub reason : String
  pub decision_id : String
  pub purpose : String

abbrev pub is_authorized : AuthorizationStatus → Bool
is_authorized authorized = true
is_authorized blocked = false

-- `purpose in {"ENTRY", "EXIT"}`
abbrev pub is_purpose : String → Bool
is_purpose s = s == "ENTRY" || s == "EXIT"

module _ {F : Type 0} ⦃n : Float F⦄ where
  -- the checks of `limit_price` against the order type
  abbrev limit_missing : OrderType → Option F → Bool
  limit_missing limit none = true
  limit_missing limit (some p) = not_positive p
  limit_missing market _ = false

  abbrev limit_unwanted : OrderType → Option F → Bool
  limit_unwanted market (some _) = true
  limit_unwanted market none = false
  limit_unwanted limit _ = false

  -- `PositionSnapshot.__post_init__`
  unfoldable pub check_position : PositionSnapshot F → Result (PositionSnapshot F)
  check_position p = do
    raise_if (is_blank p.symbol) (value_error "symbol must not be empty")
    raise_if (not (isfinite p.quantity)) (value_error "quantity must be finite")
    raise_if (not_nonnegative p.average_price)
        (value_error "average_price must be non-negative and finite")
    ok (record p { symbol = upper (strip p.symbol) })

module _ {F T : Type 0} ⦃n : Float F⦄ ⦃t : Timestamp T⦄ where
  -- `ExecutionAuthorization.__post_init__`
  unfoldable pub check_authorization :
      ExecutionAuthorization F T → Result (ExecutionAuthorization F T)
  check_authorization a = do
    raise_if (not (zoned a.timestamp)) (value_error "execution timestamp must be timezone-aware")
    raise_if (is_blank a.symbol) (value_error "execution symbol must not be empty")
    raise_if (ltb a.approved_quantity (num 0) || ltb a.approved_notional (num 0))
        (value_error "approved exposure must be non-negative")
    ok a

  -- `OrderRequest.__post_init__`
  unfoldable pub check_request : OrderRequest F T → Result (OrderRequest F T)
  check_request o = do
    raise_if (not (zoned o.created_at)) (value_error "created_at must be timezone-aware")
    raise_if (is_blank o.client_order_id) (value_error "client_order_id must not be empty")
    raise_if (is_blank o.symbol) (value_error "symbol must not be empty")
    raise_if (not_positive o.quantity) (value_error "quantity must be positive and finite")
    raise_if (limit_missing o.order_type o.limit_price)
        (value_error "LIMIT orders require a positive limit_price")
    raise_if (limit_unwanted o.order_type o.limit_price)
        (value_error "MARKET orders must not define limit_price")
    raise_if (not (is_purpose o.purpose)) (value_error "purpose must be ENTRY or EXIT")
    ok (record o { symbol = upper (strip o.symbol) })

  -- `Fill.__post_init__`
  unfoldable pub check_fill : Fill F T → Result (Fill F T)
  check_fill f = do
    raise_if (not (zoned f.timestamp)) (value_error "fill timestamp must be timezone-aware")
    raise_if (is_blank f.fill_id || is_blank f.client_order_id)
        (value_error "fill identifiers must not be empty")
    raise_if (not_positive f.quantity || not_positive f.price)
        (value_error "fill quantity and price must be positive and finite")
    raise_if (not_nonnegative f.fee) (value_error "fill fee must be non-negative and finite")
    ok f

  -- `OrderSnapshot.__post_init__`
  unfoldable pub check_snapshot : OrderSnapshot F T → Result (OrderSnapshot F T)
  check_snapshot s = do
    raise_if (not (zoned s.updated_at)) (value_error "updated_at must be timezone-aware")
    raise_if (is_blank s.broker_order_id || is_blank s.client_order_id)
        (value_error "order identifiers must not be empty")
    raise_if (not_positive s.requested_quantity)
        (value_error "requested_quantity must be positive and finite")
    raise_if
        (not_nonnegative s.filled_quantity || ltb (s.requested_quantity + eps) s.filled_quantity)
        (value_error "filled_quantity must be within requested quantity and finite")
    raise_if (when_some s.average_fill_price not_positive)
        (value_error "average_fill_price must be positive and finite")
    raise_if (when_some s.latency_ms not_nonnegative)
        (value_error "latency_ms must be non-negative and finite")
    ok s

-- `ExecutionEvent.__post_init__`
unfoldable pub check_event :
    {T : Type 0} ⦃t : Timestamp T⦄ → ExecutionEvent T → Result (ExecutionEvent T)
check_event e = do
  raise_if (not (zoned e.timestamp))
      (value_error "execution event timestamp must be timezone-aware")
  ok e
