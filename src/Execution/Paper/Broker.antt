-- ===== src/Execution/Paper/Broker.antt =====
-- `submit`, `cancel` and `fill_remaining` of execution/adapters/paper.py.
use stock_bot.Base.{
  ℕ, ◌+◌, String, Option, none, some, Bool, true, false, not, ◌||◌, [], ◌∷◌, ◌++◌, if◌then◌else◌,
}
use Prim.Native.String
use stock_bot.Base.Dict.{get, put}
use stock_bot.Base.Result.{Result, ok, err, value_error, key_error, other, raise_if}
use stock_bot.Base.Result
use stock_bot.Base.Exec.{Exec, pure, raise, lift, gets, modify, option_case, ◌>>=◌, ◌>>◌}
use stock_bot.Float.{Float, num, neg, abs, ltb, leb, min, isfinite}
use stock_bot.Float as Num
use stock_bot.Clock.{Timestamp}
use stock_bot.Execution.Status.{OrderStatus, partially_filled, filled, cancelled, same_status}
use stock_bot.Execution.Models.{OrderRequest, OrderSnapshot, Fill, check_snapshot}
use stock_bot.Execution.Paper.Fills.{
  PaperConfig, PaperBroker, eight_digits, apply_fill, price_of, first_quantity, fill_price,
  make_fill,
}

module _ {F T : Type 0} ⦃n : Float F⦄ ⦃t : Timestamp T⦄ (c : PaperConfig F)
    (provider : Option (OrderRequest F T → Result F)) where
  abbrev next_sequence : Exec (PaperBroker F T) (Unit {0})
  next_sequence = modify (λ b. record b { sequence = b.sequence + 1 })

  abbrev store : String → OrderSnapshot F T → Exec (PaperBroker F T) (Unit {0})
  store id s = modify (λ b. record b { orders = put id s b.orders })

  abbrev pub response_of : OrderRequest F T → ℕ → F → Fill F T → T → OrderSnapshot F T
  unfolding eight_digits
  response_of o k quantity f now = record {
    broker_order_id = String.◌++◌ "PAPER-" (eight_digits k);
    client_order_id = o.client_order_id;
    status = if leb o.quantity quantity then filled else partially_filled;
    requested_quantity = o.quantity;
    filled_quantity = quantity;
    average_fill_price = some f.price;
    reason = "Deterministic paper fill.";
    latency_ms = none;
    updated_at = now;
    fills = f ∷ [];
  }

  -- The fill and the snapshot of a new order, with the number of the sequence.
  unfoldable pub respond : OrderRequest F T → ℕ → T → Result (OrderSnapshot F T × Fill F T)
  unfolding price_of first_quantity make_fill check_snapshot response_of
  respond o k now = Result.◌>>=◌ (price_of c provider o) λ price.
      Result.◌>>=◌
        (make_fill c provider o k (first_quantity c provider o.quantity)
          (fill_price c provider o.side price) now)
        λ f.
          Result.◌>>=◌
            (check_snapshot (response_of o k (first_quantity c provider o.quantity) f now))
            λ s. ok (s, f)

  -- The part of `submit` for a new order.
  unfoldable pub place : OrderRequest F T → T → Exec (PaperBroker F T) (OrderSnapshot F T)
  unfolding respond apply_fill
  place o now = do
    next_sequence
    k ← gets (λ b. b.sequence)
    answer ← lift (respond o k now)
    store o.client_order_id answer.0
    modify (λ b. record b { requests = put o.client_order_id o b.requests })
    apply_fill o answer.1
    pure answer.0

  -- `submit`, at the time `now`
  unfoldable pub paper_submit : OrderRequest F T → T → Exec (PaperBroker F T) (OrderSnapshot F T)
  unfolding place
  paper_submit o now = do
    known ← gets (λ b. get o.client_order_id b.orders)
    option_case known (place o now) λ s. pure s

  -- `cancel`, at the time `now`
  unfoldable pub paper_cancel : String → T → Exec (PaperBroker F T) (OrderSnapshot F T)
  unfolding check_snapshot
  paper_cancel id now = do
    known ← gets (λ b. get id b.orders)
    option_case known (raise (key_error "paper order not found")) λ prior.
        if same_status prior.status filled || same_status prior.status cancelled
        then pure prior
        else (do
          s ← lift (
              check_snapshot (record prior {
                status = cancelled;
                reason = "Paper order cancelled.";
                latency_ms = none;
                updated_at = now;
              }))
          store id s
          pure s)

  -- `allowed` of `fill_remaining`
  abbrev completable : Bool → OrderStatus → Bool
  completable after_cancel partially_filled = true
  completable after_cancel cancelled = after_cancel
  completable after_cancel _ = false

  -- The average price after the rest is filled; `float(None)` raises.
  abbrev average_with : OrderSnapshot F T → F → F → F → Result F
  average_with prior remaining price total = elim prior.average_fill_price [
    | none ↦ err (other "float() argument must be a string or a real number, not 'NoneType'")
    | some average ↦
        ok (
          Num.◌/◌ (Num.◌+◌ (Num.◌*◌ prior.filled_quantity average) (Num.◌*◌ remaining price)) total)
  ]

  -- The part of `fill_remaining` past its checks.
  unfoldable pub complete :
      OrderSnapshot F T
      → OrderRequest F T
      → F
      → Bool
      → String
      → T
      → Exec (PaperBroker F T) (OrderSnapshot F T)
  unfolding price_of make_fill check_snapshot apply_fill
  complete prior o remaining after_cancel id now = do
    next_sequence
    price ← lift (price_of c provider o)
    k ← gets (λ b. b.sequence)
    f ← lift (make_fill c provider o k remaining (fill_price c provider o.side price) now)
    let total = Num.◌+◌ prior.filled_quantity remaining
    average ← lift (average_with prior remaining (fill_price c provider o.side price) total)
    s ← lift (
        check_snapshot (record {
          broker_order_id = prior.broker_order_id;
          client_order_id = prior.client_order_id;
          status = filled;
          requested_quantity = prior.requested_quantity;
          filled_quantity = total;
          average_fill_price = some average;
          reason =
              if after_cancel
              then "Deterministic completion after cancellation race."
              else "Deterministic completion of outstanding paper quantity.";
          latency_ms = none;
          updated_at = now;
          fills = prior.fills ++ (f ∷ []);
        }))
    store id s
    apply_fill o f
    pure s

  -- `fill_remaining`, at the time `now`
  unfoldable pub fill_remaining : String → Bool → T → Exec (PaperBroker F T) (OrderSnapshot F T)
  unfolding complete
  fill_remaining id after_cancel now = do
    known ← gets (λ b. get id b.orders)
    request ← gets (λ b. get id b.requests)
    option_case known (raise (key_error "paper order not found")) λ prior.
        option_case request (raise (key_error "paper order not found")) λ o.
          if same_status prior.status filled
          then pure prior
          else if not (completable after_cancel prior.status)
          then raise (value_error "cannot complete partially filled order in this state")
          else if leb (Num.◌-◌ prior.requested_quantity prior.filled_quantity) (num 0)
          then pure prior
          else complete prior o (Num.◌-◌ prior.requested_quantity prior.filled_quantity)
              after_cancel id now
