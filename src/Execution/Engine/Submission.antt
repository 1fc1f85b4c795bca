-- ===== src/Execution/Engine/Submission.antt =====
-- `submit` of execution/engine.py.
use stock_bot.Base.{Bool, true, false, not, none, some, List, [], ◌∷◌, if◌then◌else◌}
use stock_bot.Base.Text.{is_empty}
use stock_bot.Base.Dict.{get, put}
use stock_bot.Base.Result.{Error, Result, ok, value_error, raise_if, message}
use stock_bot.Base.Exec.{Exec, pure, lift, gets, option_case, result_case, ◌>>=◌, ◌>>◌}
use stock_bot.Float.{Float, num, ◌-◌, ◌*◌}
use stock_bot.Float as Num
use stock_bot.Clock.{Timestamp}
use stock_bot.Execution.Status.{
  OrderStatus, validated, rejected_local, submitting, rejected_broker, failed, unknown,
}
use stock_bot.Execution.Models.{OrderRequest, OrderSnapshot, ExecutionResult, check_snapshot}
use stock_bot.Execution.Environment.{Environment}
use stock_bot.Execution.Engine.State.{
  World, call, attempt, update, order_of, store_order, store_fills, transition_to, check_contract,
  reason_or,
}
use stock_bot.Execution.Engine.Requests.{validate}
use text.Mathlib.Text.{◌==◌}
use Prim.Native.String

-- `status not in {REJECTED_LOCAL, REJECTED_BROKER, FAILED}`
abbrev pub not_rejected : OrderStatus → Bool
not_rejected rejected_local = false
not_rejected rejected_broker = false
not_rejected failed = false
not_rejected _ = true

-- `status not in {REJECTED_BROKER, FAILED}`
abbrev pub not_refused : OrderStatus → Bool
not_refused rejected_broker = false
not_refused failed = false
not_refused _ = true

-- The loops over the fills and the positions of an order.
unfoldable pub each : {S A : Type 0} → (A → Exec S (Unit {0})) → List A → Exec S (Unit {0})
each f [] = pure tt
each f (x ∷ xs) = f x >> each f xs

module _ {F T B : Type 0} where
  -- `self._requests.setdefault(id, order)`
  abbrev pub remember : OrderRequest F T → Exec (World F T B) (Unit {0})
  remember o = update λ e. elim (get o.client_order_id e.requests) [
    | none ↦ record e { requests = put o.client_order_id o e.requests }
    | some _ ↦ e
  ]

  module _ (env : Environment F T B) where
    -- The audit of a broker response: the order, its fills and the positions of its symbol.
    unfoldable pub audit_submission :
        OrderRequest F T → OrderSnapshot F T → Exec (World F T B) (Unit {0})
    unfolding each
    audit_submission o s =
        if env.has_audit
        then (do
          call (env.append_order o s)
          each (λ f. call (env.append_fill f o)) s.fills
          positions ← call env.positions
          each
              (λ p.
                if p.symbol == o.symbol
                then call (env.append_position p o s.updated_at)
                else pure tt)
              positions)
        else pure tt

module _ {F T B : Type 0} ⦃n : Float F⦄ ⦃t : Timestamp T⦄ (env : Environment F T B) where
  abbrev elapsed : F → Exec (World F T B) F
  elapsed start = do stop ← call env.perf_counter; pure ((stop - start) * num 1000)

  -- The answer to an order that is already known.
  abbrev pub repeated : OrderRequest F T → OrderSnapshot F T → ExecutionResult F T
  repeated o s = record {
    request = o;
    snapshot = s;
    accepted = not_rejected s.status;
    latency_ms = num 0;
    error = none;
  }

  -- `except Exception as exc`
  unfoldable pub fail_closed :
      OrderRequest F T → F → Error → Exec (World F T B) (ExecutionResult F T)
  unfolding transition_to check_snapshot
  fail_closed o start e = do
    let reason = String.◌++◌ "broker submission exception: " (message e)
    at ← call env.now
    snapshot ← lift (
        check_snapshot (record {
          broker_order_id = String.◌++◌ "UNKNOWN:" o.client_order_id;
          client_order_id = o.client_order_id;
          status = unknown;
          requested_quantity = o.quantity;
          filled_quantity = num 0;
          average_fill_price = none;
          reason = reason;
          latency_ms = none;
          updated_at = at;
          fills = [];
        }))
    latency ← elapsed start
    transition_to env o.client_order_id unknown reason
    store_order o.client_order_id snapshot
    pure (record {
      request = o;
      snapshot = snapshot;
      accepted = false;
      latency_ms = latency;
      error = some (message e);
    })

  -- `if snapshot.latency_ms is None`: a copy that carries the measured latency
  unfoldable pub stamped : OrderSnapshot F T → F → Result (OrderSnapshot F T)
  unfolding check_snapshot
  stamped s latency = elim s.latency_ms [
    | none ↦ check_snapshot (record s { latency_ms = some latency })
    | some _ ↦ ok s
  ]

  -- The part of `submit` past a broker response.
  unfoldable pub accept_response :
      OrderRequest F T → F → OrderSnapshot F T → Exec (World F T B) (ExecutionResult F T)
  unfolding transition_to check_contract audit_submission stamped check_snapshot
  accept_response o start response = do
    latency ← elapsed start
    lift (
        raise_if (not (response.client_order_id == o.client_order_id))
          (value_error "broker response client_order_id mismatch"))
    lift (
        raise_if (not (Num.◌==◌ response.requested_quantity o.quantity))
          (value_error "broker response quantity mismatch"))
    lift (check_contract response)
    snapshot ← lift (stamped response latency)
    transition_to env o.client_order_id snapshot.status
        (reason_or snapshot.reason "broker acknowledged order")
    store_order o.client_order_id snapshot
    store_fills o.client_order_id snapshot
    audit_submission env o snapshot
    pure (record {
      request = o;
      snapshot = snapshot;
      accepted = not_refused snapshot.status;
      latency_ms = latency;
      error = if is_empty snapshot.reason then none else some snapshot.reason;
    })

  -- The first submission of an order, from the local transitions on.
  unfoldable pub submit_new : OrderRequest F T → Exec (World F T B) (ExecutionResult F T)
  unfolding transition_to fail_closed accept_response
  submit_new o = do
    transition_to env o.client_order_id validated "local validation passed"
    transition_to env o.client_order_id submitting "broker submission started"
    start ← call env.perf_counter
    answer ← attempt (env.submit o)
    result_case answer (λ response. accept_response o start response) (λ e. fail_closed o start e)

  -- `submit`
  unfoldable pub submit : OrderRequest F T → Exec (World F T B) (ExecutionResult F T)
  unfolding validate submit_new
  submit o = do
    lift (validate o)
    remember o
    existing ← gets (order_of o.client_order_id)
    option_case existing (submit_new o) λ s. pure (repeated o s)
