-- ===== src/Execution/Engine/State.antt =====
-- The state of `ExecutionEngine` in execution/engine.py, and the methods that every other one uses.
use stock_bot.Base.{
  String, Bool, true, false, not, ◌&&◌, ◌||◌, Option, none, some, List, [], ◌∷◌, ◌++◌,
  if◌then◌else◌,
}
use stock_bot.Base.Text.{is_empty}
use stock_bot.Base.Dict.{Dict, get, put}
use stock_bot.Base.Result.{Result, ok, err, value_error, raise_if}
use stock_bot.Base.Result
use stock_bot.Base.Exec.{Exec, pure, lift, gets, modify, ◌>>=◌, ◌>>◌}
use stock_bot.Float.{Float, num, abs, eps, ◌-◌, ltb}
use stock_bot.Clock.{Timestamp}
use stock_bot.Execution.Status.{
  OrderStatus, submitted, open_order, partially_filled, filled, cancel_pending, cancelled,
  rejected_broker, expired, failed, unknown, same_status, transition,
}
use stock_bot.Execution.Models.{OrderRequest, OrderSnapshot, Fill, ExecutionEvent, check_event}
use stock_bot.Execution.Environment.{Environment}

pub record Engine (F T : Type 0) : Type 0 where
  pub orders : Dict (OrderSnapshot F T)
  pub requests : Dict (OrderRequest F T)
  pub fills : Dict (List (Fill F T))
  pub states : Dict OrderStatus
  pub events : List (ExecutionEvent T)

-- The engine and what stands outside it.
pub record World (F T B : Type 0) : Type 0 where
  pub engine : Engine F T
  pub outside : B

-- `__init__`
abbrev pub empty_engine : {F T : Type 0} → Engine F T
empty_engine = record { orders = []; requests = []; fills = []; states = []; events = [] }

module _ {F T B : Type 0} where
  -- a call of the environment
  abbrev pub call : {A : Type 0} → Exec B A → Exec (World F T B) A
  call m w = let (r, b) = m w.outside in (r, record w { outside = b })

  -- `try: r = call` with the exception as a value
  abbrev pub attempt : {A : Type 0} → Exec B A → Exec (World F T B) (Result A)
  attempt m w = let (r, b) = m w.outside in (ok r, record w { outside = b })

  abbrev pub update : (Engine F T → Engine F T) → Exec (World F T B) (Unit {0})
  update f = modify λ w. record w { engine = f w.engine }

  abbrev pub order_of : String → World F T B → Option (OrderSnapshot F T)
  order_of id w = get id w.engine.orders

  abbrev pub state_of : String → World F T B → Option OrderStatus
  state_of id w = get id w.engine.states

  -- `self._orders[id] = snapshot`
  abbrev pub store_order : String → OrderSnapshot F T → Exec (World F T B) (Unit {0})
  store_order id s = update λ e. record e { orders = put id s e.orders }

  -- `self._fills[id] = tuple(snapshot.fills)`
  abbrev pub store_fills : String → OrderSnapshot F T → Exec (World F T B) (Unit {0})
  store_fills id s = update λ e. record e { fills = put id s.fills e.fills }

  -- `self._states[id] = status`
  abbrev pub store_state : String → OrderStatus → Exec (World F T B) (Unit {0})
  store_state id s = update λ e. record e { states = put id s e.states }

-- `current is target`
abbrev pub is_current : Option OrderStatus → OrderStatus → Bool
is_current none target = false
is_current (some s) target = same_status s target

-- the check of `_transition` on the current status
abbrev pub check_move : Option OrderStatus → OrderStatus → Result (Unit {0})
check_move none target = ok tt
check_move (some s) target = Result.◌>>◌ (transition s target) (ok tt)

module _ {F T B : Type 0} ⦃t : Timestamp T⦄ (env : Environment F T B) where
  -- The event of one transition, with the order's decision and purpose where they are known.
  unfoldable pub lifecycle_event :
      String
      → Option OrderStatus
      → OrderStatus
      → String
      → Option (OrderRequest F T)
      → T
      → ExecutionEvent T
  lifecycle_event id current target reason request at = record {
    client_order_id = id;
    from_status = current;
    to_status = target;
    timestamp = at;
    reason = reason;
    decision_id = elim request [ none ↦ "" | some o ↦ o.decision_id ];
    purpose = elim request [ none ↦ "ENTRY" | some o ↦ o.purpose ];
  }

  abbrev pub audit_event : ExecutionEvent T → Exec (World F T B) (Unit {0})
  audit_event e = if env.has_audit then call (env.append_event e) else pure tt

  -- The journal entry of `_transition`.
  unfoldable pub note_transition :
      String → Option OrderStatus → OrderStatus → String → Exec (World F T B) (Unit {0})
  unfolding lifecycle_event
  note_transition id current target reason = do
    request ← gets (λ w. get id w.engine.requests)
    at ← call env.now
    event ← lift (check_event (lifecycle_event id current target reason request at))
    update (λ e. record e { events = e.events ++ (event ∷ []) })
    audit_event event

  -- The part of `_transition` past its checks.
  abbrev pub record_transition :
      String → Option OrderStatus → OrderStatus → String → Exec (World F T B) (Unit {0})
  record_transition id current target reason =
      store_state id target >> note_transition id current target reason

  -- `_transition`
  unfoldable pub transition_to : String → OrderStatus → String → Exec (World F T B) (Unit {0})
  transition_to id target reason = do
    current ← gets (state_of id)
    (if is_current current target
        then pure tt
        else (do lift (check_move current target); record_transition id current target reason))

-- The statuses whose filled quantity `_validate_snapshot_contract` bounds.
abbrev bounded_status : OrderStatus → Bool
bounded_status submitted = true
bounded_status open_order = true
bounded_status cancel_pending = true
bounded_status cancelled = true
bounded_status expired = true
bounded_status rejected_broker = true
bounded_status failed = true
bounded_status unknown = true
bounded_status _ = false

module _ {F T : Type 0} ⦃n : Float F⦄ where
  -- `_validate_snapshot_contract`
  unfoldable pub check_contract : OrderSnapshot F T → Result (Unit {0})
  check_contract s = dispatch s.status
    where
      dispatch : OrderStatus → Result (Unit {0})
      dispatch filled =
          raise_if (ltb eps (abs (s.filled_quantity - s.requested_quantity)))
            (value_error "broker snapshot FILLED quantity mismatch")
      dispatch partially_filled =
          raise_if
            (not (ltb (num 0) s.filled_quantity && ltb s.filled_quantity s.requested_quantity))
            (value_error "broker snapshot PARTIALLY_FILLED quantity mismatch")
      dispatch status =
          raise_if
            (bounded_status status
              && (ltb s.filled_quantity (num 0) || ltb s.requested_quantity s.filled_quantity))
            (value_error "broker snapshot filled quantity out of bounds")

-- `snapshot.reason or default`
abbrev pub reason_or : String → String → String
reason_or reason default = if is_empty reason then default else reason
