-- ===== src/Execution/Engine/Recovery.antt =====
-- The operations on known orders: `refresh`, `recover_unknown`, `rehydrate`, `reconcile_order` and
-- `cancel` of execution/engine.py.
use stock_bot.Base.{
  String, Bool, true, false, not, ◌&&◌, Option, none, some, List, [], ◌∷◌, if◌then◌else◌,
}
use stock_bot.Base.Text.{is_blank}
use stock_bot.Base.Dict.{Dict, put}
use stock_bot.Base.Result.{value_error, key_error, raise_if}
use stock_bot.Base.Exec.{Exec, pure, raise, lift, gets, option_case, ◌>>=◌, ◌>>◌}
use stock_bot.Float.{Float, abs, eps, ◌-◌, leb}
use stock_bot.Float as Num
use stock_bot.Clock.{Timestamp}
use stock_bot.Execution.Status.{
  OrderStatus, filled, cancel_pending, cancelled, rejected_broker, unknown, same_status,
}
use stock_bot.Execution.Models.{OrderSnapshot, check_snapshot}
use stock_bot.Execution.Environment.{Environment}
use stock_bot.Execution.Engine.State.{
  World, call, order_of, state_of, store_order, store_fills, store_state, transition_to,
  check_contract, reason_or,
}
use text.Mathlib.Text.{◌==◌}

-- `status in {FILLED, CANCELLED, REJECTED_BROKER}`
abbrev uncancellable : OrderStatus → Bool
uncancellable filled = true
uncancellable cancelled = true
uncancellable rejected_broker = true
uncancellable _ = false

-- `a == b` on optional prices
abbrev same_price : {F : Type 0} ⦃n : Float F⦄ → Option F → Option F → Bool
same_price none none = true
same_price (some p) (some q) = Num.◌==◌ p q
same_price _ _ = false

module _ {F T B : Type 0} ⦃n : Float F⦄ ⦃t : Timestamp T⦄ (env : Environment F T B) where
  -- The local order when the broker no longer shows it, under the identity `id`.
  unfoldable pub missing_snapshot :
      String → String → OrderSnapshot F T → Exec (World F T B) (OrderSnapshot F T)
  unfolding check_snapshot
  missing_snapshot id reason prior = do
    at ← call env.now
    lift (
        check_snapshot (record {
          broker_order_id = prior.broker_order_id;
          client_order_id = id;
          status = unknown;
          requested_quantity = prior.requested_quantity;
          filled_quantity = prior.filled_quantity;
          average_fill_price = prior.average_fill_price;
          reason = reason;
          latency_ms = prior.latency_ms;
          updated_at = at;
          fills = prior.fills;
        }))

  abbrev pub store_snapshot : String → OrderSnapshot F T → Exec (World F T B) (Unit {0})
  store_snapshot id s = store_order id s >> store_fills id s

  unfoldable pub refresh_missing : String → Exec (World F T B) (OrderSnapshot F T)
  unfolding missing_snapshot transition_to
  refresh_missing id = do
    known ← gets (order_of id)
    option_case known (raise (key_error "order not found")) λ prior. do
      s ← missing_snapshot prior.client_order_id "broker returned no order state" prior
      transition_to env id unknown "broker returned no order state"
      store_order id s
      pure s

  unfoldable pub refresh_found : String → OrderSnapshot F T → Exec (World F T B) (OrderSnapshot F T)
  unfolding transition_to
  refresh_found id s = do
    current ← gets (state_of id)
    option_case current (store_state id s.status) λ c.
        if same_status c s.status then pure tt else transition_to env id s.status "broker refresh"
    store_snapshot id s
    pure s

  -- `refresh`
  unfoldable pub refresh : String → Exec (World F T B) (OrderSnapshot F T)
  unfolding refresh_missing refresh_found transition_to
  refresh id = do
    lift (raise_if (is_blank id) (value_error "client_order_id must not be empty"))
    answer ← call (env.get_order id)
    option_case answer (refresh_missing id) λ s. refresh_found id s

  unfoldable pub recovered :
      String → OrderSnapshot F T → OrderSnapshot F T → Exec (World F T B) (OrderSnapshot F T)
  unfolding transition_to check_contract
  recovered id prior s = do
    lift (
        raise_if (not (s.client_order_id == id))
          (value_error "broker recovery client_order_id mismatch"))
    lift (
        raise_if (not (Num.◌==◌ s.requested_quantity prior.requested_quantity))
          (value_error "broker recovery quantity mismatch"))
    lift (check_contract s)
    transition_to env id s.status (reason_or s.reason "unknown order resolved from broker state")
    store_snapshot id s
    pure s

  unfoldable pub recover_prior : String → OrderSnapshot F T → Exec (World F T B) (OrderSnapshot F T)
  unfolding recovered
  recover_prior id prior = if not (same_status prior.status unknown) then pure prior else (do
    answer ← call (env.get_order id)
    option_case answer (pure prior) λ s. recovered id prior s)

  -- `recover_unknown`
  unfoldable pub recover_unknown : String → Exec (World F T B) (OrderSnapshot F T)
  unfolding recover_prior
  recover_unknown id = do
    known ← gets (order_of id)
    option_case known (raise (key_error "unknown local order")) λ prior. recover_prior id prior

  -- The broker's snapshot of one order, or the local one as UNKNOWN.
  unfoldable pub rehydrated : String → Exec (World F T B) (Option (OrderSnapshot F T))
  unfolding missing_snapshot
  rehydrated id = do
    answer ← call (env.get_order id)
    known ← gets (order_of id)
    option_case answer
        (option_case known (pure none) λ prior. do
          s ← missing_snapshot id "broker returned no order state during rehydration" prior
          pure (some s))
        λ s. pure (some s)

  -- One turn of the loop of `rehydrate`.
  unfoldable pub rehydrate_one :
      String → Dict (OrderSnapshot F T) → Exec (World F T B) (Dict (OrderSnapshot F T))
  unfolding rehydrated check_contract
  rehydrate_one id found = do
    lift (raise_if (is_blank id) (value_error "client_order_id must not be empty"))
    answer ← rehydrated id
    option_case answer (pure found) λ s. do
      lift (check_contract s)
      store_snapshot id s
      store_state id s.status
      pure (put id s found)

  -- `rehydrate`, with the orders recovered so far
  unfoldable pub rehydrate_from :
      Dict (OrderSnapshot F T) → List String → Exec (World F T B) (Dict (OrderSnapshot F T))
  unfolding rehydrate_one
  rehydrate_from found [] = pure found
  rehydrate_from found (id ∷ ids) = rehydrate_one id found >>= λ more. rehydrate_from more ids

  abbrev pub rehydrate : List String → Exec (World F T B) (Dict (OrderSnapshot F T))
  rehydrate ids = rehydrate_from [] ids

  -- `reconcile_order`
  unfoldable pub reconcile_order : String → Exec (World F T B) Bool
  reconcile_order id = do
    local ← gets (order_of id)
    broker ← call (env.get_order id)
    pure (elim local [
      | none ↦ false
      | some l ↦ elim broker [
        | none ↦ false
        | some b ↦
            same_status l.status b.status
            && leb (abs (l.filled_quantity - b.filled_quantity)) eps
            && same_price l.average_fill_price b.average_fill_price
      ]
    ])

  unfoldable pub cancel_known : String → Exec (World F T B) (OrderSnapshot F T)
  unfolding transition_to
  cancel_known id = do
    transition_to env id cancel_pending "cancellation requested"
    s ← call (env.cancel id)
    (if not (same_status s.status cancel_pending)
        then transition_to env id s.status (reason_or s.reason "cancellation result")
        else pure tt)
    store_snapshot id s
    pure s

  -- `cancel`
  unfoldable pub cancel : String → Exec (World F T B) (OrderSnapshot F T)
  unfolding cancel_known
  cancel id = do
    known ← gets (order_of id)
    option_case known (raise (key_error "unknown local order")) λ prior.
        if uncancellable prior.status
        then raise (value_error "cannot cancel order in this state")
        else cancel_known id
