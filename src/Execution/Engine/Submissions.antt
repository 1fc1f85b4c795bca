-- ===== src/Execution/Engine/Submissions.antt =====
-- No history of operations of an `ExecutionEngine` (execution/engine.py) submits an order twice.
use stock_bot.Base.{
  ◌≤◌, String, Option, none, some, ◌≡◌, refl, arith, inl, List, [], ◌∷◌, if◌then◌else◌,
}
use stock_bot.Base.Dict.{Dict, get-put}
use stock_bot.Base.Exec.{pure, gets, option_case, ◌>>=◌, ◌>>◌}
use stock_bot.Float.{Float}
use stock_bot.Clock.{Timestamp}
use stock_bot.Execution.Status.{OrderStatus, same_status}
use stock_bot.Execution.Models.{OrderRequest, OrderSnapshot}
use stock_bot.Execution.Environment.{Environment}
use stock_bot.Execution.Engine.State.{
  World, state_of, order_of, store_state, transition_to, empty_engine,
}
use stock_bot.Execution.Engine.Submission.{submit, submit_new, repeated}
use stock_bot.Execution.Engine.Recovery.{
  refresh, refresh_missing, refresh_found, recovered, recover_prior, recover_unknown, cancel_known,
  rehydrate_from, rehydrate_one, rehydrated, missing_snapshot, reconcile_order, cancel,
  store_snapshot,
}
use stock_bot.Execution.Engine.Operations.{
  Operation, submit_order, refresh_order, recover_order, rehydrate_orders, reconcile, cancel_order,
  perform, run,
}
use stock_bot.Execution.Engine.Keeps.{Keeps, Keeps-pure, Keeps-bind, Keeps-if, keeps_rules}
use stock_bot.Execution.Engine.Once.{
  Logged, logged, submissions, IsOnce, once_rules, store_state-IsOnce, transition_to-IsOnce,
}
use stock_bot.Execution.Engine.Sends.{Unknown, submit_new-IsOnce}

module _ {F T B : Type 0} ⦃n : Float F⦄ ⦃t : Timestamp T⦄ (env : Environment F T B)
    (id : String) where
  looked-Keeps :
      (o : OrderRequest F T)
      → Keeps (IsOnce id) (
          gets (order_of o.client_order_id) >>= λ known.
          option_case known (submit_new (logged env) o) λ s. pure (repeated (logged env) o s))
  unfolding Unknown
  looked-Keeps o = record { still = λ w p. go w p (order_of o.client_order_id w) refl }
    where
      go :
          (w : World F T (Logged B))
          → IsOnce id w
          → (known : Option (OrderSnapshot F T)) → order_of o.client_order_id w ≡ known
          → IsOnce id
              (option_case known
                (submit_new (logged env) o)
                (λ s. pure (repeated (logged env) o s))
                w).1
      go w p none h = submit_new-IsOnce env id o w p h
      go w p (some s) h = p

  submit-Keeps : (o : OrderRequest F T) → Keeps (IsOnce id) (submit (logged env) o)
  unfolding submit
  submit-Keeps o = search (once_rules, looked-Keeps) depth 8

  missing_snapshot-Keeps :
      (j reason : String) (s : OrderSnapshot F T)
      → Keeps (IsOnce id) (missing_snapshot (logged env) j reason s)
  unfolding missing_snapshot
  missing_snapshot-Keeps j reason s = search once_rules depth 12

  refresh_missing-Keeps : (j : String) → Keeps (IsOnce id) (refresh_missing (logged env) j)
  unfolding refresh_missing
  refresh_missing-Keeps j = search (once_rules, missing_snapshot-Keeps) depth 16

  refresh_found-Keeps :
      (j : String) (s : OrderSnapshot F T) → Keeps (IsOnce id) (refresh_found (logged env) j s)
  unfolding refresh_found
  refresh_found-Keeps j s = record { still = λ w p. go w p (state_of j w) refl }
    where
      stored : Keeps (IsOnce id) (store_snapshot (logged env) j s >> pure s)
      stored = search once_rules depth 8

      go :
          (w : World F T (Logged B))
          → IsOnce id w
          → (c : Option OrderStatus) → state_of j w ≡ c
          → IsOnce id
              ((option_case c (store_state j s.status) (λ c.
                    if same_status c s.status
                    then pure tt
                    else transition_to (logged env) j s.status "broker refresh")
                  >> (store_snapshot (logged env) j s >> pure s))
                w).1
      go w p none h = stored.still _ (store_state-IsOnce id j s.status w (ground arith) p)
      go w p (some c) h =
          (Keeps-bind _ _
              (Keeps-if (same_status c s.status) _ _ (Keeps-pure tt)
                (transition_to-IsOnce env id j s.status "broker refresh"))
              λ _. stored).still
            w p

  refresh-Keeps : (j : String) → Keeps (IsOnce id) (refresh (logged env) j)
  unfolding refresh
  refresh-Keeps j = search (once_rules, refresh_missing-Keeps, refresh_found-Keeps) depth 12

  recovered-Keeps :
      (j : String) (prior s : OrderSnapshot F T)
      → Keeps (IsOnce id) (recovered (logged env) j prior s)
  unfolding recovered
  recovered-Keeps j prior s = search once_rules depth 16

  recover_prior-Keeps :
      (j : String) (prior : OrderSnapshot F T)
      → Keeps (IsOnce id) (recover_prior (logged env) j prior)
  unfolding recover_prior
  recover_prior-Keeps j prior = search (once_rules, recovered-Keeps) depth 16

  recover_unknown-Keeps : (j : String) → Keeps (IsOnce id) (recover_unknown (logged env) j)
  unfolding recover_unknown
  recover_unknown-Keeps j = search (once_rules, recover_prior-Keeps) depth 16

  rehydrated-Keeps : (j : String) → Keeps (IsOnce id) (rehydrated (logged env) j)
  unfolding rehydrated
  rehydrated-Keeps j = search (once_rules, missing_snapshot-Keeps) depth 16

  stored-IsOnce :
      (j : String) (s : OrderSnapshot F T) (st : OrderStatus) (found : Dict (OrderSnapshot F T))
      → Keeps (IsOnce id) (store_snapshot (logged env) j s >> (store_state j st >> pure found))
  unfolding IsOnce
  stored-IsOnce j s st found = record {
    still = λ w p. ground (arith, get-put j id s w.engine.orders, get-put j id st w.engine.states);
  }

  rehydrate_one-Keeps :
      (j : String) (found : Dict (OrderSnapshot F T))
      → Keeps (IsOnce id) (rehydrate_one (logged env) j found)
  unfolding rehydrate_one
  rehydrate_one-Keeps j found = search (once_rules, rehydrated-Keeps, stored-IsOnce) depth 16

  rehydrate_from-Keeps :
      (found : Dict (OrderSnapshot F T)) (ids : List String)
      → Keeps (IsOnce id) (rehydrate_from (logged env) found ids)
  unfolding rehydrate_from
  rehydrate_from-Keeps found [] = Keeps-pure found
  rehydrate_from-Keeps found (j ∷ ids) =
      Keeps-bind _ _ (rehydrate_one-Keeps j found) λ more. rehydrate_from-Keeps more ids

  reconcile_order-Keeps : (j : String) → Keeps (IsOnce id) (reconcile_order (logged env) j)
  unfolding reconcile_order
  reconcile_order-Keeps j = search once_rules depth 8

  cancel_known-Keeps : (j : String) → Keeps (IsOnce id) (cancel_known (logged env) j)
  unfolding cancel_known
  cancel_known-Keeps j = search once_rules depth 16

  cancel-Keeps : (j : String) → Keeps (IsOnce id) (cancel (logged env) j)
  unfolding cancel
  cancel-Keeps j = search (once_rules, cancel_known-Keeps) depth 16

  perform-Keeps : (o : Operation F T) → Keeps (IsOnce id) (perform (logged env) o)
  unfolding perform
  perform-Keeps (submit_order o) = search (keeps_rules, submit-Keeps)
  perform-Keeps (refresh_order j) = search (keeps_rules, refresh-Keeps)
  perform-Keeps (recover_order j) = search (keeps_rules, recover_unknown-Keeps)
  perform-Keeps (rehydrate_orders ids) = search (keeps_rules, rehydrate_from-Keeps)
  perform-Keeps (reconcile j) = search (keeps_rules, reconcile_order-Keeps)
  perform-Keeps (cancel_order j) = search (keeps_rules, cancel-Keeps)

  run-IsOnce :
      (os : List (Operation F T)) (w : World F T (Logged B))
      → IsOnce id w
      → IsOnce id (run (logged env) os w)
  unfolding run
  run-IsOnce [] w p = p
  run-IsOnce (o ∷ os) w p = run-IsOnce os _ ((perform-Keeps o).still w p)

  -- However the broker answers, and whichever operations raise, an engine that starts with empty
  -- books submits the orders of one client order id to the broker at most once, over every history
  -- of submissions, refreshes, recoveries, rehydrations, reconciliations and cancellations.
  pub run-submissions :
      (os : List (Operation F T)) (b : B)
      → submissions id (run (logged env) os (record { engine = empty_engine; outside = (b, []) }))
        ≤ 1
  unfolding IsOnce
  run-submissions os b =
      let p = run-IsOnce os (record { engine = empty_engine; outside = (b, []) }) (inl refl) in
      ground arith
