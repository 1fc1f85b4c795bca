-- ===== src/Execution/Engine/Operations.antt =====
-- Histories of an `ExecutionEngine` (execution/engine.py): its public operations, called one after
-- the other by a caller that survives their exceptions.
use stock_bot.Base.{String, List, [], ◌∷◌}
use stock_bot.Base.Exec.{Exec, pure, ◌>>◌}
use stock_bot.Float.{Float}
use stock_bot.Clock.{Timestamp}
use stock_bot.Execution.Models.{OrderRequest}
use stock_bot.Execution.Environment.{Environment}
use stock_bot.Execution.Engine.State.{World}
use stock_bot.Execution.Engine.Submission.{submit}
use stock_bot.Execution.Engine.Recovery.{
  refresh, recover_unknown, rehydrate_from, rehydrate, reconcile_order, cancel,
}

-- A call of a public method that may write to the engine.
pub data Operation (F T : Type 0) : Type 0 where
  submit_order : OrderRequest F T → Operation F T
  refresh_order : String → Operation F T
  recover_order : String → Operation F T
  rehydrate_orders : List String → Operation F T
  reconcile : String → Operation F T
  cancel_order : String → Operation F T

module _ {F T B : Type 0} ⦃n : Float F⦄ ⦃t : Timestamp T⦄ (env : Environment F T B) where
  unfoldable pub perform : Operation F T → Exec (World F T B) (Unit {0})
  unfolding submit refresh recover_unknown rehydrate_from reconcile_order cancel
  perform (submit_order o) = submit env o >> pure tt
  perform (refresh_order id) = refresh env id >> pure tt
  perform (recover_order id) = recover_unknown env id >> pure tt
  perform (rehydrate_orders ids) = rehydrate env ids >> pure tt
  perform (reconcile id) = reconcile_order env id >> pure tt
  perform (cancel_order id) = cancel env id >> pure tt

  -- The world after a history; what an operation wrote before it raised stays written.
  unfoldable pub run : List (Operation F T) → World F T B → World F T B
  unfolding perform
  run [] w = w
  run (o ∷ os) w = run os (perform o w).1
