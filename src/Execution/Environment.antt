-- ===== src/Execution/Environment.antt =====
-- What the engine calls and does not implement: the broker adapter, the clocks, the optional audit
-- store and the digest. `B` is their state.
use stock_bot.Base.{String, Bool, Option, List}
use stock_bot.Base.Exec.{Exec}
use stock_bot.Execution.Models.{OrderRequest, OrderSnapshot, PositionSnapshot, ExecutionEvent, Fill}

pub record Environment (F T B : Type 0) : Type 0 where
  -- `BrokerAdapter`
  pub submit : OrderRequest F T → Exec B (OrderSnapshot F T)
  pub get_order : String → Exec B (Option (OrderSnapshot F T))
  pub cancel : String → Exec B (OrderSnapshot F T)
  pub positions : Exec B (List (PositionSnapshot F))
  -- `pd.Timestamp.now` and `time.perf_counter`
  pub now : Exec B T
  pub perf_counter : Exec B F
  -- `audit_store is not None`, and its methods
  pub has_audit : Bool
  pub append_order : OrderRequest F T → OrderSnapshot F T → Exec B (Unit {0})
  pub append_event : ExecutionEvent T → Exec B (Unit {0})
  pub append_fill : Fill F T → OrderRequest F T → Exec B (Unit {0})
  pub append_position : PositionSnapshot F → OrderRequest F T → T → Exec B (Unit {0})
  -- `hashlib.sha256(text).hexdigest()[:24]`
  pub digest24 : String → String
