-- ===== src/Execution/Control/Authority.antt =====
-- What an execution authorization carries: execution/safety.py, execution/trading_execution.py and
-- execution/control.py.
use stock_bot.Base.{String, true, false, not, ◌&&◌, Option, List, ◌≡◌, arith}
use stock_bot.Base.Result.{ok}
use stock_bot.Float.{Float, num, leb}
use stock_bot.Clock.{Timestamp}
use stock_bot.Risk.Decision.{RiskDecision, approved}
use stock_bot.Execution.Models.{ExecutionAuthorization, authorized, blocked, check_authorization}
use stock_bot.Execution.Control.{
  SafetyState, SafetyDecision, no_block, evaluate_safety, authorize_risk_decision,
  authorize_execution, approved_authorization,
}

-- The safety gate allows execution exactly when the kill switch is off, the data is fresh and valid,
-- the session is open and live execution is enabled, and then it names no block.
pub evaluate_safety-allowed :
    (s : SafetyState)
    → ((evaluate_safety s).allowed ≡ (
        not s.kill_switch_active
        && not s.stale_data
        && s.data_quality_ok
        && s.session_open
        && s.live_execution_enabled))
      × ((evaluate_safety s).allowed ≡ true → (evaluate_safety s).block ≡ no_block)
unfolding evaluate_safety
evaluate_safety-allowed s = (ground arith, ground arith)

module _ {F T : Type 0} ⦃n : Float F⦄ ⦃t : Timestamp T⦄ where
  -- The authorization is active with exactly the exposure of the decision, or blocked without any.
  pub record IsExact (d : RiskDecision F T) (s : SafetyDecision) (a : ExecutionAuthorization F T)
      : Type 0 where
    pub approved :
        a.status ≡ authorized
        → (d.status ≡ approved)
          × (s.allowed ≡ true)
          × (a.approved_quantity ≡ d.approved_quantity)
          × (a.approved_notional ≡ d.approved_notional)
          × (leb a.approved_quantity (num 0) ≡ false)
    pub refused : a.status ≡ blocked → (a.approved_quantity ≡ num 0) × (a.approved_notional ≡ num 0)
    pub symbol : a.symbol ≡ d.symbol
    pub direction : a.direction ≡ d.strategy_direction

  -- An authorization that `authorize_execution` returns is for the symbol and the direction of the
  -- risk decision. It is AUTHORIZED only for an APPROVED decision that the safety gate allows, with
  -- exactly the positive quantity and the notional of the decision, and BLOCKED with none.
  pub authorize_execution-IsExact :
      (d : RiskDecision F T) (quantity notional : Option F) (id : String)
      (restrictions : List String) (s : SafetyDecision) {a : ExecutionAuthorization F T}
      → authorize_execution d quantity notional id restrictions s ≡ ok a
      → IsExact d s a
  unfolding authorize_execution authorize_risk_decision approved_authorization check_authorization
  authorize_execution-IsExact d quantity notional id restrictions s h = record {
    approved = ground arith;
    refused = ground arith;
    symbol = ground arith;
    direction = ground arith;
  }
