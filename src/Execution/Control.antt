-- ===== src/Execution/Control.antt =====
-- The boundary between Risk and Execution: execution/safety.py, `authorize_risk_decision` of
-- execution/trading_execution.py and execution/control.py.
pub mod Authority
use Prim.Native.String
use stock_bot.Base.{
  String, Bool, true, false, not, ◌&&◌, Option, none, some, List, [], ◌∷◌, ◌++◌, if◌then◌else◌,
  when_some,
}
use stock_bot.Base.Result.{Result, ok, value_error, raise_if, ◌>>=◌, ◌>>◌}
use stock_bot.Float.{Float, num, leb, ◌==◌}
use stock_bot.Clock.{Timestamp}
use stock_bot.Risk.Decision.{RiskDecision, is_approved}
use stock_bot.Execution.Models.{ExecutionAuthorization, authorized, blocked, check_authorization}

pub data SafetyBlock : Type 0 where
  no_block kill_switch stale_data data_quality session_closed live_locked : SafetyBlock

pub record SafetyState : Type 0 where
  pub kill_switch_active : Bool
  pub stale_data : Bool
  pub data_quality_ok : Bool
  pub session_open : Bool
  pub live_execution_enabled : Bool

pub record SafetyDecision : Type 0 where
  pub allowed : Bool
  pub block : SafetyBlock
  pub reason : String

abbrev refuse : SafetyBlock → String → SafetyDecision
refuse b r = record { allowed = false; block = b; reason = r }

-- `IndependentSafetyGate.evaluate`: the first check that blocks decides.
unfoldable pub evaluate_safety : SafetyState → SafetyDecision
evaluate_safety s =
    if s.kill_switch_active
    then refuse kill_switch "Independent kill switch is active."
    else if s.stale_data
    then refuse stale_data "Market data is stale."
    else if not s.data_quality_ok
    then refuse data_quality "Market data quality is not valid."
    else if not s.session_open
    then refuse session_closed "Trading session is closed."
    else if not s.live_execution_enabled
    then refuse live_locked "Live execution remains locked by the trading specification."
    else record { allowed = true; block = no_block; reason = "Independent safety checks passed." }

-- `SafetyBlock.value`
abbrev block_name : SafetyBlock → String
block_name no_block = "NONE"
block_name kill_switch = "KILL_SWITCH"
block_name stale_data = "STALE_DATA"
block_name data_quality = "DATA_QUALITY"
block_name session_closed = "SESSION_CLOSED"
block_name live_locked = "LIVE_LOCKED"

module _ {F T : Type 0} ⦃n : Float F⦄ ⦃t : Timestamp T⦄ where
  -- the authorization that carries `quantity` and `notional`
  abbrev authorization_of :
      RiskDecision F T → Bool → F → F → String → List String → ExecutionAuthorization F T
  authorization_of d active quantity notional id restrictions = record {
    timestamp = d.timestamp;
    symbol = d.symbol;
    direction = d.strategy_direction;
    status = if active then authorized else blocked;
    reason =
        if active
        then "RiskDecision authorizes the exact Risk Engine approved exposure."
        else "Execution blocked because RiskDecision is not APPROVED.";
    risk_version = d.risk_version;
    approved_quantity = quantity;
    approved_notional = notional;
    risk_decision_id = id;
    restrictions = restrictions;
    execution_version = "risk-aware-v2.0";
    position_transition = d.position_transition;
    approved_projected_quantity = d.approved_projected_quantity;
  }

  unfoldable pub approved_authorization :
      RiskDecision F T
      → Option F
      → Option F
      → String
      → List String
      → Result (ExecutionAuthorization F T)
  approved_authorization d quantity notional id restrictions = do
    raise_if (leb d.approved_quantity (num 0))
        (value_error "approved RiskDecision must carry a positive quantity")
    raise_if (when_some quantity λ q. not (q == d.approved_quantity))
        (value_error "execution quantity must exactly equal RiskDecision approved quantity")
    raise_if (when_some notional λ q. not (q == d.approved_notional))
        (value_error "execution notional must exactly equal RiskDecision approved notional")
    check_authorization
        (authorization_of d true d.approved_quantity d.approved_notional id restrictions)

  -- `authorize_risk_decision`
  unfoldable pub authorize_risk_decision :
      RiskDecision F T
      → Option F
      → Option F
      → String
      → List String
      → Result (ExecutionAuthorization F T)
  unfolding approved_authorization check_authorization
  authorize_risk_decision d quantity notional id restrictions =
      if is_approved d.status
      then approved_authorization d quantity notional id restrictions
      else check_authorization (authorization_of d false (num 0) (num 0) id restrictions)

  abbrev vetoed : ExecutionAuthorization F T → SafetyDecision → ExecutionAuthorization F T
  vetoed a s = record a {
    status = blocked;
    reason = String.◌++◌ "Independent safety gate blocked execution: " s.reason;
    approved_quantity = num 0;
    approved_notional = num 0;
    restrictions = a.restrictions ++ (String.◌++◌ "safety_block:" (block_name s.block) ∷ []);
  }

  -- `authorize_execution`
  unfoldable pub authorize_execution :
      RiskDecision F T
      → Option F
      → Option F
      → String
      → List String
      → SafetyDecision
      → Result (ExecutionAuthorization F T)
  unfolding authorize_risk_decision check_authorization
  authorize_execution d quantity notional id restrictions s = do
    a ← authorize_risk_decision d quantity notional id restrictions
    (if not s.allowed then check_authorization (vetoed a s) else ok a)
