-- ===== src/Risk/Decision.antt =====
-- trading/risk/gate.py: the auditable decision, and the legacy gate.
use stock_bot.Base.{String, Option, none, some, Bool, true, false, not, ◌&&◌, ◌||◌, if◌then◌else◌}
use stock_bot.Base.Text.{strip, upper, is_blank}
use stock_bot.Base.Result.{Result, ok, value_error, raise_if, ◌>>◌}
use stock_bot.Float.{Float, num, max, ltb, ◌==◌}
use stock_bot.Clock.{Timestamp, zoned}
use stock_bot.Signals.{StrategyDirection, no_trade}
use stock_bot.Risk.Contracts.{
  RiskAction, approve, resize, reject, RiskReasonCode, generic_reject, system_not_ready,
  RiskPositionTransition,
}

pub data RiskDecisionStatus : Type 0 where
  approved rejected : RiskDecisionStatus

pub record RiskDecision (F T : Type 0) : Type 0 where
  pub timestamp : T
  pub symbol : String
  pub status : RiskDecisionStatus
  pub strategy_direction : StrategyDirection
  pub reason : String
  pub risk_version : String
  pub reason_code : Option RiskReasonCode
  pub resized : Bool
  pub approved_quantity : F
  pub approved_notional : F
  pub position_transition : Option RiskPositionTransition
  pub requested_projected_quantity : Option F
  pub approved_projected_quantity : Option F

abbrev pub is_approved : RiskDecisionStatus → Bool
is_approved approved = true
is_approved rejected = false

-- the reason code that `__post_init__` fills in
abbrev default_code : RiskDecisionStatus → Option RiskReasonCode → Option RiskReasonCode
default_code status (some code) = some code
default_code approved none = some RiskReasonCode.approved
default_code rejected none = some generic_reject

module _ {F T : Type 0} ⦃n : Float F⦄ ⦃t : Timestamp T⦄ where
  -- `RiskDecision.__post_init__`
  unfoldable pub check_decision : RiskDecision F T → Result (RiskDecision F T)
  check_decision d = do
    raise_if (not (zoned d.timestamp)) (value_error "risk timestamp must be timezone-aware")
    raise_if (is_blank d.symbol) (value_error "risk symbol must not be empty")
    raise_if (is_blank d.reason) (value_error "risk reason must not be empty")
    raise_if (is_blank d.risk_version) (value_error "risk_version must not be empty")
    raise_if (ltb d.approved_quantity (num 0) || ltb d.approved_notional (num 0))
        (value_error "approved exposure must be non-negative")
    raise_if
        (not (is_approved d.status)
          && (not (d.approved_quantity == num 0) || not (d.approved_notional == num 0)))
        (value_error "rejected risk decisions cannot carry approved exposure")
    ok (record d {
      symbol = upper (strip d.symbol);
      reason_code = default_code d.status d.reason_code;
    })

module _ {F T : Type 0} where
  -- `RiskDecision.action`
  unfoldable pub action : RiskDecision F T → RiskAction
  action d = if not (is_approved d.status) then reject else if d.resized then resize else approve

pub record StrategyDecision (T : Type 0) : Type 0 where
  pub timestamp : T
  pub symbol : String
  pub direction : StrategyDirection

abbrev is_no_trade : StrategyDirection → Bool
is_no_trade no_trade = true
is_no_trade _ = false

module _ {F T : Type 0} ⦃n : Float F⦄ where
  legacy_decision :
      StrategyDecision T → RiskDecisionStatus → String → RiskReasonCode → F → F → RiskDecision F T
  legacy_decision d status reason code quantity notional = record {
    timestamp = d.timestamp;
    symbol = d.symbol;
    status = status;
    strategy_direction = d.direction;
    reason = reason;
    risk_version = "RISK-v1.0";
    reason_code = some code;
    resized = false;
    approved_quantity = quantity;
    approved_notional = notional;
    position_transition = none;
    requested_projected_quantity = none;
    approved_projected_quantity = none;
  }

module _ {F T : Type 0} ⦃n : Float F⦄ ⦃t : Timestamp T⦄ where
  unfoldable pub evaluate_strategy_risk :
      StrategyDecision T → Bool → F → F → Result (RiskDecision F T)
  unfolding legacy_decision check_decision
  evaluate_strategy_risk d risk_enabled approved_quantity approved_notional = check_decision (
      if is_no_trade d.direction
      then legacy_decision d rejected "Strategy produced NO_TRADE; risk gate blocks execution."
          generic_reject (num 0) (num 0)
      else if not risk_enabled
      then legacy_decision d rejected "Global risk gate is disabled." system_not_ready (num 0)
          (num 0)
      else legacy_decision d approved
          "Strategy direction passed the deterministic pre-trade risk gate." RiskReasonCode.approved
          (max (num 1) approved_quantity) approved_notional)
