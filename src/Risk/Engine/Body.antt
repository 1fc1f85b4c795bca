-- ===== src/Risk/Engine/Body.antt =====
-- `RiskEngine.evaluate` of trading/risk/engine.py: its parts in their order, and the approval.
use stock_bot.Base.{none, some, if◌then◌else◌}
use stock_bot.Base.Result.{Result, ok}
use stock_bot.Base.Result
use stock_bot.Base.Flow.{Flow, next, call, finish, ◌>>=◌, ◌>>◌}
use stock_bot.Float.{Float, ◌+◌, ◌*◌, num, neg, ltb}
use stock_bot.Clock.{Timestamp}
use stock_bot.Risk.Contracts.{RiskPositionContext, RiskReasonCode}
use stock_bot.Risk.Decision.{RiskDecision, approved, check_decision}
use stock_bot.Risk.Input.{RiskConfig, RiskInput, RiskAssessment}
use stock_bot.Risk.Engine.Gates.{
  strategy_direction, is_long, pnl, safety_gates, session_gates, drawdown_gate, stop_gate,
}
use stock_bot.Risk.Engine.Quantities.{
  Sized, Order, release_only, reverse_transition, size_order, target_gate, volatility_gate,
  quantity_gate,
}
use stock_bot.Risk.Engine.Exposure.{
  Exposed, reversed, exposure_gate, concentration, concentration_gate,
}

-- What the parts of an approved evaluation computed.
pub record Approval (F : Type 0) : Type 0 where
  pub stop_distance : F
  pub sized : Sized F
  pub target : F
  pub factor : F
  pub order : Order F
  pub exposed : Exposed F

module _ {F : Type 0} ⦃n : Float F⦄ where
  unfoldable pub projected_increase : RiskPositionContext F → F → F
  projected_increase p opening =
      p.existing_quantity
      + (if ltb (num 0) p.projected_quantity then num 1 else neg (num 1)) * opening

module _ {F T : Type 0} ⦃n : Float F⦄ where
  -- `approved_projected_quantity`
  unfoldable pub approved_projection : RiskInput F T → Exposed F → F
  unfolding projected_increase
  approved_projection v e = elim v.position_context [
    | none ↦
        if is_long (strategy_direction v.candidate.direction) then e.quantity else neg e.quantity
    | some p ↦
        if release_only v
        then p.projected_quantity
        else if reverse_transition v
        then reversed p.existing_quantity e.opening_quantity
        else projected_increase p e.opening_quantity
  ]

  abbrev approval : RiskConfig F → RiskInput F T → Exposed F → RiskDecision F T
  approval c v e = record {
    timestamp = v.timestamp;
    symbol = v.symbol;
    status = approved;
    strategy_direction = strategy_direction v.candidate.direction;
    reason =
        if e.resized
        then "Candidate passed risk controls after deterministic resizing."
        else "Candidate passed deterministic risk controls.";
    risk_version = c.risk_version;
    reason_code = some (if e.resized then RiskReasonCode.resized else RiskReasonCode.approved);
    resized = e.resized;
    approved_quantity = e.quantity;
    approved_notional = v.candidate.entry_price * e.quantity;
    position_transition = elim v.position_context [ none ↦ none | some p ↦ some p.transition ];
    requested_projected_quantity = elim v.position_context [
      | none ↦ none
      | some p ↦ some p.projected_quantity
    ];
    approved_projected_quantity = some (approved_projection v e);
  }

  abbrev approved_assessment : RiskInput F T → Approval F → RiskDecision F T → RiskAssessment F T
  approved_assessment v a d = record {
    decision = d;
    entry_price = some v.candidate.entry_price;
    stop_price = some v.candidate.stop_price;
    target_price = some a.target;
    risk_budget = some a.sized.sizing.risk_budget;
    stop_distance = some a.stop_distance;
    position_size = some a.exposed.quantity;
    requested_position_size = some a.sized.sizing.quantity;
    gross_exposure_after = some a.exposed.gross_after;
    gross_exposure_before = none;
    gross_exposure_limit = none;
    proposed_value = none;
    daily_pnl = some (pnl v);
    volatility_factor = some a.factor;
    closing_quantity = elim a.sized.transition_sizing [
      | none ↦ none
      | some s ↦ some s.closing_quantity
    ];
    opening_quantity = elim a.sized.transition_sizing [
      | none ↦ none
      | some s ↦ some a.exposed.opening_quantity
    ];
    opening_position_size = if reverse_transition v then some a.exposed.opening_quantity else none;
    requested_projected_quantity = elim v.position_context [
      | none ↦ none
      | some p ↦ some p.projected_quantity
    ];
    approved_projected_quantity = some (approved_projection v a.exposed);
  }

module _ {F T : Type 0} ⦃n : Float F⦄ ⦃t : Timestamp T⦄ where
  -- The body of `evaluate` up to the approval: every test that may refuse the candidate.
  unfoldable pub vet : RiskConfig F → RiskInput F T → Flow (RiskAssessment F T) (Approval F)
  vet c v = do
    safety_gates c v
    session_gates c v
    drawdown_gate c v
    stop_distance ← stop_gate c v
    sized ← size_order c v stop_distance
    target ← target_gate c v stop_distance
    factor ← volatility_gate c v
    order ← quantity_gate c v sized factor
    exposed ← exposure_gate c v stop_distance sized order
    concentration_gate c v (concentration v exposed)
    next (record {
      stop_distance = stop_distance;
      sized = sized;
      target = target;
      factor = factor;
      order = order;
      exposed = exposed;
    })

  unfoldable pub approve : RiskConfig F → RiskInput F T → Approval F → Result (RiskAssessment F T)
  approve c v a =
      Result.◌>>=◌ (check_decision (approval c v a.exposed)) λ d. ok (approved_assessment v a d)

  -- `RiskEngine.evaluate`
  unfoldable pub evaluate : RiskConfig F → RiskInput F T → Result (RiskAssessment F T)
  unfolding approve
  evaluate c v = finish (vet c v >>= λ a. call (approve c v a))
