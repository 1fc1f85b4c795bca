-- ===== src/Risk/Engine/Authority.antt =====
-- What downstream layers may rely on: an assessment of `RiskEngine.evaluate` is a cleared approval
-- within its limits, or a rejection with no exposure.
use stock_bot.Base.{some, ◌≡◌, refl, arith}
use stock_bot.Base.Result.{Result, ok, err}
use stock_bot.Base.Flow.{Flow, next, raised, returned, finish, call, ◌>>=◌}
use stock_bot.Float.{Float, ◌*◌}
use stock_bot.Clock.{Timestamp}
use stock_bot.Risk.Decision.{approved, rejected, check_decision}
use stock_bot.Risk.Input.{RiskConfig, RiskInput, RiskAssessment}
use stock_bot.Risk.Engine.Body.{Approval, vet, approve, evaluate, approved_projection}
use stock_bot.Risk.Engine.Refusals.{IsRefusal, vet-Refuses}
use stock_bot.Risk.Engine.Approvals.{IsCleared, Approves, Vetted-IsCleared, evaluate-Approves}

module _ {F T : Type 0} ⦃n : Float F⦄ ⦃t : Timestamp T⦄ where
  -- An approval means that the system was ready, no kill switch was active, the market data was
  -- valid and liquid, neither the daily loss limit nor the drawdown limit was reached, an entry and a
  -- position slot were left where the trade takes one, the candidate's direction fits the position
  -- transition, and the symbol was not already open for a new position.
  pub evaluate-IsCleared :
      (c : RiskConfig F) (v : RiskInput F T) (a : RiskAssessment F T)
      → evaluate c v ≡ ok a
      → a.decision.status ≡ approved
      → IsCleared c v
  evaluate-IsCleared c v a h s =
      let e = evaluate-Approves c v a h s in Vetted-IsCleared c v e.path e.vetted

  approve_status :
      (c : RiskConfig F) (v : RiskInput F T) (p : Approval F) (a : RiskAssessment F T)
      → approve c v p ≡ ok a
      → a.decision.status ≡ approved
  unfolding approve check_decision
  approve_status c v p a h = ground arith

  finish-IsRefusal :
      (c : RiskConfig F) (v : RiskInput F T) (a : RiskAssessment F T)
      (m : Flow (RiskAssessment F T) (Approval F))
      → vet c v ≡ m
      → finish (m >>= λ p. call (approve c v p)) ≡ ok a
      → a.decision.status ≡ rejected
      → IsRefusal a
  finish-IsRefusal c v a (raised e) h g s = cc
  finish-IsRefusal c v a (returned r) h g s =
      let refusal = (vet-Refuses c v).at r h in ground (arith, refusal)
  finish-IsRefusal c v a (next p) h g s = go (approve c v p) refl g
    where
      go :
          (r : Result (RiskAssessment F T))
          → approve c v p ≡ r
          → finish (call r) ≡ ok a
          → IsRefusal a
      go (ok b) e k = ground (arith, approve_status c v p b e)
      go (err x) e k = cc

  -- A rejection carries no approved quantity, no approved notional and no approved position.
  pub evaluate-IsRefusal :
      (c : RiskConfig F) (v : RiskInput F T) (a : RiskAssessment F T)
      → evaluate c v ≡ ok a
      → a.decision.status ≡ rejected
      → IsRefusal a
  unfolding evaluate
  evaluate-IsRefusal c v a h s = finish-IsRefusal c v a (vet c v) refl h s

  -- What the approved assessment says is what the vetted order is.
  pub Approves-fields :
      {c : RiskConfig F} {v : RiskInput F T} {a : RiskAssessment F T} (e : Approves c v a)
      → (a.decision.approved_quantity ≡ e.path.exposed.quantity)
        × (a.decision.approved_notional ≡ v.candidate.entry_price * e.path.exposed.quantity)
        × (a.gross_exposure_after ≡ some e.path.exposed.gross_after)
        × (a.decision.approved_projected_quantity ≡ some (approved_projection v e.path.exposed))
        × (a.decision.resized ≡ e.path.exposed.resized)
  unfolding approve check_decision
  Approves-fields e = ground (arith, e.made)
