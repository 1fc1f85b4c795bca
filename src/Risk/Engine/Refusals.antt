-- ===== src/Risk/Engine/Refusals.antt =====
-- Every early return of `RiskEngine.evaluate` is a rejection that carries no exposure.
use stock_bot.Base.{String, Option, none, some, Bool, true, false, ◌≡◌, refl, arith, if◌then◌else◌}
use stock_bot.Base.Result.{Result, ok, err, value_error}
use stock_bot.Base.Flow.{
  Flow, returned, raised, next, call, return, return_if, except_value_error, ◌>>=◌,
}
use stock_bot.Float.{Float, num}
use stock_bot.Clock.{Timestamp}
use stock_bot.Risk.Contracts.{RiskReasonCode}
use stock_bot.Risk.Decision.{rejected, check_decision}
use stock_bot.Risk.Input.{RiskConfig, RiskInput, RiskAssessment}
use stock_bot.Risk.Engine.Gates.{
  Economics, reject, safety_gates, session_gates, drawdown_gate, stop_gate,
}
use stock_bot.Risk.Engine.Quantities.{
  Sized, Order, cash_limit, cash_gate, size_order, target_gate, volatility_factor, volatility_gate,
  quantity_gate, release_only,
}
use stock_bot.Risk.Engine.Exposure.{
  Exposed, Concentration, over_limit, exposure_gate, concentration_gate,
}
use stock_bot.Risk.Engine.Body.{vet}

module _ {F T : Type 0} ⦃n : Float F⦄ ⦃t : Timestamp T⦄ where
  pub record IsRefusal (a : RiskAssessment F T) : Type 0 where
    pub status : a.decision.status ≡ rejected
    pub no_quantity : a.decision.approved_quantity ≡ num 0
    pub no_notional : a.decision.approved_notional ≡ num 0
    pub no_size : a.approved_projected_quantity ≡ none

  -- A body whose early returns are all refusals.
  pub record Refuses {A : Type 0} (m : Flow (RiskAssessment F T) A) : Type 0 where
    pub at : (a : RiskAssessment F T) → m ≡ returned a → IsRefusal a

  pub Refuses-next : {A : Type 0} (a : A) → Refuses (next a)
  Refuses-next a = record { at = λ r e. cc }

  pub Refuses-call : {A : Type 0} (r : Result A) → Refuses (call r)
  Refuses-call (ok a) = record { at = λ r e. cc }
  Refuses-call (err e) = record { at = λ r e. cc }

  pub Refuses-bind :
      {A B : Type 0} (m : Flow (RiskAssessment F T) A) (f : A → Flow (RiskAssessment F T) B)
      → Refuses m
      → ((a : A) → Refuses (f a))
      → Refuses (m >>= f)
  Refuses-bind (raised e) f hm hf = record { at = λ r e. cc }
  Refuses-bind (returned a) f hm hf = record { at = λ r e. hm.at r (ground arith) }
  Refuses-bind (next a) f hm hf = hf a

  pub reject-IsRefusal :
      (c : RiskConfig F) (v : RiskInput F T) (s : String) (code : RiskReasonCode) (e : Economics F)
      {a : RiskAssessment F T}
      → reject c v s code e ≡ ok a
      → IsRefusal a
  unfolding reject check_decision
  reject-IsRefusal c v s code e h = ground arith

  pub Refuses-reject :
      {A : Type 0} (c : RiskConfig F) (v : RiskInput F T) (s : String) (code : RiskReasonCode)
      (e : Economics F)
      → Refuses {A = A} (return (reject c v s code e))
  Refuses-reject {A} c v s code e = go (reject c v s code e) refl
    where
      go : (r : Result (RiskAssessment F T)) → reject c v s code e ≡ r → Refuses {A = A} (return r)
      go (ok a) h = record { at = λ r g. reject-IsRefusal c v s code e (ground arith) }
      go (err x) h = record { at = λ r g. cc }

  pub Refuses-return_if :
      (b : Bool) (c : RiskConfig F) (v : RiskInput F T) (s : String) (code : RiskReasonCode)
      (e : Economics F)
      → Refuses (return_if b (reject c v s code e))
  Refuses-return_if true c v s code e = Refuses-reject c v s code e
  Refuses-return_if false c v s code e = Refuses-next tt

  pub Refuses-if :
      {A : Type 0} (b : Bool) (m k : Flow (RiskAssessment F T) A)
      → Refuses m
      → Refuses k
      → Refuses (if b then m else k)
  Refuses-if true m k hm hk = hm
  Refuses-if false m k hm hk = hk

  pub Refuses-except :
      {A : Type 0} (r : Result A) (c : RiskConfig F) (v : RiskInput F T)
      (code : String → RiskReasonCode) (e : Economics F)
      → Refuses (except_value_error r λ m. reject c v m (code m) e)
  Refuses-except (ok a) c v code e = Refuses-next a
  Refuses-except (err (value_error m)) c v code e = Refuses-reject c v m (code m) e
  Refuses-except (err x) c v code e = record { at = λ r g. cc }

pub ruleset refuses_rules = (
  Refuses-next, Refuses-call, Refuses-bind, Refuses-return_if, Refuses-if, Refuses-reject,
  Refuses-except,
)

module _ {F T : Type 0} ⦃n : Float F⦄ ⦃t : Timestamp T⦄ (c : RiskConfig F) (v : RiskInput F T) where
  safety_gates-Refuses : Refuses (safety_gates c v)
  unfolding safety_gates
  safety_gates-Refuses = search refuses_rules

  session_gates-Refuses : Refuses (session_gates c v)
  unfolding session_gates
  session_gates-Refuses = search refuses_rules

  drawdown_gate-Refuses : Refuses (drawdown_gate c v)
  unfolding drawdown_gate
  drawdown_gate-Refuses = search refuses_rules

  stop_gate-Refuses : Refuses (stop_gate c v)
  unfolding stop_gate
  stop_gate-Refuses = Refuses-except _ c v _ _

  cash_limit-Refuses : (q k : F) → Refuses (cash_limit c v q k)
  unfolding cash_limit
  cash_limit-Refuses q k = search refuses_rules

  cash_gate-Refuses : (q : F) (cash : Option F) → Refuses (cash_gate c v q cash)
  unfolding cash_gate
  cash_gate-Refuses q none = search refuses_rules
  cash_gate-Refuses q (some cash) = search (refuses_rules, cash_limit-Refuses)

  size_order-Refuses : (d : F) → Refuses (size_order c v d)
  unfolding size_order
  size_order-Refuses d = search (refuses_rules, cash_gate-Refuses) depth 12

  target_gate-Refuses : (d : F) → Refuses (target_gate c v d)
  unfolding target_gate
  target_gate-Refuses d = Refuses-except _ c v _ _

  volatility_factor-Refuses : Refuses (volatility_factor c v)
  unfolding volatility_factor
  volatility_factor-Refuses =
      Refuses-if (release_only v) _ _ (Refuses-next _) (Refuses-except _ c v _ _)

  volatility_gate-Refuses : Refuses (volatility_gate c v)
  unfolding volatility_gate
  volatility_gate-Refuses = search (refuses_rules, volatility_factor-Refuses) depth 8

  quantity_gate-Refuses : (s : Sized F) (f : F) → Refuses (quantity_gate c v s f)
  unfolding quantity_gate
  quantity_gate-Refuses s f = search refuses_rules depth 8

  over_limit-Refuses : (d : F) (s : Sized F) (e : Exposed F) → Refuses (over_limit c v d s e)
  unfolding over_limit
  over_limit-Refuses d s e = search refuses_rules depth 8

  exposure_gate-Refuses : (d : F) (s : Sized F) (o : Order F) → Refuses (exposure_gate c v d s o)
  unfolding exposure_gate
  exposure_gate-Refuses d s o = search (refuses_rules, over_limit-Refuses) depth 8

  concentration_gate-Refuses : (k : Concentration F) → Refuses (concentration_gate c v k)
  unfolding concentration_gate
  concentration_gate-Refuses k = search refuses_rules depth 8

  pub vet-Refuses : Refuses (vet c v)
  unfolding vet
  vet-Refuses =
      search
        (
          refuses_rules, safety_gates-Refuses, session_gates-Refuses, drawdown_gate-Refuses,
          stop_gate-Refuses, size_order-Refuses, target_gate-Refuses, volatility_gate-Refuses,
          quantity_gate-Refuses, exposure_gate-Refuses, concentration_gate-Refuses,
        )
        depth 16
