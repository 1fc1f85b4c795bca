-- ===== src/Risk/Engine/Approvals.antt =====
-- What an approval of `RiskEngine.evaluate` has passed.
use stock_bot.Base.{true, false, ◌≡◌, refl, arith}
use stock_bot.Base.Int.{leb_ℤ}
use stock_bot.Base.Result.{Result, ok, err}
use stock_bot.Base.Flow.{Flow, next, raised, returned, finish, call, ◌>>=◌}
use stock_bot.Float.{Float}
use stock_bot.Clock.{Timestamp}
use stock_bot.Risk.Limits.{daily_loss_limit_reached}
use stock_bot.Risk.Decision.{approved}
use stock_bot.Risk.Input.{RiskConfig, RiskInput, RiskAssessment}
use stock_bot.Risk.Engine.Gates.{
  safety_gates, session_gates, drawdown_reached, drawdown_gate, stop_gate, kill_active,
  consumes_entry, creates_slot, direction_mismatch, duplicate_open, daily_state,
}
use stock_bot.Risk.Engine.Quantities.{size_order, target_gate, volatility_gate, quantity_gate}
use stock_bot.Risk.Engine.Exposure.{concentration, exposure_gate, concentration_gate}
use stock_bot.Risk.Engine.Body.{Approval, vet, approve, evaluate}
use stock_bot.Risk.Engine.Refusals.{vet-Refuses}

module _ {F T : Type 0} ⦃n : Float F⦄ ⦃t : Timestamp T⦄ where
  pub record Vetted (c : RiskConfig F) (v : RiskInput F T) (a : Approval F) : Type 0 where
    pub safe : safety_gates c v ≡ next tt
    pub in_session : session_gates c v ≡ next tt
    pub no_drawdown : drawdown_gate c v ≡ next tt
    pub stopped : stop_gate c v ≡ next a.stop_distance
    pub sized : size_order c v a.stop_distance ≡ next a.sized
    pub targeted : target_gate c v a.stop_distance ≡ next a.target
    pub adjusted : volatility_gate c v ≡ next a.factor
    pub ordered : quantity_gate c v a.sized a.factor ≡ next a.order
    pub exposed : exposure_gate c v a.stop_distance a.sized a.order ≡ next a.exposed
    pub concentrated : concentration_gate c v (concentration v a.exposed) ≡ next tt

  pub vet-Vetted :
      (c : RiskConfig F) (v : RiskInput F T) (a : Approval F) → vet c v ≡ next a → Vetted c v a
  unfolding vet
  vet-Vetted c v a h = ground arith

  -- An approved assessment is the approval of a vetted candidate.
  pub record Approves (c : RiskConfig F) (v : RiskInput F T) (a : RiskAssessment F T) : Type 0 where
    pub path : Approval F
    pub vetted : Vetted c v path
    pub made : approve c v path ≡ ok a

  from_vet :
      (c : RiskConfig F) (v : RiskInput F T) (a : RiskAssessment F T)
      (m : Flow (RiskAssessment F T) (Approval F))
      → vet c v ≡ m
      → finish (m >>= λ p. call (approve c v p)) ≡ ok a
      → a.decision.status ≡ approved
      → Approves c v a
  from_vet c v a (raised e) h g s = cc
  from_vet c v a (returned r) h g s =
      let refusal = (vet-Refuses c v).at r h in ground (arith, refusal.status)
  from_vet c v a (next p) h g s = record {
    path = p;
    vetted = vet-Vetted c v p h;
    made = made (approve c v p) g;
  }
    where
      made : (r : Result (RiskAssessment F T)) → finish (call r) ≡ ok a → r ≡ ok a
      made (ok b) e = e
      made (err x) e = cc

  pub evaluate-Approves :
      (c : RiskConfig F) (v : RiskInput F T) (a : RiskAssessment F T)
      → evaluate c v ≡ ok a
      → a.decision.status ≡ approved
      → Approves c v a
  unfolding evaluate
  evaluate-Approves c v a h s = from_vet c v a (vet c v) refl h s

  -- The tests that a vetted candidate has passed, in the terms of the input.
  pub record IsCleared (c : RiskConfig F) (v : RiskInput F T) : Type 0 where
    pub ready : v.system_ready ≡ true
    pub not_killed : kill_active v ≡ false
    pub fresh : v.market_data_valid ≡ true
    pub liquid : v.liquidity_available ≡ true
    pub loss_limited : daily_loss_limit_reached (daily_state v) c.max_daily_loss ≡ false
    pub not_drawn_down :
        drawdown_reached c.max_drawdown_fraction v.peak_equity v.available_equity ≡ false
    pub trades_left :
        consumes_entry v.position_context ≡ true → leb_ℤ c.max_trades_per_day v.trades_today ≡ false
    pub directed : direction_mismatch v ≡ false
    pub slot_left : creates_slot v ≡ true → leb_ℤ c.max_open_positions v.open_positions ≡ false
    pub not_duplicate : duplicate_open v ≡ false

  pub Vetted-IsCleared :
      (c : RiskConfig F) (v : RiskInput F T) (a : Approval F) → Vetted c v a → IsCleared c v
  unfolding safety_gates session_gates drawdown_gate
  Vetted-IsCleared c v a h = record {
    ready = ground (arith, h.safe);
    not_killed = ground (arith, h.safe);
    fresh = ground (arith, h.safe);
    liquid = ground (arith, h.safe);
    loss_limited = ground (arith, h.in_session);
    not_drawn_down = ground (arith, h.no_drawdown);
    trades_left = λ e. ground (arith, h.in_session);
    directed = ground (arith, h.in_session);
    slot_left = λ e. ground (arith, h.in_session);
    not_duplicate = ground (arith, h.in_session);
  }
