-- ===== src/Risk/Engine/Bounds.antt =====
-- The size of an approved order: exposure limits, the intent that it never exceeds, and releases.
use stock_bot.Base.{none, some, Bool, true, false, ◌≡◌, ◌||◌, arith, if◌then◌else◌}
use stock_bot.Base.Dict.{Dict, remove}
use stock_bot.Risk.Contracts.{RiskPositionContext, releases_position, is_reverse}
use stock_bot.Base.Result.{ok}
use stock_bot.Base.Flow.{next}
use stock_bot.Float.{Float, ltb, num, abs, ◌+◌, ◌*◌, eps}
use stock_bot.Clock.{Timestamp}
use stock_bot.Risk.Limits.{
  check_symbol_exposure, check_sector_exposure, correlation_exposure_allowed,
}
use stock_bot.Risk.Decision.{approved}
use stock_bot.Risk.Input.{RiskConfig, RiskInput, RiskAssessment}
use stock_bot.Risk.Engine.Quantities.{reverse_transition}
use stock_bot.Risk.Engine.Exposure.{
  Concentration, without_symbol, exposure_limit, concentration, concentration_gate,
}
use stock_bot.Risk.Engine.Body.{Approval, approve, evaluate}
use stock_bot.Risk.Engine.Cuts.{exposure_gate_fixed, expose_order, expose_plain, exposure_value}
use stock_bot.Risk.Engine.Approvals.{Approves, evaluate-Approves}
use stock_bot.Risk.Engine.Authority.{Approves-fields}

module _ {F : Type 0} where
  -- the transitions after which the old contribution of the symbol is gone
  abbrev pub replaces : RiskPositionContext F → Bool
  replaces p = releases_position p.transition || is_reverse p.transition

module _ {F T : Type 0} ⦃n : Float F⦄ ⦃t : Timestamp T⦄ where
  -- The reported gross exposure, within the configured limit.
  pub record IsWithinGross (c : RiskConfig F) (v : RiskInput F T) (a : RiskAssessment F T)
      : Type 0 where
    pub gross : F
    pub reported : a.gross_exposure_after ≡ some gross
    pub within : ltb (exposure_limit c v + eps) gross ≡ false
    pub added :
        v.position_context ≡ none
        → gross ≡ v.gross_exposure + v.candidate.entry_price * a.decision.approved_quantity

  -- With resizing off, an approved assessment reports a gross exposure that is not above equity
  -- times the configured fraction (plus the tolerance); without a position context the reported
  -- value is the current exposure plus the entry price times the approved quantity.
  pub evaluate-IsWithinGross :
      (c : RiskConfig F) (v : RiskInput F T) (a : RiskAssessment F T)
      → c.allow_resize ≡ false
      → evaluate c v ≡ ok a
      → a.decision.status ≡ approved
      → IsWithinGross c v a
  evaluate-IsWithinGross c v a off h s =
      let e = evaluate-Approves c v a h s in
      let p = e.path in
      let (quantity, _, gross, _, _) = Approves-fields e in
      let (made, within) =
        exposure_gate_fixed c v p.stop_distance p.sized p.order off e.vetted.exposed in
      record {
        gross = p.exposed.gross_after;
        reported = gross;
        within = within;
        added = λ plain. ground (
          arith,
          expose_plain v p.order (ground (arith, plain)) (ground (arith, plain)) made,
          expose_order v p.order made,
        );
      }

  -- The value and the exposures that the optional limits are tested with, in the terms of the input
  -- and of what the assessment reports. A release or a reversal replaces the symbol's contribution.
  abbrev pub tested_value : RiskInput F T → RiskAssessment F T → F
  tested_value v a = elim v.position_context [
    | none ↦ v.candidate.entry_price * a.decision.approved_quantity
    | some p ↦
        if releases_position p.transition
        then abs p.projected_quantity * v.candidate.entry_price
        else if is_reverse p.transition
        then elim a.opening_position_size [ none ↦ num 0 | some q ↦ q * v.candidate.entry_price ]
        else v.candidate.entry_price * a.decision.approved_quantity
  ]

  abbrev pub tested_symbols : RiskInput F T → Dict F
  tested_symbols v = elim v.position_context [
    | none ↦ v.symbol_exposure
    | some p ↦ if replaces p then remove v.symbol v.symbol_exposure else v.symbol_exposure
  ]

  abbrev pub tested_sectors : RiskInput F T → Dict F
  tested_sectors v = elim v.position_context [
    | none ↦ v.sector_exposure
    | some p ↦
        if replaces p
        then without_symbol v (abs p.existing_quantity * v.candidate.entry_price)
        else v.sector_exposure
  ]

  -- The optional symbol, sector and correlation limits for that value.
  pub record IsConcentrated (c : RiskConfig F) (v : RiskInput F T) (a : RiskAssessment F T)
      : Type 0 where
    pub symbol :
        check_symbol_exposure v.symbol
          (tested_value v a)
          (tested_symbols v)
          c.max_symbol_exposure_fraction
          v.available_equity
        ≡ true
    pub sector :
        check_sector_exposure v.sector
          (tested_value v a)
          (tested_sectors v)
          c.max_sector_exposure_fraction
          v.available_equity
        ≡ true
    pub correlated :
        correlation_exposure_allowed v.symbol
          (tested_value v a)
          (tested_symbols v)
          v.pairwise_correlation
          v.available_equity
          c.minimum_abs_correlation
          c.max_correlated_exposure_fraction
        ≡ true

  approve_opening :
      (c : RiskConfig F) (v : RiskInput F T) (p : Approval F) {a : RiskAssessment F T}
      → approve c v p ≡ ok a
      → a.opening_position_size
        ≡ (if reverse_transition v then some p.exposed.opening_quantity else none)
  unfolding approve
  approve_opening c v p h = ground arith

  -- part 8 tests exactly that value and those exposures
  Approves-tested :
      {c : RiskConfig F} {v : RiskInput F T} {a : RiskAssessment F T} (e : Approves c v a)
      → concentration v e.path.exposed ≡ record {
        by_symbol = tested_symbols v;
        by_sector = tested_sectors v;
        proposed = tested_value v a;
      }
  unfolding concentration
  Approves-tested {c} {v} {a} e =
      let p = e.path in
      ground (
        arith,
        exposure_value c v p.stop_distance p.sized p.order e.vetted.exposed,
        approve_opening c v p e.made,
        Approves-fields e,
      )

  passed-IsConcentrated :
      (c : RiskConfig F) (v : RiskInput F T) (a : RiskAssessment F T) (k : Concentration F)
      → k ≡ record {
        by_symbol = tested_symbols v;
        by_sector = tested_sectors v;
        proposed = tested_value v a;
      }
      → concentration_gate c v k ≡ next tt
      → IsConcentrated c v a
  unfolding concentration_gate
  passed-IsConcentrated c v a k q h = record {
    symbol = ground (arith, q, h);
    sector = ground (arith, q, h);
    correlated = ground (arith, q, h);
  }

  -- An approved assessment is within the optional symbol, sector and correlation limits for the
  -- value that it approves: the entry price times the approved quantity, for a release the value of
  -- the position that is left, and for a reversal that of the opening part. A release or a reversal
  -- is tested without what the symbol contributed before.
  pub evaluate-IsConcentrated :
      (c : RiskConfig F) (v : RiskInput F T) (a : RiskAssessment F T)
      → evaluate c v ≡ ok a
      → a.decision.status ≡ approved
      → IsConcentrated c v a
  evaluate-IsConcentrated c v a h s =
      let e = evaluate-Approves c v a h s in
      passed-IsConcentrated c v a (concentration v e.path.exposed) (Approves-tested e)
        e.vetted.concentrated
