-- ===== src/Risk/Engine/Exposure.antt =====
-- The end of `RiskEngine.evaluate`: gross exposure, concentration and correlation.
use stock_bot.Base.{Option, none, some, Bool, true, false, not, ◌||◌, if◌then◌else◌}
use stock_bot.Base.Text.{is_empty}
use stock_bot.Base.Dict.{Dict, put, remove}
use stock_bot.Base.Result.{Result, ok}
use stock_bot.Base.Result
use stock_bot.Base.Flow.{Flow, next, call, return, return_if, ◌>>=◌, ◌>>◌}
use stock_bot.Float.{Float, ◌+◌, ◌-◌, ◌*◌, ◌/◌, num, neg, abs, min, max, eps, leb, ltb}
use stock_bot.Clock.{Timestamp}
use stock_bot.Risk.Contracts.{
  RiskPositionContext, max_gross_exposure, symbol_exposure_limit, sector_exposure_limit,
  correlation_limit,
}
use stock_bot.Risk.Limits.{
  get_or_zero, check_symbol_exposure, check_sector_exposure, correlation_exposure_allowed,
}
use stock_bot.Risk.Sizing.{floor_to_step, gross_exposure_after, projected_gross_exposure}
use stock_bot.Risk.Input.{RiskConfig, RiskInput, RiskAssessment}
use stock_bot.Risk.Engine.Gates.{reject, no_economics}
use stock_bot.Risk.Engine.Quantities.{Sized, Order, release_only, reverse_transition}

-- An order with the values that part 7 computes for it.
pub record Exposed (F : Type 0) : Type 0 where
  pub order : Order F
  pub open order use *
  pub proposed_value : F
  pub gross_after : F

module _ {F : Type 0} ⦃n : Float F⦄ where
  -- The projected quantity of a reversal.
  abbrev pub reversed : F → F → F
  reversed existing opening = if ltb (num 0) existing then neg opening else opening

module _ {F T : Type 0} ⦃n : Float F⦄ where
  unfoldable pub gross_for :
      RiskInput F T → Bool → Bool → Option (RiskPositionContext F) → Order F → Result F
  gross_for v true release (some p) o =
      projected_gross_exposure v.gross_exposure p.existing_quantity
        (reversed p.existing_quantity o.opening_quantity) v.candidate.entry_price
  gross_for v false true (some p) o =
      projected_gross_exposure v.gross_exposure p.existing_quantity p.projected_quantity
        v.candidate.entry_price
  gross_for v _ _ _ o = gross_exposure_after v.gross_exposure v.candidate.entry_price o.quantity

  -- The order's value and the gross exposure after it.
  unfoldable pub expose : RiskInput F T → Order F → Result (Exposed F)
  unfolding gross_for
  expose v o =
      Result.◌>>=◌ (gross_for v (reverse_transition v) (release_only v) v.position_context o)
        λ gross. ok (record {
          order = o;
          proposed_value =
              v.candidate.entry_price
              * (if reverse_transition v then o.opening_quantity else o.quantity);
          gross_after = gross;
        })

  -- The order cut down to `allowed`.
  unfoldable pub shrink : RiskInput F T → Sized F → Order F → F → Order F
  shrink v s o allowed =
      let opening = min o.opening_quantity allowed in
      let quantity = min o.quantity allowed in
      if reverse_transition v
      then record o {
        opening_quantity = opening;
        quantity = s.reverse_closing_quantity + opening;
        resized = elim s.requested_opening_quantity [ none ↦ false | some q ↦ ltb opening q ];
      }
      else record o { quantity = quantity; resized = ltb quantity o.requested_order_quantity }

  -- Only the gross exposure of the first branch of `shrink` looks at the transition again.
  regross : RiskInput F T → Bool → Option (RiskPositionContext F) → Order F → Result F
  regross v true (some p) o =
      projected_gross_exposure v.gross_exposure p.existing_quantity
        (reversed p.existing_quantity o.opening_quantity) v.candidate.entry_price
  regross v _ _ o = gross_exposure_after v.gross_exposure v.candidate.entry_price o.quantity

  unfoldable pub reexpose : RiskInput F T → Order F → Result (Exposed F)
  unfolding regross
  reexpose v o = Result.◌>>=◌ (regross v (reverse_transition v) v.position_context o) λ gross.
      ok (record {
        order = o;
        proposed_value =
            v.candidate.entry_price
            * (if reverse_transition v then o.opening_quantity else o.quantity);
        gross_after = gross;
      })

  abbrev pub exposure_limit : RiskConfig F → RiskInput F T → F
  exposure_limit c v = v.available_equity * c.max_gross_exposure

module _ {F T : Type 0} ⦃n : Float F⦄ ⦃t : Timestamp T⦄ where
  unfoldable pub over_limit :
      RiskConfig F → RiskInput F T → F → Sized F → Exposed F → Flow (RiskAssessment F T) (Exposed F)
  over_limit c v stop_distance s e =
      if not c.allow_resize
      then return (
          reject c v "Maximum gross exposure would be exceeded." max_gross_exposure (record {
            entry_price = some v.candidate.entry_price;
            stop_price = some v.candidate.stop_price;
            risk_budget = some s.sizing.risk_budget;
            stop_distance = some stop_distance;
            position_size = some e.quantity;
            requested_position_size = some s.requested_quantity;
            gross_exposure_after = some e.gross_after;
            gross_exposure_before = some v.gross_exposure;
            gross_exposure_limit = some (exposure_limit c v);
            proposed_value = some e.proposed_value;
          }))
      else (do
        let remaining = max (num 0) (exposure_limit c v - v.gross_exposure)
        allowed ← call (floor_to_step (remaining / v.candidate.entry_price) c.quantity_step)
        return_if (leb allowed (num 0))
            (reject c v "Maximum gross exposure would be exceeded." max_gross_exposure no_economics)
        call (reexpose v (shrink v s e.order allowed)))

  -- 7. Gross exposure.
  unfoldable pub exposure_gate :
      RiskConfig F → RiskInput F T → F → Sized F → Order F → Flow (RiskAssessment F T) (Exposed F)
  unfolding over_limit
  exposure_gate c v stop_distance s o = do
    e ← call (expose v o)
    (if ltb (exposure_limit c v + eps) e.gross_after
        then over_limit c v stop_distance s e
        else next e)

-- The mappings and the value that part 8 tests.
pub record Concentration (F : Type 0) : Type 0 where
  pub by_symbol : Dict F
  pub by_sector : Dict F
  pub proposed : F

module _ {F T : Type 0} ⦃n : Float F⦄ where
  abbrev pub without_symbol : RiskInput F T → F → Dict F
  without_symbol v current = elim v.sector [
    | none ↦ v.sector_exposure
    | some sector ↦
        if is_empty sector
        then v.sector_exposure
        else put sector (max (num 0) (get_or_zero sector v.sector_exposure - current))
            v.sector_exposure
  ]

  -- A release or a reversal replaces the symbol's contribution.
  unfoldable pub concentration : RiskInput F T → Exposed F → Concentration F
  concentration v e = elim v.position_context [
    | none ↦ record {
      by_symbol = v.symbol_exposure;
      by_sector = v.sector_exposure;
      proposed = e.proposed_value;
    }
    | some p ↦
        if release_only v || reverse_transition v
        then record {
          by_symbol = remove v.symbol v.symbol_exposure;
          by_sector = without_symbol v (abs p.existing_quantity * v.candidate.entry_price);
          proposed =
              if release_only v
              then abs p.projected_quantity * v.candidate.entry_price
              else e.opening_quantity * v.candidate.entry_price;
        }
        else record {
          by_symbol = v.symbol_exposure;
          by_sector = v.sector_exposure;
          proposed = e.proposed_value;
        }
  ]

module _ {F T : Type 0} ⦃n : Float F⦄ ⦃t : Timestamp T⦄ where
  -- 8. Concentration and correlation.
  unfoldable pub concentration_gate :
      RiskConfig F → RiskInput F T → Concentration F → Flow (RiskAssessment F T) (Unit {0})
  concentration_gate c v k = do
    return_if
        (not (
          check_symbol_exposure v.symbol k.proposed k.by_symbol c.max_symbol_exposure_fraction
            v.available_equity))
        (reject c v "Maximum symbol exposure would be exceeded." symbol_exposure_limit no_economics)
    return_if
        (not (
          check_sector_exposure v.sector k.proposed k.by_sector c.max_sector_exposure_fraction
            v.available_equity))
        (reject c v "Maximum sector exposure would be exceeded." sector_exposure_limit no_economics)
    return_if
        (not (
          correlation_exposure_allowed v.symbol k.proposed k.by_symbol v.pairwise_correlation
            v.available_equity c.minimum_abs_correlation c.max_correlated_exposure_fraction))
        (reject c v "Maximum correlated exposure would be exceeded." correlation_limit no_economics)
