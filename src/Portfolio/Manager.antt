-- ===== src/Portfolio/Manager.antt =====
-- portfolio/manager.py: the evaluation of an intent against the limits. The formatting of numbers
-- comes from outside; the decision's digest is left out.
use stock_bot.Base.{ℕ, String, Option, none, some, List, [], ◌∷◌, ltb, if◌then◌else◌}
use stock_bot.Base.Text.{is_empty}
use stock_bot.Base.Result.{Result, ok, ◌>>=◌}
use stock_bot.Float.{Float, eps, ◌+◌}
use stock_bot.Float as Num
use stock_bot.Clock.{Timestamp}
use stock_bot.Portfolio.Contracts.{
  PortfolioAction, approve, reject, PositionTransition, PortfolioPosition, TradeIntent,
  PortfolioLimits, PortfolioSnapshot, PortfolioDecision, gross_exposure_fraction,
}
use stock_bot.Portfolio.Transition.{classify_position_transition}
use stock_bot.Portfolio.Exposure.{
  projected_snapshot, sector_exposure_fraction, symbol_exposure_fraction, position_count,
}
use text.Mathlib.Text.{◌==◌}
use Prim.Native.String.{◌++◌}

-- `f"{count}"` and `f"{x:.6f}"`
pub record Digits (F : Type 0) : Type 0 where
  pub count_text : ℕ → String
  pub six_digits : F → String

-- A reason code and its text; no code means that the check is passed.
abbrev pub Check : Type 0
Check = Option String × String

abbrev pub passed : Check
passed = (none, "")

module _ {F : Type 0} where
  -- `next((p for p in positions if p.symbol == symbol), None)`
  unfoldable pub position_for : String → List (PortfolioPosition F) → Option (PortfolioPosition F)
  position_for symbol [] = none
  position_for symbol (p ∷ ps) = if p.symbol == symbol then some p else position_for symbol ps

  -- the sector that the sector check looks at
  unfoldable pub checked_sector :
      {T : Type 0} → TradeIntent F → PortfolioSnapshot F T → Option String
  unfolding position_for
  checked_sector i projected = elim i.sector [
    | some s ↦ some s
    | none ↦ elim (position_for i.symbol projected.positions) [ none ↦ none | some p ↦ p.sector ]
  ]

-- the loop over the checks: the first reason code that is given
unfoldable pub first_failure : List Check → Option (String × String)
first_failure [] = none
first_failure ((none, _) ∷ rest) = first_failure rest
first_failure ((some code, reason) ∷ rest) =
    if is_empty code then first_failure rest else some (code, reason)

module _ {F : Type 0} (digits : Digits F) where
  unfoldable pub check_position_count : PortfolioLimits F → ℕ → Check
  check_position_count l projected = elim l.max_positions [
    | none ↦ passed
    | some limit ↦
        if ltb limit projected
        then (
          some "MAX_POSITIONS",
          "Projected position count "
              ++ digits.count_text projected
              ++ " exceeds limit "
              ++ digits.count_text limit
              ++ ".",
        )
        else passed
  ]

module _ {F : Type 0} ⦃n : Float F⦄ (digits : Digits F) where
  -- a fraction above its limit by more than the tolerance
  unfoldable pub exceeds : String → String → F → Option F → Check
  exceeds code name exposure none = passed
  exceeds code name exposure (some limit) =
      if Num.ltb (limit + eps) exposure
      then (
        some code,
        "Projected "
            ++ name
            ++ " exposure "
            ++ digits.six_digits exposure
            ++ " exceeds limit "
            ++ digits.six_digits limit
            ++ ".",
      )
      else passed

module _ {F T : Type 0} ⦃n : Float F⦄ where
  -- `_decision`
  unfoldable pub decision_of :
      PortfolioSnapshot F T
      → PortfolioSnapshot F T
      → TradeIntent F
      → PositionTransition
      → Option (String × String)
      → PortfolioDecision F
  decision_of s projected i transition failure =
      let (action, (code, reason)) = elim failure as (λ _. PortfolioAction × (String × String)) [
        | none ↦ (approve, ("PORTFOLIO_OK", "Portfolio-level constraints passed."))
        | some why ↦ (reject, why)
      ] in
      record {
        action = action;
        symbol = i.symbol;
        decision_id = i.decision_id;
        reason_code = code;
        reason = reason;
        current_gross_exposure_fraction = gross_exposure_fraction s;
        projected_gross_exposure_fraction = gross_exposure_fraction projected;
        projected_position_count = position_count projected;
        position_transition = transition;
      }

module _ {F T : Type 0} ⦃n : Float F⦄ (digits : Digits F) where
  unfoldable pub check_gross_exposure : PortfolioLimits F → PortfolioSnapshot F T → Check
  unfolding exceeds
  check_gross_exposure l projected =
      exceeds digits "MAX_GROSS_EXPOSURE" "gross" (gross_exposure_fraction projected)
        l.max_gross_exposure_fraction

  unfoldable pub check_symbol_exposure : PortfolioLimits F → PortfolioSnapshot F T → String → Check
  unfolding exceeds
  check_symbol_exposure l projected symbol =
      exceeds digits "MAX_SYMBOL_EXPOSURE" "symbol" (symbol_exposure_fraction projected symbol)
        l.max_symbol_exposure_fraction

  unfoldable pub check_sector_exposure :
      PortfolioLimits F → PortfolioSnapshot F T → Option String → Check
  unfolding exceeds
  check_sector_exposure l projected none = passed
  check_sector_exposure l projected (some sector) =
      if is_empty sector
      then passed
      else exceeds digits "MAX_SECTOR_EXPOSURE" "sector"
          (sector_exposure_fraction projected (some sector)) l.max_sector_exposure_fraction

  unfoldable pub checks_of : PortfolioLimits F → PortfolioSnapshot F T → TradeIntent F → List Check
  checks_of l projected i =
      check_position_count digits l (position_count projected)
      ∷ check_gross_exposure l projected
      ∷ check_symbol_exposure l projected i.symbol
      ∷ check_sector_exposure l projected (checked_sector i projected)
      ∷ []

module _ {F T : Type 0} ⦃n : Float F⦄ ⦃t : Timestamp T⦄ (digits : Digits F) where
  -- `PortfolioManager.evaluate`
  unfoldable pub evaluate :
      PortfolioLimits F → PortfolioSnapshot F T → TradeIntent F → Result (PortfolioDecision F)
  evaluate l s i = projected_snapshot s i >>= λ projected.
      classify_position_transition (position_for i.symbol s.positions) i >>= λ r.
      ok (decision_of s projected i r.transition (first_failure (checks_of digits l projected i)))
