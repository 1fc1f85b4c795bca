-- ===== src/Portfolio/Within.antt =====
-- What an approval of the portfolio manager means, and what its classification of a trade means.
use mathlib.Core.Path.{subst}
use stock_bot.Base.{
  ℕ, ◌≤◌, String, false, Option, none, some, ◌≡◌, ◌↔◌, length, arith, inl, inr, sym,
}
use stock_bot.Base.Text.{is_empty}
use stock_bot.Base.Result.{ok, Result-cases}
use stock_bot.Float.{Float, eps, ◌+◌}
use stock_bot.Float as Num
use stock_bot.Clock.{Timestamp}
use stock_bot.Portfolio.Contracts.{
  PositionTransition, approve, TradeIntent, PortfolioLimits, PortfolioSnapshot, PortfolioDecision,
  gross_exposure_fraction,
}
use stock_bot.Portfolio.Transition.{classify_position_transition}
use stock_bot.Portfolio.Exposure.{
  projected_snapshot, sector_exposure_fraction, symbol_exposure_fraction,
}
use stock_bot.Portfolio.Manager.{
  Digits, evaluate, checked_sector, first_failure, checks_of, decision_of, position_for, exceeds,
  check_position_count, check_gross_exposure, check_symbol_exposure, check_sector_exposure,
}

abbrev IsCountBelow : ℕ → Option ℕ → Type 0
IsCountBelow k none = Unit
IsCountBelow k (some limit) = k ≤ limit

-- an exposure is at most its limit and the tolerance, where there is a limit
abbrev IsBelow : {F : Type 0} → ⦃n : Float F⦄ → F → Option F → Type 0
IsBelow x none = Unit
IsBelow x (some limit) = Num.ltb (limit + eps) x ≡ false

module _ {F T : Type 0} ⦃n : Float F⦄ where
  abbrev IsSectorBelow : PortfolioSnapshot F T → Option String → Option F → Type 0
  IsSectorBelow s none limit = Unit
  IsSectorBelow s (some sector) limit =
      is_empty sector ≡ false → IsBelow (sector_exposure_fraction s (some sector)) limit

  -- the snapshot keeps the limits for the symbol of the intent and the sector that is checked
  pub record IsWithin (l : PortfolioLimits F) (s : PortfolioSnapshot F T) (i : TradeIntent F)
      : Type 0 where
    positions_below : IsCountBelow (length s.positions) l.max_positions
    gross_below : IsBelow (gross_exposure_fraction s) l.max_gross_exposure_fraction
    symbol_below : IsBelow (symbol_exposure_fraction s i.symbol) l.max_symbol_exposure_fraction
    sector_below : IsSectorBelow s (checked_sector i s) l.max_sector_exposure_fraction

  module _ (digits : Digits F) where
    passes-IsWithin :
        (l : PortfolioLimits F) (s : PortfolioSnapshot F T) (i : TradeIntent F)
        → first_failure (checks_of digits l s i) ≡ none
        → IsWithin l s i
    unfolding first_failure checks_of check_position_count check_gross_exposure
        check_symbol_exposure check_sector_exposure exceeds
    passes-IsWithin l s i h = record {
      positions_below = ground (arith, h);
      gross_below = ground (arith, h);
      symbol_below = ground (arith, h);
      sector_below = ground (arith, h);
    }

    IsWithin-passes :
        (l : PortfolioLimits F) (s : PortfolioSnapshot F T) (i : TradeIntent F)
        → IsWithin l s i
        → first_failure (checks_of digits l s i) ≡ none
    unfolding first_failure checks_of check_position_count check_gross_exposure
        check_symbol_exposure check_sector_exposure exceeds
    IsWithin-passes l s i w =
        ground (arith, w.positions_below, w.gross_below, w.symbol_below, w.sector_below)

module _ {F T : Type 0} ⦃n : Float F⦄ ⦃t : Timestamp T⦄ (digits : Digits F) where
  decision-approve :
      (s p : PortfolioSnapshot F T) (i : TradeIntent F) (q : PositionTransition)
      (failure : Option (String × String))
      → ((decision_of s p i q failure).action ≡ approve) ↔ (failure ≡ none)
  unfolding decision_of
  decision-approve s p i q none = ground arith
  decision-approve s p i q (some why) = ground arith

  evaluate-decision :
      (l : PortfolioLimits F) (s : PortfolioSnapshot F T) (i : TradeIntent F)
      {p : PortfolioSnapshot F T} {d : PortfolioDecision F}
      → projected_snapshot s i ≡ ok p
      → evaluate digits l s i ≡ ok d
      → (q : PositionTransition) × (d
          ≡ decision_of s p i q (first_failure (checks_of digits l p i)))
  unfolding evaluate
  evaluate-decision l s i h g =
      elim (Result-cases (classify_position_transition (position_for i.symbol s.positions) i)) [
        | inl (r, c) ↦ (r.transition, ground (arith, h, g, c))
        | inr (e, c) ↦ ground (arith, h, g, c)
      ]

  -- When the portfolio manager decides on an intent, it approves exactly when the portfolio after
  -- the trade keeps those of four limits that are set: on the number of positions and, up to the
  -- tolerance, on the gross exposure, on the exposure of the traded symbol, and on that of its
  -- sector. The last is asked for only where the intent, or else the projected position, names a
  -- sector that is not empty; other symbols and sectors are not looked at.
  pub evaluate-IsWithin :
      (l : PortfolioLimits F) (s : PortfolioSnapshot F T) (i : TradeIntent F)
      {p : PortfolioSnapshot F T} {d : PortfolioDecision F}
      → projected_snapshot s i ≡ ok p
      → evaluate digits l s i ≡ ok d
      → (d.action ≡ approve) ↔ IsWithin l p i
  evaluate-IsWithin l s i {p} h g =
      let (q, e) = evaluate-decision l s i h g in
      let (to, from) = decision-approve s p i q (first_failure (checks_of digits l p i)) in
      (
        λ a. passes-IsWithin digits l p i (to (subst (λ d. d.action ≡ approve) e a)),
        λ w. subst (λ d. d.action ≡ approve) (sym e) (from (IsWithin-passes digits l p i w)),
      )
