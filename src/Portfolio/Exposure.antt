-- ===== src/Portfolio/Exposure.antt =====
-- portfolio/exposure.py: the portfolio after a trade, and the exposures of a snapshot.
use stock_bot.Base.{ℕ, String, Option, none, some, List, [], ◌∷◌, length, if◌then◌else◌, when_some}
use stock_bot.Base.Text.{strip, upper, is_empty, text_ltb}
use stock_bot.Base.Dict.{Dict, get, put, remove, values}
use stock_bot.Base.Result.{Result, ok, ◌>>=◌}
use stock_bot.Float.{Float, num, eps, ltb, abs, ◌+◌, ◌/◌}
use stock_bot.Clock.{Timestamp}
use stock_bot.Portfolio.Contracts.{
  PortfolioPosition, TradeIntent, PortfolioSnapshot, check_position, check_snapshot, exposure_from,
}
use stock_bot.Portfolio.Transition.{quantity_or_zero, delta_of}
use text.Mathlib.Text.{◌==◌}

module _ {F : Type 0} where
  -- `{position.symbol: position for position in …}`
  unfoldable pub by_symbol :
      Dict (PortfolioPosition F) → List (PortfolioPosition F) → Dict (PortfolioPosition F)
  by_symbol d [] = d
  by_symbol d (p ∷ ps) = by_symbol (put p.symbol p d) ps

  unfoldable pub insert_position :
      PortfolioPosition F → List (PortfolioPosition F) → List (PortfolioPosition F)
  insert_position p [] = p ∷ []
  insert_position p (q ∷ qs) =
      let rest = insert_position p qs in if text_ltb q.symbol p.symbol then q ∷ rest else p ∷ q ∷ qs

  -- `sorted(…, key=lambda position: position.symbol)`
  unfoldable pub sort_positions : List (PortfolioPosition F) → List (PortfolioPosition F)
  unfolding insert_position
  sort_positions [] = []
  sort_positions (p ∷ ps) = insert_position p (sort_positions ps)

  -- the sector of the new position: the intent's, or else the current one's
  abbrev pub sector_for : TradeIntent F → Option (PortfolioPosition F) → Option String
  sector_for i current = elim i.sector [
    | some s ↦ some s
    | none ↦ elim current [ none ↦ none | some p ↦ p.sector ]
  ]

  -- `position_count`
  abbrev pub position_count : {T : Type 0} → PortfolioSnapshot F T → ℕ
  position_count s = length s.positions

module _ {F : Type 0} ⦃n : Float F⦄ where
  -- the book of positions by symbol, after the trade
  unfoldable pub traded :
      TradeIntent F → Dict (PortfolioPosition F) → Result (Dict (PortfolioPosition F))
  unfolding check_position
  traded i book =
      let current = get i.symbol book in
      let new_quantity = quantity_or_zero current + delta_of i in
      if ltb (abs new_quantity) eps
      then ok (remove i.symbol book)
      else check_position (record {
        symbol = i.symbol;
        quantity = new_quantity;
        mark_price = i.price;
        sector = sector_for i current;
      })
        >>= λ p. ok (put i.symbol p book)

  unfoldable pub projected_positions :
      List (PortfolioPosition F) → TradeIntent F → Result (List (PortfolioPosition F))
  projected_positions positions i =
      traded i (by_symbol [] positions) >>= λ book. ok (sort_positions (values book))

  unfoldable pub projected_snapshot :
      {T : Type 0}
      → ⦃t : Timestamp T⦄ → PortfolioSnapshot F T
      → TradeIntent F
      → Result (PortfolioSnapshot F T)
  projected_snapshot s i =
      projected_positions s.positions i >>= λ ps. check_snapshot (record s { positions = ps })

  unfoldable pub sector_exposure_fraction : {T : Type 0} → PortfolioSnapshot F T → Option String → F
  sector_exposure_fraction s none = num 0
  sector_exposure_fraction s (some sector) =
      if is_empty sector
      then num 0
      else exposure_from (num 0) (λ p. when_some p.sector (λ x. x == strip sector)) s.positions
        / s.equity

  unfoldable pub symbol_exposure_fraction : {T : Type 0} → PortfolioSnapshot F T → String → F
  symbol_exposure_fraction s symbol =
      exposure_from (num 0) (λ p. p.symbol == upper (strip symbol)) s.positions / s.equity
