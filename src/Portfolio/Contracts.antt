-- ===== src/Portfolio/Contracts.antt =====
-- portfolio/contracts.py: positions, intents, limits, snapshots and decisions.
use stock_bot.Base.{
  ℕ, String, Bool, true, false, not, Option, none, some, List, [], ◌∷◌, ◌||◌, nat_eq, when_some,
  if◌then◌else◌,
}
use stock_bot.Base.Text.{strip, upper, is_empty, contains}
use stock_bot.Base.Result.{Result, ok, value_error, raise_if, ◌>>◌}
use stock_bot.Float.{Float, num, isfinite, ltb, leb, abs, ◌+◌, ◌*◌, ◌/◌}
use stock_bot.Clock.{Timestamp, zoned}

pub data PositionTransition : Type 0 where
  open_position increase reduce flatten reverse : PositionTransition

pub data PortfolioAction : Type 0 where
  approve reject : PortfolioAction

pub record PortfolioPosition (F : Type 0) : Type 0 where
  pub symbol : String
  pub quantity : F
  pub mark_price : F
  pub sector : Option String

pub record TradeIntent (F : Type 0) : Type 0 where
  pub symbol : String
  pub quantity : F
  pub price : F
  pub side : String
  pub sector : Option String
  pub decision_id : String

pub record PortfolioLimits (F : Type 0) : Type 0 where
  pub max_positions : Option ℕ
  pub max_gross_exposure_fraction : Option F
  pub max_symbol_exposure_fraction : Option F
  pub max_sector_exposure_fraction : Option F

pub record PortfolioSnapshot (F T : Type 0) : Type 0 where
  pub as_of : T
  pub equity : F
  pub positions : List (PortfolioPosition F)

pub record PortfolioDecision (F : Type 0) : Type 0 where
  pub action : PortfolioAction
  pub symbol : String
  pub decision_id : String
  pub reason_code : String
  pub reason : String
  pub current_gross_exposure_fraction : F
  pub projected_gross_exposure_fraction : F
  pub projected_position_count : ℕ
  pub position_transition : PositionTransition

-- `self.sector.strip() if self.sector else None`
abbrev pub clean_sector : Option String → Option String
clean_sector none = none
clean_sector (some s) = if is_empty s then none else some (strip s)

-- the symbols of two positions are the same
unfoldable pub has_duplicates : List String → Bool
has_duplicates [] = false
has_duplicates (s ∷ rest) = contains s rest || has_duplicates rest

module _ {F : Type 0} where
  abbrev pub symbols_of : List (PortfolioPosition F) → List String
  symbols_of [] = []
  symbols_of (p ∷ ps) = p.symbol ∷ symbols_of ps

module _ {F : Type 0} ⦃n : Float F⦄ where
  -- `PortfolioPosition.__post_init__`
  unfoldable pub check_position : PortfolioPosition F → Result (PortfolioPosition F)
  check_position p = do
    raise_if (is_empty (upper (strip p.symbol))) (value_error "symbol must not be empty")
    raise_if (not (isfinite p.quantity)) (value_error "quantity must be finite")
    raise_if (not (isfinite p.mark_price) || leb p.mark_price (num 0))
        (value_error "mark_price must be finite and positive")
    ok (record p { symbol = upper (strip p.symbol); sector = clean_sector p.sector })

  -- `market_value`
  abbrev pub market_value : PortfolioPosition F → F
  market_value p = p.quantity * p.mark_price

  -- `TradeIntent.__post_init__`
  unfoldable pub check_intent : TradeIntent F → Result (TradeIntent F)
  check_intent i = do
    raise_if (is_empty (upper (strip i.symbol))) (value_error "symbol must not be empty")
    raise_if (not (isfinite i.quantity) || leb i.quantity (num 0))
        (value_error "quantity must be finite and positive")
    raise_if (not (isfinite i.price) || leb i.price (num 0))
        (value_error "price must be finite and positive")
    raise_if (not (contains (upper (strip i.side)) ("BUY" ∷ "SELL" ∷ [])))
        (value_error "side must be BUY or SELL")
    ok (record i {
      symbol = upper (strip i.symbol);
      side = upper (strip i.side);
      sector = clean_sector i.sector;
    })

  -- a fraction that is given lies outside (0, 1]
  abbrev pub bad_fraction : Option F → Bool
  bad_fraction f = when_some f (λ x. not (isfinite x) || (leb x (num 0) || ltb (num 1) x))

  -- `PortfolioLimits.__post_init__`
  unfoldable pub check_limits : PortfolioLimits F → Result (PortfolioLimits F)
  check_limits l = do
    raise_if (when_some l.max_positions (λ m. nat_eq m 0))
        (value_error "max_positions must be positive")
    raise_if (bad_fraction l.max_gross_exposure_fraction)
        (value_error "max_gross_exposure_fraction must be in (0, 1]")
    raise_if (bad_fraction l.max_symbol_exposure_fraction)
        (value_error "max_symbol_exposure_fraction must be in (0, 1]")
    raise_if (bad_fraction l.max_sector_exposure_fraction)
        (value_error "max_sector_exposure_fraction must be in (0, 1]")
    ok l

  -- `PortfolioSnapshot.__post_init__`
  unfoldable pub check_snapshot :
      {T : Type 0} → ⦃t : Timestamp T⦄ → PortfolioSnapshot F T → Result (PortfolioSnapshot F T)
  check_snapshot s = do
    raise_if (not (zoned s.as_of)) (value_error "as_of must be timezone-aware")
    raise_if (not (isfinite s.equity) || leb s.equity (num 0))
        (value_error "equity must be finite and positive")
    raise_if (has_duplicates (symbols_of s.positions))
        (value_error "PortfolioSnapshot cannot contain duplicate symbols")
    ok s

  -- `sum(abs(position.market_value) for position in … if …)`, onto a start value
  unfoldable pub exposure_from : F → (PortfolioPosition F → Bool) → List (PortfolioPosition F) → F
  exposure_from total p [] = total
  exposure_from total p (x ∷ xs) =
      exposure_from (if p x then total + abs (market_value x) else total) p xs

  -- `gross_exposure_fraction`
  unfoldable pub gross_exposure_fraction : {T : Type 0} → PortfolioSnapshot F T → F
  unfolding exposure_from
  gross_exposure_fraction s = exposure_from (num 0) (λ _. true) s.positions / s.equity
