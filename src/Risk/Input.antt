-- ===== src/Risk/Input.antt =====
-- trading/risk/engine.py: the configuration, the decision-time input, and the assessment.
use stock_bot.Base.{when_some, String, Option, Bool, false, not, ◌&&◌, ◌||◌, [], ◌∷◌}
use stock_bot.Base.Text.{strip, upper, is_blank}
use stock_bot.Base.Dict.{Dict, put}
use stock_bot.Base.Int.{ℤ, pos, ltb_ℤ, leb_ℤ}
use stock_bot.Base.Result.{Result, ok, value_error, raise_if, ◌>>◌}
use stock_bot.Float.{Float, num, neg, leb, ltb, isfinite}
use stock_bot.Clock.{Timestamp, zoned}
use stock_bot.Signals.{TradeCandidate}
use stock_bot.Risk.Contracts.{RiskPositionContext}
use stock_bot.Risk.Limits.{KillSwitchState}
use stock_bot.Risk.Sizing.{not_fraction, not_positive, not_nonnegative}
use stock_bot.Risk.Decision.{RiskDecision}
use text.Mathlib.Text.{◌==◌}

pub record RiskConfig (F : Type 0) : Type 0 where
  pub risk_per_trade : F
  pub max_daily_loss : F
  pub max_trades_per_day : ℤ
  pub max_open_positions : ℤ
  pub max_gross_exposure : F
  pub target_multiple_r : F
  pub quantity_step : F
  pub risk_version : String
  pub max_symbol_exposure_fraction : Option F
  pub max_sector_exposure_fraction : Option F
  pub minimum_abs_correlation : Option F
  pub max_correlated_exposure_fraction : Option F
  pub high_volatility_factor : F
  pub max_atr_fraction : Option F
  pub max_drawdown_fraction : Option F
  pub allow_resize : Bool

pub record RiskInput (F T : Type 0) : Type 0 where
  pub timestamp : T
  pub symbol : String
  pub candidate : TradeCandidate F T
  pub available_equity : F
  pub day_start_equity : F
  pub available_cash : Option F
  pub peak_equity : Option F
  pub realized_pnl : F
  pub unrealized_pnl : F
  pub open_positions : ℤ
  pub trades_today : ℤ
  pub gross_exposure : F
  pub symbol_already_open : Bool
  pub position_context : Option (RiskPositionContext F)
  pub liquidity_available : Bool
  pub kill_switch_active : Bool
  pub sector : Option String
  pub symbol_exposure : Dict F
  pub sector_exposure : Dict F
  pub pairwise_correlation : Dict F
  pub atr : Option F
  pub high_volatility : Bool
  pub market_data_valid : Bool
  pub system_ready : Bool
  pub kill_switch_state : Option KillSwitchState

pub record RiskAssessment (F T : Type 0) : Type 0 where
  pub decision : RiskDecision F T
  pub entry_price : Option F
  pub stop_price : Option F
  pub target_price : Option F
  pub risk_budget : Option F
  pub stop_distance : Option F
  pub position_size : Option F
  pub requested_position_size : Option F
  pub gross_exposure_after : Option F
  pub gross_exposure_before : Option F
  pub gross_exposure_limit : Option F
  pub proposed_value : Option F
  pub daily_pnl : Option F
  pub volatility_factor : Option F
  pub closing_quantity : Option F
  pub opening_quantity : Option F
  pub opening_position_size : Option F
  pub requested_projected_quantity : Option F
  pub approved_projected_quantity : Option F

-- `{f(k): float(v) for k, v in d.items()}`: of two keys that become one, the later value stays.
unfoldable pub rekey {ℓ} : {V : Type ℓ} → (String → String) → Dict V → Dict V → Dict V
rekey f acc [] = acc
rekey f acc ((k, v) ∷ d) = rekey f (put (f k) v acc) d

-- `any(p(v) for v in d.values())`
unfoldable pub any_value {ℓ} : {V : Type ℓ} → (V → Bool) → Dict V → Bool
any_value p [] = false
any_value p ((_, v) ∷ d) = p v || any_value p d

module _ {F : Type 0} ⦃n : Float F⦄ where
  -- `RiskConfig.__post_init__`
  unfoldable pub check_config : RiskConfig F → Result (RiskConfig F)
  check_config c = do
    raise_if (not_fraction c.risk_per_trade) (value_error "risk_per_trade must be in (0, 1]")
    raise_if (not_fraction c.max_daily_loss) (value_error "max_daily_loss must be in (0, 1]")
    raise_if (leb_ℤ c.max_trades_per_day (pos 0))
        (value_error "max_trades_per_day must be positive")
    raise_if (leb_ℤ c.max_open_positions (pos 0))
        (value_error "max_open_positions must be positive")
    raise_if (not_fraction c.max_gross_exposure)
        (value_error "max_gross_exposure must be in (0, 1]")
    raise_if (leb c.target_multiple_r (num 0)) (value_error "target_multiple_r must be positive")
    raise_if (leb c.quantity_step (num 0)) (value_error "quantity_step must be positive")
    raise_if (is_blank c.risk_version) (value_error "risk_version must not be empty")
    raise_if (not_fraction c.high_volatility_factor)
        (value_error "high_volatility_factor must be in (0, 1]")
    raise_if (when_some c.max_symbol_exposure_fraction not_fraction)
        (value_error "max_symbol_exposure_fraction must be in (0, 1] when configured")
    raise_if (when_some c.max_sector_exposure_fraction not_fraction)
        (value_error "max_sector_exposure_fraction must be in (0, 1] when configured")
    raise_if (when_some c.max_correlated_exposure_fraction not_fraction)
        (value_error "max_correlated_exposure_fraction must be in (0, 1] when configured")
    raise_if (when_some c.max_atr_fraction not_fraction)
        (value_error "max_atr_fraction must be in (0, 1] when configured")
    raise_if (when_some c.max_drawdown_fraction not_fraction)
        (value_error "max_drawdown_fraction must be in (0, 1] when configured")
    raise_if (when_some c.minimum_abs_correlation λ x. not (leb (num 0) x && leb x (num 1)))
        (value_error "minimum_abs_correlation must be in [0, 1]")
    ok c

module _ {F T : Type 0} ⦃n : Float F⦄ ⦃t : Timestamp T⦄ where
  open t use {same}

  -- The mappings of `RiskInput`, normalised.
  abbrev normalized : RiskInput F T → RiskInput F T
  normalized v = record v {
    symbol = upper (strip v.symbol);
    symbol_exposure = rekey (λ k. upper (strip k)) [] v.symbol_exposure;
    sector_exposure = rekey strip [] v.sector_exposure;
    pairwise_correlation = rekey (λ k. upper (strip k)) [] v.pairwise_correlation;
  }

  -- The last checks of `__post_init__`, on the normalised mappings.
  check_mappings : RiskInput F T → Result (RiskInput F T)
  check_mappings v = do
    raise_if (any_value not_nonnegative v.symbol_exposure)
        (value_error "symbol_exposure values must be finite and non-negative")
    raise_if (any_value not_nonnegative v.sector_exposure)
        (value_error "sector_exposure values must be finite and non-negative")
    raise_if
        (any_value (λ x. not (isfinite x) || not (leb (neg (num 1)) x && leb x (num 1)))
          v.pairwise_correlation)
        (value_error "pairwise_correlation values must be finite and in [-1, 1]")
    ok v

  -- `RiskInput.__post_init__`
  unfoldable pub check_input : RiskInput F T → Result (RiskInput F T)
  unfolding check_mappings
  check_input v = do
    raise_if (not (zoned v.timestamp)) (value_error "risk input timestamp must be timezone-aware")
    raise_if (is_blank v.symbol) (value_error "risk input symbol must not be empty")
    raise_if (not (same v.timestamp v.candidate.timestamp))
        (value_error "risk timestamp must match candidate timestamp")
    raise_if (not (upper (strip v.symbol) == upper v.candidate.symbol))
        (value_error "risk symbol must match candidate symbol")
    raise_if (not (isfinite v.available_equity)) (value_error "available_equity must be finite")
    raise_if (not (isfinite v.day_start_equity)) (value_error "day_start_equity must be finite")
    raise_if (not (isfinite v.realized_pnl)) (value_error "realized_pnl must be finite")
    raise_if (not (isfinite v.unrealized_pnl)) (value_error "unrealized_pnl must be finite")
    raise_if (not (isfinite v.gross_exposure)) (value_error "gross_exposure must be finite")
    raise_if (leb v.available_equity (num 0)) (value_error "available_equity must be positive")
    raise_if (leb v.day_start_equity (num 0)) (value_error "day_start_equity must be positive")
    raise_if (when_some v.available_cash not_nonnegative)
        (value_error "available_cash must be finite and non-negative")
    raise_if (when_some v.peak_equity not_positive)
        (value_error "peak_equity must be positive and finite")
    raise_if (ltb v.gross_exposure (num 0)) (value_error "gross_exposure must be non-negative")
    raise_if (ltb_ℤ v.open_positions (pos 0)) (value_error "open_positions must be non-negative")
    raise_if (ltb_ℤ v.trades_today (pos 0)) (value_error "trades_today must be non-negative")
    raise_if (when_some v.atr not_nonnegative) (value_error "atr must be finite and non-negative")
    check_mappings (normalized v)
