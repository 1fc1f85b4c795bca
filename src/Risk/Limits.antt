-- ===== src/Risk/Limits.antt =====
-- The hard and optional limits of trading/risk: daily_limits.py, concentration.py, correlation.py and
-- kill_switch.py.
use stock_bot.Base.{String, Option, none, some, [], ◌∷◌, Bool, true, false, ◌||◌, if◌then◌else◌}
use stock_bot.Base.Text.{upper, is_empty}
use stock_bot.Base.Dict.{Dict, get}
use stock_bot.Base.Int.{ℤ}
use stock_bot.Float.{Float, ◌+◌, ◌*◌, num, neg, abs, eps, leb}
use text.Mathlib.Text.{◌==◌}

pub record DailyRiskState (F : Type 0) : Type 0 where
  pub day_start_equity : F
  pub realized_pnl : F
  pub unrealized_pnl : F
  pub trades_today : ℤ
  pub open_positions : ℤ

pub record KillSwitchState : Type 0 where
  pub manual : Bool
  pub data_failure : Bool
  pub broker_failure : Bool
  pub abnormal_latency : Bool
  pub position_mismatch : Bool
  pub invalid_price : Bool
  pub duplicate_order : Bool
  pub connectivity_failure : Bool
  pub model_degradation : Bool

-- `KillSwitchState.active`
abbrev pub active : KillSwitchState → Bool
active s =
    s.manual || s.data_failure || s.broker_failure || s.abnormal_latency || s.position_mismatch
    || s.invalid_price || s.duplicate_order || s.connectivity_failure || s.model_degradation

module _ {F : Type 0} ⦃n : Float F⦄ where
  -- `dict.get(k, 0.0)`
  abbrev pub get_or_zero : String → Dict F → F
  get_or_zero k d = elim (get k d) [ none ↦ num 0 | some v ↦ v ]

  abbrev pub daily_pnl : DailyRiskState F → F
  daily_pnl s = s.realized_pnl + s.unrealized_pnl

  unfoldable pub daily_loss_limit_reached : DailyRiskState F → F → Bool
  daily_loss_limit_reached s max_daily_loss =
      leb (daily_pnl s) (neg (s.day_start_equity * max_daily_loss))

  -- `current + proposed <= equity * fraction + 1e-12`, and no check without a fraction
  abbrev within : Option F → F → F → F → Bool
  within none current proposed equity = true
  within (some fraction) current proposed equity =
      leb (current + proposed) (equity * fraction + eps)

  unfoldable pub check_symbol_exposure : String → F → Dict F → Option F → F → Bool
  check_symbol_exposure symbol proposed existing fraction equity =
      within fraction (get_or_zero (upper symbol) existing) proposed equity

  unfoldable pub check_sector_exposure : Option String → F → Dict F → Option F → F → Bool
  check_sector_exposure none proposed existing fraction equity = true
  check_sector_exposure (some sector) proposed existing fraction equity =
      if is_empty sector
      then true
      else within fraction (get_or_zero sector existing) proposed equity

  -- whether the position in `other` counts as correlated
  abbrev correlated : String → String → Dict F → F → Bool
  correlated symbol other correlations threshold =
      if upper other == upper symbol
      then false
      else elim (get (upper other) correlations) [ none ↦ false | some c ↦ leb threshold (abs c) ]

  -- the loop over `existing_by_symbol.items()`
  unfoldable pub correlated_value : String → Dict F → F → F → Dict F → F
  correlated_value symbol correlations threshold acc [] = acc
  correlated_value symbol correlations threshold acc ((other, exposure) ∷ rest) =
      correlated_value symbol correlations threshold
        (if correlated symbol other correlations threshold then acc + exposure else acc) rest

  unfoldable pub correlation_exposure_allowed :
      String → F → Dict F → Dict F → F → Option F → Option F → Bool
  unfolding correlated_value
  correlation_exposure_allowed symbol proposed existing correlations equity (some threshold)
        (some fraction) =
      within (some fraction) (correlated_value symbol correlations threshold (num 0) existing)
        proposed equity
  correlation_exposure_allowed symbol proposed existing correlations equity none _ = true
  correlation_exposure_allowed symbol proposed existing correlations equity (some _) none = true
