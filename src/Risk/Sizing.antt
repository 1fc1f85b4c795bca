-- ===== src/Risk/Sizing.antt =====
-- Prices and quantities of trading/risk: position_sizing.py, stop_loss.py, target.py, volatility.py and
-- exposure.py.
use stock_bot.Base.{Option, none, some, Bool, false, not, ◌&&◌, ◌||◌, if◌then◌else◌}
use stock_bot.Base.Result.{Result, ok, err, value_error, overflow_error, raise_if, ◌>>=◌, ◌>>◌}
use stock_bot.Float.{Float, ◌+◌, ◌-◌, ◌*◌, ◌/◌, num, neg, abs, max, eps, leb, ltb, isfinite}
use stock_bot.Signals.{StrategyDirection, long, short, no_trade}

pub record PositionSizingResult (F : Type 0) : Type 0 where
  pub risk_budget : F
  pub stop_distance : F
  pub raw_quantity : F
  pub quantity : F

module _ {F : Type 0} ⦃n : Float F⦄ where
  open n use {floor}

  -- `not math.isfinite(x) or x <= 0`
  abbrev pub not_positive : F → Bool
  not_positive x = not (isfinite x) || leb x (num 0)

  -- `not math.isfinite(x) or x < 0`
  abbrev pub not_nonnegative : F → Bool
  not_nonnegative x = not (isfinite x) || ltb x (num 0)

  -- `not 0 < x <= 1`
  abbrev pub not_fraction : F → Bool
  not_fraction x = not (ltb (num 0) x && leb x (num 1))

  -- `math.floor` of an infinity or a NaN raises.
  unfoldable pub floor_to_step : F → F → Result F
  floor_to_step quantity step = do
    raise_if (not_nonnegative quantity) (value_error "quantity must be finite and non-negative")
    raise_if (not_positive step) (value_error "quantity step must be finite and positive")
    let ratio = (quantity + eps) / step
    raise_if (not (isfinite ratio)) (overflow_error "cannot convert float infinity to integer")
    ok (floor ratio * step)

  unfoldable pub calculate_position_size : F → F → F → F → Result (PositionSizingResult F)
  calculate_position_size available_equity risk_per_trade stop_distance quantity_step = do
    raise_if (not_positive available_equity)
        (value_error "available_equity must be positive and finite")
    raise_if (not (isfinite risk_per_trade) || not_fraction risk_per_trade)
        (value_error "risk_per_trade must be in (0, 1]")
    raise_if (not_positive stop_distance) (value_error "stop_distance must be positive and finite")
    let risk_budget = available_equity * risk_per_trade
    let raw_quantity = risk_budget / stop_distance
    quantity ← floor_to_step raw_quantity quantity_step
    ok (record {
      risk_budget = risk_budget;
      stop_distance = stop_distance;
      raw_quantity = raw_quantity;
      quantity = quantity;
    })

  stop_geometry : StrategyDirection → F → F → Result (Unit {0})
  stop_geometry long entry stop =
      raise_if (leb entry stop) (value_error "LONG stop must be below entry")
  stop_geometry short entry stop =
      raise_if (leb stop entry) (value_error "SHORT stop must be above entry")
  stop_geometry no_trade entry stop = err (value_error "Risk Engine requires LONG or SHORT")

  unfoldable pub validate_stop : StrategyDirection → F → F → Result F
  unfolding stop_geometry
  validate_stop direction entry stop = do
    raise_if (not_positive entry) (value_error "entry price must be positive and finite")
    raise_if (not_positive stop) (value_error "stop price must be positive and finite")
    stop_geometry direction entry stop
    let distance = abs (entry - stop)
    raise_if (leb distance (num 0) || not (isfinite distance))
        (value_error "stop distance must be positive and finite")
    ok distance

  target_at : StrategyDirection → F → F → Result F
  target_at long entry distance = ok (entry + distance)
  target_at short entry distance = ok (entry - distance)
  target_at no_trade entry distance = err (value_error "Risk Engine requires LONG or SHORT")

  unfoldable pub build_target : StrategyDirection → F → F → F → Result F
  unfolding target_at
  build_target direction entry stop_distance target_multiple_r = do
    raise_if (not_positive entry) (value_error "entry price must be positive and finite")
    raise_if (not_positive stop_distance) (value_error "stop distance must be positive and finite")
    raise_if (not_positive target_multiple_r)
        (value_error "target_multiple_r must be positive and finite")
    target ← target_at direction entry (stop_distance * target_multiple_r)
    raise_if (not_positive target) (value_error "target must be positive and finite")
    ok target

  -- the check of `atr` against its own bounds
  check_atr : Option F → Result (Unit {0})
  check_atr none = ok tt
  check_atr (some atr) =
      raise_if (not_nonnegative atr) (value_error "atr must be finite and non-negative")

  atr_blocks : F → Option F → Option F → Bool
  atr_blocks entry (some atr) (some fraction) = ltb fraction (atr / entry)
  atr_blocks entry _ _ = false

  unfoldable pub volatility_size_factor : F → Option F → Bool → F → Option F → Result F
  unfolding check_atr atr_blocks
  volatility_size_factor entry atr high_volatility factor max_atr_fraction = do
    raise_if (leb entry (num 0) || not (isfinite entry))
        (value_error "entry_price must be positive and finite")
    raise_if (not (isfinite factor) || not_fraction factor)
        (value_error "high_volatility_factor must be in (0, 1]")
    check_atr atr
    ok (
        if atr_blocks entry atr max_atr_fraction
        then num 0
        else if high_volatility
        then factor
        else num 1)

  unfoldable pub gross_exposure_after : F → F → F → Result F
  gross_exposure_after current entry quantity = do
    raise_if (not (isfinite current && isfinite entry && isfinite quantity))
        (value_error "exposure inputs must be finite")
    raise_if (ltb current (num 0)) (value_error "current gross exposure must be non-negative")
    raise_if (leb entry (num 0)) (value_error "entry price must be positive")
    raise_if (ltb quantity (num 0)) (value_error "quantity must be non-negative")
    ok (current + entry * quantity)

  unfoldable pub max_quantity_for_exposure : F → F → F → Result F
  unfolding floor_to_step
  max_quantity_for_exposure available entry step = do
    raise_if (not_nonnegative available)
        (value_error "available_exposure must be finite and non-negative")
    raise_if (not_positive entry) (value_error "entry_price must be positive and finite")
    raise_if (not_positive step) (value_error "quantity_step must be positive and finite")
    floor_to_step (available / entry) step

  -- The symbol's own contribution is replaced by the projected one.
  unfoldable pub projected_gross_exposure : F → F → F → F → Result F
  projected_gross_exposure current existing projected mark = do
    raise_if (not (isfinite current && isfinite existing && isfinite projected && isfinite mark))
        (value_error "projected exposure inputs must be finite")
    raise_if (ltb current (num 0)) (value_error "current gross exposure must be non-negative")
    raise_if (leb mark (num 0)) (value_error "mark price must be positive")
    let result = current - abs existing * mark + abs projected * mark
    raise_if (ltb result (neg eps)) (value_error "projected gross exposure cannot be negative")
    ok (max (num 0) result)
