-- ===== src/Paper/Outcome.antt =====
-- `TradeOutcome` of trading/paper/lifecycle.py.
use stock_bot.Base.{String, not, List, [], ◌∷◌, ◌||◌}
use stock_bot.Base.Result.{Result, ok, value_error, raise_if, ◌>>◌}
use stock_bot.Float.{Float, num, isfinite, ltb, leb}
use stock_bot.Clock.{Timestamp, Calendar, zoned}
use stock_bot.Signals.{StrategyDirection}
use Prim.Native.String

pub data TradeLifecycleStatus : Type 0 where
  open_trade closed_trade : TradeLifecycleStatus

pub record TradeOutcome (F T : Type 0) : Type 0 where
  pub symbol : String
  pub direction : StrategyDirection
  pub entry_time : T
  pub exit_time : T
  pub entry_price : F
  pub exit_price : F
  pub quantity : F
  pub gross_pnl : F
  pub fees : F
  pub slippage_cost : F
  pub net_pnl : F
  pub holding_minutes : F
  pub mae : F
  pub mfe : F
  pub status : TradeLifecycleStatus

module _ {F : Type 0} ⦃n : Float F⦄ where
  -- `for name, value in numeric_fields: if not math.isfinite(…): raise …`
  unfoldable pub require_finite : List (String × F) → Result (Unit {0})
  require_finite [] = ok tt
  require_finite ((name, value) ∷ rest) = do
    raise_if (not (isfinite value)) (value_error (String.◌++◌ name " must be finite"))
    require_finite rest

module _ {F T : Type 0} ⦃n : Float F⦄ ⦃t : Timestamp T⦄ (calendar : Calendar F T) where
  -- `TradeOutcome.__post_init__`
  unfoldable pub check_outcome : TradeOutcome F T → Result (TradeOutcome F T)
  check_outcome o = do
    raise_if (not (zoned o.entry_time) || not (zoned o.exit_time))
        (value_error "trade timestamps must be timezone-aware")
    raise_if (calendar.earlier o.exit_time o.entry_time)
        (value_error "exit_time must not precede entry_time")
    require_finite (
        ("entry_price", o.entry_price)
        ∷ ("exit_price", o.exit_price)
        ∷ ("quantity", o.quantity)
        ∷ ("gross_pnl", o.gross_pnl)
        ∷ ("fees", o.fees)
        ∷ ("slippage_cost", o.slippage_cost)
        ∷ ("net_pnl", o.net_pnl)
        ∷ ("holding_minutes", o.holding_minutes)
        ∷ ("mae", o.mae)
        ∷ ("mfe", o.mfe)
        ∷ [])
    raise_if (leb o.entry_price (num 0) || leb o.exit_price (num 0))
        (value_error "trade prices must be positive")
    raise_if (leb o.quantity (num 0)) (value_error "trade quantity must be positive")
    raise_if (ltb o.fees (num 0) || ltb o.slippage_cost (num 0))
        (value_error "fees and slippage_cost must be non-negative")
    raise_if (ltb (num 0) o.mae || ltb o.mfe (num 0))
        (value_error "MAE must be <= 0 and MFE must be >= 0")
    ok o
