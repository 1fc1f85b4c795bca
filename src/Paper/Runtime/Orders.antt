-- ===== src/Paper/Runtime/Orders.antt =====
-- paper/runtime.py: `PaperTradingConfig`, `PaperOrder`, `PaperPosition` and their checks.
use stock_bot.Base.{String, Bool, true, false, not, List, ◌||◌, ◌&&◌}
use stock_bot.Base.Text.{is_blank}
use stock_bot.Base.Dict.{Dict}
use stock_bot.Base.Result.{Result, ok, value_error, raise_if, ◌>>◌}
use stock_bot.Float.{Float, num, isfinite, ltb, leb}
use stock_bot.Clock.{Timestamp, zoned}
use stock_bot.Signals.{StrategyDirection}

pub data PaperOrderStatus : Type 0 where
  filled rejected : PaperOrderStatus

pub record PaperTradingConfig (F : Type 0) : Type 0 where
  pub slippage_bps : F
  pub fee_bps : F
  pub initial_equity : F

pub record PaperOrder (F T : Type 0) : Type 0 where
  pub timestamp : T
  pub symbol : String
  pub direction : StrategyDirection
  pub requested_price : F
  pub fill_price : F
  pub quantity : F
  pub status : PaperOrderStatus
  pub fees : F
  pub slippage_cost : F
  pub reason : String

pub record PaperPosition (F : Type 0) : Type 0 where
  pub symbol : String
  pub direction : StrategyDirection
  pub quantity : F
  pub average_price : F
  pub realized_pnl : F

-- `PaperTradingRuntime`
pub record PaperAccount (F T : Type 0) : Type 0 where
  pub positions : Dict (PaperPosition F)
  pub journal : List (PaperOrder F T)
  pub realized_pnl : F

abbrev pub is_long : StrategyDirection → Bool
is_long StrategyDirection.long = true
is_long _ = false

abbrev is_no_trade : StrategyDirection → Bool
is_no_trade StrategyDirection.no_trade = true
is_no_trade _ = false

module _ {F : Type 0} ⦃n : Float F⦄ where
  -- `PaperTradingConfig.__post_init__`
  unfoldable pub check_config : PaperTradingConfig F → Result (PaperTradingConfig F)
  check_config c = do
    raise_if (not (isfinite c.slippage_bps)) (value_error "slippage_bps must be finite")
    raise_if (not (isfinite c.fee_bps)) (value_error "fee_bps must be finite")
    raise_if (not (isfinite c.initial_equity)) (value_error "initial_equity must be finite")
    raise_if (ltb c.slippage_bps (num 0) || ltb c.fee_bps (num 0))
        (value_error "slippage_bps and fee_bps must be non-negative")
    raise_if (leb c.initial_equity (num 0)) (value_error "initial_equity must be positive")
    ok c

  -- `PaperPosition.__post_init__`
  unfoldable pub check_paper_position : PaperPosition F → Result (PaperPosition F)
  check_paper_position p = do
    raise_if (is_blank p.symbol) (value_error "paper position symbol must not be empty")
    raise_if (is_no_trade p.direction) (value_error "paper position direction cannot be NO_TRADE")
    raise_if (not (isfinite p.quantity) || ltb p.quantity (num 0))
        (value_error "position quantity must be finite and non-negative")
    raise_if (not (isfinite p.average_price) || ltb p.average_price (num 0))
        (value_error "average_price must be finite and non-negative")
    raise_if (not (isfinite p.realized_pnl)) (value_error "realized_pnl must be finite")
    raise_if (ltb (num 0) p.quantity && leb p.average_price (num 0))
        (value_error "average_price must be positive for open positions")
    ok p

  -- `PaperOrder.__post_init__`
  unfoldable pub check_paper_order :
      {T : Type 0} → ⦃t : Timestamp T⦄ → PaperOrder F T → Result (PaperOrder F T)
  check_paper_order o = do
    raise_if (not (zoned o.timestamp)) (value_error "paper order timestamp must be timezone-aware")
    raise_if (is_blank o.symbol) (value_error "paper order symbol must not be empty")
    raise_if (not (isfinite o.quantity) || leb o.quantity (num 0))
        (value_error "quantity must be positive and finite")
    raise_if
        (not (isfinite o.requested_price)
          || (not (isfinite o.fill_price)
              || (leb o.requested_price (num 0) || leb o.fill_price (num 0))))
        (value_error "prices must be positive and finite")
    raise_if (not (isfinite o.fees) || ltb o.fees (num 0))
        (value_error "fees must be finite and non-negative")
    raise_if (not (isfinite o.slippage_cost) || ltb o.slippage_cost (num 0))
        (value_error "slippage_cost must be finite and non-negative")
    ok o
