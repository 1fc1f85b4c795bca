-- ===== src/Signals.antt =====
-- The contracts between Strategy and Risk: `StrategyDirection` of trading/strategy/models.py, and
-- `CandidateDirection` and `TradeCandidate` of trading/signals/models.py.
use stock_bot.Base.{String, ◌||◌, not}
use stock_bot.Base.Text.{is_empty, is_blank}
use stock_bot.Base.Result.{Result, ok, value_error, raise_if, ◌>>◌}
use stock_bot.Float.{Float, num, leb}
use stock_bot.Clock.{Timestamp, zoned}

pub data StrategyDirection : Type 0 where
  long short no_trade : StrategyDirection

pub data CandidateDirection : Type 0 where
  long short : CandidateDirection

pub record TradeCandidate (F T : Type 0) : Type 0 where
  pub timestamp : T
  pub symbol : String
  pub direction : CandidateDirection
  pub entry_price : F
  pub stop_price : F
  pub policy_version : String

module _ {F : Type 0} ⦃n : Float F⦄ where
  stop_side : CandidateDirection → F → F → Result (Unit {0})
  stop_side CandidateDirection.long entry stop =
      raise_if (leb entry stop) (value_error "LONG stop_price must be below entry_price")
  stop_side CandidateDirection.short entry stop =
      raise_if (leb stop entry) (value_error "SHORT stop_price must be above entry_price")

module _ {F T : Type 0} ⦃n : Float F⦄ ⦃t : Timestamp T⦄ where
  -- `TradeCandidate.__post_init__`
  unfoldable pub check_candidate : TradeCandidate F T → Result (TradeCandidate F T)
  unfolding stop_side
  check_candidate c = do
    raise_if (not (zoned c.timestamp)) (value_error "timestamp must be timezone-aware")
    raise_if (is_empty c.symbol || is_blank c.symbol) (value_error "symbol must not be empty")
    raise_if (leb c.entry_price (num 0)) (value_error "entry_price must be positive")
    raise_if (leb c.stop_price (num 0)) (value_error "stop_price must be positive")
    raise_if (is_empty c.policy_version) (value_error "policy_version must not be empty")
    stop_side c.direction c.entry_price c.stop_price
    ok c
