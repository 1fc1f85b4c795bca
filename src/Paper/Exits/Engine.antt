-- ===== src/Paper/Exits/Engine.antt =====
-- The state of `PaperExitEngine` of trading/paper/exit_engine.py, and the decision to close a
-- position. The cutoff is given as its hour and minute.
use stock_bot.Base.{
  ℕ, ◌+◌, String, Bool, true, false, not, Option, none, some, List, [], ◌∷◌, ◌++◌, ◌||◌, ◌&&◌,
  nat_eq, if◌then◌else◌,
}
use stock_bot.Base as Nat
use stock_bot.Base.Dict.{Dict}
use stock_bot.Base.Result.{Result, ok, value_error, raise_if, ◌>>◌}
use stock_bot.Float.{Float, num, min, max, ltb, leb, ◌-◌, ◌*◌}
use stock_bot.Clock.{Timestamp, Calendar, zoned}
use stock_bot.Signals.{StrategyDirection}
use stock_bot.Paper.Runtime.Orders.{is_long}
use stock_bot.Paper.Outcome.{TradeOutcome}

pub data ExitReason : Type 0 where
  target stop_loss session_close max_holding_time signal_reversal risk_shutdown manual : ExitReason

pub record OpenPosition (F T : Type 0) : Type 0 where
  pub trade_id : String
  pub symbol : String
  pub direction : StrategyDirection
  pub entry_time : T
  pub fill_price : F
  pub requested_price : F
  pub quantity : F
  pub stop_price : F
  pub target_price : F
  pub entry_fees : F
  pub entry_slippage_cost : F
  pub strategy_version : String
  pub model_version : Option String
  pub risk_version : Option String
  pub regime : Option String
  pub mae : F
  pub mfe : F
  pub bars_held : ℕ

pub record ExitConfig (F : Type 0) : Type 0 where
  pub fee_bps : F
  pub slippage_bps : F
  pub max_holding_bars : ℕ
  pub session_cutoff_hour : ℕ
  pub session_cutoff_minute : ℕ

pub record Candle (F T : Type 0) : Type 0 where
  pub symbol : String
  pub timestamp : T
  pub high : F
  pub low : F
  pub close : F

pub record ExitEngine (F T : Type 0) : Type 0 where
  pub open_positions : Dict (OpenPosition F T)
  pub completed_outcomes : List (TradeOutcome F T)
  pub exit_reasons : Dict ExitReason

-- What a caller of `open_position` adds to the order.
pub record OpeningTerms (F : Type 0) : Type 0 where
  pub stop_price : F
  pub target_price : F
  pub trade_id : Option String
  pub strategy_version : String
  pub model_version : Option String
  pub risk_version : Option String
  pub regime : Option String

module _ {F : Type 0} ⦃n : Float F⦄ where
  -- the checks of `PaperExitEngine.__init__`
  unfoldable pub check_exit_config : ExitConfig F → Result (ExitConfig F)
  check_exit_config c = do
    raise_if (ltb c.fee_bps (num 0) || ltb c.slippage_bps (num 0))
        (value_error "fee_bps and slippage_bps must be non-negative")
    raise_if (nat_eq c.max_holding_bars 0) (value_error "max_holding_bars must be positive")
    ok c

module _ {F T : Type 0} ⦃n : Float F⦄ where
  -- `PaperPosition.__post_init__`
  unfoldable pub check_open_position :
      ⦃t : Timestamp T⦄ → OpenPosition F T → Result (OpenPosition F T)
  check_open_position p = do
    raise_if (not (zoned p.entry_time)) (value_error "entry_time must be timezone-aware")
    raise_if (leb p.fill_price (num 0) || leb p.requested_price (num 0))
        (value_error "prices must be positive")
    raise_if (leb p.quantity (num 0)) (value_error "quantity must be positive")
    raise_if (leb p.stop_price (num 0) || leb p.target_price (num 0))
        (value_error "stop and target prices must be positive")
    ok p

  favorable_move : OpenPosition F T → Candle F T → F
  favorable_move p c = if is_long p.direction then c.high - p.fill_price else p.fill_price - c.low

  adverse_move : OpenPosition F T → Candle F T → F
  adverse_move p c = if is_long p.direction then c.low - p.fill_price else p.fill_price - c.high

  -- the position after one more bar
  unfoldable pub marked : OpenPosition F T → Candle F T → OpenPosition F T
  unfolding favorable_move adverse_move
  marked p c = record p {
    bars_held = p.bars_held + 1;
    mfe = max p.mfe (favorable_move p c * p.quantity);
    mae = min p.mae (adverse_move p c * p.quantity);
  }

  unfoldable pub target_hit : OpenPosition F T → Candle F T → Bool
  target_hit p c =
      if is_long p.direction then leb p.target_price c.high else leb c.low p.target_price

  unfoldable pub stop_hit : OpenPosition F T → Candle F T → Bool
  stop_hit p c = if is_long p.direction then leb c.low p.stop_price else leb p.stop_price c.high

  -- the session cutoff, by the clock of the timestamp's own time zone
  unfoldable pub time_cutoff_hit : Calendar F T → ExitConfig F → Bool → T → Bool
  time_cutoff_hit calendar config force ts =
      force
      || Nat.ltb config.session_cutoff_hour (calendar.hour ts)
      || (nat_eq (calendar.hour ts) config.session_cutoff_hour
          && Nat.leb config.session_cutoff_minute (calendar.minute ts))

  -- the exit price and the reason, or nothing while the position stays open
  unfoldable pub exit_of :
      Calendar F T → ExitConfig F → Bool → OpenPosition F T → Candle F T → Option (F × ExitReason)
  unfolding target_hit stop_hit time_cutoff_hit
  exit_of calendar config force p c =
      if target_hit p c && stop_hit p c
      then some (p.stop_price, stop_loss)
      else if stop_hit p c
      then some (p.stop_price, stop_loss)
      else if target_hit p c
      then some (p.target_price, target)
      else if time_cutoff_hit calendar config force c.timestamp
      then some (c.close, session_close)
      else if Nat.leb config.max_holding_bars p.bars_held
      then some (c.close, max_holding_time)
      else none
