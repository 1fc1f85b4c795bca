-- ===== src/Clock.antt =====
-- `pd.Timestamp` as the program uses it: whether it has a time zone, and equality.
use stock_bot.Base.{ℕ, Bool}

pub record Timestamp (T : Type 0) : Type 0 where
  -- `ts.tzinfo is not None`
  pub zoned : T → Bool
  pub same : T → T → Bool

module _ {T : Type 0} ⦃c : Timestamp T⦄ where
  abbrev pub zoned : T → Bool
  zoned = c.zoned

-- The parts of a timestamp, in its own time zone, and the order and the distance of two.
pub record Calendar (F T : Type 0) : Type 0 where
  pub earlier : T → T → Bool
  pub hour : T → ℕ
  pub minute : T → ℕ
  -- `(a - b).total_seconds()`
  pub seconds_between : T → T → F
