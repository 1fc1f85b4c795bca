-- ===== src/Paper/Runtime/Account.antt =====
-- The valuation of the paper account: `positions`, `account_snapshot` and `mark_to_market` of
-- paper/runtime.py.
use stock_bot.Base.{String, not, none, some, List, [], ◌∷◌, ◌||◌, keep, if◌then◌else◌}
use stock_bot.Base.Text.{upper}
use stock_bot.Base.Dict.{Dict, get, values}
use stock_bot.Base.Result.{Result, ok, err, value_error, raise_if, ◌>>=◌, ◌>>◌}
use stock_bot.Float.{Float, num, isfinite, ltb, leb, ◌+◌, ◌-◌, ◌*◌}
use stock_bot.Paper.Runtime.Orders.{PaperTradingConfig, PaperPosition, PaperAccount, is_long}
use Prim.Native.String

module _ {F : Type 0} ⦃n : Float F⦄ where
  -- what a position would realize at a price
  unfoldable pub unrealized_of : PaperPosition F → F → F
  unrealized_of p price =
      if is_long p.direction
      then (price - p.average_price) * p.quantity
      else (p.average_price - price) * p.quantity

  -- the loop of `account_snapshot`, onto the unrealized result and the gross exposure so far
  unfoldable pub marked : Dict F → List (PaperPosition F) → F → F → Result (F × F)
  unfolding unrealized_of
  marked prices [] unrealized gross = ok (unrealized, gross)
  marked prices (p ∷ ps) unrealized gross = elim (get (upper p.symbol) prices) [
    | none ↦
        err (value_error (String.◌++◌ "missing mark price for open position " (upper p.symbol)))
    | some price ↦
        raise_if (not (isfinite price) || leb price (num 0)) (
          value_error (
            String.◌++◌ "mark price for "
              (String.◌++◌ (upper p.symbol) " must be positive and finite")))
        >> marked prices ps (unrealized + unrealized_of p price) (gross + price * p.quantity)
  ]

module _ {F T : Type 0} ⦃n : Float F⦄ where
  -- `positions`
  unfoldable pub open_positions : PaperAccount F T → List (PaperPosition F)
  open_positions a = keep (λ p. ltb (num 0) p.quantity) (values a.positions)

  -- `account_snapshot`: equity, realized and unrealized result, gross exposure
  unfoldable pub account_snapshot :
      PaperTradingConfig F → Dict F → PaperAccount F T → Result (F × F × F × F)
  unfolding marked open_positions
  account_snapshot c prices a =
      marked prices (open_positions a) (num 0) (num 0) >>= λ (unrealized, gross).
      ok (c.initial_equity + a.realized_pnl + unrealized, a.realized_pnl, unrealized, gross)

  -- `mark_to_market`
  unfoldable pub mark_to_market : String → F → PaperAccount F T → Result F
  unfolding unrealized_of
  mark_to_market symbol price a = elim (get (upper symbol) a.positions) [
    | none ↦ ok (num 0)
    | some p ↦
        raise_if (not (isfinite price) || leb price (num 0))
          (value_error "mark price must be positive and finite")
        >> ok (p.realized_pnl + unrealized_of p price)
  ]
