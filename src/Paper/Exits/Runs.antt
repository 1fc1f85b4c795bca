-- ===== src/Paper/Exits/Runs.antt =====
-- Any sequence of openings, candles and closures of the exit engine.
use stock_bot.Base.{
  ◌+◌, String, Bool, Option, List, [], ◌∷◌, ◌++◌, count, count-append, ap, ◌≡◌, arith, Option-cases,
  inl, inr,
}
use stock_bot.Base.Text.{strip, upper}
use stock_bot.Base.Dict.{get, IsDistinct, put-IsDistinct, tally, tally-put-new}
use stock_bot.Base.Result.{Result, ok, err, Result-cases}
use stock_bot.Float.{Float}
use stock_bot.Clock.{Timestamp, Calendar}
use stock_bot.Paper.Runtime.Orders.{PaperOrder}
use stock_bot.Paper.Exits.Engine.{
  ExitReason, OpenPosition, ExitConfig, Candle, ExitEngine, OpeningTerms,
}
use stock_bot.Paper.Exits.Opened.{Opened, of_order, of_position, of_outcome, position_of-same}
use stock_bot.Paper.Exits.Trades.{store_open, process_candle, close_all, open_position, position_of}
use stock_bot.Paper.Exits.Accounts.{IsKeyed, total, process_candle-Conserves}
use stock_bot.Paper.Exits.Closings.{close_all-Conserves}

pub data Event (F T : Type 0) : Type 0 where
  opening : PaperOrder F T → OpeningTerms F → Event F T
  candle : Candle F T → Bool → Event F T
  closing : (String → Option F) → T → ExitReason → Event F T

abbrev pub no_positions : {F T : Type 0} → ExitEngine F T
no_positions = record { open_positions = []; completed_outcomes = []; exit_reasons = [] }

module _ {F T : Type 0} ⦃n : Float F⦄ ⦃t : Timestamp T⦄ (calendar : Calendar F T)
    (config : ExitConfig F) (default_id : PaperOrder F T → String → String) where
  -- what an accepted opening of an order adds
  abbrev pub opened_by : PaperOrder F T → Result (OpenPosition F T) → List (Opened F T)
  opened_by o (ok _) = of_order o ∷ []
  opened_by o (err _) = []

  -- the positions that an event opens, and the engine after it
  unfoldable pub serve : Event F T → ExitEngine F T → List (Opened F T) × ExitEngine F T
  serve (opening o terms) e =
      let (r, e') = open_position default_id o terms e in (opened_by o r, e')
  serve (candle c force) e = ([], (process_candle calendar config c force e).1)
  serve (closing price_lookup ts reason) e =
      ([], (close_all calendar config price_lookup ts reason e).1)

  unfoldable pub run : List (Event F T) → ExitEngine F T → List (Opened F T) × ExitEngine F T
  run [] e = ([], e)
  run (ev ∷ evs) e =
      let (opened, e') = serve ev e in let (more, e'') = run evs e' in (opened ++ more, e'')

module _ {F T : Type 0} ⦃n : Float F⦄ ⦃t : Timestamp T⦄ (calendar : Calendar F T)
    (config : ExitConfig F) (default_id : PaperOrder F T → String → String)
    (test : Opened F T → Bool) where
  open_position-total :
      (o : PaperOrder F T) (terms : OpeningTerms F) (e : ExitEngine F T)
      → IsKeyed e
      → let (r, e') = open_position default_id o terms e in
        IsKeyed e'
        × (total test e' ≡ count test (opened_by calendar config default_id o r) + total test e)
  unfolding open_position store_open
  open_position-total o terms e h =
      let symbol = upper (strip o.symbol) in
      elim (Option-cases (get symbol e.open_positions)) [
        | inr (q, g) ↦ ground (arith, h, g)
        | inl g ↦ elim (Result-cases (position_of default_id o terms symbol)) [
          | inr (x, c) ↦ ground (arith, h, g, c)
          | inl (p, c) ↦ ground (
            arith,
            h,
            g,
            c,
            put-IsDistinct symbol p e.open_positions h,
            tally-put-new (λ x. test (of_position x)) symbol p e.open_positions g,
            ap test (position_of-same default_id o terms c),
          )
        ]
      ]

  serve-total :
      (ev : Event F T) (e : ExitEngine F T)
      → IsKeyed e
      → let (opened, e') = serve calendar config default_id ev e in
        IsKeyed e' × (total test e' ≡ count test opened + total test e)
  unfolding serve
  serve-total (opening o terms) e h = open_position-total o terms e h
  serve-total (candle c force) e h =
      let c = process_candle-Conserves calendar config test c force e h in
      (c.keyed, omega (arith, c.same_total))
  serve-total (closing price_lookup ts reason) e h =
      let c = close_all-Conserves calendar config test price_lookup ts reason e h in
      (c.keyed, omega (arith, c.same_total))

  run-total :
      (evs : List (Event F T)) (e : ExitEngine F T)
      → IsKeyed e
      → let (opened, e') = run calendar config default_id evs e in
        IsKeyed e' × (total test e' ≡ count test opened + total test e)
  unfolding run
  run-total [] e h = (h, omega arith)
  run-total (ev ∷ evs) e h =
      let (g, q) = serve-total ev e h in
      let (opened, e') = serve calendar config default_id ev e in
      let (g', q') = run-total evs e' g in
      (g', omega (arith, q, q', count-append test opened (run calendar config default_id evs e').0))

  -- Whatever orders, candles and closures come, accepted or refused, and in any order, the engine
  -- never has two open positions of a symbol, and the positions that were opened are exactly those
  -- still open and those with a recorded outcome: for every test of the symbol, the direction, the
  -- entry time and price and the quantity, as many of the accepted orders pass it as of the open
  -- positions and the outcomes together.
  pub run-outcomes :
      (evs : List (Event F T))
      → let (opened, e) = run calendar config default_id evs no_positions in
        IsDistinct e.open_positions
        × (tally (λ p. test (of_position p)) e.open_positions
              + count (λ o. test (of_outcome o)) e.completed_outcomes
            ≡ count test opened)
  run-outcomes evs = let (g, q) = run-total evs no_positions tt in (g, omega (arith, q))
