-- ===== src/Paper/Exits/Closings.antt =====
-- The closure of all paper positions at once.
use mathlib.Core.Path.{subst}
use stock_bot.Base.{
  String, Bool, Option, none, some, [], ◌∷◌, ◌≡◌, arith, refl, sym, eq_iff, inl, inr,
}
use stock_bot.Base.Dict.{Dict, get, remove, IsDistinct, remove-absent}
use stock_bot.Base.Result.{Error, ok, err, Result-cases}
use stock_bot.Float.{Float}
use stock_bot.Clock.{Timestamp, Calendar}
use stock_bot.Paper.Outcome.{TradeOutcome}
use stock_bot.Paper.Exits.Engine.{ExitReason, OpenPosition, ExitConfig, ExitEngine}
use stock_bot.Paper.Exits.Opened.{Opened}
use stock_bot.Paper.Exits.Trades.{record_close, close_at, close_each, close_all, price_or}
use stock_bot.Paper.Exits.Accounts.{
  Conserves, IsKeyed, kept, trans, close_at-cases, record_close-Conserves,
}

module _ {F T : Type 0} where
  rest_of :
      (symbol trade_id : String) (p : OpenPosition F T) (o : TradeOutcome F T) (reason : ExitReason)
      (e : ExitEngine F T) (rest : Dict (OpenPosition F T))
      → e.open_positions ≡ (symbol, p) ∷ rest
      → get symbol rest ≡ none
      → (record_close symbol trade_id o reason e).open_positions ≡ rest
  unfolding record_close remove
  rest_of symbol trade_id p o reason e rest q h =
      rw q (ground (arith, eq_iff symbol symbol, remove-absent symbol rest h))

  first_of :
      (symbol : String) (p : OpenPosition F T) (e : ExitEngine F T) (rest : Dict (OpenPosition F T))
      → e.open_positions ≡ (symbol, p) ∷ rest
      → get symbol e.open_positions ≡ some p
  unfolding get
  first_of symbol p e rest q = rw q (ground (arith, eq_iff symbol symbol))

module _ {F T : Type 0} ⦃n : Float F⦄ ⦃t : Timestamp T⦄ (calendar : Calendar F T)
    (config : ExitConfig F) where
  close_each-next :
      (price_lookup : String → Option F) (ts : T) (reason : ExitReason) (e : ExitEngine F T)
      (symbol : String) (p : OpenPosition F T) (rest : Dict (OpenPosition F T))
      {o : TradeOutcome F T} {e' : ExitEngine F T}
      → close_at calendar config symbol p ts (price_or p (price_lookup symbol)) reason e
        ≡ (ok o, e')
      → (close_each calendar config price_lookup ts reason ((symbol, p) ∷ rest) e).1
        ≡ (close_each calendar config price_lookup ts reason rest e').1
  unfolding close_each
  close_each-next price_lookup ts reason e symbol p rest {o} {e'} h =
      ground (arith, h, Result-cases (close_each calendar config price_lookup ts reason rest e').0)

  close_each-stop :
      (price_lookup : String → Option F) (ts : T) (reason : ExitReason) (e : ExitEngine F T)
      (symbol : String) (p : OpenPosition F T) (rest : Dict (OpenPosition F T)) {x : Error}
      → close_at calendar config symbol p ts (price_or p (price_lookup symbol)) reason e
        ≡ (err x, e)
      → (close_each calendar config price_lookup ts reason ((symbol, p) ∷ rest) e).1 ≡ e
  unfolding close_each
  close_each-stop price_lookup ts reason e symbol p rest h = ground (arith, h)

module _ {F T : Type 0} ⦃n : Float F⦄ ⦃t : Timestamp T⦄ (calendar : Calendar F T)
    (config : ExitConfig F) (test : Opened F T → Bool) where
  -- the loop closes the first position of the book that is left, again and again
  close_each-Conserves :
      (price_lookup : String → Option F) (ts : T) (reason : ExitReason) (e : ExitEngine F T)
      (book : Dict (OpenPosition F T))
      → e.open_positions ≡ book
      → IsDistinct book
      → Conserves test e (close_each calendar config price_lookup ts reason book e).1
  unfolding close_each
  close_each-Conserves price_lookup ts reason e [] q h = kept test e (subst IsDistinct (sym q) h)
  close_each-Conserves price_lookup ts reason e ((symbol, p) ∷ rest) q (h, hs) =
      let price = price_or p (price_lookup symbol) in
      let keyed : IsKeyed e = subst IsDistinct (sym q) (h, hs) in
      elim (close_at-cases calendar config symbol p ts price reason e) [
        | inr (x, c) ↦
            rw (close_each-stop calendar config price_lookup ts reason e symbol p rest c)
              (kept test e keyed)
        | inl (o, c, same) ↦
            let e' = record_close symbol p.trade_id o reason e in
            let one =
              record_close-Conserves test symbol p.trade_id o reason e keyed
                (first_of symbol p e rest q) same in
            let left = rest_of symbol p.trade_id p o reason e rest q h in
            rw (close_each-next calendar config price_lookup ts reason e symbol p rest c)
              (trans test e e' _ one (close_each-Conserves price_lookup ts reason e' rest left hs))
      ]

  pub close_all-Conserves :
      (price_lookup : String → Option F) (ts : T) (reason : ExitReason) (e : ExitEngine F T)
      → IsKeyed e
      → Conserves test e (close_all calendar config price_lookup ts reason e).1
  unfolding close_all
  close_all-Conserves price_lookup ts reason e h =
      close_each-Conserves price_lookup ts reason e e.open_positions refl h
