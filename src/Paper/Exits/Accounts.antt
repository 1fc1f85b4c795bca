-- ===== src/Paper/Exits/Accounts.antt =====
-- Every paper position that is opened stays open or has exactly one outcome.
use stock_bot.Base.{
  ℕ, ◌+◌, String, Bool, some, [], ◌∷◌, count, count-append, if◌then◌else◌, ap, ◌≡◌, arith, refl,
  ◌∙◌, eq_iff, Option-cases, Bool-cases, inl, inr, ◌⊎◌,
}
use stock_bot.Base.Text.{strip, upper}
use stock_bot.Base.Dict.{
  get, IsDistinct, put-IsDistinct, remove-IsDistinct, tally, tally-put-old, tally-remove, get-put,
}
use stock_bot.Base.Result.{Error, ok, err, Result-cases}
use stock_bot.Float.{Float}
use stock_bot.Clock.{Timestamp, Calendar}
use stock_bot.Paper.Outcome.{TradeOutcome}
use stock_bot.Paper.Exits.Engine.{
  ExitReason, OpenPosition, ExitConfig, Candle, ExitEngine, marked, exit_of,
}
use stock_bot.Paper.Exits.Opened.{Opened, of_position, of_outcome, marked-same, close_position-same}
use stock_bot.Paper.Exits.Trades.{
  store_open, record_close, close_position, close_at, process_open, process_candle,
}

module _ {F T : Type 0} where
  abbrev pub IsKeyed : ExitEngine F T → Type 0
  IsKeyed e = IsDistinct e.open_positions

  get-store_open :
      (symbol : String) (p : OpenPosition F T) (e : ExitEngine F T)
      → get symbol (store_open symbol p e).open_positions ≡ some p
  unfolding store_open
  get-store_open symbol p e =
      ground (arith, get-put symbol symbol p e.open_positions, eq_iff symbol symbol)

module _ {F T : Type 0} (test : Opened F T → Bool) where
  -- the positions that pass the test, open or closed
  abbrev pub total : ExitEngine F T → ℕ
  total e =
      tally (λ p. test (of_position p)) e.open_positions
      + count (λ o. test (of_outcome o)) e.completed_outcomes

  -- the symbols stay distinct, and no position appears or disappears
  pub record Conserves (e e' : ExitEngine F T) : Type 0 where
    pub keyed : IsKeyed e'
    pub same_total : total e' ≡ total e

  pub trans : (e e' e'' : ExitEngine F T) → Conserves e e' → Conserves e' e'' → Conserves e e''
  trans e e' e'' a b = record { keyed = b.keyed; same_total = b.same_total ∙ a.same_total }

  pub kept : (e : ExitEngine F T) → IsKeyed e → Conserves e e
  kept e h = record { keyed = h; same_total = refl }

  store_open-Conserves :
      (symbol : String) (p : OpenPosition F T) {q : OpenPosition F T} (e : ExitEngine F T)
      → IsKeyed e
      → get symbol e.open_positions ≡ some q
      → of_position p ≡ of_position q
      → Conserves e (store_open symbol p e)
  unfolding store_open
  store_open-Conserves symbol p {q} e h g same = record {
    keyed = put-IsDistinct symbol p e.open_positions h;
    same_total = omega (
      arith,
      tally-put-old (λ p. test (of_position p)) symbol p q e.open_positions g (ap test same),
    );
  }

  pub record_close-Conserves :
      (symbol trade_id : String) (o : TradeOutcome F T) (reason : ExitReason) {q : OpenPosition F T}
      (e : ExitEngine F T)
      → IsKeyed e
      → get symbol e.open_positions ≡ some q
      → of_outcome o ≡ of_position q
      → Conserves e (record_close symbol trade_id o reason e)
  unfolding record_close
  record_close-Conserves symbol trade_id o reason {q} e h g same = record {
    keyed = remove-IsDistinct symbol e.open_positions h;
    same_total = omega (
      arith,
      tally-remove (λ p. test (of_position p)) symbol {w = q} e.open_positions h g,
      count-append (λ x. test (of_outcome x)) e.completed_outcomes (o ∷ []),
      ap {B = ℕ} (λ x. if test x then 1 else 0) same,
    );
  }

module _ {F T : Type 0} ⦃n : Float F⦄ ⦃t : Timestamp T⦄ (calendar : Calendar F T)
    (config : ExitConfig F) where
  pub close_at-cases :
      (symbol : String) (p : OpenPosition F T) (ts : T) (price : F) (reason : ExitReason)
      (e : ExitEngine F T)
      → ((o : TradeOutcome F T) × (close_at calendar config symbol p ts price reason e
            ≡ (ok o, record_close symbol p.trade_id o reason e))
          × (of_outcome o ≡ of_position p))
        ⊎ ((x : Error) × (close_at calendar config symbol p ts price reason e ≡ (err x, e)))
  unfolding close_at
  close_at-cases symbol p ts price reason e =
      elim (Result-cases (close_position calendar config p ts price)) [
        | inl (o, q) ↦ inl (o, ground (arith, q), close_position-same calendar config p ts price q)
        | inr (x, q) ↦ inr (x, ground (arith, q))
      ]

  -- after the marks, a candle closes the position or leaves it open
  process_open-cases :
      (symbol : String) (p : OpenPosition F T) (c : Candle F T) (force : Bool) (e : ExitEngine F T)
      → let r = (process_open calendar config symbol p c force e).1 in
        let e' = store_open symbol (marked p c) e in
        (r ≡ e)
        ⊎ ((r ≡ e')
            ⊎ ((price : F) × (reason : ExitReason) × (r
                  ≡ (close_at calendar config symbol (marked p c) c.timestamp price reason e').1)))
  unfolding process_open
  process_open-cases symbol p c force e =
      elim (Option-cases (exit_of calendar config force (marked p c) c)) [
        | inl q ↦ ground (arith, q)
        | inr ((price, reason), q) ↦ elim (Bool-cases (calendar.earlier c.timestamp p.entry_time)) [
          | inl b ↦ ground (arith, q, b)
          | inr b ↦ inr (
              inr (
                price,
                reason,
                ground (
                  arith,
                  q,
                  b,
                  close_at-cases symbol (marked p c) c.timestamp price reason
                      (store_open symbol (marked p c) e),
                ),
              ))
        ]
      ]

module _ {F T : Type 0} ⦃n : Float F⦄ ⦃t : Timestamp T⦄ (calendar : Calendar F T)
    (config : ExitConfig F) (test : Opened F T → Bool) where
  close_at-Conserves :
      (symbol : String) (p : OpenPosition F T) (ts : T) (price : F) (reason : ExitReason)
      (e : ExitEngine F T)
      → IsKeyed e
      → get symbol e.open_positions ≡ some p
      → Conserves test e (close_at calendar config symbol p ts price reason e).1
  close_at-Conserves symbol p ts price reason e h g =
      elim (close_at-cases calendar config symbol p ts price reason e) [
        | inl (o, c, same) ↦
            rw c (record_close-Conserves test symbol p.trade_id o reason e h g same)
        | inr (x, c) ↦ rw c (kept test e h)
      ]

  process_open-Conserves :
      (symbol : String) (p : OpenPosition F T) (c : Candle F T) (force : Bool) (e : ExitEngine F T)
      → IsKeyed e
      → get symbol e.open_positions ≡ some p
      → Conserves test e (process_open calendar config symbol p c force e).1
  process_open-Conserves symbol p c force e h g =
      let e' = store_open symbol (marked p c) e in
      let stored = store_open-Conserves test symbol (marked p c) e h g (marked-same p c) in
      elim (process_open-cases calendar config symbol p c force e) [
        | inl q ↦ rw q (kept test e h)
        | inr (inl q) ↦ rw q stored
        | inr (inr (price, reason, q)) ↦ rw q (
            trans test e e' _ stored (
              close_at-Conserves symbol (marked p c) c.timestamp price reason e' stored.keyed
                (get-store_open symbol (marked p c) e)))
      ]

  pub process_candle-Conserves :
      (c : Candle F T) (force : Bool) (e : ExitEngine F T)
      → IsKeyed e
      → Conserves test e (process_candle calendar config c force e).1
  unfolding process_candle
  process_candle-Conserves c force e h =
      elim (Option-cases (get (upper (strip c.symbol)) e.open_positions)) [
        | inl q ↦ rw q (kept test e h)
        | inr (p, q) ↦ rw q (process_open-Conserves (upper (strip c.symbol)) p c force e h q)
      ]
