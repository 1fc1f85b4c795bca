-- ===== src/Paper/Lifecycle/Quantities.antt =====
-- A trade's quantity is accounted for by its closes.
use stock_bot.Base.{
  String, true, false, none, some, [], ◌∷◌, ◌++◌, ◌≡◌, inl, inr, arith, eq_iff, refl, ap, ◌∙◌,
  if◌then◌else◌, Option-cases, Bool-cases,
}
use stock_bot.Base.Text.{upper}
use stock_bot.Base.Dict.{get, get-put, get-remove}
use stock_bot.Base.Int.{ℤ, pos, ◌+ℤ◌, ◌-ℤ◌, int_laws}
use stock_bot.Base.Result.{ok, Result-cases}
use stock_bot.Float.{eps, ltb, leb, ◌+◌, ◌-◌}
use stock_bot.Float.Fixed.{fixed}
use stock_bot.Clock.{Timestamp, Calendar}
use stock_bot.Paper.Outcome.{TradeOutcome, check_outcome}
use stock_bot.Paper.Lifecycle.{
  OpenTrade, Trades, Closing, store_trade, drop_trade, append_outcome, rest_of_trade, check_closing,
  outcome_of, close_open, close_partial,
}
use text.Mathlib.Text.{◌==◌}

split_back : (a b : ℤ) → (a -ℤ b) +ℤ b ≡ a
split_back a b = grind int_laws

all_closed : (a b : ℤ) → ltb (a + eps) b ≡ false → leb (a - b) eps ≡ true → pos 0 +ℤ b ≡ a
unfolding ◌+ℤ◌ ◌-ℤ◌
all_closed a b h g = ground arith

module _ {T : Type 0} ⦃t : Timestamp T⦄ where
  -- the open quantity of a trade, zero when there is none
  abbrev pub open_quantity : String → Trades ℤ T → ℤ
  open_quantity symbol s = elim (get symbol s.open_trades) [ none ↦ pos 0 | some r ↦ r.quantity ]

  -- the trade after its close
  abbrev closed : String → OpenTrade ℤ T → ℤ → TradeOutcome ℤ T → Trades ℤ T → Trades ℤ T
  closed symbol r q o s =
      if leb (r.quantity - q) eps
      then drop_trade symbol (append_outcome o s)
      else store_trade symbol (rest_of_trade r q) (append_outcome o s)

  module _ (calendar : Calendar ℤ T) where
    pub check_closing-same :
        (r : OpenTrade ℤ T) (c : Closing ℤ T) (q : ℤ) (s : Trades ℤ T)
        → (check_closing calendar r c q s).1 ≡ s
    unfolding check_closing
    check_closing-same r c q s = ground arith

    check_closing-within :
        (r : OpenTrade ℤ T) (c : Closing ℤ T) (q : ℤ) (s : Trades ℤ T)
        → (check_closing calendar r c q s).0 ≡ ok tt
        → ltb (r.quantity + eps) q ≡ false
    unfolding check_closing
    check_closing-within r c q s h = ground (arith, h)

    outcome_of-quantity :
        (symbol : String) (r : OpenTrade ℤ T) (c : Closing ℤ T) (q : ℤ) {o : TradeOutcome ℤ T}
        → outcome_of calendar symbol r c q ≡ ok o
        → o.quantity ≡ q
    unfolding outcome_of check_outcome
    outcome_of-quantity symbol r c q h = ground (arith, h)

    close_open-closed :
        (symbol : String) (r : OpenTrade ℤ T) (c : Closing ℤ T) (q : ℤ) (s : Trades ℤ T)
        {o : TradeOutcome ℤ T} {s' : Trades ℤ T}
        → close_open calendar symbol r c q s ≡ (ok o, s')
        → (ltb (r.quantity + eps) q ≡ false) × (o.quantity ≡ q) × (s' ≡ closed symbol r q o s)
    unfolding close_open
    close_open-closed symbol r c q s {o} {s'} h =
        let same = check_closing-same r c q s in
        let within = check_closing-within r c q s in
        elim (Result-cases (check_closing calendar r c q s).0) [
          | inr (e, p) ↦ ground (arith, h, same, p)
          | inl (u, p) ↦ elim (Result-cases (outcome_of calendar symbol r c q)) [
            | inr (e, g) ↦ ground (arith, h, same, p, g)
            | inl (x, g) ↦
                let quantity = outcome_of-quantity symbol r c q g in
                elim (Bool-cases (leb (r.quantity - q) eps)) [
                  | inl b ↦ ground (arith, h, same, p, g, b, within, quantity)
                  | inr b ↦ ground (arith, h, same, p, g, b, within, quantity)
                ]
          ]
        ]

  closed-quantity :
      (symbol : String) (r : OpenTrade ℤ T) (q : ℤ) (o : TradeOutcome ℤ T) (s : Trades ℤ T)
      → ltb (r.quantity + eps) q ≡ false
      → open_quantity symbol (closed symbol r q o s) +ℤ q ≡ r.quantity
  unfolding drop_trade store_trade append_outcome rest_of_trade
  closed-quantity symbol r q o s h = elim (Bool-cases (leb (r.quantity - q) eps)) [
    | inl b ↦ ground (
      arith,
      b,
      get-remove symbol symbol s.open_trades,
      eq_iff symbol symbol,
      all_closed r.quantity q h b,
    )
    | inr b ↦ ground (
      arith,
      b,
      get-put symbol symbol (rest_of_trade r q) s.open_trades,
      eq_iff symbol symbol,
      split_back r.quantity q,
    )
  ]

  closed-others :
      (symbol j : String) (r : OpenTrade ℤ T) (q : ℤ) (o : TradeOutcome ℤ T) (s : Trades ℤ T)
      → (symbol == j) ≡ false
      → open_quantity j (closed symbol r q o s) ≡ open_quantity j s
  unfolding drop_trade store_trade append_outcome
  closed-others symbol j r q o s n = elim (Bool-cases (leb (r.quantity - q) eps)) [
    | inl b ↦ ground (arith, b, n, get-remove symbol j s.open_trades)
    | inr b ↦ ground (arith, b, n, get-put symbol j (rest_of_trade r q) s.open_trades)
  ]

  closed-outcomes :
      (symbol : String) (r : OpenTrade ℤ T) (q : ℤ) (o : TradeOutcome ℤ T) (s : Trades ℤ T)
      → (closed symbol r q o s).outcomes ≡ s.outcomes ++ (o ∷ [])
  unfolding drop_trade store_trade append_outcome
  closed-outcomes symbol r q o s = elim (Bool-cases (leb (r.quantity - q) eps)) [
    | inl b ↦ rw b refl
    | inr b ↦ rw b refl
  ]

  -- With exact decimals, a close that returns takes exactly its quantity out of the open trade of
  -- the symbol, which is never more than is open, and records it in the outcome that it returns; the
  -- quantities of the other symbols stay.
  pub close_partial-quantity :
      (calendar : Calendar ℤ T) (name : String) (c : Closing ℤ T) (q : ℤ) (s : Trades ℤ T)
      {o : TradeOutcome ℤ T} {s' : Trades ℤ T}
      → close_partial calendar name c q s ≡ (ok o, s')
      → (open_quantity (upper name) s' +ℤ o.quantity ≡ open_quantity (upper name) s)
        × (s'.outcomes ≡ s.outcomes ++ (o ∷ []))
        × ((j : String) → (upper name == j) ≡ false → open_quantity j s' ≡ open_quantity j s)
  unfolding close_partial drop_trade store_trade append_outcome
  close_partial-quantity calendar name c q s {o} {s'} h =
      let symbol = upper name in
      elim (Option-cases (get symbol s.open_trades)) [
        | inl g ↦ ground (arith, g, h)
        | inr (r, g) ↦
            let (within, quantity, same) =
              close_open-closed calendar symbol r c q s {o = o} {s' = s'} (ground (arith, g, h)) in
            (
              ground (arith, g, quantity, same, closed-quantity symbol r q o s within),
              ap (λ x. x.outcomes) same ∙ closed-outcomes symbol r q o s,
              λ j n. ap (open_quantity j) same ∙ closed-others symbol j r q o s n,
            )
      ]
