-- ===== src/Paper/Lifecycle/Closes.antt =====
-- Any sequence of partial closes of a trade.
use mathlib.Core.Path.{subst}
use stock_bot.Base.{
  String, List, [], ◌∷◌, ◌≡◌, arith, refl, ◌⊎◌, inl, inr, sym, ap, ◌∙◌, Option-cases,
}
use stock_bot.Base.Text.{upper}
use stock_bot.Base.Dict.{get}
use stock_bot.Base.Int.{ℤ, pos, ◌+ℤ◌, int_laws}
use stock_bot.Base.Result.{Error, Result, ok, err, Result-cases}
use stock_bot.Float.Fixed.{fixed}
use stock_bot.Clock.{Timestamp, Calendar}
use stock_bot.Paper.Outcome.{TradeOutcome}
use stock_bot.Paper.Lifecycle.{
  OpenTrade, Trades, Closing, check_closing, outcome_of, close_open, close_partial,
}
use stock_bot.Paper.Lifecycle.Quantities.{open_quantity, check_closing-same, close_partial-quantity}

add_back : (a b c d e : ℤ) → a +ℤ b ≡ c → c +ℤ d ≡ e → a +ℤ (d +ℤ b) ≡ e
add_back a b c d e h g = grind (int_laws, h, g)

add_nothing : (a : ℤ) → a +ℤ pos 0 ≡ a
add_nothing a = grind int_laws

outcome-cases :
    {A S : Type 0}
    → (x : Result A × S) → ((a : A) × (x ≡ (ok a, x.1))) ⊎ ((e : Error) × (x ≡ (err e, x.1)))
outcome-cases (ok a, s) = inl (a, refl)
outcome-cases (err e, s) = inr (e, refl)

-- a result in front of a list, if there is one
abbrev with_result : {A : Type 0} → Result A → List A → List A
with_result (ok a) xs = a ∷ xs
with_result (err _) xs = xs

module _ {T : Type 0} where
  -- the sum of the quantities of the outcomes
  unfoldable pub closed_quantity : List (TradeOutcome ℤ T) → ℤ
  closed_quantity [] = pos 0
  closed_quantity (o ∷ os) = o.quantity +ℤ closed_quantity os

module _ {T : Type 0} ⦃t : Timestamp T⦄ (calendar : Calendar ℤ T) (name : String) where
  -- the outcomes of the closes that are accepted, and the trades after all of them
  unfoldable pub closes : List (Closing ℤ T × ℤ) → Trades ℤ T → List (TradeOutcome ℤ T) × Trades ℤ T
  closes [] s = ([], s)
  closes ((c, q) ∷ rest) s =
      let (r, s') = close_partial calendar name c q s in
      let (os, s'') = closes rest s' in (with_result r os, s'')

  close_open-refused :
      (symbol : String) (r : OpenTrade ℤ T) (c : Closing ℤ T) (q : ℤ) (s : Trades ℤ T) {e : Error}
      {s' : Trades ℤ T}
      → close_open calendar symbol r c q s ≡ (err e, s')
      → s' ≡ s
  unfolding close_open
  close_open-refused symbol r c q s h = elim (Result-cases (check_closing calendar r c q s).0) [
    | inr (e, p) ↦ ground (arith, h, check_closing-same calendar r c q s, p)
    | inl (u, p) ↦ elim (Result-cases (outcome_of calendar symbol r c q)) [
      | inr (e, g) ↦ ground (arith, h, check_closing-same calendar r c q s, p, g)
      | inl (x, g) ↦ ground (arith, h, check_closing-same calendar r c q s, p, g)
    ]
  ]

  close_partial-refused :
      (c : Closing ℤ T) (q : ℤ) (s : Trades ℤ T) {e : Error} {s' : Trades ℤ T}
      → close_partial calendar name c q s ≡ (err e, s')
      → s' ≡ s
  unfolding close_partial
  close_partial-refused c q s {e} {s'} h = elim (Option-cases (get (upper name) s.open_trades)) [
    | inl g ↦ ground (arith, g, h)
    | inr (r, g) ↦ close_open-refused (upper name) r c q s {e = e} {s' = s'} (ground (arith, g, h))
  ]

  -- With exact decimals, whatever partial closes of a trade are tried, accepted or refused, the
  -- quantity that was open is the quantity that is still open and the quantities of the outcomes of
  -- the accepted closes together.
  pub closes-quantity :
      (cs : List (Closing ℤ T × ℤ)) (s : Trades ℤ T)
      → let (os, s') = closes cs s in
        open_quantity (upper name) s' +ℤ closed_quantity os ≡ open_quantity (upper name) s
  unfolding closes closed_quantity
  closes-quantity [] s = add_nothing (open_quantity (upper name) s)
  closes-quantity ((c, q) ∷ rest) s =
      let out = close_partial calendar name c q s in
      let later = closes-quantity rest out.1 in
      let os = (closes rest out.1).0 in
      let after = open_quantity (upper name) (closes rest out.1).1 in
      let IsSplit = λ (r : Result (TradeOutcome ℤ T)).
        after +ℤ closed_quantity (with_result r os) ≡ open_quantity (upper name) s in
      elim (outcome-cases out) [
        | inl (o, h) ↦
            let (took, _, _) = close_partial-quantity calendar name c q s {o = o} {s' = out.1} h in
            subst IsSplit (sym (ap (λ x. x.0) h)) (
              add_back after (closed_quantity os) (open_quantity (upper name) out.1) o.quantity _
                later took)
        | inr (e, h) ↦ subst IsSplit (sym (ap (λ x. x.0) h)) (
            later
            ∙ ap (open_quantity (upper name)) (close_partial-refused c q s {e = e} {s' = out.1} h))
      ]
