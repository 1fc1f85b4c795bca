-- ===== src/Paper/Runtime/Authority.antt =====
-- What a paper fill rests on: the chain from the risk decision to the paper account.
use stock_bot.Base.{String, true, Option, List, ◌≡◌, arith, ◌⊎◌, inl, inr, ◌∙◌}
use stock_bot.Base.Result.{ok, Result-cases}
use stock_bot.Float.{Float}
use stock_bot.Clock.{Timestamp}
use stock_bot.Risk.Decision.{RiskDecision, approved}
use stock_bot.Execution.Models.{ExecutionAuthorization, AuthorizationStatus, authorized, blocked}
use stock_bot.Execution.Control.{SafetyDecision, authorize_execution}
use stock_bot.Execution.Control.Authority.{authorize_execution-IsExact}
use stock_bot.Paper.Runtime.Orders.{
  PaperTradingConfig, PaperOrder, filled, rejected, PaperAccount, check_paper_order,
}
use stock_bot.Paper.Runtime.Fills.{submitted_quantity}
use stock_bot.Paper.Runtime.Submit.{submit, fill_order, reject_order, append_order}

status-cases : (x : AuthorizationStatus) → (x ≡ authorized) ⊎ (x ≡ blocked)
status-cases x = ground arith

module _ {F T : Type 0} ⦃n : Float F⦄ ⦃t : Timestamp T⦄ (config : PaperTradingConfig F) where
  fill_order-filled :
      (a : ExecutionAuthorization F T) (price q : F) (s : PaperAccount F T) {o : PaperOrder F T}
      {s' : PaperAccount F T}
      → fill_order config a price q s ≡ (ok o, s')
      → (o.quantity ≡ q) × (o.status ≡ filled)
  unfolding fill_order check_paper_order
  fill_order-filled a price q s h = ground (arith, h)

  reject_order-rejected :
      (a : ExecutionAuthorization F T) (price q : F) (s : PaperAccount F T) {o : PaperOrder F T}
      {s' : PaperAccount F T}
      → reject_order config a price q s ≡ (ok o, s')
      → (o.status ≡ rejected) × (s'.positions ≡ s.positions) × (s'.realized_pnl ≡ s.realized_pnl)
  unfolding reject_order append_order check_paper_order
  reject_order-rejected a price q s h = ground (arith, h)

  submit-filled :
      (a : ExecutionAuthorization F T) (price : F) (requested : Option F) (s : PaperAccount F T)
      {o : PaperOrder F T} {s' : PaperAccount F T}
      → a.status ≡ authorized
      → submit config a price requested s ≡ (ok o, s')
      → (o.status ≡ filled) × (o.quantity ≡ a.approved_quantity)
  unfolding submit submitted_quantity
  submit-filled a price requested s {o} {s'} h g =
      let fill = fill_order-filled a price a.approved_quantity s {o = o} {s' = s'} in
      ground (arith, h, g, fill)

  submit-rejected :
      (a : ExecutionAuthorization F T) (price : F) (requested : Option F) (s : PaperAccount F T)
      {o : PaperOrder F T} {s' : PaperAccount F T}
      → a.status ≡ blocked
      → submit config a price requested s ≡ (ok o, s')
      → (o.status ≡ rejected) × (s'.positions ≡ s.positions) × (s'.realized_pnl ≡ s.realized_pnl)
  unfolding submit
  submit-rejected a price requested s {o} {s'} h g =
      elim (Result-cases (submitted_quantity a price requested)) [
        | inl (q, e) ↦ ground (arith, h, g, e, reject_order-rejected a price q s {o = o} {s' = s'})
        | inr (x, e) ↦ ground (arith, h, g, e)
      ]

  -- A paper order that the account takes for the authorization of a risk decision is filled, and
  -- then the decision is approved, the safety gate allows it and the quantity is the approved one,
  -- or it is rejected, and then the positions and the realized result stay as they were.
  pub submit-authorized :
      (d : RiskDecision F T) (quantity notional : Option F) (id : String)
      (restrictions : List String) (safety : SafetyDecision) {a : ExecutionAuthorization F T}
      (price : F) (requested : Option F) (s : PaperAccount F T) {o : PaperOrder F T}
      {s' : PaperAccount F T}
      → authorize_execution d quantity notional id restrictions safety ≡ ok a
      → submit config a price requested s ≡ (ok o, s')
      → ((o.status ≡ filled)
          × (d.status ≡ approved)
          × (safety.allowed ≡ true)
          × (o.quantity ≡ d.approved_quantity))
        ⊎ ((o.status ≡ rejected)
            × (s'.positions ≡ s.positions)
            × (s'.realized_pnl ≡ s.realized_pnl))
  submit-authorized d quantity notional id restrictions safety {a} price requested s h g =
      let exact = authorize_execution-IsExact d quantity notional id restrictions safety h in
      elim (status-cases a.status) [
        | inl p ↦
            let (f, q) = submit-filled a price requested s p g in
            let (agreed, allowed, same, _, _) = exact.approved p in
            inl (f, agreed, allowed, q ∙ same)
        | inr p ↦ inr (submit-rejected a price requested s p g)
      ]
