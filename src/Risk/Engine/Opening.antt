-- ===== src/Risk/Engine/Opening.antt =====
-- Approved orders that open or increase a position: their quantity and their projection.
use stock_bot.Base.{sym, some, true, false, ◌≡◌, ◌⊎◌, inl, inr, arith, refl, if◌then◌else◌}
use mathlib.Core.Path.{subst}
use stock_bot.Base.Result.{ok}
use stock_bot.Base.Flow.{next}
use stock_bot.Float.{Float, num, neg, ltb, ◌*◌, ◌+◌, ◌-◌, ◌/◌, eps, min, max}
use stock_bot.Clock.{Timestamp}
use stock_bot.Risk.Contracts.{
  RiskPositionContext, RiskTransitionSizing, from_context, releases_position, is_reverse,
}
use stock_bot.Risk.Sizing.{floor_to_step, PositionSizingResult, calculate_position_size}
use stock_bot.Risk.Decision.{approved}
use stock_bot.Risk.Input.{RiskConfig, RiskInput, RiskAssessment}
use stock_bot.Risk.Engine.Quantities.{Sized, Order, size_order, release_only, reverse_transition}
use stock_bot.Risk.Engine.Exposure.{Exposed, exposure_limit, shrink}
use stock_bot.Risk.Engine.Body.{
  Approval, approve, evaluate, approved_projection, projected_increase,
}
use stock_bot.Risk.Engine.Approvals.{Vetted, evaluate-Approves}
use stock_bot.Risk.Engine.Authority.{Approves-fields}
use stock_bot.Risk.Engine.Cuts.{
  expose_order, exposure_gate-cases, expose_plain, reexpose_order, IsCut,
}
use stock_bot.Risk.Engine.Intent.{
  size_order-IsSized, sizing_of_some, order_opening, approved_opening,
}

module _ {F T : Type 0} ⦃n : Float F⦄ ⦃t : Timestamp T⦄ where
  -- `q` is what the risk budget allows for the stop distance, both reported by the assessment.
  pub record IsBudgeted (c : RiskConfig F) (v : RiskInput F T) (a : RiskAssessment F T) (q : F)
      : Type 0 where
    pub distance : F
    pub sizing : PositionSizingResult F
    pub stop_distance : a.stop_distance ≡ some distance
    pub sized :
        calculate_position_size v.available_equity c.risk_per_trade distance c.quantity_step
        ≡ ok sizing
    pub quantity : q ≡ sizing.quantity
    pub reported : a.requested_position_size ≡ some q

  size_order-sizing :
      (c : RiskConfig F) (v : RiskInput F T) (d : F) {s : Sized F}
      → size_order c v d ≡ next s
      → calculate_position_size v.available_equity c.risk_per_trade d c.quantity_step ≡ ok s.sizing
  unfolding size_order
  size_order-sizing c v d h = ground (arith, h)

  approve-IsBudgeted :
      (c : RiskConfig F) (v : RiskInput F T) (x : Approval F) {a : RiskAssessment F T}
      → Vetted c v x
      → approve c v x ≡ ok a
      → IsBudgeted c v a x.sized.sizing.quantity
  unfolding approve
  approve-IsBudgeted c v x h made = record {
    distance = x.stop_distance;
    sizing = x.sized.sizing;
    stop_distance = ground (arith, made);
    sized = size_order-sizing c v x.stop_distance h.sized;
    quantity = refl;
    reported = ground (arith, made);
  }

  -- the order of a vetted candidate that opens or increases a position
  opening_order :
      (c : RiskConfig F) (v : RiskInput F T) (x : Approval F) {p : RiskPositionContext F}
      {k : RiskTransitionSizing F}
      → v.position_context ≡ some p
      → release_only v ≡ false
      → reverse_transition v ≡ false
      → from_context p ≡ ok k
      → Vetted c v x
      → (x.order.quantity ≡ min x.sized.sizing.quantity k.opening_quantity)
        × (x.order.opening_quantity ≡ min x.sized.sizing.quantity k.opening_quantity)
        × (x.sized.transition_sizing ≡ some k)
  opening_order c v x {p} {k} context opens straight sizes h =
      let sized = size_order-IsSized c v x.stop_distance h.sized in
      let (j, same, found) = sizing_of_some v x.sized context sized in
      let parts = order_opening c v x.sized x.factor found h.ordered in
      let whole = parts.1 straight in
      (
        ground (arith, same, sizes, found, sized.opening, sized.capped, parts.0, whole, opens),
        ground (arith, same, sizes, found, sized.opening, sized.capped, parts.0, opens),
        ground (arith, same, sizes, found),
      )

  -- a cut order keeps its opening quantity, and its quantity is cut to the room
  cut_quantities :
      (c : RiskConfig F) (v : RiskInput F T) (s : Sized F) (o : Order F) {e : Exposed F}
      → reverse_transition v ≡ false
      → (cut : IsCut c v s o e)
      → (e.quantity ≡ min o.quantity cut.allowed) × (e.opening_quantity ≡ o.opening_quantity)
  unfolding shrink
  cut_quantities c v s o straight cut =
      let same = reexpose_order v (shrink v s o cut.allowed) cut.cut in
      (ground (arith, same, straight), ground (arith, same, straight))

  -- The order for `opening` shares is approved whole, within the exposure limit.
  pub record IsFull (c : RiskConfig F) (v : RiskInput F T) (opening approved_quantity : F)
      : Type 0 where
    pub under :
        ltb (exposure_limit c v + eps) (v.gross_exposure + v.candidate.entry_price * opening)
        ≡ false
    pub whole : approved_quantity ≡ opening

  -- The exposure limit cut an order for `opening` shares to the approved quantity.
  pub record IsLimited (c : RiskConfig F) (v : RiskInput F T) (opening approved_quantity : F)
      : Type 0 where
    pub resizable : c.allow_resize ≡ true
    pub over :
        ltb (exposure_limit c v + eps) (v.gross_exposure + v.candidate.entry_price * opening) ≡ true
    pub allowed : F
    pub room :
        floor_to_step
          (max (num 0) (exposure_limit c v - v.gross_exposure) / v.candidate.entry_price)
          c.quantity_step
        ≡ ok allowed
    pub cut : approved_quantity ≡ min opening allowed

  cut-IsLimited :
      (c : RiskConfig F) (v : RiskInput F T) (x : Approval F) (opening : F)
      → release_only v ≡ false
      → reverse_transition v ≡ false
      → x.order.quantity ≡ opening
      → IsCut c v x.sized x.order x.exposed
      → IsLimited c v opening x.exposed.quantity
  cut-IsLimited c v x opening opens straight same k = record {
    resizable = k.resizable;
    over = ground (arith, k.over, same, expose_plain v x.order opens straight k.exposed);
    allowed = k.allowed;
    room = k.room;
    cut = ground (arith, same, cut_quantities c v x.sized x.order straight k);
  }

  -- An approved order with a position context that opens or increases is for the smaller of the
  -- quantity that the risk budget allows, which the assessment reports, and the one that the
  -- portfolio asks for, whatever the available cash and the volatility factor are. Exactly when its
  -- value takes the gross exposure over the limit it is cut further, to what the limit leaves, and
  -- then resizing is on.
  pub evaluate_opening_quantity :
      (c : RiskConfig F) (v : RiskInput F T) (a : RiskAssessment F T) {p : RiskPositionContext F}
      {k : RiskTransitionSizing F}
      → v.position_context ≡ some p
      → releases_position p.transition ≡ false
      → is_reverse p.transition ≡ false
      → from_context p ≡ ok k
      → evaluate c v ≡ ok a
      → a.decision.status ≡ approved
      → (q : F) × IsBudgeted c v a q
        × (IsFull c v (min q k.opening_quantity) a.decision.approved_quantity
            ⊎ IsLimited c v (min q k.opening_quantity) a.decision.approved_quantity)
  evaluate_opening_quantity c v a {p} {k} context opens straight sizes h s =
      let e = evaluate-Approves c v a h s in
      let x = e.path in
      let opens' : release_only v ≡ false = ground (arith, context, opens) in
      let straight' : reverse_transition v ≡ false = ground (arith, context, straight) in
      let (order, _, _) = opening_order c v x context opens' straight' sizes e.vetted in
      let quantity = (Approves-fields e).0 in
      (
        x.sized.sizing.quantity,
        approve-IsBudgeted c v x e.vetted e.made,
        elim (exposure_gate-cases c v x.stop_distance x.sized x.order e.vetted.exposed) [
          | inl (kept, under) ↦ inl (record {
            under = ground (arith, under, order, expose_plain v x.order opens' straight' kept);
            whole = ground (arith, quantity, order, expose_order v x.order kept);
          })
          | inr cut ↦ inr (
              subst (IsLimited c v (min x.sized.sizing.quantity k.opening_quantity)) (sym quantity)
                (cut-IsLimited c v x _ opens' straight' order cut))
        ],
      )

  -- The approved projection of an order that opens or increases a position is the existing quantity
  -- plus or minus the reported opening quantity, which is the smaller of what the risk budget allows
  -- and what the portfolio asks for, even when the exposure limit cut the approved quantity below it.
  pub evaluate_opening_projection :
      (c : RiskConfig F) (v : RiskInput F T) (a : RiskAssessment F T) {p : RiskPositionContext F}
      {k : RiskTransitionSizing F}
      → v.position_context ≡ some p
      → releases_position p.transition ≡ false
      → is_reverse p.transition ≡ false
      → from_context p ≡ ok k
      → evaluate c v ≡ ok a
      → a.decision.status ≡ approved
      → (q : F) × IsBudgeted c v a q
        × (a.opening_quantity ≡ some (min q k.opening_quantity))
        × (a.decision.approved_projected_quantity
            ≡ some (
                p.existing_quantity
                + (if ltb (num 0) p.projected_quantity then num 1 else neg (num 1))
                  * min q k.opening_quantity))
  unfolding approved_projection projected_increase
  evaluate_opening_projection c v a {p} {k} context opens straight sizes h s =
      let e = evaluate-Approves c v a h s in
      let x = e.path in
      let opens' : release_only v ≡ false = ground (arith, context, opens) in
      let straight' : reverse_transition v ≡ false = ground (arith, context, straight) in
      let (_, opening, found) = opening_order c v x context opens' straight' sizes e.vetted in
      let same : x.exposed.opening_quantity ≡ min x.sized.sizing.quantity k.opening_quantity =
        elim (exposure_gate-cases c v x.stop_distance x.sized x.order e.vetted.exposed) [
          | inl (kept, _) ↦ ground (arith, opening, expose_order v x.order kept)
          | inr cut ↦ ground (arith, opening, cut_quantities c v x.sized x.order straight' cut)
        ] in
      let fields = Approves-fields e in
      (
        x.sized.sizing.quantity,
        approve-IsBudgeted c v x e.vetted e.made,
        ground (arith, same, approved_opening c v x found e.made),
        ground (arith, same, fields, context, opens, straight),
      )
