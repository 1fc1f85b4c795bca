-- ===== src/Risk/Engine/Intent.antt =====
-- The quantity of an approved order against the intent: it is never enlarged, and a release is exact.
use stock_bot.Base.{some, true, false, ◌≡◌, inl, inr, refl, arith, if◌then◌else◌}
use stock_bot.Base.Result.{Result, ok, err}
use stock_bot.Base.Flow.{next}
use stock_bot.Float.{Float, IsOrdered, ltb, ◌-◌, abs, min}
use stock_bot.Clock.{Timestamp}
use stock_bot.Risk.Contracts.{
  RiskPositionContext, RiskTransitionSizing, from_context, check_sizing, releases_position,
  is_reverse,
}
use stock_bot.Risk.Decision.{approved}
use stock_bot.Risk.Input.{RiskConfig, RiskInput, RiskAssessment}
use stock_bot.Risk.Engine.Quantities.{
  Sized, Order, sizing_of, opening_request, risk_sized, size_order, quantity_gate, release_only,
  reverse_transition,
}
use stock_bot.Risk.Engine.Exposure.{shrink}
use stock_bot.Risk.Engine.Body.{Approval, approve, evaluate, approved_projection}
use stock_bot.Risk.Engine.Approvals.{Vetted, evaluate-Approves}
use stock_bot.Risk.Engine.Authority.{Approves-fields}
use stock_bot.Risk.Engine.Cuts.{exposure_gate_fixed, expose_order, exposure_quantities}

module _ {F T : Type 0} ⦃n : Float F⦄ ⦃t : Timestamp T⦄ where
  -- How the parts of a sized order hang together.
  pub record IsSized (v : RiskInput F T) (s : Sized F) : Type 0 where
    pub transition : sizing_of v.position_context ≡ ok s.transition_sizing
    pub opening :
        s.requested_opening_quantity ≡ opening_request (release_only v) s.transition_sizing
    pub capped :
        s.risk_sized_opening_quantity ≡ risk_sized s.requested_opening_quantity s.sizing.quantity

  pub size_order-IsSized :
      (c : RiskConfig F) (v : RiskInput F T) (d : F) {s : Sized F}
      → size_order c v d ≡ next s
      → IsSized v s
  unfolding size_order
  size_order-IsSized c v d h = record {
    transition = ground arith;
    opening = ground arith;
    capped = ground arith;
  }

  pub sizing_of_some :
      (v : RiskInput F T) (s : Sized F) {p : RiskPositionContext F}
      → v.position_context ≡ some p
      → IsSized v s
      → (k : RiskTransitionSizing F) × (from_context p ≡ ok k) × (s.transition_sizing ≡ some k)
  sizing_of_some v s {p} e h = go (from_context p) refl
    where
      go :
          (r : Result (RiskTransitionSizing F))
          → from_context p ≡ r
          → (k : RiskTransitionSizing F) × (from_context p ≡ ok k) × (s.transition_sizing ≡ some k)
      go (ok k) g = (k, g, ground (arith, h.transition))
      go (err x) g = ground (arith, h.transition)

  pub order_opening :
      (c : RiskConfig F) (v : RiskInput F T) (s : Sized F) (f : F) {o : Order F}
      {k : RiskTransitionSizing F}
      → s.transition_sizing ≡ some k
      → quantity_gate c v s f ≡ next o
      → (o.opening_quantity ≡ s.risk_sized_opening_quantity)
        × (reverse_transition v ≡ false
            → o.quantity
              ≡ (if release_only v then k.order_quantity else s.risk_sized_opening_quantity))
  unfolding quantity_gate
  order_opening c v s f e h = (ground arith, λ r. ground arith)

  pub approved_opening :
      (c : RiskConfig F) (v : RiskInput F T) (p : Approval F) {a : RiskAssessment F T}
      {k : RiskTransitionSizing F}
      → p.sized.transition_sizing ≡ some k
      → approve c v p ≡ ok a
      → a.opening_quantity ≡ some p.exposed.opening_quantity
  unfolding approve
  approved_opening c v p e h = ground arith

module _ {F : Type 0} ⦃n : Float F⦄ (laws : IsOrdered F) where
  open laws use {lt_irrefl, lt_trans}

  -- `min` never rises above a bound of its first argument.
  min_below : (r a b : F) → ltb r a ≡ false → ltb r (min a b) ≡ false
  min_below r a b h = ground (arith, lt_trans r b a)

  min_below_right : (r a : F) → ltb r (min a r) ≡ false
  min_below_right r a = ground (arith, lt_irrefl r)

module _ {F T : Type 0} ⦃n : Float F⦄ ⦃t : Timestamp T⦄ (laws : IsOrdered F) where
  opening_capped :
      (c : RiskConfig F) (v : RiskInput F T) (s : Sized F) (f : F) {o : Order F}
      {k : RiskTransitionSizing F}
      → release_only v ≡ false
      → IsSized v s
      → s.transition_sizing ≡ some k
      → quantity_gate c v s f ≡ next o
      → ltb k.opening_quantity o.opening_quantity ≡ false
  opening_capped c v s f {o} {k} opens sized e h = ground (
    arith,
    sized.opening,
    sized.capped,
    order_opening c v s f e h,
    min_below_right laws k.opening_quantity s.sizing.quantity,
  )

  shrink_capped :
      (v : RiskInput F T) (s : Sized F) (o : Order F) (allowed r : F)
      → ltb r o.opening_quantity ≡ false
      → ltb r (shrink v s o allowed).opening_quantity ≡ false
  unfolding shrink
  shrink_capped v s o allowed r h = ground (arith, min_below laws r o.opening_quantity allowed h)

  shrink_quantity :
      (v : RiskInput F T) (s : Sized F) (o : Order F) (allowed r : F)
      → reverse_transition v ≡ false
      → ltb r o.quantity ≡ false
      → ltb r (shrink v s o allowed).quantity ≡ false
  unfolding shrink
  shrink_quantity v s o allowed r f h = ground (arith, min_below laws r o.quantity allowed h)

  -- The opening part and the order of a vetted candidate with an opening transition.
  Vetted-capped :
      {c : RiskConfig F} {v : RiskInput F T} (a : Approval F) {k : RiskTransitionSizing F}
      → release_only v ≡ false
      → Vetted c v a
      → a.sized.transition_sizing ≡ some k
      → (ltb k.opening_quantity a.exposed.opening_quantity ≡ false)
        × (reverse_transition v ≡ false → ltb k.opening_quantity a.exposed.quantity ≡ false)
  Vetted-capped {c} {v} a {k} opens h e =
      elim (exposure_quantities c v a.stop_distance a.sized a.order h.exposed) [
        | inl kept ↦ (ground (arith, before), λ r. ground (arith, before, whole r))
        | inr (allowed, cut) ↦ (
          ground (arith, shrink_capped v a.sized a.order allowed k.opening_quantity before),
          λ r.
              ground
                (arith, shrink_quantity v a.sized a.order allowed k.opening_quantity r (whole r)),
        )
      ]
    where
      sized : IsSized v a.sized
      sized = size_order-IsSized c v a.stop_distance h.sized

      before : ltb k.opening_quantity a.order.opening_quantity ≡ false
      before = opening_capped c v a.sized a.factor opens sized e h.ordered

      whole : reverse_transition v ≡ false → ltb k.opening_quantity a.order.quantity ≡ false
      whole r =
          let parts = order_opening c v a.sized a.factor e h.ordered in
          ground (arith, before, parts.0, parts.1 r)

  -- For floats that are ordered: the opening part of an approved order with a position context that
  -- opens, increases or reverses never exceeds what the signed transition asks for, and neither does
  -- the whole order unless it reverses a position.
  pub evaluate_never_enlarges :
      (c : RiskConfig F) (v : RiskInput F T) (a : RiskAssessment F T) {p : RiskPositionContext F}
      {k : RiskTransitionSizing F}
      → v.position_context ≡ some p
      → releases_position p.transition ≡ false
      → from_context p ≡ ok k
      → evaluate c v ≡ ok a
      → a.decision.status ≡ approved
      → (opening : F) × (a.opening_quantity ≡ some opening)
        × (ltb k.opening_quantity opening ≡ false)
        × (is_reverse p.transition ≡ false
            → ltb k.opening_quantity a.decision.approved_quantity ≡ false)
  evaluate_never_enlarges c v a {p} {k} context opens sizes h s =
      let e = evaluate-Approves c v a h s in
      let (j, same, found) =
        sizing_of_some v e.path.sized context
          (size_order-IsSized c v e.path.stop_distance e.vetted.sized) in
      let found' : e.path.sized.transition_sizing ≡ some k = ground (arith, same, found) in
      let (opening, whole) = Vetted-capped e.path (ground arith) e.vetted found' in
      (
        e.path.exposed.opening_quantity,
        approved_opening c v e.path found' e.made,
        opening,
        λ r. ground (arith, whole (ground arith), (Approves-fields e).0),
      )

from_context_order :
    {F : Type 0} ⦃n : Float F⦄ (p : RiskPositionContext F) {k : RiskTransitionSizing F}
    → from_context p ≡ ok k
    → k.order_quantity ≡ abs (p.projected_quantity - p.existing_quantity)
unfolding from_context check_sizing
from_context_order p h = ground arith

release_not_reverse :
    {F T : Type 0} (v : RiskInput F T) {p : RiskPositionContext F}
    → v.position_context ≡ some p
    → releases_position p.transition ≡ true
    → (release_only v ≡ true) × (reverse_transition v ≡ false)
release_not_reverse v e r = (ground arith, ground arith)

module _ {F T : Type 0} ⦃n : Float F⦄ ⦃t : Timestamp T⦄ where
  -- With resizing off, an approved reduction or flattening is for exactly the signed difference of
  -- the position and for the projection that was asked for.
  pub evaluate_release_exact :
      (c : RiskConfig F) (v : RiskInput F T) (a : RiskAssessment F T) {p : RiskPositionContext F}
      → v.position_context ≡ some p
      → releases_position p.transition ≡ true
      → c.allow_resize ≡ false
      → evaluate c v ≡ ok a
      → a.decision.status ≡ approved
      → (a.decision.approved_quantity ≡ abs (p.projected_quantity - p.existing_quantity))
        × (a.decision.approved_projected_quantity ≡ some p.projected_quantity)
  unfolding approved_projection
  evaluate_release_exact c v a {p} context releases off h s =
      let e = evaluate-Approves c v a h s in
      let path = e.path in
      let (k, sizes, found) =
        sizing_of_some v path.sized context
          (size_order-IsSized c v path.stop_distance e.vetted.sized) in
      let (made, _) =
        exposure_gate_fixed c v path.stop_distance path.sized path.order off e.vetted.exposed in
      let fields = Approves-fields e in
      let parts = order_opening c v path.sized path.factor found e.vetted.ordered in
      let (release, straight) = release_not_reverse v context releases in
      let order = expose_order v path.order made in
      (
        ground (arith, fields, parts.1 straight, release, from_context_order p sizes, order),
        ground (arith, fields, release),
      )
