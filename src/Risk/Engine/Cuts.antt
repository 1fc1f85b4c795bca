-- ===== src/Risk/Engine/Cuts.antt =====
-- What the exposure gate of `RiskEngine.evaluate` in trading/risk/engine.py does to an order.
use stock_bot.Base.{true, false, ◌≡◌, ◌⊎◌, inl, inr, arith, Bool-cases, if◌then◌else◌}
use stock_bot.Base.Result.{Result, ok, Result-cases}
use stock_bot.Base.Flow.{next}
use stock_bot.Float.{Float, ltb, num, max, ◌+◌, ◌-◌, ◌*◌, ◌/◌, eps}
use stock_bot.Clock.{Timestamp}
use stock_bot.Risk.Sizing.{floor_to_step, gross_exposure_after}
use stock_bot.Risk.Input.{RiskConfig, RiskInput}
use stock_bot.Risk.Engine.Quantities.{Sized, Order, release_only, reverse_transition}
use stock_bot.Risk.Engine.Exposure.{
  Exposed, exposure_limit, expose, exposure_gate, gross_for, over_limit, reexpose, shrink,
}

module _ {F T : Type 0} ⦃n : Float F⦄ ⦃t : Timestamp T⦄ where
  -- With resizing off the exposure gate passes the order on as it is, within the limit.
  pub exposure_gate_fixed :
      (c : RiskConfig F) (v : RiskInput F T) (d : F) (s : Sized F) (o : Order F) {e : Exposed F}
      → c.allow_resize ≡ false
      → exposure_gate c v d s o ≡ next e
      → (expose v o ≡ ok e) × (ltb (exposure_limit c v + eps) e.gross_after ≡ false)
  unfolding exposure_gate over_limit
  exposure_gate_fixed c v d s o off h = ground arith

  pub expose_order :
      (v : RiskInput F T) (o : Order F) {e : Exposed F} → expose v o ≡ ok e → e.order ≡ o
  unfolding expose
  expose_order v o h = ground arith

  -- an order that neither releases nor reverses a position adds its value to the gross exposure
  pub expose_plain :
      (v : RiskInput F T) (o : Order F) {e : Exposed F}
      → release_only v ≡ false
      → reverse_transition v ≡ false
      → expose v o ≡ ok e
      → e.gross_after ≡ v.gross_exposure + v.candidate.entry_price * o.quantity
  unfolding expose gross_for gross_exposure_after
  expose_plain v o p q h = ground arith

  -- the value that an order proposes
  abbrev pub value_of : RiskInput F T → Order F → F
  value_of v o =
      v.candidate.entry_price * (if reverse_transition v then o.opening_quantity else o.quantity)

  expose_value :
      (v : RiskInput F T) (o : Order F) {e : Exposed F}
      → expose v o ≡ ok e
      → e.proposed_value ≡ value_of v e.order
  unfolding expose
  expose_value v o h = ground arith

  reexpose_value :
      (v : RiskInput F T) (o : Order F) {e : Exposed F}
      → reexpose v o ≡ ok e
      → e.proposed_value ≡ value_of v e.order
  unfolding reexpose
  reexpose_value v o h = ground arith

  pub reexpose_order :
      (v : RiskInput F T) (o : Order F) {e : Exposed F} → reexpose v o ≡ ok e → e.order ≡ o
  unfolding reexpose
  reexpose_order v o h = ground arith

  -- the quantity that the exposure limit leaves
  abbrev pub room_for : RiskConfig F → RiskInput F T → Result F
  room_for c v =
      floor_to_step (max (num 0) (exposure_limit c v - v.gross_exposure) / v.candidate.entry_price)
        c.quantity_step

  -- The order `o` was over the limit and was cut to what the limit leaves.
  pub record IsCut (c : RiskConfig F) (v : RiskInput F T) (s : Sized F) (o : Order F)
      (e : Exposed F) : Type 0 where
    pub full : Exposed F
    pub allowed : F
    pub exposed : expose v o ≡ ok full
    pub over : ltb (exposure_limit c v + eps) full.gross_after ≡ true
    pub resizable : c.allow_resize ≡ true
    pub room : room_for c v ≡ ok allowed
    pub cut : reexpose v (shrink v s o allowed) ≡ ok e

  -- With or without resizing, the exposure gate keeps the order or cuts it.
  pub exposure_gate-cases :
      (c : RiskConfig F) (v : RiskInput F T) (d : F) (s : Sized F) (o : Order F) {e : Exposed F}
      → exposure_gate c v d s o ≡ next e
      → ((expose v o ≡ ok e) × (ltb (exposure_limit c v + eps) e.gross_after ≡ false))
        ⊎ IsCut c v s o e
  unfolding exposure_gate over_limit
  exposure_gate-cases c v d s o {e} h = elim (Result-cases (expose v o)) [
    | inr (x, p) ↦ ground (arith, p, h)
    | inl (full, p) ↦ elim (Bool-cases (ltb (exposure_limit c v + eps) full.gross_after)) [
      | inr under ↦ inl (ground (arith, p, under, h), ground (arith, p, under, h))
      | inl over ↦ elim (Result-cases (room_for c v)) [
        | inr (x, r) ↦ ground (arith, p, over, r, h)
        | inl (allowed, r) ↦ inr (record {
          full = full;
          allowed = allowed;
          exposed = p;
          over = over;
          resizable = ground (arith, p, over, r, h);
          room = r;
          cut = ground (arith, p, over, r, h, expose_order v o p);
        })
      ]
    ]
  ]

  pub exposure_quantities :
      (c : RiskConfig F) (v : RiskInput F T) (d : F) (s : Sized F) (o : Order F) {e : Exposed F}
      → exposure_gate c v d s o ≡ next e
      → (e.order ≡ o) ⊎ ((allowed : F) × (e.order ≡ shrink v s o allowed))
  exposure_quantities c v d s o h = elim (exposure_gate-cases c v d s o h) [
    | inl (p, _) ↦ inl (expose_order v o p)
    | inr k ↦ inr (k.allowed, reexpose_order v (shrink v s o k.allowed) k.cut)
  ]

  pub exposure_value :
      (c : RiskConfig F) (v : RiskInput F T) (d : F) (s : Sized F) (o : Order F) {e : Exposed F}
      → exposure_gate c v d s o ≡ next e
      → e.proposed_value ≡ value_of v e.order
  exposure_value c v d s o h = elim (exposure_gate-cases c v d s o h) [
    | inl (p, _) ↦ expose_value v o p
    | inr k ↦ reexpose_value v (shrink v s o k.allowed) k.cut
  ]
