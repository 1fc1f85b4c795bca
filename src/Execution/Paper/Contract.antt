-- ===== src/Execution/Paper/Contract.antt =====
-- What the execution engine asks of a broker response (`submit` and `_validate_snapshot_contract` of
-- execution/engine.py), and the responses of execution/adapters/paper.py.
use stock_bot.Base.{
  ℕ, String, Option, none, some, Bool, true, false, ◌≡◌, refl, arith, if◌then◌else◌,
}
use stock_bot.Base.Int.{ℤ, pos, negsuc, ◌+ℤ◌, ◌-ℤ◌}
use stock_bot.Base.Result.{Result, ok, err}
use Prim.Native.Nat
use stock_bot.Base.Result
use stock_bot.Base.Dict.{get}
use stock_bot.Float.{Float, num, eps, abs, leb, ltb, ◌+◌, ◌-◌}
use stock_bot.Float.Fixed.{fixed}
use stock_bot.Clock.{Timestamp}
use stock_bot.Execution.Status.{filled, partially_filled}
use stock_bot.Execution.Models.{OrderRequest, OrderSnapshot, Fill, check_snapshot, check_fill}
use stock_bot.Execution.Engine.State.{check_contract}
use stock_bot.Execution.Paper.Fills.{
  PaperConfig, PaperBroker, first_quantity, fill_price, price_of, make_fill,
}
use stock_bot.Execution.Paper.Broker.{paper_submit, paper_cancel, place, respond, response_of}

module _ {F T : Type 0} ⦃n : Float F⦄ ⦃t : Timestamp T⦄ (c : PaperConfig F)
    (provider : Option (OrderRequest F T → Result F)) where
  -- Submitting an id that the paper broker has answers with the stored snapshot and changes nothing.
  paper_submit-repeated :
      (o : OrderRequest F T) (now : T) (b : PaperBroker F T) {s : OrderSnapshot F T}
      → get o.client_order_id b.orders ≡ some s
      → paper_submit c provider o now b ≡ (ok s, b)
  unfolding paper_submit
  paper_submit-repeated o now b h = ground arith

  -- A cancellation, successful or not, changes no position and no request, and a snapshot that it
  -- returns has the quantities and the fills of the order that was stored.
  pub paper_cancel-positions :
      (id : String) (now : T) (b : PaperBroker F T) {prior : OrderSnapshot F T}
      → get id b.orders ≡ some prior
      → ((paper_cancel c provider id now b).1.positions ≡ b.positions)
        × ((paper_cancel c provider id now b).1.requests ≡ b.requests)
        × ((s : OrderSnapshot F T)
            → (paper_cancel c provider id now b).0 ≡ ok s
            → (s.filled_quantity ≡ prior.filled_quantity) × (s.fills ≡ prior.fills))
  unfolding paper_cancel check_snapshot
  paper_cancel-positions id now b h = (ground arith, ground arith, λ s e. ground arith)

module _ {F T : Type 0} ⦃n : Float F⦄ where
  -- What a new response says of its order.
  record IsResponse (o : OrderRequest F T) (s : OrderSnapshot F T) : Type 0 where
    order : s.client_order_id ≡ o.client_order_id
    requested : s.requested_quantity ≡ o.quantity
    status : s.status ≡ (if leb o.quantity s.filled_quantity then filled else partially_filled)
    positive : leb s.filled_quantity (num 0) ≡ false
    bounded : ltb (s.requested_quantity + eps) s.filled_quantity ≡ false

module _ {F T : Type 0} ⦃n : Float F⦄ ⦃t : Timestamp T⦄ where
  check_snapshot-same :
      (s : OrderSnapshot F T) {a : OrderSnapshot F T}
      → check_snapshot s ≡ ok a
      → (s ≡ a) × (ltb (s.requested_quantity + eps) s.filled_quantity ≡ false)
  unfolding check_snapshot
  check_snapshot-same s h = (ground arith, ground arith)

module _ {F T : Type 0} ⦃n : Float F⦄ ⦃t : Timestamp T⦄ (c : PaperConfig F)
    (provider : Option (OrderRequest F T → Result F)) where
  make_fill-positive :
      (o : OrderRequest F T) (k : ℕ) (quantity price : F) (now : T) {f : Fill F T}
      → make_fill c provider o k quantity price now ≡ ok f
      → leb quantity (num 0) ≡ false
  unfolding make_fill check_fill
  make_fill-positive o k quantity price now h = ground arith

  respond-IsResponse :
      (o : OrderRequest F T) (k : ℕ) (now : T) {a : OrderSnapshot F T × Fill F T}
      → respond c provider o k now ≡ ok a
      → IsResponse o a.0
  unfolding respond
  respond-IsResponse o k now {a} = priced (price_of c provider o)
    where
      quantity : F
      quantity = first_quantity c provider o.quantity

      checked :
          (f : Fill F T)
          → leb quantity (num 0) ≡ false
          → (r : Result (OrderSnapshot F T))
          → check_snapshot (response_of c provider o k quantity f now) ≡ r
          → (Result.◌>>=◌ r λ s. ok (s, f)) ≡ ok a
          → IsResponse o a.0
      checked f p (err x) e h = cc
      checked f p (ok s) e h =
          let (same, bounded) = check_snapshot-same (response_of c provider o k quantity f now) e in
          record {
            order = ground arith;
            requested = ground arith;
            status = ground arith;
            positive = ground arith;
            bounded = ground arith;
          }

      filled_with :
          (price : F)
          → (r : Result (Fill F T)) → make_fill c provider o k quantity price now ≡ r
          → (Result.◌>>=◌ r λ f.
              Result.◌>>=◌
                (check_snapshot (response_of c provider o k quantity f now))
                λ s. ok (s, f))
            ≡ ok a
          → IsResponse o a.0
      filled_with price (err x) e h = cc
      filled_with price (ok f) e h =
          checked f (make_fill-positive o k quantity price now e) _ refl h

      priced :
          (r : Result F)
          → (Result.◌>>=◌ r λ price.
              Result.◌>>=◌
                (make_fill c provider o k quantity (fill_price c provider o.side price) now)
                λ f.
                  Result.◌>>=◌
                    (check_snapshot (response_of c provider o k quantity f now))
                    λ s. ok (s, f))
            ≡ ok a
          → IsResponse o a.0
      priced (err x) h = cc
      priced (ok price) h = filled_with (fill_price c provider o.side price) _ refl h

  place-IsResponse :
      (o : OrderRequest F T) (now : T) (b : PaperBroker F T) {s : OrderSnapshot F T}
      → (place c provider o now b).0 ≡ ok s
      → IsResponse o s
  unfolding place
  place-IsResponse o now b {s} h = go (respond c provider o (Nat.◌+◌ b.sequence 1) now) refl
    where
      go :
          (r : Result (OrderSnapshot F T × Fill F T))
          → respond c provider o (Nat.◌+◌ b.sequence 1) now ≡ r
          → IsResponse o s
      go (err x) e = ground arith
      go (ok a) e =
          let r = respond-IsResponse o (Nat.◌+◌ b.sequence 1) now e in
          let same : a.0 ≡ s = ground arith in
          record {
            order = ground (arith, r.order);
            requested = ground (arith, r.requested);
            status = ground (arith, r.status);
            positive = ground (arith, r.positive);
            bounded = ground (arith, r.bounded);
          }

-- A quantity that is neither below nor above another is at no distance from it.
no_distance :
    (a q : ℤ) → leb q a ≡ true → ltb (q + pos 0) a ≡ false → ltb (pos 0) (abs (a - q)) ≡ false
unfolding ◌+ℤ◌ ◌-ℤ◌
no_distance (pos a) (pos q) h g = ground arith
no_distance (pos a) (negsuc q) h g = ground arith
no_distance (negsuc a) (pos q) h g = ground arith
no_distance (negsuc a) (negsuc q) h g = ground arith

response-check_contract :
    {T : Type 0} (o : OrderRequest ℤ T) (s : OrderSnapshot ℤ T)
    → IsResponse o s
    → check_contract s ≡ ok tt
unfolding check_contract
response-check_contract o s r = go (leb o.quantity s.filled_quantity) refl
  where
    go : (b : Bool) → leb o.quantity s.filled_quantity ≡ b → check_contract s ≡ ok tt
    go true e =
        let d = no_distance s.filled_quantity o.quantity e in
        ground (arith, r.requested, r.status, r.bounded, d)
    go false e = ground (arith, r.requested, r.status, r.positive, e)

module _ {T : Type 0} ⦃t : Timestamp T⦄ (c : PaperConfig ℤ)
    (provider : Option (OrderRequest ℤ T → Result ℤ)) where
  -- With exact decimals, the floats being integer thousandths, the response of the paper broker to a
  -- new order is for that order and its quantity, and it passes the contract check of the execution
  -- engine.
  pub paper_submit-check_contract :
      (o : OrderRequest ℤ T) (now : T) (b : PaperBroker ℤ T) {s : OrderSnapshot ℤ T}
      → get o.client_order_id b.orders ≡ none
      → (paper_submit c provider o now b).0 ≡ ok s
      → (s.client_order_id ≡ o.client_order_id)
        × (s.requested_quantity ≡ o.quantity)
        × (check_contract s ≡ ok tt)
  unfolding paper_submit
  paper_submit-check_contract o now b {s} known h =
      let g : (place c provider o now b).0 ≡ ok s = ground arith in
      let r = place-IsResponse c provider o now b g in
      (r.order, r.requested, response-check_contract o s r)
