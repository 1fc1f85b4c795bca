-- ===== src/Execution/Engine/Answers.antt =====
-- What a caller of `submit` of execution/engine.py learns: a submission keeps to its authorization,
-- and a repeated one answers from the books.
use stock_bot.Base.{
  true, false, ◌≡◌, ◌≢◌, ◌↔◌, ◌⊎◌, inl, inr, some, refl, arith, eq_iff, Option-cases,
}
use stock_bot.Base.Result.{Error, ok, err, Result-cases}
use stock_bot.Float.{Float, num, leb, isfinite}
use stock_bot.Float as Num
use stock_bot.Clock.{Timestamp}
use stock_bot.Execution.Status.{OrderStatus, rejected_local, rejected_broker, failed}
use stock_bot.Execution.Models.{ExecutionAuthorization, authorized, OrderRequest, ExecutionResult}
use stock_bot.Execution.Environment.{Environment}
use stock_bot.Execution.Engine.State.{World}
use stock_bot.Execution.Engine.Requests.{side_for_direction, validate, check_against}
use stock_bot.Execution.Engine.Submission.{submit, repeated, not_rejected}
use stock_bot.Execution.Engine.Authorized.{submit-repeated, submit-invalid}
use stock_bot.Execution.Engine.Books.{submit-order_of}

-- a status that is none of REJECTED_LOCAL, REJECTED_BROKER and FAILED
abbrev pub IsUnrejected : OrderStatus → Type 0
IsUnrejected s = (s ≢ rejected_local) × (s ≢ rejected_broker) × (s ≢ failed)

not_rejected-IsUnrejected : (s : OrderStatus) → (not_rejected s ≡ true) ↔ IsUnrejected s
not_rejected-IsUnrejected s = ground arith

module _ {F T : Type 0} ⦃n : Float F⦄ ⦃t : Timestamp T⦄ where
  -- The order retains an active authorization for its symbol, its side and a quantity equal to its
  -- own, which is positive and finite.
  pub record IsBacked (o : OrderRequest F T) : Type 0 where
    pub backing : ExecutionAuthorization F T
    pub retained : o.authorization ≡ some backing
    pub active : backing.status ≡ authorized
    pub quantity : Num.◌==◌ o.quantity backing.approved_quantity ≡ true
    pub symbol : o.symbol ≡ backing.symbol
    pub side : side_for_direction backing.direction ≡ ok o.side
    pub positive : leb o.quantity (num 0) ≡ false
    pub finite : isfinite o.quantity ≡ true

  check_against-IsBacked :
      (o : OrderRequest F T) (a : ExecutionAuthorization F T)
      → o.authorization ≡ some a
      → check_against o a ≡ ok tt
      → IsBacked o
  unfolding check_against side_for_direction
  check_against-IsBacked o a q h = record {
    backing = a;
    retained = q;
    active = ground (arith, h);
    quantity = ground (arith, h);
    symbol = ground (arith, h, eq_iff o.symbol a.symbol);
    side = ground (arith, h);
    positive = ground (arith, h);
    finite = ground (arith, h);
  }

  validate-IsBacked : (o : OrderRequest F T) → validate o ≡ ok tt → IsBacked o
  unfolding validate
  validate-IsBacked o h = elim (Option-cases o.authorization) [
    | inl q ↦ ground (arith, q, h)
    | inr (a, q) ↦ check_against-IsBacked o a q (ground (arith, q, h))
  ]

module _ {F T B : Type 0} ⦃n : Float F⦄ ⦃t : Timestamp T⦄ (env : Environment F T B) where
  -- Every submission raises and changes nothing at all, or its order retains an active authorization
  -- for its symbol, its side and a quantity equal to its own, which is positive and finite.
  pub submit-IsBacked :
      (o : OrderRequest F T) (w : World F T B)
      → ((e : Error) × (submit env o w ≡ (err e, w))) ⊎ IsBacked o
  submit-IsBacked o w = elim (Result-cases (validate o)) [
    | inr (e, q) ↦ inl (e, submit-invalid env o w q)
    | inl (tt, q) ↦ inr (validate-IsBacked o q)
  ]

  submit-validate :
      (o : OrderRequest F T) (w : World F T B) {r : ExecutionResult F T}
      → (submit env o w).0 ≡ ok r
      → validate o ≡ ok tt
  submit-validate o w h = elim (Result-cases (validate o)) [
    | inl (tt, q) ↦ q
    | inr (e, q) ↦ ground (arith, h, submit-invalid env o w q)
  ]

  -- A submission after one that returned, from the state `w` to which that one led.
  pub record IsRepeat (o : OrderRequest F T) (w : World F T B) (r : ExecutionResult F T)
      : Type 0 where
    pub answer : ExecutionResult F T
    pub answered : (submit env o w).0 ≡ ok answer
    pub snapshot : answer.snapshot ≡ r.snapshot
    pub accepted : (answer.accepted ≡ true) ↔ IsUnrejected r.snapshot.status
    pub outside : (submit env o w).1.outside ≡ w.outside
    pub orders : (submit env o w).1.engine.orders ≡ w.engine.orders
    pub states : (submit env o w).1.engine.states ≡ w.engine.states
    pub fills : (submit env o w).1.engine.fills ≡ w.engine.fills
    pub events : (submit env o w).1.engine.events ≡ w.engine.events

  -- When a submission has returned, by whichever of its paths, submitting the order once more
  -- returns the same snapshot, accepted exactly when its status is none of REJECTED_LOCAL,
  -- REJECTED_BROKER and FAILED. It leaves the broker, the clock and the audit store in the state
  -- that they were in, and the orders, the statuses, the fills and the journal as they were.
  pub submit-IsRepeat :
      (o : OrderRequest F T) (w : World F T B) {r : ExecutionResult F T}
      → (submit env o w).0 ≡ ok r
      → IsRepeat o (submit env o w).1 r
  submit-IsRepeat o w {r} h =
      let w' = (submit env o w).1 in
      let same =
        submit-repeated env o w' {s = r.snapshot} (submit-validate o w h)
          (submit-order_of env o w h) in
      record {
        answer = repeated env o r.snapshot;
        answered = same.0;
        snapshot = refl;
        accepted = not_rejected-IsUnrejected r.snapshot.status;
        outside = same.1;
        orders = same.2;
        states = same.3;
        fills = same.4;
        events = same.5;
      }
