-- ===== src/Execution/Engine/Authorized.antt =====
-- Orders keep to their authorization: `from_authorization`, `from_exit_authorization`, `validate` and
-- `submit` of execution/engine.py.
use stock_bot.Base.{String, true, false, not, Option, some, ◌≡◌, arith, if◌then◌else◌, eq_iff}
use stock_bot.Base.Text.{strip, upper}
use stock_bot.Base.Result.{Error, ok, err, value_error, raise_if}
use stock_bot.Float.{Float, IsOrdered, num, abs, ltb, leb, isfinite}
use stock_bot.Float as Num
use stock_bot.Clock.{Timestamp}
use stock_bot.Execution.Models.{
  buy, sell, OrderType, ExecutionAuthorization, authorized, OrderRequest, OrderSnapshot,
  PositionSnapshot, check_request,
}
use stock_bot.Execution.Environment.{Environment}
use stock_bot.Execution.Engine.State.{World, order_of}
use stock_bot.Execution.Engine.Requests.{
  side_for_direction, from_authorization, from_exit_authorization, validate, check_against,
  or_default,
}
use stock_bot.Execution.Engine.Submission.{submit, repeated}
use text.Mathlib.Text.{◌==◌}

module _ {F T : Type 0} ⦃n : Float F⦄ ⦃t : Timestamp T⦄ where
  -- An order is the authorization's: its quantity, its symbol in canonical form and its side.
  pub record IsAuthorized (a : ExecutionAuthorization F T) (o : OrderRequest F T) : Type 0 where
    pub authorization : o.authorization ≡ some a
    pub status : a.status ≡ authorized
    pub quantity : o.quantity ≡ a.approved_quantity
    pub positive : leb o.quantity (num 0) ≡ false
    pub finite : isfinite o.quantity ≡ true
    pub symbol : o.symbol ≡ upper (strip a.symbol)
    pub side : side_for_direction a.direction ≡ ok o.side

  -- An order that `from_authorization` returns retains the authorization, which is AUTHORIZED, and
  -- has exactly its positive and finite quantity, its symbol in canonical form and its side.
  pub from_authorization-IsAuthorized :
      (digest24 : String → String) (a : ExecutionAuthorization F T) (decision_id : String)
      (order_type : OrderType) (limit_price : Option F) (purpose : String) (created_at : Option T)
      {o : OrderRequest F T}
      → from_authorization digest24 a decision_id order_type limit_price purpose created_at ≡ ok o
      → IsAuthorized a o
  unfolding from_authorization side_for_direction check_request
  from_authorization-IsAuthorized digest24 a decision_id order_type limit_price purpose created_at
        h =
      record {
        authorization = ground arith;
        status = ground arith;
        quantity = ground arith;
        positive = ground arith;
        finite = ground arith;
        symbol = ground arith;
        side = ground arith;
      }

  from_authorization-purpose :
      (digest24 : String → String) (a : ExecutionAuthorization F T) (decision_id : String)
      (order_type : OrderType) (limit_price : Option F) (purpose : String) (created_at : Option T)
      {o : OrderRequest F T}
      → from_authorization digest24 a decision_id order_type limit_price purpose created_at ≡ ok o
      → o.purpose ≡ purpose
  unfolding from_authorization side_for_direction check_request
  from_authorization-purpose digest24 a decision_id order_type limit_price purpose created_at h =
      ground arith

  -- For floats that are ordered, `validate` accepts an order of `from_authorization` exactly when the
  -- authorization's symbol is in canonical form, trimmed and in upper case.
  pub from_authorization-validate :
      (laws : IsOrdered F) (digest24 : String → String) (a : ExecutionAuthorization F T)
      (decision_id : String) (order_type : OrderType) (limit_price : Option F) (purpose : String)
      (created_at : Option T) {o : OrderRequest F T}
      → from_authorization digest24 a decision_id order_type limit_price purpose created_at ≡ ok o
      → validate o
        ≡ raise_if
            (not (upper (strip a.symbol) == a.symbol))
            (value_error "execution symbol does not match authorization")
  unfolding validate check_against side_for_direction
  from_authorization-validate laws digest24 a decision_id order_type limit_price purpose created_at
        {o} h =
      let r =
        from_authorization-IsAuthorized digest24 a decision_id order_type limit_price purpose
          created_at h in
      ground (
        arith,
        r.authorization,
        r.status,
        r.quantity,
        r.positive,
        r.finite,
        r.symbol,
        r.side,
        laws.eq_refl o.quantity r.finite,
      )

  -- The order closes exposure of the position: the quantity equals, as a float, some quantity that is
  -- not above the position's.
  pub record IsExit (p : PositionSnapshot F) (o : OrderRequest F T) : Type 0 where
    pub symbol : o.symbol ≡ p.symbol
    pub purpose : o.purpose ≡ "EXIT"
    pub side : o.side ≡ (if ltb (num 0) p.quantity then sell else buy)
    pub bounded : (q : F) × (Num.◌==◌ o.quantity q ≡ true) × (ltb (abs p.quantity) q ≡ false)

  -- An exit order that `from_exit_authorization` returns is for the symbol of the position, on the
  -- side that closes it, with the purpose EXIT, and its quantity equals one that is not above the
  -- absolute quantity of the position; it also keeps to its authorization.
  pub from_exit_authorization-IsExit :
      (digest24 : String → String) (a : ExecutionAuthorization F T) (decision_id : String)
      (p : PositionSnapshot F) (quantity : Option F) (order_type : OrderType)
      (limit_price : Option F) (created_at : Option T) {o : OrderRequest F T}
      → from_exit_authorization digest24 a decision_id p quantity order_type limit_price created_at
        ≡ ok o
      → IsExit p o × IsAuthorized a o
  unfolding from_exit_authorization side_for_direction
  from_exit_authorization-IsExit digest24 a decision_id p quantity order_type limit_price created_at
        {o} h =
      let g : from_authorization digest24 a decision_id order_type limit_price "EXIT" created_at
          ≡ ok o =
        ground arith in
      let r =
        from_authorization-IsAuthorized digest24 a decision_id order_type limit_price "EXIT"
          created_at g in
      (
        record {
          symbol = ground (arith, r.symbol, eq_iff (upper (strip a.symbol)) p.symbol);
          purpose =
              from_authorization-purpose digest24 a decision_id order_type limit_price "EXIT"
                created_at g;
          side = ground (arith, r.side);
          bounded =
              (or_default quantity (abs p.quantity), ground (arith, r.quantity), ground arith);
        },
        r,
      )

module _ {F T B : Type 0} ⦃n : Float F⦄ ⦃t : Timestamp T⦄ (env : Environment F T B) where
  -- Submitting a valid order whose id is in the books answers with the snapshot of the books, and
  -- neither calls the broker nor changes an order, a status, a fill or the journal.
  pub submit-repeated :
      (o : OrderRequest F T) (w : World F T B) {s : OrderSnapshot F T}
      → validate o ≡ ok tt
      → order_of o.client_order_id w ≡ some s
      → ((submit env o w).0 ≡ ok (repeated env o s))
        × ((submit env o w).1.outside ≡ w.outside)
        × ((submit env o w).1.engine.orders ≡ w.engine.orders)
        × ((submit env o w).1.engine.states ≡ w.engine.states)
        × ((submit env o w).1.engine.fills ≡ w.engine.fills)
        × ((submit env o w).1.engine.events ≡ w.engine.events)
  unfolding submit
  submit-repeated o w h k =
      (ground arith, ground arith, ground arith, ground arith, ground arith, ground arith)

  -- An order that fails the local validation changes nothing at all and raises the same error.
  pub submit-invalid :
      (o : OrderRequest F T) (w : World F T B) {e : Error}
      → validate o ≡ err e
      → submit env o w ≡ (err e, w)
  unfolding submit
  submit-invalid o w h = ground arith
