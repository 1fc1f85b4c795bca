-- ===== src/Execution/Paper/Fills.antt =====
-- The state, the prices, the fills and the net positions of execution/adapters/paper.py.
use stock_bot.Base.{
  ℕ, zero, suc, ◌+◌, ◌-◌, String, Option, none, some, Bool, true, false, not, ◌&&◌, ◌||◌, List, [],
  ◌∷◌, keep, nat_eq, if◌then◌else◌,
}
use Prim.Native.Nat.{◌/◌, ◌%◌}
use Prim.Native.String
use stock_bot.Base.Dict.{Dict, get, put, remove, values}
use stock_bot.Base.Result.{Result, ok, err, value_error, key_error, other, raise_if}
use stock_bot.Base.Result
use stock_bot.Base.Exec.{Exec, lift, gets, modify, ◌>>=◌}
use stock_bot.Float.{Float, num, neg, abs, ltb, leb, min, isfinite}
use stock_bot.Float as Num
use stock_bot.Clock.{Timestamp}
use stock_bot.Execution.Models.{
  OrderSide, buy, sell, OrderRequest, OrderSnapshot, PositionSnapshot, Fill, check_fill,
  check_position,
}

pub record PaperConfig (F : Type 0) : Type 0 where
  pub slippage_bps : F
  pub fee_bps : F
  pub partial_fill_ratio : F

pub record PaperBroker (F T : Type 0) : Type 0 where
  pub orders : Dict (OrderSnapshot F T)
  pub requests : Dict (OrderRequest F T)
  pub positions : Dict (PositionSnapshot F)
  pub sequence : ℕ

-- The item of a list at an index.
abbrev text_at : ℕ → List String → String
text_at _ [] = ""
text_at zero (s ∷ _) = s
text_at (suc k) (_ ∷ ss) = text_at k ss

abbrev digit : ℕ → String
digit k = text_at k ("0" ∷ "1" ∷ "2" ∷ "3" ∷ "4" ∷ "5" ∷ "6" ∷ "7" ∷ "8" ∷ "9" ∷ [])

-- The decimal digits of `n` before `acc`, at least `width` of them. Each turn takes a digit or a
-- place, so that `n + width` turns are enough.
unfoldable pub padded : ℕ → ℕ → ℕ → String → String
padded zero width n acc = acc
padded (suc fuel) width n acc =
    let rest = padded fuel (width - 1) (n / 10) (String.◌++◌ (digit (n % 10)) acc) in
    if nat_eq n 0 && nat_eq width 0 then acc else rest

-- `f"{n:08d}"`
unfoldable pub eight_digits : ℕ → String
unfolding padded
eight_digits n = padded (n + 8) 8 n ""

abbrev is_buy : OrderSide → Bool
is_buy buy = true
is_buy sell = false

module _ {F : Type 0} ⦃n : Float F⦄ where
  -- `PaperAdapterConfig.__post_init__`
  unfoldable pub check_paper_config : PaperConfig F → Result (PaperConfig F)
  check_paper_config c =
      Result.◌>>◌
        (raise_if
          (not (isfinite c.slippage_bps)
            || not (isfinite c.fee_bps)
            || ltb c.slippage_bps (num 0)
            || ltb c.fee_bps (num 0))
          (value_error "slippage_bps and fee_bps must be finite and non-negative"))
        (Result.◌>>◌
          (raise_if (not (ltb (num 0) c.partial_fill_ratio && leb c.partial_fill_ratio (num 1)))
            (value_error "partial_fill_ratio must be in (0, 1]"))
          (ok c))

  -- `current.quantity if current is not None else 0.0`
  abbrev pub quantity_of : Option (PositionSnapshot F) → F
  quantity_of none = num 0
  quantity_of (some p) = p.quantity

  -- `signed_fill`
  abbrev pub signed : OrderSide → F → F
  signed buy q = q
  signed sell q = neg q

  unfoldable pub snapshot : String → F → F → Result (Option (PositionSnapshot F))
  unfolding check_position
  snapshot symbol quantity price =
      Result.◌>>=◌
        (check_position (record { symbol = symbol; quantity = quantity; average_price = price }))
        λ p. ok (some p)

  -- The fill on the side of the position, or on the other side.
  unfoldable pub increased :
      String → PositionSnapshot F → F → F → Result (Option (PositionSnapshot F))
  unfolding snapshot
  increased symbol p fill price =
      let quantity = Num.◌+◌ p.quantity fill in
      snapshot symbol quantity (
        Num.◌/◌ (Num.◌+◌ (Num.◌*◌ (abs p.quantity) p.average_price) (Num.◌*◌ (abs fill) price))
          (abs quantity))

  unfoldable pub closed : String → PositionSnapshot F → F → F → Result (Option (PositionSnapshot F))
  unfolding snapshot
  closed symbol p fill price =
      let close = min (abs p.quantity) (abs fill) in
      let residual = Num.◌-◌ (abs fill) close in
      if ltb (num 0) residual
      then snapshot symbol (if ltb (num 0) fill then residual else neg residual) price
      else if Num.◌==◌ (abs p.quantity) close
      then ok none
      else snapshot symbol (Num.◌+◌ p.quantity fill) p.average_price

  unfoldable pub adjusted :
      String → PositionSnapshot F → F → F → Result (Option (PositionSnapshot F))
  unfolding snapshot increased closed
  adjusted symbol p fill price =
      if Num.◌==◌ p.quantity (num 0)
      then snapshot symbol fill price
      else if (ltb (num 0) p.quantity && ltb (num 0) fill)
          || (ltb p.quantity (num 0) && ltb fill (num 0))
      then increased symbol p fill price
      else closed symbol p fill price

  -- The position that `_apply_fill` leaves, and `none` where it removes it.
  unfoldable pub next_position :
      String → Option (PositionSnapshot F) → F → F → Result (Option (PositionSnapshot F))
  unfolding snapshot adjusted
  next_position symbol none fill price = snapshot symbol fill price
  next_position symbol (some p) fill price = adjusted symbol p fill price

-- `self._positions[symbol] = position`, or `self._positions.pop(symbol, None)`
abbrev put_or_remove :
    {F : Type 0}
    → String
    → Option (PositionSnapshot F)
    → Dict (PositionSnapshot F)
    → Dict (PositionSnapshot F)
put_or_remove symbol none d = remove symbol d
put_or_remove symbol (some p) d = put symbol p d

module _ {F T : Type 0} ⦃n : Float F⦄ where
  -- `_apply_fill`
  unfoldable pub apply_fill : OrderRequest F T → Fill F T → Exec (PaperBroker F T) (Unit {0})
  unfolding next_position
  apply_fill o f = do
    current ← gets (λ b. get o.symbol b.positions)
    next ← lift (next_position o.symbol current (signed o.side f.quantity) f.price)
    modify (λ b. record b { positions = put_or_remove o.symbol next b.positions })

  -- `positions`
  abbrev pub open_positions : PaperBroker F T → List (PositionSnapshot F)
  open_positions b = keep (λ p. not (Num.◌==◌ p.quantity (num 0))) (values b.positions)

  -- the price of an order without a price provider
  abbrev pub default_price : OrderRequest F T → F
  default_price o = elim o.limit_price [ none ↦ num 100 | some p ↦ p ]

module _ {F T : Type 0} ⦃n : Float F⦄ ⦃t : Timestamp T⦄ (c : PaperConfig F)
    (provider : Option (OrderRequest F T → Result F)) where
  -- `price_provider(order)` or the default, which must be positive and finite
  unfoldable pub price_of : OrderRequest F T → Result F
  price_of o =
      Result.◌>>=◌ (elim provider [ none ↦ ok (default_price o) | some f ↦ f o ])
        λ price.
          Result.◌>>◌
            (raise_if (not (isfinite price) || leb price (num 0))
              (value_error "paper execution price must be positive and finite"))
            (ok price)

  -- The quantity of the first fill; `int` of a positive float is its floor.
  unfoldable pub first_quantity : F → F
  first_quantity q =
      let part = Num.◌*◌ q c.partial_fill_ratio in
      if ltb c.partial_fill_ratio (num 1)
      then (if leb (n.floor part) (num 0) then min q (num 1) else n.floor part)
      else part

  abbrev pub fill_price : OrderSide → F → F
  fill_price side price =
      let adverse = Num.◌/◌ c.slippage_bps (num 10000) in
      Num.◌*◌ price (if is_buy side then Num.◌+◌ (num 1) adverse else Num.◌-◌ (num 1) adverse)

  abbrev fee_of : F → F → F
  fee_of price quantity = Num.◌/◌ (Num.◌*◌ (Num.◌*◌ price quantity) c.fee_bps) (num 10000)

  -- The fill with the number of the sequence, at the time `now`.
  unfoldable pub make_fill : OrderRequest F T → ℕ → F → F → T → Result (Fill F T)
  unfolding check_fill eight_digits
  make_fill o k quantity price now = check_fill (record {
    fill_id = String.◌++◌ "PF-" (eight_digits k);
    client_order_id = o.client_order_id;
    quantity = quantity;
    price = price;
    fee = fee_of price quantity;
    timestamp = now;
  })
