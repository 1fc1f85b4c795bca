-- ===== src/Execution/Paper/Positions.antt =====
-- The net position that a fill leaves in the paper broker of execution/adapters/paper.py.
use stock_bot.Base.{
  String, Bool, true, false, not, ◌&&◌, ◌||◌, Option, none, some, ◌≡◌, ◌∙◌, refl, ap, arith,
  if◌then◌else◌,
}
use stock_bot.Base.Int.{ℤ, pos, negsuc, ◌+ℤ◌, ◌-ℤ◌}
use stock_bot.Base.Result.{ok}
use stock_bot.Float.{◌+◌, ◌*◌, ◌/◌, ltb, min, abs, neg, ◌==◌}
use stock_bot.Float.Fixed.{fixed}
use stock_bot.Execution.Models.{PositionSnapshot, check_position}
use stock_bot.Execution.Paper.Fills.{
  next_position, adjusted, increased, closed, snapshot, quantity_of,
}

-- What is left of a quantity `a` after a fill `b` on the other side.
abbrev left_of : ℤ → ℤ → ℤ
left_of a b =
    let close = min (abs a) (abs b) in
    let residual = abs b -ℤ close in
    if ltb (pos 0) residual
    then (if ltb (pos 0) b then residual else neg residual)
    else if abs a == close
    then pos 0
    else a +ℤ b

-- Not of the same sign.
abbrev opposite : ℤ → ℤ → Bool
opposite a b = not ((ltb (pos 0) a && ltb (pos 0) b) || (ltb a (pos 0) && ltb b (pos 0)))

left_of-sum : (a b : ℤ) → opposite a b ≡ true → left_of a b ≡ a +ℤ b
unfolding ◌+ℤ◌ ◌-ℤ◌
left_of-sum (pos a) (pos b) h = ground arith
left_of-sum (pos a) (negsuc b) h = ground arith
left_of-sum (negsuc a) (pos b) h = ground arith
left_of-sum (negsuc a) (negsuc b) h = ground arith

snapshot-quantity :
    (symbol : String) (quantity price : ℤ) {next : Option (PositionSnapshot ℤ)}
    → snapshot symbol quantity price ≡ ok next
    → quantity_of next ≡ quantity
unfolding snapshot check_position
snapshot-quantity symbol quantity price h = ground arith

closed-quantity :
    (symbol : String) (p : PositionSnapshot ℤ) (fill price : ℤ) {next : Option (PositionSnapshot ℤ)}
    → closed symbol p fill price ≡ ok next
    → quantity_of next ≡ left_of p.quantity fill
unfolding closed
closed-quantity symbol p fill price h = grind (arith, snapshot-quantity)

zero_sum : (a b : ℤ) → a == pos 0 ≡ true → b ≡ a +ℤ b
unfolding ◌+ℤ◌
zero_sum (pos a) b h = ground arith
zero_sum (negsuc a) b h = ground arith

adjusted-quantity :
    (symbol : String) (p : PositionSnapshot ℤ) (fill price : ℤ) {next : Option (PositionSnapshot ℤ)}
    → adjusted symbol p fill price ≡ ok next
    → quantity_of next ≡ p.quantity +ℤ fill
unfolding adjusted increased
adjusted-quantity symbol p fill price {next} = flat (p.quantity == pos 0) refl
  where
    same : Bool
    same =
        (ltb (pos 0) p.quantity && ltb (pos 0) fill) || (ltb p.quantity (pos 0) && ltb fill (pos 0))

    weighted : ℤ
    weighted = (abs p.quantity * p.average_price + abs fill * price) / abs (p.quantity +ℤ fill)

    sided :
        (b : Bool)
        → same ≡ b
        → (if b then increased symbol p fill price else closed symbol p fill price) ≡ ok next
        → quantity_of next ≡ p.quantity +ℤ fill
    sided true e h = snapshot-quantity symbol (p.quantity +ℤ fill) weighted h
    sided false e h = closed-quantity symbol p fill price h ∙ left_of-sum p.quantity fill (ap not e)

    flat :
        (b : Bool)
        → (p.quantity == pos 0) ≡ b
        → (if b
            then snapshot symbol fill price
            else if same
            then increased symbol p fill price
            else closed symbol p fill price)
          ≡ ok next
        → quantity_of next ≡ p.quantity +ℤ fill
    flat true e h = snapshot-quantity symbol fill price h ∙ zero_sum p.quantity fill e
    flat false e h = sided same refl h

-- With exact decimals, the floats being integer thousandths, the position that a fill leaves is for
-- the sum of the current quantity and the signed quantity of the fill, in each of the cases: a new
-- position, an increase, a reduction, a flattening and a reversal. A removed position counts as zero.
pub next_position-quantity :
    (symbol : String) (current : Option (PositionSnapshot ℤ)) (fill price : ℤ)
    {next : Option (PositionSnapshot ℤ)}
    → next_position symbol current fill price ≡ ok next
    → quantity_of next ≡ quantity_of current +ℤ fill
unfolding next_position
next_position-quantity symbol none fill price h =
    snapshot-quantity symbol fill price h ∙ zero_sum (pos 0) fill refl
next_position-quantity symbol (some p) fill price h = adjusted-quantity symbol p fill price h
