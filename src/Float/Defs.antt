-- ===== src/Float/Defs.antt =====
-- The operations on `float` that the program calls, and what is assumed of them.
use stock_bot.Base.{ℕ, ◌≡◌, Bool, true, false, if◌then◌else◌}

pub record Float (F : Type 0) : Type 0 where
  -- a literal that is a whole number
  pub of_nat : ℕ → F
  -- the literal 1e-12
  pub tolerance : F
  pub plus : F → F → F
  pub minus : F → F → F
  pub times : F → F → F
  pub over : F → F → F
  pub negate : F → F
  pub absolute : F → F
  -- `math.floor`, as a float again
  pub floor : F → F
  pub lt : F → F → Bool
  pub le : F → F → Bool
  pub eq : F → F → Bool
  pub isfinite : F → Bool

module _ {F : Type 0} ⦃n : Float F⦄ where
  infixl 65 ◌+◌ ◌-◌
  infixl 70 ◌*◌ ◌/◌
  infix 50 ◌==◌
  abbrev pub ◌+◌ : F → F → F
  ◌+◌ = n.plus

  abbrev pub ◌-◌ : F → F → F
  ◌-◌ = n.minus

  abbrev pub ◌*◌ : F → F → F
  ◌*◌ = n.times

  abbrev pub ◌/◌ : F → F → F
  ◌/◌ = n.over

  abbrev pub neg : F → F
  neg = n.negate

  abbrev pub abs : F → F
  abs = n.absolute

  abbrev pub num : ℕ → F
  num = n.of_nat

  abbrev pub eps : F
  eps = n.tolerance

  abbrev pub ltb : F → F → Bool
  ltb = n.lt

  abbrev pub leb : F → F → Bool
  leb = n.le

  abbrev pub ◌==◌ : F → F → Bool
  ◌==◌ = n.eq

  abbrev pub isfinite : F → Bool
  isfinite = n.isfinite

  -- Python's `min(a, b)` and `max(a, b)` keep the first of two that compare equal.
  abbrev pub min : F → F → F
  min a b = if n.lt b a then b else a

  abbrev pub max : F → F → F
  max a b = if n.lt a b then b else a

-- What IEEE 754 says of comparisons; those that a NaN would break ask for finite numbers.
pub record IsOrdered (F : Type 0) ⦃n : Float F⦄ : Type 0 where
  pub le_refl : (a : F) → n.isfinite a ≡ true → n.le a a ≡ true
  pub eq_refl : (a : F) → n.isfinite a ≡ true → n.eq a a ≡ true
  pub le_trans : (a b c : F) → n.le a b ≡ true → n.le b c ≡ true → n.le a c ≡ true
  pub le_of_lt : (a b : F) → n.lt a b ≡ true → n.le a b ≡ true
  pub lt_irrefl : (a : F) → n.lt a a ≡ false
  pub lt_trans : (a b c : F) → n.lt a b ≡ true → n.lt b c ≡ true → n.lt a c ≡ true
  pub not_lt_of_le : (a b : F) → n.le a b ≡ true → n.lt b a ≡ false
  pub le_of_not_lt :
      (a b : F) → n.isfinite a ≡ true → n.isfinite b ≡ true → n.lt b a ≡ false → n.le a b ≡ true
  pub nat_finite : (k : ℕ) → n.isfinite (n.of_nat k) ≡ true
  pub not_lt_of_eq : (a b : F) → n.eq a b ≡ true → n.lt a b ≡ false
  pub lt_of_lt_of_eq : (a b c : F) → n.lt a b ≡ true → n.eq b c ≡ true → n.lt a c ≡ true
