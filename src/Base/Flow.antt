-- ===== src/Base/Flow.antt =====
-- A function body with early returns: it raises, it returns an `R`, or it goes on with an `A`.
use Prim.Native.String.{String}
use mathlib.Core.Bool.{Bool, true, false}
use mathlib.Core.Path.{◌≡◌, refl}
use stock_bot.Base.Result.{Error, value_error, Result, ok, err}

pub data Flow (R : Type 0) (A : Type 0) : Type 0 where
  raised : Error → Flow R A
  returned : R → Flow R A
  next : A → Flow R A

infixl 5 ◌>>=◌ ◌>>◌
abbrev pub ◌>>=◌ : {R A B : Type 0} → Flow R A → (A → Flow R B) → Flow R B
raised e >>= f = raised e
returned r >>= f = returned r
next a >>= f = f a

abbrev pub ◌>>◌ : {R A B : Type 0} → Flow R A → Flow R B → Flow R B
m >> k = m >>= λ _. k

-- `return e`, where building the value may raise
abbrev pub return : {R A : Type 0} → Result R → Flow R A
return (ok r) = returned r
return (err e) = raised e

-- `if b: return e`
abbrev pub return_if : {R : Type 0} → Bool → Result R → Flow R (Unit {0})
return_if true r = return r
return_if false r = next tt

abbrev pub call : {R A : Type 0} → Result A → Flow R A
call (ok a) = next a
call (err e) = raised e

-- `try: a = call` with `except ValueError as exc: return handler(str(exc))`
abbrev pub except_value_error : {R A : Type 0} → Result A → (String → Result R) → Flow R A
except_value_error (ok a) handler = next a
except_value_error (err (value_error m)) handler = return (handler m)
except_value_error (err e) handler = raised e

-- The end of the body.
abbrev pub finish : {R : Type 0} → Flow R R → Result R
finish (raised e) = err e
finish (returned r) = ok r
finish (next r) = ok r

-- How a body goes on past a step.
pub >>=-cases :
    {R A B : Type 0} (m : Flow R A) (f : A → Flow R B) {b : B}
    → (m >>= f) ≡ next b
    → (a : A) × (m ≡ next a) × (f a ≡ next b)
>>=-cases (raised e) f h = cc
>>=-cases (returned r) f h = cc
>>=-cases (next a) f h = (a, refl, h)
