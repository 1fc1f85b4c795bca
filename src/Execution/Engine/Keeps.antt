-- ===== src/Execution/Engine/Keeps.antt =====
-- What the operations of an `ExecutionEngine` preserve (execution/engine.py): the rules for the
-- statements that they are made of.
use stock_bot.Base.{Option, none, some, Bool, true, false, ◌≡◌, refl, if◌then◌else◌}
use stock_bot.Base.Result.{Error, Result, ok, err}
use stock_bot.Base.Exec.{Exec, pure, raise, lift, gets, option_case, result_case, ◌>>=◌}

-- A program after which, with an error or without, the state has the property that it had.
pub record Keeps {S A : Type 0} (P : S → Type 0) (m : Exec S A) : Type 0 where
  pub still : (s : S) → P s → P (m s).1

module _ {S : Type 0} {P : S → Type 0} where
  pub Keeps-pure : {A : Type 0} (a : A) → Keeps P (pure a)
  Keeps-pure a = record { still = λ s p. p }

  pub Keeps-raise : {A : Type 0} (e : Error) → Keeps {A = A} P (raise e)
  Keeps-raise e = record { still = λ s p. p }

  pub Keeps-lift : {A : Type 0} (r : Result A) → Keeps P (lift r)
  Keeps-lift r = record { still = λ s p. p }

  pub Keeps-gets : {A : Type 0} (f : S → A) → Keeps P (gets f)
  Keeps-gets f = record { still = λ s p. p }

  pub Keeps-bind :
      {A B : Type 0} (m : Exec S A) (f : A → Exec S B)
      → Keeps P m
      → ((a : A) → Keeps P (f a))
      → Keeps P (m >>= f)
  Keeps-bind {A = A} {B = B} m f hm hf = record { still = λ s p. go s (m s) (hm.still s p) }
    where
      go : (s : S) (r : Result A × S) → P r.1 → P (((λ _. r) >>= f) s).1
      go s (ok a, z) p = (hf a).still z p
      go s (err e, z) p = p

  pub Keeps-lift_bind :
      {A B : Type 0} (r : Result A) (f : A → Exec S B)
      → ((a : A) → r ≡ ok a → Keeps P (f a))
      → Keeps P (lift r >>= f)
  Keeps-lift_bind (ok a) f h = h a refl
  Keeps-lift_bind (err e) f h = record { still = λ s p. p }

  pub Keeps-if :
      {A : Type 0} (b : Bool) (m k : Exec S A)
      → Keeps P m
      → Keeps P k
      → Keeps P (if b then m else k)
  Keeps-if true m k hm hk = hm
  Keeps-if false m k hm hk = hk

  pub Keeps-option :
      {A B : Type 0} (o : Option A) (m : Exec S B) (f : A → Exec S B)
      → Keeps P m
      → ((a : A) → Keeps P (f a))
      → Keeps P (option_case o m f)
  Keeps-option none m f hm hf = hm
  Keeps-option (some a) m f hm hf = hf a

  pub Keeps-result :
      {A B : Type 0} (r : Result A) (f : A → Exec S B) (g : Error → Exec S B)
      → ((a : A) → Keeps P (f a))
      → ((e : Error) → Keeps P (g e))
      → Keeps P (result_case r f g)
  Keeps-result (ok a) f g hf hg = hf a
  Keeps-result (err e) f g hf hg = hg e

pub ruleset keeps_rules = (
  Keeps-pure, Keeps-raise, Keeps-lift, Keeps-gets, Keeps-bind, Keeps-if, Keeps-option, Keeps-result,
)
