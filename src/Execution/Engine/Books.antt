-- ===== src/Execution/Engine/Books.antt =====
-- What `submit` of execution/engine.py answers is what the engine's books hold.
use stock_bot.Base.{
  String, Option, none, some, ◌≡◌, refl, sym, ap, ◌∙◌, arith, List, [], ◌∷◌, eq_iff,
}
use stock_bot.Base.Dict.{get-put}
use stock_bot.Base.Result.{Error, Result, ok, err}
use stock_bot.Base.Exec.{Exec, pure, gets, option_case, result_case, ◌>>=◌, ◌>>◌}
use stock_bot.Float.{Float}
use stock_bot.Clock.{Timestamp}
use stock_bot.Execution.Models.{OrderRequest, OrderSnapshot, ExecutionResult}
use stock_bot.Execution.Environment.{Environment}
use stock_bot.Execution.Engine.State.{World, call, order_of, store_order, store_fills}
use stock_bot.Execution.Engine.Submission.{
  submit, submit_new, each, audit_submission, accept_response, fail_closed, repeated,
}
use stock_bot.Execution.Engine.Keeps.{Keeps, Keeps-pure, Keeps-bind, keeps_rules}

-- What holds of the value and of the state when a program returns.
pub record Returns {S A : Type 0} (Q : A → S → Type 0) (m : Exec S A) : Type 0 where
  pub result : (s : S) (a : A) → (m s).0 ≡ ok a → Q a (m s).1

module _ {S : Type 0} where
  Returns-bind :
      {A B : Type 0} {Q : B → S → Type 0} (m : Exec S A) (f : A → Exec S B)
      → ((a : A) → Returns Q (f a))
      → Returns Q (m >>= f)
  Returns-bind {A = A} {B = B} {Q = Q} m f h = record { result = λ s b e. go s b (m s) e }
    where
      go :
          (s : S) (b : B) (r : Result A × S)
          → (((λ _. r) >>= f) s).0 ≡ ok b
          → Q b (((λ _. r) >>= f) s).1
      go s b (ok a, z) e = (h a).result z b e
      go s b (err x, z) e = cc

  Returns-option :
      {A B : Type 0} {Q : B → S → Type 0} (o : Option A) (m : Exec S B) (f : A → Exec S B)
      → Returns Q m
      → ((a : A) → Returns Q (f a))
      → Returns Q (option_case o m f)
  Returns-option none m f hm hf = hm
  Returns-option (some a) m f hm hf = hf a

  Returns-result :
      {A B : Type 0} {Q : B → S → Type 0} (r : Result A) (f : A → Exec S B) (g : Error → Exec S B)
      → ((a : A) → Returns Q (f a))
      → ((e : Error) → Returns Q (g e))
      → Returns Q (result_case r f g)
  Returns-result (ok a) f g hf hg = hf a
  Returns-result (err e) f g hf hg = hg e

module _ {F T B : Type 0} (id : String) where
  Stored : OrderSnapshot F T → World F T B → Type 0
  Stored s w = order_of id w ≡ some s

  Answers : ExecutionResult F T → World F T B → Type 0
  Answers r w = order_of id w ≡ some r.snapshot

  Returns-store :
      (s : OrderSnapshot F T) (rest : Exec (World F T B) (ExecutionResult F T))
      → Keeps (Stored s) rest
      → Returns (λ r _. r.snapshot ≡ s) rest
      → Returns Answers (store_order id s >> rest)
  unfolding Stored Answers
  Returns-store s rest keeps returns = record {
    result = λ w r e.
        keeps.still (store_order id s w).1
          (ground (arith, get-put id id s w.engine.orders, eq_iff id id))
        ∙ ap some (sym (returns.result (store_order id s w).1 r e));
  }

  call-Stored : {A : Type 0} (s : OrderSnapshot F T) (m : Exec B A) → Keeps (Stored s) (call m)
  unfolding Stored
  call-Stored s m = record { still = λ w p. p }

  store_fills-Stored : (s a : OrderSnapshot F T) (j : String) → Keeps (Stored s) (store_fills j a)
  unfolding Stored
  store_fills-Stored s a j = record { still = λ w p. p }

  each-Stored :
      {A : Type 0} (s : OrderSnapshot F T) (f : A → Exec (World F T B) (Unit {0})) (xs : List A)
      → ((x : A) → Keeps (Stored s) (f x))
      → Keeps (Stored s) (each f xs)
  unfolding each
  each-Stored s f [] h = Keeps-pure tt
  each-Stored s f (x ∷ xs) h = Keeps-bind _ _ (h x) λ _. each-Stored s f xs h

  audit_submission-Stored :
      (env : Environment F T B) (s : OrderSnapshot F T) (o : OrderRequest F T)
      (a : OrderSnapshot F T)
      → Keeps (Stored s) (audit_submission env o a)
  unfolding audit_submission
  audit_submission-Stored env s o a = search (keeps_rules, call-Stored, each-Stored) depth 12

module _ {F T B : Type 0} ⦃n : Float F⦄ ⦃t : Timestamp T⦄ (env : Environment F T B) where
  pure-snapshot :
      (s : OrderSnapshot F T) (r : ExecutionResult F T)
      → r.snapshot ≡ s
      → Returns {S = World F T B} (λ a _. a.snapshot ≡ s) (pure r)
  pure-snapshot s r h = record { result = λ w a e. ground (arith, h) }

  fail_closed-Answers :
      (o : OrderRequest F T) (start : F) (e : Error)
      → Returns (Answers o.client_order_id) (fail_closed env o start e)
  unfolding fail_closed
  fail_closed-Answers o start e =
      search (Returns-bind, Returns-store, Keeps-pure, pure-snapshot) depth 16

  accept_response-Answers :
      (o : OrderRequest F T) (start : F) (s : OrderSnapshot F T)
      → Returns (Answers o.client_order_id) (accept_response env o start s)
  unfolding accept_response
  accept_response-Answers o start s =
      search
        (
          Returns-store, Returns-bind, keeps_rules, store_fills-Stored, audit_submission-Stored,
          pure-snapshot,
        )
        depth 20

  looked-Answers :
      (o : OrderRequest F T)
      → Returns (Answers o.client_order_id) (
          gets (order_of o.client_order_id) >>= λ known.
          option_case known (submit_new env o) λ s. pure (repeated env o s))
  unfolding Answers submit_new
  looked-Answers o = record { result = λ w r e. go w (order_of o.client_order_id w) refl r e }
    where
      fresh : Returns (Answers o.client_order_id) (submit_new env o)
      fresh =
          search (Returns-bind, Returns-result, fail_closed-Answers, accept_response-Answers) depth
            12

      go :
          (w : World F T B) (known : Option (OrderSnapshot F T))
          → order_of o.client_order_id w ≡ known
          → (r : ExecutionResult F T)
          → (option_case known (submit_new env o) (λ s. pure (repeated env o s)) w).0 ≡ ok r
          → Answers o.client_order_id r
              (option_case known (submit_new env o) (λ s. pure (repeated env o s)) w).1
      go w none h r e = fresh.result w r e
      go w (some s) h r e = ground (arith, h)

  submit-Answers : (o : OrderRequest F T) → Returns (Answers o.client_order_id) (submit env o)
  unfolding submit
  submit-Answers o = search (Returns-bind, looked-Answers) depth 8

  -- When `submit` returns, by whichever of its paths, the snapshot of its result is the one that the
  -- books then hold for the order.
  pub submit-order_of :
      (o : OrderRequest F T) (w : World F T B) {r : ExecutionResult F T}
      → (submit env o w).0 ≡ ok r
      → order_of o.client_order_id (submit env o w).1 ≡ some r.snapshot
  unfolding Answers
  submit-order_of o w {r} h = (submit-Answers o).result w r h
