-- ===== src/Execution/Engine/Sends.antt =====
-- `submit_new` of execution/engine.py sends an order only if it was not sent before.
use stock_bot.Base.{
  String, none, some, Bool, true, false, ◌≡◌, refl, arith, inr, List, [], ◌∷◌, eq_iff,
}
use stock_bot.Base.Dict.{get}
use stock_bot.Base.Result.{Error, Result, ok, err}
use stock_bot.Base.Exec.{Exec, result_case, ◌>>=◌, ◌>>◌}
use stock_bot.Float.{Float}
use stock_bot.Clock.{Timestamp}
use stock_bot.Execution.Status.{OrderStatus, validated, submitting}
use stock_bot.Execution.Models.{OrderRequest, OrderSnapshot, ExecutionResult}
use stock_bot.Execution.Environment.{Environment}
use stock_bot.Execution.Engine.State.{World, call, attempt, state_of, transition_to}
use stock_bot.Execution.Engine.Submission.{
  submit_new, each, accept_response, fail_closed, audit_submission,
}
use stock_bot.Execution.Engine.Keeps.{Keeps, Keeps-pure, Keeps-bind}
use text.Mathlib.Text.{◌==◌}
use stock_bot.Execution.Engine.Once.{
  Logged, logged, submissions, is_late, IsOnce, once_rules, transition_to-Keeps,
  transition_to-state, transition_to-IsOnce,
}

module _ {F T B : Type 0} ⦃n : Float F⦄ ⦃t : Timestamp T⦄ (env : Environment F T B)
    (id : String) where
  each-IsOnce :
      {A : Type 0} (f : A → Exec (World F T (Logged B)) (Unit {0})) (xs : List A)
      → ((x : A) → Keeps (IsOnce id) (f x))
      → Keeps (IsOnce id) (each f xs)
  unfolding each
  each-IsOnce f [] h = Keeps-pure tt
  each-IsOnce f (x ∷ xs) h = Keeps-bind _ _ (h x) λ _. each-IsOnce f xs h

  audit_submission-IsOnce :
      (o : OrderRequest F T) (s : OrderSnapshot F T)
      → Keeps (IsOnce id) (audit_submission (logged env) o s)
  unfolding audit_submission
  audit_submission-IsOnce o s = search (once_rules, each-IsOnce) depth 12

  fail_closed-IsOnce :
      (o : OrderRequest F T) (start : F) (e : Error)
      → Keeps (IsOnce id) (fail_closed (logged env) o start e)
  unfolding fail_closed
  fail_closed-IsOnce o start e = search once_rules depth 16

  accept_response-IsOnce :
      (o : OrderRequest F T) (start : F) (s : OrderSnapshot F T)
      → Keeps (IsOnce id) (accept_response (logged env) o start s)
  unfolding accept_response
  accept_response-IsOnce o start s = search (once_rules, audit_submission-IsOnce) depth 16

  -- The broker call of `submit_new` and what follows.
  abbrev send : OrderRequest F T → F → Exec (World F T (Logged B)) (ExecutionResult F T)
  send o start = do
    answer ← attempt ((logged env).submit o)
    result_case answer (λ response. accept_response (logged env) o start response)
        (λ e. fail_closed (logged env) o start e)

  -- A world from which the order may be sent: it is another order, or none was sent yet.
  MaySend : OrderRequest F T → World F T (Logged B) → Type 0
  MaySend o w =
      IsOnce id w
      × ((o.client_order_id == id ≡ true)
          → (submissions id w ≡ 0) × (is_late (get id w.engine.states) ≡ true))

  submit-IsOnce :
      (o : OrderRequest F T) (w : World F T (Logged B))
      → MaySend o w
      → IsOnce id (attempt ((logged env).submit o) w).1
  unfolding MaySend IsOnce
  submit-IsOnce o w (p, h) = go (o.client_order_id == id) refl
    where
      go :
          (b : Bool) → o.client_order_id == id ≡ b → IsOnce id (attempt ((logged env).submit o) w).1
      go true e = inr (ground (arith, h e), ground (arith, h e))
      go false e = ground arith

  answered-IsOnce :
      (o : OrderRequest F T) (start : F) (answer : Result (OrderSnapshot F T))
      → Keeps (IsOnce id) (
          result_case answer
            (λ response. accept_response (logged env) o start response)
            (λ e. fail_closed (logged env) o start e))
  answered-IsOnce o start answer = search (once_rules, accept_response-IsOnce, fail_closed-IsOnce)

  send-IsOnce :
      (o : OrderRequest F T) (w : World F T (Logged B))
      → MaySend o w
      → IsOnce id ((call (logged env).perf_counter >>= send o) w).1
  unfolding MaySend IsOnce
  send-IsOnce o w p = go (env.perf_counter w.outside.0)
    where
      go :
          (r : Result F × B)
          → IsOnce id (((λ v. (r.0, record v { outside = (r.1, v.outside.1) })) >>= send o) w).1
      go (ok start, b) =
          (answered-IsOnce o start _).still _
            (submit-IsOnce o (record w { outside = (b, w.outside.1) }) p)
      go (err e, b) = p.0

  unfoldable pub Unknown : String → World F T (Logged B) → Type 0
  Unknown j w = get j w.engine.orders ≡ none

  Unsent : World F T (Logged B) → Type 0
  Unsent w = submissions id w ≡ 0

  transition_to-Unknown :
      (i j : String) (s : OrderStatus) (reason : String)
      → Keeps (Unknown i) (transition_to (logged env) j s reason)
  unfolding Unknown
  transition_to-Unknown i =
      transition_to-Keeps env (Unknown i) (λ A m. record { still = λ v p. p })
        (λ x. record { still = λ v p. p }) (λ j s. record { still = λ v p. p })

  transition_to-Unsent :
      (j : String) (s : OrderStatus) (reason : String)
      → Keeps Unsent (transition_to (logged env) j s reason)
  unfolding Unsent
  transition_to-Unsent =
      transition_to-Keeps env Unsent (λ A m. record { still = λ v p. p })
        (λ x. record { still = λ v p. p }) (λ j s. record { still = λ v p. p })

  -- An order that is not in the books and was validated just now was not sent before.
  validated-Unsent :
      (o : OrderRequest F T) (w : World F T (Logged B))
      → IsOnce id w
      → Unknown o.client_order_id w
      → state_of o.client_order_id w ≡ some validated
      → o.client_order_id == id ≡ true
      → Unsent w
  unfolding IsOnce Unknown Unsent
  validated-Unsent o w p u v e = ground (arith, eq_iff o.client_order_id id)

  submitting-MaySend :
      (o : OrderRequest F T) (w : World F T (Logged B))
      → IsOnce id w
      → (o.client_order_id == id ≡ true → Unsent w)
      → state_of o.client_order_id w ≡ some submitting
      → MaySend o w
  unfolding MaySend Unsent
  submitting-MaySend o w p u v = (p, λ e. (u e, ground (arith, eq_iff o.client_order_id id)))

  pub submit_new-IsOnce :
      (o : OrderRequest F T) (w : World F T (Logged B))
      → IsOnce id w
      → Unknown o.client_order_id w
      → IsOnce id (submit_new (logged env) o w).1
  unfolding submit_new
  submit_new-IsOnce o w p u = validated_step ((started w).0) refl
    where
      sending : Exec (World F T (Logged B)) (ExecutionResult F T)
      sending = call (logged env).perf_counter >>= send o

      started : Exec (World F T (Logged B)) (Unit {0})
      started = transition_to (logged env) o.client_order_id validated "local validation passed"

      submitting_now : Exec (World F T (Logged B)) (Unit {0})
      submitting_now =
          transition_to (logged env) o.client_order_id submitting "broker submission started"

      submitting_step :
          (w : World F T (Logged B))
          → IsOnce id w
          → (o.client_order_id == id ≡ true → Unsent w)
          → (r : Result (Unit {0})) → (submitting_now w).0 ≡ r
          → IsOnce id (((λ _. (r, (submitting_now w).1)) >> sending) w).1
      submitting_step w p u (ok a) e = send-IsOnce o _ (
          submitting-MaySend o _ ((transition_to-IsOnce env id _ _ _).still w p)
            (λ h. (transition_to-Unsent _ _ _).still w (u h))
            (transition_to-state env o.client_order_id _ _ w e))
      submitting_step w p u (err x) e = (transition_to-IsOnce env id _ _ _).still w p

      validated_step :
          (r : Result (Unit {0}))
          → (started w).0 ≡ r
          → IsOnce id (((λ _. (r, (started w).1)) >> (submitting_now >> sending)) w).1
      validated_step (ok a) e =
          let q = (transition_to-IsOnce env id _ _ _).still w p in
          submitting_step _ q
            (validated-Unsent o _ q ((transition_to-Unknown _ _ _ _).still w u)
              (transition_to-state env o.client_order_id _ _ w e))
            _ refl
      validated_step (err x) e = (transition_to-IsOnce env id _ _ _).still w p
