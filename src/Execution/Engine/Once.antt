-- ===== src/Execution/Engine/Once.antt =====
-- How often an `ExecutionEngine` (execution/engine.py) submits an order to its broker.
use stock_bot.Base.{
  ℕ, String, Option, none, some, Bool, true, false, ◌||◌, ◌≡◌, refl, ap, arith, ◌⊎◌, List, [], ◌∷◌,
  ◌++◌, count, if◌then◌else◌, is_some, eq_iff,
}
use stock_bot.Base.Dict.{get, get-put}
use stock_bot.Base.Result.{Result, ok, err}
use stock_bot.Base.Exec.{Exec, pure, lift, ◌>>◌}
use stock_bot.Clock.{Timestamp}
use stock_bot.Execution.Status.{OrderStatus, created, validated, allowed, transition, same_status-≡}
use stock_bot.Execution.Models.{OrderRequest, OrderSnapshot, ExecutionEvent}
use stock_bot.Execution.Environment.{Environment}
use stock_bot.Execution.Engine.State.{
  World, call, update, state_of, store_order, store_fills, store_state, transition_to,
  note_transition, record_transition, check_move, is_current,
}
use stock_bot.Execution.Engine.Submission.{remember}
use stock_bot.Execution.Engine.Keeps.{
  Keeps, Keeps-pure, Keeps-gets, Keeps-bind, Keeps-if, Keeps-lift_bind, keeps_rules,
}
use text.Mathlib.Text.{◌==◌}

-- The broker's state beside the client order ids that were submitted to it, the last one first.
abbrev pub Logged : Type 0 → Type 0
Logged B = B × List String

abbrev pub keep_log : {A B : Type 0} → Exec B A → Exec (Logged B) A
keep_log m (b, ids) = let (r, b') = m b in (r, (b', ids))

abbrev pub log_id : {A B : Type 0} → String → Exec B A → Exec (Logged B) A
log_id id m (b, ids) = let (r, b') = m b in (r, (b', id ∷ ids))

-- The same outside, which also writes down each submission.
abbrev pub logged : {F T B : Type 0} → Environment F T B → Environment F T (Logged B)
logged env = record {
  submit = λ o. log_id o.client_order_id (env.submit o);
  get_order = λ id. keep_log (env.get_order id);
  cancel = λ id. keep_log (env.cancel id);
  positions = keep_log env.positions;
  now = keep_log env.now;
  perf_counter = keep_log env.perf_counter;
  has_audit = env.has_audit;
  append_order = λ o s. keep_log (env.append_order o s);
  append_event = λ e. keep_log (env.append_event e);
  append_fill = λ f o. keep_log (env.append_fill f o);
  append_position = λ p o at. keep_log (env.append_position p o at);
  digest24 = env.digest24;
}

-- A status that `VALIDATED` and `SUBMITTING` cannot follow once more.
abbrev pub is_late : Option OrderStatus → Bool
is_late none = false
is_late (some created) = false
is_late (some validated) = false
is_late (some _) = true

is_current-≡ :
    (current : Option OrderStatus) (s : OrderStatus)
    → is_current current s ≡ true
    → current ≡ some s
is_current-≡ none s h = cc
is_current-≡ (some c) s h = ap some (same_status-≡ c s h)

module _ {F T B : Type 0} (id : String) where
  abbrev pub submissions : World F T (Logged B) → ℕ
  submissions w = count (λ j. j == id) w.outside.1

  unfoldable pub IsOnce : World F T (Logged B) → Type 0
  IsOnce w =
      (submissions w ≡ 0)
      ⊎ ((submissions w ≡ 1)
          × (is_some (get id w.engine.orders) || is_late (get id w.engine.states) ≡ true))

  pub Keeps-call : {A : Type 0} (m : Exec B A) → Keeps IsOnce (call (keep_log m))
  unfolding IsOnce
  Keeps-call m = record { still = λ w p. p }

  pub Keeps-store_fills : (j : String) (s : OrderSnapshot F T) → Keeps IsOnce (store_fills j s)
  unfolding IsOnce
  Keeps-store_fills j s = record { still = λ w p. p }

  pub Keeps-append :
      (x : ExecutionEvent T)
      → Keeps IsOnce (update (λ e. record e { events = e.events ++ (x ∷ []) }))
  unfolding IsOnce
  Keeps-append x = record { still = λ w p. p }

  pub Keeps-remember : (o : OrderRequest F T) → Keeps IsOnce (remember o)
  unfolding IsOnce
  Keeps-remember o = record { still = λ w p. ground arith }

  pub Keeps-store_order : (j : String) (s : OrderSnapshot F T) → Keeps IsOnce (store_order j s)
  unfolding IsOnce
  Keeps-store_order j s = record { still = λ w p. ground (arith, get-put j id s w.engine.orders) }

  -- A checked move, or the first status of an order.
  pub store_state-IsOnce :
      (j : String) (s : OrderStatus) (w : World F T (Logged B)) {u : Unit {0}}
      → check_move (state_of j w) s ≡ ok u
      → IsOnce w
      → IsOnce (store_state j s w).1
  unfolding IsOnce transition allowed
  store_state-IsOnce j s w h p = ground (arith, get-put j id s w.engine.states, eq_iff j id)

-- What a journal entry leaves alone: whatever depends on neither the journal nor the broker's state.
module _ {F T B : Type 0} ⦃t : Timestamp T⦄ (env : Environment F T B)
    (P : World F T (Logged B) → Type 0)
    (called : (A : Type 0) (m : Exec B A) → Keeps P (call (keep_log m)))
    (appended : (x : ExecutionEvent T)
      → Keeps P (update (λ e. record e { events = e.events ++ (x ∷ []) }))) where
  note_transition-Keeps :
      (j : String) (current : Option OrderStatus) (s : OrderStatus) (reason : String)
      → Keeps P (note_transition (logged env) j current s reason)
  unfolding note_transition
  note_transition-Keeps j current s reason = search (keeps_rules, called, appended) depth 12

  pub transition_to-Keeps :
      ((j : String) (s : OrderStatus) → Keeps P (store_state j s))
      → (j : String) (s : OrderStatus) (reason : String)
      → Keeps P (transition_to (logged env) j s reason)
  unfolding transition_to
  transition_to-Keeps stored j s reason =
      search (keeps_rules, stored, note_transition-Keeps) depth 12

module _ {F T B : Type 0} ⦃t : Timestamp T⦄ (env : Environment F T B) (id : String) where
  pub transition_to-IsOnce :
      (j : String) (s : OrderStatus) (reason : String)
      → Keeps (IsOnce id) (transition_to (logged env) j s reason)
  unfolding transition_to
  transition_to-IsOnce j s reason = record { still = λ w p. go w p (is_current (state_of j w) s) }
    where
      moved :
          (w : World F T (Logged B))
          → IsOnce id w
          → (r : Result (Unit {0})) → check_move (state_of j w) s ≡ r
          → IsOnce id ((lift r >> record_transition (logged env) j (state_of j w) s reason) w).1
      moved w p (ok u) h =
          (note_transition-Keeps env (IsOnce id) (λ A. Keeps-call id) (Keeps-append id) j
              (state_of j w) s reason).still
            _ (store_state-IsOnce id j s w h p)
      moved w p (err e) h = p

      go :
          (w : World F T (Logged B))
          → IsOnce id w
          → (b : Bool)
          → IsOnce id
              ((if b
                  then pure tt
                  else lift (check_move (state_of j w) s)
                    >> record_transition (logged env) j (state_of j w) s reason)
                w).1
      go w p true = p
      go w p false = moved w p (check_move (state_of j w) s) refl

  -- A transition that does not raise leaves the order in its target.
  pub transition_to-state :
      (s : OrderStatus) (reason : String) (w : World F T (Logged B)) {u : Unit {0}}
      → (transition_to (logged env) id s reason w).0 ≡ ok u
      → state_of id (transition_to (logged env) id s reason w).1 ≡ some s
  unfolding transition_to
  transition_to-state s reason w = go (is_current (state_of id w) s) refl
    where
      InState : World F T (Logged B) → Type 0
      InState v = state_of id v ≡ some s

      moved :
          (r : Result (Unit {0})) {u : Unit {0}}
          → ((lift r >> record_transition (logged env) id (state_of id w) s reason) w).0 ≡ ok u
          → InState ((lift r >> record_transition (logged env) id (state_of id w) s reason) w).1
      moved (ok u) h =
          (note_transition-Keeps env InState (λ A m. record { still = λ v p. p })
              (λ x. record { still = λ v p. p }) id (state_of id w) s reason).still
            (store_state id s w).1 (ground (arith, get-put id id s w.engine.states, eq_iff id id))
      moved (err e) h = cc

      go :
          (b : Bool)
          → is_current (state_of id w) s ≡ b
          → {u : Unit {0}}
          → ((if b
                then pure tt
                else lift (check_move (state_of id w) s)
                  >> record_transition (logged env) id (state_of id w) s reason)
              w).0
            ≡ ok u
          → InState
              ((if b
                  then pure tt
                  else lift (check_move (state_of id w) s)
                    >> record_transition (logged env) id (state_of id w) s reason)
                w).1
      go true e h = is_current-≡ (state_of id w) s e
      go false e h = moved (check_move (state_of id w) s) h

pub ruleset once_rules = (
  keeps_rules, Keeps-call, Keeps-store_order, Keeps-store_fills, Keeps-remember,
  transition_to-IsOnce,
)
