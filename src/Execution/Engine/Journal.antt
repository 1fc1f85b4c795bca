-- ===== src/Execution/Engine/Journal.antt =====
-- The lifecycle journal of an `ExecutionEngine` (execution/engine.py).
use stock_bot.Base.{
  String, Option, none, some, Bool, true, ◌≡◌, arith, List, [], ◌∷◌, ◌++◌, All, All-append,
}
use stock_bot.Base.Dict.{Dict, get}
use stock_bot.Base.Result.{Error, ok}
use stock_bot.Base.Exec.{Exec}
use stock_bot.Float.{Float}
use stock_bot.Clock.{Timestamp}
use stock_bot.Execution.Status.{OrderStatus, allowed, transition}
use stock_bot.Execution.Models.{OrderRequest, OrderSnapshot, ExecutionEvent, check_event}
use stock_bot.Execution.Environment.{Environment}
use stock_bot.Execution.Engine.State.{
  World, call, attempt, update, state_of, store_order, store_fills, store_state, transition_to,
  note_transition, audit_event, check_move, is_current, lifecycle_event,
}
use stock_bot.Execution.Engine.Submission.{
  submit, submit_new, each, accept_response, fail_closed, audit_submission, remember,
}
use stock_bot.Execution.Engine.Recovery.{
  refresh, refresh_missing, refresh_found, recovered, recover_prior, recover_unknown, cancel_known,
  rehydrate_from, rehydrate_one, rehydrated, missing_snapshot, reconcile_order, cancel,
}
use stock_bot.Execution.Engine.Operations.{
  Operation, submit_order, refresh_order, recover_order, rehydrate_orders, reconcile, cancel_order,
  perform, run,
}
use stock_bot.Execution.Engine.Keeps.{
  Keeps, Keeps-pure, Keeps-gets, Keeps-bind, Keeps-if, Keeps-lift_bind, keeps_rules,
}

module _ {T : Type 0} where
  -- An event that starts a lifecycle, or follows an edge of `_ALLOWED`.
  abbrev pub is_allowed : ExecutionEvent T → Bool
  is_allowed e = elim e.from_status [ none ↦ true | some s ↦ allowed s e.to_status ]

module _ {F T B : Type 0} where
  unfoldable pub IsJournal : World F T B → Type 0
  IsJournal w = All (λ e. is_allowed e ≡ true) w.engine.events

  Keeps-call : {A : Type 0} (m : Exec B A) → Keeps IsJournal (call m)
  unfolding IsJournal
  Keeps-call m = record { still = λ w p. p }

  Keeps-attempt : {A : Type 0} (m : Exec B A) → Keeps IsJournal (attempt m)
  unfolding IsJournal
  Keeps-attempt m = record { still = λ w p. p }

  Keeps-store_order : (id : String) (s : OrderSnapshot F T) → Keeps IsJournal (store_order id s)
  unfolding IsJournal
  Keeps-store_order id s = record { still = λ w p. p }

  Keeps-store_fills : (id : String) (s : OrderSnapshot F T) → Keeps IsJournal (store_fills id s)
  unfolding IsJournal
  Keeps-store_fills id s = record { still = λ w p. p }

  Keeps-store_state : (id : String) (s : OrderStatus) → Keeps IsJournal (store_state id s)
  unfolding IsJournal
  Keeps-store_state id s = record { still = λ w p. p }

  Keeps-remember : (o : OrderRequest F T) → Keeps IsJournal (remember o)
  unfolding IsJournal
  Keeps-remember o = record { still = λ w p. ground arith }

  Keeps-append :
      (x : ExecutionEvent T)
      → is_allowed x ≡ true
      → Keeps IsJournal (update (λ e. record e { events = e.events ++ (x ∷ []) }))
  unfolding IsJournal
  Keeps-append x h = record { still = λ w p. All-append _ w.engine.events (x ∷ []) p (h, tt) }

module _ {F T B : Type 0} ⦃t : Timestamp T⦄ (env : Environment F T B) where
  lifecycle_event-is_allowed :
      (id : String) (current : Option OrderStatus) (s : OrderStatus) (reason : String)
      (o : Option (OrderRequest F T)) (at : T) {u : Unit {0}} {x : ExecutionEvent T}
      → check_move current s ≡ ok u
      → check_event (lifecycle_event env id current s reason o at) ≡ ok x
      → is_allowed x ≡ true
  unfolding lifecycle_event check_event transition
  lifecycle_event-is_allowed id none s reason o at h g = ground arith
  lifecycle_event-is_allowed id (some c) s reason o at h g = ground arith

  audit_event-Keeps : (x : ExecutionEvent T) → Keeps IsJournal (audit_event env x)
  audit_event-Keeps x = search (keeps_rules, Keeps-call)

  note_transition-Keeps :
      (id : String) (current : Option OrderStatus) (s : OrderStatus) (reason : String)
      → {u : Unit {0}} → check_move current s ≡ ok u
      → Keeps IsJournal (note_transition env id current s reason)
  unfolding note_transition
  note_transition-Keeps id current s reason h =
      Keeps-bind _ _ (Keeps-gets λ w. get id w.engine.requests) λ request.
        Keeps-bind _ _ (Keeps-call env.now) λ at. Keeps-lift_bind _ _ λ x g.
          Keeps-bind _ _
            (Keeps-append x (lifecycle_event-is_allowed id current s reason request at h g))
            λ _. audit_event-Keeps x

  transition_to-Keeps :
      (id : String) (s : OrderStatus) (reason : String)
      → Keeps IsJournal (transition_to env id s reason)
  unfolding transition_to
  transition_to-Keeps id s reason = Keeps-bind _ _ (Keeps-gets (state_of id)) λ current.
      Keeps-if (is_current current s) _ _ (Keeps-pure tt) (
        Keeps-lift_bind _ _ λ u h.
          Keeps-bind _ _ (Keeps-store_state id s) λ _. note_transition-Keeps id current s reason h)

ruleset journal_rules = (
  keeps_rules, Keeps-call, Keeps-attempt, Keeps-store_order, Keeps-store_fills, Keeps-store_state,
  Keeps-remember, transition_to-Keeps,
)

module _ {F T B : Type 0} ⦃n : Float F⦄ ⦃t : Timestamp T⦄ (env : Environment F T B) where
  each-Keeps :
      {A : Type 0} (f : A → Exec (World F T B) (Unit {0})) (xs : List A)
      → ((x : A) → Keeps IsJournal (f x))
      → Keeps IsJournal (each f xs)
  unfolding each
  each-Keeps f [] h = Keeps-pure tt
  each-Keeps f (x ∷ xs) h = Keeps-bind _ _ (h x) λ _. each-Keeps f xs h

  audit_submission-Keeps :
      (o : OrderRequest F T) (s : OrderSnapshot F T) → Keeps IsJournal (audit_submission env o s)
  unfolding audit_submission
  audit_submission-Keeps o s = search (journal_rules, each-Keeps) depth 12

  fail_closed-Keeps :
      (o : OrderRequest F T) (start : F) (e : Error) → Keeps IsJournal (fail_closed env o start e)
  unfolding fail_closed
  fail_closed-Keeps o start e = search journal_rules depth 16

  accept_response-Keeps :
      (o : OrderRequest F T) (start : F) (s : OrderSnapshot F T)
      → Keeps IsJournal (accept_response env o start s)
  unfolding accept_response
  accept_response-Keeps o start s = search (journal_rules, audit_submission-Keeps) depth 16

  submit-Keeps : (o : OrderRequest F T) → Keeps IsJournal (submit env o)
  unfolding submit submit_new
  submit-Keeps o = search (journal_rules, accept_response-Keeps, fail_closed-Keeps) depth 16

  missing_snapshot-Keeps :
      (id reason : String) (s : OrderSnapshot F T)
      → Keeps IsJournal (missing_snapshot env id reason s)
  unfolding missing_snapshot
  missing_snapshot-Keeps id reason s = search journal_rules depth 12

  refresh-Keeps : (id : String) → Keeps IsJournal (refresh env id)
  unfolding refresh refresh_missing refresh_found
  refresh-Keeps id = search (journal_rules, missing_snapshot-Keeps) depth 16

  recovered-Keeps :
      (id : String) (prior s : OrderSnapshot F T) → Keeps IsJournal (recovered env id prior s)
  unfolding recovered
  recovered-Keeps id prior s = search journal_rules depth 16

  recover_prior-Keeps :
      (id : String) (prior : OrderSnapshot F T) → Keeps IsJournal (recover_prior env id prior)
  unfolding recover_prior
  recover_prior-Keeps id prior = search (journal_rules, recovered-Keeps) depth 16

  recover_unknown-Keeps : (id : String) → Keeps IsJournal (recover_unknown env id)
  unfolding recover_unknown
  recover_unknown-Keeps id = search (journal_rules, recover_prior-Keeps) depth 16

  rehydrated-Keeps : (id : String) → Keeps IsJournal (rehydrated env id)
  unfolding rehydrated
  rehydrated-Keeps id = search (journal_rules, missing_snapshot-Keeps) depth 16

  rehydrate_one-Keeps :
      (id : String) (found : Dict (OrderSnapshot F T))
      → Keeps IsJournal (rehydrate_one env id found)
  unfolding rehydrate_one
  rehydrate_one-Keeps id found = search (journal_rules, rehydrated-Keeps) depth 16

  rehydrate_from-Keeps :
      (found : Dict (OrderSnapshot F T)) (ids : List String)
      → Keeps IsJournal (rehydrate_from env found ids)
  unfolding rehydrate_from
  rehydrate_from-Keeps found [] = Keeps-pure found
  rehydrate_from-Keeps found (id ∷ ids) =
      Keeps-bind _ _ (rehydrate_one-Keeps id found) λ more. rehydrate_from-Keeps more ids

  reconcile_order-Keeps : (id : String) → Keeps IsJournal (reconcile_order env id)
  unfolding reconcile_order
  reconcile_order-Keeps id = search journal_rules depth 8

  cancel_known-Keeps : (id : String) → Keeps IsJournal (cancel_known env id)
  unfolding cancel_known
  cancel_known-Keeps id = search journal_rules depth 16

  cancel-Keeps : (id : String) → Keeps IsJournal (cancel env id)
  unfolding cancel
  cancel-Keeps id = search (journal_rules, cancel_known-Keeps) depth 16

  perform-Keeps : (o : Operation F T) → Keeps IsJournal (perform env o)
  unfolding perform
  perform-Keeps (submit_order o) = search (keeps_rules, submit-Keeps)
  perform-Keeps (refresh_order id) = search (keeps_rules, refresh-Keeps)
  perform-Keeps (recover_order id) = search (keeps_rules, recover_unknown-Keeps)
  perform-Keeps (rehydrate_orders ids) = search (keeps_rules, rehydrate_from-Keeps)
  perform-Keeps (reconcile id) = search (keeps_rules, reconcile_order-Keeps)
  perform-Keeps (cancel_order id) = search (keeps_rules, cancel-Keeps)

  -- However the broker answers, and whichever operations raise, a history of operations leaves a
  -- journal in which each event either starts a lifecycle or follows an edge of `_ALLOWED`, if it
  -- found such a journal.
  pub run-IsJournal :
      (os : List (Operation F T)) (w : World F T B) → IsJournal w → IsJournal (run env os w)
  unfolding run
  run-IsJournal [] w p = p
  run-IsJournal (o ∷ os) w p = run-IsJournal os _ ((perform-Keeps o).still w p)
