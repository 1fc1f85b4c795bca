-- ===== src/Automation/Recorded.antt =====
-- What the run store holds at the end of a run of automation/orchestrator.py.
use stock_bot.Base.{
  ◌⊎◌, inl, inr, not, if◌then◌else◌, Option, none, some, [], ◌∷◌, ◌++◌, ◌≡◌, refl, ap, ◌∙◌,
}
use text.Mathlib.Text.{◌==◌}
use text.Mathlib.TextPositions.{eq_refl}
use stock_bot.Base.Dict.{Dict, get}
use stock_bot.Base.Exec.{◌>>=◌, pure}
use stock_bot.Base.Result.{Error, Result, ok, err, message}
use stock_bot.Automation.Contracts.{
  running, create_run, monitoring, failed, succeeded, StageEvent, RunContext, with_status,
  update_context,
}
use stock_bot.Automation.Surroundings.{
  Surroundings, AutomationResult, World, Progress, in_store, stage_order,
}
use stock_bot.Automation.Orchestrator.{
  begin, start_run, duplicate, emit, run_stages, fail_run, succeed_run, finish_run, run_registered,
}
use stock_bot.Automation.Stored.{
  Returns, bind-Returns, IsStored, update-IsStored, create-IsStored, if-Returns,
}
use stock_bot.Automation.Rounds.{IsStoredStop, emit-IsStored, run_stages-IsStored}

module _ {T V : Type 0} where
  -- the outcome of a finished run: it succeeded without an error, or failed with one
  abbrev pub IsOutcome : AutomationResult T V → Type 0
  IsOutcome r =
      ((r.run.status ≡ succeeded) × (r.error ≡ none))
      ⊎ ((r.run.status ≡ failed) × (e : Error) × (r.error ≡ some (message e)))

module _ {T V B : Type 0} where
  -- the store has the run of this result, with its status and its events
  abbrev pub IsRecorded : AutomationResult T V → World T B → Type 0
  IsRecorded r w = IsStored r.run r.events w × IsOutcome r

module _ {T V B : Type 0} (env : Surroundings T V B)
    (now-Returns : (b : B) → Returns (λ _ _. Unit {0}) (env.now b))
    (publish-Returns : (e : StageEvent T) (b : B)
      → Returns (λ _ _. Unit {0}) (env.publish e b)) where
  fail_run-IsRecorded :
      (run : RunContext T) (p : Progress T V) (e : Error) (w : World T B)
      → IsStored run p.events w
      → Returns IsRecorded (fail_run env run p e w)
  unfolding fail_run
  fail_run-IsRecorded run p e w h =
      bind-Returns (λ _ w'. IsStored (with_status failed run) p.events w') IsRecorded
        (in_store (update_context (with_status failed run)))
        (λ _.
          emit env (with_status failed run) monitoring "RUN_FAILED" (("error", message e) ∷ [])
          >>= (λ event. pure (failure event)))
        w (update-IsStored (with_status failed run) run p.events w refl h)
        λ _ w' stored.
          bind-Returns
            (λ event w''. IsStored (with_status failed run) (p.events ++ (event ∷ [])) w'')
            IsRecorded
            (emit env (with_status failed run) monitoring "RUN_FAILED" (("error", message e) ∷ []))
            (λ event. pure (failure event)) w'
            (emit-IsStored env now-Returns publish-Returns (with_status failed run) monitoring
              "RUN_FAILED" (("error", message e) ∷ []) p.events w' stored)
            λ event w'' stored'. (stored', inr (refl, e, refl))
    where
      failure : StageEvent T → AutomationResult T V
      failure event = record {
        run = with_status failed run;
        events = p.events ++ (event ∷ []);
        outputs = p.outputs;
        error = some (message e);
      }

  succeed_run-IsRecorded :
      (run : RunContext T) (p : Progress T V) (w : World T B)
      → IsStored run p.events w
      → Returns IsRecorded (succeed_run env run p w)
  unfolding succeed_run
  succeed_run-IsRecorded run p w h =
      ended (in_store (update_context (with_status succeeded run)) w)
        (update-IsStored (with_status succeeded run) run p.events w refl h)
    where
      ended :
          (o : Result (Unit {0}) × World T B)
          → Returns (λ _ w'. IsStored (with_status succeeded run) p.events w') o
          → Returns (IsRecorded {T = T} {V = V} {B = B}) (
              let (r, w') = o in
              elim r [
                | err e ↦ fail_run env (with_status succeeded run) p e w'
                | ok _ ↦ (
                  ok (record {
                    run = with_status succeeded run;
                    events = p.events;
                    outputs = p.outputs;
                    error = none;
                  }),
                  w',
                )
              ])
      ended (ok _, w') stored = (stored, inl (refl, refl))
      ended (err e, w') stored = absurd stored

  finish_run-IsRecorded :
      (run : RunContext T) (o : (Progress T V × Option Error) × World T B)
      → IsStoredStop run o
      → Returns IsRecorded (finish_run env run o)
  unfolding finish_run
  finish_run-IsRecorded run ((p, none), w) h = succeed_run-IsRecorded run p w h
  finish_run-IsRecorded run ((p, some e), w) h = fail_run-IsRecorded run p e w h

  run_registered-IsRecorded :
      (run : RunContext T) (inputs : Dict V) (w : World T B)
      → IsStored run [] w
      → Returns IsRecorded (run_registered env run inputs w)
  unfolding run_registered
  run_registered-IsRecorded run inputs w h =
      finish_run-IsRecorded run (run_stages env run stage_order start w)
        (run_stages-IsStored env now-Returns publish-Returns run stage_order start w h)
    where
      start : Progress T V
      start = record { events = []; outputs = []; payload = inputs }

  begin-IsRecorded :
      (run : RunContext T) (inputs : Dict V) (w : World T B)
      → IsStored run [] w
      → Returns IsRecorded (begin env run inputs w)
  unfolding begin
  begin-IsRecorded run inputs w h =
      bind-Returns (λ _ w'. IsStored (with_status running run) [] w') IsRecorded
        (in_store (update_context (with_status running run)))
        (λ _. run_registered env (with_status running run) inputs) w
        (update-IsStored (with_status running run) run [] w refl h)
        λ _ w' stored. run_registered-IsRecorded (with_status running run) inputs w' stored

  -- A run that the store does not know by its idempotency key always ends with a result when the
  -- clock and the event bus do not raise: whatever the handlers return or raise, the run succeeded
  -- without an error or failed with one, and the store holds it with that status and with exactly
  -- the events of the result.
  pub start_run-IsRecorded :
      (run : RunContext T) (inputs : Dict V) (w : World T B)
      → get (env.idempotency_key run) w.store.idempotency ≡ none
      → Returns IsRecorded (start_run env run inputs w)
  unfolding start_run
  start_run-IsRecorded run inputs w h =
      bind-Returns (λ known w'. (known.context.run_id ≡ run.run_id) × IsStored run [] w') IsRecorded
        (in_store (create_run (env.idempotency_key run) run))
        (λ known.
          if not (known.context.run_id == run.run_id)
          then pure (duplicate env known)
          else begin env run inputs)
        w (create-IsStored (env.idempotency_key run) run w h)
        λ known w' (same, stored).
          if-Returns IsRecorded (not (known.context.run_id == run.run_id))
            (pure (duplicate env known)) (begin env run inputs) w'
            (ap (λ i. not (i == run.run_id)) same ∙ ap not (eq_refl run.run_id))
            (begin-IsRecorded run inputs w' stored)
