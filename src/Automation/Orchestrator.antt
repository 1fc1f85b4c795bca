-- ===== src/Automation/Orchestrator.antt =====
-- `AutomationOrchestrator` of automation/orchestrator.py.
use stock_bot.Base.{String, not, Option, none, some, List, [], ◌∷◌, ◌++◌, ◌&&◌, if◌then◌else◌}
use stock_bot.Base.Text.{strip, upper, is_empty}
use stock_bot.Base.Dict.{Dict, put}
use stock_bot.Base.Result.{Error, Result, ok, err, value_error, runtime_error, raise_if, message}
use stock_bot.Base.Exec.{Exec, pure, lift, ◌>>=◌, ◌>>◌}
use stock_bot.Clock.{Timestamp, zoned}
use stock_bot.Automation.Contracts.{
  AutomationMode, created, running, succeeded, failed, rejected, Stage, monitoring, StageEvent,
  RunContext, RunRecord, with_status, create_run, update_context, append_event,
}
use text.Mathlib.Text.{◌==◌}
use stock_bot.Automation.Surroundings.{
  Surroundings, AutomationResult, World, Progress, is_paper, is_execution, stage_key, stage_order,
  outside, in_store,
}

module _ {T V B : Type 0} where
  -- the rest of the `try`, unless an exception stopped it
  unfoldable pub continue_with :
      (Progress T V → World T B → (Progress T V × Option Error) × World T B)
      → (Progress T V × Option Error) × World T B
      → (Progress T V × Option Error) × World T B
  continue_with rest ((p, none), w) = rest p w
  continue_with rest ((p, some e), w) = ((p, some e), w)

module _ {T V B : Type 0} (env : Surroundings T V B) where
  -- `_emit`
  unfoldable pub emit :
      RunContext T → Stage → String → Dict String → Exec (World T B) (StageEvent T)
  emit run stage event_type payload = do
    at ← outside env.now
    let e : StageEvent T = record {
      run_id = run.run_id;
      stage = stage;
      event_type = event_type;
      timestamp = at;
      payload = payload;
    }
    in_store (append_event e)
    outside (env.publish e)
    pure e

  abbrev pub with_event : StageEvent T → Progress T V → Progress T V
  with_event e p = record p { events = p.events ++ (e ∷ []) }

  abbrev with_output : Stage → V → Progress T V → Progress T V
  with_output s v p = record p {
    outputs = p.outputs ++ ((s, v) ∷ []);
    payload = put (stage_key s) v p.payload;
  }

  -- The progress, and the exception that stopped the `try`, if there was one.
  abbrev pub Stopped : Type 0
  Stopped = Progress T V × Option Error

  -- the rest of the `try` after an event
  abbrev pub emitted :
      Progress T V
      → (Progress T V → World T B → Stopped × World T B)
      → Result (StageEvent T) × World T B
      → Stopped × World T B
  emitted p rest o =
      let (r, w) = o in elim r [ err e ↦ ((p, some e), w) | ok e ↦ rest (with_event e p) w ]

  abbrev pub go_on : Progress T V → World T B → Stopped × World T B
  go_on p w = ((p, none), w)

  -- the rest of a round after the call of its handler
  abbrev pub handled :
      RunContext T → Stage → Progress T V → Result V × World T B → Stopped × World T B
  handled run s p o =
      let (r, w) = o in
      elim r [
        | err e ↦ ((p, some e), w)
        | ok v ↦ emitted (with_output s v p) go_on (emit run s "STAGE_COMPLETED" [] w)
      ]

  -- the call of a handler between its two events
  abbrev pub handling :
      (RunContext T → Dict V → Exec B V)
      → RunContext T
      → Stage
      → Progress T V
      → World T B
      → Stopped × World T B
  handling h run s p w =
      emitted p (λ p' w'. handled run s p' (outside (h run p'.payload) w'))
        (emit run s "STAGE_STARTED" [] w)

  -- one round of the loop, for the handler that is configured
  abbrev pub run_handler :
      Option (RunContext T → Dict V → Exec B V)
      → RunContext T
      → Stage
      → Progress T V
      → World T B
      → Stopped × World T B
  run_handler none run s p w =
      emitted p go_on (emit run s "STAGE_SKIPPED" (("reason", "handler_not_configured") ∷ []) w)
  run_handler (some h) run s p w =
      if is_execution s && not (is_paper run.mode)
      then ((p, some (runtime_error "execution stage is only available in paper mode")), w)
      else handling h run s p w

  -- one round of the loop
  unfoldable pub run_stage : RunContext T → Stage → Progress T V → World T B → Stopped × World T B
  run_stage run s = run_handler (env.handlers s) run s

  unfoldable pub run_stages :
      RunContext T → List Stage → Progress T V → World T B → Stopped × World T B
  run_stages run [] p w = ((p, none), w)
  run_stages run (s ∷ ss) p w = continue_with (run_stages run ss) (run_stage run s p w)

  -- the `except` branch
  unfoldable pub fail_run :
      RunContext T → Progress T V → Error → Exec (World T B) (AutomationResult T V)
  fail_run run p e = do
    let stopped = with_status failed run
    in_store (update_context stopped)
    event ← emit stopped monitoring "RUN_FAILED" (("error", message e) ∷ [])
    pure (record {
      run = stopped;
      events = p.events ++ (event ∷ []);
      outputs = p.outputs;
      error = some (message e);
    })

  -- the end of the `try`, which `except` guards as well
  unfoldable pub succeed_run : RunContext T → Progress T V → Exec (World T B) (AutomationResult T V)
  unfolding fail_run
  succeed_run run p w =
      let done = with_status succeeded run in
      let (r, w') = in_store (update_context done) w in
      elim r [
        | err e ↦ fail_run done p e w'
        | ok _ ↦
            (ok (record { run = done; events = p.events; outputs = p.outputs; error = none }), w')
      ]

  -- what follows the loop
  unfoldable pub finish_run :
      RunContext T
      → (Progress T V × Option Error) × World T B
      → Result (AutomationResult T V) × World T B
  unfolding fail_run succeed_run
  finish_run run ((p, none), w) = succeed_run run p w
  finish_run run ((p, some e), w) = fail_run run p e w

  unfoldable pub run_registered : RunContext T → Dict V → Exec (World T B) (AutomationResult T V)
  unfolding finish_run
  run_registered run inputs w =
      let start : Progress T V = record { events = []; outputs = []; payload = inputs } in
      finish_run run (run_stages run stage_order start w)

  unfoldable pub duplicate : RunRecord T → AutomationResult T V
  duplicate r = record {
    run = with_status rejected r.context;
    events = r.events;
    outputs = [];
    error = some "IDEMPOTENT_DUPLICATE";
  }

  -- the run that the store did not know
  unfoldable pub begin : RunContext T → Dict V → Exec (World T B) (AutomationResult T V)
  begin run inputs = in_store (update_context (with_status running run)) >>= λ _.
      run_registered (with_status running run) inputs

  -- `run` from the registration on
  unfoldable pub start_run : RunContext T → Dict V → Exec (World T B) (AutomationResult T V)
  unfolding duplicate
  start_run run inputs = in_store (create_run (env.idempotency_key run) run) >>= λ known.
      if not (known.context.run_id == run.run_id) then pure (duplicate known) else begin run inputs

module _ {T V B : Type 0} ⦃t : Timestamp T⦄ (env : Surroundings T V B) where
  -- `RunContext.create`
  unfoldable pub new_run :
      String → T → AutomationMode → Dict String → Exec (World T B) (RunContext T)
  new_run symbol at mode versions = do
    lift (raise_if (not (zoned at)) (value_error "decision_timestamp must be timezone-aware"))
    lift (raise_if (is_empty (upper (strip symbol))) (value_error "symbol must not be empty"))
    id ← outside env.new_id
    pure (record {
      run_id = id;
      decision_timestamp = env.to_utc at;
      symbol = upper (strip symbol);
      timeframe_minutes = 5;
      mode = mode;
      versions = versions;
      status = created;
    })

  -- `run`
  unfoldable pub run_pipeline :
      String → T → AutomationMode → Dict V → Dict String → Exec (World T B) (AutomationResult T V)
  run_pipeline symbol at mode inputs versions =
      new_run symbol at mode versions >>= λ run. start_run env run inputs
