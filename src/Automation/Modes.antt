-- ===== src/Automation/Modes.antt =====
-- The execution stage and the mode of a run.
use stock_bot.Base.{
  String, Bool, true, false, Option, some, List, [], ◌∷◌, ◌≡◌, refl, ap, ◌∙◌, arith, if◌then◌else◌,
  none, not,
}
use text.Mathlib.Text.{◌==◌}
use stock_bot.Base.Dict.{Dict}
use stock_bot.Base.Exec.{Exec, ◌>>=◌, pure}
use stock_bot.Base.Result.{Error, Result, ok, err}
use stock_bot.Clock.{Timestamp}
use stock_bot.Automation.Contracts.{
  AutomationMode, Stage, execution, RunContext, running, with_status, update_context, create_run,
}
use stock_bot.Automation.Surroundings.{
  Surroundings, World, Progress, is_paper, is_execution, stage_order, in_store,
}
use stock_bot.Automation.Orchestrator.{
  begin, start_run, duplicate, emit, run_stage, run_stages, continue_with, finish_run, fail_run,
  succeed_run, run_registered, new_run, run_pipeline,
}

module _ {S A B : Type 0} where
  -- the rest of a block after the outcome of its first line
  abbrev after : (A → Exec S B) → Result A × S → Result B × S
  after f o = let (r, s) = o in elim r [ ok a ↦ f a s | err e ↦ (err e, s) ]

  after-same :
      (f g : A → Exec S B) (o : Result A × S)
      → ((a : A) (s : S) → o ≡ (ok a, s) → f a s ≡ g a s)
      → after f o ≡ after g o
  after-same f g (ok a, s) h = h a s refl
  after-same f g (err e, s) h = refl

  -- two blocks with the same first line that go on in the same way
  bind-same :
      (m : Exec S A) (f g : A → Exec S B) (s : S)
      → ((a : A) (s' : S) → m s ≡ (ok a, s') → f a s' ≡ g a s')
      → (m >>= f) s ≡ (m >>= g) s
  bind-same m f g s h = after-same f g (m s) h

module _ {S B : Type 0} where
  if-same :
      (b : Bool) (m f g : Exec S B) (s : S)
      → f s ≡ g s
      → (if b then m else f) s ≡ (if b then m else g) s
  if-same true m f g s h = refl
  if-same false m f g s h = h

module _ {T V B : Type 0} where
  -- the surroundings with this handler for the execution stage
  abbrev pub with_execution :
      (RunContext T → Dict V → Exec B V) → Surroundings T V B → Surroundings T V B
  with_execution x env = record env {
    handlers = λ s. if is_execution s then some x else env.handlers s;
  }

  continue_with-same :
      (f g : Progress T V → World T B → (Progress T V × Option Error) × World T B)
      → ((p : Progress T V) (w : World T B) → f p w ≡ g p w)
      → (o : (Progress T V × Option Error) × World T B) → continue_with f o ≡ continue_with g o
  unfolding continue_with
  continue_with-same f g h ((p, none), w) = h p w
  continue_with-same f g h ((p, some e), w) = refl

  module _ (env : Surroundings T V B) (x y : RunContext T → Dict V → Exec B V) where
    run_stage-same :
        (run : RunContext T) (s : Stage) (p : Progress T V) (w : World T B)
        → is_paper run.mode ≡ false
        → run_stage (with_execution x env) run s p w ≡ run_stage (with_execution y env) run s p w
    unfolding run_stage emit
    run_stage-same run execution p w h = ground (arith, h)
    run_stage-same run _ p w h = refl

    run_stages-same :
        (run : RunContext T) (ss : List Stage) (p : Progress T V) (w : World T B)
        → is_paper run.mode ≡ false
        → run_stages (with_execution x env) run ss p w
          ≡ run_stages (with_execution y env) run ss p w
    unfolding run_stages
    run_stages-same run [] p w h = refl
    run_stages-same run (s ∷ ss) p w h =
        ap (continue_with _) (run_stage-same run s p w h)
        ∙ continue_with-same _ _ (λ p' w'. run_stages-same run ss p' w' h)
            (run_stage (with_execution y env) run s p w)

    finish_run-same :
        (run : RunContext T) (o : (Progress T V × Option Error) × World T B)
        → finish_run (with_execution x env) run o ≡ finish_run (with_execution y env) run o
    unfolding finish_run fail_run succeed_run emit
    finish_run-same run ((p, none), w) = refl
    finish_run-same run ((p, some e), w) = refl

    run_registered-same :
        (run : RunContext T) (inputs : Dict V) (w : World T B)
        → is_paper run.mode ≡ false
        → run_registered (with_execution x env) run inputs w
          ≡ run_registered (with_execution y env) run inputs w
    unfolding run_registered
    run_registered-same run inputs w h =
        let start : Progress T V = record { events = []; outputs = []; payload = inputs } in
        ap (finish_run (with_execution x env) run) (run_stages-same run stage_order start w h)
        ∙ finish_run-same run (run_stages (with_execution y env) run stage_order start w)

    begin-same :
        (run : RunContext T) (inputs : Dict V) (w : World T B)
        → is_paper run.mode ≡ false
        → begin (with_execution x env) run inputs w ≡ begin (with_execution y env) run inputs w
    unfolding begin
    begin-same run inputs w h =
        bind-same (in_store (update_context (with_status running run)))
          (λ _. run_registered (with_execution x env) (with_status running run) inputs)
          (λ _. run_registered (with_execution y env) (with_status running run) inputs) w
          λ _ w' _. run_registered-same (with_status running run) inputs w' h

    start_run-same :
        (run : RunContext T) (inputs : Dict V) (w : World T B)
        → is_paper run.mode ≡ false
        → start_run (with_execution x env) run inputs w
          ≡ start_run (with_execution y env) run inputs w
    unfolding start_run duplicate
    start_run-same run inputs w h =
        bind-same (in_store (create_run (env.idempotency_key run) run))
          (λ known.
            if not (known.context.run_id == run.run_id)
            then pure (duplicate (with_execution x env) known)
            else begin (with_execution x env) run inputs)
          (λ known.
            if not (known.context.run_id == run.run_id)
            then pure (duplicate (with_execution y env) known)
            else begin (with_execution y env) run inputs)
          w
          λ known w' _.
            if-same (not (known.context.run_id == run.run_id))
              (pure (duplicate (with_execution x env) known))
              (begin (with_execution x env) run inputs) (begin (with_execution y env) run inputs) w'
              (begin-same run inputs w' h)

module _ {T V B : Type 0} ⦃t : Timestamp T⦄ where
  new_run-mode :
      (env : Surroundings T V B) (symbol : String) (at : T) (mode : AutomationMode)
      (versions : Dict String) (w : World T B) {run : RunContext T} {w' : World T B}
      → new_run env symbol at mode versions w ≡ (ok run, w')
      → run.mode ≡ mode
  unfolding new_run
  new_run-mode env symbol at mode versions w h = ground (arith, h)

  -- Outside paper mode, a run of the pipeline does not depend on the handler of the execution stage:
  -- with any two handlers it has the same result, writes the same records and leaves the handlers,
  -- the event bus and the clock in the same state.
  pub run_pipeline-execution :
      (env : Surroundings T V B) (x y : RunContext T → Dict V → Exec B V) (symbol : String) (at : T)
      (mode : AutomationMode) (inputs : Dict V) (versions : Dict String) (w : World T B)
      → is_paper mode ≡ false
      → run_pipeline (with_execution x env) symbol at mode inputs versions w
        ≡ run_pipeline (with_execution y env) symbol at mode inputs versions w
  unfolding run_pipeline new_run
  run_pipeline-execution env x y symbol at mode inputs versions w h =
      bind-same (new_run env symbol at mode versions)
        (λ run. start_run (with_execution x env) run inputs)
        (λ run. start_run (with_execution y env) run inputs) w
        λ run w' made.
          start_run-same env x y run inputs w'
            (ap is_paper (new_run-mode env symbol at mode versions w made) ∙ h)
