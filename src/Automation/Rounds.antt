-- ===== src/Automation/Rounds.antt =====
-- The rounds of the loop of automation/orchestrator.py, and what the run store holds after them.
use stock_bot.Base.{
  String, Bool, true, false, not, ◌&&◌, if◌then◌else◌, Option, none, some, List, [], ◌∷◌, ◌++◌, ◌≡◌,
  refl, ap, ◌∙◌,
}
use stock_bot.Base.Dict.{Dict, get}
use stock_bot.Base.Exec.{Exec, ◌>>◌, pure}
use stock_bot.Base.Result.{Error, Result, ok, err}
use stock_bot.Automation.Contracts.{Stage, StageEvent, RunContext, append_event}
use stock_bot.Automation.Surroundings.{
  Surroundings, World, Progress, outside, in_store, is_execution, is_paper,
}
use stock_bot.Automation.Orchestrator.{
  emit, emitted, handled, handling, go_on, with_event, run_handler, run_stage, run_stages,
  continue_with,
}
use stock_bot.Automation.Stored.{Returns, bind-Returns, IsStored, outside-Returns, append-IsStored}

module _ {T : Type 0} where
  abbrev pub event_of : RunContext T → Stage → String → Dict String → T → StageEvent T
  event_of run stage event_type payload at = record {
    run_id = run.run_id;
    stage = stage;
    event_type = event_type;
    timestamp = at;
    payload = payload;
  }

module _ {T V B : Type 0} where
  abbrev pub IsStoredStop : RunContext T → (Progress T V × Option Error) × World T B → Type 0
  IsStoredStop run ((p, _), w) = IsStored run p.events w

module _ {T V B : Type 0} (env : Surroundings T V B)
    (now-Returns : (b : B) → Returns (λ _ _. Unit {0}) (env.now b))
    (publish-Returns : (e : StageEvent T) (b : B)
      → Returns (λ _ _. Unit {0}) (env.publish e b)) where
  pub emit-IsStored :
      (run : RunContext T) (s : Stage) (event_type : String) (payload : Dict String)
      (es : List (StageEvent T)) (w : World T B)
      → IsStored run es w
      → Returns (λ e w'. IsStored run (es ++ (e ∷ [])) w') (emit env run s event_type payload w)
  unfolding emit
  emit-IsStored run s event_type payload es w h =
      bind-Returns (λ _ w'. w'.store ≡ w.store) (λ e w'. IsStored run (es ++ (e ∷ [])) w')
        (outside env.now)
        (λ at.
          in_store (append_event (event_of run s event_type payload at))
          >> (outside (env.publish (event_of run s event_type payload at))
              >> pure (event_of run s event_type payload at)))
        w (outside-Returns env.now w (now-Returns w.outside))
        λ at w' same.
          bind-Returns
            (λ _ w''. IsStored run (es ++ (event_of run s event_type payload at ∷ [])) w'')
            (λ e w''. IsStored run (es ++ (e ∷ [])) w'')
            (in_store (append_event (event_of run s event_type payload at)))
            (λ _.
              outside (env.publish (event_of run s event_type payload at))
              >> pure (event_of run s event_type payload at))
            w'
            (append-IsStored run es (event_of run s event_type payload at) w' refl
              (ap (λ st. get run.run_id st.runs) same ∙ h))
            λ _ w'' stored.
              bind-Returns (λ _ w3. w3.store ≡ w''.store) (λ e w3. IsStored run (es ++ (e ∷ [])) w3)
                (outside (env.publish (event_of run s event_type payload at)))
                (λ _. pure (event_of run s event_type payload at)) w''
                (outside-Returns (env.publish (event_of run s event_type payload at)) w''
                  (publish-Returns (event_of run s event_type payload at) w''.outside))
                λ _ w3 same'. ap (λ st. get run.run_id st.runs) same' ∙ stored

  pub emitted-IsStored :
      (run : RunContext T) (p : Progress T V)
      (rest : Progress T V → World T B → (Progress T V × Option Error) × World T B)
      → ((p' : Progress T V) (w : World T B)
          → IsStored run p'.events w
          → IsStoredStop run (rest p' w))
      → (o : Result (StageEvent T) × World T B)
      → Returns (λ e w. IsStored run (p.events ++ (e ∷ [])) w) o
      → IsStoredStop run (emitted env p rest o)
  emitted-IsStored run p rest hrest (ok e, w) h = hrest (with_event env e p) w h
  emitted-IsStored run p rest hrest (err e, w) h = absurd h

  pub handled-IsStored :
      (run : RunContext T) (s : Stage) (p : Progress T V) (w : World T B) (o : Result V × B)
      → IsStored run p.events w
      → IsStoredStop run (handled env run s p (let (r, b) = o in (r, record w { outside = b })))
  handled-IsStored run s p w (err e, b) h = h
  handled-IsStored run s p w (ok v, b) h =
      emitted-IsStored run _ (go_on env) (λ _ _ stored. stored) _
        (emit-IsStored run s "STAGE_COMPLETED" [] p.events (record w { outside = b }) h)

  pub if-IsStored :
      (run : RunContext T) (b : Bool) (x y : (Progress T V × Option Error) × World T B)
      → IsStoredStop run x
      → IsStoredStop run y
      → IsStoredStop run (if b then x else y)
  if-IsStored run true x y h k = h
  if-IsStored run false x y h k = k

  pub run_handler-IsStored :
      (handler : Option (RunContext T → Dict V → Exec B V)) (run : RunContext T) (s : Stage)
      (p : Progress T V) (w : World T B)
      → IsStored run p.events w
      → IsStoredStop run (run_handler env handler run s p w)
  run_handler-IsStored none run s p w h =
      emitted-IsStored run p (go_on env) (λ _ _ stored. stored) _
        (emit-IsStored run s "STAGE_SKIPPED" (("reason", "handler_not_configured") ∷ []) p.events w
          h)
  run_handler-IsStored (some f) run s p w h =
      if-IsStored run (is_execution s && not (is_paper run.mode)) _ (handling env f run s p w) h (
        emitted-IsStored run p (λ p' w'. handled env run s p' (outside (f run p'.payload) w'))
          (λ p' w' stored. handled-IsStored run s p' w' (f run p'.payload w'.outside) stored) _
          (emit-IsStored run s "STAGE_STARTED" [] p.events w h))

  pub continue_with-IsStored :
      (run : RunContext T)
      (rest : Progress T V → World T B → (Progress T V × Option Error) × World T B)
      → ((p : Progress T V) (w : World T B) → IsStored run p.events w → IsStoredStop run (rest p w))
      → (o : (Progress T V × Option Error) × World T B) → IsStoredStop run o
      → IsStoredStop run (continue_with rest o)
  unfolding continue_with
  continue_with-IsStored run rest hrest ((p, none), w) h = hrest p w h
  continue_with-IsStored run rest hrest ((p, some e), w) h = h

  pub run_stages-IsStored :
      (run : RunContext T) (ss : List Stage) (p : Progress T V) (w : World T B)
      → IsStored run p.events w
      → IsStoredStop run (run_stages env run ss p w)
  unfolding run_stages run_stage
  run_stages-IsStored run [] p w h = h
  run_stages-IsStored run (s ∷ ss) p w h =
      continue_with-IsStored run (run_stages env run ss)
        (λ p' w' stored. run_stages-IsStored run ss p' w' stored)
        (run_handler env (env.handlers s) run s p w)
        (run_handler-IsStored (env.handlers s) run s p w h)
