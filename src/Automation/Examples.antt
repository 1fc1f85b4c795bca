-- ===== src/Automation/Examples.antt =====
-- A run in shadow mode whose analysis stage has a handler.
use stock_bot.Base.{String, true, Option, none, some, [], ◌≡◌, refl}
use stock_bot.Base.Dict.{Dict, get}
use stock_bot.Base.Exec.{Exec, pure}
use stock_bot.Clock.{Timestamp}
use stock_bot.Automation.Contracts.{Stage, analysis, shadow, created, RunContext}
use stock_bot.Automation.Surroundings.{Surroundings, World}
use stock_bot.Automation.Orchestrator.{run_pipeline, start_run}
use stock_bot.Automation.Modes.{with_execution, run_pipeline-execution}
use stock_bot.Automation.Stored.{Returns}
use stock_bot.Automation.Recorded.{IsRecorded, start_run-IsRecorded}

instance abbrev unit_time : Timestamp (Unit {0})
unit_time = record { zoned = λ _. true; same = λ _ _. true }

abbrev answer : String → RunContext (Unit {0}) → Dict String → Exec (Unit {0}) String
answer v run payload = pure v

abbrev analysis_only : Stage → Option (RunContext (Unit {0}) → Dict String → Exec (Unit {0}) String)
analysis_only analysis = some (answer "report")
analysis_only _ = none

abbrev env : Surroundings (Unit {0}) String (Unit {0})
env = record {
  handlers = analysis_only;
  publish = λ _. pure tt;
  now = pure tt;
  new_id = pure "run-1";
  to_utc = λ t. t;
  idempotency_key = λ run. run.symbol;
}

abbrev world : World (Unit {0}) (Unit {0})
world = record { store = record { runs = []; idempotency = [] }; outside = tt }

run_pipeline-execution_example :
    run_pipeline (with_execution (answer "filled") env) "tcs" tt shadow [] [] world
    ≡ run_pipeline (with_execution (answer "rejected") env) "tcs" tt shadow [] [] world
run_pipeline-execution_example =
    run_pipeline-execution env (answer "filled") (answer "rejected") "tcs" tt shadow [] [] world
      refl

abbrev run : RunContext (Unit {0})
run = record {
  run_id = "run-1";
  decision_timestamp = tt;
  symbol = "TCS";
  timeframe_minutes = 5;
  mode = shadow;
  versions = [];
  status = created;
}

start_run-IsRecorded_example : Returns IsRecorded (start_run env run [] world)
unfolding get
start_run-IsRecorded_example = start_run-IsRecorded env (λ _. tt) (λ _ _. tt) run [] world unknown
  where
    unknown : get "TCS" world.store.idempotency ≡ none
    unknown = refl
