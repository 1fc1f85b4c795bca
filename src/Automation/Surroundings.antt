-- ===== src/Automation/Surroundings.antt =====
-- What `AutomationOrchestrator` of automation/orchestrator.py works with: the stage handlers, the
-- event bus, the clock, the run ids and the idempotency digest come from outside.
use stock_bot.Base.{String, Bool, true, false, Option, List, [], ◌∷◌}
use stock_bot.Base.Dict.{Dict}
use stock_bot.Base.Exec.{Exec}
use stock_bot.Automation.Contracts.{
  AutomationMode, paper, Stage, data_stage, research, market, analysis, prediction, strategy, risk,
  safety, execution, monitoring, learning, StageEvent, RunContext, RunStore,
}

-- What the orchestrator is given; `B` is its state and `V` the results of the handlers.
pub record Surroundings (T V B : Type 0) : Type 0 where
  pub handlers : Stage → Option (RunContext T → Dict V → Exec B V)
  -- `event_bus.publish`
  pub publish : StageEvent T → Exec B (Unit {0})
  -- `datetime.now(timezone.utc)`, `uuid.uuid4` and `astimezone(timezone.utc)`
  pub now : Exec B T
  pub new_id : Exec B String
  pub to_utc : T → T
  pub idempotency_key : RunContext T → String

pub record AutomationResult (T V : Type 0) : Type 0 where
  pub run : RunContext T
  pub events : List (StageEvent T)
  pub outputs : List (Stage × V)
  pub error : Option String

pub record World (T B : Type 0) : Type 0 where
  pub store : RunStore T
  pub outside : B

-- What a run has so far: its events, its outputs and the payload of the handlers.
pub record Progress (T V : Type 0) : Type 0 where
  pub events : List (StageEvent T)
  pub outputs : List (Stage × V)
  pub payload : Dict V

abbrev pub is_paper : AutomationMode → Bool
is_paper paper = true
is_paper _ = false

abbrev pub is_execution : Stage → Bool
is_execution execution = true
is_execution _ = false

-- `stage.value.lower()`
abbrev pub stage_key : Stage → String
stage_key data_stage = "data"
stage_key research = "research"
stage_key market = "market"
stage_key analysis = "analysis"
stage_key prediction = "prediction"
stage_key strategy = "strategy"
stage_key risk = "risk"
stage_key safety = "safety"
stage_key execution = "execution"
stage_key monitoring = "monitoring"
stage_key learning = "learning"

-- `ORDER`
abbrev pub stage_order : List Stage
stage_order =
    data_stage ∷ research ∷ market ∷ analysis ∷ prediction ∷ strategy ∷ risk ∷ safety ∷ execution
    ∷ monitoring ∷ []

module _ {T B : Type 0} where
  abbrev pub outside : {A : Type 0} → Exec B A → Exec (World T B) A
  outside m w = let (r, b) = m w.outside in (r, record w { outside = b })

  abbrev pub in_store : {A : Type 0} → Exec (RunStore T) A → Exec (World T B) A
  in_store m w = let (r, s) = m w.store in (r, record w { store = s })
