-- ===== src/Automation/Contracts.antt =====
-- automation/contracts.py and automation/state_store.py, which one thread uses at a time.
use stock_bot.Base.{ℕ, String, ◌≡◌, arith, none, some, List, [], ◌∷◌, ◌++◌}
use stock_bot.Base.Dict.{Dict, get, put}
use stock_bot.Base.Result.{ok, err, key_error}
use stock_bot.Base.Exec.{Exec, raise, modify, option_case}
use Prim.Native.String

pub data AutomationMode : Type 0 where
  paper shadow readiness : AutomationMode

pub data RunStatus : Type 0 where
  created running succeeded failed rejected : RunStatus

pub data Stage : Type 0 where
  data_stage research market analysis prediction strategy risk safety : Stage
  execution monitoring learning : Stage

pub record StageEvent (T : Type 0) : Type 0 where
  pub run_id : String
  pub stage : Stage
  pub event_type : String
  pub timestamp : T
  pub payload : Dict String

pub record RunContext (T : Type 0) : Type 0 where
  pub run_id : String
  pub decision_timestamp : T
  pub symbol : String
  pub timeframe_minutes : ℕ
  pub mode : AutomationMode
  pub versions : Dict String
  pub status : RunStatus

pub record RunRecord (T : Type 0) : Type 0 where
  pub context : RunContext T
  pub events : List (StageEvent T)

-- `RunStateStore`
pub record RunStore (T : Type 0) : Type 0 where
  pub runs : Dict (RunRecord T)
  pub idempotency : Dict String

module _ {T : Type 0} where
  -- `with_status`
  abbrev pub with_status : RunStatus → RunContext T → RunContext T
  with_status status c = record c { status = status }

  store_record : String → RunRecord T → RunStore T → RunStore T
  store_record id r s = record s { runs = put id r s.runs }

  unknown_run : String → Exec (RunStore T) (Unit {0})
  unknown_run id = raise (key_error (String.◌++◌ "unknown run_id: " id))

  register : String → RunContext T → RunStore T → RunStore T
  register key c s = record {
    runs = put c.run_id (record { context = c; events = [] }) s.runs;
    idempotency = put key c.run_id s.idempotency;
  }

  -- `create`, for a run with the idempotency key `key`
  unfoldable pub create_run : String → RunContext T → Exec (RunStore T) (RunRecord T)
  unfolding register
  create_run key c s = elim (get key s.idempotency) [
    | none ↦ (ok (record { context = c; events = [] }), register key c s)
    | some id ↦ elim (get id s.runs) [ none ↦ (err (key_error id), s) | some r ↦ (ok r, s) ]
  ]

  -- `update_context`
  unfoldable pub update_context : RunContext T → Exec (RunStore T) (Unit {0})
  unfolding store_record unknown_run
  update_context c s =
      option_case (get c.run_id s.runs) (unknown_run c.run_id)
        (λ r. modify (store_record c.run_id (record r { context = c }))) s

  -- `append`
  unfoldable pub append_event : StageEvent T → Exec (RunStore T) (Unit {0})
  unfolding store_record unknown_run
  append_event e s =
      option_case (get e.run_id s.runs) (unknown_run e.run_id)
        (λ r. modify (store_record e.run_id (record r { events = r.events ++ (e ∷ []) }))) s

  -- a run with an unknown key is registered without events
  pub create_run-new :
      (key : String) (c : RunContext T) (s : RunStore T)
      → get key s.idempotency ≡ none
      → create_run key c s ≡ (
        ok (record { context = c; events = [] }),
        record {
          runs = put c.run_id (record { context = c; events = [] }) s.runs;
          idempotency = put key c.run_id s.idempotency;
        },
      )
  unfolding create_run register
  create_run-new key c s h = ground (arith, h)

  pub update_context-known :
      (c : RunContext T) (s : RunStore T) {r : RunRecord T}
      → get c.run_id s.runs ≡ some r
      → update_context c s
        ≡ (ok tt, record s { runs = put c.run_id (record r { context = c }) s.runs })
  unfolding update_context store_record
  update_context-known c s h = ground (arith, h)

  pub append_event-known :
      (e : StageEvent T) (s : RunStore T) {r : RunRecord T}
      → get e.run_id s.runs ≡ some r
      → append_event e s ≡ (
        ok tt,
        record s { runs = put e.run_id (record r { events = r.events ++ (e ∷ []) }) s.runs },
      )
  unfolding append_event store_record
  append_event-known e s h = ground (arith, h)
