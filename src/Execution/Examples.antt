-- ===== src/Execution/Examples.antt =====
-- Tests of execution/engine.py, execution/control.py and execution/kill_switch.py on concrete orders,
-- in thousandths, with a broker that fills every order at 100.
use stock_bot.Base.{
  ◌⊎◌, ℕ, ◌+◌, ◌≤◌, String, Option, none, some, Bool, true, false, not, ◌&&◌, ◌≡◌, refl, List, [],
  ◌∷◌, if◌then◌else◌,
}
use stock_bot.Base
use stock_bot.Base.Text.{is_space, lstrip, rstrip, strip, upper}
use stock_bot.Base.Dict.{get, put}
use stock_bot.Base.Int.{ℤ, pos, ◌+ℤ◌, ◌-ℤ◌}
use stock_bot.Base.Result.{Result, ok, err, value_error, raise_if}
use stock_bot.Base.Exec.{pure, raise}
use stock_bot.Float.Fixed.{fixed, fixed-IsOrdered}
use stock_bot.Clock.{Timestamp}
use stock_bot.Signals.{long, short}
use stock_bot.Risk.Contracts.{RiskReasonCode}
use stock_bot.Risk.Decision.{RiskDecision, approved}
use stock_bot.Execution.Status.{filled, allowed, transition, same_status}
use stock_bot.Execution.Models.{
  buy, sell, market, authorized, ExecutionAuthorization, OrderRequest, OrderSnapshot,
  PositionSnapshot, check_authorization, check_request, ExecutionResult, check_event,
  check_snapshot,
}
use stock_bot.Execution.Environment.{Environment}
use stock_bot.Execution.Control.{
  SafetyState, SafetyDecision, no_block, evaluate_safety, authorize_execution,
  authorize_risk_decision, approved_authorization,
}
use stock_bot.Execution.Control.Authority.{
  IsExact, authorize_execution-IsExact, evaluate_safety-allowed,
}
use stock_bot.Execution.Engine.State.{
  World, empty_engine, order_of, transition_to, note_transition, lifecycle_event, check_contract,
}
use stock_bot.Execution.Engine.Requests.{
  from_authorization, from_exit_authorization, side_for_direction, validate, check_against,
}
use stock_bot.Execution.Engine.Submission.{
  submit, submit_new, accept_response, stamped, audit_submission,
}
use stock_bot.Execution.Engine.Operations.{
  Operation, submit_order, refresh_order, cancel_order, rehydrate_orders, run,
}
use stock_bot.Execution.Engine.Journal.{IsJournal, run-IsJournal}
use stock_bot.Execution.Engine.Once.{logged, submissions}
use stock_bot.Execution.Engine.Submissions.{run-submissions}
use stock_bot.Execution.Engine.Authorized.{
  IsAuthorized, IsExit, from_authorization-IsAuthorized, from_authorization-validate,
  from_exit_authorization-IsExit,
}
use stock_bot.Execution.Engine.Books.{submit-order_of}
use stock_bot.Execution.Engine.Answers.{IsBacked, IsRepeat, submit-IsBacked, submit-IsRepeat}
use stock_bot.Execution.KillSwitch.{
  KillSwitch, activated, KillSwitchEvent, clear, make_event, check_switch_event, record_clearance,
}
use stock_bot.Execution.KillSwitch.Latch
use text.Mathlib.Text.{◌==◌}

instance abbrev pub unit_time : Timestamp (Unit {0})
unit_time = record { zoned = λ _. true; same = λ _ _. true }

abbrev authorization : ExecutionAuthorization ℤ (Unit {0})
authorization = record {
  timestamp = tt;
  symbol = "INFY";
  direction = long;
  status = authorized;
  reason = "ok";
  risk_version = "RISK-v1";
  approved_quantity = pos 4000;
  approved_notional = pos 400000;
  risk_decision_id = "D1";
  restrictions = [];
  execution_version = "risk-aware-v2.0";
  position_transition = none;
  approved_projected_quantity = none;
}

abbrev exit_authorization : ExecutionAuthorization ℤ (Unit {0})
exit_authorization = record authorization { direction = short }

abbrev pub order : OrderRequest ℤ (Unit {0})
order = record {
  client_order_id = "SB-1";
  decision_id = "D1";
  symbol = "INFY";
  side = buy;
  quantity = pos 4000;
  order_type = market;
  limit_price = none;
  purpose = "ENTRY";
  created_at = tt;
  authorization = some authorization;
}

abbrev position : PositionSnapshot ℤ
position = record { symbol = "INFY"; quantity = pos 4000; average_price = pos 100000 }

abbrev snapshot_of : OrderRequest ℤ (Unit {0}) → OrderSnapshot ℤ (Unit {0})
snapshot_of o = record {
  broker_order_id = "B1";
  client_order_id = o.client_order_id;
  status = filled;
  requested_quantity = o.quantity;
  filled_quantity = o.quantity;
  average_fill_price = some (pos 100000);
  reason = "";
  latency_ms = none;
  updated_at = tt;
  fills = [];
}

abbrev broker : Environment ℤ (Unit {0}) (Unit {0})
broker = record {
  submit = λ o. pure (snapshot_of o);
  get_order = λ id. pure none;
  cancel = λ id. raise (value_error "nothing to cancel");
  positions = pure [];
  now = pure tt;
  perf_counter = pure (pos 0);
  has_audit = false;
  append_order = λ o s. pure tt;
  append_event = λ e. pure tt;
  append_fill = λ f o. pure tt;
  append_position = λ p o at. pure tt;
  digest24 = λ s. "1";
}

abbrev history : List (Operation ℤ (Unit {0}))
history =
    submit_order order
    ∷ submit_order order
    ∷ refresh_order "SB-1"
    ∷ cancel_order "SB-1"
    ∷ rehydrate_orders ("SB-1" ∷ [])
    ∷ submit_order order
    ∷ []

abbrev empty_world : World ℤ (Unit {0}) (Unit {0})
empty_world = record { engine = empty_engine; outside = tt }

abbrev known_world : World ℤ (Unit {0}) (Unit {0})
known_world = record {
  engine = record {
    orders = ("SB-1", snapshot_of order) ∷ [];
    requests = ("SB-1", order) ∷ [];
    fills = [];
    states = ("SB-1", filled) ∷ [];
    events = [];
  };
  outside = tt;
}

run-submissions_example :
    submissions "SB-1"
      (run (logged broker) history (record { engine = empty_engine; outside = (tt, []) }))
    ≤ 1
run-submissions_example = run-submissions broker "SB-1" history tt

run-IsJournal_example : IsJournal (run broker history empty_world)
unfolding IsJournal
run-IsJournal_example = run-IsJournal broker history empty_world tt

order_valid : validate order ≡ ok tt
unfolding validate check_against side_for_direction
order_valid = refl

order_known : order_of "SB-1" known_world ≡ some (snapshot_of order)
unfolding get
order_known = refl

abbrev oversized : OrderRequest ℤ (Unit {0})
oversized = record order { quantity = pos 5000 }

abbrev oversized_error : Base.Result.Error
oversized_error = value_error "execution quantity must exactly equal risk-approved quantity"

oversized_invalid : validate oversized ≡ err oversized_error
unfolding validate check_against side_for_direction
oversized_invalid = refl

-- The same order for more than was approved is refused.
submit-IsBacked_example :
    ((e : Base.Result.Error) × (submit broker oversized empty_world ≡ (err e, empty_world)))
    ⊎ IsBacked oversized
submit-IsBacked_example = submit-IsBacked broker oversized empty_world

abbrev made_order : OrderRequest ℤ (Unit {0})
made_order = record order { authorization = some authorization }

order_made :
    from_authorization broker.digest24 authorization "D1" market none "ENTRY" none ≡ ok made_order
unfolding from_authorization check_request side_for_direction upper strip lstrip rstrip is_space
order_made = refl

from_authorization-IsAuthorized_example : IsAuthorized authorization made_order
from_authorization-IsAuthorized_example =
    from_authorization-IsAuthorized broker.digest24 authorization "D1" market none "ENTRY" none
      order_made

from_authorization-validate_example :
    validate made_order
    ≡ raise_if
        (not (upper (strip "INFY") == "INFY"))
        (value_error "execution symbol does not match authorization")
from_authorization-validate_example =
    from_authorization-validate fixed-IsOrdered broker.digest24 authorization "D1" market none
      "ENTRY" none order_made

abbrev exit_order : OrderRequest ℤ (Unit {0})
exit_order = record order { side = sell; purpose = "EXIT"; authorization = some exit_authorization }

exit_made :
    from_exit_authorization broker.digest24 exit_authorization "D1" position none market none none
    ≡ ok exit_order
unfolding from_exit_authorization from_authorization check_request side_for_direction upper strip
    lstrip rstrip is_space
exit_made = refl

from_exit_authorization-IsExit_example :
    IsExit position exit_order × IsAuthorized exit_authorization exit_order
from_exit_authorization-IsExit_example =
    from_exit_authorization-IsExit broker.digest24 exit_authorization "D1" position none market none
      none exit_made

abbrev pub decision : RiskDecision ℤ (Unit {0})
decision = record {
  timestamp = tt;
  symbol = "INFY";
  status = approved;
  strategy_direction = long;
  reason = "passed";
  risk_version = "RISK-v1";
  reason_code = some RiskReasonCode.approved;
  resized = false;
  approved_quantity = pos 4000;
  approved_notional = pos 400000;
  position_transition = none;
  requested_projected_quantity = none;
  approved_projected_quantity = none;
}

abbrev pub all_safe : SafetyDecision
all_safe = record { allowed = true; block = no_block; reason = "ok" }

abbrev pub granted : ExecutionAuthorization ℤ (Unit {0})
granted = record authorization {
  reason = "RiskDecision authorizes the exact Risk Engine approved exposure.";
}

pub granted_made : authorize_execution decision none none "D1" [] all_safe ≡ ok granted
unfolding authorize_execution authorize_risk_decision approved_authorization check_authorization
    upper strip lstrip rstrip is_space
granted_made = refl

authorize_execution-IsExact_example : IsExact decision all_safe granted
authorize_execution-IsExact_example =
    authorize_execution-IsExact decision none none "D1" [] all_safe granted_made

abbrev halted : SafetyState
halted = record {
  kill_switch_active = true;
  stale_data = false;
  data_quality_ok = true;
  session_open = true;
  live_execution_enabled = true;
}

evaluate_safety-allowed_example :
    ((evaluate_safety halted).allowed ≡ false)
    × ((evaluate_safety halted).allowed ≡ true → (evaluate_safety halted).block ≡ no_block)
evaluate_safety-allowed_example = evaluate_safety-allowed halted

abbrev first_event : KillSwitchEvent
first_event = record {
  event_id = "1";
  timestamp = "t0";
  action = activated;
  reason = "start";
  source = "system-start";
}

abbrev switch : KillSwitch
switch = record {
  active = true;
  reason = "start";
  activation_count = 1;
  clear_count = 0;
  events = first_event ∷ [];
}

switch-IsLatched : Latch.IsLatched switch
unfolding Latch.engaged
switch-IsLatched = record { active = refl; activations = refl; clearances = refl }

abbrev calls : List Latch.Call
calls =
    Latch.clearance "CLEAR KILL SWITCH" "checked" "operator" "t1"
    ∷ Latch.activation "drawdown" "monitor" "t2"
    ∷ []

run-IsLatched_example : Latch.IsLatched (Latch.run (λ s. "id") calls switch)
run-IsLatched_example = Latch.run-IsLatched (λ s. "id") calls switch switch-IsLatched

switched_off :
    (Latch.perform
      (λ s. "id")
      (Latch.clearance "CLEAR KILL SWITCH" "checked" "operator" "t1")
      switch).active
    ≡ false
unfolding Latch.perform clear make_event check_switch_event record_clearance strip lstrip rstrip
    is_space
switched_off = refl

perform-off_example :
    (reason : String) × (source : String) × (ts : String) × (Latch.clearance "CLEAR KILL SWITCH"
        "checked" "operator" "t1"
      ≡ Latch.clearance "CLEAR KILL SWITCH" reason source ts)
perform-off_example =
    Latch.perform-off (λ s. "id") (Latch.clearance "CLEAR KILL SWITCH" "checked" "operator" "t1")
      switch refl switched_off

abbrev submitted_result : ExecutionResult ℤ (Unit {0})
submitted_result = record {
  request = order;
  snapshot = record (snapshot_of order) { latency_ms = some (pos 0) };
  accepted = true;
  latency_ms = pos 0;
  error = none;
}

submitted_made : (submit broker order empty_world).0 ≡ ok submitted_result
unfolding submit validate check_against side_for_direction submit_new accept_response transition_to
    note_transition lifecycle_event check_event check_contract stamped check_snapshot
    audit_submission allowed transition same_status get put strip lstrip rstrip is_space ◌+ℤ◌ ◌-ℤ◌
submitted_made = refl

submit-order_of_example :
    order_of "SB-1" (submit broker order empty_world).1 ≡ some submitted_result.snapshot
submit-order_of_example = submit-order_of broker order empty_world submitted_made

submit-IsRepeat_example : IsRepeat broker order (submit broker order empty_world).1 submitted_result
submit-IsRepeat_example = submit-IsRepeat broker order empty_world submitted_made
