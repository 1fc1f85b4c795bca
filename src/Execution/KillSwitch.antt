-- ===== src/Execution/KillSwitch.antt =====
-- execution/kill_switch.py: the latched hard stop. The event identity and its time come from outside.
pub mod Latch
use stock_bot.Base.{ℕ, ◌+◌, String, Bool, true, false, not, List, [], ◌∷◌, ◌++◌, if◌then◌else◌}
use stock_bot.Base.Text.{strip, is_blank}
use stock_bot.Base.Result.{Result, ok, err, value_error, runtime_error, raise_if, ◌>>=◌, ◌>>◌}
use stock_bot.Base.Exec.{Exec, lift, modify, gets, pure}
use stock_bot.Base.Exec
use text.Mathlib.Text.{◌==◌}
use Prim.Native.String

pub data SwitchAction : Type 0 where
  activated cleared : SwitchAction

pub record KillSwitchEvent : Type 0 where
  pub event_id : String
  pub timestamp : String
  pub action : SwitchAction
  pub reason : String
  pub source : String

pub record KillSwitch : Type 0 where
  pub active : Bool
  pub reason : String
  pub activation_count : ℕ
  pub clear_count : ℕ
  pub events : List KillSwitchEvent

-- `KillSwitchEvent.__post_init__`; the action is one of the two by its type.
unfoldable pub check_switch_event : KillSwitchEvent → Result KillSwitchEvent
check_switch_event e = do
  raise_if (is_blank e.event_id) (value_error "event_id must be non-empty")
  raise_if (is_blank e.timestamp) (value_error "timestamp must be non-empty")
  raise_if (is_blank e.reason) (value_error "reason must be non-empty")
  raise_if (is_blank e.source) (value_error "source must be non-empty")
  ok e

abbrev action_name : SwitchAction → String
action_name activated = "ACTIVATE"
action_name cleared = "CLEAR"

-- the text that the event identity is a digest of
abbrev identity_text : SwitchAction → String → String → String → String
identity_text action reason source ts = String.◌++◌ (action_name action) (
    String.◌++◌ "|" (
      String.◌++◌ (strip reason)
        (String.◌++◌ "|" (String.◌++◌ (strip source) (String.◌++◌ "|" ts)))))

module _ (sha256 : String → String) where
  -- `_make_event`, at the time `ts` that the clock shows
  unfoldable pub make_event : SwitchAction → String → String → String → Result KillSwitchEvent
  unfolding check_switch_event
  make_event action reason source ts = do
    raise_if (is_blank reason) (value_error "kill-switch reason must be non-empty")
    raise_if (is_blank source) (value_error "kill-switch source must be non-empty")
    check_switch_event (record {
      event_id = sha256 (identity_text action reason source ts);
      timestamp = ts;
      action = action;
      reason = strip reason;
      source = strip source;
    })

  -- `__init__`
  unfoldable pub start : String → Result KillSwitch
  start ts = do
    e ← make_event activated "Kill switch starts active until explicitly cleared." "system-start" ts
    ok (record {
      active = true;
      reason = "Kill switch starts active until explicitly cleared.";
      activation_count = 1;
      clear_count = 0;
      events = e ∷ [];
    })

  unfoldable pub record_activation : KillSwitchEvent → KillSwitch → KillSwitch
  record_activation e k = record k {
    active = true;
    reason = e.reason;
    activation_count = k.activation_count + 1;
    events = k.events ++ (e ∷ []);
  }

  unfoldable pub record_clearance : KillSwitchEvent → KillSwitch → KillSwitch
  record_clearance e k = record k {
    active = false;
    reason = e.reason;
    clear_count = k.clear_count + 1;
    events = k.events ++ (e ∷ []);
  }

  -- `activate`
  unfoldable pub activate : String → String → String → Exec KillSwitch (Unit {0})
  unfolding record_activation
  activate reason source ts k = elim (make_event activated reason source ts) [
    | ok e ↦ (ok tt, record_activation e k)
    | err x ↦ (err x, k)
  ]

  -- `clear`
  unfoldable pub clear : String → String → String → String → Exec KillSwitch (Unit {0})
  unfolding record_clearance
  clear confirmation reason source ts k =
      if not (confirmation == "CLEAR KILL SWITCH")
      then (err (value_error "explicit kill-switch confirmation required"), k)
      else elim (make_event cleared reason source ts) [
        | ok e ↦ (ok tt, record_clearance e k)
        | err x ↦ (err x, k)
      ]

-- `assert_safe`
unfoldable pub assert_safe : KillSwitch → Result (Unit {0})
assert_safe k = raise_if k.active (runtime_error (String.◌++◌ "kill switch active: " k.reason))
