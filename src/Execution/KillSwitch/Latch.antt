-- ===== src/Execution/KillSwitch/Latch.antt =====
-- The kill switch of execution/kill_switch.py over a history of calls.
use stock_bot.Base.{
  ◌+◌, String, Bool, true, false, not, ◌≡◌, refl, arith, List, [], ◌∷◌, ◌++◌, count, if◌then◌else◌,
  eq_iff,
}
use stock_bot.Base.Result.{Result, ok, err, value_error}
use stock_bot.Execution.KillSwitch.{
  SwitchAction, activated, cleared, KillSwitchEvent, KillSwitch, make_event, activate, clear,
  record_activation, record_clearance, check_switch_event,
}
use text.Mathlib.Text.{◌==◌}

pub data Call : Type 0 where
  activation : String → String → String → Call
  clearance : String → String → String → String → Call

abbrev is_activation : KillSwitchEvent → Bool
is_activation e = elim e.action [ activated ↦ true | cleared ↦ false ]

abbrev is_clearance : KillSwitchEvent → Bool
is_clearance e = not (is_activation e)

-- Whether the last of a list of events engages the switch.
unfoldable pub engaged : Bool → List KillSwitchEvent → Bool
engaged b [] = b
engaged b (e ∷ es) = engaged (is_activation e) es

engaged-append :
    (b : Bool) (es : List KillSwitchEvent) (e : KillSwitchEvent)
    → engaged b (es ++ (e ∷ [])) ≡ is_activation e
unfolding engaged
engaged-append b [] e = refl
engaged-append b (x ∷ es) e = engaged-append (is_activation x) es e

count-append :
    (p : KillSwitchEvent → Bool) (es : List KillSwitchEvent) (e : KillSwitchEvent)
    → count p (es ++ (e ∷ [])) ≡ count p es + (if p e then 1 else 0)
count-append p [] e = ground arith
count-append p (x ∷ es) e = ground (arith, count-append p es e)

-- The fields of a switch are what its event log says.
pub record IsLatched (k : KillSwitch) : Type 0 where
  pub active : k.active ≡ engaged false k.events
  pub activations : k.activation_count ≡ count is_activation k.events
  pub clearances : k.clear_count ≡ count is_clearance k.events

module _ (sha256 : String → String) where
  unfoldable pub perform : Call → KillSwitch → KillSwitch
  unfolding activate clear
  perform (activation reason source ts) k = (activate sha256 reason source ts k).1
  perform (clearance confirmation reason source ts) k =
      (clear sha256 confirmation reason source ts k).1

  unfoldable pub run : List Call → KillSwitch → KillSwitch
  unfolding perform
  run [] k = k
  run (c ∷ cs) k = run cs (perform c k)

  make_event-action :
      (a : SwitchAction) (reason source ts : String) {e : KillSwitchEvent}
      → make_event sha256 a reason source ts ≡ ok e
      → e.action ≡ a
  unfolding make_event check_switch_event
  make_event-action a reason source ts h = ground arith

  activate-IsLatched :
      (reason source ts : String) (k : KillSwitch)
      → IsLatched k
      → IsLatched (activate sha256 reason source ts k).1
  unfolding activate record_activation
  activate-IsLatched reason source ts k p = go (make_event sha256 activated reason source ts) refl
    where
      go :
          (r : Result KillSwitchEvent)
          → make_event sha256 activated reason source ts ≡ r
          → IsLatched
              (elim r as (λ _. Result (Unit {0}) × KillSwitch) [
                | ok e ↦ (ok tt, record_activation sha256 e k)
                | err x ↦ (err x, k)
              ]).1
      go (err x) h = p
      go (ok e) h =
          let a = make_event-action activated reason source ts h in
          record {
            active = ground (arith, engaged-append false k.events e);
            activations = ground (arith, count-append is_activation k.events e, p.activations);
            clearances = ground (arith, count-append is_clearance k.events e, p.clearances);
          }

  clear-IsLatched :
      (confirmation reason source ts : String) (k : KillSwitch)
      → IsLatched k
      → IsLatched (clear sha256 confirmation reason source ts k).1
  unfolding clear record_clearance
  clear-IsLatched confirmation reason source ts k p =
      gate (not (confirmation == "CLEAR KILL SWITCH"))
    where
      Outcome : Type 0
      Outcome = Result (Unit {0}) × KillSwitch

      event : Result KillSwitchEvent
      event = make_event sha256 cleared reason source ts

      finish : Result KillSwitchEvent → Outcome
      finish r = elim r [ ok e ↦ (ok tt, record_clearance sha256 e k) | err x ↦ (err x, k) ]

      go : (r : Result KillSwitchEvent) → event ≡ r → IsLatched (finish r).1
      go (err x) h = p
      go (ok e) h =
          let a = make_event-action cleared reason source ts h in
          record {
            active = ground (arith, engaged-append false k.events e);
            activations = ground (arith, count-append is_activation k.events e, p.activations);
            clearances = ground (arith, count-append is_clearance k.events e, p.clearances);
          }

      gate :
          (b : Bool)
          → IsLatched
              (if b
                then (err (value_error "explicit kill-switch confirmation required"), k)
                else finish event).1
      gate true = p
      gate false = go event refl

  perform-IsLatched : (c : Call) (k : KillSwitch) → IsLatched k → IsLatched (perform c k)
  unfolding perform
  perform-IsLatched (activation reason source ts) k p = activate-IsLatched reason source ts k p
  perform-IsLatched (clearance confirmation reason source ts) k p =
      clear-IsLatched confirmation reason source ts k p

  -- Over every history of activations and clearances of a switch whose log is right, the switch is
  -- active exactly when the last event of its log is an activation, and its two counters are the
  -- numbers of activations and clearances of the log.
  pub run-IsLatched : (cs : List Call) (k : KillSwitch) → IsLatched k → IsLatched (run cs k)
  unfolding run
  run-IsLatched [] k p = p
  run-IsLatched (c ∷ cs) k p = run-IsLatched cs _ (perform-IsLatched c k p)

  -- A call that turns an active switch off is a clearance with the exact confirmation text.
  pub perform-off :
      (c : Call) (k : KillSwitch)
      → k.active ≡ true
      → (perform c k).active ≡ false
      → (reason : String) × (source : String) × (ts : String) × (c
          ≡ clearance "CLEAR KILL SWITCH" reason source ts)
  unfolding perform activate clear record_activation record_clearance
  perform-off (activation reason source ts) k a h = ground arith
  perform-off (clearance confirmation reason source ts) k a h =
      (reason, source, ts, ground (arith, eq_iff confirmation "CLEAR KILL SWITCH"))
