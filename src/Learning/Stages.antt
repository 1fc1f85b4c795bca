-- ===== src/Learning/Stages.antt =====
-- learning/lifecycle.py: the graph of `LearningLifecycle`, whose states are texts.
pub mod Paths
use stock_bot.Base.{String, Bool, true, false, not, List, [], ◌∷◌, Option, none, some}
use stock_bot.Base.Dict.{Dict, get}
use stock_bot.Base.Text.{contains}
use stock_bot.Base.Result.{Result, ok, value_error, raise_if, ◌>>◌}
use Prim.Native.String

-- `LearningLifecycle._TRANSITIONS`
abbrev pub transitions : Dict (List String)
transitions =
    ("OBSERVATION", "HYPOTHESIS" ∷ "INCONCLUSIVE" ∷ [])
    ∷ ("HYPOTHESIS", "EXPERIMENT" ∷ "INCONCLUSIVE" ∷ [])
    ∷ ("EXPERIMENT", "CANDIDATE" ∷ "REJECTED" ∷ "INCONCLUSIVE" ∷ [])
    ∷ ("CANDIDATE", "VALIDATING" ∷ "REJECTED" ∷ "INCONCLUSIVE" ∷ [])
    ∷ ("VALIDATING", "OOS" ∷ "REJECTED" ∷ "INCONCLUSIVE" ∷ [])
    ∷ ("OOS", "WALK_FORWARD" ∷ "REJECTED" ∷ "INCONCLUSIVE" ∷ [])
    ∷ ("WALK_FORWARD", "PAPER" ∷ "REJECTED" ∷ "INCONCLUSIVE" ∷ [])
    ∷ ("PAPER", "PROMOTION_REVIEW" ∷ "REJECTED" ∷ "INCONCLUSIVE" ∷ [])
    ∷ ("PROMOTION_REVIEW", "PROMOTED" ∷ "REJECTED" ∷ "INCONCLUSIVE" ∷ [])
    ∷ ("PROMOTED", "ROLLED_BACK" ∷ [])
    ∷ ("ROLLED_BACK", [])
    ∷ ("REJECTED", [])
    ∷ ("INCONCLUSIVE", [])
    ∷ []

abbrev pub or_empty : Option (List String) → List String
or_empty none = []
or_empty (some xs) = xs

unfoldable pub can_transition : String → String → Bool
can_transition current target = contains target (or_empty (get current transitions))

unfoldable pub require_transition : String → String → Result (Unit {0})
unfolding can_transition
require_transition current target = raise_if (not (can_transition current target)) (
    value_error (
      String.◌++◌ "illegal learning transition: "
        (String.◌++◌ current (String.◌++◌ " -> " target))))

-- A cycle that requires each of the transitions in turn.
unfoldable pub advance : String → List String → Result String
advance s [] = ok s
advance s (t ∷ ts) = do require_transition s t; advance t ts
