-- ===== src/Execution/Engine/Positions.antt =====
-- `reconcile_positions` and `ExecutionReadiness.check` of execution/engine.py.
use stock_bot.Base.{Bool, true, false, List, if◌then◌else◌, [], ◌∷◌, ◌&&◌, when_some}
use stock_bot.Base.Dict.{Dict, get, put}
use stock_bot.Base.Exec.{Exec, pure, ◌>>=◌}
use stock_bot.Float.{Float, ◌==◌}
use stock_bot.Execution.Models.{PositionSnapshot}
use stock_bot.Execution.Environment.{Environment}
use stock_bot.Execution.Engine.State.{World, call}

-- `ExecutionReadiness(live_locked=…).check(risk_authorized=…, safety_allowed=…)`
unfoldable pub readiness_check : Bool → Bool → Bool → Bool
readiness_check live_locked risk_authorized safety_allowed =
    if live_locked then false else risk_authorized && safety_allowed

module _ {F : Type 0} where
  -- `{item.symbol: (item.quantity, item.average_price) for item in …}`, onto a dictionary
  unfoldable pub position_map : Dict (F × F) → List (PositionSnapshot F) → Dict (F × F)
  position_map d [] = d
  position_map d (p ∷ ps) = position_map (put p.symbol (p.quantity, p.average_price) d) ps

module _ {F : Type 0} ⦃n : Float F⦄ where
  -- every entry of the first is in the second with the same values
  unfoldable pub is_within : Dict (F × F) → Dict (F × F) → Bool
  is_within [] other = true
  is_within ((k, (q, x)) ∷ d) other =
      when_some (get k other) (λ (r, y). q == r && x == y) && is_within d other

  -- `==` of two dictionaries
  unfoldable pub same_positions : Dict (F × F) → Dict (F × F) → Bool
  unfolding is_within
  same_positions a b = is_within a b && is_within b a

  -- `reconcile_positions`
  unfoldable pub reconcile_positions :
      {T B : Type 0} → Environment F T B → List (PositionSnapshot F) → Exec (World F T B) Bool
  unfolding same_positions
  reconcile_positions env local = do
    broker ← call env.positions
    pure (same_positions (position_map [] local) (position_map [] broker))
