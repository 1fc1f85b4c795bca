-- ===== src/Learning/Champion/Activation.antt =====
-- `ChampionStore.activate` of learning/lifecycle.py.
use stock_bot.Base.{Option, none, some, [], ◌∷◌, ◌++◌, String}
use stock_bot.Base.Exec.{Exec, lift, modify, ◌>>=◌, ◌>>◌}
use stock_bot.Clock.{Timestamp}
use stock_bot.Learning.Promotion.{PromotionDecision}
use stock_bot.Learning.Champion.{ChampionRecord, ChampionStore, line_for, Formats, history, current}
use stock_bot.Learning.Champion.Checks.{check_activation, check_successor}

module _ {T : Type 0} (f : Formats T) where
  unfoldable pub line_of : ChampionRecord → String
  line_of r = f.dumps (line_for f r)

  -- the appended line and the new pointer
  unfoldable pub append_champion : ChampionRecord → ChampionStore → ChampionStore
  append_champion r s = record {
    lines = some (elim s.lines [ none ↦ [] | some ls ↦ ls ] ++ (line_of r ∷ []));
    pointer = some r.model_version;
  }

module _ {T : Type 0} ⦃t : Timestamp T⦄ (f : Formats T) where
  -- `activate`
  unfoldable pub activate :
      ChampionRecord → Option PromotionDecision → Exec ChampionStore (Unit {0})
  activate r decision = do
    lift (check_activation f r decision)
    prior ← λ s. (history f s, s)
    pointer ← λ s. (current f s, s)
    lift (check_successor f prior pointer r)
    modify (append_champion f r)
