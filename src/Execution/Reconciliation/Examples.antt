-- ===== src/Execution/Reconciliation/Examples.antt =====
-- A reconciliation of concrete positions, in thousandths.
use stock_bot.Base.{String, false, some, [], ◌∷◌, ◌≡◌, ◌↔◌, refl}
use stock_bot.Base.Text.{strip, lstrip, rstrip, is_space, upper}
use stock_bot.Base.Dict.{Dict, get, put}
use stock_bot.Base.Int.{ℤ, pos, ◌-ℤ◌}
use stock_bot.Base.Result.{ok}
use stock_bot.Float.Fixed.{fixed}
use stock_bot.Execution.Reconciliation.{
  BrokerPosition, ReconciliationReport, match, mismatch, insert_text, insert_keys, union_keys,
  normalize_onto, held, differs, mismatches_of, report_of, reconcile,
}
use stock_bot.Execution.Reconciliation.Agreement.{reconcile-match}

abbrev infy : BrokerPosition ℤ
infy = record { symbol = "INFY"; quantity = pos 4000; average_price = pos 100000 }

abbrev tcs : BrokerPosition ℤ
tcs = record { symbol = "TCS"; quantity = pos 1000; average_price = pos 300000 }

abbrev ours : Dict (ℤ × ℤ)
ours = ("INFY", (pos 4000, pos 100000)) ∷ []

abbrev theirs : Dict (ℤ × ℤ)
theirs = ("TCS", (pos 1000, pos 300000)) ∷ ours

abbrev report : ReconciliationReport
report = record { status = mismatch; mismatches = "TCS: local=pair broker=pair" ∷ [] }

zero_agrees : differs {F = ℤ} (pos 0, pos 0) (pos 0, pos 0) ≡ false
unfolding differs ◌-ℤ◌
zero_agrees = refl

normalized_ours : normalize_onto [] (infy ∷ []) ≡ ok ours
unfolding normalize_onto get put strip lstrip rstrip is_space upper
normalized_ours = refl

normalized_theirs : normalize_onto [] (tcs ∷ infy ∷ []) ≡ ok theirs
unfolding normalize_onto get put strip lstrip rstrip is_space upper
normalized_theirs = refl

report_made : reconcile (λ _. "pair") (some (infy ∷ [])) (some (tcs ∷ infy ∷ [])) ≡ ok report
unfolding reconcile normalize_onto mismatches_of report_of differs union_keys insert_keys
    insert_text get put strip lstrip rstrip is_space upper ◌-ℤ◌
report_made = refl

reconcile-match_example :
    (mismatch ≡ match) ↔ ((s : String) → differs (held s ours) (held s theirs) ≡ false)
reconcile-match_example =
    reconcile-match (λ _. "pair") (infy ∷ []) (tcs ∷ infy ∷ []) zero_agrees normalized_ours
      normalized_theirs report_made
