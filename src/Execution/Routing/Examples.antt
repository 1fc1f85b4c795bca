-- ===== src/Execution/Routing/Examples.antt =====
-- The router at concrete quotes, in thousandths.
use mathlib.Core.List.{Memᴰ}
use stock_bot.Base.{true, List, [], ◌∷◌, ◌≡◌, refl}
use stock_bot.Base.Text.{strip, lstrip, rstrip, is_space}
use stock_bot.Base.Int.{ℤ, pos, ◌+ℤ◌}
use stock_bot.Base.Result.{ok}
use stock_bot.Float.Fixed.{fixed, fixed-IsOrdered}
use stock_bot.Execution.Examples.{unit_time, order}
use stock_bot.Execution.Routing.{
  RouteQuote, RoutingPolicy, RouteDecision, insert_sorted, sort_texts, is_eligible, candidates_of,
  total_of, scores_below, best_of, select,
}
use stock_bot.Execution.Routing.Best.{NoRouteBelow, select-NoRouteBelow}

abbrev policy : RoutingPolicy ℤ
policy = record {
  max_slippage_bps = pos 100000;
  max_latency_ms = pos 5000000;
  require_full_quantity = true;
  slippage_weight = pos 1000;
  fee_weight = pos 1000;
  latency_weight = pos 0;
}

abbrev dear : RouteQuote ℤ
dear = record {
  broker = "upstox";
  available_quantity = pos 9000;
  expected_slippage_bps = pos 5000;
  fee_bps = pos 3000;
  latency_ms = pos 20000;
  healthy = true;
}

-- The cheapest has too few shares.
abbrev quotes : List (RouteQuote ℤ)
quotes =
    dear
    ∷ record dear { broker = "paper"; fee_bps = pos 1000 }
    ∷ record dear { broker = "small"; fee_bps = pos 0; available_quantity = pos 1000 }
    ∷ []

abbrev decision : RouteDecision ℤ
decision = record {
  broker = "paper";
  score = pos 6000;
  reason = "lowest deterministic execution-cost score among eligible routes";
  considered = "paper" ∷ "upstox" ∷ [];
}

decision_made : select policy order quotes ≡ ok decision
unfolding select candidates_of is_eligible best_of scores_below total_of sort_texts insert_sorted
    strip lstrip rstrip is_space ◌+ℤ◌
decision_made = refl

select-NoRouteBelow_example :
    (q : RouteQuote ℤ) × Memᴰ q quotes
    × (is_eligible policy order.quantity q ≡ true)
    × ("paper" ≡ q.broker)
    × (pos 6000 ≡ total_of policy q)
    × NoRouteBelow policy order.quantity (total_of policy q) quotes
select-NoRouteBelow_example = select-NoRouteBelow policy fixed-IsOrdered order quotes decision_made
