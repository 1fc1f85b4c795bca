-- ===== src/Execution/Routing.antt =====
-- execution/routing.py: the choice of a broker route.
pub mod Best
mod Examples
use stock_bot.Base.{
  String, Bool, true, false, not, Option, none, some, List, [], ◌∷◌, ◌++◌, ◌||◌, ◌&&◌,
  if◌then◌else◌,
}
use stock_bot.Base.Text.{strip, is_blank, contains, text_ltb}
use stock_bot.Base.Dict.{Dict, get}
use stock_bot.Base.Result.{Result, ok, err, value_error, raise_if, ◌>>=◌, ◌>>◌}
use stock_bot.Float.{Float, num, eps, isfinite, ltb, leb, ◌==◌, ◌+◌, ◌*◌}
use stock_bot.Execution.Models.{OrderRequest}
use Prim.Native.String

pub record RouteQuote (F : Type 0) : Type 0 where
  pub broker : String
  pub available_quantity : F
  pub expected_slippage_bps : F
  pub fee_bps : F
  pub latency_ms : F
  pub healthy : Bool

pub record RoutingPolicy (F : Type 0) : Type 0 where
  pub max_slippage_bps : F
  pub max_latency_ms : F
  pub require_full_quantity : Bool
  pub slippage_weight : F
  pub fee_weight : F
  pub latency_weight : F

pub record RouteDecision (F : Type 0) : Type 0 where
  pub broker : String
  pub score : F
  pub reason : String
  pub considered : List String

-- `sorted` of texts
unfoldable pub insert_sorted : String → List String → List String
insert_sorted t [] = t ∷ []
insert_sorted t (s ∷ ss) =
    let rest = insert_sorted t ss in if text_ltb s t then s ∷ rest else t ∷ s ∷ ss

unfoldable pub sort_texts : List String → List String
unfolding insert_sorted
sort_texts [] = []
sort_texts (t ∷ ts) = insert_sorted t (sort_texts ts)

abbrev is_nil : {A : Type 0} → List A → Bool
is_nil [] = true
is_nil (_ ∷ _) = false

module _ {F : Type 0} where
  abbrev pub brokers_of : List (RouteQuote F) → List String
  brokers_of [] = []
  brokers_of (q ∷ qs) = q.broker ∷ brokers_of qs

module _ {F : Type 0} ⦃n : Float F⦄ where
  all_finite : List F → Bool
  all_finite [] = true
  all_finite (x ∷ xs) = isfinite x && all_finite xs

  -- `RouteQuote.__post_init__`
  unfoldable pub check_quote : RouteQuote F → Result (RouteQuote F)
  unfolding all_finite
  check_quote q = do
    raise_if (is_blank q.broker) (value_error "broker must not be empty")
    raise_if
        (not (
          all_finite
            (q.available_quantity ∷ q.expected_slippage_bps ∷ q.fee_bps ∷ q.latency_ms ∷ [])))
        (value_error "route quote values must be finite")
    raise_if (ltb q.available_quantity (num 0))
        (value_error "available_quantity must be non-negative")
    raise_if (ltb q.expected_slippage_bps (num 0) || ltb q.fee_bps (num 0))
        (value_error "execution costs must be non-negative")
    raise_if (ltb q.latency_ms (num 0)) (value_error "latency_ms must be non-negative")
    ok q

  -- `RoutingPolicy.__post_init__`
  unfoldable pub check_policy : RoutingPolicy F → Result (RoutingPolicy F)
  unfolding all_finite
  check_policy p = do
    raise_if
        (not (
          all_finite (
            p.max_slippage_bps ∷ p.max_latency_ms ∷ p.slippage_weight ∷ p.fee_weight
            ∷ p.latency_weight ∷ [])))
        (value_error "routing policy values must be finite")
    raise_if (ltb p.max_slippage_bps (num 0) || ltb p.max_latency_ms (num 0))
        (value_error "routing limits must be non-negative")
    raise_if
        (ltb p.slippage_weight (num 0)
          || (ltb p.fee_weight (num 0) || ltb p.latency_weight (num 0)))
        (value_error "routing weights must be non-negative")
    raise_if (leb (p.slippage_weight + p.fee_weight + p.latency_weight) (num 0))
        (value_error "at least one routing weight must be positive")
    ok p

module _ {F : Type 0} ⦃n : Float F⦄ (policy : RoutingPolicy F) where
  -- none of the `continue`s of the loop is taken, for an order of this quantity
  unfoldable pub is_eligible : F → RouteQuote F → Bool
  is_eligible quantity q =
      q.healthy
      && (not (ltb policy.max_slippage_bps q.expected_slippage_bps)
          && (not (ltb policy.max_latency_ms q.latency_ms)
              && (if policy.require_full_quantity
                  then not (ltb (q.available_quantity + eps) quantity)
                  else not (leb q.available_quantity (num 0)))))

  -- the loop over the quotes, with the names seen so far
  unfoldable pub candidates_of :
      F → List String → List (RouteQuote F) → Result (List (RouteQuote F))
  candidates_of quantity seen [] = ok []
  candidates_of quantity seen (q ∷ qs) = do
    raise_if (contains (strip q.broker) seen)
        (value_error (String.◌++◌ "duplicate broker route: " (strip q.broker)))
    rest ← candidates_of quantity (strip q.broker ∷ seen) qs
    ok (if is_eligible quantity q then q ∷ rest else rest)

  -- `score(quote)[0]`
  unfoldable pub total_of : RouteQuote F → F
  total_of q =
      policy.slippage_weight * q.expected_slippage_bps
      + policy.fee_weight * q.fee_bps
      + policy.latency_weight * q.latency_ms

  -- `score(a) < score(b)`, as tuples compare
  unfoldable pub scores_below : RouteQuote F → RouteQuote F → Bool
  scores_below a b =
      if total_of a == total_of b
      then (if a.latency_ms == b.latency_ms
          then text_ltb a.broker b.broker
          else ltb a.latency_ms b.latency_ms)
      else ltb (total_of a) (total_of b)

  -- `min(…, key=score)`: the first of those that none scores below
  unfoldable pub best_of : RouteQuote F → List (RouteQuote F) → RouteQuote F
  best_of best [] = best
  best_of best (q ∷ qs) = best_of (if scores_below q best then q else best) qs

  abbrev decided : RouteQuote F → List (RouteQuote F) → RouteDecision F
  decided best candidates = record {
    broker = best.broker;
    score = total_of best;
    reason = "lowest deterministic execution-cost score among eligible routes";
    considered = sort_texts (brokers_of candidates);
  }

  -- `SmartOrderRouter.select`
  unfoldable pub select :
      {T : Type 0} → OrderRequest F T → List (RouteQuote F) → Result (RouteDecision F)
  select o quotes = do
    raise_if (is_nil quotes) (value_error "no broker route quotes were supplied")
    candidates ← candidates_of o.quantity [] quotes
    elim candidates [
      | [] ↦ err (value_error "no broker route satisfies routing policy")
      | q ∷ qs ↦ ok (decided (best_of q qs) (q ∷ qs))
    ]

  -- `select_adapter`, for adapters of any type
  unfoldable pub select_adapter :
      {T A : Type 0}
      → OrderRequest F T
      → Dict A
      → List (RouteQuote F)
      → Result (A × RouteDecision F)
  select_adapter o adapters quotes = do
    d ← select o quotes
    elim (get d.broker adapters) [
      | none ↦
          err (value_error (String.◌++◌ "selected broker adapter is not configured: " d.broker))
      | some adapter ↦ ok (adapter, d)
    ]
