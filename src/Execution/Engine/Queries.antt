-- ===== src/Execution/Engine/Queries.antt =====
-- The read-only views of execution/engine.py: `unknown_orders`, `open_orders` and `metrics`.
use stock_bot.Base.{
  ℕ, ◌≡◌, refl, arith, Bool, true, false, Option, none, some, List, [], ◌∷◌, map, keep, count,
  length, if◌then◌else◌, nat_eq,
}
use Prim.Native.Nat
use stock_bot.Base.Dict.{values}
use stock_bot.Float.{Float, num, ◌+◌, ◌/◌}
use stock_bot.Float as Num
use stock_bot.Execution.Status.{
  OrderStatus, rejected_local, submitted, open_order, partially_filled, filled, cancel_pending,
  rejected_broker, failed, unknown, same_status,
}
use stock_bot.Execution.Models.{OrderSnapshot, Fill}
use stock_bot.Execution.Engine.State.{Engine}
use stock_bot.Execution.Engine.Submission.{not_rejected}

pub record ExecutionMetrics (F : Type 0) : Type 0 where
  pub orders : ℕ
  pub accepted_orders : ℕ
  pub filled_orders : ℕ
  pub partially_filled_orders : ℕ
  pub rejected_orders : ℕ
  pub unknown_orders : ℕ
  pub requested_quantity : F
  pub filled_quantity : F
  pub total_fees : F
  pub average_latency_ms : F
  pub fill_ratio : F
  pub rejection_rate : F

-- `status in {REJECTED_LOCAL, REJECTED_BROKER, FAILED}`
abbrev is_rejected : OrderStatus → Bool
is_rejected rejected_local = true
is_rejected rejected_broker = true
is_rejected failed = true
is_rejected _ = false

-- the statuses of `open_orders`
abbrev is_open : OrderStatus → Bool
is_open submitted = true
is_open open_order = true
is_open partially_filled = true
is_open cancel_pending = true
is_open unknown = true
is_open _ = false

module _ {F T : Type 0} where
  -- `unknown_orders`
  abbrev pub unknown_orders : Engine F T → List (OrderSnapshot F T)
  unknown_orders e = keep (λ s. same_status s.status unknown) (values e.orders)

  -- `open_orders`
  abbrev pub open_orders : Engine F T → List (OrderSnapshot F T)
  open_orders e = keep (λ s. is_open s.status) (values e.orders)

module _ {F : Type 0} ⦃n : Float F⦄ where
  -- `sum` starts from 0 and adds on the right.
  abbrev sum_from : F → List F → F
  sum_from acc [] = acc
  sum_from acc (x ∷ xs) = sum_from (acc + x) xs

  abbrev pub sum : List F → F
  sum = sum_from (num 0)

  abbrev present : List (Option F) → List F
  present [] = []
  present (none ∷ xs) = present xs
  present (some x ∷ xs) = x ∷ present xs

  -- `total / count if count else 0.0`
  abbrev mean : F → ℕ → F
  mean total k = if nat_eq k 0 then num 0 else total / num k

module _ {F T : Type 0} where
  abbrev concat : List (List (Fill F T)) → List (Fill F T)
  concat [] = []
  concat (x ∷ xs) = join x (concat xs)
    where
      join : List (Fill F T) → List (Fill F T) → List (Fill F T)
      join [] ys = ys
      join (f ∷ fs) ys = f ∷ join fs ys

module _ {F T : Type 0} ⦃n : Float F⦄ where
  -- `metrics`
  unfoldable pub metrics : Engine F T → ExecutionMetrics F
  unfolding same_status
  metrics e =
      let snapshots = values e.orders in
      let rejected = count (λ s. is_rejected s.status) snapshots in
      let requested = sum (map (λ s. s.requested_quantity) snapshots) in
      let filled_qty = sum (map (λ s. s.filled_quantity) snapshots) in
      let latencies = present (map (λ s. s.latency_ms) snapshots) in
      record {
        orders = length snapshots;
        accepted_orders = count (λ s. not_rejected s.status) snapshots;
        filled_orders = count (λ s. same_status s.status filled) snapshots;
        partially_filled_orders = count (λ s. same_status s.status partially_filled) snapshots;
        rejected_orders = rejected;
        unknown_orders = count (λ s. same_status s.status unknown) snapshots;
        requested_quantity = requested;
        filled_quantity = filled_qty;
        total_fees = sum (map (λ f. f.fee) (concat (values e.fills)));
        average_latency_ms = mean (sum latencies) (length latencies);
        fill_ratio = if Num.◌==◌ requested (num 0) then num 0 else filled_qty / requested;
        rejection_rate = mean (num rejected) (length snapshots);
      }

  account :
      (xs : List (OrderSnapshot F T))
      → (Nat.◌+◌ (count (λ s. not_rejected s.status) xs) (count (λ s. is_rejected s.status) xs)
          ≡ length xs)
        × Nat.◌≤◌
            (Nat.◌+◌ (count (λ s. same_status s.status filled) xs) (
              Nat.◌+◌ (count (λ s. same_status s.status partially_filled) xs) (
                Nat.◌+◌
                  (count (λ s. is_rejected s.status) xs)
                  (count (λ s. same_status s.status unknown) xs))))
            (length xs)
  unfolding same_status
  account [] = (refl, omega arith)
  account (x ∷ xs) = let ih = account xs in ground arith

  -- The accepted and the rejected orders of the metrics add up to all orders, and the filled, the
  -- partially filled, the rejected and the unknown ones to no more than all.
  pub metrics-orders :
      (e : Engine F T)
      → (Nat.◌+◌ (metrics e).accepted_orders (metrics e).rejected_orders ≡ (metrics e).orders)
        × Nat.◌≤◌
            (Nat.◌+◌ (metrics e).filled_orders (
              Nat.◌+◌
                (metrics e).partially_filled_orders
                (Nat.◌+◌ (metrics e).rejected_orders (metrics e).unknown_orders)))
            (metrics e).orders
  unfolding metrics
  metrics-orders e = account (values e.orders)
