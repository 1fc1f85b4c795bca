-- ===== src/Execution/Status.antt =====
-- `OrderStatus` and `OrderStateMachine` of execution/engine.py.
use stock_bot.Base.{
  ◌≡◌, refl, zero, suc, List, [], ◌∷◌, sym, ap, ◌∙◌, arith, ℕ, Bool, true, false, if◌then◌else◌,
  nat_eq,
}
use stock_bot.Base.Result.{Result, ok, err, value_error}

pub data OrderStatus : Type 0 where
  created validated rejected_local submitting submitted acknowledged open_order : OrderStatus
  partially_filled filled cancel_pending cancelled rejected_broker expired : OrderStatus
  failed unknown : OrderStatus

-- A number for each status, which tells them apart.
abbrev pub rank : OrderStatus → ℕ
rank created = 0
rank validated = 1
rank rejected_local = 2
rank submitting = 3
rank submitted = 4
rank acknowledged = 5
rank open_order = 6
rank partially_filled = 7
rank filled = 8
rank cancel_pending = 9
rank cancelled = 10
rank rejected_broker = 11
rank expired = 12
rank failed = 13
rank unknown = 14

-- `a is b`
unfoldable pub same_status : OrderStatus → OrderStatus → Bool
same_status a b = nat_eq (rank a) (rank b)

-- `_ALLOWED`: whether the second status is in the set of the first.
unfoldable pub allowed : OrderStatus → OrderStatus → Bool
allowed created validated = true
allowed created rejected_local = true
allowed validated submitting = true
allowed validated rejected_local = true
allowed submitting submitted = true
allowed submitting partially_filled = true
allowed submitting filled = true
allowed submitting rejected_broker = true
allowed submitting failed = true
allowed submitting unknown = true
allowed submitted acknowledged = true
allowed submitted open_order = true
allowed submitted partially_filled = true
allowed submitted filled = true
allowed submitted rejected_broker = true
allowed submitted unknown = true
allowed acknowledged open_order = true
allowed acknowledged partially_filled = true
allowed acknowledged filled = true
allowed acknowledged rejected_broker = true
allowed acknowledged unknown = true
allowed open_order partially_filled = true
allowed open_order filled = true
allowed open_order cancel_pending = true
allowed open_order cancelled = true
allowed open_order expired = true
allowed open_order unknown = true
allowed partially_filled partially_filled = true
allowed partially_filled filled = true
allowed partially_filled cancel_pending = true
allowed partially_filled cancelled = true
allowed partially_filled unknown = true
allowed cancel_pending cancelled = true
allowed cancel_pending filled = true
allowed cancel_pending unknown = true
allowed filled unknown = true
allowed cancelled filled = true
allowed cancelled unknown = true
allowed expired unknown = true
allowed rejected_broker unknown = true
allowed failed unknown = true
allowed unknown submitted = true
allowed unknown acknowledged = true
allowed unknown open_order = true
allowed unknown partially_filled = true
allowed unknown filled = true
allowed unknown cancel_pending = true
allowed unknown cancelled = true
allowed unknown rejected_broker = true
allowed unknown failed = true
allowed _ _ = false

-- `OrderStateMachine.transition`
unfoldable pub transition : OrderStatus → OrderStatus → Result OrderStatus
transition current target =
    if allowed current target then ok target else err (value_error "invalid order transition")

abbrev nth : ℕ → List OrderStatus → OrderStatus
nth _ [] = unknown
nth zero (s ∷ _) = s
nth (suc k) (_ ∷ ss) = nth k ss

abbrev of_rank : ℕ → OrderStatus
of_rank k = nth k (
    created ∷ validated ∷ rejected_local ∷ submitting ∷ submitted ∷ acknowledged ∷ open_order
    ∷ partially_filled ∷ filled ∷ cancel_pending ∷ cancelled ∷ rejected_broker ∷ expired ∷ failed
    ∷ unknown ∷ [])

of_rank-rank : (s : OrderStatus) → of_rank (rank s) ≡ s
of_rank-rank created = refl
of_rank-rank validated = refl
of_rank-rank rejected_local = refl
of_rank-rank submitting = refl
of_rank-rank submitted = refl
of_rank-rank acknowledged = refl
of_rank-rank open_order = refl
of_rank-rank partially_filled = refl
of_rank-rank filled = refl
of_rank-rank cancel_pending = refl
of_rank-rank cancelled = refl
of_rank-rank rejected_broker = refl
of_rank-rank expired = refl
of_rank-rank failed = refl
of_rank-rank unknown = refl

pub same_status-≡ : (a b : OrderStatus) → same_status a b ≡ true → a ≡ b
unfolding same_status
same_status-≡ a b h =
    let e : rank a ≡ rank b = ground arith in sym (of_rank-rank a) ∙ ap of_rank e ∙ of_rank-rank b
