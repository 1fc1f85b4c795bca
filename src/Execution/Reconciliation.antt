-- ===== src/Execution/Reconciliation.antt =====
-- execution/reconciliation.py: the comparison of local and broker positions. The text of a pair of
-- floats comes from outside.
pub mod Agreement
mod Examples
use stock_bot.Base.{
  String, Bool, true, false, not, Option, none, some, List, [], ◌∷◌, ◌||◌, ◌&&◌, is_some,
  if◌then◌else◌,
}
use stock_bot.Base.Text.{strip, upper, is_blank, text_ltb}
use stock_bot.Base.Dict.{Dict, get, put}
use stock_bot.Base.Result.{Result, ok, value_error, raise_if, ◌>>=◌, ◌>>◌}
use stock_bot.Float.{Float, num, eps, isfinite, ltb, leb, abs, ◌-◌}
use stock_bot.Float as Num
use text.Mathlib.Text.{◌==◌}
use Prim.Native.String.{◌++◌}

pub data ReconciliationStatus : Type 0 where
  match mismatch blocked : ReconciliationStatus

pub record BrokerPosition (F : Type 0) : Type 0 where
  pub symbol : String
  pub quantity : F
  pub average_price : F

pub record ReconciliationReport : Type 0 where
  pub status : ReconciliationStatus
  pub mismatches : List String

-- `safe`
abbrev pub is_safe : ReconciliationReport → Bool
is_safe r = elim r.status [ match ↦ true | mismatch ↦ false | blocked ↦ false ]

unfoldable pub report_of : List String → ReconciliationReport
report_of [] = record { status = match; mismatches = [] }
report_of (m ∷ ms) = record { status = mismatch; mismatches = m ∷ ms }

abbrev blocked_report : ReconciliationReport
blocked_report = record {
  status = blocked;
  mismatches = "local and broker snapshots are both required" ∷ [];
}

-- a text into a sorted list without duplicates
unfoldable pub insert_text : String → List String → List String
insert_text t [] = t ∷ []
insert_text t (s ∷ ss) =
    let rest = insert_text t ss in
    if t == s then s ∷ ss else if text_ltb s t then s ∷ rest else t ∷ s ∷ ss

unfoldable pub insert_keys : {V : Type 0} → Dict V → List String → List String
unfolding insert_text
insert_keys [] ts = ts
insert_keys ((k, _) ∷ d) ts = insert_text k (insert_keys d ts)

-- `sorted(set(a) | set(b))`
unfoldable pub union_keys : {V : Type 0} → Dict V → Dict V → List String
unfolding insert_keys
union_keys a b = insert_keys a (insert_keys b [])

module _ {F : Type 0} ⦃n : Float F⦄ where
  -- `BrokerPosition.__post_init__`
  unfoldable pub check_broker_position : BrokerPosition F → Result (BrokerPosition F)
  check_broker_position p = do
    raise_if (is_blank p.symbol) (value_error "symbol must not be empty")
    raise_if (not (isfinite p.quantity) || Num.◌==◌ p.quantity (num 0))
        (value_error "quantity must be finite and non-zero")
    raise_if (not (isfinite p.average_price) || leb p.average_price (num 0))
        (value_error "average_price must be positive and finite")
    ok (record p { symbol = upper (strip p.symbol) })

  -- `_normalize`, onto what is known so far
  unfoldable pub normalize_onto : Dict (F × F) → List (BrokerPosition F) → Result (Dict (F × F))
  normalize_onto known [] = ok known
  normalize_onto known (p ∷ ps) =
      let symbol = upper (strip p.symbol) in
      raise_if (is_some (get symbol known)) (value_error ("duplicate position for " ++ symbol))
      >> normalize_onto (put symbol (p.quantity, p.average_price) known) ps

  abbrev pub not_held : F × F
  not_held = (num 0, num 0)

  -- `map.get(symbol, (0.0, 0.0))`
  abbrev pub held : String → Dict (F × F) → F × F
  held symbol d = elim (get symbol d) [ none ↦ not_held | some pair ↦ pair ]

  -- the quantities and the prices differ by more than the tolerance
  unfoldable pub differs : F × F → F × F → Bool
  differs left right = ltb eps (abs (left.0 - right.0)) || ltb eps (abs (left.1 - right.1))

  module _ (pair_text : F × F → String) where
    -- the loop over the symbols
    unfoldable pub mismatches_of : Dict (F × F) → Dict (F × F) → List String → List String
    unfolding differs
    mismatches_of local broker [] = []
    mismatches_of local broker (s ∷ ss) =
        let rest = mismatches_of local broker ss in
        if differs (held s local) (held s broker)
        then (s
            ++ ": local="
            ++ pair_text (held s local)
            ++ " broker="
            ++ pair_text (held s broker))
          ∷ rest
        else rest

    -- `reconcile`
    unfoldable pub reconcile :
        Option (List (BrokerPosition F))
        → Option (List (BrokerPosition F))
        → Result ReconciliationReport
    reconcile none _ = ok blocked_report
    reconcile (some _) none = ok blocked_report
    reconcile (some local) (some broker) = do
      local_map ← normalize_onto [] local
      broker_map ← normalize_onto [] broker
      ok (report_of (mismatches_of local_map broker_map (union_keys local_map broker_map)))
