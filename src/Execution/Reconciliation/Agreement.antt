-- ===== src/Execution/Reconciliation/Agreement.antt =====
-- What a reconciliation that matches means.
use mathlib.Core.Path.{subst}
use stock_bot.Base.{
  String, true, false, none, some, List, [], ◌∷◌, ◌||◌, ◌≡◌, ◌↔◌, inl, inr, arith, eq_iff, refl,
  sym, ap, ◌∙◌, Bool-cases,
}
use stock_bot.Base.Text.{contains, String-cases}
use stock_bot.Base.Dict.{Dict, get}
use stock_bot.Base.Result.{ok}
use stock_bot.Float.{Float}
use stock_bot.Execution.Reconciliation.{
  ReconciliationReport, match, BrokerPosition, insert_text, insert_keys, union_keys, normalize_onto,
  not_held, held, differs, mismatches_of, report_of, reconcile,
}
use text.Mathlib.Text.{◌==◌}

contains-insert_text :
    (s t : String) (ts : List String) → contains s (insert_text t ts) ≡ (s == t || contains s ts)
unfolding insert_text
contains-insert_text s t [] = ground arith
contains-insert_text s t (u ∷ us) =
    ground (arith, eq_iff s t, eq_iff t u, eq_iff s u, contains-insert_text s t us)

-- a text that is not among the keys is in no entry
insert_keys-get :
    {V : Type 0} (s : String) (d : Dict V) (ts : List String)
    → contains s (insert_keys d ts) ≡ false
    → (get s d ≡ none) × (contains s ts ≡ false)
unfolding insert_keys get
insert_keys-get s [] ts h = ground (arith, h)
insert_keys-get s ((k, v) ∷ d) ts h = ground (
  arith,
  h,
  eq_iff s k,
  eq_iff k s,
  contains-insert_text s k (insert_keys d ts),
  insert_keys-get s d ts,
)

report-match : (ms : List String) → ((report_of ms).status ≡ match) ↔ (ms ≡ [])
unfolding report_of
report-match [] = ground arith
report-match (m ∷ ms) = ground arith

module _ {F : Type 0} ⦃n : Float F⦄ (pair_text : F × F → String) where
  none_of-agree :
      (local broker : Dict (F × F)) (ss : List String) (s : String)
      → mismatches_of pair_text local broker ss ≡ []
      → contains s ss ≡ true
      → differs (held s local) (held s broker) ≡ false
  unfolding mismatches_of
  none_of-agree local broker [] s h c = ground (arith, c)
  none_of-agree local broker (u ∷ us) s h c = elim (String-cases s u) [
    | inl q ↦
        subst (λ x. differs (held x local) (held x broker) ≡ false) (sym q) (ground (arith, h))
    | inr q ↦ none_of-agree local broker us s (ground (arith, h)) (ground (arith, c, q))
  ]

  agree-none_of :
      (local broker : Dict (F × F)) (ss : List String)
      → ((s : String) → differs (held s local) (held s broker) ≡ false)
      → mismatches_of pair_text local broker ss ≡ []
  unfolding mismatches_of
  agree-none_of local broker [] h = refl
  agree-none_of local broker (s ∷ ss) h = ground (arith, h s, agree-none_of local broker ss h)

  -- a symbol that neither side holds is not listed
  all-agree :
      (local broker : Dict (F × F))
      → differs {F = F} not_held not_held ≡ false
      → mismatches_of pair_text local broker (union_keys local broker) ≡ []
      → (s : String) → differs (held s local) (held s broker) ≡ false
  unfolding union_keys
  all-agree local broker z h s = elim (Bool-cases (contains s (union_keys local broker))) [
    | inl c ↦ none_of-agree local broker (union_keys local broker) s h c
    | inr c ↦
        let (left, more) = insert_keys-get s local (insert_keys broker []) c in
        let (right, _) = insert_keys-get s broker [] more in ground (arith, z, left, right)
  ]

  -- When both snapshots are given and normalized, the report is a match exactly when the two sides
  -- hold the same quantity at the same average price of every symbol, up to the tolerance, where a
  -- symbol that is not held counts as zero; that zero agrees with zero is assumed.
  pub reconcile-match :
      (local broker : List (BrokerPosition F)) {l b : Dict (F × F)} {r : ReconciliationReport}
      → differs {F = F} not_held not_held ≡ false
      → normalize_onto [] local ≡ ok l
      → normalize_onto [] broker ≡ ok b
      → reconcile pair_text (some local) (some broker) ≡ ok r
      → (r.status ≡ match) ↔ ((s : String) → differs (held s l) (held s b) ≡ false)
  unfolding reconcile
  reconcile-match local broker {l} {b} {r} z hl hb h =
      let ms = mismatches_of pair_text l b (union_keys l b) in
      let same : r ≡ report_of ms = ground (arith, hl, hb, h) in
      let (to, from) = report-match ms in
      (
        λ m. all-agree l b z (to (ap (λ x. x.status) (sym same) ∙ m)),
        λ a. ap (λ x. x.status) same ∙ from (agree-none_of l b (union_keys l b) a),
      )
