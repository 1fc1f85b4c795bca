-- ===== src/Execution/Routing/Best.antt =====
-- The route that is chosen is eligible and has the lowest score.
use mathlib.Core.List.{Memᴰ}
use mathlib.Core.Path.{subst}
use stock_bot.Base.{
  String, true, false, List, [], ◌∷◌, All, ◌≡◌, inl, inr, arith, refl, sym, if◌then◌else◌,
  Bool-cases,
}
use stock_bot.Base.Text.{strip}
use stock_bot.Base.Result.{ok, Result-cases}
use stock_bot.Float.{Float, IsOrdered, ltb}
use stock_bot.Execution.Models.{OrderRequest}
use stock_bot.Execution.Routing.{
  RouteQuote, RoutingPolicy, RouteDecision, is_eligible, candidates_of, total_of, scores_below,
  best_of, select,
}

module _ {F : Type 0} ⦃n : Float F⦄ (policy : RoutingPolicy F) where
  -- no quote of the list scores below the total
  abbrev NoneBelow : F → List (RouteQuote F) → Type 0
  NoneBelow x = All (λ q. ltb (total_of policy q) x ≡ false)

  module _ (laws : IsOrdered F) where
    better-total :
        (q b : RouteQuote F) (x : F)
        → scores_below policy q b ≡ true
        → ltb x (total_of policy b) ≡ false
        → ltb x (total_of policy q) ≡ false
    unfolding scores_below
    better-total q b x h g =
        let tq = total_of policy q in
        let tb = total_of policy b in
        ground (arith, h, g, laws.lt_trans x tq tb, laws.lt_of_lt_of_eq x tq tb)

    worse-total :
        (q b : RouteQuote F)
        → scores_below policy q b ≡ false
        → ltb (total_of policy q) (total_of policy b) ≡ false
    unfolding scores_below
    worse-total q b h = ground (arith, h, laws.not_lt_of_eq (total_of policy q) (total_of policy b))

    NoneBelow-better :
        (q b : RouteQuote F) (qs : List (RouteQuote F))
        → scores_below policy q b ≡ true
        → NoneBelow (total_of policy b) qs
        → NoneBelow (total_of policy q) qs
    NoneBelow-better q b [] h _ = tt
    NoneBelow-better q b (x ∷ xs) h (g, gs) =
        (better-total q b (total_of policy x) h g, NoneBelow-better q b xs h gs)

    next-NoneBelow :
        (q best : RouteQuote F) (seen : List (RouteQuote F))
        → NoneBelow (total_of policy best) seen
        → NoneBelow (total_of policy (if scores_below policy q best then q else best)) (q ∷ seen)
    next-NoneBelow q best seen h = elim (Bool-cases (scores_below policy q best)) [
      | inl c ↦
          subst (λ b. NoneBelow (total_of policy (if b then q else best)) (q ∷ seen)) (sym c)
            (laws.lt_irrefl (total_of policy q), NoneBelow-better q best seen c h)
      | inr c ↦
          subst (λ b. NoneBelow (total_of policy (if b then q else best)) (q ∷ seen)) (sym c)
            (worse-total q best c, h)
    ]

    -- the loop keeps what holds of every candidate, and none that it has seen scores below
    best_of-NoneBelow :
        (best : RouteQuote F) (qs seen : List (RouteQuote F))
        → NoneBelow (total_of policy best) seen
        → NoneBelow (total_of policy (best_of policy best qs)) seen
          × NoneBelow (total_of policy (best_of policy best qs)) qs
    unfolding best_of
    best_of-NoneBelow best [] seen h = (h, tt)
    best_of-NoneBelow best (q ∷ qs) seen h =
        let next = if scores_below policy q best then q else best in
        let ((first, before), after) =
          best_of-NoneBelow next qs (q ∷ seen) (next-NoneBelow q best seen h) in
        (before, (first, after))

  best_of-kept :
      (P : RouteQuote F → Type 0) (best : RouteQuote F) (qs : List (RouteQuote F))
      → P best
      → All P qs
      → P (best_of policy best qs)
  unfolding best_of
  best_of-kept P best [] p _ = p
  best_of-kept P best (q ∷ qs) p (h, hs) =
      best_of-kept P (if scores_below policy q best then q else best) qs
        (elim (scores_below policy q best) as (λ b. P (if b then q else best)) [
          | true ↦ h
          | false ↦ p
        ])
        hs

  candidates_of-step :
      (quantity : F) (known : List String) (q : RouteQuote F) (qs cs : List (RouteQuote F))
      → candidates_of policy quantity known (q ∷ qs) ≡ ok cs
      → (rest : List (RouteQuote F)) × (candidates_of policy quantity (strip q.broker ∷ known) qs
          ≡ ok rest)
        × (cs ≡ (if is_eligible policy quantity q then q ∷ rest else rest))
  unfolding candidates_of
  candidates_of-step quantity known q qs cs h =
      elim (Result-cases (candidates_of policy quantity (strip q.broker ∷ known) qs)) [
        | inl (rest, c) ↦ (rest, c, ground (arith, h, c))
        | inr (e, c) ↦ ground (arith, h, c)
      ]

  -- an eligible quote of the list
  abbrev IsRoute : F → List (RouteQuote F) → RouteQuote F → Type 0
  IsRoute quantity quotes q = Memᴰ q quotes × (is_eligible policy quantity q ≡ true)

  IsRoute-later :
      (quantity : F) (q : RouteQuote F) (qs cs : List (RouteQuote F))
      → All (IsRoute quantity qs) cs
      → All (IsRoute quantity (q ∷ qs)) cs
  IsRoute-later quantity q qs [] _ = tt
  IsRoute-later quantity q qs (c ∷ cs) ((m, e), hs) =
      ((Memᴰ.tail m, e), IsRoute-later quantity q qs cs hs)

  candidates_of-IsRoute :
      (quantity : F) (known : List String) (quotes cs : List (RouteQuote F))
      → candidates_of policy quantity known quotes ≡ ok cs
      → All (IsRoute quantity quotes) cs
  unfolding candidates_of
  candidates_of-IsRoute quantity known [] cs h =
      subst (All (IsRoute quantity [])) {x = []} (ground (arith, h)) tt
  candidates_of-IsRoute quantity known (q ∷ qs) cs h =
      let (rest, c, same) = candidates_of-step quantity known q qs cs h in
      let later =
        IsRoute-later quantity q qs rest
          (candidates_of-IsRoute quantity (strip q.broker ∷ known) qs rest c) in
      elim (Bool-cases (is_eligible policy quantity q)) [
        | inl e ↦
            subst (All (IsRoute quantity (q ∷ qs))) {x = q ∷ rest} (ground (arith, e, same))
              ((Memᴰ.head refl, e), later)
        | inr e ↦ subst (All (IsRoute quantity (q ∷ qs))) {x = rest} (ground (arith, e, same)) later
      ]

  -- no eligible quote of the list scores below the total
  abbrev pub NoRouteBelow : F → F → List (RouteQuote F) → Type 0
  NoRouteBelow quantity x =
      All (λ q. is_eligible policy quantity q ≡ true → ltb (total_of policy q) x ≡ false)

  candidates_of-NoRouteBelow :
      (quantity x : F) (known : List String) (quotes cs : List (RouteQuote F))
      → candidates_of policy quantity known quotes ≡ ok cs
      → NoneBelow x cs
      → NoRouteBelow quantity x quotes
  unfolding candidates_of
  candidates_of-NoRouteBelow quantity x known [] cs h g = tt
  candidates_of-NoRouteBelow quantity x known (q ∷ qs) cs h g =
      let (rest, c, same) = candidates_of-step quantity known q qs cs h in
      elim (Bool-cases (is_eligible policy quantity q)) [
        | inl e ↦
            let (first, later) = subst (NoneBelow x) {y = q ∷ rest} (ground (arith, e, same)) g in
            (
              λ _. first,
              candidates_of-NoRouteBelow quantity x (strip q.broker ∷ known) qs rest c later,
            )
        | inr e ↦
            let later = subst (NoneBelow x) {y = rest} (ground (arith, e, same)) g in
            (
              λ f. ground (arith, e, f),
              candidates_of-NoRouteBelow quantity x (strip q.broker ∷ known) qs rest c later,
            )
      ]

  -- the quote behind a decision
  abbrev IsBest : F → List (RouteQuote F) → RouteDecision F → Type 0
  IsBest quantity quotes d =
      (q : RouteQuote F) × Memᴰ q quotes
      × (is_eligible policy quantity q ≡ true)
      × (d.broker ≡ q.broker)
      × (d.score ≡ total_of policy q)
      × NoRouteBelow quantity (total_of policy q) quotes

  select-IsBest :
      IsOrdered F
      → {T : Type 0} → (o : OrderRequest F T) (quotes : List (RouteQuote F)) {d : RouteDecision F}
      → (cs : List (RouteQuote F)) → candidates_of policy o.quantity [] quotes ≡ ok cs
      → select policy o quotes ≡ ok d
      → IsBest o.quantity quotes d
  unfolding select
  select-IsBest laws o quotes [] c h = ground (arith, c, h)
  select-IsBest laws o quotes {d} (b ∷ bs) c h =
      let q = best_of policy b bs in
      let (first, others) = candidates_of-IsRoute o.quantity [] quotes (b ∷ bs) c in
      let (member, eligible) = best_of-kept (IsRoute o.quantity quotes) b bs first others in
      let (below, rest) =
        best_of-NoneBelow laws b bs (b ∷ []) (laws.lt_irrefl (total_of policy b), tt) in
      (
        q,
        member,
        eligible,
        ground (arith, c, h),
        ground (arith, c, h),
        candidates_of-NoRouteBelow o.quantity (total_of policy q) [] quotes (b ∷ bs) c
            (below.0, rest),
      )

  -- The route that is selected is that of a quote in the list which passes every test of the policy,
  -- with the score of that quote, and no quote that passes them scores below it; the comparisons are
  -- assumed to be those of IEEE 754.
  pub select-NoRouteBelow :
      IsOrdered F
      → {T : Type 0} → (o : OrderRequest F T) (quotes : List (RouteQuote F)) {d : RouteDecision F}
      → select policy o quotes ≡ ok d
      → (q : RouteQuote F) × Memᴰ q quotes
        × (is_eligible policy o.quantity q ≡ true)
        × (d.broker ≡ q.broker)
        × (d.score ≡ total_of policy q)
        × NoRouteBelow o.quantity (total_of policy q) quotes
  unfolding select
  select-NoRouteBelow laws o quotes h =
      elim (Result-cases (candidates_of policy o.quantity [] quotes)) [
        | inl (cs, c) ↦ select-IsBest laws o quotes cs c h
        | inr (e, c) ↦ ground (arith, c, h)
      ]
