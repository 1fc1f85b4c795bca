-- ===== src/Learning/Stages/Paths.antt =====
-- The paths through the graph of the learning cycle.
use mathlib.Core.Path.{subst, ap₂}
use stock_bot.Base.{
  String, true, false, List, [], ◌∷◌, ℕ, ◌≡◌, ◌≢◌, ◌<◌, ◌≤◌, ◌+◌, ◌⊎◌, inl, inr, some,
  if◌then◌else◌, arith, eq_iff, length, All, refl, Option-cases,
}
use stock_bot.Base.Text.{contains-All}
use stock_bot.Base.Dict.{get, get-All}
use stock_bot.Base.Result.{ok}
use stock_bot.Learning.Stages.{transitions, can_transition, require_transition, advance}
use text.Mathlib.Text.{◌==◌}

-- what holds along every edge of the table holds along every transition that is allowed
edge {κ} :
    (P : String → String → Type κ) (s t : String)
    → All (λ (j, ts). All (P j) ts) transitions
    → can_transition s t ≡ true
    → P s t
unfolding can_transition
edge P s t h g = elim (Option-cases (get s transitions)) [
  | inl q ↦ ground (arith, q, g)
  | inr (ts, q) ↦
      contains-All (P s) t ts (get-All (λ j us. All (P j) us) s transitions h q)
        (ground (arith, q, g))
]

-- how many transitions may still follow
unfoldable rank : String → ℕ
rank s =
    if s == "OBSERVATION"
    then 10
    else if s == "HYPOTHESIS"
    then 9
    else if s == "EXPERIMENT"
    then 8
    else if s == "CANDIDATE"
    then 7
    else if s == "VALIDATING"
    then 6
    else if s == "OOS"
    then 5
    else if s == "WALK_FORWARD"
    then 4
    else if s == "PAPER"
    then 3
    else if s == "PROMOTION_REVIEW"
    then 2
    else if s == "PROMOTED"
    then 1
    else 0

can_transition-rank : (s t : String) → can_transition s t ≡ true → rank t < rank s
unfolding rank
can_transition-rank s t = edge (λ j u. rank u < rank j) s t (omega arith)

advance-step :
    (s t : String) (ts : List String) {e : String}
    → advance s (t ∷ ts) ≡ ok e
    → (can_transition s t ≡ true) × (advance t ts ≡ ok e)
unfolding advance require_transition
advance-step s t ts h = ground arith

advance-rank :
    (s : String) (ts : List String) {e : String} → advance s ts ≡ ok e → length ts + rank e ≤ rank s
unfolding advance
advance-rank s [] h = ground arith
advance-rank s (t ∷ ts) h =
    let (allowed, rest) = advance-step s t ts h in
    omega (arith, can_transition-rank s t allowed, advance-rank t ts rest)

rank_bounded : (s : String) → rank s ≤ 10
unfolding rank
rank_bounded s = ground arith

-- Whatever the state a learning cycle starts in, it makes at most ten transitions.
pub advance-length :
    (s : String) (ts : List String) {e : String} → advance s ts ≡ ok e → length ts ≤ 10
advance-length s ts h = omega (arith, advance-rank s ts h, rank_bounded s)

abbrev pub IsTerminal : String → Type 0
IsTerminal s = get s transitions ≡ some []

-- Transitions lead from the state to one that has none.
abbrev pub CanFinish : String → Type 0
CanFinish s = (ts : List String) × (e : String) × (advance s ts ≡ ok e) × IsTerminal e

-- the state may be given up, may be rolled back, or has no transition
abbrev IsLeft : String → Type 0
IsLeft s =
    (can_transition s "INCONCLUSIVE" ≡ true)
    ⊎ ((can_transition s "ROLLED_BACK" ≡ true) ⊎ IsTerminal s)

known-IsLeft : All (λ (s, _). IsLeft s) transitions
unfolding get can_transition
known-IsLeft = search (inl, inr)

IsLeft-CanFinish : (s : String) → IsLeft s → CanFinish s
unfolding advance get require_transition
IsLeft-CanFinish s (inl h) = ("INCONCLUSIVE" ∷ [], "INCONCLUSIVE", ground (arith, h), refl)
IsLeft-CanFinish s (inr (inl h)) = ("ROLLED_BACK" ∷ [], "ROLLED_BACK", ground (arith, h), refl)
IsLeft-CanFinish s (inr (inr h)) = ([], s, refl, h)

-- From every state of the graph, transitions lead to a state that has none.
pub known-CanFinish : (s : String) {ts : List String} → get s transitions ≡ some ts → CanFinish s
known-CanFinish s h = IsLeft-CanFinish s (get-All (λ j _. IsLeft j) s transitions known-IsLeft h)

-- no path of allowed transitions leads on to a promotion
abbrev IsDead : String → Type 0
IsDead s = (ts : List String) → advance s ts ≢ ok "PROMOTED"

terminal-IsDead : (s : String) → IsTerminal s → (s == "PROMOTED") ≡ false → IsDead s
unfolding advance require_transition can_transition
terminal-IsDead s h n [] g = ground (arith, eq_iff s "PROMOTED")
terminal-IsDead s h n (t ∷ ts) g = ground (arith, h)

-- the only path from the state to a promotion
abbrev LeadsBy : List String → String → Type 0
LeadsBy road s = (ts : List String) → advance s ts ≡ ok "PROMOTED" → ts ≡ road

rolled_back-IsDead : IsDead "ROLLED_BACK"
unfolding get
rolled_back-IsDead = terminal-IsDead "ROLLED_BACK" refl refl

rejected-IsDead : IsDead "REJECTED"
unfolding get
rejected-IsDead = terminal-IsDead "REJECTED" refl refl

inconclusive-IsDead : IsDead "INCONCLUSIVE"
unfolding get
inconclusive-IsDead = terminal-IsDead "INCONCLUSIVE" refl refl

-- the stage that follows one of the first nine
unfoldable next_stage : String → String
next_stage s =
    if s == "OBSERVATION"
    then "HYPOTHESIS"
    else if s == "HYPOTHESIS"
    then "EXPERIMENT"
    else if s == "EXPERIMENT"
    then "CANDIDATE"
    else if s == "CANDIDATE"
    then "VALIDATING"
    else if s == "VALIDATING"
    then "OOS"
    else if s == "OOS"
    then "WALK_FORWARD"
    else if s == "WALK_FORWARD"
    then "PAPER"
    else if s == "PAPER"
    then "PROMOTION_REVIEW"
    else "PROMOTED"

can_transition-next_stage :
    (s t : String) → can_transition s t ≡ true → (t ≡ next_stage s) ⊎ IsDead t
unfolding next_stage
can_transition-next_stage s t =
    edge (λ j u. (u ≡ next_stage j) ⊎ IsDead u) s t
      (search (inl, inr, rolled_back-IsDead, rejected-IsDead, inconclusive-IsDead))

promoted_out : (t : String) → can_transition "PROMOTED" t ≡ true → t ≡ "ROLLED_BACK"
unfolding can_transition get
promoted_out t h = ground (arith, eq_iff t "ROLLED_BACK")

promoted-LeadsBy : LeadsBy [] "PROMOTED"
unfolding advance
promoted-LeadsBy [] h = refl
promoted-LeadsBy (t ∷ ts) h =
    let (allowed, rest) = advance-step "PROMOTED" t ts h in
    absurd (
      rolled_back-IsDead ts
        (subst (λ u. advance u ts ≡ ok "PROMOTED") (promoted_out t allowed) rest))

stage-LeadsBy :
    (s : String) (road : List String)
    → (s == "PROMOTED") ≡ false
    → LeadsBy road (next_stage s)
    → LeadsBy (next_stage s ∷ road) s
unfolding advance
stage-LeadsBy s road n on [] h = ground (arith, eq_iff s "PROMOTED")
stage-LeadsBy s road n on (t ∷ ts) h =
    let (allowed, rest) = advance-step s t ts h in
    elim (can_transition-next_stage s t allowed) [
      | inl q ↦ ap₂ ◌∷◌ q (on ts (subst (λ u. advance u ts ≡ ok "PROMOTED") q rest))
      | inr dead ↦ absurd (dead ts rest)
    ]

-- The stages from an observation to a promotion.
abbrev pub stages : List String
stages =
    "HYPOTHESIS" ∷ "EXPERIMENT" ∷ "CANDIDATE" ∷ "VALIDATING" ∷ "OOS" ∷ "WALK_FORWARD" ∷ "PAPER"
    ∷ "PROMOTION_REVIEW" ∷ "PROMOTED" ∷ []

-- A learning cycle that starts with an observation is promoted only by passing every stage, each
-- once and in order.
pub advance-stages : (ts : List String) → advance "OBSERVATION" ts ≡ ok "PROMOTED" → ts ≡ stages
unfolding next_stage
advance-stages =
    let review = stage-LeadsBy "PROMOTION_REVIEW" _ refl promoted-LeadsBy in
    let paper = stage-LeadsBy "PAPER" _ refl review in
    let walk_forward = stage-LeadsBy "WALK_FORWARD" _ refl paper in
    let oos = stage-LeadsBy "OOS" _ refl walk_forward in
    let validating = stage-LeadsBy "VALIDATING" _ refl oos in
    let candidate = stage-LeadsBy "CANDIDATE" _ refl validating in
    let experiment = stage-LeadsBy "EXPERIMENT" _ refl candidate in
    let hypothesis = stage-LeadsBy "HYPOTHESIS" _ refl experiment in
    stage-LeadsBy "OBSERVATION" _ refl hypothesis
