-- ===== src/Learning/Candidate/Promotions.antt =====
-- How a candidate comes to be promoted.
use stock_bot.Base.{String, true, ◌≡◌, ◌≢◌, Option, List, arith, eq_iff, refl}
use stock_bot.Base.Result.{Result, ok}
use stock_bot.Base.Exec.{Exec}
use stock_bot.Float.{Float}
use stock_bot.Learning.Promotion.{PromotionDecision, PromotionState}
use stock_bot.Learning.Store.{Json, Entry}
use stock_bot.Learning.Candidate.{
  CandidateLifecycle, candidate, promoted, promotion_review, allowed, ModelCandidate, Retraining,
  Dataset, Experiment, Creation, check_candidate,
}
use stock_bot.Learning.Candidate.Controller.{
  Digests, new_candidate, moved_candidate, promoted_candidate, persisted, create, transition,
  apply_promotion,
}

-- A call of the controller.
pub data Request (F : Type 0) : Type 0 where
  creation : Retraining → Dataset → Experiment → Creation F → Request F
  move : ModelCandidate F → CandidateLifecycle → String → String → Request F
  promotion : ModelCandidate F → PromotionDecision → Request F

module _ {F J : Type 0} ⦃n : Float F⦄ (json : Json J) (g : Digests F J) where
  unfoldable pub serve : Request F → Exec (Option (List (Entry J))) (ModelCandidate F)
  serve (creation r d e k) = create json g r d e k
  serve (move c target at reason) = transition json g c target at reason
  serve (promotion c d) = apply_promotion json g c d

  persisted-ok :
      (r : Result (ModelCandidate F)) (s : Option (List (Entry J))) {c : ModelCandidate F}
      {s' : Option (List (Entry J))}
      → persisted json g r s ≡ (ok c, s')
      → r ≡ ok c
  unfolding persisted
  persisted-ok r s h = ground arith

  check_candidate-ok :
      (c : ModelCandidate F) {c' : ModelCandidate F} → check_candidate c ≡ ok c' → c' ≡ c
  unfolding check_candidate
  check_candidate-ok c h = ground arith

  new_candidate-lifecycle :
      (r : Retraining) (d : Dataset) (e : Experiment) (k : Creation F) {c : ModelCandidate F}
      → new_candidate json g r d e k ≡ ok c
      → c.lifecycle ≡ candidate
  unfolding new_candidate check_candidate
  new_candidate-lifecycle r d e k h = ground arith

  moved_candidate-lifecycle :
      (c : ModelCandidate F) (target : CandidateLifecycle) (at reason : String)
      {c' : ModelCandidate F}
      → moved_candidate json g c target at reason ≡ ok c'
      → (allowed c.lifecycle c'.lifecycle ≡ true) × (c'.lifecycle ≡ target)
  unfolding moved_candidate check_candidate
  moved_candidate-lifecycle c target at reason h = ground arith

  never_to_promoted : (l : CandidateLifecycle) → allowed l promoted ≢ true
  unfolding allowed
  never_to_promoted l h = ground arith

  -- The decision is a promotion of this very candidate over its parent.
  pub record IsDecisionOn (c : ModelCandidate F) (d : PromotionDecision) : Type 0 where
    reviewed : c.lifecycle ≡ promotion_review
    decided : d.state ≡ PromotionState.promoted
    same_id : d.candidate_id ≡ c.candidate_id
    same_digest : d.candidate_fingerprint ≡ g.candidate_digest c
    challenger : d.challenger_version ≡ c.candidate_version
    champion : d.champion_version ≡ c.parent_model_version

  promoted_candidate-IsDecisionOn :
      (c : ModelCandidate F) (d : PromotionDecision) {c' : ModelCandidate F}
      → promoted_candidate json g c d ≡ ok c'
      → IsDecisionOn c d
  unfolding promoted_candidate
  promoted_candidate-IsDecisionOn c d h = record {
    reviewed = ground (arith, h);
    decided = ground (arith, h);
    same_id = ground (arith, h, eq_iff d.candidate_id c.candidate_id);
    same_digest = ground (arith, h, eq_iff d.candidate_fingerprint (g.candidate_digest c));
    challenger = ground (arith, h, eq_iff d.challenger_version c.candidate_version);
    champion = ground (arith, h, eq_iff d.champion_version c.parent_model_version);
  }

  -- A controller returns a promoted candidate only for a promotion request, whose candidate is
  -- under promotion review and whose decision is a promotion of exactly that candidate.
  pub serve-promoted :
      (q : Request F) (s : Option (List (Entry J))) {c' : ModelCandidate F}
      {s' : Option (List (Entry J))}
      → serve q s ≡ (ok c', s')
      → c'.lifecycle ≡ promoted
      → (c : ModelCandidate F) × (d : PromotionDecision) × (q ≡ promotion c d) × IsDecisionOn c d
  unfolding serve create transition apply_promotion
  serve-promoted (creation r d e k) s h p =
      ground (arith, p, new_candidate-lifecycle r d e k (persisted-ok _ s h))
  serve-promoted (move c target at reason) s h p =
      let (may, _) = moved_candidate-lifecycle c target at reason (persisted-ok _ s h) in
      absurd (never_to_promoted c.lifecycle (ground (arith, p, may)))
  serve-promoted (promotion c d) s h p =
      (c, d, refl, promoted_candidate-IsDecisionOn c d (persisted-ok _ s h))
