-- ===== src/Learning/Candidate/Controller.antt =====
-- `CandidateLifecycleController` of self_learning/candidate_lifecycle.py.
use stock_bot.Base.{String, not, Option, none, some, List, ◌&&◌, ◌||◌}
use stock_bot.Base.Text.{strip, is_blank}
use stock_bot.Base.Result.{Result, ok, err, value_error, raise_if, ◌>>◌}
use stock_bot.Base.Exec.{Exec}
use stock_bot.Float.{Float}
use stock_bot.Learning.Promotion.{PromotionDecision, is_promoted, is_sha256}
use stock_bot.Learning.Store.{Json, Entry, append_record}
use stock_bot.Learning.Candidate.{
  CandidateLifecycle, candidate, promoted, allowed, is_rejected, is_retired, is_review, text_or,
  ModelCandidate, Retraining, Dataset, Experiment, Creation, check_candidate,
}
use text.Mathlib.Text.{◌==◌}

-- `_lineage_id`, `ModelCandidate.fingerprint` and `record_to_dict` of a candidate
pub record Digests (F J : Type 0) : Type 0 where
  pub lineage : String → String → String → String → String
  pub candidate_digest : ModelCandidate F → String
  pub to_dict : ModelCandidate F → J

module _ {F J : Type 0} ⦃n : Float F⦄ (json : Json J) (g : Digests F J) where
  -- the candidate that `create` builds
  unfoldable pub new_candidate :
      Retraining → Dataset → Experiment → Creation F → Result (ModelCandidate F)
  new_candidate r d e k = do
    raise_if (not (r.dataset_version == d.dataset_version))
        (value_error "retraining and dataset versions do not match")
    raise_if (not (r.experiment_fingerprint == e.fingerprint))
        (value_error "retraining and experiment fingerprints do not match")
    raise_if (not (is_sha256 k.evaluation_fingerprint))
        (value_error "evaluation_fingerprint must be SHA-256")
    raise_if (is_blank k.candidate_id || is_blank k.candidate_version)
        (value_error "candidate_id and candidate_version are required")
    raise_if (is_blank k.parent_model_version) (value_error "parent_model_version is required")
    raise_if (is_blank k.strategy_version) (value_error "strategy_version is required")
    raise_if (is_blank k.created_at) (value_error "created_at is required")
    check_candidate (record {
      candidate_id = strip k.candidate_id;
      candidate_version = strip k.candidate_version;
      candidate_type = strip (text_or k.candidate_type r.model_family);
      lifecycle = candidate;
      dataset_version = d.dataset_version;
      feature_version = d.feature_schema_version;
      label_version = d.label_definition_version;
      source_experiment_id = e.experiment_id;
      source_experiment_fingerprint = e.fingerprint;
      artifact_fingerprint = r.artifact_fingerprint;
      evaluation_fingerprint = k.evaluation_fingerprint;
      lineage_id =
          g.lineage k.parent_model_version e.fingerprint d.dataset_version r.artifact_fingerprint;
      metrics = k.metrics;
      parent_model_version = strip k.parent_model_version;
      strategy_version = strip k.strategy_version;
      created_at = strip k.created_at;
    })

  -- the candidate that `transition` builds
  unfoldable pub moved_candidate :
      ModelCandidate F → CandidateLifecycle → String → String → Result (ModelCandidate F)
  moved_candidate c target at reason = do
    raise_if (is_blank at) (value_error "transition timestamp is required")
    raise_if (not (allowed c.lifecycle target))
        (value_error "invalid candidate lifecycle transition")
    raise_if (is_rejected target && is_blank reason) (value_error "rejection reason is required")
    raise_if (is_retired target && is_blank reason) (value_error "retirement reason is required")
    check_candidate (record c { lifecycle = target })

  -- the candidate that `apply_promotion` builds
  unfoldable pub promoted_candidate :
      ModelCandidate F → PromotionDecision → Result (ModelCandidate F)
  promoted_candidate c d = do
    raise_if (not (is_promoted d.state)) (value_error "promotion decision is not PROMOTED")
    raise_if (not (is_review c.lifecycle))
        (value_error "only PROMOTION_REVIEW candidates can receive a promotion decision")
    raise_if (not (d.candidate_id == c.candidate_id))
        (value_error "promotion decision candidate_id does not match")
    raise_if (not (d.candidate_fingerprint == g.candidate_digest c))
        (value_error "promotion decision does not match candidate")
    raise_if (not (d.challenger_version == c.candidate_version))
        (value_error "promotion decision challenger does not match candidate")
    raise_if (not (d.champion_version == c.parent_model_version))
        (value_error "promotion decision champion does not match candidate parent")
    check_candidate (record c { lifecycle = promoted })

  -- `_persist` of what a method built, which it then returns; without a store nothing is written
  unfoldable pub persisted :
      Result (ModelCandidate F) → Exec (Option (List (Entry J))) (ModelCandidate F)
  persisted (err e) store = (err e, store)
  persisted (ok c) none = (ok c, none)
  persisted (ok c) (some ledger) =
      let (r, ledger') =
        append_record json "candidate" (g.candidate_digest c) (g.to_dict c) ledger in
      elim r [ err e ↦ (err e, some ledger') | ok _ ↦ (ok c, some ledger') ]

  -- `create`
  unfoldable pub create :
      Retraining
      → Dataset
      → Experiment
      → Creation F
      → Exec (Option (List (Entry J))) (ModelCandidate F)
  create r d e k = persisted (new_candidate r d e k)

  -- `transition`
  unfoldable pub transition :
      ModelCandidate F
      → CandidateLifecycle
      → String
      → String
      → Exec (Option (List (Entry J))) (ModelCandidate F)
  transition c target at reason = persisted (moved_candidate c target at reason)

  -- `apply_promotion`
  unfoldable pub apply_promotion :
      ModelCandidate F → PromotionDecision → Exec (Option (List (Entry J))) (ModelCandidate F)
  apply_promotion c d = persisted (promoted_candidate c d)
