-- ===== src/Learning/Candidate.antt =====
-- self_learning/candidate_lifecycle.py, with `ModelCandidate` of self_learning/contracts.py. The
-- digest and the store's `add_candidate` come from outside.
pub mod Controller
pub mod Promotions
use stock_bot.Base.{
  String, Bool, true, false, not, Option, none, some, List, [], ◌∷◌, ◌&&◌, if◌then◌else◌,
}
use stock_bot.Base.Text.{strip, is_blank, is_empty}
use stock_bot.Base.Result.{Result, ok, value_error, raise_if, ◌>>◌}
use stock_bot.Float.{Float, isfinite}
use stock_bot.Learning.Promotion.{is_sha256}
use Prim.Native.String

pub data CandidateLifecycle : Type 0 where
  candidate validating paper promotion_review promoted rejected retired : CandidateLifecycle

-- `target in _ALLOWED_TRANSITIONS[current]`
unfoldable pub allowed : CandidateLifecycle → CandidateLifecycle → Bool
allowed candidate validating = true
allowed candidate rejected = true
allowed validating paper = true
allowed validating rejected = true
allowed paper promotion_review = true
allowed paper rejected = true
allowed promotion_review rejected = true
allowed promoted retired = true
allowed _ _ = false

abbrev pub is_rejected : CandidateLifecycle → Bool
is_rejected rejected = true
is_rejected _ = false

abbrev pub is_retired : CandidateLifecycle → Bool
is_retired retired = true
is_retired _ = false

abbrev pub is_review : CandidateLifecycle → Bool
is_review promotion_review = true
is_review _ = false

-- `candidate_type or model_family`
abbrev pub text_or : Option String → String → String
text_or none s = s
text_or (some t) s = if is_empty t then s else t

pub record ModelCandidate (F : Type 0) : Type 0 where
  pub candidate_id : String
  pub candidate_version : String
  pub candidate_type : String
  pub lifecycle : CandidateLifecycle
  pub dataset_version : String
  pub feature_version : String
  pub label_version : String
  pub source_experiment_id : String
  pub source_experiment_fingerprint : String
  pub artifact_fingerprint : String
  pub evaluation_fingerprint : String
  pub lineage_id : String
  pub metrics : List (String × F)
  pub parent_model_version : String
  pub strategy_version : String
  pub created_at : String

-- The fields of a `RetrainingResult`, a `DatasetVersion` and an `ExperimentSpec` that are read.
pub record Retraining : Type 0 where
  pub dataset_version : String
  pub experiment_fingerprint : String
  pub artifact_fingerprint : String
  pub model_family : String

pub record Dataset : Type 0 where
  pub dataset_version : String
  pub feature_schema_version : String
  pub label_definition_version : String

pub record Experiment : Type 0 where
  pub experiment_id : String
  pub fingerprint : String

-- The keyword arguments of `create`.
pub record Creation (F : Type 0) : Type 0 where
  pub candidate_id : String
  pub candidate_version : String
  pub parent_model_version : String
  pub strategy_version : String
  pub evaluation_fingerprint : String
  pub metrics : List (String × F)
  pub created_at : String
  pub candidate_type : Option String

-- `for name in (…): if not getattr(self, name).strip(): raise …`
unfoldable pub require_texts : List (String × String) → Result (Unit {0})
require_texts [] = ok tt
require_texts ((name, value) ∷ rest) = do
  raise_if (is_blank value) (value_error (String.◌++◌ name " must not be empty"))
  require_texts rest

-- `for name in (…): if len(getattr(self, name)) != 64: raise …`
unfoldable pub require_sha256 : List (String × String) → Result (Unit {0})
require_sha256 [] = ok tt
require_sha256 ((name, value) ∷ rest) = do
  raise_if (not (is_sha256 value)) (value_error (String.◌++◌ name " must be SHA-256"))
  require_sha256 rest

module _ {F : Type 0} ⦃n : Float F⦄ where
  all_finite : List (String × F) → Bool
  all_finite [] = true
  all_finite ((_, x) ∷ ms) = isfinite x && all_finite ms

  -- `ModelCandidate.__post_init__`
  unfoldable pub check_candidate : ModelCandidate F → Result (ModelCandidate F)
  unfolding all_finite
  check_candidate c = do
    require_texts (
        ("candidate_id", c.candidate_id)
        ∷ ("candidate_version", c.candidate_version)
        ∷ ("candidate_type", c.candidate_type)
        ∷ ("dataset_version", c.dataset_version)
        ∷ ("feature_version", c.feature_version)
        ∷ ("label_version", c.label_version)
        ∷ ("source_experiment_id", c.source_experiment_id)
        ∷ ("parent_model_version", c.parent_model_version)
        ∷ ("strategy_version", c.strategy_version)
        ∷ ("created_at", c.created_at)
        ∷ [])
    require_sha256 (
        ("source_experiment_fingerprint", c.source_experiment_fingerprint)
        ∷ ("artifact_fingerprint", c.artifact_fingerprint)
        ∷ ("evaluation_fingerprint", c.evaluation_fingerprint)
        ∷ ("lineage_id", c.lineage_id)
        ∷ [])
    raise_if (not (all_finite c.metrics)) (value_error "candidate metrics must be finite")
    ok c
