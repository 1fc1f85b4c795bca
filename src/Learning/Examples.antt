-- ===== src/Learning/Examples.antt =====
-- The learning store and its lifecycles at concrete inputs.
use stock_bot.Base.{
  String, none, some, List, [], ◌∷◌, ◌++◌, ◌≡◌, ◌≤◌, refl, if◌then◌else◌, length, is_some,
}
use stock_bot.Base.Text.{strip, lstrip, rstrip, is_space}
use stock_bot.Base.Dict.{get}
use stock_bot.Base.Int.{ℤ, pos}
use stock_bot.Base.Result.{ok}
use stock_bot.Execution.Examples.{unit_time}
use stock_bot.Float.Fixed.{fixed}
use stock_bot.Learning.Stages.{transitions, can_transition, require_transition, advance}
use stock_bot.Learning.Stages.Paths.{
  stages, advance-stages, advance-length, known-CanFinish, CanFinish,
}
use stock_bot.Learning.Promotion.{PromotionDecision, promoted, is_offset_aware}
use stock_bot.Learning.Champion.{
  ChampionRecord, ChampionStore, Formats, IsReadable, check_champion, read_line, read_lines,
  history, current,
}
use stock_bot.Learning.Champion.Activation.{line_of, append_champion, activate}
use stock_bot.Learning.Champion.Checks.{check_activation, check_successor}
use stock_bot.Learning.Champion.Approved.{
  activate-history, activate-approved, activate-orphan, IsBricked,
}
use stock_bot.Learning.Champion.Lineage.{IsLineage, history-IsLineage}
use stock_bot.Learning.Store.{Entry, Json, refuse_known, check_new, append_record}
use stock_bot.Learning.Candidate.{
  ModelCandidate, CandidateLifecycle, promotion_review, require_texts, require_sha256,
  check_candidate,
}
use stock_bot.Learning.Candidate.Controller.{
  Digests, promoted_candidate, persisted, apply_promotion,
}
use stock_bot.Learning.Candidate.Promotions.{promotion, serve, IsDecisionOn, serve-promoted}
use text.Mathlib.Text.{◌==◌}

abbrev digest : String
digest = "0123456789abcdef0123456789abcdef0123456789abcdef0123456789abcdef"

abbrev first : ChampionRecord
first = record {
  model_version = "m1";
  status = "PROMOTED";
  activated_at = "2026-01-05T09:15:00+05:30";
  experiment_id = "E1";
  promotion_review_fingerprint = digest;
  parent_model_version = none;
  rollback_of = none;
}

abbrev orphan : ChampionRecord
orphan = record first { parent_model_version = some "m0" }

-- JSON on the lines of these two records
abbrev formats : Formats (Unit {0})
formats = record {
  dumps = λ l. if is_some l.entry.parent_model_version then "{orphan}" else "{first}";
  loads = λ s.
      ok (record { entry = if s == "{first}" then first else orphan; fingerprint = some digest });
  champion_digest = λ r. digest;
  decision_digest = λ d. digest;
  fromisoformat = λ s. some tt;
}

abbrev decision : PromotionDecision
decision = record {
  candidate_id = "C1";
  candidate_fingerprint = digest;
  champion_version = "m0";
  challenger_version = "m1";
  state = promoted;
  reasons = [];
  validation_fingerprints = digest ∷ [];
  approval_reference = "A1";
  created_at = "2026-01-05T09:15:00+05:30";
}

abbrev empty_store : ChampionStore
empty_store = record { lines = none; pointer = none }

abbrev first_store : ChampionStore
first_store = record { lines = some ("{first}" ∷ []); pointer = some "m1" }

first-IsReadable : IsReadable formats first
unfolding strip lstrip rstrip is_space
first-IsReadable = record { loads-dumps = refl; dumps_text = refl; digest_text = refl }

orphan-IsReadable : IsReadable formats orphan
unfolding strip lstrip rstrip is_space
orphan-IsReadable = record { loads-dumps = refl; dumps_text = refl; digest_text = refl }

first_checked : check_champion first ≡ ok first
unfolding check_champion strip lstrip rstrip is_space
first_checked = refl

orphan_checked : check_champion orphan ≡ ok orphan
unfolding check_champion strip lstrip rstrip is_space
orphan_checked = refl

version_plain : strip "m1" ≡ "m1"
unfolding strip lstrip rstrip is_space
version_plain = refl

empty_read : history formats empty_store ≡ ok []
unfolding history
empty_read = refl

first_activated : activate formats first (some decision) empty_store ≡ (ok tt, first_store)
unfolding activate append_champion line_of check_activation check_successor is_offset_aware history
    current
first_activated = refl

activate-history_example :
    (history formats first_store ≡ ok ([] ++ (first ∷ [])))
    × (current formats first_store ≡ ok (some "m1"))
activate-history_example =
    activate-history formats first (some decision) empty_store {prior = []} first-IsReadable
      first_checked version_plain empty_read refl first_activated

activate-approved_example :
    (p : PromotionDecision) × (some decision ≡ some p)
    × (p.state ≡ promoted)
    × (p.challenger_version ≡ "m1")
    × (digest ≡ digest)
activate-approved_example =
    activate-approved formats first (some decision) empty_store first_activated

orphan_passes : check_activation formats orphan (some decision) ≡ ok tt
unfolding check_activation is_offset_aware
orphan_passes = refl

no_pointer : current formats empty_store ≡ ok none
unfolding current history
no_pointer = refl

activate-orphan_example :
    (s : ChampionStore) × (activate formats orphan (some decision) empty_store ≡ (ok tt, s))
    × IsBricked formats s
activate-orphan_example =
    activate-orphan formats orphan (some decision) empty_store orphan-IsReadable orphan_checked
      orphan_passes empty_read no_pointer refl

history-first : history formats first_store ≡ ok (first ∷ [])
unfolding history read_lines read_line check_champion strip lstrip rstrip is_space
history-first = refl

history-IsLineage_example : IsLineage none (first ∷ [])
history-IsLineage_example = history-IsLineage formats first_store history-first

all_stages : advance "OBSERVATION" stages ≡ ok "PROMOTED"
unfolding advance require_transition can_transition get
all_stages = refl

advance-stages_example : stages ≡ stages
advance-stages_example = advance-stages stages all_stages

advance-length_example : length stages ≤ 10
advance-length_example = advance-length "OBSERVATION" stages all_stages

known_paper : get "PAPER" transitions ≡ some ("PROMOTION_REVIEW" ∷ "REJECTED" ∷ "INCONCLUSIVE" ∷ [])
unfolding get
known_paper = refl

known-CanFinish_example : CanFinish "PAPER"
known-CanFinish_example = known-CanFinish "PAPER" known_paper

abbrev reviewed : ModelCandidate ℤ
reviewed = record {
  candidate_id = "C1";
  candidate_version = "m1";
  candidate_type = "logistic_regression";
  lifecycle = promotion_review;
  dataset_version = "d1";
  feature_version = "f1";
  label_version = "l1";
  source_experiment_id = "E1";
  source_experiment_fingerprint = digest;
  artifact_fingerprint = digest;
  evaluation_fingerprint = digest;
  lineage_id = digest;
  metrics = ("auc", pos 700) ∷ [];
  parent_model_version = "m0";
  strategy_version = "s1";
  created_at = "2026-01-05T09:15:00+05:30";
}

abbrev winner : ModelCandidate ℤ
winner = record reviewed { lifecycle = CandidateLifecycle.promoted }

-- A ledger that keeps the version of a candidate.
abbrev versions : Json String
versions = record { reread = λ s. s; same = λ s t. s == t }

abbrev digests : Digests ℤ String
digests = record {
  lineage = λ p e d a. digest;
  candidate_digest = λ c. digest;
  to_dict = λ c. c.candidate_version;
}

abbrev ledger : List (Entry String)
ledger = record { kind = "candidate"; fingerprint = digest; content = "m1" } ∷ []

promotion_served :
    serve versions digests (promotion reviewed decision) (some []) ≡ (ok winner, some ledger)
unfolding serve apply_promotion promoted_candidate persisted append_record check_new refuse_known
    check_candidate require_texts require_sha256 strip lstrip rstrip is_space
promotion_served = refl

serve-promoted_example :
    (c : ModelCandidate ℤ) × (d : PromotionDecision) × (promotion reviewed decision ≡ promotion c d)
    × IsDecisionOn versions digests c d
serve-promoted_example =
    serve-promoted versions digests (promotion reviewed decision) (some []) promotion_served refl
