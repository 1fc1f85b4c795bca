-- ===== src/Learning/Champion/Checks.antt =====
-- What `ChampionStore.activate` of learning/lifecycle.py asks before it writes.
use stock_bot.Base.{String, not, Option, none, some, List, is_some}
use stock_bot.Base.Result.{Result, err, value_error, raise_if, ◌>>◌}
use stock_bot.Clock.{Timestamp}
use stock_bot.Learning.Promotion.{PromotionDecision, is_promoted, is_offset_aware, is_sha256}
use stock_bot.Learning.Champion.{ChampionRecord, Formats, last_of, is_text, is_parent}
use text.Mathlib.Text.{◌==◌}

module _ {T : Type 0} ⦃t : Timestamp T⦄ (f : Formats T) where
  -- what `activate` asks of the record and of the decision alone
  unfoldable pub check_activation : ChampionRecord → Option PromotionDecision → Result (Unit {0})
  check_activation r decision = do
    raise_if (not (r.status == "PROMOTED")) (value_error "only PROMOTED records can be activated")
    raise_if (not (is_sha256 r.promotion_review_fingerprint))
        (value_error "promotion review fingerprint must be SHA-256")
    raise_if (not (is_offset_aware f.fromisoformat r.activated_at))
        (value_error "champion activated_at must be timezone-aware")
    elim decision [
      | none ↦ err (value_error "promotion decision is required for champion activation")
      | some d ↦ do
        raise_if (not (is_promoted d.state)) (value_error "promotion decision must be PROMOTED")
        raise_if (not (d.challenger_version == r.model_version))
            (value_error "promotion decision challenger does not match champion record")
        raise_if (not (f.decision_digest d == r.promotion_review_fingerprint))
            (value_error "promotion decision fingerprint does not match champion record")
    ]

  -- what it asks of the record after the history `prior` with the pointer `current`
  unfoldable pub check_successor :
      List ChampionRecord → Option String → ChampionRecord → Result (Unit {0})
  check_successor prior pointer r = do
    elim (last_of prior) [
      | some last ↦ do
        raise_if (not (is_text pointer last.model_version))
            (value_error "champion pointer does not match history")
        raise_if (not (is_some r.parent_model_version))
            (value_error "champion parent is required for successor activation")
        raise_if (not (is_parent r.parent_model_version last.model_version))
            (value_error "champion parent must match current champion")
      | none ↦ raise_if (is_some pointer) (value_error "champion pointer exists without history")
    ]
    raise_if (is_text pointer r.model_version)
        (value_error "model version is already current champion")
