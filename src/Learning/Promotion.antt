-- ===== src/Learning/Promotion.antt =====
-- self_learning/contracts.py: `PromotionDecision`. The date parser comes from outside.
use stock_bot.Base.{
  String, Bool, true, false, not, Option, none, some, List, [], ◌∷◌, nat_eq, when_some, ◌&&◌, ◌||◌,
  if◌then◌else◌,
}
use stock_bot.Base.Text.{is_blank}
use stock_bot.Base.Result.{Result, ok, err, value_error, raise_if, ◌>>◌}
use stock_bot.Clock.{Timestamp, zoned}
use text.Mathlib.Text.{◌==◌}
use Prim.Native.String

pub data PromotionState : Type 0 where
  review_required eligible blocked promoted rolled_back : PromotionState

abbrev pub is_promoted : PromotionState → Bool
is_promoted promoted = true
is_promoted _ = false

abbrev is_eligible : PromotionState → Bool
is_eligible eligible = true
is_eligible _ = false

pub record PromotionDecision : Type 0 where
  pub candidate_id : String
  pub candidate_fingerprint : String
  pub champion_version : String
  pub challenger_version : String
  pub state : PromotionState
  pub reasons : List String
  pub validation_fingerprints : List String
  pub approval_reference : String
  pub created_at : String

-- `len(item) == 64`
abbrev pub is_sha256 : String → Bool
is_sha256 s = nat_eq (String.count s) 64

abbrev pub all_sha256 : List String → Bool
all_sha256 [] = true
all_sha256 (s ∷ ss) = is_sha256 s && all_sha256 ss

abbrev is_nil : List String → Bool
is_nil [] = true
is_nil (_ ∷ _) = false

module _ {T : Type 0} ⦃t : Timestamp T⦄ (fromisoformat : String → Option T) where
  -- `_is_valid_timestamp`
  unfoldable pub is_offset_aware : String → Bool
  is_offset_aware s = when_some (fromisoformat s) (λ d. zoned d)

  -- the date of a promotion
  check_created : PromotionDecision → Result PromotionDecision
  check_created d = elim (fromisoformat d.created_at) [
    | none ↦ err (value_error "PROMOTED created_at must be ISO-8601")
    | some created ↦ do
      raise_if (not (zoned created)) (value_error "PROMOTED created_at must be timezone-aware")
      ok d
  ]

  -- `PromotionDecision.__post_init__`
  unfoldable pub check_promotion : PromotionDecision → Result PromotionDecision
  unfolding check_created
  check_promotion d = do
    raise_if (is_blank d.candidate_id) (value_error "candidate_id must not be empty")
    raise_if (not (is_sha256 d.candidate_fingerprint))
        (value_error "candidate_fingerprint must be SHA-256")
    raise_if (is_blank d.champion_version || is_blank d.challenger_version)
        (value_error "champion/challenger versions are required")
    raise_if (d.champion_version == d.challenger_version)
        (value_error "champion and challenger versions must differ")
    raise_if ((is_eligible d.state || is_promoted d.state) && is_nil d.validation_fingerprints)
        (value_error "validation_fingerprints must not be empty")
    raise_if (not (all_sha256 d.validation_fingerprints))
        (value_error "validation_fingerprints must be SHA-256")
    raise_if (is_promoted d.state && is_blank d.approval_reference)
        (value_error "PROMOTED requires approval_reference")
    raise_if (is_promoted d.state && is_blank d.created_at)
        (value_error "PROMOTED requires created_at")
    if is_promoted d.state then check_created d else ok d
