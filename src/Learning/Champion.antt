-- ===== src/Learning/Champion.antt =====
-- learning/lifecycle.py: `RollbackRecord` and `ChampionStore`, with `ChampionRecord` of
-- learning/self_learning_models.py. The history file is its list of lines; the JSON form of a line,
-- the digests and the date parser come from outside.
pub mod Checks
pub mod Activation
pub mod History
pub mod Approved
pub mod Lineage
use stock_bot.Base.{
  String, Bool, true, false, not, Option, none, some, List, [], ◌∷◌, ◌++◌, nat_eq, is_some,
  when_some, ◌≡◌, if◌then◌else◌, ◌&&◌,
}
use stock_bot.Base.Text.{strip, is_blank, is_empty}
use stock_bot.Base.Result.{Result, ok, err, value_error, raise_if, ◌>>=◌, ◌>>◌}
use stock_bot.Learning.Promotion.{PromotionDecision, is_sha256}
use text.Mathlib.Text.{◌==◌}

pub record RollbackRecord : Type 0 where
  pub rollback_id : String
  pub from_model_version : String
  pub to_model_version : String
  pub reason : String
  pub timestamp : String
  pub review_fingerprint : String

-- `RollbackRecord.__post_init__`
unfoldable pub check_rollback : RollbackRecord → Result RollbackRecord
check_rollback r = do
  raise_if (is_blank r.rollback_id) (value_error "rollback_id must be non-empty")
  raise_if (is_blank r.from_model_version) (value_error "from_model_version must be non-empty")
  raise_if (is_blank r.to_model_version) (value_error "to_model_version must be non-empty")
  raise_if (is_blank r.reason) (value_error "reason must be non-empty")
  raise_if (is_blank r.timestamp) (value_error "timestamp must be non-empty")
  raise_if (r.from_model_version == r.to_model_version)
      (value_error "rollback versions must differ")
  raise_if (not (is_sha256 r.review_fingerprint)) (value_error "review_fingerprint must be SHA-256")
  ok r

pub record ChampionRecord : Type 0 where
  pub model_version : String
  pub status : String
  pub activated_at : String
  pub experiment_id : String
  pub promotion_review_fingerprint : String
  pub parent_model_version : Option String
  pub rollback_of : Option String

-- `ChampionRecord.__post_init__`
unfoldable pub check_champion : ChampionRecord → Result ChampionRecord
check_champion r = do
  raise_if (is_blank r.model_version) (value_error "model_version must be non-empty")
  raise_if (is_blank r.status) (value_error "status must be non-empty")
  raise_if (is_blank r.activated_at) (value_error "activated_at must be non-empty")
  raise_if (is_blank r.experiment_id) (value_error "experiment_id must be non-empty")
  raise_if (is_blank r.promotion_review_fingerprint)
      (value_error "promotion_review_fingerprint must be non-empty")
  raise_if (not (is_sha256 r.promotion_review_fingerprint))
      (value_error "promotion_review_fingerprint must be SHA-256")
  ok r

-- What a line of the history holds: the record's fields and the digest written beside them, which
-- an older line may lack.
pub record HistoryLine : Type 0 where
  pub entry : ChampionRecord
  pub fingerprint : Option String

-- `json`, `hashlib` and `datetime.fromisoformat` as the store uses them. `loads` refuses what is
-- not an object with the fields of a record.
pub record Formats (T : Type 0) : Type 0 where
  pub dumps : HistoryLine → String
  pub loads : String → Result HistoryLine
  pub champion_digest : ChampionRecord → String
  pub decision_digest : PromotionDecision → String
  pub fromisoformat : String → Option T

-- the line that holds a record
abbrev pub line_for : {T : Type 0} → Formats T → ChampionRecord → HistoryLine
line_for f r = record { entry = r; fingerprint = some (f.champion_digest r) }

-- What the store relies on for a record: JSON reads back the line that it writes, which is not
-- blank, and the digest has characters.
pub record IsReadable {T : Type 0} (f : Formats T) (r : ChampionRecord) : Type 0 where
  pub loads-dumps : f.loads (f.dumps (line_for f r)) ≡ ok (line_for f r)
  pub dumps_text : is_blank (f.dumps (line_for f r)) ≡ false
  pub digest_text : is_empty (f.champion_digest r) ≡ false

-- The two files; the history may not exist yet, and neither may the pointer.
pub record ChampionStore : Type 0 where
  pub lines : Option (List String)
  pub pointer : Option String

-- `parent_model_version != previous.model_version`
abbrev pub is_parent : Option String → String → Bool
is_parent parent version = when_some parent (λ p. p == version)

-- `result[-1]` of what was read so far, newest last
abbrev pub last_of : List ChampionRecord → Option ChampionRecord
last_of [] = none
last_of (r ∷ []) = some r
last_of (_ ∷ rs) = last_of rs

-- `text or None`
abbrev pub or_none : String → Option String
or_none s = if is_empty s then none else some s

-- `read_text(…).strip() or None`, when the file exists
abbrev pub pointer_text : Option String → Option String
pointer_text none = none
pointer_text (some p) = or_none (strip p)

-- `pointer != expected`, for an optional text
abbrev pub is_text : Option String → String → Bool
is_text o s = when_some o (λ p. p == s)

module _ {T : Type 0} (f : Formats T) where
  -- the checks of one line, after the records read before it; the messages leave out its number
  unfoldable pub read_line : List ChampionRecord → String → Result ChampionRecord
  read_line before line = do
    raise_if (is_blank line) (value_error "blank champion history line")
    payload ← f.loads line
    raise_if (not (when_some payload.fingerprint (λ d. not (is_empty d))))
        (value_error "champion history fingerprint is required")
    r ← check_champion payload.entry
    raise_if (not (is_text payload.fingerprint (f.champion_digest r)))
        (value_error "champion history fingerprint mismatch")
    elim (last_of before) [
      | some previous ↦
          raise_if (not (is_parent r.parent_model_version previous.model_version))
            (value_error "champion history parent mismatch")
      | none ↦
          raise_if (is_some r.parent_model_version)
            (value_error "initial champion cannot have a parent")
    ]
    ok r

  unfoldable pub read_lines : List ChampionRecord → List String → Result (List ChampionRecord)
  read_lines before [] = ok before
  read_lines before (line ∷ rest) = do
    r ← read_line before line
    read_lines (before ++ (r ∷ [])) rest

  -- `history`
  unfoldable pub history : ChampionStore → Result (List ChampionRecord)
  history s = elim s.lines [ none ↦ ok [] | some lines ↦ read_lines [] lines ]

  -- `current`
  unfoldable pub current : ChampionStore → Result (Option String)
  current s = do
    let pointer = pointer_text s.pointer
    past ← history s
    elim (last_of past) [
      | none ↦ do
        raise_if (is_some pointer) (value_error "champion pointer exists without history")
        ok none
      | some r ↦ do
        raise_if (not (is_text pointer r.model_version))
            (value_error "champion pointer does not match history")
        ok pointer
    ]
