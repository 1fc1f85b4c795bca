-- ===== src/Learning/Store.antt =====
-- self_learning/store.py: the append-only ledger of learning artifacts, as its entries read back.
-- JSON and the equality of its values come from outside.
pub mod Once
use stock_bot.Base.{
  String, Bool, true, false, List, [], ◌∷◌, ◌++◌, ◌&&◌, if◌then◌else◌, ◌≡◌, ◌≢◌, arith, eq_iff, All,
  refl,
}
use stock_bot.Base.Text.{is_empty}
use stock_bot.Base.Result.{Error, Result, ok, err, value_error, raise_if, ◌>>◌}
use stock_bot.Base.Exec.{Exec}
use text.Mathlib.Text.{◌==◌}
use Prim.Native.String

pub record Entry (J : Type 0) : Type 0 where
  pub kind : String
  pub fingerprint : String
  pub content : J

-- What JSON makes of a value: `reread` of a value is what its text reads back as.
pub record Json (J : Type 0) : Type 0 where
  pub reread : J → J
  pub same : J → J → Bool

module _ {J : Type 0} (json : Json J) where
  -- the loop over the entries that are there
  unfoldable pub refuse_known : String → String → J → List (Entry J) → Result (Unit {0})
  refuse_known kind fingerprint content [] = ok tt
  refuse_known kind fingerprint content (e ∷ es) =
      if e.kind == kind && e.fingerprint == fingerprint
      then (if json.same e.content content
          then err (value_error (String.◌++◌ kind " already exists"))
          else err (value_error (String.◌++◌ kind " fingerprint collision with different content")))
      else refuse_known kind fingerprint content es

  unfoldable pub check_new : String → String → J → List (Entry J) → Result (Unit {0})
  check_new kind fingerprint content ledger = do
    raise_if (is_empty fingerprint) (value_error "learning record must expose a fingerprint")
    refuse_known kind fingerprint content ledger

  -- `_append`
  unfoldable pub append_record : String → String → J → Exec (List (Entry J)) (Unit {0})
  append_record kind fingerprint content ledger = elim (check_new kind fingerprint content ledger) [
    | err e ↦ (err e, ledger)
    | ok _ ↦
        let e : Entry J = record {
          kind = kind;
          fingerprint = fingerprint;
          content = json.reread content;
        } in
        (ok tt, ledger ++ (e ∷ []))
  ]

-- `records`
unfoldable pub records_of : {J : Type 0} → String → List (Entry J) → List J
records_of kind [] = []
records_of kind (e ∷ es) =
    let rest = records_of kind es in if e.kind == kind then e.content ∷ rest else rest
