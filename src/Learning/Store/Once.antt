-- ===== src/Learning/Store/Once.antt =====
-- The ledger keeps its entries, and no identity twice.
use mathlib.Core.List.{append-nil}
use stock_bot.Base.{
  String, Bool, List, [], ◌∷◌, ◌++◌, ◌+◌, ◌≤◌, ◌&&◌, ◌≡◌, arith, eq_iff, count, refl, sym, ◌⊎◌, inl,
  inr,
}
use stock_bot.Base.Result.{ok, Result-cases}
use stock_bot.Learning.Store.{Entry, Json, refuse_known, check_new, append_record}
use text.Mathlib.Text.{◌==◌}

module _ {J : Type 0} where
  abbrev has_identity : String → String → Entry J → Bool
  has_identity kind fingerprint e = e.kind == kind && e.fingerprint == fingerprint

  count-append :
      (p : Entry J → Bool) (es : List (Entry J)) (e : Entry J)
      → count p (es ++ (e ∷ [])) ≡ count p es + count p (e ∷ [])
  count-append p [] e = omega arith
  count-append p (a ∷ es) e = omega (arith, count-append p es e)

  -- no kind and fingerprint stand at two places
  abbrev pub IsOnce : List (Entry J) → Type 0
  IsOnce ledger = (kind fingerprint : String) → count (has_identity kind fingerprint) ledger ≤ 1

module _ {J : Type 0} (json : Json J) where
  refuse_known-count :
      (kind fingerprint : String) (content : J) (ledger : List (Entry J))
      → refuse_known json kind fingerprint content ledger ≡ ok tt
      → count (has_identity kind fingerprint) ledger ≡ 0
  unfolding refuse_known
  refuse_known-count kind fingerprint content [] h = refl
  refuse_known-count kind fingerprint content (e ∷ es) h =
      ground (arith, refuse_known-count kind fingerprint content es)

  check_new-count :
      (kind fingerprint : String) (content : J) (ledger : List (Entry J))
      → check_new json kind fingerprint content ledger ≡ ok tt
      → count (has_identity kind fingerprint) ledger ≡ 0
  unfolding check_new
  check_new-count kind fingerprint content ledger h =
      ground (arith, h, refuse_known-count kind fingerprint content ledger)

  new-IsOnce :
      (ledger : List (Entry J)) (e : Entry J)
      → IsOnce ledger
      → count (has_identity e.kind e.fingerprint) ledger ≡ 0
      → IsOnce (ledger ++ (e ∷ []))
  new-IsOnce ledger e once h k f = ground (
    arith,
    h,
    once k f,
    count-append (has_identity k f) ledger e,
    eq_iff e.kind k,
    eq_iff e.fingerprint f,
  )

  entry_of : String → String → J → Entry J
  entry_of kind fingerprint content = record {
    kind = kind;
    fingerprint = fingerprint;
    content = json.reread content;
  }

  append_record-cases :
      (kind fingerprint : String) (content : J) (ledger : List (Entry J))
      → ((append_record json kind fingerprint content ledger).1 ≡ ledger)
        ⊎ ((check_new json kind fingerprint content ledger ≡ ok tt)
            × ((append_record json kind fingerprint content ledger).1
                ≡ ledger ++ (entry_of kind fingerprint content ∷ [])))
  unfolding append_record entry_of
  append_record-cases kind fingerprint content ledger =
      ground (arith, Result-cases (check_new json kind fingerprint content ledger))

  -- Appending to a ledger, accepted or refused, leaves no identity at two places, and what it held
  -- stays at its front.
  pub append_record-IsOnce :
      (kind fingerprint : String) (content : J) (ledger : List (Entry J))
      → IsOnce ledger
      → let ledger' = (append_record json kind fingerprint content ledger).1 in
        IsOnce ledger' × ((added : List (Entry J)) × (ledger' ≡ ledger ++ added))
  unfolding entry_of
  append_record-IsOnce kind fingerprint content ledger once =
      elim (append_record-cases kind fingerprint content ledger) [
        | inl q ↦ rw q (once, ([], sym (append-nil ledger)))
        | inr (c, q) ↦
            let e = entry_of kind fingerprint content in
            let fresh = check_new-count kind fingerprint content ledger c in
            rw q (new-IsOnce ledger e once fresh, (e ∷ [], refl))
      ]
