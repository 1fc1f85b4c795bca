-- ===== src/Learning/Champion/Approved.antt =====
-- The activations that the champion store accepts, and what it refuses.
use stock_bot.Base.{
  String, true, ◌≡◌, ◌≢◌, Option, none, some, List, [], ◌∷◌, ◌++◌, is_some, arith, eq_iff, refl,
  inl, inr,
}
use stock_bot.Base.Text.{strip}
use stock_bot.Base.Result.{Error, ok, err, Result-cases}
use stock_bot.Clock.{Timestamp}
use stock_bot.Learning.Promotion.{PromotionDecision, promoted}
use stock_bot.Learning.Champion.{
  ChampionRecord, ChampionStore, Formats, IsReadable, check_champion, last_of, history, current,
}
use stock_bot.Learning.Champion.Checks.{check_activation, check_successor}
use stock_bot.Learning.Champion.Activation.{append_champion, activate}
use stock_bot.Learning.Champion.History.{
  follows, history-append_champion, history-orphan, current-append_champion,
}

module _ {T : Type 0} ⦃t : Timestamp T⦄ (f : Formats T) where
  -- what an accepted activation went through
  record Accepted (r : ChampionRecord) (d : Option PromotionDecision) (s s' : ChampionStore)
      : Type 0 where
    prior : List ChampionRecord
    pointer : Option String
    checked : check_activation f r d ≡ ok tt
    read : history f s ≡ ok prior
    pointed : current f s ≡ ok pointer
    succeeds : check_successor f prior pointer r ≡ ok tt
    written : s' ≡ append_champion f r s

  activate-Accepted :
      (r : ChampionRecord) (d : Option PromotionDecision) (s : ChampionStore) {s' : ChampionStore}
      → activate f r d s ≡ (ok tt, s')
      → Accepted r d s s'
  unfolding activate
  activate-Accepted r d s h = elim (Result-cases (check_activation f r d)) [
    | inr (e, q) ↦ ground (arith, q, h)
    | inl (tt, q) ↦ elim (Result-cases (history f s)) [
      | inr (e, p) ↦ ground (arith, q, p, h)
      | inl (prior, p) ↦ elim (Result-cases (current f s)) [
        | inr (e, c) ↦ ground (arith, q, p, c, h)
        | inl (pointer, c) ↦ record {
          prior = prior;
          pointer = pointer;
          checked = q;
          read = p;
          pointed = c;
          succeeds = ground (arith, q, p, c, h);
          written = ground (arith, q, p, c, h);
        }
      ]
    ]
  ]

  check_successor-follows :
      (prior : List ChampionRecord) (pointer : Option String) (r : ChampionRecord)
      → check_successor f prior pointer r ≡ ok tt
      → is_some (last_of prior) ≡ is_some r.parent_model_version
      → follows (last_of prior) r ≡ true
  unfolding check_successor
  check_successor-follows prior pointer r h g = ground arith

  -- When an activation is accepted, of a record that names a parent exactly if there is a champion
  -- before it and whose version has no white space around it, the history reads back as before with
  -- the record at its end, and the current champion is the version of the record.
  pub activate-history :
      (r : ChampionRecord) (d : Option PromotionDecision) (s : ChampionStore) {s' : ChampionStore}
      {prior : List ChampionRecord}
      → IsReadable f r
      → check_champion r ≡ ok r
      → strip r.model_version ≡ r.model_version
      → history f s ≡ ok prior
      → is_some (last_of prior) ≡ is_some r.parent_model_version
      → activate f r d s ≡ (ok tt, s')
      → (history f s' ≡ ok (prior ++ (r ∷ []))) × (current f s' ≡ ok (some r.model_version))
  activate-history r d s {s'} {prior} laws c g q k h =
      let a = activate-Accepted r d s h in
      let same : a.prior ≡ prior = ground (arith, a.read, q) in
      let next = check_successor-follows prior a.pointer r (ground (arith, same, a.succeeds)) k in
      let kept = history-append_champion f r s laws q c next in
      rw a.written (kept, current-append_champion f r s prior kept c g)

  -- A record is activated only with a decision that is PROMOTED, names its version as the
  -- challenger, and has the digest that the record carries.
  pub activate-approved :
      (r : ChampionRecord) (d : Option PromotionDecision) (s : ChampionStore) {s' : ChampionStore}
      → activate f r d s ≡ (ok tt, s')
      → (p : PromotionDecision) × (d ≡ some p)
        × (p.state ≡ promoted)
        × (p.challenger_version ≡ r.model_version)
        × (f.decision_digest p ≡ r.promotion_review_fingerprint)
  unfolding check_activation
  activate-approved r none s h = ground (arith, (activate-Accepted r none s h).checked)
  activate-approved r (some p) s h =
      let c = (activate-Accepted r (some p) s h).checked in
      (
        p,
        refl,
        ground (arith, c),
        ground (arith, c, eq_iff p.challenger_version r.model_version),
        ground (arith, c, eq_iff (f.decision_digest p) r.promotion_review_fingerprint),
      )

  -- a store whose history raises whenever it is read, and that accepts no record any more
  pub record IsBricked (s : ChampionStore) : Type 0 where
    pub unreadable : (rs : List ChampionRecord) → history f s ≢ ok rs
    pub refuses :
        (r : ChampionRecord) (d : Option PromotionDecision) (s' : ChampionStore)
        → activate f r d s ≢ (ok tt, s')

  unreadable-IsBricked :
      (s : ChampionStore) → ((rs : List ChampionRecord) → history f s ≢ ok rs) → IsBricked s
  unreadable-IsBricked s h = record {
    unreadable = h;
    refuses = λ r d s' g. let a = activate-Accepted r d s g in h a.prior a.read;
  }

  -- A record that passes the checks of its decision is activated on a store without history and
  -- without a pointer even when it names a parent. Then no read of the history returns any more, and
  -- no later activation of any record is accepted.
  pub activate-orphan :
      (r : ChampionRecord) (d : Option PromotionDecision) (s : ChampionStore)
      → IsReadable f r
      → check_champion r ≡ ok r
      → check_activation f r d ≡ ok tt
      → history f s ≡ ok []
      → current f s ≡ ok none
      → is_some r.parent_model_version ≡ true
      → (s' : ChampionStore) × (activate f r d s ≡ (ok tt, s')) × IsBricked s'
  unfolding activate check_successor
  activate-orphan r d s laws c checked q pointer k = (
    append_champion f r s,
    ground (arith, checked, q, pointer),
    unreadable-IsBricked (append_champion f r s) (λ rs. history-orphan f r s {rs = rs} laws q c k),
  )

  -- An activation that is refused leaves both files as they were.
  pub activate-refused :
      (r : ChampionRecord) (d : Option PromotionDecision) (s : ChampionStore) {e : Error}
      {s' : ChampionStore}
      → activate f r d s ≡ (err e, s')
      → s' ≡ s
  unfolding activate
  activate-refused r d s h = ground arith
