-- ===== src/Automation/Stored.antt =====
-- Calls that return, and what `RunStateStore` of automation/state_store.py holds after them.
use stock_bot.Base.{
  String, Bool, true, false, if◌then◌else◌, none, some, List, [], ◌∷◌, ◌++◌, ◌≡◌, refl, sym, ap,
  ◌∙◌,
}
use mathlib.Core.Path.{subst}
use stock_bot.Base.Dict.{get, put, get-put-same}
use stock_bot.Base.Exec.{Exec, ◌>>=◌}
use stock_bot.Base.Result.{Result, ok, err}
use stock_bot.Automation.Contracts.{
  create_run, create_run-new, StageEvent, RunContext, RunRecord, RunStore, update_context,
  append_event, update_context-known, append_event-known,
}
use stock_bot.Automation.Surroundings.{World, outside, in_store}

module _ {S A : Type 0} where
  -- it returns, with a result and a state of which `P` holds
  abbrev pub Returns : (A → S → Type 0) → Result A × S → Type 0
  Returns P (ok a, s) = P a s
  Returns P (err e, s) = ⊥

module _ {S A B : Type 0} where
  abbrev pub proceed : (A → Exec S B) → Result A × S → Result B × S
  proceed f o = let (r, s) = o in elim r [ ok a ↦ f a s | err e ↦ (err e, s) ]

  pub proceed-Returns :
      (P : A → S → Type 0) (Q : B → S → Type 0) (f : A → Exec S B) (o : Result A × S)
      → Returns P o
      → ((a : A) (s : S) → P a s → Returns Q (f a s))
      → Returns Q (proceed f o)
  proceed-Returns P Q f (ok a, s) p h = h a s p
  proceed-Returns P Q f (err e, s) p h = absurd p

  pub bind-Returns :
      (P : A → S → Type 0) (Q : B → S → Type 0) (m : Exec S A) (f : A → Exec S B) (s : S)
      → Returns P (m s)
      → ((a : A) (s' : S) → P a s' → Returns Q (f a s'))
      → Returns Q ((m >>= f) s)
  bind-Returns P Q m f s = proceed-Returns P Q f (m s)

module _ {T : Type 0} where
  abbrev pub with_events : RunContext T → List (StageEvent T) → RunRecord T
  with_events run events = record { context = run; events = events }

module _ {T B : Type 0} where
  -- the store holds the run with these events
  abbrev pub IsStored : RunContext T → List (StageEvent T) → World T B → Type 0
  IsStored run events w =
      get run.run_id w.store.runs ≡ some (record { context = run; events = events })

  pub outcome-Returns :
      {A : Type 0} (w : World T B) (o : Result A × B)
      → Returns (λ _ _. Unit {0}) o
      → Returns (λ _ w'. w'.store ≡ w.store) (let (r, b) = o in (r, record w { outside = b }))
  outcome-Returns w (ok a, b) _ = refl
  outcome-Returns w (err e, b) h = h

  pub outside-Returns :
      {A : Type 0} (m : Exec B A) (w : World T B)
      → Returns (λ _ _. Unit {0}) (m w.outside)
      → Returns (λ _ w'. w'.store ≡ w.store) (outside m w)
  outside-Returns m w = outcome-Returns w (m w.outside)

  stored_by : {A : Type 0} → World T B → Result A × RunStore T → Result A × World T B
  stored_by w o = let (r, s) = o in (r, record w { store = s })

  pub append-IsStored :
      (run : RunContext T) (es : List (StageEvent T)) (e : StageEvent T) (w : World T B)
      → e.run_id ≡ run.run_id
      → IsStored run es w
      → Returns (λ _ w'. IsStored run (es ++ (e ∷ [])) w') (in_store (append_event e) w)
  unfolding stored_by
  append-IsStored run es e w q h =
      subst (λ o. Returns (λ _ w'. IsStored run (es ++ (e ∷ [])) w') (stored_by w o))
        (sym (append_event-known e w.store (ap (λ k. get k w.store.runs) q ∙ h)))
        (subst
          (λ k.
            get run.run_id (put k (with_events run (es ++ (e ∷ []))) w.store.runs)
            ≡ some (with_events run (es ++ (e ∷ []))))
          (sym q) (get-put-same run.run_id (with_events run (es ++ (e ∷ []))) w.store.runs))

  pub update-IsStored :
      (run old : RunContext T) (es : List (StageEvent T)) (w : World T B)
      → run.run_id ≡ old.run_id
      → IsStored old es w
      → Returns (λ _ w'. IsStored run es w') (in_store (update_context run) w)
  unfolding stored_by
  update-IsStored run old es w q h =
      subst (λ o. Returns (λ _ w'. IsStored run es w') (stored_by w o))
        (sym (update_context-known run w.store (ap (λ k. get k w.store.runs) q ∙ h)))
        (get-put-same run.run_id (record { context = run; events = es }) w.store.runs)

  pub create-IsStored :
      (key : String) (run : RunContext T) (w : World T B)
      → get key w.store.idempotency ≡ none
      → Returns
          (λ known w'. (known.context.run_id ≡ run.run_id) × IsStored run [] w')
          (in_store (create_run key run) w)
  unfolding stored_by
  create-IsStored key run w h =
      subst
        (λ o.
          Returns (λ known w'. (known.context.run_id ≡ run.run_id) × IsStored run [] w')
            (stored_by w o))
        (sym (create_run-new key run w.store h))
        (refl, get-put-same run.run_id (with_events run []) w.store.runs)

  pub if-Returns :
      {A : Type 0} (P : A → World T B → Type 0) (b : Bool) (m f : Exec (World T B) A)
      (w : World T B)
      → b ≡ false
      → Returns P (f w)
      → Returns P ((if b then m else f) w)
  if-Returns P true m f w h k = cc
  if-Returns P false m f w h k = k
