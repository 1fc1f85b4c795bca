-- ===== src/Base/Dict.antt =====
-- Python's `dict` with text keys, in insertion order.
use Prim.Native.String.{String}
use Prim.Native.Nat.{ℕ, suc, ◌+◌}
use mathlib.Core.Bool.{Bool}
use mathlib.Core.Path.{◌≡◌, refl, subst}
use mathlib.Core.Option.{Option, none, some}
use mathlib.Core.Logic.{inl, inr}
use mathlib.Core.List.{List, [], ◌∷◌}
use native.Mathlib.Omega.{arith}
use text.Mathlib.Text.{◌==◌}
use text.Mathlib.TextEquality.{eq_iff}
use text.Mathlib.TextPositions.{eq_refl}
use stock_bot.Base.Tests.{if◌then◌else◌}
use stock_bot.Base.Text.{String-cases}
use stock_bot.Base.Lists.{All, length}

abbrev pub Dict {ℓ} : Type ℓ → Type ℓ
Dict V = List (String × V)

module _ {ℓ} {V : Type ℓ} where
  -- `d.get(k)`
  unfoldable pub get : String → Dict V → Option V
  get k [] = none
  get k ((j, v) ∷ d) = if j == k then some v else get k d

  -- `d[k] = v`: an old key keeps its place
  unfoldable pub put : String → V → Dict V → Dict V
  put k v [] = (k, v) ∷ []
  put k v ((j, w) ∷ d) = if j == k then (j, v) ∷ d else (j, w) ∷ put k v d

  -- `d.pop(k, None)`
  unfoldable pub remove : String → Dict V → Dict V
  remove k [] = []
  remove k ((j, w) ∷ d) = let rest = remove k d in if j == k then rest else (j, w) ∷ rest

  -- `d.values()`
  abbrev pub values : Dict V → List V
  values [] = []
  values ((_, v) ∷ d) = v ∷ values d

  pub get-put :
      (k j : String) (v : V) (d : Dict V) → get j (put k v d) ≡ (if k == j then some v else get j d)
  unfolding get put
  get-put k j v [] = refl
  get-put k j v ((i, w) ∷ d) = ground (arith, eq_iff k j, eq_iff i k, eq_iff i j, get-put k j v d)

  pub get-put-same : (k : String) (v : V) (d : Dict V) → get k (put k v d) ≡ some v
  get-put-same k v d = ground (arith, get-put k k v d, eq_refl k)

  pub get-remove :
      (k j : String) (d : Dict V) → get j (remove k d) ≡ (if k == j then none else get j d)
  unfolding get remove
  get-remove k j [] = ground arith
  get-remove k j ((i, w) ∷ d) = ground (arith, eq_iff k j, eq_iff i k, eq_iff i j, get-remove k j d)

  -- what holds of all entries holds of one that is found
  pub get-All {κ} :
      (P : String → V → Type κ) (k : String) (d : Dict V) {v : V}
      → All (λ (j, w). P j w) d
      → get k d ≡ some v
      → P k v
  unfolding get
  get-All P k [] _ h = ground arith
  get-All P k ((j, w) ∷ d) {v} (p, ps) h = elim (String-cases j k) [
    | inl q ↦ subst (λ i. P i v) q (subst (P j) (ground (arith, eq_iff j k, q, h)) p)
    | inr q ↦ get-All P k d ps (ground (arith, q, h))
  ]

  -- no key stands twice
  abbrev pub IsDistinct : Dict V → Type ℓ
  IsDistinct [] = Unit
  IsDistinct ((k, _) ∷ d) = (get k d ≡ none) × IsDistinct d

  pub put-IsDistinct : (k : String) (v : V) (d : Dict V) → IsDistinct d → IsDistinct (put k v d)
  unfolding get put
  put-IsDistinct k v [] _ = (refl, tt)
  put-IsDistinct k v ((j, w) ∷ d) (h, hs) =
      ground (arith, eq_iff k j, eq_iff j k, h, hs, get-put k j v d, put-IsDistinct k v d hs)

  pub remove-IsDistinct : (k : String) (d : Dict V) → IsDistinct d → IsDistinct (remove k d)
  unfolding get remove
  remove-IsDistinct k [] _ = tt
  remove-IsDistinct k ((j, w) ∷ d) (h, hs) =
      ground (arith, h, get-remove k j d, remove-IsDistinct k d hs)

  pub length-put-old :
      (k : String) (v w : V) (d : Dict V) → get k d ≡ some w → length (put k v d) ≡ length d
  unfolding get put
  length-put-old k v w [] h = ground (arith, h)
  length-put-old k v w ((j, u) ∷ d) h = ground (arith, h, length-put-old k v w d)

  pub length-put-new :
      (k : String) (v : V) (d : Dict V) → get k d ≡ none → length (put k v d) ≡ suc (length d)
  unfolding get put
  length-put-new k v [] h = refl
  length-put-new k v ((j, u) ∷ d) h = ground (arith, h, length-put-new k v d)

  pub remove-absent : (k : String) (d : Dict V) → get k d ≡ none → remove k d ≡ d
  unfolding get remove
  remove-absent k [] h = refl
  remove-absent k ((j, u) ∷ d) h = ground (arith, h, remove-absent k d)

  pub length-remove :
      (k : String) {w : V} (d : Dict V)
      → IsDistinct d
      → get k d ≡ some w
      → suc (length (remove k d)) ≡ length d
  unfolding get remove
  length-remove k [] _ h = ground (arith, h)
  length-remove k {w} ((j, u) ∷ d) (g, gs) h =
      ground (arith, g, h, eq_iff j k, remove-absent k d, length-remove k {w = w} d gs)

  -- how many values pass a test
  abbrev pub tally : (V → Bool) → Dict V → ℕ
  tally t [] = 0
  tally t ((_, v) ∷ d) = (if t v then 1 else 0) + tally t d

  pub tally-put-old :
      (t : V → Bool) (k : String) (v w : V) (d : Dict V)
      → get k d ≡ some w
      → t v ≡ t w
      → tally t (put k v d) ≡ tally t d
  unfolding get put
  tally-put-old t k v w [] h q = ground (arith, h)
  tally-put-old t k v w ((j, u) ∷ d) h q = ground (arith, h, q, tally-put-old t k v w d)

  pub tally-put-new :
      (t : V → Bool) (k : String) (v : V) (d : Dict V)
      → get k d ≡ none
      → tally t (put k v d) ≡ (if t v then 1 else 0) + tally t d
  unfolding get put
  tally-put-new t k v [] h = refl
  tally-put-new t k v ((j, u) ∷ d) h = ground (arith, h, tally-put-new t k v d)

  pub tally-remove :
      (t : V → Bool) (k : String) {w : V} (d : Dict V)
      → IsDistinct d
      → get k d ≡ some w
      → (if t w then 1 else 0) + tally t (remove k d) ≡ tally t d
  unfolding get remove
  tally-remove t k [] _ h = ground (arith, h)
  tally-remove t k {w} ((j, u) ∷ d) (g, gs) h =
      ground (arith, g, h, eq_iff j k, remove-absent k d, tally-remove t k {w = w} d gs)
