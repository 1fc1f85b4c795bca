-- ===== src/Learning/Champion/Lineage.antt =====
-- The records that a champion history can hold.
use mathlib.Core.Path.{subst}
use stock_bot.Base.{
  String, true, ◌≡◌, Option, none, some, List, [], ◌∷◌, ◌++◌, arith, refl, inl, inr, Option-cases,
}
use stock_bot.Base.Result.{ok, Result-cases}
use stock_bot.Learning.Champion.{
  ChampionRecord, ChampionStore, Formats, last_of, read_line, read_lines, history,
}
use stock_bot.Learning.Champion.History.{follows}

-- Each record names the version of the one before it as its parent.
abbrev pub IsLineage : Option ChampionRecord → List ChampionRecord → Type 0
IsLineage before [] = Unit
IsLineage before (r ∷ rs) = (follows before r ≡ true) × IsLineage (some r) rs

last_from : Option ChampionRecord → List ChampionRecord → Option ChampionRecord
last_from before [] = before
last_from before (r ∷ rs) = last_from (some r) rs

last_of-last_from :
    (r : ChampionRecord) (rs : List ChampionRecord) → last_of (r ∷ rs) ≡ last_from (some r) rs
unfolding last_from
last_of-last_from r [] = refl
last_of-last_from r (a ∷ rs) = last_of-last_from a rs

last_from-none : (rs : List ChampionRecord) → last_of rs ≡ last_from none rs
unfolding last_from
last_from-none [] = refl
last_from-none (r ∷ rs) = last_of-last_from r rs

append-IsLineage :
    (before : Option ChampionRecord) (rs : List ChampionRecord) (r : ChampionRecord)
    → IsLineage before rs
    → follows (last_from before rs) r ≡ true
    → IsLineage before (rs ++ (r ∷ []))
unfolding last_from
append-IsLineage before [] r _ h = (h, tt)
append-IsLineage before (a ∷ rs) r (g, gs) h = (g, append-IsLineage (some a) rs r gs h)

module _ {T : Type 0} (f : Formats T) where
  read_line-follows :
      (before : List ChampionRecord) (line : String) {r : ChampionRecord}
      → read_line f before line ≡ ok r
      → follows (last_of before) r ≡ true
  unfolding read_line
  read_line-follows before line h = ground arith

  read_lines-IsLineage :
      (before : List ChampionRecord) (ls : List String) {rs : List ChampionRecord}
      → IsLineage none before
      → read_lines f before ls ≡ ok rs
      → IsLineage none rs
  unfolding read_lines
  read_lines-IsLineage before [] p h = subst (IsLineage none) (ground (arith, h)) p
  read_lines-IsLineage before (l ∷ ls) p h = elim (Result-cases (read_line f before l)) [
    | inr (e, q) ↦ ground (arith, q, h)
    | inl (r, q) ↦
        read_lines-IsLineage (before ++ (r ∷ [])) ls
          (append-IsLineage none before r p
            (ground (arith, last_from-none before, read_line-follows before l q)))
          (ground (arith, q, h))
  ]

  -- Whatever the files hold, a history that reads at all is a line of records in which the first
  -- names no parent and every other names the version before it.
  pub history-IsLineage :
      (s : ChampionStore) {rs : List ChampionRecord} → history f s ≡ ok rs → IsLineage none rs
  unfolding history
  history-IsLineage s h = elim (Option-cases s.lines) [
    | inl q ↦ subst (IsLineage none) {x = []} (ground (arith, q, h)) tt
    | inr (ls, q) ↦ read_lines-IsLineage [] ls tt (ground (arith, q, h))
  ]
