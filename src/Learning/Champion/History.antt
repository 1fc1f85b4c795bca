-- ===== src/Learning/Champion/History.antt =====
-- What the champion store keeps: its history and its pointer after an activation.
use stock_bot.Base.{
  String, Bool, true, not, ◌≡◌, ◌≢◌, Option, none, some, List, [], ◌∷◌, ◌++◌, is_some, arith,
  eq_iff, refl, Option-cases, inl, inr,
}
use stock_bot.Base.Text.{strip}
use stock_bot.Base.Result.{Result, ok, err, Result-cases}
use stock_bot.Learning.Champion.{
  ChampionRecord, ChampionStore, Formats, IsReadable, check_champion, last_of, is_parent, read_line,
  read_lines, history, current,
}
use stock_bot.Learning.Champion.Activation.{line_of, append_champion}

last_of-append : (rs : List ChampionRecord) (r : ChampionRecord) → last_of (rs ++ (r ∷ [])) ≡ some r
last_of-append [] r = refl
last_of-append (a ∷ []) r = refl
last_of-append (a ∷ b ∷ rs) r = last_of-append (b ∷ rs) r

-- The record names the one before it as its parent, and the first names none.
abbrev pub follows : Option ChampionRecord → ChampionRecord → Bool
follows none r = not (is_some r.parent_model_version)
follows (some p) r = is_parent r.parent_model_version p.model_version

module _ {T : Type 0} (f : Formats T) where
  and_then : List ChampionRecord → String → Result (List ChampionRecord)
  and_then rs line = elim (read_line f rs line) [ err e ↦ err e | ok r ↦ ok (rs ++ (r ∷ [])) ]

  read_lines-append :
      (before : List ChampionRecord) (ls : List String) (line : String) {rs : List ChampionRecord}
      → read_lines f before ls ≡ ok rs
      → read_lines f before (ls ++ (line ∷ [])) ≡ and_then rs line
  unfolding read_lines and_then
  read_lines-append before [] line h = ground arith
  read_lines-append before (l ∷ ls) line {rs} h = elim (Result-cases (read_line f before l)) [
    | inl (r, q) ↦ rw q (read_lines-append (before ++ (r ∷ [])) ls line (ground (arith, q, h)))
    | inr (e, q) ↦ ground (arith, q, h)
  ]

  read_line-line_of :
      (rs : List ChampionRecord) (r : ChampionRecord)
      → IsReadable f r
      → check_champion r ≡ ok r
      → follows (last_of rs) r ≡ true
      → read_line f rs (line_of f r) ≡ ok r
  unfolding read_line line_of
  read_line-line_of rs r laws h g =
      let d = f.champion_digest r in
      ground (arith, h, g, laws.loads-dumps, laws.dumps_text, laws.digest_text, eq_iff d d)

  history-and_then :
      (r : ChampionRecord) (s : ChampionStore) {prior : List ChampionRecord}
      → history f s ≡ ok prior
      → history f (append_champion f r s) ≡ and_then prior (line_of f r)
  unfolding history append_champion and_then read_lines
  history-and_then r s {prior} h = elim (Option-cases s.lines) [
    | inl q ↦ ground (arith, q, h)
    | inr (ls, q) ↦ ground (arith, q, h, read_lines-append [] ls (line_of f r) {rs = prior})
  ]

  -- an appended record that follows the last one is read back, and becomes the current champion
  pub history-append_champion :
      (r : ChampionRecord) (s : ChampionStore) {prior : List ChampionRecord}
      → IsReadable f r
      → history f s ≡ ok prior
      → check_champion r ≡ ok r
      → follows (last_of prior) r ≡ true
      → history f (append_champion f r s) ≡ ok (prior ++ (r ∷ []))
  unfolding and_then
  history-append_champion r s {prior} laws h c g =
      ground (arith, read_line-line_of prior r laws c g, history-and_then r s h)

  -- an appended first record with a parent makes the history unreadable
  pub history-orphan :
      (r : ChampionRecord) (s : ChampionStore) {rs : List ChampionRecord}
      → IsReadable f r
      → history f s ≡ ok []
      → check_champion r ≡ ok r
      → is_some r.parent_model_version ≡ true
      → history f (append_champion f r s) ≢ ok rs
  unfolding and_then read_line line_of
  history-orphan r s laws h c k g =
      ground (arith, h, c, k, g, laws.loads-dumps, history-and_then r s h)

  pub current-append_champion :
      (r : ChampionRecord) (s : ChampionStore) (prior : List ChampionRecord)
      → history f (append_champion f r s) ≡ ok (prior ++ (r ∷ []))
      → check_champion r ≡ ok r
      → strip r.model_version ≡ r.model_version
      → current f (append_champion f r s) ≡ ok (some r.model_version)
  unfolding current append_champion check_champion
  current-append_champion r s prior h c g =
      ground (arith, h, c, g, last_of-append prior r, eq_iff r.model_version r.model_version)
