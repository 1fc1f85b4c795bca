-- ===== src/Base/Text.antt =====
-- The operations of Python's `str` that the program calls.
use Prim.Native.Nat.{ℕ, ◌-◌, Ordering}
use Prim.Native.Char.{Char, code}
use Prim.Native.String.{String, [], ◌∷◌, char_at, compare}
use mathlib.Core.Bool.{Bool, true, false, ◌&&◌, ◌||◌}
use mathlib.Core.Option.{none, some}
use text.Mathlib.Text.{find?, ◌==◌}
use text.Mathlib.TextEquality.{eq_iff}
use native.Mathlib.Omega.{arith}
use mathlib.Core.Path.{◌≡◌, sym, subst}
use mathlib.Core.Logic.{◌⊎◌, inl, inr}
use mathlib.Core.List.{List, [], ◌∷◌}
use stock_bot.Base.Lists.{All}
use stock_bot.Base.Tests.{leb, if◌then◌else◌}

between : ℕ → ℕ → ℕ → Bool
between lo hi c = leb lo c && leb c hi

-- `str.isspace` of one character.
unfoldable pub is_space : ℕ → Bool
unfolding between
is_space c =
    between 9 13 c
    || between 28 32 c
    || between 133 133 c
    || between 160 160 c
    || between 5760 5760 c
    || between 8192 8202 c
    || between 8232 8233 c
    || between 8239 8239 c
    || between 8287 8287 c
    || between 12288 12288 c

abbrev pub is_empty : String → Bool
is_empty [] = true
is_empty (_ ∷ _) = false

unfoldable pub lstrip : String → String
lstrip [] = []
lstrip (c ∷ s) = if is_space (code c) then lstrip s else c ∷ s

unfoldable pub rstrip : String → String
rstrip [] = []
rstrip (c ∷ s) = let rest = rstrip s in if is_empty rest && is_space (code c) then [] else c ∷ rest

-- `s.strip()`
unfoldable pub strip : String → String
unfolding is_space lstrip rstrip
strip s = rstrip (lstrip s)

upper_char : Char → Char
unfolding between
upper_char c =
    if between b'a' b'z' (code c) then char_at "ABCDEFGHIJKLMNOPQRSTUVWXYZ" (code c - b'a') else c

-- `s.upper()` of an ASCII text; other characters stay.
unfoldable pub upper : String → String
unfolding upper_char
upper [] = []
upper (c ∷ s) = upper_char c ∷ upper s

lower_char : Char → Char
unfolding between
lower_char c =
    if between b'A' b'Z' (code c) then char_at "abcdefghijklmnopqrstuvwxyz" (code c - b'A') else c

-- `s.lower()` of an ASCII text
unfoldable pub lower : String → String
unfolding lower_char
lower [] = []
lower (c ∷ s) = lower_char c ∷ lower s

-- `t in s`
abbrev pub contains_text : String → String → Bool
contains_text t s = elim (find? s t) [ none ↦ false | some _ ↦ true ]

-- `not s.strip()`
abbrev pub is_blank : String → Bool
is_blank s = is_empty (strip s)

pub String-cases : (s t : String) → (s ≡ t) ⊎ ((s == t) ≡ false)
String-cases s t = ground (arith, eq_iff s t)

-- `t in ts`
abbrev pub contains : String → List String → Bool
contains t [] = false
contains t (x ∷ ts) = t == x || contains t ts

pub contains-All {κ} :
    (P : String → Type κ) (t : String) (ts : List String) → All P ts → contains t ts ≡ true → P t
contains-All P t [] _ h = ground arith
contains-All P t (x ∷ ts) (p, ps) h = elim (String-cases t x) [
  | inl q ↦ subst P (sym q) p
  | inr q ↦ contains-All P t ts ps (ground (arith, q, h))
]

-- `s < t`: the bytes of UTF-8 order texts as their code points do
abbrev pub text_ltb : String → String → Bool
text_ltb s t = elim (compare s t) [ Ordering.lt ↦ true | _ ↦ false ]
