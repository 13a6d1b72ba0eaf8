-- ===== src/IniFile/Lines.antt =====
-- The pieces of a line, and the lines of a text.
use mathlib.Core.List.{append-nil}
use crs.Base.{ℕ, ◌≡◌, refl, ap, ◌∙◌, false, List, [], ◌∷◌, ◌++◌, ◌==◌, ==_refl}
use crs.Parsing.{skip_spaces}
use crs.Parsing.Tokens.{IsTrimmed}
use crs.IniFile.{
  eol, carriage_return, before, after, firstchar, trim, add_char, lines, newline_each,
  newline_between,
}

-- the character `c` is not in the string
abbrev pub Lacks : ℕ → List ℕ → Type 0
Lacks c [] = Unit
Lacks c (x ∷ s) = (x == c ≡ false) × Lacks c s

pub Lacks-append : (c : ℕ) (s t : List ℕ) → Lacks c s → Lacks c t → Lacks c (s ++ t)
Lacks-append c [] t h k = k
Lacks-append c (x ∷ s) t h k = (h.0, Lacks-append c s t h.1 k)

pub before-Lacks : (c : ℕ) (s : List ℕ) → Lacks c s → before c s ≡ s
unfolding before
before-Lacks c [] h = refl
before-Lacks c (x ∷ s) h = rw (h.0, before-Lacks c s h.1)

pub after-Lacks : (c : ℕ) (s : List ℕ) → Lacks c s → after c s ≡ []
unfolding after
after-Lacks c [] h = refl
after-Lacks c (x ∷ s) h = rw (h.0, after-Lacks c s h.1)

pub before-first : (c : ℕ) (s t : List ℕ) → Lacks c s → before c (s ++ c ∷ t) ≡ s
unfolding before
before-first c [] t h = rw (==_refl c)
before-first c (x ∷ s) t h = rw (h.0, before-first c s t h.1)

pub after-first : (c : ℕ) (s t : List ℕ) → Lacks c s → after c (s ++ c ∷ t) ≡ t
unfolding after
after-first c [] t h = rw (==_refl c)
after-first c (x ∷ s) t h = rw (h.0, after-first c s t h.1)

-- one line of text without a carriage return or leading whitespace
pub record IsLine (s : List ℕ) : Type 0 where
  pub whole : Lacks eol s
  pub clean : Lacks carriage_return s
  pub trimmed : IsTrimmed s

firstchar-IsTrimmed : (s : List ℕ) → IsTrimmed s → firstchar s ≡ s
unfolding firstchar skip_spaces
firstchar-IsTrimmed [] h = refl
firstchar-IsTrimmed (c ∷ s) h = rw h

pub trim-IsLine : (s : List ℕ) → IsLine s → trim s ≡ s
unfolding trim
trim-IsLine s h = rw (before-Lacks carriage_return s h.clean) (firstchar-IsTrimmed s h.trimmed)

lines-one : (s : List ℕ) → Lacks eol s → lines s ≡ s ∷ []
unfolding lines add_char
lines-one [] h = refl
lines-one (c ∷ s) h = rw (h.0, lines-one s h.1)

lines-first : (s t : List ℕ) → Lacks eol s → lines (s ++ eol ∷ t) ≡ s ∷ lines t
unfolding lines add_char
lines-first [] t h = refl
lines-first (c ∷ s) t h = rw (h.0, lines-first s t h.1)

abbrev pub AllWhole : List (List ℕ) → Type 0
AllWhole [] = Unit
AllWhole (s ∷ rest) = Lacks eol s × AllWhole rest

-- the lines written are the lines read
pub lines-newline_between :
    (s : List ℕ) (rest : List (List ℕ))
    → AllWhole (s ∷ rest)
    → lines (newline_between (s ∷ rest)) ≡ s ∷ rest
unfolding newline_between newline_each
lines-newline_between s [] h = rw (append-nil s) (lines-one s h.0)
lines-newline_between s (t ∷ rest) h =
    lines-first s (newline_between (t ∷ rest)) h.0 ∙ ap (◌∷◌ s) (lines-newline_between t rest h.1)
