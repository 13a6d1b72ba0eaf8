-- ===== src/Parsing/Tokens.antt =====
-- The tokens that `predicate_scan_token` takes off a string.
use mathlib.Core.List.{append-nil}
use crs.Base.{
  ℕ, suc, ◌+◌, ◌-◌, ◌≡◌, refl, sym, ap, ap₂, ◌∙◌, Bool, true, false, List, [], ◌∷◌, ◌++◌, arith,
  ◌==◌, length, take, drop, drop-append, take-append, take_all,
}
use crs.Parsing.{isspace, double_quote, skip_spaces, scan_loop, predicate_scan_token}

abbrev pub AreSpaces : List ℕ → Type 0
AreSpaces [] = Unit
AreSpaces (c ∷ s) = (isspace c ≡ true) × AreSpaces s

-- there is no space at the start
abbrev pub IsTrimmed : List ℕ → Type 0
IsTrimmed [] = Unit
IsTrimmed (c ∷ s) = isspace c ≡ false

abbrev pub HasNoQuote : List ℕ → Type 0
HasNoQuote [] = Unit
HasNoQuote (c ∷ s) = (c == double_quote ≡ false) × HasNoQuote s

skip_spaces-append : (p z : List ℕ) → AreSpaces p → IsTrimmed z → skip_spaces (p ++ z) ≡ length p
unfolding skip_spaces
skip_spaces-append [] [] h t = refl
skip_spaces-append [] (c ∷ z) h t = rw t
skip_spaces-append (c ∷ p) z h t = rw (h.0, skip_spaces-append p z h.1 t)

drop-more : (p z : List ℕ) (k : ℕ) → drop (length p + k) (p ++ z) ≡ drop k z
drop-more [] z k = ap (λ i. drop i z) (omega arith)
drop-more (c ∷ p) z k =
    let next : suc (length p) + k ≡ suc (length p + k) = omega arith in
    ap (λ i. drop i (c ∷ (p ++ z))) next ∙ drop-more p z k

module _ (check : ℕ → Bool) where
  -- no character ends the token
  abbrev pub IsPlain : List ℕ → Type 0
  IsPlain [] = Unit
  IsPlain (c ∷ s) = (c == double_quote ≡ false) × (check c ≡ false) × IsPlain s

  -- the string is over, or its first character ends the token
  abbrev pub IsEnd : List ℕ → Type 0
  IsEnd [] = Unit
  IsEnd (c ∷ s) = (c == double_quote ≡ false) × (check c ≡ true)

  scan_loop-plain :
      (t s : List ℕ) (i from : ℕ)
      → IsPlain t
      → scan_loop check false (t ++ s) i from ≡ scan_loop check false s (i + length t) from
  unfolding scan_loop
  scan_loop-plain [] s i from h = ap (λ k. scan_loop check false s k from) (omega arith)
  scan_loop-plain (c ∷ t) s i from h =
      rw (h.0, h.1, scan_loop-plain t s (i + 1) from h.2)
        (ap (λ k. scan_loop check false s k from) (omega arith))

  scan_loop-quoted :
      (t s : List ℕ) (i from : ℕ)
      → HasNoQuote t
      → scan_loop check true (t ++ s) i from ≡ scan_loop check true s (i + length t) from
  unfolding scan_loop
  scan_loop-quoted [] s i from h = ap (λ k. scan_loop check true s k from) (omega arith)
  scan_loop-quoted (c ∷ t) s i from h =
      rw (h.0, scan_loop-quoted t s (i + 1) from h.1)
        (ap (λ k. scan_loop check true s k from) (omega arith))

  scan_loop-IsEnd : (s : List ℕ) (i from : ℕ) → IsEnd s → scan_loop check false s i from ≡ (i, from)
  unfolding scan_loop
  scan_loop-IsEnd [] i from h = refl
  scan_loop-IsEnd (c ∷ s) i from h = rw (h.0, h.1)

  -- what the indices at the end of the loop cut out
  token-cut :
      (p z : List ℕ) (n k : ℕ)
      → AreSpaces p
      → IsTrimmed z
      → scan_loop check false z (length p) (length p) ≡ (length p + n, length p + k)
      → predicate_scan_token check (p ++ z) ≡ (take (n - k) (drop k z), drop n z)
  unfolding predicate_scan_token
  token-cut p z n k h t e =
      let size : (length p + n) - (length p + k) ≡ n - k = omega arith in
      rw (skip_spaces-append p z h t, drop-append p z, e, drop-more p z k, drop-more p z n, size)

  -- In a string of spaces, a text without quotes and characters that the predicate accepts, and a
  -- rest that is empty or starts with one that it accepts, the token is the text, and the rest is
  -- left in the string.
  pub predicate_scan_token-plain :
      (p t s : List ℕ)
      → AreSpaces p
      → IsTrimmed (t ++ s)
      → IsPlain t
      → IsEnd s
      → predicate_scan_token check (p ++ (t ++ s)) ≡ (t, s)
  predicate_scan_token-plain p t s h trim plain end =
      token-cut p (t ++ s) (length t) 0 h trim (
        scan_loop-plain t s (length p) (length p) plain
        ∙ scan_loop-IsEnd s _ _ end
        ∙ ap (λ k. (length p + length t, k)) (omega arith))
      ∙ ap₂ (λ a b. (a, b)) (ap (λ k. take k (t ++ s)) (omega arith) ∙ take-append t s)
          (drop-append t s)

  -- A quoted token is the text between the quotes; the closing quote is left in the string.
  pub predicate_scan_token-quoted :
      (p t s : List ℕ)
      → AreSpaces p
      → HasNoQuote t
      → predicate_scan_token check (p ++ (double_quote ∷ (t ++ double_quote ∷ s)))
        ≡ (t, double_quote ∷ s)
  unfolding scan_loop
  predicate_scan_token-quoted p t s h quiet =
      let z = double_quote ∷ (t ++ double_quote ∷ s) in
      let inside = scan_loop-quoted t (double_quote ∷ s) (length p + 1) (length p + 1) quiet in
      let loop : scan_loop check false z (length p) (length p)
          ≡ (length p + suc (length t), length p + 1) =
        inside ∙ ap (λ k. (k, length p + 1)) (omega arith) in
      token-cut p z (suc (length t)) 1 h refl loop
      ∙ ap₂ (λ a b. (a, b))
          (ap (λ k. take k (t ++ double_quote ∷ s)) (omega arith)
            ∙ take-append t (double_quote ∷ s))
          (drop-append t (double_quote ∷ s))

  -- In a string of spaces, a quoted text and a rest, both without further quotes, the second
  -- token is the whole rest: the closing quote is taken for an opening one.
  pub predicate_scan_token-closing :
      (p t s : List ℕ)
      → AreSpaces p
      → HasNoQuote t
      → HasNoQuote s
      → predicate_scan_token check
          (predicate_scan_token check (p ++ (double_quote ∷ (t ++ double_quote ∷ s)))).1
        ≡ (s, [])
  unfolding scan_loop
  predicate_scan_token-closing p t s h quiet calm =
      let loop : scan_loop check false (double_quote ∷ s) 0 0 ≡ (0 + suc (length s), 0 + 1) =
        ap (λ w. scan_loop check true w 1 1) (sym (append-nil s))
        ∙ scan_loop-quoted s [] 1 1 calm
        ∙ ap (λ k. (k, 1)) (omega arith) in
      rw (predicate_scan_token-quoted p t s h quiet) (
        token-cut [] (double_quote ∷ s) (suc (length s)) 1 tt refl loop
        ∙ ap₂ (λ a b. (a, b)) (ap (λ k. take k s) (omega arith) ∙ take_all s)
            (ap (drop (length s)) (sym (append-nil s)) ∙ drop-append s []))
