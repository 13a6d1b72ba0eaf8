-- ===== src/Parsing/Stream.antt =====
-- `scan_token` of a stream. At its end `get` gives end-of-file, which is `(char) -1` in `ch`.
use mathlib.Core.List.{append-nil, append_assoc}
use crs.Base.{
  ◌-◌, ◌≤◌, ℕ, zero, suc, ◌+◌, ◌≡◌, refl, sym, ap, ◌∙◌, Bool, true, false, List, [], ◌∷◌, ◌++◌,
  Option, none, some, arith, ◌==◌, if◌then◌else◌, length, is_empty, ◌<◌,
}
use crs.Parsing.{isspace, double_quote}
use crs.Parsing.Tokens.{AreSpaces, IsPlain, HasNoQuote}

-- `EOF` as a `char`, in eight bits
abbrev pub eof_char : ℕ
eof_char = 255

unfoldable pub get_char : List ℕ → ℕ × List ℕ
get_char [] = (eof_char, [])
get_char (c ∷ s) = (c, s)

-- the `do` that eats whitespace: `ch`, and the rest of the stream
unfoldable pub skip_stream : List ℕ → ℕ × List ℕ
skip_stream [] = (eof_char, [])
skip_stream (c ∷ s) = let again = skip_stream s in if isspace c then again else (c, s)

module _ (check : ℕ → Bool) where
  -- the `for`, on fuel: the token, and the rest of the stream
  unfoldable pub stream_loop : ℕ → Bool → ℕ × List ℕ → List ℕ → Option (List ℕ × List ℕ)
  stream_loop zero long_string (ch, is) res = none
  stream_loop (suc fuel) long_string (ch, is) res =
      let opened = stream_loop fuel true (get_char is) res in
      let inside = stream_loop fuel true (get_char is) (res ++ ch ∷ []) in
      let next = stream_loop fuel false (get_char is) (res ++ ch ∷ []) in
      if ch == double_quote
      then if long_string then some (res, is) else opened
      else if long_string
      then inside
      else if check ch
      then if is_empty res then some (ch ∷ [], is) else some (res, ch ∷ is)
      else next

  unfoldable pub predicate_scan_stream : ℕ → List ℕ → Option (List ℕ × List ℕ)
  predicate_scan_stream fuel is = stream_loop fuel false (skip_stream is) []

  -- at the end of the stream the `for` goes on without end
  stream_loop-end :
      (fuel : ℕ) (long_string : Bool) (res : List ℕ)
      → check eof_char ≡ false
      → stream_loop fuel long_string (eof_char, []) res ≡ none
  unfolding stream_loop get_char
  stream_loop-end zero long_string res h = refl
  stream_loop-end (suc fuel) true res h = stream_loop-end fuel true (res ++ eof_char ∷ []) h
  stream_loop-end (suc fuel) false res h =
      rw h (stream_loop-end fuel false (res ++ eof_char ∷ []) h)

  stream_loop-plain :
      (t : List ℕ) (fuel : ℕ) (c : ℕ) (s res : List ℕ)
      → IsPlain check t
      → stream_loop (length t + fuel) false (get_char (t ++ c ∷ s)) res
        ≡ stream_loop fuel false (c, s) (res ++ t)
  unfolding stream_loop get_char
  stream_loop-plain [] fuel c s res h =
      rw (append-nil res) (ap (λ n. stream_loop n false (c, s) res) (omega arith))
  stream_loop-plain (x ∷ t) fuel c s res h =
      let next : suc (length t) + fuel ≡ suc (length t + fuel) = omega arith in
      rw (next, h.0, h.1)
        (stream_loop-plain t fuel c s (res ++ x ∷ []) h.2 ∙ rw (append_assoc res (x ∷ []) t))

  -- the fuel ends within the token
  stream_loop-short :
      (t : List ℕ) (fuel : ℕ) (c : ℕ) (s res : List ℕ)
      → IsPlain check t
      → fuel ≤ length t
      → stream_loop fuel false (get_char (t ++ c ∷ s)) res ≡ none
  unfolding stream_loop get_char
  stream_loop-short t zero c s res h f = refl
  stream_loop-short [] (suc fuel) c s res h f = absurd (omega arith)
  stream_loop-short (x ∷ t) (suc fuel) c s res h f =
      rw (h.0, h.1) (stream_loop-short t fuel c s (res ++ x ∷ []) h.2 (omega arith))

  stream_loop-quoted :
      (t : List ℕ) (fuel : ℕ) (s res : List ℕ)
      → HasNoQuote t
      → stream_loop (suc (length t + fuel)) true (get_char (t ++ double_quote ∷ s)) res
        ≡ some (res ++ t, s)
  unfolding stream_loop get_char
  stream_loop-quoted [] fuel s res h = rw (append-nil res)
  stream_loop-quoted (x ∷ t) fuel s res h =
      let next : suc (length t) + fuel ≡ suc (length t + fuel) = omega arith in
      rw (next, h.0)
        (stream_loop-quoted t fuel s (res ++ x ∷ []) h.1 ∙ rw (append_assoc res (x ∷ []) t))

unfoldable pub scan_stream : ℕ → List ℕ → Option (List ℕ × List ℕ)
scan_stream fuel is = predicate_scan_stream isspace fuel is

skip_stream-spaces : (p s : List ℕ) → AreSpaces p → skip_stream (p ++ s) ≡ skip_stream s
unfolding skip_stream
skip_stream-spaces [] s h = refl
skip_stream-spaces (c ∷ p) s h = rw (h.0, skip_stream-spaces p s h.1)

-- At the end of a stream `scan_token` does not come back, however long it runs.
pub scan_stream-end : (fuel : ℕ) (p : List ℕ) → AreSpaces p → scan_stream fuel p ≡ none
unfolding scan_stream predicate_scan_stream skip_stream
scan_stream-end fuel p h =
    let trimmed : skip_stream p ≡ (eof_char, []) =
      ap skip_stream (sym (append-nil p)) ∙ skip_stream-spaces p [] h in
    rw trimmed (stream_loop-end isspace fuel false [] refl)

-- whitespace, a token and a separator
pub scan_stream-plain :
    (p : List ℕ) (x : ℕ) (t : List ℕ) (c : ℕ) (s : List ℕ) (fuel : ℕ)
    → AreSpaces p
    → IsPlain isspace (x ∷ t)
    → (isspace c ≡ true) × (c == double_quote ≡ false)
    → length t + 2 ≤ fuel
    → scan_stream fuel (p ++ (x ∷ t ++ c ∷ s)) ≡ some (x ∷ t, c ∷ s)
unfolding scan_stream predicate_scan_stream stream_loop get_char skip_stream is_empty
scan_stream-plain p x t c s fuel h k e f =
    let extra = fuel - (length t + 2) in
    let enough : fuel ≡ length (x ∷ t) + suc extra = omega arith in
    let start = stream_loop-plain isspace (x ∷ t) (suc extra) c s [] k in
    let stop : stream_loop isspace (suc extra) false (c, s) (x ∷ t) ≡ some (x ∷ t, c ∷ s) =
      rw (e.1, e.0) in
    rw (skip_stream-spaces p (x ∷ t ++ c ∷ s) h, k.1, enough) (start ∙ stop)

-- whitespace and a quoted token
pub scan_stream-quoted :
    (p t s : List ℕ) (fuel : ℕ)
    → AreSpaces p
    → HasNoQuote t
    → length t + 2 ≤ fuel
    → scan_stream fuel (p ++ double_quote ∷ (t ++ double_quote ∷ s)) ≡ some (t, s)
unfolding scan_stream predicate_scan_stream stream_loop get_char skip_stream is_empty
scan_stream-quoted p t s fuel h k f =
    let extra = fuel - (length t + 2) in
    let enough : fuel ≡ suc (suc (length t + extra)) = omega arith in
    rw (skip_stream-spaces p (double_quote ∷ (t ++ double_quote ∷ s)) h, enough)
      (stream_loop-quoted isspace t extra s [] k)

pub scan_stream-short :
    (p : List ℕ) (x : ℕ) (t : List ℕ) (c : ℕ) (s : List ℕ) (fuel : ℕ)
    → AreSpaces p
    → IsPlain isspace (x ∷ t)
    → fuel < length t + 2
    → scan_stream fuel (p ++ (x ∷ t ++ c ∷ s)) ≡ none
unfolding scan_stream predicate_scan_stream skip_stream get_char
scan_stream-short p x t c s fuel h k f =
    let short = stream_loop-short isspace (x ∷ t) fuel c s [] k (omega arith) in
    rw (skip_stream-spaces p (x ∷ t ++ c ∷ s) h, k.1) short
