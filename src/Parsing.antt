-- ===== src/Parsing.antt =====
-- crs/parsing.cpp: tokens of a string, the search in a stream, and the layout of text.
-- A character is its code, in the "C" locale; a string is the list of its characters.
pub mod Tokens
pub mod Text
pub mod Stream
pub mod Table
pub mod Widths
pub mod Columns
pub mod Plain
pub mod Fuel
mod Tests
use crs.Base.{
  ℕ, zero, suc, ◌+◌, ◌-◌, ◌/◌, ◌%◌, Bool, true, false, List, [], ◌∷◌, ◌++◌, Option, none, some, ltb,
  leb, ◌==◌, ◌&&◌, ◌||◌, if◌then◌else◌, length, take, drop, get_or, replicate,
}

-- `isspace`, and so `scan_token_space_predicate::check`
abbrev pub isspace : ℕ → Bool
isspace ch = (ch == 32) || (leb 9 ch && leb ch 13)

-- `DOUBLE_L`
abbrev pub double_quote : ℕ
double_quote = 34

-- the `while` that eats whitespace: the index behind it
unfoldable pub skip_spaces : List ℕ → ℕ
skip_spaces [] = 0
skip_spaces (c ∷ s) = if isspace c then suc (skip_spaces s) else 0

module _ (check : ℕ → Bool) where
  -- the `for` over the characters from the index `i` on: `i` and `idxFrom` at its end
  pub scan_loop : Bool → List ℕ → ℕ → ℕ → ℕ × ℕ
  scan_loop long_string [] i idx_from = (i, idx_from)
  scan_loop long_string (c ∷ s) i idx_from =
      let opened = scan_loop true s (i + 1) (idx_from + 1) in
      let inside = scan_loop true s (i + 1) idx_from in
      let next = scan_loop false s (i + 1) idx_from in
      if c == double_quote
      then if long_string then (i, idx_from) else opened
      else if long_string
      then inside
      else if check c
      then (i, idx_from)
      else next

  -- the token, and what is left of the string
  pub predicate_scan_token : List ℕ → List ℕ × List ℕ
  predicate_scan_token s =
      let start = skip_spaces s in
      let (i, idx_from) = scan_loop false (drop start s) start start in
      (take (i - idx_from) (drop idx_from s), drop i s)

-- `scan_token` of a string
pub scan_token : List ℕ → List ℕ × List ℕ
scan_token s = predicate_scan_token isspace s

-- the `for` of `search_forward` over the rest of the stream: `match`, and how much was read
pub search_loop : List ℕ → List ℕ → ℕ → ℕ → ℕ × ℕ
search_loop sample [] matched pos = (matched, pos)
search_loop sample (ch ∷ stream) matched pos =
    let again =
      search_loop sample stream ((if ch == get_or sample matched 0 then matched else 0) + 1)
        (pos + 1) in
    if ltb matched (length sample) then again else (matched, pos)

-- `search_forward`: the position, relative to the one at the call; the stream goes back to that.
pub search_forward : List ℕ → List ℕ → Option ℕ
search_forward stream sample =
    let (matched, pos) = search_loop sample stream 0 0 in
    if matched == length sample then some (pos - matched) else none

pub set_center : List ℕ → ℕ → ℕ → List ℕ
set_center str width fill_char =
    let rest_spaces = width - length str in
    let result = replicate (rest_spaces / 2) fill_char ++ str in
    if ltb width (length str) then str else result ++ replicate (width - length result) fill_char

pub data Suffix : Type 0 where
  st : Suffix
  nd : Suffix
  rd : Suffix
  th : Suffix

-- the `switch`
pub suffix_of : ℕ → Suffix
suffix_of n = if n == 1 then st else if n == 2 then nd else if n == 3 then rd else th

-- the text "zero", or the digits of a number with a suffix
pub data Numeral : Type 0 where
  zero_word : Numeral
  numbered : ℕ → Suffix → Numeral

pub smart_numeral : ℕ → Numeral
smart_numeral num =
    let n = if ltb (num % 100) 10 || ltb 20 (num % 100) then num % 10 else num in
    if num == 0 then zero_word else numbered num (suffix_of n)
