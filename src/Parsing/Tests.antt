-- ===== src/Parsing/Tests.antt =====
-- Tokens, searches and text of a few characters.
use crs.Base.{
  get_or, ℕ, ◌+◌, ◌≤◌, ◌%◌, ◌≡◌, refl, List, [], ◌∷◌, ◌++◌, some, none, arith, length, replicate,
  if◌then◌else◌, ltb, ◌&&◌, ◌<◌, is_empty, drop, size_mod,
}
use crs.Parsing.{
  predicate_scan_token, scan_token, scan_loop, skip_spaces, isspace, double_quote, search_forward,
  search_loop, set_center, smart_numeral, numbered, zero_word, suffix_of, th,
}
use crs.Parsing.Tokens.{predicate_scan_token-plain, predicate_scan_token-closing}
use crs.Parsing.Table.{
  eol, fields, drop_last_empty, convert, read_row, widen, measure_rows, read_and_measure_table,
  first_row, header_loop, format_row, format_rows, tab2fixed, getline, starts_table, expand_tabs,
  table_text, tab2fixed_stream,
}
use crs.Parsing.Widths.{AreNarrow, widest}
use crs.Parsing.Columns.{IsLine, AreLines, padded, full_width, tab2fixed_lem}
use crs.Parsing.Plain.{expanded, tab2fixed_stream-plain}
use crs.Parsing.Text.{set_center_lem, smart_numeral_lem, search_forward-first}

-- "ab" and "c"
abbrev word : List ℕ
word = 97 ∷ 98 ∷ []

abbrev letter : List ℕ
letter = 99 ∷ []

scan_word : scan_token (32 ∷ 97 ∷ 98 ∷ 32 ∷ 99 ∷ []) ≡ (word, 32 ∷ letter)
unfolding scan_token predicate_scan_token scan_loop skip_spaces
scan_word = refl

-- a quote inside of a token: the first character is lost, and the quote is not
scan_inside : scan_token (97 ∷ 98 ∷ 34 ∷ 99 ∷ 34 ∷ []) ≡ (98 ∷ 34 ∷ 99 ∷ [], 34 ∷ [])
unfolding scan_token predicate_scan_token scan_loop skip_spaces
scan_inside = refl

not_found : search_forward (97 ∷ 98 ∷ 97 ∷ []) (98 ∷ 99 ∷ []) ≡ none
unfolding search_forward search_loop
not_found = refl

zero_numeral : smart_numeral 0 ≡ zero_word
unfolding smart_numeral
zero_numeral = refl

predicate_scan_token-plain_run :
    predicate_scan_token isspace ((32 ∷ []) ++ (word ++ 32 ∷ letter)) ≡ (word, 32 ∷ letter)
predicate_scan_token-plain_run =
    predicate_scan_token-plain isspace (32 ∷ []) word (32 ∷ letter) (refl, tt) refl
      (refl, refl, (refl, refl, tt)) (refl, refl)

predicate_scan_token-closing_run :
    predicate_scan_token isspace
      (predicate_scan_token isspace
        ((32 ∷ []) ++ (double_quote ∷ (word ++ double_quote ∷ letter)))).1
    ≡ (letter, [])
predicate_scan_token-closing_run =
    predicate_scan_token-closing isspace (32 ∷ []) word letter (refl, tt) (refl, (refl, tt))
      (refl, tt)

search_forward-first_run : search_forward (120 ∷ (letter ++ word)) (97 ∷ letter) ≡ some 0
search_forward-first_run = search_forward-first 97 120 letter word

set_center_lem_run :
    (before : ℕ) × (behind : ℕ) × (set_center word 5 32
      ≡ (replicate before 32 ++ word) ++ replicate behind 32)
    × (before + length word + behind ≡ (if ltb 5 (length word) then length word else 5))
    × (before ≤ behind)
    × (behind ≤ before + 1)
set_center_lem_run = set_center_lem word 5 32

smart_numeral_lem_run :
    smart_numeral 112
    ≡ numbered 112 (if ltb 10 (112 % 100) && ltb (112 % 100) 14 then th else suffix_of (112 % 10))
smart_numeral_lem_run = smart_numeral_lem 112 (omega arith)

-- "a" and "bb" in the first row, "ccc" and "d" in the second one
abbrev table_lines : List ℕ
table_lines = 97 ∷ 9 ∷ 98 ∷ 98 ∷ 10 ∷ 99 ∷ 99 ∷ 99 ∷ 9 ∷ 100 ∷ []

measured : (read_and_measure_table table_lines).1 ≡ 3 ∷ 2 ∷ []
unfolding read_and_measure_table measure_rows widen read_row convert drop_last_empty fields is_empty
measured = refl

rows_narrow :
    AreNarrow
      (length (first_row (read_and_measure_table table_lines).0))
      (read_and_measure_table table_lines).0
unfolding read_and_measure_table measure_rows widen read_row convert drop_last_empty fields is_empty
    first_row
rows_narrow = (omega arith, (omega arith, tt))

width_fits : full_width (padded 2 (read_and_measure_table table_lines).1) < size_mod
width_fits = rw measured (omega arith)

tab2fixed_lem_example :
    let (table, widths) = read_and_measure_table table_lines in
    (length widths ≡ length (first_row table))
    × ((j : ℕ) → get_or widths j 0 ≡ widest j table)
    × ((head : List ℕ) × (body : List ℕ) × (tab2fixed table_lines 2 45
          ≡ some (head ++ eol ∷ (replicate (full_width (padded 2 widths)) 45 ++ eol ∷ body)))
        × IsLine (padded 2 widths) (first_row table) head
        × AreLines (padded 2 widths) (drop 1 table) body)
tab2fixed_lem_example = tab2fixed_lem table_lines 2 45 rows_narrow width_fits

-- "  a   bb ", a rule, " ccc  d  "
laid_out :
    tab2fixed table_lines 2 45
    ≡ some (
        (32 ∷ 32 ∷ 97 ∷ 32 ∷ 32 ∷ 32 ∷ 98 ∷ 98 ∷ 32 ∷ 10 ∷ [])
        ++ (replicate 9 45 ++ (10 ∷ 32 ∷ 99 ∷ 99 ∷ 99 ∷ 32 ∷ 32 ∷ 100 ∷ 32 ∷ 32 ∷ 10 ∷ [])))
unfolding tab2fixed read_and_measure_table measure_rows widen read_row convert drop_last_empty
    fields is_empty first_row header_loop format_row format_rows set_center
laid_out = refl

-- a first row of one cell, and a second one of two
narrow : tab2fixed (97 ∷ 10 ∷ table_lines) 2 45 ≡ none
unfolding tab2fixed read_and_measure_table measure_rows widen read_row convert drop_last_empty
    fields is_empty first_row header_loop
narrow = refl

tabs_expanded :
    tab2fixed_stream 9 (some (97 ∷ 9 ∷ 98 ∷ 10 ∷ [])) 2 2 45 ≡ some (97 ∷ 32 ∷ 32 ∷ 98 ∷ 10 ∷ [])
unfolding tab2fixed_stream getline fields is_empty starts_table expand_tabs table_text
tabs_expanded = refl

tab2fixed_stream-plain_run :
    tab2fixed_stream 9 (some (97 ∷ 10 ∷ [])) 2 2 45
    ≡ some (expanded 2 (drop_last_empty (fields eol (97 ∷ 10 ∷ []))))
unfolding fields starts_table
tab2fixed_stream-plain_run =
    tab2fixed_stream-plain 9 (97 ∷ 10 ∷ []) 2 2 45 (omega arith) (refl, (refl, tt))
