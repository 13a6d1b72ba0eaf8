-- ===== src/Parsing/Columns.antt =====
-- What `tab2fixed` writes: columns of one width.
use native.Mathlib.Nat.{mod-eq_of_lt}
use crs.Base.{
  ◌∙◌, get_or, ℕ, ◌+◌, ◌≤◌, ◌<◌, ◌≡◌, refl, ap, List, [], ◌∷◌, ◌++◌, none, some, arith, length,
  drop, replicate, add_size, size_mod,
}
use crs.Parsing.{set_center}
use crs.Parsing.Text.{set_center_lem}
use crs.Parsing.Table.{
  eol, read_and_measure_table, first_row, header_loop, format_row, format_rows, tab2fixed,
}
use crs.Parsing.Widths.{
  Covers, CoversAll, measure_rows-CoversAll, widest, AreNarrow, max_zero, get_or-measure_rows,
  length-measure_rows, length-Covers,
}

-- `line` has the cells one after the other, each in the middle of as many places as its column is
-- wide, with half of the free places, rounded down, before it
abbrev pub IsLine : List ℕ → List (List ℕ) → List ℕ → Type 0
IsLine widths [] line = line ≡ []
IsLine [] (cell ∷ cells) line = ⊥
IsLine (w ∷ widths) (cell ∷ cells) line =
    (before : ℕ) × (behind : ℕ) × (rest : List ℕ) × (line
      ≡ ((replicate before 32 ++ cell) ++ replicate behind 32) ++ rest)
    × (before + length cell + behind ≡ w)
    × (before ≤ behind)
    × (behind ≤ before + 1)
    × IsLine widths cells rest

-- the lines of the rows, each with its end
abbrev pub AreLines : List ℕ → List (List (List ℕ)) → List ℕ → Type 0
AreLines widths [] body = body ≡ []
AreLines widths (row ∷ rows) body =
    (line : List ℕ) × (rest : List ℕ) × (body ≡ line ++ eol ∷ rest)
    × IsLine widths row line
    × AreLines widths rows rest

format_row-IsLine :
    (widths : List ℕ) (row : List (List ℕ))
    → Covers widths row
    → (line : List ℕ) × (format_row widths row ≡ some line) × IsLine widths row line
unfolding format_row
format_row-IsLine widths [] h = ([], refl, refl)
format_row-IsLine [] (cell ∷ cells) h = absurd h
format_row-IsLine (w ∷ widths) (cell ∷ cells) h =
    let (rest, done, others) = format_row-IsLine widths cells h.1 in
    let (before, behind, text, sum, low, high) = set_center_lem cell w 32 in
    let least = h.0 in
    let total : before + length cell + behind ≡ w = ground arith in
    rw done (
      set_center cell w 32 ++ rest,
      refl,
      (before, behind, rest, ap (λ xs. xs ++ rest) text, total, low, high, others),
    )

format_rows-AreLines :
    (widths : List ℕ) (rows : List (List (List ℕ)))
    → CoversAll widths rows
    → (body : List ℕ) × (format_rows widths rows ≡ some body) × AreLines widths rows body
unfolding format_rows
format_rows-AreLines widths [] h = ([], refl, refl)
format_rows-AreLines widths (row ∷ rows) h =
    let (line, made, is_line) = format_row-IsLine widths row h.0 in
    let (body, done, others) = format_rows-AreLines widths rows h.1 in
    rw (made, done) (line ++ eol ∷ body, refl, (line, body, refl, is_line, others))

-- the widths of the columns with the extra spaces, and of the whole table
abbrev pub padded : ℕ → List ℕ → List ℕ
padded extra [] = []
padded extra (w ∷ widths) = (w + extra) ∷ padded extra widths

abbrev pub full_width : List ℕ → ℕ
full_width [] = 0
full_width (w ∷ widths) = w + full_width widths

Covers-padded :
    (extra : ℕ) (widths : List ℕ) (row : List (List ℕ))
    → Covers widths row
    → Covers (padded extra widths) row
Covers-padded extra widths [] h = tt
Covers-padded extra [] (cell ∷ cells) h = absurd h
Covers-padded extra (w ∷ widths) (cell ∷ cells) h =
    (let least = h.0 in omega arith, Covers-padded extra widths cells h.1)

CoversAll-padded :
    (extra : ℕ) (widths : List ℕ) (rows : List (List (List ℕ)))
    → CoversAll widths rows
    → CoversAll (padded extra widths) rows
CoversAll-padded extra widths [] h = tt
CoversAll-padded extra widths (row ∷ rows) h =
    (Covers-padded extra widths row h.0, CoversAll-padded extra widths rows h.1)

header_loop-IsLine :
    (extra full : ℕ) (widths : List ℕ) (row : List (List ℕ))
    → Covers widths row
    → length widths ≤ length row
    → full + full_width (padded extra widths) < size_mod
    → (head : List ℕ) × (header_loop extra full widths row
        ≡ some (head, padded extra widths, full + full_width (padded extra widths)))
      × IsLine (padded extra widths) row head
unfolding header_loop
header_loop-IsLine extra full [] [] h l b =
    let same : full ≡ full + 0 = omega arith in ([], rw (← same) refl, refl)
header_loop-IsLine extra full [] (cell ∷ cells) h l b = absurd h
header_loop-IsLine extra full (w ∷ widths) [] h l b = absurd (omega arith)
header_loop-IsLine extra full (w ∷ widths) (cell ∷ cells) h l b =
    let width : add_size w extra ≡ w + extra = mod-eq_of_lt (omega arith) in
    let next : add_size full (w + extra) ≡ full + (w + extra) = mod-eq_of_lt (omega arith) in
    let (rest, done, others) =
      header_loop-IsLine extra (full + (w + extra)) widths cells h.1 (omega arith) (omega arith) in
    let (before, behind, text, sum, low, high) = set_center_lem cell (w + extra) 32 in
    let least = h.0 in
    let total : before + length cell + behind ≡ w + extra = ground arith in
    let whole : full + (w + extra) + full_width (padded extra widths)
        ≡ full + (w + extra + full_width (padded extra widths)) =
      omega arith in
    rw (width, next, done, whole)
      (
        set_center cell (w + extra) 32 ++ rest,
        refl,
        (before, behind, rest, ap (λ xs. xs ++ rest) text, total, low, high, others),
      )

header_loop-narrow :
    (extra full : ℕ) (widths : List ℕ) (row : List (List ℕ))
    → length row < length widths
    → header_loop extra full widths row ≡ none
unfolding header_loop
header_loop-narrow extra full [] row l = absurd (omega arith)
header_loop-narrow extra full (w ∷ widths) [] l = refl
header_loop-narrow extra full (w ∷ widths) (cell ∷ cells) l =
    rw (header_loop-narrow extra (add_size full (add_size w extra)) widths cells (omega arith)) refl

first_row-Covers :
    (widths : List ℕ) (table : List (List (List ℕ)))
    → CoversAll widths table
    → Covers widths (first_row table)
unfolding first_row
first_row-Covers widths [] h = tt
first_row-Covers widths (row ∷ rows) h = h.0

drop-CoversAll :
    (widths : List ℕ) (table : List (List (List ℕ)))
    → CoversAll widths table
    → CoversAll widths (drop 1 table)
drop-CoversAll widths [] h = tt
drop-CoversAll widths (row ∷ rows) h = h.1

module _ (text : List ℕ) (extra line_char : ℕ) where
  abbrev table_of : List (List (List ℕ))
  table_of = (read_and_measure_table text).0

  abbrev widths_of : List ℕ
  widths_of = (read_and_measure_table text).1

  -- Where no row has more cells than the first one, and the whole width fits into a size, there are as
  -- many columns as the first row has cells, each as wide as its widest cell, and `tab2fixed` of a
  -- string returns: the first row, a rule of the whole width, and the other rows, each cell in the
  -- middle of its column with the extra spaces.
  pub tab2fixed_lem :
      AreNarrow (length (first_row table_of)) table_of
      → full_width (padded extra widths_of) < size_mod
      → (length widths_of ≡ length (first_row table_of))
        × ((j : ℕ) → get_or widths_of j 0 ≡ widest j table_of)
        × ((head : List ℕ) × (body : List ℕ) × (tab2fixed text extra line_char
              ≡ some (
                  head
                  ++ eol
                    ∷ (replicate (full_width (padded extra widths_of)) line_char ++ eol ∷ body)))
            × IsLine (padded extra widths_of) (first_row table_of) head
            × AreLines (padded extra widths_of) (drop 1 table_of) body)
  unfolding tab2fixed read_and_measure_table
  tab2fixed_lem narrow b =
      let covers = measure_rows-CoversAll table_of [] in
      let first = first_row-Covers widths_of table_of covers in
      let l = length-measure_rows (length (first_row table_of)) table_of [] (omega arith) narrow in
      let g = length-Covers widths_of (first_row table_of) first in
      let (head, made, is_line) =
        header_loop-IsLine extra 0 widths_of (first_row table_of) first l (omega arith) in
      let (body, done, lines) = format_rows-AreLines (padded extra widths_of) (drop 1 table_of) (
        CoversAll-padded extra widths_of (drop 1 table_of)
          (drop-CoversAll widths_of table_of covers)) in
      let whole : 0 + full_width (padded extra widths_of) ≡ full_width (padded extra widths_of) =
        omega arith in
      let size : length widths_of ≡ length (first_row table_of) = omega arith in
      let widths : (j : ℕ) → get_or widths_of j 0 ≡ widest j table_of =
        λ j. get_or-measure_rows j table_of [] ∙ max_zero (widest j table_of) in
      (size, widths, rw (made, done, whole) (head, body, refl, is_line, lines))

  -- Where a row has more cells than the first one, it reads behind the end of that row.
  pub tab2fixed-narrow :
      length (first_row table_of) < length widths_of → tab2fixed text extra line_char ≡ none
  unfolding tab2fixed read_and_measure_table
  tab2fixed-narrow l = rw (header_loop-narrow extra 0 widths_of (first_row table_of) l) refl
