-- ===== src/Parsing/Table.antt =====
-- crs/parsing.h and crs/parsing.cpp: `readAndMeasureTable` and the two versions of `tab2fixed`. A
-- stream is what is left to read, and `none` where the end of the file was met.
use crs.Base.{
  ℕ, zero, suc, Bool, false, List, [], ◌∷◌, ◌++◌, Option, none, some, ltb, ◌==◌, if◌then◌else◌,
  ◌>>=◌, length, drop, replicate, is_empty, add_size, map,
}
use crs.Parsing.{set_center}

abbrev pub tab : ℕ
tab = 9

abbrev pub eol : ℕ
eol = 10

abbrev pub vertical_tab : ℕ
vertical_tab = 11

abbrev pub carriage_return : ℕ
carriage_return = 13

-- `getline` of a good stream: the characters up to the delimiter, and the stream behind it
unfoldable pub getline : ℕ → List ℕ → List ℕ × Option (List ℕ)
getline delim [] = ([], none)
getline delim (c ∷ s) =
    let (line, rest) = getline delim s in if c == delim then ([], some s) else (c ∷ line, rest)

-- all that `getline` gives one by one, for a loop without a break
unfoldable pub fields : ℕ → List ℕ → List (List ℕ)
fields delim [] = [] ∷ []
fields delim (c ∷ s) =
    let rest = fields delim s in
    let more : List (List ℕ) = elim rest [
      | [] ↦ (c ∷ []) ∷ []
      | line ∷ others ↦ (c ∷ line) ∷ others
    ] in
    if c == delim then [] ∷ rest else more

-- the same, for a loop that breaks where the last one is empty
unfoldable pub drop_last_empty : List (List ℕ) → List (List ℕ)
drop_last_empty [] = []
drop_last_empty (line ∷ others) =
    let rest = line ∷ drop_last_empty others in
    let last = if is_empty line then [] else line ∷ [] in if is_empty others then last else rest

-- `convert`: `substr (0, find ('\r'))`
unfoldable pub convert : List ℕ → List ℕ
convert [] = []
convert (c ∷ s) = if c == carriage_return then [] else c ∷ convert s

unfoldable pub read_row : List ℕ → List (List ℕ)
read_row line = map convert (drop_last_empty (fields tab line))

-- the widths of the columns behind a row
unfoldable pub widen : List ℕ → List (List ℕ) → List ℕ
widen widths [] = widths
widen [] (cell ∷ cells) = length cell ∷ widen [] cells
widen (w ∷ widths) (cell ∷ cells) =
    (if ltb w (length cell) then length cell else w) ∷ widen widths cells

unfoldable pub measure_rows : List ℕ → List (List (List ℕ)) → List ℕ
measure_rows widths [] = widths
measure_rows widths (row ∷ rows) = measure_rows (widen widths row) rows

-- `readAndMeasureTable`: the table and the widths of its columns
unfoldable pub read_and_measure_table : List ℕ → List (List (List ℕ)) × List ℕ
read_and_measure_table text =
    let table = map read_row (drop_last_empty (fields eol text)) in (table, measure_rows [] table)

-- `table [0]`, where there is a column
unfoldable pub first_row : List (List (List ℕ)) → List (List ℕ)
first_row [] = []
first_row (row ∷ rows) = row

-- The first loop of `tab2fixed`: what it writes, the widths with the extra spaces, and
-- `nFullWidth`. The first row may have fewer cells than there are columns: that is `none`.
unfoldable pub header_loop : ℕ → ℕ → List ℕ → List (List ℕ) → Option (List ℕ × List ℕ × ℕ)
header_loop extra full [] cells = some ([], [], full)
header_loop extra full (w ∷ widths) [] = none
header_loop extra full (w ∷ widths) (cell ∷ cells) =
    let width = add_size w extra in
    header_loop extra (add_size full width) widths cells >>= λ (out, padded, total).
    some (set_center cell width 32 ++ out, width ∷ padded, total)

unfoldable pub format_row : List ℕ → List (List ℕ) → Option (List ℕ)
format_row widths [] = some []
format_row [] (cell ∷ cells) = none
format_row (w ∷ widths) (cell ∷ cells) =
    format_row widths cells >>= λ out. some (set_center cell w 32 ++ out)

unfoldable pub format_rows : List ℕ → List (List (List ℕ)) → Option (List ℕ)
format_rows widths [] = some []
format_rows widths (row ∷ rows) =
    format_row widths row >>= λ line. format_rows widths rows >>= λ out. some (line ++ eol ∷ out)

-- `tab2fixed` of a string
unfoldable pub tab2fixed : List ℕ → ℕ → ℕ → Option (List ℕ)
tab2fixed text extra line_char =
    let (table, widths) = read_and_measure_table text in
    header_loop extra 0 widths (first_row table) >>= λ (head, padded, full).
    format_rows padded (drop 1 table) >>= λ body.
    some (head ++ eol ∷ (replicate full line_char ++ eol ∷ body))

-- `lineBuffer [0] == '\v'`; the first character of an empty string is a null character
unfoldable pub starts_table : List ℕ → Bool
starts_table [] = false
starts_table (c ∷ line) = c == vertical_tab

unfoldable pub expand_tabs : ℕ → List (List ℕ) → List ℕ
expand_tabs tab_size [] = []
expand_tabs tab_size (field ∷ others) =
    if is_empty others
    then field
    else field ++ (replicate tab_size 32 ++ expand_tabs tab_size others)

-- the text of a table: where the file has ended, `getline` leaves the line as it is
unfoldable pub table_text : List ℕ → Option (List ℕ) → List ℕ × Option (List ℕ)
table_text line none = (line, none)
table_text line (some stream) = getline vertical_tab stream

-- `tab2fixed` of a stream, on fuel
unfoldable pub tab2fixed_stream : ℕ → Option (List ℕ) → ℕ → ℕ → ℕ → Option (List ℕ)
tab2fixed_stream fuel none tab_size extra line_char = some []
tab2fixed_stream zero (some stream) tab_size extra line_char = none
tab2fixed_stream (suc fuel) (some stream) tab_size extra line_char =
    let (line, rest) = getline eol stream in
    let ended : Bool = elim rest [ none ↦ is_empty line | some s ↦ false ] in
    let (text, behind) = table_text line rest in
    let table = tab2fixed text extra line_char >>= λ out.
    tab2fixed_stream fuel behind tab_size extra line_char >>= λ others. some (out ++ others) in
    let plain = tab2fixed_stream fuel rest tab_size extra line_char >>= λ others.
    some (expand_tabs tab_size (fields tab line) ++ eol ∷ others) in
    if ended then some [] else if starts_table line then table else plain
