-- ===== src/Parsing/Widths.antt =====
-- The widths of the columns that `readAndMeasureTable` measures.
use crs.Base.{
  zero, suc, get_or, ltb, if◌then◌else◌, ℕ, ◌≤◌, ◌≡◌, refl, List, [], ◌∷◌, arith, length,
}
use crs.Parsing.Table.{widen, measure_rows}

-- every cell of the row has a column that it fits into
abbrev pub Covers : List ℕ → List (List ℕ) → Type 0
Covers widths [] = Unit
Covers [] (cell ∷ cells) = ⊥
Covers (w ∷ widths) (cell ∷ cells) = (length cell ≤ w) × Covers widths cells

abbrev pub CoversAll : List ℕ → List (List (List ℕ)) → Type 0
CoversAll widths [] = Unit
CoversAll widths (row ∷ rows) = Covers widths row × CoversAll widths rows

widen-Covers : (widths : List ℕ) (row : List (List ℕ)) → Covers (widen widths row) row
unfolding widen
widen-Covers widths [] = tt
widen-Covers [] (cell ∷ cells) = (omega arith, widen-Covers [] cells)
widen-Covers (w ∷ widths) (cell ∷ cells) = (ground arith, widen-Covers widths cells)

widen-keeps :
    (widths : List ℕ) (row old : List (List ℕ)) → Covers widths old → Covers (widen widths row) old
unfolding widen
widen-keeps widths row [] h = tt
widen-keeps widths [] (c ∷ old) h = h
widen-keeps [] (cell ∷ cells) (c ∷ old) h = absurd h
widen-keeps (w ∷ widths) (cell ∷ cells) (c ∷ old) h =
    let least = h.0 in (ground arith, widen-keeps widths cells old h.1)

measure_rows-keeps :
    (rows : List (List (List ℕ))) (widths : List ℕ) (old : List (List ℕ))
    → Covers widths old
    → Covers (measure_rows widths rows) old
unfolding measure_rows
measure_rows-keeps [] widths old h = h
measure_rows-keeps (row ∷ rows) widths old h =
    measure_rows-keeps rows (widen widths row) old (widen-keeps widths row old h)

pub measure_rows-CoversAll :
    (rows : List (List (List ℕ))) (widths : List ℕ) → CoversAll (measure_rows widths rows) rows
unfolding measure_rows
measure_rows-CoversAll [] widths = tt
measure_rows-CoversAll (row ∷ rows) widths = (
  measure_rows-keeps rows (widen widths row) row (widen-Covers widths row),
  measure_rows-CoversAll rows (widen widths row),
)

-- the length of the cell of a row in the `j`-th column, or 0 where it has none
abbrev pub cell_width : ℕ → List (List ℕ) → ℕ
cell_width j [] = 0
cell_width zero (cell ∷ cells) = length cell
cell_width (suc j) (cell ∷ cells) = cell_width j cells

-- the length of the widest cell in the `j`-th column
unfoldable pub widest : ℕ → List (List (List ℕ)) → ℕ
widest j [] = 0
widest j (row ∷ rows) =
    if ltb (widest j rows) (cell_width j row) then cell_width j row else widest j rows

-- the row has no more cells than `n`
abbrev pub AreNarrow : ℕ → List (List (List ℕ)) → Type 0
AreNarrow n [] = Unit
AreNarrow n (row ∷ rows) = (length row ≤ n) × AreNarrow n rows

abbrev max : ℕ → ℕ → ℕ
max a b = if ltb a b then b else a

pub max_zero : (b : ℕ) → (if ltb 0 b then b else 0) ≡ b
max_zero b = ground arith

get_or-widen :
    (j : ℕ) (widths : List ℕ) (row : List (List ℕ))
    → get_or (widen widths row) j 0 ≡ max (get_or widths j 0) (cell_width j row)
unfolding widen
get_or-widen j widths [] = ground arith
get_or-widen zero [] (cell ∷ cells) = ground arith
get_or-widen (suc j) [] (cell ∷ cells) = get_or-widen j [] cells
get_or-widen zero (w ∷ widths) (cell ∷ cells) = refl
get_or-widen (suc j) (w ∷ widths) (cell ∷ cells) = get_or-widen j widths cells

pub get_or-measure_rows :
    (j : ℕ) (rows : List (List (List ℕ))) (widths : List ℕ)
    → get_or (measure_rows widths rows) j 0 ≡ max (get_or widths j 0) (widest j rows)
unfolding measure_rows widest
get_or-measure_rows j [] widths = ground arith
get_or-measure_rows j (row ∷ rows) widths =
    let one = get_or-widen j widths row in
    let others = get_or-measure_rows j rows (widen widths row) in ground arith

length-widen :
    (n : ℕ) (widths : List ℕ) (row : List (List ℕ))
    → length widths ≤ n
    → length row ≤ n
    → length (widen widths row) ≤ n
unfolding widen
length-widen n widths [] h l = h
length-widen zero widths (cell ∷ cells) h l = absurd (omega arith)
length-widen (suc n) [] (cell ∷ cells) h l =
    omega (arith, length-widen n [] cells (omega arith) (omega arith))
length-widen (suc n) (w ∷ widths) (cell ∷ cells) h l =
    omega (arith, length-widen n widths cells (omega arith) (omega arith))

pub length-measure_rows :
    (n : ℕ) (rows : List (List (List ℕ))) (widths : List ℕ)
    → length widths ≤ n
    → AreNarrow n rows
    → length (measure_rows widths rows) ≤ n
unfolding measure_rows
length-measure_rows n [] widths h l = h
length-measure_rows n (row ∷ rows) widths h l =
    length-measure_rows n rows (widen widths row) (length-widen n widths row h l.0) l.1

pub length-Covers :
    (widths : List ℕ) (row : List (List ℕ)) → Covers widths row → length row ≤ length widths
length-Covers widths [] h = omega arith
length-Covers [] (cell ∷ cells) h = absurd h
length-Covers (w ∷ widths) (cell ∷ cells) h = omega (arith, length-Covers widths cells h.1)
