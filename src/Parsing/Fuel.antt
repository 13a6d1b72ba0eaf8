-- ===== src/Parsing/Fuel.antt =====
-- The fuel of `tab2fixed` for streams.
use crs.Base.{
  ℕ, zero, suc, ◌+◌, ◌<◌, ◌≡◌, refl, inl, inr, List, Option, none, some, arith, length,
  Option-cases,
}
use crs.Parsing.Table.{getline, eol, vertical_tab, table_text, tab2fixed_stream}
use crs.Parsing.Plain.{getline-shorter}

-- what is left behind a line and, where it begins one, a table
abbrev pub IsShorter : ℕ → Option (List ℕ) → Type 0
IsShorter n none = Unit
IsShorter n (some s) = length s < n

getline-IsShorter :
    (delim : ℕ) (s : List ℕ) (n : ℕ) → length s < suc n → IsShorter n (getline delim s).1
getline-IsShorter delim s n l = elim (Option-cases (getline delim s).1) [
  | inl e ↦ rw e tt
  | inr (rest, e) ↦ (let less = getline-shorter delim s rest e in rw e (omega arith))
]

table_text-IsShorter :
    (line : List ℕ) (rest : Option (List ℕ)) (n : ℕ)
    → IsShorter n rest
    → IsShorter n (table_text line rest).1
unfolding table_text
table_text-IsShorter line none n h = tt
table_text-IsShorter line (some s) n h = getline-IsShorter vertical_tab s n (omega arith)

-- More fuel than there are characters changes nothing.
pub tab2fixed_stream-fuel :
    (fuel more : ℕ) (s : Option (List ℕ)) (tab_size extra line_char : ℕ)
    → IsShorter fuel s
    → tab2fixed_stream (fuel + more) s tab_size extra line_char
      ≡ tab2fixed_stream fuel s tab_size extra line_char
unfolding tab2fixed_stream
tab2fixed_stream-fuel fuel more none tab_size extra line_char h = refl
tab2fixed_stream-fuel zero more (some s) tab_size extra line_char h = absurd (omega arith)
tab2fixed_stream-fuel (suc fuel) more (some s) tab_size extra line_char h =
    let left : IsShorter fuel (getline eol s).1 = getline-IsShorter eol s fuel h in
    let behind = table_text-IsShorter (getline eol s).0 (getline eol s).1 fuel left in
    let plain = tab2fixed_stream-fuel fuel more (getline eol s).1 tab_size extra line_char left in
    let table =
      tab2fixed_stream-fuel fuel more (table_text (getline eol s).0 (getline eol s).1).1 tab_size
        extra line_char behind in
    let step : suc fuel + more ≡ suc (fuel + more) = omega arith in rw step (rw (plain, table) refl)
