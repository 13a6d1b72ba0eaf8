-- ===== src/Parsing/Plain.antt =====
-- `tab2fixed` of a stream without tables.
use crs.Base.{
  ℕ, zero, suc, ◌<◌, ◌≡◌, refl, inl, inr, true, false, List, [], ◌∷◌, ◌++◌, Option, none, some,
  arith, ◌==◌, length, is_empty, some_inj, Bool-cases, Option-cases,
}
use crs.Parsing.Table.{
  tab, eol, getline, fields, drop_last_empty, starts_table, expand_tabs, tab2fixed_stream,
}

-- the lines with their tabs expanded, each with its end
abbrev pub expanded : ℕ → List (List ℕ) → List ℕ
expanded tab_size [] = []
expanded tab_size (line ∷ others) =
    expand_tabs tab_size (fields tab line) ++ eol ∷ expanded tab_size others

abbrev pub NoTable : List (List ℕ) → Type 0
NoTable [] = Unit
NoTable (line ∷ others) = (starts_table line ≡ false) × NoTable others

rest_fields : ℕ → Option (List ℕ) → List (List ℕ)
rest_fields delim none = []
rest_fields delim (some s) = fields delim s

fields-getline :
    (delim : ℕ) (s : List ℕ)
    → fields delim s ≡ (getline delim s).0 ∷ rest_fields delim (getline delim s).1
unfolding fields getline rest_fields
fields-getline delim [] = refl
fields-getline delim (c ∷ s) = elim (Bool-cases (c == delim)) [
  | inl q ↦ rw q refl
  | inr q ↦ rw (q, fields-getline delim s) refl
]

pub getline-shorter :
    (delim : ℕ) (s rest : List ℕ) → (getline delim s).1 ≡ some rest → length rest < length s
unfolding getline
getline-shorter delim [] rest e = cc
getline-shorter delim (c ∷ s) rest e = elim (Bool-cases (c == delim)) [
  | inl q ↦ (let same : s ≡ rest = some_inj (rw q at e) in rw (← same) (omega arith))
  | inr q ↦ (let less = getline-shorter delim s rest (rw q at e) in omega arith)
]

is_empty-nil : is_empty {A = List ℕ} [] ≡ true
unfolding is_empty
is_empty-nil = refl

is_empty-cons : (line : List ℕ) (others : List (List ℕ)) → is_empty (line ∷ others) ≡ false
unfolding is_empty
is_empty-cons line others = refl

-- Where no line begins with a vertical tab, `tab2fixed` of a stream returns, and writes the lines one
-- after the other, with spaces for their tabs; an end of line behind the last one makes no line more.
pub tab2fixed_stream-plain :
    (fuel : ℕ) (s : List ℕ) (tab_size extra line_char : ℕ)
    → length s < fuel
    → NoTable (fields eol s)
    → tab2fixed_stream fuel (some s) tab_size extra line_char
      ≡ some (expanded tab_size (drop_last_empty (fields eol s)))
unfolding tab2fixed_stream drop_last_empty rest_fields
tab2fixed_stream-plain zero s tab_size extra line_char l h = absurd (omega arith)
tab2fixed_stream-plain (suc fuel) s tab_size extra line_char l h =
    let cut = fields-getline eol s in
    let plain = rw cut at h in
    elim (Option-cases (getline eol s).1) [
      | inl e ↦ elim (Bool-cases (is_empty (getline eol s).0)) [
        | inl q ↦ rw (cut, e, is_empty-nil, q) refl
        | inr q ↦ rw (cut, e, is_empty-nil, q, plain.0) refl
      ]
      | inr (rest, e) ↦
          let tail : NoTable (fields eol rest) = rw e at plain.1 in
          let others =
            tab2fixed_stream-plain fuel rest tab_size extra line_char
              (let less = getline-shorter eol s rest e in omega arith) tail in
          let further = fields-getline eol rest in
          let full : is_empty (fields eol rest) ≡ false =
            rw further
              (is_empty-cons (getline eol rest).0 (rest_fields eol (getline eol rest).1)) in
          rw (cut, e, full, plain.0, others) refl
    ]
