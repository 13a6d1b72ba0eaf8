-- ===== src/Parsing/Text.antt =====
-- `setCenter`, `smart_numeral` and `search_forward`.
use mathlib.Core.List.{append-nil, append_assoc}
use crs.Base.{
  lt→ltb, ==_refl, ltb→le, ℕ, suc, ◌+◌, ◌-◌, ◌/◌, ◌%◌, ◌≤◌, ◌<◌, ◌≡◌, refl, sym, ap, ◌∙◌, true,
  List, [], ◌∷◌, ◌++◌, some, arith, ltb, ◌==◌, ◌&&◌, if◌then◌else◌, length, get_or-append_end,
  replicate, length-append, length-replicate, Bool-cases, inl, inr,
}
use crs.Parsing.{set_center, th, suffix_of, numbered, smart_numeral, search_loop, search_forward}

-- `setCenter` fills the field: the text stands in it with half of the free places, rounded down,
-- before it and the others behind it; a text longer than the field is left as it is.
pub set_center_lem :
    (str : List ℕ) (width fill_char : ℕ)
    → (before : ℕ) × (behind : ℕ) × (set_center str width fill_char
        ≡ (replicate before fill_char ++ str) ++ replicate behind fill_char)
      × (before + length str + behind ≡ (if ltb width (length str) then length str else width))
      × (before ≤ behind)
      × (behind ≤ before + 1)
unfolding set_center
set_center_lem str width fill_char = elim (Bool-cases (ltb width (length str))) [
  | inl q ↦ rw q (0, 0, sym (append-nil str), omega arith, omega arith, omega arith)
  | inr q ↦
      let rest = width - length str in
      let size = length-append (replicate (rest / 2) fill_char) str in
      let padding = length-replicate (rest / 2) fill_char in
      let result = replicate (rest / 2) fill_char ++ str in
      let fits = ltb→le width (length str) q in
      rw q (rest / 2, width - length result, refl, omega arith, omega arith, omega arith)
]

-- For a positive number, smart_numeral chooses the suffix by the last digit, but for the numbers
-- that end in 11, 12 or 13.
pub smart_numeral_lem :
    (num : ℕ)
    → 0 < num
    → smart_numeral num
      ≡ numbered num (if ltb 10 (num % 100) && ltb (num % 100) 14 then th else suffix_of (num % 10))
unfolding smart_numeral suffix_of
smart_numeral_lem num h = ground arith

-- with the first `m` characters taken for a match, the rest of the sample is found where it stands
search_loop-match :
    (w v stream : List ℕ) (pos : ℕ)
    → search_loop (w ++ v) (v ++ stream) (length w) pos ≡ (length (w ++ v), pos + length v)
unfolding search_loop
search_loop-match w [] [] pos = rw (append-nil w) (ap (λ k. (length w, k)) (omega arith))
search_loop-match w [] (c ∷ stream) pos = rw (append-nil w) (ground arith)
search_loop-match w (y ∷ v) stream pos =
    let room : ltb (length w) (length (w ++ y ∷ v)) ≡ true =
      lt→ltb _ _ (omega (arith, length-append w (y ∷ v))) in
    let further = search_loop-match (w ++ y ∷ []) v stream (pos + 1) in
    let grown : search_loop (w ++ y ∷ v) (v ++ stream) (length w + 1) (pos + 1)
        ≡ (length (w ++ y ∷ v), pos + 1 + length v) =
      rw (append_assoc w (y ∷ []) v, length-append w (y ∷ [])) at further in
    rw (room, get_or-append_end w v y 0, ==_refl y)
      (grown ∙ ap (λ k. (length (w ++ y ∷ v), k)) (omega arith))

-- `search_forward` finds a sample at the start of the stream whatever the first character is: it
-- takes the character of a mismatch for the first one of the sample.
pub search_forward-first :
    (x c : ℕ) (w stream : List ℕ) → search_forward (c ∷ (w ++ stream)) (x ∷ w) ≡ some 0
unfolding search_forward search_loop
search_forward-first x c w stream =
    let found = search_loop-match (x ∷ []) w stream 1 in
    let forgotten : ◌≡◌ {A = ℕ} (if c == x then 0 else 0) 0 = elim (Bool-cases (c == x)) [
      | inl q ↦ rw q
      | inr q ↦ rw q
    ] in
    let room : ltb 0 (suc (length w)) ≡ true = lt→ltb _ _ (omega arith) in
    rw (room, forgotten, found) (ground arith)
