-- ===== src/CmdLine/Scripts.antt =====
-- The tokens of a script.
use mathlib.Core.List.{append-nil, append_assoc}
use crs.Base.{
  ℕ, zero, suc, ◌+◌, ◌≤◌, ◌≡◌, refl, ◌∙◌, false, List, [], ◌∷◌, ◌++◌, Option, none, some, arith,
  ◌==◌, Bool-cases, inl, inr, ltb, ltb→lt, ltb→le, length, is_empty,
}
use crs.Parsing.{isspace, double_quote}
use crs.Parsing.Tokens.{AreSpaces, IsPlain}
use crs.Parsing.Stream.{scan_stream-end, scan_stream-plain, scan_stream-quoted, scan_stream-short}
use crs.CmdLine.{script_preffix, pprocess_loop, char_at}

-- a word without spaces and quotes, and without the mark of a script at its start
pub record IsWord (w : List ℕ) : Type 0 where
  pub plain : IsPlain isspace w
  pub nonempty : is_empty w ≡ false
  pub unmarked : char_at w 0 == script_preffix ≡ false

abbrev pub AllWords : List (List ℕ) → Type 0
AllWords [] = Unit
AllWords (w ∷ words) = IsWord w × AllWords words

-- a script: the words with a space behind each, and then `tail`
unfoldable pub script_text : List (List ℕ) → List ℕ → List ℕ
script_text [] tail = tail
script_text (w ∷ words) tail = w ++ 32 ∷ script_text words tail

-- the fuel for the words: a token for each, and the characters of the longest
unfoldable pub script_fuel : List (List ℕ) → ℕ
script_fuel [] = 3
script_fuel (w ∷ words) = suc (length w + script_fuel words)

script_fuel-least : (words : List (List ℕ)) → 3 ≤ script_fuel words
unfolding script_fuel
script_fuel-least [] = omega arith
script_fuel-least (w ∷ words) = omega (arith, script_fuel-least words)

module _ (subscript_file : List ℕ → Option (List ℕ)) where
  -- `pprocess` pushes the words of a script that an empty pair of quotes ends.
  pub pprocess_loop-words :
      (words : List (List ℕ)) (rest : List ℕ) (script : List (List ℕ)) (fuel : ℕ) (p : List ℕ)
      → AllWords words
      → AreSpaces p
      → script_fuel words ≤ fuel
      → pprocess_loop subscript_file fuel
          (p ++ script_text words (double_quote ∷ double_quote ∷ rest))
          script
        ≡ some (record { tokens = script ++ words; err_open = none })
  unfolding pprocess_loop is_empty script_text script_fuel
  pprocess_loop-words words rest script zero p h k f =
      absurd (omega (arith, script_fuel-least words))
  pprocess_loop-words [] rest script (suc fuel) p h k f =
      rw (scan_stream-quoted p [] rest fuel k tt (omega arith), append-nil script)
  pprocess_loop-words ([] ∷ words) rest script (suc fuel) p h k f =
      let empty = h.0.nonempty in absurd cc
  pprocess_loop-words ((x ∷ w) ∷ words) rest script (suc fuel) p h k f =
      let least = script_fuel-least words in
      let tail = script_text words (double_quote ∷ double_quote ∷ rest) in
      let further =
        pprocess_loop-words words rest (script ++ (x ∷ w) ∷ []) fuel (32 ∷ []) h.1 (refl, tt)
          (omega arith) in
      rw (scan_stream-plain p x w 32 tail fuel k h.0.plain (refl, refl) (omega arith), h.0.unmarked)
        (further ∙ rw (append_assoc script ((x ∷ w) ∷ []) words))

  -- A script of such words, each with a space behind it, that no empty pair of quotes ends: `pprocess`
  -- does not come back, whatever its fuel.
  pub pprocess_loop-end :
      (words : List (List ℕ)) (script : List (List ℕ)) (fuel : ℕ) (p : List ℕ)
      → AllWords words
      → AreSpaces p
      → pprocess_loop subscript_file fuel (p ++ script_text words []) script ≡ none
  unfolding pprocess_loop is_empty script_text
  pprocess_loop-end words script zero p h k = refl
  pprocess_loop-end [] script (suc fuel) p h k = rw (append-nil p, scan_stream-end fuel p k)
  pprocess_loop-end ([] ∷ words) script (suc fuel) p h k = let empty = h.0.nonempty in absurd cc
  pprocess_loop-end ((x ∷ w) ∷ words) script (suc fuel) p h k =
      elim (Bool-cases (ltb fuel (length w + 2))) [
        | inl q ↦
            rw (scan_stream-short p x w 32 (script_text words []) fuel k h.0.plain (ltb→lt _ _ q))
        | inr q ↦
            rw
              (
                scan_stream-plain p x w 32 (script_text words []) fuel k h.0.plain (refl, refl)
                    (ltb→le _ _ q),
                h.0.unmarked,
              )
              (pprocess_loop-end words (script ++ (x ∷ w) ∷ []) fuel (32 ∷ []) h.1 (refl, tt))
      ]
