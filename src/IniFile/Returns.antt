-- ===== src/IniFile/Returns.antt =====
-- Reading a file ends.
use crs.Base.{
  ℕ, zero, suc, ◌≤◌, ◌<◌, ◌≡◌, refl, Bool, true, false, Bool-cases, inl, inr, List, [], ◌∷◌, some,
  Option, arith, length, Yields, yields, Yields-bind, if◌then◌else◌, ◌>>=◌, ◌==◌,
}
use crs.IniFile.{
  eol, add_char, Item, trim, is_empty, is_header, hub_read, read_loop, read_file, lines,
}

hub_read-length : (stream : List (List ℕ)) → length (hub_read stream).2 ≤ length stream
unfolding hub_read is_empty
hub_read-length [] = omega arith
hub_read-length (buf ∷ stream) = let rest = hub_read-length stream in ground arith

abbrev Result : Option (List Item) → Type 0
Result r = Yields (λ items. is_empty items ≡ false) r

Result-if :
    (b : Bool) {x y : Option (List Item)}
    → (b ≡ true → Result x)
    → (b ≡ false → Result y)
    → Result (if b then x else y)
Result-if true f g = f refl
Result-if false f g = g refl

Result-cons :
    (x : Item) {m : Option (List Item)} → Result m → Result (m >>= λ items. some (x ∷ items))
unfolding is_empty
Result-cons x h = Yields-bind h (λ items p. yields refl)

length-nonempty : (stream : List (List ℕ)) → is_empty stream ≡ false → 0 < length stream
unfolding is_empty
length-nonempty [] h = cc
length-nonempty (buf ∷ stream) h = omega arith

read_loop-Yields :
    (fuel : ℕ) (stream : List (List ℕ))
    → length stream ≤ fuel
    → 0 < fuel
    → Result (read_loop fuel stream)
unfolding read_loop is_empty
read_loop-Yields zero stream h k = absurd (omega arith)
read_loop-Yields (suc fuel) [] h k = yields refl
read_loop-Yields (suc fuel) (buf ∷ stream) h k =
    let shorter = hub_read-length stream in
    let more = length-nonempty stream in
    Result-if (is_header (trim buf))
      (λ _.
        Result-if (is_empty stream) (λ _. yields refl)
          (λ e.
            let left = more e in
            Result-if (hub_read stream).1 (λ _. yields refl)
              (λ _.
                Result-cons _
                  (read_loop-Yields fuel (hub_read stream).2 (omega arith) (omega arith)))))
      (λ _.
        Result-if (is_empty stream) (λ _. yields refl)
          (λ e.
            let left = more e in
            Result-cons _ (read_loop-Yields fuel stream (omega arith) (omega arith))))

add_char-nonempty : (c : ℕ) (ls : List (List ℕ)) → 0 < length (add_char c ls)
unfolding add_char
add_char-nonempty c [] = omega arith
add_char-nonempty c (l ∷ ls) = omega arith

lines-nonempty : (text : List ℕ) → 0 < length (lines text)
unfolding lines add_char
lines-nonempty [] = omega arith
lines-nonempty (c ∷ text) = elim (Bool-cases (c == eol)) [
  | inl q ↦ rw q (omega arith)
  | inr q ↦ rw q (add_char-nonempty c (lines text))
]

-- `cINIFile::read` ends on every text, and it appends at least one entry.
pub read_file-returns : (text : List ℕ) → Yields (λ items. is_empty items ≡ false) (read_file text)
unfolding read_file
read_file-returns text =
    read_loop-Yields (length (lines text)) (lines text) (omega arith) (lines-nonempty text)
