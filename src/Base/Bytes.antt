-- ===== src/Base/Bytes.antt =====
-- `memcpy` into a buffer, which is a list.
use mathlib.Core.Path.{◌≡◌, refl, sym, ap, ap₂, ◌∙◌}
use mathlib.Core.List.{List, [], ◌∷◌, ◌++◌}
use Prim.Native.Nat.{ℕ, zero, suc, ◌+◌, ◌≤◌}
use native.Mathlib.Omega.{arith}
use crs.Base.Arrays.{length, take, drop, length-append, length-take, length-drop, take-append}

module _ {A : Type 0} where
  -- `memcpy (contents + at, bytes, length bytes)`
  abbrev pub overwrite : ℕ → List A → List A → List A
  overwrite at bytes contents = take at contents ++ (bytes ++ drop (at + length bytes) contents)

  pub length-overwrite :
      (at : ℕ) (bytes contents : List A)
      → at + length bytes ≤ length contents
      → length (overwrite at bytes contents) ≡ length contents
  length-overwrite at bytes contents l = omega (
    arith,
    length-append (take at contents) (bytes ++ drop (at + length bytes) contents),
    length-append bytes (drop (at + length bytes) contents),
    length-take at contents (omega arith),
    length-drop (at + length bytes) contents,
  )

  pub drop_all : (n : ℕ) (xs : List A) → length xs ≤ n → drop n xs ≡ []
  drop_all zero [] l = refl
  drop_all (suc n) [] l = refl
  drop_all zero (x ∷ xs) l = absurd (omega arith)
  drop_all (suc n) (x ∷ xs) l = drop_all n xs (omega arith)

  take-nil : (k : ℕ) → take {A = A} k [] ≡ []
  take-nil zero = refl
  take-nil (suc k) = refl

  pub take-more : (v n : ℕ) (p : List A) → take v p ++ take n (drop v p) ≡ take (v + n) p
  take-more zero n p = ap (λ k. take k p) (omega arith)
  take-more (suc v) zero [] = sym (take-nil (suc v + 0))
  take-more (suc v) (suc n) [] = sym (take-nil (suc v + suc n))
  take-more (suc v) n (b ∷ p) =
      let size : suc (v + n) ≡ suc v + n = omega arith in
      ap (◌∷◌ b) (take-more v n p) ∙ ap (λ k. take k (b ∷ p)) size

  drop-nil : (k : ℕ) → drop {A = A} k [] ≡ []
  drop-nil zero = refl
  drop-nil (suc k) = refl

  pub drop-more : (v n : ℕ) (p : List A) → drop n (drop v p) ≡ drop (v + n) p
  drop-more zero n p = ap (λ k. drop k p) (omega arith)
  drop-more (suc v) zero [] = sym (drop-nil (suc v + 0))
  drop-more (suc v) (suc n) [] = sym (drop-nil (suc v + suc n))
  drop-more (suc v) n (b ∷ p) =
      let size : suc (v + n) ≡ suc v + n = omega arith in
      drop-more v n p ∙ ap (λ k. drop k (b ∷ p)) size

  pub length-nil : (xs : List A) → length xs ≡ 0 → xs ≡ []
  length-nil [] e = refl
  length-nil (x ∷ xs) e = absurd (omega arith)

  pub drop-take_append : (k : ℕ) (xs ys : List A) → k ≤ length xs → drop k (take k xs ++ ys) ≡ ys
  drop-take_append zero xs ys l = refl
  drop-take_append (suc k) [] ys l = absurd (omega arith)
  drop-take_append (suc k) (x ∷ xs) ys l = drop-take_append k xs ys (omega arith)

  pub take-take_append :
      (n k : ℕ) (xs ys : List A) → n ≤ k → k ≤ length xs → take n (take k xs ++ ys) ≡ take n xs
  take-take_append zero k xs ys l h = refl
  take-take_append (suc n) zero xs ys l h = absurd (omega arith)
  take-take_append (suc n) (suc k) [] ys l h = absurd (omega arith)
  take-take_append (suc n) (suc k) (x ∷ xs) ys l h =
      ap (◌∷◌ x) (take-take_append n k xs ys (omega arith) (omega arith))

  pub take-overwrite_before :
      (n m at : ℕ) (bytes contents : List A)
      → m + n ≤ at
      → at + length bytes ≤ length contents
      → take n (drop m (overwrite at bytes contents)) ≡ take n (drop m contents)
  take-overwrite_before n m at bytes contents l h =
      before m at contents (bytes ++ drop (at + length bytes) contents) l (omega arith)
    where
      before :
          (m k : ℕ) (xs ys : List A)
          → m + n ≤ k
          → k ≤ length xs
          → take n (drop m (take k xs ++ ys)) ≡ take n (drop m xs)
      before zero k xs ys l h = take-take_append n k xs ys (omega arith) h
      before (suc m) zero xs ys l h = absurd (omega arith)
      before (suc m) (suc k) [] ys l h = absurd (omega arith)
      before (suc m) (suc k) (x ∷ xs) ys l h = before m k xs ys (omega arith) (omega arith)

  drop_over :
      (m : ℕ) (bytes xs : List A)
      → length bytes ≤ m
      → length bytes ≤ length xs
      → drop m (bytes ++ drop (length bytes) xs) ≡ drop m xs
  drop_over m [] xs l h = refl
  drop_over zero (b ∷ bytes) xs l h = absurd (omega arith)
  drop_over (suc m) (b ∷ bytes) [] l h = absurd (omega arith)
  drop_over (suc m) (b ∷ bytes) (x ∷ xs) l h = drop_over m bytes xs (omega arith) (omega arith)

  pub drop-overwrite_behind :
      (m at : ℕ) (bytes contents : List A)
      → at + length bytes ≤ m
      → at + length bytes ≤ length contents
      → drop m (overwrite at bytes contents) ≡ drop m contents
  drop-overwrite_behind m zero bytes contents l h =
      rw (zero_add (length bytes)) (drop_over m bytes contents (omega arith) (omega arith))
    where
      zero_add : (n : ℕ) → 0 + n ≡ n
      zero_add n = omega arith
  drop-overwrite_behind zero (suc at) bytes contents l h = absurd (omega arith)
  drop-overwrite_behind (suc m) (suc at) bytes [] l h = absurd (omega arith)
  drop-overwrite_behind (suc m) (suc at) bytes (x ∷ xs) l h =
      let next : suc at + length bytes ≡ suc (at + length bytes) = omega arith in
      rw next (drop-overwrite_behind m at bytes xs (omega arith) (omega arith))

  pub drop-append_more : (xs ys : List A) (n : ℕ) → drop (length xs + n) (xs ++ ys) ≡ drop n ys
  drop-append_more [] ys n = let size : 0 + n ≡ n = omega arith in ap (λ k. drop k ys) size
  drop-append_more (x ∷ xs) ys n =
      let size : length (x ∷ xs) + n ≡ suc (length xs + n) = omega arith in
      ap (λ k. drop k (x ∷ xs ++ ys)) size ∙ drop-append_more xs ys n

  -- `memcpy` behind `xs`
  pub overwrite-append :
      (xs bytes ys : List A)
      → overwrite (length xs) bytes (xs ++ ys) ≡ xs ++ (bytes ++ drop (length bytes) ys)
  overwrite-append xs bytes ys =
      ap₂ ◌++◌ (take-append xs ys) (ap (◌++◌ bytes) (drop-append_more xs ys (length bytes)))
