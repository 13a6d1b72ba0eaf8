-- ===== src/Base/Arrays.antt =====
-- `std::vector` as a list under native indices. A read or a write out of range is `none`.
use Prim.Native.Nat.{ℕ, zero, suc, ◌+◌, ◌-◌, ◌≤◌, ◌<◌}
use mathlib.Core.Path.{◌≡◌, refl, ap, ◌∙◌}
use mathlib.Core.Logic.{∥∥₁_elim}
use mathlib.Core.Bool.{Bool, true, false}
use mathlib.Core.Option.{Option, none, some}
use mathlib.Core.List.{List, [], ◌∷◌, ◌++◌, Perm, Permᴰ, perm_middle, append-nil}
use mathlib.Core.List.Perm
use native.Mathlib.Omega.{arith}
use native.Mathlib.Nat.{ℕ_set}
use crs.Base.Tests.{◌==◌, if◌then◌else◌, ◌>>=◌}

module _ {ℓ} {A : Type ℓ} where
  abbrev pub length : List A → ℕ
  length [] = 0
  length (x ∷ xs) = suc (length xs)

  unfoldable pub is_empty : List A → Bool
  is_empty [] = true
  is_empty (x ∷ xs) = false

  abbrev pub get_elem? : List A → ℕ → Option A
  get_elem? [] i = none
  get_elem? (x ∷ xs) zero = some x
  get_elem? (x ∷ xs) (suc i) = get_elem? xs i

  -- the entry at `i`, with a default for the specifications
  abbrev pub get_or : List A → ℕ → A → A
  get_or [] i d = d
  get_or (x ∷ xs) zero d = x
  get_or (x ∷ xs) (suc i) d = get_or xs i d

  abbrev pub set : List A → ℕ → A → List A
  set [] i v = []
  set (x ∷ xs) zero v = v ∷ xs
  set (x ∷ xs) (suc i) v = x ∷ set xs i v

  abbrev pub take : ℕ → List A → List A
  take zero xs = []
  take (suc n) [] = []
  take (suc n) (x ∷ xs) = x ∷ take n xs

  abbrev pub drop : ℕ → List A → List A
  drop zero xs = xs
  drop (suc n) [] = []
  drop (suc n) (x ∷ xs) = drop n xs

  abbrev pub replicate : ℕ → A → List A
  replicate zero x = []
  replicate (suc n) x = x ∷ replicate n x

  -- `std::swap (v[i], v[j])`
  unfoldable pub swap : List A → ℕ → ℕ → Option (List A)
  swap xs i j = do x ← get_elem? xs i; y ← get_elem? xs j; some (set (set xs i y) j x)

  -- the list that a swap within range leaves
  unfoldable pub swapped : List A → A → ℕ → ℕ → List A
  swapped xs d i j = set (set xs i (get_or xs j d)) j (get_or xs i d)

  pub length-append : (xs ys : List A) → length (xs ++ ys) ≡ length xs + length ys
  length-append [] ys = omega arith
  length-append (x ∷ xs) ys = omega (arith, length-append xs ys)

  pub length-set : (xs : List A) (i : ℕ) (v : A) → length (set xs i v) ≡ length xs
  length-set [] i v = refl
  length-set (x ∷ xs) zero v = refl
  length-set (x ∷ xs) (suc i) v = ap suc (length-set xs i v)

  pub length-take : (n : ℕ) (xs : List A) → n ≤ length xs → length (take n xs) ≡ n
  length-take zero xs h = refl
  length-take (suc n) [] h = absurd (omega arith)
  length-take (suc n) (x ∷ xs) h = ap suc (length-take n xs (omega arith))

  pub length-drop : (n : ℕ) (xs : List A) → length (drop n xs) ≡ length xs - n
  length-drop zero xs = omega arith
  length-drop (suc n) [] = omega arith
  length-drop (suc n) (x ∷ xs) = omega (arith, length-drop n xs)

  pub get_or-drop :
      (n : ℕ) (xs : List A) (j : ℕ) (d : A) → get_or (drop n xs) j d ≡ get_or xs (n + j) d
  get_or-drop zero xs j d = let same : j ≡ zero + j = omega arith in ap (λ k. get_or xs k d) same
  get_or-drop (suc n) [] j d = refl
  get_or-drop (suc n) (x ∷ xs) j d =
      let next : suc (n + j) ≡ suc n + j = omega arith in
      get_or-drop n xs j d ∙ ap (λ k. get_or (x ∷ xs) k d) next

  pub take-append-drop : (n : ℕ) (xs : List A) → take n xs ++ drop n xs ≡ xs
  take-append-drop zero xs = refl
  take-append-drop (suc n) [] = refl
  take-append-drop (suc n) (x ∷ xs) = ap (◌∷◌ x) (take-append-drop n xs)

  pub drop-append : (xs ys : List A) → drop (length xs) (xs ++ ys) ≡ ys
  drop-append [] ys = refl
  drop-append (x ∷ xs) ys = drop-append xs ys

  pub take-append : (xs ys : List A) → take (length xs) (xs ++ ys) ≡ xs
  take-append [] ys = refl
  take-append (x ∷ xs) ys = ap (◌∷◌ x) (take-append xs ys)

  pub take_all : (xs : List A) → take (length xs) xs ≡ xs
  take_all [] = refl
  take_all (x ∷ xs) = ap (◌∷◌ x) (take_all xs)

  pub length-replicate : (n : ℕ) (x : A) → length (replicate n x) ≡ n
  length-replicate zero x = refl
  length-replicate (suc n) x = ap suc (length-replicate n x)

  pub get_elem?-eq-get_or :
      (xs : List A) (i : ℕ) (d : A) → i < length xs → get_elem? xs i ≡ some (get_or xs i d)
  get_elem?-eq-get_or [] i d h = absurd (omega arith)
  get_elem?-eq-get_or (x ∷ xs) zero d h = refl
  get_elem?-eq-get_or (x ∷ xs) (suc i) d h = get_elem?-eq-get_or xs i d (omega arith)

  pub get_or-set :
      (xs : List A) (i j : ℕ) (v d : A)
      → i < length xs
      → get_or (set xs i v) j d ≡ (if i == j then v else get_or xs j d)
  get_or-set [] i j v d h = absurd (omega arith)
  get_or-set (x ∷ xs) zero zero v d h = refl
  get_or-set (x ∷ xs) zero (suc j) v d h = ground arith
  get_or-set (x ∷ xs) (suc i) zero v d h = ground arith
  get_or-set (x ∷ xs) (suc i) (suc j) v d h = ground (arith, get_or-set xs i j v d)

  pub get_elem?-append_end :
      (xs ys : List A) (y : A) → get_elem? (xs ++ y ∷ ys) (length xs) ≡ some y
  get_elem?-append_end [] ys y = refl
  get_elem?-append_end (x ∷ xs) ys y = get_elem?-append_end xs ys y

  pub get_elem?-set :
      (xs : List A) (i j : ℕ) (v : A)
      → i < length xs
      → get_elem? (set xs i v) j ≡ (if i == j then some v else get_elem? xs j)
  get_elem?-set [] i j v h = absurd (omega arith)
  get_elem?-set (x ∷ xs) zero zero v h = refl
  get_elem?-set (x ∷ xs) zero (suc j) v h = ground arith
  get_elem?-set (x ∷ xs) (suc i) zero v h = ground arith
  get_elem?-set (x ∷ xs) (suc i) (suc j) v h = ground (arith, get_elem?-set xs i j v)

  pub set_twice : (xs : List A) (i : ℕ) (v w : A) → set (set xs i v) i w ≡ set xs i w
  set_twice [] i v w = refl
  set_twice (x ∷ xs) zero v w = refl
  set_twice (x ∷ xs) (suc i) v w = ap (◌∷◌ x) (set_twice xs i v w)

  pub get_elem?-bound : (xs : List A) (i : ℕ) (x : A) → get_elem? xs i ≡ some x → i < length xs
  get_elem?-bound [] i x h = cc
  get_elem?-bound (y ∷ xs) zero x h = omega arith
  get_elem?-bound (y ∷ xs) (suc i) x h = omega (arith, get_elem?-bound xs i x h)

  pub get_or-append_end : (xs ys : List A) (y d : A) → get_or (xs ++ y ∷ ys) (length xs) d ≡ y
  get_or-append_end [] ys y d = refl
  get_or-append_end (x ∷ xs) ys y d = get_or-append_end xs ys y d

  pub set-append_end : (xs ys : List A) (y z : A) → set (xs ++ y ∷ ys) (length xs) z ≡ xs ++ z ∷ ys
  set-append_end [] ys y z = refl
  set-append_end (x ∷ xs) ys y z = ap (◌∷◌ x) (set-append_end xs ys y z)

  pub get_or-append_left :
      (xs ys : List A) (i : ℕ) (d : A) → i < length xs → get_or (xs ++ ys) i d ≡ get_or xs i d
  get_or-append_left [] ys i d h = absurd (omega arith)
  get_or-append_left (x ∷ xs) ys zero d h = refl
  get_or-append_left (x ∷ xs) ys (suc i) d h = get_or-append_left xs ys i d (omega arith)

  pub get_or-take :
      (n : ℕ) (xs : List A) (i : ℕ) (d : A) → i < n → get_or (take n xs) i d ≡ get_or xs i d
  get_or-take zero xs i d h = absurd (omega arith)
  get_or-take (suc n) [] i d h = refl
  get_or-take (suc n) (x ∷ xs) zero d h = refl
  get_or-take (suc n) (x ∷ xs) (suc i) d h = get_or-take n xs i d (omega arith)

  pub take-last :
      (n : ℕ) (xs : List A) (d : A) → length xs ≡ suc n → xs ≡ take n xs ++ get_or xs n d ∷ []
  take-last n [] d h = absurd (omega arith)
  take-last zero (x ∷ []) d h = refl
  take-last zero (x ∷ y ∷ xs) d h = absurd (omega arith)
  take-last (suc n) (x ∷ xs) d h = ap (◌∷◌ x) (take-last n xs d (omega arith))

  pub swap-eq-swapped :
      (xs : List A) (i j : ℕ) (d : A)
      → i < length xs
      → j < length xs
      → swap xs i j ≡ some (swapped xs d i j)
  unfolding swap swapped
  swap-eq-swapped xs i j d hi hj = rw (get_elem?-eq-get_or xs i d hi, get_elem?-eq-get_or xs j d hj)

  pub length-swapped : (xs : List A) (d : A) (i j : ℕ) → length (swapped xs d i j) ≡ length xs
  unfolding swapped
  length-swapped xs d i j = simp length-set

  pub get_or-swapped :
      (xs : List A) (d : A) (i j c : ℕ)
      → i < length xs
      → j < length xs
      → get_or (swapped xs d i j) c d
        ≡ (if j == c then get_or xs i d else if i == c then get_or xs j d else get_or xs c d)
  unfolding swapped
  get_or-swapped xs d i j c hi hj = ground (
    arith,
    length-set xs i (get_or xs j d),
    get_or-set (set xs i (get_or xs j d)) j c (get_or xs i d) d,
    get_or-set xs i c (get_or xs j d) d,
  )

  Permᴰ-length : {xs ys : List A} → Permᴰ xs ys → length xs ≡ length ys
  Permᴰ-length Permᴰ.nil = refl
  Permᴰ-length (Permᴰ.cons x p) = ap suc (Permᴰ-length p)
  Permᴰ-length (Permᴰ.swap x y) = refl
  Permᴰ-length (Permᴰ.trans p q) = Permᴰ-length p ∙ Permᴰ-length q

  pub length-perm : {xs ys : List A} → Perm xs ys → length xs ≡ length ys
  length-perm p = ∥∥₁_elim p (ℕ_set _ _) Permᴰ-length

  -- appending an entry and putting it in front give the same items
  pub append_one-perm : (xs : List A) (x : A) → Perm (xs ++ x ∷ []) (x ∷ xs)
  append_one-perm xs x = rw (append-nil xs) at (perm_middle {a = x} xs [])

  -- writing `v` at `i` exchanges the entry there for `v`
  set_exchange :
      (xs : List A) (i : ℕ) (v d : A) → i < length xs → Perm (get_or xs i d ∷ set xs i v) (v ∷ xs)
  set_exchange [] i v d h = absurd (omega arith)
  set_exchange (x ∷ xs) zero v d h = Perm.swap v x xs
  set_exchange (x ∷ xs) (suc i) v d h =
      Perm.trans (Perm.swap x _ _)
        (Perm.trans (Perm.cons x (set_exchange xs i v d (omega arith))) (Perm.swap v x xs))

  pub swapped-perm :
      (xs : List A) (d : A) (i j : ℕ) → i < length xs → j < length xs → Perm (swapped xs d i j) xs
  unfolding swapped
  swapped-perm xs d i j hi hj = Perm.cons_inv (Perm.trans back (set_exchange xs i y d hi))
    where
      y : A
      y = get_or xs j d

      there : get_or (set xs i y) j d ≡ y
      there = ground (arith, get_or-set xs i j y d)

      back : Perm (y ∷ set (set xs i y) j (get_or xs i d)) (get_or xs i d ∷ set xs i y)
      back = rw there at (set_exchange (set xs i y) j (get_or xs i d) d (rw length-set hj))
