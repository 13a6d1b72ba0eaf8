-- ===== src/Handles/Count.antt =====
-- How many handles are bound with a counter.
use crs.Base.{
  ℕ, zero, suc, ◌+◌, ◌≤◌, ◌<◌, ◌≡◌, refl, ap, Bool, false, List, [], ◌∷◌, ◌++◌, none, some, arith,
  ◌==◌, ◌||◌, if◌then◌else◌, some_inj, length, get_elem?, set, get_or, Bool-cases, inl, inr,
  ==_refl,
}
use crs.Handles.{Handle, Store}

-- the links of one handle to the counter `c`
abbrev pub links : ℕ → Handle → ℕ
links c h =
    if h.object == 0 then 0 else elim h.hcounter [ none ↦ 0 | some k ↦ if k == c then 1 else 0 ]

abbrev pub count : ℕ → List Handle → ℕ
count c [] = 0
count c (h ∷ handles) = links c h + count c handles

pub count-set :
    (c i : ℕ) (h g : Handle) (handles : List Handle)
    → get_elem? handles i ≡ some h
    → count c (set handles i g) + links c h ≡ count c handles + links c g
count-set c i h g [] e = cc
count-set c zero h g (x ∷ handles) e =
    let same : links c x ≡ links c h = ap (links c) (some_inj e) in omega arith
count-set c (suc i) h g (x ∷ handles) e = let rest = count-set c i h g handles e in omega arith

pub count-get :
    (c i : ℕ) (h : Handle) (handles : List Handle)
    → get_elem? handles i ≡ some h
    → links c h ≤ count c handles
count-get c i h [] e = cc
count-get c zero h (x ∷ handles) e =
    let same : links c x ≡ links c h = ap (links c) (some_inj e) in omega arith
count-get c (suc i) h (x ∷ handles) e = let rest = count-get c i h handles e in omega arith

pub links-bound : (c : ℕ) (h : Handle) → h.object == 0 ≡ false → h.hcounter ≡ some c → links c h ≡ 1
links-bound c h e k = rw (e, k, ==_refl c)

pub links-other : (c k : ℕ) (h : Handle) → h.hcounter ≡ some k → k == c ≡ false → links c h ≡ 0
links-other c k h e f = elim (Bool-cases (h.object == 0)) [ inl q ↦ rw q | inr q ↦ rw (q, e, f) ]

-- whether the object was deleted
abbrev pub contains : ℕ → List ℕ → Bool
contains x [] = false
contains x (y ∷ ys) = (x == y) || contains x ys

pub contains-append :
    (x y : ℕ) (ys : List ℕ) → contains x (ys ++ y ∷ []) ≡ contains x ys || (x == y)
contains-append x y [] = ground arith
contains-append x y (z ∷ ys) = ground (arith, contains-append x y ys)

pub count-none :
    (c : ℕ) (handles : List Handle)
    → ((i : ℕ) (g : Handle) → get_elem? handles i ≡ some g → links c g ≡ 0)
    → count c handles ≡ 0
count-none c [] f = refl
count-none c (h ∷ handles) f =
    let first = f 0 h refl in
    let rest = count-none c handles (λ i g e. f (suc i) g e) in omega arith

-- how many handles are bound to the object `x`
abbrev pub holders : ℕ → List Handle → ℕ
holders x [] = 0
holders x (h ∷ handles) = (if h.object == x then 1 else 0) + holders x handles

pub count-eq-holders :
    (c x : ℕ) (handles : List Handle)
    → ((i : ℕ) (g : Handle)
        → get_elem? handles i ≡ some g
        → links c g ≡ (if g.object == x then 1 else 0))
    → count c handles ≡ holders x handles
count-eq-holders c x [] f = refl
count-eq-holders c x (h ∷ handles) f =
    let first = f 0 h refl in
    let rest = count-eq-holders c x handles (λ i g e. f (suc i) g e) in omega arith

-- The counters hold the number of handles bound with them; bound handles have a counter, the same
-- one exactly for the same object, and their objects have not been deleted.
pub record IsCounted (s : Store) : Type 0 where
  pub counts : (c : ℕ) → c < length s.nlinks → get_or s.nlinks c 0 ≡ count c s.handles
  pub bound :
      (i : ℕ) (h : Handle)
      → get_elem? s.handles i ≡ some h
      → h.object == 0 ≡ false
      → (c : ℕ) × (h.hcounter ≡ some c) × (c < length s.nlinks)
  pub shared :
      (i j : ℕ) (h g : Handle)
      → get_elem? s.handles i ≡ some h
      → get_elem? s.handles j ≡ some g
      → h.object == 0 ≡ false
      → h.object ≡ g.object
      → h.hcounter ≡ g.hcounter
  pub one_object :
      (i j : ℕ) (h g : Handle)
      → get_elem? s.handles i ≡ some h
      → get_elem? s.handles j ≡ some g
      → h.object == 0 ≡ false
      → g.object == 0 ≡ false
      → h.hcounter ≡ g.hcounter
      → h.object ≡ g.object
  pub kept :
      (i : ℕ) (h : Handle)
      → get_elem? s.handles i ≡ some h
      → h.object == 0 ≡ false
      → contains h.object s.deleted ≡ false
