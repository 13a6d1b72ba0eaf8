-- ===== src/DisjointSet/Forest.antt =====
-- The forest of a disjoint set, with the representative of each item.
use crs.Base.{
  ℕ, zero, suc, ◌+◌, ◌≤◌, ◌<◌, ◌≡◌, ◌≢◌, Bool, true, false, some, arith, ◌==◌, ◌||◌, if◌then◌else◌,
  length, get_or, set, get_or-set, get_elem?-eq-get_or, size_mod,
}
use crs.DisjointSet.{Groups, no_parent, new_point, get_parent, set_parent}

abbrev pub parent_of : Groups → ℕ → ℕ
parent_of s i = (get_or s.cont i new_point).parent

abbrev pub rank_of : Groups → ℕ → ℕ
rank_of s i = (get_or s.cont i new_point).rank

abbrev pub is_top : Groups → ℕ → Bool
is_top s i = (parent_of s i == no_parent) || (parent_of s i == i)

-- how many numbers below `k` have `p`
abbrev pub count : (ℕ → Bool) → ℕ → ℕ
count p zero = 0
count p (suc k) = if p k then suc (count p k) else count p k

-- the item `i` hangs below its parent
pub record IsBelow (n : ℕ) (s : Groups) (rep : ℕ → ℕ) (i : ℕ) : Type 0 where
  pub parent_in : parent_of s i < n
  pub same : rep (parent_of s i) ≡ rep i
  pub rises : rank_of s i < rank_of s (parent_of s i)
  pub joined : parent_of s (parent_of s i) ≢ no_parent

-- `rep` gives the root of each of the `n` items; `ngroups` counts the roots.
pub record IsForest (n : ℕ) (s : Groups) (rep : ℕ → ℕ) : Type 0 where
  pub size : length s.cont ≡ n
  pub fits : n < size_mod
  pub rep_in : (i : ℕ) → i < n → rep i < n
  pub rep_top : (i : ℕ) → i < n → is_top s (rep i) ≡ true
  pub top : (i : ℕ) → i < n → is_top s i ≡ true → rep i ≡ i
  pub below : (i : ℕ) → i < n → is_top s i ≡ false → IsBelow n s rep i
  pub ranks : (i : ℕ) → i < n → rank_of s i + s.ngroups ≤ n
  pub counted : s.ngroups ≡ count (λ i. rep i == i) n

module _ {n : ℕ} {s : Groups} {rep : ℕ → ℕ} (f : IsForest n s rep) where
  pub rep_rep : (i : ℕ) → i < n → rep (rep i) ≡ rep i
  rep_rep i h = f.top (rep i) (f.rep_in i h) (f.rep_top i h)

  pub get_parent-eq : (i : ℕ) → i < n → get_parent i s ≡ some (parent_of s i)
  unfolding get_parent
  get_parent-eq i h = rw (get_elem?-eq-get_or s.cont i new_point (omega (arith, f.size)))

-- `s` with the parent of `v` set
abbrev pub with_parent : ℕ → ℕ → Groups → Groups
with_parent v r s = record s {
  cont = set s.cont v (record (get_or s.cont v new_point) { parent = r });
}

pub set_parent-eq :
    (v r : ℕ) (s : Groups) → v < length s.cont → set_parent v r s ≡ some (with_parent v r s)
unfolding set_parent
set_parent-eq v r s h = rw (get_elem?-eq-get_or s.cont v new_point h)

pub parent_of-with :
    (v r i : ℕ) (s : Groups)
    → v < length s.cont
    → parent_of (with_parent v r s) i ≡ (if v == i then r else parent_of s i)
parent_of-with v r i s h =
    ground
      (arith, get_or-set s.cont v i (record (get_or s.cont v new_point) { parent = r }) new_point h)

pub rank_of-with :
    (v r i : ℕ) (s : Groups) → v < length s.cont → rank_of (with_parent v r s) i ≡ rank_of s i
rank_of-with v r i s h =
    ground
      (arith, get_or-set s.cont v i (record (get_or s.cont v new_point) { parent = r }) new_point h)
