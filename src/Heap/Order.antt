-- ===== src/Heap/Order.antt =====
-- The heap order of crs/heap.h, for a comparison that is a strict weak order.
use mathlib.Core.List.Perm
use crs.Base.{
  swapped, swapped-perm, get_or-swapped, ℕ, zero, suc, ◌+◌, ◌-◌, ◌/◌, ◌*◌, ◌^◌, ◌≤◌, ◌<◌, ◌≡◌, refl,
  Bool, true, false, List, Perm, arith, length, get_or, ◌↔◌, ◌⊎◌, inl, inr, Bool-cases,
}
use crs.Heap.{ancestor_index, descendant_index}

-- What `Comp` promises: no two elements are each before the other, and "not before" is transitive.
pub record IsOrder {A : Type 0} (comp : A → A → Bool) : Type 0 where
  pub asym : (a b : A) → comp a b ≡ true → comp b a ≡ false
  pub negtrans : (a b c : A) → comp a b ≡ false → comp b c ≡ false → comp a c ≡ false

pub ancestor_index-lt : (i : ℕ) → 0 < i → ancestor_index i < i
unfolding ancestor_index
ancestor_index-lt i h = ground arith

pub ancestor_index-eq : (i : ℕ) → ancestor_index i ≡ (i - 1) / 2
unfolding ancestor_index
ancestor_index-eq i = ground arith

pub descendant_index-eq : (i : ℕ) → i < 2 ^ 63 → descendant_index i ≡ i * 2 + 1
unfolding descendant_index
descendant_index-eq i h = omega arith

-- The children of a node are at its descendant index and one further, and at no other index.
pub ancestor-descendant :
    (i c : ℕ)
    → i < 2 ^ 63
    → 0 < c
    → (ancestor_index c ≡ i) ↔ ((c ≡ descendant_index i) ⊎ (c ≡ descendant_index i + 1))
ancestor-descendant i c h p = (
  λ e. omega (arith, ancestor_index-eq c, descendant_index-eq i h),
  λ e. omega (arith, ancestor_index-eq c, descendant_index-eq i h),
)

module _ {A : Type 0} (comp : A → A → Bool) (d : A) where
  -- the entry at `c` is not before its ancestor
  abbrev pub Edge : List A → ℕ → Type 0
  Edge h c = comp (get_or h c d) (get_or h (ancestor_index c) d) ≡ false

  -- the first `sz` entries are in heap order
  abbrev pub IsHeapTo : ℕ → List A → Type 0
  IsHeapTo sz h = (c : ℕ) → 0 < c → c < sz → Edge h c

  abbrev pub IsHeap : List A → Type 0
  IsHeap h = IsHeapTo (length h) h

  -- the entries below `i` are not before the ancestor of `i`
  abbrev pub IsBridged : ℕ → List A → ℕ → Type 0
  IsBridged sz h i =
      (c : ℕ)
      → 0 < c
      → c < sz
      → ancestor_index c ≡ i
      → 0 < i
      → comp (get_or h c d) (get_or h (ancestor_index i) d) ≡ false

  -- `b` has the items of `h`, those from `sz` on in place, and is in heap order before `sz`
  pub record Sifted (sz : ℕ) (h b : List A) : Type 0 where
    pub ordered : IsHeapTo sz b
    pub same : Perm b h
    pub kept : (c : ℕ) → sz ≤ c → get_or b c d ≡ get_or h c d

  pub Sifted-self : {sz : ℕ} {h : List A} → IsHeapTo sz h → Sifted sz h h
  Sifted-self p = record { ordered = p; same = Perm.rfl; kept = λ c q. refl }

  pub Sifted-swapped :
      {sz : ℕ} (h : List A) (i j : ℕ) {b : List A}
      → i < sz
      → j < sz
      → sz ≤ length h
      → Sifted sz (swapped h d i j) b
      → Sifted sz h b
  Sifted-swapped h i j hi hj hs s = record {
    ordered = s.ordered;
    same = Perm.trans s.same (swapped-perm h d i j (omega arith) (omega arith));
    kept = λ c q. ground (arith, s.kept c q, get_or-swapped h d i j c (omega arith) (omega arith));
  }

  module _ (o : IsOrder comp) where
    root_least_below :
        (k : ℕ) (h : List A) (c : ℕ)
        → IsHeap h
        → c < k
        → c < length h
        → comp (get_or h c d) (get_or h 0 d) ≡ false
    root_least_below zero h c ih p q = absurd (omega arith)
    root_least_below (suc k) h zero ih p q =
        elim (Bool-cases (comp (get_or h 0 d) (get_or h 0 d))) [ inl e ↦ o.asym _ _ e | inr e ↦ e ]
    root_least_below (suc k) h (suc c) ih p q =
        let lower = ancestor_index-lt (suc c) (omega arith) in
        o.negtrans _ _ _ (ih (suc c) (omega arith) q)
          (root_least_below k h (ancestor_index (suc c)) ih (omega arith) (omega arith))

    -- no entry of a heap is before its root
    pub root_least :
        (h : List A) (c : ℕ) → IsHeap h → c < length h → comp (get_or h c d) (get_or h 0 d) ≡ false
    root_least h c ih q = root_least_below (suc c) h c ih (omega arith) q
