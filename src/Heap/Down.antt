-- ===== src/Heap/Down.antt =====
-- `_bubledown_heap`: one value out of order above its descendants is moved down to its place.
use native.Mathlib.Decide.{ℕ_discrete}
use crs.Base.{
  ◌⊎◌, ℕ, zero, suc, ◌+◌, ◌^◌, ◌≤◌, ◌<◌, ◌≡◌, ◌≢◌, refl, Bool, true, false, List, arith, length,
  get_or, swapped, get_or-swapped, length-swapped, swap-eq-swapped, add_size, get_elem?-eq-get_or,
  Bool-cases, inl, inr, Yields, yields, Yields-mono, Yields-inv, ltb→lt, ltb→le, ltb,
}
use crs.Heap.{ancestor_index, descendant_index, smaller_child, bubbledown_loop}
use crs.Heap.Order.{
  IsOrder, Edge, IsHeapTo, IsBridged, Sifted, Sifted-self, Sifted-swapped, ancestor_index-lt,
  descendant_index-eq, ancestor-descendant,
}

module _ {A : Type 0} (comp : A → A → Bool) (d : A) where
  -- only the edges below `i` may be out of order
  pub record DownInv (sz : ℕ) (h : List A) (i : ℕ) : Type 0 where
    pub edges : (c : ℕ) → 0 < c → c < sz → ancestor_index c ≢ i → Edge comp d h c
    pub bridged : IsBridged comp d sz h i

  -- `m` is a child of `i`, and no child of `i` is before it
  pub record IsLeastChild (sz : ℕ) (h : List A) (i m : ℕ) : Type 0 where
    pub child : ancestor_index m ≡ i
    pub positive : 0 < m
    pub within : m < sz
    pub least :
        (c : ℕ) → 0 < c → c < sz → ancestor_index c ≡ i → comp (get_or h c d) (get_or h m d) ≡ false

  module _ (o : IsOrder comp) where
    irrefl : (a : A) → comp a a ≡ false
    irrefl a = elim (Bool-cases (comp a a)) [ inl e ↦ o.asym a a e | inr e ↦ e ]

    -- a child that neither of the two children is before
    IsLeastChild-of :
        (sz : ℕ) (h : List A) (i m : ℕ)
        → i < 2 ^ 63
        → (m ≡ descendant_index i) ⊎ (m ≡ descendant_index i + 1)
        → m < sz
        → comp (get_or h (descendant_index i) d) (get_or h m d) ≡ false
        → (descendant_index i + 1 < sz
            → comp (get_or h (descendant_index i + 1) d) (get_or h m d) ≡ false)
        → IsLeastChild sz h i m
    IsLeastChild-of sz h i m hi hm lt left right =
        let first = descendant_index-eq i hi in
        let pos : 0 < m = ground (arith, hm, first) in
        record {
          child = (ancestor-descendant i m hi pos).1 hm;
          positive = pos;
          within = lt;
          least = λ c p q e. elim ((ancestor-descendant i c hi p).0 e) [
            | inl here ↦ rw here left
            | inr there ↦ rw there (right (omega arith))
          ];
        }

    smaller_child-IsLeastChild :
        (sz : ℕ) (h : List A) (i : ℕ)
        → i ≤ sz
        → sz ≤ length h
        → sz < 2 ^ 63
        → descendant_index i < sz
        → Yields (IsLeastChild sz h i) (smaller_child comp h (descendant_index i) sz)
    unfolding smaller_child
    smaller_child-IsLeastChild sz h i hi hs small in_heap =
        let m = descendant_index i in
        let next : add_size m 1 ≡ m + 1 = omega arith in
        let left = get_elem?-eq-get_or h m d (omega arith) in
        elim (Bool-cases (ltb (m + 1) sz)) [
          | inl two ↦
              let beside = ltb→lt _ _ two in
              let right = get_elem?-eq-get_or h (m + 1) d (omega arith) in
              elim (Bool-cases (comp (get_or h (m + 1) d) (get_or h m d))) [
                | inl e ↦
                    rw (next, two, right, left, e)
                      (yields (
                        IsLeastChild-of sz h i (m + 1) (omega arith) (inr refl) beside
                          (o.asym _ _ e) (λ _. irrefl _)))
                | inr e ↦
                    rw (next, two, right, left, e)
                      (yields (
                        IsLeastChild-of sz h i m (omega arith) (inl refl) in_heap (irrefl _)
                          (λ _. e)))
              ]
          | inr one ↦
              rw (next, one)
                (yields (
                  IsLeastChild-of sz h i m (omega arith) (inl refl) in_heap (irrefl _)
                    (λ lt. absurd (omega (arith, ltb→le _ _ one)))))
        ]

    settled-IsHeapTo :
        (sz : ℕ) (h : List A) (i m : ℕ)
        → IsLeastChild sz h i m
        → comp (get_or h m d) (get_or h i d) ≡ false
        → DownInv sz h i
        → IsHeapTo comp d sz h
    settled-IsHeapTo sz h i m l settled v c p q = elim (ℕ_discrete (ancestor_index c) i) [
      | yes e ↦ rw e (o.negtrans _ _ _ (l.least c p q e) settled)
      | no e ↦ v.edges c p q e
    ]

    sink-DownInv :
        (sz : ℕ) (h : List A) (i m : ℕ)
        → i < sz
        → sz ≤ length h
        → IsLeastChild sz h i m
        → comp (get_or h m d) (get_or h i d) ≡ true
        → DownInv sz h i
        → DownInv sz (swapped h d i m) m
    sink-DownInv sz h i m hi hs l below v =
        let at = λ (c : ℕ). get_or-swapped h d i m c (omega arith) (omega (arith, l.within)) in
        let above = λ (c : ℕ). ancestor_index-lt c in
        record {
          edges = λ c p q r. ground (
            arith,
            at c,
            at (ancestor_index c),
            above c,
            above m,
            l.child,
            l.positive,
            l.least c p q,
            v.edges c p q,
            v.bridged m l.positive l.within l.child,
            o.asym (get_or h m d) (get_or h i d),
          );
          bridged = λ c p q e pos.
              ground (arith, at c, at (ancestor_index m), above c, above m, l.child, v.edges c p q);
        }

    -- The loop yields a heap of the same items, and reads and writes only before `sz`.
    pub bubbledown_loop_restores :
        (sz k : ℕ) (h : List A) (i : ℕ)
        → sz < k + i
        → i ≤ sz
        → sz ≤ length h
        → sz < 2 ^ 63
        → DownInv sz h i
        → Yields (Sifted comp d sz h) (bubbledown_loop comp k h i sz)
    unfolding bubbledown_loop
    bubbledown_loop_restores sz zero h i f hi hs small v = absurd (omega arith)
    bubbledown_loop_restores sz (suc k) h i f hi hs small v =
        elim (Bool-cases (ltb (descendant_index i) sz)) [
          | inl e ↦
              let inner : i < sz =
                omega (arith, ltb→lt _ _ e, descendant_index-eq i (omega arith)) in
              let (m, chosen, l) =
                Yields-inv (smaller_child-IsLeastChild sz h i hi hs small (ltb→lt _ _ e)) in
              let read = get_elem?-eq-get_or h m d (omega (arith, l.within)) in
              let read_above = get_elem?-eq-get_or h i d (omega arith) in
              elim (Bool-cases (comp (get_or h m d) (get_or h i d))) [
                | inl below ↦
                    rw
                      (
                        e,
                        chosen,
                        read,
                        read_above,
                        below,
                        swap-eq-swapped h i m d (omega arith) (omega (arith, l.within)),
                      )
                      (Yields-mono (λ b s. Sifted-swapped comp d h i m inner l.within hs s)
                        (bubbledown_loop_restores sz k (swapped h d i m) m
                          (omega (arith, l.child, ancestor_index-lt m l.positive))
                          (omega (arith, l.within)) (rw length-swapped hs) small
                          (sink-DownInv sz h i m inner hs l below v)))
                | inr settled ↦
                    rw (e, chosen, read, read_above, settled)
                      (yields (Sifted-self comp d (settled-IsHeapTo sz h i m l settled v)))
              ]
          | inr e ↦ rw e (
              yields (
                Sifted-self comp d λ c p q. v.edges c p q λ a.
                  absurd
                    (omega (arith, ltb→le _ _ e, (ancestor-descendant i c (omega arith) p).0 a))))
        ]
