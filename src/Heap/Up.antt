-- ===== src/Heap/Up.antt =====
-- `_bubleup_heap`: one value out of order below its ancestor is moved up to its place.
use crs.Base.{
  ℕ, zero, suc, ◌≤◌, ◌<◌, ◌≡◌, ◌≢◌, refl, ◌∙◌, Bool, true, List, arith, length, get_or, swapped,
  get_or-swapped, length-swapped, swap-eq-swapped, get_elem?-eq-get_or, Bool-cases, inl, inr,
  Yields, yields, Yields-mono, ltb→lt, ltb→le, ltb,
}
use crs.Heap.{ancestor_index, bubbleup_loop}
use crs.Heap.Order.{
  IsOrder, Edge, IsBridged, Sifted, Sifted-self, Sifted-swapped, ancestor_index-lt,
}

module _ {A : Type 0} (comp : A → A → Bool) (d : A) where
  -- only the edge above `i` may be out of order
  pub record UpInv (sz : ℕ) (h : List A) (i : ℕ) : Type 0 where
    pub edges : (c : ℕ) → 0 < c → c < sz → c ≢ i → Edge comp d h c
    pub bridged : IsBridged comp d sz h i

  -- how the loop ends: a heap, and the place in it of the value that was at `i`
  abbrev pub Raised : ℕ → List A → ℕ → ℕ × List A → Type 0
  Raised sz h i r = Sifted comp d sz h r.1 × (r.0 ≤ i) × (get_or r.1 r.0 d ≡ get_or h i d)

  module _ (o : IsOrder comp) where
    rise-UpInv :
        (sz : ℕ) (h : List A) (i : ℕ)
        → 0 < i
        → i < sz
        → sz ≤ length h
        → comp (get_or h i d) (get_or h (ancestor_index i) d) ≡ true
        → UpInv sz h i
        → UpInv sz (swapped h d i (ancestor_index i)) (ancestor_index i)
    rise-UpInv sz h i pos hi hs up v =
        let above = ancestor_index-lt i pos in
        let at = λ (c : ℕ). get_or-swapped h d i (ancestor_index i) c (omega arith) (omega arith) in
        record {
          edges = λ c p q r. ground (
            arith,
            at c,
            at (ancestor_index c),
            v.edges c p q,
            v.bridged c p q,
            o.asym (get_or h i d) (get_or h (ancestor_index i) d),
            o.negtrans (get_or h c d) (get_or h (ancestor_index i) d) (get_or h i d),
          );
          bridged = λ c p q e pp. ground (
            arith,
            ancestor_index-lt (ancestor_index i) pp,
            at c,
            at (ancestor_index (ancestor_index i)),
            v.edges c p q,
            v.edges (ancestor_index i) pp,
            o.negtrans (get_or h c d) (get_or h (ancestor_index i) d)
                (get_or h (ancestor_index (ancestor_index i)) d),
          );
        }

    -- The loop yields a heap of the same items, where only the order before `sz` has changed, and
    -- the index at which the value of `i` now is.
    pub bubbleup_loop_restores :
        (sz k : ℕ) (h : List A) (i : ℕ)
        → i < k
        → i < sz
        → sz ≤ length h
        → UpInv sz h i
        → Yields (Raised sz h i) (bubbleup_loop comp k h i)
    unfolding bubbleup_loop
    bubbleup_loop_restores sz zero h i f hi hs v = absurd (omega arith)
    bubbleup_loop_restores sz (suc k) h i f hi hs v = elim (Bool-cases (ltb (ancestor_index i) i)) [
      | inl e ↦
          let above : ancestor_index i < i = ltb→lt _ _ e in
          let read = get_elem?-eq-get_or h i d (omega arith) in
          let moved : get_or (swapped h d i (ancestor_index i)) (ancestor_index i) d
              ≡ get_or h i d =
            ground (arith, get_or-swapped h d i (ancestor_index i) (ancestor_index i)) in
          let read_above = get_elem?-eq-get_or h (ancestor_index i) d (omega arith) in
          elim (Bool-cases (comp (get_or h i d) (get_or h (ancestor_index i) d))) [
            | inl up ↦
                rw
                  (
                    e,
                    read,
                    read_above,
                    up,
                    swap-eq-swapped h i (ancestor_index i) d (omega arith) (omega arith),
                  )
                  (Yields-mono
                    (λ r (s, below, found). (
                      Sifted-swapped comp d h i _ hi (omega arith) hs s,
                      omega arith,
                      found ∙ moved,
                    ))
                    (bubbleup_loop_restores sz k (swapped h d i (ancestor_index i))
                      (ancestor_index i) (omega arith) (omega arith)
                      (omega (arith, length-swapped h d i (ancestor_index i)))
                      (rise-UpInv sz h i (omega arith) hi hs up v)))
            | inr down ↦
                rw (e, read, read_above, down)
                  (yields (
                    Sifted-self comp d (λ c p q. ground (arith, v.edges c p q)),
                    omega arith,
                    refl,
                  ))
          ]
      | inr e ↦ rw e (
          yields (
            Sifted-self comp d
                (λ c p q. ground (arith, v.edges c p q, ltb→le _ _ e, ancestor_index-lt i)),
            omega arith,
            refl,
          ))
    ]
