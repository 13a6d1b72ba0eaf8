-- ===== src/Heap/Remove.antt =====
-- `remove`: the item is replaced by the last one, which is moved up or down to its place.
use mathlib.Core.List.Perm
use native.Mathlib.Decide.{ℕ_discrete}
use crs.Base.{
  ℕ, suc, ◌-◌, ◌^◌, ◌≤◌, ◌<◌, ◌≡◌, ◌≢◌, refl, ◌∙◌, Bool, true, false, List, ◌∷◌, Perm, arith,
  length, get_or, swapped, get_or-swapped, length-swapped, swap-eq-swapped, swapped-perm,
  length-perm, get_elem?-eq-get_or, Bool-cases, inl, inr, Yields, yields, Yields-mono, Yields-bind,
  ltb, ltb→lt, ltb→le, ◌⊎◌, ◌&&◌, not, ◌==◌,
}
use crs.Heap.{ancestor_index, bubbleup_loop, bubbleup, bubbledown, remove}
use crs.Heap.Order.{IsOrder, Edge, IsHeap, IsHeapTo, IsBridged, Sifted-self, ancestor_index-lt}
use crs.Heap.Up.{UpInv, bubbleup_loop_restores}
use crs.Heap.Down.{DownInv, bubbledown_loop_restores}
use crs.Heap.Queue.{Sifted-pop_back}

module _ {A : Type 0} (comp : A → A → Bool) (d : A) where
  module _ (o : IsOrder comp) where
    -- With one entry `i` changed at will: the edges that do not touch `i` are in order.
    record GapInv (sz : ℕ) (h : List A) (i : ℕ) : Type 0 where
      edges : (c : ℕ) → 0 < c → c < sz → c ≢ i → ancestor_index c ≢ i → Edge comp d h c
      bridged : IsBridged comp d sz h i

    IsHeapTo-DownInv :
        (sz : ℕ) (h : List A) (i : ℕ) → i < sz → IsHeapTo comp d sz h → DownInv comp d sz h i
    IsHeapTo-DownInv sz h i hi f = record {
      edges = λ c p q r. f c p q;
      bridged = λ c p q e pos. o.negtrans _ (get_or h i d) _ (rw e at (f c p q)) (f i pos hi);
    }

    -- moving that entry up leaves the edge above its new place
    gap-UpInv :
        (sz : ℕ) (h : List A) (i : ℕ)
        → 0 < i
        → i < sz
        → sz ≤ length h
        → comp (get_or h i d) (get_or h (ancestor_index i) d) ≡ true
        → GapInv sz h i
        → UpInv comp d sz (swapped h d i (ancestor_index i)) (ancestor_index i)
    gap-UpInv sz h i pos hi hs up g =
        let above = ancestor_index-lt i pos in
        let at = λ (c : ℕ). get_or-swapped h d i (ancestor_index i) c (omega arith) (omega arith) in
        record {
          edges = λ c p q r. ground (
            arith,
            at c,
            at (ancestor_index c),
            ancestor_index-lt c p,
            g.edges c p q,
            g.bridged c p q,
            o.asym (get_or h i d) (get_or h (ancestor_index i) d),
            o.negtrans (get_or h c d) (get_or h (ancestor_index i) d) (get_or h i d),
          );
          bridged = λ c p q e pp. ground (
            arith,
            ancestor_index-lt (ancestor_index i) pp,
            ancestor_index-lt c p,
            at c,
            at (ancestor_index (ancestor_index i)),
            g.edges c p q,
            g.edges (ancestor_index i) pp,
            o.negtrans (get_or h c d) (get_or h (ancestor_index i) d)
                (get_or h (ancestor_index (ancestor_index i)) d),
          );
        }

    -- bringing the last entry to `i` leaves such a gap there
    swapped-GapInv :
        (h : List A) (i n : ℕ)
        → IsHeap comp d h
        → i < length h
        → length h ≡ suc n
        → i < n
        → GapInv n (swapped h d i n) i
    swapped-GapInv h i n ordered hi size inner =
        let at = λ (c : ℕ). get_or-swapped h d i n c hi (omega arith) in
        record {
          edges = λ c p q r s.
              ground (arith, ordered c p, at c, at (ancestor_index c), ancestor_index-lt c p);
          bridged = λ c p q e pos. ground (
            arith,
            ordered c p,
            ordered i pos,
            at c,
            at (ancestor_index i),
            ancestor_index-lt c p,
            ancestor_index-lt i pos,
            o.negtrans (get_or h c d) (get_or h i d) (get_or h (ancestor_index i) d),
          );
        }

    -- `_bubleup_heap` at such an entry leaves at most the edges below it out of order.
    bubbleup_gap :
        (sz : ℕ) (h : List A) (i : ℕ)
        → i < sz
        → sz ≤ length h
        → GapInv sz h i
        → Yields
            (λ r.
              DownInv comp d sz r.1 i
              × Perm r.1 h
              × ((c : ℕ) → sz ≤ c → get_or r.1 c d ≡ get_or h c d))
            (bubbleup comp h i)
    unfolding bubbleup bubbleup_loop
    bubbleup_gap sz h i hi hs g =
        let p = ancestor_index i in
        let above = ancestor_index-lt i in
        let stays : Edge comp d h i ⊎ (i ≡ 0) → DownInv comp d sz h i = λ settled. record {
          edges = λ c p q r. ground (arith, settled, g.edges c p q);
          bridged = g.bridged;
        } in
        elim (Bool-cases (ltb p i)) [
          | inl e ↦
              let lower : p < i = ltb→lt _ _ e in
              let read = get_elem?-eq-get_or h i d (omega arith) in
              let read_above = get_elem?-eq-get_or h p d (omega arith) in
              elim (Bool-cases (comp (get_or h i d) (get_or h p d))) [
                | inl up ↦
                    rw
                      (e, read, read_above, up, swap-eq-swapped h i p d (omega arith) (omega arith))
                      (Yields-mono
                        (λ r (s, _, _). (
                          IsHeapTo-DownInv sz r.1 i hi s.ordered,
                          Perm.trans s.same (swapped-perm h d i p (omega arith) (omega arith)),
                          λ c q. ground (
                            arith,
                            s.kept c q,
                            get_or-swapped h d i p c (omega arith) (omega arith),
                          ),
                        ))
                        (bubbleup_loop_restores comp d o sz i (swapped h d i p) p lower
                          (omega arith) (omega (arith, length-swapped h d i p))
                          (gap-UpInv sz h i (omega arith) hi hs up g)))
                | inr down ↦
                    rw (e, read, read_above, down)
                      (yields (stays (inl down), Perm.rfl, λ c q. refl))
              ]
          | inr e ↦
              rw e
                (yields (stays (inr (ground (arith, ltb→le _ _ e, above))), Perm.rfl, λ c q. refl))
        ]

    -- For a comparison that is a strict weak order, remove of a node of a heap of fewer than 2 ^
    -- 63 items takes exactly that item out and leaves a heap.
    pub remove-Holds :
        (h : List A) (node_index : ℕ)
        → IsHeap comp d h
        → node_index < length h
        → length h < 2 ^ 63
        → Yields
            (λ r. IsHeap comp d r × Perm (get_or h node_index d ∷ r) h)
            (remove comp h node_index)
    unfolding remove bubbledown
    remove-Holds h i ordered hi small =
        let n = length h - 1 in
        let at = λ (c : ℕ). get_or-swapped h d i n c hi (omega arith) in
        let size : length (swapped h d i n) ≡ suc n = omega (arith, length-swapped h d i n) in
        let taken : get_or (swapped h d i n) n d ≡ get_or h i d = ground (arith, at n) in
        elim (ℕ_discrete i n) [
          | no inner ↦
              let guard : (ltb i (length h) && not (i == n)) ≡ true = ground arith in
              rw (guard, swap-eq-swapped h i n d hi (omega arith))
                (Yields-bind
                  (Yields-bind
                    (bubbleup_gap n (swapped h d i n) i (omega arith) (omega arith)
                      (swapped-GapInv h i n ordered hi (omega arith) (omega arith)))
                    λ r (v, same, kept).
                      let whole : length r.1 - 1 ≡ n = omega (arith, length-perm same) in
                      rw whole (
                        Yields-mono
                          (λ b f. record {
                            ordered = f.ordered;
                            same = Perm.trans f.same same;
                            kept = λ c q. f.kept c q ∙ kept c q;
                          })
                          (bubbledown_loop_restores comp d o n (suc n) r.1 i (omega arith)
                            (omega arith) (omega (arith, length-perm same)) (omega arith) v)))
                  λ b f.
                    Yields-mono
                      (λ rest (heap, same). (
                        heap,
                        Perm.trans (rw taken at same) (swapped-perm h d i n hi (omega arith)),
                      ))
                      (Sifted-pop_back comp d n (swapped h d i n) b size f))
          | yes last ↦
              let guard : (ltb i (length h) && not (i == n)) ≡ false = ground arith in
              rw guard (
                Yields-mono (λ rest (heap, same). (heap, rw (← last) at same))
                  (Sifted-pop_back comp d n h h (omega arith)
                    (Sifted-self comp d λ c p q. ordered c p (omega arith))))
        ]
