-- ===== src/Heap/Queue.antt =====
-- The public methods of the heap: `insert`, `get` and `remove` against a multiset with an order.
use mathlib.Core.List.Perm
use crs.Base.{
  ℕ, suc, ◌+◌, ◌-◌, ◌^◌, ◌<◌, ◌≡◌, refl, ap, ◌∙◌, Bool, false, List, [], ◌∷◌, ◌++◌, Perm, some,
  arith, length, get_or, get_elem?, take, swapped, get_or-swapped, length-swapped, swap-eq-swapped,
  swapped-perm, length-append, get_or-append_left, length-take, get_or-take, take-last,
  append_one-perm, length-perm, get_elem?-eq-get_or, Bool-cases, inl, inr, Yields, yields,
  Yields-mono, Yields-bind, ltb,
}
use crs.Heap.{ancestor_index, bubbleup, bubbledown, insert, get, peek, pop_back}
use crs.Heap.Order.{IsOrder, IsHeap, Sifted, Sifted-self, ancestor_index-lt, root_least}
use crs.Heap.Up.{bubbleup_loop_restores}
use crs.Heap.Down.{bubbledown_loop_restores}

module _ {A : Type 0} (comp : A → A → Bool) (d : A) where
  -- `b` is a heap of exactly the items of `h`
  abbrev pub Holds : List A → List A → Type 0
  Holds h b = IsHeap comp d b × Perm b h

  pop_back_lem : (b : List A) (n : ℕ) → length b ≡ suc n → pop_back b ≡ some (take n b)
  unfolding pop_back
  pop_back_lem [] n e = absurd (omega arith)
  pop_back_lem (x ∷ b) n e = ap (λ k. some (take k (x ∷ b))) (omega arith)

  peek_lem : (h : List A) → 0 < length h → peek h ≡ some (get_or h 0 d)
  unfolding peek
  peek_lem [] p = absurd (omega arith)
  peek_lem (x ∷ h) p = refl

  -- dropping the last entry of a vector in order before it leaves a heap of the others
  pub Sifted-pop_back :
      (n : ℕ) (s b : List A)
      → length s ≡ suc n
      → Sifted comp d n s b
      → Yields (λ r. IsHeap comp d r × Perm (get_or s n d ∷ r) s) (pop_back b)
  Sifted-pop_back n s b e f =
      let size : length b ≡ suc n = length-perm f.same ∙ e in
      let short = length-take n b (omega arith) in
      let last : get_or b n d ≡ get_or s n d = f.kept n (omega arith) in
      rw (pop_back_lem b n size) (
        yields (
          (λ c p q. ground (
            arith,
            short,
            f.ordered c p,
            ancestor_index-lt c p,
            get_or-take n b c d,
            get_or-take n b (ancestor_index c) d,
          )),
          Perm.trans (Perm.symm (append_one-perm (take n b) (get_or s n d)))
              (rw (← last, ← take-last n b d size) f.same),
        ))

  module _ (o : IsOrder comp) where
    -- For a comparison that is a strict weak order, insert of a value into a heap yields a heap
    -- with exactly that item more, and the index at which the value stands.
    pub insert-Holds :
        (h : List A) (val : A)
        → IsHeap comp d h
        → Yields (λ r. Holds (val ∷ h) r.1 × (get_elem? r.1 r.0 ≡ some val)) (insert comp h val)
    unfolding insert bubbleup
    insert-Holds h val ordered =
        let n = length h in
        let size : length grown ≡ n + 1 = omega (arith, length-append h (val ∷ [])) in
        let start : length grown - 1 ≡ n = omega arith in
        rw start (
          Yields-mono
            (λ r (s, below, found).
              let same = Perm.trans s.same (append_one-perm h val) in
              let total = length-perm same in
              (
                ((λ c p q. s.ordered c p (omega arith)), same),
                get_elem?-eq-get_or r.1 r.0 d (omega arith) ∙ ap some (found ∙ at_end h),
              ))
            (bubbleup_loop_restores comp d o (suc n) (suc n) grown n (omega arith) (omega arith)
              (omega arith)
              (record {
                edges = λ c p q r. ground (
                  arith,
                  ordered c p,
                  ancestor_index-lt c p,
                  get_or-append_left h (val ∷ []) c d,
                  get_or-append_left h (val ∷ []) (ancestor_index c) d,
                );
                bridged = λ c p q e pos. absurd (omega (arith, ancestor_index-lt c p));
              })))
      where
        grown : List A
        grown = h ++ val ∷ []

        at_end : (h : List A) → get_or (h ++ val ∷ []) (length h) d ≡ val
        at_end [] = refl
        at_end (x ∷ h) = at_end h

    -- For a comparison that is a strict weak order, get on a heap of at least one and fewer than
    -- 2 ^ 63 items yields an item that no item of the heap comes before, and leaves a heap of
    -- exactly the other items.
    pub get-Holds :
        (h : List A)
        → IsHeap comp d h
        → 0 < length h
        → length h < 2 ^ 63
        → Yields
            (λ r.
              IsHeap comp d r.1
              × Perm (r.0 ∷ r.1) h
              × ((c : ℕ) → c < length h → comp (get_or h c d) r.0 ≡ false))
            (get comp h)
    unfolding get bubbledown
    get-Holds h ordered pos small = elim (Bool-cases (ltb 1 (length h))) [
      | inl more ↦
          let n = length h - 1 in
          let above : 0 < n = ground arith in
          let size : length (swapped h d 0 n) ≡ suc n = omega (arith, length-swapped h d 0 n) in
          let last : length (swapped h d 0 n) - 1 ≡ n = omega arith in
          let at = λ (c : ℕ). get_or-swapped h d 0 n c (omega arith) (omega arith) in
          let root : get_or (swapped h d 0 n) n d ≡ get_or h 0 d = ground (arith, at n) in
          rw (peek_lem h pos, more, swap-eq-swapped h 0 n d (omega arith) (omega arith), last)
            (Yields-bind
              (bubbledown_loop_restores comp d o n (suc n) (swapped h d 0 n) 0 (omega arith)
                (omega arith) (omega arith) (omega arith)
                (record {
                  edges = λ c p q r.
                      ground
                        (arith, ordered c p, ancestor_index-lt c p, at c, at (ancestor_index c));
                  bridged = λ c p q e r. absurd (omega arith);
                }))
              λ b f. Yields-bind (Sifted-pop_back n _ b size f) λ rest (heap, same). yields (
                heap,
                Perm.trans (rw root at same) (swapped-perm h d 0 n (omega arith) (omega arith)),
                λ c q. root_least comp d o h c ordered q,
              ))
      | inr one ↦
          rw (peek_lem h pos, one)
            (Yields-bind
              (Sifted-pop_back 0 h h (ground arith)
                (Sifted-self comp d λ c p q. absurd (omega arith)))
              λ rest (heap, same). yields (heap, same, λ c q. root_least comp d o h c ordered q))
    ]
