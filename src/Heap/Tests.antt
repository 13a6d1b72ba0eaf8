-- ===== src/Heap/Tests.antt =====
-- The heap of test/test_heap.cpp's kind: numbers under `<`, a run, and the theorems at one heap.
use crs.Base.{
  ℕ, ◌<◌, ◌≡◌, refl, false, List, [], ◌∷◌, Perm, some, arith, ltb, swap, get_elem?, Yields, get_or,
}
use crs.Heap.{
  insert, get, remove, peek, pop_back, bubbleup, bubbleup_loop, bubbledown, bubbledown_loop,
  smaller_child, ancestor_index, descendant_index,
}
use crs.Heap.Order.{IsOrder, IsHeap}
use crs.Heap.Queue.{Holds, insert-Holds, get-Holds}
use crs.Heap.Remove.{remove-Holds}

ltb-IsOrder : IsOrder ltb
ltb-IsOrder = record { asym = λ a b h. ground arith; negtrans = λ a b c h k. ground arith }

abbrev sample : List ℕ
sample = 1 ∷ 4 ∷ 2 ∷ 9 ∷ 5 ∷ []

sample-IsHeap : IsHeap ltb 0 sample
unfolding ancestor_index
sample-IsHeap = grind arith

insert-sample : insert ltb sample 0 ≡ some (0, 0 ∷ 4 ∷ 1 ∷ 9 ∷ 5 ∷ 2 ∷ [])
unfolding insert bubbleup bubbleup_loop ancestor_index swap
insert-sample = refl

get-sample : get ltb sample ≡ some (1, 2 ∷ 4 ∷ 5 ∷ 9 ∷ [])
unfolding get peek swap bubbledown bubbledown_loop descendant_index smaller_child pop_back
get-sample = refl

-- an index past the end takes the last entry away
remove_past_end : remove ltb sample 7 ≡ some (1 ∷ 4 ∷ 2 ∷ 9 ∷ [])
unfolding remove pop_back
remove_past_end = refl

insert-Holds_example :
    Yields (λ r. Holds ltb 0 (0 ∷ sample) r.1 × (get_elem? r.1 r.0 ≡ some 0)) (insert ltb sample 0)
insert-Holds_example = insert-Holds ltb 0 ltb-IsOrder sample 0 sample-IsHeap

get-Holds_example :
    Yields
      (λ r.
        IsHeap ltb 0 r.1
        × Perm (r.0 ∷ r.1) sample
        × ((c : ℕ) → c < 5 → ltb (get_or sample c 0) r.0 ≡ false))
      (get ltb sample)
get-Holds_example = get-Holds ltb 0 ltb-IsOrder sample sample-IsHeap (omega arith) (omega arith)

remove-Holds_example : Yields (λ r. IsHeap ltb 0 r × Perm (4 ∷ r) sample) (remove ltb sample 1)
remove-Holds_example =
    remove-Holds ltb 0 ltb-IsOrder sample 1 sample-IsHeap (omega arith) (omega arith)
