-- ===== src/Heap.antt =====
-- crs/heap.h: class heap <Type, Comp>, a binary heap in a `std::vector`.
-- A method takes the vector and returns the new one. `none` is undefined behaviour (an access out
-- of range, `front` or `pop_back` of an empty vector) or a loop that used up its fuel; the fuel of
-- each loop is the number of nodes that it could pass, plus one.
pub mod Order
pub mod Up
pub mod Down
pub mod Queue
pub mod Remove
mod Tests
use crs.Base.{
  ℕ, zero, suc, ◌+◌, ◌-◌, ◌*◌, ◌/◌, ◌%◌, Bool, Option, none, some, List, [], ◌∷◌, ◌++◌, ◌&&◌, not,
  ltb, ◌==◌, if◌then◌else◌, ◌>>=◌, size_mod, add_size, length, get_elem?, take, swap,
}

-- `node_index & 1` is `node_index % 2`, `>> 1` is `/ 2`.
pub ancestor_index : ℕ → ℕ
ancestor_index node_index =
    if node_index == 0
    then 0
    else if node_index % 2 == 1
    then node_index / 2
    else (node_index - 1) / 2

pub descendant_index : ℕ → ℕ
descendant_index node_index = add_size ((node_index * 2) % size_mod) 1

-- `std::vector::pop_back`
pub pop_back {ℓ} : {A : Type ℓ} → List A → Option (List A)
pop_back [] = none
pop_back (x ∷ h) = some (take (length h) (x ∷ h))

pub peek {ℓ} : {A : Type ℓ} → List A → Option A
peek [] = none
peek (x ∷ h) = some x

pub at {ℓ} : {A : Type ℓ} → List A → ℕ → Option A
at h node_index = get_elem? h node_index

module _ {A : Type 0} (comp : A → A → Bool) where
  -- The `while` of `_bubleup_heap`. It returns the index where the value stops.
  pub bubbleup_loop : ℕ → List A → ℕ → Option (ℕ × List A)
  bubbleup_loop zero h node_index = none
  bubbleup_loop (suc k) h node_index =
      let ancr_index = ancestor_index node_index in
      let rise : Option (ℕ × List A) =
        swap h node_index ancr_index >>= λ h'. bubbleup_loop k h' ancr_index in
      let test : Option (ℕ × List A) = do
        x ← get_elem? h node_index
        y ← get_elem? h ancr_index
        if comp x y then rise else some (node_index, h)
      in if ltb ancr_index node_index then test else some (node_index, h)

  pub bubbleup : List A → ℕ → Option (ℕ × List A)
  bubbleup h node_index = bubbleup_loop (suc node_index) h node_index

  -- The first `if` of the loop of `_bubledown_heap`: the smaller of the two children.
  pub smaller_child : List A → ℕ → ℕ → Option ℕ
  smaller_child h desc_index sz =
      let compare_children : Option ℕ = do
        x ← get_elem? h (add_size desc_index 1)
        y ← get_elem? h desc_index
        some (if comp x y then add_size desc_index 1 else desc_index)
      in if ltb (add_size desc_index 1) sz then compare_children else some desc_index

  pub bubbledown_loop : ℕ → List A → ℕ → ℕ → Option (List A)
  bubbledown_loop zero h node_index sz = none
  bubbledown_loop (suc k) h node_index sz =
      let desc_index = descendant_index node_index in
      let body : Option (List A) = do
        child ← smaller_child h desc_index sz
        x ← get_elem? h child
        y ← get_elem? h node_index
        let sink : Option (List A) = swap h node_index child >>= λ h'. bubbledown_loop k h' child sz
        if comp x y then sink else some h
      in if ltb desc_index sz then body else some h

  pub bubbledown : List A → ℕ → ℕ → Option (List A)
  bubbledown h node_index sz = bubbledown_loop (suc sz) h node_index sz

  pub insert : List A → A → Option (ℕ × List A)
  insert h val = bubbleup (h ++ val ∷ []) (length (h ++ val ∷ []) - 1)

  -- On `size () - 1`: the test before it rules out an empty vector.
  pub remove : List A → ℕ → Option (List A)
  remove h node_index =
      let moved : Option (List A) = do
        s ← swap h node_index (length h - 1)
        (_, u) ← bubbleup s node_index
        bubbledown u node_index (length u - 1)
      in (if ltb node_index (length h) && not (node_index == length h - 1) then moved else some h)
        >>= pop_back

  pub get : List A → Option (A × List A)
  get h = do
    r ← peek h
    let moved : Option (List A) = do s ← swap h 0 (length h - 1); bubbledown s 0 (length s - 1)
    b ← if ltb 1 (length h) then moved else some h
    rest ← pop_back b
    some (r, rest)
