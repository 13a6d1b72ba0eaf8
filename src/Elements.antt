-- ===== src/Elements.antt =====
-- crs/ude/data_core.h: element_list and element_map.
-- A pointer is a number, the null pointer is 0. The loop of `for_each` may call an action that
-- keeps a state of its own; `destroyed` collects the pointers that were given to `delete`.
pub mod Removal
pub mod Skipped
pub mod Domains
pub mod Total
mod Tests
use crs.Base.{
  ℕ, zero, suc, ◌+◌, ◌-◌, Bool, true, false, not, List, [], ◌∷◌, ◌++◌, Option, none, some, ◌==◌,
  if◌then◌else◌, ◌>>=◌, length, get_elem?, take, swap,
}

-- `bool operator () (element_type *)`: whether to remove the element, and the state afterwards
abbrev pub Action {ℓ} : Type ℓ → Type ℓ
Action S = S → ℕ → Bool × S

-- where a loop over the vector stands
pub record Sweep (S : Type 0) : Type 0 where
  pub vec : List ℕ
  -- the iterator `l`
  pub last : ℕ
  pub state : S
  pub destroyed : List ℕ

-- `destroy_predicate` of an element list
pub pointer_is_non_null : ℕ → Bool
pointer_is_non_null e = not (e == 0)

module _ (destroy_predicate : ℕ → Bool) where
  unfoldable pub destroy_element : List ℕ → ℕ → List ℕ
  destroy_element destroyed e = if destroy_predicate e then destroyed ++ e ∷ [] else destroyed

  module _ {S : Type 0} (action : Action S) where
    -- The loop with `i` at an index; `none` is an access out of range or a want of fuel.
    unfoldable pub for_each_loop : ℕ → ℕ → Sweep S → Option (Sweep S)
    for_each_loop zero i w = none
    for_each_loop (suc k) i w =
        let body : Option (Sweep S) = do
          e ← get_elem? w.vec i
          let (taken, s) = action w.state e
          let l = w.last - 1
          let drop_it : Option (Sweep S) = do
            v ← swap w.vec i l
            d ← get_elem? v l
            let w' : Sweep S = record {
              vec = v;
              last = l;
              state = s;
              destroyed = destroy_element w.destroyed d;
            }
            let rest = for_each_loop k (i + 1) w'
            if i == l then some w' else rest
          let keep_it = for_each_loop k (i + 1) (record w { state = s })
          if taken then drop_it else keep_it
        in if i == w.last then some w else body

    -- `element_list::for_each`: the vector, the state and the destroyed elements afterwards
    unfoldable pub for_each : List ℕ → S → Option (List ℕ × S × List ℕ)
    for_each container s =
        let start : Sweep S = record {
          vec = container;
          last = length container;
          state = s;
          destroyed = [];
        } in
        for_each_loop (suc (length container)) 0 start >>= λ w.
        some (take w.last w.vec, w.state, w.destroyed)

  -- `element_list::remove` has the same loop, with the test `*i == element`.
  pub remove : ℕ → List ℕ → Option (List ℕ × List ℕ)
  remove element container =
      for_each (λ (s : Unit {0}) e. (e == element, s)) container tt >>= λ (kept, _, destroyed).
      some (kept, destroyed)

-- `element_list::add`
pub add : ℕ → List ℕ → List ℕ
add element container = if not (element == 0) then container ++ element ∷ [] else container
