-- ===== src/Elements/Total.antt =====
-- `for_each` returns, whatever the action does; and what the action keeps, `for_each` keeps.
use crs.Base.{
  ℕ, zero, suc, ◌+◌, ◌-◌, ◌≤◌, ◌<◌, Bool, List, arith, length, get_or, swapped, length-swapped,
  swap-eq-swapped, [], ◌∷◌, get_elem?-eq-get_or, Yields, yields, Yields-bind, Bool-cases, inl, inr,
  ◌==◌,
}
use crs.Elements.{Action, Sweep, for_each_loop, for_each}
use crs.Elements.Domains.{ElementMap, for_each_in, for_each_in-total, for_each_all, IsRunOn}

module _ (dp : ℕ → Bool) {S : Type 0} (action : Action S) (P : S → Type 0)
    (keeps : (s : S) (e : ℕ) → P s → P (action s e).1) where
  for_each_loop-total :
      (k i : ℕ) (w : Sweep S)
      → w.last < k + i
      → i ≤ w.last
      → w.last ≤ length w.vec
      → P w.state
      → Yields (λ r. P r.state) (for_each_loop dp action k i w)
  unfolding for_each_loop
  for_each_loop-total zero i w f h v q = absurd (omega arith)
  for_each_loop-total (suc k) i w f h v q = elim (Bool-cases (i == w.last)) [
    | inl e ↦ rw e (yields q)
    | inr e ↦
        let inner : i < w.last = ground arith in
        let l = w.last - 1 in
        let read = get_elem?-eq-get_or w.vec i 0 (omega arith) in
        elim (Bool-cases ((action w.state (get_or w.vec i 0)).0)) [
          | inl has ↦
              let moved = swap-eq-swapped w.vec i l 0 (omega arith) (omega arith) in
              let end =
                get_elem?-eq-get_or (swapped w.vec 0 i l) l 0
                  (omega (arith, length-swapped w.vec 0 i l)) in
              rw (e, read, has, moved, end)
                (elim (Bool-cases (i == l)) [
                  | inl stop ↦ rw stop (yields (keeps _ _ q))
                  | inr go ↦ rw go (
                      for_each_loop-total k (i + 1) _ (omega arith) (ground arith)
                        (omega (arith, length-swapped w.vec 0 i l)) (keeps _ _ q))
                ])
          | inr none_here ↦
              rw (e, read, none_here)
                (for_each_loop-total k (i + 1) _ (omega arith) (omega arith) v (keeps _ _ q))
        ]
  ]

  pub for_each-total : (c : List ℕ) (s : S) → P s → Yields (λ r. P r.1) (for_each dp action c s)
  unfolding for_each
  for_each-total c s q =
      Yields-bind
        (for_each_loop-total (suc (length c)) 0 _ (omega arith) (omega arith) (omega arith) q)
        λ w u. yields u

  pub for_each_all-total :
      (m : ElementMap) (s : S) → P s → Yields (λ r. P r.1) (for_each_all dp action m s)
  unfolding for_each_all
  for_each_all-total [] s q = yields q
  for_each_all-total ((k, l) ∷ m) s q =
      Yields-bind (for_each-total l s q)
        λ r u. Yields-bind (for_each_all-total m r.1 u) λ r' u'. yields u'

  pub for_each_in-keeps :
      (domain : ℕ) (m : ElementMap) (s : S)
      → P s
      → Yields (λ r. P r.1) (for_each_in dp action domain m s)
  unfolding for_each_in
  for_each_in-keeps domain [] s q = yields q
  for_each_in-keeps domain ((k, l) ∷ m) s q = elim (Bool-cases (domain == k)) [
    | inl e ↦ rw e (Yields-bind (for_each-total l s q) λ r u. yields u)
    | inr e ↦ rw e (Yields-bind (for_each_in-keeps domain m s q) λ r u. yields u)
  ]

-- `for_each` on a domain returns, whatever the action does. It does what `for_each` on the domain's
-- list does, and leaves the other domains alone; a domain that is not there changes nothing.
pub for_each_in-IsRunOn :
    (dp : ℕ → Bool) {S : Type 0} (action : Action S) (domain : ℕ) (m : ElementMap) (s : S)
    → Yields (IsRunOn dp action domain m s) (for_each_in dp action domain m s)
for_each_in-IsRunOn dp action domain m s =
    for_each_in-total dp action domain m s
      (λ l h. for_each-total dp action (λ s. Unit {0}) (λ s e u. tt) l s tt)
