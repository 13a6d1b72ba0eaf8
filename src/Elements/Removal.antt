-- ===== src/Elements/Removal.antt =====
-- The loop of `for_each` and `remove` over a vector: which elements stay, and which are removed,
-- where the action's answer depends on the element alone.
use mathlib.Core.List.Perm
use crs.Base.{
  ℕ, zero, suc, ◌+◌, ◌-◌, ◌≤◌, ◌<◌, ◌≡◌, inl, inr, Bool, true, false, List, ◌++◌, Perm, arith,
  length, drop, get_or, swapped, get_or-swapped, length-swapped, swapped-perm, swap-eq-swapped,
  get_elem?-eq-get_or, Yields, yields, Yields-mono, Yields-bind, Bool-cases, ◌==◌, if◌then◌else◌,
  get_or-take, take-append-drop, get_or-drop, length-drop, length-take,
}
use crs.Elements.{Action, Sweep, for_each_loop, for_each, remove}

module _ (p : ℕ → Bool) where
  -- no two places of `c` have `p`
  abbrev pub AtMostOnce : List ℕ → Type 0
  AtMostOnce c =
      (j k : ℕ)
      → j < length c
      → k < length c
      → p (get_or c j 0) ≡ true
      → p (get_or c k 0) ≡ true
      → j ≡ k

  -- `kept` and `removed` are the elements of `c`; all of `removed` have `p`, and none of `kept`
  -- if only one element of `c` has it
  pub record IsSplit (c kept removed : List ℕ) : Type 0 where
    pub same : Perm (kept ++ removed) c
    pub taken : (j : ℕ) → j < length removed → p (get_or removed j 0) ≡ true
    pub left : AtMostOnce c → (j : ℕ) → j < length kept → p (get_or kept j 0) ≡ false

module _ {S : Type 0} (dp : ℕ → Bool) (p : ℕ → Bool) (f : S → ℕ → S) where
  -- an action that removes the elements with `p`, whatever its state is
  abbrev pub acts : Action S
  acts s e = (p e, f s e)

  -- the vector of the loop at `i`, having started on `c`: from `l` on stand the removed ones
  record SweepInv (c : List ℕ) (v : List ℕ) (l : ℕ) : Type 0 where
    same : Perm v c
    within : l ≤ length v
    removed : (j : ℕ) → l ≤ j → j < length v → p (get_or v j 0) ≡ true

  -- none before `l` has `p` but the ones at `i` and later, and of these one at most
  record OnceInv (v : List ℕ) (i l : ℕ) : Type 0 where
    passed : (j : ℕ) → j < i → p (get_or v j 0) ≡ false
    once : (j k : ℕ) → j < l → k < l → p (get_or v j 0) ≡ true → p (get_or v k 0) ≡ true → j ≡ k

  module _ (c v : List ℕ) (i l : ℕ) (hi : i < l) (inv : SweepInv c v l)
      (has : p (get_or v i 0) ≡ true) where
    at :
        (j : ℕ)
        → get_or (swapped v 0 i (l - 1)) j 0 ≡ (
            if l - 1 == j
            then get_or v i 0
            else if i == j
            then get_or v (l - 1) 0
            else get_or v j 0)
    at j = get_or-swapped v 0 i (l - 1) j (omega (arith, inv.within)) (omega (arith, inv.within))

    removal-SweepInv : SweepInv c (swapped v 0 i (l - 1)) (l - 1)
    removal-SweepInv = record {
      same =
          Perm.trans
            (swapped-perm v 0 i (l - 1) (omega (arith, inv.within)) (omega (arith, inv.within)))
            inv.same;
      within = omega (arith, inv.within, length-swapped v 0 i (l - 1));
      removed = λ j q r. ground (arith, at j, inv.removed j, length-swapped v 0 i (l - 1));
    }

    -- the removed one was the only one
    removal-OnceInv :
        OnceInv v i l → (j : ℕ) → j < l - 1 → p (get_or (swapped v 0 i (l - 1)) j 0) ≡ false
    removal-OnceInv o j q = elim (Bool-cases (p (get_or (swapped v 0 i (l - 1)) j 0))) [
      | inl e ↦ absurd (ground (arith, at j, o.once i j, o.once i (l - 1)))
      | inr e ↦ e
    ]

  for_each_loop-SweepInv :
      (c : List ℕ) (k i : ℕ) (w : Sweep S)
      → w.last < k + i
      → i ≤ w.last
      → SweepInv c w.vec w.last
      → Yields
          (λ r.
            SweepInv c r.vec r.last
            × (OnceInv w.vec i w.last → (j : ℕ) → j < r.last → p (get_or r.vec j 0) ≡ false))
          (for_each_loop dp acts k i w)
  unfolding for_each_loop
  for_each_loop-SweepInv c zero i w f h v = absurd (omega arith)
  for_each_loop-SweepInv c (suc k) i w f h v = elim (Bool-cases (i == w.last)) [
    | inl e ↦ rw e (yields (v, λ o j q. o.passed j (ground arith)))
    | inr e ↦
        let inner : i < w.last = ground arith in
        let l = w.last - 1 in
        let read = get_elem?-eq-get_or w.vec i 0 (omega (arith, v.within)) in
        elim (Bool-cases (p (get_or w.vec i 0))) [
          | inl has ↦
              let moved =
                swap-eq-swapped w.vec i l 0 (omega (arith, v.within)) (omega (arith, v.within)) in
              let end =
                get_elem?-eq-get_or (swapped w.vec 0 i l) l 0
                  (omega (arith, v.within, length-swapped w.vec 0 i l)) in
              let inv = removal-SweepInv c w.vec i w.last inner v has in
              let only = removal-OnceInv c w.vec i w.last inner v has in
              rw (e, read, has, moved, end)
                (elim (Bool-cases (i == l)) [
                  | inl stop ↦ rw stop (yields (inv, only))
                  | inr go ↦ rw go (
                      Yields-mono
                        (λ r (swept, rest). (
                          swept,
                          λ o. rest (record {
                            passed = λ j q. only o j (ground arith);
                            once = λ j j' q q' a b. absurd (cc (only o j q));
                          }),
                        ))
                        (for_each_loop-SweepInv c k (i + 1) _ (omega arith) (ground arith) inv))
                ])
          | inr none_here ↦
              rw (e, read, none_here)
                (Yields-mono
                  (λ r (swept, rest). (
                    swept,
                    λ o.
                        rest (record { passed = λ j q. ground (arith, o.passed j); once = o.once }),
                  ))
                  (for_each_loop-SweepInv c k (i + 1) _ (omega arith) (omega arith) v))
        ]
  ]

  -- Where the action's answer depends on the element alone, for_each returns, loses no element,
  -- and removes only elements that the action wants removed; if there is one of these at most, it
  -- removes all of them.
  pub for_each-IsSplit :
      (c : List ℕ) (s : S)
      → Yields (λ r. (removed : List ℕ) × IsSplit p c r.0 removed) (for_each dp acts c s)
  unfolding for_each
  for_each-IsSplit c s =
      let start : SweepInv c c (length c) = record {
        same = Perm.rfl;
        within = omega arith;
        removed = λ j q r. absurd (omega arith);
      } in
      let run = for_each_loop-SweepInv c (suc (length c)) 0 _ (omega arith) (omega arith) start in
      Yields-bind run λ w (inv, only). yields (
        drop w.last w.vec,
        record {
          same = rw take-append-drop inv.same;
          taken = λ j q. ground (
            arith,
            inv.removed (w.last + j),
            get_or-drop w.last w.vec j 0,
            length-drop w.last w.vec,
          );
          left = λ once j q.
              let short = length-take w.last w.vec inv.within in
              ground (
                arith,
                only (record { passed = λ i r. absurd (omega arith); once = once }) j,
                get_or-take w.last w.vec j 0,
              );
        },
      )

-- remove returns and loses no element; it takes out only the element that it is given, and takes
-- it out if it is there at most once.
pub remove-IsSplit :
    (dp : ℕ → Bool) (element : ℕ) (c : List ℕ)
    → Yields
        (λ r. (removed : List ℕ) × IsSplit (λ e. e == element) c r.0 removed)
        (remove dp element c)
unfolding remove
remove-IsSplit dp element c =
    Yields-bind (for_each-IsSplit dp (λ e. e == element) (λ s e. s) c tt) λ r split. yields split
