-- ===== src/DisjointSet/Find.antt =====
-- `find`: the way to the root, and the compression of the path.
use mathlib.Core.Path.{subst}
use crs.Base.{
  ℕ, zero, suc, ◌+◌, ◌≤◌, ◌<◌, ◌≡◌, ◌≢◌, ◌⊎◌, refl, sym, ap, ◌∙◌, false, arith, ◌==◌, if◌then◌else◌,
  Bool-cases, inl, inr, Yields, yields, Yields-bind, Yields-mono, length, length-set,
}
use crs.DisjointSet.{Groups, no_parent, make_set, find_loop, find}
use crs.DisjointSet.Forest.{
  IsForest, IsBelow, parent_of, rank_of, is_top, get_parent-eq, with_parent, set_parent-eq,
  parent_of-with, rank_of-with, rep_rep,
}

module _ {n : ℕ} {s : Groups} {rep : ℕ → ℕ} (f : IsForest n s rep) where
  -- setting the parent of `v` to its root
  module _ (v : ℕ) (hv : v < n)
      (hang : (v ≡ rep v)
        ⊎ ((rank_of s v < rank_of s (rep v)) × (parent_of s (rep v) ≢ no_parent))) where
    abbrev t : Groups
    t = with_parent v (rep v) s

    parents : (i : ℕ) → parent_of t i ≡ (if v == i then rep v else parent_of s i)
    parents i = parent_of-with v (rep v) i s (omega (arith, f.size))

    ranks : (i : ℕ) → rank_of t i ≡ rank_of s i
    ranks i = rank_of-with v (rep v) i s (omega (arith, f.size))

    tops : (i : ℕ) → i < n → is_top t i ≡ is_top s i
    tops i h =
        ground (arith, parents i, f.rep_in v hv, f.fits, f.top v hv, f.below v hv, f.rep_top v hv)

    keeps : (i : ℕ) → i < n → parent_of s i ≢ no_parent → parent_of t i ≢ no_parent
    keeps i h j = ground (arith, parents i, f.rep_in v hv, f.fits)

    still-IsBelow : (i : ℕ) → i < n → is_top t i ≡ false → IsBelow n t rep i
    still-IsBelow i h u =
        let old : is_top s i ≡ false = sym (tops i h) ∙ u in
        let b = f.below i h old in
        elim (Bool-cases (v == i)) [
          | inl q ↦
              let here : v ≡ i = ground arith in
              let p : parent_of t i ≡ rep v = ground (arith, parents i) in
              let apart : v ≢ rep v = λ e. ground (arith, f.rep_top v hv) in
              let up : (rank_of s v < rank_of s (rep v)) × (parent_of s (rep v) ≢ no_parent) =
                ground arith in
              record {
                parent_in = rw p (f.rep_in v hv);
                same = rw (p, rep_rep f v hv, here);
                rises = rw (p, ranks i, ranks (rep v), ← here) up.0;
                joined = rw p (keeps (rep v) (f.rep_in v hv) up.1);
              }
          | inr q ↦
              let p : parent_of t i ≡ parent_of s i = ground (arith, parents i) in
              record {
                parent_in = rw p b.parent_in;
                same = rw p b.same;
                rises = rw (p, ranks i, ranks (parent_of s i)) b.rises;
                joined = rw p (keeps (parent_of s i) b.parent_in b.joined);
              }
        ]

    pub point_to : IsForest n t rep
    point_to = record {
      size = length-set s.cont v _ ∙ f.size;
      fits = f.fits;
      rep_in = f.rep_in;
      rep_top = λ i h. tops (rep i) (f.rep_in i h) ∙ f.rep_top i h;
      top = λ i h u. f.top i h (sym (tops i h) ∙ u);
      below = still-IsBelow;
      ranks = λ i h. rw (ranks i) (f.ranks i h);
      counted = f.counted;
    }

  -- the loop from `p`, an item that was joined to another
  find_loop-rep :
      (k p : ℕ)
      → p < n
      → parent_of s p ≢ no_parent
      → n < k + rank_of s p
      → Yields
          (λ r. (r ≡ rep p) × (rank_of s p ≤ rank_of s r) × (parent_of s r ≡ r))
          (find_loop k p s)
  unfolding find_loop
  find_loop-rep zero p h j fuel = absurd (omega (arith, f.ranks p h))
  find_loop-rep (suc k) p h j fuel =
      rw (get_parent-eq f p h) (elim (Bool-cases (p == parent_of s p)) [
        | inl q ↦
            let own : parent_of s p ≡ p = ground arith in
            let root : p ≡ rep p = ground (arith, f.top p h) in
            rw q (yields (root, omega arith, own))
        | inr q ↦
            let b = f.below p h (ground arith) in
            rw q (
              Yields-mono (λ r (root, le, own). (root ∙ b.same, omega (arith, b.rises), own))
                (find_loop-rep k (parent_of s p) b.parent_in b.joined (omega (arith, b.rises))))
      ])

  -- what `find` of `v` yields
  pub record IsFound (v : ℕ) (r : ℕ × Groups) : Type 0 where
    pub root : r.0 ≡ rep v
    pub forest : IsForest n r.1 rep
    pub joined : parent_of r.1 (rep v) ≢ no_parent
    pub keeps_joined : (i : ℕ) → i < n → parent_of s i ≢ no_parent → parent_of r.1 i ≢ no_parent
    pub same_groups : r.1.ngroups ≡ s.ngroups

  IsFound-at :
      (v : ℕ) (hv : v < n)
      → ((v ≡ rep v) ⊎ ((rank_of s v < rank_of s (rep v)) × (parent_of s (rep v) ≢ no_parent)))
      → IsFound v (rep v, with_parent v (rep v) s)
  IsFound-at v hv hang = record {
    root = refl;
    forest = point_to v hv hang;
    joined = ground (arith, parents v hv hang (rep v), f.rep_in v hv, f.fits);
    keeps_joined = keeps v hv hang;
    same_groups = refl;
  }

  -- the parent of an item that has one: the item itself, or the one it hangs below
  record HasParent (v p : ℕ) : Type 0 where
    parent_in : p < n
    joined : parent_of s p ≢ no_parent
    same : rep p ≡ rep v
    rises : (v ≡ rep v) ⊎ (rank_of s v < rank_of s p)

  parent-HasParent : (v : ℕ) → v < n → parent_of s v ≢ no_parent → HasParent v (parent_of s v)
  parent-HasParent v hv j = elim (Bool-cases (parent_of s v == v)) [
    | inl q ↦
        let own : parent_of s v ≡ v = ground arith in
        record {
          parent_in = rw own hv;
          joined = rw (own, own) (rw own at j);
          same = ap rep own;
          rises = inl (ground (arith, f.top v hv));
        }
    | inr q ↦
        let b = f.below v hv (ground arith) in
        record { parent_in = b.parent_in; joined = b.joined; same = b.same; rises = inr b.rises }
  ]

  -- find of an item of a forest returns and gives its root; the forest afterwards has the same
  -- root for every item.
  pub find-IsFound : (v : ℕ) → v < n → Yields (IsFound v) (find v s)
  unfolding find make_set
  find-IsFound v hv =
      let size : v < length s.cont = omega (arith, f.size) in
      rw (get_parent-eq f v hv) (elim (Bool-cases (parent_of s v == no_parent)) [
        | inl q ↦
            let own : rep v ≡ v = ground (arith, f.top v hv) in
            rw (q, set_parent-eq v v s size)
              (yields (
                subst (λ r. IsFound v (r, with_parent v r s)) own
                  (IsFound-at v hv (inl (sym own)))))
        | inr q ↦
            let up = parent-HasParent v hv (λ e. ground arith) in
            rw q (
              Yields-bind
                (find_loop-rep (suc (length s.cont)) (parent_of s v) up.parent_in up.joined
                  (omega (arith, f.size)))
                λ r (root, le, own).
                  let is_root : r ≡ rep v = root ∙ up.same in
                  let hang : (v ≡ rep v)
                      ⊎ ((rank_of s v < rank_of s r) × (parent_of s r ≢ no_parent)) =
                    elim up.rises [
                      | inl e ↦ inl e
                      | inr lt ↦ inr (omega arith, λ e. ground (arith, f.rep_in v hv, f.fits))
                    ] in
                  rw (set_parent-eq v r s size) (
                    yields (
                      subst (λ x. IsFound v (x, with_parent v x s)) (sym is_root)
                        (IsFound-at v hv (rw is_root at hang)))))
      ])
