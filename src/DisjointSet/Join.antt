-- ===== src/DisjointSet/Join.antt =====
-- `join` on a forest: which roots there are afterwards.
use crs.Base.{
  ==_refl, ltb→lt, ltb→le, ℕ, suc, ◌<◌, ◌≡◌, ◌≢◌, ◌⊎◌, ◌↔◌, sym, ◌∙◌, some, arith, ltb, ◌==◌,
  if◌then◌else◌, Bool-cases, inl, inr, Yields, yields, Yields-bind, length, get_or, set, length-set,
  sub_size, add_size, get_elem?-eq-get_or, get_or-set,
}
use crs.DisjointSet.{Groups, new_point, raise_rank, link, join}
use crs.DisjointSet.Forest.{
  IsForest, parent_of, rank_of, with_parent, set_parent-eq, parent_of-with, rank_of-with, rep_rep,
}
use crs.DisjointSet.Find.{find-IsFound}
use crs.DisjointSet.Attach.{AreRoots, IsAttached, merged, count-merged, attached-IsForest}

-- `rep'` has the roots of `rep`, but one for the items of `x` and `y` together
pub record IsMerge (rep : ℕ → ℕ) (x y : ℕ) (rep' : ℕ → ℕ) : Type 0 where
  pub merges :
      (i j : ℕ)
      → (rep' i ≡ rep' j)
        ↔ ((rep i ≡ rep j) ⊎ (((rep i ≡ x) × (rep j ≡ y)) ⊎ ((rep i ≡ y) × (rep j ≡ x))))

abbrev one_less : Groups → Groups
one_less s = record s { ngroups = sub_size s.ngroups 1 }

-- `s` with the rank of `v` raised
abbrev raised_rank : ℕ → Groups → Groups
raised_rank v s = record s {
  cont = set s.cont v (record (get_or s.cont v new_point) { rank = add_size (rank_of s v) 1 });
}

parent_of-raised :
    (v i : ℕ) (s : Groups) → v < length s.cont → parent_of (raised_rank v s) i ≡ parent_of s i
parent_of-raised v i s h = ground (
  arith,
  get_or-set s.cont v i (record (get_or s.cont v new_point) { rank = add_size (rank_of s v) 1 })
      new_point h,
)

rank_of-raised :
    (v i : ℕ) (s : Groups)
    → v < length s.cont
    → rank_of (raised_rank v s) i ≡ (if v == i then add_size (rank_of s v) 1 else rank_of s i)
rank_of-raised v i s h = ground (
  arith,
  get_or-set s.cont v i (record (get_or s.cont v new_point) { rank = add_size (rank_of s v) 1 })
      new_point h,
)

raise_rank-eq : (v : ℕ) (s : Groups) → v < length s.cont → raise_rank v s ≡ some (raised_rank v s)
unfolding raise_rank
raise_rank-eq v s h = rw (get_elem?-eq-get_or s.cont v new_point h)

module _ {n : ℕ} {s : Groups} {rep : ℕ → ℕ} (f : IsForest n s rep) where
  module _ (c t : ℕ) (r : AreRoots f c t) where
    groups_left : suc (sub_size s.ngroups 1) ≡ s.ngroups
    groups_left = omega (arith, count-merged f c t r, f.ranks c r.c_in, f.fits)

    hung : rank_of s c < rank_of s t → IsAttached f c t (one_less (with_parent c t s))
    hung lt =
        let c_size : c < length s.cont = omega (arith, f.size, r.c_in) in
        record {
          size = length-set s.cont c _ ∙ f.size;
          parents = λ i. parent_of-with c t i s c_size;
          ranks = λ i ne. rank_of-with c t i s c_size;
          raised = omega (arith, rank_of-with c t t s c_size);
          once = omega (arith, rank_of-with c t t s c_size);
          rises = omega (arith, rank_of-with c t t s c_size);
          groups = groups_left;
        }

    -- the records of `raise_rank` after `set_parent`
    hung_raised :
        rank_of s c ≡ rank_of s t → IsAttached f c t (one_less (raised_rank t (with_parent c t s)))
    hung_raised e =
        let c_size : c < length s.cont = omega (arith, f.size, r.c_in) in
        let w = with_parent c t s in
        let w_size : length w.cont ≡ n = length-set s.cont c _ ∙ f.size in
        let t_size : t < length w.cont = omega (arith, w_size, r.t_in) in
        let low = rank_of-with c t t s c_size in
        let top_rank : rank_of (raised_rank t w) t ≡ suc (rank_of s t) =
          rank_of-raised t t w t_size
          ∙ rw (==_refl t, low) (omega (arith, f.ranks t r.t_in, f.fits, count-merged f c t r)) in
        record {
          size = length-set w.cont t _ ∙ w_size;
          parents = λ i. parent_of-raised t i w t_size ∙ parent_of-with c t i s c_size;
          ranks = λ i ne. rank_of-raised t i w t_size ∙ ground (arith, rank_of-with c t i s c_size);
          raised = omega (arith, top_rank);
          once = omega (arith, top_rank);
          rises = omega (arith, top_rank);
          groups = groups_left;
        }

    merged-IsMerge : IsMerge rep c t (merged f c t)
    merged-IsMerge = record {
      merges = λ i j. (λ h. ground (arith, r.apart), λ h. ground (arith, r.apart));
    }

  swap-IsMerge : (c t : ℕ) (rep' : ℕ → ℕ) → IsMerge rep c t rep' → IsMerge rep t c rep'
  swap-IsMerge c t rep' m = record { merges = λ i j. ground (arith, m.merges i j) }

  -- what there is after `join` of items whose roots are `x` and `y`
  abbrev pub IsJoined : ℕ → ℕ → Groups → Type 0
  IsJoined x y u = (rep' : ℕ → ℕ) × IsForest n u rep' × IsMerge rep x y rep'

  link-IsJoined : (x y : ℕ) → AreRoots f x y → AreRoots f y x → Yields (IsJoined x y) (link x y s)
  unfolding link
  link-IsJoined x y r r' =
      let x_size : x < length s.cont = omega (arith, f.size, r.c_in) in
      let y_size : y < length s.cont = omega (arith, f.size, r.t_in) in
      rw
        (
          get_elem?-eq-get_or s.cont x new_point x_size,
          get_elem?-eq-get_or s.cont y new_point y_size,
        )
        (elim (Bool-cases (ltb (rank_of s x) (rank_of s y))) [
          | inl q ↦
              rw (q, set_parent-eq x y s x_size)
                (yields (
                  merged f x y,
                  attached-IsForest f x y r _ (hung x y r (ltb→lt _ _ q)),
                  merged-IsMerge x y r,
                ))
          | inr q ↦ elim (Bool-cases (ltb (rank_of s y) (rank_of s x))) [
            | inl q' ↦
                rw (q, q', set_parent-eq y x s y_size)
                  (yields (
                    merged f y x,
                    attached-IsForest f y x r' _ (hung y x r' (ltb→lt _ _ q')),
                    swap-IsMerge y x _ (merged-IsMerge y x r'),
                  ))
            | inr q' ↦
                let equal : rank_of s y ≡ rank_of s x =
                  omega (arith, ltb→le _ _ q, ltb→le _ _ q') in
                let again : x < length (with_parent y x s).cont = omega (
                  arith,
                  length-set s.cont y (record (get_or s.cont y new_point) { parent = x }),
                  f.size,
                  r.c_in,
                ) in
                rw (q, q', set_parent-eq y x s y_size, raise_rank-eq x (with_parent y x s) again)
                  (yields (
                    merged f y x,
                    attached-IsForest f y x r' _ (hung_raised y x r' equal),
                    swap-IsMerge y x _ (merged-IsMerge y x r'),
                  ))
          ]
        ])

IsMerge-same : (rep : ℕ → ℕ) (x y : ℕ) → x ≡ y → IsMerge rep x y rep
IsMerge-same rep x y e = record { merges = λ i j. (λ h. inl h, λ h. ground arith) }

-- join of two items of a forest returns and yields a forest in which their two trees are one and
-- nothing else is joined.
pub join-IsJoined :
    {n : ℕ} {s : Groups} {rep : ℕ → ℕ} (f : IsForest n s rep) (vx vy : ℕ)
    → vx < n
    → vy < n
    → Yields
        (λ u. (rep' : ℕ → ℕ) × IsForest n u rep' × IsMerge rep (rep vx) (rep vy) rep')
        (join vx vy s)
unfolding join
join-IsJoined {n} {s} {rep} f vx vy hx hy = Yields-bind (find-IsFound f vx hx) λ (xroot, s₁) g₁.
    Yields-bind (find-IsFound g₁.forest vy hy) λ (yroot, s₂) g₂.
      elim (Bool-cases (xroot == yroot)) [
        | inl q ↦
            let met : rep vx ≡ rep vy = ground (arith, g₁.root, g₂.root) in
            rw q (yields (rep, g₂.forest, IsMerge-same rep (rep vx) (rep vy) met))
        | inr q ↦
            let apart : rep vx ≢ rep vy = λ e. ground (arith, g₁.root, g₂.root) in
            let x_joined = g₂.keeps_joined (rep vx) (f.rep_in vx hx) g₁.joined in
            let roots : AreRoots g₂.forest (rep vx) (rep vy) = record {
              c_in = f.rep_in vx hx;
              t_in = f.rep_in vy hy;
              c_root = rep_rep f vx hx;
              t_root = rep_rep f vy hy;
              apart = apart;
              joined = g₂.joined;
            } in
            let turned : AreRoots g₂.forest (rep vy) (rep vx) = record {
              c_in = f.rep_in vy hy;
              t_in = f.rep_in vx hx;
              c_root = rep_rep f vy hy;
              t_root = rep_rep f vx hx;
              apart = λ e. apart (sym e);
              joined = x_joined;
            } in
            rw (q, g₁.root, g₂.root) (link-IsJoined g₂.forest (rep vx) (rep vy) roots turned)
      ]
