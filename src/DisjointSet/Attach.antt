-- ===== src/DisjointSet/Attach.antt =====
-- A root is hung below another: the forest afterwards.
use crs.Base.{
  ℕ, zero, suc, ◌≤◌, ◌<◌, ◌≡◌, ◌≢◌, refl, sym, ap, ◌∙◌, Bool, true, false, not, arith, ◌==◌, ◌&&◌,
  if◌then◌else◌, Bool-cases, inl, inr, length,
}
use crs.DisjointSet.{Groups, no_parent}
use crs.DisjointSet.Forest.{IsForest, IsBelow, parent_of, rank_of, is_top, count}

count-same : (p q : ℕ → Bool) (k : ℕ) → ((i : ℕ) → i < k → q i ≡ p i) → count p k ≡ count q k
count-same p q zero h = refl
count-same p q (suc k) h = ground (arith, count-same p q k (λ i l. h i (omega arith)), h k)

count-drop :
    (p q : ℕ → Bool) (c k : ℕ)
    → c < k
    → p c ≡ true
    → q c ≡ false
    → ((i : ℕ) → i < k → i ≢ c → q i ≡ p i)
    → count p k ≡ suc (count q k)
count-drop p q c zero l a b h = absurd (omega arith)
count-drop p q c (suc k) l a b h = elim (Bool-cases (c == k)) [
  | inl e ↦
      let here : c ≡ k = ground arith in
      let others = count-same p q k (λ i j. h i (omega arith) (λ e. omega arith)) in
      let pk : p k ≡ true = ap p (sym here) ∙ a in
      let qk : q k ≡ false = ap q (sym here) ∙ b in rw (pk, qk, others)
  | inr e ↦
      let below : c < k = ground arith in
      let others = count-drop p q c k below a b (λ i j. h i (omega arith)) in
      let k_same : q k ≡ p k = h k (omega arith) (λ e. omega arith) in
      rw (k_same, others) (ground arith)
]

-- the root `c` is hung below the root `t`
module _ {n : ℕ} {s : Groups} {rep : ℕ → ℕ} (f : IsForest n s rep) (c t : ℕ) where
  -- the roots afterwards
  abbrev pub merged : ℕ → ℕ
  merged i = if rep i == c then t else rep i

  pub record AreRoots : Type 0 where
    pub c_in : c < n
    pub t_in : t < n
    pub c_root : rep c ≡ c
    pub t_root : rep t ≡ t
    pub apart : c ≢ t
    pub joined : parent_of s t ≢ no_parent

  pub record IsAttached (u : Groups) : Type 0 where
    pub size : length u.cont ≡ n
    pub parents : (i : ℕ) → parent_of u i ≡ (if c == i then t else parent_of s i)
    pub ranks : (i : ℕ) → i ≢ t → rank_of u i ≡ rank_of s i
    pub raised : rank_of s t ≤ rank_of u t
    pub once : rank_of u t ≤ suc (rank_of s t)
    pub rises : rank_of s c < rank_of u t
    pub groups : suc u.ngroups ≡ s.ngroups

  module _ (r : AreRoots) where
    pub count-merged : s.ngroups ≡ suc (count (λ i. merged i == i) n)
    count-merged =
        f.counted
        ∙ count-drop (λ i. rep i == i) (λ i. merged i == i) c n r.c_in (ground (arith, r.c_root))
            (ground (arith, r.c_root, r.apart)) (λ i h ne. ground (arith, r.t_root, r.apart))

    module _ (u : Groups) (a : IsAttached u) where
      tops : (i : ℕ) → i < n → is_top u i ≡ (is_top s i && not (c == i))
      tops i h = ground (arith, a.parents i, f.fits, r.t_in, r.apart)

      t_top : is_top s t ≡ true
      t_top = ap (is_top s) (sym r.t_root) ∙ f.rep_top t r.t_in

      rank_grows : (i : ℕ) → rank_of s i ≤ rank_of u i
      rank_grows i = elim (Bool-cases (i == t)) [
        | inl q ↦ let here : i ≡ t = ground arith in rw here a.raised
        | inr q ↦
            let same : rank_of u i ≡ rank_of s i = a.ranks i (λ e. ground arith) in omega arith
      ]

      keeps_joined : (i : ℕ) → parent_of s i ≢ no_parent → parent_of u i ≢ no_parent
      keeps_joined i j = ground (arith, a.parents i, f.fits, r.t_in)

      still-IsBelow : (i : ℕ) → i < n → is_top u i ≡ false → IsBelow n u merged i
      still-IsBelow i h u_top = elim (Bool-cases (c == i)) [
        | inl q ↦
            let here : c ≡ i = ground arith in
            let p : parent_of u i ≡ t = ground (arith, a.parents i) in
            let low : rank_of u c ≡ rank_of s c = a.ranks c r.apart in
            record {
              parent_in = rw p r.t_in;
              same = rw p (ground (arith, r.t_root, r.c_root, r.apart));
              rises = rw (p, ← here, low) a.rises;
              joined = rw p (keeps_joined t r.joined);
            }
        | inr q ↦
            let p : parent_of u i ≡ parent_of s i = ground (arith, a.parents i) in
            let old : is_top s i ≡ false = ground (arith, tops i h) in
            let b = f.below i h old in
            let not_t : i ≢ t = λ e. ground (arith, sym old ∙ ap (is_top s) e ∙ t_top) in
            record {
              parent_in = rw p b.parent_in;
              same = rw (p, b.same);
              rises = rw (p, a.ranks i not_t) (omega (arith, b.rises, rank_grows (parent_of s i)));
              joined = rw p (keeps_joined (parent_of s i) b.joined);
            }
      ]

      pub attached-IsForest : IsForest n u merged
      attached-IsForest = record {
        size = a.size;
        fits = f.fits;
        rep_in = λ i h. ground (arith, f.rep_in i h, r.t_in);
        rep_top = λ i h. elim (Bool-cases (rep i == c)) [
          | inl q ↦ rw q (tops t r.t_in ∙ rw t_top (ground (arith, r.apart)))
          | inr q ↦ rw q (tops (rep i) (f.rep_in i h) ∙ rw (f.rep_top i h) (ground arith))
        ];
        top = λ i h top. ground (arith, tops i h, f.top i h);
        below = still-IsBelow;
        ranks = λ i h. elim (Bool-cases (i == t)) [
          | inl q ↦
              let here : i ≡ t = ground arith in
              rw here (omega (arith, f.ranks t r.t_in, a.once, a.groups))
          | inr q ↦ rw (a.ranks i (λ e. ground arith)) (omega (arith, f.ranks i h, a.groups))
        ];
        counted = omega (arith, count-merged, a.groups);
      }
