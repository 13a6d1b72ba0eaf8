-- ===== src/DisjointSet/Contract.antt =====
-- A disjoint set after any joins, against the equivalence that the pairs generate.
use mathlib.Core.Path.{subst}
use crs.Base.{
  ==_refl, ℕ, zero, suc, ◌<◌, ◌≡◌, ◌⊎◌, ◌↔◌, refl, sym, ap, ◌∙◌, true, List, [], ◌∷◌, Option, some,
  arith, ◌==◌, ◌>>=◌, inl, inr, Yields, yields, Yields-bind, Yields-mono, get_or, replicate,
  length-replicate, size_mod,
}
use crs.DisjointSet.{Point, Groups, no_parent, new_point, new, clear, find, join}
use crs.DisjointSet.Forest.{IsForest, parent_of, rank_of, is_top, count}
use crs.DisjointSet.Find.{find-IsFound}
use crs.DisjointSet.Join.{IsMerge, join-IsJoined}

abbrev pub IsPair : List (ℕ × ℕ) → ℕ → ℕ → Type 0
IsPair [] x y = ⊥
IsPair ((a, b) ∷ pairs) x y = ((x ≡ a) × (y ≡ b)) ⊎ IsPair pairs x y

-- the least equivalence that relates the items of each pair
pub data Connected (pairs : List (ℕ × ℕ)) : ℕ → ℕ → Type 0 where
  paired : {x y : ℕ} → IsPair pairs x y → Connected pairs x y
  itself : {x : ℕ} → Connected pairs x x
  turned : {x y : ℕ} → Connected pairs x y → Connected pairs y x
  through : {x y z : ℕ} → Connected pairs x y → Connected pairs y z → Connected pairs x z

-- the joins of a history, which has the last one first
unfoldable pub run : ℕ → List (ℕ × ℕ) → Option Groups
run n [] = some (new n)
run n ((x, y) ∷ history) = run n history >>= join x y

abbrev pub AreIn : ℕ → List (ℕ × ℕ) → Type 0
AreIn n [] = Unit
AreIn n ((x, y) ∷ history) = (x < n) × (y < n) × AreIn n history

get_or-replicate : (n i : ℕ) → get_or (replicate n new_point) i new_point ≡ new_point
get_or-replicate zero i = refl
get_or-replicate (suc n) zero = refl
get_or-replicate (suc n) (suc i) = get_or-replicate n i

count-all : (n : ℕ) → count (λ i. i == i) n ≡ n
count-all zero = refl
count-all (suc n) = rw (==_refl n, count-all n)

-- A new disjoint set is a forest in which every item is a root.
pub new-IsForest : (n : ℕ) → n < size_mod → IsForest n (new n) (λ i. i)
unfolding new
new-IsForest n fits =
    let orphan : (i : ℕ) → parent_of (new n) i ≡ no_parent =
      λ i. ap (λ (p : Point). p.parent) (get_or-replicate n i) in
    let top : (i : ℕ) → is_top (new n) i ≡ true = λ i. ground (arith, orphan i) in
    let low : (i : ℕ) → rank_of (new n) i ≡ 0 =
      λ i. ap (λ (p : Point). p.rank) (get_or-replicate n i) in
    record {
      size = length-replicate n new_point;
      fits = fits;
      rep_in = λ i h. h;
      rep_top = λ i h. top i;
      top = λ i h t. refl;
      below = λ i h t. absurd (ground (arith, top i));
      ranks = λ i h. rw (low i) (omega arith);
      counted = sym (count-all n);
    }

-- `clear` makes every item a root again.
pub clear-IsForest :
    {n : ℕ} {s : Groups} {rep : ℕ → ℕ} → IsForest n s rep → IsForest n (clear s) (λ i. i)
unfolding clear new
clear-IsForest {n} {s} f =
    subst (λ k. IsForest n (new k) (λ i. i)) (sym f.size) (new-IsForest n f.fits)

module _ (x y : ℕ) (history : List (ℕ × ℕ)) (rep rep' : ℕ → ℕ)
    (before : (i j : ℕ) → (rep i ≡ rep j) ↔ Connected history i j)
    (m : IsMerge rep (rep x) (rep y) rep') where
  more : {i j : ℕ} → Connected history i j → Connected ((x, y) ∷ history) i j
  more (paired h) = paired (inr h)
  more itself = itself
  more (turned c) = turned (more c)
  more (through c d) = through (more c) (more d)

  link_of : Connected ((x, y) ∷ history) x y
  link_of = paired (inl (refl, refl))

  merges→Connected : (i j : ℕ) → rep' i ≡ rep' j → Connected ((x, y) ∷ history) i j
  merges→Connected i j e = elim ((m.merges i j).0 e) [
    | inl h ↦ more ((before i j).0 h)
    | inr (inl (h, g)) ↦
        through (more ((before i x).0 h)) (through link_of (more ((before y j).0 (sym g))))
    | inr (inr (h, g)) ↦
        through (more ((before i y).0 h)) (through (turned link_of) (more ((before x j).0 (sym g))))
  ]

  Connected→merges : {i j : ℕ} → Connected ((x, y) ∷ history) i j → rep' i ≡ rep' j
  Connected→merges {i} {j} (paired (inl (h, g))) = (m.merges i j).1 (inr (inl (ap rep h, ap rep g)))
  Connected→merges {i} {j} (paired (inr h)) = (m.merges i j).1 (inl ((before i j).1 (paired h)))
  Connected→merges itself = refl
  Connected→merges (turned c) = sym (Connected→merges c)
  Connected→merges (through c d) = Connected→merges c ∙ Connected→merges d

unpaired : {i j : ℕ} → Connected [] i j → i ≡ j
unpaired (paired h) = absurd h
unpaired itself = refl
unpaired (turned c) = sym (unpaired c)
unpaired (through c d) = unpaired c ∙ unpaired d

-- For fewer than 2 ^ 64 items, after any joins of items of a new disjoint set it is a forest
-- whose ranks rise towards the roots and whose counter of groups counts the roots; two items have
-- the same root exactly if the joined pairs connect them.
pub run-connects :
    (n : ℕ) (history : List (ℕ × ℕ))
    → n < size_mod
    → AreIn n history
    → Yields
        (λ s.
          (rep : ℕ → ℕ) × IsForest n s rep × ((i j : ℕ) → (rep i ≡ rep j) ↔ Connected history i j))
        (run n history)
unfolding run
run-connects n [] fits h =
    yields (λ i. i, new-IsForest n fits, λ i j. (λ e. subst (Connected [] i) e itself, unpaired))
run-connects n ((x, y) ∷ history) fits (hx, hy, h) =
    Yields-bind (run-connects n history fits h) λ s (rep, f, before).
      Yields-mono
        (λ u (rep', g, m). (
          rep',
          g,
          λ i j. (
            merges→Connected x y history rep rep' before m i j,
            Connected→merges x y history rep rep' before m,
          ),
        ))
        (join-IsJoined f x y hx hy)

-- For fewer than 2 ^ 64 items, after any joins of items of a new disjoint set two calls of find
-- return, and give the same item exactly if the joined pairs connect theirs.
pub find-connects :
    (n : ℕ) (history : List (ℕ × ℕ)) (i j : ℕ)
    → n < size_mod
    → AreIn n history
    → i < n
    → j < n
    → Yields
        (λ (a, b). (a ≡ b) ↔ Connected history i j)
        (do s ← run n history; (a, s₁) ← find i s; (b, s₂) ← find j s₁; some (a, b))
find-connects n history i j fits h hi hj =
    Yields-bind (run-connects n history fits h) λ s (rep, f, connects).
      Yields-bind (find-IsFound f i hi) λ (a, s₁) g.
        Yields-bind (find-IsFound g.forest j hj) λ (b, s₂) k. yields (
          λ e. (connects i j).0 (sym g.root ∙ e ∙ k.root),
          λ c. g.root ∙ (connects i j).1 c ∙ sym k.root,
        )
