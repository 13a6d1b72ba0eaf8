-- ===== src/DisjointSet/Tests.antt =====
-- A disjoint set of five items.
use crs.Base.{ℕ, ◌≡◌, ◌↔◌, refl, List, [], ◌∷◌, some, arith, Yields, ◌>>=◌}
use crs.DisjointSet.{new, find, find_loop, get_parent, set_parent, make_set, raise_rank, join, link}
use crs.DisjointSet.Forest.{IsForest}
use crs.DisjointSet.Find.{IsFound, find-IsFound}
use crs.DisjointSet.Join.{IsMerge, join-IsJoined}
use crs.DisjointSet.Contract.{Connected, run, new-IsForest, run-connects, find-connects}

abbrev pairs : List (ℕ × ℕ)
pairs = (1, 4) ∷ (2, 3) ∷ (0, 1) ∷ []

find_four : (run 5 pairs >>= find 4 >>= λ r. some r.0) ≡ some 0
unfolding run new find find_loop get_parent set_parent make_set raise_rank join link
find_four = refl

groups_left : (run 5 pairs >>= λ s. some s.ngroups) ≡ some 2
unfolding run new find find_loop get_parent set_parent make_set raise_rank join link
groups_left = refl

find-IsFound_run : Yields (IsFound (new-IsForest 5 (omega arith)) 3) (find 3 (new 5))
find-IsFound_run = find-IsFound (new-IsForest 5 (omega arith)) 3 (omega arith)

join-IsJoined_run :
    Yields (λ u. (rep' : ℕ → ℕ) × IsForest 5 u rep' × IsMerge (λ i. i) 2 3 rep') (join 2 3 (new 5))
join-IsJoined_run = join-IsJoined (new-IsForest 5 (omega arith)) 2 3 (omega arith) (omega arith)

run-connects_run :
    Yields
      (λ s. (rep : ℕ → ℕ) × IsForest 5 s rep × ((i j : ℕ) → (rep i ≡ rep j) ↔ Connected pairs i j))
      (run 5 pairs)
run-connects_run = run-connects 5 pairs (omega arith) (grind arith)

find-connects_example :
    Yields
      (λ (a, b). (a ≡ b) ↔ Connected pairs 0 4)
      (do s ← run 5 pairs; (a, s₁) ← find 0 s; (b, s₂) ← find 4 s₁; some (a, b))
find-connects_example =
    find-connects 5 pairs 0 4 (omega arith) (grind arith) (omega arith) (omega arith)
