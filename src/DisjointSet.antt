-- ===== src/DisjointSet.antt =====
-- crs/disjoint_set.cpp and crs/disjoint_set.h: class disjoint_set.
pub mod Forest
pub mod Find
pub mod Attach
pub mod Join
pub mod Contract
mod Tests
use crs.Base.{
  ℕ, zero, suc, ◌-◌, Bool, not, List, [], ◌∷◌, Option, none, some, ltb, ◌==◌, if◌then◌else◌, ◌>>=◌,
  length, get_elem?, set, replicate, size_mod, add_size, sub_size,
}

-- `point_data_t`
pub record Point : Type 0 where
  pub parent : ℕ
  pub rank : ℕ

-- `static_cast<size_t> (-1)`
abbrev pub no_parent : ℕ
no_parent = size_mod - 1

abbrev pub new_point : Point
new_point = record { parent = no_parent; rank = 0 }

pub record Groups : Type 0 where
  pub cont : List Point
  pub ngroups : ℕ

-- the constructor
unfoldable pub new : ℕ → Groups
new sz = record { cont = replicate sz new_point; ngroups = sz }

pub clear : Groups → Groups
clear s = record { cont = replicate (length s.cont) new_point; ngroups = length s.cont }

pub get_parent : ℕ → Groups → Option ℕ
get_parent vx s = do p ← get_elem? s.cont vx; some p.parent

-- `_cont[vx].parent = parent`
pub set_parent : ℕ → ℕ → Groups → Option Groups
set_parent vx parent s = do
  p ← get_elem? s.cont vx
  some (record s { cont = set s.cont vx (record p { parent = parent }) })

pub make_set : ℕ → Groups → Option (ℕ × Groups)
make_set vx s = do s' ← set_parent vx vx s; some (vx, s')

-- the `while` of `find`, on fuel
pub find_loop : ℕ → ℕ → Groups → Option ℕ
find_loop zero parent s = none
find_loop (suc k) parent s = do
  next ← get_parent parent s
  if not (parent == next) then find_loop k next s else some parent

pub find : ℕ → Groups → Option (ℕ × Groups)
find vx s =
    let follow = λ (parent : ℕ). do
      root ← find_loop (suc (length s.cont)) parent s
      s' ← set_parent vx root s
      some (root, s')
    in do parent ← get_parent vx s; if parent == no_parent then make_set vx s else follow parent

-- `++(_cont[vx].rank)`
pub raise_rank : ℕ → Groups → Option Groups
raise_rank vx s = do
  p ← get_elem? s.cont vx
  some (record s { cont = set s.cont vx (record p { rank = add_size p.rank 1 }) })

-- the end of `join`, for two roots
pub link : ℕ → ℕ → Groups → Option Groups
link xroot yroot s = do
  x ← get_elem? s.cont xroot
  y ← get_elem? s.cont yroot
  let raise : Option Groups = do s' ← set_parent yroot xroot s; raise_rank xroot s'
  s' ←
      if ltb x.rank y.rank
      then set_parent xroot yroot s
      else if ltb y.rank x.rank
      then set_parent yroot xroot s
      else raise
  some (record s' { ngroups = sub_size s'.ngroups 1 })

unfoldable pub join : ℕ → ℕ → Groups → Option Groups
join vx vy s = do
  (xroot, s₁) ← find vx s
  (yroot, s₂) ← find vy s₁
  if xroot == yroot then some s₂ else link xroot yroot s₂
