-- ===== src/IniFile/Size.antt =====
-- `Hub::size` and the number of characters that a hub's variables take in a file.
use mathlib.Core.List.{Permᴰ}
use mathlib.Core.Logic.{∥∥₁_elim}
use native.Mathlib.Nat.{ℕ_set}
use crs.Base.{
  ℕ, ◌+◌, ◌%◌, ◌<◌, ◌≡◌, refl, ap, ◌∙◌, List, [], ◌∷◌, ◌++◌, Perm, map, arith, length,
  length-append, size_mod,
}
use crs.IniFile.{
  rem, equ, Var, Hub, is_empty, write_description, write_var, newline_each, add_var_size, size_loop,
  hub_size,
}

module _ (contents : List ℕ) where
  sizes-add :
      (sz : ℕ) (name description : List ℕ)
      → let v : Var = record { name = name; contents = contents; description = description } in
        add_var_size sz v ≡ (sz + (length (write_var v) + 1)) % size_mod
  unfolding add_var_size write_var write_description is_empty
  sizes-add sz [] [] = omega arith
  sizes-add sz [] (d ∷ description) = omega arith
  sizes-add sz (c ∷ name) [] =
      let whole = length-append name (equ ∷ contents) in
      let more = length-append (name ++ equ ∷ contents) [] in omega arith
  sizes-add sz (c ∷ name) (d ∷ description) =
      let whole = length-append name (equ ∷ contents) in
      let more = length-append (name ++ equ ∷ contents) (rem ∷ d ∷ description) in omega arith

add_var_size_lem :
    (sz : ℕ) (v : Var) → add_var_size sz v ≡ (sz + (length (write_var v) + 1)) % size_mod
add_var_size_lem sz v = sizes-add v.contents sz v.name v.description

size_loop_lem :
    (vars : List Var) (sz : ℕ)
    → sz < size_mod
    → size_loop sz vars ≡ (sz + length (newline_each (map write_var vars))) % size_mod
unfolding size_loop newline_each
size_loop_lem [] sz h = omega arith
size_loop_lem (v ∷ vars) sz h =
    let next = add_var_size_lem sz v in
    let rest = size_loop_lem vars (add_var_size sz v) (omega arith) in
    let whole = length-append (write_var v) (newline_each (map write_var vars)) in omega arith

written-cons :
    (v : Var) (vars : List Var)
    → length (newline_each (map write_var (v ∷ vars)))
      ≡ 1 + length (write_var v) + length (newline_each (map write_var vars))
unfolding newline_each
written-cons v vars =
    let whole = length-append (write_var v) (newline_each (map write_var vars)) in omega arith

-- the characters of lines do not depend on the order of the lines
written-perm :
    {xs ys : List Var}
    → Permᴰ xs ys
    → length (newline_each (map write_var xs)) ≡ length (newline_each (map write_var ys))
written-perm Permᴰ.nil = refl
written-perm (Permᴰ.cons {a = v} {b = w} {l₁ = xs} {l₂ = ys} e p) =
    let rest = written-perm p in
    let same = ap (λ u. length (write_var u)) e in
    omega (arith, written-cons v xs, written-cons w ys)
written-perm (Permᴰ.swap {a = v} {b = w} {a' = w'} {b' = v'} {l = xs} e f) =
    let same = ap (λ u. length (write_var u)) e in
    let same' = ap (λ u. length (write_var u)) f in
    omega (
      arith,
      written-cons v (w ∷ xs),
      written-cons w xs,
      written-cons w' (v' ∷ xs),
      written-cons v' xs,
    )
written-perm (Permᴰ.trans p q) = written-perm p ∙ written-perm q

-- `Hub::size` is the number of characters that the variables of a hub take in the file, modulo
-- 2 ^ 64, in whatever order the multimap keeps them.
pub hub_size_lem :
    (h : Hub) (in_order : List Var)
    → Perm in_order h.vars
    → hub_size in_order ≡ length (newline_each (map write_var h.vars)) % size_mod
unfolding hub_size
hub_size_lem h in_order p =
    let same = ∥∥₁_elim p (ℕ_set _ _) written-perm in
    let size = size_loop_lem in_order 0 (omega arith) in omega arith
