-- ===== src/IniFile/Names.antt =====
-- The multimap of names, in which no name stands twice.
use crs.Base.{
  ℕ, ◌≡◌, refl, ap, ◌∙◌, inl, inr, true, false, List, [], ◌∷◌, none, some, arith, if◌then◌else◌,
  Bool-cases, ==_refl,
}
use crs.IniFile.Access.{same_name, find_name, insert_name, erase_name}

pub same_name-eq : (a b : List ℕ) → same_name a b ≡ true → a ≡ b
unfolding same_name
same_name-eq [] [] e = refl
same_name-eq [] (y ∷ b) e = cc
same_name-eq (x ∷ a) [] e = cc
same_name-eq (x ∷ a) (y ∷ b) e = ground (arith, same_name-eq a b)

pub same_name_refl : (a : List ℕ) → same_name a a ≡ true
unfolding same_name
same_name_refl [] = refl
same_name_refl (x ∷ a) = rw (==_refl x) (same_name_refl a)

same_name-via : (a b c : List ℕ) → same_name a b ≡ true → same_name a c ≡ same_name b c
same_name-via a b c e = ap (λ x. same_name x c) (same_name-eq a b e)

pub find_name-insert_name :
    (n k : List ℕ) (v : ℕ) (m : List (List ℕ × ℕ))
    → find_name n m ≡ none
    → find_name k (insert_name n v m) ≡ (if same_name n k then some v else find_name k m)
unfolding find_name insert_name
find_name-insert_name n k v [] e = refl
find_name-insert_name n k v ((j, p) ∷ m) e =
    let old = find_name-insert_name n k v m in
    let via = same_name-via j k n in
    let same = same_name-via n k in
    elim (Bool-cases (same_name j n)) [
      | inl q ↦ absurd (ground arith)
      | inr q ↦ elim (Bool-cases (same_name j k)) [
        | inl r ↦
            let other : same_name n k ≡ false = elim (Bool-cases (same_name n k)) [
              | inr s ↦ s
              | inl s ↦
                  let jn : same_name j n ≡ true =
                    same_name-via j k n r ∙ rw (same_name-eq n k s) (same_name_refl k) in
                  absurd cc
            ] in
            ground (arith, old)
        | inr r ↦ ground (arith, old)
      ]
    ]

-- no name stands twice
abbrev pub Unique : List (List ℕ × ℕ) → Type 0
Unique [] = Unit
Unique ((k, p) ∷ m) = (find_name k m ≡ none) × Unique m

pub same_name-swap : (a b : List ℕ) → same_name a b ≡ false → same_name b a ≡ false
same_name-swap a b e = elim (Bool-cases (same_name b a)) [
  | inr q ↦ q
  | inl q ↦
      let same : same_name a b ≡ true = rw (same_name-eq b a q) (same_name_refl a) in absurd cc
]

pub insert_name-Unique :
    (n : List ℕ) (v : ℕ) (m : List (List ℕ × ℕ))
    → find_name n m ≡ none
    → Unique m
    → Unique (insert_name n v m)
unfolding insert_name find_name
insert_name-Unique n v [] e u = (refl, tt)
insert_name-Unique n v ((k, p) ∷ m) e u = elim (Bool-cases (same_name k n)) [
  | inl q ↦ absurd (ground arith)
  | inr q ↦
      let apart : find_name n m ≡ none = rw q at e in
      let swap = same_name-swap k n q in
      let tail = insert_name-Unique n v m apart u.1 in
      let head = find_name-insert_name n k v m apart in
      let none_left : find_name k (insert_name n v m) ≡ none = rw swap at head ∙ u.0 in
      ground (arith, tail, none_left)
]

pub find_name-erase_name :
    (n k : List ℕ) (m : List (List ℕ × ℕ))
    → Unique m
    → find_name k (erase_name n m) ≡ (if same_name n k then none else find_name k m)
unfolding find_name erase_name
find_name-erase_name n k [] u = ground arith
find_name-erase_name n k ((j, p) ∷ m) u =
    let rest = find_name-erase_name n k m u.1 in
    elim (Bool-cases (same_name j n)) [
      | inl q ↦
          let same = same_name-eq j n q in
          let gone : find_name n m ≡ none = rw (← same) u.0 in
          elim (Bool-cases (same_name n k)) [
            | inl r ↦
                let named = same_name-eq n k r in
                let gone_k : find_name k m ≡ none = rw (← named) gone in rw (q, r) gone_k
            | inr r ↦ let other : same_name j k ≡ false = rw same r in rw (q, r, other) refl
          ]
      | inr q ↦
          let swap = same_name-swap j n q in
          elim (Bool-cases (same_name j k)) [
            | inl r ↦
                let other : same_name n k ≡ false = rw (← same_name-eq j k r) swap in
                rw (q, r, other) refl
            | inr r ↦ rw (q, r) rest
          ]
    ]

pub erase_name-Unique : (n : List ℕ) (m : List (List ℕ × ℕ)) → Unique m → Unique (erase_name n m)
unfolding erase_name
erase_name-Unique n [] u = tt
erase_name-Unique n ((k, p) ∷ m) u =
    let rest = erase_name-Unique n m u.1 in
    let gone = find_name-erase_name n k m u.1 in
    let none_left : find_name k (erase_name n m) ≡ none = ground (arith, gone, u.0) in
    ground (arith, rest, none_left, u.1)
