-- ===== src/IniFile/Values.antt =====
-- What the operations on the variables of a hub do to the values of the names.
use crs.Base.{
  ℕ, zero, suc, ◌≡◌, refl, sym, ap, ◌∙◌, inl, inr, true, false, List, [], ◌∷◌, ◌++◌, Option, none,
  some, ◌==◌, if◌then◌else◌, ◌>>=◌, some_inj, length, get_elem?, get_elem?-set, get_elem?-bound,
  get_elem?-append_end, set, Bool-cases, Option-cases, ==_iff,
}
use crs.IniFile.{Var, before}
use crs.IniFile.Access.{
  NamedHub, same_name, find_name, insert_name, append, get, get_var, assign_var, readvar,
}
use crs.IniFile.Names.{
  Unique, same_name-eq, same_name_refl, find_name-insert_name, insert_name-Unique,
}

-- the entries lead to variables of their names, and no name stands twice
pub record IsNamed (h : NamedHub) : Type 0 where
  pub named :
      (n : List ℕ) (p : ℕ)
      → find_name n h.hubcore ≡ some p
      → (v : Var) × (get_elem? h.objects p ≡ some v) × (v.name ≡ n)
  pub unique : Unique h.hubcore

-- the contents of the variable of a name
abbrev pub look : List ℕ → NamedHub → Option (List ℕ)
look n h = find_name n h.hubcore >>= λ p. get_elem? h.objects p >>= λ v. some v.contents

get_elem?-append_left :
    (xs ys : List Var) (i : ℕ) (x : Var) → get_elem? xs i ≡ some x → get_elem? (xs ++ ys) i ≡ some x
get_elem?-append_left [] ys i x e = cc
get_elem?-append_left (z ∷ xs) ys zero x e = e
get_elem?-append_left (z ∷ xs) ys (suc i) x e = get_elem?-append_left xs ys i x e

module _ (h : NamedHub) (w : IsNamed h) where
  pub readvar-look :
      (n x : List ℕ) → readvar n x h ≡ some (elim (look n h) [ none ↦ x | some s ↦ s ])
  unfolding readvar get
  readvar-look n x = elim (Option-cases (find_name n h.hubcore)) [
    | inl e ↦ rw (e, readvar, get) refl
    | inr (p, e) ↦ (let (v, at, _) = w.named n p e in rw (e, readvar, get, at) refl)
  ]

  -- `*var = str` of the variable of the name `n`
  pub assign_var_lem :
      (n str : List ℕ) (p : ℕ)
      → find_name n h.hubcore ≡ some p
      → (t : NamedHub) × (assign_var p str h ≡ some t)
        × IsNamed t
        × ((k : List ℕ) → look k t ≡ (if same_name n k then some (before 0 str) else look k h))
  unfolding assign_var
  assign_var_lem n str p e =
      let (v, at, name) = w.named n p e in
      let new : Var = record v { contents = before 0 str } in
      let bound = get_elem?-bound h.objects p v at in
      let reads = λ (q : ℕ). get_elem?-set h.objects p q new bound in
      let t : NamedHub = record h { objects = set h.objects p new } in
      let named : IsNamed t = record {
        named = λ k q f.
            let (u, there, its_name) = w.named k q f in
            elim (Bool-cases (p == q)) [
              | inl same ↦
                  let one : v ≡ u =
                    some_inj (sym at ∙ ap (get_elem? h.objects) ((==_iff p q).0 same) ∙ there) in
                  (new, reads q ∙ rw same refl, ap (λ (z : Var). z.name) one ∙ its_name)
              | inr other ↦ (u, reads q ∙ rw other there, its_name)
            ];
        unique = w.unique;
      } in
      let looks : (k : List ℕ)
          → look k t ≡ (if same_name n k then some (before 0 str) else look k h) =
        λ k. elim (Option-cases (find_name k h.hubcore)) [
          | inl f ↦
              let other : same_name n k ≡ false = elim (Bool-cases (same_name n k)) [
                | inr q ↦ q
                | inl q ↦
                    (let both : find_name k h.hubcore ≡ some p = rw (same_name-eq n k q) at e in
                      absurd cc)
              ] in
              rw (f, other) refl
          | inr (q, f) ↦
              let (u, there, its_name) = w.named k q f in
              elim (Bool-cases (same_name n k)) [
                | inl r ↦
                    let both : find_name k h.hubcore ≡ some p = rw (same_name-eq n k r) at e in
                    let one : p ≡ q = some_inj (sym both ∙ f) in
                    rw (f, reads q, (==_iff p q).1 one, r) refl
                | inr r ↦
                    let apart : p == q ≡ false = elim (Bool-cases (p == q)) [
                      | inr z ↦ z
                      | inl z ↦
                          let one : v ≡ u =
                            some_inj
                              (sym at ∙ ap (get_elem? h.objects) ((==_iff p q).0 z) ∙ there) in
                          let names : n ≡ k = sym name ∙ ap (λ (x : Var). x.name) one ∙ its_name in
                          let same : same_name n k ≡ true = rw names (same_name_refl k) in absurd cc
                    ] in
                    rw (f, reads q, apart, r, there) refl
              ]
        ] in
      rw at (t, refl, named, looks)

  -- a new variable of a name that there is none of
  pub get_var-new :
      (n : List ℕ)
      → find_name n h.hubcore ≡ none
      → (t : NamedHub) × (get_var n h ≡ some (length h.objects, t))
        × IsNamed t
        × (find_name n t.hubcore ≡ some (length h.objects))
        × ((k : List ℕ) → same_name n k ≡ false → look k t ≡ look k h)
  unfolding get_var get append
  get_var-new n e =
      let v : Var = record { name = n; contents = []; description = [] } in
      let p = length h.objects in
      let here : get_elem? (h.objects ++ v ∷ []) p ≡ some v = get_elem?-append_end h.objects [] v in
      let t : NamedHub = record {
        hubcore = insert_name n p h.hubcore;
        olist = h.olist ++ p ∷ [];
        objects = h.objects ++ v ∷ [];
        modified = true;
      } in
      let finds = λ (k : List ℕ). find_name-insert_name n k p h.hubcore e in
      let named : IsNamed t = record {
        named = λ k q f. elim (Bool-cases (same_name n k)) [
          | inl r ↦
              let one : p ≡ q = some_inj (rw r at (sym (finds k)) ∙ f) in
              (v, rw (← one) here, same_name-eq n k r)
          | inr r ↦
              let old : find_name k h.hubcore ≡ some q = rw r at (sym (finds k)) ∙ f in
              let (u, there, its_name) = w.named k q old in
              (u, get_elem?-append_left h.objects (v ∷ []) q u there, its_name)
        ];
        unique = insert_name-Unique n p h.hubcore e w.unique;
      } in
      let found : find_name n t.hubcore ≡ some p = finds n ∙ rw (same_name_refl n) refl in
      let looks : (k : List ℕ) → same_name n k ≡ false → look k t ≡ look k h = λ k r.
        let same : find_name k t.hubcore ≡ find_name k h.hubcore = finds k ∙ rw r refl in
        elim (Option-cases (find_name k h.hubcore)) [
          | inl f ↦ rw (same, f) refl
          | inr (q, f) ↦
              let (u, there, _) = w.named k q f in
              rw (same, f, there, get_elem?-append_left h.objects (v ∷ []) q u there) refl
        ] in
      rw (e, get_var, get, here) (t, refl, named, found, looks)
