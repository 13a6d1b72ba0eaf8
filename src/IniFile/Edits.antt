-- ===== src/IniFile/Edits.antt =====
-- The values that `readvar` finds after any calls of `writevar` and `erase`.
use crs.Base.{
  ℕ, ◌≡◌, refl, sym, ap, ◌∙◌, inl, inr, Bool, true, false, List, [], ◌∷◌, Option, none, some,
  if◌then◌else◌, ◌>>=◌, length, drop, Bool-cases, Option-cases,
}
use crs.IniFile.{before}
use crs.IniFile.Access.{
  NamedHub, new_hub, same_name, find_name, get, get_var, erase_name, erase_first, erase_var,
  writevar, readvar, writevar_bool, readvar_bool, true_word, false_word, starts_with,
}
use crs.Parsing.{skip_spaces}
use crs.IniFile.Names.{same_name-eq, same_name_refl, find_name-erase_name, erase_name-Unique}
use crs.IniFile.Values.{IsNamed, look, readvar-look, assign_var_lem, get_var-new}

pub data Edit : Type 0 where
  writes : List ℕ → List ℕ → Edit
  erases : List ℕ → Edit

unfoldable pub edit : Edit → NamedHub → Option NamedHub
edit (writes n str) h = writevar n str h
edit (erases n) h = some (erase_var n h)

unfoldable pub edits : List Edit → NamedHub → Option NamedHub
edits [] h = some h
edits (e ∷ more) h = edit e h >>= λ t. edits more t

-- the last value written under a name and not erased since, beginning from `old`
unfoldable pub value_of : List ℕ → List Edit → Option (List ℕ) → Option (List ℕ)
value_of n [] old = old
value_of n (writes k str ∷ more) old =
    value_of n more (if same_name k n then some (before 0 str) else old)
value_of n (erases k ∷ more) old = value_of n more (if same_name k n then none else old)

module _ (h : NamedHub) (w : IsNamed h) where
  writevar_lem :
      (n str : List ℕ)
      → (t : NamedHub) × (writevar n str h ≡ some t)
        × IsNamed t
        × ((k : List ℕ) → look k t ≡ (if same_name n k then some (before 0 str) else look k h))
  unfolding writevar get_var get
  writevar_lem n str = elim (Option-cases (find_name n h.hubcore)) [
    | inr (p, e) ↦
        let (t, done, named, looks) = assign_var_lem h w n str p e in
        rw (e, get_var, get, done) (t, refl, named, looks)
    | inl e ↦
        let (g, made, named, found, same) = get_var-new h w n e in
        let (t, done, named', looks) = assign_var_lem g named n str (length h.objects) found in
        rw (made, done)
          (
            t,
            refl,
            named',
            λ k. elim (Bool-cases (same_name n k)) [
              | inl r ↦ looks k ∙ rw r refl
              | inr r ↦ looks k ∙ rw (r, same k r) refl
            ],
          )
  ]

  erase_var_lem :
      (n : List ℕ)
      → IsNamed (erase_var n h)
        × ((k : List ℕ) → look k (erase_var n h) ≡ (if same_name n k then none else look k h))
  unfolding erase_var get
  erase_var_lem n = elim (Option-cases (find_name n h.hubcore)) [
    | inl e ↦
        let looks : (k : List ℕ) → look k h ≡ (if same_name n k then none else look k h) = λ k.
          elim (Bool-cases (same_name n k)) [
            | inl r ↦
                (let gone : find_name k h.hubcore ≡ none = rw (same_name-eq n k r) at e in
                  rw (r, gone) refl)
            | inr r ↦ rw r refl
          ] in
        rw (e, erase_var, get) (w, looks)
    | inr (p, e) ↦
        let finds = λ (k : List ℕ). find_name-erase_name n k h.hubcore w.unique in
        let t : NamedHub = record h {
          hubcore = erase_name n h.hubcore;
          olist = erase_first p h.olist;
          modified = true;
        } in
        let named : IsNamed t = record {
          named = λ k q f. elim (Bool-cases (same_name n k)) [
            | inl r ↦ (let gone : find_name k t.hubcore ≡ none = finds k ∙ rw r refl in absurd cc)
            | inr r ↦ w.named k q (rw r at (sym (finds k)) ∙ f)
          ];
          unique = erase_name-Unique n h.hubcore w.unique;
        } in
        let looks : (k : List ℕ) → look k t ≡ (if same_name n k then none else look k h) = λ k.
          elim (Bool-cases (same_name n k)) [
            | inl r ↦
                (let gone : find_name k t.hubcore ≡ none = finds k ∙ rw r refl in rw (r, gone) refl)
            | inr r ↦
                (let same : find_name k t.hubcore ≡ find_name k h.hubcore = finds k ∙ rw r refl in
                  rw (r, same) refl)
          ] in
        rw (e, erase_var, get) (named, looks)
  ]

  edit_lem :
      (e : Edit)
      → (t : NamedHub) × (edit e h ≡ some t)
        × IsNamed t
        × ((k : List ℕ) → value_of k (e ∷ []) (look k h) ≡ look k t)
  unfolding edit value_of
  edit_lem (writes n str) =
      (let (t, done, named, looks) = writevar_lem n str in (t, done, named, λ k. sym (looks k)))
  edit_lem (erases n) =
      (let (named, looks) = erase_var_lem n in (erase_var n h, refl, named, λ k. sym (looks k)))

value_of-cons :
    (k : List ℕ) (e : Edit) (more : List Edit) (old : Option (List ℕ))
    → value_of k (e ∷ more) old ≡ value_of k more (value_of k (e ∷ []) old)
unfolding value_of
value_of-cons k (writes n str) more old = refl
value_of-cons k (erases n) more old = refl

edits_lem :
    (ops : List Edit) (h : NamedHub)
    → IsNamed h
    → (t : NamedHub) × (edits ops h ≡ some t)
      × IsNamed t
      × ((k : List ℕ) → look k t ≡ value_of k ops (look k h))
unfolding edits value_of
edits_lem [] h w = (h, refl, w, λ k. refl)
edits_lem (e ∷ ops) h w =
    let (g, made, named, looks) = edit_lem h w e in
    let (t, done, named', looks') = edits_lem ops g named in
    rw made (
      t,
      done,
      named',
      λ k. looks' k ∙ ap (value_of k ops) (sym (looks k)) ∙ sym (value_of-cons k e ops (look k h)),
    )

-- After any calls of `writevar` and `erase` on a new hub, `readvar` gives the string last written
-- under the name and not erased since, up to a null character, and else leaves what it is given.
pub edits-new_hub :
    (ops : List Edit) (n x : List ℕ)
    → (t : NamedHub) × (edits ops new_hub ≡ some t)
      × (readvar n x t ≡ some (elim (value_of n ops none) [ none ↦ x | some str ↦ str ]))
unfolding new_hub find_name
edits-new_hub ops n x =
    let w : IsNamed new_hub = record { named = λ k p e. cc; unique = tt } in
    let (t, done, named, looks) = edits_lem ops new_hub w in
    (
      t,
      done,
      readvar-look t named n x
          ∙ ap
              (λ (v : Option (List ℕ)).
                some (elim v as (λ _. List ℕ) [ none ↦ x | some str ↦ str ]))
              (looks n),
    )

readvar_bool-look :
    (h : NamedHub) (n : List ℕ) (x : Bool)
    → IsNamed h
    → readvar_bool n x h
      ≡ some (elim (look n h) as (λ _. Bool) [
        | none ↦ x
        | some s ↦ starts_with true_word (drop (skip_spaces s) s)
      ])
unfolding readvar_bool get
readvar_bool-look h n x w = elim (Option-cases (find_name n h.hubcore)) [
  | inl e ↦ rw (e, readvar_bool, get) refl
  | inr (p, e) ↦ (let (v, at, _) = w.named n p e in rw (e, readvar_bool, get, at) refl)
]

abbrev word_of : Bool → List ℕ
word_of b = if b then true_word else false_word

starts_with-word_of :
    (b : Bool)
    → starts_with true_word (drop (skip_spaces (before 0 (word_of b))) (before 0 (word_of b))) ≡ b
unfolding starts_with skip_spaces before
starts_with-word_of true = refl
starts_with-word_of false = refl

-- A Boolean that is written under a name is read back.
pub readvar_bool-writevar_bool :
    (h : NamedHub) (n : List ℕ) (b x : Bool)
    → IsNamed h
    → (t : NamedHub) × (writevar_bool n b h ≡ some t) × IsNamed t × (readvar_bool n x t ≡ some b)
unfolding writevar_bool
readvar_bool-writevar_bool h n b x w =
    let (t, done, named, looks) = writevar_lem h w n (word_of b) in
    let here : look n t ≡ some (before 0 (word_of b)) = looks n ∙ rw (same_name_refl n) refl in
    let read : readvar_bool n x t
        ≡ some (
            starts_with true_word
              (drop (skip_spaces (before 0 (word_of b))) (before 0 (word_of b)))) =
      rw here at (readvar_bool-look t n x named) in
    (t, done, named, read ∙ ap some (starts_with-word_of b))
