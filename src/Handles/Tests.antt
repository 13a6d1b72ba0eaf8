-- ===== src/Handles/Tests.antt =====
-- Three handles: two of them are bound to the object 7.
use crs.Base.{
  ℕ, zero, suc, ◌≡◌, refl, sym, ap, ◌∙◌, true, false, ◌&&◌, [], ◌∷◌, ◌++◌, some, arith, ◌==◌,
  if◌then◌else◌, ◌>>=◌, some_inj, get_elem?, set,
}
use crs.Handles.{
  Handle, Store, null, addhandle, unbind, assign_object, assign, bind, declare, new_handle,
  copy_handle, destroy,
}
use crs.Handles.Count.{holders, IsCounted}
use crs.Handles.Contract.{destroy_lem, assign-IsCounted}
use crs.Handles.Bind.{IsFresh, bind_lem}

abbrev new_store : Store
new_store = record { handles = []; nlinks = []; deleted = [] }

abbrev unbound : Store
unbound = record { handles = null ∷ null ∷ null ∷ []; nlinks = []; deleted = [] }

all_null : (i : ℕ) (h : Handle) → get_elem? unbound.handles i ≡ some h → h.object == 0 ≡ true
all_null zero h e = sym (ap (λ x. x.object == 0) (some_inj e))
all_null (suc zero) h e = sym (ap (λ x. x.object == 0) (some_inj e))
all_null (suc (suc zero)) h e = sym (ap (λ x. x.object == 0) (some_inj e))
all_null (suc (suc (suc i))) h e = absurd cc

unbound-IsCounted : IsCounted unbound
unbound-IsCounted = record {
  counts = λ c l. absurd (omega arith);
  bound = λ i h e b. (let z = all_null i h e in absurd cc);
  shared = λ i j h g e f b o. (let z = all_null i h e in absurd cc);
  one_object = λ i j h g e f b b' o. (let z = all_null i h e in absurd cc);
  kept = λ i h e b. (let z = all_null i h e in absurd cc);
}

unbound-IsFresh : IsFresh 7 unbound
unbound-IsFresh = record {
  unheld = λ j g e b. (let z = all_null j g e in absurd cc);
  present = refl;
}

-- the first handle is bound to 7
abbrev one : Store
one = record {
  handles = record { object = 7; hcounter = some 0 } ∷ null ∷ null ∷ [];
  nlinks = 1 ∷ [];
  deleted = [];
}

one-bound : bind 0 7 unbound ≡ some one
unfolding bind unbind
one-bound = refl

one-IsCounted : IsCounted one
one-IsCounted =
    let (t, done, counted, _, _) =
      bind_lem unbound 0 null refl unbound-IsCounted 7 unbound-IsFresh in
    rw (some_inj (sym done ∙ one-bound)) at counted

-- and the second one to the same object
abbrev two : Store
two = record {
  handles =
      record { object = 7; hcounter = some 0 }
      ∷ record { object = 7; hcounter = some 0 }
      ∷ null
      ∷ [];
  nlinks = 2 ∷ [];
  deleted = [];
}

two-assigned : assign 1 0 one ≡ some two
unfolding assign assign_object addhandle unbind
two-assigned = refl

two-IsCounted : IsCounted two
two-IsCounted =
    let (t, done, counted, _, _) =
      assign-IsCounted one 1 null refl one-IsCounted 0 (record { object = 7; hcounter = some 0 })
        refl in
    rw (some_inj (sym done ∙ two-assigned)) at counted

abbrev seven : Handle
seven = record { object = 7; hcounter = some 0 }

destroy_lem_example :
    (t : Store) × (destroy 0 two ≡ some t)
    × IsCounted t
    × (t.handles ≡ set two.handles 0 null)
    × (t.deleted ≡ (if true && (holders 7 t.handles == 0) then [] ++ 7 ∷ [] else []))
destroy_lem_example = destroy_lem two 0 seven refl two-IsCounted

assign-IsCounted_example :
    (t : Store) × (assign 1 2 two ≡ some t)
    × IsCounted t
    × ((g : Handle) × (get_elem? t.handles 1 ≡ some g) × (g.object ≡ 0))
    × (t.deleted ≡ [])
assign-IsCounted_example = assign-IsCounted two 1 seven refl two-IsCounted 2 null refl

two-IsFresh : IsFresh 9 two
two-IsFresh = record { unheld = λ j g e b. held j g e b; present = refl }
  where
    held :
        (j : ℕ) (g : Handle)
        → get_elem? two.handles j ≡ some g
        → g.object == 0 ≡ false
        → g.object == 9 ≡ false
    held zero g e b = sym (ap (λ x. x.object == 9) (some_inj e))
    held (suc zero) g e b = sym (ap (λ x. x.object == 9) (some_inj e))
    held (suc (suc zero)) g e b = sym (ap (λ x. x.object == 9) (some_inj e))
    held (suc (suc (suc j))) g e b = absurd cc

bind_lem_example :
    (t : Store) × (bind 0 9 two ≡ some t)
    × IsCounted t
    × ((g : Handle) × (get_elem? t.handles 0 ≡ some g) × (g.object ≡ 9))
    × (t.deleted ≡ [])
bind_lem_example = bind_lem two 0 seven refl two-IsCounted 9 two-IsFresh

-- a pointer, a copy of its handle, and the destructors of both: the object is deleted once
deleted_once :
    (new_handle 7 new_store >>= λ s. copy_handle 0 s >>= λ t. destroy 0 t >>= λ u. destroy 1 u)
    ≡ some (record { handles = null ∷ null ∷ []; nlinks = 0 ∷ []; deleted = 7 ∷ [] })
unfolding new_handle copy_handle declare destroy bind assign assign_object addhandle unbind
deleted_once = refl
