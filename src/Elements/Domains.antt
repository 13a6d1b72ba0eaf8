-- ===== src/Elements/Domains.antt =====
-- crs/ude/data_core.h: element_map, a `std::map` from a domain to its element list. The map is the
-- list of its pairs in ascending order of the domains; a list that a pair points to is kept in it.
use crs.Base.{
  Yields, yields, Yields-inv, ℕ, ◌≤◌, ◌<◌, ◌≡◌, ◌≢◌, refl, Bool, not, List, [], ◌∷◌, ◌++◌, Option,
  none, some, arith, ltb, ◌==◌, if◌then◌else◌, ◌>>=◌, ◌&&◌, Bool-cases, inl, inr,
}
use crs.Elements.{Action, for_each, remove, destroy_element, add}

abbrev pub ElementMap : Type 0
ElementMap = List (ℕ × List ℕ)

-- every domain of the map is above `lo`
abbrev pub IsAbove : ℕ → ElementMap → Type 0
IsAbove lo [] = Unit
IsAbove lo ((k, l) ∷ m) = (lo < k) × IsAbove k m

abbrev pub IsSorted : ElementMap → Type 0
IsSorted [] = Unit
IsSorted ((k, l) ∷ m) = IsAbove k m

pub find : ℕ → ElementMap → Option (List ℕ)
find domain [] = none
find domain ((k, l) ∷ m) = if domain == k then some l else find domain m

-- `insert` of an empty list where the domain has none, and `add` to its list
pub add_new : ℕ → ℕ → ElementMap → ElementMap
add_new domain element [] = (domain, add element []) ∷ []
add_new domain element ((k, l) ∷ m) =
    let further = (k, l) ∷ add_new domain element m in
    if ltb domain k
    then (domain, add element []) ∷ (k, l) ∷ m
    else if domain == k
    then (k, add element l) ∷ m
    else further

pub map_add : ℕ → ℕ → ElementMap → ElementMap
map_add domain element m = if not (element == 0) then add_new domain element m else m

module _ (dp : ℕ → Bool) {S : Type 0} (action : Action S) where
  -- `for_each (domain, action)`: the map, the state and the destroyed elements afterwards
  unfoldable pub for_each_in : ℕ → ElementMap → S → Option (ElementMap × S × List ℕ)
  for_each_in domain [] s = some ([], s, [])
  for_each_in domain ((k, l) ∷ m) s =
      let here : Option (ElementMap × S × List ℕ) = do
        (l', s', gone) ← for_each dp action l s
        some ((k, l') ∷ m, s', gone)
      in let further : Option (ElementMap × S × List ℕ) = do
        (m', s', gone) ← for_each_in domain m s
        some ((k, l) ∷ m', s', gone)
        in if domain == k then here else further

  -- `for_each (action)` over all the lists, in the order of the domains
  unfoldable pub for_each_all : ElementMap → S → Option (ElementMap × S × List ℕ)
  for_each_all [] s = some ([], s, [])
  for_each_all ((k, l) ∷ m) s = do
    (l', s', gone) ← for_each dp action l s
    (m', s'', more) ← for_each_all m s'
    some ((k, l') ∷ m', s'', gone ++ more)

module _ (dp : ℕ → Bool) where
  -- `remove`: the map and the destroyed elements
  unfoldable pub remove_in : ℕ → ℕ → ElementMap → Option (ElementMap × List ℕ)
  remove_in domain element [] = some ([], [])
  remove_in domain element ((k, l) ∷ m) =
      let here : Option (ElementMap × List ℕ) = do
        (l', gone) ← remove dp element l
        some ((k, l') ∷ m, gone)
      in let further : Option (ElementMap × List ℕ) = do
        (m', gone) ← remove_in domain element m
        some ((k, l) ∷ m', gone)
        in if domain == k then here else further

  -- the destructor of an element list: the elements that it destroys
  unfoldable pub destroy_list : List ℕ → List ℕ → List ℕ
  destroy_list destroyed [] = destroyed
  destroy_list destroyed (e ∷ container) = destroy_list (destroy_element dp destroyed e) container

  -- the destructor of the map
  unfoldable pub destroy_map : List ℕ → ElementMap → List ℕ
  destroy_map destroyed [] = destroyed
  destroy_map destroyed ((k, l) ∷ m) = destroy_map (destroy_list destroyed l) m

find-above : (lo domain : ℕ) (m : ElementMap) → IsAbove lo m → domain ≤ lo → find domain m ≡ none
unfolding find
find-above lo domain [] h le = refl
find-above lo domain ((k, l) ∷ m) h le = ground (arith, find-above k domain m)

abbrev pub list_of : Option (List ℕ) → List ℕ
list_of none = []
list_of (some l) = l

add_new-IsAbove :
    (lo domain element : ℕ) (m : ElementMap)
    → lo < domain
    → IsAbove lo m
    → IsAbove lo (add_new domain element m)
unfolding add_new
add_new-IsAbove lo domain element [] h v = (h, tt)
add_new-IsAbove lo domain element ((k, l) ∷ m) h v =
    ground (arith, add_new-IsAbove k domain element m)

find-add_new :
    (domain element j : ℕ) (m : ElementMap)
    → IsSorted m
    → find j (add_new domain element m)
      ≡ (if domain == j then some (add element (list_of (find j m))) else find j m)
unfolding find add_new
find-add_new domain element j [] v = ground arith
find-add_new domain element j ((k, l) ∷ []) v = ground arith
find-add_new domain element j ((k, l) ∷ (k', l') ∷ m) v =
    ground (arith, find-add_new domain element j ((k', l') ∷ m), find-above k domain ((k', l') ∷ m))

add_new-IsSorted :
    (domain element : ℕ) (m : ElementMap) → IsSorted m → IsSorted (add_new domain element m)
unfolding add_new
add_new-IsSorted domain element [] v = tt
add_new-IsSorted domain element ((k, l) ∷ m) v = ground (arith, add_new-IsAbove k domain element m)

-- On a map in the order of its domains, add puts an element at the end of its domain's list,
-- which it makes if there is none; it keeps the order and changes no other domain. A null pointer
-- changes nothing.
pub map_add_lem :
    (domain element : ℕ) (m : ElementMap)
    → IsSorted m
    → IsSorted (map_add domain element m)
      × ((j : ℕ)
          → find j (map_add domain element m) ≡ (
              if domain == j && not (element == 0)
              then some (list_of (find j m) ++ element ∷ [])
              else find j m))
unfolding map_add add
map_add_lem domain element m v = (
  ground (arith, add_new-IsSorted domain element m),
  λ j. ground (arith, find-add_new domain element j m),
)

module _ (dp : ℕ → Bool) {S : Type 0} (action : Action S) where
  -- `r` is what running the action on the list of `domain` alone gives
  pub record IsRunOn (domain : ℕ) (m : ElementMap) (s : S) (r : ElementMap × S × List ℕ)
      : Type 0 where
    pub others : (j : ℕ) → j ≢ domain → find j r.0 ≡ find j m
    pub absent : find domain m ≡ none → r ≡ (m, s, [])
    pub own :
        (l : List ℕ)
        → find domain m ≡ some l
        → for_each dp action l s ≡ some (list_of (find domain r.0), r.1, r.2)

  IsRunOn-here :
      (domain k : ℕ) (l : List ℕ) (m : ElementMap) (s : S) (t : List ℕ × S × List ℕ)
      → domain ≡ k
      → for_each dp action l s ≡ some t
      → IsRunOn domain ((k, l) ∷ m) s ((k, t.0) ∷ m, t.1, t.2)
  unfolding find
  IsRunOn-here domain k l m s t e run = record {
    others = λ j ne. ground arith;
    absent = λ none_there. ground arith;
    own = λ l' there. ground arith;
  }

  IsRunOn-further :
      (domain k : ℕ) (l : List ℕ) (m : ElementMap) (s : S) (t : ElementMap × S × List ℕ)
      → domain ≢ k
      → IsRunOn domain m s t
      → IsRunOn domain ((k, l) ∷ m) s ((k, l) ∷ t.0, t.1, t.2)
  unfolding find
  IsRunOn-further domain k l m s t e run = record {
    others = λ j ne. ground (arith, run.others j ne);
    absent = λ none_there. ground (arith, run.absent);
    own = λ l' there. ground (arith, run.own l');
  }

  pub for_each_in-total :
      (domain : ℕ) (m : ElementMap) (s : S)
      → ((l : List ℕ) → find domain m ≡ some l → Yields (λ r. Unit {0}) (for_each dp action l s))
      → Yields (IsRunOn domain m s) (for_each_in dp action domain m s)
  unfolding for_each_in find
  for_each_in-total domain [] s h =
      yields (record { others = λ j ne. refl; absent = λ a. refl; own = λ l a. cc })
  for_each_in-total domain ((k, l) ∷ m) s h = elim (Bool-cases (domain == k)) [
    | inl same ↦
        let (t, run, u) = Yields-inv (h l (rw same)) in
        rw (same, run) (yields (IsRunOn-here domain k l m s t (ground arith) run))
    | inr apart ↦
        let (t, run, u) = Yields-inv (for_each_in-total domain m s (λ l' e. h l' (rw apart e))) in
        rw (apart, run) (yields (IsRunOn-further domain k l m s t (ground arith) u))
  ]
