-- ===== src/Elements/Tests.antt =====
-- Lists of three devices, the theorems at them, and a device that `for_each` passes over.
use crs.Base.{
  ℕ, ◌≡◌, refl, Bool, not, List, [], ◌∷◌, ◌++◌, some, arith, ◌==◌, ◌&&◌, if◌then◌else◌, Yields,
  swap,
}
use crs.Elements.{for_each, for_each_loop, remove, destroy_element, pointer_is_non_null}
use crs.Elements.Removal.{acts, IsSplit, for_each-IsSplit, remove-IsSplit}
use crs.Elements.Skipped.{for_each-none, for_each-skips}
use crs.Elements.Domains.{
  ElementMap, IsSorted, find, map_add, list_of, for_each_in, map_add_lem, IsRunOn, destroy_map,
  destroy_list, remove_in,
}
use crs.Elements.Total.{for_each_in-IsRunOn}

abbrev devices : List ℕ
devices = 10 ∷ 20 ∷ 30 ∷ []

-- devices that took the packet and want to be removed
abbrev satisfied : ℕ → Bool
satisfied e = not (e == 20)

-- which devices were asked
abbrev asked : List ℕ → ℕ → List ℕ
asked log e = log ++ e ∷ []

for_each-devices :
    for_each pointer_is_non_null (acts pointer_is_non_null satisfied asked) devices []
    ≡ some (30 ∷ 20 ∷ [], 10 ∷ 20 ∷ [], 10 ∷ [])
unfolding for_each for_each_loop destroy_element pointer_is_non_null swap
for_each-devices = refl

remove-devices : remove pointer_is_non_null 10 devices ≡ some (30 ∷ 20 ∷ [], 10 ∷ [])
unfolding remove for_each for_each_loop destroy_element pointer_is_non_null swap
remove-devices = refl

-- of two equal entries side by side at the end, one stays
remove_twice : remove pointer_is_non_null 10 (10 ∷ 10 ∷ []) ≡ some (10 ∷ [], 10 ∷ [])
unfolding remove for_each for_each_loop destroy_element pointer_is_non_null swap
remove_twice = refl

for_each-IsSplit_example :
    Yields
      (λ r. (removed : List ℕ) × IsSplit satisfied devices r.0 removed)
      (for_each pointer_is_non_null (acts pointer_is_non_null satisfied asked) devices [])
for_each-IsSplit_example = for_each-IsSplit pointer_is_non_null satisfied asked devices []

remove-IsSplit_run :
    Yields
      (λ r. (removed : List ℕ) × IsSplit (λ e. e == 20) devices r.0 removed)
      (remove pointer_is_non_null 20 devices)
remove-IsSplit_run = remove-IsSplit pointer_is_non_null 20 devices

for_each-none_run :
    for_each pointer_is_non_null (acts pointer_is_non_null (λ e. e == 5) asked) devices []
    ≡ some (devices, devices, [])
for_each-none_run =
    for_each-none pointer_is_non_null (λ e. e == 5) asked devices [] (refl, (refl, (refl, tt)))

for_each-skips_run :
    for_each pointer_is_non_null (acts pointer_is_non_null satisfied asked) devices []
    ≡ some (30 ∷ 20 ∷ [], 10 ∷ 20 ∷ [], destroy_element pointer_is_non_null [] 10)
for_each-skips_run =
    for_each-skips pointer_is_non_null satisfied asked 10 30 (20 ∷ []) [] refl (refl, tt)

abbrev domains : ElementMap
domains = (1, devices) ∷ (7, 40 ∷ []) ∷ []

map_add_lem_run :
    IsSorted (map_add 3 50 domains)
    × ((j : ℕ)
        → find j (map_add 3 50 domains) ≡ (
            if 3 == j && not (50 == 0)
            then some (list_of (find j domains) ++ 50 ∷ [])
            else find j domains))
map_add_lem_run = map_add_lem 3 50 domains (omega arith)

for_each_in-domains :
    for_each_in pointer_is_non_null (acts pointer_is_non_null satisfied asked) 7 domains []
    ≡ some ((1, devices) ∷ (7, []) ∷ [], 40 ∷ [], 40 ∷ [])
unfolding for_each_in for_each for_each_loop destroy_element pointer_is_non_null swap
for_each_in-domains = refl

for_each_in-IsRunOn_run :
    Yields
      (IsRunOn pointer_is_non_null (acts pointer_is_non_null satisfied asked) 7 domains [])
      (for_each_in pointer_is_non_null (acts pointer_is_non_null satisfied asked) 7 domains [])
for_each_in-IsRunOn_run =
    for_each_in-IsRunOn pointer_is_non_null (acts pointer_is_non_null satisfied asked) 7 domains []

destroy_map-domains : destroy_map pointer_is_non_null [] domains ≡ 10 ∷ 20 ∷ 30 ∷ 40 ∷ []
unfolding destroy_map destroy_list destroy_element pointer_is_non_null
destroy_map-domains = refl

remove_in-domains :
    remove_in pointer_is_non_null 7 40 domains ≡ some ((1, devices) ∷ (7, []) ∷ [], 40 ∷ [])
unfolding remove_in remove for_each for_each_loop destroy_element pointer_is_non_null swap
remove_in-domains = refl
