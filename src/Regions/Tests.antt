-- ===== src/Regions/Tests.antt =====
-- A tracer with regions from 5 and from 9 on.
use crs.Base.{ℕ, ◌≡◌, refl, true, false, List, [], ◌∷◌, some, none, arith}
use crs.IntervalMap.{new, begin, last_key, prev, upper_bound, at_key, erase, before, insert}
use crs.Regions.{
  Tracer, Operation, appends, removes, selects, erases_at, erases_range, calls, new_tracer,
  clear_cache, select, in_cache, same, search, lower_bound, remove, erase_at, erase_range,
  erase_key, empty,
}
use crs.Regions.Search.{region}
use crs.Regions.Contract.{calls_map, call_map, erase_region, IsAllowed, AreAllowed, tracer_lem}

abbrev ops : List (Operation ℕ)
ops =
    appends 5 50
    ∷ appends 9 90
    ∷ selects 7
    ∷ removes 9
    ∷ erases_at (some 5)
    ∷ appends 6 60
    ∷ erases_range (some 0) (some 6)
    ∷ []

ops-AreAllowed : AreAllowed ops (new 0)
unfolding AreAllowed IsAllowed call_map erase_region new at_key insert erase upper_bound region
    before
ops-AreAllowed = (tt, (tt, (tt, (tt, (refl, (tt, ((refl, refl, omega arith, omega arith), tt)))))))

tracer_lem_example :
    (t : Tracer ℕ) × (u : Tracer ℕ) × (r : ℕ) × (calls true ops (new_tracer 0) ≡ some t)
    × (t.map ≡ calls_map ops (new 0))
    × (select true 7 t ≡ some (some r, u))
    × (region 7 (calls_map ops (new 0)) ≡ some r)
    × (u.map ≡ calls_map ops (new 0))
tracer_lem_example = tracer_lem true 0 ops 7 ops-AreAllowed

-- the first region is not removed, and `remove` returns true
abbrev two : Tracer ℕ
two = record { map = (0, 0) ∷ (5, 50) ∷ []; i_recent = some 5; i_next = none }

remove_first : remove true 3 two ≡ some (true, record two { i_recent = some 0; i_next = some 0 })
unfolding remove select in_cache same search last_key lower_bound prev begin upper_bound erase_at
    clear_cache before
remove_first = refl

-- a range from the beginning on leaves the first region
erase_first :
    erase_range (some 0) none two
    ≡ some (record two { map = (0, 0) ∷ []; i_recent = some 0; i_next = some 0 })
unfolding erase_range same begin upper_bound erase before clear_cache
erase_first = refl

-- an empty range at the first region is not a range once its beginning has moved on
erase_nothing : erase_range (some 0) (some 0) two ≡ none
unfolding erase_range same begin
erase_nothing = refl

erase_one : (erase_key 5 two).0 ≡ 1
unfolding erase_key at_key
erase_one = refl

not_empty : empty two ≡ false
unfolding empty
not_empty = refl
