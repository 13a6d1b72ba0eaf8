-- ===== src/IntervalMap/Tests.antt =====
-- interval_map on small maps.
use crs.Base.{
  ==_iff, ltb, leb, Yields, ◌&&◌, if◌then◌else◌, arith, ℕ, ◌≡◌, ◌==◌, refl, [], ◌∷◌, some, true,
  false,
}
use crs.IntervalMap.{
  Map, assign, lookup, new, insert, copy_before, prev, at_key, erase_from, begin, set_at, erase_to,
  erase, before, upper_bound,
}
use crs.IntervalMap.Assigned.{IsCanonical}
use crs.IntervalMap.Contract.{assign_lem, IsCanonical-unique}
use crs.IntervalMap.Reads.{read, lookup-read_above}

abbrev changes : Map ℕ
changes = (0, 7) ∷ (3, 8) ∷ (5, 7) ∷ []

lookup_between : lookup 4 changes ≡ some 8
unfolding lookup upper_bound prev at_key
lookup_between = refl

assign-new : assign (◌==◌) 3 5 8 (new 7) ≡ some (true, changes)
unfolding assign new insert copy_before prev at_key erase_from begin set_at erase_to erase before
    upper_bound
assign-new = refl

-- an interval that joins its two neighbours
join-interval : assign (◌==◌) 3 5 7 changes ≡ some (true, new 7)
unfolding assign new insert copy_before prev at_key erase_from begin set_at erase_to erase before
    upper_bound
join-interval = refl

empty-interval : assign (◌==◌) 5 5 9 changes ≡ some (false, changes)
unfolding assign
empty-interval = refl

lookup-read_above_run : lookup 4 changes ≡ read 4 changes
lookup-read_above_run = lookup-read_above 0 4 changes (ground arith)

changes-IsCanonical : IsCanonical changes
unfolding at_key read
changes-IsCanonical = record {
  from = grind arith;
  least = (7, refl);
  changes = λ k v h same. ground arith;
}

assign_lem_example :
    Yields
      (λ r.
        (r.0 ≡ ltb 4 9)
        × IsCanonical r.1
        × ((k : ℕ) → lookup k r.1 ≡ (if leb 4 k && ltb k 9 then some 8 else lookup k changes)))
      (assign (◌==◌) 4 9 8 changes)
assign_lem_example = assign_lem (◌==◌) ==_iff 4 9 8 changes changes-IsCanonical

abbrev everywhere_seven : Map ℕ
everywhere_seven = new 7

IsCanonical-unique_run : changes ≡ changes
IsCanonical-unique_run =
    IsCanonical-unique changes changes changes-IsCanonical changes-IsCanonical (λ k. refl)
