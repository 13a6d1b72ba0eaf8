-- ===== src/Regions.antt =====
-- crs/regions.h: class Tracer, the regions between keys with the value of each, over a `std::map`
-- as in IntervalMap. A key is a number, and 0 stands for the negative infinity that begins the
-- first region. An iterator is the key that it stands at, and `none` is `end ()`. An operation
-- yields `none` where it would use an iterator that is not there.
pub mod Search
pub mod Cache
pub mod Contract
mod Tests
use crs.Base.{
  ℕ, zero, suc, ◌+◌, Bool, true, false, not, List, [], ◌∷◌, Option, none, some, ltb, leb, ◌==◌,
  ◌&&◌, ◌||◌, if◌then◌else◌, ◌>>=◌, length,
}
use crs.IntervalMap.{Map, before, insert, at_key, begin, prev, last_key, upper_bound, erase, new}

-- `iRecent` and `iNext` are the cache
pub record Tracer (V : Type 0) : Type 0 where
  pub map : Map V
  pub i_recent : Option ℕ
  pub i_next : Option ℕ

-- `==` of iterators
unfoldable pub same : Option ℕ → Option ℕ → Bool
same none none = true
same none (some j) = false
same (some i) none = false
same (some i) (some j) = i == j

module _ {V : Type 0} where
  -- `lower_bound (k)` of `std::map`
  unfoldable pub lower_bound : ℕ → Map V → Option ℕ
  lower_bound k [] = none
  lower_bound k ((j, w) ∷ m) = if leb k j then some j else lower_bound k m

  unfoldable pub in_cache : ℕ → Tracer V → Option Bool
  in_cache k t =
      let inside = t.i_recent >>= λ recent. some (leb recent k && before k t.i_next) in
      if same t.i_recent t.i_next then some false else inside

  unfoldable pub clear_cache : Tracer V → Tracer V
  clear_cache t = record t { i_recent = begin t.map; i_next = begin t.map }

  unfoldable pub new_tracer : V → Tracer V
  new_tracer v = clear_cache (record { map = new v; i_recent = none; i_next = none })

  unfoldable pub empty : Tracer V → Bool
  empty t = length t.map == 1

  unfoldable pub append : ℕ → V → Tracer V → Bool × Tracer V
  append k v t =
      let (map, inserted) = insert k v t.map in
      if inserted then (true, clear_cache (record t { map = map })) else (false, t)

  -- what `select` does when the cache does not serve
  unfoldable pub search : ℕ → Map V → Option ℕ
  search k m = last_key m >>= λ last.
      if ltb k last
      then (lower_bound k m >>= λ bound. if bound == k then some bound else prev bound m)
      else some last

  -- `select`: the iterator, and the tracer with its cache
  unfoldable pub select : Bool → ℕ → Tracer V → Option (Option ℕ × Tracer V)
  select use_cache k t = in_cache k t >>= λ cached.
      let found = search k t.map >>= λ recent.
      some (some recent, record t { i_recent = some recent; i_next = upper_bound recent t.map }) in
      if not use_cache || not cached then found else some (t.i_recent, t)

  -- `erase (q)` of an iterator
  unfoldable pub erase_at : Option ℕ → Tracer V → Option (Tracer V)
  erase_at q t =
      let cleared = clear_cache t in
      let erased =
        q >>= λ k. some (record cleared { map = erase (some k) (upper_bound k t.map) t.map }) in
      if same q (begin t.map) then some t else erased

  unfoldable pub remove : Bool → ℕ → Tracer V → Option (Bool × Tracer V)
  remove use_cache k t = select use_cache k t >>= λ selected.
      let (cp, t') = selected in
      let erased = erase_at cp (clear_cache t') >>= λ u. some (true, u) in
      if same cp none then some (false, t') else erased

  unfoldable pub clear : Tracer V → Option (Tracer V)
  clear t = begin t.map >>= λ b.
      some (clear_cache (record t { map = erase (upper_bound b t.map) none t.map }))

  -- `erase (q1, q2)`. Where both stand at the first region, the range from the next one to it is none.
  unfoldable pub erase_range : Option ℕ → Option ℕ → Tracer V → Option (Tracer V)
  erase_range q1 q2 t =
      let from_second =
        q1 >>= λ b. some (clear_cache (record t { map = erase (upper_bound b t.map) q2 t.map })) in
      let none_between = same q2 (begin t.map) in
      if same q1 (begin t.map)
      then (if none_between then none else from_second)
      else some (clear_cache (record t { map = erase q1 q2 t.map }))

  -- `erase (k)` of a key: how many entries were erased
  unfoldable pub erase_key : ℕ → Tracer V → ℕ × Tracer V
  erase_key k t =
      let erased = record (clear_cache t) { map = erase (some k) (upper_bound k t.map) t.map } in
      let count : ℕ = elim (at_key k t.map) [ none ↦ 0 | some v ↦ 1 ] in
      if k == 0 then (0, t) else (count, erased)

-- the calls of a tracer
pub data Operation (V : Type 0) : Type 0 where
  appends : ℕ → V → Operation V
  removes : ℕ → Operation V
  clears : Operation V
  erases : ℕ → Operation V
  selects : ℕ → Operation V
  erases_at : Option ℕ → Operation V
  erases_range : Option ℕ → Option ℕ → Operation V

module _ {V : Type 0} (use_cache : Bool) where
  -- the tracer after a call, and after several
  unfoldable pub call : Operation V → Tracer V → Option (Tracer V)
  call (appends k v) t = some (append k v t).1
  call (removes k) t = remove use_cache k t >>= λ removed. some removed.1
  call clears t = clear t
  call (erases k) t = some (erase_key k t).1
  call (selects k) t = select use_cache k t >>= λ selected. some selected.1
  call (erases_at q) t = erase_at q t
  call (erases_range q1 q2) t = erase_range q1 q2 t

  unfoldable pub calls : List (Operation V) → Tracer V → Option (Tracer V)
  calls [] t = some t
  calls (op ∷ ops) t = call op t >>= λ t'. calls ops t'
