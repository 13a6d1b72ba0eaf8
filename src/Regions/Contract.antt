-- ===== src/Regions/Contract.antt =====
-- A tracer is its map: any calls, with the cache or without.
use crs.Base.{
  ℕ, ◌≡◌, refl, sym, ap, ◌∙◌, inl, inr, Bool, true, false, List, [], ◌∷◌, Option, none, some, arith,
  ltb, ◌==◌, ◌<◌, ◌≤◌, if◌then◌else◌, ◌>>=◌, some_inj, Bool-cases,
}
use crs.IntervalMap.{Map, at_key, before, begin, upper_bound, insert, erase, new}
use crs.IntervalMap.Keys.{insert-IsFrom, erase-IsFrom, is_none}
use crs.Regions.{
  Tracer, same, clear_cache, new_tracer, append, select, erase_at, remove, clear, erase_key,
  erase_range, Operation, appends, removes, clears, erases, selects, erases_at, erases_range, call,
  calls,
}
use crs.Regions.Search.{region}
use crs.Regions.Cache.{IsTracer, clear_cache-IsTracer, same_refl, select_lem}

later : (k : ℕ) → k == 0 ≡ false → before 0 (some k) ≡ true
unfolding before
later k h = ground arith

module _ {V : Type 0} where
  -- what a call does to the map, where the first region stays
  unfoldable pub erase_region : Option ℕ → Map V → Map V
  erase_region none m = m
  erase_region (some k) m = if k == 0 then m else erase (some k) (upper_bound k m) m

  -- the same of a range; where it begins with the first region, it begins behind it
  unfoldable pub erase_between : Option ℕ → Option ℕ → Map V → Map V
  erase_between none last m = m
  erase_between (some k) last m =
      if k == 0 then erase (upper_bound 0 m) last m else erase (some k) last m

  unfoldable pub call_map : Operation V → Map V → Map V
  call_map (appends k v) m = (insert k v m).0
  call_map (removes k) m = erase_region (region k m) m
  call_map clears m = erase (upper_bound 0 m) none m
  call_map (erases k) m = erase_region (some k) m
  call_map (selects k) m = m
  call_map (erases_at q) m = erase_region q m
  call_map (erases_range q1 q2) m = erase_between q1 q2 m

  unfoldable pub calls_map : List (Operation V) → Map V → Map V
  calls_map [] m = m
  calls_map (op ∷ ops) m = calls_map ops (call_map op m)

  -- the iterators that a call is given stand at regions of the map, and a range does not end before it
  -- begins nor at the first region
  unfoldable pub IsAllowed : Operation V → Map V → Type 0
  IsAllowed (appends k v) m = Unit
  IsAllowed (removes k) m = Unit
  IsAllowed clears m = Unit
  IsAllowed (erases k) m = Unit
  IsAllowed (selects k) m = Unit
  IsAllowed (erases_at none) m = ⊥
  IsAllowed (erases_at (some k)) m = is_none (at_key k m) ≡ false
  IsAllowed (erases_range none last) m = last ≡ none
  IsAllowed (erases_range (some k) none) m = is_none (at_key k m) ≡ false
  IsAllowed (erases_range (some k) (some j)) m =
      (is_none (at_key k m) ≡ false) × (is_none (at_key j m) ≡ false) × (k ≤ j) × (0 < j)

  unfoldable pub AreAllowed : List (Operation V) → Map V → Type 0
  AreAllowed [] m = Unit
  AreAllowed (op ∷ ops) m = IsAllowed op m × AreAllowed ops (call_map op m)

  begin-insert : (k : ℕ) (v : V) (m : Map V) → begin m ≡ some 0 → begin (insert k v m).0 ≡ some 0
  unfolding begin insert
  begin-insert k v [] e = cc
  begin-insert k v ((j, w) ∷ m) e = let first : j ≡ 0 = some_inj e in ground arith

  begin-erase :
      (first last : Option ℕ) (m : Map V)
      → begin m ≡ some 0
      → before 0 first ≡ true
      → begin (erase first last m) ≡ some 0
  unfolding begin erase
  begin-erase first last [] e b = cc
  begin-erase first last ((j, w) ∷ m) e b = let zero_key : j ≡ 0 = some_inj e in rw (zero_key, b)

  before-upper_bound : (k : ℕ) (m : Map V) → before k (upper_bound k m) ≡ true
  unfolding before upper_bound
  before-upper_bound k [] = refl
  before-upper_bound k ((j, w) ∷ m) = ground (arith, before-upper_bound k m)

  insert-old : (k : ℕ) (v : V) (m : Map V) → (insert k v m).1 ≡ false → (insert k v m).0 ≡ m
  unfolding insert
  insert-old k v [] e = cc
  insert-old k v ((j, w) ∷ m) e =
      let old = insert-old k v m in
      elim (Bool-cases (ltb k j)) [
        | inl q ↦ absurd (ground arith)
        | inr q ↦ elim (Bool-cases (k == j)) [
          | inl f ↦ rw (q, f)
          | inr f ↦
              let kept : (insert k v m).1 ≡ false = rw (q, f) at e in
              rw (q, f) (ap (◌∷◌ (j, w)) (old kept))
        ]
      ]

  clear_map : (t : Tracer V) → (clear_cache t).map ≡ t.map
  unfolding clear_cache
  clear_map t = refl

  -- the call returns a tracer with the map `m`
  abbrev pub Maps : Map V → Option (Tracer V) → Type 0
  Maps m result = (t : Tracer V) × (result ≡ some t) × (t.map ≡ m) × IsTracer t

  append_lem :
      (k : ℕ) (v : V) (t : Tracer V)
      → IsTracer t
      → Maps (insert k v t.map).0 (some (append k v t).1)
  unfolding append clear_cache
  append_lem k v t h = elim (Bool-cases (insert k v t.map).1) [
    | inl q ↦ rw q (
      _,
      refl,
      refl,
      clear_cache-IsTracer (record t { map = (insert k v t.map).0 })
          (insert-IsFrom 0 k v t.map (omega arith) h.ascending) (begin-insert k v t.map h.infinite),
    )
    | inr q ↦ rw q (t, refl, sym (insert-old k v t.map q), h)
  ]

  -- a map with the entries erased from a key on that is not the first, and the cache cleared before
  erased-IsTracer :
      (first last : Option ℕ) (t : Tracer V)
      → IsTracer t
      → before 0 first ≡ true
      → IsTracer (record (clear_cache t) { map = erase first last t.map })
  unfolding clear_cache
  erased-IsTracer first last t h b = record {
    ascending = erase-IsFrom 0 first last t.map h.ascending;
    infinite = begin-erase first last t.map h.infinite b;
    cached = inl (same_refl (begin t.map));
  }

  erase_at_lem :
      (k : ℕ) (t : Tracer V) → IsTracer t → Maps (erase_region (some k) t.map) (erase_at (some k) t)
  unfolding erase_at erase_region same
  erase_at_lem k t h = elim (Bool-cases (k == 0)) [
    | inl q ↦ rw (h.infinite, q) (t, refl, refl, h)
    | inr q ↦
        rw (h.infinite, q)
          (_, refl, refl, erased-IsTracer (some k) (upper_bound k t.map) t h (later k q))
  ]

  remove_lem :
      (c : Bool) (k : ℕ) (t : Tracer V)
      → IsTracer t
      → Maps (erase_region (region k t.map) t.map) (remove c k t >>= λ removed. some removed.1)
  unfolding remove same
  remove_lem c k t h =
      let (r, t', selected, at, map, g) = select_lem c k t h in
      let cleared = clear_cache-IsTracer t' g.ascending g.infinite in
      let (u, erased, maps, w) = erase_at_lem r (clear_cache t') cleared in
      rw (selected, erased, at) (u, refl, maps ∙ ap (erase_region (some r)) (clear_map t' ∙ map), w)

  clear_lem : (t : Tracer V) → IsTracer t → Maps (erase (upper_bound 0 t.map) none t.map) (clear t)
  unfolding clear
  clear_lem t h =
      let kept = record t { map = erase (upper_bound 0 t.map) none t.map } in
      rw h.infinite (
        clear_cache kept,
        refl,
        clear_map kept,
        clear_cache-IsTracer kept (erase-IsFrom 0 (upper_bound 0 t.map) none t.map h.ascending)
            (begin-erase (upper_bound 0 t.map) none t.map h.infinite (before-upper_bound 0 t.map)),
      )

  erase_key_lem :
      (k : ℕ) (t : Tracer V)
      → IsTracer t
      → Maps (erase_region (some k) t.map) (some (erase_key k t).1)
  unfolding erase_key erase_region
  erase_key_lem k t h = elim (Bool-cases (k == 0)) [
    | inl q ↦ rw q (t, refl, refl, h)
    | inr q ↦ rw q (_, refl, refl, erased-IsTracer (some k) (upper_bound k t.map) t h (later k q))
  ]

  erase-end : (last : Option ℕ) (m : Map V) → erase none last m ≡ m
  unfolding erase before
  erase-end last [] = refl
  erase-end last ((j, w) ∷ m) = ap (◌∷◌ (j, w)) (erase-end last m)

  -- the range does not end at the first region
  allowed-apart :
      (k : ℕ) (q2 : Option ℕ) (m : Map V)
      → IsAllowed (erases_range (some k) q2) m
      → same q2 (some 0) ≡ false
  unfolding IsAllowed same
  allowed-apart k none m a = refl
  allowed-apart k (some j) m a = let later_one : 0 < j = a.3 in ground arith

  -- the tracer with the range erased, and its cache cleared behind
  cleared_lem :
      (first last : Option ℕ) (t : Tracer V)
      → IsTracer t
      → before 0 first ≡ true
      → Maps
          (erase first last t.map)
          (some (clear_cache (record t { map = erase first last t.map })))
  cleared_lem first last t h b =
      let u : Tracer V = record t { map = erase first last t.map } in
      (
        clear_cache u,
        refl,
        clear_map u,
        clear_cache-IsTracer u (erase-IsFrom 0 first last t.map h.ascending)
            (begin-erase first last t.map h.infinite b),
      )

  erase_range_lem :
      (q1 q2 : Option ℕ) (t : Tracer V)
      → IsTracer t
      → IsAllowed (erases_range q1 q2) t.map
      → Maps (erase_between q1 q2 t.map) (erase_range q1 q2 t)
  unfolding erase_range erase_between IsAllowed same before
  erase_range_lem none q2 t h a =
      let (u, done, map, g) = cleared_lem none q2 t h refl in
      rw h.infinite (u, done, map ∙ erase-end q2 t.map, g)
  erase_range_lem (some k) q2 t h a =
      let apart = allowed-apart k q2 t.map a in
      elim (Bool-cases (k == 0)) [
        | inl q ↦
            let first : k ≡ 0 = ground arith in
            rw (h.infinite, q, apart, first)
              (cleared_lem (upper_bound 0 t.map) q2 t h (before-upper_bound 0 t.map))
        | inr q ↦ rw (h.infinite, q) (cleared_lem (some k) q2 t h (later k q))
      ]

  new-IsTracer : (v : V) → IsTracer (new_tracer v)
  unfolding new_tracer new begin
  new-IsTracer v =
      clear_cache-IsTracer (record { map = new v; i_recent = none; i_next = none })
        (omega arith, tt) refl

  call_lem :
      (c : Bool) (op : Operation V) (t : Tracer V)
      → IsTracer t
      → IsAllowed op t.map
      → Maps (call_map op t.map) (call c op t)
  unfolding call call_map IsAllowed
  call_lem c (appends k v) t h a = append_lem k v t h
  call_lem c (removes k) t h a = remove_lem c k t h
  call_lem c clears t h a = clear_lem t h
  call_lem c (erases k) t h a = erase_key_lem k t h
  call_lem c (erases_at none) t h a = absurd a
  call_lem c (erases_at (some k)) t h a = erase_at_lem k t h
  call_lem c (erases_range q1 q2) t h a = erase_range_lem q1 q2 t h a
  call_lem c (selects k) t h a =
      let (r, t', selected, at, map, g) = select_lem c k t h in rw selected (t', refl, map, g)

  calls_lem :
      (c : Bool) (ops : List (Operation V)) (t : Tracer V)
      → IsTracer t
      → AreAllowed ops t.map
      → Maps (calls_map ops t.map) (calls c ops t)
  unfolding calls calls_map AreAllowed
  calls_lem c [] t h a = (t, refl, refl, h)
  calls_lem c (op ∷ ops) t h a =
      let (t', called, map, g) = call_lem c op t h a.0 in
      let (u, rest, map', w) = calls_lem c ops t' g (rw map a.1) in
      rw called (u, rest, map' ∙ ap (calls_map ops) map, w)

  -- After any calls on a new tracer, with the cache or without, where the iterators that are given to
  -- `erase` stand at regions of the map and no range ends before it begins or at the first region, they
  -- have returned and the map is what the calls make of it as a map alone; `select` then gives the
  -- region of the key in that map.
  pub tracer_lem :
      (use_cache : Bool) (v : V) (ops : List (Operation V)) (k : ℕ)
      → AreAllowed ops (new v)
      → (t : Tracer V) × (u : Tracer V) × (r : ℕ) × (calls use_cache ops (new_tracer v) ≡ some t)
        × (t.map ≡ calls_map ops (new v))
        × (select use_cache k t ≡ some (some r, u))
        × (region k (calls_map ops (new v)) ≡ some r)
        × (u.map ≡ calls_map ops (new v))
  unfolding new_tracer clear_cache
  tracer_lem use_cache v ops k a =
      let (t, called, map, g) = calls_lem use_cache ops (new_tracer v) (new-IsTracer v) a in
      let (r, u, selected, at, same_map, w) = select_lem use_cache k t g in
      (t, u, r, called, map, selected, ap (region k) (sym map) ∙ at, same_map ∙ map)
