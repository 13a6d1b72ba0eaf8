-- ===== src/Regions/Cache.antt =====
-- `select` with its cache, and the operations that clear the cache.
use crs.Base.{
  ℕ, ◌≡◌, refl, ◌∙◌, ◌⊎◌, inl, inr, Bool, true, false, not, ◌&&◌, ◌||◌, Option, none, some, arith,
  leb, ==_refl, ◌>>=◌, Bool-cases,
}
use crs.IntervalMap.{at_key, before, begin, upper_bound}
use crs.IntervalMap.Keys.{IsFrom, is_none}
use crs.Regions.{Tracer, same, in_cache, clear_cache, search, select}
use crs.Regions.Search.{region, region-cached, region-some, region-key, search-eq-region}

pub same_refl : (q : Option ℕ) → same q q ≡ true
unfolding same
same_refl none = refl
same_refl (some k) = ==_refl k

module _ {V : Type 0} where
  -- The map begins with the negative infinity, and the cache is empty or holds a region and the
  -- start of the next one.
  pub record IsTracer (t : Tracer V) : Type 0 where
    pub ascending : IsFrom 0 t.map
    pub infinite : begin t.map ≡ some 0
    pub cached :
        (same t.i_recent t.i_next ≡ true)
        ⊎ ((r : ℕ) × (t.i_recent ≡ some r)
            × (is_none (at_key r t.map) ≡ false)
            × (t.i_next ≡ upper_bound r t.map))

  pub clear_cache-IsTracer :
      (t : Tracer V) → IsFrom 0 t.map → begin t.map ≡ some 0 → IsTracer (clear_cache t)
  unfolding clear_cache
  clear_cache-IsTracer t a e = record {
    ascending = a;
    infinite = e;
    cached = inl (same_refl (begin t.map));
  }

  -- what `select` gives, with the cache and without
  abbrev pub Selected : ℕ → Tracer V → Option (Option ℕ × Tracer V) → Type 0
  Selected k t result =
      (r : ℕ) × (t' : Tracer V) × (result ≡ some (some r, t'))
      × (region k t.map ≡ some r)
      × (t'.map ≡ t.map)
      × IsTracer t'

  found_lem :
      (k : ℕ) (t : Tracer V)
      → IsTracer t
      → Selected k t (
          search k t.map >>= λ recent.
          some
            (some recent, record t { i_recent = some recent; i_next = upper_bound recent t.map }))
  found_lem k t h =
      let (r, e) = region-some k t.map h.infinite in
      let (key, le, _) = region-key 0 k r t.map h.ascending e in
      let found = search-eq-region k t.map h.ascending h.infinite ∙ e in
      rw found (
        r,
        _,
        refl,
        e,
        refl,
        record {
          ascending = h.ascending;
          infinite = h.infinite;
          cached = inr (r, refl, key, refl);
        },
      )

  -- With the cache or without, `select` gives the region that the key is in, the one that starts at the greatest
  -- key up to it, and changes nothing but the cache.
  pub select_lem :
      (use_cache : Bool) (k : ℕ) (t : Tracer V) → IsTracer t → Selected k t (select use_cache k t)
  unfolding select in_cache
  select_lem use_cache k t h = elim (Bool-cases (same t.i_recent t.i_next)) [
    | inl q ↦
        let fresh : not use_cache || true ≡ true = ground arith in rw (q, fresh) (found_lem k t h)
    | inr q ↦ elim (h.cached) [
      | inl c ↦ absurd cc
      | inr c ↦
          let (r, recent, key, next) = c in
          let inside = leb r k && before k (upper_bound r t.map) in
          elim (Bool-cases (not use_cache || not inside)) [
            | inl f ↦ rw (q, recent, next, f) (found_lem k t h)
            | inr f ↦
                let bound : leb r k ≡ true = ground arith in
                let next_one : before k (upper_bound r t.map) ≡ true = ground arith in
                let at = region-cached 0 r k t.map h.ascending key (ground arith) next_one in
                rw (q, recent, next, f)
                  (
                    r,
                    _,
                    refl,
                    at,
                    refl,
                    record {
                      ascending = h.ascending;
                      infinite = h.infinite;
                      cached = inr (r, refl, key, refl);
                    },
                  )
          ]
    ]
  ]
