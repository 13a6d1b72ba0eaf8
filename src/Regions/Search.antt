-- ===== src/Regions/Search.antt =====
-- The region of a key, and the ways in which `select` finds it.
use crs.Base.{
  ℕ, suc, ◌≤◌, ◌<◌, ◌≡◌, refl, sym, true, false, [], ◌∷◌, Option, none, some, arith, ltb, leb, ◌==◌,
  if◌then◌else◌, ◌>>=◌, some_inj, Bool-cases, inl, inr,
}
use crs.IntervalMap.{Map, or_else, at_key, before, begin, prev, last_key, upper_bound}
use crs.IntervalMap.Keys.{IsFrom, is_none, at_key-above}
use crs.Regions.{lower_bound, search}

module _ {V : Type 0} where
  -- the greatest key up to `k`
  unfoldable pub region : ℕ → Map V → Option ℕ
  region k [] = none
  region k ((j, w) ∷ m) = if ltb k j then none else some (or_else (region k m) j)

  pub region-low : (lo k : ℕ) (m : Map V) → IsFrom lo m → k < lo → region k m ≡ none
  unfolding region
  region-low lo k [] a h = refl
  region-low lo k ((j, w) ∷ m) a h = ground arith

  region-before :
      (lo r k : ℕ) (m : Map V)
      → IsFrom lo m
      → r < lo
      → before k (upper_bound r m) ≡ true
      → region k m ≡ none
  unfolding region before upper_bound
  region-before lo r k [] a h b = refl
  region-before lo r k ((j, w) ∷ m) a h b = ground arith

  -- an iterator to a region and the one behind it
  pub region-cached :
      (lo r k : ℕ) (m : Map V)
      → IsFrom lo m
      → is_none (at_key r m) ≡ false
      → r ≤ k
      → before k (upper_bound r m) ≡ true
      → region k m ≡ some r
  unfolding region at_key before upper_bound
  region-cached lo r k [] a i h b = cc
  region-cached lo r k ((j, w) ∷ m) a i h b =
      ground
        (arith, region-cached (suc j) r k m, region-before (suc j) r k m, at_key-above (suc j) r m)

  last-above : (lo l : ℕ) (m : Map V) → IsFrom lo m → last_key m ≡ some l → lo ≤ l
  unfolding last_key
  last-above lo l [] a e = cc
  last-above lo l ((j, w) ∷ []) a e = ground arith
  last-above lo l ((j, w) ∷ (i, v) ∷ m) a e = omega (arith, last-above (suc j) l ((i, v) ∷ m) a.1 e)

  region-last :
      (lo k l : ℕ) (m : Map V) → IsFrom lo m → last_key m ≡ some l → l ≤ k → region k m ≡ some l
  unfolding region last_key
  region-last lo k l [] a e h = cc
  region-last lo k l ((j, w) ∷ []) a e h = ground arith
  region-last lo k l ((j, w) ∷ (i, v) ∷ m) a e h =
      let rest = region-last (suc j) k l ((i, v) ∷ m) a.1 e h in
      let above : j ≤ k = omega (arith, last-above (suc j) l ((i, v) ∷ m) a.1 e) in ground arith

  lower_bound-some :
      (k l : ℕ) (m : Map V)
      → last_key m ≡ some l
      → k < l
      → (b : ℕ) × (lower_bound k m ≡ some b) × (k ≤ b)
  unfolding last_key lower_bound
  lower_bound-some k l [] e h = cc
  lower_bound-some k l ((j, w) ∷ []) e h =
      let one : j ≡ l = some_inj e in
      let q : leb k j ≡ true = ground arith in rw q (j, refl, omega arith)
  lower_bound-some k l ((j, w) ∷ (i, v) ∷ m) e h = elim (Bool-cases (leb k j)) [
    | inl q ↦ rw q (j, refl, ground arith)
    | inr q ↦ rw q (lower_bound-some k l ((i, v) ∷ m) e h)
  ]

  lower_bound-region :
      (lo k l : ℕ) (m : Map V)
      → IsFrom lo m
      → last_key m ≡ some l
      → k < l
      → (lower_bound k m >>= λ bound. if bound == k then some bound else prev bound m) ≡ region k m
  unfolding region last_key lower_bound prev
  lower_bound-region lo k l [] a e h = cc
  lower_bound-region lo k l ((j, w) ∷ []) a e h =
      let one : j ≡ l = some_inj e in let q : leb k j ≡ true = ground arith in rw q (ground arith)
  lower_bound-region lo k l ((j, w) ∷ (i, v) ∷ m) a e h = elim (Bool-cases (leb k j)) [
    | inl q ↦ let low = region-low (suc j) k ((i, v) ∷ m) a.1 in rw q (ground arith)
    | inr q ↦
        let (b, found, above) = lower_bound-some k l ((i, v) ∷ m) e h in
        let rest = lower_bound-region (suc j) k l ((i, v) ∷ m) a.1 e h in
        let rest' : (if b == k then some b else prev b ((i, v) ∷ m)) ≡ region k ((i, v) ∷ m) =
          rw found at rest in
        rw (q, found) (ground arith)
  ]

  pub region-some : (k : ℕ) (m : Map V) → begin m ≡ some 0 → (r : ℕ) × (region k m ≡ some r)
  unfolding region begin
  region-some k [] e = cc
  region-some k ((j, w) ∷ m) e =
      let first : j ≡ 0 = some_inj e in
      let low : ltb k j ≡ false = ground arith in (or_else (region k m) j, rw low refl)

  pub region-key :
      (lo k r : ℕ) (m : Map V)
      → IsFrom lo m
      → region k m ≡ some r
      → (is_none (at_key r m) ≡ false) × (r ≤ k) × (lo ≤ r)
  unfolding region at_key
  region-key lo k r [] a e = cc
  region-key lo k r ((j, w) ∷ m) a e = elim (Bool-cases (ltb k j)) [
    | inl q ↦ absurd (ground arith)
    | inr q ↦ whose (λ r'. region-key (suc j) k r' m a.1) (region k m) refl (some_inj (rw q at e))
  ]
    where
      whose :
          ((r' : ℕ)
            → region k m ≡ some r'
            → (is_none (at_key r' m) ≡ false) × (r' ≤ k) × (suc j ≤ r'))
          → (o : Option ℕ) → region k m ≡ o
          → or_else o j ≡ r
          → (is_none (if r == j then some w else at_key r m) ≡ false) × (r ≤ k) × (lo ≤ r)
      whose later none f g = (ground arith, ground arith, ground arith)
      whose later (some r') f g =
          let rest = later r' f in (ground arith, ground arith, ground arith)

  -- the search finds the region, without the cache
  pub search-eq-region :
      (k : ℕ) (m : Map V) → IsFrom 0 m → begin m ≡ some 0 → search k m ≡ region k m
  unfolding search last_key begin
  search-eq-region k [] a e = cc
  search-eq-region k ((j, w) ∷ m) a e =
      let l = or_else (last_key m) j in
      elim (Bool-cases (ltb k l)) [
        | inl q ↦ rw q (lower_bound-region 0 k l ((j, w) ∷ m) a refl (ground arith))
        | inr q ↦ rw q (sym (region-last 0 k l ((j, w) ∷ m) a refl (ground arith)))
      ]
