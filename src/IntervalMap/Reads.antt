-- ===== src/IntervalMap/Reads.antt =====
-- `operator []` and the iterators that move, by the value that a key reads.
use crs.Base.{
  ℕ, suc, ◌≤◌, ◌<◌, ◌≡◌, refl, ◌∙◌, true, false, [], ◌∷◌, Option, none, some, arith, ltb, leb, ◌==◌,
  if◌then◌else◌, ◌>>=◌, some_inj, lt→ltb, Bool-cases, inl, inr,
}
use crs.IntervalMap.{Map, at_key, prev, last_key, upper_bound, before, or_else, lookup}
use crs.IntervalMap.Keys.{IsFrom, is_none, at_key-above}

module _ {V : Type 0} where
  abbrev pub or_value : Option V → Option V → Option V
  or_value none o = o
  or_value (some v) o = some v

  -- the value of the last key up to `k`
  unfoldable pub read : ℕ → Map V → Option V
  read k [] = none
  read k ((j, w) ∷ m) = if ltb k j then none else or_value (read k m) (some w)

  read-low : (lo k : ℕ) (m : Map V) → IsFrom lo m → k < lo → read k m ≡ none
  unfolding read
  read-low lo k [] a h = refl
  read-low lo k ((j, w) ∷ m) a h = ground arith

  pub read-zero : (lo : ℕ) (m : Map V) → IsFrom lo m → read 0 m ≡ at_key 0 m
  unfolding read at_key
  read-zero lo [] a = refl
  read-zero lo ((j, w) ∷ m) a = ground (arith, read-low (suc j) 0 m, at_key-above (suc j) 0 m)

  pub read-suc :
      (lo k : ℕ) (m : Map V) → IsFrom lo m → read (suc k) m ≡ or_value (at_key (suc k) m) (read k m)
  unfolding read at_key
  read-suc lo k [] a = refl
  read-suc lo k ((j, w) ∷ m) a = ground (
    arith,
    read-suc (suc j) k m,
    at_key-above (suc j) (suc k) m,
    read-low (suc j) k m,
    read-low (suc j) (suc k) m,
  )

  -- an iterator that stands at a key of `m`
  abbrev IsKeyOf : ℕ → Map V → Option ℕ → Type 0
  IsKeyOf lo m none = Unit
  IsKeyOf lo m (some p) = (lo ≤ p) × (is_none (at_key p m) ≡ false)

  or_else-IsKeyOf :
      (lo j : ℕ) (w : V) (m : Map V) (o : Option ℕ)
      → lo ≤ j
      → IsKeyOf (suc j) m o
      → IsKeyOf lo ((j, w) ∷ m) (some (or_else o j))
  unfolding at_key
  or_else-IsKeyOf lo j w m none h a = (h, ground arith)
  or_else-IsKeyOf lo j w m (some p) h a = (omega arith, ground arith)

  at_key-or_else :
      (j : ℕ) (w : V) (m : Map V) (o : Option ℕ)
      → IsKeyOf (suc j) m o
      → at_key (or_else o j) ((j, w) ∷ m) ≡ or_value (o >>= λ it. at_key it m) (some w)
  unfolding at_key
  at_key-or_else j w m none a = ground arith
  at_key-or_else j w m (some p) a = ground arith

  prev-IsKeyOf : (lo k : ℕ) (m : Map V) → IsFrom lo m → IsKeyOf lo m (prev k m)
  unfolding prev
  prev-IsKeyOf lo k [] a = tt
  prev-IsKeyOf lo k ((j, w) ∷ m) a = elim (Bool-cases (ltb j k)) [
    | inl e ↦ rw e (or_else-IsKeyOf lo j w m (prev k m) a.0 (prev-IsKeyOf (suc j) k m a.1))
    | inr e ↦ rw e tt
  ]

  last_key-IsKeyOf : (lo : ℕ) (m : Map V) → IsFrom lo m → IsKeyOf lo m (last_key m)
  unfolding last_key
  last_key-IsKeyOf lo [] a = tt
  last_key-IsKeyOf lo ((j, w) ∷ m) a =
      or_else-IsKeyOf lo j w m (last_key m) a.0 (last_key-IsKeyOf (suc j) m a.1)

  -- the entry before an iterator holds the value read one key below it
  pub prev-read :
      (lo k : ℕ) (m : Map V) → IsFrom lo m → (prev (suc k) m >>= λ it. at_key it m) ≡ read k m
  unfolding prev at_key read
  prev-read lo k [] a = refl
  prev-read lo k ((j, w) ∷ m) a = elim (Bool-cases (ltb k j)) [
    | inl e ↦ let f : ltb j (suc k) ≡ false = ground arith in rw (e, f)
    | inr e ↦
        let f : ltb j (suc k) ≡ true = ground arith in
        rw (
          e,
          f,
          at_key-or_else j w m (prev (suc k) m) (prev-IsKeyOf (suc j) (suc k) m a.1),
          prev-read (suc j) k m a.1,
        )
  ]

  upper_bound-above :
      (lo k q : ℕ) (m : Map V) → IsFrom lo m → upper_bound k m ≡ some q → (lo ≤ q) × (k < q)
  unfolding upper_bound
  upper_bound-above lo k q [] a h = cc
  upper_bound-above lo k q ((j, w) ∷ m) a h = elim (Bool-cases (ltb k j)) [
    | inl e ↦ let f : j ≡ q = some_inj (rw e at h) in ground arith
    | inr e ↦ omega (arith, upper_bound-above (suc j) k q m a.1 (rw e at h))
  ]

  -- `--it` for an iterator that may be `end ()`
  abbrev step_back : Option ℕ → Map V → Option ℕ
  step_back none m = last_key m
  step_back (some k) m = prev k m

  step_back-IsKeyOf :
      (lo : ℕ) (o : Option ℕ) (m : Map V) → IsFrom lo m → IsKeyOf lo m (step_back o m)
  step_back-IsKeyOf lo none m a = last_key-IsKeyOf lo m a
  step_back-IsKeyOf lo (some k) m a = prev-IsKeyOf lo k m a

  step_back-cons :
      (j k : ℕ) (w : V) (m : Map V) (o : Option ℕ)
      → IsFrom (suc j) m
      → upper_bound k m ≡ o
      → step_back o ((j, w) ∷ m) ≡ some (or_else (step_back o m) j)
  unfolding last_key prev
  step_back-cons j k w m none a h = refl
  step_back-cons j k w m (some q) a h =
      let f : ltb j q ≡ true = lt→ltb j q (upper_bound-above (suc j) k q m a h).0 in rw f

  lookup-step_back :
      (k : ℕ) (m : Map V) → lookup k m ≡ (step_back (upper_bound k m) m >>= λ it. at_key it m)
  unfolding lookup
  lookup-step_back k m = ground arith

  -- On a map with ascending keys, operator [] gives the value of the greatest key up to the one
  -- asked for, and nothing where there is none.
  pub lookup-read_above : (lo k : ℕ) (m : Map V) → IsFrom lo m → lookup k m ≡ read k m
  unfolding upper_bound prev last_key at_key read
  lookup-read_above lo k [] a = lookup-step_back k []
  lookup-read_above lo k ((j, w) ∷ m) a =
      lookup-step_back k ((j, w) ∷ m) ∙ elim (Bool-cases (ltb k j)) [
        | inl e ↦ let f : ltb j j ≡ false = ground arith in rw (e, f)
        | inr e ↦ rw (
          e,
          step_back-cons j k w m (upper_bound k m) a.1 refl,
          at_key-or_else j w m (step_back (upper_bound k m) m)
              (step_back-IsKeyOf (suc j) (upper_bound k m) m a.1),
          ← lookup-step_back k m,
          lookup-read_above (suc j) k m a.1,
        )
      ]

  before-upper_bound_low :
      (lo k i : ℕ) (m : Map V) (o : Option ℕ)
      → IsFrom lo m
      → upper_bound k m ≡ o
      → i ≤ k
      → before i o ≡ true
  unfolding before
  before-upper_bound_low lo k i m none a h le = refl
  before-upper_bound_low lo k i m (some q) a h le =
      lt→ltb i q (omega (arith, upper_bound-above lo k q m a h))

  -- of the keys of a map, the ones before `upper_bound (k)` are those up to `k`
  pub before-upper_bound :
      (lo k i : ℕ) (m : Map V)
      → IsFrom lo m
      → is_none (at_key i m) ≡ false
      → before i (upper_bound k m) ≡ leb i k
  unfolding upper_bound at_key before
  before-upper_bound lo k i [] a h = cc
  before-upper_bound lo k i ((j, w) ∷ m) a h = elim (Bool-cases (ltb k j)) [
    | inl e ↦ rw e (ground (arith, at_key-above (suc j) i m))
    | inr e ↦ rw e (elim (Bool-cases (i == j)) [
      | inl f ↦
          let low : i ≤ k = ground arith in
          before-upper_bound_low (suc j) k i m _ a.1 refl low ∙ ground arith
      | inr f ↦ before-upper_bound (suc j) k i m a.1 (rw f at h)
    ])
  ]
