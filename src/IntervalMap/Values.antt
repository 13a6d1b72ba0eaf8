-- ===== src/IntervalMap/Values.antt =====
-- The entries of a map and the values that its keys read, where there is an entry at the least key.
use crs.Base.{ℕ, zero, suc, ◌≤◌, ◌≡◌, refl, sym, ap₂, ◌∙◌, Option, none, some, arith}
use crs.IntervalMap.{Map, at_key}
use crs.IntervalMap.Keys.{IsFrom}
use crs.IntervalMap.Reads.{read, or_value, read-zero, read-suc}

module _ {V : Type 0} where
  -- `m` has ascending keys, and the entry at each key is given by `f`
  pub record Entries (m : Map V) (f : ℕ → Option V) : Type 0 where
    pub from : IsFrom 0 m
    pub entry : (i : ℕ) → at_key i m ≡ f i

  Entries-self : (m : Map V) → IsFrom 0 m → Entries m (λ i. at_key i m)
  Entries-self m a = record { from = a; entry = λ i. refl }

  -- two maps with the same entries up to `k` read the same there
  pub read-cong :
      (k : ℕ) (m n : Map V)
      → IsFrom 0 m
      → IsFrom 0 n
      → ((i : ℕ) → i ≤ k → at_key i m ≡ at_key i n)
      → read k m ≡ read k n
  read-cong zero m n a b h = read-zero 0 m a ∙ h 0 (omega arith) ∙ sym (read-zero 0 n b)
  read-cong (suc k) m n a b h =
      read-suc 0 k m a
      ∙ ap₂ or_value (h (suc k) (omega arith)) (read-cong k m n a b (λ i l. h i (omega arith)))
      ∙ sym (read-suc 0 k n b)

  -- a map with an entry at 0 has a value for every key
  pub read-some :
      (k : ℕ) (m : Map V) {w : V} → IsFrom 0 m → at_key 0 m ≡ some w → (x : V) × (read k m ≡ some x)
  read-some zero m {w} a h = (w, read-zero 0 m a ∙ h)
  read-some (suc k) m a h = let (x, e) = read-some k m a h in go x e (at_key (suc k) m) refl
    where
      go :
          (x : V)
          → read k m ≡ some x
          → (o : Option V) → at_key (suc k) m ≡ o
          → (y : V) × (read (suc k) m ≡ some y)
      go x e none f = (x, rw (read-suc 0 k m a, f) e)
      go x e (some y) f = (y, rw (read-suc 0 k m a, f))

  pub read-present :
      (k : ℕ) (m : Map V) {v : V} → IsFrom 0 m → at_key k m ≡ some v → read k m ≡ some v
  read-present zero m a h = read-zero 0 m a ∙ h
  read-present (suc k) m a h = rw (read-suc 0 k m a, h)

  pub read-absent :
      (k : ℕ) (m : Map V) → IsFrom 0 m → at_key (suc k) m ≡ none → read (suc k) m ≡ read k m
  read-absent k m a h = rw (read-suc 0 k m a, h)
