-- ===== src/IntervalMap/Keys.antt =====
-- The operations of `std::map` that interval_map.h uses, by what they do to the entry at each key.
use crs.Base.{
  ℕ, suc, ◌≤◌, ◌<◌, ◌≡◌, refl, Bool, true, false, not, [], ◌∷◌, Option, none, some, arith, ◌==◌,
  ◌&&◌, if◌then◌else◌, Bool-cases, inl, inr,
}
use crs.IntervalMap.{Map, insert, at_key, set_at, before, erase}

module _ {V : Type 0} where
  -- the keys ascend, from `lo` on
  abbrev pub IsFrom : ℕ → Map V → Type 0
  IsFrom lo [] = Unit
  IsFrom lo ((j, w) ∷ m) = (lo ≤ j) × IsFrom (suc j) m

  pub at_key-above : (lo k : ℕ) (m : Map V) → IsFrom lo m → k < lo → at_key k m ≡ none
  unfolding at_key
  at_key-above lo k [] v h = refl
  at_key-above lo k ((j, w) ∷ m) v h = ground (arith, at_key-above (suc j) k m)

  abbrev pub is_none : Option V → Bool
  is_none none = true
  is_none (some v) = false

  pub insert-IsFrom :
      (lo k : ℕ) (v : V) (m : Map V) → lo ≤ k → IsFrom lo m → IsFrom lo (insert k v m).0
  unfolding insert
  insert-IsFrom lo k v [] h a = (h, tt)
  insert-IsFrom lo k v ((j, w) ∷ m) h a = ground (arith, insert-IsFrom (suc j) k v m)

  pub insert-new :
      (lo k : ℕ) (v : V) (m : Map V) → IsFrom lo m → (insert k v m).1 ≡ is_none (at_key k m)
  unfolding insert at_key
  insert-new lo k v [] a = refl
  insert-new lo k v ((j, w) ∷ m) a =
      ground (arith, insert-new (suc j) k v m, at_key-above (suc j) k m)

  pub at_key-insert :
      (lo k i : ℕ) (v : V) (m : Map V)
      → IsFrom lo m
      → at_key i (insert k v m).0 ≡ (if i == k && is_none (at_key k m) then some v else at_key i m)
  unfolding insert at_key
  at_key-insert lo k i v [] a = ground arith
  at_key-insert lo k i v ((j, w) ∷ m) a =
      ground
        (arith, at_key-insert (suc j) k i v m, at_key-above (suc j) k m, at_key-above (suc j) i m)

  pub set_at-IsFrom : (lo k : ℕ) (v : V) (m : Map V) → IsFrom lo m → IsFrom lo (set_at k v m)
  unfolding set_at
  set_at-IsFrom lo k v [] a = tt
  set_at-IsFrom lo k v ((j, w) ∷ m) a = ground (arith, set_at-IsFrom (suc j) k v m)

  pub at_key-set_at :
      (k i : ℕ) (v : V) (m : Map V)
      → at_key i (set_at k v m)
        ≡ (if i == k && not (is_none (at_key k m)) then some v else at_key i m)
  unfolding set_at at_key
  at_key-set_at k i v [] = ground arith
  at_key-set_at k i v ((j, w) ∷ m) = ground (arith, at_key-set_at k i v m)

  pub erase-IsFrom :
      (lo : ℕ) (first last : Option ℕ) (m : Map V) → IsFrom lo m → IsFrom lo (erase first last m)
  unfolding erase
  erase-IsFrom lo first last [] a = tt
  erase-IsFrom lo first last ((j, w) ∷ m) a =
      elim (Bool-cases (not (before j first) && before j last)) [
        | inl e ↦ rw e (
            weaken lo (suc j) (erase first last m) (omega arith)
              (erase-IsFrom (suc j) first last m a.1))
        | inr e ↦ rw e (a.0, erase-IsFrom (suc j) first last m a.1)
      ]
    where
      weaken : (lo j : ℕ) (m : Map V) → lo ≤ j → IsFrom j m → IsFrom lo m
      weaken lo j [] h b = tt
      weaken lo j ((i, w) ∷ m) h b = (omega arith, b.1)

  pub at_key-erase :
      (first last : Option ℕ) (i : ℕ) (m : Map V)
      → at_key i (erase first last m)
        ≡ (if not (before i first) && before i last then none else at_key i m)
  unfolding erase at_key
  at_key-erase first last i [] = ground arith
  at_key-erase first last i ((j, w) ∷ m) = ground (arith, at_key-erase first last i m)
