-- ===== src/IntervalMap.antt =====
-- crs/interval_map.h: class interval_map <K, V> over a `std::map <K, V>`, for unsigned keys, whose
-- least value `std::numeric_limits<K>::min ()` is 0; keys are compared and nothing else.
-- The map is the list of its pairs in ascending order of the keys. Its iterators stay valid under
-- insertion, so an iterator is the key that it stands at, and `none` is `end ()`. An operation
-- yields `none` where it would use an iterator that is not there.
pub mod Keys
pub mod Reads
pub mod Values
pub mod Assign
pub mod Assigned
pub mod Contract
mod Tests
use crs.Base.{
  ℕ, zero, suc, Bool, true, false, not, List, [], ◌∷◌, Option, none, some, ltb, leb, ◌==◌, ◌&&◌,
  if◌then◌else◌, ◌>>=◌,
}

abbrev pub Map : Type 0 → Type 0
Map V = List (ℕ × V)

abbrev pub or_else : Option ℕ → ℕ → ℕ
or_else none j = j
or_else (some p) j = p

-- whether an iterator at the key `k` stands before `it`
unfoldable pub before : ℕ → Option ℕ → Bool
before k none = true
before k (some j) = ltb k j

module _ {V : Type 0} where
  -- `std::map::insert`: the map, and whether the key is new
  unfoldable pub insert : ℕ → V → Map V → Map V × Bool
  insert k v [] = ((k, v) ∷ [], true)
  insert k v ((j, w) ∷ m) =
      let (m', inserted) = insert k v m in
      if ltb k j
      then ((k, v) ∷ (j, w) ∷ m, true)
      else if k == j
      then ((j, w) ∷ m, false)
      else ((j, w) ∷ m', inserted)

  -- `it->second` for an iterator at `k`
  unfoldable pub at_key : ℕ → Map V → Option V
  at_key k [] = none
  at_key k ((j, w) ∷ m) = if k == j then some w else at_key k m

  -- `it->second = v`
  pub set_at : ℕ → V → Map V → Map V
  set_at k v [] = []
  set_at k v ((j, w) ∷ m) = if k == j then (j, v) ∷ m else (j, w) ∷ set_at k v m

  unfoldable pub begin : Map V → Option ℕ
  begin [] = none
  begin ((j, w) ∷ m) = some j

  -- `--it` for an iterator at `k`
  unfoldable pub prev : ℕ → Map V → Option ℕ
  prev k [] = none
  prev k ((j, w) ∷ m) = if ltb j k then some (or_else (prev k m) j) else none

  unfoldable pub last_key : Map V → Option ℕ
  last_key [] = none
  last_key ((j, w) ∷ m) = some (or_else (last_key m) j)

  -- `upper_bound (k)`; also `++it` for an iterator at `k`
  unfoldable pub upper_bound : ℕ → Map V → Option ℕ
  upper_bound k [] = none
  upper_bound k ((j, w) ∷ m) = if ltb k j then some j else upper_bound k m

  -- `erase (first, last)`: the keys from `first` on that are before `last`
  unfoldable pub erase : Option ℕ → Option ℕ → Map V → Map V
  erase first last [] = []
  erase first last ((j, w) ∷ m) =
      if not (before j first) && before j last
      then erase first last m
      else (j, w) ∷ erase first last m

  -- the constructor
  unfoldable pub new : V → Map V
  new val = (0, val) ∷ []

  -- `operator []`
  pub lookup : ℕ → Map V → Option V
  lookup key m = do
    it ← elim (upper_bound key m) [ none ↦ last_key m | some k ↦ prev k m ]
    at_key it m

module _ {V : Type 0} (veq : V → V → Bool) where
  -- the new entry at `key_end` takes over the value before it
  pub copy_before : ℕ → Map V → Option (Map V)
  copy_before key_end m = do
    it ← prev key_end m
    x ← at_key it m
    y ← at_key key_end m
    some (if not (veq x y) then set_at key_end x m else m)

  -- `it` and the first entry to erase
  pub erase_from : ℕ → Map V → Option (ℕ × Option ℕ)
  erase_from key_begin m =
      let inside : Option (ℕ × Option ℕ) = do
        it ← prev key_begin m
        x ← at_key it m
        y ← at_key key_begin m
        some (if not (veq x y) then (key_begin, upper_bound key_begin m) else (it, some key_begin))
      in do
        b ← begin m
        if not (key_begin == b) then inside else some (key_begin, upper_bound key_begin m)

  -- the entry up to which to erase
  pub erase_to : ℕ → ℕ → Map V → Option (Option ℕ)
  erase_to it key_end m = do
    x ← at_key it m
    y ← at_key key_end m
    some (if veq x y then upper_bound key_end m else some key_end)

  pub assign : ℕ → ℕ → V → Map V → Option (Bool × Map V)
  assign key_begin key_end val m =
      let run : Option (Bool × Map V) = do
        let (m₁, right) = insert key_end val m
        m₂ ← if right then copy_before key_end m₁ else some m₁
        let (m₃, left) = insert key_begin val m₂
        let m₄ = if not left then set_at key_begin val m₃ else m₃
        (it, first) ← erase_from key_begin m₄
        last ← erase_to it key_end m₄
        some (true, erase first last m₄)
      in if not (ltb key_begin key_end) then some (false, m) else run
