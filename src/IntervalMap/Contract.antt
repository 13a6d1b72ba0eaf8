-- ===== src/IntervalMap/Contract.antt =====
-- `assign` as a whole: what the keys read afterwards; and that the canonical form is unique.
use crs.Base.{
  ℕ, zero, suc, ◌≤◌, ◌≡◌, ◌↔◌, refl, sym, ap₂, ◌∙◌, Bool, true, false, [], ◌∷◌, Option, none, some,
  arith, ltb, leb, ◌&&◌, if◌then◌else◌, Bool-cases, inl, inr, Yields, yields, Yields-mono,
}
use crs.IntervalMap.{Map, assign, lookup, at_key, new, upper_bound, last_key, prev}
use crs.IntervalMap.Keys.{IsFrom, at_key-above}
use crs.IntervalMap.Reads.{read, read-zero, lookup-read_above}
use crs.IntervalMap.Values.{read-some, read-present, read-absent}
use crs.IntervalMap.Assign.{assign-Entries}
use crs.IntervalMap.Assigned.{IsCanonical, read-assigned, assigned-changes}

module _ {V : Type 0} (veq : V → V → Bool) (veq_iff : (a b : V) → (veq a b ≡ true) ↔ (a ≡ b)) where
  assign-inside :
      (key_begin e : ℕ) (val : V) (m : Map V)
      → IsCanonical m
      → key_begin ≤ e
      → Yields
          (λ r.
            (r.0 ≡ true)
            × IsCanonical r.1
            × ((k : ℕ)
                → lookup k r.1
                  ≡ (if leb key_begin k && ltb k (suc e) then some val else lookup k m)))
          (assign veq key_begin (suc e) val m)
  assign-inside key_begin e val m c lt =
      let (w, h) = c.least in
      Yields-mono
        (λ r (done, b).
          let reads = read-assigned veq veq_iff key_begin e val m r.1 c.from h lt b in
          let first : (x : V) × (read 0 r.1 ≡ some x) =
            elim (Bool-cases (leb key_begin 0 && ltb 0 (suc e))) [
              | inl q ↦ (val, reads 0 ∙ rw q)
              | inr q ↦ (w, reads 0 ∙ rw q (read-zero 0 m c.from ∙ h))
            ] in
          (
            done,
            record {
              from = b.from;
              least = (first.0, sym (read-zero 0 r.1 b.from) ∙ first.1);
              changes = assigned-changes veq veq_iff key_begin e val m r.1 c.from h lt b c.changes;
            },
            λ k. lookup-read_above 0 k r.1 b.from ∙ reads k ∙ rw (lookup-read_above 0 k m c.from),
          ))
        (assign-Entries veq veq_iff key_begin e val m c.from h lt)

  -- Where the comparison of values is equality, assign on a canonical map returns whether the
  -- interval is not empty and keeps the map canonical; the keys of the interval read the value
  -- afterwards, and all others what they did.
  pub assign_lem :
      (key_begin key_end : ℕ) (val : V) (m : Map V)
      → IsCanonical m
      → Yields
          (λ r.
            (r.0 ≡ ltb key_begin key_end)
            × IsCanonical r.1
            × ((k : ℕ)
                → lookup k r.1
                  ≡ (if leb key_begin k && ltb k key_end then some val else lookup k m)))
          (assign veq key_begin key_end val m)
  unfolding assign
  assign_lem key_begin key_end val m c = elim (Bool-cases (ltb key_begin key_end)) [
    | inl q ↦ go key_end q
    | inr q ↦ rw q (yields (refl, c, λ k. ground arith))
  ]
    where
      go :
          (j : ℕ)
          → ltb key_begin j ≡ true
          → Yields
              (λ r.
                (r.0 ≡ ltb key_begin j)
                × IsCanonical r.1
                × ((k : ℕ)
                    → lookup k r.1 ≡ (if leb key_begin k && ltb k j then some val else lookup k m)))
              (assign veq key_begin j val m)
      go zero q = absurd (ground arith)
      go (suc e) q =
          Yields-mono (λ r (done, d, reads). (done ∙ sym q, d, reads))
            (assign-inside key_begin e val m c (ground arith))

module _ {V : Type 0} where
  -- A new map is canonical, and every key reads its value.
  pub new_lem : (val : V) → IsCanonical (new val) × ((k : ℕ) → lookup k (new val) ≡ some val)
  unfolding new at_key lookup upper_bound last_key prev
  new_lem val = (
    record { from = (omega arith, tt); least = (val, refl); changes = λ k v h same. ground arith },
    λ k. let low : ltb k 0 ≡ false = ground arith in rw low,
  )

  -- Every key of a canonical map has a value.
  pub lookup-total : (k : ℕ) (m : Map V) → IsCanonical m → (v : V) × (lookup k m ≡ some v)
  lookup-total k m c =
      let (v, e) = read-some k m c.from c.least.1 in (v, lookup-read_above 0 k m c.from ∙ e)

  at_key-ext :
      (lo : ℕ) (m n : Map V)
      → IsFrom lo m
      → IsFrom lo n
      → ((k : ℕ) → at_key k m ≡ at_key k n)
      → m ≡ n
  unfolding at_key
  at_key-ext lo [] [] a b h = refl
  at_key-ext lo [] ((j, w) ∷ n) a b h = absurd (ground (arith, h j))
  at_key-ext lo ((i, v) ∷ m) [] a b h = absurd (ground (arith, h i))
  at_key-ext lo ((i, v) ∷ m) ((j, w) ∷ n) a b h =
      let key : i ≡ j =
        ground (arith, h i, h j, at_key-above (suc i) j m a.1, at_key-above (suc j) i n b.1) in
      let value : v ≡ w = ground (arith, h i) in
      let tail : m ≡ n =
        at_key-ext (suc i) m n a.1 (rw key b.1)
          λ k. ground (arith, h k, at_key-above (suc i) k m a.1, at_key-above (suc j) k n b.1) in
      ap₂ ◌∷◌ (ap₂ (λ x y. (x, y)) key value) tail

  at_key-of_read :
      (k : ℕ) (m n : Map V) (v : V) (o : Option V)
      → IsCanonical m
      → IsCanonical n
      → ((i : ℕ) → read i m ≡ read i n)
      → at_key (suc k) m ≡ some v
      → at_key (suc k) n ≡ o
      → o ≡ some v
  at_key-of_read k m n v none c d same h g =
      let high = read-present (suc k) m c.from h in
      absurd (c.changes k v h (same k ∙ sym (read-absent k n d.from g) ∙ sym (same (suc k)) ∙ high))
  at_key-of_read k m n v (some y) c d same h g =
      sym (read-present (suc k) n d.from g) ∙ sym (same (suc k)) ∙ read-present (suc k) m c.from h

  -- Two canonical maps that read the same at every key are the same.
  pub IsCanonical-unique :
      (m n : Map V) → IsCanonical m → IsCanonical n → ((k : ℕ) → lookup k m ≡ lookup k n) → m ≡ n
  IsCanonical-unique m n c d same = at_key-ext 0 m n c.from d.from go
    where
      reads : (k : ℕ) → read k m ≡ read k n
      reads k = sym (lookup-read_above 0 k m c.from) ∙ same k ∙ lookup-read_above 0 k n d.from

      options : (k : ℕ) (o p : Option V) → at_key (suc k) m ≡ o → at_key (suc k) n ≡ p → o ≡ p
      options k none none h g = refl
      options k (some v) p h g = sym (at_key-of_read k m n v p c d reads h g)
      options k none (some y) h g = at_key-of_read k n m y none d c (λ i. sym (reads i)) g h

      go : (k : ℕ) → at_key k m ≡ at_key k n
      go zero = sym (read-zero 0 m c.from) ∙ reads 0 ∙ read-zero 0 n d.from
      go (suc k) = options k _ _ refl refl
