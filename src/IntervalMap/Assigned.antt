-- ===== src/IntervalMap/Assigned.antt =====
-- What the keys read in a map with the entries that `assign` leaves, and the canonical form.
use crs.Base.{
  ℕ, zero, suc, ◌≤◌, ◌<◌, ◌≡◌, ◌≢◌, ◌↔◌, sym, ap, ◌∙◌, Bool, true, false, none, some, arith, ltb,
  leb, ◌==◌, ◌&&◌, if◌then◌else◌, Bool-cases, inl, inr,
}
use crs.IntervalMap.{Map, at_key}
use crs.IntervalMap.Keys.{IsFrom}
use crs.IntervalMap.Reads.{read, read-zero, read-suc}
use crs.IntervalMap.Values.{Entries, read-some}
use crs.IntervalMap.Assign.{assigned, left_joins, right_joins}

-- The representation is canonical: the keys ascend, the least key has an entry, and no entry has
-- the value of the one before it.
pub record IsCanonical {V : Type 0} (m : Map V) : Type 0 where
  pub from : IsFrom 0 m
  pub least : (w : V) × (at_key 0 m ≡ some w)
  pub changes : (k : ℕ) (v : V) → at_key (suc k) m ≡ some v → read k m ≢ some v

module _ {V : Type 0} (veq : V → V → Bool) (veq_iff : (a b : V) → (veq a b ≡ true) ↔ (a ≡ b)) where
  module _ (key_begin e : ℕ) (val : V) (m m' : Map V) {w : V} (a : IsFrom 0 m)
      (h : at_key 0 m ≡ some w) (lt : key_begin ≤ e)
      (b : Entries m' (assigned veq veq_iff key_begin e val m a h lt)) where
    abbrev joins_left : Bool
    joins_left = left_joins veq veq_iff key_begin e val m a h lt key_begin

    abbrev joins_right : Bool
    joins_right = right_joins veq veq_iff key_begin e val m a h lt

    entry_low : (i : ℕ) → i < key_begin → at_key i m' ≡ at_key i m
    entry_low i q = b.entry i ∙ ground arith

    entry_begin : at_key key_begin m' ≡ (if joins_left then none else some val)
    entry_begin = b.entry key_begin ∙ ground arith

    entry_inside : (i : ℕ) → key_begin < i → i ≤ e → at_key i m' ≡ none
    entry_inside i q r = b.entry i ∙ ground arith

    entry_end : at_key (suc e) m' ≡ (if joins_right then none else read (suc e) m)
    entry_end = b.entry (suc e) ∙ ground arith

    entry_high : (i : ℕ) → suc e < i → at_key i m' ≡ at_key i m
    entry_high i q = b.entry i ∙ ground arith

    joins_left-suc : (k : ℕ) → key_begin ≡ suc k → joins_left ≡ true → read k m ≡ some val
    joins_left-suc k q j =
        let (x, hx) = read-some k m a h in
        let joined : joins_left ≡ veq x val = rw (q, hx) in ground (arith, veq_iff x val)

    joins_left-apart : (k : ℕ) → key_begin ≡ suc k → joins_left ≡ false → read k m ≢ some val
    joins_left-apart k q j =
        let (x, hx) = read-some k m a h in
        let joined : joins_left ≡ veq x val = rw (q, hx) in ground (arith, veq_iff x val)

    joins_right-true : joins_right ≡ true → read (suc e) m ≡ some val
    joins_right-true j =
        let (x, hx) = read-some (suc e) m a h in
        let joined : joins_right ≡ veq x val = rw hx in ground (arith, veq_iff x val)

    joins_right-apart : joins_right ≡ false → read (suc e) m ≢ some val
    joins_right-apart j =
        let (x, hx) = read-some (suc e) m a h in
        let joined : joins_right ≡ veq x val = rw hx in ground (arith, veq_iff x val)

    -- the value that an entry leaves where the interval begins, and where it ends
    read_begin : (k : ℕ) → key_begin ≡ suc k → read k m' ≡ read k m → read (suc k) m' ≡ some val
    read_begin k q rest = read-suc 0 k m' b.from ∙ elim (Bool-cases joins_left) [
      | inl j ↦ rw (← q, entry_begin, j, rest) (joins_left-suc k q j)
      | inr j ↦ rw (← q, entry_begin, j)
    ]

    read_end : read e m' ≡ some val → read (suc e) m' ≡ read (suc e) m
    read_end rest = read-suc 0 e m' b.from ∙ elim (Bool-cases joins_right) [
      | inl j ↦ rw (entry_end, j, rest) (sym (joins_right-true j))
      | inr j ↦ let (x, hx) = read-some (suc e) m a h in rw (entry_end, j, hx)
    ]

    read_first : key_begin ≡ 0 → read 0 m' ≡ some val
    read_first q =
        let alone : joins_left ≡ false = rw q in
        read-zero 0 m' b.from ∙ ap (λ i. at_key i m') (sym q) ∙ entry_begin ∙ rw alone

    abbrev pub inside : ℕ → Bool
    inside k = leb key_begin k && ltb k (suc e)

    pub read-assigned : (k : ℕ) → read k m' ≡ (if inside k then some val else read k m)
    read-assigned zero = elim (Bool-cases (key_begin == 0)) [
      | inl q ↦ ground (arith, read_first)
      | inr q ↦ ground (arith, read-zero 0 m' b.from, read-zero 0 m a, entry_low 0)
    ]
    read-assigned (suc k) =
        let rest = read-assigned k in
        elim (Bool-cases (ltb (suc k) key_begin)) [
          | inl q ↦ ground (arith, read-suc 0 k m' b.from, read-suc 0 k m a, entry_low (suc k))
          | inr q ↦ elim (Bool-cases (key_begin == suc k)) [
            | inl r ↦ ground (arith, read_begin k)
            | inr r ↦ elim (Bool-cases (ltb k e)) [
              | inl t ↦ ground (arith, read-suc 0 k m' b.from, entry_inside (suc k))
              | inr t ↦ elim (Bool-cases (k == e)) [
                | inl u ↦
                    let here : k ≡ e = ground arith in
                    let before_end : read k m' ≡ some val = ground (arith, rest) in
                    let value : read (suc e) m' ≡ read (suc e) m =
                      read_end (ap (λ i. read i m') (sym here) ∙ before_end) in
                    let there : read (suc k) m' ≡ read (suc k) m =
                      ap (λ i. read (suc i) m') here
                      ∙ value
                      ∙ ap (λ i. read (suc i) m) (sym here) in
                    ground (arith, there)
                | inr u ↦
                    ground (arith, read-suc 0 k m' b.from, read-suc 0 k m a, entry_high (suc k))
              ]
            ]
          ]
        ]

    changes_begin :
        (k : ℕ) (v : V)
        → key_begin ≡ suc k
        → read k m' ≡ read k m
        → at_key (suc k) m' ≡ some v
        → read k m' ≢ some v
    changes_begin k v q rest there same =
        let kept : at_key key_begin m' ≡ some v = ap (λ i. at_key i m') q ∙ there in
        elim (Bool-cases joins_left) [
          | inl j ↦ let gone : none ≡ some v = sym (entry_begin ∙ rw j) ∙ kept in cc
          | inr j ↦
              let held : some val ≡ some v = sym (entry_begin ∙ rw j) ∙ kept in
              joins_left-apart k q j (sym rest ∙ same ∙ sym held)
        ]

    changes_end : (v : V) → read e m' ≡ some val → at_key (suc e) m' ≡ some v → read e m' ≢ some v
    changes_end v rest there same = elim (Bool-cases joins_right) [
      | inl j ↦ let gone : none ≡ some v = sym (entry_end ∙ rw j) ∙ there in cc
      | inr j ↦
          let held : read (suc e) m ≡ some v = sym (entry_end ∙ rw j) ∙ there in
          joins_right-apart j (held ∙ sym same ∙ rest)
    ]

    -- an entry that is left differs from the value before it
    pub assigned-changes :
        ((k : ℕ) (v : V) → at_key (suc k) m ≡ some v → read k m ≢ some v)
        → (k : ℕ) (v : V) → at_key (suc k) m' ≡ some v
        → read k m' ≢ some v
    assigned-changes old k v there same =
        let rest = read-assigned k in
        elim (Bool-cases (ltb (suc k) key_begin)) [
          | inl q ↦ ground (arith, old k v, entry_low (suc k))
          | inr q ↦ elim (Bool-cases (key_begin == suc k)) [
            | inl r ↦ changes_begin k v (ground arith) (ground (arith, rest)) there same
            | inr r ↦ elim (Bool-cases (ltb k e)) [
              | inl t ↦ ground (arith, entry_inside (suc k))
              | inr t ↦ elim (Bool-cases (k == e)) [
                | inl u ↦
                    let here : k ≡ e = ground arith in
                    let before_end : read k m' ≡ some val = ground (arith, rest) in
                    changes_end v (ap (λ i. read i m') (sym here) ∙ before_end)
                      (ap (λ i. at_key (suc i) m') (sym here) ∙ there)
                      (ap (λ i. read i m') (sym here) ∙ same)
                | inr u ↦ ground (arith, old k v, entry_high (suc k))
              ]
            ]
          ]
        ]
