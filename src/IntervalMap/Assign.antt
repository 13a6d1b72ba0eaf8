-- ===== src/IntervalMap/Assign.antt =====
-- `assign`, step by step: the entry that it leaves at each key.
use crs.Base.{
  ℕ, zero, suc, ◌≤◌, ◌≡◌, ◌↔◌, refl, ◌∙◌, Bool, true, false, not, [], ◌∷◌, Option, none, some,
  arith, ltb, leb, ◌==◌, ◌&&◌, if◌then◌else◌, ◌>>=◌, >>=-eq-some, Bool-cases, inl, inr, Yields,
  yields, Yields-bind, lt→ltb,
}
use crs.IntervalMap.{
  Map, insert, at_key, set_at, begin, prev, upper_bound, before, erase, copy_before, erase_from,
  erase_to, assign,
}
use crs.IntervalMap.Keys.{
  IsFrom, at_key-above, is_none, insert-new, insert-IsFrom, at_key-insert, set_at-IsFrom,
  at_key-set_at, erase-IsFrom, at_key-erase,
}
use crs.IntervalMap.Reads.{read, prev-read, before-upper_bound}
use crs.IntervalMap.Values.{Entries, read-cong, read-some, read-present, read-absent}

begin-zero : {V : Type 0} (m : Map V) {w : V} → IsFrom 0 m → at_key 0 m ≡ some w → begin m ≡ some 0
unfolding begin at_key
begin-zero [] a h = ground arith
begin-zero ((j, w) ∷ m) a h = ground (arith, at_key-above (suc j) 0 m)

module _ {V : Type 0} (veq : V → V → Bool) (veq_iff : (a b : V) → (veq a b ≡ true) ↔ (a ≡ b)) where
  veq_comm : (a b : V) → veq a b ≡ veq b a
  veq_comm a b = ground (arith, veq_iff a b, veq_iff b a)

  module _ (key_begin e : ℕ) (val : V) (m : Map V) {w : V} (a : IsFrom 0 m)
      (h : at_key 0 m ≡ some w) (lt : key_begin ≤ e) where
    -- after the entry at the end was made: it holds what is read there
    abbrev pub with_end : ℕ → Option V
    with_end i = if i == suc e then read (suc e) m else at_key i m

    after_end :
        Yields
          (λ m₂. Entries m₂ with_end)
          (let (m₁, right) = insert (suc e) val m in
            if right then copy_before veq (suc e) m₁ else some m₁)
    unfolding copy_before
    after_end = go (at_key (suc e) m) refl
      where
        m₁ : Map V
        m₁ = (insert (suc e) val m).0

        a₁ : IsFrom 0 m₁
        a₁ = insert-IsFrom 0 (suc e) val m (omega arith) a

        entry₁ :
            (i : ℕ)
            → at_key i m₁
              ≡ (if i == suc e && is_none (at_key (suc e) m) then some val else at_key i m)
        entry₁ i = at_key-insert 0 (suc e) i val m a

        go :
            (o : Option V)
            → at_key (suc e) m ≡ o
            → Yields
                (λ m₂. Entries m₂ with_end)
                (if (insert (suc e) val m).1 then copy_before veq (suc e) m₁ else some m₁)
        go (some y) f =
            rw (insert-new 0 (suc e) val m a, f)
              (yields (record {
                from = a₁;
                entry = λ i. ground (arith, entry₁ i, read-present (suc e) m a f);
              }))
        go none f =
            let (x, hx) = read-some e m a h in
            let same : read e m₁ ≡ read e m =
              read-cong e m₁ m a₁ a (λ i l. ground (arith, entry₁ i)) in
            let (it, hp, hi) = >>=-eq-some (prev (suc e) m₁) _ (prev-read 0 e m₁ a₁ ∙ same ∙ hx) in
            let hy : at_key (suc e) m₁ ≡ some val = ground (arith, entry₁ (suc e)) in
            let end : read (suc e) m ≡ some x = read-absent e m a f ∙ hx in
            rw (insert-new 0 (suc e) val m a, f, hp, hi, hy)
              (elim (Bool-cases (veq x val)) [
                | inl q ↦ rw q (
                    yields
                      (record { from = a₁; entry = λ i. ground (arith, entry₁ i, veq_iff x val) }))
                | inr q ↦ rw q (
                    yields (record {
                      from = set_at-IsFrom 0 (suc e) x m₁ a₁;
                      entry = λ i. ground (arith, entry₁ i, at_key-set_at (suc e) i x m₁);
                    }))
              ])

    abbrev pub with_begin : ℕ → Option V
    with_begin i = if i == key_begin then some val else with_end i

    after_begin :
        (m₂ : Map V)
        → Entries m₂ with_end
        → Entries
            (let (m₃, left) = insert key_begin val m₂ in
              if not left then set_at key_begin val m₃ else m₃)
            with_begin
    after_begin m₂ b =
        let m₃ = (insert key_begin val m₂).0 in
        let a₃ : IsFrom 0 m₃ = insert-IsFrom 0 key_begin val m₂ (omega arith) b.from in
        let entry₃ = λ (i : ℕ). at_key-insert 0 key_begin i val m₂ b.from in
        elim (Bool-cases (is_none (at_key key_begin m₂))) [
          | inl q ↦
              rw (insert-new 0 key_begin val m₂ b.from, q)
                (record { from = a₃; entry = λ i. ground (arith, entry₃ i, b.entry i) })
          | inr q ↦
              rw (insert-new 0 key_begin val m₂ b.from, q)
                (record {
                  from = set_at-IsFrom 0 key_begin val m₃ a₃;
                  entry = λ i. ground (
                    arith,
                    entry₃ i,
                    entry₃ key_begin,
                    b.entry i,
                    at_key-set_at key_begin i val m₃,
                  );
                })
        ]

    -- whether the value is that of `o`
    abbrev pub holds : Option V → Bool
    holds none = false
    holds (some x) = veq x val

    -- whether the interval joins the one before it, and the one behind it
    abbrev pub left_joins : ℕ → Bool
    left_joins zero = false
    left_joins (suc b) = holds (read b m)

    abbrev pub right_joins : Bool
    right_joins = holds (read (suc e) m)

    -- what `erase_from` yields on the map `m₄`
    record IsFirst (m₄ : Map V) (it : ℕ) (first : Option ℕ) : Type 0 where
      held : at_key it m₄ ≡ some val
      bound :
          (i : ℕ)
          → is_none (at_key i m₄) ≡ false
          → not (before i first)
            ≡ (if left_joins key_begin then leb key_begin i else ltb key_begin i)

    module _ (m₄ : Map V) (b : Entries m₄ with_begin) where
      at_begin : at_key key_begin m₄ ≡ some val
      at_begin = ground (arith, b.entry key_begin)

      begin_m₄ : begin m₄ ≡ some 0
      begin_m₄ = elim (Bool-cases (0 == key_begin)) [
        | inl q ↦ begin-zero m₄ {w = val} b.from (b.entry 0 ∙ rw q)
        | inr q ↦ begin-zero m₄ {w = w} b.from (b.entry 0 ∙ rw (q, h) (ground arith))
      ]

      from_here : left_joins key_begin ≡ false → IsFirst m₄ key_begin (upper_bound key_begin m₄)
      from_here q = record {
        held = at_begin;
        bound = λ i there. rw (before-upper_bound 0 key_begin i m₄ b.from there, q) (ground arith);
      }

      erase_from-IsFirst : Yields (λ r. IsFirst m₄ r.0 r.1) (erase_from veq key_begin m₄)
      unfolding erase_from before
      erase_from-IsFirst = go key_begin refl
        where
          go :
              (k : ℕ)
              → key_begin ≡ k
              → Yields (λ r. IsFirst m₄ r.0 r.1) (erase_from veq key_begin m₄)
          go zero q =
              let none_before : left_joins key_begin ≡ false = rw q in
              let here : key_begin == 0 ≡ true = ground arith in
              rw (begin_m₄, here) (yields (from_here none_before))
          go (suc k) q =
              let inner : key_begin == 0 ≡ false = ground arith in
              let (x, hx) = read-some k m a h in
              let same : read k m₄ ≡ read k m =
                read-cong k m₄ m b.from a (λ i l. ground (arith, b.entry i)) in
              let found : (prev (suc k) m₄ >>= λ it. at_key it m₄) ≡ some x =
                prev-read 0 k m₄ b.from ∙ same ∙ hx in
              let (it, hp, hi) = >>=-eq-some (prev (suc k) m₄) _ found in
              let hp' : prev key_begin m₄ ≡ some it = rw q hp in
              let joined : left_joins key_begin ≡ veq x val = rw (q, hx) in
              rw (begin_m₄, inner, hp', hi, at_begin)
                (elim (Bool-cases (veq x val)) [
                  | inl c ↦ rw c (
                      yields (record {
                        held = ground (arith, veq_iff x val);
                        bound = λ i there. rw (joined, c) (ground arith);
                      }))
                  | inr c ↦ rw c (yields (from_here (joined ∙ c)))
                ])

      at_end : at_key (suc e) m₄ ≡ read (suc e) m
      at_end = ground (arith, b.entry (suc e))

      -- what `erase_to` yields
      record IsLast (last : Option ℕ) : Type 0 where
        until :
            (i : ℕ)
            → is_none (at_key i m₄) ≡ false
            → before i last ≡ (if right_joins then leb i (suc e) else ltb i (suc e))

      erase_to-IsLast :
          (it : ℕ) → at_key it m₄ ≡ some val → Yields IsLast (erase_to veq it (suc e) m₄)
      unfolding erase_to before
      erase_to-IsLast it held =
          let (x, hx) = read-some (suc e) m a h in
          let there : at_key (suc e) m₄ ≡ some x = at_end ∙ hx in
          let joined : right_joins ≡ veq val x = rw hx (veq_comm x val) in
          rw (held, there)
            (elim (Bool-cases (veq val x)) [
              | inl c ↦ rw c (
                  yields (record {
                    until = λ i p. rw (before-upper_bound 0 (suc e) i m₄ b.from p, joined, c);
                  }))
              | inr c ↦ rw c (yields (record { until = λ i p. rw (joined, c) }))
            ])

    abbrev pub erased : ℕ → Bool
    erased i =
        (if left_joins key_begin then leb key_begin i else ltb key_begin i)
        && (if right_joins then leb i (suc e) else ltb i (suc e))

    abbrev pub assigned : ℕ → Option V
    assigned i = if erased i then none else with_begin i

    erase-Entries :
        (m₄ : Map V) (b : Entries m₄ with_begin) (it : ℕ) (first last : Option ℕ)
        → IsFirst m₄ it first
        → IsLast m₄ b last
        → Entries (erase first last m₄) assigned
    erase-Entries m₄ b it first last f l = record {
      from = erase-IsFrom 0 first last m₄ b.from;
      entry = λ i. at_key-erase first last i m₄ ∙ elim (Bool-cases (is_none (at_key i m₄))) [
        | inl q ↦ ground (arith, b.entry i)
        | inr q ↦ rw (f.bound i q, l.until i q, b.entry i)
      ];
    }

    pub assign-Entries :
        Yields (λ r. (r.0 ≡ true) × Entries r.1 assigned) (assign veq key_begin (suc e) val m)
    unfolding assign
    assign-Entries =
        let some_keys : ltb key_begin (suc e) ≡ true = lt→ltb key_begin (suc e) (omega arith) in
        rw some_keys (
          Yields-bind after_end λ m₂ b₂.
            let b = after_begin m₂ b₂ in
            Yields-bind (erase_from-IsFirst _ b) λ r f.
              Yields-bind (erase_to-IsLast _ b r.0 f.held)
                λ last l. yields (refl, erase-Entries _ b r.0 r.1 last f l))
