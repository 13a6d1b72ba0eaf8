-- ===== src/Handles/Place.antt =====
-- A handle put into the place of one that is not bound.
use crs.Base.{
  ℕ, ◌+◌, ◌≤◌, ◌<◌, ◌≡◌, refl, sym, ap, ◌∙◌, true, false, List, [], ◌∷◌, ◌++◌, some, arith, ◌==◌,
  some_inj, length, get_elem?, get_elem?-set, get_elem?-bound, set, get_or, get_or-set, Bool-cases,
  ◌⊎◌, inl, inr, ==_iff, length-set, length-append, get_or-append_end, get_or-append_left,
}
use crs.Handles.{Handle, Store, null}
use crs.Handles.Count.{
  links, links-bound, links-other, count, count-none, count-set, contains, IsCounted,
}

-- what the handle `x` needs to be put into the store
pub record Fits (s : Store) (x : Handle) (nlinks : List ℕ) : Type 0 where
  pub size : length s.nlinks ≤ length nlinks
  pub counts : (c : ℕ) → c < length nlinks → get_or nlinks c 0 ≡ count c s.handles + links c x
  pub bound : x.object == 0 ≡ false → (c : ℕ) × (x.hcounter ≡ some c) × (c < length nlinks)
  pub shared :
      (j : ℕ) (g : Handle)
      → get_elem? s.handles j ≡ some g
      → g.object == 0 ≡ false
      → x.object ≡ g.object
      → x.hcounter ≡ g.hcounter
  pub one_object :
      (j : ℕ) (g : Handle)
      → get_elem? s.handles j ≡ some g
      → g.object == 0 ≡ false
      → x.object == 0 ≡ false
      → x.hcounter ≡ g.hcounter
      → x.object ≡ g.object
  pub kept : x.object == 0 ≡ false → contains x.object s.deleted ≡ false

module _ (s : Store) (i : ℕ) (x : Handle) (nlinks : List ℕ) (e : get_elem? s.handles i ≡ some null)
    (w : IsCounted s) (f : Fits s x nlinks) where
  -- a handle of the new store is the new one, or one of the old store
  which :
      (j : ℕ) (g : Handle)
      → get_elem? (set s.handles i x) j ≡ some g
      → ((x ≡ g) ⊎ (get_elem? s.handles j ≡ some g))
  which j g h =
      let at = sym (get_elem?-set s.handles i j x (get_elem?-bound s.handles i null e)) ∙ h in
      elim (Bool-cases (i == j)) [ inl q ↦ inl (some_inj (rw q at at)) | inr q ↦ inr (rw q at at) ]

  -- the two are the same handle
  of_object : (g : Handle) → x ≡ g → x.object ≡ g.object
  of_object g q = ap (λ (y : Handle). y.object) q

  of_counter : (g : Handle) → x ≡ g → x.hcounter ≡ g.hcounter
  of_counter g q = ap (λ (y : Handle). y.hcounter) q

  of_bound : (g : Handle) → x ≡ g → g.object == 0 ≡ false → x.object == 0 ≡ false
  of_bound g q b = ap (λ y. y == 0) (of_object g q) ∙ b

  place-bound :
      (j : ℕ) (g : Handle)
      → get_elem? (set s.handles i x) j ≡ some g
      → g.object == 0 ≡ false
      → (c : ℕ) × (g.hcounter ≡ some c) × (c < length nlinks)
  place-bound j g h b = elim (which j g h) [
    | inl q ↦ let (c, k, l) = f.bound (of_bound g q b) in (c, sym (of_counter g q) ∙ k, l)
    | inr q ↦ let (c, k, l) = w.bound j g q b in (c, k, omega (arith, f.size))
  ]

  place-shared :
      (j k : ℕ) (g y : Handle)
      → get_elem? (set s.handles i x) j ≡ some g
      → get_elem? (set s.handles i x) k ≡ some y
      → g.object == 0 ≡ false
      → g.object ≡ y.object
      → g.hcounter ≡ y.hcounter
  place-shared j k g y h h' b o =
      let b' : y.object == 0 ≡ false = ap (λ z. z == 0) (sym o) ∙ b in
      elim (which j g h) [
        | inl q ↦ elim (which k y h') [
          | inl p ↦ sym (of_counter g q) ∙ of_counter y p
          | inr p ↦ sym (of_counter g q) ∙ f.shared k y p b' (of_object g q ∙ o)
        ]
        | inr q ↦ elim (which k y h') [
          | inl p ↦ sym (f.shared j g q b (of_object y p ∙ sym o)) ∙ of_counter y p
          | inr p ↦ w.shared j k g y q p b o
        ]
      ]

  place-one_object :
      (j k : ℕ) (g y : Handle)
      → get_elem? (set s.handles i x) j ≡ some g
      → get_elem? (set s.handles i x) k ≡ some y
      → g.object == 0 ≡ false
      → y.object == 0 ≡ false
      → g.hcounter ≡ y.hcounter
      → g.object ≡ y.object
  place-one_object j k g y h h' b b' o = elim (which j g h) [
    | inl q ↦ elim (which k y h') [
      | inl p ↦ sym (of_object g q) ∙ of_object y p
      | inr p ↦ sym (of_object g q) ∙ f.one_object k y p b' (of_bound g q b) (of_counter g q ∙ o)
    ]
    | inr q ↦ elim (which k y h') [
      | inl p ↦
          sym (f.one_object j g q b (of_bound y p b') (of_counter y p ∙ sym o)) ∙ of_object y p
      | inr p ↦ w.one_object j k g y q p b b' o
    ]
  ]

  place-kept :
      (j : ℕ) (g : Handle)
      → get_elem? (set s.handles i x) j ≡ some g
      → g.object == 0 ≡ false
      → contains g.object s.deleted ≡ false
  place-kept j g h b = elim (which j g h) [
    | inl q ↦ ap (λ z. contains z s.deleted) (sym (of_object g q)) ∙ f.kept (of_bound g q b)
    | inr q ↦ w.kept j g q b
  ]

  pub place-IsCounted : IsCounted (record s { handles = set s.handles i x; nlinks = nlinks })
  place-IsCounted = record {
    counts = λ c l. let set_count = count-set c i null x s.handles e in f.counts c l ∙ omega arith;
    bound = place-bound;
    shared = place-shared;
    one_object = place-one_object;
    kept = place-kept;
  }

-- a handle that is not bound fits everywhere
pub unbound-Fits : (t : Store) (x : Handle) → IsCounted t → x.object == 0 ≡ true → Fits t x t.nlinks
unbound-Fits t x v q = record {
  size = omega arith;
  counts = λ c l. rw q (v.counts c l ∙ omega arith);
  bound = λ b. absurd cc;
  shared = λ j g f b o. absurd (ground arith);
  one_object = λ j g f b b' o. absurd cc;
  kept = λ b. absurd cc;
}

-- a second handle to the object of the handle `o` at `j`, with one link more
pub shared-Fits :
    (t : Store) (j c : ℕ) (o : Handle)
    → IsCounted t
    → get_elem? t.handles j ≡ some o
    → o.object == 0 ≡ false
    → o.hcounter ≡ some c
    → c < length t.nlinks
    → Fits t o (set t.nlinks c (get_or t.nlinks c 0 + 1))
shared-Fits t j c o v f b k l = record {
  size = omega (arith, length-set t.nlinks c (get_or t.nlinks c 0 + 1));
  counts = λ d m.
      let m' : d < length t.nlinks =
        omega (arith, length-set t.nlinks c (get_or t.nlinks c 0 + 1)) in
      elim (Bool-cases (c == d)) [
        | inl q ↦
            let same = (==_iff c d).0 q in
            let one : links d o ≡ 1 = links-bound d o b (k ∙ ap some same) in
            let here : get_or t.nlinks c 0 ≡ count d t.handles =
              ap (λ z. get_or t.nlinks z 0) same ∙ v.counts d m' in
            rw (get_or-set t.nlinks c d (get_or t.nlinks c 0 + 1) 0 l, q, one, here) refl
        | inr q ↦
            let none = links-other d c o k q in
            rw (get_or-set t.nlinks c d (get_or t.nlinks c 0 + 1) 0 l, q, none)
              (v.counts d m' ∙ omega arith)
      ];
  bound = λ b. (c, k, omega (arith, length-set t.nlinks c (get_or t.nlinks c 0 + 1)));
  shared = λ n g f' b' same. v.shared j n o g f f' b same;
  one_object = λ n g f' b' b'' same. v.one_object j n o g f f' b b' same;
  kept = λ b'. v.kept j o f b;
}

unused-links :
    (t : Store) (v : IsCounted t) (c : ℕ)
    → length t.nlinks ≤ c
    → (j : ℕ) (g : Handle) → get_elem? t.handles j ≡ some g
    → links c g ≡ 0
unused-links t v c l j g f = elim (Bool-cases (g.object == 0)) [
  | inl q ↦ rw q
  | inr q ↦ let (k, counter, m) = v.bound j g f q in links-other c k g counter (ground arith)
]

-- the first handle to an object, with a new counter
pub fresh-Fits :
    (t : Store) (ptr : ℕ)
    → IsCounted t
    → ptr == 0 ≡ false
    → ((j : ℕ) (g : Handle)
        → get_elem? t.handles j ≡ some g
        → g.object == 0 ≡ false
        → g.object == ptr ≡ false)
    → contains ptr t.deleted ≡ false
    → Fits t (record { object = ptr; hcounter = some (length t.nlinks) }) (t.nlinks ++ 1 ∷ [])
fresh-Fits t ptr v b free kept = record {
  size = omega (arith, length-append t.nlinks (1 ∷ []));
  counts = λ c l.
      let size = length-append t.nlinks (1 ∷ []) in
      elim (Bool-cases (length t.nlinks == c)) [
        | inl q ↦
            let last = (==_iff _ _).0 q in
            let unused = count-none c t.handles (unused-links t v c (omega arith)) in
            let value : get_or (t.nlinks ++ 1 ∷ []) c 0 ≡ 1 =
              ap (λ z. get_or (t.nlinks ++ 1 ∷ []) z 0) (sym last)
              ∙ get_or-append_end t.nlinks [] 1 0 in
            rw (b, q) (value ∙ omega arith)
        | inr q ↦
            let below : c < length t.nlinks = ground arith in
            rw (b, q)
              (get_or-append_left t.nlinks (1 ∷ []) c 0 below ∙ v.counts c below ∙ omega arith)
      ];
  bound = λ b. (length t.nlinks, refl, omega (arith, length-append t.nlinks (1 ∷ [])));
  shared = λ j g f b' o. let no = free j g f b' in absurd (ground arith);
  one_object = λ j g f b' b'' same.
      let (c, k, l) = v.bound j g f b' in
      let last : length t.nlinks ≡ c = some_inj (same ∙ k) in absurd (omega arith);
  kept = λ b'. kept;
}
