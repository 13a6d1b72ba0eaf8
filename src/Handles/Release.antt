-- ===== src/Handles/Release.antt =====
-- `unbind` of a handle that is bound anew or destroyed afterwards.
use crs.Base.{
  ℕ, ◌+◌, ◌-◌, ◌<◌, ◌≡◌, refl, sym, ap, ◌∙◌, true, false, not, List, [], ◌∷◌, ◌++◌, Option, some,
  arith, ◌==◌, ◌&&◌, if◌then◌else◌, some_inj, length, length-set, get_elem?, get_elem?-set,
  get_elem?-bound, set_twice, get_elem?-eq-get_or, set, get_or, get_or-set, Bool-cases, inl, inr,
  ==_iff,
}
use crs.Handles.{Handle, Store, null, unbind}
use crs.Handles.Count.{
  links, count, count-set, count-get, links-bound, links-other, contains, contains-append, holders,
  count-eq-holders, IsCounted,
}

-- the store without the handle `i`
abbrev pub blank : ℕ → Store → Store
blank i s = record s { handles = set s.handles i null }

module _ (s : Store) (i : ℕ) (h : Handle) (e : get_elem? s.handles i ≡ some h)
    (w : IsCounted s) where
  in_range : i < length s.handles
  in_range = get_elem?-bound s.handles i h e

  -- a bound handle of the store without the handle `i` is another handle of the store
  pub others :
      (j : ℕ) (g : Handle)
      → get_elem? (set s.handles i null) j ≡ some g
      → g.object == 0 ≡ false
      → (get_elem? s.handles j ≡ some g) × (i == j ≡ false)
  others j g f b =
      let at = sym (get_elem?-set s.handles i j null in_range) ∙ f in
      elim (Bool-cases (i == j)) [
        | inr q ↦ (rw q at at, q)
        | inl q ↦
            let blanked : some null ≡ some g = rw q at at in
            let object : g.object ≡ 0 = ap (λ x. x.object) (sym (some_inj blanked)) in
            absurd (ground arith)
      ]

  count-blank : (c : ℕ) → count c (set s.handles i null) + links c h ≡ count c s.handles
  count-blank c = count-set c i h null s.handles e ∙ omega arith

  -- the store without the handle, with other counters and deleted objects
  blank-IsCounted :
      (nlinks deleted : List ℕ)
      → length nlinks ≡ length s.nlinks
      → ((c : ℕ) → c < length s.nlinks → get_or nlinks c 0 ≡ count c (set s.handles i null))
      → ((j : ℕ) (g : Handle)
          → get_elem? s.handles j ≡ some g
          → g.object == 0 ≡ false
          → (i == j ≡ false)
          → contains g.object deleted ≡ false)
      → IsCounted (record { handles = set s.handles i null; nlinks = nlinks; deleted = deleted })
  blank-IsCounted nlinks deleted size counts kept = record {
    counts = λ c l. counts c (omega arith);
    bound = λ j g f b. let (c, k, l) = w.bound j g (others j g f b).0 b in (c, k, omega arith);
    shared = λ j k g x f f' b o.
        let b' : x.object == 0 ≡ false = rw o at b in
        w.shared j k g x (others j g f b).0 (others k x f' b').0 b o;
    one_object =
        λ j k g x f f' b b' o. w.one_object j k g x (others j g f b).0 (others k x f' b').0 b b' o;
    kept = λ j g f b. kept j g (others j g f b).0 b (others j g f b).1;
  }

  kept_lem :
      (j : ℕ) (g : Handle)
      → get_elem? s.handles j ≡ some g
      → g.object == 0 ≡ false
      → (i == j ≡ false)
      → contains g.object s.deleted ≡ false
  kept_lem j g f b d = w.kept j g f b

  -- what `unbind` deletes: the object of a handle that was its last one
  abbrev pub deletes : List ℕ
  deletes =
      if not (h.object == 0) && (holders h.object (set s.handles i null) == 0)
      then s.deleted ++ h.object ∷ []
      else s.deleted

  abbrev pub Released : Option Store → Type 0
  Released result =
      (t : Store) × (result ≡ some t)
      × IsCounted (blank i t)
      × (set t.handles i null ≡ set s.handles i null)
      × (t.deleted ≡ deletes)
      × (length t.nlinks ≡ length s.nlinks)

  unbind-null : h.object == 0 ≡ true → Released (unbind i s)
  unfolding unbind
  unbind-null q =
      let counts =
        blank-IsCounted s.nlinks s.deleted refl
          (λ c l. w.counts c l ∙ sym (count-blank c) ∙ no_link c) kept_lem in
      rw (e, q) (s, refl, counts, refl, refl, refl)
    where
      no_link :
          (c : ℕ) → count c (set s.handles i null) + links c h ≡ count c (set s.handles i null)
      no_link c = rw q (omega arith)

  module _ (q : h.object == 0 ≡ false) (c : ℕ) (k : h.hcounter ≡ some c) where
    links-holds :
        (j : ℕ) (g : Handle)
        → get_elem? (set s.handles i null) j ≡ some g
        → links c g ≡ (if g.object == h.object then 1 else 0)
    links-holds j g f = elim (Bool-cases (g.object == 0)) [
      | inl b ↦ let other : g.object == h.object ≡ false = ground arith in rw (b, other)
      | inr b ↦
          let at = (others j g f b).0 in
          elim (Bool-cases (g.object == h.object)) [
            | inl o ↦
                let same = w.shared j i g h at e b ((==_iff _ _).0 o) ∙ k in
                rw o (links-bound c g b same)
            | inr o ↦
                let (c', k', _) = w.bound j g at b in
                elim (Bool-cases (c' == c)) [
                  | inl r ↦
                      let counter : g.hcounter ≡ h.hcounter =
                        k' ∙ ap some ((==_iff _ _).0 r) ∙ sym k in
                      let object = w.one_object j i g h at e b q counter in absurd (ground arith)
                  | inr r ↦ rw o (links-other c c' g k' r)
                ]
          ]
    ]

    others_held : count c (set s.handles i null) ≡ holders h.object (set s.handles i null)
    others_held = count-eq-holders c h.object (set s.handles i null) links-holds

    one_less : (l : c < length s.nlinks) → get_or s.nlinks c 0 ≡ count c (set s.handles i null) + 1
    one_less l = w.counts c l ∙ sym (count-blank c) ∙ rw (links-bound c h q k) refl

    counted :
        (l : c < length s.nlinks) (d : ℕ)
        → d < length s.nlinks
        → get_or (set s.nlinks c (get_or s.nlinks c 0 - 1)) d 0 ≡ count d (set s.handles i null)
    counted l d m = elim (Bool-cases (c == d)) [
      | inl r ↦
          let same = (==_iff c d).0 r in
          let less = one_less l in
          let here : get_or s.nlinks c 0 - 1 ≡ count c (set s.handles i null) = omega arith in
          rw (get_or-set s.nlinks c d (get_or s.nlinks c 0 - 1) 0 l, r)
            (here ∙ ap (λ x. count x (set s.handles i null)) same)
      | inr r ↦
          let none = links-other d c h k r in
          let all = count-blank d in
          rw (get_or-set s.nlinks c d (get_or s.nlinks c 0 - 1) 0 l, r) (w.counts d m ∙ omega arith)
    ]

    -- the object deleted with its last handle is not that of another handle
    still_kept :
        c < length s.nlinks
        → get_or s.nlinks c 0 - 1 == 0 ≡ true
        → (j : ℕ) (g : Handle) → get_elem? s.handles j ≡ some g
        → g.object == 0 ≡ false
        → (i == j ≡ false)
        → contains g.object (s.deleted ++ h.object ∷ []) ≡ false
    still_kept l z j g f b d =
        let less = one_less l in
        let there : get_elem? (set s.handles i null) j ≡ some g =
          get_elem?-set s.handles i j null in_range ∙ rw d f in
        let holds = links-holds j g there in
        let most = count-get c j g (set s.handles i null) there in
        let other : g.object == h.object ≡ false = ground arith in
        contains-append g.object h.object s.deleted ∙ rw (w.kept j g f b, other)

    unbind-bound : (l : c < length s.nlinks) → Released (unbind i s)
    unfolding unbind
    unbind-bound l =
        let n = get_or s.nlinks c 0 in
        let found = get_elem?-eq-get_or s.nlinks c 0 l in
        let less = one_less l in
        let held = others_held in
        let positive : n == 0 ≡ false = ground arith in
        let size = length-set s.nlinks c (n - 1) in
        let twice = set_twice s.handles i null null in
        elim (Bool-cases (n - 1 == 0)) [
          | inl z ↦
              let none_left : holders h.object (set s.handles i null) == 0 ≡ true = ground arith in
              rw (e, q, k, found, positive, z, none_left)
                (
                  _,
                  refl,
                  rw twice (
                      blank-IsCounted (set s.nlinks c (n - 1)) (s.deleted ++ h.object ∷ []) size
                        (λ d m. counted l d m) (still_kept l z)),
                  twice,
                  refl,
                  size,
                )
          | inr z ↦
              let some_left : holders h.object (set s.handles i null) == 0 ≡ false = ground arith in
              rw (e, q, k, found, positive, z, some_left)
                (
                  _,
                  refl,
                  blank-IsCounted (set s.nlinks c (n - 1)) s.deleted size (λ d m. counted l d m)
                      kept_lem,
                  refl,
                  refl,
                  size,
                )
        ]

  -- `unbind` returns, and without the handle the store is counted.
  pub unbind_lem : Released (unbind i s)
  unbind_lem = elim (Bool-cases (h.object == 0)) [
    | inl q ↦ unbind-null q
    | inr q ↦ let (c, k, l) = w.bound i h e q in unbind-bound q c k l
  ]
