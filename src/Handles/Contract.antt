-- ===== src/Handles/Contract.antt =====
-- The operations of a handle keep the counters right and delete an object with its last handle.
use crs.Base.{
  ℕ, ◌+◌, ◌≡◌, refl, sym, ap, ◌∙◌, false, not, ◌&&◌, List, [], ◌∷◌, ◌++◌, Option, some, arith, ◌==◌,
  if◌then◌else◌, ◌>>=◌, some_inj, length, get_elem?, get_elem?-set, get_elem?-bound,
  get_elem?-eq-get_or, set, set_twice, get_or, Bool-cases, inl, inr, ==_iff, ==_refl, length-set,
}
use crs.Handles.{Handle, Store, null, addhandle, unbind, assign_object, assign, destroy}
use crs.Handles.Count.{holders, IsCounted}
use crs.Handles.Release.{blank, deletes, unbind_lem}
use crs.Handles.Place.{Fits, place-IsCounted, unbound-Fits, shared-Fits}

module _ (s : Store) (i : ℕ) (h : Handle) (e : get_elem? s.handles i ≡ some h)
    (w : IsCounted s) where
  -- Where the counters are right, the destructor of a handle returns, takes that handle alone out of the
  -- store and deletes its object exactly if no other handle is bound to it; the counters stay right.
  pub destroy_lem :
      (t : Store) × (destroy i s ≡ some t)
      × IsCounted t
      × (t.handles ≡ set s.handles i null)
      × (t.deleted ≡ (
          if not (h.object == 0) && (holders h.object t.handles == 0)
          then s.deleted ++ h.object ∷ []
          else s.deleted))
  unfolding destroy
  destroy_lem =
      let (t, done, counted, handles, deleted, _) = unbind_lem s i h e w in
      rw done (blank i t, refl, counted, handles, rw handles deleted)

  -- after `unbind`, the handle that is put into the place of `i`
  module _ (t : Store) (x : Handle) (nlinks : List ℕ)
      (size : length t.handles ≡ length s.handles) where
    blank-get : get_elem? (set t.handles i null) i ≡ some null
    blank-get =
        let bound = get_elem?-bound s.handles i h e in
        get_elem?-set t.handles i i null (omega arith) ∙ rw (==_refl i)

    pub put-IsCounted :
        IsCounted (blank i t)
        → Fits (blank i t) x nlinks
        → IsCounted (record t { handles = set t.handles i x; nlinks = nlinks })
    put-IsCounted counted fits =
        rw (set_twice t.handles i null x) at
          (place-IsCounted (blank i t) i x nlinks blank-get counted fits)

  -- the size of the store after `unbind`
  pub same_size :
      (t : Store)
      → set t.handles i null ≡ set s.handles i null
      → length t.handles ≡ length s.handles
  same_size t q =
      let left = length-set t.handles i null in
      let right = length-set s.handles i null in
      let middle = ap (λ (hs : List Handle). length hs) q in omega arith

  addhandle_lem :
      (c : ℕ) (hcounter : Option ℕ) (t : Store)
      → hcounter ≡ some c
      → get_elem? t.nlinks c ≡ some (get_or t.nlinks c 0)
      → addhandle hcounter t ≡ some (record t { nlinks = set t.nlinks c (get_or t.nlinks c 0 + 1) })
  unfolding addhandle
  addhandle_lem c hcounter t k f = rw (k, f)

  another :
      (j : ℕ) (o : Handle)
      → get_elem? s.handles j ≡ some o
      → h.object == o.object ≡ false
      → i == j ≡ false
  another j o f d = elim (Bool-cases (i == j)) [
    | inr q ↦ q
    | inl q ↦
        let same : some h ≡ some o = sym e ∙ ap (get_elem? s.handles) ((==_iff i j).0 q) ∙ f in
        let object : h.object ≡ o.object = ap (λ (x : Handle). x.object) (some_inj same) in
        absurd (ground arith)
  ]

  -- `unbind` and then the other handle's object and counter
  reassign-IsCounted :
      (j : ℕ) (o : Handle)
      → get_elem? s.handles j ≡ some o
      → h.object == o.object ≡ false
      → (t : Store) × ((unbind i s >>= λ s'. assign_object i o.object o.hcounter s') ≡ some t)
        × IsCounted t
        × ((g : Handle) × (get_elem? t.handles i ≡ some g) × (g.object ≡ o.object))
        × (t.deleted ≡ deletes s i h e w)
  unfolding assign_object
  reassign-IsCounted j o f d =
      let (t, done, counted, handles, deleted, size) = unbind_lem s i h e w in
      let wide = same_size t handles in
      let bound = get_elem?-bound s.handles i h e in
      let here = get_elem?-eq-get_or t.handles i null (omega arith) in
      let old = get_or t.handles i null in
      let there : (x : Handle) → get_elem? (set t.handles i x) i ≡ some x =
        λ x. get_elem?-set t.handles i i x (omega arith) ∙ rw (==_refl i) refl in
      elim (Bool-cases (o.object == 0)) [
        | inl q ↦
            let x : Handle = record { object = o.object; hcounter = old.hcounter } in
            rw (done, here, q)
              (
                record t { handles = set t.handles i x },
                refl,
                put-IsCounted t x t.nlinks wide counted (unbound-Fits (blank i t) x counted q),
                (x, there x, refl),
                deleted,
              )
        | inr q ↦
            let (c, k, l) = w.bound j o f q in
            let other = another j o f d in
            let other_there : get_elem? (set t.handles i null) j ≡ some o =
              rw handles (get_elem?-set s.handles i j null bound ∙ rw other f) in
            let counter = get_elem?-eq-get_or t.nlinks c 0 (omega arith) in
            let nlinks = set t.nlinks c (get_or t.nlinks c 0 + 1) in
            let added =
              addhandle_lem c o.hcounter (record t { handles = set t.handles i o }) k counter in
            rw (done, here, q, added)
              (
                record t { handles = set t.handles i o; nlinks = nlinks },
                refl,
                put-IsCounted t o nlinks wide counted
                    (shared-Fits (blank i t) j c o counted other_there q k (omega arith)),
                (o, there o, refl),
                deleted,
              )
      ]

  -- Where the counters are right, assigning a handle to another one returns and binds it to the same
  -- object. If their objects differ, the one that the handle had is deleted when no other handle is
  -- bound to it; nothing else is deleted, and the counters stay right.
  pub assign-IsCounted :
      (j : ℕ) (o : Handle)
      → get_elem? s.handles j ≡ some o
      → (t : Store) × (assign i j s ≡ some t)
        × IsCounted t
        × ((g : Handle) × (get_elem? t.handles i ≡ some g) × (g.object ≡ o.object))
        × (t.deleted ≡ (if h.object == o.object then s.deleted else deletes s i h e w))
  unfolding assign
  assign-IsCounted j o f = elim (Bool-cases (h.object == o.object)) [
    | inl q ↦ rw (e, f, q) (s, refl, w, (h, e, (==_iff _ _).0 q), refl)
    | inr q ↦
        let (t, done, counted, bound, deleted) = reassign-IsCounted j o f q in
        rw (e, f, q) (t, done, counted, bound, deleted)
  ]
