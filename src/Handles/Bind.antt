-- ===== src/Handles/Bind.antt =====
-- `bind` of an object that has just been made, or of the null pointer.
use crs.Base.{
  ℕ, ◌≡◌, refl, sym, ◌∙◌, true, false, not, ◌&&◌, [], ◌∷◌, ◌++◌, some, arith, ◌==◌, if◌then◌else◌,
  length, get_elem?, get_elem?-set, get_elem?-bound, get_elem?-eq-get_or, set, get_or, Bool-cases,
  inl, inr, ==_iff, ==_refl,
}
use crs.Handles.{Handle, Store, null, bind}
use crs.Handles.Count.{contains, contains-append, holders, IsCounted}
use crs.Handles.Release.{blank, deletes, others, unbind_lem}
use crs.Handles.Place.{unbound-Fits, fresh-Fits}
use crs.Handles.Contract.{put-IsCounted, same_size}

-- no handle is bound to the object, and it has not been deleted
pub record IsFresh (ptr : ℕ) (s : Store) : Type 0 where
  pub unheld :
      (j : ℕ) (g : Handle)
      → get_elem? s.handles j ≡ some g
      → g.object == 0 ≡ false
      → g.object == ptr ≡ false
  pub present : contains ptr s.deleted ≡ false

module _ (s : Store) (i : ℕ) (h : Handle) (e : get_elem? s.handles i ≡ some h) (w : IsCounted s)
    (ptr : ℕ) (fresh : IsFresh ptr s) where
  -- the deleted objects after `unbind` do not have the fresh one among them
  still_present : contains ptr (deletes s i h e w) ≡ false
  still_present =
      elim (Bool-cases (not (h.object == 0) && (holders h.object (set s.handles i null) == 0))) [
        | inr q ↦ rw q fresh.present
        | inl q ↦
            let bound : h.object == 0 ≡ false = ground arith in
            let different = fresh.unheld i h e bound in
            let different' : ptr == h.object ≡ false = ground arith in
            rw q (contains-append ptr h.object s.deleted ∙ rw (fresh.present, different'))
      ]

  unbound_deletes : h.object == 0 ≡ true → deletes s i h e w ≡ s.deleted
  unbound_deletes q = rw q

  different_held : h.object == 0 ≡ false → h.object == ptr ≡ true → true ≡ false
  different_held b q = sym q ∙ fresh.unheld i h e b

  -- Where the counters are right, binding a handle to an object that no handle is bound to and that has
  -- not been deleted, or to null, returns. The object that the handle had is deleted when no other
  -- handle is bound to it; nothing else is deleted, and the counters stay right.
  pub bind_lem :
      (t : Store) × (bind i ptr s ≡ some t)
      × IsCounted t
      × ((g : Handle) × (get_elem? t.handles i ≡ some g) × (g.object ≡ ptr))
      × (t.deleted ≡ (
          if not (h.object == 0) && (holders h.object (set s.handles i null) == 0)
          then s.deleted ++ h.object ∷ []
          else s.deleted))
  unfolding bind
  bind_lem = elim (Bool-cases (h.object == ptr)) [
    | inl q ↦
        let unbound : h.object == 0 ≡ true = elim (Bool-cases (h.object == 0)) [
          | inl b ↦ b
          | inr b ↦ (let no = different_held b q in cc)
        ] in
        rw (e, q) (s, refl, w, (h, e, (==_iff _ _).0 q), sym (unbound_deletes unbound))
    | inr q ↦
        let (t, done, counted, handles, deleted, _) = unbind_lem s i h e w in
        let wide = same_size s i h e w t handles in
        let bound = get_elem?-bound s.handles i h e in
        let here = get_elem?-eq-get_or t.handles i null (omega arith) in
        let there : (x : Handle) → get_elem? (set t.handles i x) i ≡ some x =
          λ x. get_elem?-set t.handles i i x (omega arith) ∙ rw (==_refl i) refl in
        elim (Bool-cases (ptr == 0)) [
          | inl z ↦
              let x : Handle = record (get_or t.handles i null) { object = ptr } in
              rw (e, q, done, here, z)
                (
                  record t { handles = set t.handles i x },
                  refl,
                  put-IsCounted s i h e w t x t.nlinks wide counted
                      (unbound-Fits (blank i t) x counted z),
                  (x, there x, refl),
                  deleted,
                )
          | inr z ↦
              let x : Handle = record { object = ptr; hcounter = some (length t.nlinks) } in
              let free : (j : ℕ) (g : Handle)
                  → get_elem? (set t.handles i null) j ≡ some g
                  → g.object == 0 ≡ false
                  → g.object == ptr ≡ false =
                λ j g f b. fresh.unheld j g (others s i h e w j g (rw handles at f) b).0 b in
              let alive : contains ptr t.deleted ≡ false = rw deleted still_present in
              rw (e, q, done, here, z)
                (
                  record t { handles = set t.handles i x; nlinks = t.nlinks ++ 1 ∷ [] },
                  refl,
                  put-IsCounted s i h e w t x (t.nlinks ++ 1 ∷ []) wide counted
                      (fresh-Fits (blank i t) ptr counted z free alive),
                  (x, there x, refl),
                  deleted,
                )
        ]
  ]
