-- ===== src/Elements/Skipped.antt =====
-- Which elements `for_each` calls the action for, where it removes none and where it removes one.
use mathlib.Core.List.{append_assoc, append-nil}
use crs.Base.{
  get_elem?-append_end, set-append_end, take_all, take-append, ℕ, zero, suc, ◌+◌, ◌-◌, ◌<◌, ◌≡◌,
  refl, Bool, true, false, List, [], ◌∷◌, ◌++◌, some, arith, length, get_elem?, swap, length-append,
  ◌==◌,
}
use crs.Elements.{for_each_loop, for_each, destroy_element}
use crs.Elements.Removal.{acts}

module _ {S : Type 0} (dp : ℕ → Bool) (p : ℕ → Bool) (f : S → ℕ → S) where
  -- the action's states along a list
  abbrev pub visit_all : S → List ℕ → S
  visit_all s [] = s
  visit_all s (e ∷ es) = visit_all (f s e) es

  abbrev pub NoneHas : List ℕ → Type 0
  NoneHas [] = Unit
  NoneHas (e ∷ es) = (p e ≡ false) × NoneHas es

  -- `es` stand in `v` from `i` on
  abbrev Segment : List ℕ → ℕ → List ℕ → Type 0
  Segment v i [] = Unit
  Segment v i (e ∷ es) = (get_elem? v i ≡ some e) × Segment v (i + 1) es

  -- the loop passes over elements that stay
  for_each_loop-walk :
      (es v : List ℕ) (k i l : ℕ) (s : S) (gone : List ℕ)
      → length es < k
      → i + length es ≡ l
      → Segment v i es
      → NoneHas es
      → for_each_loop dp
          (acts dp p f)
          k
          i
          (record { vec = v; last = l; state = s; destroyed = gone })
        ≡ some (record { vec = v; last = l; state = visit_all s es; destroyed = gone })
  unfolding for_each_loop
  for_each_loop-walk es v zero i l s gone h e g n = absurd (omega arith)
  for_each_loop-walk [] v (suc k) i l s gone h e g n =
      let done : (i == l) ≡ true = ground arith in rw done
  for_each_loop-walk (a ∷ es) v (suc k) i l s gone h e g n =
      let more : (i == l) ≡ false = ground arith in
      rw (more, g.0, n.0)
        (for_each_loop-walk es v k (i + 1) l (f s a) gone (omega arith) (omega arith) g.1 n.1)

  Segment-append :
      (front es back : List ℕ) (i : ℕ) → i ≡ length front → Segment (front ++ (es ++ back)) i es
  Segment-append front [] back i e = tt
  Segment-append front (a ∷ es) back i e = (
    rw (e, get_elem?-append_end front (es ++ back) a),
    rw (append_assoc front (a ∷ []) (es ++ back)) at (
        Segment-append (front ++ a ∷ []) es back (i + 1)
          (omega (arith, length-append front (a ∷ [])))),
  )

  -- Where the action removes nothing, it is called for every element once, in order, and the list
  -- stays as it was.
  pub for_each-none :
      (c : List ℕ) (s : S) → NoneHas c → for_each dp (acts dp p f) c s ≡ some (c, visit_all s c, [])
  unfolding for_each
  for_each-none c s n = rw (
    for_each_loop-walk c c (suc (length c)) 0 (length c) s [] (omega arith) (omega arith)
        (rw append-nil at (Segment-append [] c [] 0 refl)) n,
    take_all c,
  )

  -- the first round, which removes `x` and brings `y` to its place
  for_each_loop-first :
      (x y : ℕ) (zs : List ℕ) (k l : ℕ) (s : S)
      → p x ≡ true
      → l ≡ suc (length zs)
      → for_each_loop dp
          (acts dp p f)
          (suc k)
          0
          (record { vec = x ∷ (zs ++ y ∷ []); last = suc l; state = s; destroyed = [] })
        ≡ for_each_loop dp (acts dp p f) k 1 (record {
          vec = y ∷ (zs ++ x ∷ []);
          last = l;
          state = f s x;
          destroyed = destroy_element dp [] x;
        })
  unfolding for_each_loop swap
  for_each_loop-first x y zs k l s hx e =
      let before : suc (suc (length zs)) - 1 ≡ suc (length zs) = omega arith in
      let running : (0 == suc (suc (length zs))) ≡ false = ground arith in
      let others : (0 == suc (length zs)) ≡ false = ground arith in
      rw (
        e,
        running,
        hx,
        before,
        others,
        get_elem?-append_end zs [] y,
        set-append_end zs [] y x,
        get_elem?-append_end zs [] x,
      )

  -- Where the action removes the first of several elements and none after it but perhaps the last,
  -- the last is not visited; it stays, also where the action would remove it.
  pub for_each-skips :
      (x y : ℕ) (zs : List ℕ) (s : S)
      → p x ≡ true
      → NoneHas zs
      → for_each dp (acts dp p f) (x ∷ (zs ++ y ∷ [])) s
        ≡ some (y ∷ zs, visit_all s (x ∷ zs), destroy_element dp [] x)
  unfolding for_each
  for_each-skips x y zs s hx stay =
      let size : length (zs ++ y ∷ []) ≡ suc (length zs) =
        omega (arith, length-append zs (y ∷ [])) in
      let n = length (zs ++ y ∷ []) in
      rw (
        for_each_loop-first x y zs (suc n) n s hx size,
        for_each_loop-walk zs (y ∷ (zs ++ x ∷ [])) (suc n) 1 n (f s x) (destroy_element dp [] x)
            (omega arith) (omega arith) (Segment-append (y ∷ []) zs (x ∷ []) 1 refl) stay,
        size,
        take-append zs (x ∷ []),
      )
