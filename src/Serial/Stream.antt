-- ===== src/Serial/Stream.antt =====
-- How a stream of bytes is cut into packets of `n` bytes, whatever reads it.
use mathlib.Core.List.{append_assoc}
use crs.Base.{
  ℕ, ◌≤◌, ◌<◌, ◌≡◌, refl, sym, ap, ap₂, ◌∙◌, List, [], ◌∷◌, ◌++◌, arith, length, take, drop,
  length-append, take-append-drop, length-take,
}
use crs.Serial.Bytes.{Packet}

unfoldable pub concat : List Packet → List ℕ
concat [] = []
concat (p ∷ ps) = p ++ concat ps

abbrev pub HaveSize : ℕ → List Packet → Type 0
HaveSize n [] = Unit
HaveSize n (p ∷ ps) = (length p ≡ n) × HaveSize n ps

-- `bytes` are the packets `ps`, each of `n` bytes, and the start `rest` of a next one
pub record IsCut (n : ℕ) (bytes : List ℕ) (ps : List Packet) (rest : List ℕ) : Type 0 where
  pub whole : concat ps ++ rest ≡ bytes
  pub sizes : HaveSize n ps
  pub short : length rest < n

pub IsCut-cons :
    (n : ℕ) (bytes : List ℕ) (ps : List Packet) (rest : List ℕ)
    → n ≤ length bytes
    → IsCut n (drop n bytes) ps rest
    → IsCut n bytes (take n bytes ∷ ps) rest
unfolding concat
IsCut-cons n bytes ps rest h c = record {
  whole = rw (append_assoc, c.whole, take-append-drop);
  sizes = (length-take n bytes h, c.sizes);
  short = c.short;
}

append-cancel : (p q xs ys : List ℕ) → length p ≡ length q → p ++ xs ≡ q ++ ys → (p ≡ q) × (xs ≡ ys)
append-cancel [] [] xs ys e h = (refl, h)
append-cancel [] (b ∷ q) xs ys e h = absurd (omega arith)
append-cancel (a ∷ p) [] xs ys e h = absurd (omega arith)
append-cancel (a ∷ p) (b ∷ q) xs ys e h = ground (arith, append-cancel p q xs ys)

-- there is one way to cut a stream
pub IsCut-unique :
    (n : ℕ) (bytes : List ℕ) (ps qs : List Packet) (xs ys : List ℕ)
    → IsCut n bytes ps xs
    → IsCut n bytes qs ys
    → (ps ≡ qs) × (xs ≡ ys)
unfolding concat
IsCut-unique n bytes [] [] xs ys u v = (refl, u.whole ∙ sym v.whole)
IsCut-unique n bytes [] (q ∷ qs) xs ys u v = absurd (
    omega (
      arith,
      u.short,
      v.sizes.0,
      ap length (u.whole ∙ sym v.whole),
      length-append (q ++ concat qs) ys,
      length-append q (concat qs),
    ))
IsCut-unique n bytes (p ∷ ps) [] xs ys u v = absurd (
    omega (
      arith,
      v.short,
      u.sizes.0,
      ap length (u.whole ∙ sym v.whole),
      length-append (p ++ concat ps) xs,
      length-append p (concat ps),
    ))
IsCut-unique n bytes (p ∷ ps) (q ∷ qs) xs ys u v =
    let joined : p ++ (concat ps ++ xs) ≡ q ++ (concat qs ++ ys) =
      sym (append_assoc p (concat ps) xs) ∙ u.whole ∙ sym v.whole ∙ append_assoc q (concat qs) ys in
    let (same, others) = append-cancel p q _ _ (u.sizes.0 ∙ sym v.sizes.0) joined in
    let (tails, ends) =
      IsCut-unique n (concat ps ++ xs) ps qs xs ys
        (record { whole = refl; sizes = u.sizes.1; short = u.short })
        (record { whole = sym others; sizes = v.sizes.1; short = v.short }) in
    (ap₂ ◌∷◌ same tails, ends)

HaveSize-append :
    (n : ℕ) (ps qs : List Packet) → HaveSize n ps → HaveSize n qs → HaveSize n (ps ++ qs)
HaveSize-append n [] qs h k = k
HaveSize-append n (p ∷ ps) qs h k = (h.0, HaveSize-append n ps qs h.1 k)

concat-append : (ps qs : List Packet) → concat (ps ++ qs) ≡ concat ps ++ concat qs
unfolding concat
concat-append [] qs = refl
concat-append (p ∷ ps) qs = simp (concat-append ps qs, append_assoc)

-- a cut goes on where more bytes come
pub IsCut-append :
    (n : ℕ) (bytes more : List ℕ) (ps qs : List Packet) (rest end : List ℕ)
    → IsCut n bytes ps rest
    → IsCut n (rest ++ more) qs end
    → IsCut n (bytes ++ more) (ps ++ qs) end
IsCut-append n bytes more ps qs rest end u v = record {
  whole = rw (concat-append, append_assoc, v.whole, ← append_assoc, u.whole);
  sizes = HaveSize-append n ps qs u.sizes v.sizes;
  short = v.short;
}
