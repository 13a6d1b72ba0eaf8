-- ===== src/Packets/Items.antt =====
-- The items in the buffer of a packet.
use native.Mathlib.Nat.{div-mul-le_self, mul-le-mul_right}
use crs.Base.{
  ℕ, zero, suc, ◌+◌, ◌*◌, ◌/◌, ◌≤◌, ◌<◌, ◌≡◌, refl, sym, ap, ◌∙◌, true, false, List, [], ◌∷◌, ◌++◌,
  none, some, ltb, leb, ◌==◌, arith, length, take, drop, overwrite, take-overwrite_before,
  length-overwrite, drop-take_append, drop-overwrite_behind, Bool-cases, inl, inr,
}
use crs.Packets.{
  PacketHeader, TalkPacket, header_size, store_bytes, load_bytes, header, item_size, item_range,
  get_item, set_item,
}
use crs.Packets.Layout.{room, load_bytes-store_bytes, length-store_bytes, IsWhole}

load_bytes-take : (n : ℕ) (xs : List ℕ) → load_bytes n (take n xs) ≡ load_bytes n xs
unfolding load_bytes
load_bytes-take zero xs = refl
load_bytes-take (suc n) [] = refl
load_bytes-take (suc n) (x ∷ xs) = ap (λ v. x + 256 * v) (load_bytes-take n xs)

load_bytes-overwrite_before :
    (n m at : ℕ) (bytes contents : List ℕ)
    → m + n ≤ at
    → at + length bytes ≤ length contents
    → load_bytes n (drop m (overwrite at bytes contents)) ≡ load_bytes n (drop m contents)
load_bytes-overwrite_before n m at bytes contents l h =
    sym (load_bytes-take n (drop m (overwrite at bytes contents)))
    ∙ ap (load_bytes n) (take-overwrite_before n m at bytes contents l h)
    ∙ load_bytes-take n (drop m contents)

header-overwrite :
    (at : ℕ) (bytes contents : List ℕ)
    → header_size ≤ at
    → at + length bytes ≤ length contents
    → header (overwrite at bytes contents) ≡ header contents
unfolding header
header-overwrite at bytes contents l h =
    rw
      (
        load_bytes-overwrite_before 4 0 at bytes contents (omega arith) h,
        load_bytes-overwrite_before 2 4 at bytes contents (omega arith) h,
        load_bytes-overwrite_before 2 6 at bytes contents (omega arith) h,
        load_bytes-overwrite_before 2 8 at bytes contents (omega arith) h,
      )
      refl

-- an item in range lies behind the header and in the contents
item_inside :
    (w idx : ℕ) (p : TalkPacket)
    → IsWhole p
    → idx < item_size (suc w) p
    → (header_size + idx * suc w) + suc w ≤ length p.contents
unfolding item_size
item_inside w idx p v l =
    let room = v.room in
    let next : suc idx * suc w ≤ (header p.contents).sz / suc w * suc w =
      mul-le-mul_right (suc w) l in
    let most = div-mul-le_self (header p.contents).sz (suc w) in omega arith

get_item_lem :
    (w idx : ℕ) (p : TalkPacket)
    → idx < item_size (suc w) p
    → get_item (suc w) idx p
      ≡ some (load_bytes (suc w) (drop (header_size + idx * suc w) p.contents))
unfolding get_item item_range
get_item_lem w idx p l =
    let inside : leb (item_size (suc w) p) idx ≡ false = ground arith in rw inside refl

get_item-out :
    (w idx : ℕ) (p : TalkPacket)
    → leb (item_size (suc w) p) idx ≡ true
    → get_item (suc w) idx p ≡ none
unfolding get_item item_range
get_item-out w idx p l = rw l refl

item_size-header :
    (w : ℕ) (p q : TalkPacket)
    → header q.contents ≡ header p.contents
    → item_size w q ≡ item_size w p
unfolding item_size
item_size-header zero p q e = refl
item_size-header (suc w) p q e = ap (λ (h : PacketHeader). h.sz / suc w) e

module _ (w idx v : ℕ) (p : TalkPacket) (h : IsWhole p) (l : idx < item_size (suc w) p) where
  -- the packet with the number in its place
  abbrev written : TalkPacket
  written = record p {
    contents = overwrite (header_size + idx * suc w) (store_bytes (suc w) v) p.contents;
  }

  fits_in : header_size + idx * suc w + length (store_bytes (suc w) v) ≤ length p.contents
  fits_in =
      let inside = item_inside w idx p h l in
      let bytes = length-store_bytes (suc w) v in omega arith

  written-header : header written.contents ≡ header p.contents
  written-header =
      header-overwrite (header_size + idx * suc w) (store_bytes (suc w) v) p.contents (omega arith)
        fits_in

  written-IsWhole : IsWhole written
  written-IsWhole =
      let size =
        length-overwrite (header_size + idx * suc w) (store_bytes (suc w) v) p.contents fits_in in
      record {
        size = h.size ∙ sym size;
        small = h.small;
        room = (let room = h.room in rw (written-header, size) room);
      }

  set_item_lem : set_item (suc w) idx v p ≡ some written
  unfolding set_item item_range
  set_item_lem = let inside : leb (item_size (suc w) p) idx ≡ false = ground arith in rw inside refl

  same_place : v < room (suc w) → get_item (suc w) idx written ≡ some v
  same_place b =
      let at = header_size + idx * suc w in
      let bytes = store_bytes (suc w) v in
      let fits = fits_in in
      let size = item_size-header (suc w) p written written-header in
      let there =
        drop-take_append at p.contents (bytes ++ drop (at + length bytes) p.contents)
          (omega arith) in
      let read = load_bytes-store_bytes (suc w) v (drop (at + length bytes) p.contents) b in
      get_item_lem w idx written (omega arith)
      ∙ ap (λ xs. some (load_bytes (suc w) xs)) there
      ∙ ap some read

  other_bytes :
      (j : ℕ)
      → j == idx ≡ false
      → load_bytes (suc w) (drop (header_size + j * suc w) written.contents)
        ≡ load_bytes (suc w) (drop (header_size + j * suc w) p.contents)
  other_bytes j d =
      let at = header_size + idx * suc w in
      let bytes = store_bytes (suc w) v in
      let size = length-store_bytes (suc w) v in
      elim (Bool-cases (ltb j idx)) [
        | inl q ↦
            let below : suc j * suc w ≤ idx * suc w = mul-le-mul_right (suc w) (ground arith) in
            load_bytes-overwrite_before (suc w) (header_size + j * suc w) at bytes p.contents
              (omega arith) fits_in
        | inr q ↦
            let above : suc idx * suc w ≤ j * suc w = mul-le-mul_right (suc w) (ground arith) in
            ap (load_bytes (suc w)) (
              drop-overwrite_behind (header_size + j * suc w) at bytes p.contents (omega arith)
                fits_in)
      ]

  other_place : (j : ℕ) → j == idx ≡ false → get_item (suc w) j written ≡ get_item (suc w) j p
  other_place j d =
      let size = item_size-header (suc w) p written written-header in
      elim (Bool-cases (leb (item_size (suc w) p) j)) [
        | inl q ↦ get_item-out w j written (rw size q) ∙ sym (get_item-out w j p q)
        | inr q ↦
            let inside : j < item_size (suc w) p = ground arith in
            get_item_lem w j written (omega arith)
            ∙ ap some (other_bytes j d)
            ∙ sym (get_item_lem w j p inside)
      ]

-- A number that is written to an item in range is read back there; the packet stays whole, with
-- the same header and size, and its other items of that width read what they did.
pub set_item-get_item :
    (w idx v : ℕ) (p : TalkPacket)
    → IsWhole p
    → idx < item_size (suc w) p
    → v < room (suc w)
    → (q : TalkPacket) × (set_item (suc w) idx v p ≡ some q)
      × IsWhole q
      × (header q.contents ≡ header p.contents)
      × (q.size ≡ p.size)
      × (get_item (suc w) idx q ≡ some v)
      × ((j : ℕ) → (j == idx ≡ false) → get_item (suc w) j q ≡ get_item (suc w) j p)
set_item-get_item w idx v p h l b = (
  written w idx v p h l,
  set_item_lem w idx v p h l,
  written-IsWhole w idx v p h l,
  written-header w idx v p h l,
  refl,
  same_place w idx v p h l b,
  other_place w idx v p h l,
)
