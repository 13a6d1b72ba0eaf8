-- ===== src/Packets/Layout.antt =====
-- The buffer of a packet: its header and its size.
use native.Mathlib.Nat.{mod-eq_of_lt}
use crs.Base.{
  ℕ, zero, suc, ◌+◌, ◌-◌, ◌*◌, ◌%◌, ◌/◌, ◌≤◌, ◌<◌, ◌≡◌, refl, sym, ap, ap₂, ◌∙◌, false, List, [],
  ◌∷◌, ◌++◌, some, ltb, arith, length, length-append, length-replicate, drop, replicate,
}
use crs.Packets.{
  PacketHeader, TalkPacket, header_size, ulong_mod, store_bytes, load_bytes, header_bytes, header,
  raw_size, construct, from_raw,
}

-- what `n` bytes hold
abbrev pub room : ℕ → ℕ
room zero = 1
room (suc n) = 256 * room n

pub load_bytes-store_bytes :
    (n v : ℕ) (rest : List ℕ) → v < room n → load_bytes n (store_bytes n v ++ rest) ≡ v
unfolding load_bytes store_bytes
load_bytes-store_bytes zero v rest l = omega arith
load_bytes-store_bytes (suc n) v rest l =
    let up = load_bytes-store_bytes n (v / 256) rest (omega arith) in omega arith

pub length-store_bytes : (n v : ℕ) → length (store_bytes n v) ≡ n
unfolding store_bytes
length-store_bytes zero v = refl
length-store_bytes (suc n) v = ap suc (length-store_bytes n (v / 256))

-- the fields of a header fit into their types
pub record IsHeader (h : PacketHeader) : Type 0 where
  pub sz : h.sz + 17 < ulong_mod
  pub id : h.id < 65536
  pub domain : h.domain < 65536
  pub recepient : h.recepient < 65536

pub header-header_bytes :
    (h : PacketHeader) (rest : List ℕ) → IsHeader h → header (header_bytes h ++ rest) ≡ h
unfolding header header_bytes store_bytes
header-header_bytes h rest w =
    let last = load_bytes-store_bytes 2 h.recepient rest (omega arith) in
    let third =
      load_bytes-store_bytes 2 h.domain (store_bytes 2 h.recepient ++ rest) (omega arith) in
    let second =
      load_bytes-store_bytes 2 h.id (store_bytes 2 h.domain ++ (store_bytes 2 h.recepient ++ rest))
        (omega arith) in
    let first =
      load_bytes-store_bytes 4 h.sz
        (store_bytes 2 h.id ++ (store_bytes 2 h.domain ++ (store_bytes 2 h.recepient ++ rest)))
        (omega arith) in
    rw (first, second, third, last) refl

pub raw_size_lem :
    (csz : ℕ)
    → csz + 17 < ulong_mod
    → (csz + header_size ≤ raw_size csz)
      × (raw_size csz ≤ csz + 17)
      × ((raw_size csz - header_size) % 8 ≡ 0)
unfolding raw_size
raw_size_lem csz l = ground arith

length-header_bytes : (h : PacketHeader) → length (header_bytes h) ≡ 10
unfolding header_bytes store_bytes
length-header_bytes h = refl

-- the buffer has the whole contents behind the header
pub record IsWhole (p : TalkPacket) : Type 0 where
  pub size : p.size ≡ length p.contents
  pub small : p.size < ulong_mod
  pub room : (header p.contents).sz + header_size ≤ length p.contents

-- With fields that fit into their types and contents that do not reach the end of a ulong, construct
-- returns a buffer with the header, whose contents are rounded up to whole doubles.
pub construct_lem :
    (h : PacketHeader)
    → IsHeader h
    → (p : TalkPacket) × (construct h ≡ some p)
      × IsWhole p
      × (header p.contents ≡ h)
      × (p.size ≤ h.sz + 17)
      × ((p.size - header_size) % 8 ≡ 0)
unfolding construct
construct_lem h w =
    let rest = replicate (raw_size h.sz - header_size) 0 in
    let (low, high, even) = raw_size_lem h.sz w.sz in
    let sz = w.sz in
    let reads = header-header_bytes h rest w in
    let whole = length-append (header_bytes h) rest in
    let bytes = length-header_bytes h in
    let zeros = length-replicate (raw_size h.sz - header_size) 0 in
    let total : length (header_bytes h ++ rest) ≡ raw_size h.sz =
      whole ∙ ap₂ ◌+◌ bytes zeros ∙ omega (arith, low) in
    let fits : ltb (raw_size h.sz) header_size ≡ false = ground (arith, low) in
    let p : TalkPacket = record { size = raw_size h.sz; contents = header_bytes h ++ rest } in
    let size : IsWhole p = record {
      size = sym total;
      small = omega (arith, high, sz);
      room = rw (reads, total) low;
    } in
    rw fits (p, refl, size, reads, high, even)

-- The constructor from a raw buffer takes the buffer of every whole packet and gives the packet back.
pub from_raw-contents : (p : TalkPacket) → IsWhole p → from_raw p.contents ≡ some p
unfolding from_raw header
from_raw-contents p w =
    let room = w.room in
    let enough : ltb (length p.contents) (load_bytes 4 p.contents + header_size) ≡ false =
      ground arith in
    let size : length p.contents % ulong_mod ≡ p.size = rw (← w.size) (mod-eq_of_lt w.small) in
    rw (enough, size) refl

-- what a buffer begins with does not depend on what comes behind
load_bytes-append :
    (n m : ℕ) (xs ys : List ℕ)
    → m + n ≤ length xs
    → load_bytes n (drop m (xs ++ ys)) ≡ load_bytes n (drop m xs)
unfolding load_bytes
load_bytes-append zero zero xs ys l = refl
load_bytes-append (suc n) zero [] ys l = absurd (omega arith)
load_bytes-append (suc n) zero (x ∷ xs) ys l =
    ap (λ v. x + 256 * v) (load_bytes-append n zero xs ys (omega arith))
load_bytes-append n (suc m) [] ys l = absurd (omega arith)
load_bytes-append n (suc m) (x ∷ xs) ys l = load_bytes-append n m xs ys (omega arith)

pub header-append : (xs ys : List ℕ) → header_size ≤ length xs → header (xs ++ ys) ≡ header xs
unfolding header
header-append xs ys l =
    rw
      (
        load_bytes-append 4 0 xs ys (omega arith),
        load_bytes-append 2 4 xs ys (omega arith),
        load_bytes-append 2 6 xs ys (omega arith),
        load_bytes-append 2 8 xs ys (omega arith),
      )
      refl

pub construct-raw_size :
    (h : PacketHeader)
    → header_size ≤ raw_size h.sz
    → (p : TalkPacket) × (construct h ≡ some p)
      × (p.size ≡ raw_size h.sz)
      × (length p.contents ≡ raw_size h.sz)
unfolding construct
construct-raw_size h l =
    let zeros = replicate (raw_size h.sz - header_size) 0 in
    let fits : ltb (raw_size h.sz) header_size ≡ false = ground (arith, l) in
    let total : length (header_bytes h ++ zeros) ≡ raw_size h.sz =
      length-append (header_bytes h) zeros
      ∙ ap₂ ◌+◌ (length-header_bytes h) (length-replicate (raw_size h.sz - header_size) 0)
      ∙ omega (arith, l) in
    let p : TalkPacket = record { size = raw_size h.sz; contents = header_bytes h ++ zeros } in
    rw fits (p, refl, refl, total)
