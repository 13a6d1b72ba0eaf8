-- ===== src/Serial/Crc.antt =====
-- The check sum of a packet: what `buildCRC` writes, and what `checkIdentity` accepts.
use crs.Base.{
  ℕ, zero, suc, ◌+◌, ◌-◌, ◌%◌, ◌<◌, ◌≡◌, ◌≢◌, ◌↔◌, refl, ap, inl, inr, Bool-cases, true, false,
  List, [], ◌∷◌, arith, length, take, set, length-set, get_or-set,
}
use crs.Serial.Bytes.{Packet, byte_at, subtract_bytes, build_crc, check_identity}

-- the bytes are `unsigned char`s
abbrev pub IsBytes : List ℕ → Type 0
IsBytes [] = Unit
IsBytes (b ∷ bs) = (b < 256) × IsBytes bs

pub byte_sum : List ℕ → ℕ
byte_sum [] = 0
byte_sum (b ∷ bs) = b + byte_sum bs

subtract_bytes-lt : (crc : ℕ) (bs : List ℕ) → crc < 256 → subtract_bytes crc bs < 256
unfolding subtract_bytes
subtract_bytes-lt crc [] h = h
subtract_bytes-lt crc (b ∷ bs) h = subtract_bytes-lt ((crc + 256 - b) % 256) bs (omega arith)

-- what is subtracted and what is left make up the start
subtract_bytes-sum :
    (crc : ℕ) (bs : List ℕ)
    → crc < 256
    → IsBytes bs
    → (subtract_bytes crc bs + byte_sum bs) % 256 ≡ crc
unfolding subtract_bytes byte_sum
subtract_bytes-sum crc [] h v = omega arith
subtract_bytes-sum crc (b ∷ bs) h v =
    omega (arith, subtract_bytes-sum ((crc + 256 - b) % 256) bs (omega arith) v.1)

byte_sum-split :
    (n : ℕ) (p : Packet) → length p ≡ suc n → byte_sum p ≡ byte_sum (take n p) + byte_at p n
unfolding byte_sum
byte_sum-split n [] e = absurd (omega arith)
byte_sum-split zero (b ∷ []) e = omega arith
byte_sum-split zero (b ∷ c ∷ p) e = absurd (omega arith)
byte_sum-split (suc n) (b ∷ p) e = omega (arith, byte_sum-split n p (omega arith))

IsBytes-take : (n : ℕ) (p : List ℕ) → IsBytes p → IsBytes (take n p)
IsBytes-take zero p v = tt
IsBytes-take (suc n) [] v = tt
IsBytes-take (suc n) (b ∷ p) v = (v.0, IsBytes-take n p v.1)

IsBytes-at : (n : ℕ) (p : List ℕ) → IsBytes p → byte_at p n < 256
IsBytes-at n [] v = omega arith
IsBytes-at zero (b ∷ p) v = v.0
IsBytes-at (suc n) (b ∷ p) v = IsBytes-at n p v.1

-- checkIdentity accepts exactly the packets of bytes that add up to 0 modulo 256, for packets of
-- at least one byte.
pub check_identity_iff :
    (n : ℕ) (p : Packet)
    → length p ≡ n
    → 0 < n
    → IsBytes p
    → (check_identity n p ≡ true) ↔ (byte_sum p % 256 ≡ 0)
unfolding check_identity
check_identity_iff n p size pos v =
    let total = subtract_bytes-sum 0 (take (n - 1) p) (omega arith) (IsBytes-take (n - 1) p v) in
    let small = subtract_bytes-lt 0 (take (n - 1) p) (omega arith) in
    let split = byte_sum-split (n - 1) p (omega arith) in
    let last = IsBytes-at (n - 1) p v in (λ h. ground arith, λ h. ground arith)

take-set : (n : ℕ) (p : List ℕ) (v : ℕ) → take n (set p n v) ≡ take n p
take-set zero p v = refl
take-set (suc n) [] v = refl
take-set (suc n) (b ∷ p) v = ap (◌∷◌ b) (take-set n p v)

-- For packets of at least one byte, buildCRC changes the last byte alone, and checkIdentity
-- accepts what it makes.
pub build_crc_lem :
    (n : ℕ) (p : Packet)
    → length p ≡ n
    → 0 < n
    → (check_identity n (build_crc n p) ≡ true)
      × (length (build_crc n p) ≡ n)
      × (take (n - 1) (build_crc n p) ≡ take (n - 1) p)
unfolding check_identity build_crc
build_crc_lem n p size pos =
    let crc = subtract_bytes 0 (take (n - 1) p) in
    (
      rw take-set (ground (arith, get_or-set p (n - 1) (n - 1) crc 0)),
      omega (arith, length-set p (n - 1) crc),
      take-set (n - 1) p crc,
    )

byte_sum-set :
    (p : Packet) (i b : ℕ) → i < length p → byte_sum (set p i b) + byte_at p i ≡ byte_sum p + b
unfolding byte_sum
byte_sum-set [] i b h = absurd (omega arith)
byte_sum-set (c ∷ p) zero b h = omega arith
byte_sum-set (c ∷ p) (suc i) b h = omega (arith, byte_sum-set p i b (omega arith))

IsBytes-set : (p : Packet) (i b : ℕ) → b < 256 → IsBytes p → IsBytes (set p i b)
IsBytes-set [] i b h v = tt
IsBytes-set (c ∷ p) zero b h v = (h, v.1)
IsBytes-set (c ∷ p) (suc i) b h v = (v.0, IsBytes-set p i b h v.1)

-- checkIdentity refuses a packet that differs in exactly one byte from one that it accepts.
pub check_identity-detects :
    (n : ℕ) (p : Packet) (i b : ℕ)
    → length p ≡ n
    → IsBytes p
    → i < n
    → b < 256
    → b ≢ byte_at p i
    → check_identity n p ≡ true
    → check_identity n (set p i b) ≡ false
check_identity-detects n p i b size v hi hb ne ok =
    let before = (check_identity_iff n p size (omega arith) v).0 ok in
    let changed = byte_sum-set p i b (omega arith) in
    let old = IsBytes-at i p v in
    elim (Bool-cases (check_identity n (set p i b))) [
      | inl e ↦
          let after =
            (check_identity_iff n (set p i b) (omega (arith, length-set p i b)) (omega arith)
                (IsBytes-set p i b hb v)).0
              e in
          absurd (omega arith)
      | inr e ↦ e
    ]
