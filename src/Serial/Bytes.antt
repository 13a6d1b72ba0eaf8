-- ===== src/Serial/Bytes.antt =====
-- crs/sc/serialbyte.h: `comPacket`, `tracePacket` and `comCheckPacket`, on the bytes of a packet.
-- An array of `n` bytes is a list of length `n`; the index of a byte is below `n`.
use crs.Base.{
  ℕ, ◌+◌, ◌-◌, ◌*◌, ◌/◌, ◌%◌, Bool, true, false, ◌&&◌, not, List, [], ◌∷◌, ltb, ◌==◌, if◌then◌else◌,
  take, set, get_or, replicate,
}

abbrev pub Packet : Type 0
Packet = List ℕ

-- `byteArray[ i ]`
abbrev pub byte_at : Packet → ℕ → ℕ
byte_at p i = get_or p i 0

-- The loops of `buildCRC` and `checkIdentity`: an `unsigned char` from which bytes are subtracted.
unfoldable pub subtract_bytes : ℕ → List ℕ → ℕ
subtract_bytes crc [] = crc
subtract_bytes crc (b ∷ bs) = subtract_bytes ((crc + 256 - b) % 256) bs

unfoldable pub build_crc : ℕ → Packet → Packet
build_crc n p = set p (n - 1) (subtract_bytes 0 (take (n - 1) p))

unfoldable pub check_identity : ℕ → Packet → Bool
check_identity n p = subtract_bytes 0 (take (n - 1) p) == byte_at p (n - 1)

-- all of the first bytes are 'U'
all_sync : List ℕ → Bool
all_sync [] = true
all_sync (b ∷ bs) = b == b'U' && all_sync bs

unfoldable pub sync_packet : ℕ → Packet → Bool
unfolding all_sync
sync_packet n p = all_sync (take n p)

unfoldable pub set_zero : ℕ → Packet
set_zero n = replicate n 0

-- `(b << 4) | (b >> 4)` as an `unsigned char`: the two shifts have no bit in common.
unfoldable pub swap_nibbles : ℕ → ℕ
swap_nibbles b = (b * 16 + b / 16) % 256

unfoldable pub trace_packet : Packet → Packet → Bool
trace_packet outgoing p =
    if not (byte_at outgoing 0 == swap_nibbles (byte_at p 0))
    then false
    else if not (byte_at p 1 == byte_at outgoing 1)
    then ltb 0xac (byte_at p 1)
    else true

-- How `comCheckPacket` ends: it returns, or it throws one of four exceptions.
pub data Outcome : Type 0 where
  accepted crc_error bad_address bad_command controller_overflow : Outcome

unfoldable pub com_check_packet : ℕ → Packet → Packet → Outcome
unfolding check_identity
com_check_packet n out p =
    let code = byte_at p 1 in
    if check_identity n p
    then if not (code == byte_at out 1)
      then if code == 0xf0
        then crc_error
        else if code == 0xf1
        then bad_address
        else if code == 0xf2
        then bad_command
        else if code == 0xf3
        then controller_overflow
        else accepted
      else accepted
    else crc_error
