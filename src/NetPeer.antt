-- ===== src/NetPeer.antt =====
-- crs/ude/net_peer.cpp: the transmission of packets by class net_peer, and the queue of the received
-- ones. A packet is the list of its bytes; the socket's answers are a script.
pub mod Transmit
pub mod Incoming
pub mod Receive
pub mod Front
pub mod Fill
pub mod Deliver
pub mod Stream
mod Tests
use crs.Base.{
  ℕ, zero, suc, ◌+◌, ◌-◌, Bool, true, false, List, [], ◌∷◌, ◌++◌, Option, none, some, ◌==◌,
  if◌then◌else◌, length, take, drop,
}

pub record NetPeer : Type 0 where
  pub in_packet_queue : List (List ℕ)
  pub out_buf : List ℕ
  -- the index of the byte that `_outNextByte` points to
  pub out_next_byte : ℕ
  pub out_virtual_bytes : ℕ
  pub out_bytes_total : ℕ
  pub out_flag : Bool
  -- how often `_outNotify` was notified
  pub notified : ℕ

-- The argument `packet` is assigned only if there is one.
pub recv_packet : NetPeer → Option (List ℕ) × NetPeer
recv_packet s = elim s.in_packet_queue [
  | [] ↦ (none, s)
  | packet ∷ queue ↦ (some packet, record s { in_packet_queue = queue })
]

unfoldable pub want2write : NetPeer → Bool
want2write s = s.out_flag

unfoldable pub send_packet : List ℕ → NetPeer → Bool × NetPeer
send_packet packet s = if s.out_flag then (false, s) else (
  true,
  record s {
    out_buf = packet;
    out_next_byte = 0;
    out_virtual_bytes = 0;
    out_bytes_total = length packet;
    out_flag = true;
  },
)

-- what a call of the socket's `send` gives: -1 as the output buffer is full, -1 as a signal came, or
-- how many bytes were taken
pub data SendResult : Type 0 where
  would_block : SendResult
  interrupted : SendResult
  took : ℕ → SendResult

-- the bytes from `_outNextByte` on, as many as `send` took
unfoldable pub taken_bytes : ℕ → NetPeer → List ℕ
taken_bytes n s = take n (drop s.out_next_byte s.out_buf)

-- The body of the loop after `send` took `n` bytes.
unfoldable pub advance : ℕ → NetPeer → NetPeer
advance n s =
    let s' = record s {
      out_virtual_bytes = s.out_virtual_bytes + n;
      out_next_byte = s.out_next_byte + n;
    } in
    if s'.out_virtual_bytes == s'.out_bytes_total
    then record s' { out_flag = false; notified = s'.notified + 1 }
    else s'

-- The loop of `handle_write` along the answers of the socket, which takes no more bytes when they
-- are used up: the bytes that went out, and the state afterwards. `_outFlag` is the result.
unfoldable pub handle_write : List SendResult → NetPeer → List ℕ × NetPeer
handle_write [] s = ([], s)
handle_write (would_block ∷ script) s = ([], s)
handle_write (interrupted ∷ script) s =
    let again = handle_write script s in if s.out_flag then again else ([], s)
handle_write (took n ∷ script) s =
    let (wire, s') = handle_write script (advance n s) in
    if s.out_flag then (taken_bytes n s ++ wire, s') else ([], s)
