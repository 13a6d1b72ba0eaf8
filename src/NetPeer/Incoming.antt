-- ===== src/NetPeer/Incoming.antt =====
-- crs/ude/net_peer.cpp: `handle_read` of class net_peer, which cuts the received bytes into packets.
-- The socket's answers are a script; a `memcpy` or a read out of range is `none`.
use crs.Base.{
  ℕ, zero, suc, ◌+◌, ◌-◌, Bool, true, false, not, ◌&&◌, List, [], ◌∷◌, ◌++◌, Option, none, some,
  leb, ◌==◌, if◌then◌else◌, ◌>>=◌, length, take, drop, overwrite,
}
use crs.Packets.{header_size, header, construct}

-- the receive traces; `_inNextPacketByte` is an index into the contents of `_inPacket`
pub record Receiver : Type 0 where
  pub in_buf : List ℕ
  pub in_virtual_bytes : ℕ
  pub in_packet : List ℕ
  pub in_bytes_rest : ℕ
  pub in_next_packet_byte : ℕ
  pub in_packet_queue : List (List ℕ)
  -- how often the listener was told of new packets, if one is set
  pub called_back : ℕ

-- the state with the variables of a call of `handle_read`
pub record Reading : Type 0 where
  pub peer : Receiver
  pub in_buf_ptr : ℕ
  pub new_packets : ℕ

-- what `recv` gives: -1 as there are no bytes, -1 as a signal came, 0 at the end, or bytes
pub data RecvResult : Type 0 where
  no_bytes : RecvResult
  signal : RecvResult
  closed : RecvResult
  received : List ℕ → RecvResult

pub data ReadResult : Type 0 where
  returned : Bool → ReadResult
  end_of_file : ReadResult

unfoldable pub min : ℕ → ℕ → ℕ
min a b = if leb a b then a else b

-- `memcpy (_inNextPacketByte, _inBufPtr, n)`, and the pointers and counters behind it
unfoldable pub copy_bytes : ℕ → Reading → Option Reading
copy_bytes n r =
    let s = r.peer in
    let bytes = take n (drop r.in_buf_ptr s.in_buf) in
    let copied = record s {
      in_packet = overwrite s.in_next_packet_byte bytes s.in_packet;
      in_virtual_bytes = s.in_virtual_bytes - n;
    } in
    if leb (r.in_buf_ptr + n) (length s.in_buf)
      && leb (s.in_next_packet_byte + n) (length s.in_packet)
    then some (record r { peer = copied; in_buf_ptr = r.in_buf_ptr + n })
    else none

unfoldable pub push_packet : Reading → Reading
push_packet r = record r {
  peer = record (r.peer) { in_packet_queue = r.peer.in_packet_queue ++ r.peer.in_packet ∷ [] };
  new_packets = r.new_packets + 1;
}

-- "fill in incomplete packet"
unfoldable pub fill_packet : Reading → Option Reading
fill_packet r =
    let s = r.peer in
    let n = min s.in_virtual_bytes s.in_bytes_rest in
    let filled = copy_bytes n r >>= λ r'.
    let rest = s.in_bytes_rest - n in
    let done = push_packet (record r' { peer = record (r'.peer) { in_bytes_rest = rest } }) in
    let waiting = record r' {
      peer = record (r'.peer) {
        in_bytes_rest = rest;
        in_next_packet_byte = s.in_next_packet_byte + n;
      };
    } in
    some (if rest == 0 then done else waiting) in
    if s.in_bytes_rest == 0 then some r else filled

-- the body of the loop that takes the packets, and whether the loop goes on
unfoldable pub take_packet : Reading → Option (Bool × Reading)
take_packet r =
    let s = r.peer in
    let taken = construct (header (drop r.in_buf_ptr s.in_buf)) >>= λ p.
    let n = min s.in_virtual_bytes p.size in
    copy_bytes n (record r { peer = record s { in_packet = p.contents; in_next_packet_byte = 0 } })
    >>= λ r'.
        let waiting = record r' {
          peer = record (r'.peer) { in_next_packet_byte = n; in_bytes_rest = p.size - n };
        } in
        some (if n == p.size then (true, push_packet r') else (false, waiting)) in
    if leb (r.in_buf_ptr + header_size) (length s.in_buf) then taken else none

-- "take all the packets from the incoming buffer"
unfoldable pub take_packets : ℕ → Reading → Option Reading
take_packets zero r = if leb header_size r.peer.in_virtual_bytes then none else some r
take_packets (suc fuel) r =
    let more = take_packet r >>= λ (goes_on, r').
    let rest = take_packets fuel r' in if goes_on then rest else some r' in
    if leb header_size r.peer.in_virtual_bytes then more else some r

-- "move unprocessed bytes to the front of the incoming buffer", and "notify about new packets"
unfoldable pub move_front : Reading → Option Reading
move_front r =
    let s = r.peer in
    let moved = record s {
      in_buf = overwrite 0 (take s.in_virtual_bytes (drop r.in_buf_ptr s.in_buf)) s.in_buf;
      called_back = if r.new_packets == 0 then s.called_back else s.called_back + 1;
    } in
    if leb (r.in_buf_ptr + s.in_virtual_bytes) (length s.in_buf)
    then some (record r { peer = moved })
    else none

-- the body of the loop behind a `recv` of these bytes
unfoldable pub take_bytes : List ℕ → Reading → Option Reading
take_bytes bytes r =
    let s = r.peer in
    let got = record s {
      in_buf = overwrite s.in_virtual_bytes bytes s.in_buf;
      in_virtual_bytes = s.in_virtual_bytes + length bytes;
    } in
    let taken = fill_packet (record r { peer = got }) >>= λ r'.
    take_packets r'.peer.in_virtual_bytes r' >>= move_front in
    if leb (s.in_virtual_bytes + length bytes) (length s.in_buf) then taken else none

-- whether the loop goes on behind a `recv` of these bytes
unfoldable pub exhausted : List ℕ → Receiver → Bool
exhausted bytes s = length bytes == length s.in_buf - (s.in_virtual_bytes + length bytes)

-- The loop keeps `_inBufPtr`, which stands behind the bytes that were taken before.
unfoldable pub read_loop : List RecvResult → Reading → Option (ReadResult × Receiver)
read_loop [] r = some (returned (not (r.new_packets == 0)), r.peer)
read_loop (no_bytes ∷ script) r = some (returned (not (r.new_packets == 0)), r.peer)
read_loop (signal ∷ script) r = read_loop script r
read_loop (closed ∷ script) r = some (end_of_file, r.peer)
read_loop (received bytes ∷ script) r = take_bytes bytes r >>= λ r'.
    let again = read_loop script r' in
    if exhausted bytes r.peer then again else some (returned (not (r'.new_packets == 0)), r'.peer)

unfoldable pub handle_read : List RecvResult → Receiver → Option (ReadResult × Receiver)
handle_read script s = read_loop script (record { peer = s; in_buf_ptr = 0; new_packets = 0 })
