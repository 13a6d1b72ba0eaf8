-- ===== src/NetPeer/Fill.antt =====
-- `fill_packet`: the bytes that go into a packet whose start was received before.
use mathlib.Core.List.{append-nil, append_assoc}
use crs.Base.{
  overwrite-append, ℕ, ◌+◌, ◌-◌, ◌≤◌, ◌<◌, ◌≡◌, refl, sym, ap, ap₂, ◌∙◌, true, false, List, [], ◌∷◌,
  ◌++◌, some, arith, ◌==◌, length, drop, overwrite, length-overwrite, length-append,
}
use crs.NetPeer.Incoming.{Reading, min, copy_bytes, push_packet, fill_packet}
use crs.NetPeer.Receive.{IsBusy, copy_bytes_lem, min-left, min-right}
use crs.NetPeer.Front.{got}

module _ (r : Reading) (bytes rest : List ℕ) (w : IsBusy r.peer rest) (front : r.in_buf_ptr ≡ 0)
    (room : r.peer.in_virtual_bytes + length bytes ≤ length r.peer.in_buf) where
  pub busy_buffer :
      drop r.in_buf_ptr (got bytes r).peer.in_buf ≡ bytes ++ drop (0 + length bytes) r.peer.in_buf
  busy_buffer =
      ap (λ k. drop k (got bytes r).peer.in_buf) front
      ∙ ap (λ n. overwrite n bytes r.peer.in_buf) w.virtual_bytes

  pub busy_size : length (got bytes r).peer.in_buf ≡ length r.peer.in_buf
  busy_size = length-overwrite r.peer.in_virtual_bytes bytes r.peer.in_buf room

  packet_size : length r.peer.in_packet ≡ length rest + length w.tail
  packet_size = ap (λ (xs : List ℕ). length xs) w.packet ∙ length-append rest w.tail

  -- the start `q` of the bytes goes into the packet
  copy_start :
      (q more : List ℕ)
      → bytes ≡ q ++ more
      → length q ≤ length w.tail
      → copy_bytes (length q) (got bytes r)
        ≡ some (record (got bytes r) {
          peer = record ((got bytes r).peer) {
            in_packet = rest ++ (q ++ drop (length q) w.tail);
            in_virtual_bytes = r.peer.in_virtual_bytes + length bytes - length q;
          };
          in_buf_ptr = r.in_buf_ptr + length q;
        })
  copy_start q more e l =
      let size = busy_size in
      let packet = packet_size in
      let next = w.next in
      let whole : length bytes ≡ length q + length more =
        ap (λ (xs : List ℕ). length xs) e ∙ length-append q more in
      let behind = drop (0 + length bytes) r.peer.in_buf in
      let at : drop r.in_buf_ptr (got bytes r).peer.in_buf ≡ q ++ (more ++ behind) =
        busy_buffer ∙ ap (λ xs. xs ++ behind) e ∙ append_assoc q more behind in
      let copied = copy_bytes_lem (got bytes r) q (more ++ behind) at (omega arith) (omega arith) in
      let over : overwrite r.peer.in_next_packet_byte q r.peer.in_packet
          ≡ rest ++ (q ++ drop (length q) w.tail) =
        ap₂ (λ n xs. overwrite n q xs) w.next w.packet ∙ overwrite-append rest q w.tail in
      rw over at copied

  pub fill-part :
      length bytes < length w.tail
      → fill_packet (got bytes r)
        ≡ some (record (got bytes r) {
          peer = record ((got bytes r).peer) {
            in_packet = rest ++ (bytes ++ drop (length bytes) w.tail);
            in_virtual_bytes = r.peer.in_virtual_bytes + length bytes - length bytes;
            in_bytes_rest = r.peer.in_bytes_rest - length bytes;
            in_next_packet_byte = r.peer.in_next_packet_byte + length bytes;
          };
          in_buf_ptr = r.in_buf_ptr + length bytes;
        })
  unfolding fill_packet
  fill-part l =
      let left = w.left in
      let virtual = w.virtual_bytes in
      let waits : r.peer.in_bytes_rest == 0 ≡ false = ground arith in
      let n : min (r.peer.in_virtual_bytes + length bytes) r.peer.in_bytes_rest ≡ length bytes =
        min-left (r.peer.in_virtual_bytes + length bytes) r.peer.in_bytes_rest (omega arith)
        ∙ omega arith in
      let copied = copy_start bytes [] (sym (append-nil bytes)) (omega arith) in
      let open_still : r.peer.in_bytes_rest - length bytes == 0 ≡ false = ground arith in
      rw (waits, n, copied, open_still) refl

  pub fill-whole :
      (q more : List ℕ)
      → bytes ≡ q ++ more
      → length q ≡ length w.tail
      → fill_packet (got bytes r)
        ≡ some (record {
          peer = record ((got bytes r).peer) {
            in_packet = rest ++ (q ++ drop (length q) w.tail);
            in_virtual_bytes = r.peer.in_virtual_bytes + length bytes - length q;
            in_bytes_rest = r.peer.in_bytes_rest - length q;
            in_packet_queue =
                r.peer.in_packet_queue ++ (rest ++ (q ++ drop (length q) w.tail)) ∷ [];
          };
          in_buf_ptr = r.in_buf_ptr + length q;
          new_packets = r.new_packets + 1;
        })
  unfolding fill_packet push_packet
  fill-whole q more e l =
      let left = w.left in
      let virtual = w.virtual_bytes in
      let unfinished = w.unfinished in
      let whole : length bytes ≡ length q + length more =
        ap (λ (xs : List ℕ). length xs) e ∙ length-append q more in
      let waits : r.peer.in_bytes_rest == 0 ≡ false = ground arith in
      let n : min (r.peer.in_virtual_bytes + length bytes) r.peer.in_bytes_rest ≡ length q =
        min-right (r.peer.in_virtual_bytes + length bytes) r.peer.in_bytes_rest (omega arith)
        ∙ omega arith in
      let copied = copy_start q more e (omega arith) in
      let closed : r.peer.in_bytes_rest - length q == 0 ≡ true = ground arith in
      rw (waits, n, copied, closed) refl
