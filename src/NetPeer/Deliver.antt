-- ===== src/NetPeer/Deliver.antt =====
-- One read of `handle_read`: the bytes that come go into the packets.
use mathlib.Core.List.{append-nil, append_assoc}
use crs.Base.{
  drop_all, overwrite-append, ℕ, ◌+◌, ◌-◌, ◌≤◌, ◌<◌, ◌≡◌, inl, inr, refl, sym, ap, ap₂, ◌∙◌, true,
  false, not, List, [], ◌∷◌, ◌++◌, some, arith, leb, ◌==◌, length, drop, overwrite,
  length-overwrite, length-append, length-drop,
}
use crs.Serial.Stream.{concat}
use crs.Packets.{PacketHeader, header_size, header, raw_size}
use crs.Packets.Layout.{header-append}
use crs.NetPeer.Incoming.{
  Receiver, Reading, RecvResult, received, returned, fill_packet, take_bytes, exhausted, read_loop,
  handle_read,
}
use crs.NetPeer.Receive.{
  IsFrame, AreFrames, IsStart, IsIdle, IsBusy, IsPending, IsTaken, take_packets_lem,
  take_packets-few, drop_further,
}
use crs.NetPeer.Front.{got, append_split, IsRead, take_move}
use crs.NetPeer.Fill.{fill-part, fill-whole, busy_size, busy_buffer}

module _ (r : Reading) (bytes rest next : List ℕ) (ps : List (List ℕ)) (front : r.in_buf_ptr ≡ 0)
    (room : r.peer.in_virtual_bytes + length bytes ≤ length r.peer.in_buf) (frames : AreFrames ps)
    (start : IsStart next) (cut : rest ++ bytes ≡ concat ps ++ next) where
  abbrev Read : Type 0
  Read = (u : Reading) × (take_bytes bytes r ≡ some u) × IsRead r u ps next

  enough : leb (r.peer.in_virtual_bytes + length bytes) (length r.peer.in_buf) ≡ true
  enough = ground arith

  got_size : length (got bytes r).peer.in_buf ≡ length r.peer.in_buf
  got_size = length-overwrite r.peer.in_virtual_bytes bytes r.peer.in_buf room

  take_bytes-idle : IsIdle 0 r.peer rest → Read
  unfolding take_bytes fill_packet
  take_bytes-idle w =
      let more = drop (length bytes) w.more in
      let buffer : (got bytes r).peer.in_buf ≡ rest ++ (bytes ++ more) =
        ap₂ (λ n xs. overwrite n bytes xs) w.virtual_bytes w.at
        ∙ overwrite-append rest bytes w.more in
      let whole : (got bytes r).peer.in_buf ≡ concat ps ++ (next ++ more) =
        buffer
        ∙ sym (append_assoc rest bytes more)
        ∙ ap (λ xs. xs ++ more) cut
        ∙ append_assoc (concat ps) next more in
      let at : drop r.in_buf_ptr (got bytes r).peer.in_buf ≡ concat ps ++ (next ++ more) =
        ap (λ k. drop k (got bytes r).peer.in_buf) front ∙ whole in
      let cut_size = ap (λ (xs : List ℕ). length xs) cut in
      let left_size = length-append rest bytes in
      let right_size = length-append (concat ps) next in
      let virtual = w.virtual_bytes in
      let size = got_size in
      let none_left = w.none_left in
      let (t, done, taken) =
        take_packets_lem (got bytes r).peer.in_virtual_bytes ps (got bytes r) next more frames start
          at (omega arith) none_left (omega arith) (omega arith) in
      let taken' : IsTaken r t ps next = record {
        pending = taken.pending;
        queue = taken.queue;
        new_packets = taken.new_packets;
        buffer = taken.buffer ∙ size;
        bound = taken.bound;
      } in
      let (u, moved, read) = take_move r (got bytes r) ps next (t, done, taken') in
      let zero_left : r.peer.in_bytes_rest == 0 ≡ true = ground arith in
      rw (enough, zero_left, moved) (u, refl, read)

module _ (r : Reading) (bytes rest : List ℕ) (w : IsBusy r.peer rest) (front : r.in_buf_ptr ≡ 0)
    (room : r.peer.in_virtual_bytes + length bytes ≤ length r.peer.in_buf) where
  busy_enough : leb (r.peer.in_virtual_bytes + length bytes) (length r.peer.in_buf) ≡ true
  busy_enough = ground arith

  -- the bytes do not finish the packet
  busy-part :
      (next : List ℕ)
      → IsStart next
      → rest ++ bytes ≡ next
      → (u : Reading) × (take_bytes bytes r ≡ some u) × IsRead r u [] next
  unfolding take_bytes
  busy-part next start cut =
      let size = ap (λ (xs : List ℕ). length xs) cut in
      let both = length-append rest bytes in
      let head : raw_size (header next).sz ≡ raw_size (header rest).sz =
        ap (λ xs. raw_size (header xs).sz) (sym cut)
        ∙ ap (λ (h : PacketHeader). raw_size h.sz) (header-append rest bytes w.large) in
      let large = w.large in
      let total = w.size in
      let left = w.left in
      let virtual = w.virtual_bytes in
      let l : length bytes < length w.tail = elim start [
        | inl short ↦ absurd (omega arith)
        | inr (_, part) ↦ omega arith
      ] in
      let filled = fill-part r bytes rest w front room l in
      let t : Reading = record (got bytes r) {
        peer = record ((got bytes r).peer) {
          in_packet = rest ++ (bytes ++ drop (length bytes) w.tail);
          in_virtual_bytes = r.peer.in_virtual_bytes + length bytes - length bytes;
          in_bytes_rest = r.peer.in_bytes_rest - length bytes;
          in_next_packet_byte = r.peer.in_next_packet_byte + length bytes;
        };
        in_buf_ptr = r.in_buf_ptr + length bytes;
      } in
      let few : leb header_size t.peer.in_virtual_bytes ≡ false = ground arith in
      let tail_size = length-drop (length bytes) w.tail in
      let at_next = w.next in
      let busy : IsBusy t.peer next = record {
        virtual_bytes = omega arith;
        tail = drop (length bytes) w.tail;
        packet =
            sym (append_assoc rest bytes (drop (length bytes) w.tail))
            ∙ ap (λ xs. xs ++ drop (length bytes) w.tail) cut;
        next = omega arith;
        left = omega arith;
        unfinished = omega arith;
        large = omega arith;
        size = omega arith;
      } in
      let buffer = busy_size r bytes rest w front room in
      let taken : IsTaken r t [] next = record {
        pending = inr busy;
        queue = sym (append-nil r.peer.in_packet_queue);
        new_packets = omega arith;
        buffer = buffer;
        bound = omega arith;
      } in
      let (u, moved, read) =
        take_move r t [] next (t, take_packets-few t.peer.in_virtual_bytes t few, taken) in
      rw (busy_enough, filled, moved) (u, refl, read)

  -- the bytes finish the packet `p`
  busy-whole :
      (p : List ℕ) (ps : List (List ℕ)) (next : List ℕ)
      → IsFrame p
      → AreFrames ps
      → IsStart next
      → rest ++ bytes ≡ p ++ (concat ps ++ next)
      → (u : Reading) × (take_bytes bytes r ≡ some u) × IsRead r u (p ∷ ps) next
  unfolding take_bytes
  busy-whole p ps next f fs start cut =
      let large = w.large in
      let p_large = f.large in
      let head : raw_size (header p).sz ≡ raw_size (header rest).sz =
        ap (λ (h : PacketHeader). raw_size h.sz)
          (sym (header-append p (concat ps ++ next) p_large)
            ∙ ap header (sym cut)
            ∙ header-append rest bytes large) in
      let total = w.size in
      let p_size = f.size in
      let (q, front_q, back) =
        append_split p (concat ps ++ next) rest bytes (sym cut) (omega arith) in
      let q_both : length p ≡ length rest + length q =
        ap (λ (xs : List ℕ). length xs) front_q ∙ length-append rest q in
      let q_size : length q ≡ length w.tail = omega arith in
      let filled = fill-whole r bytes rest w front room q (concat ps ++ next) back q_size in
      let end : q ++ drop (length q) w.tail ≡ q =
        ap (◌++◌ q) (drop_all (length q) w.tail (omega arith)) ∙ append-nil q in
      let made : rest ++ (q ++ drop (length q) w.tail) ≡ p = ap (◌++◌ rest) end ∙ sym front_q in
      let g : Reading = record {
        peer = record ((got bytes r).peer) {
          in_packet = rest ++ (q ++ drop (length q) w.tail);
          in_virtual_bytes = r.peer.in_virtual_bytes + length bytes - length q;
          in_bytes_rest = r.peer.in_bytes_rest - length q;
          in_packet_queue = r.peer.in_packet_queue ++ (rest ++ (q ++ drop (length q) w.tail)) ∷ [];
        };
        in_buf_ptr = r.in_buf_ptr + length q;
        new_packets = r.new_packets + 1;
      } in
      let behind = drop (0 + length bytes) r.peer.in_buf in
      let whole : drop r.in_buf_ptr (got bytes r).peer.in_buf
          ≡ q ++ (concat ps ++ (next ++ behind)) =
        busy_buffer r bytes rest w front room
        ∙ ap (λ xs. xs ++ behind) back
        ∙ append_assoc q (concat ps ++ next) behind
        ∙ ap (◌++◌ q) (append_assoc (concat ps) next behind) in
      let at =
        drop_further r.in_buf_ptr (got bytes r).peer.in_buf q (concat ps ++ (next ++ behind))
          whole in
      let bytes_size : length bytes ≡ length q + (length (concat ps) + length next) =
        ap (λ (xs : List ℕ). length xs) back
        ∙ length-append q (concat ps ++ next)
        ∙ ap (λ n. length q + n) (length-append (concat ps) next) in
      let virtual = w.virtual_bytes in
      let left = w.left in
      let buffer = busy_size r bytes rest w front room in
      let (t, done, taken) =
        take_packets_lem g.peer.in_virtual_bytes ps g next behind fs start at (omega arith)
          (omega arith) (omega arith) (omega arith) in
      let more = taken.new_packets in
      let taken' : IsTaken r t (p ∷ ps) next = record {
        pending = taken.pending;
        queue =
            taken.queue
            ∙ ap (λ x. (r.peer.in_packet_queue ++ x ∷ []) ++ ps) made
            ∙ append_assoc r.peer.in_packet_queue (p ∷ []) ps;
        new_packets = omega arith;
        buffer = taken.buffer ∙ buffer;
        bound = taken.bound;
      } in
      let (u, moved, read) = take_move r g (p ∷ ps) next (t, done, taken') in
      rw (busy_enough, filled, moved) (u, refl, read)

take_bytes_lem :
    (r : Reading) (bytes rest next : List ℕ) (ps : List (List ℕ))
    → r.in_buf_ptr ≡ 0
    → r.peer.in_virtual_bytes + length bytes ≤ length r.peer.in_buf
    → AreFrames ps
    → IsStart next
    → rest ++ bytes ≡ concat ps ++ next
    → IsPending 0 r.peer rest
    → (u : Reading) × (take_bytes bytes r ≡ some u) × IsRead r u ps next
unfolding concat
take_bytes_lem r bytes rest next ps z h f st cut (inl w) =
    take_bytes-idle r bytes rest next ps z h f st cut w
take_bytes_lem r bytes rest next [] z h f st cut (inr w) = busy-part r bytes rest w z h next st cut
take_bytes_lem r bytes rest next (p ∷ ps) z h f st cut (inr w) =
    busy-whole r bytes rest w z h p ps next f.0 f.1 st (cut ∙ append_assoc p (concat ps) next)

-- Where the start of a packet, or nothing, waits, and the bytes received fit into the buffer but do
-- not fill half of the room left, `handle_read` returns whether there are new packets; these are the
-- packets that the waiting and the new bytes make, in order, and the start of the next packet waits.
pub handle_read_lem :
    (s : Receiver) (bytes rest next : List ℕ) (ps : List (List ℕ)) (script : List RecvResult)
    → IsPending 0 s rest
    → s.in_virtual_bytes + length bytes ≤ length s.in_buf
    → exhausted bytes s ≡ false
    → AreFrames ps
    → IsStart next
    → rest ++ bytes ≡ concat ps ++ next
    → (t : Receiver) × (handle_read (received bytes ∷ script) s
        ≡ some (returned (not (length ps == 0)), t))
      × (t.in_packet_queue ≡ s.in_packet_queue ++ ps)
      × IsPending 0 t next
      × (length t.in_buf ≡ length s.in_buf)
unfolding handle_read read_loop
handle_read_lem s bytes rest next ps script w room half f st cut =
    let r : Reading = record { peer = s; in_buf_ptr = 0; new_packets = 0 } in
    let (u, done, read) = take_bytes_lem r bytes rest next ps refl room f st cut w in
    let new : u.new_packets ≡ length ps = read.new_packets ∙ omega arith in
    rw (done, half, new) (u.peer, refl, read.queue, read.pending, read.buffer)
