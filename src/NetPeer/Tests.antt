-- ===== src/NetPeer/Tests.antt =====
-- A packet of three bytes that goes out in two calls, and packets that come in.
use crs.Base.{
  ℕ, ◌+◌, ◌≤◌, ◌≡◌, ◌↔◌, refl, true, false, inl, List, [], ◌∷◌, ◌++◌, Option, none, some, arith,
  length, take, drop, replicate,
}
use crs.Serial.Stream.{concat}
use crs.Packets.{header, load_bytes, raw_size, construct, header_bytes, store_bytes}
use crs.NetPeer.Incoming.{
  Receiver, received, closed, ReadResult, returned, min, copy_bytes, push_packet, fill_packet,
  take_packet, take_packets, move_front, take_bytes, exhausted, read_loop, handle_read,
}
use crs.NetPeer.Receive.{IsFrame, AreFrames, IsPending}
use crs.NetPeer.Deliver.{handle_read_lem}
use crs.NetPeer.Stream.{reads, new_receiver, new_receiver-IsIdle, reads-new_receiver}
use crs.NetPeer.{
  NetPeer, would_block, interrupted, took, taken_bytes, advance, handle_write, send_packet,
}
use crs.NetPeer.Transmit.{Writes, none_left, call, Writes-send_packet}

abbrev packet : List ℕ
packet = 7 ∷ 8 ∷ 9 ∷ []

abbrev peer : NetPeer
peer = record {
  in_packet_queue = [];
  out_buf = [];
  out_next_byte = 0;
  out_virtual_bytes = 0;
  out_bytes_total = 0;
  out_flag = false;
  notified = 0;
}

abbrev sending : NetPeer
sending = record peer { out_buf = packet; out_bytes_total = 3; out_flag = true }

abbrev all_sent : NetPeer
all_sent = record peer {
  out_buf = packet;
  out_bytes_total = 3;
  out_next_byte = 3;
  out_virtual_bytes = 3;
  notified = 1;
}

writes : Writes sending packet all_sent
unfolding handle_write taken_bytes advance
writes =
    call (took 1 ∷ would_block ∷ []) (omega arith, tt)
      (call (interrupted ∷ took 2 ∷ []) (omega arith, tt) none_left)

started : Writes (send_packet packet peer).1 packet all_sent
unfolding send_packet
started = writes

Writes-send_packet_run :
    (packet ≡ take all_sent.out_virtual_bytes packet)
    × ((all_sent.out_flag ≡ false) ↔ (packet ≡ packet))
Writes-send_packet_run = Writes-send_packet packet peer all_sent packet refl (omega arith) started

-- three packets without contents, in two reads
abbrev empty_packet : ℕ → List ℕ
empty_packet id = 0 ∷ 0 ∷ 0 ∷ 0 ∷ id ∷ 0 ∷ 1 ∷ 0 ∷ 2 ∷ 0 ∷ []

empty_packet-IsFrame : (id : ℕ) → IsFrame (empty_packet id)
unfolding header load_bytes raw_size
empty_packet-IsFrame id = record { large = omega arith; size = refl }

abbrev packets : List (List ℕ)
packets = empty_packet 3 ∷ empty_packet 4 ∷ empty_packet 5 ∷ []

abbrev chunks : List (List ℕ)
chunks = (empty_packet 3 ++ (0 ∷ 0 ∷ 0 ∷ [])) ∷ drop 3 (empty_packet 4 ++ empty_packet 5) ∷ []

same_bytes : concat chunks ≡ concat packets
unfolding concat
same_bytes = refl

frames : AreFrames packets
frames = (empty_packet-IsFrame 3, (empty_packet-IsFrame 4, (empty_packet-IsFrame 5, tt)))

reads-new_receiver_example :
    (t : Receiver) × (reads chunks (new_receiver 64) ≡ some t) × (t.in_packet_queue ≡ packets)
reads-new_receiver_example =
    reads-new_receiver 64 chunks packets frames (omega arith, (omega arith, tt)) same_bytes

-- the first read leaves three bytes of the second packet
new-IsPending : IsPending 0 (new_receiver 64) []
new-IsPending = inl (new_receiver-IsIdle 64)

fits : (new_receiver 64).in_virtual_bytes + 13 ≤ length (new_receiver 64).in_buf
unfolding new_receiver
fits = omega arith

not_half : exhausted (empty_packet 3 ++ (0 ∷ 0 ∷ 0 ∷ [])) (new_receiver 64) ≡ false
unfolding exhausted new_receiver
not_half = refl

first_bytes :
    [] ++ (empty_packet 3 ++ (0 ∷ 0 ∷ 0 ∷ [])) ≡ concat (empty_packet 3 ∷ []) ++ (0 ∷ 0 ∷ 0 ∷ [])
unfolding concat
first_bytes = refl

handle_read_lem_example :
    (t : Receiver) × (handle_read
        (received (empty_packet 3 ++ (0 ∷ 0 ∷ 0 ∷ [])) ∷ closed ∷ [])
        (new_receiver 64)
      ≡ some (returned true, t))
    × (t.in_packet_queue ≡ (new_receiver 64).in_packet_queue ++ empty_packet 3 ∷ [])
    × IsPending 0 t (0 ∷ 0 ∷ 0 ∷ [])
    × (length t.in_buf ≡ length (new_receiver 64).in_buf)
handle_read_lem_example =
    handle_read_lem (new_receiver 64) (empty_packet 3 ++ (0 ∷ 0 ∷ 0 ∷ [])) [] (0 ∷ 0 ∷ 0 ∷ [])
      (empty_packet 3 ∷ []) (closed ∷ []) new-IsPending fits not_half (empty_packet-IsFrame 3, tt)
      (inl (omega arith)) first_bytes

-- Twenty bytes fill half of a buffer of forty: the loop goes on with the pointer behind them, and what
-- comes next is not the packet that was received.
abbrev queue_of : Option (ReadResult × Receiver) → List (List ℕ)
queue_of x = elim x [ none ↦ [] | some (result, t) ↦ t.in_packet_queue ]

half_filled :
    queue_of (
      handle_read
        (received (empty_packet 3 ++ empty_packet 4) ∷ received (empty_packet 5) ∷ [])
        (new_receiver 40))
    ≡ empty_packet 3 ∷ empty_packet 4 ∷ replicate 10 0 ∷ []
unfolding handle_read read_loop take_bytes fill_packet take_packets take_packet copy_bytes
    push_packet move_front exhausted min new_receiver header load_bytes raw_size construct
    header_bytes store_bytes
half_filled = refl
