-- ===== src/Server/Stub.antt =====
-- crs/ude/server.cpp: class client_stub, a net peer that is a device of the manager. It queues the
-- packets that are not sent at once, and posts those that it receives. A packet in the queues is the
-- list of its bytes.
pub mod Posted
pub mod Rounds
pub mod Sent
mod Tests
use crs.Base.{
  ℕ, zero, suc, ◌+◌, ◌*◌, ◌/◌, Bool, true, false, List, [], ◌∷◌, ◌++◌, Option, none, some,
  if◌then◌else◌, ◌>>=◌, length, drop,
}
use crs.Packets.{header_size, header, load_bytes}
use crs.NetPeer.{NetPeer, SendResult, handle_write, send_packet}
use crs.NetPeer.Incoming.{Receiver, RecvResult, ReadResult, returned, end_of_file}
use crs.NetPeer.Incoming as Incoming
use crs.Server.{TalkPacket, Manager, Taken, register_request}

-- the traces of transmission, and `_queue`
pub record ClientStub : Type 0 where
  pub peer : NetPeer
  pub queue : List (List ℕ)

-- the words of the contents, and the packet as the manager sees it
unfoldable pub words_of : ℕ → List ℕ → List ℕ
words_of zero bytes = []
words_of (suc n) bytes = load_bytes 2 bytes ∷ words_of n (drop 2 bytes)

unfoldable pub talk_packet : List ℕ → TalkPacket
talk_packet bytes =
    let h = header bytes in
    record {
      id = h.id;
      domain = h.domain;
      recepient = h.recepient;
      words = words_of (h.sz / 2) (drop header_size bytes);
    }

module _ {D : Type 0} (pool_controlled : ℕ → Bool) (take : D → ℕ → TalkPacket → Taken D) where
  -- the loop of `handle_read`: `recv_packet` and `postPacket` until the queue is empty
  unfoldable pub post_received : List (List ℕ) → Manager D → Option (Manager D)
  post_received [] m = some m
  post_received (packet ∷ queue) m =
      register_request pool_controlled take (talk_packet packet) m >>= λ m'. post_received queue m'

  -- `handle_read`
  unfoldable pub stub_read :
      List RecvResult → Receiver → Manager D → Option (ReadResult × Receiver × Manager D)
  stub_read script s m = Incoming.handle_read script s >>= λ (result, t).
      let emptied = record t { in_packet_queue = [] } in
      let posted : Option (ReadResult × Receiver × Manager D) =
        post_received t.in_packet_queue m >>= λ m'. some (returned true, emptied, m') in
      elim result [
        | returned new ↦ if new then posted else some (returned false, t, m)
        | end_of_file ↦ some (end_of_file, t, m)
      ]

-- `take`, which returns 2 always, as one step
unfoldable pub stub_take : List ℕ → ClientStub → ClientStub
stub_take packet s =
    let (accepted, peer) = send_packet packet s.peer in
    if accepted then record s { peer = peer } else record s { queue = s.queue ++ packet ∷ [] }

unfoldable pub next_script : List (List SendResult) → List SendResult
next_script [] = []
next_script (script ∷ scripts) = script

-- The loop of `handle_write` over the queue. Each round has a script of what the socket answers; what
-- went out, what stays in the queue, and the peer.
unfoldable pub write_queue :
    List (List SendResult) → List (List ℕ) → NetPeer → List ℕ × List (List ℕ) × NetPeer
write_queue scripts [] s = let (wire, t) = handle_write (next_script scripts) s in (wire, [], t)
write_queue scripts (packet ∷ queue) s =
    let (wire, t) = handle_write (next_script scripts) s in
    let (accepted, u) = send_packet packet t in
    let (more, left, v) = write_queue (drop 1 scripts) queue u in
    if t.out_flag
    then (wire, packet ∷ queue, t)
    else if accepted
    then (wire ++ more, left, v)
    else (wire, packet ∷ queue, u)

-- `handle_write`, without its result, which the code does not give
unfoldable pub stub_write : List (List SendResult) → ClientStub → List ℕ × ClientStub
stub_write scripts s =
    let (wire, left, peer) = write_queue scripts s.queue s.peer in
    (wire, record s { peer = peer; queue = left })
