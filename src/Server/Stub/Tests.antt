-- ===== src/Server/Stub/Tests.antt =====
-- A stub that takes two packets, and one that receives two.
use crs.Base.{ℕ, ◌≡◌, ◌↔◌, refl, Bool, true, false, List, [], ◌∷◌, ◌++◌, some, arith}
use crs.Serial.Stream.{concat}
use crs.Packets.{header, load_bytes}
use crs.NetPeer.{
  SendResult, would_block, took, taken_bytes, advance, handle_write, send_packet, want2write,
}
use crs.Server.{TalkPacket, Manager, Taken, register_request, post, id_check_bits}
use crs.Server.Stub.{
  ClientStub, talk_packet, words_of, post_received, stub_take, next_script, write_queue, stub_write,
}
use crs.Server.Stub.Sent.{Calls, no_calls, takes, writes, new_stub, Calls-new_stub}

-- the first packet goes out in two calls, the second one with its rest
abbrev scripts : List (List SendResult)
scripts = (took 1 ∷ would_block ∷ []) ∷ []

abbrev more_scripts : List (List SendResult)
more_scripts = (took 1 ∷ []) ∷ (took 3 ∷ []) ∷ []

abbrev two_packets : List (List ℕ)
two_packets = (1 ∷ 2 ∷ []) ∷ (3 ∷ 4 ∷ 5 ∷ []) ∷ []

abbrev sent_all : ClientStub
sent_all = record {
  peer = record {
    in_packet_queue = [];
    out_buf = 3 ∷ 4 ∷ 5 ∷ [];
    out_next_byte = 3;
    out_virtual_bytes = 3;
    out_bytes_total = 3;
    out_flag = false;
    notified = 2;
  };
  queue = [];
}

two_packets-Calls : Calls new_stub two_packets (1 ∷ 2 ∷ 3 ∷ 4 ∷ 5 ∷ []) sent_all
unfolding stub_take send_packet stub_write write_queue next_script handle_write advance taken_bytes
two_packets-Calls = takes (1 ∷ 2 ∷ []) (omega arith) (
    takes (3 ∷ 4 ∷ 5 ∷ []) (omega arith) (
      writes scripts ((omega arith, tt), (tt, tt))
        (writes more_scripts ((omega arith, tt), ((omega arith, tt), tt)) no_calls)))

Calls-new_stub_example :
    (rest : List ℕ) × (1 ∷ 2 ∷ 3 ∷ 4 ∷ 5 ∷ [] ++ rest ≡ concat two_packets)
    × ((want2write sent_all.peer ≡ false) ↔ (rest ≡ []))
Calls-new_stub_example =
    Calls-new_stub two_packets (1 ∷ 2 ∷ 3 ∷ 4 ∷ 5 ∷ []) sent_all two_packets-Calls

-- Where the last byte of a packet goes out while `take` stands between its two steps, the next packet
-- waits in the queue although nothing is pending, and one that is taken later overtakes it.
abbrev stranded : ClientStub
stranded = record sent_all { queue = (6 ∷ []) ∷ [] }

not_pending : want2write stranded.peer ≡ false
unfolding want2write
not_pending = refl

overtaking : stub_write ((took 1 ∷ []) ∷ (took 1 ∷ []) ∷ []) (stub_take (7 ∷ []) stranded) ≡ (
  7 ∷ 6 ∷ [],
  record stranded {
    queue = [];
    peer = record (stranded.peer) {
      out_buf = 6 ∷ [];
      out_next_byte = 1;
      out_virtual_bytes = 1;
      out_bytes_total = 1;
      notified = 4;
    };
  },
)
unfolding stub_take send_packet stub_write write_queue next_script handle_write advance taken_bytes
overtaking = refl

abbrev on_heap : ℕ → Bool
on_heap d = true

abbrev take_none : ℕ → ℕ → TalkPacket → Taken ℕ
take_none u d packet = record { result = 0; posted = []; devices = u }

abbrev manager : Manager ℕ
manager = record {
  container = [];
  outbox = [];
  request_thread_flag = false;
  devices = 0;
  destroyed = [];
}

-- a packet without contents, for the domain `d`
abbrev for_domain : ℕ → List ℕ
for_domain d = 0 ∷ 0 ∷ 0 ∷ 0 ∷ 1 ∷ 0 ∷ d ∷ 0 ∷ 2 ∷ 0 ∷ []

abbrev chunks : List (List ℕ)
chunks = (for_domain 5 ++ (0 ∷ 0 ∷ [])) ∷ (0 ∷ 0 ∷ 1 ∷ 0 ∷ 6 ∷ 0 ∷ 2 ∷ 0 ∷ []) ∷ []

-- the requests stand in the outbox
posted :
    post_received on_heap take_none (for_domain 5 ∷ for_domain 6 ∷ []) manager
    ≡ some (record manager {
      outbox =
          (record { id = 1; domain = 5; recepient = 2; words = [] })
          ∷ (record { id = 1; domain = 6; recepient = 2; words = [] })
          ∷ [];
    })
unfolding post_received talk_packet words_of header load_bytes register_request post id_check_bits
posted = refl
