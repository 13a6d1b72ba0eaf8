-- ===== src/Serial/Tests.antt =====
-- A port that uses packets of four bytes: runs, and the theorems at one request.
use crs.Base.{
  ℕ, ◌/◌, ◌%◌, ◌<◌, ◌≡◌, ◌↔◌, ◌⊎◌, refl, true, false, List, [], ◌∷◌, ◌++◌, arith, length, take, set,
}
use crs.Serial.Bytes.{
  Packet, byte_at, subtract_bytes, build_crc, check_identity, swap_nibbles, trace_packet,
  com_check_packet, accepted,
}
use crs.Serial.Crc.{byte_sum, check_identity_iff, build_crc_lem, check_identity-detects}
use crs.Serial.Stream.{concat, IsCut}
use crs.Serial.Receive.{route_all, process_incoming_bytes-IsCut, process_incoming_bytes-append}
use crs.Serial.Transaction.{
  inboxed, answered, com_section-reply, com_section-time_out, com_check_packet-accepted,
  trace_packet_iff,
}
use crs.Serial.{Port, received, timed_out, send, com_section, process_incoming_bytes}

abbrev request : Packet
request = 0x12 ∷ 5 ∷ 7 ∷ 0xe2 ∷ []

abbrev answer : Packet
answer = 0x21 ∷ 5 ∷ 9 ∷ 0xd1 ∷ []

abbrev event : Packet
event = 0x30 ∷ 1 ∷ 2 ∷ 0xcd ∷ []

-- one byte of a packet waits in the buffer
abbrev port : Port
port = record {
  inbox = [];
  incoming_packet = [];
  outgoing_packet = [];
  wait_com_section = false;
  wait_sync_packet = false;
  written = [];
  data_calls = 0;
  in_buf = 0x30 ∷ [];
}

abbrev stream : List ℕ
stream = 1 ∷ 2 ∷ 0xcd ∷ 0x21 ∷ 5 ∷ 9 ∷ 0xd1 ∷ 0x30 ∷ 1 ∷ []

build_request : build_crc 4 (0x12 ∷ 5 ∷ 7 ∷ 0 ∷ []) ≡ request
unfolding build_crc subtract_bytes
build_request = refl

check_identity_iff_run : (check_identity 4 request ≡ true) ↔ (byte_sum request % 256 ≡ 0)
check_identity_iff_run = check_identity_iff 4 request refl (omega arith) (omega arith)

build_crc_lem_run :
    (check_identity 4 (build_crc 4 event) ≡ true)
    × (length (build_crc 4 event) ≡ 4)
    × (take 3 (build_crc 4 event) ≡ take 3 event)
build_crc_lem_run = build_crc_lem 4 event refl (omega arith)

check_identity-detects_run : check_identity 4 (set request 2 8) ≡ false
unfolding check_identity subtract_bytes
check_identity-detects_run =
    check_identity-detects 4 request 2 8 refl (omega arith) (omega arith) (omega arith)
      (omega arith) refl

stream-IsCut : IsCut 4 (port.in_buf ++ stream) (event ∷ answer ∷ []) (0x30 ∷ 1 ∷ [])
unfolding concat
stream-IsCut = record { whole = refl; sizes = (refl, (refl, tt)); short = omega arith }

process_incoming_bytes-IsCut_example :
    (ps : List Packet) × (rest : List ℕ) × IsCut 4 (port.in_buf ++ stream) ps rest
    × (process_incoming_bytes 4 stream port ≡ record (route_all ps port) { in_buf = rest })
process_incoming_bytes-IsCut_example = process_incoming_bytes-IsCut 4 (omega arith) stream port refl

process_incoming_bytes-append_example :
    process_incoming_bytes 4 (stream ++ answer) port
    ≡ process_incoming_bytes 4 answer (process_incoming_bytes 4 stream port)
process_incoming_bytes-append_example =
    process_incoming_bytes-append 4 (omega arith) stream answer port refl

answer-traced : (trace_packet request answer ≡ true) × (trace_packet request event ≡ false)
unfolding trace_packet swap_nibbles
answer-traced = (refl, refl)

com_section-reply_example : com_section 4 request (process_incoming_bytes 4 stream) port ≡ (
  received answer (com_check_packet 4 request answer),
  answered request port answer (event ∷ []) (0x30 ∷ 1 ∷ []),
)
com_section-reply_example =
    com_section-reply 4 (omega arith) request stream port refl (event ∷ []) [] answer
      (0x30 ∷ 1 ∷ []) stream-IsCut (answer-traced.1, tt) answer-traced.0

com_section-time_out_example :
    com_section 4 request (process_incoming_bytes 4 (1 ∷ 2 ∷ 0xcd ∷ [])) port
    ≡ (timed_out, record (inboxed (event ∷ []) (send request port)) { in_buf = [] })
unfolding concat
com_section-time_out_example =
    com_section-time_out 4 (omega arith) request (1 ∷ 2 ∷ 0xcd ∷ []) port refl (event ∷ []) []
      (record { whole = refl; sizes = (refl, tt); short = omega arith }) (answer-traced.1, tt)

com_check_packet-accepted_run : (com_check_packet 4 request answer ≡ accepted) ↔ (
    (check_identity 4 answer ≡ true)
    × ((byte_at answer 1 ≡ byte_at request 1)
        ⊎ ((byte_at answer 1 < 0xf0) ⊎ (0xf3 < byte_at answer 1))))
com_check_packet-accepted_run = com_check_packet-accepted 4 request answer

trace_packet_iff_run : (trace_packet request answer ≡ true) ↔ (
    (byte_at request 0 / 16 ≡ byte_at answer 0 % 16)
    × (byte_at request 0 % 16 ≡ byte_at answer 0 / 16)
    × ((byte_at answer 1 ≡ byte_at request 1) ⊎ (0xac < byte_at answer 1)))
trace_packet_iff_run = trace_packet_iff request answer (omega arith) (omega arith)
