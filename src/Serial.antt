-- ===== src/Serial.antt =====
-- crs/sc/serialbyte.h: template class serialByte <packetType>, with the buffer of
-- crs/sc/basic.rs232port.cpp. `sizeof (packetType)` is `n`; a packet is its `n` bytes.
-- The locks make each function one step; `incomingData` counts its calls, `write` appends to what
-- was sent.
pub mod Bytes
pub mod Crc
pub mod Stream
pub mod Receive
pub mod Transaction
mod Tests
use crs.Base.{
  ℕ, zero, suc, ◌+◌, ◌-◌, ◌*◌, ◌/◌, Bool, true, false, not, ◌&&◌, List, [], ◌∷◌, ◌++◌, Option, none,
  some, ltb, leb, ◌==◌, if◌then◌else◌, length, take, drop,
}
use crs.Serial.Bytes.{Packet, sync_packet, trace_packet, Outcome, com_check_packet}

pub record Port : Type 0 where
  pub inbox : List Packet
  pub incoming_packet : Packet
  pub outgoing_packet : Packet
  pub wait_com_section : Bool
  pub wait_sync_packet : Bool
  pub written : List ℕ
  pub data_calls : ℕ
  -- `_inBuf` up to `_inBufPtr`
  pub in_buf : List ℕ

pub pop : Port → Port
pop s = elim s.inbox [ [] ↦ s | p ∷ inbox ↦ record s { inbox = inbox } ]

-- The argument `packet` is assigned only if there is one.
pub peek_packet : Port → Option Packet
peek_packet s = elim s.inbox [ [] ↦ none | p ∷ inbox ↦ some p ]

pub send : Packet → Port → Port
send out s = record s { written = s.written ++ out; outgoing_packet = out; wait_com_section = true }

pub is_com_section_packet : Packet → Port → Bool × Port
is_com_section_packet p s =
    if s.wait_com_section && trace_packet s.outgoing_packet p
    then (true, record s { wait_com_section = false; incoming_packet = p })
    else (false, s)

pub push_inbox : Packet → Port → Port
push_inbox p s = record s { inbox = s.inbox ++ p ∷ []; data_calls = s.data_calls + 1 }

-- The end of `processIncomingBytes`: the bytes not processed move to the front of the buffer.
pub keep_rest : List ℕ → ℕ → Port → Port
keep_rest available processed s =
    if processed == 0
    then record s { in_buf = available }
    else if length available - processed == 0
    then record s { in_buf = [] }
    else record s { in_buf = drop processed available }

module _ (n : ℕ) where
  pub is_sync_packet : Packet → Port → Bool × Port
  is_sync_packet p s =
      if s.wait_sync_packet && sync_packet n p
      then (true, record s { wait_sync_packet = false })
      else (false, s)

  -- The `while` of `compileResponse` over the bytes not yet processed, with the count of the
  -- processed ones. `available` is returned where a synchronization packet ends it.
  pub compile_loop : ℕ → ℕ → ℕ → List ℕ → Port → ℕ × Port
  compile_loop zero available processed rest s = (processed, s)
  compile_loop (suc k) available processed rest s =
      let packet = take n rest in
      let go = λ (s' : Port). compile_loop k available (processed + n) (drop n rest) s' in
      let body : ℕ × Port =
        let (synced, s') = is_sync_packet packet s in
        let (replied, s'') = is_com_section_packet packet s' in
        if synced then (available, s') else go (if replied then s'' else push_inbox packet s'') in
      if leb n (length rest) then body else (processed, s)

  pub compile_response : List ℕ → Port → ℕ × Port
  compile_response buf s = compile_loop (length buf) (length buf) 0 buf s

  -- `processIncomingBytes` after `bytes` were read behind the ones that wait in the buffer.
  pub process_incoming_bytes : List ℕ → Port → Port
  process_incoming_bytes bytes s =
      let available = s.in_buf ++ bytes in
      let (processed, s') = compile_response available s in keep_rest available processed s'

-- What `comSection` gives: a time-out, or the packet received and how its check ended.
pub data Reply : Type 0 where
  timed_out : Reply
  received : Packet → Outcome → Reply

-- `during` is what the other threads do while this one waits; the wait ends with the value of its
-- predicate `!_waitComSection`.
pub com_section : ℕ → Packet → (Port → Port) → Port → Reply × Port
com_section n out during s =
    let s' = during (send out s) in
    if not s'.wait_com_section
    then (received s'.incoming_packet (com_check_packet n out s'.incoming_packet), s')
    else (timed_out, s')

-- `resetWaitComSection`
pub reset_wait_com_section : Port → Port
reset_wait_com_section s = record s { wait_com_section = false }

-- The loop of `synchronize` with `rounds` left; `during` is what other threads do in each wait.
pub synchronize_loop : ℕ → (Port → Port) → Port → Bool × Port
synchronize_loop zero during s = (false, s)
synchronize_loop (suc rounds) during s =
    let s' = during (record s { written = s.written ++ b'U' ∷ [] }) in
    let rest = synchronize_loop rounds during s' in
    if not s'.wait_sync_packet then (true, s') else rest

pub synchronize : (Port → Port) → Port → Bool × Port
synchronize during s =
    synchronize_loop 15 during (record (reset_wait_com_section s) { wait_sync_packet = true })

-- The time each of the 15 waits may take.
pub bit_time_out : ℕ → ℕ
bit_time_out ms_time_out = if ltb (ms_time_out / 15) 10 then 10 else ms_time_out / 15
