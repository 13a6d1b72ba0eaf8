-- ===== src/Serial/Transaction.antt =====
-- `comSection`: a request, the stream that comes while it waits, and its reply.
use mathlib.Core.List.{append_assoc, append-nil}
use crs.Base.{
  ℕ, ◌+◌, ◌/◌, ◌%◌, ◌<◌, ◌≡◌, ◌↔◌, ◌⊎◌, refl, sym, ap, ap₂, ◌∙◌, true, false, List, [], ◌∷◌, ◌++◌,
  arith, length, length-append,
}
use crs.Serial.Bytes.{
  Packet, byte_at, swap_nibbles, trace_packet, check_identity, com_check_packet, accepted,
}
use crs.Serial.Stream.{IsCut}
use crs.Serial.Receive.{route, route_all, route_all-append, process_incoming_bytes-cut}
use crs.Serial.{
  Port, received, timed_out, is_com_section_packet, push_inbox, send, com_section,
  process_incoming_bytes,
}

-- none of the packets answers the request `out`
abbrev pub AreAsync : Packet → List Packet → Type 0
AreAsync out [] = Unit
AreAsync out (p ∷ ps) = (trace_packet out p ≡ false) × AreAsync out ps

-- `ps` went to the inbox, with a call of `incomingData` for each
abbrev pub inboxed : List Packet → Port → Port
inboxed ps s = record s { inbox = s.inbox ++ ps; data_calls = s.data_calls + length ps }

route-async :
    (p : Packet) (s : Port) → trace_packet s.outgoing_packet p ≡ false → route p s ≡ push_inbox p s
unfolding route is_com_section_packet
route-async p s h = ground arith

route-idle : (p : Packet) (s : Port) → s.wait_com_section ≡ false → route p s ≡ push_inbox p s
unfolding route is_com_section_packet
route-idle p s h = ground arith

inboxed-cons :
    (p : Packet) (ps : List Packet) (s : Port) → inboxed ps (push_inbox p s) ≡ inboxed (p ∷ ps) s
unfolding push_inbox
inboxed-cons p ps s =
    ap₂ (λ i c. record s { inbox = i; data_calls = c }) (append_assoc s.inbox (p ∷ []) ps)
      (omega arith)

inboxed-nil : (s : Port) → s ≡ inboxed [] s
inboxed-nil s =
    ap₂ (λ i c. record s { inbox = i; data_calls = c }) (sym (append-nil s.inbox)) (omega arith)

route_all-async :
    (ps : List Packet) (s : Port) → AreAsync s.outgoing_packet ps → route_all ps s ≡ inboxed ps s
unfolding route_all push_inbox
route_all-async [] s h = inboxed-nil s
route_all-async (p ∷ ps) s h =
    ap (route_all ps) (route-async p s h.0)
    ∙ route_all-async ps (push_inbox p s) h.1
    ∙ inboxed-cons p ps s

route_all-idle :
    (ps : List Packet) (s : Port) → s.wait_com_section ≡ false → route_all ps s ≡ inboxed ps s
unfolding route_all push_inbox
route_all-idle [] s h = inboxed-nil s
route_all-idle (p ∷ ps) s h =
    ap (route_all ps) (route-idle p s h)
    ∙ route_all-idle ps (push_inbox p s) h
    ∙ inboxed-cons p ps s

route-reply :
    (p : Packet) (s : Port)
    → s.wait_com_section ≡ true
    → trace_packet s.outgoing_packet p ≡ true
    → route p s ≡ record s { wait_com_section = false; incoming_packet = p }
unfolding route is_com_section_packet
route-reply p s h k = ground arith

-- the port once the request `out` was written, `r` has answered it, and `ps` were queued
abbrev pub answered : Packet → Port → Packet → List Packet → List ℕ → Port
answered out s r ps rest = record (inboxed ps s) {
  incoming_packet = r;
  outgoing_packet = out;
  wait_com_section = false;
  written = s.written ++ out;
  in_buf = rest;
}

module _ (n : ℕ) (pos : 0 < n) (out : Packet) (bytes : List ℕ) (s : Port)
    (quiet : s.wait_sync_packet ≡ false) where
  during-reply :
      (pre post : List Packet) (r : Packet) (rest : List ℕ)
      → IsCut n (s.in_buf ++ bytes) (pre ++ r ∷ post) rest
      → AreAsync out pre
      → trace_packet out r ≡ true
      → process_incoming_bytes n bytes (send out s) ≡ answered out s r (pre ++ post) rest
  unfolding send route_all
  during-reply pre post r rest cut async reply =
      process_incoming_bytes-cut n pos bytes (send out s) (pre ++ r ∷ post) rest quiet cut
      ∙ ap (λ (t : Port). record t { in_buf = rest })
          (route_all-append pre (r ∷ post) (send out s)
            ∙ ap (route_all (r ∷ post)) (route_all-async pre (send out s) async)
            ∙ ap (route_all post) (route-reply r (inboxed pre (send out s)) refl reply)
            ∙ route_all-idle post _ refl
            ∙ ap₂
                (λ i c. record (answered out s r (pre ++ post) (send out s).in_buf) {
                  inbox = i;
                  data_calls = c;
                })
                (append_assoc s.inbox pre post) (omega (arith, length-append pre post)))

  -- While no synchronization is awaited, and the bytes that come during the call make packets of
  -- which one answers the request and none before it does, comSection returns that packet with
  -- the outcome of its check; all other packets are queued in the inbox, in order.
  pub com_section-reply :
      (pre post : List Packet) (r : Packet) (rest : List ℕ)
      → IsCut n (s.in_buf ++ bytes) (pre ++ r ∷ post) rest
      → AreAsync out pre
      → trace_packet out r ≡ true
      → com_section n out (process_incoming_bytes n bytes) s
        ≡ (received r (com_check_packet n out r), answered out s r (pre ++ post) rest)
  unfolding com_section
  com_section-reply pre post r rest cut async reply =
      rw (during-reply pre post r rest cut async reply)

  -- While no synchronization is awaited, and none of the packets that come during the call
  -- answers the request, comSection times out; the request goes on waiting, and the packets are
  -- queued in the inbox.
  pub com_section-time_out :
      (ps : List Packet) (rest : List ℕ)
      → IsCut n (s.in_buf ++ bytes) ps rest
      → AreAsync out ps
      → com_section n out (process_incoming_bytes n bytes) s
        ≡ (timed_out, record (inboxed ps (send out s)) { in_buf = rest })
  unfolding com_section send
  com_section-time_out ps rest cut async =
      let e =
        process_incoming_bytes-cut n pos bytes (send out s) ps rest quiet cut
        ∙ ap (λ (t : Port). record t { in_buf = rest }) (route_all-async ps (send out s) async) in
      rw e

-- The replies that `comCheckPacket` lets pass have a good check sum, and the code of the request or
-- one that is none of the four it knows.
pub com_check_packet-accepted :
    (n : ℕ) (out p : Packet)
    → (com_check_packet n out p ≡ accepted) ↔ (
        (check_identity n p ≡ true)
        × ((byte_at p 1 ≡ byte_at out 1) ⊎ ((byte_at p 1 < 0xf0) ⊎ (0xf3 < byte_at p 1))))
unfolding com_check_packet
com_check_packet-accepted n out p = (λ h. ground arith, λ h. ground arith)

-- A packet answers a request exactly if the nibbles of its first byte are those of the request's
-- first byte in the other order, and its code is the request's or above 0xAC.
pub trace_packet_iff :
    (out p : Packet)
    → byte_at out 0 < 256
    → byte_at p 0 < 256
    → (trace_packet out p ≡ true) ↔ (
        (byte_at out 0 / 16 ≡ byte_at p 0 % 16)
        × (byte_at out 0 % 16 ≡ byte_at p 0 / 16)
        × ((byte_at p 1 ≡ byte_at out 1) ⊎ (0xac < byte_at p 1)))
unfolding trace_packet swap_nibbles
trace_packet_iff out p h k = (λ e. ground arith, λ e. ground arith)
