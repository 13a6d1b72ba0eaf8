-- ===== src/Serial/Receive.antt =====
-- `compileResponse` and `processIncomingBytes` while no synchronization is awaited: which packets
-- are taken from the stream, and where they go.
use mathlib.Core.List.{append_assoc}
use crs.Base.{
  drop_all, ℕ, zero, suc, ◌+◌, ◌≤◌, ◌<◌, ◌≡◌, refl, sym, ap, ap₂, ◌∙◌, false, List, [], ◌∷◌, ◌++◌,
  arith, length, take, drop, length-append, length-drop, drop-append, leb, if◌then◌else◌,
  Bool-cases, inl, inr, length-take,
}
use crs.Serial.Bytes.{Packet}
use crs.Serial.Stream.{concat, IsCut, IsCut-unique, IsCut-append, IsCut-cons}
use crs.Serial.{
  Port, is_com_section_packet, is_sync_packet, push_inbox, compile_loop, compile_response,
  process_incoming_bytes, keep_rest,
}

-- where a complete packet goes: to the request that waits for it, or to the inbox
unfoldable pub route : Packet → Port → Port
route p s = let (replied, s') = is_com_section_packet p s in if replied then s' else push_inbox p s'

unfoldable pub route_all : List Packet → Port → Port
route_all [] s = s
route_all (p ∷ ps) s = route_all ps (route p s)

pub route_all-append :
    (ps qs : List Packet) (s : Port) → route_all (ps ++ qs) s ≡ route_all qs (route_all ps s)
unfolding route_all
route_all-append [] qs s = refl
route_all-append (p ∷ ps) qs s = route_all-append ps qs (route p s)

wait_sync_packet-route : (p : Packet) (s : Port) → (route p s).wait_sync_packet ≡ s.wait_sync_packet
unfolding route is_com_section_packet push_inbox
wait_sync_packet-route p s = ground arith

route-in_buf :
    (p : Packet) (s : Port) (b : List ℕ)
    → route p (record s { in_buf = b }) ≡ record (route p s) { in_buf = b }
unfolding route is_com_section_packet push_inbox
route-in_buf p s b = ground arith

route_all-in_buf :
    (ps : List Packet) (s : Port) (b : List ℕ)
    → route_all ps (record s { in_buf = b }) ≡ record (route_all ps s) { in_buf = b }
unfolding route_all
route_all-in_buf [] s b = refl
route_all-in_buf (p ∷ ps) s b =
    ap (route_all ps) (route-in_buf p s b) ∙ route_all-in_buf ps (route p s) b

wait_sync_packet-route_all :
    (ps : List Packet) (s : Port) → (route_all ps s).wait_sync_packet ≡ s.wait_sync_packet
unfolding route_all
wait_sync_packet-route_all [] s = refl
wait_sync_packet-route_all (p ∷ ps) s =
    wait_sync_packet-route_all ps (route p s) ∙ wait_sync_packet-route p s

is_sync_packet-quiet :
    (n : ℕ) (p : Packet) (s : Port) → s.wait_sync_packet ≡ false → is_sync_packet n p s ≡ (false, s)
unfolding is_sync_packet
is_sync_packet-quiet n p s quiet = rw quiet

abbrev with_buf : Port → List ℕ → Port
with_buf s b = record s { in_buf = b }

keep_rest-eq :
    (available : List ℕ) (processed : ℕ) (s : Port)
    → keep_rest available processed s ≡ record s { in_buf = drop processed available }
unfolding keep_rest
keep_rest-eq available zero s = refl
keep_rest-eq available (suc k) s = ground (arith, drop_all (suc k) available)

-- What one call of the loop does: it takes the packets `ps` and leaves the bytes `rest`.
record Taken (n : ℕ) (bytes : List ℕ) (processed : ℕ) (s : Port) (r : ℕ × Port) : Type 0 where
  packets : List Packet
  rest : List ℕ
  cut : IsCut n bytes packets rest
  count : r.0 ≡ processed + length (concat packets)
  state : r.1 ≡ route_all packets s

module _ (n : ℕ) (pos : 0 < n) where
  compile_loop-Taken :
      (k available processed : ℕ) (bytes : List ℕ) (s : Port)
      → length bytes ≤ k
      → s.wait_sync_packet ≡ false
      → Taken n bytes processed s (compile_loop n k available processed bytes s)
  unfolding compile_loop route_all concat route
  compile_loop-Taken zero available processed bytes s f quiet = record {
    packets = [];
    rest = bytes;
    cut = record { whole = refl; sizes = tt; short = omega arith };
    count = omega arith;
    state = refl;
  }
  compile_loop-Taken (suc k) available processed bytes s f quiet =
      elim (Bool-cases (leb n (length bytes))) [
        | inl more ↦
            let fits : n ≤ length bytes = ground arith in
            let next =
              compile_loop-Taken k available (processed + n) (drop n bytes) (route (take n bytes) s)
                (omega (arith, length-drop n bytes))
                (wait_sync_packet-route (take n bytes) s ∙ quiet) in
            rw (more, is_sync_packet-quiet n (take n bytes) s quiet)
              (record {
                packets = take n bytes ∷ next.packets;
                rest = next.rest;
                cut = IsCut-cons n bytes next.packets next.rest fits next.cut;
                count = omega (
                  arith,
                  next.count,
                  length-append (take n bytes) (concat next.packets),
                  length-take n bytes fits,
                );
                state = next.state;
              })
        | inr less ↦ rw less (record {
          packets = [];
          rest = bytes;
          cut = record { whole = refl; sizes = tt; short = ground arith };
          count = omega arith;
          state = refl;
        })
      ]

  rest-drop :
      (bytes : List ℕ) (ps : List Packet) (rest : List ℕ)
      → IsCut n bytes ps rest
      → drop (length (concat ps)) bytes ≡ rest
  rest-drop bytes ps rest c = rw (← c.whole, drop-append)

  -- While no synchronization is awaited, reading bytes hands on the complete packets of what
  -- waited in the buffer and the new bytes, in order; less than a packet stays in the buffer.
  pub process_incoming_bytes-IsCut :
      (bytes : List ℕ) (s : Port)
      → s.wait_sync_packet ≡ false
      → (ps : List Packet) × (rest : List ℕ) × IsCut n (s.in_buf ++ bytes) ps rest
        × (process_incoming_bytes n bytes s ≡ record (route_all ps s) { in_buf = rest })
  unfolding process_incoming_bytes compile_response
  process_incoming_bytes-IsCut bytes s quiet =
      let all = s.in_buf ++ bytes in
      let t = compile_loop-Taken (length all) (length all) 0 all s (omega arith) quiet in
      let left =
        ap (λ k. drop k all) (omega (arith, t.count)) ∙ rest-drop all t.packets t.rest t.cut in
      (t.packets, t.rest, t.cut, keep_rest-eq all _ _ ∙ ap₂ with_buf t.state left)

  -- While no synchronization is awaited, the state of the port after a stream of bytes does not
  -- depend on how the stream is divided into two reads.
  pub process_incoming_bytes-append :
      (bytes more : List ℕ) (s : Port)
      → s.wait_sync_packet ≡ false
      → process_incoming_bytes n (bytes ++ more) s
        ≡ process_incoming_bytes n more (process_incoming_bytes n bytes s)
  process_incoming_bytes-append bytes more s quiet =
      let (ps, rest, first, e) = process_incoming_bytes-IsCut bytes s quiet in
      let mid : Port = record (route_all ps s) { in_buf = rest } in
      let (qs, end, second, f) =
        process_incoming_bytes-IsCut more mid (wait_sync_packet-route_all ps s ∙ quiet) in
      let (rs, last, both, g) = process_incoming_bytes-IsCut (bytes ++ more) s quiet in
      let joined = IsCut-append n (s.in_buf ++ bytes) more ps qs rest end first second in
      let (same, ends) =
        IsCut-unique n _ rs (ps ++ qs) last end (rw (← append_assoc) at both) joined in
      let in_order = ap (λ r. route_all r s) same ∙ route_all-append ps qs s in
      let later = ap (λ r. with_buf r end) (route_all-in_buf qs (route_all ps s) rest) in
      g ∙ ap₂ with_buf in_order ends ∙ sym (f ∙ later) ∙ ap (process_incoming_bytes n more) (sym e)

  -- the packets of a known cut are the ones that are taken
  pub process_incoming_bytes-cut :
      (bytes : List ℕ) (s : Port) (ps : List Packet) (rest : List ℕ)
      → s.wait_sync_packet ≡ false
      → IsCut n (s.in_buf ++ bytes) ps rest
      → process_incoming_bytes n bytes s ≡ record (route_all ps s) { in_buf = rest }
  process_incoming_bytes-cut bytes s ps rest quiet c =
      let (qs, end, d, e) = process_incoming_bytes-IsCut bytes s quiet in
      let (same, ends) = IsCut-unique n _ qs ps end rest d c in
      e ∙ ap₂ with_buf (ap (λ r. route_all r s) same) ends
