-- ===== src/Server/Stub/Sent.antt =====
-- The packets that a stub takes, on their way out.
use mathlib.Core.List.{append-nil, append_assoc}
use crs.Base.{
  ℕ, ◌<◌, ◌≡◌, ◌↔◌, refl, sym, ap, ap₂, ◌∙◌, inl, inr, false, List, [], ◌∷◌, ◌++◌, arith, length,
  length-append, length-nil, Bool-cases,
}
use crs.Serial.Stream.{concat}
use crs.NetPeer.{SendResult, send_packet, want2write}
use crs.NetPeer.Transmit.{IsSending}
use crs.Server.Stub.{ClientStub, stub_take, stub_write}
use crs.Server.Stub.Rounds.{
  unsent, Fits, AreFull, sending, sending-IsSending, unsent-nil, unsent-flag, write_queue_lem,
}

-- what the stub has taken and not sent
abbrev pub backlog : ClientStub → List ℕ
backlog s = unsent s.peer ++ concat s.queue

record IsReady (s : ClientStub) : Type 0 where
  sending : IsSending s.peer.out_buf s.peer
  full : AreFull s.queue
  last : s.peer.out_flag ≡ false → s.queue ≡ []

AreFull-append :
    (queue : List (List ℕ)) (packet : List ℕ)
    → AreFull queue
    → 0 < length packet
    → AreFull (queue ++ packet ∷ [])
AreFull-append [] packet f l = (l, tt)
AreFull-append (p ∷ queue) packet f l = (f.0, AreFull-append queue packet f.1 l)

concat-snoc :
    (queue : List (List ℕ)) (packet : List ℕ)
    → concat (queue ++ packet ∷ []) ≡ concat queue ++ packet
unfolding concat
concat-snoc [] packet = append-nil packet
concat-snoc (p ∷ queue) packet =
    ap (◌++◌ p) (concat-snoc queue packet) ∙ sym (append_assoc p (concat queue) packet)

stub_take_lem :
    (packet : List ℕ) (s : ClientStub)
    → IsReady s
    → 0 < length packet
    → IsReady (stub_take packet s) × (backlog (stub_take packet s) ≡ backlog s ++ packet)
unfolding stub_take send_packet concat
stub_take_lem packet s v l = elim (Bool-cases s.peer.out_flag) [
  | inl e ↦
      let t : ClientStub = record s { queue = s.queue ++ packet ∷ [] } in
      let ready : IsReady t = record {
        sending = v.sending;
        full = AreFull-append s.queue packet v.full l;
        last = λ g. absurd cc;
      } in
      let more : backlog t ≡ backlog s ++ packet =
        ap (◌++◌ (unsent s.peer)) (concat-snoc s.queue packet)
        ∙ sym (append_assoc (unsent s.peer) (concat s.queue) packet) in
      let taken : stub_take packet s ≡ t = rw e refl in rw taken (ready, more)
  | inr e ↦
      let empty = v.last e in
      let t : ClientStub = record s { peer = sending packet s.peer } in
      let ready : IsReady t = record {
        sending = sending-IsSending packet s.peer l;
        full = v.full;
        last = λ g. empty;
      } in
      let start : backlog s ≡ [] =
        ap₂ (λ xs q. xs ++ concat q) (unsent-nil s.peer v.sending e) empty in
      let more : backlog t ≡ backlog s ++ packet =
        ap (λ q. packet ++ concat q) empty
        ∙ append-nil packet
        ∙ ap (λ xs. xs ++ packet) (sym start) in
      let taken : stub_take packet s ≡ t = rw e refl in rw taken (ready, more)
]

stub_write_lem :
    (scripts : List (List SendResult)) (s : ClientStub)
    → IsReady s
    → Fits scripts s
    → IsReady (stub_write scripts s).1
      × ((stub_write scripts s).0 ++ backlog (stub_write scripts s).1 ≡ backlog s)
unfolding stub_write
stub_write_lem scripts s v f =
    let (wire, left, peer, done, own, full, rest, last) =
      write_queue_lem scripts s.queue s.peer v.sending v.full f.0 f.1 in
    let t : ClientStub = record s { peer = peer; queue = left } in
    let ready : IsReady t = record { sending = own; full = full; last = last } in
    rw done (ready, rest)

-- calls of `take` and `handle_write`, one after the other: the packets that are taken and the bytes
-- that go out
pub data Calls : ClientStub → List (List ℕ) → List ℕ → ClientStub → Type 0 where
  no_calls : {s : ClientStub} → Calls s [] [] s
  takes :
      {s t : ClientStub} {packets : List (List ℕ)} {wire : List ℕ} (packet : List ℕ)
      → 0 < length packet
      → Calls (stub_take packet s) packets wire t
      → Calls s (packet ∷ packets) wire t
  writes :
      {s t : ClientStub} {packets : List (List ℕ)} {wire : List ℕ}
      (scripts : List (List SendResult))
      → Fits scripts s
      → Calls (stub_write scripts s).1 packets wire t
      → Calls s packets ((stub_write scripts s).0 ++ wire) t

Calls-backlog :
    {s t : ClientStub} {packets : List (List ℕ)} {wire : List ℕ}
    → IsReady s
    → Calls s packets wire t
    → IsReady t × (wire ++ backlog t ≡ backlog s ++ concat packets)
unfolding concat
Calls-backlog {s} v no_calls = (v, sym (append-nil (backlog s)))
Calls-backlog {s} {wire = wire} v (takes {packets = packets} packet l c) =
    let (ready, more) = stub_take_lem packet s v l in
    let (last, whole) = Calls-backlog ready c in
    (
      last,
      whole
          ∙ ap (λ xs. xs ++ concat packets) more
          ∙ append_assoc (backlog s) packet (concat packets),
    )
Calls-backlog {s} {t} {packets} v (writes {wire = wire} scripts f c) =
    let (out, u) = stub_write scripts s in
    let (ready, first) = stub_write_lem scripts s v f in
    let (last, whole) = Calls-backlog ready c in
    let all : (out ++ wire) ++ backlog t ≡ backlog s ++ concat packets =
      append_assoc out wire (backlog t)
      ∙ ap (◌++◌ out) whole
      ∙ sym (append_assoc out (backlog u) (concat packets))
      ∙ ap (λ xs. xs ++ concat packets) first in
    (last, all)

abbrev pub new_stub : ClientStub
new_stub = record {
  peer = record {
    in_packet_queue = [];
    out_buf = [];
    out_next_byte = 0;
    out_virtual_bytes = 0;
    out_bytes_total = 0;
    out_flag = false;
    notified = 0;
  };
  queue = [];
}

-- In any calls of take and handle_write on a new stub, where no packet is empty and the socket takes
-- no more bytes than it is given, the bytes that go out are the first ones of the packets that were
-- taken, each once and in order; a transmission is pending as long as there are others.
pub Calls-new_stub :
    (packets : List (List ℕ)) (wire : List ℕ) (t : ClientStub)
    → Calls new_stub packets wire t
    → (rest : List ℕ) × (wire ++ rest ≡ concat packets)
      × ((want2write t.peer ≡ false) ↔ (rest ≡ []))
unfolding concat want2write
Calls-new_stub packets wire t c =
    let start : IsReady new_stub = record {
      sending = record { buf = refl; total = refl; next = refl; within = omega arith; flag = refl };
      full = tt;
      last = λ e. refl;
    } in
    let (v, whole) = Calls-backlog start c in
    let none_left : t.peer.out_flag ≡ false → backlog t ≡ [] =
      λ e. ap₂ (λ xs q. xs ++ concat q) (unsent-nil t.peer v.sending e) (v.last e) in
    let idle : backlog t ≡ [] → t.peer.out_flag ≡ false = λ e.
      let empty : length (backlog t) ≡ 0 = ap (λ (xs : List ℕ). length xs) e in
      let size = length-append (unsent t.peer) (concat t.queue) in
      unsent-flag t.peer v.sending (length-nil (unsent t.peer) (omega arith)) in
    (backlog t, whole, (none_left, idle))
