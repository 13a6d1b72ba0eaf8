-- ===== src/Server/Stub/Rounds.antt =====
-- One call of `handle_write`: what goes out in its rounds, and what is left.
use mathlib.Core.List.{append_assoc, append_cancel_left}
use crs.Base.{
  ℕ, ◌-◌, ◌<◌, ◌≡◌, refl, sym, ap, ap₂, ◌∙◌, inl, inr, true, false, List, [], ◌∷◌, ◌++◌, arith,
  length, take, drop, take-append-drop, length-drop, length-nil, Bool-cases,
}
use crs.Serial.Stream.{concat}
use crs.NetPeer.{NetPeer, SendResult, handle_write, send_packet}
use crs.NetPeer.Transmit.{IsFitting, IsSending, handle_write-IsSending}
use crs.Server.Stub.{ClientStub, next_script, write_queue}

-- the bytes of the packet on its way that are not out yet
abbrev pub unsent : NetPeer → List ℕ
unsent s = drop s.out_virtual_bytes s.out_buf

-- The socket takes no more bytes than it is given, in the rounds behind the first one.
abbrev pub FitsQueue : List (List SendResult) → List (List ℕ) → Type 0
FitsQueue scripts [] = Unit
FitsQueue scripts (packet ∷ queue) =
    IsFitting (next_script scripts) (length packet) × FitsQueue (drop 1 scripts) queue

-- the same in all rounds
abbrev pub Fits : List (List SendResult) → ClientStub → Type 0
Fits scripts s =
    IsFitting (next_script scripts) (s.peer.out_bytes_total - s.peer.out_virtual_bytes)
    × FitsQueue (drop 1 scripts) s.queue

abbrev pub AreFull : List (List ℕ) → Type 0
AreFull [] = Unit
AreFull (packet ∷ queue) = (0 < length packet) × AreFull queue

handle_write-unsent :
    (script : List SendResult) (s : NetPeer)
    → IsSending s.out_buf s
    → IsFitting script (s.out_bytes_total - s.out_virtual_bytes)
    → (wire : List ℕ) × (t : NetPeer) × (handle_write script s ≡ (wire, t))
      × IsSending t.out_buf t
      × (wire ++ unsent t ≡ unsent s)
handle_write-unsent script s v h =
    let t = (handle_write script s).1 in
    let wire = (handle_write script s).0 in
    let (u, out) = handle_write-IsSending s.out_buf script s v (rw v.total at h) in
    let own : IsSending t.out_buf t = rw u.buf u in
    let rest : unsent t ≡ drop t.out_virtual_bytes s.out_buf =
      ap (λ xs. drop t.out_virtual_bytes xs) u.buf in
    let whole : take s.out_virtual_bytes s.out_buf ++ (wire ++ unsent t)
        ≡ take s.out_virtual_bytes s.out_buf ++ unsent s =
      sym (append_assoc (take s.out_virtual_bytes s.out_buf) wire (unsent t))
      ∙ ap₂ (λ (xs ys : List ℕ). xs ++ ys) out rest
      ∙ take-append-drop t.out_virtual_bytes s.out_buf
      ∙ sym (take-append-drop s.out_virtual_bytes s.out_buf) in
    (
      wire,
      t,
      refl,
      own,
      append_cancel_left (take s.out_virtual_bytes s.out_buf) (wire ++ unsent t) (unsent s) whole,
    )

abbrev pub sending : List ℕ → NetPeer → NetPeer
sending packet s = record s {
  out_buf = packet;
  out_next_byte = 0;
  out_virtual_bytes = 0;
  out_bytes_total = length packet;
  out_flag = true;
}

pub sending-IsSending :
    (packet : List ℕ) (s : NetPeer) → 0 < length packet → IsSending packet (sending packet s)
sending-IsSending packet s l = record {
  buf = refl;
  total = refl;
  next = refl;
  within = omega arith;
  flag = ground arith;
}

pub unsent-nil : (s : NetPeer) → IsSending s.out_buf s → s.out_flag ≡ false → unsent s ≡ []
unsent-nil s v e =
    let within = v.within in
    let all : s.out_virtual_bytes ≡ length s.out_buf = ground (arith, v.flag) in
    let size = length-drop s.out_virtual_bytes s.out_buf in length-nil (unsent s) (omega arith)

pub unsent-flag : (s : NetPeer) → IsSending s.out_buf s → unsent s ≡ [] → s.out_flag ≡ false
unsent-flag s v e =
    let within = v.within in
    let size = length-drop s.out_virtual_bytes s.out_buf in
    let none_left : length (unsent s) ≡ 0 = ap (λ (xs : List ℕ). length xs) e in
    let all : s.out_virtual_bytes ≡ length s.out_buf = omega arith in v.flag ∙ ground arith

pub write_queue_lem :
    (scripts : List (List SendResult)) (queue : List (List ℕ)) (s : NetPeer)
    → IsSending s.out_buf s
    → AreFull queue
    → IsFitting (next_script scripts) (s.out_bytes_total - s.out_virtual_bytes)
    → FitsQueue (drop 1 scripts) queue
    → (wire : List ℕ) × (left : List (List ℕ)) × (t : NetPeer) × (write_queue scripts queue s
        ≡ (wire, left, t))
      × IsSending t.out_buf t
      × AreFull left
      × (wire ++ (unsent t ++ concat left) ≡ unsent s ++ concat queue)
      × (t.out_flag ≡ false → left ≡ [])
unfolding write_queue concat send_packet
write_queue_lem scripts [] s v f h q =
    let (wire, t, done, own, out) = handle_write-unsent (next_script scripts) s v h in
    let whole : wire ++ (unsent t ++ []) ≡ unsent s ++ [] =
      sym (append_assoc wire (unsent t) []) ∙ ap (λ xs. xs ++ []) out in
    rw done (wire, [], t, refl, own, tt, whole, λ e. refl)
write_queue_lem scripts (packet ∷ queue) s v f h q =
    let (wire, t, done, own, out) = handle_write-unsent (next_script scripts) s v h in
    let whole : wire ++ (unsent t ++ concat (packet ∷ queue))
        ≡ unsent s ++ concat (packet ∷ queue) =
      sym (append_assoc wire (unsent t) (concat (packet ∷ queue)))
      ∙ ap (λ xs. xs ++ concat (packet ∷ queue)) out in
    elim (Bool-cases t.out_flag) [
      | inl e ↦ rw (done, e) (wire, packet ∷ queue, t, refl, own, f, whole, λ g. absurd cc)
      | inr e ↦
          let u = sending packet t in
          let whole_packet : length packet - 0 ≡ length packet = omega arith in
          let (more, left, w, next, own', f', rest, last) =
            write_queue_lem (drop 1 scripts) queue u (sending-IsSending packet t f.0) f.1
              (rw whole_packet q.0) q.1 in
          let all : (wire ++ more) ++ (unsent w ++ concat left)
              ≡ unsent s ++ (packet ++ concat queue) =
            append_assoc wire more (unsent w ++ concat left)
            ∙ ap (◌++◌ wire) rest
            ∙ ap (λ xs. wire ++ (xs ++ (packet ++ concat queue))) (sym (unsent-nil t own e))
            ∙ whole in
          rw (done, e, next) (wire ++ more, left, w, refl, own', f', all, last)
    ]
