-- ===== src/NetPeer/Receive.antt =====
-- `handle_read`: the packets of what was received.
use mathlib.Core.List.{append-nil, append_assoc}
use crs.Base.{
  drop_all, ℕ, zero, suc, ◌+◌, ◌-◌, ◌≤◌, ◌<◌, ◌≡◌, ◌⊎◌, inl, inr, refl, sym, ap, ◌∙◌, true, false,
  List, [], ◌∷◌, ◌++◌, some, arith, leb, ◌==◌, length, drop, overwrite, length-append, length-drop,
  take-append, drop-append, ==_refl,
}
use crs.Serial.Stream.{concat}
use crs.Packets.{header_size, header, raw_size}
use crs.Packets.Layout.{header-append, construct-raw_size}
use crs.NetPeer.Incoming.{
  Receiver, Reading, min, copy_bytes, push_packet, take_packet, take_packets,
}

-- the bytes of a packet as they are sent
pub record IsFrame (p : List ℕ) : Type 0 where
  pub large : header_size ≤ length p
  pub size : raw_size (header p).sz ≡ length p

abbrev pub AreFrames : List (List ℕ) → Type 0
AreFrames [] = Unit
AreFrames (p ∷ ps) = IsFrame p × AreFrames ps

-- the start of a packet, less than the whole
abbrev pub IsStart : List ℕ → Type 0
IsStart rest =
    (length rest < header_size)
    ⊎ ((header_size ≤ length rest) × (length rest < raw_size (header rest).sz))

-- `memcpy` of the bytes at the pointer over the start of the packet
pub copy_bytes_lem :
    (r : Reading) (bytes more : List ℕ)
    → drop r.in_buf_ptr r.peer.in_buf ≡ bytes ++ more
    → r.in_buf_ptr + length bytes ≤ length r.peer.in_buf
    → r.peer.in_next_packet_byte + length bytes ≤ length r.peer.in_packet
    → copy_bytes (length bytes) r
      ≡ some (record r {
        peer = record (r.peer) {
          in_packet = overwrite r.peer.in_next_packet_byte bytes r.peer.in_packet;
          in_virtual_bytes = r.peer.in_virtual_bytes - length bytes;
        };
        in_buf_ptr = r.in_buf_ptr + length bytes;
      })
unfolding copy_bytes
copy_bytes_lem r bytes more e l h =
    let from : leb (r.in_buf_ptr + length bytes) (length r.peer.in_buf) ≡ true = ground arith in
    let to : leb (r.peer.in_next_packet_byte + length bytes) (length r.peer.in_packet) ≡ true =
      ground arith in
    rw (e, take-append bytes more, from, to) refl

pub min-left : (a b : ℕ) → a ≤ b → min a b ≡ a
unfolding min
min-left a b l = ground arith

pub min-right : (a b : ℕ) → b ≤ a → min a b ≡ b
unfolding min
min-right a b l = ground arith

overwrite_all : (bytes xs : List ℕ) → length xs ≡ length bytes → overwrite 0 bytes xs ≡ bytes
overwrite_all bytes xs l =
    ap (◌++◌ bytes) (drop_all (0 + length bytes) xs (omega arith)) ∙ append-nil bytes

-- behind a whole packet
abbrev after_packet : List ℕ → Reading → Reading
after_packet p r = record {
  peer = record (r.peer) {
    in_packet = p;
    in_next_packet_byte = 0;
    in_virtual_bytes = r.peer.in_virtual_bytes - length p;
    in_packet_queue = r.peer.in_packet_queue ++ p ∷ [];
  };
  in_buf_ptr = r.in_buf_ptr + length p;
  new_packets = r.new_packets + 1;
}

ptr_bound :
    (r : Reading) (bytes more : List ℕ)
    → drop r.in_buf_ptr r.peer.in_buf ≡ bytes ++ more
    → 0 < length bytes
    → r.in_buf_ptr + length bytes ≤ length r.peer.in_buf
ptr_bound r bytes more e l =
    let size = ap (λ (xs : List ℕ). length xs) e in
    omega (arith, size, length-drop r.in_buf_ptr r.peer.in_buf, length-append bytes more)

take_packet-frame :
    (r : Reading) (p more : List ℕ)
    → IsFrame p
    → drop r.in_buf_ptr r.peer.in_buf ≡ p ++ more
    → length p ≤ r.peer.in_virtual_bytes
    → take_packet r ≡ some (true, after_packet p r)
unfolding take_packet push_packet
take_packet-frame r p more f e l =
    let large = f.large in
    let size = f.size in
    let bound = ptr_bound r p more e (omega arith) in
    let room : leb (r.in_buf_ptr + header_size) (length r.peer.in_buf) ≡ true = ground arith in
    let (q, made, q_size, q_length) = construct-raw_size (header p) (omega arith) in
    let head : header (drop r.in_buf_ptr r.peer.in_buf) ≡ header p =
      ap header e ∙ header-append p more large in
    let start : Reading = record r {
      peer = record (r.peer) { in_packet = q.contents; in_next_packet_byte = 0 };
    } in
    let same : q.size ≡ length p = q_size ∙ size in
    let n = min-right r.peer.in_virtual_bytes (length p) l in
    let copied = copy_bytes_lem start p more e bound (omega arith) in
    let all = overwrite_all p q.contents (q_length ∙ size) in
    rw (room, head, made, same, n, copied, all, ==_refl (length p)) refl

-- less than a header waits in the buffer at the pointer
pub record IsIdle (ptr : ℕ) (s : Receiver) (rest : List ℕ) : Type 0 where
  pub none_left : s.in_bytes_rest ≡ 0
  pub more : List ℕ
  pub at : drop ptr s.in_buf ≡ rest ++ more
  pub virtual_bytes : s.in_virtual_bytes ≡ length rest
  pub short : length rest < header_size

-- the start of a packet waits in `_inPacket`
pub record IsBusy (s : Receiver) (rest : List ℕ) : Type 0 where
  pub virtual_bytes : s.in_virtual_bytes ≡ 0
  pub tail : List ℕ
  pub packet : s.in_packet ≡ rest ++ tail
  pub next : s.in_next_packet_byte ≡ length rest
  pub left : s.in_bytes_rest ≡ length tail
  pub unfinished : 0 < length tail
  pub large : header_size ≤ length rest
  pub size : raw_size (header rest).sz ≡ length rest + length tail

abbrev pub IsPending : ℕ → Receiver → List ℕ → Type 0
IsPending ptr s rest = IsIdle ptr s rest ⊎ IsBusy s rest

-- from `r` to `t` the packets `ps` were taken, and `rest` is left
pub record IsTaken (r t : Reading) (ps : List (List ℕ)) (rest : List ℕ) : Type 0 where
  pub pending : IsPending t.in_buf_ptr t.peer rest
  pub queue : t.peer.in_packet_queue ≡ r.peer.in_packet_queue ++ ps
  pub new_packets : t.new_packets ≡ r.new_packets + length ps
  pub buffer : length t.peer.in_buf ≡ length r.peer.in_buf
  pub bound : t.in_buf_ptr + t.peer.in_virtual_bytes ≤ length t.peer.in_buf

take_packet-start :
    (r : Reading) (rest more : List ℕ)
    → drop r.in_buf_ptr r.peer.in_buf ≡ rest ++ more
    → r.peer.in_virtual_bytes ≡ length rest
    → header_size ≤ length rest
    → length rest < raw_size (header rest).sz
    → (t : Reading) × (take_packet r ≡ some (false, t)) × IsTaken r t [] rest
unfolding take_packet
take_packet-start r rest more e v large l =
    let bound = ptr_bound r rest more e (omega arith) in
    let room : leb (r.in_buf_ptr + header_size) (length r.peer.in_buf) ≡ true = ground arith in
    let (q, made, q_size, q_length) = construct-raw_size (header rest) (omega arith) in
    let head : header (drop r.in_buf_ptr r.peer.in_buf) ≡ header rest =
      ap header e ∙ header-append rest more large in
    let start : Reading = record r {
      peer = record (r.peer) { in_packet = q.contents; in_next_packet_byte = 0 };
    } in
    let n : min r.peer.in_virtual_bytes q.size ≡ length rest =
      min-left r.peer.in_virtual_bytes q.size (omega arith) ∙ v in
    let copied = copy_bytes_lem start rest more e bound (omega arith) in
    let part : length rest == q.size ≡ false = ground arith in
    let tail = drop (0 + length rest) q.contents in
    let tail_length : length tail ≡ q.size - length rest =
      length-drop (0 + length rest) q.contents ∙ omega arith in
    let t : Reading = record {
      peer = record (r.peer) {
        in_packet = rest ++ tail;
        in_next_packet_byte = length rest;
        in_virtual_bytes = r.peer.in_virtual_bytes - length rest;
        in_bytes_rest = q.size - length rest;
      };
      in_buf_ptr = r.in_buf_ptr + length rest;
      new_packets = r.new_packets;
    } in
    let busy : IsBusy t.peer rest = record {
      virtual_bytes = omega arith;
      tail = tail;
      packet = refl;
      next = refl;
      left = sym tail_length;
      unfinished = omega arith;
      large = large;
      size = omega arith;
    } in
    let taken : IsTaken r t [] rest = record {
      pending = inr busy;
      queue = sym (append-nil r.peer.in_packet_queue);
      new_packets = omega arith;
      buffer = refl;
      bound = omega arith;
    } in
    rw (room, head, made, n, copied, part) (t, refl, taken)

pub drop_further :
    (n : ℕ) (xs : List ℕ) (p ys : List ℕ) → drop n xs ≡ p ++ ys → drop (n + length p) xs ≡ ys
drop_further zero xs p ys e =
    let size : zero + length p ≡ length p = omega arith in
    ap (λ k. drop k xs) size ∙ ap (drop (length p)) e ∙ drop-append p ys
drop_further (suc n) [] [] ys e =
    let size : suc n + 0 ≡ suc n = omega arith in ap (λ k. drop k []) size ∙ e
drop_further (suc n) [] (b ∷ p) ys e = absurd cc
drop_further (suc n) (x ∷ xs) p ys e =
    let size : suc n + length p ≡ suc (n + length p) = omega arith in
    ap (λ k. drop k (x ∷ xs)) size ∙ drop_further n xs p ys e

pub take_packets-few :
    (fuel : ℕ) (r : Reading)
    → leb header_size r.peer.in_virtual_bytes ≡ false
    → take_packets fuel r ≡ some r
unfolding take_packets
take_packets-few zero r few = rw few refl
take_packets-few (suc fuel) r few = rw few refl

pub take_packets_lem :
    (fuel : ℕ) (ps : List (List ℕ)) (r : Reading) (rest more : List ℕ)
    → AreFrames ps
    → IsStart rest
    → drop r.in_buf_ptr r.peer.in_buf ≡ concat ps ++ (rest ++ more)
    → r.peer.in_virtual_bytes ≡ length (concat ps) + length rest
    → r.peer.in_bytes_rest ≡ 0
    → r.peer.in_virtual_bytes ≤ fuel
    → r.in_buf_ptr + r.peer.in_virtual_bytes ≤ length r.peer.in_buf
    → (t : Reading) × (take_packets fuel r ≡ some t) × IsTaken r t ps rest
unfolding take_packets concat
take_packets_lem zero [] r rest more f (inr (large, l)) e v z b h = absurd (omega arith)
take_packets_lem fuel [] r rest more f (inl short) e v z b h =
    let few : leb header_size r.peer.in_virtual_bytes ≡ false = ground arith in
    let idle : IsIdle r.in_buf_ptr r.peer rest = record {
      none_left = z;
      more = more;
      at = e;
      virtual_bytes = omega arith;
      short = short;
    } in
    let taken : IsTaken r r [] rest = record {
      pending = inl idle;
      queue = sym (append-nil r.peer.in_packet_queue);
      new_packets = omega arith;
      buffer = refl;
      bound = h;
    } in
    (r, take_packets-few fuel r few, taken)
take_packets_lem (suc fuel) [] r rest more f (inr (large, l)) e v z b h =
    let many : leb header_size r.peer.in_virtual_bytes ≡ true = ground arith in
    let (t, done, taken) = take_packet-start r rest more e (omega arith) large l in
    rw (many, done) (t, refl, taken)
take_packets_lem zero (p ∷ ps) r rest more (f, fs) st e v z b h =
    let large = f.large in absurd (omega (arith, length-append p (concat ps)))
take_packets_lem (suc fuel) (p ∷ ps) r rest more (f, fs) st e v z b h =
    let large = f.large in
    let size = length-append p (concat ps) in
    let many : leb header_size r.peer.in_virtual_bytes ≡ true = ground arith in
    let front : drop r.in_buf_ptr r.peer.in_buf ≡ p ++ (concat ps ++ (rest ++ more)) =
      e ∙ append_assoc p (concat ps) (rest ++ more) in
    let done = take_packet-frame r p (concat ps ++ (rest ++ more)) f front (omega arith) in
    let (t, others, taken) =
      take_packets_lem fuel ps (after_packet p r) rest more fs st
        (drop_further r.in_buf_ptr r.peer.in_buf p _ front) (omega arith) z (omega arith)
        (omega arith) in
    let more_packets = taken.new_packets in
    rw (many, done)
      (
        t,
        others,
        record {
          pending = taken.pending;
          queue = taken.queue ∙ append_assoc r.peer.in_packet_queue (p ∷ []) ps;
          new_packets = omega arith;
          buffer = taken.buffer;
          bound = taken.bound;
        },
      )
