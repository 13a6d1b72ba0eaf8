-- ===== src/NetPeer/Front.antt =====
-- The bytes that are received, and those that are moved to the front of the buffer.
use crs.Base.{
  ℕ, ◌+◌, ◌≤◌, ◌≡◌, inl, inr, refl, sym, ap, ap₂, ◌∙◌, true, List, [], ◌∷◌, ◌++◌, some, arith, leb,
  ◌==◌, if◌then◌else◌, ◌>>=◌, length, take, drop, overwrite, length-overwrite, take-append,
}
use crs.NetPeer.Incoming.{Reading, take_packets, move_front}
use crs.NetPeer.Receive.{IsIdle, IsBusy, IsPending, IsTaken}

-- a word is split where another one ends
pub append_split :
    (p xs r ys : List ℕ)
    → p ++ xs ≡ r ++ ys
    → length r ≤ length p
    → (q : List ℕ) × (p ≡ r ++ q) × (ys ≡ q ++ xs)
append_split p xs [] ys e l = (p, refl, sym e)
append_split [] xs (b ∷ r) ys e l = absurd (omega arith)
append_split (a ∷ p) xs (b ∷ r) ys e l =
    let (heads, tails) : (a ≡ b) × (p ++ xs ≡ r ++ ys) = (cc, cc) in
    let (q, front, back) = append_split p xs r ys tails (omega arith) in
    (q, ap₂ ◌∷◌ heads front, back)

pub move_front_lem :
    (r t : Reading) (ps : List (List ℕ)) (rest : List ℕ)
    → IsTaken r t ps rest
    → (u : Reading) × (move_front t ≡ some u)
      × IsPending 0 u.peer rest
      × (u.peer.in_packet_queue ≡ t.peer.in_packet_queue)
      × (u.new_packets ≡ t.new_packets)
      × (length u.peer.in_buf ≡ length t.peer.in_buf)
unfolding move_front
move_front_lem r t ps rest k =
    let bound = k.bound in
    let fits : leb (t.in_buf_ptr + t.peer.in_virtual_bytes) (length t.peer.in_buf) ≡ true =
      ground arith in
    let kept = take t.peer.in_virtual_bytes (drop t.in_buf_ptr t.peer.in_buf) in
    let u : Reading = record t {
      peer = record (t.peer) {
        in_buf = overwrite 0 kept t.peer.in_buf;
        called_back = if t.new_packets == 0 then t.peer.called_back else t.peer.called_back + 1;
      };
    } in
    let (pending, size) : IsPending 0 u.peer rest × (length kept ≡ t.peer.in_virtual_bytes) =
      elim k.pending [
        | inl w ↦
            let all : kept ≡ rest = ap₂ take w.virtual_bytes w.at ∙ take-append rest w.more in
            let idle : IsIdle 0 u.peer rest = record {
              none_left = w.none_left;
              more = drop (0 + length kept) t.peer.in_buf;
              at = ap (λ xs. xs ++ drop (0 + length kept) t.peer.in_buf) all;
              virtual_bytes = w.virtual_bytes;
              short = w.short;
            } in
            (inl idle, ap (λ (xs : List ℕ). length xs) all ∙ sym w.virtual_bytes)
        | inr w ↦
            let busy : IsBusy u.peer rest = record {
              virtual_bytes = w.virtual_bytes;
              tail = w.tail;
              packet = w.packet;
              next = w.next;
              left = w.left;
              unfinished = w.unfinished;
              large = w.large;
              size = w.size;
            } in
            let nothing : kept ≡ [] =
              ap (λ n. take n (drop t.in_buf_ptr t.peer.in_buf)) w.virtual_bytes in
            (inr busy, ap (λ (xs : List ℕ). length xs) nothing ∙ sym w.virtual_bytes)
      ] in
    rw fits
      (u, refl, pending, refl, refl, length-overwrite 0 kept t.peer.in_buf (omega (arith, size)))

-- what `take_bytes` does to a state in which `rest` waits
pub record IsRead (r u : Reading) (ps : List (List ℕ)) (rest : List ℕ) : Type 0 where
  pub pending : IsPending 0 u.peer rest
  pub queue : u.peer.in_packet_queue ≡ r.peer.in_packet_queue ++ ps
  pub new_packets : u.new_packets ≡ r.new_packets + length ps
  pub buffer : length u.peer.in_buf ≡ length r.peer.in_buf

-- the end of `take_bytes`
pub take_move :
    (r got : Reading) (ps : List (List ℕ)) (rest : List ℕ)
    → ((t : Reading) × (take_packets got.peer.in_virtual_bytes got ≡ some t) × IsTaken r t ps rest)
    → (u : Reading) × ((take_packets got.peer.in_virtual_bytes got >>= move_front) ≡ some u)
      × IsRead r u ps rest
take_move r got ps rest (t, done, taken) =
    let (u, moved, pending, queue, new, size) = move_front_lem r t ps rest taken in
    rw (done, moved)
      (
        u,
        refl,
        record {
          pending = pending;
          queue = queue ∙ taken.queue;
          new_packets = new ∙ taken.new_packets;
          buffer = size ∙ taken.buffer;
        },
      )

-- the state behind a `recv`
abbrev pub got : List ℕ → Reading → Reading
got bytes r = record r {
  peer = record (r.peer) {
    in_buf = overwrite r.peer.in_virtual_bytes bytes r.peer.in_buf;
    in_virtual_bytes = r.peer.in_virtual_bytes + length bytes;
  };
}
