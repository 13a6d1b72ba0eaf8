-- ===== src/NetPeer/Stream.antt =====
-- Any calls of `handle_read` on a stream of whole packets.
use mathlib.Core.List.{append-nil, append_assoc}
use crs.Base.{
  ℕ, ◌+◌, ◌*◌, ◌≤◌, ◌<◌, ◌≡◌, inl, inr, refl, sym, ap, ◌∙◌, false, List, [], ◌∷◌, ◌++◌, Option,
  some, arith, ltb, ◌>>=◌, length, length-append, length-replicate, replicate, Bool-cases,
}
use crs.Serial.Stream.{concat}
use crs.Packets.{PacketHeader, header_size, header, raw_size}
use crs.Packets.Layout.{header-append}
use crs.NetPeer.Incoming.{Receiver, received, exhausted, handle_read}
use crs.NetPeer.Receive.{AreFrames, IsStart, IsIdle, IsPending}
use crs.NetPeer.Front.{append_split}
use crs.NetPeer.Deliver.{handle_read_lem}

-- calls of `handle_read`, each of which receives some bytes
unfoldable pub reads : List (List ℕ) → Receiver → Option Receiver
reads [] s = some s
reads (bytes ∷ more) s = handle_read (received bytes ∷ []) s >>= λ (result, t). reads more t

-- twice the bytes of each read and a header fit into a buffer of `size` bytes
abbrev pub AreShort : ℕ → List (List ℕ) → Type 0
AreShort size [] = Unit
AreShort size (bytes ∷ more) = (2 * length bytes + header_size ≤ size) × AreShort size more

-- what is in the packets, and how far the stream goes into the next
pub record IsPrefix (ps : List (List ℕ)) (xs ys : List ℕ) : Type 0 where
  pub done : List (List ℕ)
  pub others : List (List ℕ)
  pub next : List ℕ
  pub done_frames : AreFrames done
  pub other_frames : AreFrames others
  pub start : IsStart next
  pub cut : xs ≡ concat done ++ next
  pub left : next ++ ys ≡ concat others
  pub all : ps ≡ done ++ others

header-frame :
    (p xs ys zs : List ℕ)
    → p ++ xs ≡ ys ++ zs
    → header_size ≤ length p
    → header_size ≤ length ys
    → raw_size (header p).sz ≡ raw_size (header ys).sz
header-frame p xs ys zs e l h =
    ap (λ (h : PacketHeader). raw_size h.sz)
      (sym (header-append p xs l) ∙ ap header e ∙ header-append ys zs h)

pub cut_prefix :
    (ps : List (List ℕ)) (xs ys : List ℕ) → AreFrames ps → xs ++ ys ≡ concat ps → IsPrefix ps xs ys
unfolding concat
cut_prefix [] [] ys f e = record {
  done = [];
  others = [];
  next = [];
  done_frames = tt;
  other_frames = tt;
  start = inl (omega arith);
  cut = refl;
  left = e;
  all = refl;
}
cut_prefix [] (x ∷ xs) ys f e = absurd cc
cut_prefix (p ∷ ps) xs ys f e = elim (Bool-cases (ltb (length xs) (length p))) [
  | inl q ↦
      let large = f.0.large in
      let size = f.0.size in
      let start : IsStart xs = elim (Bool-cases (ltb (length xs) header_size)) [
        | inl short ↦ inl (ground arith)
        | inr long ↦
            let same = header-frame p (concat ps) xs ys (sym e) large (ground arith) in
            inr (ground arith, ground arith)
      ] in
      record {
        done = [];
        others = p ∷ ps;
        next = xs;
        done_frames = tt;
        other_frames = f;
        start = start;
        cut = refl;
        left = e;
        all = refl;
      }
  | inr q ↦
      let (rest, front, back) = append_split xs ys p (concat ps) e (ground arith) in
      let c = cut_prefix ps rest ys f.1 (sym back) in
      record {
        done = p ∷ c.done;
        others = c.others;
        next = c.next;
        done_frames = (f.0, c.done_frames);
        other_frames = c.other_frames;
        start = c.start;
        cut = front ∙ ap (◌++◌ p) c.cut ∙ sym (append_assoc p (concat c.done) c.next);
        left = c.left;
        all = ap (◌∷◌ p) c.all;
      }
]

pub pending-IsStart : (s : Receiver) (rest : List ℕ) → IsPending 0 s rest → IsStart rest
pending-IsStart s rest (inl w) = inl w.short
pending-IsStart s rest (inr w) =
    let size = w.size in let unfinished = w.unfinished in inr (w.large, omega arith)

-- the start of a packet is not made of whole ones
pub start_whole :
    (ps : List (List ℕ)) (rest : List ℕ) → AreFrames ps → IsStart rest → rest ≡ concat ps → ps ≡ []
unfolding concat
start_whole [] rest f st e = refl
start_whole (p ∷ ps) rest f st e =
    let large = f.0.large in
    let size = f.0.size in
    let whole : length rest ≡ length p + length (concat ps) =
      ap (λ (xs : List ℕ). length xs) e ∙ length-append p (concat ps) in
    elim st [
      | inl short ↦ absurd (omega arith)
      | inr (long, part) ↦
          let same =
            header-frame p (concat ps) rest [] (sym e ∙ sym (append-nil rest)) large long in
          absurd (omega arith)
    ]

pub virtual_bytes-IsPending :
    (s : Receiver) (rest : List ℕ) → IsPending 0 s rest → s.in_virtual_bytes < header_size
virtual_bytes-IsPending s rest (inl w) =
    let virtual = w.virtual_bytes in let short = w.short in omega arith
virtual_bytes-IsPending s rest (inr w) = let virtual = w.virtual_bytes in omega arith

reads-IsPending :
    (chunks ps : List (List ℕ)) (s : Receiver) (rest : List ℕ)
    → IsPending 0 s rest
    → AreFrames ps
    → AreShort (length s.in_buf) chunks
    → rest ++ concat chunks ≡ concat ps
    → (t : Receiver) × (reads chunks s ≡ some t) × (t.in_packet_queue ≡ s.in_packet_queue ++ ps)
unfolding reads concat exhausted
reads-IsPending [] ps s rest w f short e =
    let none_left = start_whole ps rest f (pending-IsStart s rest w) (sym (append-nil rest) ∙ e) in
    (s, refl, rw none_left (sym (append-nil s.in_packet_queue)))
reads-IsPending (bytes ∷ chunks) ps s rest w f short e =
    let c =
      cut_prefix ps (rest ++ bytes) (concat chunks) f
        (append_assoc rest bytes (concat chunks) ∙ e) in
    let few = virtual_bytes-IsPending s rest w in
    let least = short.0 in
    let half : exhausted bytes s ≡ false = ground arith in
    let (t, done, queue, pending, size) =
      handle_read_lem s bytes rest c.next c.done [] w (omega arith) half c.done_frames c.start
        c.cut in
    let (u, others, queue') =
      reads-IsPending chunks c.others t c.next pending c.other_frames (rw size short.1) c.left in
    rw done (
      u,
      others,
      queue'
          ∙ ap (λ q. q ++ c.others) queue
          ∙ append_assoc s.in_packet_queue c.done c.others
          ∙ ap (◌++◌ s.in_packet_queue) (sym c.all),
    )

-- a peer with a buffer of `in_buf_size` bytes that has received nothing
unfoldable pub new_receiver : ℕ → Receiver
new_receiver in_buf_size = record {
  in_buf = replicate in_buf_size 0;
  in_virtual_bytes = 0;
  in_packet = [];
  in_bytes_rest = 0;
  in_next_packet_byte = 0;
  in_packet_queue = [];
  called_back = 0;
}

pub new_receiver-IsIdle : (in_buf_size : ℕ) → IsIdle 0 (new_receiver in_buf_size) []
unfolding new_receiver
new_receiver-IsIdle in_buf_size = record {
  none_left = refl;
  more = replicate in_buf_size 0;
  at = refl;
  virtual_bytes = refl;
  short = omega arith;
}

-- However the bytes of whole packets are divided into reads, where twice the bytes of each read and a
-- header of ten bytes fit into the buffer, a
-- new net peer queues exactly these packets, in order.
pub reads-new_receiver :
    (in_buf_size : ℕ) (chunks ps : List (List ℕ))
    → AreFrames ps
    → AreShort in_buf_size chunks
    → concat chunks ≡ concat ps
    → (t : Receiver) × (reads chunks (new_receiver in_buf_size) ≡ some t) × (t.in_packet_queue ≡ ps)
unfolding new_receiver
reads-new_receiver in_buf_size chunks ps f short e =
    let s = new_receiver in_buf_size in
    reads-IsPending chunks ps s [] (inl (new_receiver-IsIdle in_buf_size)) f
      (rw (length-replicate {A = ℕ} in_buf_size 0) short) e
