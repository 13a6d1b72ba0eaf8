-- ===== src/NetPeer/Transmit.antt =====
-- The bytes of a packet on their way out, over any calls of `handle_write`.
use mathlib.Core.List.{append-nil, append_assoc}
use crs.Base.{
  take-more, ℕ, ◌+◌, ◌-◌, ◌≤◌, ◌<◌, ◌≡◌, ◌↔◌, refl, sym, ap, ap₂, ◌∙◌, Bool, true, false, not, List,
  [], ◌∷◌, ◌++◌, arith, ◌==◌, if◌then◌else◌, length, take, drop, length-take, take_all,
}
use crs.NetPeer.{
  NetPeer, SendResult, would_block, interrupted, took, taken_bytes, advance, handle_write,
  send_packet,
}

-- the socket takes no more bytes than the `left` ones that it is given
abbrev pub IsFitting : List SendResult → ℕ → Type 0
IsFitting [] left = Unit
IsFitting (would_block ∷ script) left = Unit
IsFitting (interrupted ∷ script) left = IsFitting script left
IsFitting (took n ∷ script) left = (n ≤ left) × IsFitting script (left - n)

-- calls of `handle_write` from one state to another, and the bytes that go out
pub data Writes : NetPeer → List ℕ → NetPeer → Type 0 where
  none_left : {s : NetPeer} → Writes s [] s
  call :
      {s t : NetPeer} {wire : List ℕ} (script : List SendResult)
      → IsFitting script (s.out_bytes_total - s.out_virtual_bytes)
      → Writes (handle_write script s).1 wire t
      → Writes s ((handle_write script s).0 ++ wire) t

-- the first bytes of `p` are out
pub record IsSending (p : List ℕ) (s : NetPeer) : Type 0 where
  pub buf : s.out_buf ≡ p
  pub total : s.out_bytes_total ≡ length p
  pub next : s.out_next_byte ≡ s.out_virtual_bytes
  pub within : s.out_virtual_bytes ≤ length p
  pub flag : s.out_flag ≡ not (s.out_virtual_bytes == length p)

-- a statement about both branches of a test
branches :
    {A : Type 0} (P : A → Type 0) (b : Bool) {x y : A}
    → (b ≡ true → P x)
    → (b ≡ false → P y)
    → P (if b then x else y)
branches P true f g = f refl
branches P false f g = g refl

advance-IsSending :
    (p : List ℕ) (n : ℕ) (s : NetPeer)
    → IsSending p s
    → n ≤ length p - s.out_virtual_bytes
    → IsSending p (advance n s)
unfolding advance
advance-IsSending p n s v h =
    branches (IsSending p) (s.out_virtual_bytes + n == s.out_bytes_total)
      (λ e. record {
        buf = v.buf;
        total = v.total;
        next = omega (arith, v.next);
        within = omega (arith, v.within);
        flag = ground (arith, v.total);
      })
      (λ e. record {
        buf = v.buf;
        total = v.total;
        next = omega (arith, v.next);
        within = omega (arith, v.within);
        flag = v.flag ∙ ground (arith, v.total);
      })

out_virtual_bytes-advance :
    (n : ℕ) (s : NetPeer) → (advance n s).out_virtual_bytes ≡ s.out_virtual_bytes + n
unfolding advance
out_virtual_bytes-advance n s =
    branches (λ (t : NetPeer). t.out_virtual_bytes ≡ s.out_virtual_bytes + n)
      (s.out_virtual_bytes + n == s.out_bytes_total) (λ e. refl) (λ e. refl)

pub handle_write-IsSending :
    (p : List ℕ) (script : List SendResult) (s : NetPeer)
    → IsSending p s
    → IsFitting script (length p - s.out_virtual_bytes)
    → IsSending p (handle_write script s).1
      × (take s.out_virtual_bytes p ++ (handle_write script s).0
          ≡ take (handle_write script s).1.out_virtual_bytes p)
unfolding handle_write taken_bytes
handle_write-IsSending p [] s v h = (v, append-nil _)
handle_write-IsSending p (would_block ∷ script) s v h = (v, append-nil _)
handle_write-IsSending p (interrupted ∷ script) s v h =
    branches
      (λ (r : List ℕ × NetPeer).
        IsSending p r.1 × (take s.out_virtual_bytes p ++ r.0 ≡ take r.1.out_virtual_bytes p))
      s.out_flag (λ e. handle_write-IsSending p script s v h) (λ e. (v, append-nil _))
handle_write-IsSending p (took n ∷ script) s v h =
    let moved = out_virtual_bytes-advance n s in
    let left : length p - (advance n s).out_virtual_bytes ≡ length p - s.out_virtual_bytes - n =
      omega (arith, moved) in
    let (u, out) =
      handle_write-IsSending p script (advance n s) (advance-IsSending p n s v h.0) (rw left h.1) in
    let taken : take s.out_virtual_bytes p ++ take n (drop s.out_next_byte s.out_buf)
        ≡ take (advance n s).out_virtual_bytes p =
      ap₂ (λ k l. take s.out_virtual_bytes p ++ take n (drop k l)) v.next v.buf
      ∙ take-more s.out_virtual_bytes n p
      ∙ ap (λ k. take k p) (sym moved) in
    branches
      (λ (r : List ℕ × NetPeer).
        IsSending p r.1 × (take s.out_virtual_bytes p ++ r.0 ≡ take r.1.out_virtual_bytes p))
      s.out_flag
      (λ e. (
        u,
        sym (append_assoc (take s.out_virtual_bytes p) _ _)
            ∙ ap (λ l. l ++ (handle_write script (advance n s)).0) taken
            ∙ out,
      ))
      (λ e. (v, append-nil _))

Writes-IsSending :
    (p : List ℕ) {s t : NetPeer} {wire : List ℕ}
    → IsSending p s
    → Writes s wire t
    → IsSending p t × (take s.out_virtual_bytes p ++ wire ≡ take t.out_virtual_bytes p)
Writes-IsSending p v none_left = (v, append-nil _)
Writes-IsSending p {s} v (call {wire = wire} script h w) =
    let (u, out) = handle_write-IsSending p script s v (rw v.total at h) in
    let (z, rest) = Writes-IsSending p u w in
    (
      z,
      sym (append_assoc (take s.out_virtual_bytes p) (handle_write script s).0 wire)
          ∙ ap (λ l. l ++ wire) out
          ∙ rest,
    )

-- Where no packet is on its way and send_packet accepts one that is not empty, the bytes that go
-- out in any calls of handle_write are the first ones of the packet, each once and in order; the
-- flag is taken back exactly when they are the whole packet.
pub Writes-send_packet :
    (p : List ℕ) (s t : NetPeer) (wire : List ℕ)
    → s.out_flag ≡ false
    → 0 < length p
    → Writes (send_packet p s).1 wire t
    → (wire ≡ take t.out_virtual_bytes p) × ((t.out_flag ≡ false) ↔ (wire ≡ p))
unfolding send_packet
Writes-send_packet p s t wire idle size w =
    let start : IsSending p (record s {
      out_buf = p;
      out_next_byte = 0;
      out_virtual_bytes = 0;
      out_bytes_total = length p;
      out_flag = true;
    }) =
      record { buf = refl; total = refl; next = refl; within = omega arith; flag = ground arith } in
    let (u, out) = Writes-IsSending p start (rw idle at w) in
    (
      out,
      (
        λ e. out ∙ ap (λ k. take k p) (ground (arith, u.flag)) ∙ take_all p,
        λ e.
            let whole : length (take t.out_virtual_bytes p) ≡ length p = ap length (sym out ∙ e) in
            ground (arith, u.flag, length-take t.out_virtual_bytes p u.within),
      ),
    )
