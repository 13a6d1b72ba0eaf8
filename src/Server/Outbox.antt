-- ===== src/Server/Outbox.antt =====
-- The order of the packets in the outbox.
use mathlib.Core.List.{append_assoc, append-nil}
use crs.Base.{◌≡◌, sym, ap, ◌∙◌, Bool, List, [], ◌∷◌, ◌++◌, if◌then◌else◌, Bool-cases, inl, inr}
use crs.Server.{TalkPacket, id_check_bits, id_fast, post, post_all}

abbrev pub is_fast : TalkPacket → Bool
is_fast packet = id_check_bits packet (id_fast ∷ [])

-- the fast packets, the last one first
abbrev pub fast_reversed : List TalkPacket → List TalkPacket
fast_reversed [] = []
fast_reversed (p ∷ packets) =
    if is_fast p then fast_reversed packets ++ p ∷ [] else fast_reversed packets

-- the other packets, in order
abbrev pub slow : List TalkPacket → List TalkPacket
slow [] = []
slow (p ∷ packets) = if is_fast p then slow packets else p ∷ slow packets

-- After packets were posted, the outbox has the fast ones first, the last one foremost, then what it
-- had, then the others in the order in which they were posted.
pub post_all-order :
    (packets outbox : List TalkPacket)
    → post_all packets outbox ≡ fast_reversed packets ++ (outbox ++ slow packets)
unfolding post_all post
post_all-order [] outbox = sym (append-nil outbox)
post_all-order (p ∷ packets) outbox = elim (Bool-cases (is_fast p)) [
  | inl q ↦ rw q (
      post_all-order packets (p ∷ outbox)
      ∙ sym (append_assoc (fast_reversed packets) (p ∷ []) (outbox ++ slow packets)))
  | inr q ↦ rw q (
      post_all-order packets (outbox ++ p ∷ [])
      ∙ ap (λ l. fast_reversed packets ++ l) (append_assoc outbox (p ∷ []) (slow packets)))
]
