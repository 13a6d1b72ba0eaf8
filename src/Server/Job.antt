-- ===== src/Server/Job.antt =====
-- `proceed_request_job`: the thread that sends the packets of the outbox.
use mathlib.Core.Path.{subst}
use crs.Base.{
  ℕ, zero, suc, ◌<◌, ◌≡◌, ◌≢◌, refl, sym, Bool, true, List, [], ◌∷◌, some, arith, ◌==◌, Bool-cases,
  inl, inr, Yields, yields, Yields-bind, length,
}
use crs.Server.{
  TalkPacket, Manager, Taken, Sending, sent, terminate_request_thread, range_error, Progress, more,
  idle, ended, failed, progress_of, send, order_of, proceed_front, proceed_request, request_loop,
  notify_request_thread_termination, post, post_termination, terminate_packet, id_check_bits,
  domain_stat, domain_sdevman, rcp_thread,
}
use crs.Server.Delivery.{deliver_response-quiet}

module _ {D : Type 0} (pool_controlled : ℕ → Bool) (take : D → ℕ → TalkPacket → Taken D) where
  -- After the destructor has posted its packet, the next round of the loop ends the thread and sets
  -- its flag, whatever else there is to send; the other packets stay in the outbox.
  pub request_loop-termination :
      (k : ℕ) (m : Manager D)
      → request_loop pool_controlled take (suc k) (post_termination m)
        ≡ some (ended, record m { request_thread_flag = true })
  unfolding request_loop proceed_front proceed_request send order_of post_termination post
      terminate_packet id_check_bits progress_of notify_request_thread_termination
  request_loop-termination k m = refl

  module _ (quiet : (s : D) (d : ℕ) (p : TalkPacket) → (take s d p).posted ≡ []) where
    send-quiet :
        (packet : TalkPacket) (m : Manager D)
        → Yields (λ r. r.1.outbox ≡ m.outbox) (send pool_controlled take packet m)
    unfolding send
    send-quiet packet m = elim (Bool-cases (packet.domain == domain_stat)) [
      | inl e ↦ rw e (elim (Bool-cases (packet.recepient == 1)) [
        | inl f ↦ rw f (
            Yields-bind (deliver_response-quiet pool_controlled take quiet packet m)
              λ m' (same, flag). yields same)
        | inr f ↦ rw f (yields refl)
      ])
      | inr e ↦ rw e (elim (Bool-cases (packet.domain == domain_sdevman)) [
        | inl f ↦ rw f (elim (Bool-cases (packet.recepient == rcp_thread)) [
          | inl g ↦ rw g (yields refl)
          | inr g ↦ rw g (yields refl)
        ])
        | inr f ↦ rw f (yields refl)
      ])
    ]

    -- a call of `proceed_request` with `n` packets in the outbox
    record IsRound (n : ℕ) (r : Progress × Manager D) : Type 0 where
      shrinks : r.0 ≡ more → length r.1.outbox < n
      drained : r.0 ≡ idle → r.1.outbox ≡ []

    progress_of-IsRound :
        (result : Sending) (m : Manager D) (outbox : List TalkPacket) (n : ℕ)
        → m.outbox ≡ outbox
        → length outbox < n
        → IsRound n (progress_of result outbox, m)
    unfolding progress_of
    progress_of-IsRound sent m [] n e h = record { shrinks = λ q. rw e h; drained = λ q. e }
    progress_of-IsRound sent m (p ∷ o) n e h = record { shrinks = λ q. rw e h; drained = λ q. cc }
    progress_of-IsRound terminate_request_thread m o n e h = record {
      shrinks = λ q. rw e h;
      drained = λ q. cc;
    }
    progress_of-IsRound range_error m o n e h = record { shrinks = λ q. rw e h; drained = λ q. cc }

    proceed_front-IsRound :
        (outbox : List TalkPacket) (m : Manager D)
        → m.outbox ≡ outbox
        → Yields (IsRound (length outbox)) (proceed_front pool_controlled take outbox m)
    unfolding proceed_front
    proceed_front-IsRound [] m e = yields (record { shrinks = λ q. cc; drained = λ q. e })
    proceed_front-IsRound (packet ∷ outbox) m e =
        Yields-bind (send-quiet packet (record m { outbox = outbox })) λ r same. yields (
          subst (λ o. IsRound (suc (length outbox)) (progress_of r.0 o, r.1)) (sym same)
            (progress_of-IsRound r.0 r.1 outbox (suc (length outbox)) same (omega arith)))

    -- Where the devices post nothing when they take a packet, the loop comes to its end or to a wait
    -- in as many rounds as there are packets, and one more; it waits only if the outbox is empty.
    pub request_loop-returns :
        (k : ℕ) (m : Manager D)
        → length m.outbox < k
        → Yields
            (λ r. (r.0 ≢ more) × (r.0 ≡ idle → r.1.outbox ≡ []))
            (request_loop pool_controlled take k m)
    unfolding request_loop proceed_request
    request_loop-returns zero m h = absurd (omega arith)
    request_loop-returns (suc k) m h =
        Yields-bind (proceed_front-IsRound m.outbox m refl)
          λ (progress, m') round. go progress m' round (request_loop-returns k m')
      where
        go :
            (progress : Progress) (m' : Manager D)
            → IsRound (length m.outbox) (progress, m')
            → (length m'.outbox < k
                → Yields
                    (λ r. (r.0 ≢ more) × (r.0 ≡ idle → r.1.outbox ≡ []))
                    (request_loop pool_controlled take k m'))
            → Yields
                (λ r. (r.0 ≢ more) × (r.0 ≡ idle → r.1.outbox ≡ []))
                (elim progress [
                  | more ↦ request_loop pool_controlled take k m'
                  | idle ↦ some (idle, m')
                  | failed ↦ some (failed, m')
                  | ended ↦ some (ended, notify_request_thread_termination m')
                ])
        go more m' r again = again (omega (arith, r.shrinks refl))
        go idle m' r again = yields (λ q. cc, r.drained)
        go ended m' r again = yields (λ q. cc, λ q. cc)
        go failed m' r again = yields (λ q. cc, λ q. cc)
