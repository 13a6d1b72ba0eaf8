-- ===== src/Server/Delivery.antt =====
-- `deliver_response`: a packet goes to the devices of its domain, or to all of them.
use crs.Base.{
  ℕ, ◌≡◌, ◌≢◌, refl, sym, ap, ◌∙◌, Bool, false, List, [], ◌∷◌, ◌++◌, Option, none, some, arith,
  ◌==◌, Bool-cases, inl, inr, Yields, yields, Yields-bind, some_inj,
}
use crs.Elements.{for_each}
use crs.Elements.Domains.{ElementMap, find, IsRunOn, list_of}
use crs.Elements.Removal.{IsSplit, acts, for_each-IsSplit}
use crs.Elements.Total.{for_each_in-IsRunOn, for_each_in-keeps, for_each_all-total}
use crs.Server.{
  TalkPacket, Manager, Taken, id_local, id_dtd, id_check_bits, domain_common,
  packet_delivery_action, deliver_response, post_within, post,
}

-- none of the packets is for other devices
abbrev pub AreRemote : List TalkPacket → Type 0
AreRemote [] = Unit
AreRemote (packet ∷ packets) =
    (id_check_bits packet (id_local ∷ id_dtd ∷ []) ≡ false) × AreRemote packets

post_within-remote :
    (packets outbox : List TalkPacket)
    → AreRemote packets
    → (box : List TalkPacket) × (post_within packets (some outbox) ≡ some box)
unfolding post_within
post_within-remote [] outbox h = (outbox, refl)
post_within-remote (packet ∷ packets) outbox h =
    rw h.0 (post_within-remote packets (post packet outbox) h.1)

Yields-both :
    {A : Type 0} {P Q : A → Type 0} {m : Option A}
    → Yields P m
    → Yields Q m
    → Yields (λ a. P a × Q a) m
Yields-both (yields p) (yields q) = yields (p, q)

Yields-some : {A : Type 0} {P : A → Type 0} {a : A} → Yields P (some a) → P a
Yields-some (yields p) = p

module _ {D : Type 0} (pool_controlled : ℕ → Bool) (take : D → ℕ → TalkPacket → Taken D) where
  -- The devices of the packet's domain that stay and those that are removed, where `answer` is what
  -- they answer to it; nothing changes for the other domains.
  pub record IsDelivered (packet : TalkPacket) (answer : ℕ → ℕ) (m m' : Manager D) : Type 0 where
    pub own :
        (l : List ℕ)
        → find packet.domain m.container ≡ some l
        → (removed : List ℕ) × IsSplit
            (λ d. answer d == 1)
            l
            (list_of (find packet.domain m'.container))
            removed
    pub absent :
        find packet.domain m.container ≡ none
        → (m'.container ≡ m.container) × (m'.devices ≡ m.devices) × (m'.outbox ≡ m.outbox)
    pub others : (j : ℕ) → j ≢ packet.domain → find j m'.container ≡ find j m.container
    pub same_flag : m'.request_thread_flag ≡ m.request_thread_flag

  module _ (packet : TalkPacket) (answer : ℕ → ℕ)
      (answers : (s : D) (d : ℕ) → (take s d packet).result ≡ answer d)
      (remote : (s : D) (d : ℕ) → AreRemote (take s d packet).posted) where
    abbrev action : D × Option (List TalkPacket) → ℕ → Bool × (D × Option (List TalkPacket))
    action = packet_delivery_action pool_controlled take packet

    Boxed : D × Option (List TalkPacket) → Type 0
    Boxed s = (box : List TalkPacket) × (s.1 ≡ some box)

    action-Boxed : (s : D × Option (List TalkPacket)) (d : ℕ) → Boxed s → Boxed (action s d).1
    unfolding packet_delivery_action Boxed
    action-Boxed s d (box, e) =
        rw e (post_within-remote (take s.0 d packet).posted box (remote s.0 d))

    wanted : ℕ → Bool
    wanted d = answer d == 1

    action-acts : action ≡ acts pool_controlled wanted (λ s d. (action s d).1)
    unfolding packet_delivery_action wanted
    action-acts = λ i. λ s d. (answers s.0 d i == 1, (action s d).1)

    -- `for_each` over the list of a domain
    for_each-wanted :
        (l : List ℕ) (s : D × Option (List TalkPacket))
        → Yields
            (λ r. (removed : List ℕ) × IsSplit (λ d. answer d == 1) l r.0 removed)
            (for_each pool_controlled action l s)
    unfolding wanted
    for_each-wanted l s =
        rw action-acts (for_each-IsSplit pool_controlled wanted (λ s d. (action s d).1) l s)

    delivered :
        (m : Manager D) (r : ElementMap × (D × Option (List TalkPacket)) × List ℕ)
        (box : List TalkPacket)
        → IsRunOn pool_controlled action packet.domain m.container (m.devices, some m.outbox) r
        → r.1.1 ≡ some box
        → IsDelivered packet answer m (record m {
          container = r.0;
          devices = r.1.0;
          outbox = box;
          destroyed = m.destroyed ++ r.2;
        })
    delivered m r box run e = record {
      own = λ l h. Yields-some (rw (run.own l h) at (for_each-wanted l (m.devices, some m.outbox)));
      absent = λ h.
          let same = run.absent h in
          let boxes : some box ≡ some m.outbox = sym e ∙ ap (λ r. r.1.1) same in
          (ap (λ r. r.0) same, ap (λ r. r.1.0) same, some_inj boxes);
      others = run.others;
      same_flag = refl;
    }

    -- Where the devices' answers to a packet for one domain, not for all, do not depend on their state, and
    -- none of them posts a packet for other devices when it takes it, deliver_response returns. Of the
    -- devices of that domain it loses none but those that answer 1, and if one of them at most answers 1, it
    -- removes that one; the devices of the other domains stay.
    pub deliver_response-IsDelivered :
        (m : Manager D)
        → packet.domain ≢ domain_common
        → Yields (IsDelivered packet answer m) (deliver_response pool_controlled take packet m)
    unfolding deliver_response Boxed
    deliver_response-IsDelivered m ne =
        let one : packet.domain == domain_common ≡ false = ground arith in
        let start : D × Option (List TalkPacket) = (m.devices, some m.outbox) in
        rw one (
          Yields-bind
            (Yields-both
              (for_each_in-IsRunOn pool_controlled action packet.domain m.container start)
              (for_each_in-keeps pool_controlled action Boxed action-Boxed packet.domain m.container
                start (m.outbox, refl)))
            λ r (run, (box, e)). rw e (yields (delivered m r box run e)))

  module _ (quiet : (s : D) (d : ℕ) (p : TalkPacket) → (take s d p).posted ≡ []) where
    -- where the devices post nothing, a delivery leaves the outbox alone
    pub deliver_response-quiet :
        (packet : TalkPacket) (m : Manager D)
        → Yields
            (λ m'. (m'.outbox ≡ m.outbox) × (m'.request_thread_flag ≡ m.request_thread_flag))
            (deliver_response pool_controlled take packet m)
    unfolding deliver_response packet_delivery_action post_within
    deliver_response-quiet packet m = elim (Bool-cases (packet.domain == domain_common)) [
      | inl e ↦ rw e (
          Yields-bind
            (for_each_all-total pool_controlled action P keeps m.container
              (m.devices, some m.outbox) refl)
            λ r u. rw u (yields (refl, refl)))
      | inr e ↦ rw e (
          Yields-bind
            (for_each_in-keeps pool_controlled action P keeps packet.domain m.container
              (m.devices, some m.outbox) refl)
            λ r u. rw u (yields (refl, refl)))
    ]
      where
        action : D × Option (List TalkPacket) → ℕ → Bool × (D × Option (List TalkPacket))
        action = packet_delivery_action pool_controlled take packet

        P : D × Option (List TalkPacket) → Type 0
        P s = s.1 ≡ some m.outbox

        keeps : (s : D × Option (List TalkPacket)) (e : ℕ) → P s → P (action s e).1
        keeps s e q = rw (quiet s.0 e packet) q
