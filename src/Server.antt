-- ===== src/Server.antt =====
-- crs/ude/server.cpp and crs/ude/server.h: class device_manager, which keeps the devices of each
-- domain in an element_map and the packets to send in an outbox.
-- What a device does with a packet is its own code: `take` gives the result of the call, the
-- packets that the device posts in it, and the state of the devices afterwards.
pub mod Outbox
pub mod Delivery
pub mod Job
pub mod Stub
mod Tests
use crs.Base.{
  ℕ, zero, suc, ◌/◌, ◌%◌, ◌^◌, Bool, true, false, not, List, [], ◌∷◌, ◌++◌, Option, none, some,
  ◌==◌, ◌&&◌, if◌then◌else◌, ◌>>=◌, get_or,
}
use crs.Elements.{Action}
use crs.Elements.Domains.{ElementMap, map_add, remove_in, for_each_in, for_each_all}

-- `cPacketHeader`, and the contents in words
pub record TalkPacket : Type 0 where
  pub id : ℕ
  pub domain : ℕ
  pub recepient : ℕ
  pub words : List ℕ

-- the numbers of the bits `idLocal`, `idDTD` and `idFast`
abbrev pub id_local : ℕ
id_local = 15

abbrev pub id_dtd : ℕ
id_dtd = 10

abbrev pub id_fast : ℕ
id_fast = 8

-- `id_check_bits`, for the mask with these bits
pub id_check_bits : TalkPacket → List ℕ → Bool
id_check_bits p [] = true
id_check_bits p (bit ∷ mask) = (((p.id / 2 ^ bit) % 2) == 1) && id_check_bits p mask

abbrev pub domain_common : ℕ
domain_common = 0xffff

abbrev pub domain_stat : ℕ
domain_stat = 0x8004

abbrev pub domain_sdevman : ℕ
domain_sdevman = 0x8008

abbrev pub rcp_thread : ℕ
rcp_thread = 0xfead

pub record Manager (D : Type 0) : Type 0 where
  pub container : ElementMap
  pub outbox : List TalkPacket
  pub request_thread_flag : Bool
  pub devices : D
  -- the devices that the pool has destroyed
  pub destroyed : List ℕ

-- `_post`, on the outbox
pub post : TalkPacket → List TalkPacket → List TalkPacket
post packet outbox =
    if id_check_bits packet (id_fast ∷ []) then packet ∷ outbox else outbox ++ packet ∷ []

pub post_all : List TalkPacket → List TalkPacket → List TalkPacket
post_all [] outbox = outbox
post_all (packet ∷ packets) outbox = post_all packets (post packet outbox)

-- `postPacket` of these packets from within `take`, whose caller holds the mutex of the devices: a
-- packet for other devices is to be delivered at once, and waits for that mutex for ever, which is none.
pub post_within : List TalkPacket → Option (List TalkPacket) → Option (List TalkPacket)
post_within [] outbox = outbox
post_within (packet ∷ packets) outbox =
    let posted = post_within packets (outbox >>= λ box. some (post packet box)) in
    if id_check_bits packet (id_local ∷ id_dtd ∷ []) then none else posted

-- what a call of `take` gives
pub record Taken (D : Type 0) : Type 0 where
  pub result : ℕ
  pub posted : List TalkPacket
  pub devices : D

-- how `_send` ends: it returns, or throws one of the two exceptions
pub data Sending : Type 0 where
  sent : Sending
  terminate_request_thread : Sending
  range_error : Sending

-- how `proceed_request` ends: it returns true or false, or it throws
pub data Progress : Type 0 where
  more : Progress
  idle : Progress
  ended : Progress
  failed : Progress

pub progress_of : Sending → List TalkPacket → Progress
progress_of sent [] = idle
progress_of sent (p ∷ outbox) = more
progress_of terminate_request_thread outbox = ended
progress_of range_error outbox = failed

-- `word (0) == 0x0001`, which throws if the packet has no word
pub order_of : List ℕ → Sending
order_of [] = range_error
order_of (w ∷ words) = if w == 1 then terminate_request_thread else sent

-- what the destructor posts
pub terminate_packet : TalkPacket
terminate_packet = record {
  id = 0x8100;
  domain = domain_sdevman;
  recepient = rcp_thread;
  words = 1 ∷ [];
}

module _ {D : Type 0} where
  pub mark_request_thread_start : Manager D → Manager D
  mark_request_thread_start m = record m { request_thread_flag = false }

  pub notify_request_thread_termination : Manager D → Manager D
  notify_request_thread_termination m = record m { request_thread_flag = true }

  pub post_termination : Manager D → Manager D
  post_termination m = record m { outbox = post terminate_packet m.outbox }

module _ {D : Type 0} (pool_controlled : ℕ → Bool) (take : D → ℕ → TalkPacket → Taken D) where
  pub register_device : ℕ → ℕ → Manager D → Bool × Manager D
  register_device domain dev m =
      if not (dev == 0)
      then (true, record m { container = map_add domain dev m.container })
      else (false, m)

  pub unregister_device : ℕ → ℕ → Manager D → Option (Bool × Manager D)
  unregister_device domain dev m =
      let drop_it : Option (Bool × Manager D) = do
        (container, gone) ← remove_in pool_controlled domain dev m.container
        some (true, record m { container = container; destroyed = m.destroyed ++ gone })
      in if not (dev == 0) then drop_it else some (false, m)

  -- `packet_delivery_action`; its state is the devices' and the outbox, none where `take` does not
  -- return
  pub packet_delivery_action : TalkPacket → Action (D × Option (List TalkPacket))
  packet_delivery_action packet (devices, outbox) d =
      let t = take devices d packet in (t.result == 1, (t.devices, post_within t.posted outbox))

  pub deliver_response : TalkPacket → Manager D → Option (Manager D)
  deliver_response packet m =
      let action = packet_delivery_action packet in
      let start : D × Option (List TalkPacket) = (m.devices, some m.outbox) in
      let all = for_each_all pool_controlled action m.container start in
      let own = for_each_in pool_controlled action packet.domain m.container start in
      (if packet.domain == domain_common then all else own)
      >>= λ (container, (devices, outbox), gone). outbox >>= λ box. some (record m {
        container = container;
        devices = devices;
        outbox = box;
        destroyed = m.destroyed ++ gone;
      })

  pub send : TalkPacket → Manager D → Option (Sending × Manager D)
  send packet m =
      let from_ping_tool : Option (Sending × Manager D) = do
        m' ← deliver_response packet m
        some (sent, m')
      in let for_thread : Sending × Manager D =
          (if id_check_bits packet (id_local ∷ []) then order_of packet.words else sent, m) in
        if packet.domain == domain_stat
        then if packet.recepient == 1 then from_ping_tool else some (sent, m)
        else if packet.domain == domain_sdevman
        then if packet.recepient == rcp_thread then some for_thread else some (sent, m)
        else some (sent, m)

  pub register_request : TalkPacket → Manager D → Option (Manager D)
  register_request packet m =
      if id_check_bits packet (id_local ∷ id_dtd ∷ [])
      then deliver_response packet m
      else some (record m { outbox = post packet m.outbox })

  -- `proceed_request` with the outbox that it finds
  pub proceed_front : List TalkPacket → Manager D → Option (Progress × Manager D)
  proceed_front [] m = some (idle, m)
  proceed_front (packet ∷ outbox) m = do
    (result, m') ← send packet (record m { outbox = outbox })
    some (progress_of result m'.outbox, m')

  pub proceed_request : Manager D → Option (Progress × Manager D)
  proceed_request m = proceed_front m.outbox m

  -- `_recv` fills a packet or not.
  pub proceed_response : Option TalkPacket → Manager D → Option (Bool × Manager D)
  proceed_response none m = some (false, m)
  proceed_response (some packet) m = do m' ← deliver_response packet m; some (true, m')

  -- The loop of `proceed_request_job` up to its end or to a wait for a packet.
  pub request_loop : ℕ → Manager D → Option (Progress × Manager D)
  request_loop zero m = none
  request_loop (suc k) m = proceed_request m >>= λ (progress, m'). elim progress [
    | more ↦ request_loop k m'
    | idle ↦ some (idle, m')
    | failed ↦ some (failed, m')
    | ended ↦ some (ended, notify_request_thread_termination m')
  ]
