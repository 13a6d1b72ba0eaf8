-- ===== src/Server/Tests.antt =====
-- A manager with two devices that count the packets they take.
use crs.Base.{
  ℕ, ◌+◌, ◌≡◌, ◌≢◌, refl, Bool, true, false, [], ◌∷◌, ◌++◌, some, none, arith, Yields, swap,
}
use crs.Elements.{for_each, for_each_loop, destroy_element}
use crs.Elements.Domains.{for_each_in}
use crs.Server.{
  TalkPacket, Manager, Taken, more, idle, ended, deliver_response, packet_delivery_action, post_all,
  post_within, id_check_bits, request_loop, post_termination,
}
use crs.Server.Outbox.{fast_reversed, slow, post_all-order}
use crs.Server.Delivery.{IsDelivered, deliver_response-IsDelivered}
use crs.Server.Job.{request_loop-termination, request_loop-returns}

abbrev on_heap : ℕ → Bool
on_heap d = true

-- a device takes one packet and is satisfied
abbrev take_one : ℕ → ℕ → TalkPacket → Taken ℕ
take_one taken d packet = record { result = 1; posted = []; devices = taken + 1 }

-- a packet for the domain 5, and a fast one
abbrev ordinary : TalkPacket
ordinary = record { id = 1; domain = 5; recepient = 2; words = [] }

abbrev fast : TalkPacket
fast = record { id = 0x100; domain = 0x8004; recepient = 1; words = [] }

abbrev manager : Manager ℕ
manager = record {
  container = (5, 10 ∷ []) ∷ (6, 20 ∷ []) ∷ [];
  outbox = ordinary ∷ fast ∷ [];
  request_thread_flag = false;
  devices = 0;
  destroyed = [];
}

deliver-ordinary :
    deliver_response on_heap take_one ordinary manager
    ≡ some (record manager {
      container = (5, []) ∷ (6, 20 ∷ []) ∷ [];
      devices = 1;
      destroyed = 10 ∷ [];
    })
unfolding deliver_response packet_delivery_action post_within for_each_in for_each for_each_loop
    destroy_element swap
deliver-ordinary = refl

post_all-order_run :
    post_all (ordinary ∷ fast ∷ []) (ordinary ∷ [])
    ≡ fast_reversed (ordinary ∷ fast ∷ []) ++ ((ordinary ∷ []) ++ slow (ordinary ∷ fast ∷ []))
post_all-order_run = post_all-order (ordinary ∷ fast ∷ []) (ordinary ∷ [])

deliver_response-IsDelivered_example :
    Yields
      (IsDelivered on_heap take_one ordinary (λ d. 1) manager)
      (deliver_response on_heap take_one ordinary manager)
deliver_response-IsDelivered_example =
    deliver_response-IsDelivered on_heap take_one ordinary (λ d. 1) (λ s d. refl) (λ s d. tt)
      manager (λ e. omega arith)

-- a device that posts a packet for other devices when it takes one does not return
abbrev take_and_ask : ℕ → ℕ → TalkPacket → Taken ℕ
take_and_ask taken d packet = record {
  result = 2;
  posted = (record ordinary { id = 0x8400 }) ∷ [];
  devices = taken + 1;
}

no_return : deliver_response on_heap take_and_ask ordinary manager ≡ none
unfolding deliver_response packet_delivery_action post_within id_check_bits for_each_in for_each
    for_each_loop destroy_element swap
no_return = refl

request_loop-termination_run :
    request_loop on_heap take_one 1 (post_termination manager)
    ≡ some (ended, record manager { request_thread_flag = true })
request_loop-termination_run = request_loop-termination on_heap take_one 0 manager

request_loop-returns_example :
    Yields
      (λ r. (r.0 ≢ more) × (r.0 ≡ idle → r.1.outbox ≡ []))
      (request_loop on_heap take_one 3 manager)
request_loop-returns_example =
    request_loop-returns on_heap take_one (λ s d p. refl) 3 manager (omega arith)
