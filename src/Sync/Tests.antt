-- ===== src/Sync/Tests.antt =====
-- Runs of a semaphore and of a barrier, with the theorems at the states that they reach.
use crs.Base.{◌+◌, ◌≤◌, ◌<◌, ◌≡◌, refl, arith}
use crs.Sync.Semaphore
use crs.Sync.Semaphore.{Semaphore, IsBalanced, Reach-IsBalanced, no_lost_wakeup, post_many_strands}
use crs.Sync.Barrier
use crs.Sync.Barrier.{Barrier, none_leaves_early, release_all}

-- two threads wait, and two units are posted one by one
abbrev woken_up : Semaphore
woken_up = Semaphore.post 1 (Semaphore.enter (Semaphore.enter (Semaphore.init 0)))

woken_up-Reach : Semaphore.Reach 1 0 woken_up
woken_up-Reach =
    Semaphore.next
      (Semaphore.next (Semaphore.next Semaphore.start Semaphore.enters) Semaphore.enters)
      (Semaphore.posts 1 (omega arith))

woken_up-state : woken_up ≡ record { counter = 1; blocked = 1; woken = 1; posted = 1; passed = 0 }
unfolding Semaphore.post Semaphore.enter Semaphore.init Semaphore.notify_one Semaphore.increment
woken_up-state = refl

Reach-IsBalanced_example : IsBalanced 0 woken_up
Reach-IsBalanced_example = Reach-IsBalanced (omega arith) woken_up-Reach

no_lost_wakeup_example : 0 < woken_up.woken
unfolding Semaphore.post Semaphore.enter Semaphore.init Semaphore.notify_one Semaphore.increment
no_lost_wakeup_example = no_lost_wakeup (omega arith) woken_up-Reach (omega arith) (omega arith)

abbrev sleepers : Semaphore
sleepers = record { counter = 0; blocked = 3; woken = 0; posted = 0; passed = 0 }

post_many_strands_run :
    let t = Semaphore.resume (Semaphore.post 3 sleepers) in
    (t.counter ≡ 2) × (0 < t.counter) × (t.blocked ≡ 2) × (t.woken ≡ 0)
post_many_strands_run =
    post_many_strands sleepers 3 1 refl refl (omega arith) (omega arith) (omega arith)

abbrev met : Barrier
met = Barrier.wait (Barrier.wait (Barrier.init 2))

met-Reach : Barrier.Reach 2 met
met-Reach = Barrier.next (Barrier.next Barrier.start Barrier.waits) Barrier.waits

met-state : met ≡ record { counter = 0; blocked = 0; woken = 1; arrived = 2; left = 1; gave_up = 0 }
unfolding Barrier.wait Barrier.init Barrier.notify_all
met-state = refl

none_leaves_early_example : 2 ≤ met.arrived
unfolding Barrier.wait Barrier.init Barrier.notify_all
none_leaves_early_example = none_leaves_early met-Reach (omega arith)

release_all_example :
    let t = Barrier.resume_times met.woken met in
    (t.blocked ≡ 0)
    × (t.woken ≡ 0)
    × (t.left + t.gave_up ≡ met.arrived)
    × (Barrier.wait t ≡ record t { arrived = t.arrived + 1; left = t.left + 1 })
unfolding Barrier.wait Barrier.init Barrier.notify_all
release_all_example = release_all met-Reach (omega arith)
