-- ===== src/Sync/Barrier.antt =====
-- crs/barrier.cpp and crs/barrier.h: class barrier.
-- A call of `wait`, `wait_for` or `wait_until` is blocked or woken as in the semaphore. `arrived`,
-- `left` and `gave_up` record the history: the calls, those that returned, and those that timed out.
use crs.Base.{ℕ, zero, suc, ◌+◌, ◌-◌, ◌≤◌, ◌<◌, ◌≡◌, Bool, true, false, arith, ◌==◌, if◌then◌else◌}

pub record Barrier : Type 0 where
  pub counter : ℕ
  pub blocked : ℕ
  pub woken : ℕ
  pub arrived : ℕ
  pub left : ℕ
  pub gave_up : ℕ

unfoldable pub init : ℕ → Barrier
init cnt = record { counter = cnt; blocked = 0; woken = 0; arrived = 0; left = 0; gave_up = 0 }

unfoldable pub notify_all : Barrier → Barrier
notify_all s = record s { blocked = 0; woken = s.woken + s.blocked }

-- a call up to its return or its sleep
unfoldable pub wait : Barrier → Barrier
wait s =
    if s.counter == 0
    then record s { arrived = s.arrived + 1; left = s.left + 1 }
    else if s.counter - 1 == 0
    then notify_all
        (record s { counter = s.counter - 1; arrived = s.arrived + 1; left = s.left + 1 })
    else record s { counter = s.counter - 1; arrived = s.arrived + 1; blocked = s.blocked + 1 }

-- a woken thread tests the predicate, and returns or sleeps again
unfoldable pub resume : Barrier → Barrier
resume s =
    if s.counter == 0
    then record s { woken = s.woken - 1; left = s.left + 1 }
    else record s { woken = s.woken - 1; blocked = s.blocked + 1 }

-- the time of a blocked `wait_for` or `wait_until` is up: it returns the value of the predicate
pub time_out : Barrier → Bool × Barrier
time_out s =
    if s.counter == 0
    then (true, record s { blocked = s.blocked - 1; left = s.left + 1 })
    else (false, record s { blocked = s.blocked - 1; gave_up = s.gave_up + 1 })

pub data Step (s : Barrier) : Barrier → Type 0 where
  waits : Step s (wait s)
  resumes : 0 < s.woken → Step s (resume s)
  spurious : 0 < s.blocked → Step s (record s { blocked = s.blocked - 1; woken = s.woken + 1 })
  times_out : 0 < s.blocked → Step s (time_out s).1

pub data Reach (cnt : ℕ) : Barrier → Type 0 where
  start : Reach cnt (init cnt)
  next : {s t : Barrier} → Reach cnt s → Step s t → Reach cnt t

pub record IsValid (cnt : ℕ) (s : Barrier) : Type 0 where
  -- the counter is what is missing of `cnt` arrivals
  pub counted : s.counter ≡ cnt - s.arrived
  -- every call has ended, or is in one of the two places
  pub accounted : s.blocked + s.woken + s.left + s.gave_up ≡ s.arrived
  -- none has returned from a closed barrier
  pub closed : 0 < s.counter → s.left ≡ 0
  -- none sleeps at an open one
  pub opened : s.counter ≡ 0 → s.blocked ≡ 0

Step-IsValid : {cnt : ℕ} {s t : Barrier} → Step s t → IsValid cnt s → IsValid cnt t
unfolding wait notify_all resume time_out
Step-IsValid waits v = ground arith
Step-IsValid (resumes h) v = ground arith
Step-IsValid (spurious h) v = ground arith
Step-IsValid (times_out h) v = ground arith

pub Reach-IsValid : {cnt : ℕ} {s : Barrier} → Reach cnt s → IsValid cnt s
unfolding init
Reach-IsValid start = omega arith
Reach-IsValid (next r st) = Step-IsValid st (Reach-IsValid r)

-- In a reachable state in which a call of the barrier has returned, other than by its time-out,
-- at least as many calls were made as the barrier counts.
pub none_leaves_early : {cnt : ℕ} {s : Barrier} → Reach cnt s → 0 < s.left → cnt ≤ s.arrived
none_leaves_early r h = let v = Reach-IsValid r in ground arith

-- the woken threads run one after the other
unfoldable pub resume_times : ℕ → Barrier → Barrier
resume_times zero s = s
resume_times (suc k) s = resume_times k (resume s)

resume_times-open :
    (k : ℕ) (s : Barrier)
    → s.counter ≡ 0
    → k ≤ s.woken
    → resume_times k s ≡ record s { woken = s.woken - k; left = s.left + k }
unfolding resume_times resume
resume_times-open zero s c h = ground arith
resume_times-open (suc k) s c h = ground (arith, resume_times-open k (resume s))

-- In a reachable state with as many calls as the barrier counts, once the woken threads have run
-- nobody is blocked or woken, every call has returned but those that timed out before, and a
-- further call returns at once.
pub release_all :
    {cnt : ℕ} {s : Barrier}
    → Reach cnt s
    → cnt ≤ s.arrived
    → let t = resume_times s.woken s in
      (t.blocked ≡ 0)
      × (t.woken ≡ 0)
      × (t.left + t.gave_up ≡ s.arrived)
      × (wait t ≡ record t { arrived = t.arrived + 1; left = t.left + 1 })
unfolding wait
release_all {s} r h =
    let v = Reach-IsValid r in
    let open_now : s.counter ≡ 0 = omega (arith, v.counted) in
    ground (arith, resume_times-open s.woken s open_now)
