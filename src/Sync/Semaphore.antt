-- ===== src/Sync/Semaphore.antt =====
-- crs/semaphore.cpp and crs/semaphore.h: class semaphore.
-- A call of `wait`, `wait_for` or `wait_until` is blocked (asleep on the condition variable) or
-- woken (it will test `0 < _counter` again). `posted` and `passed` record the history: the
-- sum of the arguments of `post`, and how many waits ended with the counter taken down.
use crs.Base.{
  ℕ, ◌+◌, ◌-◌, ◌%◌, ◌^◌, ◌≤◌, ◌<◌, ◌≡◌, Bool, true, false, arith, ltb, ◌==◌, if◌then◌else◌,
}

pub record Semaphore : Type 0 where
  -- an `unsigned int` of 32 bits
  pub counter : ℕ
  pub blocked : ℕ
  pub woken : ℕ
  pub posted : ℕ
  pub passed : ℕ

abbrev pub uint_max : ℕ
uint_max = 2 ^ 32 - 1

unfoldable pub init : ℕ → Semaphore
init cnt = record { counter = cnt; blocked = 0; woken = 0; posted = 0; passed = 0 }

-- `notify_one`, where there is a thread to notify
unfoldable pub notify_one : Semaphore → Semaphore
notify_one s =
    if s.blocked == 0 then s else record s { blocked = s.blocked - 1; woken = s.woken + 1 }

-- what `post` adds: at most what the counter can hold
unfoldable pub increment : ℕ → ℕ → ℕ
increment counter inc = let allowed = uint_max - counter in if ltb inc allowed then inc else allowed

unfoldable pub post : ℕ → Semaphore → Semaphore
post inc s =
    notify_one (record s {
      counter = (s.counter + increment s.counter inc) % 2 ^ 32;
      posted = s.posted + inc;
    })

-- a call of `wait`, `wait_for` or `wait_until` up to its return or its sleep
unfoldable pub enter : Semaphore → Semaphore
enter s =
    if ltb 0 s.counter
    then record s { counter = s.counter - 1; passed = s.passed + 1 }
    else record s { blocked = s.blocked + 1 }

-- a woken thread tests the predicate, and returns or sleeps again
unfoldable pub resume : Semaphore → Semaphore
resume s =
    if ltb 0 s.counter
    then record s { counter = s.counter - 1; woken = s.woken - 1; passed = s.passed + 1 }
    else record s { woken = s.woken - 1; blocked = s.blocked + 1 }

-- the time of a blocked `wait_for` or `wait_until` is up: it returns the value of the predicate
pub time_out : Semaphore → Bool × Semaphore
time_out s =
    if ltb 0 s.counter
    then (
      true,
      record s { counter = s.counter - 1; blocked = s.blocked - 1; passed = s.passed + 1 },
    )
    else (false, record s { blocked = s.blocked - 1 })

-- What can happen next; `inc` bounds the arguments of `post`.
pub data Step (inc : ℕ) (s : Semaphore) : Semaphore → Type 0 where
  posts : (n : ℕ) → n ≤ inc → Step inc s (post n s)
  enters : Step inc s (enter s)
  resumes : 0 < s.woken → Step inc s (resume s)
  spurious : 0 < s.blocked → Step inc s (record s { blocked = s.blocked - 1; woken = s.woken + 1 })
  times_out : 0 < s.blocked → Step inc s (time_out s).1

pub data Reach (inc cnt : ℕ) : Semaphore → Type 0 where
  start : Reach inc cnt (init cnt)
  next : {s t : Semaphore} → Reach inc cnt s → Step inc s t → Reach inc cnt t

-- The counter fits its type. With the waits that passed it makes up what was there and was posted, and no
-- more; where that exceeds what the type holds, it makes up at least the type's maximum.
pub record IsBalanced (cnt : ℕ) (s : Semaphore) : Type 0 where
  pub fits : s.counter ≤ uint_max
  pub bound : s.counter + s.passed ≤ cnt + s.posted
  pub exact : cnt + s.posted ≤ uint_max → s.counter + s.passed ≡ cnt + s.posted
  pub full : uint_max ≤ cnt + s.posted → uint_max ≤ s.counter + s.passed

Step-IsBalanced :
    {inc cnt : ℕ} {s t : Semaphore} → Step inc s t → IsBalanced cnt s → IsBalanced cnt t
unfolding post notify_one increment enter resume time_out
Step-IsBalanced (posts n h) v = ground arith
Step-IsBalanced enters v = ground arith
Step-IsBalanced (resumes h) v = ground arith
Step-IsBalanced (spurious h) v = ground arith
Step-IsBalanced (times_out h) v = ground arith

-- From a counter that fits its type, in every reachable state the counter fits its type. The counter
-- and the waits that passed make up the initial counter and the sum of the arguments of `post`, while
-- this sum fits the type; beyond that they make up the type's maximum at least, and never more than the
-- sum.
pub Reach-IsBalanced :
    {inc cnt : ℕ} {s : Semaphore} → cnt ≤ uint_max → Reach inc cnt s → IsBalanced cnt s
unfolding init
Reach-IsBalanced h start = record {
  fits = h;
  bound = omega arith;
  exact = λ e. omega arith;
  full = λ e. omega arith;
}
Reach-IsBalanced h (next r st) = Step-IsBalanced st (Reach-IsBalanced h r)

-- with single posts, a blocked thread is left only where the counter's units are spoken for
record IsCovered (s : Semaphore) : Type 0 where
  covered : 0 < s.blocked → s.counter ≤ s.woken
  fits : s.counter ≤ uint_max

Step-IsCovered : {s t : Semaphore} → Step 1 s t → IsCovered s → IsCovered t
unfolding post notify_one increment enter resume time_out
Step-IsCovered (posts n h) v = ground arith
Step-IsCovered enters v = ground arith
Step-IsCovered (resumes h) v = ground arith
Step-IsCovered (spurious h) v = ground arith
Step-IsCovered (times_out h) v = ground arith

Reach-IsCovered : {cnt : ℕ} {s : Semaphore} → cnt ≤ uint_max → Reach 1 cnt s → IsCovered s
unfolding init
Reach-IsCovered h start = record { covered = λ b. absurd (omega arith); fits = h }
Reach-IsCovered h (next r st) = Step-IsCovered st (Reach-IsCovered h r)

-- Where every post adds one unit at most, in a reachable state with a positive counter and a
-- blocked thread some thread was woken that has yet to run.
pub no_lost_wakeup :
    {cnt : ℕ} {s : Semaphore}
    → cnt ≤ uint_max
    → Reach 1 cnt s
    → 0 < s.counter
    → 0 < s.blocked
    → 0 < s.woken
no_lost_wakeup h r c b = omega (arith, (Reach-IsCovered h r).covered b)

-- Where at least two threads are blocked and none is woken at a counter of 0, a post of several
-- units wakes one; once it has run, the others stay blocked, no thread is woken, and the counter
-- is positive.
pub post_many_strands :
    (s : Semaphore) (inc b : ℕ)
    → s.counter ≡ 0
    → s.woken ≡ 0
    → s.blocked ≡ b + 2
    → 2 ≤ inc
    → inc ≤ uint_max
    → let t = resume (post inc s) in
      (t.counter ≡ inc - 1) × (0 < t.counter) × (t.blocked ≡ b + 1) × (t.woken ≡ 0)
unfolding post notify_one increment resume
post_many_strands s inc b c w k two small = ground arith
