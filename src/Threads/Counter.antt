-- ===== src/Threads/Counter.antt =====
-- Lab3/1/1_1/1_1.c: two threads that count under a pthread spin lock.
pub mod Actions
pub mod Finish
use fall_oslab.Base.{ℕ, ◌+◌, ◌≡◌, Option, none, some, ltb, if◌then◌else◌, add32}
use fall_oslab.Threads.Lock.{SpinLock}

-- Where a thread stands: at pthread_spin_lock, at the loop's test, in front of the load and of the store
-- of a = a + 1, at pthread_spin_unlock, at its end.
pub data Thread : Type 0 where
  locking : Thread
  looping loading : (i : ℕ) → Thread
  storing : (i value : ℕ) → Thread
  unlocking returned : Thread

module _ {L : Type 0} (spin : SpinLock L) where
  pub record Shared : Type 0 where
    pub lock : L
    pub a : ℕ

  -- The next action of a thread; `none` if it has returned, or waits for the lock.
  unfoldable pub thread : Thread → Shared → Option (Thread × Shared)
  thread locking m = elim (spin.lock m.lock) [
    | none ↦ none
    | some l ↦ some (looping 0, record m { lock = l })
  ]
  thread (looping i) m = some (if ltb i 10000 then loading i else unlocking, m)
  thread (loading i) m = some (storing i m.a, m)
  thread (storing i value) m = some (looping (i + 1), record m { a = add32 value 1 })
  thread unlocking m = some (returned, record m { lock = spin.unlock m.lock })
  thread returned m = none

  pub record Process : Type 0 where
    pub t1 : Thread
    pub t2 : Thread
    pub shared : Shared

  -- The threads interleave in any order.
  pub data Step (w : Process) : Process → Type 0 where
    by_thread1 :
        (t : Thread) (m : Shared)
        → thread w.t1 w.shared ≡ some (t, m)
        → Step w (record { t1 = t; t2 = w.t2; shared = m })
    by_thread2 :
        (t : Thread) (m : Shared)
        → thread w.t2 w.shared ≡ some (t, m)
        → Step w (record { t1 = w.t1; t2 = t; shared = m })

  -- The process when main has created both threads.
  abbrev pub created : Process
  created = record { t1 = locking; t2 = locking; shared = record { lock = spin.init; a = 0 } }
