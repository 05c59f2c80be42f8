-- ===== src/Threads/Spin.antt =====
-- Lab3/1/1_2/1_2.c: two threads that count under a lock in assembler, an instruction at a time.
pub mod Count
pub mod Finish
use fall_oslab.Base.{
  ℕ, zero, suc, ◌+◌, ◌*◌, ◌≤◌, ◌<◌, ◌≡◌, refl, sym, Option, none, some, Bool, true, false, arith,
  ltb, ◌==◌, if◌then◌else◌, add32,
}

-- Where a thread stands, with its i and the registers that it will read: at the test of the for
-- loop; at the mov, the xchg, and the test with its jump in spin_lock; at the load and the store of
-- a = a + 1; at the mov and the xchg in spin_unlock; behind the loop.
pub data Thread : Type 0 where
  for_test : (i : ℕ) → Thread
  lock_mov : (i : ℕ) → Thread
  lock_xchg : (i eax : ℕ) → Thread
  lock_test : (i eax : ℕ) → Thread
  load_a : (i : ℕ) → Thread
  store_a : (i value : ℕ) → Thread
  unlock_mov : (i : ℕ) → Thread
  unlock_xchg : (i eax : ℕ) → Thread
  returned : Thread

pub record Shared : Type 0 where
  pub a : ℕ
  pub lock : ℕ

-- The number of rounds of each thread.
abbrev pub rounds : ℕ
rounds = 10000

-- LOCK, and UNLOCK, the lock's first value
abbrev pub locked : ℕ
locked = 0

abbrev pub unlocked : ℕ
unlocked = 1

-- The next instruction of a thread; `none` if it has returned.
unfoldable pub thread : Thread → Shared → Option (Thread × Shared)
thread (for_test i) m = some (if ltb i rounds then lock_mov i else returned, m)
thread (lock_mov i) m = some (lock_xchg i locked, m)
thread (lock_xchg i eax) m = some (lock_test i m.lock, record m { lock = eax })
thread (lock_test i eax) m = some (if eax == 0 then lock_mov i else load_a i, m)
thread (load_a i) m = some (store_a i m.a, m)
thread (store_a i value) m = some (unlock_mov i, record m { a = add32 value 1 })
thread (unlock_mov i) m = some (unlock_xchg i unlocked, m)
thread (unlock_xchg i eax) m = some (for_test (i + 1), record m { lock = eax })
thread returned m = none

-- Both threads and what they share.
pub record Process : Type 0 where
  pub t1 : Thread
  pub t2 : Thread
  pub shared : Shared

-- The threads interleave in any order.
pub data Step (w : Process) : Process → Type 0 where
  by_t1 :
      (t : Thread) (m : Shared)
      → thread w.t1 w.shared ≡ some (t, m)
      → Step w (record { t1 = t; t2 = w.t2; shared = m })
  by_t2 :
      (t : Thread) (m : Shared)
      → thread w.t2 w.shared ≡ some (t, m)
      → Step w (record { t1 = w.t1; t2 = t; shared = m })

-- The process when main has created both threads.
abbrev pub created : Process
created = record { t1 = for_test 0; t2 = for_test 0; shared = record { a = 0; lock = unlocked } }
