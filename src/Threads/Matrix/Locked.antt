-- ===== src/Threads/Matrix/Locked.antt =====
-- Lab3/2/2_2.c: two threads that each add half of every sum, under a pthread spin lock.
pub mod Product
pub mod Finish
use fall_oslab.Base.{
  ℕ, zero, suc, ◌+◌, ◌*◌, ◌/◌, ◌%◌, ◌^◌, ◌≤◌, ◌<◌, ◌≡◌, refl, sym, ap, ◌∙◌, Option, none, some,
  Bool, true, false, arith, ltb, ◌⊎◌, inl, inr, add32, if◌then◌else◌,
}
use fall_oslab.Threads.Lock.{SpinLock}
use fall_oslab.Threads.Matrix.{Matrix, matrix_row_x, matrix_row_y, Bounds, LoopPc, for_i, loop}

-- Where a thread stands: at pthread_spin_lock, in its loops, at pthread_spin_unlock, at its end.
pub data Thread : Type 0 where
  locking : Thread
  looping : LoopPc → Thread
  unlocking : Thread
  returned : Thread

-- The loops of thread1 and of thread2.
abbrev pub bounds1 : Bounds
bounds1 = record {
  row_from = 0;
  row_to = matrix_row_x;
  matrix_col_y = 4;
  inner_from = 0;
  inner_to = matrix_row_y / 2;
}

abbrev pub bounds2 : Bounds
bounds2 = record {
  row_from = 0;
  row_to = matrix_row_x;
  matrix_col_y = 4;
  inner_from = matrix_row_y / 2;
  inner_to = matrix_row_y;
}

module _ {L : Type 0} (spin : SpinLock L) where
  pub record Shared : Type 0 where
    pub lock : L
    pub z : Matrix

  -- The next action of a thread; `none` if it has returned, or waits for the lock.
  unfoldable pub thread : (b : Bounds) (x y : Matrix) → Thread → Shared → Option (Thread × Shared)
  thread b x y locking m = elim (spin.lock m.lock) [
    | none ↦ none
    | some l ↦ some (looping (for_i b.row_from), record m { lock = l })
  ]
  thread b x y (looping p) m = elim (loop b x y p m.z) [
    | none ↦ some (unlocking, m)
    | some q ↦ some (looping q.0, record m { z = q.1 })
  ]
  thread b x y unlocking m = some (returned, record m { lock = spin.unlock m.lock })
  thread b x y returned m = none

  pub record Process : Type 0 where
    pub t1 : Thread
    pub t2 : Thread
    pub shared : Shared

  -- The threads interleave in any order.
  pub data Step (x y : Matrix) (w : Process) : Process → Type 0 where
    by_thread1 :
        (t : Thread) (m : Shared)
        → thread bounds1 x y w.t1 w.shared ≡ some (t, m)
        → Step x y w (record { t1 = t; t2 = w.t2; shared = m })
    by_thread2 :
        (t : Thread) (m : Shared)
        → thread bounds2 x y w.t2 w.shared ≡ some (t, m)
        → Step x y w (record { t1 = w.t1; t2 = t; shared = m })

  -- The process when main has created both threads; z is as malloc gave it.
  abbrev pub created : Matrix → Process
  created z = record { t1 = locking; t2 = locking; shared = record { lock = spin.init; z = z } }
