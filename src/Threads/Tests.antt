-- ===== src/Threads/Tests.antt =====
-- Witnesses for the theorems on Lab3's threads, with the first actions of a run of each program.
use fall_oslab.Base.{
  ℕ, ◌+◌, ◌^◌, ◌≤◌, ◌<◌, ◌≡◌, refl, Option, none, some, Bool, true, false, arith, add32,
}
use fall_oslab.Threads.Steps.{Run, here, next, append}
use fall_oslab.Threads.Spin
use fall_oslab.Threads.Spin.{thread, returned, by_t1, by_t2}
use fall_oslab.Threads.Spin.Count.{inside, spin_exclusive}
use fall_oslab.Threads.Spin.Finish.{spin_finishes}
use fall_oslab.Threads.Lock.{SpinLock, IsSpinLock}
use fall_oslab.Threads.Counter
use fall_oslab.Threads.Counter.Finish.{count_finishes}
use fall_oslab.Threads.Counter.Actions.{holding}
use fall_oslab.Threads.Matrix.{Matrix, matrix_row_x, loop, product}
use fall_oslab.Threads.Matrix.Rows
use fall_oslab.Threads.Matrix.Rows.Finish.{rows_finish}
use fall_oslab.Threads.Matrix.Locked
use fall_oslab.Threads.Matrix.Locked.Finish.{locked_finish}
use fall_oslab.Threads.Matrix.Single.{write_rows, single_thread, locked-single}

-- Thread 1 has taken the lock, and thread 2 has found it taken.
spin_run : (w : Spin.Process) × Run Spin.Step Spin.created w
unfolding thread
spin_run = (
  _,
  next
      (next
        (next (next (next (next here (by_t1 _ _ refl)) (by_t1 _ _ refl)) (by_t2 _ _ refl))
          (by_t1 _ _ refl))
        (by_t2 _ _ refl))
      (by_t2 _ _ refl),
)

spin_exclusive_example : inside spin_run.0.t1 + inside spin_run.0.t2 ≤ 1
spin_exclusive_example = spin_exclusive spin_run.1

spin_finishes_example :
    (w : Spin.Process) × Run Spin.Step spin_run.0 w
    × (w.t1 ≡ returned)
    × (w.t2 ≡ returned)
    × (w.shared.a ≡ 20000)
spin_finishes_example = spin_finishes spin_run.1

try_lock : Bool → Option Bool
try_lock true = none
try_lock false = some true

abbrev spin : SpinLock Bool
spin = record { init = false; lock = try_lock; unlock = λ l. false }

try_lock-waits : (l : Bool) → try_lock l ≡ none → l ≡ true
unfolding try_lock
try_lock-waits true e = refl
try_lock-waits false e = ground arith

try_lock-takes : (l l' : Bool) → try_lock l ≡ some l' → (l ≡ false) × (l' ≡ true)
unfolding try_lock
try_lock-takes true l' e = ground arith
try_lock-takes false true e = (refl, refl)
try_lock-takes false false e = ground arith

spin-IsSpinLock : IsSpinLock spin
spin-IsSpinLock = record {
  is_locked = λ l. l;
  init_free = refl;
  lock_waits = try_lock-waits;
  lock_takes = try_lock-takes;
  unlock_frees = λ l. refl;
}

abbrev x : Matrix
x i k = i + k

abbrev y : Matrix
y k j = k + 2 ^ 31

abbrev zeros : Matrix
zeros i j = 0

-- Each thread has come to the store of an element.
rows_run : (w : Rows.Process) × Run (Rows.Step 4 x y) (Rows.created zeros) w
unfolding loop
rows_run = (
  _,
  next
      (next
        (next
          (next
            (next
              (next (next (next here (Rows.by_thread1 _ _ refl)) (Rows.by_thread2 _ _ refl))
                (Rows.by_thread2 _ _ refl))
              (Rows.by_thread1 _ _ refl))
            (Rows.by_thread1 _ _ refl))
          (Rows.by_thread2 _ _ refl))
        (Rows.by_thread2 _ _ refl))
      (Rows.by_thread1 _ _ refl),
)

rows_finish_example :
    (w : Rows.Process) × Run (Rows.Step 4 x y) rows_run.0 w
    × Rows.Ended 4 x y w
    × ((p q : ℕ) → p < matrix_row_x → q < 4 → w.z p q ≡ add32 0 (product x y p q))
rows_finish_example = rows_finish 4 x y zeros (λ p q. omega arith) rows_run.1

-- Thread 2 has taken the lock first.
locked_run : (w : Locked.Process spin) × Run (Locked.Step spin x y) (Locked.created spin zeros) w
unfolding Locked.thread loop try_lock
locked_run = (
  _,
  next (next (next here (Locked.by_thread2 _ _ refl)) (Locked.by_thread2 _ _ refl))
      (Locked.by_thread2 _ _ refl),
)

locked_finish_example :
    (w : Locked.Process spin) × Run (Locked.Step spin x y) locked_run.0 w
    × (w.t1 ≡ Locked.returned)
    × (w.t2 ≡ Locked.returned)
    × ((p q : ℕ) → p < matrix_row_x → q < 4 → w.shared.z p q ≡ add32 0 (product x y p q))
locked_finish_example =
    locked_finish spin spin-IsSpinLock x y zeros (λ p q. omega arith) locked_run.1

locked-single_example :
    write_rows locked_finish_example.0.shared.z matrix_row_x 0 ≡ single_thread x y
locked-single_example =
    locked-single spin spin-IsSpinLock x y (append locked_run.1 locked_finish_example.1)
      locked_finish_example.2 locked_finish_example.3

-- Thread 2 has taken the lock and loaded a.
count_run : (w : Counter.Process spin) × Run (Counter.Step spin) (Counter.created spin) w
unfolding Counter.thread try_lock
count_run = (
  _,
  next (next (next here (Counter.by_thread2 _ _ refl)) (Counter.by_thread2 _ _ refl))
      (Counter.by_thread2 _ _ refl),
)

count_finishes_example :
    (holding count_run.0.t1 + holding count_run.0.t2 ≤ 1)
    × ((w : Counter.Process spin) × Run (Counter.Step spin) count_run.0 w
        × (w.t1 ≡ Counter.returned)
        × (w.t2 ≡ Counter.returned)
        × (w.shared.a ≡ 20000))
count_finishes_example = count_finishes spin spin-IsSpinLock count_run.1
