-- ===== src/Threads/Lock.antt =====
-- Lab3: the spin lock of the pthread library, which 1_1.c and 2_2.c take.
use fall_oslab.Base.{◌≡◌, Option, none, some, Bool, true, false}

-- pthread_spin_init, one attempt of pthread_spin_lock, and pthread_spin_unlock, on a lock's state.
pub record SpinLock (L : Type 0) : Type 0 where
  pub init : L
  pub lock : L → Option L
  pub unlock : L → L

-- What their manual pages say: a lock is free at first and when it has been unlocked, and an attempt
-- takes it if it is free.
pub record IsSpinLock {L : Type 0} (spin : SpinLock L) : Type 0 where
  pub is_locked : L → Bool
  pub init_free : is_locked spin.init ≡ false
  pub lock_waits : (l : L) → spin.lock l ≡ none → is_locked l ≡ true
  pub lock_takes :
      (l l' : L) → spin.lock l ≡ some l' → (is_locked l ≡ false) × (is_locked l' ≡ true)
  pub unlock_frees : (l : L) → is_locked (spin.unlock l) ≡ false
