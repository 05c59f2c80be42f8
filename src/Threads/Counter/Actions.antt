-- ===== src/Threads/Counter/Actions.antt =====
-- Lab3/1/1_1/1_1.c: what one action of a thread does to the count and the lock.
use fall_oslab.Base.{
  ℕ, ◌+◌, ◌-◌, ◌*◌, ◌≤◌, ◌<◌, ◌≡◌, refl, ap, Option, none, some, Bool, true, false, arith, ltb, ◌⊎◌,
  inl, inr, Bool-cases, Option-cases, add32, ltb→lt,
}
use fall_oslab.Threads.Lock.{SpinLock, IsSpinLock}
use fall_oslab.Threads.Counter.{
  Thread, locking, looping, loading, storing, unlocking, returned, Shared, thread,
}

-- What a thread has added to the count.
abbrev pub added : Thread → ℕ
added locking = 0
added (looping i) = i
added (loading i) = i
added (storing i value) = i
added unlocking = 10000
added returned = 10000

-- 1 between lock and unlock
abbrev pub holding : Thread → ℕ
holding locking = 0
holding returned = 0
holding _ = 1

abbrev pub bit : Bool → ℕ
bit false = 0
bit true = 1

pub bit-le : (b : Bool) → bit b ≤ 1
bit-le false = omega arith
bit-le true = omega arith

-- The thread's own variables.
abbrev pub Local : Thread → (a : ℕ) → Type 0
Local (looping i) a = i ≤ 10000
Local (loading i) a = i < 10000
Local (storing i value) a = (i < 10000) × (value ≡ a)
Local _ a = Unit

-- The actions that a thread has left if it never waits.
abbrev pub actions : Thread → ℕ
actions locking = 30003
actions (looping i) = 3 * (10000 - i) + 2
actions (loading i) = 3 * (10000 - i) + 1
actions (storing i value) = 3 * (10000 - i)
actions unlocking = 1
actions returned = 0

added-le : (t : Thread) (a : ℕ) → Local t a → added t ≤ 10000
added-le locking a l = omega arith
added-le (looping i) a l = omega arith
added-le (loading i) a l = omega arith
added-le (storing i value) a l = omega (arith, l.0)
added-le unlocking a l = omega arith
added-le returned a l = omega arith

-- A thread outside of the lock has no variables that a store could outdate.
Local-outside : (t : Thread) (a b : ℕ) → holding t ≡ 0 → Local t a → Local t b
Local-outside locking a b e l = tt
Local-outside (looping i) a b e l = absurd (omega arith)
Local-outside (loading i) a b e l = absurd (omega arith)
Local-outside (storing i value) a b e l = absurd (omega arith)
Local-outside unlocking a b e l = absurd (omega arith)
Local-outside returned a b e l = tt

module _ {L : Type 0} (spin : SpinLock L) (law : IsSpinLock spin) where
  pub record Inv (t u : Thread) (m : Shared spin) : Type 0 where
    pub total : m.a ≡ added t + added u
    pub held : holding t + holding u ≡ bit (law.is_locked m.lock)
    pub local : Local t m.a
    pub local_other : Local u m.a

  pub Inv-swap : (t u : Thread) (m : Shared spin) → Inv t u m → Inv u t m
  Inv-swap t u m v = record {
    total = omega (arith, v.total);
    held = omega (arith, v.held);
    local = v.local_other;
    local_other = v.local;
  }

  -- What an action of t comes to beside u: it has returned or waits, or it comes nearer to its end.
  unfoldable pub Acts : (t u : Thread) (m : Shared spin) → Option (Thread × Shared spin) → Type 0
  Acts t u m none = (t ≡ returned) ⊎ (t ≡ locking) × (law.is_locked m.lock ≡ true)
  Acts t u m (some (t', m')) = Inv t' u m' × (actions t' < actions t)

  alone : (n k : ℕ) (b : Bool) → n + k ≡ bit b → n ≡ 1 → k ≡ 0
  alone n k false e f = omega arith
  alone n k true e f = omega arith

  pub thread-Acts : (t u : Thread) (m : Shared spin) → Inv t u m → Acts t u m (thread spin t m)
  unfolding thread Acts
  thread-Acts locking u m v = elim (Option-cases (spin.lock m.lock)) [
    | inl e ↦ rw (Acts, thread, e) (inr (refl, law.lock_waits m.lock e))
    | inr (l, e) ↦
        let (free, taken) = law.lock_takes m.lock l e in
        rw (Acts, thread, e)
          (
            record {
              total = v.total;
              held = omega (arith, v.held, ap bit free, ap bit taken);
              local = omega arith;
              local_other = v.local_other;
            },
            omega arith,
          )
  ]
  thread-Acts (looping i) u m v = elim (Bool-cases (ltb i 10000)) [
    | inl e ↦
        rw (Acts, thread, e)
          (
            record {
              total = v.total;
              held = v.held;
              local = ltb→lt i 10000 e;
              local_other = v.local_other;
            },
            omega arith,
          )
    | inr e ↦
        let at_end : i ≡ 10000 = ground (arith, v.local) in
        rw (Acts, thread, e)
          (
            record {
              total = omega (arith, v.total);
              held = v.held;
              local = tt;
              local_other = v.local_other;
            },
            omega arith,
          )
  ]
  thread-Acts (loading i) u m v = (
    record { total = v.total; held = v.held; local = (v.local, refl); local_other = v.local_other },
    omega arith,
  )
  thread-Acts (storing i value) u m v = (
    record {
      total = omega (arith, v.total, v.local.0, v.local.1, added-le u m.a v.local_other);
      held = v.held;
      local = omega (arith, v.local.0);
      local_other =
          Local-outside u m.a (add32 value 1)
            (alone 1 (holding u) (law.is_locked m.lock) v.held refl) v.local_other;
    },
    omega (arith, v.local.0),
  )
  thread-Acts unlocking u m v = (
    record {
      total = v.total;
      held = omega (
        arith,
        ap bit (law.unlock_frees m.lock),
        alone 1 (holding u) (law.is_locked m.lock) v.held refl,
      );
      local = tt;
      local_other = v.local_other;
    },
    omega arith,
  )
  thread-Acts returned u m v = inl refl
