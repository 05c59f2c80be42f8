-- ===== src/Threads/Spin/Count.antt =====
-- Lab3/1/1_2/1_2.c: the lock keeps the threads apart, and no count is lost.
use mathlib.Core.Path.{subst}
use fall_oslab.Base.{
  ℕ, suc, ◌+◌, ◌≤◌, ◌<◌, ◌≡◌, refl, Option, none, some, arith, ltb, ◌==◌, if◌then◌else◌, add32, inl,
  inr, ◌∙◌, Bool-cases, ltb→lt, ==→eq,
}
use fall_oslab.Threads.Steps.{Run, here, next}
use fall_oslab.Threads.Spin.{
  Thread, for_test, lock_mov, lock_xchg, lock_test, load_a, store_a, unlock_mov, unlock_xchg,
  returned, Shared, rounds, thread, Process, Step, by_t1, by_t2, created,
}

-- 1 for a thread that has taken the lock, from its xchg on.
abbrev pub holds : Thread → ℕ
holds (for_test i) = 0
holds (lock_mov i) = 0
holds (lock_xchg i eax) = 0
holds (lock_test i eax) = eax
holds (load_a i) = 1
holds (store_a i value) = 1
holds (unlock_mov i) = 1
holds (unlock_xchg i eax) = 1
holds returned = 0

-- 1 for a thread between spin_lock and spin_unlock.
abbrev pub inside : Thread → ℕ
inside (for_test i) = 0
inside (lock_mov i) = 0
inside (lock_xchg i eax) = 0
inside (lock_test i eax) = 0
inside (load_a i) = 1
inside (store_a i value) = 1
inside (unlock_mov i) = 1
inside (unlock_xchg i eax) = 1
inside returned = 0

-- How often a thread has stored its count.
abbrev counted : Thread → ℕ
counted (for_test i) = i
counted (lock_mov i) = i
counted (lock_xchg i eax) = i
counted (lock_test i eax) = i
counted (load_a i) = i
counted (store_a i value) = i
counted (unlock_mov i) = suc i
counted (unlock_xchg i eax) = suc i
counted returned = rounds

-- The registers of a thread, for the value of the counter.
abbrev pub Ok : Thread → ℕ → Type 0
Ok (for_test i) a = i ≤ rounds
Ok (lock_mov i) a = i < rounds
Ok (lock_xchg i eax) a = (i < rounds) × (eax ≡ 0)
Ok (lock_test i eax) a = (i < rounds) × (eax ≤ 1)
Ok (load_a i) a = i < rounds
Ok (store_a i value) a = (i < rounds) × (value ≡ a)
Ok (unlock_mov i) a = i < rounds
Ok (unlock_xchg i eax) a = (i < rounds) × (eax ≡ 1)
Ok returned a = Unit

pub record Inv (t u : Thread) (m : Shared) : Type 0 where
  pub one : m.lock + holds t + holds u ≡ 1
  pub total : m.a ≡ counted t + counted u
  pub left : Ok t m.a
  pub right : Ok u m.a

-- A thread without the lock has not loaded the counter.
Ok-apart : (u : Thread) (a b : ℕ) → holds u ≡ 0 → Ok u a → Ok u b
Ok-apart (for_test i) a b h o = o
Ok-apart (lock_mov i) a b h o = o
Ok-apart (lock_xchg i eax) a b h o = o
Ok-apart (lock_test i eax) a b h o = o
Ok-apart (load_a i) a b h o = o
Ok-apart (store_a i value) a b h o = absurd (omega arith)
Ok-apart (unlock_mov i) a b h o = o
Ok-apart (unlock_xchg i eax) a b h o = o
Ok-apart returned a b h o = tt

counted-le : (u : Thread) (a : ℕ) → Ok u a → counted u ≤ rounds
counted-le (for_test i) a o = omega arith
counted-le (lock_mov i) a o = omega arith
counted-le (lock_xchg i eax) a o = omega (arith, o.0)
counted-le (lock_test i eax) a o = omega (arith, o.0)
counted-le (load_a i) a o = omega arith
counted-le (store_a i value) a o = omega (arith, o.0)
counted-le (unlock_mov i) a o = omega arith
counted-le (unlock_xchg i eax) a o = omega (arith, o.0)
counted-le returned a o = omega arith

Inv-swap : (t u : Thread) (m : Shared) → Inv t u m → Inv u t m
Inv-swap t u m v = record {
  one = omega (arith, v.one);
  total = omega (arith, v.total);
  left = v.right;
  right = v.left;
}

abbrev Keeps : Thread → Option (Thread × Shared) → Type 0
Keeps u none = Unit
Keeps u (some (t, m)) = Inv t u m

for_test-Inv :
    (i : ℕ) (u : Thread) (m : Shared)
    → Inv (for_test i) u m
    → Inv (if ltb i rounds then lock_mov i else returned) u m
for_test-Inv i u m v = elim (Bool-cases (ltb i rounds)) [
  | inl e ↦
      rw e (record { one = v.one; total = v.total; left = ltb→lt i rounds e; right = v.right })
  | inr e ↦
      let h : rounds ≤ i = ground arith in
      rw e
        (record { one = v.one; total = omega (arith, v.total, v.left); left = tt; right = v.right })
]

lock_test-Inv :
    (i eax : ℕ) (u : Thread) (m : Shared)
    → Inv (lock_test i eax) u m
    → Inv (if eax == 0 then lock_mov i else load_a i) u m
lock_test-Inv i eax u m v = elim (Bool-cases (eax == 0)) [
  | inl e ↦
      let h = ==→eq eax 0 e in
      rw e
        (record { one = omega (arith, v.one); total = v.total; left = v.left.0; right = v.right })
  | inr e ↦
      let h : 1 ≤ eax = ground arith in
      rw e (record {
        one = omega (arith, v.one, v.left.1);
        total = v.total;
        left = v.left.0;
        right = v.right;
      })
]

thread-Inv : (t u : Thread) (m : Shared) → Inv t u m → Keeps u (thread t m)
unfolding thread
thread-Inv (for_test i) u m v = for_test-Inv i u m v
thread-Inv (lock_mov i) u m v = record {
  one = v.one;
  total = v.total;
  left = (v.left, refl);
  right = v.right;
}
thread-Inv (lock_xchg i eax) u m v = record {
  one = omega (arith, v.one, v.left.1);
  total = v.total;
  left = (v.left.0, omega (arith, v.one));
  right = v.right;
}
thread-Inv (lock_test i eax) u m v = lock_test-Inv i eax u m v
thread-Inv (load_a i) u m v = record {
  one = v.one;
  total = v.total;
  left = (v.left, refl);
  right = v.right;
}
thread-Inv (store_a i value) u m v = record {
  one = v.one;
  total = omega (arith, v.total, v.left.0, v.left.1, counted-le u m.a v.right);
  left = v.left.0;
  right = Ok-apart u m.a (add32 value 1) (omega (arith, v.one)) v.right;
}
thread-Inv (unlock_mov i) u m v = record {
  one = v.one;
  total = v.total;
  left = (v.left, refl);
  right = v.right;
}
thread-Inv (unlock_xchg i eax) u m v = record {
  one = omega (arith, v.one, v.left.1);
  total = omega (arith, v.total);
  left = omega (arith, v.left.0);
  right = v.right;
}
thread-Inv returned u m v = tt

pub Step-Inv : {w w' : Process} → Step w w' → Inv w.t1 w.t2 w.shared → Inv w'.t1 w'.t2 w'.shared
Step-Inv {w} (by_t1 t m e) v = subst (Keeps w.t2) e (thread-Inv w.t1 w.t2 w.shared v)
Step-Inv {w} (by_t2 t m e) v =
    Inv-swap t w.t1 m
      (subst (Keeps w.t1) e (thread-Inv w.t2 w.t1 w.shared (Inv-swap w.t1 w.t2 w.shared v)))

pub Run-Inv : {w : Process} → Run Step created w → Inv w.t1 w.t2 w.shared
Run-Inv here = record { one = refl; total = refl; left = omega arith; right = omega arith }
Run-Inv (next run st) = Step-Inv st (Run-Inv run)

inside-le : (t : Thread) → inside t ≤ holds t
inside-le (for_test i) = omega arith
inside-le (lock_mov i) = omega arith
inside-le (lock_xchg i eax) = omega arith
inside-le (lock_test i eax) = omega arith
inside-le (load_a i) = omega arith
inside-le (store_a i value) = omega arith
inside-le (unlock_mov i) = omega arith
inside-le (unlock_xchg i eax) = omega arith
inside-le returned = omega arith

module _ {w : Process} (run : Run Step created w) where
  -- In any state that the two threads reach, at most one of them is between spin_lock and
  -- spin_unlock.
  pub spin_exclusive : inside w.t1 + inside w.t2 ≤ 1
  spin_exclusive = omega (arith, (Run-Inv run).one, inside-le w.t1, inside-le w.t2)

  -- When both threads have returned, in whatever order their instructions ran, the counter is
  -- 20000.
  pub spin_counts : w.t1 ≡ returned → w.t2 ≡ returned → w.shared.a ≡ 20000
  spin_counts e f = (Run-Inv run).total ∙ rw (e, f) refl
