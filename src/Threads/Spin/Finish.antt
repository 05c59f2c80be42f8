-- ===== src/Threads/Spin/Finish.antt =====
-- Lab3/1/1_2/1_2.c: neither thread can wait for ever, if both are run in turn.
use fall_oslab.Base.{
  ℕ, ◌+◌, ◌*◌, ◌-◌, ◌≤◌, ◌<◌, ◌≡◌, refl, ap, Option, some, arith, ltb, ◌==◌, if◌then◌else◌, ◌⊎◌,
  inl, inr, Bool-cases, ==→eq,
}
use fall_oslab.Threads.Steps.{Run, append, finish}
use fall_oslab.Threads.Spin.{
  Thread, for_test, lock_mov, lock_xchg, lock_test, load_a, store_a, unlock_mov, unlock_xchg,
  returned, Shared, rounds, thread, Process, Step, by_t1, by_t2, created,
}
use fall_oslab.Threads.Spin.Count.{holds, Ok, Inv, Step-Inv, Run-Inv, spin_counts}

-- The instructions that a thread has left if it never waits.
abbrev rank : Thread → ℕ
rank (for_test i) = 9 * (rounds - i) + 1
rank (lock_mov i) = 9 * (rounds - i)
rank (lock_xchg i eax) = 9 * (rounds - i) - 1
rank (lock_test i eax) = if eax == 0 then 9 * (rounds - i) + 1 else 9 * (rounds - i) - 2
rank (load_a i) = 9 * (rounds - i) - 3
rank (store_a i value) = 9 * (rounds - i) - 4
rank (unlock_mov i) = 9 * (rounds - i) - 5
rank (unlock_xchg i eax) = 9 * (rounds - i) - 6
rank returned = 0

abbrev Advances : Thread → Option (Thread × Shared) → Type 0
Advances t o = (p : Thread × Shared) × (o ≡ some p) × (rank p.0 < rank t)

for_test-rank :
    (i : ℕ) → rank (if ltb i rounds then lock_mov i else returned) < 9 * (rounds - i) + 1
for_test-rank i = elim (Bool-cases (ltb i rounds)) [
  | inl e ↦ rw e (omega arith)
  | inr e ↦ rw e (omega arith)
]

lock_test-rank :
    (i eax : ℕ)
    → i < rounds
    → rank (if eax == 0 then lock_mov i else load_a i) < rank (lock_test i eax)
lock_test-rank i eax h = elim (Bool-cases (eax == 0)) [
  | inl e ↦ rw e (omega arith)
  | inr e ↦ rw e (omega arith)
]

-- A thread that has the lock or can take it comes nearer to its end.
advances :
    (t : Thread) (m : Shared)
    → Ok t m.a
    → m.lock + holds t ≡ 1
    → (t ≡ returned) ⊎ Advances t (thread t m)
unfolding thread
advances (for_test i) m o h = inr (_, refl, for_test-rank i)
advances (lock_mov i) m o h = inr (_, refl, omega (arith, o))
advances (lock_xchg i eax) m o h = inr (_, refl, ground (arith, o.0))
advances (lock_test i eax) m o h = inr (_, refl, lock_test-rank i eax o.0)
advances (load_a i) m o h = inr (_, refl, omega (arith, o))
advances (store_a i value) m o h = inr (_, refl, omega (arith, o.0))
advances (unlock_mov i) m o h = inr (_, refl, omega (arith, o))
advances (unlock_xchg i eax) m o h = inr (_, refl, omega (arith, o.0))
advances returned m o h = inl refl

abbrev left : Process → ℕ
left w = rank w.t1 + rank w.t2

progress :
    (w : Process)
    → Inv w.t1 w.t2 w.shared
    → ((w' : Process) × Step w w' × Inv w'.t1 w'.t2 w'.shared × (left w' < left w))
      ⊎ ((w.t1 ≡ returned) × (w.t2 ≡ returned))
progress w v = elim (Bool-cases (holds w.t2 == 0)) [
  | inl e ↦
      let h = ==→eq (holds w.t2) 0 e in
      elim (advances w.t1 w.shared v.left (omega (arith, v.one))) [
        | inr (p, e, d) ↦ inl (_, by_t1 p.0 p.1 e, Step-Inv (by_t1 p.0 p.1 e) v, omega arith)
        | inl r ↦ elim (advances w.t2 w.shared v.right (omega (arith, v.one, ap holds r))) [
          | inr (p, e, d) ↦ inl (_, by_t2 p.0 p.1 e, Step-Inv (by_t2 p.0 p.1 e) v, omega arith)
          | inl s ↦ inr (r, s)
        ]
      ]
  | inr e ↦
      let h : 1 ≤ holds w.t2 = ground arith in
      elim (advances w.t2 w.shared v.right (omega (arith, v.one))) [
        | inr (p, e, d) ↦ inl (_, by_t2 p.0 p.1 e, Step-Inv (by_t2 p.0 p.1 e) v, omega arith)
        | inl s ↦ absurd (omega (arith, ap holds s))
      ]
]

abbrev Good : Process → Type 0
Good w = Inv w.t1 w.t2 w.shared

abbrev Final : Process → Type 0
Final w = (w.t1 ≡ returned) × (w.t2 ≡ returned)

-- From every state that the two threads reach, in any order of their instructions, they can go on
-- to their ends, and the counter is 20000 there.
pub spin_finishes :
    {w : Process}
    → Run Step created w
    → (w' : Process) × Run Step w w'
      × (w'.t1 ≡ returned)
      × (w'.t2 ≡ returned)
      × (w'.shared.a ≡ 20000)
spin_finishes {w} run =
    let (w', more, (e, f)) = finish left Good Final progress w (Run-Inv run) in
    (w', more, e, f, spin_counts (append run more) e f)
