-- ===== src/Threads/Matrix/Locked/Finish.antt =====
-- Lab3/2/2_2.c: neither thread waits for the lock for ever.
use mathlib.Core.Path.{subst}
use fall_oslab.Base.{
  ℕ, ◌+◌, ◌^◌, ◌≤◌, ◌<◌, ◌≡◌, refl, ap, Option, some, arith, ◌⊎◌, inl, inr, Option-cases,
  Bool-cases, add32, ◌==◌, ==→eq,
}
use fall_oslab.Threads.Steps.{Run, append, finish, less_left, less_right}
use fall_oslab.Threads.Lock.{SpinLock, IsSpinLock}
use fall_oslab.Threads.Matrix.{Matrix, matrix_row_x, Bounds, for_i, loop, product}
use fall_oslab.Threads.Matrix.Loop.{rank, Fits, Loaded, Moves, Goes, loop-Goes}
use fall_oslab.Threads.Matrix.Locked.{
  Thread, locking, looping, unlocking, returned, bounds1, bounds2, Shared, thread, Process, Step,
  by_thread1, by_thread2, created,
}
use fall_oslab.Threads.Matrix.Locked.Product.{
  position, inside, bit, bit-le, LockInv, Step-LockInv, Run-LockInv, locked_product,
}

-- The actions that a thread has left if it never waits.
abbrev actions : Bounds → Thread → ℕ
actions b locking = rank b (for_i b.row_from) + 3
actions b (looping p) = rank b p + 2
actions b unlocking = 1
actions b returned = 0

less_two : {a b : ℕ} → a < b → a + 2 < b + 2
less_two h = omega arith

module _ {L : Type 0} (spin : SpinLock L) (law : IsSpinLock spin) (x y : Matrix) where
  abbrev Advances : (b : Bounds) → Thread → Option (Thread × Shared spin) → Type 0
  Advances b t o = (p : Thread × Shared spin) × (o ≡ some p) × (actions b p.0 < actions b t)

  -- A thread that has the lock or can take it comes nearer to its end.
  advances :
      (b : Bounds) (t : Thread) (m : Shared spin)
      → Fits b (position b t)
      → Loaded (position b t) m.z
      → bit (law.is_locked m.lock) ≡ inside t
      → (t ≡ returned) ⊎ Advances b t (thread spin b x y t m)
  unfolding thread
  advances b locking m h l e = elim (Option-cases (spin.lock m.lock)) [
    | inl f ↦ absurd (omega (arith, e, ap bit (law.lock_waits m.lock f)))
    | inr (k, f) ↦ rw (Advances, thread, f) (inr (_, refl, omega arith))
  ]
  advances b (looping p) m h l e =
      let goes = loop-Goes b x y p m.z h l in
      elim (Option-cases (loop b x y p m.z)) [
        | inl f ↦ rw (Advances, thread, f) (inr (_, refl, omega arith))
        | inr (q, f) ↦
            let moves : Moves b x y p m.z q.0 q.1 = subst (Goes b x y p m.z) f goes in
            rw (Advances, thread, f) (inr (_, refl, less_two moves.less))
      ]
  advances b unlocking m h l e = inr (_, refl, omega arith)
  advances b returned m h l e = inl refl

  abbrev left : Process spin → ℕ
  left w = actions bounds1 w.t1 + actions bounds2 w.t2

  module _ (z0 : Matrix) where
    abbrev Good : Process spin → Type 0
    Good w = LockInv spin law x y z0 bounds1 bounds2 w.t1 w.t2 w.shared

    abbrev Final : Process spin → Type 0
    Final w = (w.t1 ≡ returned) × (w.t2 ≡ returned)

    progress :
        (w : Process spin)
        → Good w
        → ((w' : Process spin) × Step spin x y w w' × Good w' × (left w' < left w)) ⊎ Final w
    progress w v = elim (Bool-cases (inside w.t2 == 0)) [
      | inl e ↦
          let h = ==→eq (inside w.t2) 0 e in
          elim (advances bounds1 w.t1 w.shared v.inv.fits v.inv.loaded (omega (arith, v.one))) [
            | inr (p, e, d) ↦
                let step = by_thread1 p.0 p.1 e in
                inl (_, step, Step-LockInv spin law x y z0 step v, less_left _ d)
            | inl r ↦
                elim (advances bounds2 w.t2 w.shared v.inv.fits2 v.inv.loaded2
                  (omega (arith, v.one, ap inside r))) [
                    | inr (p, e, d) ↦
                        let step = by_thread2 p.0 p.1 e in
                        inl (_, step, Step-LockInv spin law x y z0 step v, less_right _ d)
                    | inl s ↦ inr (r, s)
                  ]
          ]
      | inr e ↦
          let h : 1 ≤ inside w.t2 = ground arith in
          elim (advances bounds2 w.t2 w.shared v.inv.fits2 v.inv.loaded2
            (omega (arith, v.one, bit-le (law.is_locked w.shared.lock)))) [
              | inr (p, e, d) ↦
                  let step = by_thread2 p.0 p.1 e in
                  inl (_, step, Step-LockInv spin law x y z0 step v, less_right _ d)
              | inl s ↦ absurd (omega (arith, ap inside s))
            ]
    ]

    -- From every state that the two threads reach, in any order of their actions, they can go on to
    -- their ends, and each element is its first value and the element of the product there, as 32
    -- bits. The first values are any ints.
    pub locked_finish :
        {w : Process spin}
        → ((p q : ℕ) → z0 p q < 2 ^ 32)
        → Run (Step spin x y) (created spin z0) w
        → (w' : Process spin) × Run (Step spin x y) w w'
          × (w'.t1 ≡ returned)
          × (w'.t2 ≡ returned)
          × ((p q : ℕ)
              → p < matrix_row_x
              → q < 4
              → w'.shared.z p q ≡ add32 (z0 p q) (product x y p q))
    locked_finish {w} ints run =
        let (w', more, (e, f)) =
          finish left Good Final progress w (Run-LockInv spin law x y z0 ints run) in
        (w', more, e, f, locked_product spin law x y z0 ints (append run more) e f)
