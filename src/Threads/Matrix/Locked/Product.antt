-- ===== src/Threads/Matrix/Locked/Product.antt =====
-- Lab3/2/2_2.c: under the lock, the two halves of the sums make the product.
use mathlib.Core.Path.{subst}
use fall_oslab.Base.{
  ℕ, ◌+◌, ◌/◌, ◌^◌, ◌≤◌, ◌<◌, ◌≡◌, refl, ap, ◌∙◌, Option, none, some, Bool, true, false, arith, inl,
  inr, add32, if◌then◌else◌, Option-cases,
}
use fall_oslab.Threads.Steps.{Run, here, next}
use fall_oslab.Threads.Lock.{SpinLock, IsSpinLock}
use fall_oslab.Threads.Matrix.{
  Matrix, matrix_row_x, matrix_row_y, Bounds, LoopPc, for_i, loop, product,
}
use fall_oslab.Threads.Matrix.Loop.{part, Loaded, Moves, Goes, loop-Goes, part-end}
use fall_oslab.Threads.Matrix.Sums.{dot-split}
use fall_oslab.Threads.Matrix.Inv.{Inv, Inv-start, Inv-swap, Moves-Inv, ended_element}
use fall_oslab.Threads.Matrix.Locked.{
  Thread, locking, looping, unlocking, returned, bounds1, bounds2, Shared, thread, Process, Step,
  by_thread1, by_thread2, created,
}

-- How far a thread has come in its loops.
abbrev pub position : Bounds → Thread → LoopPc
position b locking = for_i b.row_from
position b (looping p) = p
position b unlocking = for_i b.row_to
position b returned = for_i b.row_to

-- 1 for a thread that has the lock.
abbrev pub inside : Thread → ℕ
inside locking = 0
inside (looping p) = 1
inside unlocking = 1
inside returned = 0

abbrev pub bit : Bool → ℕ
bit b = if b then 1 else 0

pub bit-le : (b : Bool) → bit b ≤ 1
bit-le true = omega arith
bit-le false = omega arith

-- A thread without the lock has no value of z loaded.
Loaded-outside : (d : Bounds) (u : Thread) (z : Matrix) → inside u ≡ 0 → Loaded (position d u) z
Loaded-outside d locking z e = tt
Loaded-outside d (looping p) z e = absurd (omega arith)
Loaded-outside d unlocking z e = tt
Loaded-outside d returned z e = tt

add_swap : (a b : ℕ) {d : ℕ} → a + b ≡ d → b + a ≡ d
add_swap a b e = omega arith

module _ {L : Type 0} (spin : SpinLock L) (law : IsSpinLock spin) (x y z0 : Matrix) where
  pub record LockInv (b d : Bounds) (t u : Thread) (m : Shared spin) : Type 0 where
    pub one : bit (law.is_locked m.lock) ≡ inside t + inside u
    pub inv : Inv x y z0 b d (position b t) (position d u) m.z

  abbrev Keeps : (b d : Bounds) → Thread → Option (Thread × Shared spin) → Type 0
  Keeps b d u none = Unit
  Keeps b d u (some (t, m)) = LockInv b d t u m

  locking-Inv :
      (b d : Bounds) (u : Thread) (m : Shared spin)
      → LockInv b d locking u m
      → Keeps b d u (thread spin b x y locking m)
  unfolding thread
  locking-Inv b d u m v = elim (Option-cases (spin.lock m.lock)) [
    | inl e ↦ rw (Keeps, thread, e) tt
    | inr (l, e) ↦
        let (free, taken) = law.lock_takes m.lock l e in
        rw (Keeps, thread, e)
          (record { one = omega (arith, v.one, ap bit free, ap bit taken); inv = v.inv })
  ]

  looping-Inv :
      (b d : Bounds) (p : LoopPc) (u : Thread) (m : Shared spin)
      → LockInv b d (looping p) u m
      → Keeps b d u (thread spin b x y (looping p) m)
  unfolding thread
  looping-Inv b d p u m v =
      let goes = loop-Goes b x y p m.z v.inv.fits v.inv.loaded in
      let outside : inside u ≡ 0 = omega (arith, v.one, bit-le (law.is_locked m.lock)) in
      elim (Option-cases (loop b x y p m.z)) [
        | inl e ↦
            let end : p ≡ for_i b.row_to = subst (Goes b x y p m.z) e goes in
            rw (Keeps, thread, e)
              (record {
                one = v.one;
                inv = subst (λ q. Inv x y z0 b d q (position d u) m.z) end v.inv;
              })
        | inr (q, e) ↦
            let moves : Moves b x y p m.z q.0 q.1 = subst (Goes b x y p m.z) e goes in
            rw (Keeps, thread, e)
              (record {
                one = v.one;
                inv =
                    Moves-Inv x y z0 b d p (position d u) m.z q.0 q.1 moves v.inv
                      (Loaded-outside d u q.1 outside);
              })
      ]

  thread-Inv :
      (b d : Bounds) (t u : Thread) (m : Shared spin)
      → LockInv b d t u m
      → Keeps b d u (thread spin b x y t m)
  unfolding thread
  thread-Inv b d locking u m v = locking-Inv b d u m v
  thread-Inv b d (looping p) u m v = looping-Inv b d p u m v
  thread-Inv b d unlocking u m v = record {
    one = omega (arith, v.one, bit-le (law.is_locked m.lock), ap bit (law.unlock_frees m.lock));
    inv = v.inv;
  }
  thread-Inv b d returned u m v = tt

  LockInv-swap :
      (b d : Bounds) (t u : Thread) (m : Shared spin)
      → b.matrix_col_y ≡ d.matrix_col_y
      → LockInv b d t u m
      → LockInv d b u t m
  LockInv-swap b d t u m e v = record {
    one = omega (arith, v.one);
    inv = Inv-swap x y z0 b d (position b t) (position d u) m.z e v.inv;
  }

  pub Step-LockInv :
      {w w' : Process spin}
      → Step spin x y w w'
      → LockInv bounds1 bounds2 w.t1 w.t2 w.shared
      → LockInv bounds1 bounds2 w'.t1 w'.t2 w'.shared
  Step-LockInv {w} (by_thread1 t m e) v =
      subst (Keeps bounds1 bounds2 w.t2) e (thread-Inv bounds1 bounds2 w.t1 w.t2 w.shared v)
  Step-LockInv {w} (by_thread2 t m e) v = LockInv-swap bounds2 bounds1 t w.t1 m refl (
      subst (Keeps bounds2 bounds1 w.t1) e (
        thread-Inv bounds2 bounds1 w.t2 w.t1 w.shared
          (LockInv-swap bounds1 bounds2 w.t1 w.t2 w.shared refl v)))

  module _ (ints : (p q : ℕ) → z0 p q < 2 ^ 32) where
    pub Run-LockInv :
        {w : Process spin}
        → Run (Step spin x y) (created spin z0) w
        → LockInv bounds1 bounds2 w.t1 w.t2 w.shared
    Run-LockInv here = record {
      one = ap bit law.init_free;
      inv =
          Inv-start x y z0 bounds1 bounds2 ints (omega arith, omega arith)
            (omega arith, omega arith);
    }
    Run-LockInv (next run st) = Step-LockInv st (Run-LockInv run)

    -- When both threads have returned, in whatever order they took the lock, each element is its
    -- first value and the element of the product, as 32 bits. The first values are what malloc
    -- gave: any ints.
    pub locked_product :
        {w : Process spin}
        → Run (Step spin x y) (created spin z0) w
        → w.t1 ≡ returned
        → w.t2 ≡ returned
        → (p q : ℕ) → p < matrix_row_x
        → q < 4
        → w.shared.z p q ≡ add32 (z0 p q) (product x y p q)
    locked_product {w} run end1 end2 p q g k =
        ended_element (z0 p q) ((Run-LockInv run).inv.total p q k)
          (ap (λ t. part bounds1 x y (position bounds1 t) p q) end1
            ∙ part-end bounds1 x y p q (omega arith) g)
          (ap (λ t. part bounds2 x y (position bounds2 t) p q) end2
            ∙ part-end bounds2 x y p q (omega arith) g)
          (add_swap _ _
            (dot-split x y p q 0 (matrix_row_y / 2) matrix_row_y (omega arith) (omega arith)))
